-- ===== src/Pipeline/Flow.antt =====
-- The stages of internal/analyzers/pipeline.go with their channels and workers. The work on a document, from its
-- receiving to its sending, is one step, the sending another; the interleavings of the goroutines are the
-- sequences of steps. The channel extractionChan is made but never used, and stageDoneChan is never closed.
use ideas.Base.{
  ℕ, ◌/◌, min, ltb, List, [], ◌∷◌, ◌++◌, Option, none, some, length, get_elem?, set, replicate,
  if◌then◌else◌,
}
use ideas.Pipeline.Extraction.{Parts, Work, with_analysis_timeout}
use ideas.Pipeline.Rounds.{extraction_round, processing_round, storage_round}
use ideas.Pipeline.Types.{
  Deadline, stage_document, AnalysisConfig, PipelineMetrics, new_pipeline_metrics, AnalysisRequest,
  AnalysisResponse, new_analysis_result, PipelineDocument,
}

-- A goroutine of a stage: the deadline of its context, and the document it has.
pub record Worker : Type 0 where
  pub deadline : Deadline
  pub holds : Option PipelineDocument

pub record AnalysisPipeline : Type 0 where
  pub parts : Parts
  pub config : AnalysisConfig
  pub metrics : PipelineMetrics
  pub document_chan : List PipelineDocument
  pub processing_chan : List PipelineDocument
  pub storage_chan : List PipelineDocument
  pub result_chan : List AnalysisResponse
  pub extraction_workers : List Worker
  pub processing_workers : List Worker
  pub storage_workers : List Worker

abbrev pub idle : Deadline → Worker
idle deadline = record { deadline = deadline; holds = none }

-- NewAnalysisPipeline with startPipelineStages, where `deadline` is that of the context given.
unfoldable pub new_analysis_pipeline : Deadline → Parts → AnalysisConfig → AnalysisPipeline
new_analysis_pipeline deadline parts config = record {
  parts = parts;
  config = config;
  metrics = new_pipeline_metrics;
  document_chan = [];
  processing_chan = [];
  storage_chan = [];
  result_chan = [];
  extraction_workers = replicate (min config.max_concurrent_analyses 5) (idle deadline);
  processing_workers = replicate (min (config.max_concurrent_analyses / 2) 3) (idle deadline);
  storage_workers = replicate (min (config.max_concurrent_analyses / 3) 2) (idle deadline);
}

-- A step waits, the program panics, or the pipeline goes on.
pub data Step : Type 0 where
  blocked : Step
  panicked : Step
  went : AnalysisPipeline → Step

abbrev or_default : AnalysisConfig → Option AnalysisConfig → AnalysisConfig
or_default c none = c
or_default c (some custom) = custom

-- The custom configuration of the request, or that of the pipeline.
abbrev pub config_for : AnalysisPipeline → PipelineDocument → AnalysisConfig
config_for p d = or_default p.config d.request.custom_config

-- A configuration that an extraction changed is written where it came from.
abbrev pub pipeline_config :
    AnalysisConfig → AnalysisConfig → Option AnalysisConfig → AnalysisConfig
pipeline_config new old none = new
pipeline_config new old (some custom) = old

abbrev pub request_config : AnalysisConfig → Option AnalysisConfig → Option AnalysisConfig
request_config new none = none
request_config new (some custom) = some new

-- A document that an idle worker takes, with what stays in the channel.
pub record Taken : Type 0 where
  pub deadline : Deadline
  pub document : PipelineDocument
  pub rest : List PipelineDocument

abbrev pub taken :
    Deadline → PipelineDocument → List PipelineDocument → Option PipelineDocument → Option Taken
taken deadline d ds none = some (record { deadline = deadline; document = d; rest = ds })
taken deadline d ds (some held) = none

abbrev pub taken_by : Option Worker → PipelineDocument → List PipelineDocument → Option Taken
taken_by none d ds = none
taken_by (some w) d ds = taken w.deadline d ds w.holds

abbrev pub take_one : ℕ → List Worker → List PipelineDocument → Option Taken
take_one i ws [] = none
take_one i ws (d ∷ ds) = taken_by (get_elem? ws i) d ds

abbrev pub busy : Deadline → PipelineDocument → Worker
busy deadline d = record { deadline = deadline; holds = some d }

abbrev pub extracted : Work → Option AnalysisConfig → PipelineDocument
extracted w custom = record w.document {
  request = record w.document.request { custom_config = request_config w.config custom };
}

abbrev pub work_on : AnalysisConfig → AnalysisPipeline → PipelineDocument → Work
work_on c p d = record { config = c; metrics = p.metrics; document = d; extraction_errors = [] }

abbrev pub extraction_begun : ℕ → ℕ → AnalysisPipeline → Taken → AnalysisPipeline
extraction_begun now i p t =
    let c = config_for p t.document in
    let deadline = with_analysis_timeout now c t.deadline in
    let w = extraction_round p.parts now deadline (work_on c p t.document) in
    let custom = t.document.request.custom_config in
    record p {
      config = pipeline_config w.config p.config custom;
      metrics = w.metrics;
      document_chan = t.rest;
      extraction_workers = set p.extraction_workers i (busy deadline (extracted w custom));
    }

abbrev pub start_extraction : ℕ → ℕ → AnalysisPipeline → Option Taken → Step
start_extraction now i p none = blocked
start_extraction now i p (some t) = went (extraction_begun now i p t)

abbrev pub start_processing : ℕ → ℕ → AnalysisPipeline → Option Taken → Step
start_processing now i p none = blocked
start_processing now i p (some t) =
    let c = config_for p t.document in
    let deadline = with_analysis_timeout now c t.deadline in
    went (record p {
      processing_chan = t.rest;
      processing_workers =
          set p.processing_workers i
            (busy deadline (processing_round p.parts now deadline c t.document));
    })

abbrev pub stored_at :
    ℕ → Deadline → AnalysisPipeline → Taken → Option (PipelineMetrics × PipelineDocument) → Step
stored_at i deadline p t none = panicked
stored_at i deadline p t (some r) = went (record p {
  metrics = r.0;
  storage_chan = t.rest;
  storage_workers = set p.storage_workers i (busy deadline r.1);
})

-- The counts of outcomes are written outside the lock. As one step this is right for one storage worker; where there are
-- two, an increment of one may be lost to the other, which the steps leave out.
abbrev pub start_storage : ℕ → ℕ → ℕ → AnalysisPipeline → Option Taken → Step
start_storage now finished i p none = blocked
start_storage now finished i p (some t) =
    let c = config_for p t.document in
    let deadline = with_analysis_timeout now c t.deadline in
    stored_at i deadline p t (storage_round p.parts now finished deadline c p.metrics t.document)

-- The document of a worker that waits to send it.
abbrev pub held_in : Worker → Option PipelineDocument → Option (Worker × PipelineDocument)
held_in w none = none
held_in w (some d) = some (w, d)

abbrev pub held : Option Worker → Option (Worker × PipelineDocument)
held none = none
held (some w) = held_in w w.holds

abbrev pub hand_over :
    List Worker
    → List PipelineDocument
    → ℕ
    → ℕ
    → Option (Worker × PipelineDocument)
    → Option (List Worker × List PipelineDocument)
hand_over ws chan cap i none = none
hand_over ws chan cap i (some h) =
    if ltb (length chan) cap then some (set ws i (idle h.0.deadline), chan ++ (h.1 ∷ [])) else none

abbrev pub end_extraction : AnalysisPipeline → Option (List Worker × List PipelineDocument) → Step
end_extraction p none = blocked
end_extraction p (some h) = went (record p { extraction_workers = h.0; processing_chan = h.1 })

abbrev pub end_processing : AnalysisPipeline → Option (List Worker × List PipelineDocument) → Step
end_processing p none = blocked
end_processing p (some h) = went (record p { processing_workers = h.0; storage_chan = h.1 })

abbrev pub end_storage : ℕ → AnalysisPipeline → Option (Worker × PipelineDocument) → Step
end_storage i p none = blocked
end_storage i p (some h) =
    if ltb (length p.result_chan) 30
    then went (record p {
      storage_workers = set p.storage_workers i (idle h.0.deadline);
      result_chan = p.result_chan ++ (h.1.response ∷ []);
    })
    else blocked

-- What AnalyzeDocument makes of a request at a time.
abbrev pub pipeline_document : ℕ → AnalysisRequest → PipelineDocument
pipeline_document now request = record {
  request = request;
  response = record {
    request_id = request.request_id;
    document = request.document;
    result = none;
    processing_time = 0;
    extractor_used = [];
    error = none;
    timestamp = now;
  };
  result = new_analysis_result request.document.id;
  stage = stage_document;
  start_time = now;
  stage_start = now;
  errors = [];
}

-- The steps: a caller of AnalyzeDocument sends its document, the worker i of a stage begins or ends with one, and a
-- caller takes a response.
pub data Action : Type 0 where
  submit : ℕ → AnalysisRequest → Action
  extract_begin : ℕ → ℕ → Action
  extract_end : ℕ → Action
  process_begin : ℕ → ℕ → Action
  process_end : ℕ → Action
  store_begin : ℕ → ℕ → ℕ → Action
  store_end : ℕ → Action
  receive : Action

abbrev pub receive_from : AnalysisPipeline → List AnalysisResponse → Step
receive_from p [] = blocked
receive_from p (r ∷ rs) = went (record p { result_chan = rs })

unfoldable pub step : Action → AnalysisPipeline → Step
step (submit now request) p =
    if ltb (length p.document_chan) 10
    then went (record p { document_chan = p.document_chan ++ (pipeline_document now request ∷ []) })
    else blocked
step (extract_begin now i) p =
    start_extraction now i p (take_one i p.extraction_workers p.document_chan)
step (extract_end i) p = end_extraction p (
    hand_over p.extraction_workers p.processing_chan 15 i (held (get_elem? p.extraction_workers i)))
step (process_begin now i) p =
    start_processing now i p (take_one i p.processing_workers p.processing_chan)
step (process_end i) p =
    end_processing p
      (hand_over p.processing_workers p.storage_chan 10 i (held (get_elem? p.processing_workers i)))
step (store_begin now finished i) p =
    start_storage now finished i p (take_one i p.storage_workers p.storage_chan)
step (store_end i) p = end_storage i p (held (get_elem? p.storage_workers i))
step receive p = receive_from p p.result_chan

abbrev pub then_step : Step → (AnalysisPipeline → Step) → Step
then_step blocked f = blocked
then_step panicked f = panicked
then_step (went p) f = f p

-- Steps one after the other.
unfoldable pub run : List Action → AnalysisPipeline → Step
unfolding step
run [] p = went p
run (a ∷ rest) p = then_step (step a p) (run rest)
