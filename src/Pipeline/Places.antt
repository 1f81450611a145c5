-- ===== src/Pipeline/Places.antt =====
-- Where the documents of internal/analyzers/pipeline.go are, and what a step does to that: the channel of documents
-- is place 0, the workers and the channel of each stage follow, and the channel of results is place 6.
use ideas.Base.{
  ℕ, suc, ◌+◌, ltb, List, [], ◌∷◌, ◌++◌, Option, none, some, ◌≡◌, ap, length, get_elem?, set, arith,
  Bool-cases, inl, inr, if-holds,
}
use ideas.Base.Tally.{tally, tally-append, tally-set}
use ideas.Base.Text.{Bytes}
use ideas.Pipeline.Extraction.{with_analysis_timeout}
use ideas.Pipeline.Flow.{
  Worker, AnalysisPipeline, idle, busy, Step, blocked, panicked, went, Taken, take_one, config_for,
  start_extraction, start_processing, stored_at, start_storage, held, hand_over, end_extraction,
  end_processing, end_storage, extracted, work_on, extract_begin, extract_end, process_begin,
  process_end, store_begin, store_end, step,
}
use ideas.Pipeline.Identity.{processing_round-IsSame, SameIfAny, storage_round-IsSame}
use ideas.Pipeline.Uses.{extraction_round-Keeps}
use ideas.Pipeline.Rounds.{extraction_round, processing_round, storage_round}
use ideas.Pipeline.Steps.{TakenFrom, take_one-From, HeldAt, held-At}
use ideas.Pipeline.Types.{Deadline, PipelineMetrics, AnalysisResponse, PipelineDocument}

-- A weight for the place and the id of a request.
abbrev pub Weight : Type 0
Weight = ℕ → Bytes → ℕ

abbrev pub document_weight : Weight → ℕ → PipelineDocument → ℕ
document_weight f k d = f k d.response.request_id

abbrev pub holds_weight : Weight → ℕ → Option PipelineDocument → ℕ
holds_weight f k none = 0
holds_weight f k (some d) = document_weight f k d

abbrev pub worker_weight : Weight → ℕ → Worker → ℕ
worker_weight f k w = holds_weight f k w.holds

abbrev pub response_weight : Weight → AnalysisResponse → ℕ
response_weight f r = f 6 r.request_id

-- The weight of all documents and responses.
abbrev pub weigh : Weight → AnalysisPipeline → ℕ
weigh f p =
    tally (document_weight f 0) p.document_chan
    + tally (worker_weight f 1) p.extraction_workers
    + tally (document_weight f 2) p.processing_chan
    + tally (worker_weight f 3) p.processing_workers
    + tally (document_weight f 4) p.storage_chan
    + tally (worker_weight f 5) p.storage_workers
    + tally (response_weight f) p.result_chan

-- Something of one request went from the place k to the next one.
abbrev pub Advanced : Weight → ℕ → AnalysisPipeline → Step → Type 0
Advanced f k p blocked = Unit
Advanced f k p panicked = Unit
Advanced f k p (went q) = (id : Bytes) × (weigh f q + f k id ≡ weigh f p + f (suc k) id)

module _ (f : Weight) where
  -- The weights before and after a worker takes a document.
  begin-weight :
      (k i : ℕ) (ws : List Worker) (chan : List PipelineDocument) (t : Taken) (deadline : Deadline)
      (e : PipelineDocument)
      → TakenFrom i ws chan (some t)
      → e.response.request_id ≡ t.document.response.request_id
      → let id = t.document.response.request_id in
        tally (document_weight f k) t.rest
          + tally (worker_weight f (suc k)) (set ws i (busy deadline e))
          + f k id
        ≡ tally (document_weight f k) chan + tally (worker_weight f (suc k)) ws + f (suc k) id
  begin-weight k i ws chan t deadline e h same = omega (
    arith,
    ap (tally (document_weight f k)) h.1,
    ap (f (suc k)) same,
    ap (holds_weight f (suc k)) h.0.2,
    tally-set (worker_weight f (suc k)) ws i (busy deadline e) h.0.0 h.0.1,
  )

  -- And before and after it sends one.
  end-weight :
      (k i : ℕ) (ws : List Worker) (chan : List PipelineDocument) (h : Worker × PipelineDocument)
      (deadline : Deadline)
      → HeldAt i ws (some h)
      → let id = h.1.response.request_id in
        tally (document_weight f (suc k)) (chan ++ (h.1 ∷ []))
          + tally (worker_weight f k) (set ws i (idle deadline))
          + f k id
        ≡ tally (document_weight f (suc k)) chan + tally (worker_weight f k) ws + f (suc k) id
  end-weight k i ws chan h deadline at = omega (
    arith,
    ap (holds_weight f k) at.1,
    tally-append (document_weight f (suc k)) chan (h.1 ∷ []),
    tally-set (worker_weight f k) ws i (idle deadline) h.0 at.0,
  )

  pub start_extraction-Advanced :
      (now i : ℕ) (p : AnalysisPipeline) (t : Option Taken)
      → TakenFrom i p.extraction_workers p.document_chan t
      → Advanced f 0 p (start_extraction now i p t)
  start_extraction-Advanced now i p none h = tt
  start_extraction-Advanced now i p (some t) h =
      let c = config_for p t.document in
      let deadline = with_analysis_timeout now c t.deadline in
      let w = extraction_round p.parts now deadline (work_on c p t.document) in
      let same = extraction_round-Keeps p.parts now deadline (work_on c p t.document) in
      (
        t.document.response.request_id,
        omega (
          arith,
          begin-weight 0 i p.extraction_workers p.document_chan t deadline
              (extracted w t.document.request.custom_config) h same.same.request_id,
        ),
      )

  pub start_processing-Advanced :
      (now i : ℕ) (p : AnalysisPipeline) (t : Option Taken)
      → TakenFrom i p.processing_workers p.processing_chan t
      → Advanced f 2 p (start_processing now i p t)
  start_processing-Advanced now i p none h = tt
  start_processing-Advanced now i p (some t) h =
      let c = config_for p t.document in
      let deadline = with_analysis_timeout now c t.deadline in
      let same = processing_round-IsSame p.parts now deadline c t.document in
      (
        t.document.response.request_id,
        omega (
          arith,
          begin-weight 2 i p.processing_workers p.processing_chan t deadline
              (processing_round p.parts now deadline c t.document) h same.request_id,
        ),
      )

  stored_at-Advanced :
      (i : ℕ) (deadline : Deadline) (p : AnalysisPipeline) (t : Taken)
      (o : Option (PipelineMetrics × PipelineDocument))
      → TakenFrom i p.storage_workers p.storage_chan (some t)
      → SameIfAny t.document o
      → Advanced f 4 p (stored_at i deadline p t o)
  stored_at-Advanced i deadline p t none h same = tt
  stored_at-Advanced i deadline p t (some r) h same = (
    t.document.response.request_id,
    omega
        (arith, begin-weight 4 i p.storage_workers p.storage_chan t deadline r.1 h same.request_id),
  )

  pub start_storage-Advanced :
      (now finished i : ℕ) (p : AnalysisPipeline) (t : Option Taken)
      → TakenFrom i p.storage_workers p.storage_chan t
      → Advanced f 4 p (start_storage now finished i p t)
  start_storage-Advanced now finished i p none h = tt
  start_storage-Advanced now finished i p (some t) h =
      let c = config_for p t.document in
      let deadline = with_analysis_timeout now c t.deadline in
      stored_at-Advanced i deadline p t
        (storage_round p.parts now finished deadline c p.metrics t.document) h
        (storage_round-IsSame p.parts now finished deadline c p.metrics t.document)

  pub end_extraction-Advanced :
      (i : ℕ) (p : AnalysisPipeline) (h : Option (Worker × PipelineDocument))
      → HeldAt i p.extraction_workers h
      → Advanced f 1 p (end_extraction p (hand_over p.extraction_workers p.processing_chan 15 i h))
  end_extraction-Advanced i p none at = tt
  end_extraction-Advanced i p (some h) at = elim (Bool-cases (ltb (length p.processing_chan) 15)) [
    | inl t ↦ rw t (
      h.1.response.request_id,
      omega (arith, end-weight 1 i p.extraction_workers p.processing_chan h h.0.deadline at),
    )
    | inr t ↦ rw t tt
  ]

  pub end_processing-Advanced :
      (i : ℕ) (p : AnalysisPipeline) (h : Option (Worker × PipelineDocument))
      → HeldAt i p.processing_workers h
      → Advanced f 3 p (end_processing p (hand_over p.processing_workers p.storage_chan 10 i h))
  end_processing-Advanced i p none at = tt
  end_processing-Advanced i p (some h) at = elim (Bool-cases (ltb (length p.storage_chan) 10)) [
    | inl t ↦ rw t (
      h.1.response.request_id,
      omega (arith, end-weight 3 i p.processing_workers p.storage_chan h h.0.deadline at),
    )
    | inr t ↦ rw t tt
  ]

  pub end_storage-Advanced :
      (i : ℕ) (p : AnalysisPipeline) (h : Option (Worker × PipelineDocument))
      → HeldAt i p.storage_workers h
      → Advanced f 5 p (end_storage i p h)
  end_storage-Advanced i p none at = tt
  end_storage-Advanced i p (some h) at =
      if-holds (Advanced f 5 p) (ltb (length p.result_chan) 30)
        (
          h.1.response.request_id,
          omega (
            arith,
            ap (holds_weight f 5) at.1,
            tally-append (response_weight f) p.result_chan (h.1.response ∷ []),
            tally-set (worker_weight f 5) p.storage_workers i (idle h.0.deadline) h.0 at.0,
          ),
        )
        tt

  -- The steps of the workers.
  pub extract_begin-Advanced :
      (now i : ℕ) (p : AnalysisPipeline) → Advanced f 0 p (step (extract_begin now i) p)
  unfolding step
  extract_begin-Advanced now i p =
      start_extraction-Advanced now i p (take_one i p.extraction_workers p.document_chan)
        (take_one-From i p.extraction_workers p.document_chan)

  pub extract_end-Advanced :
      (i : ℕ) (p : AnalysisPipeline) → Advanced f 1 p (step (extract_end i) p)
  unfolding step
  extract_end-Advanced i p =
      end_extraction-Advanced i p (held (get_elem? p.extraction_workers i))
        (held-At i p.extraction_workers)

  pub process_begin-Advanced :
      (now i : ℕ) (p : AnalysisPipeline) → Advanced f 2 p (step (process_begin now i) p)
  unfolding step
  process_begin-Advanced now i p =
      start_processing-Advanced now i p (take_one i p.processing_workers p.processing_chan)
        (take_one-From i p.processing_workers p.processing_chan)

  pub process_end-Advanced :
      (i : ℕ) (p : AnalysisPipeline) → Advanced f 3 p (step (process_end i) p)
  unfolding step
  process_end-Advanced i p =
      end_processing-Advanced i p (held (get_elem? p.processing_workers i))
        (held-At i p.processing_workers)

  pub store_begin-Advanced :
      (now finished i : ℕ) (p : AnalysisPipeline)
      → Advanced f 4 p (step (store_begin now finished i) p)
  unfolding step
  store_begin-Advanced now finished i p =
      start_storage-Advanced now finished i p (take_one i p.storage_workers p.storage_chan)
        (take_one-From i p.storage_workers p.storage_chan)

  pub store_end-Advanced : (i : ℕ) (p : AnalysisPipeline) → Advanced f 5 p (step (store_end i) p)
  unfolding step
  store_end-Advanced i p =
      end_storage-Advanced i p (held (get_elem? p.storage_workers i)) (held-At i p.storage_workers)
