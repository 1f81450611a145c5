-- ===== src/Pipeline/Examples.antt =====
-- Runs of internal/analyzers/pipeline.go.
use ideas.Base.{ℕ, ◌+◌, ◌≤◌, ◌≡◌, refl, false, List, [], ◌∷◌, none, some, length, arith}
use ideas.Base.Int.{pos}
use ideas.Base.Text.{Bytes, codes}
use ideas.Chunking.Types.{Document}
use ideas.Pipeline.Accounts.{
  first_of, in_flight, count_responses, responses, count_requests, requests, run-accounts,
}
use ideas.Pipeline.Analyze.{error_response, analyze_document}
use ideas.Pipeline.Callers.{run-Own}
use ideas.Pipeline.Drain.{run-drains}
use ideas.Pipeline.Idle.{IsReady}
use ideas.Pipeline.Extraction.{
  Parts, choose_extractor, entity_step, citation_step, topic_step, with_analysis_timeout,
  update_processing_time,
}
use ideas.Pipeline.Flow.{
  Worker, AnalysisPipeline, idle, new_analysis_pipeline, pipeline_document, Step, blocked, panicked,
  went, Taken, Action, submit, extract_begin, extract_end, process_begin, process_end, store_begin,
  store_end, receive, step, run,
}
use ideas.Pipeline.Outcomes.{finished, run-outcomes}
use ideas.Pipeline.Progress.{remaining, present}
use ideas.Pipeline.Rounds.{extract, extraction_round, processing_round, finalize, storage_round}
use ideas.Pipeline.Stale.{run-stale}
use ideas.Pipeline.Totals.{UsesCounted, run-UsesCounted}
use ideas.Pipeline.Types.{
  Returned, returned, Deadline, AnalysisConfig, default_analysis_config, PipelineMetrics,
  new_pipeline_metrics, AnalysisRequest, AnalysisResponse, EntityExtractionConfig,
}
use ideas.Pipeline.Unserved.{run-Unserved}
use ideas.Pipeline.Uses.{outcomes}

abbrev some_entities : Deadline → Document → EntityExtractionConfig → Returned (List ℕ)
some_entities deadline d c = returned (7 ∷ [])

abbrev parts : Parts
parts = record {
  entity_extractors = (codes "llm", some some_entities) ∷ [];
  citation_extractors = [];
  topic_extractors = [];
  unified_extractor = none;
  storage_manager = none;
  llm_client = none;
}

abbrev entities_only : AnalysisConfig
entities_only = record default_analysis_config {
  enable_citation_extraction = false;
  enable_topic_extraction = false;
}

abbrev request : Bytes → AnalysisRequest
request id = record {
  document = record { id = codes "d"; content = codes "text" };
  request_id = id;
  priority = pos 0;
  custom_config = none;
  has_callback = false;
}

abbrev fresh : AnalysisPipeline
unfolding new_analysis_pipeline
fresh = new_analysis_pipeline none parts entities_only

abbrev two_submitted : List Action
two_submitted =
    submit 5 (request (codes "a"))
    ∷ submit 6 (request (codes "b"))
    ∷ extract_begin 7 0
    ∷ extract_end 0
    ∷ process_begin 8 1
    ∷ process_end 1
    ∷ store_begin 9 10 0
    ∷ store_end 0
    ∷ receive
    ∷ []

-- Where a run leads.
abbrev reached : Step → AnalysisPipeline
unfolding new_analysis_pipeline
reached blocked = fresh
reached panicked = fresh
reached (went q) = q

abbrev after_two : AnalysisPipeline
unfolding new_analysis_pipeline run step extraction_round extract entity_step citation_step
    topic_step choose_extractor with_analysis_timeout processing_round storage_round finalize
    update_processing_time
after_two = reached (run two_submitted fresh)

run-accounts_example :
    in_flight (codes "a") after_two + count_responses (codes "a") (responses two_submitted fresh)
    ≡ count_requests (codes "a") (requests two_submitted)
unfolding new_analysis_pipeline run step extraction_round extract entity_step citation_step
    topic_step choose_extractor with_analysis_timeout processing_round storage_round finalize
    update_processing_time
run-accounts_example =
    run-accounts none parts entities_only two_submitted after_two (codes "a") refl

run-UsesCounted_example : UsesCounted after_two.metrics
unfolding new_analysis_pipeline run step extraction_round extract entity_step citation_step
    topic_step choose_extractor with_analysis_timeout processing_round storage_round finalize
    update_processing_time
run-UsesCounted_example = run-UsesCounted none parts entities_only two_submitted after_two refl

-- Five analyses at a time: there is one storage worker.
abbrev five_only : AnalysisConfig
five_only = record entities_only { max_concurrent_analyses = 5 }

abbrev five : AnalysisPipeline
unfolding new_analysis_pipeline
five = new_analysis_pipeline none parts five_only

abbrev five_after : AnalysisPipeline
unfolding new_analysis_pipeline run step extraction_round extract entity_step citation_step
    topic_step choose_extractor with_analysis_timeout processing_round storage_round finalize
    update_processing_time
five_after = reached (run two_submitted five)

run-outcomes_example :
    (length (let p = five in p.storage_workers) ≤ 1)
    × (outcomes five_after.metrics ≡ finished five_after + length (responses two_submitted five))
unfolding new_analysis_pipeline run step extraction_round extract entity_step citation_step
    topic_step choose_extractor with_analysis_timeout processing_round storage_round finalize
    update_processing_time
run-outcomes_example = run-outcomes none parts five_only two_submitted five_after (omega arith) refl

abbrev pair_only : AnalysisConfig
pair_only = record entities_only { max_concurrent_analyses = 2 }

abbrev pair_actions : List Action
pair_actions =
    submit 5 (request (codes "a"))
    ∷ extract_begin 7 0
    ∷ extract_end 0
    ∷ process_begin 8 0
    ∷ process_end 0
    ∷ []

abbrev after_pair : AnalysisPipeline
unfolding new_analysis_pipeline run step extraction_round extract entity_step citation_step
    topic_step choose_extractor with_analysis_timeout processing_round
after_pair = reached (run pair_actions (new_analysis_pipeline none parts pair_only))

run-Unserved_example : after_pair.result_chan ≡ []
unfolding new_analysis_pipeline run step extraction_round extract entity_step citation_step
    topic_step choose_extractor with_analysis_timeout processing_round
run-Unserved_example = run-Unserved none parts pair_only pair_actions after_pair (omega arith) refl

abbrev one_counted : PipelineMetrics
one_counted = record new_pipeline_metrics {
  total_analyses = 1;
  extractor_usage_count = (codes "llm", 1) ∷ [];
}

-- Nothing is in flight, and no response is left over.
abbrev at_rest : AnalysisPipeline
at_rest = record {
  parts = parts;
  config = entities_only;
  metrics = one_counted;
  document_chan = [];
  processing_chan = [];
  storage_chan = [];
  result_chan = [];
  extraction_workers = idle none ∷ [];
  processing_workers = idle none ∷ [];
  storage_workers = idle none ∷ [];
}

abbrev waiting : AnalysisPipeline
waiting = record at_rest { document_chan = pipeline_document 3 (request (codes "a")) ∷ [] }

waiting-IsReady : IsReady waiting
waiting-IsReady = record {
  extraction = omega arith;
  processing = omega arith;
  storage = omega arith;
  counted = omega arith;
  room = omega arith;
}

run-drains_example :
    (actions : List Action) × (q : AnalysisPipeline) × (run actions waiting ≡ went q)
    × (length actions ≡ 6)
    × (remaining q ≡ 0)
    × (length q.result_chan ≡ present waiting)
run-drains_example = run-drains 9 6 waiting waiting-IsReady refl

-- The stages work on one document.
abbrev one_way : List Action
one_way =
    extract_begin 4 0
    ∷ extract_end 0
    ∷ process_begin 5 0
    ∷ process_end 0
    ∷ store_begin 6 7 0
    ∷ store_end 0
    ∷ []

abbrev answered_a : AnalysisPipeline
unfolding new_analysis_pipeline run step extraction_round extract entity_step citation_step
    topic_step choose_extractor with_analysis_timeout processing_round storage_round finalize
    update_processing_time
answered_a = reached (run (submit 3 (request (codes "a")) ∷ one_way) at_rest)

abbrev head_of : AnalysisResponse → List AnalysisResponse → AnalysisResponse
head_of x [] = x
head_of x (y ∷ ys) = y

abbrev stale : AnalysisResponse
stale = error_response 1 2 (request (codes "z")) (codes "late")

abbrev response_a : AnalysisResponse
unfolding new_analysis_pipeline run step extraction_round extract entity_step citation_step
    topic_step choose_extractor with_analysis_timeout processing_round storage_round finalize
    update_processing_time
response_a = head_of stale answered_a.result_chan

run-Own_example :
    (response_a.request_id ≡ codes "a")
    × (analyze_document 3 8 (request (codes "a")) none (returned response_a) ≡ response_a)
unfolding new_analysis_pipeline run step extraction_round extract entity_step citation_step
    topic_step choose_extractor with_analysis_timeout processing_round storage_round finalize
    update_processing_time
run-Own_example =
    run-Own 3 3 8 (request (codes "a")) one_way at_rest answered_a response_a [] refl
      (tt, (tt, (tt, (tt, (tt, (tt, tt)))))) refl refl

abbrev with_stale : AnalysisPipeline
with_stale = record at_rest { result_chan = stale ∷ [] }

abbrev after_stale : AnalysisPipeline
unfolding new_analysis_pipeline run step extraction_round extract entity_step citation_step
    topic_step choose_extractor with_analysis_timeout processing_round storage_round finalize
    update_processing_time
after_stale = reached (run (submit 3 (request (codes "a")) ∷ one_way) with_stale)

run-stale_example :
    (r : AnalysisPipeline) × (step receive after_stale ≡ went r)
    × (first_of after_stale.result_chan ≡ stale ∷ [])
    × (analyze_document 3 8 (request (codes "a")) none (returned stale)
        ≡ error_response 3 8 (request (codes "a")) (codes "pipeline returned wrong response"))
    × (in_flight (codes "a") r ≡ in_flight (codes "a") with_stale + 1)
    × (in_flight (codes "z") r + 1 ≡ in_flight (codes "z") with_stale)
unfolding new_analysis_pipeline run step extraction_round extract entity_step citation_step
    topic_step choose_extractor with_analysis_timeout processing_round storage_round finalize
    update_processing_time
run-stale_example =
    run-stale 3 3 8 (request (codes "a")) one_way with_stale after_stale stale [] refl refl
      (tt, (tt, (tt, (tt, (tt, (tt, tt)))))) refl

abbrev first_taken : Taken
first_taken = record {
  deadline = none;
  document = pipeline_document 3 (request (codes "a"));
  rest = [];
}

abbrev sent_on : AnalysisPipeline
unfolding new_analysis_pipeline run step extraction_round extract entity_step citation_step
    topic_step choose_extractor with_analysis_timeout
sent_on = reached (run (extract_begin 4 0 ∷ extract_end 0 ∷ []) waiting)

abbrev now_idle : Worker
now_idle = idle (some 300000000004)
