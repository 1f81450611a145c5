-- ===== src/Pipeline/Totals.antt =====
-- The metrics of internal/analyzers/pipeline.go over any run.
use ideas.Base.{
  ℕ, ◌+◌, ◌==◌, List, [], ◌∷◌, Option, none, some, ◌≡◌, refl, ap, subst, arith, if-holds,
}
use ideas.Base.Table.{sum_counts}
use ideas.Base.Text.{Bytes}
use ideas.Pipeline.Extraction.{Parts, with_analysis_timeout, update_processing_time}
use ideas.Pipeline.Flow.{
  AnalysisPipeline, new_analysis_pipeline, went, config_for, work_on, Action, run,
}
use ideas.Pipeline.Uses.{outcomes, extraction_round-Keeps}
use ideas.Pipeline.Rounds.{succeed, completed, store_with, finalize, storage_round}
use ideas.Pipeline.Steps.{OnWent, IsKept, run-keeps}
use ideas.Pipeline.Types.{
  Deadline, AnalysisConfig, PipelineMetrics, PipelineDocument, stage_storage,
}

-- The end of a document counts one outcome and no use of an extractor.
abbrev pub CountsOne : PipelineMetrics → Option (PipelineMetrics × PipelineDocument) → Type 0
CountsOne m none = Unit
CountsOne m (some r) =
    (r.0.total_analyses ≡ m.total_analyses)
    × (r.0.extractor_usage_count ≡ m.extractor_usage_count)
    × (outcomes r.0 ≡ outcomes m + 1)

update-CountsOne :
    (duration : ℕ) (m : PipelineMetrics) (d : PipelineDocument)
    → CountsOne m (
        succeed d (
          update_processing_time duration
            (record m { successful_analyses = m.successful_analyses + 1 })))
unfolding update_processing_time
update-CountsOne duration m d =
    let P : Option PipelineMetrics → Type 0 = λ o. CountsOne m (succeed d o) in
    if-holds P (m.total_analyses == 1) (refl, refl, omega arith)
      (if-holds P (m.total_analyses == 0) tt (refl, refl, omega arith))

finalize-CountsOne :
    (m : PipelineMetrics) (d : PipelineDocument) (errs : List Bytes)
    → CountsOne m (finalize m d errs)
unfolding finalize
finalize-CountsOne m d [] = update-CountsOne d.response.processing_time m d
finalize-CountsOne m d (e ∷ errs) = (refl, refl, omega arith)

pub storage_round-CountsOne :
    (p : Parts) (now finished : ℕ) (deadline : Deadline) (c : AnalysisConfig) (m : PipelineMetrics)
    (d : PipelineDocument)
    → CountsOne m (storage_round p now finished deadline c m d)
unfolding storage_round
storage_round-CountsOne p now finished deadline c m d =
    let kept =
      store_with c deadline (record d { stage = stage_storage; stage_start = now })
        p.storage_manager in
    finalize-CountsOne m (completed finished kept) kept.errors

-- The number of analyses is the number of uses of extractors.
abbrev pub UsesCounted : PipelineMetrics → Type 0
UsesCounted m = m.total_analyses ≡ sum_counts m.extractor_usage_count

abbrev Counted : AnalysisPipeline → Type 0
Counted p = UsesCounted p.metrics

counted_after :
    (m : PipelineMetrics) (o : Option (PipelineMetrics × PipelineDocument))
    (r : PipelineMetrics × PipelineDocument)
    → CountsOne m o
    → UsesCounted m
    → o ≡ some r
    → UsesCounted r.0
counted_after m o r one h e =
    let c = subst (CountsOne m) e one in omega (arith, c.0, ap sum_counts c.1, h)

Counted-IsKept : (p : AnalysisPipeline) → Counted p → IsKept Counted p
Counted-IsKept p h = record {
  submitting = λ ds. h;
  extracting = λ now i t f.
      let c = config_for p t.document in
      let deadline = with_analysis_timeout now c t.deadline in
      omega
        (arith, h, (extraction_round-Keeps p.parts now deadline (work_on c p t.document)).counted);
  extracted = λ i x ds at. h;
  processing = λ ws ds. h;
  processed = λ ws ds. h;
  storing = λ now finished i t r f e.
      let c = config_for p t.document in
      let deadline = with_analysis_timeout now c t.deadline in
      counted_after p.metrics (storage_round p.parts now finished deadline c p.metrics t.document) r
        (storage_round-CountsOne p.parts now finished deadline c p.metrics t.document) h e;
  storing_done = λ i x at. h;
  receiving = λ r rs e. h;
}

-- After any run of a new pipeline the number of analyses is the sum of the counts of uses of the extractors.
pub run-UsesCounted :
    (deadline : Deadline) (parts : Parts) (config : AnalysisConfig) (actions : List Action)
    (q : AnalysisPipeline)
    → run actions (new_analysis_pipeline deadline parts config) ≡ went q
    → UsesCounted q.metrics
unfolding new_analysis_pipeline
run-UsesCounted deadline parts config actions q h =
    subst (OnWent Counted) h
      (run-keeps Counted actions (new_analysis_pipeline deadline parts config) Counted-IsKept refl)
