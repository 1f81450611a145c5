-- ===== src/Pipeline/Unserved.antt =====
-- What becomes of documents in internal/analyzers/pipeline.go when a stage has no worker.
use ideas.Base.{
  ℕ, ◌/◌, ◌<◌, min, List, [], ◌∷◌, some, ◌≡◌, refl, ap, subst, replicate, get_elem?, arith,
}
use ideas.Pipeline.Extraction.{Parts}
use ideas.Pipeline.Flow.{Worker, AnalysisPipeline, new_analysis_pipeline, idle, went, Action, run}
use ideas.Pipeline.Steps.{OnWent, IsKept, run-keeps}
use ideas.Pipeline.Types.{Deadline, AnalysisConfig}

-- No goroutine stores, and there is no response.
abbrev Unserved : AnalysisPipeline → Type 0
Unserved p = (p.storage_workers ≡ []) × (p.result_chan ≡ [])

nobody : (i : ℕ) (ws : List Worker) (w : Worker) → ws ≡ [] → get_elem? ws i ≡ some w → ⊥
nobody i [] w e h = absurd (cc h)
nobody i (v ∷ ws) w e h = absurd (cc e)

Unserved-IsKept : (p : AnalysisPipeline) → Unserved p → IsKept Unserved p
Unserved-IsKept p u = record {
  submitting = λ ds. u;
  extracting = λ now i t f. u;
  extracted = λ i h ds at. u;
  processing = λ ws ds. u;
  processed = λ ws ds. u;
  storing = λ now finished i t r f e. absurd (nobody i p.storage_workers f.0.0 u.0 f.0.1);
  storing_done = λ i h at. absurd (nobody i p.storage_workers h.0 u.0 at.0);
  receiving = λ r rs e. absurd (cc (e, u.1));
}

no_storage_workers :
    (deadline : Deadline) (n : ℕ) → n < 3 → replicate (min (n / 3) 2) (idle deadline) ≡ []
no_storage_workers deadline n h =
    let none_at_all : min (n / 3) 2 ≡ 0 = omega (arith, h) in
    ap (λ k. replicate k (idle deadline)) none_at_all

-- With fewer than three concurrent analyses configured no document is ever answered, whatever the steps.
pub run-Unserved :
    (deadline : Deadline) (parts : Parts) (config : AnalysisConfig) (actions : List Action)
    (q : AnalysisPipeline)
    → config.max_concurrent_analyses < 3
    → run actions (new_analysis_pipeline deadline parts config) ≡ went q
    → q.result_chan ≡ []
unfolding new_analysis_pipeline
run-Unserved deadline parts config actions q h e =
    (subst (OnWent Unserved) e (
      run-keeps Unserved actions (new_analysis_pipeline deadline parts config) Unserved-IsKept
        (no_storage_workers deadline config.max_concurrent_analyses h, refl))).1
