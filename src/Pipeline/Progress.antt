-- ===== src/Pipeline/Progress.antt =====
-- The stages of internal/analyzers/pipeline.go do not come to a halt.
use ideas.Base.{
  ℕ, ◌+◌, ◌-◌, ◌<◌, ◌≤◌, lt→ltb, List, [], ◌∷◌, ◌++◌, Option, none, some, ◌≡◌, refl, ap, true,
  false, length, length-set, set, arith, ◌==◌, eq_false, Bool, ◌*◌, ◌/◌, if◌then◌else◌,
}
use ideas.Base.Text.{Bytes}
use ideas.Pipeline.Extraction.{Parts, with_analysis_timeout, update_processing_time}
use ideas.Pipeline.Flow.{
  Worker, AnalysisPipeline, idle, busy, Step, went, Taken, config_for, work_on, extracted,
  extraction_begun, start_extraction, start_processing, stored_at, start_storage, hand_over,
  end_extraction, end_processing, end_storage,
}
use ideas.Pipeline.Uses.{extraction_round-Keeps}
use ideas.Pipeline.Places.{weigh}
use ideas.Pipeline.Rounds.{
  extraction_round, processing_round, storage_round, finalize, succeed, completed, store_with,
}
use ideas.Pipeline.Types.{
  Deadline, AnalysisConfig, PipelineDocument, PipelineMetrics, AnalysisResult, stage_storage,
}

-- The worker steps that are left to do.
abbrev pub remaining : AnalysisPipeline → ℕ
remaining p = weigh (λ k id. 6 - k) p

-- The documents and responses there are.
abbrev pub present : AnalysisPipeline → ℕ
present p = weigh (λ k id. 1) p

-- The goroutines stay, and the count of analyses does not fall.
pub record Sized (p q : AnalysisPipeline) : Type 0 where
  pub extraction : length q.extraction_workers ≡ length p.extraction_workers
  pub processing : length q.processing_workers ≡ length p.processing_workers
  pub storage : length q.storage_workers ≡ length p.storage_workers
  pub total : p.metrics.total_analyses ≤ q.metrics.total_analyses

-- A step is possible, and keeps the sizes.
abbrev pub Goes : AnalysisPipeline → Step → Type 0
Goes p s = (q : AnalysisPipeline) × (s ≡ went q) × Sized p q

pub start_extraction-Goes :
    (now i : ℕ) (p : AnalysisPipeline) (t : Taken) → Goes p (start_extraction now i p (some t))
start_extraction-Goes now i p t =
    let c = config_for p t.document in
    let deadline = with_analysis_timeout now c t.deadline in
    let w = extraction_round p.parts now deadline (work_on c p t.document) in
    let custom = t.document.request.custom_config in
    (
      extraction_begun now i p t,
      refl,
      record {
        extraction = length-set p.extraction_workers i (busy deadline (extracted w custom));
        processing = refl;
        storage = refl;
        total = (extraction_round-Keeps p.parts now deadline (work_on c p t.document)).grows;
      },
    )

pub start_processing-Goes :
    (now i : ℕ) (p : AnalysisPipeline) (t : Taken) → Goes p (start_processing now i p (some t))
start_processing-Goes now i p t =
    let c = config_for p t.document in
    let deadline = with_analysis_timeout now c t.deadline in
    let w = busy deadline (processing_round p.parts now deadline c t.document) in
    (
      record p { processing_chan = t.rest; processing_workers = set p.processing_workers i w },
      refl,
      record {
        extraction = refl;
        processing = length-set p.processing_workers i w;
        storage = refl;
        total = omega arith;
      },
    )

-- With an analysis counted the storage does not panic, leaves that count, and makes a result.
abbrev pub SameTotal : PipelineMetrics → Option (PipelineMetrics × PipelineDocument) → Type 0
SameTotal m o =
    (r : PipelineMetrics × PipelineDocument) × (o ≡ some r)
    × (r.0.total_analyses ≡ m.total_analyses)
    × (v : AnalysisResult) × (r.1.response.result ≡ some v)

if_some-holds :
    (P : PipelineMetrics → Type 0) (b c : Bool) (x y : PipelineMetrics)
    → c ≡ false
    → P x
    → P y
    → (r : PipelineMetrics) × ((if b then some x else if c then none else some y) ≡ some r) × P r
if_some-holds P true c x y e h k = (x, refl, h)
if_some-holds P false c x y e h k = (y, ap (λ (t : Bool). if t then none else some y) e, k)

finalize-SameTotal :
    (m : PipelineMetrics) (d : PipelineDocument) (errs : List Bytes) (v : AnalysisResult)
    → d.response.result ≡ some v
    → 0 < m.total_analyses
    → SameTotal m (finalize m d errs)
unfolding finalize update_processing_time
finalize-SameTotal m d [] v has h =
    let duration = d.response.processing_time in
    let won = record m { successful_analyses = m.successful_analyses + 1 } in
    let u =
      if_some-holds (λ n. n.total_analyses ≡ m.total_analyses) (won.total_analyses == 1)
        (won.total_analyses == 0) (record won { average_processing_time = duration })
        (record won {
          average_processing_time =
              (won.average_processing_time * (won.total_analyses - 1) + duration)
              / won.total_analyses;
        })
        (eq_false m.total_analyses 0 (λ e. omega (arith, h, e))) refl refl in
    ((u.0, d), ap (succeed d) u.1, u.2, v, has)
finalize-SameTotal m d (e ∷ errs) v has h = (_, refl, refl, v, has)

stored_at-Goes :
    (i : ℕ) (deadline : Deadline) (p : AnalysisPipeline) (t : Taken)
    (o : Option (PipelineMetrics × PipelineDocument))
    → SameTotal p.metrics o
    → Goes p (stored_at i deadline p t o)
stored_at-Goes i deadline p t o h = (
  record p {
    metrics = h.0.0;
    storage_chan = t.rest;
    storage_workers = set p.storage_workers i (busy deadline h.0.1);
  },
  ap (stored_at i deadline p t) h.1,
  record {
    extraction = refl;
    processing = refl;
    storage = length-set p.storage_workers i (busy deadline h.0.1);
    total = omega (arith, h.2);
  },
)

pub storage_round-SameTotal :
    (p : Parts) (now finished : ℕ) (deadline : Deadline) (c : AnalysisConfig) (m : PipelineMetrics)
    (d : PipelineDocument)
    → 0 < m.total_analyses
    → SameTotal m (storage_round p now finished deadline c m d)
unfolding storage_round
storage_round-SameTotal p now finished deadline c m d h =
    let kept =
      store_with c deadline (record d { stage = stage_storage; stage_start = now })
        p.storage_manager in
    finalize-SameTotal m (completed finished kept) kept.errors kept.result refl h

pub start_storage-Goes :
    (now finished i : ℕ) (p : AnalysisPipeline) (t : Taken)
    → 0 < p.metrics.total_analyses
    → Goes p (start_storage now finished i p (some t))
start_storage-Goes now finished i p t h =
    let c = config_for p t.document in
    let deadline = with_analysis_timeout now c t.deadline in
    stored_at-Goes i deadline p t
      (storage_round p.parts now finished deadline c p.metrics t.document)
      (storage_round-SameTotal p.parts now finished deadline c p.metrics t.document h)

-- A worker that has a document can send it if there is room.
hand_over-room :
    (ws : List Worker) (chan : List PipelineDocument) (cap i : ℕ) (h : Worker × PipelineDocument)
    → length chan < cap
    → hand_over ws chan cap i (some h) ≡ some (set ws i (idle h.0.deadline), chan ++ (h.1 ∷ []))
hand_over-room ws chan cap i h room = rw (lt→ltb (length chan) cap room) refl

pub end_extraction-Goes :
    (i : ℕ) (p : AnalysisPipeline) (h : Worker × PipelineDocument)
    → length p.processing_chan < 15
    → Goes p (end_extraction p (hand_over p.extraction_workers p.processing_chan 15 i (some h)))
end_extraction-Goes i p h room = (
  record p {
    extraction_workers = set p.extraction_workers i (idle h.0.deadline);
    processing_chan = p.processing_chan ++ (h.1 ∷ []);
  },
  ap (end_extraction p) (hand_over-room p.extraction_workers p.processing_chan 15 i h room),
  record {
    extraction = length-set p.extraction_workers i (idle h.0.deadline);
    processing = refl;
    storage = refl;
    total = omega arith;
  },
)

pub end_processing-Goes :
    (i : ℕ) (p : AnalysisPipeline) (h : Worker × PipelineDocument)
    → length p.storage_chan < 10
    → Goes p (end_processing p (hand_over p.processing_workers p.storage_chan 10 i (some h)))
end_processing-Goes i p h room = (
  record p {
    processing_workers = set p.processing_workers i (idle h.0.deadline);
    storage_chan = p.storage_chan ++ (h.1 ∷ []);
  },
  ap (end_processing p) (hand_over-room p.processing_workers p.storage_chan 10 i h room),
  record {
    extraction = refl;
    processing = length-set p.processing_workers i (idle h.0.deadline);
    storage = refl;
    total = omega arith;
  },
)

pub end_storage-Goes :
    (i : ℕ) (p : AnalysisPipeline) (h : Worker × PipelineDocument)
    → length p.result_chan < 30
    → Goes p (end_storage i p (some h))
end_storage-Goes i p h room = (
  record p {
    storage_workers = set p.storage_workers i (idle h.0.deadline);
    result_chan = p.result_chan ++ (h.1.response ∷ []);
  },
  rw (lt→ltb (length p.result_chan) 30 room) refl,
  record {
    extraction = refl;
    processing = refl;
    storage = length-set p.storage_workers i (idle h.0.deadline);
    total = omega arith;
  },
)
