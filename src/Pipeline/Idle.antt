-- ===== src/Pipeline/Idle.antt =====
-- The workers of internal/analyzers/pipeline.go that have nothing to do, and those that have.
use ideas.Base.{
  ℕ, suc, ◌-◌, ◌<◌, ◌≤◌, List, [], ◌∷◌, Option, none, some, ◌≡◌, ◌⊎◌, refl, ap, subst, length,
  get_elem?, All, arith, inl, inr,
}
use ideas.Base.Tally.{tally, tally-set, tally_mono}
use ideas.Pipeline.Flow.{Worker, AnalysisPipeline, idle, Taken, taken, take_one, held, held_in}
use ideas.Pipeline.Places.{Weight, document_weight, holds_weight, worker_weight, response_weight}
use ideas.Pipeline.Progress.{remaining, present}
use ideas.Pipeline.Steps.{HeldAt, held-At}
use ideas.Pipeline.Types.{PipelineDocument, AnalysisResponse}

-- Each stage has a worker, an extractor was used before, and the channel of results holds all that comes.
pub record IsReady (p : AnalysisPipeline) : Type 0 where
  pub extraction : 0 < length p.extraction_workers
  pub processing : 0 < length p.processing_workers
  pub storage : 0 < length p.storage_workers
  pub counted : 0 < p.metrics.total_analyses
  pub room : present p ≤ 30

abbrev pub IsIdle : Worker → Type 0
IsIdle w = w.holds ≡ none

abbrev pub SomeHeld : List Worker → Type 0
SomeHeld ws = (i : ℕ) × (h : Worker × PipelineDocument) × (held (get_elem? ws i) ≡ some h)

find_held_from :
    (w : Worker) (ws : List Worker) (o : Option PipelineDocument)
    → w.holds ≡ o
    → SomeHeld ws ⊎ All IsIdle ws
    → SomeHeld (w ∷ ws) ⊎ All IsIdle (w ∷ ws)
find_held_from w ws (some d) e h = inl (0, (w, d), ap (held_in w) e)
find_held_from w ws none e (inl h) = inl (suc h.0, h.1, h.2)
find_held_from w ws none e (inr h) = inr (e, h)

pub find_held : (ws : List Worker) → SomeHeld ws ⊎ All IsIdle ws
find_held [] = inr tt
find_held (w ∷ ws) = find_held_from w ws w.holds refl (find_held ws)

pub idle_weight :
    (f : Weight) (k : ℕ) (ws : List Worker) → All IsIdle ws → tally (worker_weight f k) ws ≡ 0
idle_weight f k [] h = refl
idle_weight f k (w ∷ ws) h = omega (arith, ap (holds_weight f k) h.0, idle_weight f k ws h.1)

pub idle_takes :
    (ws : List Worker) (d : PipelineDocument) (ds : List PipelineDocument)
    → 0 < length ws
    → All IsIdle ws
    → (t : Taken) × (take_one 0 ws (d ∷ ds) ≡ some t)
idle_takes [] d ds h a = absurd (omega (arith, h))
idle_takes (w ∷ ws) d ds h a =
    (record { deadline = w.deadline; document = d; rest = ds }, ap (taken w.deadline d ds) a.0)

pub tally-one : (rs : List AnalysisResponse) → tally (response_weight (λ k id. 1)) rs ≡ length rs
tally-one [] = refl
tally-one (r ∷ rs) = omega (arith, tally-one rs)

pub held_weight :
    (k i : ℕ) (ws : List Worker) (h : Worker × PipelineDocument)
    → held (get_elem? ws i) ≡ some h
    → 0 < tally (worker_weight (λ k id. 1) k) ws
held_weight k i ws h e =
    let at = subst (HeldAt i ws) e (held-At i ws) in
    omega (
      arith,
      ap (holds_weight (λ k id. 1) k) at.1,
      tally-set (worker_weight (λ k id. 1) k) ws i (idle h.0.deadline) h.0 at.0,
    )

pub ended : (rs : List AnalysisResponse) → tally (response_weight (λ k id. 6 - k)) rs ≡ 0
ended [] = refl
ended (r ∷ rs) = omega (arith, ended rs)

-- If nothing remains, all that is there are responses.
held_one :
    (k : ℕ) (o : Option PipelineDocument)
    → k < 6
    → holds_weight (λ k id. 1) k o ≤ holds_weight (λ k id. 6 - k) k o
held_one k none h = omega arith
held_one k (some d) h = omega (arith, h)

pub done-responses : (p : AnalysisPipeline) → remaining p ≡ 0 → length p.result_chan ≡ present p
done-responses p e =
    let one : Weight = λ k id. 1 in
    let left : Weight = λ k id. 6 - k in
    let chan : (k : ℕ) (ds : List PipelineDocument)
        → k < 6
        → tally (document_weight one k) ds ≤ tally (document_weight left k) ds =
      λ k ds h.
        tally_mono (document_weight one k) (document_weight left k) ds (λ d. omega (arith, h)) in
    let workers : (k : ℕ) (ws : List Worker)
        → k < 6
        → tally (worker_weight one k) ws ≤ tally (worker_weight left k) ws =
      λ k ws h.
        tally_mono (worker_weight one k) (worker_weight left k) ws (λ w. held_one k w.holds h) in
    omega (
      arith,
      e,
      tally-one p.result_chan,
      chan 0 p.document_chan (omega arith),
      chan 2 p.processing_chan (omega arith),
      chan 4 p.storage_chan (omega arith),
      workers 1 p.extraction_workers (omega arith),
      workers 3 p.processing_workers (omega arith),
      workers 5 p.storage_workers (omega arith),
    )
