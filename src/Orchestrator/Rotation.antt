-- ===== src/Orchestrator/Rotation.antt =====
-- Which pipelines the workers of internal/analyzers/orchestrator.go get.
use ideas.Base.{
  ℕ, zero, suc, ◌+◌, ◌%◌, true, false, List, [], ◌∷◌, ◌++◌, Option, ◌≡◌, ◌≢◌, refl, ap, sym, ◌∙◌,
  length, get_elem?, ◌==◌, eq_false, arith,
}
use mathlib.Core.List.{append-nil}
use ideas.Base.Text.{codes, bytes_eq}
use ideas.Orchestrator.Coordinate.{select_pipeline, create_worker, create_workers}
use ideas.Orchestrator.Types.{AnalysisOrchestrator, AnalysisWorker}

-- The worker that createWorker makes with the pipeline at a place.
abbrev pub worker_at : ℕ → ℕ → List ℕ → ℕ → AnalysisWorker
worker_at now id pipelines k = record {
  id = id;
  pipeline = get_elem? pipelines k;
  start_time = now;
  requests_handled = 0;
}

-- The workers from `id` on, with the pipelines in turn from the place `k` on.
abbrev pub turns : ℕ → List ℕ → ℕ → ℕ → ℕ → List AnalysisWorker
turns now pipelines zero id k = []
turns now pipelines (suc n) id k =
    worker_at now id pipelines (k % length pipelines) ∷ turns now pipelines n (id + 1) (k + 1)

-- All with the first one.
abbrev pub all_first : ℕ → List ℕ → ℕ → ℕ → List AnalysisWorker
all_first now pipelines zero id = []
all_first now pipelines (suc n) id =
    worker_at now id pipelines 0 ∷ all_first now pipelines n (id + 1)

append_one :
    (ws : List AnalysisWorker) (w : AnalysisWorker) (vs : List AnalysisWorker)
    → (ws ++ (w ∷ [])) ++ vs ≡ ws ++ (w ∷ vs)
append_one [] w vs = refl
append_one (x ∷ ws) w vs = ap (λ r. x ∷ r) (append_one ws w vs)

round_robin-next :
    (o : AnalysisOrchestrator)
    → o.config.load_balancing ≡ codes "round_robin"
    → length o.pipelines ≢ 0
    → select_pipeline o ≡ (
      record o { round_robin_counter = o.round_robin_counter + 1 },
      get_elem? o.pipelines (o.round_robin_counter % length o.pipelines),
    )
unfolding select_pipeline
round_robin-next o b n =
    let some_there : (length o.pipelines == 0) ≡ false = eq_false (length o.pipelines) 0 n in
    let not_least : bytes_eq o.config.load_balancing (codes "least_busy") ≡ false =
      ap (λ t. bytes_eq t (codes "least_busy")) b in
    let is_robin : bytes_eq o.config.load_balancing (codes "round_robin") ≡ true =
      ap (λ t. bytes_eq t (codes "round_robin")) b in
    rw (some_there, not_least, is_robin) refl

-- With round robin and some pipeline, Start gives the workers the pipelines in turn, from the place of the counter
-- on, and the counter goes on by as many as there are workers.
pub create_workers-turns :
    (n id now : ℕ) (o : AnalysisOrchestrator)
    → o.config.load_balancing ≡ codes "round_robin"
    → length o.pipelines ≢ 0
    → ((create_workers now n id o).workers
        ≡ o.workers ++ turns now o.pipelines n id o.round_robin_counter)
      × ((create_workers now n id o).round_robin_counter ≡ o.round_robin_counter + n)
unfolding create_workers create_worker
create_workers-turns zero id now o b h = (sym (append-nil o.workers), omega arith)
create_workers-turns (suc n) id now o b h =
    let w = worker_at now id o.pipelines (o.round_robin_counter % length o.pipelines) in
    let next : AnalysisOrchestrator = record o {
      round_robin_counter = o.round_robin_counter + 1;
      workers = o.workers ++ (w ∷ []);
    } in
    let made : create_worker now id o ≡ next =
      ap
        (λ (s : AnalysisOrchestrator × Option ℕ). record s.0 {
          workers =
              s.0.workers
              ++ (record { id = id; pipeline = s.1; start_time = now; requests_handled = 0 } ∷ []);
        })
        (round_robin-next o b h) in
    let rest = create_workers-turns n (id + 1) now next b h in
    let same = ap (create_workers now n (id + 1)) made in
    (
      ap (λ (t : AnalysisOrchestrator). t.workers) same
          ∙ rest.0
          ∙ append_one o.workers w (turns now o.pipelines n (id + 1) (o.round_robin_counter + 1)),
      ap (λ (t : AnalysisOrchestrator). t.round_robin_counter) same ∙ omega (arith, rest.1),
    )

least_busy-next :
    (o : AnalysisOrchestrator)
    → o.config.load_balancing ≡ codes "least_busy"
    → length o.pipelines ≢ 0
    → select_pipeline o ≡ (o, get_elem? o.pipelines 0)
unfolding select_pipeline
least_busy-next o b n =
    let some_there : (length o.pipelines == 0) ≡ false = eq_false (length o.pipelines) 0 n in
    let is_least : bytes_eq o.config.load_balancing (codes "least_busy") ≡ true =
      ap (λ t. bytes_eq t (codes "least_busy")) b in
    rw (some_there, is_least) refl

-- With the least busy strategy, the default, Start gives all workers the first pipeline.
pub create_workers-all_first :
    (n id now : ℕ) (o : AnalysisOrchestrator)
    → o.config.load_balancing ≡ codes "least_busy"
    → length o.pipelines ≢ 0
    → (create_workers now n id o).workers ≡ o.workers ++ all_first now o.pipelines n id
unfolding create_workers create_worker
create_workers-all_first zero id now o b h = sym (append-nil o.workers)
create_workers-all_first (suc n) id now o b h =
    let w = worker_at now id o.pipelines 0 in
    let next : AnalysisOrchestrator = record o { workers = o.workers ++ (w ∷ []) } in
    let made : create_worker now id o ≡ next =
      ap
        (λ (s : AnalysisOrchestrator × Option ℕ). record s.0 {
          workers =
              s.0.workers
              ++ (record { id = id; pipeline = s.1; start_time = now; requests_handled = 0 } ∷ []);
        })
        (least_busy-next o b h) in
    ap (λ (t : AnalysisOrchestrator). t.workers) (ap (create_workers now n (id + 1)) made)
    ∙ create_workers-all_first n (id + 1) now next b h
    ∙ append_one o.workers w (all_first now o.pipelines n (id + 1))
