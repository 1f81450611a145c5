-- ===== src/Orchestrator/Added.antt =====
-- The pipelines of internal/analyzers/orchestrator.go before Start.
use ideas.Base.{
  ℕ, true, false, ltb, List, [], ◌∷◌, ◌++◌, ◌≡◌, refl, ap, ◌∙◌, sym, subst, length, All, arith,
  eq_true, if-holds,
}
use mathlib.Core.List.{append-nil}
use ideas.Orchestrator.Coordinate.{has_pipeline, coordinate, coordinate_all, drain, add_pipeline}
use ideas.Orchestrator.Types.{
  AnalysisOrchestrator, CoordinationMsg, msg_pipeline, msg_running, msg_get_metrics,
  msg_get_worker_status, msg_request_started, msg_request_completed, msg_request_failed,
  msg_worker_stopped, msg_shutdown_request,
}

-- A pipeline that is added before Start: nobody answers.
unfoldable pub add_each : List ℕ → AnalysisOrchestrator → AnalysisOrchestrator
unfolding add_pipeline
add_each [] o = o
add_each (p ∷ ps) o = add_each ps (add_pipeline false p o)

-- The message asks for a pipeline that is there.
abbrev IsThere : List ℕ → CoordinationMsg → Type 0
IsThere ps (msg_pipeline p) = has_pipeline p ps ≡ true
IsThere ps (msg_running b) = ⊥
IsThere ps msg_get_metrics = ⊥
IsThere ps msg_get_worker_status = ⊥
IsThere ps (msg_request_started r) = ⊥
IsThere ps (msg_request_completed w r) = ⊥
IsThere ps (msg_request_failed w r) = ⊥
IsThere ps msg_worker_stopped = ⊥
IsThere ps msg_shutdown_request = ⊥

coordinate_all-there :
    (ms : List CoordinationMsg) (o : AnalysisOrchestrator)
    → All (IsThere o.pipelines) ms
    → coordinate_all ms o ≡ o
unfolding coordinate_all coordinate
coordinate_all-there [] o h = refl
coordinate_all-there (msg_pipeline p ∷ ms) o h = rw h.0 (coordinate_all-there ms o h.1)
coordinate_all-there (msg_running b ∷ ms) o h = absurd h.0
coordinate_all-there (msg_get_metrics ∷ ms) o h = absurd h.0
coordinate_all-there (msg_get_worker_status ∷ ms) o h = absurd h.0
coordinate_all-there (msg_request_started r ∷ ms) o h = absurd h.0
coordinate_all-there (msg_request_completed w r ∷ ms) o h = absurd h.0
coordinate_all-there (msg_request_failed w r ∷ ms) o h = absurd h.0
coordinate_all-there (msg_worker_stopped ∷ ms) o h = absurd h.0
coordinate_all-there (msg_shutdown_request ∷ ms) o h = absurd h.0

has_pipeline-snoc : (p : ℕ) (ps : List ℕ) → has_pipeline p (ps ++ (p ∷ [])) ≡ true
has_pipeline-snoc p [] = rw (eq_true p p refl) refl
has_pipeline-snoc p (q ∷ qs) = ground (arith, has_pipeline-snoc p qs)

has_pipeline-more :
    (p x : ℕ) (ps : List ℕ) → has_pipeline p ps ≡ true → has_pipeline p (ps ++ (x ∷ [])) ≡ true
has_pipeline-more p x [] h = absurd (cc h)
has_pipeline-more p x (q ∷ qs) h = ground (arith, h, has_pipeline-more p x qs)

IsThere-more :
    (x : ℕ) (ps : List ℕ) (m : CoordinationMsg) → IsThere ps m → IsThere (ps ++ (x ∷ [])) m
IsThere-more x ps (msg_pipeline p) h = has_pipeline-more p x ps h
IsThere-more x ps (msg_running b) h = h
IsThere-more x ps msg_get_metrics h = h
IsThere-more x ps msg_get_worker_status h = h
IsThere-more x ps (msg_request_started r) h = h
IsThere-more x ps (msg_request_completed w r) h = h
IsThere-more x ps (msg_request_failed w r) h = h
IsThere-more x ps msg_worker_stopped h = h
IsThere-more x ps msg_shutdown_request h = h

All-IsThere :
    (x : ℕ) (ps : List ℕ) (ms : List CoordinationMsg)
    → All (IsThere ps) ms
    → All (IsThere (ps ++ (x ∷ []))) ms
All-IsThere x ps [] h = tt
All-IsThere x ps (m ∷ ms) h = (IsThere-more x ps m h.0, All-IsThere x ps ms h.1)

All-snoc :
    (ps : List ℕ) (ms : List CoordinationMsg) (m : CoordinationMsg)
    → All (IsThere ps) ms
    → IsThere ps m
    → All (IsThere ps) (ms ++ (m ∷ []))
All-snoc ps [] m h k = (k, tt)
All-snoc ps (x ∷ ms) m h k = (h.0, All-snoc ps ms m h.1 k)

-- Every message asks for a pipeline that is there.
abbrev Asked : AnalysisOrchestrator → Type 0
Asked o = All (IsThere o.pipelines) o.coordination_chan

add_pipeline-Asked :
    (p : ℕ) (o : AnalysisOrchestrator)
    → Asked o
    → ((add_pipeline false p o).pipelines ≡ o.pipelines ++ (p ∷ []))
      × Asked (add_pipeline false p o)
unfolding add_pipeline
add_pipeline-Asked p o h =
    let kept = All-IsThere p o.pipelines o.coordination_chan h in
    if-holds (λ (t : AnalysisOrchestrator). (t.pipelines ≡ o.pipelines ++ (p ∷ [])) × Asked t)
      (ltb (length o.coordination_chan) 10)
      (
        refl,
        All-snoc (o.pipelines ++ (p ∷ [])) o.coordination_chan (msg_pipeline p) kept
            (has_pipeline-snoc p o.pipelines),
      )
      (refl, kept)

append_assoc_one : (xs : List ℕ) (p : ℕ) (ps : List ℕ) → (xs ++ (p ∷ [])) ++ ps ≡ xs ++ (p ∷ ps)
append_assoc_one [] p ps = refl
append_assoc_one (x ∷ xs) p ps = ap (λ r. x ∷ r) (append_assoc_one xs p ps)

add_each-Asked :
    (ps : List ℕ) (o : AnalysisOrchestrator)
    → Asked o
    → ((add_each ps o).pipelines ≡ o.pipelines ++ ps) × Asked (add_each ps o)
unfolding add_each
add_each-Asked [] o h = (sym (append-nil o.pipelines), h)
add_each-Asked (p ∷ ps) o h =
    let one = add_pipeline-Asked p o h in
    let rest = add_each-Asked ps (add_pipeline false p o) one.1 in
    (rest.0 ∙ ap (λ qs. qs ++ ps) one.0 ∙ append_assoc_one o.pipelines p ps, rest.1)

-- Pipelines that are added to a new orchestrator before Start are there, in their order and each as often as it was
-- added, both before the coordinator goes through the messages and after.
pub drain-added :
    (ps : List ℕ) (o : AnalysisOrchestrator)
    → o.pipelines ≡ []
    → o.coordination_chan ≡ []
    → ((add_each ps o).pipelines ≡ ps) × ((drain (add_each ps o)).pipelines ≡ ps)
unfolding drain
drain-added ps o none_yet empty =
    let t = add_each ps o in
    let h = add_each-Asked ps o (subst (All (IsThere o.pipelines)) (sym empty) tt) in
    let here : t.pipelines ≡ ps = h.0 ∙ ap (λ qs. qs ++ ps) none_yet in
    (
      here,
      ap (λ (u : AnalysisOrchestrator). u.pipelines)
            (coordinate_all-there t.coordination_chan (record t { coordination_chan = [] }) h.1)
          ∙ here,
    )
