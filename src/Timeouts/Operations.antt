-- ===== src/Timeouts/Operations.antt =====
-- The operations that internal/analyzers/timeout_manager.go runs.
use ideas.Base.{
  ℕ, ◌+◌, ◌-◌, ◌≡◌, refl, ap, sym, ◌∙◌, Bool, true, false, Bool-cases, inl, inr, ◌==◌, List, ◌++◌,
  Option, none, some, ltb, lt→ltb, arith, eq_false, if◌then◌else◌,
}
use ideas.Base.Int.{ℤ}
use ideas.Base.Text.{Bytes, codes, bytes_eq}
use ideas.Base.TextLaws.{bytes_eq_self, bytes_eq_sound}
use ideas.Coordinator.{
  CancellationCoordinator, count_of, put, lowered, track_goroutine, untrack_goroutine,
}
use ideas.Coordinator.Tracked.{count_of-delete, count_of-put}
use ideas.Timeouts.{Context, Moment, with_timeout, TimeoutConfig, TimeoutManager}

-- With a coordinator the context of the caller is replaced by its root.
abbrev pub operation_context : Moment → ℕ → ℕ → Option Context → Context → ℤ → Context
operation_context m own combined none ctx timeout = with_timeout m own ctx timeout
operation_context m own combined (some root) ctx timeout = with_timeout m combined root timeout

pub data OperationResult : Type 0 where
  finished : Option Bytes → OperationResult
  timed_out : ℤ → OperationResult

-- `in_time` is whether the select finds the result of the operation before the end of its context.
unfoldable pub with_timeout_operation :
    TimeoutManager
    → Moment
    → ℕ
    → ℕ
    → Context
    → ℤ
    → Bool
    → (Context → Option Bytes)
    → OperationResult
with_timeout_operation tm m own combined ctx timeout in_time operation =
    if in_time
    then finished (operation (operation_context m own combined tm.coordinator ctx timeout))
    else timed_out timeout

-- WithExtractionTimeout, WithStorageTimeout, WithMetricsTimeout and WithNetworkTimeout, each with a timeout of the
-- configuration.
abbrev pub with_configured_timeout :
    (TimeoutConfig → ℤ)
    → TimeoutManager
    → Moment
    → ℕ
    → ℕ
    → Context
    → Bool
    → (Context → Option Bytes)
    → OperationResult
unfolding with_timeout_operation
with_configured_timeout of tm m own combined ctx in_time operation =
    with_timeout_operation tm m own combined ctx (of tm.timeouts) in_time operation

abbrev monitored_error : Bytes → Bytes → Option Bytes → Option Bytes
monitored_error name duration none = none
monitored_error name duration (some err) = some (
    codes "monitored operation " ++ name ++ codes " failed after " ++ duration ++ codes ": " ++ err)

abbrev untracked : Bytes → Option CancellationCoordinator → Option (Option CancellationCoordinator)
untracked name none = none
untracked name (some coord) = some (some coord)

abbrev monitored_name : Bytes → Bytes
monitored_name name = codes "monitored-" ++ name

-- The coordinator before and after an operation, `none` for the panic of a wait group.
unfoldable pub monitored_coordinator :
    Bytes → Option CancellationCoordinator → Option (Option CancellationCoordinator)
unfolding track_goroutine untrack_goroutine
monitored_coordinator name none = some none
monitored_coordinator name (some coord) =
    untracked name
      (untrack_goroutine (monitored_name name) (track_goroutine (monitored_name name) coord))

-- MonitorOperation: the coordinator after it, and the error, where `duration` is the text of the time it took.
abbrev pub monitor_operation :
    Bytes
    → Bytes
    → Option Bytes
    → Option CancellationCoordinator
    → Option (Option CancellationCoordinator) × Option Bytes
unfolding monitored_coordinator
monitor_operation name duration err coord =
    (monitored_coordinator name coord, monitored_error name duration err)

count_of-lowered :
    (m n : Bytes) (k : ℕ) (es : List (Bytes × ℕ))
    → count_of m (lowered n (k + 1) es) ≡ (if bytes_eq m n then k else count_of m es)
count_of-lowered m n k es = elim (Bool-cases ((k + 1) - 1 == 0)) [
  | inl t ↦
      let none_left : k ≡ 0 = ground (arith, t) in
      rw t (
        count_of-delete m n es
        ∙ ap (λ z. if bytes_eq m n then z else count_of m es) (sym none_left))
  | inr t ↦ rw t (
      count_of-put m n ((k + 1) - 1) es
      ∙ ap (λ z. if bytes_eq m n then z else count_of m es) (omega arith))
]

-- The same goroutines are tracked.
pub record TracksSame (c d : CancellationCoordinator) : Type 0 where
  pub active : d.active_goroutines ≡ c.active_goroutines
  pub counts : (m : Bytes) → count_of m d.goroutine_tracker ≡ count_of m c.goroutine_tracker

-- Put up by one and lowered by one, each count is what it was.
put-lowered :
    (m n : Bytes) (es : List (Bytes × ℕ))
    → count_of m (lowered n (count_of n es + 1) (put n (count_of n es + 1) es)) ≡ count_of m es
put-lowered m n es = elim (Bool-cases (bytes_eq m n)) [
  | inl t ↦
      count_of-lowered m n (count_of n es) (put n (count_of n es + 1) es)
      ∙ rw t (ap (λ k. count_of k es) (sym (bytes_eq_sound m n t)))
  | inr t ↦
      count_of-lowered m n (count_of n es) (put n (count_of n es + 1) es)
      ∙ rw t (count_of-delete m n es ∙ rw t refl)
]

-- A monitored operation does not panic, and afterwards the coordinator tracks the same goroutines as before.
pub monitored_coordinator-TracksSame :
    (name : Bytes) (coord : CancellationCoordinator)
    → (d : CancellationCoordinator) × (monitored_coordinator name (some coord) ≡ some (some d))
      × TracksSame coord d
unfolding monitored_coordinator track_goroutine untrack_goroutine
monitored_coordinator-TracksSame name coord =
    let n = monitored_name name in
    let c = count_of n coord.goroutine_tracker in
    let raised = put n (c + 1) coord.goroutine_tracker in
    let seen : count_of n raised ≡ c + 1 =
      count_of-put n n (c + 1) coord.goroutine_tracker
      ∙ ap (λ (b : Bool). if b then c + 1 else c) (bytes_eq_self n) in
    let some_run : (coord.active_goroutines + 1 == 0) ≡ false =
      eq_false (coord.active_goroutines + 1) 0 (λ e. omega (arith, e)) in
    let positive : ltb 0 (c + 1) ≡ true = lt→ltb 0 (c + 1) (omega arith) in
    (
      record coord {
        active_goroutines = coord.active_goroutines + 1 - 1;
        goroutine_tracker = lowered n (c + 1) raised;
      },
      rw (some_run, seen, positive) refl,
      record { active = omega arith; counts = λ m. put-lowered m n coord.goroutine_tracker },
    )
