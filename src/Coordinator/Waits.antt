-- ===== src/Coordinator/Waits.antt =====
-- The contexts that internal/analyzers/cancellation_coordinator.go hands out, and the wait for its end.
use ideas.Base.{ℕ, Bool, ◌∷◌, ◌++◌, Option, none, some, if◌then◌else◌}
use ideas.Base.Int.{ℤ, pos, ltb_ℤ}
use ideas.Base.Text.{Bytes, codes}
use ideas.Timeouts.{Context, Moment, with_timeout}

-- context.WithCancel on the root, if there is no timeout.
abbrev with_cancel : ℕ → Context → Context
with_cancel own ctx = record ctx { cancels = own ∷ ctx.cancels }

unfoldable pub create_derived_context : Moment → ℕ → Context → ℤ → Context
unfolding with_timeout
create_derived_context m own root timeout =
    if ltb_ℤ (pos 0) timeout then with_timeout m own root timeout else with_cancel own root

-- `finished` is whether the shutdown is found done before the context is, whose error is `err`.
abbrev pub wait_for_shutdown : Bool → Bytes → Option Bytes
wait_for_shutdown finished err =
    if finished then none else some (codes "shutdown wait timeout: " ++ err)
