-- ===== src/Timeouts/Bounds.antt =====
-- The deadlines that internal/analyzers/timeout_manager.go gives, and whose cancellation they follow.
use ideas.Base.{ℕ, ◌≡◌, refl, false, Option, none, some, arith, Bool-cases, inl, inr}
use ideas.Base.Int.{ℤ, ◌+ℤ◌, ◌-ℤ◌, ◌≤ℤ◌, ltb_ℤ, +ℤ_parts, -ℤ_parts}
use ideas.Timeouts.{
  Context, Moment, is_done, earlier, with_timeout, TimeoutConfig, TimeoutManager, create_context,
  effective_timeout, derived_base, create_derived_timeout,
}

-- A deadline that is there, and not after a time.
abbrev pub By : Option ℤ → ℤ → Type 0
By none t = ⊥
By (some d) t = d ≤ℤ t

abbrev pub NotAfter : Option ℤ → Option ℤ → Type 0
NotAfter d none = Unit
NotAfter d (some t) = By d t

earlier_le : (d : ℤ) (p : Option ℤ) → earlier d p ≤ℤ d
earlier_le d none = omega arith
earlier_le d (some p) = ground arith

effective_le : (m : Moment) (t : ℤ) (p : Option ℤ) → effective_timeout m t p ≤ℤ t
effective_le m t none = omega arith
effective_le m t (some d) = ground (arith, -ℤ_parts d m.now)

effective_parent :
    (m : Moment) (n t d : ℤ) → n +ℤ effective_timeout m t (some d) ≤ℤ d +ℤ (n -ℤ m.now)
effective_parent m n t d = elim (Bool-cases (ltb_ℤ (d -ℤ m.now) t)) [
  | inl e ↦ rw e (
      omega (
        arith,
        +ℤ_parts n (d -ℤ m.now),
        +ℤ_parts d (n -ℤ m.now),
        -ℤ_parts d m.now,
        -ℤ_parts n m.now,
      ))
  | inr e ↦
      rw e (
        ground
          (arith, +ℤ_parts n t, +ℤ_parts d (n -ℤ m.now), -ℤ_parts d m.now, -ℤ_parts n m.now, e))
]

+ℤ_le : (a b c : ℤ) → b ≤ℤ c → a +ℤ b ≤ℤ a +ℤ c
+ℤ_le a b c h = omega (arith, h, +ℤ_parts a b, +ℤ_parts a c)

≤ℤ_trans : (a b c : ℤ) → a ≤ℤ b → b ≤ℤ c → a ≤ℤ c
≤ℤ_trans a b c h k = omega (arith, h, k)

-- The deadline of the parent, moved by the time between the two readings of the clock.
abbrev pub moved : ℤ → Option ℤ → Option ℤ
moved delay none = none
moved delay (some d) = some (d +ℤ delay)

-- A deadline that is that of the timeout asked for, or that of the parent moved, or earlier.
abbrev pub Derived : Moment → Moment → ℤ → Option ℤ → Option ℤ → Type 0
Derived m later timeout parent d =
    By d (later.now +ℤ timeout) × NotAfter d (moved (later.now -ℤ m.now) parent)

-- The context of CreateDerivedTimeout has a deadline, with a coordinator or without, which is not after the timeout
-- that was asked for, counted from the second reading of the clock, nor, if the parent has a deadline, after that
-- deadline and the time that passed between the first reading of the clock and the second.
pub create_derived_timeout-By :
    (tm : TimeoutManager) (m later : Moment) (own : ℕ) (parent : Context) (timeout : ℤ)
    → Derived m later timeout parent.deadline
        (create_derived_timeout tm m later own parent timeout).deadline
unfolding create_derived_timeout with_timeout
create_derived_timeout-By tm m later own parent timeout = (asked, of_parent parent.deadline)
  where
    asked :
        earlier
          (later.now +ℤ effective_timeout m timeout parent.deadline)
          (derived_base m tm.coordinator parent).deadline
        ≤ℤ later.now +ℤ timeout
    asked =
        let e = effective_timeout m timeout parent.deadline in
        let d = derived_base m tm.coordinator parent in
        ≤ℤ_trans (earlier (later.now +ℤ e) d.deadline) (later.now +ℤ e) (later.now +ℤ timeout)
          (earlier_le (later.now +ℤ e) d.deadline)
          (+ℤ_le later.now e timeout (effective_le m timeout parent.deadline))

    of_parent :
        (p : Option ℤ)
        → NotAfter
            (some (
              earlier
                (later.now +ℤ effective_timeout m timeout p)
                (derived_base m tm.coordinator parent).deadline))
            (moved (later.now -ℤ m.now) p)
    of_parent none = tt
    of_parent (some d) =
        let e = effective_timeout m timeout (some d) in
        let b = derived_base m tm.coordinator parent in
        ≤ℤ_trans (earlier (later.now +ℤ e) b.deadline) (later.now +ℤ e) (d +ℤ (later.now -ℤ m.now))
          (earlier_le (later.now +ℤ e) b.deadline) (effective_parent m later.now timeout d)

-- With a coordinator, two parents that are not done get the same context from each of the seven functions, so
-- that neither the parent's deadline nor its later cancellation reaches the operation.
pub create_context-orphan :
    (of : TimeoutConfig → ℤ) (timeouts : TimeoutConfig) (root : Context) (m : Moment) (own : ℕ)
    (parent other : Context)
    → is_done m parent ≡ false
    → is_done m other ≡ false
    → let tm : TimeoutManager = record { timeouts = timeouts; coordinator = some root } in
      create_context of tm m own parent ≡ create_context of tm m own other
unfolding create_context
create_context-orphan of timeouts root m own parent other p q = rw (p, q) refl
