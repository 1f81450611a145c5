-- ===== src/Gpio/Debounce.antt =====
-- monitorPin of internal/services/gpio/service.go: what it finds at each tick, and the handler calls.
use ideas.Base.{
  ℕ, ◌-◌, ◌≤◌, ◌≡◌, refl, Bool, true, false, not, ◌&&◌, List, [], ◌∷◌, ◌++◌, Option, none, some,
  if◌then◌else◌, leb, leb→le, Bool-cases, inl, inr,
}

-- The monitor's variables. No time of a change is the zero time, which lies further back than any
-- debounce time.
pub record Monitor : Type 0 where
  pub last_value : Bool
  pub last_change_time : Option ℕ

abbrev pub new_monitor : Monitor
new_monitor = record { last_value = false; last_change_time = none }

-- What is found at a tick: the time, and the pin's value if the pin and its handler are there.
abbrev pub Tick : Type 0
Tick = ℕ × Option Bool

-- A call of the handler.
abbrev pub Call : Type 0
Call = Bool × ℕ

abbrev pub differ : Bool → Bool → Bool
differ true b = not b
differ false b = b

abbrev pub settled : ℕ → ℕ → Option ℕ → Bool
settled debounce now none = true
settled debounce now (some t) = leb debounce (now - t)

abbrev pub call_at : ℕ → Bool → List Call × Monitor
call_at now v = ((v, now) ∷ [], record { last_value = v; last_change_time = some now })

abbrev pub on_value : ℕ → ℕ → Monitor → Option Bool → List Call × Monitor
on_value debounce now m none = ([], m)
on_value debounce now m (some v) =
    if differ v m.last_value && settled debounce now m.last_change_time
    then call_at now v
    else ([], m)

unfoldable pub monitor_tick : ℕ → Tick → Monitor → List Call × Monitor
monitor_tick debounce t m = on_value debounce t.0 m t.1

-- The calls over a run of ticks.
unfoldable pub monitor_pin : ℕ → List Tick → Monitor → List Call
monitor_pin debounce [] m = []
monitor_pin debounce (t ∷ ts) m =
    let r = monitor_tick debounce t m in r.0 ++ monitor_pin debounce ts (r.1)

-- Calls that follow a value and a time: each has another value than the one before, and comes no
-- sooner than the debounce time after it.
abbrev pub Spaced : ℕ → Bool → Option ℕ → List Call → Type 0
Spaced debounce last none [] = Unit
Spaced debounce last (some t) [] = Unit
Spaced debounce last none (c ∷ cs) = (c.0 ≡ not last) × Spaced debounce c.0 (some c.1) cs
Spaced debounce last (some t) (c ∷ cs) =
    (c.0 ≡ not last) × ((debounce ≤ c.1 - t) × Spaced debounce c.0 (some c.1) cs)

differ-not : (a b : Bool) → differ a b ≡ true → a ≡ not b
differ-not true true h = absurd (cc h)
differ-not true false h = refl
differ-not false true h = refl
differ-not false false h = absurd (cc h)

ended : (debounce : ℕ) (last : Bool) (t : Option ℕ) → Spaced debounce last t []
ended debounce last none = tt
ended debounce last (some t) = tt

and-true : (a b : Bool) → (a && b) ≡ true → (a ≡ true) × (b ≡ true)
and-true true b h = (refl, h)
and-true false b h = absurd (cc h)

call-Spaced :
    (debounce now : ℕ) (v last : Bool) (t : Option ℕ) (cs : List Call)
    → (differ v last && settled debounce now t) ≡ true
    → Spaced debounce v (some now) cs
    → Spaced debounce last t ((v, now) ∷ cs)
call-Spaced debounce now v last none cs h k = (differ-not v last ((and-true _ _ h).0), k)
call-Spaced debounce now v last (some t) cs h k =
    let (a, b) = and-true (differ v last) (leb debounce (now - t)) h in
    (differ-not v last a, (leb→le debounce (now - t) b, k))

on_value-Spaced :
    (debounce now : ℕ) (m : Monitor) (o : Option Bool) (rest : Monitor → List Call)
    → ((n : Monitor) → Spaced debounce n.last_value n.last_change_time (rest n))
    → let r = on_value debounce now m o in
      Spaced debounce m.last_value m.last_change_time (r.0 ++ rest (r.1))
on_value-Spaced debounce now m none rest h = h m
on_value-Spaced debounce now m (some v) rest h =
    elim (Bool-cases (differ v m.last_value && settled debounce now m.last_change_time)) [
      | inl t ↦
          let n : Monitor = record { last_value = v; last_change_time = some now } in
          rw t (call-Spaced debounce now v m.last_value m.last_change_time (rest n) t (h n))
      | inr t ↦ rw t (h m)
    ]

-- Whatever the ticks find, the values that the handler is called with alternate, the first of them other
-- than the monitor's, and each call comes at least the debounce time after the one before.
pub monitor_pin-Spaced :
    (debounce : ℕ) (ts : List Tick) (m : Monitor)
    → Spaced debounce m.last_value m.last_change_time (monitor_pin debounce ts m)
unfolding monitor_pin monitor_tick
monitor_pin-Spaced debounce [] m = ended debounce m.last_value m.last_change_time
monitor_pin-Spaced debounce (t ∷ ts) m =
    on_value-Spaced debounce t.0 m t.1 (monitor_pin debounce ts) (monitor_pin-Spaced debounce ts)
