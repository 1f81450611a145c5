-- ===== src/Gpio/Effects.antt =====
-- What the calls of internal/services/gpio/service.go change, and what a refused call leaves.
use ideas.Base.{
  ℕ, ◌||◌, ◌≡◌, ◌≢◌, refl, sym, ap, ◌∙◌, Bool, true, false, Option, none, some, if◌then◌else◌,
  eq_true, eq_false, Bool-cases, inl, inr,
}
use ideas.Base.Int.{ℤ, pos, ltb_ℤ}
use ideas.Gpio.Types.{PinMode, pin_mode_input, pin_mode_output, pin_mode_pwm, same_mode, PinStatus}
use ideas.Gpio.Service.{
  Service, GpioError, not_output, Result, configure_pin, out_of_range, start, stop, with_mode,
  write, copy_of, set_pin, set_pwm, register_interrupt, unregistered, unregister_interrupt,
  get_status, Request, initializes, starts, stops, configures, sets_pin, sets_pwm, registers,
  unregisters, handle,
}
use ideas.Gpio.Sharing.{IsConsistent}

-- A result that leaves the service as it was if it is an error.
abbrev Harmless : Service → Result → Type 0
Harmless s r = (e : GpioError) → r.1 ≡ some e → r.0 ≡ s

with_mode-Harmless :
    (s : Service) (m : PinMode) (e : GpioError) (f : ℕ → Result) (o : Option ℕ)
    → ((l : ℕ) → Harmless s (f l))
    → Harmless s (with_mode m e s f o)
with_mode-Harmless s m e f none h d p = refl
with_mode-Harmless s m e f (some l) h d p =
    elim (Bool-cases (let c = s.cells l in same_mode c.mode m)) [
      | inl t ↦ rw t (h l d (rw t at p))
      | inr t ↦ rw t refl
    ]

unregistered-Harmless : (pin : ℤ) (s : Service) (o : Option ℕ) → Harmless s (unregistered pin s o)
unregistered-Harmless pin s none e p = refl
unregistered-Harmless pin s (some l) e p = absurd (cc p)

if-Harmless :
    (s : Service) (b : Bool) (x y : Result)
    → Harmless s x
    → Harmless s y
    → Harmless s (if b then x else y)
if-Harmless s true x y h k = h
if-Harmless s false x y h k = k

abbrev pub is_initialize : Request → Bool
is_initialize initializes = true
is_initialize _ = false

-- A call other than Initialize that returns an error leaves the service as it was.
pub handle-refused :
    (now : ℕ) (r : Request) (s : Service) (e : GpioError)
    → is_initialize r ≡ false
    → (handle now r s).1 ≡ some e
    → (handle now r s).0 ≡ s
unfolding handle set_pin set_pwm register_interrupt unregister_interrupt configure_pin start stop
handle-refused now initializes s e h p = absurd (cc h)
handle-refused now starts s e h p =
    if-Harmless s s.started _ _ (λ d q. refl) (λ d q. absurd (cc q)) e p
handle-refused now stops s e h p = absurd (cc p)
handle-refused now (configures pin c) s e h p =
    if-Harmless s (out_of_range s.config pin) _ _ (λ d q. refl) (λ d q. absurd (cc q)) e p
handle-refused now (sets_pin pin v) s e h p =
    with_mode-Harmless s _ _ _ (s.pins pin) (λ l d q. absurd (cc q)) e p
handle-refused now (sets_pwm pin duty) s e h p =
    with_mode-Harmless s _ _ _ (s.pins pin)
      (λ l.
        if-Harmless s (ltb_ℤ duty (pos 0) || ltb_ℤ (pos 1000) duty) _ _ (λ d q. refl)
          (λ d q. absurd (cc q)))
      e p
handle-refused now (registers pin edge handler) s e h p =
    with_mode-Harmless s _ _ _ (s.pins pin) (λ l d q. absurd (cc q)) e p
handle-refused now (unregisters pin) s e h p = unregistered-Harmless pin s (s.pins pin) e p

-- Another pin's entry of the status does not see a write.
copy-other :
    (s : Service) (w : IsConsistent s) (pin : ℤ) (l : ℕ) (c : PinStatus) (q : ℤ) (o : Option ℕ)
    → s.pins pin ≡ some l
    → pin ≢ q
    → s.pins q ≡ o
    → copy_of (write s l c) o ≡ copy_of s o
copy-other s w pin l c q none e n h = refl
copy-other s w pin l c q (some k) e n h =
    rw (eq_false l k (λ z. n (w.separate pin q l e (h ∙ ap some (sym z))))) refl

-- What the status shows after a call on `pin`: `c` there, and elsewhere what it showed before.
pub Shows : Service → ℤ → PinStatus → Service → Type 0
Shows s pin c t =
    (get_status t pin ≡ some c) × ((q : ℤ) → pin ≢ q → get_status t q ≡ get_status s q)

write-Shows :
    (s : Service)
    → IsConsistent s
    → (pin : ℤ) (l : ℕ) (c : PinStatus) → s.pins pin ≡ some l
    → Shows s pin c (write s l c)
unfolding Shows get_status
write-Shows s w pin l c e = (
  ap (copy_of (write s l c)) (w.shared pin ∙ e) ∙ rw (eq_true l l refl) refl,
  λ q n.
      ap (copy_of (write s l c)) (w.shared q)
      ∙ copy-other s w pin l c q (s.pins q) e n refl
      ∙ ap (copy_of s) (sym (w.shared q)),
)

-- A SetPin that succeeds was on an output pin, and shows its value there and changes no other pin.
SetPinOutcome : ℕ → ℤ → Bool → Service → Result → Type 0
SetPinOutcome now pin v s r =
    (c : PinStatus) × ((get_status s pin ≡ some c)
      × ((c.mode ≡ pin_mode_output)
          × Shows s pin (record c { value = v; last_update = now }) (r.0)))

is_output : (m : PinMode) → same_mode m pin_mode_output ≡ true → m ≡ pin_mode_output
is_output pin_mode_input h = absurd (cc h)
is_output pin_mode_output h = refl
is_output pin_mode_pwm h = absurd (cc h)

set_pin-outcome :
    (now : ℕ) (pin : ℤ) (v : Bool) (s : Service) (o : Option ℕ)
    → IsConsistent s
    → s.pins pin ≡ o
    → let r =
        with_mode pin_mode_output not_output s
          (λ l. let c = s.cells l in (write s l (record c { value = v; last_update = now }), none))
          o in
      r.1 ≡ none → SetPinOutcome now pin v s r
unfolding SetPinOutcome get_status
set_pin-outcome now pin v s none w e h = absurd (cc h)
set_pin-outcome now pin v s (some l) w e h =
    let c = s.cells l in
    elim (Bool-cases (same_mode c.mode pin_mode_output)) [
      | inl t ↦ (
        c,
        (
          ap (copy_of s) (w.shared pin ∙ e),
          (
            is_output c.mode t,
            rw t (write-Shows s w pin l (record c { value = v; last_update = now }) e),
          ),
        ),
      )
      | inr t ↦ absurd (cc (rw t at h))
    ]

-- When SetPin returns no error on a consistent service, the status showed an output pin there, it
-- then shows the new value at the pin, with the time of the call, and shows what it showed at all
-- others.
pub set_pin-Shows :
    (now : ℕ) (pin : ℤ) (v : Bool) (s : Service)
    → IsConsistent s
    → (set_pin now pin v s).1 ≡ none
    → (c : PinStatus) × ((get_status s pin ≡ some c)
        × ((c.mode ≡ pin_mode_output)
            × Shows s pin (record c { value = v; last_update = now }) ((set_pin now pin v s).0)))
unfolding set_pin SetPinOutcome
set_pin-Shows now pin v s w h = set_pin-outcome now pin v s (s.pins pin) w refl h
