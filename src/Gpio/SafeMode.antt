-- ===== src/Gpio/SafeMode.antt =====
-- The safe mode of internal/services/gpio/service.go.
use ideas.Base.{
  ℕ, ◌||◌, ◌≡◌, Bool, true, false, List, [], ◌∷◌, Option, none, some, if◌then◌else◌, Bool-cases,
  inl, inr, subst,
}
use ideas.Base.Int.{ℤ, pos, ltb_ℤ}
use ideas.Gpio.Types.{PinMode, same_mode, PinConfig, GpioConfig}
use ideas.Gpio.Maps.{put-some}
use ideas.Gpio.Service.{
  Service, new_service, GpioError, Result, out_of_range, configure_pin, then_activate, then_result,
  configure_all, initialize, start, stop, with_mode, set_pin, set_pwm, register_interrupt,
  unregistered, unregister_interrupt, Request, initializes, starts, stops, configures, sets_pin,
  sets_pwm, registers, unregisters, handle, handle_all,
}

-- Every configured pin is in the range of the safe mode, if it is on.
pub IsSafe : Service → Type 0
IsSafe s = (p : ℤ) (l : ℕ) → s.pins p ≡ some l → out_of_range s.config p ≡ false

with_mode-IsSafe :
    (s : Service) (m : PinMode) (e : GpioError) (f : ℕ → Result) (o : Option ℕ)
    → IsSafe s
    → ((l : ℕ) → IsSafe ((f l).0))
    → IsSafe ((with_mode m e s f o).0)
with_mode-IsSafe s m e f none w h = w
with_mode-IsSafe s m e f (some l) w h =
    elim (Bool-cases (let c = s.cells l in same_mode c.mode m)) [
      | inl t ↦ rw t (h l)
      | inr t ↦ rw t w
    ]

unregistered-IsSafe :
    (pin : ℤ) (s : Service) (o : Option ℕ) → IsSafe s → IsSafe ((unregistered pin s o).0)
unfolding IsSafe
unregistered-IsSafe pin s none w = w
unregistered-IsSafe pin s (some l) w = w

if-IsSafe :
    (b : Bool) (x y : Result) → IsSafe (x.0) → IsSafe (y.0) → IsSafe ((if b then x else y).0)
if-IsSafe true x y h k = h
if-IsSafe false x y h k = k

configure_pin-IsSafe :
    (now : ℕ) (pin : ℤ) (c : PinConfig) (s : Service)
    → IsSafe s
    → IsSafe ((configure_pin now pin c s).0)
unfolding configure_pin IsSafe
configure_pin-IsSafe now pin c s w = elim (Bool-cases (out_of_range s.config pin)) [
  | inl t ↦ rw t w
  | inr t ↦ rw t (λ p l h. elim (put-some s.pins pin s.next p l h) [
    | inl (e, _) ↦ subst (λ q. out_of_range s.config q ≡ false) e t
    | inr (_, g) ↦ w p l g
  ])
]

then_result-IsSafe :
    (r : Result) (f : Service → Result)
    → IsSafe (r.0)
    → ((s : Service) → IsSafe s → IsSafe ((f s).0))
    → IsSafe ((then_result r f).0)
then_result-IsSafe (s, some e) f w h = w
then_result-IsSafe (s, none) f w h = h s w

configure_all-IsSafe :
    (now : ℕ) (configs : List (ℤ × PinConfig)) (s : Service)
    → IsSafe s
    → IsSafe ((configure_all now configs s).0)
unfolding configure_all
configure_all-IsSafe now [] s w = w
configure_all-IsSafe now (kv ∷ rest) s w =
    then_result-IsSafe (configure_pin now kv.0 kv.1 s) _ (configure_pin-IsSafe now kv.0 kv.1 s w)
      (configure_all-IsSafe now rest)

then_activate-IsSafe : (now : ℕ) (r : Result) → IsSafe (r.0) → IsSafe ((then_activate now r).0)
unfolding IsSafe
then_activate-IsSafe now (s, some e) w = w
then_activate-IsSafe now (s, none) w = w

handle-IsSafe : (now : ℕ) (r : Request) (s : Service) → IsSafe s → IsSafe ((handle now r s).0)
unfolding handle initialize start stop set_pin set_pwm register_interrupt unregister_interrupt
    IsSafe
handle-IsSafe now initializes s w =
    then_activate-IsSafe now _ (configure_all-IsSafe now (let g = s.config in g.pin_configs) s w)
handle-IsSafe now starts s w = if-IsSafe s.started _ _ w w
handle-IsSafe now stops s w = w
handle-IsSafe now (configures pin c) s w = configure_pin-IsSafe now pin c s w
handle-IsSafe now (sets_pin pin v) s w = with_mode-IsSafe s _ _ _ (s.pins pin) w (λ l. w)
handle-IsSafe now (sets_pwm pin duty) s w =
    with_mode-IsSafe s _ _ _ (s.pins pin) w
      (λ l. if-IsSafe (ltb_ℤ duty (pos 0) || ltb_ℤ (pos 1000) duty) _ _ w w)
handle-IsSafe now (registers pin edge handler) s w =
    with_mode-IsSafe s _ _ _ (s.pins pin) w (λ l. w)
handle-IsSafe now (unregisters pin) s w = unregistered-IsSafe pin s (s.pins pin) w

-- If every configured pin is in the range of the safe mode, or the mode is off, then this holds after any
-- calls.
pub handle_all-IsSafe :
    (rs : List (ℕ × Request)) (s : Service) → IsSafe s → IsSafe (handle_all rs s)
unfolding handle_all
handle_all-IsSafe [] s w = w
handle_all-IsSafe (r ∷ rs) s w = handle_all-IsSafe rs _ (handle-IsSafe r.0 r.1 s w)

pub new_service-IsSafe : (config : GpioConfig) (now : ℕ) → IsSafe (new_service config now)
unfolding IsSafe
new_service-IsSafe config now p l h = absurd (cc h)
