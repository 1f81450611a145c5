-- ===== src/Gpio/Sharing.antt =====
-- What internal/services/gpio/service.go keeps true of its pins, and what a call does to the status.
use ideas.Base.{
  ℕ, ◌<◌, ◌||◌, ◌≡◌, ◌≢◌, refl, sym, ap, subst, ◌∙◌, inl, inr, Bool, true, false, List, [], ◌∷◌,
  Option, none, some, if◌then◌else◌, arith, eq_true, eq_false, Bool-cases,
}
use ideas.Base.Int.{ℤ, pos, ltb_ℤ}
use mathlib.Core.Option.{some-injective}
use ideas.Gpio.Maps.{eqb-cases, put-same, put-other, put-some}
use ideas.Gpio.Types.{GpioConfig, PinMode, same_mode, EdgeType, PinConfig, PinStatus, put}
use ideas.Gpio.Service.{
  Service, new_service, GpioError, already_started, Result, write_cell, configured, configure_pin,
  out_of_range, then_activate, then_result, configure_all, initialize, start, stop, with_mode,
  write, set_pin, set_pwm, register_interrupt, unregistered, unregister_interrupt, Request,
  initializes, starts, stops, configures, sets_pin, sets_pwm, registers, unregisters, handle,
  handle_all,
}

-- Both maps refer to the same cells, each made before and for one pin only; a record that says that it
-- has an interrupt belongs to a pin with a handler; a pin has a handler when it has a channel.
pub record IsConsistent (s : Service) : Type 0 where
  pub shared : (p : ℤ) → s.status_pins p ≡ s.pins p
  pub made : (p : ℤ) (l : ℕ) → s.pins p ≡ some l → l < s.next
  pub separate : (p q : ℤ) (l : ℕ) → s.pins p ≡ some l → s.pins q ≡ some l → p ≡ q
  pub served : (p : ℤ) → (s.interrupt_chans p ≡ true) → (k : ℕ) × (s.handlers p ≡ some k)
  pub announced :
      (p : ℤ) (l : ℕ)
      → s.pins p ≡ some l
      → (s.cells l).has_interrupt ≡ true
      → s.interrupt_chans p ≡ true

pub new_service-IsConsistent :
    (config : GpioConfig) (now : ℕ) → IsConsistent (new_service config now)
new_service-IsConsistent config now = record {
  shared = λ p. refl;
  made = λ p l h. absurd (cc h);
  separate = λ p q l h k. absurd (cc h);
  served = λ p h. absurd (cc h);
  announced = λ p l h t. absurd (cc h);
}

-- A write to the record of a pin, with new handlers and channels that fit.
module _ (s : Service) (w : IsConsistent s) where
  written-IsConsistent :
      (pin : ℤ) (l : ℕ) (c : PinStatus) (handlers : ℤ → Option ℕ) (chans : ℤ → Bool)
      → s.pins pin ≡ some l
      → (c.has_interrupt ≡ true → chans pin ≡ true)
      → ((p : ℤ) → pin ≢ p → chans p ≡ s.interrupt_chans p)
      → ((p : ℤ) → chans p ≡ true → (k : ℕ) × (handlers p ≡ some k))
      → IsConsistent (record s {
        cells = write_cell s.cells l c;
        handlers = handlers;
        interrupt_chans = chans;
      })
  written-IsConsistent pin l c handlers chans e here others fits = record {
    shared = w.shared;
    made = w.made;
    separate = w.separate;
    served = fits;
    announced = λ p k h t. elim (eqb-cases pin p) [
      | inl (_, q) ↦
          let m : l ≡ k = some-injective l k (sym e ∙ ap s.pins q ∙ h) in
          subst (λ z. chans z ≡ true) q (here (rw (sym m, eq_true l l refl) at t))
      | inr (_, n) ↦
          let m : l ≢ k = λ z. n (w.separate pin p l e (h ∙ ap some (sym z))) in
          others p n ∙ w.announced p k h (rw (eq_false l k m) at t)
    ];
  }

  pub configured-IsConsistent :
      (now : ℕ) (pin : ℤ) (c : PinConfig) → IsConsistent (configured now pin c s)
  configured-IsConsistent now pin c = record {
    shared =
        λ p. elim (eqb-cases pin p) [ inl (t, _) ↦ rw t refl | inr (f, _) ↦ rw f (w.shared p) ];
    made = λ p l h. elim (put-some s.pins pin s.next p l h) [
      | inl (_, e) ↦ omega (arith, e)
      | inr (_, e) ↦ omega (arith, w.made p l e)
    ];
    separate = λ p q l h k. elim (put-some s.pins pin s.next p l h) [
      | inl (e, m) ↦ elim (put-some s.pins pin s.next q l k) [
        | inl (f, _) ↦ sym e ∙ f
        | inr (_, g) ↦ absurd (omega (arith, m, w.made q l g))
      ]
      | inr (_, g) ↦ elim (put-some s.pins pin s.next q l k) [
        | inl (_, m) ↦ absurd (omega (arith, m, w.made p l g))
        | inr (_, d) ↦ w.separate p q l g d
      ]
    ];
    served = w.served;
    announced = λ p l h t. elim (put-some s.pins pin s.next p l h) [
      | inl (_, m) ↦ absurd (cc (rw (m, eq_true s.next s.next refl) at t))
      | inr (_, g) ↦
          w.announced p l g (rw (eq_false s.next l (λ z. omega (arith, z, w.made p l g))) at t)
    ];
  }

  with_mode-IsConsistent :
      (m : PinMode) (e : GpioError) (f : ℕ → Result) (o : Option ℕ)
      → ((l : ℕ) → o ≡ some l → IsConsistent ((f l).0))
      → IsConsistent ((with_mode m e s f o).0)
  with_mode-IsConsistent m e f none h = w
  with_mode-IsConsistent m e f (some l) h =
      elim (Bool-cases (let c = s.cells l in same_mode c.mode m)) [
        | inl t ↦ rw t (h l refl)
        | inr t ↦ rw t w
      ]

  -- A write that keeps the interrupt of the pin.
  kept-IsConsistent :
      (pin : ℤ) (l : ℕ) (c : PinStatus)
      → s.pins pin ≡ some l
      → c.has_interrupt ≡ (s.cells l).has_interrupt
      → IsConsistent (write s l c)
  kept-IsConsistent pin l c e h =
      written-IsConsistent pin l c s.handlers s.interrupt_chans e
        (λ t. w.announced pin l e (sym h ∙ t)) (λ p n. refl) w.served

  set_pin-IsConsistent : (now : ℕ) (pin : ℤ) (v : Bool) → IsConsistent ((set_pin now pin v s).0)
  unfolding set_pin
  set_pin-IsConsistent now pin v =
      with_mode-IsConsistent _ _ _ (s.pins pin) (λ l e. kept-IsConsistent pin l _ e refl)

  set_pwm-IsConsistent : (now : ℕ) (pin duty : ℤ) → IsConsistent ((set_pwm now pin duty s).0)
  unfolding set_pwm
  set_pwm-IsConsistent now pin duty = with_mode-IsConsistent _ _ _ (s.pins pin) (λ l e.
      elim (Bool-cases (ltb_ℤ duty (pos 0) || ltb_ℤ (pos 1000) duty)) [
        | inl t ↦ rw t w
        | inr t ↦ rw t (kept-IsConsistent pin l _ e refl)
      ])

  register_interrupt-IsConsistent :
      (pin : ℤ) (edge : EdgeType) (handler : ℕ)
      → IsConsistent ((register_interrupt pin edge handler s).0)
  unfolding register_interrupt
  register_interrupt-IsConsistent pin edge handler =
      with_mode-IsConsistent _ _ _ (s.pins pin) (λ l e.
        written-IsConsistent pin l _ (put s.handlers pin (some handler))
          (put s.interrupt_chans pin true) e (λ _. put-same s.interrupt_chans pin true)
          (λ p n. put-other s.interrupt_chans pin true p n)
          (λ p h. elim (eqb-cases pin p) [
            | inl (t, _) ↦ (handler, rw t refl)
            | inr (f, _) ↦ let (k, g) = w.served p (rw f at h) in (k, rw f g)
          ]))

  unregistered-IsConsistent :
      (pin : ℤ) (o : Option ℕ) → s.pins pin ≡ o → IsConsistent ((unregistered pin s o).0)
  unregistered-IsConsistent pin none e = w
  unregistered-IsConsistent pin (some l) e =
      written-IsConsistent pin l _ (put s.handlers pin none) (put s.interrupt_chans pin false) e
        (λ t. absurd (cc t)) (λ p n. put-other s.interrupt_chans pin false p n)
        (λ p h. elim (eqb-cases pin p) [
          | inl (t, _) ↦ absurd (cc (rw t at h))
          | inr (f, _) ↦ let (k, g) = w.served p (rw f at h) in (k, rw f g)
        ])

  configure_pin-IsConsistent :
      (now : ℕ) (pin : ℤ) (c : PinConfig) → IsConsistent ((configure_pin now pin c s).0)
  unfolding configure_pin
  configure_pin-IsConsistent now pin c = elim (Bool-cases (out_of_range s.config pin)) [
    | inl t ↦ rw t w
    | inr t ↦ rw t (configured-IsConsistent now pin c)
  ]

then_result-IsConsistent :
    (r : Result) (f : Service → Result)
    → IsConsistent (r.0)
    → ((s : Service) → IsConsistent s → IsConsistent ((f s).0))
    → IsConsistent ((then_result r f).0)
then_result-IsConsistent (s, some e) f w h = w
then_result-IsConsistent (s, none) f w h = h s w

configure_all-IsConsistent :
    (now : ℕ) (configs : List (ℤ × PinConfig)) (s : Service)
    → IsConsistent s
    → IsConsistent ((configure_all now configs s).0)
unfolding configure_all
configure_all-IsConsistent now [] s w = w
configure_all-IsConsistent now (kv ∷ rest) s w =
    then_result-IsConsistent (configure_pin now kv.0 kv.1 s) _
      (configure_pin-IsConsistent s w now kv.0 kv.1) (configure_all-IsConsistent now rest)

-- The flags do not matter.
flags-IsConsistent :
    (s : Service) (started cancellable is_active : Bool) (last_update : ℕ)
    → IsConsistent s
    → IsConsistent (record s {
      started = started;
      cancellable = cancellable;
      is_active = is_active;
      last_update = last_update;
    })
flags-IsConsistent s _ _ _ _ w = record {
  shared = w.shared;
  made = w.made;
  separate = w.separate;
  served = w.served;
  announced = w.announced;
}

then_activate-IsConsistent :
    (now : ℕ) (r : Result) → IsConsistent (r.0) → IsConsistent ((then_activate now r).0)
then_activate-IsConsistent now (s, some e) w = w
then_activate-IsConsistent now (s, none) w = flags-IsConsistent s s.started s.cancellable true now w

start-IsConsistent : (s : Service) → IsConsistent s → IsConsistent ((start s).0)
unfolding start
start-IsConsistent s w =
    let r : Bool → Result = λ b.
      if b
      then (s, some already_started)
      else (record s { started = true; cancellable = true }, none) in
    elim (Bool-cases s.started) [
      | inl t ↦ subst (λ b. IsConsistent ((r b).0)) (sym t) w
      | inr t ↦
          subst (λ b. IsConsistent ((r b).0)) (sym t)
            (flags-IsConsistent s true true s.is_active s.last_update w)
    ]

handle-IsConsistent :
    (now : ℕ) (r : Request) (s : Service) → IsConsistent s → IsConsistent ((handle now r s).0)
unfolding handle initialize stop unregister_interrupt
handle-IsConsistent now initializes s w =
    then_activate-IsConsistent now _
      (configure_all-IsConsistent now (let g = s.config in g.pin_configs) s w)
handle-IsConsistent now starts s w = start-IsConsistent s w
handle-IsConsistent now stops s w = flags-IsConsistent s s.started false false s.last_update w
handle-IsConsistent now (configures pin c) s w = configure_pin-IsConsistent s w now pin c
handle-IsConsistent now (sets_pin pin v) s w = set_pin-IsConsistent s w now pin v
handle-IsConsistent now (sets_pwm pin duty) s w = set_pwm-IsConsistent s w now pin duty
handle-IsConsistent now (registers pin edge handler) s w =
    register_interrupt-IsConsistent s w pin edge handler
handle-IsConsistent now (unregisters pin) s w = unregistered-IsConsistent s w pin (s.pins pin) refl

-- If the pins and the status refer to the same records, one for each pin, every channel has a
-- handler, and a record that announces an interrupt belongs to a pin with a channel, then this
-- holds after any calls.
pub handle_all-IsConsistent :
    (rs : List (ℕ × Request)) (s : Service) → IsConsistent s → IsConsistent (handle_all rs s)
unfolding handle_all
handle_all-IsConsistent [] s w = w
handle_all-IsConsistent (r ∷ rs) s w =
    handle_all-IsConsistent rs _ (handle-IsConsistent r.0 r.1 s w)
