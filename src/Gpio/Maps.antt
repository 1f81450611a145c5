-- ===== src/Gpio/Maps.antt =====
-- Maps keyed by pins, and the store of records, after a write.
use ideas.Base.{
  ℕ, ◌+◌, ◌≡◌, ◌≢◌, refl, sym, ap, ◌⊎◌, inl, inr, true, false, Option, some, arith, eq_true,
  eq_false, eq_cases,
}
use ideas.Base.Int.{ℤ, pos_part, neg_part, eqb_ℤ, eq_of_parts}
use mathlib.Core.Option.{some-injective}
use ideas.Gpio.Types.{PinStatus, put}
use ideas.Gpio.Service.{write_cell}

pub eqb-cases : (a b : ℤ) → ((eqb_ℤ a b ≡ true) × (a ≡ b)) ⊎ ((eqb_ℤ a b ≡ false) × (a ≢ b))
eqb-cases a b = elim (eq_cases (pos_part a + neg_part b) (pos_part b + neg_part a)) [
  | inl p ↦ inl (eq_true _ _ p, eq_of_parts a b p)
  | inr q ↦ inr (eq_false _ _ q, λ e. q (omega (arith, ap pos_part e, ap neg_part e)))
]

pub put-same {ℓ} : {A : Type ℓ} (m : ℤ → A) (pin : ℤ) (v : A) → put m pin v pin ≡ v
put-same m pin v =
    rw (eq_true (pos_part pin + neg_part pin) (pos_part pin + neg_part pin) refl) refl

pub put-other {ℓ} :
    {A : Type ℓ} (m : ℤ → A) (pin : ℤ) (v : A) (j : ℤ) → pin ≢ j → put m pin v j ≡ m j
put-other m pin v j h = elim (eqb-cases pin j) [
  | inl (p, e) ↦ absurd (h e)
  | inr (q, n) ↦ rw q refl
]

-- Where a value of a map after a write comes from.
pub put-some {ℓ} :
    {A : Type ℓ} (m : ℤ → Option A) (pin : ℤ) (v : A) (p : ℤ) (a : A)
    → put m pin (some v) p ≡ some a
    → ((pin ≡ p) × (a ≡ v)) ⊎ ((pin ≢ p) × (m p ≡ some a))
put-some m pin v p a h = elim (eqb-cases pin p) [
  | inl (t, e) ↦ inl (e, sym (some-injective v a (rw t at h)))
  | inr (f, n) ↦ inr (n, rw f at h)
]

pub write-other :
    (cells : ℕ → PinStatus) (l : ℕ) (c : PinStatus) (k : ℕ)
    → l ≢ k
    → write_cell cells l c k ≡ cells k
write-other cells l c k h = rw (eq_false l k h) refl

pub write-same : (cells : ℕ → PinStatus) (l : ℕ) (c : PinStatus) → write_cell cells l c l ≡ c
write-same cells l c = rw (eq_true l l refl) refl
