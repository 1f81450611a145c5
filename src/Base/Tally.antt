-- ===== src/Base/Tally.antt =====
-- Sums of a weight over a list.
use Prim.Native.Nat.{ℕ, zero, suc, ◌+◌, ◌≤◌}
use mathlib.Core.List.{List, [], ◌∷◌, ◌++◌}
use mathlib.Core.Option.{Option, none, some}
use mathlib.Core.Path.{◌≡◌, ap}
use native.Mathlib.Omega.{arith}
use ideas.Base.Lists.{get_elem?, set}

module _ {ℓ} {A : Type ℓ} where
  abbrev pub tally : (A → ℕ) → List A → ℕ
  tally f [] = 0
  tally f (x ∷ xs) = f x + tally f xs

  pub tally-append : (f : A → ℕ) (xs ys : List A) → tally f (xs ++ ys) ≡ tally f xs + tally f ys
  tally-append f [] ys = omega arith
  tally-append f (x ∷ xs) ys = omega (arith, tally-append f xs ys)

  abbrev weight_of : (A → ℕ) → Option A → ℕ
  weight_of f none = 0
  weight_of f (some y) = f y

  -- One place of the list is written.
  pub tally-set :
      (f : A → ℕ) (xs : List A) (i : ℕ) (v w : A)
      → get_elem? xs i ≡ some w
      → tally f (set xs i v) + f w ≡ tally f xs + f v
  tally-set f [] i v w h = absurd (cc h)
  tally-set f (x ∷ xs) zero v w h = omega (arith, ap (weight_of f) h)
  tally-set f (x ∷ xs) (suc i) v w h = omega (arith, tally-set f xs i v w h)

  pub tally_mono : (f g : A → ℕ) (xs : List A) → ((x : A) → f x ≤ g x) → tally f xs ≤ tally g xs
  tally_mono f g [] h = omega arith
  tally_mono f g (x ∷ xs) h = omega (arith, h x, tally_mono f g xs h)
