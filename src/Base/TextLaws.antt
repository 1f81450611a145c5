-- ===== src/Base/TextLaws.antt =====
-- The equality of byte strings as a test.
use mathlib.Core.Bool.{true}
use mathlib.Core.List.{[], ◌∷◌}
use mathlib.Core.Logic.{inl, inr}
use mathlib.Core.Path.{◌≡◌, refl}
use native.Mathlib.Omega.{arith}
use ideas.Base.Tests.{◌==◌, ==_iff, Bool-cases}
use ideas.Base.Text.{Bytes, bytes_eq}

pub bytes_eq_sound : (s t : Bytes) → bytes_eq s t ≡ true → s ≡ t
bytes_eq_sound [] [] h = refl
bytes_eq_sound [] (d ∷ t) h = absurd (cc h)
bytes_eq_sound (c ∷ s) [] h = absurd (cc h)
bytes_eq_sound (c ∷ s) (d ∷ t) h = elim (Bool-cases (c == d)) [
  | inl p ↦ λ i. (==_iff c d).0 p i ∷ bytes_eq_sound s t (rw p at h) i
  | inr q ↦ absurd (cc (rw q at h))
]

pub bytes_eq_self : (s : Bytes) → bytes_eq s s ≡ true
bytes_eq_self [] = refl
bytes_eq_self (c ∷ s) = rw ((==_iff c c).1 refl) (bytes_eq_self s)

pub bytes_eq_sym : (s t : Bytes) → bytes_eq s t ≡ bytes_eq t s
bytes_eq_sym [] [] = refl
bytes_eq_sym [] (d ∷ t) = refl
bytes_eq_sym (c ∷ s) [] = refl
bytes_eq_sym (c ∷ s) (d ∷ t) = ground (arith, bytes_eq_sym s t)
