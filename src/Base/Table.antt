-- ===== src/Base/Table.antt =====
-- Go's maps from texts, as the lists of their entries, in the order in which a `range` meets them. The first entry
-- with a key counts.
use mathlib.Core.Logic.{inl, inr}
use mathlib.Core.List.{List, [], ◌∷◌}
use mathlib.Core.Option.{Option, none, some}
use mathlib.Core.Path.{◌≡◌, refl}
use Prim.Native.Nat.{ℕ, ◌+◌}
use native.Mathlib.Omega.{arith}
use ideas.Base.Tests.{if◌then◌else◌, Bool-cases}
use ideas.Base.Text.{Bytes, bytes_eq}

module _ {ℓ} {A : Type ℓ} where
  abbrev pub lookup : Bytes → List (Bytes × A) → Option A
  lookup k [] = none
  lookup k (e ∷ es) = if bytes_eq k e.0 then some e.1 else lookup k es

  -- An entry keeps its place; a new one goes to the end.
  abbrev pub put : Bytes → A → List (Bytes × A) → List (Bytes × A)
  put k a [] = (k, a) ∷ []
  put k a (e ∷ es) = let rest = put k a es in if bytes_eq k e.0 then (k, a) ∷ es else e ∷ rest

  -- maps.Copy, or a loop that does the same.
  abbrev pub put_each : List (Bytes × A) → List (Bytes × A) → List (Bytes × A)
  put_each [] es = es
  put_each (n ∷ ns) es = put_each ns (put n.0 n.1 es)

-- `m[k]++`
abbrev pub bump : Bytes → List (Bytes × ℕ) → List (Bytes × ℕ)
bump k [] = (k, 1) ∷ []
bump k (e ∷ es) = let rest = bump k es in if bytes_eq k e.0 then (e.0, e.1 + 1) ∷ es else e ∷ rest

-- The sum of the counts.
abbrev pub sum_counts : List (Bytes × ℕ) → ℕ
sum_counts [] = 0
sum_counts (e ∷ es) = e.1 + sum_counts es

pub sum_counts-bump :
    (k : Bytes) (es : List (Bytes × ℕ)) → sum_counts (bump k es) ≡ sum_counts es + 1
sum_counts-bump k [] = refl
sum_counts-bump k (e ∷ es) = elim (Bool-cases (bytes_eq k e.0)) [
  | inl t ↦ rw t (omega arith)
  | inr t ↦ rw t (omega (arith, sum_counts-bump k es))
]
