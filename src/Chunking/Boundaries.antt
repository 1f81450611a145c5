-- ===== src/Chunking/Boundaries.antt =====
-- deduplicateAndSort of internal/extractors/intelligent_chunking.go.
pub mod Sort
use ideas.Base.{
  ℕ, zero, suc, ◌+◌, Bool, false, ◌||◌, List, [], ◌∷◌, ◌++◌, length, ltb, ◌==◌, if◌then◌else◌,
}

abbrev pub elem : ℕ → List ℕ → Bool
elem b [] = false
elem b (k ∷ ks) = b == k || elem b ks

-- `boundaryMap[b] = true`: the keys, in the order in which they entered the map.
unfoldable pub insert_key : ℕ → List ℕ → List ℕ
insert_key b ks = if elem b ks then ks else ks ++ (b ∷ [])

unfoldable pub keys_of : List ℕ → List ℕ → List ℕ
unfolding insert_key
keys_of ks [] = ks
keys_of ks (b ∷ bs) = keys_of (insert_key b ks) bs

-- The inner loop: `result[i]` is the first argument, and is exchanged with every smaller element.
unfoldable pub sweep : ℕ → List ℕ → ℕ × List ℕ
sweep x [] = (x, [])
sweep x (y ∷ ys) =
    let (m, r) = sweep (if ltb y x then y else x) ys in (m, (if ltb y x then x else y) ∷ r)

-- The outer loop, with the number of rounds left.
unfoldable pub exchange_sort : ℕ → List ℕ → List ℕ
unfolding sweep
exchange_sort zero xs = xs
exchange_sort (suc n) [] = []
exchange_sort (suc n) (x ∷ xs) = let (m, r) = sweep x xs in m ∷ exchange_sort n r

unfoldable pub deduplicate_and_sort : List ℕ → List ℕ
unfolding keys_of exchange_sort
deduplicate_and_sort [] = []
deduplicate_and_sort (b ∷ bs) = let keys = keys_of [] (b ∷ bs) in exchange_sort (length keys) keys
