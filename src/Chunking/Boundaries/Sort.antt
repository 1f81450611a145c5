-- ===== src/Chunking/Boundaries/Sort.antt =====
-- The boundaries come out in strictly increasing order, whatever order the map yields its keys in.
use ideas.Base.{
  ℕ, zero, suc, ◌+◌, ◌≤◌, ◌<◌, min, max, ◌≡◌, refl, List, [], ◌∷◌, length, All, count, count-append,
  arith, ltb, ◌==◌, if◌then◌else◌,
}
use mathlib.Core.Path.{ap₂}
use ideas.Chunking.Boundaries.{
  elem, insert_key, keys_of, sweep, exchange_sort, deduplicate_and_sort,
}

abbrev pub IsSorted : List ℕ → Type 0
IsSorted [] = Unit {0}
IsSorted (x ∷ xs) = All (λ y. x ≤ y) xs × IsSorted xs

abbrev pub IsIncreasing : List ℕ → Type 0
IsIncreasing [] = Unit {0}
IsIncreasing (x ∷ xs) = All (λ y. x < y) xs × IsIncreasing xs

All-le_trans : (x y : ℕ) (ys : List ℕ) → x ≤ y → All (λ z. y ≤ z) ys → All (λ z. x ≤ z) ys
All-le_trans x y [] h a = tt
All-le_trans x y (z ∷ zs) h a = (omega arith, All-le_trans x y zs h a.1)

sweep-count : (a x : ℕ) (xs : List ℕ) → count a ((sweep x xs).0 ∷ (sweep x xs).1) ≡ count a (x ∷ xs)
unfolding sweep
sweep-count a x [] = refl
sweep-count a x (y ∷ ys) = ground (arith, sweep-count a (if ltb y x then y else x) ys)

sweep-length : (x : ℕ) (xs : List ℕ) → length (sweep x xs).1 ≡ length xs
unfolding sweep
sweep-length x [] = refl
sweep-length x (y ∷ ys) = omega (arith, sweep-length (if ltb y x then y else x) ys)

sweep-le : (x : ℕ) (xs : List ℕ) → (sweep x xs).0 ≤ x
unfolding sweep
sweep-le x [] = omega arith
sweep-le x (y ∷ ys) = ground (arith, sweep-le (if ltb y x then y else x) ys)

sweep-least : (x : ℕ) (xs : List ℕ) → All (λ y. (sweep x xs).0 ≤ y) (sweep x xs).1
unfolding sweep
sweep-least x [] = tt
sweep-least x (y ∷ ys) =
    let z = if ltb y x then y else x in (ground (arith, sweep-le z ys), sweep-least z ys)

exchange_sort-count : (n : ℕ) (a : ℕ) (xs : List ℕ) → count a (exchange_sort n xs) ≡ count a xs
unfolding exchange_sort
exchange_sort-count zero a xs = refl
exchange_sort-count (suc n) a [] = refl
exchange_sort-count (suc n) a (x ∷ xs) =
    omega (arith, exchange_sort-count n a (sweep x xs).1, sweep-count a x xs)

All-of_count : (x : ℕ) (xs : List ℕ) → ((a : ℕ) → 0 < count a xs → x ≤ a) → All (λ y. x ≤ y) xs
All-of_count x [] h = tt
All-of_count x (y ∷ ys) h = (h y (ground arith), All-of_count x ys (λ a p. h a (omega arith)))

le-of_All : (x a : ℕ) (xs : List ℕ) → All (λ y. x ≤ y) xs → 0 < count a xs → x ≤ a
le-of_All x a [] h p = absurd (omega arith)
le-of_All x a (y ∷ ys) h p = ground (arith, le-of_All x a ys h.1)

pub exchange_sort-IsSorted : (n : ℕ) (xs : List ℕ) → length xs ≤ n → IsSorted (exchange_sort n xs)
unfolding exchange_sort
exchange_sort-IsSorted zero [] h = tt
exchange_sort-IsSorted zero (x ∷ xs) h = absurd (omega arith)
exchange_sort-IsSorted (suc n) [] h = tt
exchange_sort-IsSorted (suc n) (x ∷ xs) h = (
  All-of_count (sweep x xs).0 (exchange_sort n (sweep x xs).1) (λ a p.
      le-of_All (sweep x xs).0 a (sweep x xs).1 (sweep-least x xs)
        (omega (arith, exchange_sort-count n a (sweep x xs).1))),
  exchange_sort-IsSorted n (sweep x xs).1 (omega (arith, sweep-length x xs)),
)

count_above : (a x : ℕ) (xs : List ℕ) → a < x → All (λ y. x ≤ y) xs → count a xs ≡ 0
count_above a x [] h p = refl
count_above a x (y ∷ ys) h p = ground (arith, count_above a x ys h p.1)

-- Two sorted lists with the same elements, as often, are equal.
sorted_unique :
    (xs ys : List ℕ) → IsSorted xs → IsSorted ys → ((a : ℕ) → count a xs ≡ count a ys) → xs ≡ ys
sorted_unique [] [] p q h = refl
sorted_unique [] (y ∷ ys) p q h = absurd (ground (arith, h y))
sorted_unique (x ∷ xs) [] p q h = absurd (ground (arith, h x))
sorted_unique (x ∷ xs) (y ∷ ys) p q h =
    let e : x ≡ y = ground (arith, h x, h y, count_above x y ys, count_above y x xs) in
    ap₂ (◌∷◌) e (sorted_unique xs ys p.1 q.1 (λ a. ground (arith, h a, e)))

-- The result of the sort depends on the elements only, and how often each occurs, not on the order
-- in which the map gave them.
pub exchange_sort-order :
    (xs ys : List ℕ)
    → ((a : ℕ) → count a xs ≡ count a ys)
    → exchange_sort (length xs) xs ≡ exchange_sort (length ys) ys
exchange_sort-order xs ys h =
    sorted_unique _ _ (exchange_sort-IsSorted (length xs) xs (omega arith))
      (exchange_sort-IsSorted (length ys) ys (omega arith))
      (λ a.
        omega
          (arith, h a, exchange_sort-count (length xs) a xs, exchange_sort-count (length ys) a ys))

elem-count : (b : ℕ) (ks : List ℕ) → elem b ks ≡ ltb 0 (count b ks)
elem-count b [] = refl
elem-count b (k ∷ ks) = ground (arith, elem-count b ks)

insert_key-count :
    (a b : ℕ) (ks : List ℕ)
    → count a (insert_key b ks) ≡ (if a == b then max 1 (count a ks) else count a ks)
unfolding insert_key
insert_key-count a b ks = ground (arith, elem-count b ks, count-append a ks (b ∷ []))

keys_of-count :
    (a : ℕ) (ks bs : List ℕ)
    → count a ks ≤ 1
    → count a (keys_of ks bs) ≡ min 1 (count a ks + count a bs)
unfolding keys_of
keys_of-count a ks [] h = omega arith
keys_of-count a ks (b ∷ bs) h =
    ground (arith, keys_of-count a (insert_key b ks) bs, insert_key-count a b ks)

-- Every element of the input occurs exactly once, and nothing else does.
pub deduplicate_and_sort-count :
    (a : ℕ) (bs : List ℕ) → count a (deduplicate_and_sort bs) ≡ min 1 (count a bs)
unfolding deduplicate_and_sort
deduplicate_and_sort-count a [] = refl
deduplicate_and_sort-count a (b ∷ bs) =
    let ks = keys_of [] (b ∷ bs) in
    omega (arith, exchange_sort-count (length ks) a ks, keys_of-count a [] (b ∷ bs))

strict-of_count : (x : ℕ) (xs : List ℕ) → All (λ y. x ≤ y) xs → count x xs ≡ 0 → All (λ y. x < y) xs
strict-of_count x [] p h = tt
strict-of_count x (y ∷ ys) p h = (ground arith, strict-of_count x ys p.1 (omega arith))

sorted-IsIncreasing : (xs : List ℕ) → IsSorted xs → ((a : ℕ) → count a xs ≤ 1) → IsIncreasing xs
sorted-IsIncreasing [] p h = tt
sorted-IsIncreasing (x ∷ xs) p h = (
  strict-of_count x xs p.0 (ground (arith, h x)),
  sorted-IsIncreasing xs p.1 (λ a. omega (arith, h a)),
)

deduplicate_and_sort-IsSorted : (bs : List ℕ) → IsSorted (deduplicate_and_sort bs)
unfolding deduplicate_and_sort
deduplicate_and_sort-IsSorted [] = tt
deduplicate_and_sort-IsSorted (b ∷ bs) =
    exchange_sort-IsSorted (length (keys_of [] (b ∷ bs))) (keys_of [] (b ∷ bs)) (omega arith)

-- The result of deduplicateAndSort is strictly increasing, and has exactly the elements of the
-- input.
pub deduplicate_and_sort-IsIncreasing :
    (bs : List ℕ)
    → IsIncreasing (deduplicate_and_sort bs)
      × ((a : ℕ) → count a (deduplicate_and_sort bs) ≡ min 1 (count a bs))
deduplicate_and_sort-IsIncreasing bs = (
  sorted-IsIncreasing (deduplicate_and_sort bs) (deduplicate_and_sort-IsSorted bs)
      (λ a. omega (arith, deduplicate_and_sort-count a bs)),
  λ a. deduplicate_and_sort-count a bs,
)
