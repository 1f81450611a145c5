-- ===== src/Chunking/Breaks.antt =====
-- Which positions are boundaries (findSemanticBoundaries of
-- internal/extractors/intelligent_chunking.go), and which of them ends a chunk.
use ideas.Base.{
  ℕ, zero, suc, ◌+◌, ◌-◌, ◌≤◌, ◌<◌, min, ◌≡◌, refl, ap, ◌∙◌, ◌⊎◌, inl, inr, Bool, true, false, ◌&&◌,
  ◌||◌, List, [], ◌∷◌, ◌++◌, none, some, length, get_elem?, All, count, count-append, arith, leb,
  lt→ltb, if◌then◌else◌, Bool-cases,
}
use ideas.Base.Text.{Bytes, is_space}
use ideas.Chunking.Boundaries.Sort.{IsIncreasing, deduplicate_and_sort-IsIncreasing}
use ideas.Chunking.Split.{first_boundary, find_optimal_chunk_end, intelligent_from, next_position}
use ideas.Chunking.Text.{
  pair_boundaries, is_newline, is_hash, ends_sentence, find_semantic_boundaries,
}
use ideas.Chunking.Types.{ChunkingConfig, Document}

-- A test holds of the byte at a position.
abbrev pub holds_at : (ℕ → Bool) → Bytes → ℕ → Bool
holds_at p text j = elim (get_elem? text j) [ none ↦ false | some c ↦ p c ]

-- Two tests hold of the bytes at positions b - k and b - k + 1.
abbrev pub pair_at : (ℕ → Bool) → (ℕ → Bool) → ℕ → Bytes → ℕ → Bool
pair_at p q k text b = leb k b && (holds_at p text (b - k) && holds_at q text (suc (b - k)))

-- The positions at which a text may be split, as a test of one position.
abbrev pub is_boundary : ChunkingConfig → Bytes → ℕ → Bool
is_boundary c text b =
    (c.preserve_paragraphs && pair_at is_newline is_newline 2 text b)
    || ((c.preserve_sentences && pair_at ends_sentence is_space 1 text b)
        || pair_at is_newline is_hash 1 text b)

module _ (p q : ℕ → Bool) (k : ℕ) where
  pairs_above : (i b : ℕ) (text : Bytes) → b < i + k → count b (pair_boundaries p q k i text) ≡ 0
  unfolding pair_boundaries
  pairs_above i b [] h = refl
  pairs_above i b (c ∷ s) h = ground (arith, pairs_above (i + 1) b s)

  pairs_count :
      (i b j : ℕ) (text : Bytes)
      → b ≡ i + k + j
      → count b (pair_boundaries p q k i text)
        ≡ (if holds_at p text j && holds_at q text (suc j) then 1 else 0)
  unfolding pair_boundaries
  pairs_count i b j [] e = refl
  pairs_count i b zero (c ∷ []) e = ground (arith, pairs_above (i + 1) b [])
  pairs_count i b zero (c ∷ d ∷ s) e = ground (arith, pairs_above (i + 1) b (d ∷ s))
  pairs_count i b (suc j) (c ∷ s) e = ground (arith, pairs_count (i + 1) b j s)

  count-pair_boundaries :
      (b : ℕ) (text : Bytes)
      → count b (pair_boundaries p q k 0 text) ≡ (if pair_at p q k text b then 1 else 0)
  count-pair_boundaries b text = elim (Bool-cases (leb k b)) [
    | inl h ↦ rw h (pairs_count 0 b (b - k) text (ground arith))
    | inr h ↦ rw h (pairs_above 0 b text (ground arith))
  ]

guarded-count :
    (g t : Bool) (b : ℕ) (xs : List ℕ)
    → count b xs ≡ (if t then 1 else 0)
    → count b (if g then xs else []) ≡ (if g && t then 1 else 0)
guarded-count true t b xs h = h
guarded-count false t b xs h = refl

one : Bool → ℕ
one t = if t then 1 else 0

min_or : (x y z : Bool) → min 1 (one x + (one y + one z)) ≡ one (x || (y || z))
unfolding one
min_or true y z = ground arith
min_or false true z = ground arith
min_or false false true = refl
min_or false false false = refl

three_counts :
    (x y z : Bool) (b : ℕ) (xs ys zs : List ℕ)
    → count b xs ≡ (if x then 1 else 0)
    → count b ys ≡ (if y then 1 else 0)
    → count b zs ≡ (if z then 1 else 0)
    → min 1 (count b (xs ++ (ys ++ zs))) ≡ (if x || (y || z) then 1 else 0)
unfolding one
three_counts x y z b xs ys zs p q r =
    rw (count-append b xs (ys ++ zs), count-append b ys zs, p, q, r) (min_or x y z)

-- The boundaries are strictly increasing, and are the positions behind an empty line (if paragraphs
-- are preserved), behind the end of a sentence that white space follows (if sentences are preserved),
-- and before a `#` at the start of a line, and no others.
pub find_semantic_boundaries-is_boundary :
    (c : ChunkingConfig) (text : Bytes)
    → IsIncreasing (find_semantic_boundaries c text)
      × ((b : ℕ)
          → count b (find_semantic_boundaries c text) ≡ (if is_boundary c text b then 1 else 0))
unfolding find_semantic_boundaries
find_semantic_boundaries-is_boundary c text =
    let (increasing, counts) = deduplicate_and_sort-IsIncreasing _ in
    (
      increasing,
      λ b.
          counts b
          ∙ three_counts _ _ _ b _ _ _
              (guarded-count c.preserve_paragraphs _ b _
                (count-pair_boundaries is_newline is_newline 2 b text))
              (guarded-count c.preserve_sentences _ b _
                (count-pair_boundaries ends_sentence is_space 1 b text))
              (count-pair_boundaries is_newline is_hash 1 b text),
    )

-- The end of a chunk is the first boundary between the two limits, or else the upper one.
pub first_boundary-first :
    (lo hi : ℕ) (bs : List ℕ)
    → ((first_boundary lo hi bs ≡ hi) × All (λ b. (b < lo) ⊎ (hi < b)) bs)
      ⊎ ((before after : List ℕ) × (bs ≡ before ++ (first_boundary lo hi bs ∷ after))
          × All (λ b. (b < lo) ⊎ (hi < b)) before
          × (lo ≤ first_boundary lo hi bs)
          × (first_boundary lo hi bs ≤ hi))
unfolding first_boundary
first_boundary-first lo hi [] = inl (refl, tt)
first_boundary-first lo hi (b ∷ bs) = elim (Bool-cases (leb lo b && leb b hi)) [
  | inl hit ↦ rw hit (inr ([], bs, refl, tt, ground arith, ground arith))
  | inr miss ↦
      let outside : (b < lo) ⊎ (hi < b) = ground arith in
      rw miss (elim (first_boundary-first lo hi bs) [
        | inl (e, a) ↦ inl (e, (outside, a))
        | inr (xs, ys, e, a, p, q) ↦ inr (b ∷ xs, ys, ap (◌∷◌ b) e, (outside, a), p, q)
      ])
]

next_position-stays :
    (c : ChunkingConfig) (n s e : ℕ) → c.overlap_size ≡ 0 → next_position c n s e ≡ e
unfolding next_position
next_position-stays c n s e o = ground arith

-- With no overlap, a chunk that would end where it begins, before the end of the text, stops
-- intelligentChunking from ever ending: no number of rounds is enough.
pub intelligent_from-diverges :
    (c : ChunkingConfig) (d : Document) (bs : List ℕ) (fuel s k : ℕ)
    → c.overlap_size ≡ 0
    → s < length d.content
    → find_optimal_chunk_end c d.content s bs ≡ s
    → intelligent_from c d bs fuel s k ≡ none
unfolding intelligent_from
intelligent_from-diverges c d bs zero s k o h e = refl
intelligent_from-diverges c d bs (suc fuel) s k o h e =
    let stays : next_position c (length d.content) s s ≡ s = next_position-stays c _ s s o in
    rw (lt→ltb _ _ h, e, stays, intelligent_from-diverges c d bs fuel s (k + 1) o h e)
