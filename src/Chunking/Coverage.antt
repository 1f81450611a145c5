-- ===== src/Chunking/Coverage.antt =====
-- The chunks of a document cover it, in order and with no gap
-- (ChunkDocument of internal/extractors/intelligent_chunking.go).
use ideas.Base.{
  ℕ, zero, suc, ◌+◌, ◌-◌, ◌≤◌, ◌<◌, min, ◌≡◌, refl, sym, ap, inl, inr, List, [], ◌∷◌, Option, some,
  map, length, take, slice, arith, ltb, leb, ltb→lt, leb→le, Bool-cases,
}
use ideas.Base.Text.{Bytes}
use ideas.Chunking.CrossRefs.{enhance_chunk, all_refs, enhance_cross_references}
use ideas.Chunking.Types.{
  ChunkingStrategy, chunking_none, chunking_fixed, chunking_semantic, chunking_intelligent,
  chunking_overlapping, ChunkingConfig, DocumentChunk, Document,
}
use ideas.Chunking.Split.{
  first_boundary, find_optimal_chunk_end, create_chunk, make_chunk, next_position, intelligent_from,
  chunk_boundaries, intelligent_chunking, next_overlapping, overlapping_from, overlapping_chunking,
  semantic_chunking, fixed_from, fixed_chunking, by_strategy, chunk_document,
}
use mathlib.Core.Option

-- A chunk is the k-th: it begins at or before `e`, where the chunks before it end, it has at most `m`
-- bytes, and its content is what the text has between its offsets.
abbrev pub Fits : ℕ → Bytes → ℕ → ℕ → DocumentChunk → Type 0
Fits m text e k c =
    (c.index ≡ k)
    × (c.start_offset ≤ e)
    × (c.start_offset ≤ c.end_offset)
    × (c.end_offset ≤ c.start_offset + m)
    × (c.end_offset ≤ length text)
    × (c.content ≡ slice text c.start_offset c.end_offset)

-- The chunks fit one after the other, and the last one ends where the text ends.
abbrev pub Tiles : ℕ → Bytes → ℕ → ℕ → List DocumentChunk → Type 0
Tiles m text e k [] = e ≡ length text
Tiles m text e k (c ∷ cs) = Fits m text e k c × Tiles m text c.end_offset (k + 1) cs

-- A run ends, and its chunks cover the text from `e` on.
abbrev pub Covers : ℕ → Bytes → ℕ → ℕ → Option (List DocumentChunk) → Type 0
Covers m text e k r = (cs : List DocumentChunk) × (r ≡ some cs) × Tiles m text e k cs

pub first_boundary_bounds :
    (lo hi : ℕ) (bs : List ℕ)
    → lo ≤ hi
    → (lo ≤ first_boundary lo hi bs) × (first_boundary lo hi bs ≤ hi)
unfolding first_boundary
first_boundary_bounds lo hi [] h = omega arith
first_boundary_bounds lo hi (b ∷ bs) h = ground (arith, first_boundary_bounds lo hi bs h)

next_position_bounds :
    (c : ChunkingConfig) (n s e : ℕ)
    → s < n
    → 0 < c.min_chunk_size
    → min (s + c.min_chunk_size) n ≤ e
    → e ≤ n
    → (s < next_position c n s e) × (next_position c n s e ≤ e)
unfolding next_position
next_position_bounds c n s e h k p q = ground arith

module _ (c : ChunkingConfig) (d : Document) where
  make_chunk-Fits :
      (k s e : ℕ) {f : ℕ}
      → s ≤ f
      → s ≤ e
      → e ≤ s + c.max_chunk_size
      → e ≤ length d.content
      → Fits c.max_chunk_size d.content f k (make_chunk c d k s e)
  unfolding make_chunk create_chunk
  make_chunk-Fits k s e p q r t = (refl, p, q, r, t, refl)

  Covers-cons :
      {e k : ℕ} (x : DocumentChunk) (r : Option (List DocumentChunk))
      → Fits c.max_chunk_size d.content e k x
      → Covers c.max_chunk_size d.content x.end_offset (k + 1) r
      → Covers c.max_chunk_size d.content e k (Option.map (◌∷◌ x) r)
  Covers-cons x r f (cs, p, t) = (x ∷ cs, rw p, (f, t))

  find_end_bounds :
      (s : ℕ) (bs : List ℕ)
      → c.min_chunk_size ≤ c.max_chunk_size
      → let e = find_optimal_chunk_end c d.content s bs in
        (min (s + c.min_chunk_size) (length d.content) ≤ e)
        × (e ≤ min (s + c.max_chunk_size) (length d.content))
  unfolding find_optimal_chunk_end
  find_end_bounds s bs h = first_boundary_bounds _ _ bs (omega arith)

  intelligent_from-Covers :
      (bs : List ℕ) (fuel s k e : ℕ)
      → 0 < c.min_chunk_size
      → c.min_chunk_size ≤ c.max_chunk_size
      → s ≤ e
      → e ≤ length d.content
      → length d.content < s + fuel
      → Covers c.max_chunk_size d.content e k (intelligent_from c d bs fuel s k)
  unfolding intelligent_from make_chunk create_chunk
  intelligent_from-Covers bs zero s k e pos le a b h = absurd (omega arith)
  intelligent_from-Covers bs (suc fuel) s k e pos le a b h =
      let end = find_optimal_chunk_end c d.content s bs in
      elim (Bool-cases (ltb s (length d.content))) [
        | inl more ↦
            let bounds = find_end_bounds s bs le in
            let next =
              next_position_bounds c (length d.content) s end (ltb→lt s _ more) pos bounds.0
                (omega arith) in
            rw more (
              Covers-cons (make_chunk c d k s end) _
                (make_chunk-Fits k s end a (omega arith) (omega arith) (omega arith))
                (intelligent_from-Covers bs fuel (next_position c (length d.content) s end) (k + 1)
                  end pos le next.1 (omega arith) (omega arith)))
        | inr done ↦ rw done ([], refl, ground arith)
      ]

  next_overlapping_bounds :
      (s e : ℕ) → s < e → (s < next_overlapping c s e) × (next_overlapping c s e ≤ e)
  unfolding next_overlapping
  next_overlapping_bounds s e h = ground arith

  overlapping_from-Covers :
      (fuel s k e : ℕ)
      → 0 < c.max_chunk_size
      → s ≤ e
      → e ≤ length d.content
      → length d.content < s + fuel
      → Covers c.max_chunk_size d.content e k (overlapping_from c d fuel s k)
  unfolding overlapping_from make_chunk create_chunk
  overlapping_from-Covers zero s k e pos a b h = absurd (omega arith)
  overlapping_from-Covers (suc fuel) s k e pos a b h =
      let end = min (s + c.max_chunk_size) (length d.content) in
      elim (Bool-cases (ltb s (length d.content))) [
        | inr done ↦ rw done ([], refl, ground arith)
        | inl more ↦
            let room = ltb→lt s (length d.content) more in
            let next = next_overlapping_bounds s end (omega arith) in
            let fits = make_chunk-Fits k s end a (omega arith) (omega arith) (omega arith) in
            elim (Bool-cases (leb (length d.content) end)) [
              | inl last ↦
                  rw (more, last)
                    (
                      make_chunk c d k s end ∷ [],
                      refl,
                      (fits, omega (arith, leb→le (length d.content) end last)),
                    )
              | inr open_end ↦
                  rw (more, open_end)
                    (Covers-cons (make_chunk c d k s end) _ fits (
                      overlapping_from-Covers fuel (next_overlapping c s end) (k + 1) end pos next.1
                        (omega arith) (omega arith)))
            ]
      ]

  fixed_from-Covers :
      (fuel s k e : ℕ)
      → 0 < c.max_chunk_size
      → e ≡ min s (length d.content)
      → length d.content - s < fuel
      → Covers c.max_chunk_size d.content e k (fixed_from c d fuel s k)
  unfolding fixed_from make_chunk create_chunk
  fixed_from-Covers zero s k e pos a h = absurd (omega arith)
  fixed_from-Covers (suc fuel) s k e pos a h =
      let end = min (s + c.max_chunk_size) (length d.content) in
      elim (Bool-cases (ltb s (length d.content))) [
        | inr done ↦ rw done ([], refl, ground arith)
        | inl more ↦
            let room = ltb→lt s (length d.content) more in
            rw more (
              Covers-cons (make_chunk c d k s end) _
                (make_chunk-Fits k s end (omega arith) (omega arith) (omega arith) (omega arith))
                (fixed_from-Covers fuel (s + c.max_chunk_size) (k + 1) end pos refl (omega arith)))
      ]

-- The cross-references are added in place: what covers the text still does.
enhance-Tiles :
    (m : ℕ) (text : Bytes) (e k : ℕ) (refs : _) (cs : List DocumentChunk)
    → Tiles m text e k cs
    → Tiles m text e k (map (enhance_chunk refs) cs)
unfolding enhance_chunk
enhance-Tiles m text e k refs [] t = t
enhance-Tiles m text e k refs (c ∷ cs) t =
    (t.0, enhance-Tiles m text c.end_offset (k + 1) refs cs t.1)

enhance-Covers :
    (m : ℕ) (text : Bytes) (e k : ℕ) (r : Option (List DocumentChunk))
    → Covers m text e k r
    → Covers m text e k (Option.map enhance_cross_references r)
unfolding enhance_cross_references
enhance-Covers m text e k r (cs, p, t) =
    (map (enhance_chunk (all_refs cs)) cs, rw p, enhance-Tiles m text e k (all_refs cs) cs t)

by_strategy-Covers :
    (st : ChunkingStrategy) (c : ChunkingConfig) (d : Document)
    → 0 < c.min_chunk_size
    → c.min_chunk_size ≤ c.max_chunk_size
    → Covers c.max_chunk_size d.content 0 0 (by_strategy st c d)
unfolding by_strategy intelligent_chunking semantic_chunking overlapping_chunking fixed_chunking
by_strategy-Covers chunking_none c d p q = enhance-Covers _ _ 0 0 _ (
    intelligent_from-Covers c d (chunk_boundaries c d.content) _ 0 0 0 p q (omega arith)
      (omega arith) (omega arith))
by_strategy-Covers chunking_intelligent c d p q = enhance-Covers _ _ 0 0 _ (
    intelligent_from-Covers c d (chunk_boundaries c d.content) _ 0 0 0 p q (omega arith)
      (omega arith) (omega arith))
by_strategy-Covers chunking_semantic c d p q =
    enhance-Covers _ _ 0 0 _
      (overlapping_from-Covers c d _ 0 0 0 (omega arith) (omega arith) (omega arith) (omega arith))
by_strategy-Covers chunking_overlapping c d p q =
    enhance-Covers _ _ 0 0 _
      (overlapping_from-Covers c d _ 0 0 0 (omega arith) (omega arith) (omega arith) (omega arith))
by_strategy-Covers chunking_fixed c d p q =
    enhance-Covers _ _ 0 0 _
      (fixed_from-Covers c d _ 0 0 0 (omega arith) (omega arith) (omega arith))

take_all {ℓ} : {A : Type ℓ} (xs : List A) → take (length xs) xs ≡ xs
take_all [] = refl
take_all (x ∷ xs) = ap (◌∷◌ x) (take_all xs)

slice_all {ℓ} : {A : Type ℓ} (xs : List A) → slice xs 0 (length xs) ≡ xs
slice_all xs = let e : length xs - 0 ≡ length xs = omega arith in rw e (take_all xs)

-- For every strategy: with a positive minimal size that is at most the maximal size, ChunkDocument
-- ends, and its chunks are numbered from 0, have at most the maximal size, each hold the text between
-- their offsets, and cover the document from its start to its end with no gap between two of them.
pub chunk_document-Covers :
    (c : ChunkingConfig) (d : Document)
    → 0 < c.min_chunk_size
    → c.min_chunk_size ≤ c.max_chunk_size
    → Covers c.max_chunk_size d.content 0 0 (chunk_document c d)
unfolding chunk_document
chunk_document-Covers c d p q = elim (Bool-cases (leb (length d.content) c.max_chunk_size)) [
  | inl small ↦
      let le = leb→le (length d.content) c.max_chunk_size small in
      rw small (
        _ ∷ [],
        refl,
        (
          (refl, omega arith, omega arith, omega arith, omega arith, sym (slice_all d.content)),
          refl,
        ),
      )
  | inr large ↦ rw large (by_strategy-Covers c.strategy c d p q)
]
