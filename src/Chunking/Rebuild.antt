-- ===== src/Chunking/Rebuild.antt =====
-- The document can be read back from its chunks (internal/extractors/intelligent_chunking.go).
use ideas.Base.{
  ℕ, zero, suc, ◌+◌, ◌-◌, ◌≤◌, ◌<◌, min, max, ◌≡◌, refl, sym, ap, ◌∙◌, List, [], ◌∷◌, ◌++◌, some,
  length, take, drop, slice, arith, Bool, true, false, ◌&&◌, ltb, if◌then◌else◌,
}
use ideas.Base.Text.{Bytes}
use ideas.Chunking.Coverage.{Tiles, chunk_document-Covers}
use ideas.Chunking.Split.{create_chunk, chunk_document}
use ideas.Chunking.Types.{ChunkingConfig, DocumentChunk, Document}
use mathlib.Core.Path.{◌≡⟨◌⟩◌, ◌∎}
use mathlib.Core.Option

-- The contents of the chunks one after the other, without what stands before position `m`, which the
-- chunks before have given.
abbrev pub rebuild : ℕ → List DocumentChunk → Bytes
rebuild m [] = []
rebuild m (c ∷ cs) = drop (m - c.start_offset) c.content ++ rebuild (max m c.end_offset) cs

module _ {ℓ} {A : Type ℓ} where
  pub take-append-drop : (n : ℕ) (xs : List A) → take n xs ++ drop n xs ≡ xs
  take-append-drop zero xs = refl
  take-append-drop (suc n) [] = refl
  take-append-drop (suc n) (x ∷ xs) = rw (take-append-drop n xs)

  drop-nil : (n : ℕ) → drop {A = A} n [] ≡ []
  drop-nil zero = refl
  drop-nil (suc n) = refl

  drop-length : (xs : List A) → drop (length xs) xs ≡ []
  drop-length [] = refl
  drop-length (x ∷ xs) = drop-length xs

  drop-drop : (i j : ℕ) (xs : List A) {k : ℕ} → k ≡ i + j → drop j (drop i xs) ≡ drop k xs
  drop-drop zero j xs {k = k} e = let e' : j ≡ k = omega arith in rw e'
  drop-drop (suc i) j [] {k = k} e = drop-nil j ∙ sym (drop-nil k)
  drop-drop (suc i) j (x ∷ xs) {k = zero} e = absurd (omega arith)
  drop-drop (suc i) j (x ∷ xs) {k = suc k} e = drop-drop i j xs (omega arith)

  drop-take_append :
      (a b c : ℕ) (xs : List A) → c ≡ max a b → drop a (take b xs) ++ drop c xs ≡ drop a xs
  drop-take_append zero b c xs e = let e' : c ≡ b = omega arith in rw e' (take-append-drop b xs)
  drop-take_append (suc a) zero c xs e = let e' : c ≡ suc a = omega arith in rw e'
  drop-take_append (suc a) (suc b) c [] e = drop-nil c
  drop-take_append (suc a) (suc b) zero (x ∷ xs) e = absurd (omega arith)
  drop-take_append (suc a) (suc b) (suc c) (x ∷ xs) e = drop-take_append a b c xs (omega arith)

  -- What a slice from `s` to `x` has behind position `m`, and what follows it.
  slice-rest :
      (xs : List A) (s x m : ℕ)
      → s ≤ m
      → s ≤ x
      → drop (m - s) (slice xs s x) ++ drop (max m x) xs ≡ drop m xs
  slice-rest xs s x m h k =
      drop (m - s) (slice xs s x) ++ drop (max m x) xs
      ≡⟨ ap (◌++◌ (drop (m - s) (slice xs s x)))
          (sym (drop-drop s (max m x - s) xs (omega arith))) ⟩
        drop (m - s) (take (x - s) (drop s xs)) ++ drop (max m x - s) (drop s xs)
      ≡⟨ drop-take_append (m - s) (x - s) (max m x - s) (drop s xs) (omega arith) ⟩
        drop (m - s) (drop s xs)
      ≡⟨ drop-drop s (m - s) xs (omega arith) ⟩ drop m xs ∎

  pub slice-append :
      (xs : List A) (i j k : ℕ) → i ≤ j → j ≤ k → slice xs i j ++ slice xs j k ≡ slice xs i k
  slice-append xs i j k p q =
      rw (← drop-drop i (j - i) xs {k = j} (omega arith))
        (take-take (j - i) (k - j) (k - i) (drop i xs) (omega arith))
    where
      take-take :
          (a b c : ℕ) (ys : List A) → c ≡ a + b → take a ys ++ take b (drop a ys) ≡ take c ys
      take-take zero b c ys e = let e' : c ≡ b = omega arith in rw e'
      take-take (suc a) zero zero [] e = refl
      take-take (suc a) (suc b) zero [] e = refl
      take-take (suc a) zero (suc c) [] e = refl
      take-take (suc a) (suc b) (suc c) [] e = refl
      take-take (suc a) b zero (y ∷ ys) e = absurd (omega arith)
      take-take (suc a) b (suc c) (y ∷ ys) e = ap (◌∷◌ y) (take-take a b c ys (omega arith))

  slice-empty : (xs : List A) (i j : ℕ) → j ≤ i → slice xs i j ≡ []
  slice-empty xs i j h = let e : j - i ≡ 0 = omega arith in rw e

  slice_guard :
      (b : Bool) (xs : List A) (i j : ℕ)
      → (b ≡ false → j ≤ i)
      → (if b then slice xs i j else []) ≡ slice xs i j
  slice_guard true xs i j h = refl
  slice_guard false xs i j h = sym (slice-empty xs i j (h refl))

rebuild-Tiles :
    (mx : ℕ) (text : Bytes) (e k m : ℕ) (cs : List DocumentChunk)
    → Tiles mx text e k cs
    → e ≤ m
    → m ≤ length text
    → rebuild m cs ≡ drop m text
rebuild-Tiles mx text e k m [] t p q =
    let e' : m ≡ length text = omega arith in rw e' (sym (drop-length text))
rebuild-Tiles mx text e k m (c ∷ cs) t p q =
    let f = t.0 in
    rw
      (
        f.5,
        rebuild-Tiles mx text c.end_offset (k + 1) (max m c.end_offset) cs t.1 (omega arith)
            (omega arith),
      )
      (slice-rest text c.start_offset c.end_offset m (omega arith) f.2)

-- For every strategy: with a positive minimal size that is at most the maximal size, the chunks of a
-- document, without what the chunks before have of the text, make up its text.
pub rebuild-chunk_document :
    (c : ChunkingConfig) (d : Document)
    → 0 < c.min_chunk_size
    → c.min_chunk_size ≤ c.max_chunk_size
    → Option.map (rebuild 0) (chunk_document c d) ≡ some d.content
rebuild-chunk_document c d p q =
    let (cs, e, t) = chunk_document-Covers c d p q in
    rw e (ap some (rebuild-Tiles c.max_chunk_size d.content 0 0 0 cs t (omega arith) (omega arith)))

-- What stands before a chunk, the chunk and what stands behind it are one piece of the text, which
-- reaches `overlap_size` bytes out on both sides, or to the ends of the text.
pub create_chunk-overlap :
    (c : ChunkingConfig) (doc_id : Bytes) (k : ℕ) (text : Bytes) (s e : ℕ)
    → s ≤ e
    → e ≤ length text
    → let x = create_chunk c doc_id k text s e in
      x.overlap_before ++ (x.content ++ x.overlap_after)
      ≡ slice text (s - c.overlap_size) (min (length text) (e + c.overlap_size))
unfolding create_chunk
create_chunk-overlap c doc_id k text s e p q =
    let lo = s - c.overlap_size in
    let hi = min (length text) (e + c.overlap_size) in
    rw
      (
        slice_guard (ltb 0 c.overlap_size && ltb 0 s) text lo s (λ h. ground arith),
        slice_guard (ltb 0 c.overlap_size && ltb e (length text)) text e hi (λ h. ground arith),
        slice-append text s e hi p (omega arith),
      )
      (slice-append text lo s hi (omega arith) (omega arith))
