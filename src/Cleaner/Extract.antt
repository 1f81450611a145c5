-- ===== src/Cleaner/Extract.antt =====
-- What extractJSONStructure of internal/extractors/json_cleaner.go finds.
use ideas.Base.{
  ℕ, zero, suc, ◌+◌, ◌-◌, ◌≡◌, refl, ap, ◌∙◌, Bool, true, false, ◌||◌, [], ◌∷◌, ◌++◌, Option, none,
  some, All, length, take, slice, length-append, arith, ◌==◌, if◌then◌else◌, Option-cases, inl, inr,
}
use ideas.Base.Int.{ℤ, pos, negsuc, ◌+ℤ◌}
use ideas.Base.Text.{Bytes}
use mathlib.Core.List.{append_assoc}
use ideas.Cleaner.Structure.{
  Search, no_search, search_step, search_structure, extract_json_structure,
}

abbrev pub is_mark : ℕ → Bool
is_mark c = c == b'{' || c == b'}' || c == b'[' || c == b']'

-- The depth of braces behind a byte; `none` if it is a brace that closes none.
abbrev next_depth : ℕ → ℕ → Option ℕ
next_depth c d =
    if c == b'{'
    then some (suc d)
    else if c == b'}'
    then (elim d [ zero ↦ none | suc e ↦ some e ])
    else some d

-- The depth of braces behind a text that begins at depth `d`.
abbrev pub depth : ℕ → Bytes → Option ℕ
depth d [] = some d
depth d (c ∷ s) = elim (next_depth c d) [ none ↦ none | some e ↦ depth e s ]

search-quiet :
    (r : Search) (i : ℕ) (pre t : Bytes) {j : ℕ}
    → All (λ c. is_mark c ≡ false) pre
    → j ≡ i + length pre
    → search_structure r i (pre ++ t) ≡ search_structure r j t
unfolding search_structure search_step
search-quiet r i [] t {j = j} h e = let e' : j ≡ i = omega arith in rw e'
search-quiet r i (c ∷ pre) t {j = j} h e = ground (arith, search-quiet r (i + 1) pre t {j = j} h.1)

-- The state of a search that began at `i` with a brace, within the structure.
abbrev within : ℕ → ℕ → ℤ → Search
within i d m = record {
  start = some i;
  with_brace = true;
  brace_count = pos (suc d);
  bracket_count = m;
}

bracket_after : ℕ → ℤ → ℤ
bracket_after c m = if c == b'[' then m +ℤ pos 1 else if c == b']' then m +ℤ negsuc 0 else m

up : (d : ℕ) → pos (suc d) +ℤ pos 1 ≡ pos (suc (suc d))
unfolding ◌+ℤ◌
up d = ground arith

down : (d : ℕ) → pos (suc d) +ℤ negsuc 0 ≡ pos d
unfolding ◌+ℤ◌
down d = ground arith

step-within :
    (i j c d e : ℕ) (m : ℤ)
    → next_depth c d ≡ some e
    → search_step j c (within i d m) ≡ (within i e (bracket_after c m), none)
unfolding search_step bracket_after
step-within i j c zero e m h = ground (arith, up 0, down 0)
step-within i j c (suc d) e m h = ground (arith, up (suc d), down (suc d))

search-step :
    (r q : Search) (i c : ℕ) (s : Bytes)
    → search_step i c r ≡ (q, none)
    → search_structure r i (c ∷ s) ≡ search_structure q (i + 1) s
unfolding search_structure
search-step r q i c s h =
    rw (h, search_structure) (ap (λ (p : Search × Option ℕ). search_structure p.0 (i + 1) s) h)

search-body :
    (i j d : ℕ) (m : ℤ) (body t : Bytes) {e k : ℕ}
    → depth d body ≡ some e
    → k ≡ j + length body
    → (n : ℤ) × (search_structure (within i d m) j (body ++ t)
        ≡ search_structure (within i e n) k t)
search-body i j d m [] t {e = e} {k = k} h q =
    let p : d ≡ e = ground arith in let o : k ≡ j = omega arith in (m, rw (p, o))
search-body i j d m (c ∷ body) t h q = elim (Option-cases (next_depth c d)) [
  | inl bad ↦ absurd (ground arith)
  | inr (d', down) ↦
      let (n, p) =
        search-body i (j + 1) d' (bracket_after c m) body t (ground arith) (omega arith) in
      (n, search-step _ _ j c (body ++ t) (step-within i j c d d' m down) ∙ p)
]

slice-middle :
    (pre mid post : Bytes) {n : ℕ}
    → n ≡ length pre + length mid
    → slice (pre ++ (mid ++ post)) (length pre) n ≡ mid
slice-middle [] mid post {n = n} e =
    let e' : n - 0 ≡ length mid = omega arith in rw e' (take-append mid post)
  where
    take-append : (mid post : Bytes) → take (length mid) (mid ++ post) ≡ mid
    take-append [] post = refl
    take-append (c ∷ mid) post = ap (◌∷◌ c) (take-append mid post)
slice-middle (c ∷ pre) mid post {n = zero} e = absurd (omega arith)
slice-middle (c ∷ pre) mid post {n = suc n} e =
    let e' : suc n - suc (length pre) ≡ n - length pre = omega arith in
    rw e' (slice-middle pre mid post {n = n} (omega arith))

step-open : (i : ℕ) → search_step i b'{' no_search ≡ (within i 0 (pos 0), none)
unfolding search_step ◌+ℤ◌
step-open i = refl

search-close :
    (i k : ℕ) (n : ℤ) (post : Bytes)
    → search_structure (within i 0 n) k (b'}' ∷ post) ≡ some (i, k + 1)
unfolding search_structure search_step ◌+ℤ◌
search-close i k n post = refl

search-object :
    (pre body post : Bytes) {end : ℕ}
    → All (λ c. is_mark c ≡ false) pre
    → depth 0 body ≡ some 0
    → end ≡ length pre + (length body + 2)
    → search_structure no_search 0 (pre ++ ((b'{' ∷ (body ++ (b'}' ∷ []))) ++ post))
      ≡ some (length pre, end)
search-object pre body post {end = end} quiet balanced e =
    let i = length pre in
    let k = i + 1 + length body in
    let (n, inside) = search-body i (i + 1) 0 (pos 0) body (b'}' ∷ post) {k = k} balanced refl in
    let last : k + 1 ≡ end = omega arith in
    search-quiet no_search 0 pre _ {j = i} quiet (omega arith)
    ∙ search-step no_search (within i 0 (pos 0)) i b'{' _ (step-open i)
    ∙ ap (search_structure (within i 0 (pos 0)) (i + 1)) (append_assoc body (b'}' ∷ []) post)
    ∙ inside
    ∙ search-close i k n post
    ∙ ap (λ x. some (i, x)) last

-- In a text with no brace or bracket before it, the object that the first brace opens is found, up to
-- the brace that closes it, whatever follows. Braces inside strings count like others.
pub extract_json_structure-object :
    (pre body post : Bytes)
    → All (λ c. is_mark c ≡ false) pre
    → depth 0 body ≡ some 0
    → extract_json_structure (pre ++ ((b'{' ∷ (body ++ (b'}' ∷ []))) ++ post))
      ≡ b'{' ∷ (body ++ (b'}' ∷ []))
unfolding extract_json_structure
extract_json_structure-object pre body post quiet balanced =
    rw
      (
        search-object pre body post {end = length pre + length (b'{' ∷ (body ++ (b'}' ∷ [])))} quiet
            balanced (omega (arith, length-append body (b'}' ∷ []))),
        extract_json_structure,
      )
      (slice-middle pre (b'{' ∷ (body ++ (b'}' ∷ []))) post refl)
