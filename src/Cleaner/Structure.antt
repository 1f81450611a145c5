-- ===== src/Cleaner/Structure.antt =====
-- Finding and checking the JSON structure in a text (internal/extractors/json_cleaner.go).
use ideas.Base.{
  ℕ, zero, suc, ◌+◌, Bool, true, false, not, ◌&&◌, List, [], ◌∷◌, Option, none, some, length, slice,
  ltb, ◌==◌, if◌then◌else◌,
}
use ideas.Base.Int.{ℤ, pos, negsuc, ◌+ℤ◌, eqb_ℤ}
use ideas.Base.Text.{Bytes}
use ideas.Cleaner.Repair.{opens, closes}
use mathlib.Core.Option

-- The variables of the loop of ValidateJSONStructure.
pub record Counts : Type 0 where
  pub braces : ℤ
  pub brackets : ℤ
  pub in_string : Bool
  pub escaped : Bool

abbrev pub no_counts : Counts
no_counts = record { braces = pos 0; brackets = pos 0; in_string = false; escaped = false }

-- The `switch` of that loop.
abbrev count_char : ℕ → Counts → Counts
count_char c k =
    if c == b'{'
    then record k { braces = k.braces +ℤ pos 1 }
    else if c == b'}'
    then record k { braces = k.braces +ℤ negsuc 0 }
    else if c == b'['
    then record k { brackets = k.brackets +ℤ pos 1 }
    else if c == b']'
    then record k { brackets = k.brackets +ℤ negsuc 0 }
    else k

-- One round of that loop.
unfoldable pub count_step : ℕ → Counts → Counts
count_step c k =
    if k.escaped
    then record k { escaped = false }
    else if c == b'\\'
    then record k { escaped = true }
    else if c == b'"'
    then record k { in_string = not k.in_string }
    else if not k.in_string
    then count_char c k
    else k

unfoldable pub count_structure : Counts → Bytes → Counts
count_structure k [] = k
count_structure k (c ∷ s) = count_structure (count_step c k) s

unfoldable pub validate_json_structure : Bytes → Bool
validate_json_structure [] = false
validate_json_structure (c ∷ s) =
    let text = c ∷ s in
    let k = count_structure no_counts text in
    if not (opens text)
    then false
    else if not (closes text)
    then false
    else eqb_ℤ k.braces (pos 0) && eqb_ℤ k.brackets (pos 0)

-- The variables of the loop of extractJSONStructure; `start` is `none` for -1.
pub record Search : Type 0 where
  pub start : Option ℕ
  pub with_brace : Bool
  pub brace_count : ℤ
  pub bracket_count : ℤ

abbrev pub no_search : Search
no_search = record { start = none; with_brace = false; brace_count = pos 0; bracket_count = pos 0 }

abbrev begin_at : ℕ → Bool → Search → Search
begin_at i brace r = elim r.start [
  | none ↦ record r { start = some i; with_brace = brace }
  | some _ ↦ r
]

-- A count at 0 with a start of its kind ends the search.
abbrev found : Option ℕ → Bool → ℤ → Option ℕ
found start kind count = elim start [
  | none ↦ none
  | some i ↦ if kind && eqb_ℤ count (pos 0) then some i else none
]

-- One round: the new state, and the start of the structure if this byte ends it.
unfoldable pub search_step : ℕ → ℕ → Search → Search × Option ℕ
search_step i c r =
    if c == b'{'
    then (let q = begin_at i true r in (record q { brace_count = q.brace_count +ℤ pos 1 }, none))
    else if c == b'}'
    then (let n = r.brace_count +ℤ negsuc 0 in
        (record r { brace_count = n }, found r.start r.with_brace n))
    else if c == b'['
    then (let q = begin_at i false r in
        (record q { bracket_count = q.bracket_count +ℤ pos 1 }, none))
    else if c == b']'
    then (let n = r.bracket_count +ℤ negsuc 0 in
        (record r { bracket_count = n }, found r.start (not r.with_brace) n))
    else (r, none)

-- The loop, up to `found`: the start and the end of the structure.
unfoldable pub search_structure : Search → ℕ → Bytes → Option (ℕ × ℕ)
search_structure r i [] = none
search_structure r i (c ∷ s) =
    let (q, hit) = search_step i c r in
    elim hit [ some start ↦ some (start, i + 1) | none ↦ search_structure q (i + 1) s ]

-- `[^{}]*(?:\{[^{}]*\}[^{}]*)*\}` behind a brace: the length of the match. The flag says whether a
-- brace within it is open.
unfoldable pub match_object : Bool → Bytes → Option ℕ
match_object inner [] = none
match_object inner (c ∷ s) =
    let rest =
      Option.map suc
        (match_object (if c == b'{' then true else if c == b'}' then false else inner) s) in
    if c == b'{' && inner then none else if c == b'}' && not inner then some 1 else rest

-- FindAllString for `\{[^{}]*(?:\{[^{}]*\}[^{}]*)*\}`; the first argument counts the bytes of a match
-- still to be passed over.
unfoldable pub find_objects : ℕ → Bytes → List Bytes
unfolding match_object
find_objects skip [] = []
find_objects (suc k) (c ∷ s) = find_objects k s
find_objects zero (c ∷ s) = elim (if c == b'{' then match_object false s else none) [
  | none ↦ find_objects 0 s
  | some size ↦ (c ∷ slice s 0 size) ∷ find_objects size s
]

-- The longest match, the first among equals.
unfoldable pub longest_of : Bytes → List Bytes → Bytes
longest_of best [] = best
longest_of best (m ∷ ms) = longest_of (if ltb (length best) (length m) then m else best) ms

abbrev longest_object : Bytes → List Bytes → Bytes
longest_object text [] = text
longest_object text (m ∷ ms) = longest_of m (m ∷ ms)

unfoldable pub extract_json_structure : Bytes → Bytes
extract_json_structure text = elim (search_structure no_search 0 text) [
  | some (start, end) ↦ slice text start end
  | none ↦ longest_object text (find_objects 0 text)
]
