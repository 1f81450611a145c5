-- ===== src/Chunking/Text.antt =====
-- How internal/extractors/intelligent_chunking.go reads a text: break points, words that may be
-- entities, keywords and section headers. Texts are ASCII, so that a rune is a byte.
use ideas.Base.{
  ℕ, zero, suc, ◌+◌, ◌-◌, min, Bool, true, false, not, ◌&&◌, ◌||◌, List, [], ◌∷◌, ◌++◌, none, some,
  length, drop, slice, get_elem?, ltb, leb, ◌==◌, if◌then◌else◌,
}
use ideas.Base.Text.{
  elem_bytes, Bytes, codes, contains, is_space, trim_space, to_lower, trim, index_from, fields,
  join,
}
use ideas.Chunking.Boundaries.{deduplicate_and_sort}
use ideas.Chunking.Types.{ChunkingConfig}

-- `content[i+1]`, if that is in range, passes a test; the first argument is `content[i+1:]`.
abbrev next_is : (ℕ → Bool) → Bytes → Bool
next_is p [] = false
next_is p (c ∷ s) = p c

-- The scan for one kind of boundary: position `i + k` for each `i` at which two tests hold of a byte
-- and of the byte behind it.
unfoldable pub pair_boundaries : (ℕ → Bool) → (ℕ → Bool) → ℕ → ℕ → Bytes → List ℕ
pair_boundaries p q k i [] = []
pair_boundaries p q k i (c ∷ s) =
    let rest = pair_boundaries p q k (i + 1) s in
    if p c && next_is q s then (i + k) ∷ rest else rest

abbrev pub is_newline : ℕ → Bool
is_newline c = c == b'\n'

abbrev pub is_hash : ℕ → Bool
is_hash c = c == b'#'

abbrev pub ends_sentence : ℕ → Bool
ends_sentence c = c == b'.' || c == b'!' || c == b'?'

-- Behind two newlines, behind the end of a sentence, and before a header.
unfoldable pub find_semantic_boundaries : ChunkingConfig → Bytes → List ℕ
unfolding is_space
find_semantic_boundaries c text =
    let paragraphs =
      if c.preserve_paragraphs then pair_boundaries is_newline is_newline 2 0 text else [] in
    let sentences =
      if c.preserve_sentences then pair_boundaries ends_sentence is_space 1 0 text else [] in
    deduplicate_and_sort (paragraphs ++ (sentences ++ pair_boundaries is_newline is_hash 1 0 text))

-- unicode.IsUpper(rune(b)) for a byte b.
abbrev pub is_upper : ℕ → Bool
is_upper c = (leb b'A' c && leb c b'Z') || (leb 192 c && leb c 222 && not (c == 215))

abbrev entity_patterns : List Bytes
entity_patterns =
    codes "Dr."
    ∷ codes "Prof."
    ∷ codes "Mr."
    ∷ codes "Ms."
    ∷ codes "Mrs."
    ∷ codes "Inc."
    ∷ codes "Ltd."
    ∷ codes "Corp."
    ∷ codes "LLC"
    ∷ codes "University"
    ∷ codes "Institute"
    ∷ codes "Company"
    ∷ []

abbrev contains_any : Bytes → List Bytes → Bool
contains_any w [] = false
contains_any w (p ∷ ps) = contains w p || contains_any w ps

unfoldable pub looks_like_entity : Bytes → Bool
unfolding contains
looks_like_entity w =
    if ltb (length w) 2
    then false
    else if not (next_is is_upper w)
    then false
    else if contains_any w entity_patterns
    then true
    else ltb 3 (length w) && next_is is_upper w

-- The loop over the words; the third argument is `currentPos`.
unfoldable pub entity_boundaries : Bytes → List Bytes → ℕ → List ℕ
unfolding looks_like_entity index_from
entity_boundaries content [] pos = []
entity_boundaries content (w ∷ ws) pos = elim (index_from pos (drop pos content) w) [
  | none ↦ []
  | some start ↦
      (if looks_like_entity w then start ∷ (start + length w) ∷ [] else [])
      ++ entity_boundaries content ws (start + length w)
]

unfoldable pub find_entity_boundaries : Bytes → List ℕ
unfolding entity_boundaries fields deduplicate_and_sort
find_entity_boundaries content = deduplicate_and_sort (entity_boundaries content (fields content) 0)

unfoldable pub merge_boundaries : List ℕ → List ℕ → List ℕ
unfolding deduplicate_and_sort
merge_boundaries xs ys = deduplicate_and_sort (xs ++ ys)

abbrev pub in_cutset : ℕ → Bool
in_cutset c = c == b'.' || c == b',' || c == b'!' || c == b'?' || c == b';' || c == b':'

abbrev stop_words : List Bytes
stop_words =
    codes "the"
    ∷ codes "and"
    ∷ codes "that"
    ∷ codes "with"
    ∷ codes "this"
    ∷ codes "they"
    ∷ codes "from"
    ∷ codes "have"
    ∷ codes "will"
    ∷ codes "been"
    ∷ codes "were"
    ∷ codes "said"
    ∷ []

unfoldable pub is_stop_word : Bytes → Bool
is_stop_word w = elem_bytes w stop_words

-- The keys of `keywordMap`, in the order in which they entered it.
unfoldable pub add_keyword : Bytes → List Bytes → List Bytes
unfolding is_stop_word to_lower trim
add_keyword w ks =
    let cleaned = to_lower (trim in_cutset w) in
    if ltb 4 (length cleaned) && not (is_stop_word cleaned)
    then (if elem_bytes cleaned ks then ks else ks ++ (cleaned ∷ []))
    else ks

unfoldable pub keywords_from : List Bytes → List Bytes → List Bytes
unfolding add_keyword
keywords_from ks [] = ks
keywords_from ks (w ∷ ws) = keywords_from (add_keyword w ks) ws

unfoldable pub extract_keywords : Bytes → List Bytes
unfolding keywords_from fields
extract_keywords content = keywords_from [] (fields content)

abbrev byte_is : Bytes → ℕ → ℕ → Bool
byte_is content i b = elim (get_elem? content i) [ none ↦ false | some c ↦ c == b ]

-- The rest of the line.
abbrev pub line_of : Bytes → Bytes
line_of [] = []
line_of (c ∷ s) = if c == b'\n' then [] else c ∷ line_of s

-- The loop of detectSectionContext, from `position` down to 0.
unfoldable pub detect_section_context : Bytes → ℕ → Bytes
unfolding trim_space
detect_section_context content zero =
    if byte_is content 0 b'#' then trim_space (line_of content) else codes "unknown_section"
detect_section_context content (suc i) =
    if byte_is content i b'\n' && byte_is content (suc i) b'#'
    then trim_space (line_of (drop (suc i) content))
    else detect_section_context content i

unfoldable pub get_word_context : List Bytes → ℕ → ℕ → Bytes
unfolding join
get_word_context words index window =
    join (codes " ") (slice words (index - window) (min (length words) (index + window + 1)))
