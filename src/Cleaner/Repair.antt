-- ===== src/Cleaner/Repair.antt =====
-- The text repairs of internal/extractors/json_cleaner.go. Texts are ASCII. Each regular expression is
-- the scan that it stands for: the leftmost match, then on behind it.
use ideas.Base.{
  ℕ, zero, suc, ◌+◌, ◌-◌, Bool, true, false, not, ◌&&◌, ◌||◌, List, [], ◌∷◌, ◌++◌, Option, none,
  some, length, take, drop, leb, ltb, ◌==◌, if◌then◌else◌,
}
use ideas.Base.Text.{
  Bytes, codes, has_prefix, has_suffix, trim_space, to_lower, replace_all, trim_prefix, trim_suffix,
}
use mathlib.Core.Option

unfoldable pub basic_clean : Bytes → Bytes
unfolding trim_space replace_all
basic_clean text =
    replace_all (replace_all (trim_space text) (codes "\r\n") (codes "\n")) (codes "\r")
      (codes "\n")

abbrev fence : Bytes
fence = codes "```"

-- ([\s\S]*?)\n?```
unfoldable pub until_fence : Bytes → Option Bytes
unfolding has_prefix
until_fence [] = none
until_fence (c ∷ s) =
    let rest = Option.map (◌∷◌ c) (until_fence s) in
    if has_prefix (c ∷ s) (codes "\n```") || has_prefix (c ∷ s) fence then some [] else rest

-- ```(?:json)?\n?([\s\S]*?)\n?```, and what its group holds.
unfoldable pub markdown_block : Bytes → Option Bytes
unfolding until_fence trim_prefix
markdown_block [] = none
markdown_block (c ∷ s) =
    let body = trim_prefix (trim_prefix (drop 3 (c ∷ s)) (codes "json")) (codes "\n") in
    let later = markdown_block s in
    if has_prefix (c ∷ s) fence
    then (elim (until_fence body) [ none ↦ later | some b ↦ some b ])
    else later

unfoldable pub remove_markdown_blocks : Bytes → Bytes
unfolding markdown_block trim_suffix trim_space
remove_markdown_blocks text = elim (markdown_block text) [
  | some block ↦ trim_space block
  | none ↦ trim_space (trim_suffix (trim_prefix (trim_prefix text (codes "```json")) fence) fence)
]

abbrev prefixes : List Bytes
prefixes =
    codes "Here's the JSON response:"
    ∷ codes "Here is the JSON response:"
    ∷ codes "The JSON output is:"
    ∷ codes "JSON response:"
    ∷ codes "Response:"
    ∷ codes "Output:"
    ∷ codes "Result:"
    ∷ codes "Here's the extracted data:"
    ∷ codes "Here is the extracted data:"
    ∷ codes "The extracted entities are:"
    ∷ codes "Based on the analysis:"
    ∷ []

abbrev suffixes : List Bytes
suffixes =
    codes "This completes the entity extraction."
    ∷ codes "End of JSON response."
    ∷ codes "That's the complete analysis."
    ∷ codes "Hope this helps!"
    ∷ []

-- The first prefix of the list that the text has, in any case of its letters, is cut off.
unfoldable pub cut_prefix : List Bytes → Bytes → Bytes
unfolding has_prefix to_lower trim_space
cut_prefix [] text = text
cut_prefix (p ∷ ps) text =
    if has_prefix (to_lower text) (to_lower p)
    then trim_space (drop (length p) text)
    else cut_prefix ps text

unfoldable pub cut_suffix : List Bytes → Bytes → Bytes
unfolding has_suffix to_lower trim_space
cut_suffix [] text = text
cut_suffix (p ∷ ps) text =
    if has_suffix (to_lower text) (to_lower p)
    then trim_space (take (length text - length p) text)
    else cut_suffix ps text

unfoldable pub remove_explanatory_text : Bytes → Bytes
unfolding cut_prefix cut_suffix
remove_explanatory_text text = cut_suffix suffixes (cut_prefix prefixes text)

-- The class \s
unfoldable pub is_re_space : ℕ → Bool
is_re_space c = c == 9 || c == 10 || c == 12 || c == 13 || c == 32

-- The length of the longest run of bytes that pass the test.
unfoldable pub run_length : (ℕ → Bool) → Bytes → ℕ
run_length p [] = 0
run_length p (c ∷ s) = let rest = suc (run_length p s) in if p c then rest else 0

abbrev pub first_is : (ℕ → Bool) → Bytes → Bool
first_is p [] = false
first_is p (c ∷ s) = p c

-- `,(\s*[}\]])` is replaced by `$1`: the comma goes. What follows it holds no comma.
unfoldable pub fix_trailing_commas : Bytes → Bytes
unfolding run_length is_re_space
fix_trailing_commas [] = []
fix_trailing_commas (c ∷ s) =
    let rest = fix_trailing_commas s in
    if c == b',' && first_is (λ d. d == b'}' || d == b']') (drop (run_length is_re_space s) s)
    then rest
    else c ∷ rest

unfoldable pub is_key_start : ℕ → Bool
is_key_start c = (leb b'a' c && leb c b'z') || (leb b'A' c && leb c b'Z') || c == b'_'

-- The class \w
unfoldable pub is_word : ℕ → Bool
unfolding is_key_start
is_word c = is_key_start c || (leb b'0' c && leb c b'9')

-- `\s*([a-zA-Z_][a-zA-Z0-9_]*)\s*:`: the key, and the length of the match.
unfoldable pub match_key : Bytes → Option (Bytes × ℕ)
unfolding run_length is_re_space is_word
match_key s =
    let spaces = run_length is_re_space s in
    let word = drop spaces s in
    let size = run_length is_word word in
    let gap = run_length is_re_space (drop size word) in
    if first_is is_key_start word && first_is (λ d. d == b':') (drop gap (drop size word))
    then some (take size word, spaces + size + gap + 1)
    else none

-- Quotes round the keys; the first argument counts the bytes of a match still to be passed over.
unfoldable pub fix_keys_from : ℕ → Bytes → Bytes
unfolding match_key
fix_keys_from skip [] = []
fix_keys_from (suc k) (c ∷ s) = fix_keys_from k s
fix_keys_from zero (c ∷ s) = elim (if c == b'{' || c == b',' then match_key s else none) [
  | none ↦ c ∷ fix_keys_from 0 s
  | some (key, size) ↦ c ∷ b'"' ∷ (key ++ (b'"' ∷ b':' ∷ fix_keys_from size s))
]

-- The state of fixQuotes: inside a string, and behind a backslash.
unfoldable pub fix_quotes_from : Bool → Bool → Bytes → Bytes
fix_quotes_from inside escaped [] = []
fix_quotes_from inside true (c ∷ s) = c ∷ fix_quotes_from inside false s
fix_quotes_from inside false (c ∷ s) =
    (if c == b'\'' && not inside then b'"' else c)
    ∷ fix_quotes_from (if c == b'"' then not inside else inside) (c == b'\\') s

unfoldable pub fix_quotes : Bytes → Bytes
unfolding fix_quotes_from
fix_quotes = fix_quotes_from false false

-- `:\s*WORD\b` is replaced; the first argument counts the bytes of a match still to be passed over.
unfoldable pub fix_word_from : Bytes → Bytes → ℕ → Bytes → Bytes
unfolding run_length is_re_space is_word has_prefix
fix_word_from word new skip [] = []
fix_word_from word new (suc k) (c ∷ s) = fix_word_from word new k s
fix_word_from word new zero (c ∷ s) =
    let spaces = run_length is_re_space s in
    let behind = drop (spaces + length word) s in
    let hit = c == b':' && has_prefix (drop spaces s) word && not (first_is is_word behind) in
    let rest = fix_word_from word new (if hit then spaces + length word else 0) s in
    if hit then new ++ rest else c ∷ rest

unfoldable pub fix_words : Bytes → Bytes
unfolding fix_word_from
fix_words text = fix_word_from (codes "undefined") (codes ": null") 0 (
    fix_word_from (codes "None") (codes ": null") 0 (
      fix_word_from (codes "False") (codes ": false") 0
        (fix_word_from (codes "True") (codes ": true") 0 text)))

unfoldable pub fix_common_json_issues : Bytes → Bytes
unfolding fix_trailing_commas fix_keys_from fix_quotes replace_all fix_words
fix_common_json_issues text = fix_words (
    replace_all (fix_quotes (fix_keys_from 0 (fix_trailing_commas text))) (codes "\\\"")
      (codes "\""))

abbrev is_newline : ℕ → Bool
is_newline c = c == b'\n'

abbrev pub has_newline : Bytes → Bool
has_newline [] = false
has_newline (c ∷ s) = is_newline c || has_newline s

-- `//.*?$`, without the flag m: from two slashes to the end of the text, on its last line.
unfoldable pub remove_line_comment : Bytes → Bytes
unfolding has_prefix
remove_line_comment [] = []
remove_line_comment (c ∷ s) =
    let rest = c ∷ remove_line_comment s in
    if has_prefix (c ∷ s) (codes "//") && not (has_newline s) then [] else rest

-- `.*?\*/`: the length of the match, within a line.
unfoldable pub comment_length : Bytes → Option ℕ
unfolding has_prefix
comment_length [] = none
comment_length (c ∷ s) =
    let rest = Option.map suc (comment_length s) in
    if has_prefix (c ∷ s) (codes "*/") then some 2 else if is_newline c then none else rest

-- `/\*.*?\*/`; the first argument counts the bytes of a match still to be passed over.
unfoldable pub remove_block_comments : ℕ → Bytes → Bytes
unfolding comment_length has_prefix
remove_block_comments skip [] = []
remove_block_comments (suc k) (c ∷ s) = remove_block_comments k s
remove_block_comments zero (c ∷ s) =
    elim (if has_prefix (c ∷ s) (codes "/*") then comment_length (drop 1 s) else none) [
      | none ↦ c ∷ remove_block_comments 0 s
      | some size ↦ remove_block_comments (size + 1) s
    ]

unfoldable pub remove_json_comments : Bytes → Bytes
unfolding remove_line_comment remove_block_comments
remove_json_comments text = remove_block_comments 0 (remove_line_comment text)

-- unicode.IsControl for a byte.
abbrev pub is_control : ℕ → Bool
is_control c = ltb c 32 || (leb 127 c && leb c 159)

abbrev pub is_dropped : ℕ → Bool
is_dropped c = is_control c && not (c == 10) && not (c == 13) && not (c == 9)

unfoldable pub drop_controls : Bytes → Bytes
drop_controls [] = []
drop_controls (c ∷ s) = let rest = drop_controls s in if is_dropped c then rest else c ∷ rest

abbrev pub opens : Bytes → Bool
opens text = has_prefix text (codes "{") || has_prefix text (codes "[")

abbrev pub closes : Bytes → Bool
closes text = has_suffix text (codes "}") || has_suffix text (codes "]")

unfoldable pub final_cleanup : Bytes → Bytes
unfolding trim_space has_suffix replace_all drop_controls
final_cleanup text =
    let trimmed = trim_space text in
    if not (opens trimmed)
    then []
    else if not (closes trimmed)
    then []
    else drop_controls (replace_all trimmed (0 ∷ []) [])
