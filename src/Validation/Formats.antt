-- ===== src/Validation/Formats.antt =====
-- The checks of formats in internal/extractors/entity_validator.go. Each regular expression is written as
-- the test that it stands for; time.Parse is a parameter, given a layout and a text.
use ideas.Base.{
  ℕ, ◌+◌, Bool, true, false, not, ◌&&◌, ◌||◌, List, [], ◌∷◌, ◌++◌, length, drop, leb, ltb, ◌==◌,
  if◌then◌else◌,
}
use ideas.Base.Text.{Bytes, codes, bytes_eq, has_prefix, has_suffix, contains, to_lower}
use ideas.Cleaner.Repair.{is_re_space, run_length, first_is, is_word}
use ideas.Cleaner.Clean.{is_empty}
use ideas.Validation.Types.{
  Issue, invalid_email, invalid_url, unrecognized_date, invalid_metric, excessive_whitespace,
  suspicious_characters, unusually_long, very_short, incomplete, email_type, url_type, date_type,
  metric_type,
}
use mathlib.Core.List.{reverse}

abbrev pub all : (ℕ → Bool) → Bytes → Bool
all p [] = true
all p (c ∷ s) = p c && all p s

abbrev pub any : (ℕ → Bool) → Bytes → Bool
any p [] = false
any p (c ∷ s) = p c || any p s

abbrev is_letter : ℕ → Bool
is_letter c = (leb b'a' c && leb c b'z') || (leb b'A' c && leb c b'Z')

abbrev is_digit : ℕ → Bool
is_digit c = leb b'0' c && leb c b'9'

abbrev is_local : ℕ → Bool
is_local c =
    is_letter c || is_digit c || c == b'.' || c == b'_' || c == b'%' || c == b'+' || c == b'-'

abbrev is_domain : ℕ → Bool
is_domain c = is_letter c || is_digit c || c == b'.' || c == b'-'

-- `[a-zA-Z0-9.-]+\.[a-zA-Z]{2,}` on a whole text that is given backwards.
unfoldable pub ends_in_domain : Bytes → Bool
unfolding run_length
ends_in_domain back =
    let n = run_length is_letter back in
    let rest = drop n back in
    leb 2 n
    && first_is (λ c. c == b'.') rest
    && not (is_empty (drop 1 rest))
    && all is_domain (drop 1 rest)

unfoldable pub validate_email : Bytes → Bool
unfolding run_length ends_in_domain
validate_email text =
    let n = run_length is_local text in
    ltb 0 n
    && first_is (λ c. c == b'@') (drop n text)
    && ends_in_domain (reverse (drop (n + 1) text))

abbrev pub has_scheme : Bytes → Bool
has_scheme text = has_prefix text (codes "http://") || has_prefix text (codes "https://")

unfoldable pub validate_url : Bytes → Bool
unfolding has_prefix is_re_space
validate_url text =
    let rest = drop (if has_prefix text (codes "http://") then 7 else 8) text in
    has_scheme text && not (is_empty rest) && all (λ c. not (is_re_space c)) rest

abbrev date_formats : List Bytes
date_formats =
    codes "2006-01-02"
    ∷ codes "2006/01/02"
    ∷ codes "01/02/2006"
    ∷ codes "02-01-2006"
    ∷ codes "January 2, 2006"
    ∷ codes "Jan 2, 2006"
    ∷ codes "2006"
    ∷ codes "January 2006"
    ∷ codes "Q1 2006"
    ∷ codes "Q2 2006"
    ∷ codes "Q3 2006"
    ∷ codes "Q4 2006"
    ∷ []

abbrev relative_dates : List Bytes
relative_dates =
    codes "today"
    ∷ codes "yesterday"
    ∷ codes "tomorrow"
    ∷ codes "last"
    ∷ codes "next"
    ∷ codes "recent"
    ∷ codes "current"
    ∷ []

abbrev any_of : (Bytes → Bool) → List Bytes → Bool
any_of p [] = false
any_of p (w ∷ ws) = p w || any_of p ws

unfoldable pub validate_date : (Bytes → Bytes → Bool) → Bytes → Bool
unfolding contains to_lower
validate_date time_parse text =
    any_of (λ layout. time_parse layout text) date_formats
    || any_of (contains (to_lower text)) relative_dates

abbrev is_number : ℕ → Bool
is_number c = is_digit c || c == b'.' || c == b','

abbrev is_unit : ℕ → Bool
is_unit c = c == b'%' || c == b'$' || is_word c

unfoldable pub validate_metric : Bytes → Bool
unfolding run_length is_re_space is_word
validate_metric text =
    let rest = drop (run_length is_number text) text in
    ltb 0 (run_length is_number text) && all is_unit (drop (run_length is_re_space rest) rest)

-- validateEntityByType: the warning, if there is one.
unfoldable pub validate_entity_by_type : (Bytes → Bytes → Bool) → Bytes → Bytes → List Issue
unfolding validate_email validate_url validate_date validate_metric
validate_entity_by_type time_parse entity_type text =
    if bytes_eq entity_type email_type
    then (if validate_email text then [] else invalid_email ∷ [])
    else if bytes_eq entity_type url_type
    then (if validate_url text then [] else invalid_url ∷ [])
    else if bytes_eq entity_type date_type
    then (if validate_date time_parse text then [] else unrecognized_date ∷ [])
    else if bytes_eq entity_type metric_type
    then (if validate_metric text then [] else invalid_metric ∷ [])
    else []

abbrev is_bracket : ℕ → Bool
is_bracket c = c == b'{' || c == b'}' || c == b'[' || c == b']' || c == b'(' || c == b')'

abbrev when : Bool → Issue → List Issue
when true i = i ∷ []
when false i = []

unfoldable pub validate_text_quality : Bytes → List Issue
unfolding contains has_prefix has_suffix
validate_text_quality text =
    when (contains text (codes "  ")) excessive_whitespace
    ++ (when (any is_bracket text && not (has_scheme text)) suspicious_characters
        ++ (when (ltb 200 (length text)) unusually_long
            ++ (when (ltb (length text) 2) very_short
                ++ when (has_suffix text (codes "-") || has_prefix text (codes "-")) incomplete)))
