-- ===== src/Cleaner/Balance.antt =====
-- What ValidateJSONStructure and extractJSONStructure of internal/extractors/json_cleaner.go find.
use ideas.Base.{ℕ, Bool, true, false, not, ◌||◌, [], ◌∷◌, ◌==◌, if◌then◌else◌}
use ideas.Base.Text.{Bytes}
use ideas.Cleaner.Structure.{Counts}

-- The plain bytes of a text: those outside strings that are no backslash and stand behind none. A string runs from a
-- quote to the next one that no backslash stands before; a backslash hides the next byte, in a string and outside.
pub plain_from : Bool → Bool → Bytes → Bytes
plain_from inside escaped [] = []
plain_from inside true (c ∷ s) = plain_from inside false s
plain_from inside false (c ∷ s) =
    let rest = plain_from (if c == b'"' then not inside else inside) (c == b'\\') s in
    if c == b'\\' || c == b'"' || inside then rest else c ∷ rest

pub plain : Bytes → Bytes
plain = plain_from false false

-- How often the first byte of a text counts for `b`.
weight : Counts → ℕ → ℕ → ℕ
weight k c b =
    if k.escaped || k.in_string || c == b'\\' || c == b'"' then 0 else if b == c then 1 else 0
