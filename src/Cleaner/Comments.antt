-- ===== src/Cleaner/Comments.antt =====
-- What removeJSONComments of internal/extractors/json_cleaner.go does to `//`.
use ideas.Base.{true, false, ◌≡◌, refl, ap, [], ◌∷◌, ◌++◌, arith}
use ideas.Base.Text.{Bytes, contains}
use ideas.Cleaner.Repair.{has_newline, remove_line_comment}

abbrev slashes : Bytes
slashes = b'/' ∷ b'/' ∷ []

has_newline-middle : (a b : Bytes) → has_newline (a ++ (b'\n' ∷ b)) ≡ true
has_newline-middle [] b = refl
has_newline-middle (c ∷ a) b = ground (arith, has_newline-middle a b)

remove_line_comment-none : (b : Bytes) → contains b slashes ≡ false → remove_line_comment b ≡ b
unfolding remove_line_comment contains
remove_line_comment-none [] h = refl
remove_line_comment-none (c ∷ b) h = ground (arith, remove_line_comment-none b)

-- On the last line of a text everything from the first two slashes on is removed, be they a comment
-- or not: the `//` of a URL inside a string is no exception.
pub remove_line_comment-cuts :
    (a b : Bytes)
    → contains (a ++ (b'/' ∷ [])) slashes ≡ false
    → has_newline b ≡ false
    → remove_line_comment (a ++ (b'/' ∷ b'/' ∷ b)) ≡ a
unfolding remove_line_comment contains
remove_line_comment-cuts [] b h n = rw n
remove_line_comment-cuts (c ∷ []) b h n = ground (arith, remove_line_comment-cuts [] b refl n)
remove_line_comment-cuts (c ∷ d ∷ a) b h n = ground (arith, remove_line_comment-cuts (d ∷ a) b)

-- A text whose last line has no two slashes is not changed: comments on the lines before stay.
pub remove_line_comment-keeps :
    (a b : Bytes)
    → contains b slashes ≡ false
    → remove_line_comment (a ++ (b'\n' ∷ b)) ≡ a ++ (b'\n' ∷ b)
unfolding remove_line_comment contains
remove_line_comment-keeps [] b h = ap (◌∷◌ b'\n') (remove_line_comment-none b h)
remove_line_comment-keeps (c ∷ a) b h =
    ground (arith, has_newline-middle a b, remove_line_comment-keeps a b h)
