-- ===== src/Cleaner/Shape.antt =====
-- What CleanResponse of internal/extractors/json_cleaner.go returns.
use ideas.Base.{
  ℕ, true, false, ◌≡◌, refl, sym, ap, ◌∙◌, ◌⊎◌, inl, inr, [], ◌∷◌, ◌++◌, All, arith, Bool-cases,
}
use ideas.Base.Text.{Bytes, has_prefix, has_suffix, trim_space, replace_all}
use ideas.Cleaner.Clean.{JsonCleaner, prepare, clean_response}
use ideas.Cleaner.Repair.{is_dropped, drop_controls, opens, closes, final_cleanup}
use mathlib.Core.List.{reverse, reverse-append, reverse-cons, reverse-reverse}

-- A text that begins and ends like JSON and has no control characters but \n, \r and \t.
pub record IsClean (text : Bytes) : Type 0 where
  pub begins : opens text ≡ true
  pub ends : closes text ≡ true
  pub printable : All (λ c. is_dropped c ≡ false) text

drop_controls-printable : (s : Bytes) → All (λ c. is_dropped c ≡ false) (drop_controls s)
unfolding drop_controls
drop_controls-printable [] = tt
drop_controls-printable (c ∷ s) = elim (Bool-cases (is_dropped c)) [
  | inl e ↦ rw e (drop_controls-printable s)
  | inr e ↦ rw e (e, drop_controls-printable s)
]

-- Both passes at the end, as one.
strip : Bytes → Bytes
strip s = drop_controls (replace_all s (0 ∷ []) [])

strip-cons : (c : ℕ) (s : Bytes) → is_dropped c ≡ false → strip (c ∷ s) ≡ c ∷ strip s
unfolding strip replace_all drop_controls has_prefix
strip-cons c s h = ground arith

strip-snoc :
    (c : ℕ) (s : Bytes) → is_dropped c ≡ false → strip (s ++ (c ∷ [])) ≡ strip s ++ (c ∷ [])
unfolding strip replace_all drop_controls has_prefix
strip-snoc c [] h = ground arith
strip-snoc c (d ∷ s) h = ground (arith, strip-snoc c s h)

has_prefix-one : (c : ℕ) (s : Bytes) → has_prefix s (c ∷ []) ≡ true → (r : Bytes) × (s ≡ c ∷ r)
unfolding has_prefix
has_prefix-one c [] h = absurd (ground arith)
has_prefix-one c (d ∷ s) h = (s, ground arith)

has_prefix-cons : (c : ℕ) (s : Bytes) → has_prefix (c ∷ s) (c ∷ []) ≡ true
unfolding has_prefix
has_prefix-cons c s = ground arith

has_suffix-one :
    (c : ℕ) (s : Bytes) → has_suffix s (c ∷ []) ≡ true → (r : Bytes) × (s ≡ r ++ (c ∷ []))
unfolding has_suffix
has_suffix-one c s h =
    let (r, e) = has_prefix-one c (reverse s) h in
    (reverse r, sym (reverse-reverse s) ∙ ap reverse e ∙ reverse-cons c r)

has_suffix-snoc : (c : ℕ) (s : Bytes) → has_suffix (s ++ (c ∷ [])) (c ∷ []) ≡ true
unfolding has_suffix
has_suffix-snoc c s = rw (reverse-append s (c ∷ [])) (has_prefix-cons c (reverse s))

strip-prefix :
    (c : ℕ) (s : Bytes)
    → is_dropped c ≡ false
    → has_prefix s (c ∷ []) ≡ true
    → has_prefix (strip s) (c ∷ []) ≡ true
strip-prefix c s k h =
    let (r, e) = has_prefix-one c s h in rw (e, strip-cons c r k) (has_prefix-cons c (strip r))

strip-suffix :
    (c : ℕ) (s : Bytes)
    → is_dropped c ≡ false
    → has_suffix s (c ∷ []) ≡ true
    → has_suffix (strip s) (c ∷ []) ≡ true
strip-suffix c s k h =
    let (r, e) = has_suffix-one c s h in rw (e, strip-snoc c r k) (has_suffix-snoc c (strip r))

strip-opens : (s : Bytes) → opens s ≡ true → opens (strip s) ≡ true
strip-opens s h = ground (arith, strip-prefix b'{' s refl, strip-prefix b'[' s refl)

strip-closes : (s : Bytes) → closes s ≡ true → closes (strip s) ≡ true
strip-closes s h = ground (arith, strip-suffix b'}' s refl, strip-suffix b']' s refl)

final_cleanup-IsClean : (text : Bytes) → (final_cleanup text ≡ []) ⊎ IsClean (final_cleanup text)
unfolding final_cleanup strip
final_cleanup-IsClean text =
    let t = trim_space text in
    elim (Bool-cases (opens t)) [
      | inr e ↦ inl (rw e)
      | inl o ↦ elim (Bool-cases (closes t)) [
        | inr e ↦ inl (rw (o, e))
        | inl c ↦ inr (
            rw (o, c)
              (record {
                begins = strip-opens t o;
                ends = strip-closes t c;
                printable = drop_controls-printable (replace_all t (0 ∷ []) []);
              }))
      ]
    ]

-- Whatever the model answers and whatever the settings, CleanResponse returns either the empty text
-- or one that begins with a brace or bracket, ends with a closing one, and has no control characters
-- but line feeds, carriage returns and tabs.
pub clean_response-IsClean :
    (j : JsonCleaner) (response : Bytes)
    → (clean_response j response ≡ []) ⊎ IsClean (clean_response j response)
unfolding clean_response
clean_response-IsClean j [] = inl refl
clean_response-IsClean j (c ∷ s) = final_cleanup-IsClean (prepare j (c ∷ s))
