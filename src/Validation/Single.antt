-- ===== src/Validation/Single.antt =====
-- validateSingleEntity and autoFixEntity of internal/extractors/entity_validator.go.
use ideas.Base.{Bool, true, false, not, ◌&&◌, List, [], ◌∷◌, ◌++◌, length, slice, if◌then◌else◌}
use ideas.Base.Int.{ℤ, pos, pos_part, leb_ℤ, ltb_ℤ}
use ideas.Base.Text.{Bytes, bytes_eq, elem_bytes, trim_space}
use ideas.Cleaner.Clean.{is_empty}
use ideas.Cleaner.Repair.{is_re_space}
use ideas.Validation.Types.{
  Issue, text_is_empty, type_is_empty, invalid_type, below_threshold, negative_start,
  end_not_after_start, end_exceeds_document, offsets_mismatch, confidence_was_negative,
  confidence_was_above_one, ExtractedEntity, EntityValidator, SingleResult,
}
use ideas.Validation.Formats.{validate_entity_by_type, validate_text_quality}

abbrev pub new_result : SingleResult
new_result = record { is_valid = true; errors = []; warnings = []; fixed_issues = [] }

-- The two statements of a failed check, if it failed.
abbrev pub reject : Bool → Issue → SingleResult → SingleResult
reject true e r = record r { errors = r.errors ++ (e ∷ []); is_valid = false }
reject false e r = r

abbrev pub warn : List Issue → SingleResult → SingleResult
warn ws r = record r { warnings = r.warnings ++ ws }

-- The confidence is set to the nearer bound, in the entity that was given.
unfoldable pub clamp_confidence : ℤ → ℤ
clamp_confidence x = if ltb_ℤ x (pos 0) then pos 0 else if ltb_ℤ (pos 1000) x then pos 1000 else x

abbrev clamp_issues : ℤ → List Issue
clamp_issues x =
    if ltb_ℤ x (pos 0)
    then confidence_was_negative ∷ []
    else if ltb_ℤ (pos 1000) x
    then confidence_was_above_one ∷ []
    else []

-- The check of the entity's type, and of the fields that are required.
unfoldable pub check_type : EntityValidator → ExtractedEntity → SingleResult → SingleResult
check_type ev e r =
    reject
      (ev.validate_types
        && (not (is_empty e.entity_type) && not (elem_bytes e.entity_type ev.allowed_types)))
      invalid_type
      (reject (is_empty e.entity_type) type_is_empty (reject (is_empty e.text) text_is_empty r))

unfoldable pub check_confidence : EntityValidator → ExtractedEntity → SingleResult → SingleResult
check_confidence ev e r =
    reject (ltb_ℤ (clamp_confidence e.confidence) ev.min_confidence) below_threshold
      (record r { fixed_issues = r.fixed_issues ++ clamp_issues e.confidence })

-- The text between the offsets is read if they fit.
abbrev offsets_differ : ExtractedEntity → Bytes → Bool
offsets_differ e content =
    leb_ℤ (pos 0) e.start_offset
    && (leb_ℤ e.end_offset (pos (length content))
        && (ltb_ℤ e.start_offset e.end_offset
            && not (
                bytes_eq
                  (trim_space (slice content (pos_part e.start_offset) (pos_part e.end_offset)))
                  (trim_space e.text))))

unfoldable pub check_offsets :
    EntityValidator → ExtractedEntity → Bytes → SingleResult → SingleResult
unfolding trim_space
check_offsets ev e content r =
    let checked = ev.validate_offsets && not (is_empty content) in
    warn (if checked && offsets_differ e content then offsets_mismatch ∷ [] else []) (
      reject (checked && ltb_ℤ (pos (length content)) e.end_offset) end_exceeds_document (
        reject (checked && leb_ℤ e.end_offset e.start_offset) end_not_after_start
          (reject (checked && ltb_ℤ e.start_offset (pos 0)) negative_start r)))

-- The result, and the entity, whose confidence may have changed.
unfoldable pub validate_single_entity :
    (Bytes → Bytes → Bool)
    → EntityValidator
    → ExtractedEntity
    → Bytes
    → ExtractedEntity × SingleResult
unfolding validate_entity_by_type validate_text_quality
validate_single_entity time_parse ev e content = (
  record e { confidence = clamp_confidence e.confidence },
  warn (validate_text_quality e.text) (
      warn (validate_entity_by_type time_parse e.entity_type e.text)
        (check_offsets ev e content (check_confidence ev e (check_type ev e new_result)))),
)

abbrev pub is_nil {ℓ} : {A : Type ℓ} → List A → Bool
is_nil [] = true
is_nil (x ∷ xs) = false

unfoldable pub can_auto_fix : SingleResult → Bool
can_auto_fix r = is_nil r.errors && not (is_nil r.warnings)

-- `\s+` is replaced by a space; the first argument says whether a white space stands before.
unfoldable pub collapse_from : Bool → Bytes → Bytes
unfolding is_re_space
collapse_from after [] = []
collapse_from after (c ∷ s) =
    let rest = collapse_from (is_re_space c) s in
    if is_re_space c then (if after then rest else 32 ∷ rest) else c ∷ rest

unfoldable pub collapse_spaces : Bytes → Bytes
collapse_spaces = collapse_from false

unfoldable pub auto_fix_entity : ExtractedEntity → SingleResult → ExtractedEntity
unfolding trim_space
auto_fix_entity e r =
    let fixed = collapse_spaces (trim_space (trim_space e.text)) in
    record e {
      text = fixed;
      normalized_text = if is_empty e.normalized_text then fixed else e.normalized_text;
      has_flags = true;
      flagged = true;
      flag_warnings = r.warnings;
    }
