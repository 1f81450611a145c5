-- ===== src/Validation/Filter.antt =====
-- ValidateAndFilterEntities of internal/extractors/entity_validator.go, and the reports on its result.
pub mod Kept
pub mod Counts
mod Distinct
pub mod Strict
use ideas.Base.{
  ℕ, zero, suc, ◌+◌, Bool, true, false, not, ◌&&◌, ◌||◌, List, [], ◌∷◌, ◌++◌, Option, none, some,
  length, take, map, leb, ltb, if◌then◌else◌,
}
use ideas.Base.Text.{Bytes}
use ideas.Validation.Types.{
  Issue, nil_entity, limited, ExtractedEntity, EntityValidator, ValidationResult, SingleResult,
}
use ideas.Validation.Single.{validate_single_entity, is_nil, can_auto_fix, auto_fix_entity}
use ideas.Validation.Unique.{deduplicate_entities}
use ideas.Validation.Order.{sort_entities_by_confidence}

-- The variables of the loop over the entities.
pub record Filtering : Type 0 where
  pub valid_entities : List ExtractedEntity
  pub errors : List (ℕ × List Issue)
  pub warnings : List (ℕ × Issue)
  pub fixed_issues : List Issue
  pub invalid_entities : ℕ

abbrev pub nothing_filtered : Filtering
nothing_filtered = record {
  valid_entities = [];
  errors = [];
  warnings = [];
  fixed_issues = [];
  invalid_entities = 0;
}

abbrev pub at_index : ℕ → List Issue → List (ℕ × Issue)
at_index i ws = map (λ (w : Issue). (i, w)) ws

unfoldable pub accepts : EntityValidator → SingleResult → Bool
unfolding can_auto_fix
accepts ev r = r.is_valid || (not ev.strict_mode && can_auto_fix r)

-- What the loop does with an entity, its result at hand.
abbrev pub on_result : ℕ → ExtractedEntity → SingleResult → Filtering → Bool → Filtering
on_result i e r f true = record f {
  valid_entities = f.valid_entities ++ (auto_fix_entity e r ∷ []);
  warnings = f.warnings ++ at_index i r.warnings;
  fixed_issues = f.fixed_issues ++ r.fixed_issues;
}
on_result i e r f false = record f {
  errors = f.errors ++ ((i, r.errors) ∷ []);
  warnings = f.warnings ++ at_index i r.warnings;
  fixed_issues = f.fixed_issues ++ r.fixed_issues;
  invalid_entities = f.invalid_entities + 1;
}

module _ (time_parse : Bytes → Bytes → Bool) (ev : EntityValidator) (content : Bytes) where
  -- A nil pointer is `none`.
  unfoldable pub filter_step : ℕ → Option ExtractedEntity → Filtering → Filtering
  unfolding accepts validate_single_entity auto_fix_entity
  filter_step i none f = record f {
    errors = f.errors ++ ((i, nil_entity ∷ []) ∷ []);
    invalid_entities = f.invalid_entities + 1;
  }
  filter_step i (some e) f =
      let r = validate_single_entity time_parse ev e content in
      on_result i r.0 r.1 f (accepts ev r.1)

  unfoldable pub filter_from : ℕ → List (Option ExtractedEntity) → Filtering → Filtering
  filter_from i [] f = f
  filter_from i (e ∷ es) f = filter_from (i + 1) es (filter_step i e f)

-- Step 2.
unfoldable pub deduplicate_if : EntityValidator → List ExtractedEntity → List ExtractedEntity × ℕ
unfolding deduplicate_entities
deduplicate_if ev es =
    if ev.enable_deduplication && ltb 1 (length es) then deduplicate_entities es else (es, 0)

-- Step 3, and whether it took entities away.
unfoldable pub limit_to : ℕ → List ExtractedEntity → List ExtractedEntity
unfolding sort_entities_by_confidence
limit_to most es = if ltb most (length es) then take most (sort_entities_by_confidence es) else es

-- The warning of a limit has the number of entities given in place of an index.
abbrev pub limit_warnings : ℕ → ℕ → ℕ → List (ℕ × Issue)
limit_warnings most given kept = if ltb most kept then (given, limited) ∷ [] else []

abbrev pub empty_result : ValidationResult
empty_result = record {
  is_valid = true;
  errors = [];
  warnings = [];
  fixed_issues = [];
  entity_count = 0;
  duplicates_found = 0;
  invalid_entities = 0;
}

-- Steps 2 to 4, after the loop.
unfoldable pub finish_filtering :
    EntityValidator → ℕ → Filtering → List ExtractedEntity × ValidationResult
unfolding deduplicate_if limit_to
finish_filtering ev given f =
    let d = deduplicate_if ev f.valid_entities in
    let kept = limit_to ev.max_entities d.0 in
    (
      kept,
      record {
        is_valid = is_nil f.errors && not (is_nil kept);
        errors = f.errors;
        warnings = f.warnings ++ limit_warnings ev.max_entities given (length d.0);
        fixed_issues = f.fixed_issues;
        entity_count = length kept;
        duplicates_found = d.1;
        invalid_entities = f.invalid_entities;
      },
    )

unfoldable pub validate_and_filter_entities :
    (Bytes → Bytes → Bool)
    → EntityValidator
    → List (Option ExtractedEntity)
    → Bytes
    → List ExtractedEntity × ValidationResult
unfolding finish_filtering filter_from
validate_and_filter_entities time_parse ev [] content = ([], empty_result)
validate_and_filter_entities time_parse ev (e ∷ es) content =
    finish_filtering ev (length (e ∷ es))
      (filter_from time_parse ev content 0 (e ∷ es) nothing_filtered)

-- The words of GetValidationSummary with its numbers.
pub data Summary : Type 0 where
  valid_summary : ℕ → ℕ → Summary
  invalid_summary : ℕ → ℕ → ℕ → Summary

unfoldable pub get_validation_summary : ValidationResult → Summary
get_validation_summary vr =
    if vr.is_valid
    then valid_summary vr.entity_count (length vr.warnings)
    else invalid_summary (length vr.errors) (length vr.warnings) vr.invalid_entities

unfoldable pub has_critical_errors : ValidationResult → Bool
has_critical_errors vr = ltb 0 (length vr.errors)

unfoldable pub has_warnings : ValidationResult → Bool
has_warnings vr = ltb 0 (length vr.warnings)
