-- ===== src/Validation/Examples.antt =====
-- Runs of internal/extractors/entity_validator.go.
use ideas.Base.{
  ◌+◌, ◌-◌, ◌≤◌, ◌≡◌, refl, min, Bool, true, false, List, [], ◌∷◌, Option, none, some, length, All,
}
use ideas.Base.Int.{ℤ, pos, negsuc}
use ideas.Base.Text.{Bytes, codes, trim_space}
use ideas.Validation.Types.{
  ExtractedEntity, EntityValidator, new_entity_validator, with_max_entities,
}
use ideas.Validation.Single.{auto_fix_entity, collapse_spaces, collapse_from, new_result}
use ideas.Validation.Unique.{deduplicate_entities}
use ideas.Validation.Unique.Best.{OnePerKey, put_all}
use ideas.Validation.Unique.Agrees.{deduplicate_entities-put_all}
use ideas.Validation.Order.{
  Descends, count_if, sort_entities_by_confidence, sort_entities_by_confidence-Descends,
}
use ideas.Validation.Filter.{validate_and_filter_entities}
use ideas.Validation.Filter.Kept.{Kept, validate_and_filter_entities-Kept}
use ideas.Validation.Filter.Counts.{validate_and_filter_entities-counts}

abbrev person : Bytes → ℤ → ExtractedEntity
person text confidence = record {
  id = codes "e";
  entity_type = codes "PERSON";
  text = text;
  normalized_text = [];
  confidence = confidence;
  start_offset = pos 0;
  end_offset = pos 3;
  document_id = [];
  extraction_id = [];
  has_flags = false;
  flagged = false;
  flag_warnings = [];
}

abbrev document : Bytes
document = codes "Ada met Bob."

-- Two of one key, a nil pointer, a confidence out of bounds, and an empty text.
abbrev found : List (Option ExtractedEntity)
found =
    some (person (codes "Ada") (pos 700))
    ∷ some (person (codes "ada ") (pos 900))
    ∷ none
    ∷ some (person (codes "Bob") (pos 1200))
    ∷ some (person [] (pos 500))
    ∷ []

abbrev people : List ExtractedEntity
people =
    person (codes "Ada") (pos 700)
    ∷ person (codes "ada ") (pos 900)
    ∷ person (codes "Bob") (negsuc 4)
    ∷ person (codes "Cy") (pos 950)
    ∷ []

abbrev no_dates : Bytes → Bytes → Bool
no_dates layout text = false

abbrev one_at_most : EntityValidator
one_at_most = with_max_entities 1 new_entity_validator

deduplicate_entities-put_all_example :
    ((deduplicate_entities people).0 ≡ put_all people [])
    × (length (deduplicate_entities people).0 + (deduplicate_entities people).1 ≡ 4)
deduplicate_entities-put_all_example = deduplicate_entities-put_all people

sort_entities_by_confidence-Descends_example :
    Descends (sort_entities_by_confidence people)
    × ((p : ExtractedEntity → Bool)
        → count_if p (sort_entities_by_confidence people) ≡ count_if p people)
sort_entities_by_confidence-Descends_example = sort_entities_by_confidence-Descends people

validate_and_filter_entities-Kept_example :
    let kept = (validate_and_filter_entities no_dates one_at_most found document).0 in
    All (Kept one_at_most document) kept
    × (one_at_most.enable_deduplication ≡ true → OnePerKey kept)
validate_and_filter_entities-Kept_example =
    validate_and_filter_entities-Kept no_dates one_at_most found document

validate_and_filter_entities-counts_example :
    let (kept, result) = validate_and_filter_entities no_dates one_at_most found document in
    (length kept ≡ min 1 (5 - result.invalid_entities - result.duplicates_found))
    × (result.invalid_entities + result.duplicates_found ≤ 5)
    × (result.entity_count ≡ length kept)
    × (length result.errors ≡ result.invalid_entities)
validate_and_filter_entities-counts_example =
    validate_and_filter_entities-counts no_dates one_at_most found document

-- A text of white space only is not empty, and is empty once it is fixed.
white_text :
    (let fixed = auto_fix_entity (person (codes "   ") (pos 500)) new_result in fixed.text) ≡ []
unfolding auto_fix_entity trim_space collapse_spaces collapse_from
white_text = refl
