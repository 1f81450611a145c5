-- ===== src/Validation/Types.antt =====
-- The types of internal/extractors/entity_validator.go, and the entities of internal/types. A confidence
-- is in thousandths, an error or a warning stands for its text before it is formatted.
use ideas.Base.{ℕ, Bool, true, false, List, [], ◌∷◌}
use ideas.Base.Int.{ℤ, pos}
use ideas.Base.Text.{Bytes, codes}

pub data Issue : Type 0 where
  text_is_empty type_is_empty invalid_type below_threshold : Issue
  negative_start end_not_after_start end_exceeds_document nil_entity : Issue
  offsets_mismatch invalid_email invalid_url unrecognized_date invalid_metric : Issue
  excessive_whitespace suspicious_characters unusually_long very_short incomplete limited : Issue
  confidence_was_negative confidence_was_above_one : Issue

-- The fields of an entity that the response processor and the validator read or write. `has_flags` is whether
-- ValidationFlags is there, `flagged` whether it holds IsValid, `flag_warnings` its warnings.
pub record ExtractedEntity : Type 0 where
  pub id : Bytes
  pub entity_type : Bytes
  pub text : Bytes
  pub normalized_text : Bytes
  pub confidence : ℤ
  pub start_offset : ℤ
  pub end_offset : ℤ
  pub document_id : Bytes
  pub extraction_id : Bytes
  pub has_flags : Bool
  pub flagged : Bool
  pub flag_warnings : List Issue

pub record EntityValidator : Type 0 where
  pub strict_mode : Bool
  pub min_confidence : ℤ
  pub max_entities : ℕ
  pub enable_deduplication : Bool
  pub validate_offsets : Bool
  pub validate_types : Bool
  pub allowed_types : List Bytes

-- An error or a warning of the whole run names the entity by its index.
pub record ValidationResult : Type 0 where
  pub is_valid : Bool
  pub errors : List (ℕ × List Issue)
  pub warnings : List (ℕ × Issue)
  pub fixed_issues : List Issue
  pub entity_count : ℕ
  pub duplicates_found : ℕ
  pub invalid_entities : ℕ

-- The result of the check of one entity.
pub record SingleResult : Type 0 where
  pub is_valid : Bool
  pub errors : List Issue
  pub warnings : List Issue
  pub fixed_issues : List Issue

abbrev pub email_type : Bytes
email_type = codes "EMAIL"

abbrev pub url_type : Bytes
url_type = codes "URL"

abbrev pub date_type : Bytes
date_type = codes "DATE"

abbrev pub metric_type : Bytes
metric_type = codes "METRIC"

abbrev pub entity_types_list : List Bytes
entity_types_list =
    codes "PERSON"
    ∷ codes "ORGANIZATION"
    ∷ codes "LOCATION"
    ∷ date_type
    ∷ email_type
    ∷ codes "CONCEPT"
    ∷ metric_type
    ∷ codes "TECHNOLOGY"
    ∷ url_type
    ∷ codes "CITATION"
    ∷ []

abbrev pub new_entity_validator : EntityValidator
new_entity_validator = record {
  strict_mode = false;
  min_confidence = pos 0;
  max_entities = 100;
  enable_deduplication = true;
  validate_offsets = true;
  validate_types = true;
  allowed_types = entity_types_list;
}

abbrev pub with_strict_mode : Bool → EntityValidator → EntityValidator
with_strict_mode enabled ev = record ev { strict_mode = enabled }

abbrev pub with_min_confidence : ℤ → EntityValidator → EntityValidator
with_min_confidence least ev = record ev { min_confidence = least }

abbrev pub with_max_entities : ℕ → EntityValidator → EntityValidator
with_max_entities most ev = record ev { max_entities = most }

abbrev pub with_allowed_types : List Bytes → EntityValidator → EntityValidator
with_allowed_types entity_types ev = record ev { allowed_types = entity_types }
