-- ===== src/Response/Types.antt =====
-- The types of internal/extractors/response_processor.go, and those of internal/types that it fills. Times and
-- the log are left out.
use ideas.Base.{ℕ, Bool, false, List, [], Option, none, some, ltb, length, if◌then◌else◌}
use ideas.Base.Int.{ℤ, pos}
use ideas.Base.Text.{Bytes}
use ideas.Cleaner.Clean.{JsonCleaner, new_json_cleaner, CleaningStats}
use ideas.Validation.Types.{
  Issue, ExtractedEntity, EntityValidator, ValidationResult, new_entity_validator, with_strict_mode,
  with_min_confidence, with_max_entities, with_allowed_types,
}

-- A score is a numerator over a denominator.
abbrev pub Score : Type 0
Score = ℤ × ℕ

pub record ValidationResults : Type 0 where
  pub total_entities : ℕ
  pub valid_entities : ℕ
  pub invalid_entities : ℕ
  pub duplicate_entities : ℕ
  pub error_count : ℕ
  pub warning_count : ℕ
  pub validation_rate : Score

-- The overall score is the weighted mean of scores, its weights in tenths.
pub record QualityMetrics : Type 0 where
  pub confidence_score : Score
  pub completeness_score : Score
  pub reliability_score : Score
  pub overall_score : List (ℕ × Score)
  pub validation_results : Option ValidationResults

abbrev pub no_score : Score
no_score = (pos 0, 1)

abbrev pub new_quality_metrics : QualityMetrics
new_quality_metrics = record {
  confidence_score = no_score;
  completeness_score = no_score;
  reliability_score = no_score;
  overall_score = [];
  validation_results = none;
}

-- A nil pointer among the entities is `none`.
pub record EntityExtractionResult : Type 0 where
  pub document_id : Bytes
  pub document_type : Bytes
  pub entities : List (Option ExtractedEntity)
  pub total_entities : ℤ
  pub quality_metrics : Option QualityMetrics

-- What the simplified format of a response has, as far as the processor reads it.
pub record SimpleFormat : Type 0 where
  pub entities : List (Option ExtractedEntity)
  pub document_type : Bytes
  pub quality_metrics : Option QualityMetrics

pub record ExtractionRequest : Type 0 where
  pub id : Bytes
  pub document_id : Bytes
  pub document_type : Bytes

-- What encoding/json does with a text, for each of the three types that it is asked to fill.
pub record JsonDecoder : Type 0 where
  pub full_result : Bytes → Option EntityExtractionResult
  pub simple_format : Bytes → Option SimpleFormat
  pub entities_only : Bytes → Option (List (Option ExtractedEntity))

pub record ResponseProcessor : Type 0 where
  pub json_cleaner : JsonCleaner
  pub entity_validator : EntityValidator
  pub max_retries : ℕ
  pub strict_mode : Bool

-- The field `validate_offsets` of a configuration is not read.
pub record ProcessingConfig : Type 0 where
  pub max_retries : ℕ
  pub strict_mode : Bool
  pub min_confidence : ℤ
  pub max_entities : ℕ
  pub allowed_types : List Bytes
  pub validate_offsets : Bool

abbrev pub new_response_processor : ResponseProcessor
new_response_processor = record {
  json_cleaner = new_json_cleaner;
  entity_validator = new_entity_validator;
  max_retries = 3;
  strict_mode = false;
}

abbrev pub with_config : Option ProcessingConfig → ResponseProcessor → ResponseProcessor
with_config none rp = rp
with_config (some config) rp =
    let ev = with_max_entities config.max_entities (
      with_min_confidence config.min_confidence
        (with_strict_mode config.strict_mode rp.entity_validator)) in
    record rp {
      max_retries = config.max_retries;
      strict_mode = config.strict_mode;
      entity_validator =
          if ltb 0 (length config.allowed_types)
          then with_allowed_types config.allowed_types ev
          else ev;
    }

-- The errors a call returns: those of its context, and those with a text.
pub data ProcessError : Type 0 where
  canceled deadline_exceeded : ProcessError
  failed : Bytes → ProcessError

pub data Trouble : Type 0 where
  no_json parsing_failed : Trouble
  invalid : List Issue → Trouble
  all_failed : Trouble

pub data Notice : Type 0 where
  alternative_parsing : Notice
  warned : Issue → Notice

pub record ProcessingResult : Type 0 where
  pub success : Bool
  pub result : Option EntityExtractionResult
  pub attempts_used : ℕ
  pub validation_result : Option ValidationResult
  pub cleaning_stats : Option CleaningStats
  pub errors : List Trouble
  pub warnings : List Notice

abbrev pub Reply : Type 0
Reply = ProcessingResult × Option ProcessError
