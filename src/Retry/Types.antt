-- ===== src/Retry/Types.antt =====
-- The data of internal/extractors/retry_fallback.go, with what it uses of internal/types. Scores and
-- confidences are in thousandths, durations in nanoseconds.
use ideas.Base.{ℕ, Bool, List, Option}
use ideas.Base.Text.{Bytes}

-- An error of the extraction function is known by its message.
abbrev pub BaseError : Type 0
BaseError = Bytes

-- Why the last attempt was made or given up: the text of `retry_reason`, before it is formatted.
pub data RetryReason : Type 0 where
  no_reason : RetryReason
  recovered_from : BaseError → RetryReason
  failed_after : ℕ → Option BaseError → RetryReason

-- The keys of `ExtractionMetadata` that this file writes.
pub record Metadata : Type 0 where
  pub attempt_count : Option ℕ
  pub retry_reason : Option RetryReason
  pub fallback_used : Option Bool
  pub fallback_strategy : Option Bytes

pub record ExtractedEntity : Type 0 where
  pub id : Bytes
  pub entity_type : Bytes
  pub text : Bytes
  pub normalized_text : Bytes
  pub confidence : ℕ
  pub start_offset : ℕ
  pub end_offset : ℕ
  pub context : Bytes

-- `quality` is the overall score, if there are quality metrics.
pub record ExtractionResult : Type 0 where
  pub document_id : Bytes
  pub entities : List ExtractedEntity
  pub quality : Option ℕ
  pub metadata : Metadata

pub record ExtractionInput : Type 0 where
  pub document_id : Bytes
  pub content : Bytes
  pub document_type : Bytes
  pub analysis_depth : Bytes
  pub required_entity_types : List Bytes

-- What a call of the extraction function returns: a result or nil, and an error or nil.
abbrev pub Reply : Type 0
Reply = Option ExtractionResult × Option BaseError
