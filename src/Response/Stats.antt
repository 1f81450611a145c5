-- ===== src/Response/Stats.antt =====
-- GetProcessingStats of internal/extractors/response_processor.go, the map as a record of what it may hold.
use ideas.Base.{ℕ, Bool, List, Option, none, some, length}
use ideas.Base.Int.{ℤ}
use ideas.Cleaner.Clean.{CleaningStats}
use ideas.Response.Types.{Score, QualityMetrics, EntityExtractionResult, ProcessingResult}
use ideas.Validation.Types.{ValidationResult}

pub record ProcessingStats : Type 0 where
  pub success : Bool
  pub attempts_used : ℕ
  pub error_count : ℕ
  pub warning_count : ℕ
  pub entities_extracted : Option ℤ
  pub scores : Option (List (ℕ × Score) × Score)
  pub cleaning : Option (ℕ × ℕ × Bool)
  pub validation : Option (ℕ × ℕ)

abbrev scores_of : Option QualityMetrics → Option (List (ℕ × Score) × Score)
scores_of none = none
scores_of (some q) = some (q.overall_score, q.confidence_score)

abbrev of_result : Option EntityExtractionResult → Option ℤ × Option (List (ℕ × Score) × Score)
of_result none = (none, none)
of_result (some r) = (some r.total_entities, scores_of r.quality_metrics)

abbrev of_cleaning : Option CleaningStats → Option (ℕ × ℕ × Bool)
of_cleaning none = none
of_cleaning (some c) = some (c.original_length, c.cleaned_length, c.markdown_removed)

abbrev of_validation : Option ValidationResult → Option (ℕ × ℕ)
of_validation none = none
of_validation (some v) = some (v.duplicates_found, v.invalid_entities)

abbrev pub get_processing_stats : ProcessingResult → ProcessingStats
get_processing_stats pr =
    let found = of_result pr.result in
    record {
      success = pr.success;
      attempts_used = pr.attempts_used;
      error_count = length pr.errors;
      warning_count = length pr.warnings;
      entities_extracted = found.0;
      scores = found.1;
      cleaning = of_cleaning pr.cleaning_stats;
      validation = of_validation pr.validation_result;
    }
