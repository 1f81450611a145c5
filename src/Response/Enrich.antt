-- ===== src/Response/Enrich.antt =====
-- The parsing, enrichment and scoring of internal/extractors/response_processor.go.
use ideas.Base.{
  ◌+◌, ◌-◌, ◌*◌, true, List, [], ◌∷◌, Option, none, some, map, length, ltb, if◌then◌else◌,
}
use ideas.Base.Int.{ℤ, pos, ◌+ℤ◌}
use ideas.Base.Text.{Bytes, trim_space}
use ideas.Cleaner.Clean.{is_empty}
use ideas.Validation.Types.{ExtractedEntity, ValidationResult}
use ideas.Response.Types.{
  Score, ValidationResults, QualityMetrics, new_quality_metrics, EntityExtractionResult,
  SimpleFormat, ExtractionRequest, JsonDecoder,
}

abbrev or_else : Bytes → Bytes → Bytes
or_else s t = if is_empty s then t else s

unfoldable pub enrich_entity : ExtractionRequest → Option ExtractedEntity → Option ExtractedEntity
unfolding trim_space
enrich_entity q none = none
enrich_entity q (some e) = some (record e {
  document_id = or_else e.document_id q.document_id;
  extraction_id = or_else e.extraction_id q.id;
  normalized_text = or_else e.normalized_text (trim_space e.text);
  has_flags = true;
  flagged = if e.has_flags then e.flagged else true;
})

abbrev pub or_new : Option QualityMetrics → QualityMetrics
or_new none = new_quality_metrics
or_new (some m) = m

unfoldable pub enrich_extraction_result :
    ExtractionRequest → EntityExtractionResult → EntityExtractionResult
unfolding enrich_entity
enrich_extraction_result q r = record r {
  document_id = or_else r.document_id q.document_id;
  document_type = or_else r.document_type q.document_type;
  entities = map (enrich_entity q) r.entities;
  quality_metrics = some (or_new r.quality_metrics);
}

-- NewEntityExtractionResult, with the entities put in.
abbrev new_result : ExtractionRequest → List (Option ExtractedEntity) → EntityExtractionResult
new_result q es = record {
  document_id = q.document_id;
  document_type = q.document_type;
  entities = es;
  total_entities = pos (length es);
  quality_metrics = some new_quality_metrics;
}

abbrev from_simple : ExtractionRequest → Option SimpleFormat → Option EntityExtractionResult
from_simple q none = none
from_simple q (some simple) =
    let r = new_result q simple.entities in
    some (
      enrich_extraction_result q (record r {
        document_type = or_else simple.document_type q.document_type;
        quality_metrics = some (or_new simple.quality_metrics);
      }))

abbrev from_full :
    ExtractionRequest
    → Option SimpleFormat
    → Option EntityExtractionResult
    → Option EntityExtractionResult
from_full q simple none = from_simple q simple
from_full q simple (some r) = some (enrich_extraction_result q r)

unfoldable pub parse_json_response :
    JsonDecoder → ExtractionRequest → Bytes → Option EntityExtractionResult
unfolding enrich_extraction_result
parse_json_response json q text = from_full q (json.simple_format text) (json.full_result text)

abbrev from_entities :
    ExtractionRequest → Option (List (Option ExtractedEntity)) → Option EntityExtractionResult
from_entities q none = none
from_entities q (some es) = some (enrich_extraction_result q (new_result q es))

unfoldable pub try_alternative_parsing :
    JsonDecoder → ExtractionRequest → Bytes → Option EntityExtractionResult
unfolding enrich_extraction_result
try_alternative_parsing json q text = from_entities q (json.entities_only text)

abbrev pub sum_confidence : List ExtractedEntity → ℤ
sum_confidence [] = pos 0
sum_confidence (e ∷ es) = e.confidence +ℤ sum_confidence es

-- The errors cost a tenth each, the warnings a twentieth, and the score stops at 0.
abbrev pub reliability : ValidationResult → Score
reliability v = (pos (20 - (2 * length v.errors + length v.warnings)), 20)

abbrev keep_results : ValidationResult → Option ValidationResults → Option ValidationResults
keep_results v (some r) = some r
keep_results v none =
    let total = v.entity_count + v.invalid_entities in
    some (record {
      total_entities = total;
      valid_entities = v.entity_count;
      invalid_entities = v.invalid_entities;
      duplicate_entities = v.duplicates_found;
      error_count = length v.errors;
      warning_count = length v.warnings;
      validation_rate = if ltb 0 total then (pos v.entity_count, total) else (pos 0, 1);
    })

-- `es` are the entities that the validator left.
unfoldable pub update_quality_metrics :
    List ExtractedEntity → ValidationResult → QualityMetrics → QualityMetrics
update_quality_metrics es v m =
    let confidence : Score =
      if ltb 0 (length es) then (sum_confidence es, 1000 * length es) else m.confidence_score in
    let total = v.entity_count + v.invalid_entities in
    let completeness : Score =
      if ltb 0 total then (pos v.entity_count, total) else m.completeness_score in
    record {
      confidence_score = confidence;
      completeness_score = completeness;
      reliability_score = reliability v;
      overall_score = (4, confidence) ∷ (3, completeness) ∷ (3, reliability v) ∷ [];
      validation_results = keep_results v m.validation_results;
    }
