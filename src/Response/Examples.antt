-- ===== src/Response/Examples.antt =====
-- Runs of internal/extractors/response_processor.go.
use ideas.Base.{◌≡◌, refl, false, [], ◌∷◌, none, some, length, arith}
use ideas.Base.Int.{pos}
use ideas.Base.Text.{Bytes, codes, trim_space}
use ideas.Validation.Types.{ExtractedEntity, new_entity_validator}
use ideas.Validation.Single.{
  can_auto_fix, validate_single_entity, check_type, check_confidence, check_offsets,
  clamp_confidence, auto_fix_entity, collapse_spaces, collapse_from,
}
use ideas.Validation.Formats.{validate_entity_by_type, validate_text_quality}
use ideas.Validation.Filter.{
  validate_and_filter_entities, finish_filtering, filter_from, filter_step, accepts, deduplicate_if,
  limit_to,
}
use ideas.Response.Types.{
  JsonDecoder, ExtractionRequest, new_response_processor, new_quality_metrics,
}
use ideas.Response.Enrich.{update_quality_metrics}
use ideas.Response.Process.{Outside, process_response, process_response_with_retry}
use ideas.Response.Kept.{Sound, process_response-Sound}
use ideas.Response.Retry.{after_one, process_response_with_retry-after_one}
use ideas.Response.Scores.{AllInUnit, update_quality_metrics-InUnit}

abbrev ada : ExtractedEntity
ada = record {
  id = codes "e1";
  entity_type = codes "PERSON";
  text = codes "Ada";
  normalized_text = [];
  confidence = pos 900;
  start_offset = pos 0;
  end_offset = pos 3;
  document_id = [];
  extraction_id = [];
  has_flags = false;
  flagged = false;
  flag_warnings = [];
}

-- A decoder that finds Ada, in the simplified format, in every text.
abbrev decoder : JsonDecoder
decoder = record {
  full_result = λ text. none;
  simple_format = λ text.
      some (record { entities = some ada ∷ none ∷ []; document_type = []; quality_metrics = none });
  entities_only = λ text. none;
}

abbrev no_decoder : JsonDecoder
no_decoder = record {
  full_result = λ text. none;
  simple_format = λ text. none;
  entities_only = λ text. none;
}

abbrev outside : JsonDecoder → Outside
outside json = record {
  json = json;
  time_parse = λ layout text. false;
  join_errors = λ errors. codes "errors";
}

abbrev request : ExtractionRequest
request = record { id = codes "r"; document_id = codes "d"; document_type = codes "article" }

abbrev answer : Bytes
answer = codes "{\"entities\": []}"

process_response-Sound_example :
    Sound new_response_processor
      (codes "Ada.")
      (process_response (outside decoder) new_response_processor answer (codes "Ada.") request none)
process_response-Sound_example =
    process_response-Sound (outside decoder) new_response_processor answer (codes "Ada.") request
      none

process_response_with_retry-after_one_example :
    process_response_with_retry
      (outside no_decoder)
      new_response_processor
      answer
      (codes "Ada.")
      request
      (λ a. none)
    ≡ after_one new_response_processor
        (process_response
          (outside no_decoder)
          new_response_processor
          answer
          (codes "Ada.")
          request
          none)
        3
process_response_with_retry-after_one_example =
    process_response_with_retry-after_one (outside no_decoder) new_response_processor answer
      (codes "Ada.") request

one_left :
    length
      (validate_and_filter_entities
        (λ layout text. false)
        new_entity_validator
        (some ada ∷ none ∷ [])
        (codes "Ada.")).0
    ≡ 1
unfolding validate_and_filter_entities finish_filtering filter_from filter_step accepts can_auto_fix
    validate_single_entity check_type check_confidence check_offsets clamp_confidence
    validate_entity_by_type validate_text_quality trim_space deduplicate_if limit_to auto_fix_entity
    collapse_spaces collapse_from
one_left = refl

update_quality_metrics-InUnit_example :
    let (kept, v) =
      validate_and_filter_entities
        (λ layout text. false)
        new_entity_validator
        (some ada ∷ none ∷ [])
        (codes "Ada.") in
    AllInUnit (update_quality_metrics kept v new_quality_metrics)
update_quality_metrics-InUnit_example =
    update_quality_metrics-InUnit (λ layout text. false) new_entity_validator (some ada ∷ none ∷ [])
      (codes "Ada.") new_quality_metrics (omega (arith, one_left))
