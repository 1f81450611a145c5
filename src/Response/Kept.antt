-- ===== src/Response/Kept.antt =====
-- What ProcessResponse of internal/extractors/response_processor.go returns.
use ideas.Base.{
  ◌≤◌, ◌≡◌, refl, Bool, true, false, ◌&&◌, List, [], ◌∷◌, Option, none, some, map, length, All,
  Bool-cases, inl, inr, arith,
}
use ideas.Base.Int.{pos}
use ideas.Base.Text.{Bytes}
use ideas.Cleaner.Clean.{is_empty, clean_response_with_stats}
use ideas.Validation.Types.{ExtractedEntity, EntityValidator, ValidationResult}
use ideas.Validation.Unique.Best.{OnePerKey}
use ideas.Validation.Filter.{validate_and_filter_entities, has_critical_errors}
use ideas.Validation.Filter.Kept.{Kept, validate_and_filter_entities-Kept}
use ideas.Validation.Filter.Counts.{validate_and_filter_entities-counts}
use ideas.Response.Types.{
  EntityExtractionResult, ExtractionRequest, ResponseProcessor, ProcessError, ProcessingResult,
  Reply, alternative_parsing, parsing_failed,
}
use ideas.Response.Enrich.{
  parse_json_response, try_alternative_parsing, update_quality_metrics, or_new,
}
use ideas.Response.Process.{
  Outside, started, conclude, validate_extraction, process_response, on_parsed, on_cleaned,
}

-- The entities of an extraction are those that the validator lets through.
pub record Trusted (ev : EntityValidator) (content : Bytes) (x : EntityExtractionResult)
    : Type 0 where
  pub kept : List ExtractedEntity
  pub entities : x.entities ≡ map some kept
  pub total : x.total_entities ≡ pos (length kept)
  pub few : length kept ≤ ev.max_entities
  pub each : All (Kept ev content) kept
  pub distinct : ev.enable_deduplication ≡ true → OnePerKey kept

-- A reply is a failure with an error and no extraction, or a success with a trusted one and no error.
abbrev pub Answers :
    EntityValidator → Bytes → Bool → Option EntityExtractionResult → Option ProcessError → Type 0
Answers ev content success none none = ⊥
Answers ev content success none (some e) = success ≡ false
Answers ev content success (some x) none = (success ≡ true) × Trusted ev content x
Answers ev content success (some x) (some e) = ⊥

abbrev pub Sound : ResponseProcessor → Bytes → Reply → Type 0
Sound rp content reply =
    let r = reply.0 in Answers rp.entity_validator content r.success r.result reply.1

conclude-Sound :
    (text : Bytes) (rp : ResponseProcessor) (content : Bytes) (x : EntityExtractionResult)
    (v : ValidationResult) (r : ProcessingResult)
    → r.success ≡ false
    → r.result ≡ none
    → Trusted rp.entity_validator content x
    → Sound rp content (conclude text rp x v r)
unfolding conclude
conclude-Sound text rp content x v r f n t =
    elim (Bool-cases (has_critical_errors v && rp.strict_mode)) [
      | inl h ↦ rw (h, n) f
      | inr h ↦ rw h (refl, t)
    ]

validate_extraction-Sound :
    (o : Outside) (rp : ResponseProcessor) (content : Bytes) (x : EntityExtractionResult)
    (r : ProcessingResult)
    → r.success ≡ false
    → r.result ≡ none
    → Sound rp content (validate_extraction o rp content x r)
unfolding validate_extraction
validate_extraction-Sound o rp content x r f n =
    let ev = rp.entity_validator in
    let out = validate_and_filter_entities o.time_parse ev x.entities content in
    let v = out.1 in
    let safe = validate_and_filter_entities-Kept o.time_parse ev x.entities content in
    let counts = validate_and_filter_entities-counts o.time_parse ev x.entities content in
    conclude-Sound (o.join_errors v.errors) rp content
      (record x {
        entities = map some out.0;
        total_entities = pos (length out.0);
        quality_metrics = some (update_quality_metrics out.0 v (or_new x.quality_metrics));
      })
      v (record r { validation_result = some v }) f n
      (record {
        kept = out.0;
        entities = refl;
        total = refl;
        few = omega (arith, counts.0);
        each = safe.0;
        distinct = safe.1;
      })

on_parsed-Sound :
    (o : Outside) (rp : ResponseProcessor) (content : Bytes) (r : ProcessingResult)
    (alternative parsed : Option EntityExtractionResult)
    → r.success ≡ false
    → r.result ≡ none
    → Sound rp content (on_parsed o rp content r alternative parsed)
on_parsed-Sound o rp content r alternative (some x) f n =
    validate_extraction-Sound o rp content x r f n
on_parsed-Sound o rp content r none none f n = rw n f
on_parsed-Sound o rp content r (some x) none f n =
    validate_extraction-Sound o rp content x
      (record r { errors = parsing_failed ∷ []; warnings = alternative_parsing ∷ [] }) f n

on_cleaned-Sound :
    (o : Outside) (rp : ResponseProcessor) (content : Bytes) (q : ExtractionRequest)
    (r : ProcessingResult) (text : Bytes) (nothing : Bool)
    → r.success ≡ false
    → r.result ≡ none
    → Sound rp content (on_cleaned o rp content q r text nothing)
on_cleaned-Sound o rp content q r text true f n = rw n f
on_cleaned-Sound o rp content q r text false f n =
    on_parsed-Sound o rp content r (try_alternative_parsing o.json q text)
      (parse_json_response o.json q text) f n

-- ProcessResponse returns an error and no extraction, or succeeds with an extraction of which every entity is
-- as the validator promises, with at most the number of entities allowed, counted right, and with
-- deduplication on no two of the same key, whatever text the model answered and whatever was parsed from it.
pub process_response-Sound :
    (o : Outside) (rp : ResponseProcessor) (raw content : Bytes) (q : ExtractionRequest)
    (ctx : Option ProcessError)
    → Sound rp content (process_response o rp raw content q ctx)
unfolding process_response
process_response-Sound o rp raw content q (some e) = refl
process_response-Sound o rp raw content q none =
    let (text, stats) = clean_response_with_stats rp.json_cleaner raw in
    on_cleaned-Sound o rp content q (record started { cleaning_stats = some stats }) text
      (is_empty text) refl refl
