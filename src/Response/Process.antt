-- ===== src/Response/Process.antt =====
-- ProcessResponse and ProcessResponseWithRetry of internal/extractors/response_processor.go.
use ideas.Base.{
  ℕ, zero, suc, ◌+◌, Bool, true, false, ◌&&◌, ◌||◌, not, List, [], ◌∷◌, ◌++◌, Option, none, some,
  map, length, if◌then◌else◌,
}
use ideas.Base.Int.{pos}
use ideas.Base.Text.{Bytes, codes, contains}
use ideas.Cleaner.Clean.{is_empty, clean_response_with_stats}
use ideas.Validation.Types.{Issue, ValidationResult}
use ideas.Validation.Filter.{validate_and_filter_entities, has_critical_errors, has_warnings}
use ideas.Response.Types.{
  EntityExtractionResult, ExtractionRequest, JsonDecoder, ResponseProcessor, ProcessError, canceled,
  deadline_exceeded, failed, Trouble, no_json, parsing_failed, invalid, all_failed, Notice,
  alternative_parsing, warned, ProcessingResult, Reply,
}
use ideas.Response.Enrich.{
  or_new, parse_json_response, try_alternative_parsing, update_quality_metrics,
}

abbrev pub started : ProcessingResult
started = record {
  success = false;
  result = none;
  attempts_used = 1;
  validation_result = none;
  cleaning_stats = none;
  errors = [];
  warnings = [];
}

abbrev pub invalid_errors : ValidationResult → List Trouble
invalid_errors v = map (λ (e : ℕ × List Issue). invalid e.1) v.errors

abbrev pub warned_of : ValidationResult → List Notice
warned_of v = map (λ (w : ℕ × Issue). warned w.1) v.warnings

-- What the processor is given from outside: the decoder, time.Parse, and how the errors of a validation are
-- joined to a text.
pub record Outside : Type 0 where
  pub json : JsonDecoder
  pub time_parse : Bytes → Bytes → Bool
  pub join_errors : List (ℕ × List Issue) → Bytes

-- Step 5, of an extraction whose entities are valid.
unfoldable pub conclude :
    Bytes → ResponseProcessor → EntityExtractionResult → ValidationResult → ProcessingResult → Reply
unfolding has_critical_errors has_warnings
conclude text rp x v r =
    let r1 = record r {
      errors = if has_critical_errors v then r.errors ++ invalid_errors v else r.errors;
    } in
    if has_critical_errors v && rp.strict_mode
    then (r1, some (failed (codes "validation failed: " ++ text)))
    else (
      record r1 {
        warnings = if has_warnings v then r.warnings ++ warned_of v else r.warnings;
        success = true;
        result = some x;
      },
      none,
    )

-- Steps 3 and 4.
unfoldable pub validate_extraction :
    Outside → ResponseProcessor → Bytes → EntityExtractionResult → ProcessingResult → Reply
unfolding validate_and_filter_entities update_quality_metrics conclude
validate_extraction o rp content x r =
    let (es, v) =
      validate_and_filter_entities o.time_parse rp.entity_validator x.entities content in
    conclude (o.join_errors v.errors) rp
      (record x {
        entities = map some es;
        total_entities = pos (length es);
        quality_metrics = some (update_quality_metrics es v (or_new x.quality_metrics));
      })
      v (record r { validation_result = some v })

abbrev pub on_alternative :
    Outside → ResponseProcessor → Bytes → ProcessingResult → Option EntityExtractionResult → Reply
on_alternative o rp content r none =
    (r, some (failed (codes "failed to parse JSON: unable to parse JSON response")))
on_alternative o rp content r (some x) =
    validate_extraction o rp content x (record r { warnings = alternative_parsing ∷ [] })

-- Step 2: the second text is parsed if the first is not.
abbrev pub on_parsed :
    Outside
    → ResponseProcessor
    → Bytes
    → ProcessingResult
    → Option EntityExtractionResult
    → Option EntityExtractionResult
    → Reply
on_parsed o rp content r alternative none =
    on_alternative o rp content (record r { errors = parsing_failed ∷ [] }) alternative
on_parsed o rp content r alternative (some x) = validate_extraction o rp content x r

abbrev pub on_cleaned :
    Outside
    → ResponseProcessor
    → Bytes
    → ExtractionRequest
    → ProcessingResult
    → Bytes
    → Bool
    → Reply
on_cleaned o rp content q r text true =
    (record r { errors = no_json ∷ [] }, some (failed (codes "no valid JSON found in response")))
on_cleaned o rp content q r text false =
    on_parsed o rp content r (try_alternative_parsing o.json q text)
      (parse_json_response o.json q text)

-- The last argument is the error of the context.
unfoldable pub process_response :
    Outside → ResponseProcessor → Bytes → Bytes → ExtractionRequest → Option ProcessError → Reply
unfolding validate_extraction try_alternative_parsing parse_json_response clean_response_with_stats
process_response o rp raw content q (some e) = (started, some e)
process_response o rp raw content q none =
    let (text, stats) = clean_response_with_stats rp.json_cleaner raw in
    on_cleaned o rp content q (record started { cleaning_stats = some stats }) text (is_empty text)

abbrev critical : Option ValidationResult → Bool
critical none = false
critical (some v) = has_critical_errors v

unfoldable pub should_retry : ResponseProcessor → Option ProcessError → ProcessingResult → Bool
unfolding contains has_critical_errors
should_retry rp none r = false
should_retry rp (some canceled) r = false
should_retry rp (some deadline_exceeded) r = false
should_retry rp (some (failed text)) r =
    not (rp.strict_mode && critical r.validation_result)
    && (contains text (codes "JSON") || contains text (codes "parsing"))

abbrev pub is_none : Option ProcessError → Bool
is_none none = true
is_none (some e) = false

-- After the loop, with its last reply.
abbrev pub all_attempts_failed : ResponseProcessor → Reply → Reply
all_attempts_failed rp r = (record r.0 { attempts_used = rp.max_retries }, r.1)

-- The loop, with `left` attempts left after this one; the context's error may differ between attempts.
unfoldable pub attempt_from :
    Outside
    → ResponseProcessor
    → Bytes
    → Bytes
    → ExtractionRequest
    → (ℕ → Option ProcessError)
    → ℕ
    → ℕ
    → Reply
unfolding process_response should_retry
attempt_from o rp raw content q ctx attempt zero =
    let (r, e) = process_response o rp raw content q (ctx attempt) in
    if is_none e && r.success
    then (record r { attempts_used = attempt }, none)
    else all_attempts_failed rp (r, e)
attempt_from o rp raw content q ctx attempt (suc left) =
    let (r, e) = process_response o rp raw content q (ctx attempt) in
    let again = attempt_from o rp raw content q ctx (attempt + 1) left in
    if is_none e && r.success
    then (record r { attempts_used = attempt }, none)
    else if should_retry rp e r
    then again
    else all_attempts_failed rp (r, e)

abbrev pub retry_up_to :
    Outside
    → ResponseProcessor
    → Bytes
    → Bytes
    → ExtractionRequest
    → (ℕ → Option ProcessError)
    → ℕ
    → Reply
retry_up_to o rp raw content q ctx zero =
    (record started { attempts_used = rp.max_retries; errors = all_failed ∷ [] }, none)
retry_up_to o rp raw content q ctx (suc left) = attempt_from o rp raw content q ctx 1 left

unfoldable pub process_response_with_retry :
    Outside
    → ResponseProcessor
    → Bytes
    → Bytes
    → ExtractionRequest
    → (ℕ → Option ProcessError)
    → Reply
unfolding attempt_from
process_response_with_retry o rp raw content q ctx =
    retry_up_to o rp raw content q ctx rp.max_retries
