-- ===== src/Retry/Examples.antt =====
-- Runs of internal/extractors/retry_fallback.go.
use ideas.Base.{
  ℕ, ◌+◌, ◌*◌, ◌/◌, ◌≡◌, ◌⊎◌, refl, arith, true, false, Bool, [], none, some, ltb, if◌then◌else◌,
}
use ideas.Base.Text.{codes, contains, to_lower}
use ideas.Retry.Types.{recovered_from, ExtractionResult, ExtractionInput, Reply}
use ideas.Retry.Strategy.{
  default_retry_config, is_retryable, should_retry, get_delay, gave_up, extract,
}
use ideas.Retry.Fallback.{
  default_fallback_config, FallbackConfig, keywords, fallback_keyword_extraction,
  is_result_acceptable, returns, extract_with_fallback,
}
use ideas.Retry.Attempts.{extract-success, extract-gives_up, delays_from}
use ideas.Retry.Degrade.{texts, occurring, extract_with_fallback-keyword}

abbrev nothing_found : ExtractionResult
nothing_found = record {
  document_id = codes "doc";
  entities = [];
  quality = none;
  metadata = record {
    attempt_count = none;
    retry_reason = none;
    fallback_used = none;
    fallback_strategy = none;
  };
}

-- Two attempts time out, the third succeeds.
abbrev third_time : ℕ → Reply
third_time a = if ltb a 2 then (none, some (codes "timeout")) else (some nothing_found, none)

abbrev doubled : ℕ → ℕ
doubled a = 100_000_000 + 100_000_000 * a

abbrev tenth : ℕ → ℕ
tenth d = d + d / 10

abbrev alive : ℕ → Bool
alive a = false

extract-success_example :
    let o = extract default_retry_config doubled tenth third_time alive in
    let m = nothing_found.metadata in
    (o.result
      ≡ some (record nothing_found {
        metadata = record m {
          attempt_count = some 3;
          retry_reason = some (recovered_from (codes "timeout"));
        };
      }))
    × (o.failure ≡ none)
    × (o.calls ≡ 3)
    × (o.delays ≡ delays_from (get_delay default_retry_config doubled tenth) 0 2)
unfolding should_retry is_retryable contains to_lower
extract-success_example =
    extract-success default_retry_config doubled tenth third_time alive 2 nothing_found
      (omega arith) (refl, refl, refl, (refl, refl, refl, tt)) refl

-- The second error is not tried again.
abbrev refused : ℕ → Reply
refused a = (none, some (if ltb a 1 then codes "Timeout" else codes "unauthorized"))

extract-gives_up_example :
    let o = extract default_retry_config doubled tenth refused alive in
    (o.calls ≡ 2)
    × (o.delays ≡ delays_from (get_delay default_retry_config doubled tenth) 0 1)
    × (o.failure ≡ some (gave_up 3 (some (codes "unauthorized"))))
    × (o.result ≡ none)
unfolding should_retry is_retryable contains to_lower
extract-gives_up_example =
    extract-gives_up default_retry_config doubled tenth refused alive 1 (omega arith)
      (refl, refl, refl, tt) refl refl

abbrev by_keyword : FallbackConfig
by_keyword = record default_fallback_config { strategy = fallback_keyword_extraction }

abbrev fails : ExtractionInput → Reply
fails i = (none, some (codes "timeout"))

abbrev nil_twice : ExtractionInput → Reply
nil_twice i = (none, none)

abbrev input : ExtractionInput
input = record {
  document_id = codes "doc";
  content = codes "A study of Machine Learning at a university";
  document_type = codes "research";
  analysis_depth = codes "detailed";
  required_entity_types = [];
}

extract_with_fallback-keyword_example :
    (r : ExtractionResult) × (extract_with_fallback by_keyword fails input ≡ returns (some r) none)
    × ((is_result_acceptable by_keyword (some r) ≡ true)
        ⊎ (texts r.entities ≡ occurring input.content keywords))
extract_with_fallback-keyword_example =
    extract_with_fallback-keyword by_keyword fails input refl refl
