-- ===== src/Retry/Strategy.antt =====
-- RetryStrategy and RetryableExtractor of internal/extractors/retry_fallback.go.
use ideas.Base.{
  ℕ, zero, suc, ◌+◌, ◌-◌, Bool, true, false, not, ◌||◌, List, [], ◌∷◌, Option, none, some, ltb, leb,
  if◌then◌else◌,
}
use ideas.Base.Text.{Bytes, codes, contains, to_lower}
use ideas.Retry.Types.{
  BaseError, RetryReason, no_reason, recovered_from, failed_after, ExtractionResult, Reply,
}

pub record RetryConfig : Type 0 where
  pub max_attempts : ℕ
  pub base_delay : ℕ
  pub max_delay : ℕ
  pub enable_jitter : Bool
  pub retryable_errors : List Bytes

-- The backoff factor of 2.0 enters by the parameter `backoff` of `get_delay`.
abbrev pub default_retry_config : RetryConfig
default_retry_config = record {
  max_attempts = 3;
  base_delay = 100_000_000;
  max_delay = 5_000_000_000;
  enable_jitter = true;
  retryable_errors =
      codes "json parse error"
      ∷ codes "empty response"
      ∷ codes "malformed response"
      ∷ codes "timeout"
      ∷ codes "connection error"
      ∷ [];
}

-- Some text of the list occurs in the message, in any case of the letters.
unfoldable pub is_retryable : Bytes → List Bytes → Bool
unfolding contains to_lower
is_retryable message [] = false
is_retryable message (r ∷ rs) = contains (to_lower message) (to_lower r) || is_retryable message rs

unfoldable pub should_retry : RetryConfig → Option BaseError → ℕ → Bool
should_retry c none attempt = false
should_retry c (some e) attempt =
    if leb c.max_attempts attempt then false else is_retryable e c.retryable_errors

-- `backoff a` stands for the float BaseDelay * BackoffFactor ^ a, cut to a whole number of
-- nanoseconds, and `jitter d` for d with the random part of at most a tenth of d added.
unfoldable pub get_delay : RetryConfig → (ℕ → ℕ) → (ℕ → ℕ) → ℕ → ℕ
get_delay c backoff jitter zero = c.base_delay
get_delay c backoff jitter (suc a) =
    let delay = if ltb c.max_delay (backoff (suc a)) then c.max_delay else backoff (suc a) in
    if c.enable_jitter then jitter delay else delay

pub data Failure : Type 0 where
  cancelled : Failure
  gave_up : ℕ → Option BaseError → Failure

-- What Extract returns, with the number of calls that it made and the delays between them.
pub record Outcome : Type 0 where
  pub result : Option ExtractionResult
  pub failure : Option Failure
  pub calls : ℕ
  pub delays : List ℕ

abbrev reason_of : Option BaseError → RetryReason
reason_of none = no_reason
reason_of (some e) = recovered_from e

abbrev pub succeeded : ℕ → Option BaseError → ExtractionResult → ExtractionResult
succeeded attempt last r =
    let m = r.metadata in
    record r {
      metadata = record m {
        attempt_count = some (attempt + 1);
        retry_reason = some (reason_of last);
      };
    }

-- The end of Extract, behind the loop.
abbrev pub give_up : RetryConfig → Reply → ℕ → List ℕ → Outcome
give_up c (none, e) calls delays = record {
  result = none;
  failure = some (gave_up c.max_attempts e);
  calls = calls;
  delays = delays;
}
give_up c (some r, e) calls delays =
    let m = r.metadata in
    record {
      result = some (record r {
        metadata = record m {
          attempt_count = some c.max_attempts;
          retry_reason = some (failed_after c.max_attempts e);
        };
      });
      failure = some (gave_up c.max_attempts e);
      calls = calls;
      delays = delays;
    }

abbrev add_delay : ℕ → Outcome → Outcome
add_delay d o = record o { delays = d ∷ o.delays }

-- What Extract does with an attempt that failed; `next` is what the attempts behind it give.
abbrev pub after_failure : RetryConfig → (ℕ → ℕ) → (ℕ → Bool) → Outcome → ℕ → Reply → Outcome
after_failure c delay stopped next attempt reply =
    let ended : Outcome = record {
      result = none;
      failure = some cancelled;
      calls = attempt + 1;
      delays = delay attempt ∷ [];
    } in
    if not (should_retry c reply.1 (attempt + 1))
    then give_up c reply (attempt + 1) []
    else if ltb attempt (c.max_attempts - 1)
    then (if stopped attempt then ended else add_delay (delay attempt) next)
    else next

abbrev pub succeeded_at : ℕ → Option BaseError → List ℕ → ExtractionResult → Outcome
succeeded_at attempt last delays r = record {
  result = some (succeeded attempt last r);
  failure = none;
  calls = attempt + 1;
  delays = delays;
}

-- A result with no error ends the loop.
abbrev pub is_success : Reply → Option ExtractionResult
is_success (none, e) = none
is_success (some r, some e) = none
is_success (some r, none) = some r

-- The round of an attempt, by whether its reply is a success.
abbrev pub conclude :
    RetryConfig
    → (ℕ → ℕ)
    → (ℕ → Bool)
    → Outcome
    → ℕ
    → Reply
    → Reply
    → Option ExtractionResult
    → Outcome
conclude c delay stopped next attempt last reply none =
    after_failure c delay stopped next attempt reply
conclude c delay stopped next attempt last reply (some r) = succeeded_at attempt last.1 [] r

-- The loop of Extract. `left` is the number of attempts left, `reply` what the call of each attempt
-- returns, `stopped` whether the context ends during the wait behind an attempt, and `last` what the
-- attempt before returned.
unfoldable pub extract_from :
    RetryConfig → (ℕ → ℕ) → (ℕ → Reply) → (ℕ → Bool) → ℕ → ℕ → Reply → Outcome
extract_from c delay reply stopped zero attempt last = give_up c last attempt []
extract_from c delay reply stopped (suc left) attempt last =
    let next = extract_from c delay reply stopped left (attempt + 1) (reply attempt) in
    conclude c delay stopped next attempt last (reply attempt) (is_success (reply attempt))

unfoldable pub extract : RetryConfig → (ℕ → ℕ) → (ℕ → ℕ) → (ℕ → Reply) → (ℕ → Bool) → Outcome
extract c backoff jitter reply stopped =
    extract_from c (get_delay c backoff jitter) reply stopped c.max_attempts 0 (none, none)
