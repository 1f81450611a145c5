-- ===== src/Retry/Attempts.antt =====
-- Which attempts RetryableExtractor.Extract of internal/extractors/retry_fallback.go makes.
use ideas.Base.{
  ℕ, zero, suc, ◌+◌, ◌-◌, ◌≤◌, ◌<◌, ◌≡◌, refl, ap, ◌∙◌, Bool, true, false, List, [], ◌∷◌, ◌++◌,
  Option, none, some, arith, lt→ltb,
}
use ideas.Retry.Strategy.{
  RetryConfig, should_retry, get_delay, Outcome, gave_up, give_up, succeeded_at, is_success,
  extract_from, extract,
}
use mathlib.Core.List.{append-nil}
use ideas.Retry.Types.{
  BaseError, RetryReason, no_reason, recovered_from, failed_after, ExtractionResult, Reply,
}

-- The attempts from `a` on, `n` of them, failed with an error that is tried again, and the context
-- lived on through the waits behind them.
abbrev pub Retried : RetryConfig → (ℕ → Reply) → (ℕ → Bool) → ℕ → ℕ → Type 0
Retried c reply stopped a zero = Unit {0}
Retried c reply stopped a (suc n) =
    (is_success (reply a) ≡ none)
    × (should_retry c (reply a).1 (a + 1) ≡ true)
    × (stopped a ≡ false)
    × Retried c reply stopped (a + 1) n

-- The delays behind the attempts from `a` on, `n` of them.
abbrev pub delays_from : (ℕ → ℕ) → ℕ → ℕ → List ℕ
delays_from delay a zero = []
delays_from delay a (suc n) = delay a ∷ delays_from delay (a + 1) n

-- What the attempt before attempt `a + n` returned.
abbrev pub before : (ℕ → Reply) → ℕ → ℕ → Reply → Reply
before reply a zero last = last
before reply a (suc n) last = before reply (a + 1) n (reply a)

-- The reason that a success at attempt `k` gives: the error of the attempt before it.
abbrev reason_of_error : Option BaseError → RetryReason
reason_of_error none = no_reason
reason_of_error (some e) = recovered_from e

abbrev pub reason_before : (ℕ → Reply) → ℕ → RetryReason
reason_before reply zero = no_reason
reason_before reply (suc j) = reason_of_error (reply j).1

before-suc :
    (reply : ℕ → Reply) (a n b : ℕ) (last : Reply)
    → b ≡ a + n
    → before reply a (suc n) last ≡ reply b
before-suc reply a zero b last h = ap reply (omega (arith, h))
before-suc reply a (suc n) b last h = before-suc reply (a + 1) n b (reply a) (omega (arith, h))

reason_before-before :
    (reply : ℕ → Reply) (k : ℕ)
    → reason_of_error (before reply 0 k (none, none)).1 ≡ reason_before reply k
reason_before-before reply zero = refl
reason_before-before reply (suc j) =
    ap (λ (x : Reply). reason_of_error x.1) (before-suc reply 0 j j (none, none) (omega arith))

-- What is returned of a result that came with an error, once Extract gives up.
abbrev pub blamed : ℕ → Option BaseError → Option ExtractionResult → Option ExtractionResult
blamed attempts e none = none
blamed attempts e (some r) =
    let m = r.metadata in
    some (record r {
      metadata = record m {
        attempt_count = some attempts;
        retry_reason = some (failed_after attempts e);
      };
    })

abbrev add_delays : List ℕ → Outcome → Outcome
add_delays ds o = record o { delays = ds ++ o.delays }

give_up-calls :
    (c : RetryConfig) (r : Reply) (n : ℕ) (ds : List ℕ)
    → ((give_up c r n ds).calls ≡ n) × ((give_up c r n ds).delays ≡ ds)
give_up-calls c (none, e) n ds = (refl, refl)
give_up-calls c (some r, e) n ds = (refl, refl)

give_up-parts :
    (c : RetryConfig) (x : Reply) (n : ℕ)
    → ((give_up c x n []).failure ≡ some (gave_up c.max_attempts x.1))
      × ((give_up c x n []).result ≡ blamed c.max_attempts x.1 x.0)
give_up-parts c (none, e) n = (refl, refl)
give_up-parts c (some r, e) n = (refl, refl)

should_retry-lt :
    (c : RetryConfig) (e : Option BaseError) (n : ℕ)
    → should_retry c e n ≡ true
    → n < c.max_attempts
unfolding should_retry
should_retry-lt c none n h = absurd (ground arith)
should_retry-lt c (some e) n h = ground arith

module _ (c : RetryConfig) (delay : ℕ → ℕ) (reply : ℕ → Reply) (stopped : ℕ → Bool) where
  calls_bound :
      (left attempt : ℕ) (last : Reply)
      → (extract_from c delay reply stopped left attempt last).calls ≤ attempt + left
  unfolding extract_from
  calls_bound zero attempt last = omega (arith, (give_up-calls c last attempt []).0)
  calls_bound (suc left) attempt last = ground (
    arith,
    calls_bound left (attempt + 1) (reply attempt),
    (give_up-calls c (reply attempt) (attempt + 1) []).0,
  )

  retried_once :
      (left a : ℕ) (last : Reply)
      → is_success (reply a) ≡ none
      → should_retry c (reply a).1 (a + 1) ≡ true
      → stopped a ≡ false
      → extract_from c delay reply stopped (suc left) a last
        ≡ add_delays (delay a ∷ []) (extract_from c delay reply stopped left (a + 1) (reply a))
  unfolding extract_from
  retried_once left a last p q r = rw (
    p,
    q,
    lt→ltb a (c.max_attempts - 1) (omega (arith, should_retry-lt c (reply a).1 (a + 1) q)),
    r,
  )

  Retried-many :
      (n left a : ℕ) (last : Reply) {m b : ℕ}
      → Retried c reply stopped a n
      → m ≡ n + left
      → b ≡ a + n
      → extract_from c delay reply stopped m a last
        ≡ add_delays
            (delays_from delay a n)
            (extract_from c delay reply stopped left b (before reply a n last))
  Retried-many zero left a last {m = m} {b = b} h p q =
      let p' : m ≡ left = omega arith in let q' : b ≡ a = omega arith in rw (p', q')
  Retried-many (suc n) left a last {m = zero} h p q = absurd (omega arith)
  Retried-many (suc n) left a last {m = suc m} {b = b} h p q =
      retried_once m a last h.0 h.1 h.2
      ∙ ap (add_delays (delay a ∷ []))
          (Retried-many n left (a + 1) (reply a) {m = m} {b = b} h.3 (omega arith) (omega arith))

  succeeds :
      (left a : ℕ) (last : Reply) (r : ExtractionResult)
      → is_success (reply a) ≡ some r
      → extract_from c delay reply stopped (suc left) a last ≡ succeeded_at a last.1 [] r
  unfolding extract_from
  succeeds left a last r p = rw p

  fails :
      (left a : ℕ) (last : Reply)
      → is_success (reply a) ≡ none
      → should_retry c (reply a).1 (a + 1) ≡ false
      → extract_from c delay reply stopped (suc left) a last ≡ give_up c (reply a) (a + 1) []
  unfolding extract_from
  fails left a last p q = rw (p, q)

module _ (c : RetryConfig) (backoff jitter : ℕ → ℕ) (reply : ℕ → Reply) (stopped : ℕ → Bool) where
  -- The extraction function is called at most `max_attempts` times.
  pub extract-calls : (extract c backoff jitter reply stopped).calls ≤ c.max_attempts
  unfolding extract
  extract-calls = omega (
    arith,
    calls_bound c (get_delay c backoff jitter) reply stopped c.max_attempts 0 (none, none),
  )

  -- If the first `k` attempts fail with errors that are tried again, and the next succeeds, its result is returned
  -- with no error after k + 1 calls and the k delays between them. In its metadata the number of attempts is k + 1, and
  -- the reason is the error of the attempt before, or none at the first attempt; all else is as the call gave it.
  pub extract-success :
      (k : ℕ) (r : ExtractionResult)
      → k < c.max_attempts
      → Retried c reply stopped 0 k
      → is_success (reply k) ≡ some r
      → let o = extract c backoff jitter reply stopped in
        let m = r.metadata in
        (o.result
          ≡ some (record r {
            metadata = record m {
              attempt_count = some (k + 1);
              retry_reason = some (reason_before reply k);
            };
          }))
        × (o.failure ≡ none)
        × (o.calls ≡ k + 1)
        × (o.delays ≡ delays_from (get_delay c backoff jitter) 0 k)
  unfolding extract
  extract-success k r h p q =
      let delay = get_delay c backoff jitter in
      let whole =
        Retried-many c delay reply stopped k (suc (c.max_attempts - k - 1)) 0 (none, none) {b = k} p
          (omega arith) (omega arith)
        ∙ ap (add_delays (delays_from delay 0 k))
            (succeeds c delay reply stopped (c.max_attempts - k - 1) k _ r q) in
      let m = r.metadata in
      (
        ap (λ (o : Outcome). o.result) whole
            ∙ ap
                (λ (x : RetryReason). some (record r {
                  metadata = record m { attempt_count = some (k + 1); retry_reason = some x };
                }))
                (reason_before-before reply k),
        ap (λ (o : Outcome). o.failure) whole,
        ap (λ (o : Outcome). o.calls) whole,
        ap (λ (o : Outcome). o.delays) whole ∙ append-nil _,
      )

  -- If the first `k` attempts fail with errors that are tried again, and the next with one that is not, there is no
  -- further call: k + 1 calls and k delays are made. The error returned has the last error, but speaks of
  -- `max_attempts` attempts, and so does the metadata of the result, if the last call gave one.
  pub extract-gives_up :
      (k : ℕ)
      → k < c.max_attempts
      → Retried c reply stopped 0 k
      → is_success (reply k) ≡ none
      → should_retry c (reply k).1 (k + 1) ≡ false
      → let o = extract c backoff jitter reply stopped in
        (o.calls ≡ k + 1)
        × (o.delays ≡ delays_from (get_delay c backoff jitter) 0 k)
        × (o.failure ≡ some (gave_up c.max_attempts (reply k).1))
        × (o.result ≡ blamed c.max_attempts (reply k).1 (reply k).0)
  unfolding extract
  extract-gives_up k h p q s =
      let delay = get_delay c backoff jitter in
      let whole =
        Retried-many c delay reply stopped k (suc (c.max_attempts - k - 1)) 0 (none, none) {b = k} p
          (omega arith) (omega arith)
        ∙ ap (add_delays (delays_from delay 0 k))
            (fails c delay reply stopped (c.max_attempts - k - 1) k _ q s) in
      let parts = give_up-parts c (reply k) (k + 1) in
      (
        ap (λ (o : Outcome). o.calls) whole ∙ (give_up-calls c (reply k) (k + 1) []).0,
        ap (λ (o : Outcome). o.delays) whole
            ∙ ap (λ ds. delays_from delay 0 k ++ ds) (give_up-calls c (reply k) (k + 1) []).1
            ∙ append-nil _,
        ap (λ (o : Outcome). o.failure) whole ∙ parts.0,
        ap (λ (o : Outcome). o.result) whole ∙ parts.1,
      )
