-- ===== src/Response/Retry.antt =====
-- What the repetition of ProcessResponseWithRetry, internal/extractors/response_processor.go, brings.
use ideas.Base.{
  ℕ, zero, suc, ◌+◌, ◌≡◌, refl, sym, ap, ◌∙◌, true, false, ◌&&◌, [], ◌∷◌, none, Bool-cases, inl,
  inr, if◌then◌else◌,
}
use ideas.Base.Text.{Bytes}
use ideas.Response.Types.{ExtractionRequest, ResponseProcessor, Reply, all_failed}
use ideas.Response.Process.{
  Outside, started, process_response, should_retry, is_none, all_attempts_failed, attempt_from,
  retry_up_to, process_response_with_retry,
}

-- The reply of one attempt, marked with its number or with the number of attempts allowed, and for no
-- attempt a failure with no error.
abbrev pub after_one : ResponseProcessor → Reply → ℕ → Reply
after_one rp reply zero = (record started { attempts_used = 0; errors = all_failed ∷ [] }, none)
after_one rp reply (suc n) =
    let r = reply.0 in
    if is_none reply.1 && r.success
    then (record r { attempts_used = 1 }, none)
    else (record r { attempts_used = suc n }, reply.1)

module _ (o : Outside) (rp : ResponseProcessor) (raw content : Bytes) (q : ExtractionRequest) where
  attempt_from-failed :
      (attempt left : ℕ)
      → (let (r, e) = process_response o rp raw content q none in (is_none e && r.success) ≡ false)
      → attempt_from o rp raw content q (λ a. none) attempt left
        ≡ all_attempts_failed rp (process_response o rp raw content q none)
  unfolding attempt_from
  attempt_from-failed attempt zero h = rw h refl
  attempt_from-failed attempt (suc left) h =
      let (r, e) = process_response o rp raw content q none in
      elim (Bool-cases (should_retry rp e r)) [
        | inl t ↦ rw (h, t) (attempt_from-failed (attempt + 1) left h)
        | inr t ↦ rw (h, t) refl
      ]

  attempt_from-first :
      (left : ℕ)
      → attempt_from o rp raw content q (λ a. none) 1 left ≡ (
          let (r, e) = process_response o rp raw content q none in
          if is_none e && r.success
          then (record r { attempts_used = 1 }, none)
          else all_attempts_failed rp (r, e))
  unfolding attempt_from
  attempt_from-first left =
      let (r, e) = process_response o rp raw content q none in
      elim (Bool-cases (is_none e && r.success)) [
        | inl t ↦ first_succeeds left t
        | inr t ↦ rw t (attempt_from-failed 1 left t)
      ]
    where
      first_succeeds :
          (left : ℕ)
          → (let (r, e) = process_response o rp raw content q none in
              (is_none e && r.success) ≡ true)
          → attempt_from o rp raw content q (λ a. none) 1 left ≡ (
              let (r, e) = process_response o rp raw content q none in
              if is_none e && r.success
              then (record r { attempts_used = 1 }, none)
              else all_attempts_failed rp (r, e))
      first_succeeds zero t = rw t refl
      first_succeeds (suc left) t = rw t refl

-- With a context that stays alive, ProcessResponseWithRetry returns what a single attempt returns: on success
-- it is marked as the first attempt, otherwise it is the failure of the first attempt marked with the number
-- of attempts allowed, and with no attempt allowed it is a failure that has no error.
pub process_response_with_retry-after_one :
    (o : Outside) (rp : ResponseProcessor) (raw content : Bytes) (q : ExtractionRequest)
    → process_response_with_retry o rp raw content q (λ a. none)
      ≡ after_one rp (process_response o rp raw content q none) rp.max_retries
unfolding process_response_with_retry
process_response_with_retry-after_one o rp raw content q = by_count rp.max_retries refl
  where
    by_count :
        (n : ℕ)
        → n ≡ rp.max_retries
        → retry_up_to o rp raw content q (λ a. none) n
          ≡ after_one rp (process_response o rp raw content q none) n
    by_count zero h =
        ap (λ (k : ℕ). (record started { attempts_used = k; errors = all_failed ∷ [] }, none))
          (sym h)
    by_count (suc n) h =
        attempt_from-first o rp raw content q n
        ∙ ap
            (λ k.
              let (r, e) = process_response o rp raw content q none in
              if is_none e && r.success
              then (record r { attempts_used = 1 }, none)
              else (record r { attempts_used = k }, e))
            (sym h)
