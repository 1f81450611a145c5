-- ===== src/Retry/Degrade.antt =====
-- What the delays and the fallbacks of internal/extractors/retry_fallback.go guarantee.
use ideas.Base.{
  ℕ, zero, suc, ◌+◌, ◌/◌, ◌≤◌, ◌≡◌, refl, ◌↔◌, true, ap, ◌∙◌, List, [], ◌∷◌, none, some,
  if◌then◌else◌, arith, Bool-cases, Option-cases, inl, inr, ◌⊎◌, max,
}
use ideas.Base.Text.{Bytes, contains, to_lower}
use ideas.Retry.Fallback.{
  FallbackConfig, fallback_simplified, fallback_keyword_extraction, returns, panics,
  is_result_acceptable, accepted, fall_back, try_simplified_extraction, try_keyword_extraction,
  keywords, keyword_entities_from, extract_keyword_based_entities, extract_with_fallback, person,
  organization, marked,
}
use ideas.Base.Text.{codes}
use ideas.Retry.Strategy.{RetryConfig, get_delay}
use ideas.Retry.Types.{ExtractedEntity, ExtractionResult, ExtractionInput, Reply}

-- If the jitter adds at most a tenth, no delay is above the base delay or above 11/10 of the maximal
-- delay.
pub get_delay-le :
    (c : RetryConfig) (backoff jitter : ℕ → ℕ) (attempt : ℕ)
    → ((d : ℕ) → jitter d ≤ d + d / 10)
    → get_delay c backoff jitter attempt ≤ max c.base_delay (c.max_delay + c.max_delay / 10)
unfolding get_delay
get_delay-le c backoff jitter zero h = omega arith
get_delay-le c backoff jitter (suc a) h = ground (arith, h c.max_delay, h (backoff (suc a)))

-- The texts of the entities, and the keywords that occur in the document in any case of the letters.
abbrev pub texts : List ExtractedEntity → List Bytes
texts [] = []
texts (e ∷ es) = e.text ∷ texts es

abbrev pub occurring : Bytes → List Bytes → List Bytes
occurring content [] = []
occurring content (k ∷ ks) =
    let rest = occurring content ks in
    if contains (to_lower content) (to_lower k) then k ∷ rest else rest

keyword_texts :
    (content : Bytes) (i : ℕ) (ks : List Bytes)
    → texts (keyword_entities_from content i ks) ≡ occurring content ks
unfolding keyword_entities_from
keyword_texts content i [] = refl
keyword_texts content i (k ∷ ks) = elim (Bool-cases (contains (to_lower content) (to_lower k))) [
  | inl e ↦ rw e (ap (λ ts. k ∷ ts) (keyword_texts content (i + 1) ks))
  | inr e ↦ rw e (keyword_texts content (i + 1) ks)
]

accepted_acceptable :
    (c : FallbackConfig) (x : Reply) (r : ExtractionResult)
    → accepted c x ≡ some r
    → is_result_acceptable c (some r) ≡ true
unfolding is_result_acceptable
accepted_acceptable c (none, none) r h = cc
accepted_acceptable c (none, some e) r h = cc
accepted_acceptable c (some x, some e) r h = cc
accepted_acceptable c (some x, none) r h = ground arith

keyword_answer :
    (c : FallbackConfig) (base : ExtractionInput → Reply) (i : ExtractionInput)
    → c.strategy ≡ fallback_keyword_extraction
    → c.keyword_extraction_enabled ≡ true
    → (r : ExtractionResult) × (fall_back c.strategy c base i ≡ returns (some r) none)
      × (r.entities ≡ extract_keyword_based_entities i.content)
unfolding fall_back try_keyword_extraction
keyword_answer c base i s e = rw (s, e) (_, refl, refl)

keywords_found :
    (content : Bytes) → texts (extract_keyword_based_entities content) ≡ occurring content keywords
unfolding extract_keyword_based_entities
keywords_found content = keyword_texts content 0 keywords

-- With the keyword fallback chosen and enabled an extraction never fails: whatever the extraction
-- function does, a result with no error is returned, either one that is acceptable or one whose
-- entities have as their texts exactly the keywords of the list that occur in the document, in any
-- case of its letters, each once and in the order of the list.
pub extract_with_fallback-keyword :
    (c : FallbackConfig) (base : ExtractionInput → Reply) (i : ExtractionInput)
    → c.strategy ≡ fallback_keyword_extraction
    → c.keyword_extraction_enabled ≡ true
    → (r : ExtractionResult) × (extract_with_fallback c base i ≡ returns (some r) none)
      × ((is_result_acceptable c (some r) ≡ true)
          ⊎ (texts r.entities ≡ occurring i.content keywords))
unfolding extract_with_fallback
extract_with_fallback-keyword c base i s e = elim (Option-cases (accepted c (base i))) [
  | inr (r, a) ↦ (r, rw a, inl (accepted_acceptable c (base i) r a))
  | inl a ↦
      let (r, p, q) = keyword_answer c base i s e in
      (r, rw a p, inr (ap texts q ∙ keywords_found i.content))
]

simplified_input : ExtractionInput → ExtractionInput
simplified_input i = record i {
  analysis_depth = codes "basic";
  required_entity_types = person ∷ organization ∷ codes "LOCATION" ∷ [];
}

marked_panics : (name : Bytes) (x : Reply) → (marked name x ≡ panics) ↔ (x ≡ (none, none))
marked_panics name (none, none) = (λ h. refl, λ h. refl)
marked_panics name (some r, none) = (λ h. cc, λ h. cc)
marked_panics name (none, some e) = (λ h. cc, λ h. cc)
marked_panics name (some r, some e) = (λ h. cc, λ h. cc)

simplified_panics :
    (c : FallbackConfig) (base : ExtractionInput → Reply) (i : ExtractionInput)
    → c.strategy ≡ fallback_simplified
    → c.simplified_prompt_enabled ≡ true
    → (fall_back c.strategy c base i ≡ panics) ↔ (base (simplified_input i) ≡ (none, none))
unfolding fall_back try_simplified_extraction simplified_input
simplified_panics c base i s e = rw (s, e) (marked_panics _ _)

-- With the simplified fallback chosen and enabled, an extraction panics exactly if the result of
-- the first call is not accepted and the second call, with the simplified input, returns neither a
-- result nor an error.
pub extract_with_fallback-panics :
    (c : FallbackConfig) (base : ExtractionInput → Reply) (i : ExtractionInput)
    → c.strategy ≡ fallback_simplified
    → c.simplified_prompt_enabled ≡ true
    → (extract_with_fallback c base i ≡ panics) ↔ (
        (accepted c (base i) ≡ none)
        × (base (record i {
          analysis_depth = codes "basic";
          required_entity_types = person ∷ organization ∷ codes "LOCATION" ∷ [];
        })
            ≡ (none, none)))
unfolding extract_with_fallback simplified_input
extract_with_fallback-panics c base i s e = elim (Option-cases (accepted c (base i))) [
  | inr (r, a) ↦ (λ h. absurd (differ (rw a at h)), λ h. cc)
  | inl a ↦ rw a (
    λ h. (refl, (simplified_panics c base i s e).0 h),
    λ h. (simplified_panics c base i s e).1 h.1,
  )
]
  where
    differ : {r : ExtractionResult} → returns (some r) none ≡ panics → ⊥
    differ h = cc
