-- ===== src/Validation/Filter/Distinct.antt =====
-- sortEntitiesByConfidence and the limit of internal/extractors/entity_validator.go keep one entity for each key.
use ideas.Base.TextLaws.{bytes_eq_sym}
use ideas.Base.{
  ℕ, zero, suc, ◌-◌, ◌≡◌, ◌∙◌, false, List, [], ◌∷◌, All, length, take, Bool-cases, inl, inr, ltb,
}
use ideas.Validation.Types.{ExtractedEntity}
use ideas.Validation.Unique.{get_duplication_key}
use ideas.Validation.Unique.Best.{OnePerKey, same_key}
use ideas.Validation.Order.{
  lower, bubble, bubbles, sort_entities_by_confidence, bubble-All, sort_entities_by_confidence-All,
}
use ideas.Validation.Filter.{limit_to}

bubble-OnePerKey : (n : ℕ) (es : List ExtractedEntity) → OnePerKey es → OnePerKey (bubble n es)
unfolding bubble
bubble-OnePerKey zero es h = h
bubble-OnePerKey (suc n) [] h = h
bubble-OnePerKey (suc n) (d ∷ []) h = h
bubble-OnePerKey (suc n) (d ∷ e ∷ es) h = elim (Bool-cases (lower d e)) [
  | inl t ↦
      let turned : same_key e d ≡ false =
        bytes_eq_sym (get_duplication_key e) (get_duplication_key d) ∙ h.0.0 in
      rw t (
        bubble-All (λ (v : ExtractedEntity). same_key e v ≡ false) n (d ∷ es) (turned, h.1.0),
        bubble-OnePerKey n (d ∷ es) (h.0.1, h.1.1),
      )
  | inr t ↦ rw t (
    bubble-All (λ (v : ExtractedEntity). same_key d v ≡ false) n (e ∷ es) h.0,
    bubble-OnePerKey n (e ∷ es) h.1,
  )
]

bubbles-OnePerKey : (n : ℕ) (es : List ExtractedEntity) → OnePerKey es → OnePerKey (bubbles n es)
unfolding bubbles
bubbles-OnePerKey zero es h = h
bubbles-OnePerKey (suc n) es h =
    bubbles-OnePerKey n (bubble (suc n) es) (bubble-OnePerKey (suc n) es h)

pub take-All {ℓ} :
    (P : ExtractedEntity → Type ℓ) (n : ℕ) (es : List ExtractedEntity)
    → All P es
    → All P (take n es)
take-All P zero es h = tt
take-All P (suc n) [] h = tt
take-All P (suc n) (e ∷ es) h = (h.0, take-All P n es h.1)

take-OnePerKey : (n : ℕ) (es : List ExtractedEntity) → OnePerKey es → OnePerKey (take n es)
take-OnePerKey zero es h = tt
take-OnePerKey (suc n) [] h = tt
take-OnePerKey (suc n) (e ∷ es) h =
    (take-All (λ (v : ExtractedEntity). same_key e v ≡ false) n es h.0, take-OnePerKey n es h.1)

pub limit_to-OnePerKey :
    (most : ℕ) (es : List ExtractedEntity) → OnePerKey es → OnePerKey (limit_to most es)
unfolding limit_to sort_entities_by_confidence
limit_to-OnePerKey most es h = elim (Bool-cases (ltb most (length es))) [
  | inl t ↦
      rw t
        (take-OnePerKey most (bubbles (length es - 1) es) (bubbles-OnePerKey (length es - 1) es h))
  | inr t ↦ rw t h
]

pub limit_to-All {ℓ} :
    (P : ExtractedEntity → Type ℓ) (most : ℕ) (es : List ExtractedEntity)
    → All P es
    → All P (limit_to most es)
unfolding limit_to
limit_to-All P most es h = elim (Bool-cases (ltb most (length es))) [
  | inl t ↦
      rw t
        (take-All P most (sort_entities_by_confidence es) (sort_entities_by_confidence-All P es h))
  | inr t ↦ rw t h
]
