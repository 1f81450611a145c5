-- ===== src/Validation/Passes.antt =====
-- When validateSingleEntity of internal/extractors/entity_validator.go accepts an entity.
use ideas.Base.{
  ◌≡◌, refl, sym, ◌∙◌, Bool, true, false, not, ◌&&◌, ◌||◌, List, [], ◌∷◌, ◌++◌, length, arith,
}
use ideas.Base.Int.{ℤ, pos, leb_ℤ, ltb_ℤ}
use ideas.Base.Text.{Bytes, elem_bytes}
use ideas.Cleaner.Clean.{is_empty}
use ideas.Validation.Types.{
  Issue, text_is_empty, type_is_empty, invalid_type, below_threshold, negative_start,
  end_not_after_start, end_exceeds_document, ExtractedEntity, EntityValidator, SingleResult,
}
use ideas.Validation.Single.{
  reject, clamp_confidence, check_type, check_confidence, check_offsets, validate_single_entity,
  is_nil, new_result,
}

reject-is_valid :
    (b : Bool) (i : Issue) (r : SingleResult) → (reject b i r).is_valid ≡ (not b && r.is_valid)
reject-is_valid true i r = refl
reject-is_valid false i r = refl

turn : (a b : ℤ) → not (ltb_ℤ a b) ≡ leb_ℤ b a
turn a b = ground arith

turn_le : (a b : ℤ) → not (leb_ℤ a b) ≡ ltb_ℤ b a
turn_le a b = ground arith

ap₄ {ℓ} :
    {A : Type ℓ} (f : Bool → Bool → Bool → Bool → A) {a b c d a' b' c' d' : Bool}
    → a ≡ a'
    → b ≡ b'
    → c ≡ c'
    → d ≡ d'
    → f a b c d ≡ f a' b' c' d'
ap₄ f p q r s = λ i. f (p i) (q i) (r i) (s i)

shuffle :
    (text kind typed known low on neg back long : Bool)
    → (not (on && long)
        && (not (on && back)
            && (not (on && neg)
                && (not low
                    && (not (typed && (not kind && not known))
                        && (not kind && (not text && true)))))))
      ≡ (not text
          && (not kind
              && ((not typed || known)
                  && (not low && (not on || (not neg && (not back && not long)))))))
shuffle text kind typed known low on neg back long = ground arith

-- A result is valid exactly if it has no errors.
abbrev pub IsHonest : SingleResult → Type 0
IsHonest r = r.is_valid ≡ is_nil r.errors

is_nil-snoc : (xs : List Issue) (i : Issue) → is_nil (xs ++ (i ∷ [])) ≡ false
is_nil-snoc [] i = refl
is_nil-snoc (x ∷ xs) i = refl

reject-IsHonest : (b : Bool) (i : Issue) (r : SingleResult) → IsHonest r → IsHonest (reject b i r)
reject-IsHonest true i r h = sym (is_nil-snoc r.errors i)
reject-IsHonest false i r h = h

module _ (ev : EntityValidator) (e : ExtractedEntity) where
  check_type-IsHonest : (r : SingleResult) → IsHonest r → IsHonest (check_type ev e r)
  unfolding check_type
  check_type-IsHonest r h =
      let r1 = reject (is_empty e.text) text_is_empty r in
      let r2 = reject (is_empty e.entity_type) type_is_empty r1 in
      reject-IsHonest _ invalid_type r2
        (reject-IsHonest _ type_is_empty r1 (reject-IsHonest _ text_is_empty r h))

  check_type-is_valid :
      (r : SingleResult)
      → (check_type ev e r).is_valid ≡ (
          not (
            ev.validate_types
            && (not (is_empty e.entity_type) && not (elem_bytes e.entity_type ev.allowed_types)))
          && (not (is_empty e.entity_type) && (not (is_empty e.text) && r.is_valid)))
  unfolding check_type
  check_type-is_valid r = simp reject-is_valid

  check_offsets-IsHonest :
      (content : Bytes) (r : SingleResult) → IsHonest r → IsHonest (check_offsets ev e content r)
  unfolding check_offsets
  check_offsets-IsHonest content r h =
      let on = ev.validate_offsets && not (is_empty content) in
      let r1 = reject (on && ltb_ℤ e.start_offset (pos 0)) negative_start r in
      let r2 = reject (on && leb_ℤ e.end_offset e.start_offset) end_not_after_start r1 in
      reject-IsHonest _ end_exceeds_document r2
        (reject-IsHonest _ end_not_after_start r1 (reject-IsHonest _ negative_start r h))

  check_offsets-is_valid :
      (content : Bytes) (r : SingleResult)
      → let on = ev.validate_offsets && not (is_empty content) in
        (check_offsets ev e content r).is_valid ≡ (
          not (on && ltb_ℤ (pos (length content)) e.end_offset)
          && (not (on && leb_ℤ e.end_offset e.start_offset)
              && (not (on && ltb_ℤ e.start_offset (pos 0)) && r.is_valid)))
  unfolding check_offsets
  check_offsets-is_valid content r = simp reject-is_valid

module _ (time_parse : Bytes → Bytes → Bool) (ev : EntityValidator) (e : ExtractedEntity)
    (content : Bytes) where
  pub validate_single_entity-IsHonest :
      IsHonest ((validate_single_entity time_parse ev e content).1)
  unfolding validate_single_entity check_confidence
  validate_single_entity-IsHonest =
      check_offsets-IsHonest ev e content (check_confidence ev e (check_type ev e new_result))
        (reject-IsHonest _ below_threshold _ (check_type-IsHonest ev e new_result refl))

  -- The conditions on an entity, one after the other.
  abbrev pub passes : Bool
  passes =
      not (is_empty e.text)
      && (not (is_empty e.entity_type)
          && ((not ev.validate_types || elem_bytes e.entity_type ev.allowed_types)
              && (leb_ℤ ev.min_confidence (clamp_confidence e.confidence)
                  && (not (ev.validate_offsets && not (is_empty content))
                      || (leb_ℤ (pos 0) e.start_offset
                          && (ltb_ℤ e.start_offset e.end_offset
                              && leb_ℤ e.end_offset (pos (length content))))))))

  pub validate_single_entity-passes :
      (validate_single_entity time_parse ev e content).1.is_valid ≡ passes
  unfolding validate_single_entity check_confidence
  validate_single_entity-passes =
      simp (check_offsets-is_valid, reject-is_valid, check_type-is_valid)
        (shuffle (is_empty e.text) (is_empty e.entity_type) ev.validate_types
            (elem_bytes e.entity_type ev.allowed_types)
            (ltb_ℤ (clamp_confidence e.confidence) ev.min_confidence)
            (ev.validate_offsets && not (is_empty content)) (ltb_ℤ e.start_offset (pos 0))
            (leb_ℤ e.end_offset e.start_offset) (ltb_ℤ (pos (length content)) e.end_offset)
          ∙ ap₄
              (λ a b c d.
                not (is_empty e.text)
                && (not (is_empty e.entity_type)
                    && ((not ev.validate_types || elem_bytes e.entity_type ev.allowed_types)
                        && (a
                            && (not (ev.validate_offsets && not (is_empty content))
                                || (b && (c && d)))))))
              (turn (clamp_confidence e.confidence) ev.min_confidence) (turn e.start_offset (pos 0))
              (turn_le e.end_offset e.start_offset) (turn (pos (length content)) e.end_offset))
