-- ===== src/Validation/Filter/Strict.antt =====
-- The strict mode of internal/extractors/entity_validator.go.
use ideas.Base.{
  ℕ, ◌+◌, ◌≡◌, refl, sym, ap, ◌∙◌, Bool, List, [], ◌∷◌, Option, none, some, length, arith,
}
use ideas.Base.Text.{Bytes}
use ideas.Validation.Types.{ExtractedEntity, EntityValidator, SingleResult, with_strict_mode}
use ideas.Validation.Single.{
  check_type, check_confidence, check_offsets, validate_single_entity, can_auto_fix,
}
use ideas.Validation.Passes.{IsHonest, validate_single_entity-IsHonest}
use ideas.Validation.Filter.{
  accepts, Filtering, on_result, filter_step, filter_from, finish_filtering, nothing_filtered,
  validate_and_filter_entities,
}

-- Errors alone decide whether an entity is accepted: a result that can be fixed has none, and is valid.
pub accepts-IsHonest :
    (ev : EntityValidator) (r : SingleResult) → IsHonest r → accepts ev r ≡ r.is_valid
unfolding accepts can_auto_fix
accepts-IsHonest ev r h = ground (arith, h)

module _ (time_parse : Bytes → Bytes → Bool) (ev : EntityValidator) (content : Bytes)
    (strict : Bool) where
  filter_step-strict :
      (i : ℕ) (e : Option ExtractedEntity) (f : Filtering)
      → filter_step time_parse (with_strict_mode strict ev) content i e f
        ≡ filter_step time_parse ev content i e f
  unfolding filter_step check_type check_confidence check_offsets
  filter_step-strict i none f = refl
  filter_step-strict i (some e) f =
      let r = validate_single_entity time_parse ev e content in
      let honest = validate_single_entity-IsHonest time_parse ev e content in
      ap (on_result i r.0 r.1 f) (
        accepts-IsHonest (with_strict_mode strict ev) r.1 honest
        ∙ sym (accepts-IsHonest ev r.1 honest))

  filter_from-strict :
      (i : ℕ) (es : List (Option ExtractedEntity)) (f : Filtering)
      → filter_from time_parse (with_strict_mode strict ev) content i es f
        ≡ filter_from time_parse ev content i es f
  unfolding filter_from
  filter_from-strict i [] f = refl
  filter_from-strict i (e ∷ es) f =
      ap (filter_from time_parse (with_strict_mode strict ev) content (i + 1) es)
        (filter_step-strict i e f)
      ∙ filter_from-strict (i + 1) es (filter_step time_parse ev content i e f)

-- The strict mode changes nothing: ValidateAndFilterEntities returns the same entities and the same result
-- whether it is on or off.
pub validate_and_filter_entities-strict_mode :
    (time_parse : Bytes → Bytes → Bool) (ev : EntityValidator) (strict : Bool)
    (es : List (Option ExtractedEntity)) (content : Bytes)
    → validate_and_filter_entities time_parse (with_strict_mode strict ev) es content
      ≡ validate_and_filter_entities time_parse ev es content
unfolding validate_and_filter_entities
validate_and_filter_entities-strict_mode time_parse ev strict [] content = refl
validate_and_filter_entities-strict_mode time_parse ev strict (e ∷ es) content =
    ap (finish_filtering ev (length (e ∷ es)))
      (filter_from-strict time_parse ev content strict 0 (e ∷ es) nothing_filtered)
