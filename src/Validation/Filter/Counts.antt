-- ===== src/Validation/Filter/Counts.antt =====
-- How the numbers of ValidateAndFilterEntities (internal/extractors/entity_validator.go) add up.
use ideas.Base.{
  ℕ, ◌+◌, ◌-◌, ◌≤◌, ◌≡◌, refl, sym, ◌∙◌, Bool, true, false, ◌&&◌, List, [], ◌∷◌, Option, none, some,
  length, length-append, length-take, arith, ltb, Bool-cases, inl, inr, min,
}
use ideas.Base.Text.{Bytes}
use ideas.Validation.Types.{ExtractedEntity, EntityValidator, SingleResult}
use ideas.Validation.Single.{validate_single_entity}
use ideas.Validation.Unique.Agrees.{deduplicate_entities-put_all}
use ideas.Validation.Order.{
  sort_entities_by_confidence, sort_entities_by_confidence-Descends, count_if,
}
use ideas.Validation.Filter.{
  Filtering, on_result, accepts, filter_step, filter_from, deduplicate_if, limit_to,
  finish_filtering, nothing_filtered, validate_and_filter_entities,
}

count_if_all : (es : List ExtractedEntity) → count_if (λ (e : ExtractedEntity). true) es ≡ length es
count_if_all [] = refl
count_if_all (e ∷ es) = omega (arith, count_if_all es)

length-sort : (es : List ExtractedEntity) → length (sort_entities_by_confidence es) ≡ length es
length-sort es =
    sym (count_if_all (sort_entities_by_confidence es))
    ∙ ((sort_entities_by_confidence-Descends es).1 (λ e. true) ∙ count_if_all es)

length-limit_to :
    (most : ℕ) (es : List ExtractedEntity) → length (limit_to most es) ≡ min most (length es)
unfolding limit_to
length-limit_to most es = elim (Bool-cases (ltb most (length es))) [
  | inl t ↦ rw t (omega (arith, length-take most (sort_entities_by_confidence es), length-sort es))
  | inr t ↦ rw t (ground (arith, t))
]

length-deduplicate_if :
    (ev : EntityValidator) (es : List ExtractedEntity)
    → length (deduplicate_if ev es).0 + (deduplicate_if ev es).1 ≡ length es
unfolding deduplicate_if
length-deduplicate_if ev es = elim (Bool-cases (ev.enable_deduplication && ltb 1 (length es))) [
  | inl t ↦ rw t ((deduplicate_entities-put_all es).1)
  | inr t ↦ rw t (omega arith)
]

-- Every entity seen is valid or counted as invalid, with one error each.
abbrev Counted : ℕ → Filtering → Type 0
Counted n f =
    (length f.valid_entities + f.invalid_entities ≡ n) × (length f.errors ≡ f.invalid_entities)

on_result-Counted :
    (i n : ℕ) (e : ExtractedEntity) (r : SingleResult) (f : Filtering) (b : Bool)
    → Counted n f
    → Counted (n + 1) (on_result i e r f b)
on_result-Counted i n e r f true h = (omega (arith, h.0, length-append {0}), h.1)
on_result-Counted i n e r f false h = (omega (arith, h.0), omega (arith, h.1, length-append {0}))

module _ (time_parse : Bytes → Bytes → Bool) (ev : EntityValidator) (content : Bytes) where
  filter_step-Counted :
      (i n : ℕ) (e : Option ExtractedEntity) (f : Filtering)
      → Counted n f
      → Counted (n + 1) (filter_step time_parse ev content i e f)
  unfolding filter_step
  filter_step-Counted i n none f h = (omega (arith, h.0), omega (arith, h.1, length-append {0}))
  filter_step-Counted i n (some e) f h =
      let r = validate_single_entity time_parse ev e content in
      on_result-Counted i n r.0 r.1 f (accepts ev r.1) h

  filter_from-Counted :
      (i n : ℕ) (es : List (Option ExtractedEntity)) (f : Filtering)
      → Counted n f
      → Counted (n + length es) (filter_from time_parse ev content i es f)
  unfolding filter_from
  filter_from-Counted i n [] f h = (omega (arith, h.0), h.1)
  filter_from-Counted i n (e ∷ es) f h =
      let (p, q) =
        filter_from-Counted (i + 1) (n + 1) es (filter_step time_parse ev content i e f)
          (filter_step-Counted i n e f h) in
      (omega (arith, p), q)

-- No more than MaxEntities entities are returned; they are as many as the given ones less the invalid ones
-- and the duplicates, up to that bound; the count of the result is theirs, and each invalid entity has one error.
pub validate_and_filter_entities-counts :
    (time_parse : Bytes → Bytes → Bool) (ev : EntityValidator) (es : List (Option ExtractedEntity))
    (content : Bytes)
    → let (kept, result) = validate_and_filter_entities time_parse ev es content in
      (length kept
        ≡ min ev.max_entities (length es - result.invalid_entities - result.duplicates_found))
      × (result.invalid_entities + result.duplicates_found ≤ length es)
      × (result.entity_count ≡ length kept)
      × (length result.errors ≡ result.invalid_entities)
unfolding validate_and_filter_entities finish_filtering
validate_and_filter_entities-counts time_parse ev [] content =
    (omega arith, omega arith, refl, refl)
validate_and_filter_entities-counts time_parse ev (e ∷ es) content =
    let f = filter_from time_parse ev content 0 (e ∷ es) nothing_filtered in
    let (p, q) =
      filter_from-Counted time_parse ev content 0 0 (e ∷ es) nothing_filtered (refl, refl) in
    let d = length-deduplicate_if ev f.valid_entities in
    (
      omega (arith, p, d, length-limit_to ev.max_entities (deduplicate_if ev f.valid_entities).0),
      omega (arith, p, d),
      refl,
      q,
    )
