-- ===== src/Validation/Filter/Kept.antt =====
-- What ValidateAndFilterEntities (internal/extractors/entity_validator.go) promises of each entity it returns.
use ideas.Base.{
  ℕ, ◌+◌, ◌≡◌, refl, sym, ◌∙◌, Bool, true, false, not, ◌&&◌, List, [], ◌∷◌, ◌++◌, Option, none,
  some, length, All, arith, ltb, Bool-cases, inl, inr, subst,
}
use ideas.Base.Int.{ℤ, pos, ◌≤ℤ◌, ltb_ℤ}
use ideas.Base.Text.{Bytes, elem_bytes}
use ideas.Cleaner.Clean.{is_empty}
use ideas.Validation.Types.{ExtractedEntity, EntityValidator, SingleResult}
use ideas.Validation.Single.{validate_single_entity, clamp_confidence, auto_fix_entity}
use ideas.Validation.Passes.{passes, validate_single_entity-IsHonest, validate_single_entity-passes}
use ideas.Validation.Unique.Best.{OnePerKey, put_all-All}
use ideas.Validation.Unique.Agrees.{deduplicate_entities-put_all, deduplicate_entities-OnePerKey}
use ideas.Validation.Filter.{
  Filtering, on_result, accepts, filter_step, filter_from, deduplicate_if, finish_filtering,
  nothing_filtered, validate_and_filter_entities,
}
use ideas.Validation.Filter.Strict.{accepts-IsHonest}
use ideas.Validation.Filter.Distinct.{limit_to-OnePerKey, limit_to-All}

-- The promise: a type that is allowed, a confidence from 0 to 1 that is not under the least, offsets
-- within the document, and the flag set.
pub record Kept (ev : EntityValidator) (content : Bytes) (e : ExtractedEntity) : Type 0 where
  pub typed : is_empty e.entity_type ≡ false
  pub allowed : ev.validate_types ≡ true → elem_bytes e.entity_type ev.allowed_types ≡ true
  pub confident : ev.min_confidence ≤ℤ e.confidence
  pub not_negative : pos 0 ≤ℤ e.confidence
  pub at_most_one : e.confidence ≤ℤ pos 1000
  pub placed :
      (ev.validate_offsets && not (is_empty content)) ≡ true
      → (pos 0 ≤ℤ e.start_offset)
        × (ltb_ℤ e.start_offset e.end_offset ≡ true)
        × (e.end_offset ≤ℤ pos (length content))
  pub flag : e.flagged ≡ true

clamp_between : (x : ℤ) → (pos 0 ≤ℤ clamp_confidence x) × (clamp_confidence x ≤ℤ pos 1000)
unfolding clamp_confidence
clamp_between x = ground arith

module _ (time_parse : Bytes → Bytes → Bool) (ev : EntityValidator) (content : Bytes) where
  passes-Kept :
      (e : ExtractedEntity) (r : SingleResult)
      → passes time_parse ev e content ≡ true
      → Kept ev content
          (auto_fix_entity (record e { confidence = clamp_confidence e.confidence }) r)
  unfolding auto_fix_entity
  passes-Kept e r h = record {
    typed = ground (arith, h);
    allowed = λ on. ground (arith, h, on);
    confident = ground (arith, h);
    not_negative = (clamp_between e.confidence).0;
    at_most_one = (clamp_between e.confidence).1;
    placed = λ on. (ground (arith, h, on), ground (arith, h, on), ground (arith, h, on));
    flag = refl;
  }

snoc-All {ℓ} :
    (P : ExtractedEntity → Type ℓ) (es : List ExtractedEntity) (e : ExtractedEntity)
    → All P es
    → P e
    → All P (es ++ (e ∷ []))
snoc-All P [] e h p = (p, tt)
snoc-All P (d ∷ es) e h p = (h.0, snoc-All P es e h.1 p)

module _ (time_parse : Bytes → Bytes → Bool) (ev : EntityValidator) (content : Bytes) where
  on_result-Kept :
      (i : ℕ) (e : ExtractedEntity) (f : Filtering) (b : Bool)
      → (b ≡ true → passes time_parse ev e content ≡ true)
      → All (Kept ev content) f.valid_entities
      → let r = validate_single_entity time_parse ev e content in
        let g = on_result i r.0 r.1 f b in All (Kept ev content) g.valid_entities
  unfolding validate_single_entity
  on_result-Kept i e f false p h = h
  on_result-Kept i e f true p h =
      let r = validate_single_entity time_parse ev e content in
      snoc-All (Kept ev content) f.valid_entities (auto_fix_entity r.0 r.1) h
        (passes-Kept time_parse ev content e r.1 (p refl))

  filter_step-Kept :
      (i : ℕ) (e : Option ExtractedEntity) (f : Filtering)
      → All (Kept ev content) f.valid_entities
      → let g = filter_step time_parse ev content i e f in All (Kept ev content) g.valid_entities
  unfolding filter_step
  filter_step-Kept i none f h = h
  filter_step-Kept i (some e) f h =
      let r = validate_single_entity time_parse ev e content in
      let same =
        accepts-IsHonest ev r.1 (validate_single_entity-IsHonest time_parse ev e content) in
      on_result-Kept i e f (accepts ev r.1)
        (λ a. sym (validate_single_entity-passes time_parse ev e content) ∙ (sym same ∙ a)) h

  filter_from-Kept :
      (i : ℕ) (es : List (Option ExtractedEntity)) (f : Filtering)
      → All (Kept ev content) f.valid_entities
      → let g = filter_from time_parse ev content i es f in All (Kept ev content) g.valid_entities
  unfolding filter_from
  filter_from-Kept i [] f h = h
  filter_from-Kept i (e ∷ es) f h =
      filter_from-Kept (i + 1) es (filter_step time_parse ev content i e f)
        (filter_step-Kept i e f h)

deduplicate_if-All {ℓ} :
    (P : ExtractedEntity → Type ℓ) (ev : EntityValidator) (es : List ExtractedEntity)
    → All P es
    → All P (deduplicate_if ev es).0
unfolding deduplicate_if
deduplicate_if-All P ev es h = elim (Bool-cases (ev.enable_deduplication && ltb 1 (length es))) [
  | inl t ↦
      rw t (subst (All P) (sym (deduplicate_entities-put_all es).0) (put_all-All P es [] h tt))
  | inr t ↦ rw t h
]

-- A list of at most one entity has no two of a key.
short-OnePerKey : (es : List ExtractedEntity) → ltb 1 (length es) ≡ false → OnePerKey es
short-OnePerKey [] h = tt
short-OnePerKey (e ∷ []) h = (tt, tt)
short-OnePerKey (d ∷ e ∷ es) h = absurd (ground (arith, h))

deduplicate_if-OnePerKey :
    (ev : EntityValidator) (es : List ExtractedEntity)
    → ev.enable_deduplication ≡ true
    → OnePerKey (deduplicate_if ev es).0
unfolding deduplicate_if
deduplicate_if-OnePerKey ev es on = elim (Bool-cases (ltb 1 (length es))) [
  | inl t ↦ rw (on, t) ((deduplicate_entities-OnePerKey es).0)
  | inr t ↦ rw (on, t) (short-OnePerKey es t)
]

-- Every entity that ValidateAndFilterEntities returns has a type, one that is allowed if types are checked,
-- a confidence from 0 to 1 that is not under the least, its flag set, and if offsets are checked and there is
-- a document, offsets that are in order and within it. With deduplication on no two have the same key.
pub validate_and_filter_entities-Kept :
    (time_parse : Bytes → Bytes → Bool) (ev : EntityValidator) (es : List (Option ExtractedEntity))
    (content : Bytes)
    → let kept = (validate_and_filter_entities time_parse ev es content).0 in
      All (Kept ev content) kept × (ev.enable_deduplication ≡ true → OnePerKey kept)
unfolding validate_and_filter_entities finish_filtering
validate_and_filter_entities-Kept time_parse ev [] content = (tt, λ on. tt)
validate_and_filter_entities-Kept time_parse ev (e ∷ es) content =
    let f = filter_from time_parse ev content 0 (e ∷ es) nothing_filtered in
    let d = deduplicate_if ev f.valid_entities in
    (
      limit_to-All (Kept ev content) ev.max_entities d.0 (
          deduplicate_if-All (Kept ev content) ev f.valid_entities
            (filter_from-Kept time_parse ev content 0 (e ∷ es) nothing_filtered tt)),
      λ on.
          limit_to-OnePerKey ev.max_entities d.0 (deduplicate_if-OnePerKey ev f.valid_entities on),
    )
