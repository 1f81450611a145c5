-- ===== src/Response/Scores.antt =====
-- The bounds of the scores of updateQualityMetrics, internal/extractors/response_processor.go.
use ideas.Base.{◌+◌, ◌*◌, ◌<◌, Bool, List, [], ◌∷◌, Option, length, All, arith, lt→ltb}
use ideas.Base.Int.{pos, ◌≤ℤ◌, +ℤ_parts}
use ideas.Base.Text.{Bytes}
use ideas.Validation.Types.{ExtractedEntity, EntityValidator}
use ideas.Validation.Filter.{validate_and_filter_entities}
use ideas.Validation.Filter.Kept.{Kept, validate_and_filter_entities-Kept}
use ideas.Validation.Filter.Counts.{validate_and_filter_entities-counts}
use ideas.Response.Types.{Score, QualityMetrics}
use ideas.Response.Enrich.{sum_confidence, update_quality_metrics}

-- A score from 0 to 1.
abbrev pub InUnit : Score → Type 0
InUnit s = (0 < s.1) × (pos 0 ≤ℤ s.0) × (s.0 ≤ℤ pos s.1)

sum_between :
    (ev : EntityValidator) (content : Bytes) (es : List ExtractedEntity)
    → All (Kept ev content) es
    → (pos 0 ≤ℤ sum_confidence es) × (sum_confidence es ≤ℤ pos (1000 * length es))
sum_between ev content [] h = (omega arith, omega arith)
sum_between ev content (e ∷ es) h =
    let k = h.0 in
    let (a, b) = sum_between ev content es h.1 in
    let parts = +ℤ_parts e.confidence (sum_confidence es) in
    (omega (arith, k.not_negative, a, parts), omega (arith, k.at_most_one, b, parts))

abbrev pub AllInUnit : QualityMetrics → Type 0
AllInUnit m = InUnit m.confidence_score × InUnit m.completeness_score × InUnit m.reliability_score

-- If the validator leaves any entity, the confidence, completeness and reliability scores that
-- updateQualityMetrics computes from them lie between 0 and 1, whatever scores were there before.
pub update_quality_metrics-InUnit :
    (time_parse : Bytes → Bytes → Bool) (ev : EntityValidator) (es : List (Option ExtractedEntity))
    (content : Bytes) (m : QualityMetrics)
    → let (kept, v) = validate_and_filter_entities time_parse ev es content in
      0 < length kept → AllInUnit (update_quality_metrics kept v m)
unfolding update_quality_metrics
update_quality_metrics-InUnit time_parse ev es content m h =
    let (kept, v) = validate_and_filter_entities time_parse ev es content in
    let (a, b) =
      sum_between ev content kept (validate_and_filter_entities-Kept time_parse ev es content).0 in
    let counts = validate_and_filter_entities-counts time_parse ev es content in
    let some_total : 0 < v.entity_count + v.invalid_entities = omega (arith, counts.2, h) in
    rw (lt→ltb 0 (length kept) h, lt→ltb 0 (v.entity_count + v.invalid_entities) some_total)
      (
        (omega (arith, h), a, b),
        (some_total, omega arith, omega arith),
        (omega arith, omega arith, omega arith),
      )
