-- ===== src/Retry/Fallback.antt =====
-- FallbackExtractor of internal/extractors/retry_fallback.go.
use ideas.Base.{
  ℕ, ◌+◌, Bool, true, false, List, [], ◌∷◌, ◌++◌, Option, none, some, length, ltb, if◌then◌else◌,
}
use ideas.Base.Text.{Bytes, codes, contains, to_lower, decimal}
use ideas.Retry.Types.{BaseError, ExtractedEntity, ExtractionResult, ExtractionInput, Reply}

pub data FallbackStrategy : Type 0 where
  fallback_none fallback_simplified fallback_basic_entities : FallbackStrategy
  fallback_keyword_extraction : FallbackStrategy

pub record FallbackConfig : Type 0 where
  pub strategy : FallbackStrategy
  pub simplified_prompt_enabled : Bool
  pub keyword_extraction_enabled : Bool
  pub min_entity_threshold : ℕ

abbrev pub default_fallback_config : FallbackConfig
default_fallback_config = record {
  strategy = fallback_simplified;
  simplified_prompt_enabled = true;
  keyword_extraction_enabled = true;
  min_entity_threshold = 1;
}

-- A return, or the panic of a method that reads a field of a nil result.
pub data Answer : Type 0 where
  returns : Option ExtractionResult → Option BaseError → Answer
  panics : Answer

unfoldable pub is_result_acceptable : FallbackConfig → Option ExtractionResult → Bool
is_result_acceptable c none = false
is_result_acceptable c (some r) =
    if ltb (length r.entities) c.min_entity_threshold
    then false
    else (elim r.quality [ none ↦ true | some q ↦ if ltb q 500 then false else true ])

abbrev pub person : Bytes
person = codes "PERSON"

abbrev pub organization : Bytes
organization = codes "ORGANIZATION"

-- The metadata of a result that a fallback gave.
abbrev pub mark_fallback : Bytes → ExtractionResult → ExtractionResult
mark_fallback name r =
    let m = r.metadata in
    record r { metadata = record m { fallback_used = some true; fallback_strategy = some name } }

-- `if err == nil { ... }`: a nil result panics there.
abbrev pub marked : Bytes → Reply → Answer
marked name (none, none) = panics
marked name (some r, none) = returns (some (mark_fallback name r)) none
marked name (r, some e) = returns r (some e)

unfoldable pub try_simplified_extraction :
    FallbackConfig → (ExtractionInput → Reply) → ExtractionInput → Answer
try_simplified_extraction c base i =
    if c.simplified_prompt_enabled
    then marked (codes "simplified_prompt") (
        base (record i {
          analysis_depth = codes "basic";
          required_entity_types = person ∷ organization ∷ codes "LOCATION" ∷ [];
        }))
    else returns none (some (codes "simplified prompt fallback disabled"))

unfoldable pub try_basic_entity_extraction : (ExtractionInput → Reply) → ExtractionInput → Answer
try_basic_entity_extraction base i = marked (codes "basic_entities") (
    base (record i {
      document_type = codes "other";
      analysis_depth = codes "basic";
      required_entity_types = person ∷ organization ∷ [];
    }))

abbrev pub keywords : List Bytes
keywords = codes "research" ∷ codes "study" ∷ codes "analysis" ∷ codes "data" ∷ codes "results" ∷ []

abbrev pub keyword_entity : ℕ → Bytes → ExtractedEntity
keyword_entity i k = record {
  id = codes "keyword_" ++ decimal i;
  entity_type = codes "CONCEPT";
  text = k;
  normalized_text = to_lower k;
  confidence = 300;
  start_offset = 0;
  end_offset = length k;
  context = codes "Found keyword: " ++ k;
}

unfoldable pub keyword_entities_from : Bytes → ℕ → List Bytes → List ExtractedEntity
unfolding contains to_lower decimal
keyword_entities_from content i [] = []
keyword_entities_from content i (k ∷ ks) =
    let rest = keyword_entities_from content (i + 1) ks in
    if contains (to_lower content) (to_lower k) then keyword_entity i k ∷ rest else rest

unfoldable pub extract_keyword_based_entities : Bytes → List ExtractedEntity
unfolding keyword_entities_from
extract_keyword_based_entities content = keyword_entities_from content 0 keywords

unfoldable pub try_keyword_extraction : FallbackConfig → ExtractionInput → Answer
unfolding extract_keyword_based_entities
try_keyword_extraction c i =
    if c.keyword_extraction_enabled
    then returns
        (some (record {
          document_id = i.document_id;
          entities = extract_keyword_based_entities i.content;
          quality = some 300;
          metadata = record {
            attempt_count = some 1;
            retry_reason = none;
            fallback_used = some true;
            fallback_strategy = some (codes "keyword_extraction");
          };
        }))
        none
    else returns none (some (codes "keyword extraction fallback disabled"))

-- The `switch` of ExtractWithFallback.
unfoldable pub fall_back :
    FallbackStrategy → FallbackConfig → (ExtractionInput → Reply) → ExtractionInput → Answer
fall_back fallback_simplified c base i = try_simplified_extraction c base i
fall_back fallback_basic_entities c base i = try_basic_entity_extraction base i
fall_back fallback_keyword_extraction c base i = try_keyword_extraction c i
fall_back fallback_none c base i = returns (base i).0 (base i).1

abbrev pub primary : ExtractionResult → ExtractionResult
primary r = let m = r.metadata in record r { metadata = record m { fallback_used = some false } }

-- The first branch of ExtractWithFallback: an acceptable result with no error.
abbrev pub accepted : FallbackConfig → Reply → Option ExtractionResult
accepted c (r, some e) = none
accepted c (none, none) = none
accepted c (some r, none) = if is_result_acceptable c (some r) then some (primary r) else none

-- The rest of ExtractWithFallback, by whether the first result was accepted.
abbrev pub or_fall_back :
    FallbackConfig → (ExtractionInput → Reply) → ExtractionInput → Option ExtractionResult → Answer
or_fall_back c base i (some r) = returns (some r) none
or_fall_back c base i none = fall_back c.strategy c base i

unfoldable pub extract_with_fallback :
    FallbackConfig → (ExtractionInput → Reply) → ExtractionInput → Answer
extract_with_fallback c base i = or_fall_back c base i (accepted c (base i))
