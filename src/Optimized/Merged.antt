-- ===== src/Optimized/Merged.antt =====
-- What comes of the chunks of a document in internal/extractors/optimized_extractor.go.
use ideas.Base.{◌≡◌, Bool, true, false, List, map, Option, none, some, length, All, if◌then◌else◌}
use ideas.Base.Best.{OnePerKey, represented}
use ideas.Base.Int.{◌≤ℤ◌, leb_ℤ}
use ideas.Base.Text.{Bytes}
use ideas.Optimized.Sources.{Any, FromSucceeded, AllSucceeded}
use ideas.Optimized.{
  Entity, OptimizationConfig, ChunkResult, ExtractionResult, all_entities, merge_key, worth,
  merge_duplicate_entities, convert,
}

-- What a result has of the entities of the chunks that succeeded.
pub record Merged (c : OptimizationConfig) (document_id : Bytes) (rs : List ChunkResult)
    (x : ExtractionResult) : Type 0 where
  pub kept : List Entity
  pub document : x.document_id ≡ document_id
  pub entities : x.entities ≡ map convert kept
  pub total : x.total_entities ≡ length kept
  pub reaching : All (λ (e : Entity). c.confidence_threshold ≤ℤ e.confidence) kept
  pub origin : All (FromSucceeded rs) kept
  pub distinct : c.enable_entity_merging ≡ true → OnePerKey merge_key worth kept
  pub complete :
      AllSucceeded
        (λ (e : Entity).
          leb_ℤ c.confidence_threshold e.confidence ≡ true
          → represented merge_key worth e kept ≡ true)
        rs

module _ (c : OptimizationConfig) (rs : List ChunkResult) where
  merged_if : Bool → List Entity
  merged_if b = if b then merge_duplicate_entities (all_entities rs) else all_entities rs

-- The outcome of the merge: an error if all chunks failed, otherwise some chunk succeeded, and a result.
abbrev pub Outcome :
    OptimizationConfig → Bytes → List ChunkResult → Option ExtractionResult → Type 0
Outcome c document_id rs none = All (λ (r : ChunkResult). r.failed ≡ true) rs
Outcome c document_id rs (some x) =
    Any (λ (r : ChunkResult). r.failed ≡ false) rs × Merged c document_id rs x
