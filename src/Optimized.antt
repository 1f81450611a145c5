-- ===== src/Optimized.antt =====
-- The extractor that goes through the chunks of a document, internal/extractors/optimized_extractor.go. A map from
-- keys to entities is the list of its values; the goroutines of the chunks write to places of their own, so that
-- the results are those of one chunk after the other. Confidences are in thousandths.
pub mod Sources
pub mod Merged
pub mod Whole
mod Examples
use ideas.Base.{
  ℕ, zero, suc, ◌+◌, ◌-◌, ◌*◌, Bool, true, false, not, ◌&&◌, ◌||◌, ◌==◌, List, [], ◌∷◌, ◌++◌, map,
  Option, none, some, length, leb, ltb, if◌then◌else◌,
}
use ideas.Base.Best.{insert_all}
use ideas.Base.Int.{ℤ, pos, negsuc, ◌+ℤ◌, leb_ℤ, ltb_ℤ, pos_part, neg_part}
use ideas.Base.Text.{Bytes, codes, bytes_eq, elem_bytes, fields, to_lower, trim_space}
use ideas.Chunking.Types.{
  ChunkingConfig, default_chunking_config, EntityReference, CrossReferenceContext, DocumentChunk,
  Document,
}
use ideas.Chunking.Split.{chunk_document}
use ideas.Validation.Types.{ExtractedEntity}

-- `chunk` is the index and the identifier that the metadata hold.
pub record Entity : Type 0 where
  pub id : Bytes
  pub entity_type : Bytes
  pub text : Bytes
  pub confidence : ℤ
  pub start_offset : ℤ
  pub end_offset : ℤ
  pub document_id : Bytes
  pub chunk : Option (ℕ × Bytes)

pub record OptimizationConfig : Type 0 where
  pub max_memory_usage : ℤ
  pub enable_chunking : Bool
  pub chunking_config : ChunkingConfig
  pub max_concurrent_chunks : ℤ
  pub enable_cross_referencing : Bool
  pub confidence_threshold : ℤ
  pub enable_entity_merging : Bool

abbrev pub default_optimization_config : OptimizationConfig
default_optimization_config = record {
  max_memory_usage = pos 524288000;
  enable_chunking = true;
  chunking_config = default_chunking_config;
  max_concurrent_chunks = pos 2;
  enable_cross_referencing = true;
  confidence_threshold = pos 300;
  enable_entity_merging = true;
}

pub record CrossReference : Type 0 where
  pub source_entity_id : Bytes
  pub target_entity_id : Bytes
  pub target_chunk_index : ℤ
  pub context : Bytes

pub record ChunkResult : Type 0 where
  pub chunk_id : Bytes
  pub chunk_index : ℕ
  pub entities : List Entity
  pub confidence : ℤ
  pub cross_references : List CrossReference
  pub failed : Bool

pub record ExtractionResult : Type 0 where
  pub document_id : Bytes
  pub entities : List ExtractedEntity
  pub total_entities : ℕ

-- The extractor below: the entities and the confidence, or an error.
abbrev pub BaseExtractor : Type 0
BaseExtractor = Bytes → Bytes → Option (List Entity × ℤ)

abbrev common_words : List Bytes → List Bytes → ℕ
common_words [] vs = 0
common_words (w ∷ ws) vs = (if elem_bytes w vs then 1 else 0) + common_words ws vs

-- Whether calculateSimilarity is above 0.8, where the texts differ: 2 · common / total > 4 / 5.
unfoldable pub is_similar : Bytes → Bytes → Bool
unfolding fields to_lower
is_similar text1 text2 =
    let words1 = fields (to_lower text1) in
    let words2 = fields (to_lower text2) in
    let total = length words1 + length words2 in
    not (total == 0) && ltb (4 * total) (10 * common_words words1 words2)

-- The type of a reference is always PERSON.
unfoldable pub entities_match : Entity → EntityReference → Bool
unfolding is_similar
entities_match e r =
    bytes_eq e.entity_type (codes "PERSON") && (bytes_eq e.text r.text || is_similar e.text r.text)

abbrev references_to : Entity → List EntityReference → List CrossReference
references_to e [] = []
references_to e (r ∷ rs) =
    let rest = references_to e rs in
    if entities_match e r
    then record {
      source_entity_id = e.id;
      target_entity_id = r.id;
      target_chunk_index = r.chunk_index;
      context = r.context;
    }
      ∷ rest
    else rest

unfoldable pub build_cross_references : List Entity → CrossReferenceContext → List CrossReference
unfolding entities_match
build_cross_references [] x = []
build_cross_references (e ∷ es) x =
    references_to e x.previous_entities
    ++ (references_to e x.following_entities ++ build_cross_references es x)

abbrev references_of : Bool → List Entity → Option CrossReferenceContext → List CrossReference
references_of on es none = []
references_of on es (some x) = if on then build_cross_references es x else []

abbrev on_extracted : OptimizationConfig → DocumentChunk → Option (List Entity × ℤ) → ChunkResult
on_extracted c chunk none = record {
  chunk_id = chunk.id;
  chunk_index = chunk.index;
  entities = [];
  confidence = pos 0;
  cross_references = [];
  failed = true;
}
on_extracted c chunk (some r) = record {
  chunk_id = chunk.id;
  chunk_index = chunk.index;
  entities = r.0;
  confidence = r.1;
  cross_references = references_of c.enable_cross_referencing r.0 chunk.cross_refs;
  failed = false;
}

unfoldable pub process_chunk : OptimizationConfig → BaseExtractor → DocumentChunk → ChunkResult
unfolding build_cross_references
process_chunk c extract chunk = on_extracted c chunk (extract chunk.id chunk.content)

abbrev pub tagged : ChunkResult → List Entity → List Entity
tagged r [] = []
tagged r (e ∷ es) = record e { chunk = some (r.chunk_index, r.chunk_id) } ∷ tagged r es

-- The entities of the chunks that succeeded, and their number.
abbrev pub all_entities : List ChunkResult → List Entity
all_entities [] = []
all_entities (r ∷ rs) =
    let rest = all_entities rs in if r.failed then rest else tagged r r.entities ++ rest

abbrev pub valid_results : List ChunkResult → ℕ
valid_results [] = 0
valid_results (r ∷ rs) = (if r.failed then 0 else 1) + valid_results rs

unfoldable pub merge_key : Entity → Bytes
unfolding to_lower
merge_key e = e.entity_type ++ (b':' ∷ to_lower e.text)

abbrev pub worth : Entity → ℤ
worth e = e.confidence

-- An entity is put in the place of one with its key whose confidence is lower.
abbrev pub merge_duplicate_entities : List Entity → List Entity
merge_duplicate_entities es = insert_all merge_key worth es []

abbrev pub filter_by_confidence : ℤ → List Entity → List Entity
filter_by_confidence least [] = []
filter_by_confidence least (e ∷ es) =
    let rest = filter_by_confidence least es in if leb_ℤ least e.confidence then e ∷ rest else rest

unfoldable pub convert : Entity → ExtractedEntity
unfolding to_lower trim_space
convert e = record {
  id = e.id;
  entity_type = e.entity_type;
  text = e.text;
  normalized_text = to_lower (trim_space e.text);
  confidence = e.confidence;
  start_offset = e.start_offset;
  end_offset = e.end_offset;
  document_id = e.document_id;
  extraction_id = codes "extraction_" ++ e.document_id;
  has_flags = false;
  flagged = false;
  flag_warnings = [];
}

abbrev pub kept_entities : OptimizationConfig → List ChunkResult → List Entity
kept_entities c rs =
    let es = all_entities rs in
    filter_by_confidence c.confidence_threshold
      (if c.enable_entity_merging then merge_duplicate_entities es else es)

-- `none` is the error that no chunk succeeded.
unfoldable pub merge_chunk_results :
    OptimizationConfig → Bytes → List ChunkResult → Option ExtractionResult
unfolding convert merge_key insert_all
merge_chunk_results c document_id rs =
    let kept = kept_entities c rs in
    if valid_results rs == 0
    then none
    else some (record {
      document_id = document_id;
      entities = map convert kept;
      total_entities = length kept;
    })

-- What becomes of a call: it returns a result or (`none`) an error, panics, or never returns.
pub data Answer : Type 0 where
  answers : Option ExtractionResult → Answer
  panics : Answer
  never_returns : Answer

-- The semaphore of a capacity, and the goroutines of the chunks that acquire it: a negative capacity is the panic of
-- `make`, and with capacity 0 nobody receives, so that each goroutine waits for ever and wg.Wait too, unless there is
-- no chunk. With any other capacity each goroutine acquires a place once one before it has released it.
abbrev pub with_semaphore : ℤ → List DocumentChunk → Option ExtractionResult → Answer
with_semaphore (negsuc n) chunks merged = panics
with_semaphore (pos zero) [] merged = answers merged
with_semaphore (pos zero) (chunk ∷ chunks) merged = never_returns
with_semaphore (pos (suc n)) chunks merged = answers merged

-- A chunker that does not end (`none`) never returns.
abbrev pub on_chunks :
    OptimizationConfig → BaseExtractor → Bytes → Option (List DocumentChunk) → Answer
on_chunks c extract document_id none = never_returns
on_chunks c extract document_id (some chunks) =
    with_semaphore c.max_concurrent_chunks chunks
      (merge_chunk_results c document_id (map (process_chunk c extract) chunks))

-- The chunker always ends for the configurations of Chunking/Coverage.
unfoldable pub process_chunked_document : OptimizationConfig → BaseExtractor → Document → Answer
unfolding merge_chunk_results process_chunk chunk_document
process_chunked_document c extract d = on_chunks c extract d.id (chunk_document c.chunking_config d)

abbrev on_single : OptimizationConfig → Bytes → Option (List Entity × ℤ) → Option ExtractionResult
on_single c document_id none = none
on_single c document_id (some r) =
    let kept = filter_by_confidence c.confidence_threshold r.0 in
    some (record {
      document_id = document_id;
      entities = map convert kept;
      total_entities = length kept;
    })

unfoldable pub process_single_document :
    OptimizationConfig → BaseExtractor → Document → Option ExtractionResult
unfolding convert
process_single_document c extract d = on_single c d.id (extract d.id d.content)

unfoldable pub update_memory_usage : ℤ → ℤ → ℤ
unfolding ◌+ℤ◌
update_memory_usage delta usage =
    let changed = usage +ℤ delta in if ltb_ℤ changed (pos 0) then pos 0 else changed

abbrev negated : ℕ → ℤ
negated n = if n == 0 then pos 0 else negsuc (n - 1)

-- The answer, and the memory usage after the call, if it returns or panics; `name` is the name of the document.
unfoldable pub extract_entities :
    OptimizationConfig → BaseExtractor → Bytes → Document → ℤ → Answer × ℤ
unfolding process_single_document process_chunked_document update_memory_usage
extract_entities c extract name d usage =
    let estimate = length d.content + length name + 1024 in
    let used = update_memory_usage (pos estimate) usage in
    let single = process_single_document c extract d in
    let chunked = process_chunked_document c extract d in
    (
      if ltb_ℤ c.max_memory_usage used
          then answers none
          else if not c.enable_chunking
              || leb (length d.content) (let k = c.chunking_config in k.max_chunk_size)
          then answers single
          else chunked,
      update_memory_usage (negated estimate) used,
    )
