-- ===== src/Chunking/Types.antt =====
-- The types of internal/extractors/intelligent_chunking.go. Sizes and offsets are natural numbers:
-- the sizes of a configuration are taken to be non-negative. A text is the list of its bytes.
use ideas.Base.{ℕ, Bool, true, List, Option}
use ideas.Base.Int.{ℤ}
use ideas.Base.Text.{Bytes}

pub data ChunkingStrategy : Type 0 where
  chunking_none chunking_fixed chunking_semantic : ChunkingStrategy
  chunking_intelligent chunking_overlapping : ChunkingStrategy

pub record ChunkingConfig : Type 0 where
  pub strategy : ChunkingStrategy
  pub max_chunk_size : ℕ
  pub min_chunk_size : ℕ
  pub overlap_size : ℕ
  pub preserve_entities : Bool
  pub preserve_sentences : Bool
  pub preserve_paragraphs : Bool
  pub context_window_size : ℕ
  pub enable_entity_mapping : Bool

abbrev pub default_chunking_config : ChunkingConfig
default_chunking_config = record {
  strategy = chunking_intelligent;
  max_chunk_size = 2048;
  min_chunk_size = 512;
  overlap_size = 256;
  preserve_entities = true;
  preserve_sentences = true;
  preserve_paragraphs = true;
  context_window_size = 128;
  enable_entity_mapping = true;
}

-- `Type` is always EntityTypePerson and `Metadata` is never set, so neither is a field here. The
-- confidence is in thousandths.
pub record EntityReference : Type 0 where
  pub id : Bytes
  pub text : Bytes
  pub confidence : ℕ
  pub chunk_index : ℤ
  pub context : Bytes

-- `Citations` is never set.
pub record CrossReferenceContext : Type 0 where
  pub previous_entities : List EntityReference
  pub following_entities : List EntityReference
  pub keywords : List Bytes
  pub section_context : Bytes
  pub related_chunks : List ℤ

-- The two shapes of the metadata map of a chunk.
pub data ChunkMetadata : Type 0 where
  single_chunk : ℕ → ChunkMetadata
  intelligent : ℕ → Bool → ChunkMetadata

pub record DocumentChunk : Type 0 where
  pub id : Bytes
  pub index : ℕ
  pub content : Bytes
  pub start_offset : ℕ
  pub end_offset : ℕ
  pub overlap_before : Bytes
  pub overlap_after : Bytes
  pub cross_refs : Option CrossReferenceContext
  pub metadata : ChunkMetadata

-- The fields of types.Document that the chunker reads.
pub record Document : Type 0 where
  pub id : Bytes
  pub content : Bytes
