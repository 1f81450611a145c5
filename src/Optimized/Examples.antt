-- ===== src/Optimized/Examples.antt =====
-- A run of internal/extractors/optimized_extractor.go.
use ideas.Base.{ℕ, Bool, true, false, List, [], ◌∷◌, none, some, if◌then◌else◌}
use ideas.Base.Int.{pos}
use ideas.Base.Text.{Bytes, codes, has_prefix}
use ideas.Chunking.Types.{default_chunking_config, Document}
use ideas.Optimized.{
  OptimizationConfig, BaseExtractor, Entity, default_optimization_config, ChunkResult,
}

abbrev person : Bytes → ℕ → Entity
person text confidence = record {
  id = text;
  entity_type = codes "PERSON";
  text = text;
  confidence = pos confidence;
  start_offset = pos 0;
  end_offset = pos 3;
  document_id = codes "d";
  chunk = none;
}

abbrev chunk_of : ℕ → List Entity → Bool → ChunkResult
chunk_of i es failed = record {
  chunk_id = codes "c";
  chunk_index = i;
  entities = es;
  confidence = pos 500;
  cross_references = [];
  failed = failed;
}

-- The second of three chunks failed; Ada stands in both others.
abbrev results : List ChunkResult
results =
    chunk_of 0 (person (codes "Ada") 400 ∷ person (codes "Bob") 200 ∷ []) false
    ∷ chunk_of 1 [] true
    ∷ chunk_of 2 (person (codes "ADA") 900 ∷ []) false
    ∷ []

abbrev in_two : OptimizationConfig
in_two =
    let k = default_chunking_config in
    record default_optimization_config {
      chunking_config = record k { max_chunk_size = 8; min_chunk_size = 2; overlap_size = 0 };
    }

-- An extractor that finds Ada in the texts that begin with her.
abbrev finds_ada : BaseExtractor
finds_ada id content =
    some ((if has_prefix content (codes "Ada") then person (codes "Ada") 900 ∷ [] else []), pos 900)

abbrev letter : Document
letter = record { id = codes "d"; content = codes "Ada met Bob. Ada left." }
