-- ===== src/Optimized/Whole.antt =====
-- A document of several chunks, from the chunker (internal/extractors/intelligent_chunking.go) to the merged result
-- (internal/extractors/optimized_extractor.go).
use ideas.Base.{List, map}
use ideas.Chunking.Types.{DocumentChunk, Document}
use ideas.Chunking.Coverage.{Tiles}
use ideas.Optimized.{
  OptimizationConfig, BaseExtractor, process_chunk, Answer, answers, panics, never_returns,
}
use ideas.Optimized.Merged.{Outcome}

-- A result or error for chunks that cover the document, which is the outcome for their results.
abbrev pub FromChunks : OptimizationConfig → BaseExtractor → Document → Answer → Type 0
FromChunks c extract d (answers r) =
    let k = c.chunking_config in
    (chunks : List DocumentChunk) × Tiles k.max_chunk_size d.content 0 0 chunks
    × Outcome c d.id (map (process_chunk c extract) chunks) r
FromChunks c extract d panics = ⊥
FromChunks c extract d never_returns = ⊥
