-- ===== src/Chunking/Examples.antt =====
-- Runs of internal/extractors/intelligent_chunking.go.
use ideas.Base.{ℕ, ◌≡◌, arith, some, count, if◌then◌else◌}
use ideas.Base.Text.{codes}
use ideas.Chunking.Boundaries.Sort.{IsIncreasing}
use ideas.Chunking.Types.{ChunkingConfig, Document, default_chunking_config}
use ideas.Chunking.Text.{find_semantic_boundaries}
use ideas.Chunking.Split.{chunk_document}
use ideas.Chunking.Coverage.{Covers, chunk_document-Covers}
use ideas.Chunking.Rebuild.{rebuild, rebuild-chunk_document}
use ideas.Chunking.Breaks.{is_boundary, find_semantic_boundaries-is_boundary}
use mathlib.Core.Option

abbrev small : ChunkingConfig
small = record default_chunking_config { max_chunk_size = 8; min_chunk_size = 3; overlap_size = 2 }

abbrev sentences : Document
sentences = record { id = codes "doc"; content = codes "One. Two words. # x\n\n# Three and more" }

chunk_document-Covers_example : Covers 8 sentences.content 0 0 (chunk_document small sentences)
chunk_document-Covers_example = chunk_document-Covers small sentences (omega arith) (omega arith)

rebuild-chunk_document_example :
    Option.map (rebuild 0) (chunk_document small sentences) ≡ some sentences.content
rebuild-chunk_document_example = rebuild-chunk_document small sentences (omega arith) (omega arith)

find_semantic_boundaries-is_boundary_example :
    IsIncreasing (find_semantic_boundaries small sentences.content)
    × ((b : ℕ)
        → count b (find_semantic_boundaries small sentences.content)
          ≡ (if is_boundary small sentences.content b then 1 else 0))
find_semantic_boundaries-is_boundary_example =
    find_semantic_boundaries-is_boundary small sentences.content

-- No smallest size, no overlap, and a boundary where the chunk begins.
abbrev stuck : ChunkingConfig
stuck = record default_chunking_config { max_chunk_size = 4; min_chunk_size = 0; overlap_size = 0 }
