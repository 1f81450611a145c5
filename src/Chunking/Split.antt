-- ===== src/Chunking/Split.antt =====
-- The splitting strategies of internal/extractors/intelligent_chunking.go. Each loop runs on fuel;
-- `none` means that the fuel ran out, which is a loop that never ends in the program.
use ideas.Base.{
  ℕ, zero, suc, ◌+◌, ◌-◌, min, max, ◌&&◌, List, [], ◌∷◌, ◌++◌, Option, none, some, length, slice,
  ltb, leb, if◌then◌else◌,
}
use ideas.Base.Text.{Bytes, codes, decimal}
use ideas.Chunking.CrossRefs.{
  build_initial_cross_refs, build_cross_reference_context, enhance_cross_references,
}
use ideas.Chunking.Text.{find_semantic_boundaries, find_entity_boundaries, merge_boundaries}
use ideas.Chunking.Types.{
  ChunkingStrategy, chunking_none, chunking_fixed, chunking_semantic, chunking_intelligent,
  chunking_overlapping, ChunkingConfig, DocumentChunk, Document, single_chunk, intelligent,
}
use mathlib.Core.Option

-- The first boundary from `lo` to `hi`, or else `hi`.
unfoldable pub first_boundary : ℕ → ℕ → List ℕ → ℕ
first_boundary lo hi [] = hi
first_boundary lo hi (b ∷ bs) = if leb lo b && leb b hi then b else first_boundary lo hi bs

unfoldable pub find_optimal_chunk_end : ChunkingConfig → Bytes → ℕ → List ℕ → ℕ
unfolding first_boundary
find_optimal_chunk_end c content start boundaries =
    first_boundary (min (start + c.min_chunk_size) (length content))
      (min (start + c.max_chunk_size) (length content)) boundaries

unfoldable pub chunk_id : Bytes → ℕ → Bytes
unfolding decimal
chunk_id doc_id index = doc_id ++ (codes "_chunk_" ++ decimal index)

unfoldable pub create_chunk : ChunkingConfig → Bytes → ℕ → Bytes → ℕ → ℕ → DocumentChunk
unfolding chunk_id
create_chunk c doc_id index content start end = record {
  id = chunk_id doc_id index;
  index = index;
  content = slice content start end;
  start_offset = start;
  end_offset = end;
  overlap_before =
      if ltb 0 c.overlap_size && ltb 0 start
      then slice content (start - c.overlap_size) start
      else [];
  overlap_after =
      if ltb 0 c.overlap_size && ltb end (length content)
      then slice content end (min (length content) (end + c.overlap_size))
      else [];
  cross_refs = none;
  metadata = intelligent (length (slice content start end)) (ltb 0 c.overlap_size);
}

-- A chunk with its cross-references: the two statements that every loop begins with.
unfoldable pub make_chunk : ChunkingConfig → Document → ℕ → ℕ → ℕ → DocumentChunk
unfolding create_chunk build_cross_reference_context
make_chunk c d index start end = record (create_chunk c d.id index d.content start end) {
  cross_refs = some (build_cross_reference_context c d.content start end index);
}

-- Where the loop of intelligentChunking goes on.
unfoldable pub next_position : ChunkingConfig → ℕ → ℕ → ℕ → ℕ
next_position c size start end =
    if ltb 0 c.overlap_size && ltb end size
    then max (start + c.min_chunk_size) (end - c.overlap_size)
    else end

unfoldable pub intelligent_from :
    ChunkingConfig → Document → List ℕ → ℕ → ℕ → ℕ → Option (List DocumentChunk)
intelligent_from c d boundaries zero start index = none
intelligent_from c d boundaries (suc fuel) start index =
    let end = find_optimal_chunk_end c d.content start boundaries in
    let rest =
      intelligent_from c d boundaries fuel (next_position c (length d.content) start end)
        (index + 1) in
    if ltb start (length d.content)
    then Option.map (◌∷◌ (make_chunk c d index start end)) rest
    else some []

unfoldable pub chunk_boundaries : ChunkingConfig → Bytes → List ℕ
unfolding find_semantic_boundaries find_entity_boundaries merge_boundaries
chunk_boundaries c content =
    let semantic = find_semantic_boundaries c content in
    if c.preserve_entities
    then merge_boundaries semantic (find_entity_boundaries content)
    else semantic

unfoldable pub intelligent_chunking : ChunkingConfig → Document → Option (List DocumentChunk)
intelligent_chunking c d =
    Option.map enhance_cross_references
      (intelligent_from c d (chunk_boundaries c d.content) (suc (length d.content)) 0 0)

-- Where the loop of overlappingChunking goes on: `end - overlap`, but not at or before `start`.
unfoldable pub next_overlapping : ChunkingConfig → ℕ → ℕ → ℕ
next_overlapping c start end =
    let back = end - c.overlap_size in if leb back start then end else back

unfoldable pub overlapping_from :
    ChunkingConfig → Document → ℕ → ℕ → ℕ → Option (List DocumentChunk)
overlapping_from c d zero start index = none
overlapping_from c d (suc fuel) start index =
    let end = min (start + c.max_chunk_size) (length d.content) in
    let rest = overlapping_from c d fuel (next_overlapping c start end) (index + 1) in
    let chunk = make_chunk c d index start end in
    if ltb start (length d.content)
    then (if leb (length d.content) end then some (chunk ∷ []) else Option.map (◌∷◌ chunk) rest)
    else some []

unfoldable pub overlapping_chunking : ChunkingConfig → Document → Option (List DocumentChunk)
overlapping_chunking c d =
    Option.map enhance_cross_references (overlapping_from c d (suc (length d.content)) 0 0)

unfoldable pub semantic_chunking : ChunkingConfig → Document → Option (List DocumentChunk)
semantic_chunking = overlapping_chunking

unfoldable pub fixed_from : ChunkingConfig → Document → ℕ → ℕ → ℕ → Option (List DocumentChunk)
fixed_from c d zero start index = none
fixed_from c d (suc fuel) start index =
    let end = min (start + c.max_chunk_size) (length d.content) in
    let rest = fixed_from c d fuel (start + c.max_chunk_size) (index + 1) in
    if ltb start (length d.content)
    then Option.map (◌∷◌ (make_chunk c d index start end)) rest
    else some []

unfoldable pub fixed_chunking : ChunkingConfig → Document → Option (List DocumentChunk)
fixed_chunking c d =
    Option.map enhance_cross_references (fixed_from c d (suc (length d.content)) 0 0)

abbrev whole_document : Document → DocumentChunk
whole_document d = record {
  id = chunk_id d.id 0;
  index = 0;
  content = d.content;
  start_offset = 0;
  end_offset = length d.content;
  overlap_before = [];
  overlap_after = [];
  cross_refs = some (build_initial_cross_refs d.content);
  metadata = single_chunk (length d.content);
}

unfoldable pub by_strategy :
    ChunkingStrategy → ChunkingConfig → Document → Option (List DocumentChunk)
by_strategy chunking_intelligent c d = intelligent_chunking c d
by_strategy chunking_semantic c d = semantic_chunking c d
by_strategy chunking_overlapping c d = overlapping_chunking c d
by_strategy chunking_fixed c d = fixed_chunking c d
by_strategy chunking_none c d = intelligent_chunking c d

unfoldable pub chunk_document : ChunkingConfig → Document → Option (List DocumentChunk)
chunk_document c d =
    if leb (length d.content) c.max_chunk_size
    then some (whole_document d ∷ [])
    else by_strategy c.strategy c d
