-- ===== src/Chunking/CrossRefs.antt =====
-- The cross-references of a chunk (internal/extractors/intelligent_chunking.go): entities near it,
-- and the chunks that share an entity with it.
use ideas.Base.{
  ℕ, ◌+◌, ◌-◌, min, Bool, false, not, ◌&&◌, ◌||◌, List, [], ◌∷◌, ◌++◌, Option, none, some, length,
  slice, map, if◌then◌else◌,
}
use ideas.Base.Int.{ℤ, pos, sub_ℕ, eqb_ℤ}
use ideas.Base.Text.{Bytes, codes, bytes_eq, trim, fields, decimal, decimal_ℤ}
use ideas.Chunking.Text.{
  in_cutset, looks_like_entity, get_word_context, extract_keywords, detect_section_context,
}
use ideas.Chunking.Types.{ChunkingConfig, EntityReference, CrossReferenceContext, DocumentChunk}

-- The loop of extractSimpleEntities over the words not yet read; `i` is the index of the next.
unfoldable pub simple_entities_from : ℤ → List Bytes → ℕ → List Bytes → List EntityReference
unfolding looks_like_entity get_word_context trim decimal decimal_ℤ
simple_entities_from k words i [] = []
simple_entities_from k words i (w ∷ ws) =
    let cleaned = trim in_cutset w in
    let rest = simple_entities_from k words (i + 1) ws in
    let reference : EntityReference = record {
      id = codes "ref_" ++ (decimal_ℤ k ++ (codes "_" ++ decimal i));
      text = cleaned;
      confidence = 500;
      chunk_index = k;
      context = get_word_context words i 3;
    } in
    if looks_like_entity cleaned then reference ∷ rest else rest

unfoldable pub extract_simple_entities : Bytes → ℤ → List EntityReference
unfolding simple_entities_from fields
extract_simple_entities content k =
    let words = fields content in simple_entities_from k words 0 words

unfoldable pub build_initial_cross_refs : Bytes → CrossReferenceContext
unfolding extract_keywords
build_initial_cross_refs content = record {
  previous_entities = [];
  following_entities = [];
  keywords = extract_keywords content;
  section_context = codes "full_document";
  related_chunks = pos 0 ∷ [];
}

-- The last argument is `len(previousChunks)`.
unfoldable pub build_cross_reference_context :
    ChunkingConfig → Bytes → ℕ → ℕ → ℕ → CrossReferenceContext
unfolding extract_keywords detect_section_context extract_simple_entities
build_cross_reference_context c content start end previous =
    let context_start = start - c.context_window_size in
    let context_end = min (length content) (end + c.context_window_size) in
    let mapped = c.enable_entity_mapping in
    record {
      previous_entities =
          if mapped
          then extract_simple_entities (slice content context_start start) (sub_ℕ previous 1)
          else [];
      following_entities =
          if mapped
          then extract_simple_entities (slice content end context_end) (pos previous)
          else [];
      keywords = extract_keywords (slice content start end);
      section_context = detect_section_context content start;
      related_chunks = [];
    }

-- All references of a chunk, in the order in which they enter `entityMap`.
abbrev pub refs_of : Option CrossReferenceContext → List EntityReference
refs_of none = []
refs_of (some x) = x.previous_entities ++ x.following_entities

unfoldable pub all_refs : List DocumentChunk → List EntityReference
all_refs [] = []
all_refs (c ∷ cs) = refs_of c.cross_refs ++ all_refs cs

abbrev elem_ℤ : ℤ → List ℤ → Bool
elem_ℤ k [] = false
elem_ℤ k (j ∷ js) = eqb_ℤ k j || elem_ℤ k js

-- `relatedChunks[ref.ChunkIndex] = true` for the references of `entityMap[text]`.
unfoldable pub add_related : ℕ → Bytes → List EntityReference → List ℤ → List ℤ
add_related index text [] ks = ks
add_related index text (r ∷ rs) ks = add_related index text rs (
    if bytes_eq r.text text
      && not (eqb_ℤ r.chunk_index (pos index))
      && not (elem_ℤ r.chunk_index ks)
    then ks ++ (r.chunk_index ∷ [])
    else ks)

unfoldable pub related_from : ℕ → List EntityReference → List EntityReference → List ℤ → List ℤ
unfolding add_related
related_from index refs [] ks = ks
related_from index refs (e ∷ es) ks = related_from index refs es (add_related index e.text refs ks)

unfoldable pub enhance_chunk : List EntityReference → DocumentChunk → DocumentChunk
unfolding related_from
enhance_chunk refs c = record c {
  cross_refs = elim c.cross_refs [
    | none ↦ none
    | some x ↦ some (record x {
      related_chunks =
          x.related_chunks
          ++ related_from c.index refs (x.previous_entities ++ x.following_entities) [];
    })
  ];
}

unfoldable pub enhance_cross_references : List DocumentChunk → List DocumentChunk
unfolding all_refs enhance_chunk
enhance_cross_references chunks = map (enhance_chunk (all_refs chunks)) chunks
