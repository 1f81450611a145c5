-- ===== src/Pipeline/Rounds.antt =====
-- What the stages of internal/analyzers/pipeline.go do with one document.
use ideas.Base.{
  ℕ, ◌+◌, ◌-◌, Bool, true, ◌&&◌, ltb, List, [], ◌∷◌, ◌++◌, Option, none, some, length,
  if◌then◌else◌,
}
use ideas.Base.Int.{pos}
use ideas.Base.Text.{Bytes, codes}
use ideas.Pipeline.Extraction.{
  Parts, Work, record_extractor_usage, record_error, update_processing_time, with_entities,
  with_citations, with_topics, fail_extraction, entity_step, citation_step, topic_step,
  extract_individually,
}
use ideas.Pipeline.Types.{
  Returned, failed, returned, Deadline, stage_extraction, stage_processing, stage_storage,
  stage_complete, UnifiedExtractionConfig, UnifiedExtractionResult, UnifiedExtractor,
  StorageManager, LlmClient, AnalysisConfig, PipelineMetrics, PipelineDocument,
}

abbrev pub unified_config : AnalysisConfig → UnifiedExtractionConfig
unified_config c = record {
  temperature = pos 100;
  max_tokens = 4000;
  min_confidence = c.min_confidence_score;
  max_entities = 20;
  max_citations = 10;
  max_topics = 8;
  analysis_depth = codes "detailed";
  include_metadata = true;
}

abbrev pub some_enabled : Bool → List ℕ → Bool
some_enabled enabled xs = enabled && ltb 0 (length xs)

-- The results of a unified extraction, kind by kind.
abbrev pub unified_entities :
    AnalysisConfig → UnifiedExtractionResult → PipelineDocument → PipelineDocument
unified_entities c r d =
    if some_enabled c.enable_entity_extraction r.entities
    then with_entities (codes "llm") r.entities d
    else d

abbrev pub unified_citations :
    AnalysisConfig → UnifiedExtractionResult → PipelineDocument → PipelineDocument
unified_citations c r d =
    if some_enabled c.enable_citation_extraction r.citations
    then with_citations (codes "llm") r.citations d
    else d

abbrev pub unified_topics :
    AnalysisConfig → UnifiedExtractionResult → PipelineDocument → PipelineDocument
unified_topics c r d =
    if some_enabled c.enable_topic_extraction r.topics
    then with_topics (codes "llm") r.topics d
    else d

abbrev pub take_unified :
    AnalysisConfig → UnifiedExtractionResult → PipelineDocument → PipelineDocument
take_unified c r d = unified_topics c r (unified_citations c r (unified_entities c r d))

-- extractUnified wraps an error as the stage does once more.
unfoldable pub after_unified : Parts → Deadline → Work → Returned UnifiedExtractionResult → Work
unfolding entity_step citation_step topic_step
after_unified p deadline w (failed err) =
    let next = fail_extraction (codes "unified") (codes "unified extraction failed: " ++ err) w in
    if w.config.unified_fallback_enabled then extract_individually p deadline next else next
after_unified p deadline w (returned r) = record w {
  metrics = record_extractor_usage (codes "llm") w.metrics;
  document = take_unified w.config r w.document;
}

unfoldable pub extract : Parts → Deadline → Work → Option UnifiedExtractor → Work
unfolding after_unified entity_step citation_step topic_step
extract p deadline w none = extract_individually p deadline w
extract p deadline w (some u) =
    if w.config.use_unified_extraction
    then after_unified p deadline w
        (u deadline w.document.request.document (unified_config w.config))
    else extract_individually p deadline w

abbrev pub add_errors : List Bytes → PipelineDocument → PipelineDocument
add_errors errs d = record d { errors = d.errors ++ errs }

-- One round of runExtractionStage, less the receiving and the sending.
unfoldable pub extraction_round : Parts → ℕ → Deadline → Work → Work
unfolding extract
extraction_round p now deadline w =
    let begun = record w {
      document = record w.document { stage = stage_extraction; stage_start = now };
      extraction_errors = [];
    } in
    let done = extract p deadline begun p.unified_extractor in
    record done { document = add_errors done.extraction_errors done.document }

abbrev pub take_embedding : PipelineDocument → Returned ℕ → PipelineDocument
take_embedding d (failed err) = add_errors ((codes "embedding generation failed: " ++ err) ∷ []) d
take_embedding d (returned e) = record d { result = record d.result { embedding = some e } }

abbrev pub embed_with :
    AnalysisConfig → Deadline → PipelineDocument → Option LlmClient → PipelineDocument
embed_with c deadline d none = d
embed_with c deadline d (some client) =
    if c.generate_embeddings
    then take_embedding d (client.embed deadline d.request.document.content)
    else d

-- One round of runProcessingStage.
unfoldable pub processing_round :
    Parts → ℕ → Deadline → AnalysisConfig → PipelineDocument → PipelineDocument
processing_round p now deadline c d =
    embed_with c deadline (record d { stage = stage_processing; stage_start = now }) p.llm_client

abbrev pub stored : Bytes → Option Bytes → List Bytes
stored kind none = []
stored kind (some err) = (kind ++ codes " storage failed: " ++ err) ∷ []

abbrev pub store_each : Bytes → (ℕ → Option Bytes) → List ℕ → List Bytes
store_each kind store [] = []
store_each kind store (x ∷ xs) = stored kind (store x) ++ store_each kind store xs

-- The errors of all calls to the storage, in their order.
abbrev pub store_with :
    AnalysisConfig → Deadline → PipelineDocument → Option StorageManager → PipelineDocument
store_with c deadline d none = d
store_with c deadline d (some m) =
    if c.store_results
    then add_errors
        (stored (codes "document") (m.store_document deadline d.request.document)
          ++ store_each (codes "entity") (m.store_entity deadline) d.result.entities
          ++ store_each (codes "citation") (m.store_citation deadline) d.result.citations
          ++ store_each (codes "topic") (m.store_topic deadline) d.result.topics)
        d
    else d

abbrev pub join_errors : List Bytes → Bytes
join_errors [] = []
join_errors (e ∷ []) = e
join_errors (e ∷ f ∷ es) = e ++ codes "; " ++ join_errors (f ∷ es)

abbrev pub completed : ℕ → PipelineDocument → PipelineDocument
completed finished d = record d {
  stage = stage_complete;
  response = record d.response {
    result = some d.result;
    processing_time = finished - d.start_time;
  };
}

abbrev pub succeed :
    PipelineDocument → Option PipelineMetrics → Option (PipelineMetrics × PipelineDocument)
succeed d none = none
succeed d (some m) = some (m, d)

-- The end of a document, `none` for the panic of an integer division.
unfoldable pub finalize :
    PipelineMetrics → PipelineDocument → List Bytes → Option (PipelineMetrics × PipelineDocument)
unfolding update_processing_time
finalize m d [] = succeed d (
    update_processing_time d.response.processing_time
      (record m { successful_analyses = m.successful_analyses + 1 }))
finalize m d (e ∷ es) = some (
  record (record_error (codes "pipeline_processing") m) { failed_analyses = m.failed_analyses + 1 },
  record d {
    response = record d.response {
      error = some (codes "processing errors: " ++ join_errors (e ∷ es));
    };
  },
)

-- One round of runStorageStage, which ends at the time `finished`.
unfoldable pub storage_round :
    Parts
    → ℕ
    → ℕ
    → Deadline
    → AnalysisConfig
    → PipelineMetrics
    → PipelineDocument
    → Option (PipelineMetrics × PipelineDocument)
unfolding finalize
storage_round p now finished deadline c m d =
    let kept =
      store_with c deadline (record d { stage = stage_storage; stage_start = now })
        p.storage_manager in
    finalize m (completed finished kept) kept.errors
