-- ===== src/Pipeline/Extraction.antt =====
-- The extractors of internal/analyzers/pipeline.go: which is taken, and what its result does to a document.
use ideas.Base.{
  ℕ, ◌+◌, ◌-◌, ◌*◌, ◌/◌, Bool, true, ◌==◌, ltb, min, List, [], ◌∷◌, ◌++◌, Option, none, some,
  if◌then◌else◌,
}
use ideas.Base.Table.{lookup, put, bump}
use ideas.Base.Text.{Bytes, codes}
use ideas.Pipeline.Types.{
  Returned, failed, returned, Deadline, EntityExtractionConfig, CitationExtractionConfig,
  TopicExtractionConfig, Extractor, UnifiedExtractor, Extractors, StorageManager, LlmClient,
  AnalysisConfig, PipelineMetrics, PipelineDocument,
}

-- What a pipeline is made with.
pub record Parts : Type 0 where
  pub entity_extractors : Extractors EntityExtractionConfig
  pub citation_extractors : Extractors CitationExtractionConfig
  pub topic_extractors : Extractors TopicExtractionConfig
  pub unified_extractor : Option UnifiedExtractor
  pub storage_manager : Option StorageManager
  pub llm_client : Option LlmClient

-- What a stage works on: the configuration, which an extraction may change, the metrics, the document, and the
-- errors of the extraction.
pub record Work : Type 0 where
  pub config : AnalysisConfig
  pub metrics : PipelineMetrics
  pub document : PipelineDocument
  pub extraction_errors : List Bytes

abbrev pub record_extractor_usage : Bytes → PipelineMetrics → PipelineMetrics
record_extractor_usage method m = record m {
  extractor_usage_count = bump method m.extractor_usage_count;
  total_analyses = m.total_analyses + 1;
}

abbrev pub record_error : Bytes → PipelineMetrics → PipelineMetrics
record_error error_type m = record m { error_counts = bump error_type m.error_counts }

-- The integer division panics if nothing was recorded, which is `none`.
unfoldable pub update_processing_time : ℕ → PipelineMetrics → Option PipelineMetrics
update_processing_time duration m =
    if m.total_analyses == 1
    then some (record m { average_processing_time = duration })
    else if m.total_analyses == 0
    then none
    else some (record m {
      average_processing_time =
          (m.average_processing_time * (m.total_analyses - 1) + duration) / m.total_analyses;
    })

abbrev pub or_next {ℓ} : {A : Type ℓ} → Bytes → Option A → Option (Bytes × A) → Option (Bytes × A)
or_next method none rest = rest
or_next method (some e) rest = some (method, e)

abbrev pub first_available {ℓ} : {A : Type ℓ} → List (Bytes × Option A) → Option (Bytes × A)
first_available [] = none
first_available (e ∷ es) = or_next e.0 e.1 (first_available es)

abbrev pub present {ℓ} : {A : Type ℓ} → Option (Option A) → Option A
present none = none
present (some e) = e

-- The extractor of the preferred method or, with the fallback, the first there is.
unfoldable pub choose_extractor {ℓ} :
    {A : Type ℓ} → Bool → Bytes → List (Bytes × Option A) → Option (Bytes × A)
choose_extractor fallback preferred extractors =
    or_next preferred (present (lookup preferred extractors))
      (if fallback then first_available extractors else none)

abbrev pub extraction_deadline : ℕ → ℕ → Deadline → Deadline
extraction_deadline now timeout none = some (now + timeout)
extraction_deadline now timeout (some d) = some (min d (now + timeout))

-- The context of the loop of a worker, which stays for its next document.
unfoldable pub with_analysis_timeout : ℕ → AnalysisConfig → Deadline → Deadline
with_analysis_timeout now config deadline =
    if ltb 0 config.analysis_timeout
    then extraction_deadline now config.analysis_timeout deadline
    else deadline

-- The results of one kind, with the method, go to the document.
abbrev pub with_entities : Bytes → List ℕ → PipelineDocument → PipelineDocument
with_entities method xs d = record d {
  result = record d.result { entities = xs };
  response = record d.response {
    extractor_used = put (codes "entities") method d.response.extractor_used;
  };
}

abbrev pub with_citations : Bytes → List ℕ → PipelineDocument → PipelineDocument
with_citations method xs d = record d {
  result = record d.result { citations = xs };
  response = record d.response {
    extractor_used = put (codes "citations") method d.response.extractor_used;
  };
}

abbrev pub with_topics : Bytes → List ℕ → PipelineDocument → PipelineDocument
with_topics method xs d = record d {
  result = record d.result { topics = xs };
  response = record d.response {
    extractor_used = put (codes "topics") method d.response.extractor_used;
  };
}

abbrev pub fail_extraction : Bytes → Bytes → Work → Work
fail_extraction kind err w = record w {
  extraction_errors = w.extraction_errors ++ ((kind ++ codes " extraction failed: " ++ err) ∷ []);
}

-- The result of an extractor is counted, and taken or its error noted.
abbrev pub after_extraction :
    Bytes → (List ℕ → PipelineDocument → PipelineDocument) → Bytes → Work → Returned (List ℕ) → Work
after_extraction kind take_results method w (failed err) =
    fail_extraction kind err
      (record w { metrics = record_error (kind ++ codes "_extraction_" ++ method) w.metrics })
after_extraction kind take_results method w (returned xs) = record w {
  metrics = record_extractor_usage method w.metrics;
  document = take_results xs w.document;
}

abbrev pub entity_config : AnalysisConfig → EntityExtractionConfig
entity_config c = record {
  enabled = true;
  method = c.preferred_entity_method;
  min_confidence = c.min_confidence_score;
  max_entities = 1000;
  entity_types = [];
}

abbrev pub citation_config : AnalysisConfig → CitationExtractionConfig
citation_config c = record {
  enabled = true;
  method = c.preferred_citation_method;
  min_confidence = c.min_confidence_score;
  max_citations = 1000;
  formats = [];
}

abbrev pub topic_config : AnalysisConfig → TopicExtractionConfig
topic_config c = record {
  enabled = true;
  method = c.preferred_topic_method;
  num_topics = 10;
  min_confidence = c.min_confidence_score;
  max_keywords = 20;
}

-- The method that was found is written to the configuration.
abbrev pub extract_entities :
    Deadline → Work → Option (Bytes × Extractor EntityExtractionConfig) → Work
extract_entities deadline w none =
    fail_extraction (codes "entity") (codes "no entity extractor available") w
extract_entities deadline w (some e) =
    let config = record w.config { preferred_entity_method = e.0 } in
    after_extraction (codes "entity") (with_entities e.0) e.0 (record w { config = config })
      (e.1 deadline w.document.request.document (entity_config config))

abbrev pub extract_citations :
    Deadline → Work → Option (Bytes × Extractor CitationExtractionConfig) → Work
extract_citations deadline w none =
    fail_extraction (codes "citation") (codes "no citation extractor available") w
extract_citations deadline w (some e) =
    let config = record w.config { preferred_citation_method = e.0 } in
    after_extraction (codes "citation") (with_citations e.0) e.0 (record w { config = config })
      (e.1 deadline w.document.request.document (citation_config config))

abbrev pub extract_topics :
    Deadline → Work → Option (Bytes × Extractor TopicExtractionConfig) → Work
extract_topics deadline w none =
    fail_extraction (codes "topic") (codes "no topic extractor available") w
extract_topics deadline w (some e) =
    let config = record w.config { preferred_topic_method = e.0 } in
    after_extraction (codes "topic") (with_topics e.0) e.0 (record w { config = config })
      (e.1 deadline w.document.request.document (topic_config config))

-- The individual extractions, one after the other.
unfoldable pub entity_step : Parts → Deadline → Work → Work
unfolding choose_extractor
entity_step p deadline w =
    if w.config.enable_entity_extraction
    then extract_entities deadline w (
        choose_extractor w.config.fallback_on_failure w.config.preferred_entity_method
          p.entity_extractors)
    else w

unfoldable pub citation_step : Parts → Deadline → Work → Work
unfolding choose_extractor
citation_step p deadline w =
    if w.config.enable_citation_extraction
    then extract_citations deadline w (
        choose_extractor w.config.fallback_on_failure w.config.preferred_citation_method
          p.citation_extractors)
    else w

unfoldable pub topic_step : Parts → Deadline → Work → Work
unfolding choose_extractor
topic_step p deadline w =
    if w.config.enable_topic_extraction
    then extract_topics deadline w (
        choose_extractor w.config.fallback_on_failure w.config.preferred_topic_method
          p.topic_extractors)
    else w

abbrev pub extract_individually : Parts → Deadline → Work → Work
extract_individually p deadline w =
    topic_step p deadline (citation_step p deadline (entity_step p deadline w))
