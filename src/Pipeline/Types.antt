-- ===== src/Pipeline/Types.antt =====
-- The types of internal/analyzers/pipeline.go and what they hold of internal/types/common.go and
-- internal/interfaces/extractors.go. Entities, citations, topics and embeddings, which the pipeline passes on
-- without a look, are named by numbers, errors are their texts, confidences are in thousandths, times and durations
-- in nanoseconds. A deadline is that of the context of a call.
use ideas.Base.{ℕ, Bool, true, false, List, [], Option, none}
use ideas.Base.Int.{ℤ, pos}
use ideas.Base.Text.{Bytes, codes}
use ideas.Chunking.Types.{Document}

-- A result, or an error.
pub data Returned {ℓ} (A : Type ℓ) : Type ℓ where
  failed : Bytes → Returned A
  returned : A → Returned A

abbrev pub Deadline : Type 0
Deadline = Option ℕ

pub data PipelineStage : Type 0 where
  stage_document : PipelineStage
  stage_extraction : PipelineStage
  stage_processing : PipelineStage
  stage_storage : PipelineStage
  stage_complete : PipelineStage

-- The method of stageX.String.
abbrev pub stage_name : PipelineStage → Bytes
stage_name stage_document = codes "document"
stage_name stage_extraction = codes "extraction"
stage_name stage_processing = codes "processing"
stage_name stage_storage = codes "storage"
stage_name stage_complete = codes "complete"

-- Of the settings of the extractors, the fields that the pipeline sets.
pub record EntityExtractionConfig : Type 0 where
  pub enabled : Bool
  pub method : Bytes
  pub min_confidence : ℤ
  pub max_entities : ℕ
  pub entity_types : List Bytes

pub record CitationExtractionConfig : Type 0 where
  pub enabled : Bool
  pub method : Bytes
  pub min_confidence : ℤ
  pub max_citations : ℕ
  pub formats : List Bytes

pub record TopicExtractionConfig : Type 0 where
  pub enabled : Bool
  pub method : Bytes
  pub num_topics : ℕ
  pub min_confidence : ℤ
  pub max_keywords : ℕ

pub record UnifiedExtractionConfig : Type 0 where
  pub temperature : ℤ
  pub max_tokens : ℕ
  pub min_confidence : ℤ
  pub max_entities : ℕ
  pub max_citations : ℕ
  pub max_topics : ℕ
  pub analysis_depth : Bytes
  pub include_metadata : Bool

pub record UnifiedExtractionResult : Type 0 where
  pub entities : List ℕ
  pub citations : List ℕ
  pub topics : List ℕ

-- What an extractor of the interfaces does; none of them returns neither a result nor an error.
abbrev pub Extractor : Type 0 → Type 0
Extractor C = Deadline → Document → C → Returned (List ℕ)

abbrev pub UnifiedExtractor : Type 0
UnifiedExtractor = Deadline → Document → UnifiedExtractionConfig → Returned UnifiedExtractionResult

-- The map of the extractors of a kind, some of which may be nil.
abbrev pub Extractors : Type 0 → Type 0
Extractors C = List (Bytes × Option (Extractor C))

-- Of the storage manager the pipeline sees the errors only.
pub record StorageManager : Type 0 where
  pub store_document : Deadline → Document → Option Bytes
  pub store_entity : Deadline → ℕ → Option Bytes
  pub store_citation : Deadline → ℕ → Option Bytes
  pub store_topic : Deadline → ℕ → Option Bytes
  pub health : Deadline → Option Bytes

pub record LlmClient : Type 0 where
  pub embed : Deadline → Bytes → Returned ℕ
  pub health : Deadline → Option Bytes

pub record AnalysisConfig : Type 0 where
  pub preferred_entity_method : Bytes
  pub preferred_citation_method : Bytes
  pub preferred_topic_method : Bytes
  pub use_unified_extraction : Bool
  pub unified_fallback_enabled : Bool
  pub max_concurrent_analyses : ℕ
  pub analysis_timeout : ℕ
  pub retry_attempts : ℕ
  pub retry_delay : ℕ
  pub min_confidence_score : ℤ
  pub require_validation : Bool
  pub fallback_on_failure : Bool
  pub enable_entity_extraction : Bool
  pub enable_citation_extraction : Bool
  pub enable_topic_extraction : Bool
  pub enable_semantic_analysis : Bool
  pub store_results : Bool
  pub generate_embeddings : Bool

abbrev pub default_analysis_config : AnalysisConfig
default_analysis_config = record {
  preferred_entity_method = codes "llm";
  preferred_citation_method = codes "llm";
  preferred_topic_method = codes "llm";
  use_unified_extraction = false;
  unified_fallback_enabled = true;
  max_concurrent_analyses = 10;
  analysis_timeout = 300000000000;
  retry_attempts = 3;
  retry_delay = 1000000000;
  min_confidence_score = pos 700;
  require_validation = true;
  fallback_on_failure = true;
  enable_entity_extraction = true;
  enable_citation_extraction = true;
  enable_topic_extraction = true;
  enable_semantic_analysis = true;
  store_results = true;
  generate_embeddings = true;
}

-- The counters are of 64 bits and do not reach their ends.
pub record PipelineMetrics : Type 0 where
  pub total_analyses : ℕ
  pub successful_analyses : ℕ
  pub failed_analyses : ℕ
  pub average_processing_time : ℕ
  pub extractor_usage_count : List (Bytes × ℕ)
  pub error_counts : List (Bytes × ℕ)

abbrev pub new_pipeline_metrics : PipelineMetrics
new_pipeline_metrics = record {
  total_analyses = 0;
  successful_analyses = 0;
  failed_analyses = 0;
  average_processing_time = 0;
  extractor_usage_count = [];
  error_counts = [];
}

-- `has_callback` is whether ResultCallback is not nil.
pub record AnalysisRequest : Type 0 where
  pub document : Document
  pub request_id : Bytes
  pub priority : ℤ
  pub custom_config : Option AnalysisConfig
  pub has_callback : Bool

-- What the pipeline writes: of the metadata that is the embedding only.
pub record AnalysisResult : Type 0 where
  pub document_id : Bytes
  pub entities : List ℕ
  pub citations : List ℕ
  pub topics : List ℕ
  pub embedding : Option ℕ

abbrev pub new_analysis_result : Bytes → AnalysisResult
new_analysis_result document_id = record {
  document_id = document_id;
  entities = [];
  citations = [];
  topics = [];
  embedding = none;
}

pub record AnalysisResponse : Type 0 where
  pub request_id : Bytes
  pub document : Document
  pub result : Option AnalysisResult
  pub processing_time : ℕ
  pub extractor_used : List (Bytes × Bytes)
  pub error : Option Bytes
  pub timestamp : ℕ

pub record PipelineDocument : Type 0 where
  pub request : AnalysisRequest
  pub response : AnalysisResponse
  pub result : AnalysisResult
  pub stage : PipelineStage
  pub start_time : ℕ
  pub stage_start : ℕ
  pub errors : List Bytes
