-- ===== src/Config.antt =====
-- The configuration, internal/config/config.go. Fractions are in thousandths, durations in seconds.
pub mod Default
pub mod Validate
pub mod Convert
mod Examples
use ideas.Base.{ℕ, Bool, true, false, List, [], ◌∷◌, Option}
use ideas.Base.Int.{ℤ}
use ideas.Base.Text.{Bytes}

pub record ServerConfig : Type 0 where
  pub host : Bytes
  pub port : ℤ
  pub read_timeout : ℤ
  pub write_timeout : ℤ
  pub idle_timeout : ℤ
  pub enable_cors : Bool
  pub static_dir : Bytes
  pub template_dir : Bytes

pub record LlmConfig : Type 0 where
  pub provider : Bytes
  pub base_url : Bytes
  pub chat_model : Bytes
  pub embedding_model : Bytes
  pub temperature : ℤ
  pub max_tokens : ℤ
  pub timeout : ℤ
  pub retry_attempts : ℤ
  pub concurrent_calls : ℤ

pub record StorageConfig : Type 0 where
  pub storage_type : Bytes
  pub host : Bytes
  pub port : ℤ
  pub database : Bytes
  pub default_collection : Bytes
  pub max_connections : ℤ
  pub timeout : ℤ
  pub retry_attempts : ℤ
  pub auto_create_collections : Bool
  pub embedding_function : Bytes
  pub distance_function : Bytes

pub record EntityExtractionConfig : Type 0 where
  pub enabled : Bool
  pub default_method : Bytes
  pub min_confidence : ℤ
  pub max_entities : ℤ
  pub include_context : Bool
  pub deduplicate : Bool
  pub entity_types : List Bytes
  pub cache_enabled : Bool
  pub cache_ttl : ℤ

pub record DoiConfig : Type 0 where
  pub enabled : Bool
  pub crossref_url : Bytes
  pub timeout : ℤ
  pub user_agent : Bytes
  pub rate_limit : ℤ
  pub cache_enabled : Bool
  pub max_cache_size : ℤ

pub record CitationExtractionConfig : Type 0 where
  pub enabled : Bool
  pub default_method : Bytes
  pub min_confidence : ℤ
  pub max_citations : ℤ
  pub formats : List Bytes
  pub enrich_with_doi : Bool
  pub enrich_with_metadata : Bool
  pub validate_references : Bool
  pub doi_config : DoiConfig
  pub cache_enabled : Bool
  pub cache_ttl : ℤ

pub record TopicExtractionConfig : Type 0 where
  pub enabled : Bool
  pub default_method : Bytes
  pub num_topics : ℤ
  pub min_confidence : ℤ
  pub max_keywords : ℤ
  pub enable_clustering : Bool
  pub cache_enabled : Bool
  pub cache_ttl : ℤ

pub record DocumentClassificationConfig : Type 0 where
  pub enabled : Bool
  pub default_method : Bytes
  pub min_confidence : ℤ
  pub cache_enabled : Bool
  pub cache_ttl : ℤ

pub record AnalysisConfig : Type 0 where
  pub entity_extraction : EntityExtractionConfig
  pub citation_extraction : CitationExtractionConfig
  pub topic_extraction : TopicExtractionConfig
  pub document_classification : DocumentClassificationConfig
  pub enable_summary : Bool
  pub enable_relationships : Bool
  pub parallel_processing : Bool
  pub batch_size : ℤ

pub record LoggingConfig : Type 0 where
  pub level : Bytes
  pub format : Bytes
  pub output : Bytes

pub record PerformanceConfig : Type 0 where
  pub max_concurrent_analyses : ℤ
  pub analysis_timeout : ℤ
  pub max_document_size : ℤ
  pub enable_metrics : Bool
  pub metrics_interval : ℤ
  pub max_memory_usage : ℤ
  pub gc_interval : ℤ
  pub global_cache_enabled : Bool
  pub global_cache_size : ℤ
  pub global_cache_ttl : ℤ

pub record Config : Type 0 where
  pub server : ServerConfig
  pub llm : LlmConfig
  pub storage : StorageConfig
  pub analysis : AnalysisConfig
  pub logging : LoggingConfig
  pub performance : PerformanceConfig
