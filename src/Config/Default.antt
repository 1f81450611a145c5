-- ===== src/Config/Default.antt =====
-- DefaultConfig of internal/config/config.go.
use ideas.Base.{true, [], ◌∷◌}
use ideas.Base.Int.{pos}
use ideas.Base.Text.{codes}
use ideas.Config.{
  ServerConfig, LlmConfig, StorageConfig, EntityExtractionConfig, DoiConfig,
  CitationExtractionConfig, TopicExtractionConfig, DocumentClassificationConfig, AnalysisConfig,
  LoggingConfig, PerformanceConfig, Config,
}

abbrev default_server : ServerConfig
default_server = record {
  host = codes "0.0.0.0";
  port = pos 8080;
  read_timeout = pos 30;
  write_timeout = pos 30;
  idle_timeout = pos 60;
  enable_cors = true;
  static_dir = codes "web/static";
  template_dir = codes "web/templates";
}

abbrev default_llm : LlmConfig
default_llm = record {
  provider = codes "ollama";
  base_url = codes "http://localhost:11434";
  chat_model = codes "llama3.2";
  embedding_model = codes "nomic-embed-text";
  temperature = pos 100;
  max_tokens = pos 2048;
  timeout = pos 60;
  retry_attempts = pos 3;
  concurrent_calls = pos 4;
}

abbrev default_storage : StorageConfig
default_storage = record {
  storage_type = codes "chromadb";
  host = codes "localhost";
  port = pos 8000;
  database = codes "idaes";
  default_collection = codes "documents";
  max_connections = pos 10;
  timeout = pos 30;
  retry_attempts = pos 3;
  auto_create_collections = true;
  embedding_function = codes "default";
  distance_function = codes "cosine";
}

abbrev default_entities : EntityExtractionConfig
default_entities = record {
  enabled = true;
  default_method = codes "llm";
  min_confidence = pos 700;
  max_entities = pos 100;
  include_context = true;
  deduplicate = true;
  entity_types = codes "PERSON" ∷ codes "ORGANIZATION" ∷ codes "LOCATION" ∷ codes "CONCEPT" ∷ [];
  cache_enabled = true;
  cache_ttl = pos 3600;
}

abbrev default_doi : DoiConfig
default_doi = record {
  enabled = true;
  crossref_url = codes "https://api.crossref.org/works/";
  timeout = pos 10;
  user_agent = codes "IDAES/1.0";
  rate_limit = pos 1;
  cache_enabled = true;
  max_cache_size = pos 1000;
}

abbrev default_citations : CitationExtractionConfig
default_citations = record {
  enabled = true;
  default_method = codes "llm";
  min_confidence = pos 700;
  max_citations = pos 50;
  formats = codes "apa" ∷ codes "mla" ∷ codes "chicago" ∷ codes "ieee" ∷ [];
  enrich_with_doi = true;
  enrich_with_metadata = true;
  validate_references = true;
  doi_config = default_doi;
  cache_enabled = true;
  cache_ttl = pos 3600;
}

abbrev default_topics : TopicExtractionConfig
default_topics = record {
  enabled = true;
  default_method = codes "llm";
  num_topics = pos 10;
  min_confidence = pos 600;
  max_keywords = pos 20;
  enable_clustering = true;
  cache_enabled = true;
  cache_ttl = pos 7200;
}

abbrev default_classification : DocumentClassificationConfig
default_classification = record {
  enabled = true;
  default_method = codes "llm";
  min_confidence = pos 700;
  cache_enabled = true;
  cache_ttl = pos 14400;
}

abbrev default_analysis : AnalysisConfig
default_analysis = record {
  entity_extraction = default_entities;
  citation_extraction = default_citations;
  topic_extraction = default_topics;
  document_classification = default_classification;
  enable_summary = true;
  enable_relationships = true;
  parallel_processing = true;
  batch_size = pos 10;
}

abbrev default_logging : LoggingConfig
default_logging = record { level = codes "info"; format = codes "json"; output = codes "stdout" }

abbrev default_performance : PerformanceConfig
default_performance = record {
  max_concurrent_analyses = pos 4;
  analysis_timeout = pos 300;
  max_document_size = pos 52428800;
  enable_metrics = true;
  metrics_interval = pos 60;
  max_memory_usage = pos 2147483648;
  gc_interval = pos 300;
  global_cache_enabled = true;
  global_cache_size = pos 1000;
  global_cache_ttl = pos 3600;
}

abbrev pub default_config : Config
default_config = record {
  server = default_server;
  llm = default_llm;
  storage = default_storage;
  analysis = default_analysis;
  logging = default_logging;
  performance = default_performance;
}
