-- ===== src/Config/Convert.antt =====
-- The conversions of internal/config/config.go to the settings of internal/interfaces/extractors.go.
use ideas.Base.{Bool, List, [], Option}
use ideas.Base.Int.{ℤ}
use ideas.Base.Text.{Bytes, codes}
use ideas.Config.{
  LlmConfig, DoiConfig, EntityExtractionConfig, CitationExtractionConfig, TopicExtractionConfig,
}

pub record LlmSettings : Type 0 where
  pub provider : Bytes
  pub base_url : Bytes
  pub model : Bytes
  pub embedding_model : Bytes
  pub temperature : ℤ
  pub max_tokens : ℤ
  pub timeout : ℤ
  pub retry_attempts : ℤ
  pub system_prompt : Bytes
  pub user_prompt : Bytes

-- What the three kinds of settings share.
pub record Methods : Type 0 where
  pub primary_method : Bytes
  pub fallback_method : Bytes
  pub hybrid_strategy : Bytes
  pub llm_config : Option LlmSettings
  pub cache_enabled : Bool
  pub cache_ttl : ℤ

pub record EntitySettings : Type 0 where
  pub enabled : Bool
  pub method : Bytes
  pub min_confidence : ℤ
  pub max_entities : ℤ
  pub include_context : Bool
  pub deduplicate : Bool
  pub entity_types : List Bytes
  pub methods : Methods

pub record CitationSettings : Type 0 where
  pub enabled : Bool
  pub method : Bytes
  pub min_confidence : ℤ
  pub max_citations : ℤ
  pub formats : List Bytes
  pub enrich_with_doi : Bool
  pub enrich_with_metadata : Bool
  pub validate_references : Bool
  pub doi_config : DoiConfig
  pub methods : Methods

pub record TopicSettings : Type 0 where
  pub enabled : Bool
  pub method : Bytes
  pub num_topics : ℤ
  pub min_confidence : ℤ
  pub max_keywords : ℤ
  pub enable_clustering : Bool
  pub llm_config : Option LlmSettings
  pub cache_enabled : Bool
  pub cache_ttl : ℤ

abbrev llm_only : Option LlmSettings → Bool → ℤ → Methods
llm_only llm cache_enabled cache_ttl = record {
  primary_method = codes "llm";
  fallback_method = codes "llm";
  hybrid_strategy = [];
  llm_config = llm;
  cache_enabled = cache_enabled;
  cache_ttl = cache_ttl;
}

abbrev pub to_entity_settings : EntityExtractionConfig → Option LlmSettings → EntitySettings
to_entity_settings c llm = record {
  enabled = c.enabled;
  method = c.default_method;
  min_confidence = c.min_confidence;
  max_entities = c.max_entities;
  include_context = c.include_context;
  deduplicate = c.deduplicate;
  entity_types = c.entity_types;
  methods = llm_only llm c.cache_enabled c.cache_ttl;
}

abbrev pub to_citation_settings : CitationExtractionConfig → Option LlmSettings → CitationSettings
to_citation_settings c llm = record {
  enabled = c.enabled;
  method = c.default_method;
  min_confidence = c.min_confidence;
  max_citations = c.max_citations;
  formats = c.formats;
  enrich_with_doi = c.enrich_with_doi;
  enrich_with_metadata = c.enrich_with_metadata;
  validate_references = c.validate_references;
  doi_config = c.doi_config;
  methods = llm_only llm c.cache_enabled c.cache_ttl;
}

abbrev pub to_topic_settings : TopicExtractionConfig → Option LlmSettings → TopicSettings
to_topic_settings c llm = record {
  enabled = c.enabled;
  method = c.default_method;
  num_topics = c.num_topics;
  min_confidence = c.min_confidence;
  max_keywords = c.max_keywords;
  enable_clustering = c.enable_clustering;
  llm_config = llm;
  cache_enabled = c.cache_enabled;
  cache_ttl = c.cache_ttl;
}

abbrev pub to_llm_settings : LlmConfig → LlmSettings
to_llm_settings c = record {
  provider = c.provider;
  base_url = c.base_url;
  model = c.chat_model;
  embedding_model = c.embedding_model;
  temperature = c.temperature;
  max_tokens = c.max_tokens;
  timeout = c.timeout;
  retry_attempts = c.retry_attempts;
  system_prompt = [];
  user_prompt = [];
}
