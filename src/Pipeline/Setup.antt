-- ===== src/Pipeline/Setup.antt =====
-- How a pipeline of internal/analyzers/pipeline.go is set up: its extractors and its configuration.
use ideas.Base.{Bool, true, false, Option, none, some}
use ideas.Base.Table.{put_each}
use ideas.Base.Text.{Bytes, codes}
use ideas.Pipeline.Flow.{AnalysisPipeline}
use ideas.Pipeline.Types.{
  Extractors, UnifiedExtractor, EntityExtractionConfig, CitationExtractionConfig,
  TopicExtractionConfig, AnalysisConfig, PipelineMetrics,
}

abbrev pub register_extractors :
    Extractors EntityExtractionConfig
    → Extractors CitationExtractionConfig
    → Extractors TopicExtractionConfig
    → AnalysisPipeline
    → AnalysisPipeline
register_extractors entity citation topic p = record p {
  parts = record p.parts {
    entity_extractors = put_each entity p.parts.entity_extractors;
    citation_extractors = put_each citation p.parts.citation_extractors;
    topic_extractors = put_each topic p.parts.topic_extractors;
  };
}

abbrev pub register_unified_extractor :
    Option UnifiedExtractor → AnalysisPipeline → AnalysisPipeline
register_unified_extractor extractor p = record p {
  parts = record p.parts { unified_extractor = extractor };
}

abbrev is_some {ℓ} : {A : Type ℓ} → Option A → Bool
is_some none = false
is_some (some a) = true

abbrev pub has_unified_extractor : AnalysisPipeline → Bool
has_unified_extractor p = is_some p.parts.unified_extractor

-- A configuration is copied, in and out.
abbrev pub get_config : AnalysisPipeline → AnalysisConfig
get_config p = p.config

abbrev pub update_config :
    Option AnalysisConfig → AnalysisPipeline → AnalysisPipeline × Option Bytes
update_config none p = (p, some (codes "configuration cannot be nil"))
update_config (some c) p = (record p { config = c }, none)

-- The copies of the maps are equal to them.
abbrev pub get_metrics : AnalysisPipeline → PipelineMetrics
get_metrics p = p.metrics
