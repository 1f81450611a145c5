-- ===== src/Pipeline/Uses.antt =====
-- What an extraction of internal/analyzers/pipeline.go does to the metrics.
use ideas.Base.{
  ℕ, ◌+◌, ◌≤◌, ap, arith, List, [], Option, none, some, ◌≡◌, refl, ◌∙◌, if-holds, ◌++◌,
}
use ideas.Base.Table.{sum_counts, sum_counts-bump}
use ideas.Base.Text.{Bytes, codes}
use ideas.Pipeline.Extraction.{
  Parts, Work, record_extractor_usage, fail_extraction, choose_extractor, with_entities,
  with_citations, with_topics, after_extraction, extract_entities, extract_citations,
  extract_topics, entity_step, citation_step, topic_step, extract_individually, entity_config,
  citation_config, topic_config,
}
use ideas.Pipeline.Rounds.{after_unified, extract, extraction_round}
use ideas.Pipeline.Types.{
  Returned, failed, returned, stage_extraction, Deadline, Extractor, EntityExtractionConfig,
  CitationExtractionConfig, TopicExtractionConfig, UnifiedExtractor, UnifiedExtractionResult,
  AnalysisConfig, PipelineMetrics, PipelineDocument,
}
use ideas.Pipeline.Identity.{IsSame, IsSame-refl, IsSame-trans, take_unified-IsSame}

-- The documents that were counted at their end.
abbrev pub outcomes : PipelineMetrics → ℕ
outcomes m = m.successful_analyses + m.failed_analyses

-- An extraction keeps the document the same, and counts each use of an extractor as an analysis.
pub record Keeps (v w : Work) : Type 0 where
  pub same : IsSame v.document w.document
  pub grows : v.metrics.total_analyses ≤ w.metrics.total_analyses
  pub counted :
      w.metrics.total_analyses + sum_counts v.metrics.extractor_usage_count
      ≡ v.metrics.total_analyses + sum_counts w.metrics.extractor_usage_count
  pub finished : outcomes w.metrics ≡ outcomes v.metrics

Keeps-same :
    (v w : Work)
    → IsSame v.document w.document
    → v.metrics.total_analyses ≡ w.metrics.total_analyses
    → v.metrics.extractor_usage_count ≡ w.metrics.extractor_usage_count
    → outcomes w.metrics ≡ outcomes v.metrics
    → Keeps v w
Keeps-same v w h t u o = record {
  finished = o;
  same = h;
  grows = omega (arith, t);
  counted = omega (arith, t, ap sum_counts u);
}

Keeps-refl : (w : Work) → Keeps w w
Keeps-refl w = Keeps-same w w (IsSame-refl w.document) refl refl refl

Keeps-used :
    (method : Bytes) (v w : Work)
    → IsSame v.document w.document
    → w.metrics ≡ record_extractor_usage method v.metrics
    → Keeps v w
Keeps-used method v w h e = record {
  same = h;
  grows = omega (arith, ap (λ m. m.total_analyses) e);
  counted = omega (
    arith,
    ap (λ m. m.total_analyses) e,
    ap (λ m. sum_counts m.extractor_usage_count) e,
    sum_counts-bump method v.metrics.extractor_usage_count,
  );
  finished = ap outcomes e;
}

Keeps-config : {w v : Work} (c : AnalysisConfig) → Keeps (record w { config = c }) v → Keeps w v
Keeps-config c h = record {
  same = record {
    request = h.same.request;
    request_id = h.same.request_id;
    start_time = h.same.start_time;
  };
  grows = h.grows;
  counted = h.counted;
  finished = h.finished;
}

Keeps-trans : {u v w : Work} → Keeps u v → Keeps v w → Keeps u w
Keeps-trans h k = record {
  same = IsSame-trans h.same k.same;
  grows = omega (arith, h.grows, k.grows);
  counted = omega (arith, h.counted, k.counted);
  finished = k.finished ∙ h.finished;
}

after_extraction-Keeps :
    (kind : Bytes) (put : List ℕ → PipelineDocument → PipelineDocument) (method : Bytes) (w : Work)
    (r : Returned (List ℕ))
    → ((xs : List ℕ) (d : PipelineDocument) → IsSame d (put xs d))
    → Keeps w (after_extraction kind put method w r)
after_extraction-Keeps kind put method w (failed err) h =
    Keeps-same w (after_extraction kind put method w (failed err)) (IsSame-refl w.document) refl
      refl refl
after_extraction-Keeps kind put method w (returned xs) h =
    Keeps-used method w (after_extraction kind put method w (returned xs)) (h xs w.document) refl

extract_entities-Keeps :
    (deadline : Deadline) (w : Work) (o : Option (Bytes × Extractor EntityExtractionConfig))
    → Keeps w (extract_entities deadline w o)
extract_entities-Keeps deadline w none =
    Keeps-same w (extract_entities deadline w none) (IsSame-refl w.document) refl refl refl
extract_entities-Keeps deadline w (some e) =
    let config = record w.config { preferred_entity_method = e.0 } in
    Keeps-config config (
      after_extraction-Keeps (codes "entity") (with_entities e.0) e.0 (record w { config = config })
        (e.1 deadline w.document.request.document (entity_config config))
        (λ xs d. record { request = refl; request_id = refl; start_time = refl }))

extract_citations-Keeps :
    (deadline : Deadline) (w : Work) (o : Option (Bytes × Extractor CitationExtractionConfig))
    → Keeps w (extract_citations deadline w o)
extract_citations-Keeps deadline w none =
    Keeps-same w (extract_citations deadline w none) (IsSame-refl w.document) refl refl refl
extract_citations-Keeps deadline w (some e) =
    let config = record w.config { preferred_citation_method = e.0 } in
    Keeps-config config (
      after_extraction-Keeps (codes "citation") (with_citations e.0) e.0
        (record w { config = config })
        (e.1 deadline w.document.request.document (citation_config config))
        (λ xs d. record { request = refl; request_id = refl; start_time = refl }))

extract_topics-Keeps :
    (deadline : Deadline) (w : Work) (o : Option (Bytes × Extractor TopicExtractionConfig))
    → Keeps w (extract_topics deadline w o)
extract_topics-Keeps deadline w none =
    Keeps-same w (extract_topics deadline w none) (IsSame-refl w.document) refl refl refl
extract_topics-Keeps deadline w (some e) =
    let config = record w.config { preferred_topic_method = e.0 } in
    Keeps-config config (
      after_extraction-Keeps (codes "topic") (with_topics e.0) e.0 (record w { config = config })
        (e.1 deadline w.document.request.document (topic_config config))
        (λ xs d. record { request = refl; request_id = refl; start_time = refl }))

entity_step-Keeps :
    (p : Parts) (deadline : Deadline) (w : Work) → Keeps w (entity_step p deadline w)
unfolding entity_step
entity_step-Keeps p deadline w =
    if-holds (Keeps w) w.config.enable_entity_extraction
      (extract_entities-Keeps deadline w (
        choose_extractor w.config.fallback_on_failure w.config.preferred_entity_method
          p.entity_extractors))
      (Keeps-refl w)

citation_step-Keeps :
    (p : Parts) (deadline : Deadline) (w : Work) → Keeps w (citation_step p deadline w)
unfolding citation_step
citation_step-Keeps p deadline w =
    if-holds (Keeps w) w.config.enable_citation_extraction
      (extract_citations-Keeps deadline w (
        choose_extractor w.config.fallback_on_failure w.config.preferred_citation_method
          p.citation_extractors))
      (Keeps-refl w)

topic_step-Keeps : (p : Parts) (deadline : Deadline) (w : Work) → Keeps w (topic_step p deadline w)
unfolding topic_step
topic_step-Keeps p deadline w =
    if-holds (Keeps w) w.config.enable_topic_extraction
      (extract_topics-Keeps deadline w (
        choose_extractor w.config.fallback_on_failure w.config.preferred_topic_method
          p.topic_extractors))
      (Keeps-refl w)

extract_individually-Keeps :
    (p : Parts) (deadline : Deadline) (w : Work) → Keeps w (extract_individually p deadline w)
extract_individually-Keeps p deadline w =
    let one = entity_step p deadline w in
    let two = citation_step p deadline one in
    Keeps-trans (Keeps-trans (entity_step-Keeps p deadline w) (citation_step-Keeps p deadline one))
      (topic_step-Keeps p deadline two)

after_unified-Keeps :
    (p : Parts) (deadline : Deadline) (w : Work) (r : Returned UnifiedExtractionResult)
    → Keeps w (after_unified p deadline w r)
unfolding after_unified
after_unified-Keeps p deadline w (failed err) =
    let next = fail_extraction (codes "unified") (codes "unified extraction failed: " ++ err) w in
    let noted = Keeps-same w next (IsSame-refl w.document) refl refl refl in
    if-holds (Keeps w) w.config.unified_fallback_enabled
      (Keeps-trans noted (extract_individually-Keeps p deadline next)) noted
after_unified-Keeps p deadline w (returned r) =
    Keeps-used (codes "llm") w (after_unified p deadline w (returned r))
      (take_unified-IsSame w.config r w.document) refl

extract-Keeps :
    (p : Parts) (deadline : Deadline) (w : Work) (o : Option UnifiedExtractor)
    → Keeps w (extract p deadline w o)
unfolding extract
extract-Keeps p deadline w none = extract_individually-Keeps p deadline w
extract-Keeps p deadline w (some u) =
    if-holds (Keeps w) w.config.use_unified_extraction (after_unified-Keeps p deadline w _)
      (extract_individually-Keeps p deadline w)

pub extraction_round-Keeps :
    (p : Parts) (now : ℕ) (deadline : Deadline) (w : Work)
    → Keeps w (extraction_round p now deadline w)
unfolding extraction_round
extraction_round-Keeps p now deadline w =
    let begun = record w {
      document = record w.document { stage = stage_extraction; stage_start = now };
      extraction_errors = [];
    } in
    let h = extract-Keeps p deadline begun p.unified_extractor in
    record {
      same = record {
        request = h.same.request;
        request_id = h.same.request_id;
        start_time = h.same.start_time;
      };
      grows = h.grows;
      counted = h.counted;
      finished = h.finished;
    }
