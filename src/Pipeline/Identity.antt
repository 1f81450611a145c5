-- ===== src/Pipeline/Identity.antt =====
-- What the rounds of internal/analyzers/pipeline.go leave as it is in a document.
use ideas.Base.{ℕ, List, [], ◌∷◌, Option, none, some, ◌≡◌, refl, ◌∙◌, if-holds}
use ideas.Base.Text.{Bytes}
use ideas.Pipeline.Extraction.{Parts}
use ideas.Pipeline.Rounds.{
  unified_entities, unified_citations, take_unified, take_embedding, embed_with, processing_round,
  store_with, completed, succeed, finalize, storage_round, some_enabled,
}
use ideas.Pipeline.Types.{
  Returned, failed, returned, stage_processing, stage_storage, Deadline, UnifiedExtractionResult,
  StorageManager, LlmClient, AnalysisConfig, PipelineMetrics, PipelineDocument,
}

-- The same request, with a response of the same id, begun at the same time.
pub record IsSame (d e : PipelineDocument) : Type 0 where
  pub request : e.request ≡ d.request
  pub request_id : e.response.request_id ≡ d.response.request_id
  pub start_time : e.start_time ≡ d.start_time

pub IsSame-refl : (d : PipelineDocument) → IsSame d d
IsSame-refl d = record { request = refl; request_id = refl; start_time = refl }

pub IsSame-trans : {d e f : PipelineDocument} → IsSame d e → IsSame e f → IsSame d f
IsSame-trans h k = record {
  request = k.request ∙ h.request;
  request_id = k.request_id ∙ h.request_id;
  start_time = k.start_time ∙ h.start_time;
}

pub take_unified-IsSame :
    (c : AnalysisConfig) (r : UnifiedExtractionResult) (d : PipelineDocument)
    → IsSame d (take_unified c r d)
take_unified-IsSame c r d =
    let one = unified_entities c r d in
    let two = unified_citations c r one in
    IsSame-trans
      (IsSame-trans
        (if-holds (IsSame d) (some_enabled c.enable_entity_extraction r.entities)
          (record { request = refl; request_id = refl; start_time = refl }) (IsSame-refl d))
        (if-holds (IsSame one) (some_enabled c.enable_citation_extraction r.citations)
          (record { request = refl; request_id = refl; start_time = refl }) (IsSame-refl one)))
      (if-holds (IsSame two) (some_enabled c.enable_topic_extraction r.topics)
        (record { request = refl; request_id = refl; start_time = refl }) (IsSame-refl two))

take_embedding-IsSame : (d : PipelineDocument) (r : Returned ℕ) → IsSame d (take_embedding d r)
take_embedding-IsSame d (failed err) = record {
  request = refl;
  request_id = refl;
  start_time = refl;
}
take_embedding-IsSame d (returned e) = record {
  request = refl;
  request_id = refl;
  start_time = refl;
}

embed_with-IsSame :
    (c : AnalysisConfig) (deadline : Deadline) (d : PipelineDocument) (o : Option LlmClient)
    → IsSame d (embed_with c deadline d o)
embed_with-IsSame c deadline d none = IsSame-refl d
embed_with-IsSame c deadline d (some client) =
    if-holds (IsSame d) c.generate_embeddings (take_embedding-IsSame d _) (IsSame-refl d)

pub processing_round-IsSame :
    (p : Parts) (now : ℕ) (deadline : Deadline) (c : AnalysisConfig) (d : PipelineDocument)
    → IsSame d (processing_round p now deadline c d)
unfolding processing_round
processing_round-IsSame p now deadline c d =
    let begun = record d { stage = stage_processing; stage_start = now } in
    let h = embed_with-IsSame c deadline begun p.llm_client in
    record { request = h.request; request_id = h.request_id; start_time = h.start_time }

store_with-IsSame :
    (c : AnalysisConfig) (deadline : Deadline) (d : PipelineDocument) (o : Option StorageManager)
    → IsSame d (store_with c deadline d o)
store_with-IsSame c deadline d none = IsSame-refl d
store_with-IsSame c deadline d (some m) =
    if-holds (IsSame d) c.store_results
      (record { request = refl; request_id = refl; start_time = refl }) (IsSame-refl d)

-- If the end of the storage does not panic, its document is the same.
abbrev pub SameIfAny : PipelineDocument → Option (PipelineMetrics × PipelineDocument) → Type 0
SameIfAny d none = Unit
SameIfAny d (some r) = IsSame d r.1

succeed-IsSame :
    (d e : PipelineDocument) (o : Option PipelineMetrics) → IsSame d e → SameIfAny d (succeed e o)
succeed-IsSame d e none h = tt
succeed-IsSame d e (some m) h = h

finalize-IsSame :
    (d e : PipelineDocument) (m : PipelineMetrics) (errs : List Bytes)
    → IsSame d e
    → SameIfAny d (finalize m e errs)
unfolding finalize
finalize-IsSame d e m [] h = succeed-IsSame d e _ h
finalize-IsSame d e m (x ∷ errs) h = record {
  request = h.request;
  request_id = h.request_id;
  start_time = h.start_time;
}

pub storage_round-IsSame :
    (p : Parts) (now finished : ℕ) (deadline : Deadline) (c : AnalysisConfig) (m : PipelineMetrics)
    (d : PipelineDocument)
    → SameIfAny d (storage_round p now finished deadline c m d)
unfolding storage_round
storage_round-IsSame p now finished deadline c m d =
    let begun = record d { stage = stage_storage; stage_start = now } in
    let kept = store_with c deadline begun p.storage_manager in
    let h = store_with-IsSame c deadline begun p.storage_manager in
    finalize-IsSame d (completed finished kept) m kept.errors
      (record { request = h.request; request_id = h.request_id; start_time = h.start_time })
