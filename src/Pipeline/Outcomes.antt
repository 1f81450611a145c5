-- ===== src/Pipeline/Outcomes.antt =====
-- The successes and failures that internal/analyzers/pipeline.go counts.
use ideas.Base.{
  ℕ, ◌+◌, ◌-◌, ◌/◌, ◌<◌, ◌≤◌, length-replicate, min, ltb, List, [], ◌∷◌, ◌++◌, Option, none, some,
  ◌≡◌, refl, ap, subst, length, length-append, get_elem?, arith, if-holds,
}
use ideas.Base.Tally.{tally, tally-append}
use ideas.Pipeline.Accounts.{answered, first_of, responses, then_list, idle-weight}
use ideas.Pipeline.Extraction.{Parts, with_analysis_timeout}
use ideas.Pipeline.Flow.{
  Worker, AnalysisPipeline, idle, new_analysis_pipeline, Step, blocked, panicked, went, Taken,
  take_one, config_for, work_on, start_extraction, start_processing, stored_at, start_storage, held,
  hand_over, end_extraction, end_processing, end_storage, pipeline_document, Action, submit,
  extract_begin, extract_end, process_begin, process_end, store_begin, store_end, receive,
  receive_from, step, then_step, run,
}
use ideas.Pipeline.Places.{
  Weight, document_weight, response_weight, weigh, Advanced, extract_begin-Advanced,
  extract_end-Advanced, process_begin-Advanced, process_end-Advanced, store_begin-Advanced,
  store_end-Advanced,
}
use ideas.Pipeline.Rounds.{storage_round}
use ideas.Pipeline.Steps.{OnWent, OnWent-map}
use ideas.Pipeline.Totals.{CountsOne, storage_round-CountsOne}
use ideas.Pipeline.Types.{
  Deadline, AnalysisConfig, AnalysisResponse, PipelineMetrics, PipelineDocument,
}
use ideas.Pipeline.Uses.{outcomes, extraction_round-Keeps}

-- The documents that the storage is done with: at its workers, and as responses.
abbrev ended : Weight
ended k id = min 1 (k - 4)

abbrev pub finished : AnalysisPipeline → ℕ
finished p = weigh ended p

-- A step counts n outcomes.
abbrev Counts : ℕ → AnalysisPipeline → Step → Type 0
Counts n p s = OnWent (λ q. outcomes q.metrics ≡ outcomes p.metrics + n) s

same_outcomes : (p : AnalysisPipeline) → outcomes p.metrics ≡ outcomes p.metrics + 0
same_outcomes p = omega arith

start_extraction-Counts :
    (now i : ℕ) (p : AnalysisPipeline) (t : Option Taken) → Counts 0 p (start_extraction now i p t)
start_extraction-Counts now i p none = tt
start_extraction-Counts now i p (some t) =
    let c = config_for p t.document in
    let deadline = with_analysis_timeout now c t.deadline in
    omega (arith, (extraction_round-Keeps p.parts now deadline (work_on c p t.document)).finished)

start_processing-Counts :
    (now i : ℕ) (p : AnalysisPipeline) (t : Option Taken) → Counts 0 p (start_processing now i p t)
start_processing-Counts now i p none = tt
start_processing-Counts now i p (some t) = same_outcomes p

stored_at-Counts :
    (i : ℕ) (deadline : Deadline) (p : AnalysisPipeline) (t : Taken)
    (o : Option (PipelineMetrics × PipelineDocument))
    → CountsOne p.metrics o
    → Counts 1 p (stored_at i deadline p t o)
stored_at-Counts i deadline p t none h = tt
stored_at-Counts i deadline p t (some r) h = h.2

start_storage-Counts :
    (now done i : ℕ) (p : AnalysisPipeline) (t : Option Taken)
    → Counts 1 p (start_storage now done i p t)
start_storage-Counts now done i p none = tt
start_storage-Counts now done i p (some t) =
    let c = config_for p t.document in
    let deadline = with_analysis_timeout now c t.deadline in
    stored_at-Counts i deadline p t (storage_round p.parts now done deadline c p.metrics t.document)
      (storage_round-CountsOne p.parts now done deadline c p.metrics t.document)

end_extraction-Counts :
    (p : AnalysisPipeline) (h : Option (List Worker × List PipelineDocument))
    → Counts 0 p (end_extraction p h)
end_extraction-Counts p none = tt
end_extraction-Counts p (some h) = same_outcomes p

end_processing-Counts :
    (p : AnalysisPipeline) (h : Option (List Worker × List PipelineDocument))
    → Counts 0 p (end_processing p h)
end_processing-Counts p none = tt
end_processing-Counts p (some h) = same_outcomes p

end_storage-Counts :
    (i : ℕ) (p : AnalysisPipeline) (h : Option (Worker × PipelineDocument))
    → Counts 0 p (end_storage i p h)
end_storage-Counts i p none = tt
end_storage-Counts i p (some h) =
    if-holds (Counts 0 p) (ltb (length p.result_chan) 30) (same_outcomes p) tt

-- What was counted, against what was finished and taken.
abbrev Balanced : List AnalysisResponse → AnalysisPipeline → AnalysisPipeline → Type 0
Balanced rs p q = outcomes q.metrics + finished p ≡ outcomes p.metrics + finished q + length rs

balance :
    (k n : ℕ) (p : AnalysisPipeline) (s : Step)
    → min 1 (k + 1 - 4) ≡ min 1 (k - 4) + n
    → Counts n p s
    → Advanced ended k p s
    → OnWent (Balanced [] p) s
balance k n p blocked e c a = tt
balance k n p panicked e c a = tt
balance k n p (went q) e c a = omega (arith, e, c, a.1)

receive-Balanced :
    (p : AnalysisPipeline) (rs : List AnalysisResponse)
    → p.result_chan ≡ rs
    → OnWent (Balanced (first_of rs) p) (receive_from p rs)
receive-Balanced p [] h = tt
receive-Balanced p (r ∷ rs) h = omega (arith, ap (tally (response_weight ended)) h)

step-Balanced : (a : Action) (p : AnalysisPipeline) → OnWent (Balanced (answered a p) p) (step a p)
unfolding step
step-Balanced (submit now request) p =
    if-holds (OnWent (Balanced [] p)) (ltb (length p.document_chan) 10)
      (omega (
        arith,
        tally-append (document_weight ended 0) p.document_chan (pipeline_document now request ∷ []),
      ))
      tt
step-Balanced (extract_begin now i) p =
    balance 0 0 p (step (extract_begin now i) p) (omega arith)
      (start_extraction-Counts now i p (take_one i p.extraction_workers p.document_chan))
      (extract_begin-Advanced ended now i p)
step-Balanced (extract_end i) p =
    balance 1 0 p (step (extract_end i) p) (omega arith)
      (end_extraction-Counts p (
        hand_over p.extraction_workers p.processing_chan 15 i
          (held (get_elem? p.extraction_workers i))))
      (extract_end-Advanced ended i p)
step-Balanced (process_begin now i) p =
    balance 2 0 p (step (process_begin now i) p) (omega arith)
      (start_processing-Counts now i p (take_one i p.processing_workers p.processing_chan))
      (process_begin-Advanced ended now i p)
step-Balanced (process_end i) p =
    balance 3 0 p (step (process_end i) p) (omega arith)
      (end_processing-Counts p (
        hand_over p.processing_workers p.storage_chan 10 i
          (held (get_elem? p.processing_workers i))))
      (process_end-Advanced ended i p)
step-Balanced (store_begin now done i) p =
    balance 4 1 p (step (store_begin now done i) p) (omega arith)
      (start_storage-Counts now done i p (take_one i p.storage_workers p.storage_chan))
      (store_begin-Advanced ended now done i p)
step-Balanced (store_end i) p =
    balance 5 0 p (step (store_end i) p) (omega arith)
      (end_storage-Counts i p (held (get_elem? p.storage_workers i))) (store_end-Advanced ended i p)
step-Balanced receive p = receive-Balanced p p.result_chan refl

then-Balanced :
    (rest : List Action) (rs : List AnalysisResponse) (p : AnalysisPipeline) (s : Step)
    → OnWent (Balanced rs p) s
    → ((q : AnalysisPipeline) → OnWent (Balanced (responses rest q) q) (run rest q))
    → OnWent (Balanced (rs ++ then_list s (responses rest)) p) (then_step s (run rest))
then-Balanced rest rs p blocked h k = tt
then-Balanced rest rs p panicked h k = tt
then-Balanced rest rs p (went q) h k =
    OnWent-map (Balanced (responses rest q) q) (Balanced (rs ++ responses rest q) p) (run rest q)
      (λ t e. omega (arith, h, e, length-append rs (responses rest q))) (k q)

run-Balanced :
    (actions : List Action) (p : AnalysisPipeline)
    → OnWent (Balanced (responses actions p) p) (run actions p)
unfolding run
run-Balanced [] p = omega arith
run-Balanced (a ∷ rest) p =
    then-Balanced rest (answered a p) p (step a p) (step-Balanced a p) (run-Balanced rest)

-- With fewer than six concurrent analyses configured there is at most one storage worker, so that no other goroutine
-- writes the two counts while it does. Then, after any run of a new pipeline, the successful and the failed analyses
-- together are the responses that were taken, those in the channel, and the documents that the storage worker has still
-- to send.
pub run-outcomes :
    (deadline : Deadline) (parts : Parts) (config : AnalysisConfig) (actions : List Action)
    (q : AnalysisPipeline)
    → config.max_concurrent_analyses < 6
    → run actions (new_analysis_pipeline deadline parts config) ≡ went q
    → (length (let p = new_analysis_pipeline deadline parts config in p.storage_workers) ≤ 1)
      × (outcomes q.metrics
          ≡ finished q + length (responses actions (new_analysis_pipeline deadline parts config)))
unfolding new_analysis_pipeline
run-outcomes deadline parts config actions q few h =
    let p = new_analysis_pipeline deadline parts config in
    let n = config.max_concurrent_analyses in
    (
      omega (arith, few, length-replicate (min (n / 3) 2) (idle deadline)),
      omega (
        arith,
        idle-weight ended 1 (min n 5) deadline,
        idle-weight ended 3 (min (n / 2) 3) deadline,
        idle-weight ended 5 (min (n / 3) 2) deadline,
        subst (OnWent (Balanced (responses actions p) p)) h (run-Balanced actions p),
      ),
    )
