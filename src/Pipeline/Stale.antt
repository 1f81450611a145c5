-- ===== src/Pipeline/Stale.antt =====
-- What a response that nobody took does to the next caller of AnalyzeDocument in internal/analyzers/pipeline.go.
use ideas.Base.{
  ℕ, ◌+◌, ltb, false, List, [], ◌∷◌, ◌++◌, Option, none, some, ◌≡◌, ap, subst, ◌∙◌, All, length,
  get_elem?, arith, if-holds,
}
use ideas.Base.Tally.{tally}
use ideas.Base.Text.{Bytes, codes, bytes_eq}
use ideas.Base.TextLaws.{bytes_eq_self, bytes_eq_sym}
use ideas.Pipeline.Accounts.{first_of, is_id, in_flight}
use ideas.Pipeline.Analyze.{error_response, analyze_document}
use ideas.Pipeline.Callers.{IsWork, one_if, one_more, taken-other}
use ideas.Pipeline.Extraction.{with_analysis_timeout}
use ideas.Pipeline.Flow.{
  Worker, AnalysisPipeline, Step, blocked, panicked, went, Taken, take_one, config_for,
  start_extraction, start_processing, stored_at, start_storage, held, hand_over, end_extraction,
  end_processing, end_storage, Action, submit, extract_begin, extract_end, process_begin,
  process_end, store_begin, store_end, receive, receive_from, step, then_step, run,
}
use ideas.Pipeline.Places.{response_weight}
use ideas.Pipeline.Rounds.{storage_round}
use ideas.Pipeline.Steps.{OnWent}
use ideas.Pipeline.Types.{
  Deadline, PipelineMetrics, PipelineDocument, returned, AnalysisRequest, AnalysisResponse,
}

-- The response y is the first in the channel.
abbrev IsFirst : AnalysisResponse → List AnalysisResponse → Type 0
IsFirst y rs = (ys : List AnalysisResponse) × (rs ≡ y ∷ ys)

abbrev StaysFirst : AnalysisResponse → Step → Type 0
StaysFirst y s = OnWent (λ q. IsFirst y q.result_chan) s

start_extraction-First :
    (y : AnalysisResponse) (now i : ℕ) (p : AnalysisPipeline) (t : Option Taken)
    → IsFirst y p.result_chan
    → StaysFirst y (start_extraction now i p t)
start_extraction-First y now i p none h = tt
start_extraction-First y now i p (some t) h = h

start_processing-First :
    (y : AnalysisResponse) (now i : ℕ) (p : AnalysisPipeline) (t : Option Taken)
    → IsFirst y p.result_chan
    → StaysFirst y (start_processing now i p t)
start_processing-First y now i p none h = tt
start_processing-First y now i p (some t) h = h

stored_at-First :
    (y : AnalysisResponse) (i : ℕ) (deadline : Deadline) (p : AnalysisPipeline) (t : Taken)
    (o : Option (PipelineMetrics × PipelineDocument))
    → IsFirst y p.result_chan
    → StaysFirst y (stored_at i deadline p t o)
stored_at-First y i deadline p t none h = tt
stored_at-First y i deadline p t (some r) h = h

start_storage-First :
    (y : AnalysisResponse) (now finished i : ℕ) (p : AnalysisPipeline) (t : Option Taken)
    → IsFirst y p.result_chan
    → StaysFirst y (start_storage now finished i p t)
start_storage-First y now finished i p none h = tt
start_storage-First y now finished i p (some t) h =
    let c = config_for p t.document in
    let deadline = with_analysis_timeout now c t.deadline in
    stored_at-First y i deadline p t
      (storage_round p.parts now finished deadline c p.metrics t.document) h

end_extraction-First :
    (y : AnalysisResponse) (p : AnalysisPipeline) (o : Option (List Worker × List PipelineDocument))
    → IsFirst y p.result_chan
    → StaysFirst y (end_extraction p o)
end_extraction-First y p none h = tt
end_extraction-First y p (some o) h = h

end_processing-First :
    (y : AnalysisResponse) (p : AnalysisPipeline) (o : Option (List Worker × List PipelineDocument))
    → IsFirst y p.result_chan
    → StaysFirst y (end_processing p o)
end_processing-First y p none h = tt
end_processing-First y p (some o) h = h

end_storage-First :
    (y : AnalysisResponse) (i : ℕ) (p : AnalysisPipeline) (o : Option (Worker × PipelineDocument))
    → IsFirst y p.result_chan
    → StaysFirst y (end_storage i p o)
end_storage-First y i p none h = tt
end_storage-First y i p (some o) h =
    if-holds (StaysFirst y) (ltb (length p.result_chan) 30)
      (h.0 ++ (o.1.response ∷ []), ap (λ rs. rs ++ (o.1.response ∷ [])) h.1) tt

step-First :
    (y : AnalysisResponse) (a : Action) (p : AnalysisPipeline)
    → IsWork a
    → IsFirst y p.result_chan
    → StaysFirst y (step a p)
unfolding step
step-First y (submit now r) p w h = absurd w
step-First y (extract_begin now i) p w h =
    start_extraction-First y now i p (take_one i p.extraction_workers p.document_chan) h
step-First y (extract_end i) p w h =
    end_extraction-First y p
      (hand_over p.extraction_workers p.processing_chan 15 i
        (held (get_elem? p.extraction_workers i)))
      h
step-First y (process_begin now i) p w h =
    start_processing-First y now i p (take_one i p.processing_workers p.processing_chan) h
step-First y (process_end i) p w h =
    end_processing-First y p
      (hand_over p.processing_workers p.storage_chan 10 i (held (get_elem? p.processing_workers i)))
      h
step-First y (store_begin now finished i) p w h =
    start_storage-First y now finished i p (take_one i p.storage_workers p.storage_chan) h
step-First y (store_end i) p w h = end_storage-First y i p (held (get_elem? p.storage_workers i)) h
step-First y receive p w h = absurd w

then-First :
    (y : AnalysisResponse) (rest : List Action) (s : Step)
    → StaysFirst y s
    → ((q : AnalysisPipeline) → IsFirst y q.result_chan → StaysFirst y (run rest q))
    → StaysFirst y (then_step s (run rest))
then-First y rest blocked h k = tt
then-First y rest panicked h k = tt
then-First y rest (went q) h k = k q h

run-First :
    (y : AnalysisResponse) (actions : List Action) (p : AnalysisPipeline)
    → All IsWork actions
    → IsFirst y p.result_chan
    → StaysFirst y (run actions p)
unfolding run
run-First y [] p w h = h
run-First y (a ∷ rest) p w h =
    then-First y rest (step a p) (step-First y a p w.0 h) (λ q k. run-First y rest q w.1 k)

submit-First :
    (y : AnalysisResponse) (now : ℕ) (request : AnalysisRequest) (p : AnalysisPipeline)
    → IsFirst y p.result_chan
    → StaysFirst y (step (submit now request) p)
unfolding step
submit-First y now request p h = if-holds (StaysFirst y) (ltb (length p.document_chan) 10) h tt

receive-first :
    (y : AnalysisResponse) (ys : List AnalysisResponse) (q : AnalysisPipeline)
    → q.result_chan ≡ y ∷ ys
    → (r : AnalysisPipeline) × (step receive q ≡ went r)
      × ((k : Bytes) → in_flight k r + is_id k y.request_id ≡ in_flight k q)
unfolding step
receive-first y ys q h = (
  record q { result_chan = ys },
  ap (receive_from q) h,
  λ k. omega (arith, ap (tally (response_weight (λ j. is_id k))) h),
)

-- A response y is first in the channel, left over by another caller, when a caller with another id submits its document,
-- and no other call is made before it takes a response. Then, in whatever order the goroutines of the stages work until
-- then, it takes y, and AnalyzeDocument returns the error of a wrong response; y is gone, and the document of the caller is still in flight or
-- a response in the channel, which that caller no longer waits for.
pub run-stale :
    (now started ended : ℕ) (request : AnalysisRequest) (actions : List Action)
    (p q : AnalysisPipeline) (y : AnalysisResponse) (ys : List AnalysisResponse)
    → p.result_chan ≡ y ∷ ys
    → bytes_eq y.request_id request.request_id ≡ false
    → All IsWork actions
    → run (submit now request ∷ actions) p ≡ went q
    → (r : AnalysisPipeline) × (step receive q ≡ went r)
      × (first_of q.result_chan ≡ y ∷ [])
      × (analyze_document started ended request none (returned y)
          ≡ error_response started ended request (codes "pipeline returned wrong response"))
      × (in_flight request.request_id r ≡ in_flight request.request_id p + 1)
      × (in_flight y.request_id r + 1 ≡ in_flight y.request_id p)
unfolding run
run-stale now started ended request actions p q y ys left differs work h =
    let first : IsFirst y q.result_chan = subst (StaysFirst y) h (
      then-First y actions (step (submit now request) p) (submit-First y now request p (ys, left))
        (λ x k. run-First y actions x work k)) in
    let (r, received, counts) = receive-first y first.0 q first.1 in
    let own = bytes_eq_self request.request_id in
    let other = bytes_eq_sym request.request_id y.request_id ∙ differs in
    (
      r,
      received,
      ap first_of first.1,
      taken-other started ended request y differs,
      omega (
        arith,
        counts request.request_id,
        one_more request.request_id now request actions p q work h,
        ap one_if own,
        ap one_if other,
      ),
      omega (
        arith,
        counts y.request_id,
        one_more y.request_id now request actions p q work h,
        ap one_if (bytes_eq_self y.request_id),
        ap one_if differs,
      ),
    )
