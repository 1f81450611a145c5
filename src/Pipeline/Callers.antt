-- ===== src/Pipeline/Callers.antt =====
-- The response that a caller of AnalyzeDocument in internal/analyzers/pipeline.go takes, when no other call goes on.
use ideas.Base.{
  ℕ, ◌+◌, ◌≤◌, Bool, true, false, Bool-cases, inl, inr, List, [], ◌∷◌, Option, none, some, ◌≡◌,
  refl, ap, subst, All, arith, if◌then◌else◌,
}
use ideas.Base.Tally.{tally, tally_mono}
use ideas.Base.Text.{Bytes, codes, bytes_eq}
use ideas.Base.TextLaws.{bytes_eq_self, bytes_eq_sound}
use ideas.Pipeline.Accounts.{
  requests, responses, then_list, is_id, in_flight, run-Accounted, Accounted,
}
use ideas.Pipeline.Analyze.{error_response, take_response, await_result, analyze_document}
use ideas.Pipeline.Flow.{
  Worker, AnalysisPipeline, Step, blocked, panicked, went, Action, submit, extract_begin,
  extract_end, process_begin, process_end, store_begin, store_end, receive, step, run,
}
use ideas.Pipeline.Places.{document_weight, holds_weight, worker_weight, response_weight}
use ideas.Pipeline.Progress.{present}
use ideas.Pipeline.Steps.{OnWent}
use ideas.Pipeline.Types.{PipelineDocument, returned, AnalysisRequest, AnalysisResponse}

-- A step of a goroutine of a stage, and of no caller.
abbrev pub IsWork : Action → Type 0
IsWork (submit now r) = ⊥
IsWork (extract_begin now i) = Unit
IsWork (extract_end i) = Unit
IsWork (process_begin now i) = Unit
IsWork (process_end i) = Unit
IsWork (store_begin now finished i) = Unit
IsWork (store_end i) = Unit
IsWork receive = ⊥

requests-work : (actions : List Action) → All IsWork actions → requests actions ≡ []
requests-work [] h = refl
requests-work (submit now r ∷ rest) h = absurd h.0
requests-work (extract_begin now i ∷ rest) h = requests-work rest h.1
requests-work (extract_end i ∷ rest) h = requests-work rest h.1
requests-work (process_begin now i ∷ rest) h = requests-work rest h.1
requests-work (process_end i ∷ rest) h = requests-work rest h.1
requests-work (store_begin now finished i ∷ rest) h = requests-work rest h.1
requests-work (store_end i ∷ rest) h = requests-work rest h.1
requests-work (receive ∷ rest) h = absurd h.0

then_list-none :
    (s : Step) (f : AnalysisPipeline → List AnalysisResponse)
    → ((q : AnalysisPipeline) → f q ≡ [])
    → then_list s f ≡ []
then_list-none blocked f h = refl
then_list-none panicked f h = refl
then_list-none (went q) f h = h q

responses-work :
    (actions : List Action) (p : AnalysisPipeline) → All IsWork actions → responses actions p ≡ []
responses-work [] p h = refl
responses-work (submit now r ∷ rest) p h = absurd h.0
responses-work (extract_begin now i ∷ rest) p h =
    then_list-none (step (extract_begin now i) p) (responses rest) (λ q. responses-work rest q h.1)
responses-work (extract_end i ∷ rest) p h =
    then_list-none (step (extract_end i) p) (responses rest) (λ q. responses-work rest q h.1)
responses-work (process_begin now i ∷ rest) p h =
    then_list-none (step (process_begin now i) p) (responses rest) (λ q. responses-work rest q h.1)
responses-work (process_end i ∷ rest) p h =
    then_list-none (step (process_end i) p) (responses rest) (λ q. responses-work rest q h.1)
responses-work (store_begin now finished i ∷ rest) p h =
    then_list-none (step (store_begin now finished i) p) (responses rest)
      (λ q. responses-work rest q h.1)
responses-work (store_end i ∷ rest) p h =
    then_list-none (step (store_end i) p) (responses rest) (λ q. responses-work rest q h.1)
responses-work (receive ∷ rest) p h = absurd h.0

-- A caller submits, and then the stages work: one document more of the id of the request, and no other.
pub one_more :
    (r : Bytes) (now : ℕ) (request : AnalysisRequest) (actions : List Action)
    (p q : AnalysisPipeline)
    → All IsWork actions
    → run (submit now request ∷ actions) p ≡ went q
    → in_flight r q ≡ in_flight r p + is_id r request.request_id
one_more r now request actions p q work h =
    let all = submit now request ∷ actions in
    let counted : Accounted r (requests all) (responses all p) p q =
      subst (OnWent (Accounted r (requests all) (responses all p) p)) h (run-Accounted r all p) in
    let given : responses all p ≡ [] =
      then_list-none (step (submit now request) p) (responses actions)
        (λ x. responses-work actions x work) in
    let asked : requests all ≡ request ∷ [] =
      ap (λ qs. request ∷ qs) (requests-work actions work) in
    omega (
      arith,
      counted,
      ap (tally (λ (x : AnalysisResponse). is_id r x.request_id)) given,
      ap (tally (λ (x : AnalysisRequest). is_id r x.request_id)) asked,
    )

is_id_bound : (r id : Bytes) → is_id r id ≤ 1
is_id_bound r id = ground arith

abbrev pub one_if : Bool → ℕ
one_if b = if b then 1 else 0

holds_bound :
    (r : Bytes) (k : ℕ) (o : Option PipelineDocument)
    → holds_weight (λ k. is_id r) k o ≤ holds_weight (λ k id. 1) k o
holds_bound r k none = omega arith
holds_bound r k (some d) = is_id_bound r d.response.request_id

in_flight-present : (r : Bytes) (p : AnalysisPipeline) → in_flight r p ≤ present p
in_flight-present r p = omega (
  arith,
  tally_mono (document_weight (λ k. is_id r) 0) (document_weight (λ k id. 1) 0) p.document_chan
      (λ d. is_id_bound r d.response.request_id),
  tally_mono (worker_weight (λ k. is_id r) 1) (worker_weight (λ k id. 1) 1) p.extraction_workers
      (held_bound 1),
  tally_mono (document_weight (λ k. is_id r) 2) (document_weight (λ k id. 1) 2) p.processing_chan
      (λ d. is_id_bound r d.response.request_id),
  tally_mono (worker_weight (λ k. is_id r) 3) (worker_weight (λ k id. 1) 3) p.processing_workers
      (held_bound 3),
  tally_mono (document_weight (λ k. is_id r) 4) (document_weight (λ k id. 1) 4) p.storage_chan
      (λ d. is_id_bound r d.response.request_id),
  tally_mono (worker_weight (λ k. is_id r) 5) (worker_weight (λ k id. 1) 5) p.storage_workers
      (held_bound 5),
  tally_mono (response_weight (λ k. is_id r)) (response_weight (λ k id. 1)) p.result_chan
      (λ x. is_id_bound r x.request_id),
)
  where
    held_bound :
        (k : ℕ) (w : Worker) → worker_weight (λ k. is_id r) k w ≤ worker_weight (λ k id. 1) k w
    held_bound k w = holds_bound r k w.holds

-- A response that is in the channel is counted.
counted-first :
    (x : AnalysisResponse) (xs : List AnalysisResponse) (q : AnalysisPipeline)
    → q.result_chan ≡ x ∷ xs
    → 1 ≤ in_flight x.request_id q
counted-first x xs q h = omega (
  arith,
  ap (tally (response_weight (λ k. is_id x.request_id))) h,
  ap one_if (bytes_eq_self x.request_id),
)

taken-own :
    (started ended : ℕ) (request : AnalysisRequest) (x : AnalysisResponse)
    → bytes_eq x.request_id request.request_id ≡ true
    → analyze_document started ended request none (returned x) ≡ x
unfolding analyze_document await_result take_response
taken-own started ended request x h = rw h refl

pub taken-other :
    (started ended : ℕ) (request : AnalysisRequest) (x : AnalysisResponse)
    → bytes_eq x.request_id request.request_id ≡ false
    → analyze_document started ended request none (returned x)
      ≡ error_response started ended request (codes "pipeline returned wrong response")
unfolding analyze_document await_result take_response
taken-other started ended request x h = rw h refl

-- A caller of AnalyzeDocument submits its document when nothing is in flight and no response is left over, and no other
-- call is made before it takes a response. Then, in whatever order the goroutines of the stages work, the first response
-- that comes into the channel has the id of its own request, and AnalyzeDocument returns that response.
pub run-Own :
    (now started ended : ℕ) (request : AnalysisRequest) (actions : List Action)
    (p q : AnalysisPipeline) (x : AnalysisResponse) (xs : List AnalysisResponse)
    → present p ≡ 0
    → All IsWork actions
    → run (submit now request ∷ actions) p ≡ went q
    → q.result_chan ≡ x ∷ xs
    → (x.request_id ≡ request.request_id)
      × (analyze_document started ended request none (returned x) ≡ x)
run-Own now started ended request actions p q x xs empty work h there =
    let own : bytes_eq x.request_id request.request_id ≡ true =
      elim (Bool-cases (bytes_eq x.request_id request.request_id)) [
        | inl t ↦ t
        | inr t ↦ absurd (
            omega (
              arith,
              empty,
              in_flight-present x.request_id p,
              one_more x.request_id now request actions p q work h,
              counted-first x xs q there,
              ap one_if t,
            ))
      ] in
    (bytes_eq_sound x.request_id request.request_id own, taken-own started ended request x own)
