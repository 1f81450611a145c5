-- ===== src/Pipeline/Accounts.antt =====
-- The requests that internal/analyzers/pipeline.go was given, and the responses it gave.
use ideas.Base.{
  ℕ, zero, suc, ◌+◌, ltb, List, [], ◌∷◌, ◌++◌, ◌≡◌, refl, ap, subst, length, arith, if-holds,
  if◌then◌else◌, replicate, min, ◌/◌,
}
use ideas.Base.Tally.{tally, tally-append}
use ideas.Base.Text.{Bytes, bytes_eq}
use ideas.Pipeline.Extraction.{Parts}
use ideas.Pipeline.Flow.{
  AnalysisPipeline, new_analysis_pipeline, idle, Step, blocked, panicked, went, pipeline_document,
  Action, submit, extract_begin, extract_end, process_begin, process_end, store_begin, store_end,
  receive, receive_from, step, then_step, run,
}
use ideas.Pipeline.Places.{
  Weight, document_weight, worker_weight, response_weight, weigh, Advanced, extract_begin-Advanced,
  extract_end-Advanced, process_begin-Advanced, process_end-Advanced, store_begin-Advanced,
  store_end-Advanced,
}
use ideas.Pipeline.Steps.{OnWent, OnWent-map}
use ideas.Pipeline.Types.{Deadline, AnalysisConfig, AnalysisRequest, AnalysisResponse}

abbrev pub asked : Action → List AnalysisRequest
asked (submit now r) = r ∷ []
asked (extract_begin now i) = []
asked (extract_end i) = []
asked (process_begin now i) = []
asked (process_end i) = []
asked (store_begin now finished i) = []
asked (store_end i) = []
asked receive = []

-- The requests of a run.
abbrev pub requests : List Action → List AnalysisRequest
requests [] = []
requests (a ∷ rest) = asked a ++ requests rest

abbrev pub first_of : List AnalysisResponse → List AnalysisResponse
first_of [] = []
first_of (r ∷ rs) = r ∷ []

abbrev pub answered : Action → AnalysisPipeline → List AnalysisResponse
answered (submit now r) p = []
answered (extract_begin now i) p = []
answered (extract_end i) p = []
answered (process_begin now i) p = []
answered (process_end i) p = []
answered (store_begin now finished i) p = []
answered (store_end i) p = []
answered receive p = first_of p.result_chan

abbrev pub then_list : Step → (AnalysisPipeline → List AnalysisResponse) → List AnalysisResponse
then_list blocked f = []
then_list panicked f = []
then_list (went q) f = f q

-- The responses that callers take in a run.
abbrev pub responses : List Action → AnalysisPipeline → List AnalysisResponse
responses [] p = []
responses (a ∷ rest) p = answered a p ++ then_list (step a p) (responses rest)

abbrev pub is_id : Bytes → Bytes → ℕ
is_id r id = if bytes_eq r id then 1 else 0

-- How often the id of a request stands in the pipeline, its channels and workers.
abbrev pub in_flight : Bytes → AnalysisPipeline → ℕ
in_flight r p = weigh (λ k. is_id r) p

abbrev pub count_requests : Bytes → List AnalysisRequest → ℕ
count_requests r rs = tally (λ q. is_id r q.request_id) rs

abbrev pub count_responses : Bytes → List AnalysisResponse → ℕ
count_responses r rs = tally (λ q. is_id r q.request_id) rs

module _ (r : Bytes) where
  abbrev pub Accounted :
      List AnalysisRequest → List AnalysisResponse → AnalysisPipeline → AnalysisPipeline → Type 0
  Accounted qs as_given p q =
      in_flight r q + count_responses r as_given ≡ in_flight r p + count_requests r qs

  of_Advanced :
      (k : ℕ) (p : AnalysisPipeline) (s : Step)
      → Advanced (λ k. is_id r) k p s
      → OnWent (Accounted [] [] p) s
  of_Advanced k p blocked h = tt
  of_Advanced k p panicked h = tt
  of_Advanced k p (went q) h = omega (arith, h.1)

  pub receive-accounts :
      (p : AnalysisPipeline) (rs : List AnalysisResponse)
      → p.result_chan ≡ rs
      → OnWent (Accounted [] (first_of rs) p) (receive_from p rs)
  receive-accounts p [] h = tt
  receive-accounts p (x ∷ rs) h = omega (arith, ap (tally (response_weight (λ k. is_id r))) h)

  step-accounts :
      (a : Action) (p : AnalysisPipeline) → OnWent (Accounted (asked a) (answered a p) p) (step a p)
  unfolding step
  step-accounts (submit now request) p =
      if-holds (OnWent (Accounted (request ∷ []) [] p)) (ltb (length p.document_chan) 10)
        (omega (
          arith,
          tally-append (document_weight (λ k. is_id r) 0) p.document_chan
              (pipeline_document now request ∷ []),
        ))
        tt
  step-accounts (extract_begin now i) p =
      of_Advanced 0 p (step (extract_begin now i) p) (extract_begin-Advanced (λ k. is_id r) now i p)
  step-accounts (extract_end i) p =
      of_Advanced 1 p (step (extract_end i) p) (extract_end-Advanced (λ k. is_id r) i p)
  step-accounts (process_begin now i) p =
      of_Advanced 2 p (step (process_begin now i) p) (process_begin-Advanced (λ k. is_id r) now i p)
  step-accounts (process_end i) p =
      of_Advanced 3 p (step (process_end i) p) (process_end-Advanced (λ k. is_id r) i p)
  step-accounts (store_begin now finished i) p =
      of_Advanced 4 p (step (store_begin now finished i) p)
        (store_begin-Advanced (λ k. is_id r) now finished i p)
  step-accounts (store_end i) p =
      of_Advanced 5 p (step (store_end i) p) (store_end-Advanced (λ k. is_id r) i p)
  step-accounts receive p = receive-accounts p p.result_chan refl

  then-accounts :
      (rest : List Action) (qs : List AnalysisRequest) (rs : List AnalysisResponse)
      (p : AnalysisPipeline) (s : Step)
      → OnWent (Accounted qs rs p) s
      → ((q : AnalysisPipeline)
          → OnWent (Accounted (requests rest) (responses rest q) q) (run rest q))
      → OnWent
          (Accounted (qs ++ requests rest) (rs ++ then_list s (responses rest)) p)
          (then_step s (run rest))
  then-accounts rest qs rs p blocked h k = tt
  then-accounts rest qs rs p panicked h k = tt
  then-accounts rest qs rs p (went q) h k =
      OnWent-map (Accounted (requests rest) (responses rest q) q)
        (Accounted (qs ++ requests rest) (rs ++ responses rest q) p) (run rest q)
        (λ t e. omega (
          arith,
          h,
          e,
          tally-append (λ x. is_id r x.request_id) qs (requests rest),
          tally-append (λ x. is_id r x.request_id) rs (responses rest q),
        ))
        (k q)

  pub run-Accounted :
      (actions : List Action) (p : AnalysisPipeline)
      → OnWent (Accounted (requests actions) (responses actions p) p) (run actions p)
  unfolding run
  run-Accounted [] p = omega arith
  run-Accounted (a ∷ rest) p =
      then-accounts rest (asked a) (answered a p) p (step a p) (step-accounts a p)
        (run-Accounted rest)

-- In a new pipeline nothing is in flight.
pub idle-weight :
    (f : Weight) (k n : ℕ) (deadline : Deadline)
    → tally (worker_weight f k) (replicate n (idle deadline)) ≡ 0
idle-weight f k zero deadline = refl
idle-weight f k (suc n) deadline = omega (arith, idle-weight f k n deadline)

new-in_flight :
    (deadline : Deadline) (parts : Parts) (config : AnalysisConfig) (r : Bytes)
    → in_flight r (new_analysis_pipeline deadline parts config) ≡ 0
unfolding new_analysis_pipeline
new-in_flight deadline parts config r =
    let n = config.max_concurrent_analyses in
    omega (
      arith,
      idle-weight (λ k. is_id r) 1 (min n 5) deadline,
      idle-weight (λ k. is_id r) 3 (min (n / 2) 3) deadline,
      idle-weight (λ k. is_id r) 5 (min (n / 3) 2) deadline,
    )

-- Whatever the steps of a new pipeline and in whatever order, each request that was sent to it is there once, in a
-- channel or at a worker, or was answered once.
pub run-accounts :
    (deadline : Deadline) (parts : Parts) (config : AnalysisConfig) (actions : List Action)
    (q : AnalysisPipeline) (r : Bytes)
    → run actions (new_analysis_pipeline deadline parts config) ≡ went q
    → in_flight r q
        + count_responses r (responses actions (new_analysis_pipeline deadline parts config))
      ≡ count_requests r (requests actions)
run-accounts deadline parts config actions q r h =
    let p = new_analysis_pipeline deadline parts config in
    omega (
      arith,
      new-in_flight deadline parts config r,
      subst (OnWent (Accounted r (requests actions) (responses actions p) p)) h
          (run-Accounted r actions p),
    )
