-- ===== src/Orchestrator/Running.antt =====
-- When internal/analyzers/orchestrator.go takes no requests.
use ideas.Base.{
  ℕ, zero, suc, ◌==◌, ◌∙◌, ltb→lt, ◌+◌, ◌≤◌, Bool, true, false, Bool-cases, inl, inr, ltb, List, [],
  ◌∷◌, ◌++◌, Option, none, some, ◌≡◌, ◌≢◌, refl, length, get_elem?, set, All, arith, if-holds,
}
use ideas.Base.Text.{Bytes, codes, bytes_eq}
use ideas.Orchestrator.Coordinate.{
  drain, offer, offer_status, add_pipeline, receive_status, create_worker, create_workers,
  select_pipeline, start,
}
use ideas.Orchestrator.Types.{
  AnalysisOrchestrator, AnalysisWorker, WorkerStatus, CoordinationMsg, msg_pipeline, msg_running,
  msg_request_completed, msg_request_failed,
}
use ideas.Orchestrator.Requests.{
  submit_request, status_of, note_failure, respond, finish, process_request, work_with, work,
  get_response_from, coordinate_first, Event, adds, submits, works, takes_response, coordinates,
  reads_status, ticks, stops, stop, after_stop, happen, happen_all,
}
use ideas.Pipeline.Types.{AnalysisRequest, AnalysisResponse}
use ideas.Orchestrator.Stopped.{
  IsOther, IsStopped, All-append, offer-IsStopped, coordinate-IsStopped, drain-IsStopped,
  submit_request-Refused,
}

add_pipeline-IsStopped :
    (answers : Bool) (p : ℕ) (o : AnalysisOrchestrator)
    → IsStopped o
    → IsStopped (add_pipeline answers p o)
unfolding add_pipeline
add_pipeline-IsStopped answers p o s =
    let sent = record o { coordination_chan = o.coordination_chan ++ (msg_pipeline p ∷ []) } in
    let more : IsStopped sent =
      (s.0, All-append o.coordination_chan (msg_pipeline p ∷ []) s.1 (tt, tt)) in
    if-holds IsStopped (ltb (length o.coordination_chan) 10)
      (if-holds IsStopped answers (drain-IsStopped sent more) more) s

note_failure-IsStopped :
    (w : AnalysisWorker) (id : Bytes) (e : Option Bytes) (o : AnalysisOrchestrator)
    → IsStopped o
    → IsStopped (note_failure w id e o)
note_failure-IsStopped w id none o s = s
note_failure-IsStopped w id (some err) o s = offer-IsStopped (msg_request_failed w.id id) o tt s

offer_status-IsStopped :
    (x : WorkerStatus) (o : AnalysisOrchestrator) → IsStopped o → IsStopped (offer_status x o)
offer_status-IsStopped x o s =
    if-holds IsStopped (ltb (length o.status_chan) o.config.max_workers) s s

finish-IsStopped :
    (i : ℕ) (w : AnalysisWorker) (id : Bytes) (o : AnalysisOrchestrator)
    → IsStopped o
    → IsStopped (finish i w id o)
finish-IsStopped i w id o s =
    let handled = record w { requests_handled = w.requests_handled + 1 } in
    let kept = record o { workers = set o.workers i handled } in
    let status = status_of handled false [] in
    offer-IsStopped (msg_request_completed w.id id) (offer_status status kept) tt
      (offer_status-IsStopped status kept s)

process_request-IsStopped :
    (i : ℕ) (w : AnalysisWorker) (cancelled : Bool) (r : AnalysisRequest) (x : AnalysisResponse)
    (o : AnalysisOrchestrator)
    → IsStopped o
    → IsStopped (process_request i w cancelled r x o).0
unfolding process_request
process_request-IsStopped i w cancelled r x o s =
    let begun = offer_status (status_of w true r.request_id) o in
    let noted = note_failure w r.request_id x.error begun in
    let stopped =
      note_failure-IsStopped w r.request_id x.error begun
        (offer_status-IsStopped (status_of w true r.request_id) o s) in
    if-holds (λ (t : AnalysisOrchestrator × Bool). IsStopped t.0) cancelled
      (finish-IsStopped i w r.request_id noted stopped)
      (finish-IsStopped i w r.request_id (respond x noted) (
        if-holds IsStopped (ltb (length noted.response_queue) noted.config.queue_size) stopped
          stopped))

work_with-IsStopped :
    (i : ℕ) (cancelled : Bool) (analyze : AnalysisRequest → AnalysisResponse)
    (w : Option AnalysisWorker) (rs : List AnalysisRequest) (o : AnalysisOrchestrator)
    → IsStopped o
    → IsStopped (work_with i cancelled analyze w rs o)
work_with-IsStopped i cancelled analyze none rs o s = s
work_with-IsStopped i cancelled analyze (some w) [] o s = s
work_with-IsStopped i cancelled analyze (some w) (r ∷ rs) o s =
    process_request-IsStopped i w cancelled r (analyze r) (record o { request_queue = rs }) s

coordinate_first-IsStopped :
    (ms : List CoordinationMsg) (o : AnalysisOrchestrator)
    → All IsOther ms
    → IsStopped o
    → IsStopped (coordinate_first ms o)
unfolding coordinate_first
coordinate_first-IsStopped [] o h s = s
coordinate_first-IsStopped (m ∷ ms) o h s =
    coordinate-IsStopped m (record o { coordination_chan = ms }) h.0 (s.0, h.1)

get_response_from-IsStopped :
    (rs : List AnalysisResponse) (o : AnalysisOrchestrator)
    → IsStopped o
    → IsStopped (get_response_from rs o).0
get_response_from-IsStopped [] o s = s
get_response_from-IsStopped (r ∷ rs) o s = s

receive_status-IsStopped :
    (xs : List WorkerStatus) (o : AnalysisOrchestrator)
    → IsStopped o
    → IsStopped (receive_status xs o)
receive_status-IsStopped [] o s = s
receive_status-IsStopped (x ∷ xs) o s = s

stop-IsStopped :
    (expired : Option Bytes) (o : AnalysisOrchestrator)
    → IsStopped o
    → IsStopped (after_stop o (stop expired o))
unfolding stop
stop-IsStopped none o s =
    if-holds (λ (r : Option (AnalysisOrchestrator × Option Bytes)). IsStopped (after_stop o r))
      o.is_shut_down s s
stop-IsStopped (some err) o s =
    if-holds (λ (r : Option (AnalysisOrchestrator × Option Bytes)). IsStopped (after_stop o r))
      o.is_shut_down s s

happen-IsStopped : (e : Event) (o : AnalysisOrchestrator) → IsStopped o → IsStopped (happen e o)
unfolding happen work
happen-IsStopped (adds answers p) o s = add_pipeline-IsStopped answers p o s
happen-IsStopped (submits answers generated r) o s =
    (submit_request-Refused answers generated r o s).0
happen-IsStopped (works i cancelled analyze) o s =
    work_with-IsStopped i cancelled analyze (get_elem? o.workers i) o.request_queue o s
happen-IsStopped takes_response o s = get_response_from-IsStopped o.response_queue o s
happen-IsStopped coordinates o s = coordinate_first-IsStopped o.coordination_chan o s.1 s
happen-IsStopped reads_status o s = receive_status-IsStopped o.status_chan o s
happen-IsStopped ticks o s = s
happen-IsStopped (stops expired) o s = stop-IsStopped expired o s

happen_all-IsStopped :
    (es : List Event) (o : AnalysisOrchestrator) → IsStopped o → IsStopped (happen_all es o)
unfolding happen_all
happen_all-IsStopped [] o s = s
happen_all-IsStopped (e ∷ es) o s = happen_all-IsStopped es (happen e o) (happen-IsStopped e o s)

select_pipeline-flag : (o : AnalysisOrchestrator) → (select_pipeline o).0.is_running ≡ o.is_running
unfolding select_pipeline
select_pipeline-flag o =
    let P : AnalysisOrchestrator × Option ℕ → Type 0 = λ s. s.0.is_running ≡ o.is_running in
    if-holds P (length o.pipelines == 0) refl (
      if-holds P (bytes_eq o.config.load_balancing (codes "least_busy")) refl
        (if-holds P (bytes_eq o.config.load_balancing (codes "round_robin")) refl refl))

create_workers-flag :
    (now n id : ℕ) (o : AnalysisOrchestrator)
    → (create_workers now n id o).is_running ≡ o.is_running
unfolding create_workers create_worker
create_workers-flag now zero id o = refl
create_workers-flag now (suc n) id o =
    create_workers-flag now n (id + 1) (create_worker now id o) ∙ select_pipeline-flag o

offer-full :
    (m : CoordinationMsg) (o : AnalysisOrchestrator)
    → 10 ≤ length o.coordination_chan
    → IsStopped o
    → IsStopped (offer m o)
offer-full m o h s = elim (Bool-cases (ltb (length o.coordination_chan) 10)) [
  | inl t ↦ absurd (omega (arith, h, ltb→lt (length o.coordination_chan) 10 t))
  | inr t ↦ rw t s
]

start-IsStopped :
    (now : ℕ) (between : List CoordinationMsg) (o : AnalysisOrchestrator)
    → IsStopped o
    → All IsOther between
    → 10 ≤ length between
    → IsStopped (start now between o).0
unfolding start
start-IsStopped now between o s others full =
    let ready = create_workers now o.config.max_workers 0 (drain o) in
    let stays : ready.is_running ≡ false =
      create_workers-flag now o.config.max_workers 0 (drain o) ∙ (drain-IsStopped o s).0 in
    if-holds (λ (t : AnalysisOrchestrator × Option Bytes). IsStopped t.0) (length o.pipelines == 0)
      s
      (offer-full (msg_running true) (record ready { coordination_chan = between }) full
        (stays, others))

-- If the coordinator was not told before that the orchestrator runs, and the channel of coordination is full when Start
-- says so, then that message is dropped, and as long as Start is not called again, whatever else happens after, Stop
-- included, every call of SubmitRequest returns an error.
pub start-Refused :
    (now : ℕ) (between : List CoordinationMsg) (o : AnalysisOrchestrator) (events : List Event)
    (answers : Bool) (generated : Bytes) (r : AnalysisRequest)
    → IsStopped o
    → All IsOther between
    → 10 ≤ length between
    → (submit_request answers generated r (happen_all events (start now between o).0)).1 ≢ none
start-Refused now between o events answers generated r s others full =
    (submit_request-Refused answers generated r (happen_all events (start now between o).0) (
      happen_all-IsStopped events (start now between o).0
        (start-IsStopped now between o s others full))).1
