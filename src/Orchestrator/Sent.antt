-- ===== src/Orchestrator/Sent.antt =====
-- The messages that a worker of internal/analyzers/orchestrator.go sends.
use ideas.Base.{
  ℕ, ◌+◌, ◌<◌, ◌≤◌, Bool, true, false, ltb, lt→ltb, List, [], ◌∷◌, ◌++◌, Option, none, some, ◌≡◌,
  refl, ap, ◌∙◌, length, length-append, set, if-holds, arith,
}
use ideas.Base.Text.{Bytes}
use ideas.Orchestrator.Coordinate.{offer, offer_status}
use ideas.Orchestrator.Types.{
  AnalysisOrchestrator, AnalysisWorker, WorkerStatus, CoordinationMsg, msg_request_completed,
  msg_request_failed,
}
use ideas.Orchestrator.Requests.{status_of, note_failure, respond, finish, process_request}
use ideas.Pipeline.Types.{AnalysisRequest, AnalysisResponse}
use ideas.Orchestrator.Figures.{handled_messages, messages_of_one}

abbrev pub has_error : Option Bytes → Bool
has_error none = false
has_error (some err) = true

offered :
    (m : CoordinationMsg) (o : AnalysisOrchestrator)
    → length o.coordination_chan < 10
    → (offer m o).coordination_chan ≡ o.coordination_chan ++ (m ∷ [])
offered m o h = rw (lt→ltb (length o.coordination_chan) 10 h) refl

offer_status-chan :
    (x : WorkerStatus) (o : AnalysisOrchestrator)
    → (offer_status x o).coordination_chan ≡ o.coordination_chan
offer_status-chan x o =
    if-holds (λ (t : AnalysisOrchestrator). t.coordination_chan ≡ o.coordination_chan)
      (ltb (length o.status_chan) o.config.max_workers) refl refl

respond-chan :
    (x : AnalysisResponse) (o : AnalysisOrchestrator)
    → (respond x o).coordination_chan ≡ o.coordination_chan
respond-chan x o =
    if-holds (λ (t : AnalysisOrchestrator). t.coordination_chan ≡ o.coordination_chan)
      (ltb (length o.response_queue) o.config.queue_size) refl refl

finish-chan :
    (i : ℕ) (w : AnalysisWorker) (id : Bytes) (o : AnalysisOrchestrator)
    → length o.coordination_chan < 10
    → (finish i w id o).coordination_chan
      ≡ o.coordination_chan ++ (msg_request_completed w.id id ∷ [])
finish-chan i w id o h =
    let handled = record w { requests_handled = w.requests_handled + 1 } in
    let kept = record o { workers = set o.workers i handled } in
    let same = offer_status-chan (status_of handled false []) kept in
    offered (msg_request_completed w.id id) (offer_status (status_of handled false []) kept)
      (omega (arith, h, ap length same))
    ∙ ap (λ ms. ms ++ (msg_request_completed w.id id ∷ [])) same

append_two :
    (ms : List CoordinationMsg) (a b : CoordinationMsg)
    → (ms ++ (a ∷ [])) ++ (b ∷ []) ≡ ms ++ (a ∷ b ∷ [])
append_two [] a b = refl
append_two (m ∷ ms) a b = ap (λ r. m ∷ r) (append_two ms a b)

noted-chan :
    (w : AnalysisWorker) (id : Bytes) (e : Option Bytes) (o t : AnalysisOrchestrator)
    → length o.coordination_chan < 10
    → t.coordination_chan
      ≡ (note_failure w id e o).coordination_chan ++ (msg_request_completed w.id id ∷ [])
    → t.coordination_chan ≡ o.coordination_chan ++ messages_of_one (has_error e) w.id id []
noted-chan w id none o t h k = k
noted-chan w id (some err) o t h k =
    k
    ∙ ap (λ ms. ms ++ (msg_request_completed w.id id ∷ []))
        (offered (msg_request_failed w.id id) o h)
    ∙ append_two o.coordination_chan (msg_request_failed w.id id) (msg_request_completed w.id id)

note_failure-length :
    (w : AnalysisWorker) (id : Bytes) (e : Option Bytes) (o : AnalysisOrchestrator)
    → length (note_failure w id e o).coordination_chan ≤ length o.coordination_chan + 1
note_failure-length w id none o = omega arith
note_failure-length w id (some err) o =
    if-holds
      (λ (t : AnalysisOrchestrator). length t.coordination_chan ≤ length o.coordination_chan + 1)
      (ltb (length o.coordination_chan) 10)
      (omega (arith, length-append o.coordination_chan (msg_request_failed w.id id ∷ [])))
      (omega arith)

-- With room for two messages these are the ones that processRequest sends.
pub process_request-messages :
    (i : ℕ) (w : AnalysisWorker) (cancelled : Bool) (r : AnalysisRequest) (x : AnalysisResponse)
    (o : AnalysisOrchestrator)
    → length o.coordination_chan + 1 < 10
    → (process_request i w cancelled r x o).0.coordination_chan
      ≡ o.coordination_chan
        ++ handled_messages
            (record { worker = w.id; request_id = r.request_id; failed = has_error x.error } ∷ [])
unfolding process_request
process_request-messages i w cancelled r x o room =
    let begun = offer_status (status_of w true r.request_id) o in
    let same = offer_status-chan (status_of w true r.request_id) o in
    let noted = note_failure w r.request_id x.error begun in
    let short : length noted.coordination_chan < 10 =
      omega (arith, room, ap length same, note_failure-length w r.request_id x.error begun) in
    let kept = respond-chan x noted in
    let given = respond x noted in
    let finished = finish i w r.request_id given in
    let end : finished.coordination_chan
        ≡ noted.coordination_chan ++ (msg_request_completed w.id r.request_id ∷ []) =
      finish-chan i w r.request_id given (omega (arith, short, ap length kept))
      ∙ ap (λ ms. ms ++ (msg_request_completed w.id r.request_id ∷ [])) kept in
    let P : AnalysisOrchestrator × Bool → Type 0 = λ t.
      t.0.coordination_chan
      ≡ o.coordination_chan ++ messages_of_one (has_error x.error) w.id r.request_id [] in
    let from : (t : AnalysisOrchestrator)
        → t.coordination_chan
          ≡ noted.coordination_chan ++ (msg_request_completed w.id r.request_id ∷ [])
        → t.coordination_chan
          ≡ o.coordination_chan ++ messages_of_one (has_error x.error) w.id r.request_id [] =
      λ t k.
        noted-chan w r.request_id x.error begun t (omega (arith, room, ap length same)) k
        ∙ ap (λ ms. ms ++ messages_of_one (has_error x.error) w.id r.request_id []) same in
    if-holds P cancelled
      (from (finish i w r.request_id noted) (finish-chan i w r.request_id noted short))
      (from finished end)
