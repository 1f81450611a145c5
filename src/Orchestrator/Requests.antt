-- ===== src/Orchestrator/Requests.antt =====
-- The requests and responses of internal/analyzers/orchestrator.go: what a caller of SubmitRequest and a worker do.
use ideas.Base.{
  ℕ, ◌+◌, Bool, true, false, ltb, List, [], ◌∷◌, ◌++◌, Option, none, some, length, get_elem?, set,
  if◌then◌else◌,
}
use ideas.Base.Text.{Bytes, codes}
use ideas.Orchestrator.Coordinate.{
  drain, offer, offer_status, add_pipeline, update_metrics, receive_status, coordinate,
}
use ideas.Orchestrator.Types.{
  AnalysisOrchestrator, AnalysisWorker, WorkerStatus, CoordinationMsg, msg_get_metrics,
  msg_request_started, msg_request_completed, msg_request_failed,
}
use ideas.Pipeline.Types.{AnalysisRequest, AnalysisResponse}

abbrev or_generated : Bytes → Bytes → Bytes
or_generated generated [] = generated
or_generated generated (b ∷ bs) = b ∷ bs

abbrev pub with_id : Bytes → AnalysisRequest → AnalysisRequest
with_id generated r = record r { request_id = or_generated generated r.request_id }

abbrev pub enqueue : AnalysisRequest → AnalysisOrchestrator → AnalysisOrchestrator × Option Bytes
enqueue r o =
    if ltb (length o.request_queue) o.config.queue_size
    then (
      offer (msg_request_started r.request_id)
          (record o { request_queue = o.request_queue ++ (r ∷ []) }),
      none,
    )
    else (o, some (codes "request queue is full"))

abbrev pub if_running :
    Bytes → AnalysisRequest → AnalysisOrchestrator → AnalysisOrchestrator × Option Bytes
if_running generated r o =
    if o.is_running
    then enqueue (with_id generated r) o
    else (o, some (codes "orchestrator is not running"))

-- `answers` is whether the coordinator answers in time, after it has gone through all messages before.
unfoldable pub submit_request :
    Bool → Bytes → AnalysisRequest → AnalysisOrchestrator → AnalysisOrchestrator × Option Bytes
unfolding drain
submit_request answers generated r o =
    let sent = record o { coordination_chan = o.coordination_chan ++ (msg_get_metrics ∷ []) } in
    let unavailable = some (codes "orchestrator coordination not available") in
    if ltb (length o.coordination_chan) 10
    then if answers then if_running generated r (drain sent) else (sent, unavailable)
    else (o, unavailable)

abbrev pub status_of : AnalysisWorker → Bool → Bytes → WorkerStatus
status_of w active request_id = record {
  worker_id = w.id;
  is_active = active;
  current_request = request_id;
  requests_handled = w.requests_handled;
  start_time = w.start_time;
}

abbrev pub note_failure :
    AnalysisWorker → Bytes → Option Bytes → AnalysisOrchestrator → AnalysisOrchestrator
note_failure w request_id none o = o
note_failure w request_id (some err) o = offer (msg_request_failed w.id request_id) o

-- A response for which there is no room is dropped.
abbrev pub respond : AnalysisResponse → AnalysisOrchestrator → AnalysisOrchestrator
respond response o =
    if ltb (length o.response_queue) o.config.queue_size
    then record o { response_queue = o.response_queue ++ (response ∷ []) }
    else o

-- The deferred function of processRequest, which runs whatever the response was.
abbrev pub finish : ℕ → AnalysisWorker → Bytes → AnalysisOrchestrator → AnalysisOrchestrator
finish i w request_id o =
    let handled = record w { requests_handled = w.requests_handled + 1 } in
    offer (msg_request_completed w.id request_id)
      (offer_status (status_of handled false []) (record o { workers = set o.workers i handled }))

-- The worker i with the response of its pipeline. `cancelled` is whether the sending of the response finds the
-- context done. The second component is whether the callback is called.
unfoldable pub process_request :
    ℕ
    → AnalysisWorker
    → Bool
    → AnalysisRequest
    → AnalysisResponse
    → AnalysisOrchestrator
    → AnalysisOrchestrator × Bool
process_request i w cancelled request response o =
    let begun = offer_status (status_of w true request.request_id) o in
    let noted = note_failure w request.request_id response.error begun in
    if cancelled
    then (finish i w request.request_id noted, false)
    else (finish i w request.request_id (respond response noted), request.has_callback)

-- A worker takes the first request, and its pipeline analyzes it.
abbrev pub work_with :
    ℕ
    → Bool
    → (AnalysisRequest → AnalysisResponse)
    → Option AnalysisWorker
    → List AnalysisRequest
    → AnalysisOrchestrator
    → AnalysisOrchestrator
work_with i cancelled analyze none rs o = o
work_with i cancelled analyze (some w) [] o = o
work_with i cancelled analyze (some w) (r ∷ rs) o =
    (process_request i w cancelled r (analyze r) (record o { request_queue = rs })).0

unfoldable pub work :
    ℕ → Bool → (AnalysisRequest → AnalysisResponse) → AnalysisOrchestrator → AnalysisOrchestrator
unfolding process_request
work i cancelled analyze o = work_with i cancelled analyze (get_elem? o.workers i) o.request_queue o

-- GetResponse, which waits for a response.
abbrev pub get_response_from :
    List AnalysisResponse → AnalysisOrchestrator → AnalysisOrchestrator × Option AnalysisResponse
get_response_from [] o = (o, none)
get_response_from (r ∷ rs) o = (record o { response_queue = rs }, some r)

abbrev pub get_response : AnalysisOrchestrator → AnalysisOrchestrator × Option AnalysisResponse
get_response o = get_response_from o.response_queue o

unfoldable pub coordinate_first : List CoordinationMsg → AnalysisOrchestrator → AnalysisOrchestrator
unfolding coordinate
coordinate_first [] o = o
coordinate_first (m ∷ ms) o = coordinate m (record o { coordination_chan = ms })

abbrev pub ended : Option Bytes → AnalysisOrchestrator → AnalysisOrchestrator × Option Bytes
ended none o = (record o { is_shut_down = true; responses_closed = true }, none)
ended (some err) o = (record o { is_shut_down = true }, some err)

-- Stop. A second call closes a channel that is closed, and panics, which is `none`. `expired` is the error of the
-- context, if that ends before the goroutines do.
unfoldable pub stop :
    Option Bytes → AnalysisOrchestrator → Option (AnalysisOrchestrator × Option Bytes)
stop expired o = if o.is_shut_down then none else some (ended expired o)

abbrev pub after_stop :
    AnalysisOrchestrator → Option (AnalysisOrchestrator × Option Bytes) → AnalysisOrchestrator
after_stop o none = o
after_stop o (some r) = r.0

-- What can happen after Start, if that is not called again: a call from outside, Stop among them, a worker that takes a
-- request, the coordinator that receives a message or a status, and the ticker of the metrics. A second Stop panics.
pub data Event : Type 0 where
  adds : Bool → ℕ → Event
  submits : Bool → Bytes → AnalysisRequest → Event
  works : ℕ → Bool → (AnalysisRequest → AnalysisResponse) → Event
  takes_response : Event
  coordinates : Event
  reads_status : Event
  ticks : Event
  stops : Option Bytes → Event

unfoldable pub happen : Event → AnalysisOrchestrator → AnalysisOrchestrator
unfolding add_pipeline submit_request work coordinate_first stop
happen (adds answers p) o = add_pipeline answers p o
happen (submits answers generated r) o = (submit_request answers generated r o).0
happen (works i cancelled analyze) o = work i cancelled analyze o
happen takes_response o = (get_response o).0
happen coordinates o = coordinate_first o.coordination_chan o
happen reads_status o = receive_status o.status_chan o
happen ticks o = update_metrics o
happen (stops expired) o = after_stop o (stop expired o)

unfoldable pub happen_all : List Event → AnalysisOrchestrator → AnalysisOrchestrator
unfolding happen
happen_all [] o = o
happen_all (e ∷ es) o = happen_all es (happen e o)
