-- ===== src/Orchestrator/Figures.antt =====
-- The counts of requests in internal/analyzers/orchestrator.go.
use ideas.Base.{
  ℕ, ◌+◌, ◌-◌, Bool, true, false, List, [], ◌∷◌, ◌++◌, ◌≡◌, refl, ap, arith, if◌then◌else◌,
}
use ideas.Base.Tally.{tally}
use ideas.Base.Text.{Bytes}
use ideas.Orchestrator.Coordinate.{has_pipeline, coordinate, coordinate_all}
use ideas.Orchestrator.Types.{
  AnalysisOrchestrator, OrchestratorMetrics, CoordinationMsg, msg_pipeline, msg_running,
  msg_get_metrics, msg_get_worker_status, msg_request_started, msg_request_completed,
  msg_request_failed, msg_worker_stopped, msg_shutdown_request,
}

-- A request that a worker handled, and whether its response had an error.
pub record Handled : Type 0 where
  pub worker : ℕ
  pub request_id : Bytes
  pub failed : Bool

abbrev pub messages_of_one : Bool → ℕ → Bytes → List CoordinationMsg → List CoordinationMsg
messages_of_one true w id rest = msg_request_failed w id ∷ msg_request_completed w id ∷ rest
messages_of_one false w id rest = msg_request_completed w id ∷ rest

-- The messages that processRequest sends for them.
abbrev pub handled_messages : List Handled → List CoordinationMsg
handled_messages [] = []
handled_messages (h ∷ hs) = messages_of_one h.failed h.worker h.request_id (handled_messages hs)

-- How many messages of a list are of a kind: requests started, completed, and failed.
abbrev starts_one : CoordinationMsg → ℕ
starts_one (msg_pipeline p) = 0
starts_one (msg_running b) = 0
starts_one msg_get_metrics = 0
starts_one msg_get_worker_status = 0
starts_one (msg_request_started r) = 1
starts_one (msg_request_completed w r) = 0
starts_one (msg_request_failed w r) = 0
starts_one msg_worker_stopped = 0
starts_one msg_shutdown_request = 0

abbrev completes_one : CoordinationMsg → ℕ
completes_one (msg_pipeline p) = 0
completes_one (msg_running b) = 0
completes_one msg_get_metrics = 0
completes_one msg_get_worker_status = 0
completes_one (msg_request_started r) = 0
completes_one (msg_request_completed w r) = 1
completes_one (msg_request_failed w r) = 0
completes_one msg_worker_stopped = 0
completes_one msg_shutdown_request = 0

abbrev fails_one : CoordinationMsg → ℕ
fails_one (msg_pipeline p) = 0
fails_one (msg_running b) = 0
fails_one msg_get_metrics = 0
fails_one msg_get_worker_status = 0
fails_one (msg_request_started r) = 0
fails_one (msg_request_completed w r) = 0
fails_one (msg_request_failed w r) = 1
fails_one msg_worker_stopped = 0
fails_one msg_shutdown_request = 0

abbrev pub started_in : List CoordinationMsg → ℕ
started_in ms = tally starts_one ms

abbrev pub completed_in : List CoordinationMsg → ℕ
completed_in ms = tally completes_one ms

abbrev pub failed_in : List CoordinationMsg → ℕ
failed_in ms = tally fails_one ms

-- The messages of an end, completed or failed, that find no active request, if `k` are active at first.
abbrev pub unmatched : ℕ → List CoordinationMsg → ℕ
unmatched k [] = 0
unmatched k (m ∷ ms) =
    let ends = completes_one m + fails_one m in
    let now = k + starts_one m in (ends - now) + unmatched (now - ends) ms

-- What the metrics of the requests show after messages, which came to the metrics `before`.
pub record Shows (before after : OrchestratorMetrics) (ms : List CoordinationMsg) : Type 0 where
  pub total : after.total_requests ≡ before.total_requests + started_in ms
  pub completed : after.completed_requests ≡ before.completed_requests + completed_in ms
  pub failed : after.failed_requests ≡ before.failed_requests + failed_in ms
  pub active :
      after.active_requests + completed_in ms + failed_in ms
      ≡ before.active_requests + started_in ms + unmatched before.active_requests ms

-- The effect of one message on the counts.
record Counted (m : CoordinationMsg) (before after : OrchestratorMetrics) : Type 0 where
  total : after.total_requests ≡ before.total_requests + starts_one m
  completed : after.completed_requests ≡ before.completed_requests + completes_one m
  failed : after.failed_requests ≡ before.failed_requests + fails_one m
  active :
      after.active_requests
      ≡ before.active_requests + starts_one m - (completes_one m + fails_one m)

same_metrics :
    (b : Bool) (o p : AnalysisOrchestrator)
    → o.metrics ≡ p.metrics
    → (if b then o else p).metrics ≡ p.metrics
same_metrics true o p h = h
same_metrics false o p h = refl

coordinate-Counted :
    (m : CoordinationMsg) (o : AnalysisOrchestrator) → Counted m o.metrics (coordinate m o).metrics
unfolding coordinate
coordinate-Counted (msg_pipeline p) o =
    let same =
      same_metrics (has_pipeline p o.pipelines) o (record o { pipelines = o.pipelines ++ (p ∷ []) })
        refl in
    rw same (record {
      total = omega arith;
      completed = omega arith;
      failed = omega arith;
      active = omega arith;
    })
coordinate-Counted (msg_running b) o = omega arith
coordinate-Counted msg_get_metrics o = omega arith
coordinate-Counted msg_get_worker_status o = omega arith
coordinate-Counted (msg_request_started r) o = omega arith
coordinate-Counted (msg_request_completed w r) o = omega arith
coordinate-Counted (msg_request_failed w r) o = omega arith
coordinate-Counted msg_worker_stopped o = omega arith
coordinate-Counted msg_shutdown_request o = omega arith

-- Whatever messages the coordinator handles and in whatever order, the total grows by the requests started, the
-- completed and the failed by the messages of these kinds, and every message of an end, failed or completed, takes one
-- off the active requests, unless it finds none there: the active ones with all ends are those there were and those
-- started, with the ends that found none.
pub coordinate_all-Shows :
    (ms : List CoordinationMsg) (o : AnalysisOrchestrator)
    → Shows o.metrics (coordinate_all ms o).metrics ms
unfolding coordinate_all
coordinate_all-Shows [] o = record {
  total = omega arith;
  completed = omega arith;
  failed = omega arith;
  active = omega arith;
}
coordinate_all-Shows (m ∷ ms) o =
    let one = coordinate-Counted m o in
    let rest = coordinate_all-Shows ms (coordinate m o) in
    let found = ap (λ (k : ℕ). unmatched k ms) one.active in
    record {
      total = omega (arith, one.total, rest.total);
      completed = omega (arith, one.completed, rest.completed);
      failed = omega (arith, one.failed, rest.failed);
      active = omega (arith, one.active, rest.active, found);
    }
