-- ===== src/Orchestrator/Coordinate.antt =====
-- The coordinator of internal/analyzers/orchestrator.go, which goes through the messages in its channel, and what
-- AddPipeline and Start do.
use ideas.Base.{
  ℕ, zero, suc, ◌+◌, ◌-◌, ◌*◌, ◌%◌, Bool, true, false, ◌==◌, ltb, List, [], ◌∷◌, ◌++◌, Option, none,
  some, length, get_elem?, if◌then◌else◌,
}
use ideas.Base.Text.{Bytes, codes, bytes_eq}
use ideas.Orchestrator.Types.{
  OrchestratorMetrics, WorkerStatus, CoordinationMsg, AnalysisOrchestrator, msg_pipeline,
  msg_running, msg_get_metrics, msg_get_worker_status, msg_request_started, msg_request_completed,
  msg_request_failed, msg_worker_stopped, msg_shutdown_request,
}

abbrev pub update_metrics_on_submit : OrchestratorMetrics → OrchestratorMetrics
update_metrics_on_submit m = record m {
  total_requests = m.total_requests + 1;
  active_requests = m.active_requests + 1;
}

-- The subtraction on ℕ stops at 0, as the test in the code makes it.
abbrev pub update_metrics_on_complete : OrchestratorMetrics → OrchestratorMetrics
update_metrics_on_complete m = record m {
  active_requests = m.active_requests - 1;
  completed_requests = m.completed_requests + 1;
}

abbrev pub update_metrics_on_failure : OrchestratorMetrics → OrchestratorMetrics
update_metrics_on_failure m = record m {
  active_requests = m.active_requests - 1;
  failed_requests = m.failed_requests + 1;
}

abbrev pub update_metrics : AnalysisOrchestrator → AnalysisOrchestrator
update_metrics o = record o {
  metrics = record o.metrics {
    queue_depth = length o.request_queue;
    error_rate =
        if ltb 0 o.metrics.total_requests
        then (o.metrics.failed_requests, o.metrics.total_requests)
        else o.metrics.error_rate;
  };
}

abbrev pub has_pipeline : ℕ → List ℕ → Bool
has_pipeline p [] = false
has_pipeline p (q ∷ qs) = if q == p then true else has_pipeline p qs

-- A message that runCoordination handles.
unfoldable pub coordinate : CoordinationMsg → AnalysisOrchestrator → AnalysisOrchestrator
coordinate (msg_pipeline p) o =
    if has_pipeline p o.pipelines then o else record o { pipelines = o.pipelines ++ (p ∷ []) }
coordinate (msg_running b) o = record o { is_running = b }
coordinate msg_get_metrics o = o
coordinate msg_get_worker_status o = o
coordinate (msg_request_started r) o = record o { metrics = update_metrics_on_submit o.metrics }
coordinate (msg_request_completed w r) o = record o {
  metrics = update_metrics_on_complete o.metrics;
}
coordinate (msg_request_failed w r) o = record o { metrics = update_metrics_on_failure o.metrics }
coordinate msg_worker_stopped o = o
coordinate msg_shutdown_request o = o

unfoldable pub coordinate_all : List CoordinationMsg → AnalysisOrchestrator → AnalysisOrchestrator
unfolding coordinate
coordinate_all [] o = o
coordinate_all (m ∷ ms) o = coordinate_all ms (coordinate m o)

-- The coordinator goes through all that is in the channel.
unfoldable pub drain : AnalysisOrchestrator → AnalysisOrchestrator
unfolding coordinate_all
drain o = coordinate_all o.coordination_chan (record o { coordination_chan = [] })

-- A status that the coordinator receives replaces that of the same worker.
abbrev pub put_status : WorkerStatus → List WorkerStatus → List WorkerStatus
put_status s [] = s ∷ []
put_status s (t ∷ ts) =
    let rest = put_status s ts in if t.worker_id == s.worker_id then s ∷ ts else t ∷ rest

abbrev pub receive_status : List WorkerStatus → AnalysisOrchestrator → AnalysisOrchestrator
receive_status [] o = o
receive_status (s ∷ ss) o = record o {
  status_chan = ss;
  worker_statuses = put_status s o.worker_statuses;
}

abbrev pub count_active : List WorkerStatus → ℕ
count_active [] = 0
count_active (s ∷ ss) = (if s.is_active then 1 else 0) + count_active ss

-- calculateWorkerUtilization, as a fraction.
abbrev pub calculate_worker_utilization : List WorkerStatus → ℕ × ℕ
calculate_worker_utilization [] = (0, 1)
calculate_worker_utilization (s ∷ ss) = (count_active (s ∷ ss) * 100, length (s ∷ ss))

-- A send to the channel of coordination that does not wait.
abbrev pub offer : CoordinationMsg → AnalysisOrchestrator → AnalysisOrchestrator
offer m o =
    if ltb (length o.coordination_chan) 10
    then record o { coordination_chan = o.coordination_chan ++ (m ∷ []) }
    else o

abbrev pub offer_status : WorkerStatus → AnalysisOrchestrator → AnalysisOrchestrator
offer_status s o =
    if ltb (length o.status_chan) o.config.max_workers
    then record o { status_chan = o.status_chan ++ (s ∷ []) }
    else o

abbrev append_pipeline : ℕ → AnalysisOrchestrator → AnalysisOrchestrator
append_pipeline p o = record o { pipelines = o.pipelines ++ (p ∷ []) }

-- `answers` is whether the coordinator answers in time. If not, the message stays in the channel, and the pipeline is
-- added all the same.
unfoldable pub add_pipeline : Bool → ℕ → AnalysisOrchestrator → AnalysisOrchestrator
unfolding drain
add_pipeline answers p o =
    let sent = record o { coordination_chan = o.coordination_chan ++ (msg_pipeline p ∷ []) } in
    if ltb (length o.coordination_chan) 10
    then if answers then drain sent else append_pipeline p sent
    else append_pipeline p o

-- The choice of a pipeline by the coordinator.
unfoldable pub select_pipeline : AnalysisOrchestrator → AnalysisOrchestrator × Option ℕ
select_pipeline o =
    if length o.pipelines == 0
    then (o, none)
    else if bytes_eq o.config.load_balancing (codes "least_busy")
    then (o, get_elem? o.pipelines 0)
    else if bytes_eq o.config.load_balancing (codes "round_robin")
    then (
      record o { round_robin_counter = o.round_robin_counter + 1 },
      get_elem? o.pipelines (o.round_robin_counter % length o.pipelines),
    )
    else (o, get_elem? o.pipelines 0)

unfoldable pub create_worker : ℕ → ℕ → AnalysisOrchestrator → AnalysisOrchestrator
unfolding select_pipeline
create_worker now id o =
    let s = select_pipeline o in
    record s.0 {
      workers =
          s.0.workers
          ++ (record { id = id; pipeline = s.1; start_time = now; requests_handled = 0 } ∷ []);
    }

-- The loop of Start over the workers from `id` on, `n` in number.
unfoldable pub create_workers : ℕ → ℕ → ℕ → AnalysisOrchestrator → AnalysisOrchestrator
unfolding create_worker
create_workers now zero id o = o
create_workers now (suc n) id o = create_workers now n (id + 1) (create_worker now id o)

-- Start waits until the coordinator has gone through the channel. At its end it says that the orchestrator runs,
-- if there is room for that after the messages `between` that came in the meantime.
unfoldable pub start :
    ℕ → List CoordinationMsg → AnalysisOrchestrator → AnalysisOrchestrator × Option Bytes
unfolding drain create_workers
start now between o =
    let ready = create_workers now o.config.max_workers 0 (drain o) in
    if length o.pipelines == 0
    then (o, some (codes "no analysis pipelines configured"))
    else (offer (msg_running true) (record ready { coordination_chan = between }), none)
