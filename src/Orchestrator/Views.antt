-- ===== src/Orchestrator/Views.antt =====
-- What internal/analyzers/orchestrator.go shows of itself, and its end.
use ideas.Base.{ℕ, suc, ltb, Bool, List, [], ◌∷◌, ◌++◌, Option, none, some, length, if◌then◌else◌}
use ideas.Base.Text.{Bytes}
use ideas.Orchestrator.Coordinate.{drain, calculate_worker_utilization}
use ideas.Orchestrator.Types.{
  AnalysisOrchestrator, OrchestratorMetrics, WorkerStatus, msg_get_worker_status,
}
use ideas.Pipeline.Extraction.{Parts}
use ideas.Pipeline.Types.{Deadline, StorageManager, LlmClient}

-- GetWorkerStatus, where `answers` is whether the coordinator answers in time.
unfoldable pub get_worker_status :
    Bool → AnalysisOrchestrator → AnalysisOrchestrator × List WorkerStatus
unfolding drain
get_worker_status answers o =
    let sent = record o {
      coordination_chan = o.coordination_chan ++ (msg_get_worker_status ∷ []);
    } in
    if ltb (length o.coordination_chan) 10
    then if answers then (drain sent, (drain sent).worker_statuses) else (sent, [])
    else (o, [])

-- GetMetrics: a copy with the depth of the queue now, and the utilization of the workers.
unfoldable pub get_metrics :
    Bool → AnalysisOrchestrator → AnalysisOrchestrator × OrchestratorMetrics × (ℕ × ℕ)
unfolding get_worker_status
get_metrics answers o =
    let asked = get_worker_status answers o in
    (
      asked.0,
      record o.metrics { queue_depth = length o.request_queue },
      calculate_worker_utilization asked.1,
    )

abbrev storage_error : Deadline → Option StorageManager → Option Bytes
storage_error deadline none = none
storage_error deadline (some m) = m.health deadline

abbrev client_error : Deadline → Option LlmClient → Option Bytes
client_error deadline none = none
client_error deadline (some c) = c.health deadline

-- checkHealth logs the errors of each pipeline, with its index.
abbrev pub check_health : Deadline → ℕ → List Parts → List (ℕ × Option Bytes × Option Bytes)
check_health deadline i [] = []
check_health deadline i (p ∷ ps) =
    (i, storage_error deadline p.storage_manager, client_error deadline p.llm_client)
    ∷ check_health deadline (suc i) ps
