-- ===== src/Orchestrator/Types.antt =====
-- The types of internal/analyzers/orchestrator.go. A pipeline is named by a number; the counters of 64 bits do not
-- reach their ends.
use ideas.Base.{ℕ, Bool, true, false, List, [], Option, none, some}
use ideas.Base.Text.{Bytes, codes}
use ideas.Pipeline.Types.{AnalysisRequest, AnalysisResponse}

pub record OrchestratorConfig : Type 0 where
  pub max_workers : ℕ
  pub worker_idle_timeout : ℕ
  pub queue_size : ℕ
  pub processing_timeout : ℕ
  pub max_retries : ℕ
  pub retry_delay : ℕ
  pub enable_priority : Bool
  pub high_priority_queue : Bool
  pub load_balancing : Bytes
  pub metrics_interval : ℕ
  pub health_check_interval : ℕ

abbrev pub default_orchestrator_config : OrchestratorConfig
default_orchestrator_config = record {
  max_workers = 10;
  worker_idle_timeout = 30000000000;
  queue_size = 1000;
  processing_timeout = 600000000000;
  max_retries = 3;
  retry_delay = 5000000000;
  enable_priority = true;
  high_priority_queue = false;
  load_balancing = codes "least_busy";
  metrics_interval = 30000000000;
  health_check_interval = 60000000000;
}

-- The one that NewAnalysisOrchestrator makes if it is given none.
abbrev pub fallback_config : OrchestratorConfig
fallback_config = record {
  max_workers = 4;
  worker_idle_timeout = 10000000000;
  queue_size = 100;
  processing_timeout = 5000000000;
  max_retries = 3;
  retry_delay = 1000000000;
  enable_priority = false;
  high_priority_queue = false;
  load_balancing = codes "round_robin";
  metrics_interval = 60000000000;
  health_check_interval = 30000000000;
}

-- The error rate and the utilization are fractions.
pub record OrchestratorMetrics : Type 0 where
  pub total_requests : ℕ
  pub active_requests : ℕ
  pub completed_requests : ℕ
  pub failed_requests : ℕ
  pub queue_depth : ℕ
  pub error_rate : ℕ × ℕ

abbrev pub new_orchestrator_metrics : OrchestratorMetrics
new_orchestrator_metrics = record {
  total_requests = 0;
  active_requests = 0;
  completed_requests = 0;
  failed_requests = 0;
  queue_depth = 0;
  error_rate = (0, 1);
}

pub record WorkerStatus : Type 0 where
  pub worker_id : ℕ
  pub is_active : Bool
  pub current_request : Bytes
  pub requests_handled : ℕ
  pub start_time : ℕ

-- The messages by kind and payload; the last two kinds are received and ignored.
pub data CoordinationMsg : Type 0 where
  msg_pipeline : ℕ → CoordinationMsg
  msg_running : Bool → CoordinationMsg
  msg_get_metrics : CoordinationMsg
  msg_get_worker_status : CoordinationMsg
  msg_request_started : Bytes → CoordinationMsg
  msg_request_completed : ℕ → Bytes → CoordinationMsg
  msg_request_failed : ℕ → Bytes → CoordinationMsg
  msg_worker_stopped : CoordinationMsg
  msg_shutdown_request : CoordinationMsg

pub record AnalysisWorker : Type 0 where
  pub id : ℕ
  pub pipeline : Option ℕ
  pub start_time : ℕ
  pub requests_handled : ℕ

-- `is_running` and `worker_statuses` are those of the coordinator, `is_shut_down` is whether shutdownChan and the queue
-- of requests are closed.
pub record AnalysisOrchestrator : Type 0 where
  pub pipelines : List ℕ
  pub request_queue : List AnalysisRequest
  pub response_queue : List AnalysisResponse
  pub workers : List AnalysisWorker
  pub config : OrchestratorConfig
  pub metrics : OrchestratorMetrics
  pub round_robin_counter : ℕ
  pub coordination_chan : List CoordinationMsg
  pub status_chan : List WorkerStatus
  pub is_shut_down : Bool
  pub responses_closed : Bool
  pub is_running : Bool
  pub worker_statuses : List WorkerStatus

abbrev config_or_fallback : Option OrchestratorConfig → OrchestratorConfig
config_or_fallback none = fallback_config
config_or_fallback (some c) = c

abbrev pub new_analysis_orchestrator : Option OrchestratorConfig → AnalysisOrchestrator
new_analysis_orchestrator c = record {
  pipelines = [];
  request_queue = [];
  response_queue = [];
  workers = [];
  config = config_or_fallback c;
  metrics = new_orchestrator_metrics;
  round_robin_counter = 0;
  coordination_chan = [];
  status_chan = [];
  is_shut_down = false;
  responses_closed = false;
  is_running = false;
  worker_statuses = [];
}
