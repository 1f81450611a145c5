-- ===== src/Supervisor/Requests.antt =====
-- The channel of requests, the checks of health and the view of the pool in internal/analyzers/worker_supervisor.go.
use ideas.Base.{
  ℕ, ◌+◌, ◌≡◌, refl, Bool, true, false, List, [], ◌∷◌, ◌++◌, Option, none, some, ltb, if◌then◌else◌,
}
use ideas.Base.Int.{ℤ}
use ideas.Supervisor.{
  WorkerSupervisor, WorkerEvent, worker_completed, worker_failed, worker_unresponsive,
  worker_shutdown_event, PoolHealth, calculate_pool_health, handle_worker_event,
}

-- The channel of requests holds 100.
pub record Requests : Type 0 where
  pub waiting : ℕ
  pub closed : Bool

-- The case that the select of SubmitRequest takes.
pub data Taken : Type 0 where
  sends context_done five_seconds_over : Taken

pub data Submission : Type 0 where
  accepted context_error supervisor_timeout panics still_waits : Submission

-- A send on a closed channel panics, one on a full channel is not taken.
unfoldable pub submit_request : Taken → Requests → Submission × Requests
submit_request sends q =
    if q.closed
    then (panics, q)
    else if ltb q.waiting 100
    then (accepted, record q { waiting = q.waiting + 1 })
    else (still_waits, q)
submit_request context_done q = (context_error, q)
submit_request five_seconds_over q = (supervisor_timeout, q)

-- The channel after shutdownAllWorkers, `none` for the panic of a second close, and the workers that it tells to
-- shut down. They stay in the map.
unfoldable pub shutdown_all_workers : WorkerSupervisor → Requests → Option (Requests × List ℕ)
shutdown_all_workers s q = if q.closed then none else some (record q { closed = true }, s.workers)

pub data ResultStatus : Type 0 where
  result_success result_error result_timeout : ResultStatus

-- The event that monitorWorkerResults makes of a result.
abbrev pub event_of : ResultStatus → ℕ → WorkerEvent
event_of result_success id = worker_completed id
event_of result_error id = worker_failed id
event_of result_timeout id = worker_failed id

-- The events of all results of a worker; the last one comes when its channel is closed.
unfoldable pub monitor_worker_results : ℕ → List ResultStatus → List WorkerEvent
monitor_worker_results id [] = worker_shutdown_event id ∷ []
monitor_worker_results id (r ∷ rs) = event_of r id ∷ monitor_worker_results id rs

pub data WorkerHealth : Type 0 where
  healthy failed unresponsive other_health : WorkerHealth

-- What GetStatus of a worker answers, `none` for an error; the status is empty then.
abbrev is_ill : WorkerHealth → Bool
is_ill healthy = false
is_ill failed = true
is_ill unresponsive = true
is_ill other_health = false

abbrev check_of : ℕ → Option WorkerHealth → List WorkerEvent
check_of id none = worker_unresponsive id ∷ []
check_of id (some h) = if is_ill h then worker_unresponsive id ∷ [] else []

abbrev check_workers : (ℕ → Option WorkerHealth) → List ℕ → List WorkerEvent
check_workers status [] = []
check_workers status (id ∷ ids) = check_of id (status id) ++ check_workers status ids

unfoldable pub perform_health_check :
    (ℕ → Option WorkerHealth) → WorkerSupervisor → List WorkerEvent
perform_health_check status s = check_workers status s.workers

pub record WorkerPool : Type 0 where
  pub total_workers : ℕ
  pub active_workers : ℤ
  pub failed_workers : ℕ
  pub processed_reqs : ℕ
  pub workers : List (ℕ × WorkerHealth)
  pub health : PoolHealth

abbrev add_status : ℕ → Option WorkerHealth → List (ℕ × WorkerHealth) → List (ℕ × WorkerHealth)
add_status id none rest = rest
add_status id (some h) rest = (id, h) ∷ rest

abbrev statuses : (ℕ → Option WorkerHealth) → List ℕ → List (ℕ × WorkerHealth)
statuses status [] = []
statuses status (id ∷ ids) = add_status id (status id) (statuses status ids)

unfoldable pub get_worker_pool : (ℕ → Option WorkerHealth) → WorkerSupervisor → WorkerPool
unfolding calculate_pool_health
get_worker_pool status s = record {
  total_workers = s.total_workers;
  active_workers = s.active_workers;
  failed_workers = s.failed_workers;
  processed_reqs = s.processed_reqs;
  workers = statuses status s.workers;
  health = calculate_pool_health s;
}

abbrev handle_events : List WorkerEvent → WorkerSupervisor → WorkerSupervisor
handle_events [] s = s
handle_events (e ∷ es) s = handle_events es (handle_worker_event e s)

check_workers-ignored :
    (status : ℕ → Option WorkerHealth) (ids : List ℕ) (s : WorkerSupervisor)
    → handle_events (check_workers status ids) s ≡ s
unfolding handle_worker_event
check_workers-ignored status [] s = refl
check_workers-ignored status (id ∷ ids) s =
    by_status (status id) (check_workers-ignored status ids s)
  where
    by_status :
        (h : Option WorkerHealth)
        → handle_events (check_workers status ids) s ≡ s
        → handle_events (check_of id h ++ check_workers status ids) s ≡ s
    by_status none e = e
    by_status (some healthy) e = e
    by_status (some failed) e = e
    by_status (some unresponsive) e = e
    by_status (some other_health) e = e

-- Whatever the workers answer to a check of health, handling the events of the check changes nothing.
perform_health_check-ignored :
    (status : ℕ → Option WorkerHealth) (s : WorkerSupervisor)
    → handle_events (perform_health_check status s) s ≡ s
unfolding perform_health_check
perform_health_check-ignored status s = check_workers-ignored status s.workers s
