-- ===== src/Supervisor/Examples.antt =====
-- Runs of internal/analyzers/worker_supervisor.go.
use ideas.Base.{ℕ, ◌+◌, ◌++◌, List, ◌≡◌, ◌<◌, refl, true, false, [], ◌∷◌, arith}
use ideas.Base.Int.{pos}
use ideas.Supervisor.{
  WorkerEvent, worker_completed, worker_shutdown_event, WorkerSupervisor, new_worker_supervisor,
  start, mem, select_worker, handle_worker_failure,
}
use ideas.Supervisor.Select.{Created, IsTurn, start-Created, select_worker-IsTurn}
use ideas.Supervisor.Pool.{IsCounted, Replaced, handle_worker_failure-Replaced}
use ideas.Supervisor.Stop.{
  Running, all_running, received, Shutdowns, no_call, next_call, health_monitor,
}

-- The context ends while Start runs: the monitor of each worker sends that it is shut down.
abbrev shut_down : ℕ → List WorkerEvent
shut_down n = worker_shutdown_event (n + 1) ∷ []

start-Created_example : Created 60 60 60 (start shut_down (new_worker_supervisor 60))
start-Created_example = start-Created shut_down 60

-- Three workers, of which nothing was asked yet.
abbrev three : WorkerSupervisor
three = record {
  max_workers = 3;
  workers = 1 ∷ 2 ∷ 3 ∷ [];
  worker_counter = 3;
  total_workers = 3;
  active_workers = pos 3;
  failed_workers = 0;
  processed_reqs = 0;
  worker_events = [];
}

three-IsCounted : IsCounted three
three-IsCounted = record {
  distinct = (refl, (refl, (refl, tt)));
  bounded = omega arith;
  counted = refl;
  fresh = above_three;
}
  where
    above_three : (k : ℕ) → 3 < k → (let s = three in mem k s.workers) ≡ false
    above_three k h = ground (arith, h)

select_worker-IsTurn_example : IsTurn (pos 4) 3 (1 ∷ 2 ∷ 3 ∷ []) (select_worker three).0
select_worker-IsTurn_example =
    select_worker-IsTurn three 3 refl (omega arith) (omega arith) (omega arith)

-- While the failed worker is shut down, a worker completes a request.
abbrev completes : WorkerSupervisor → WorkerSupervisor
completes s = record s { worker_events = s.worker_events ++ (worker_completed 1 ∷ []) }

completes-IsCounted : IsCounted (completes three)
completes-IsCounted = record {
  distinct = three-IsCounted.distinct;
  bounded = three-IsCounted.bounded;
  counted = three-IsCounted.counted;
  fresh = three-IsCounted.fresh;
}

handle_worker_failure-Replaced_example :
    Replaced 2 (completes three) (handle_worker_failure completes 2 three)
handle_worker_failure-Replaced_example =
    handle_worker_failure-Replaced completes 2 three refl completes-IsCounted refl (omega arith)
      (omega arith)

-- The worker 2 was replaced by 4, and the counter has come to 7.
abbrev replaced : WorkerSupervisor
replaced = record {
  max_workers = 3;
  workers = 1 ∷ 3 ∷ 4 ∷ [];
  worker_counter = 7;
  total_workers = 4;
  active_workers = pos 3;
  failed_workers = 0;
  processed_reqs = 3;
  worker_events = [];
}

abbrev without_monitor : Running
without_monitor = record { supervisor = true; distributor = true; monitor = false }

abbrev one_shutdown : Shutdowns 1 all_running without_monitor
one_shutdown =
    next_call 0 all_running without_monitor without_monitor
      (received all_running health_monitor refl) (no_call without_monitor)
