-- ===== src/Supervisor.antt =====
-- The worker supervisor, internal/analyzers/worker_supervisor.go. The map of the workers is the list of its keys,
-- in the order of one iteration; what a worker does with a command is a parameter. The counter of the ids is the
-- 32 bits of its atomic.Int32, the counters of workers and requests do not wrap.
pub mod Select
pub mod Pool
pub mod Stop
pub mod Gap
mod Requests
mod Examples
use ideas.Base.{
  ℕ, zero, suc, ◌+◌, ◌-◌, ◌*◌, ◌%◌, Bool, true, false, ◌==◌, List, [], ◌∷◌, ◌++◌, length, take,
  Option, none, some, ltb, leb, if◌then◌else◌,
}
use ideas.Base.Int.{ℤ, pos, negsuc, ◌+ℤ◌, eqb_ℤ, leb_ℤ}

abbrev pub wrap : ℕ
wrap = 4294967296

-- The value of 32 bits as an int32, and the remainder of Go, which has the sign of the dividend.
abbrev pub to_int : ℕ → ℤ
to_int c = if ltb c 2147483648 then pos c else negsuc (wrap - 1 - c)

abbrev pub negate : ℕ → ℤ
negate zero = pos 0
negate (suc n) = negsuc n

abbrev pub rem : ℤ → ℕ → ℤ
rem (pos c) n = pos (c % n)
rem (negsuc c) n = negate (suc c % n)

pub data WorkerEvent : Type 0 where
  worker_started worker_completed worker_failed worker_unresponsive worker_shutdown_event :
      ℕ → WorkerEvent

pub data PoolHealth : Type 0 where
  pool_healthy pool_degraded pool_unhealthy pool_shutting_down : PoolHealth

pub record WorkerSupervisor : Type 0 where
  pub max_workers : ℕ
  pub workers : List ℕ
  pub worker_counter : ℕ
  pub total_workers : ℕ
  pub active_workers : ℤ
  pub failed_workers : ℕ
  pub processed_reqs : ℕ
  pub worker_events : List WorkerEvent

abbrev pub new_worker_supervisor : ℕ → WorkerSupervisor
new_worker_supervisor most = record {
  max_workers = most;
  workers = [];
  worker_counter = 0;
  total_workers = 0;
  active_workers = pos 0;
  failed_workers = 0;
  processed_reqs = 0;
  worker_events = [];
}

abbrev pub mem : ℕ → List ℕ → Bool
mem id [] = false
mem id (w ∷ ws) = if id == w then true else mem id ws

abbrev pub delete : ℕ → List ℕ → List ℕ
delete id [] = []
delete id (w ∷ ws) = let rest = delete id ws in if id == w then rest else w ∷ rest

-- A key that is there already is written again.
abbrev pub insert_key : ℕ → List ℕ → List ℕ
insert_key id ws = if mem id ws then ws else ws ++ (id ∷ [])

abbrev pub next_id : WorkerSupervisor → ℕ
next_id s = (s.worker_counter + 1) % wrap

-- The channel of events holds 100; a sender of one more waits, which is `none`.
unfoldable pub send_event : WorkerEvent → WorkerSupervisor → Option WorkerSupervisor
send_event e s =
    if ltb (length s.worker_events) 100
    then some (record s { worker_events = s.worker_events ++ (e ∷ []) })
    else none

-- createWorker before its event is sent.
unfoldable pub register_worker : WorkerSupervisor → WorkerSupervisor
register_worker s = record s {
  worker_counter = next_id s;
  workers = insert_key (next_id s) s.workers;
  total_workers = s.total_workers + 1;
  active_workers = s.active_workers +ℤ pos 1;
}

-- The goroutines that it starts, of the worker and of the monitor of its results, act on the supervisor by their events
-- only: `arrive` and `during` below, and Supervisor/Requests.
unfoldable pub create_worker : WorkerSupervisor → Option WorkerSupervisor
unfolding register_worker send_event
create_worker s = send_event (worker_started (next_id s)) (register_worker s)

abbrev pub and_then :
    Option WorkerSupervisor → (WorkerSupervisor → Option WorkerSupervisor) → Option WorkerSupervisor
and_then none f = none
and_then (some s) f = f s

-- The events of other goroutines come into the channel, as far as there is room; those left wait.
abbrev pub arrive : List WorkerEvent → WorkerSupervisor → WorkerSupervisor
arrive es s = record s { worker_events = take 100 (s.worker_events ++ es) }

-- The loop of Start, before anything reads the events. `sent n` are the events that the monitors of the workers send
-- before the worker after n others sends its own: a worker that ends with the context is shut down.
unfoldable pub create_workers :
    (ℕ → List WorkerEvent) → ℕ → WorkerSupervisor → Option WorkerSupervisor
unfolding create_worker
create_workers sent zero s = some s
create_workers sent (suc n) s =
    and_then (create_workers sent n s) (λ t. create_worker (arrive (sent n) t))

unfoldable pub start : (ℕ → List WorkerEvent) → WorkerSupervisor → Option WorkerSupervisor
unfolding create_workers
start sent s = create_workers sent s.max_workers s

abbrev pub select_from : ℤ → ℕ → List ℕ → Option ℕ
select_from c n [] = none
select_from c n (id ∷ ids) =
    if eqb_ℤ (rem c n) (rem (to_int id) n) then some id else select_from c n ids

-- The id selected, `none` for -1, and the state with the counter moved.
unfoldable pub select_worker : WorkerSupervisor → Option ℕ × WorkerSupervisor
select_worker s = (
  select_from (to_int (next_id s)) (length s.workers) s.workers,
  record s { worker_counter = next_id s },
)

-- What became of a request: lost, given to a worker, or refused by a worker, which then counts as failed.
pub data Distribution : Type 0 where
  no_worker : Distribution
  assigned refused : ℕ → Distribution

abbrev pub on_selected : (ℕ → Bool) → Option ℕ → WorkerSupervisor → Distribution × WorkerSupervisor
on_selected takes none s = (no_worker, s)
on_selected takes (some id) s =
    if takes id
    then (assigned id, record s { processed_reqs = s.processed_reqs + 1 })
    else (refused id, s)

-- `takes` is whether the worker's SendCommand returns no error. That the worker selected exists holds since
-- it is a key of the map.
unfoldable pub distribute_request : (ℕ → Bool) → WorkerSupervisor → Distribution × WorkerSupervisor
unfolding select_worker
distribute_request takes s = let r = select_worker s in on_selected takes r.0 r.1

-- What the other goroutines make of the supervisor while a call waits.
abbrev pub Meanwhile : Type 0
Meanwhile = WorkerSupervisor → WorkerSupervisor

-- The removal of a failed worker. Its Shutdown sends to the worker, or ends with the context or after five seconds;
-- what it returns is not looked at. `during` is what happens until then.
unfoldable pub drop_worker : Meanwhile → ℕ → WorkerSupervisor → WorkerSupervisor
drop_worker during id s =
    if mem id s.workers
    then (let t = during s in
        record t { workers = delete id t.workers; active_workers = t.active_workers +ℤ negsuc 0 })
    else s

-- From the end of the Shutdown on this is one step, although no lock makes it one.
unfoldable pub handle_worker_failure : Meanwhile → ℕ → WorkerSupervisor → Option WorkerSupervisor
unfolding create_worker drop_worker
handle_worker_failure during id s =
    let t = drop_worker during id s in
    if ltb (length t.workers) t.max_workers then create_worker t else some t

unfoldable pub cleanup_worker : ℕ → WorkerSupervisor → WorkerSupervisor
cleanup_worker id s = record s {
  workers = delete id s.workers;
  active_workers = s.active_workers +ℤ negsuc 0;
}

unfoldable pub handle_worker_event : WorkerEvent → WorkerSupervisor → WorkerSupervisor
unfolding cleanup_worker
handle_worker_event (worker_started id) s = s
handle_worker_event (worker_completed id) s = s
handle_worker_event (worker_failed id) s = record s { failed_workers = s.failed_workers + 1 }
handle_worker_event (worker_unresponsive id) s = s
handle_worker_event (worker_shutdown_event id) s = cleanup_worker id s

abbrev times : ℕ → ℤ → ℤ
times k (pos n) = pos (k * n)
times k (negsuc n) = negate (k * suc n)

-- A ratio of 0.8 or more is 5 · active ≥ 4 · total.
unfoldable pub calculate_pool_health : WorkerSupervisor → PoolHealth
calculate_pool_health s =
    if s.total_workers == 0
    then pool_unhealthy
    else if leb_ℤ (pos (4 * s.total_workers)) (times 5 s.active_workers)
    then pool_healthy
    else if leb_ℤ (pos s.total_workers) (times 2 s.active_workers)
    then pool_degraded
    else pool_unhealthy
