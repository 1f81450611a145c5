-- ===== src/Supervisor/Stop.antt =====
-- The stop signal of internal/analyzers/worker_supervisor.go: the supervisor's loop, the distributor of requests and
-- the monitor of health all receive from one channel, and each value is received once.
use ideas.Base.{ℕ, zero, suc, ◌+◌, ◌≡◌, Bool, true, false, if◌then◌else◌, arith}

pub data Loop : Type 0 where
  supervisor_loop request_distributor health_monitor : Loop

-- The loops that run.
pub record Running : Type 0 where
  pub supervisor : Bool
  pub distributor : Bool
  pub monitor : Bool

abbrev pub all_running : Running
all_running = record { supervisor = true; distributor = true; monitor = true }

-- Whether a loop waits on the channel, and the loops left once it has received.
abbrev pub listens : Loop → Running → Bool
listens supervisor_loop r = r.supervisor
listens request_distributor r = r.distributor
listens health_monitor r = r.monitor

abbrev pub returned : Loop → Running → Running
returned supervisor_loop r = record r { supervisor = false }
returned request_distributor r = record r { distributor = false }
returned health_monitor r = record r { monitor = false }

-- One call of Shutdown that finds a loop waiting; which of them receives is not determined.
pub data Shutdown : Running → Running → Type 0 where
  received : (r : Running) (by : Loop) → listens by r ≡ true → Shutdown r (returned by r)

-- A number of calls of Shutdown, one after the other.
pub data Shutdowns : ℕ → Running → Running → Type 0 where
  no_call : (r : Running) → Shutdowns zero r r
  next_call : (n : ℕ) (r s t : Running) → Shutdown r s → Shutdowns n s t → Shutdowns (suc n) r t

abbrev pub count_running : Running → ℕ
count_running r =
    (if r.supervisor then 1 else 0)
    + (if r.distributor then 1 else 0)
    + (if r.monitor then 1 else 0)

returned-count :
    (by : Loop) (r : Running)
    → listens by r ≡ true
    → count_running (returned by r) + 1 ≡ count_running r
returned-count supervisor_loop r h = ground (arith, h)
returned-count request_distributor r h = ground (arith, h)
returned-count health_monitor r h = ground (arith, h)

Shutdown-count : {r s : Running} → Shutdown r s → count_running s + 1 ≡ count_running r
Shutdown-count (received r by h) = returned-count by r h

-- Each call of Shutdown ends exactly one of the three loops, so that n calls leave n fewer running.
pub Shutdowns-count :
    {n : ℕ} {r s : Running} → Shutdowns n r s → count_running s + n ≡ count_running r
Shutdowns-count (no_call r) = omega arith
Shutdowns-count (next_call n r s t one more) =
    omega (arith, Shutdown-count one, Shutdowns-count more)
