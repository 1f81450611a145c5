-- ===== src/Timeouts.antt =====
-- The timeout manager, internal/analyzers/timeout_manager.go, and what it uses of Go's package context. Times and
-- durations are in nanoseconds.
pub mod Bounds
pub mod Operations
mod Examples
use ideas.Base.{ℕ, ◌*◌, Bool, true, false, ◌||◌, List, [], ◌∷◌, Option, none, some, if◌then◌else◌}
use ideas.Base.Int.{ℤ, pos, ◌+ℤ◌, ◌-ℤ◌, leb_ℤ, ltb_ℤ}
use ideas.Base.Text.{Bytes, codes}

-- A context ends at its deadline, or when one of the cancel functions it descends from is called.
pub record Context : Type 0 where
  pub deadline : Option ℤ
  pub cancels : List ℕ

-- The time, and the cancel functions called up to it.
pub record Moment : Type 0 where
  pub now : ℤ
  pub called : ℕ → Bool

abbrev any_called : (ℕ → Bool) → List ℕ → Bool
any_called called [] = false
any_called called (c ∷ cs) = called c || any_called called cs

abbrev past : ℤ → Option ℤ → Bool
past now none = false
past now (some d) = leb_ℤ d now

-- Whether Err returns an error.
unfoldable pub is_done : Moment → Context → Bool
is_done m ctx = any_called m.called ctx.cancels || past m.now ctx.deadline

abbrev pub earlier : ℤ → Option ℤ → ℤ
earlier d none = d
earlier d (some p) = if ltb_ℤ p d then p else d

-- context.WithTimeout, whose cancel function has the number given.
unfoldable pub with_timeout : Moment → ℕ → Context → ℤ → Context
with_timeout m own ctx timeout = record {
  deadline = some (earlier (m.now +ℤ timeout) ctx.deadline);
  cancels = own ∷ ctx.cancels;
}

pub record TimeoutConfig : Type 0 where
  pub extraction_timeout : ℤ
  pub storage_timeout : ℤ
  pub metrics_timeout : ℤ
  pub network_timeout : ℤ
  pub worker_timeout : ℤ
  pub pipeline_timeout : ℤ
  pub health_check_timeout : ℤ
  pub shutdown_timeout : ℤ
  pub graceful_shutdown : ℤ
  pub component_shutdown : ℤ
  pub goroutine_cleanup : ℤ

abbrev seconds : ℕ → ℤ
seconds n = pos (n * 1_000_000_000)

abbrev pub default_timeout_config : TimeoutConfig
default_timeout_config = record {
  extraction_timeout = seconds 30;
  storage_timeout = seconds 10;
  metrics_timeout = seconds 5;
  network_timeout = seconds 15;
  worker_timeout = seconds 60;
  pipeline_timeout = seconds 120;
  health_check_timeout = seconds 5;
  shutdown_timeout = seconds 30;
  graceful_shutdown = seconds 45;
  component_shutdown = seconds 20;
  goroutine_cleanup = seconds 15;
}

-- The coordinator is there or not; of it the manager reads the root context.
pub record TimeoutManager : Type 0 where
  pub timeouts : TimeoutConfig
  pub coordinator : Option Context

abbrev pub new_timeout_manager : Option TimeoutConfig → Option Context → TimeoutManager
new_timeout_manager none coordinator = record {
  timeouts = default_timeout_config;
  coordinator = coordinator;
}
new_timeout_manager (some config) coordinator = record {
  timeouts = config;
  coordinator = coordinator;
}

abbrev base_context : Moment → Option Context → Context → Context
base_context m none parent = parent
base_context m (some root) parent = if is_done m parent then parent else root

-- The seven functions below are this one, with a timeout each.
unfoldable pub create_context :
    (TimeoutConfig → ℤ) → TimeoutManager → Moment → ℕ → Context → Context
unfolding with_timeout is_done
create_context of tm m own parent =
    with_timeout m own (base_context m tm.coordinator parent) (of tm.timeouts)

abbrev pub create_extraction_context : TimeoutManager → Moment → ℕ → Context → Context
create_extraction_context = create_context (λ c. c.extraction_timeout)

abbrev pub create_storage_context : TimeoutManager → Moment → ℕ → Context → Context
create_storage_context = create_context (λ c. c.storage_timeout)

abbrev pub create_metrics_context : TimeoutManager → Moment → ℕ → Context → Context
create_metrics_context = create_context (λ c. c.metrics_timeout)

abbrev pub create_network_context : TimeoutManager → Moment → ℕ → Context → Context
create_network_context = create_context (λ c. c.network_timeout)

abbrev pub create_worker_context : TimeoutManager → Moment → ℕ → Context → Context
create_worker_context = create_context (λ c. c.worker_timeout)

abbrev pub create_pipeline_context : TimeoutManager → Moment → ℕ → Context → Context
create_pipeline_context = create_context (λ c. c.pipeline_timeout)

abbrev pub create_health_check_context : TimeoutManager → Moment → ℕ → Context → Context
create_health_check_context = create_context (λ c. c.health_check_timeout)

abbrev effective_timeout : Moment → ℤ → Option ℤ → ℤ
effective_timeout m timeout none = timeout
effective_timeout m timeout (some d) = if ltb_ℤ (d -ℤ m.now) timeout then d -ℤ m.now else timeout

abbrev derived_base : Moment → Option Context → Context → Context
derived_base m none parent = parent
derived_base m (some root) parent = if is_done m root then parent else root

-- The clock is read at `m` for the time that remains to the parent, and again at `later` by context.WithTimeout.
unfoldable pub create_derived_timeout : TimeoutManager → Moment → Moment → ℕ → Context → ℤ → Context
unfolding with_timeout ◌-ℤ◌ is_done
create_derived_timeout tm m later own parent timeout =
    with_timeout later own (derived_base m tm.coordinator parent)
      (effective_timeout m timeout parent.deadline)

abbrev set_if : ℤ → ℤ → ℤ
set_if new old = if ltb_ℤ (pos 0) new then new else old

-- The four timeouts of the shutdown stay.
unfoldable pub update_timeouts : TimeoutConfig → TimeoutManager → TimeoutManager
update_timeouts config tm =
    let old = tm.timeouts in
    record tm {
      timeouts = record old {
        extraction_timeout = set_if config.extraction_timeout old.extraction_timeout;
        storage_timeout = set_if config.storage_timeout old.storage_timeout;
        metrics_timeout = set_if config.metrics_timeout old.metrics_timeout;
        network_timeout = set_if config.network_timeout old.network_timeout;
        worker_timeout = set_if config.worker_timeout old.worker_timeout;
        pipeline_timeout = set_if config.pipeline_timeout old.pipeline_timeout;
        health_check_timeout = set_if config.health_check_timeout old.health_check_timeout;
      };
    }

-- The errors of an operation, and those that HandleTimeoutError makes of them.
pub data OperationError : Type 0 where
  deadline_exceeded canceled : OperationError
  other : Bytes → OperationError

pub data HandledError : Type 0 where
  operation_timeout operation_cancelled : Bytes → ℤ → HandledError
  operation_error : Bytes → Bytes → HandledError

abbrev pub handle_timeout_error : Option OperationError → Bytes → ℤ → Option HandledError
handle_timeout_error none operation duration = none
handle_timeout_error (some deadline_exceeded) operation duration =
    some (operation_timeout operation duration)
handle_timeout_error (some canceled) operation duration =
    some (operation_cancelled operation duration)
handle_timeout_error (some (other e)) operation duration = some (operation_error operation e)
