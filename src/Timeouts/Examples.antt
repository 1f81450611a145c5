-- ===== src/Timeouts/Examples.antt =====
-- Runs of internal/analyzers/timeout_manager.go.
use ideas.Base.{false, [], ◌∷◌, none, some}
use ideas.Base.Int.{pos}
use ideas.Timeouts.{Context, Moment, TimeoutManager, default_timeout_config, create_derived_timeout}
use ideas.Timeouts.Bounds.{Derived, create_derived_timeout-By}

abbrev root : Context
root = record { deadline = none; cancels = 0 ∷ [] }

abbrev request_context : Context
request_context = record { deadline = some (pos 500); cancels = 1 ∷ [] }

abbrev background : Context
background = record { deadline = none; cancels = [] }

abbrev at_hundred : Moment
at_hundred = record { now = pos 100; called = λ c. false }

abbrev manager : TimeoutManager
manager = record { timeouts = default_timeout_config; coordinator = some root }

-- Five nanoseconds pass between the two readings.
abbrev five_later : Moment
five_later = record { now = pos 105; called = λ c. false }

create_derived_timeout-By_example :
    Derived at_hundred five_later
      (pos 1000)
      (some (pos 500))
      (create_derived_timeout manager at_hundred five_later 2 request_context (pos 1000)).deadline
create_derived_timeout-By_example =
    create_derived_timeout-By manager at_hundred five_later 2 request_context (pos 1000)
