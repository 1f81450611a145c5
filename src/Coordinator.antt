-- ===== src/Coordinator.antt =====
-- The coordinator of cancellation, internal/analyzers/cancellation_coordinator.go. A component is a number; a map is
-- a list of entries, of which the first with a key counts.
pub mod Tracked
pub mod Waits
mod Examples
use ideas.Base.{
  ℕ, zero, suc, ◌+◌, ◌-◌, Bool, true, false, not, ◌&&◌, ◌==◌, List, [], ◌∷◌, ◌++◌, Option, none,
  some, length, ltb, if◌then◌else◌,
}
use ideas.Base.Text.{Bytes, bytes_eq}

abbrev pub count_of : Bytes → List (Bytes × ℕ) → ℕ
count_of n [] = 0
count_of n (e ∷ es) = if bytes_eq n e.0 then e.1 else count_of n es

abbrev pub delete : Bytes → List (Bytes × ℕ) → List (Bytes × ℕ)
delete n [] = []
delete n (e ∷ es) = let rest = delete n es in if bytes_eq n e.0 then rest else e ∷ rest

abbrev pub put : Bytes → ℕ → List (Bytes × ℕ) → List (Bytes × ℕ)
put n v es = (n, v) ∷ delete n es

abbrev pub has_key : Bytes → List (Bytes × ℕ) → Bool
has_key n [] = false
has_key n (e ∷ es) = if bytes_eq n e.0 then true else has_key n es

-- `done` is whether the channel is closed, `root_cancelled` whether the root context is cancelled,
-- `shutdown_begun` whether shutdownOnce was used.
pub record CancellationCoordinator : Type 0 where
  pub root_cancelled : Bool
  pub done : Bool
  pub shutdown_begun : Bool
  pub components : List (Bytes × ℕ)
  pub active_goroutines : ℕ
  pub goroutine_tracker : List (Bytes × ℕ)

abbrev pub new_cancellation_coordinator : CancellationCoordinator
new_cancellation_coordinator = record {
  root_cancelled = false;
  done = false;
  shutdown_begun = false;
  components = [];
  active_goroutines = 0;
  goroutine_tracker = [];
}

-- The state, and whether an error is returned.
unfoldable pub register_component :
    Bytes → ℕ → CancellationCoordinator → CancellationCoordinator × Bool
register_component name component cc =
    if has_key name cc.components
    then (cc, true)
    else (record cc { components = put name component cc.components }, false)

unfoldable pub unregister_component : Bytes → CancellationCoordinator → CancellationCoordinator
unregister_component name cc = record cc { components = delete name cc.components }

unfoldable pub track_goroutine : Bytes → CancellationCoordinator → CancellationCoordinator
track_goroutine name cc = record cc {
  active_goroutines = cc.active_goroutines + 1;
  goroutine_tracker = put name (count_of name cc.goroutine_tracker + 1) cc.goroutine_tracker;
}

abbrev pub lowered : Bytes → ℕ → List (Bytes × ℕ) → List (Bytes × ℕ)
lowered name count es = if count - 1 == 0 then delete name es else put name (count - 1) es

-- The wait group panics if it is done more often than it was added to, which is `none`.
unfoldable pub untrack_goroutine : Bytes → CancellationCoordinator → Option CancellationCoordinator
untrack_goroutine name cc =
    let count = count_of name cc.goroutine_tracker in
    if cc.active_goroutines == 0
    then none
    else some (record cc {
      active_goroutines = cc.active_goroutines - 1;
      goroutine_tracker =
          if ltb 0 count then lowered name count cc.goroutine_tracker else cc.goroutine_tracker;
    })

-- InitiateShutdown, which returns before its goroutine sets the error: always nil.
unfoldable pub initiate_shutdown : CancellationCoordinator → CancellationCoordinator
initiate_shutdown cc =
    if cc.shutdown_begun
    then cc
    else record cc { shutdown_begun = true; done = true; root_cancelled = true }

abbrev pub is_shutdown_initiated : CancellationCoordinator → Bool
is_shutdown_initiated cc = cc.done

abbrev pub get_active_goroutines : CancellationCoordinator → List (Bytes × ℕ)
get_active_goroutines cc = cc.goroutine_tracker

abbrev all_healthy : (ℕ → Bool) → List (Bytes × ℕ) → Bool
all_healthy is_healthy [] = true
all_healthy is_healthy (e ∷ es) = is_healthy e.1 && all_healthy is_healthy es

abbrev pub health : (ℕ → Bool) → CancellationCoordinator → Bool
health is_healthy cc = all_healthy is_healthy cc.components

-- The wait group, which a shutdown may wait for, panics if it is added to with its counter at 0 before that wait has
-- returned. Whether it does is a matter of moments, so that each such start counts as a panic, `none`.
unfoldable pub start_tracked : Bytes → CancellationCoordinator → Option CancellationCoordinator
unfolding track_goroutine
start_tracked name cc =
    if cc.shutdown_begun && cc.active_goroutines == 0 then none else some (track_goroutine name cc)

-- What happens to a coordinator. StartGoroutine and StartGoroutineWithTimeout track the goroutine, and untrack it
-- when its function returns.
pub data Happening : Type 0 where
  start_goroutine : Bytes → Happening
  goroutine_returns : Bytes → Happening
  registers : Bytes → ℕ → Happening
  unregisters : Bytes → Happening
  shutdown : Happening

unfoldable pub coordinate : Happening → CancellationCoordinator → Option CancellationCoordinator
unfolding start_tracked untrack_goroutine register_component unregister_component initiate_shutdown
coordinate (start_goroutine name) cc = start_tracked name cc
coordinate (goroutine_returns name) cc = untrack_goroutine name cc
coordinate (registers name component) cc = some (register_component name component cc).0
coordinate (unregisters name) cc = some (unregister_component name cc)
coordinate shutdown cc = some (initiate_shutdown cc)

abbrev pub next {ℓ} : {A : Type ℓ} → (A → Option A) → Option A → Option A
next f none = none
next f (some a) = f a

-- The last happening stands first.
unfoldable pub coordinate_all : List Happening → Option CancellationCoordinator
unfolding coordinate
coordinate_all [] = some new_cancellation_coordinator
coordinate_all (h ∷ hs) = next (coordinate h) (coordinate_all hs)

-- What the collection of the results of the components receives.
pub data Arrival : Type 0 where
  component_result : Bytes → Option Bytes → Arrival
  shutdown_deadline : Arrival

pub data ShutdownError : Type 0 where
  component_failed : Bytes → Bytes → ShutdownError
  shutdown_timed_out : ShutdownError
  goroutines_left : ℕ → ShutdownError

-- The errors collected from a number of components, and whether the deadline ended the collection.
abbrev add_result : Bytes → Option Bytes → List ShutdownError → List ShutdownError
add_result name none errors = errors
add_result name (some e) errors = errors ++ (component_failed name e ∷ [])

unfoldable pub collect : ℕ → List Arrival → List ShutdownError → Option (List ShutdownError × Bool)
collect zero arrivals errors = some (errors, false)
collect (suc n) [] errors = none
collect (suc n) (component_result name e ∷ arrivals) errors =
    collect n arrivals (add_result name e errors)
collect (suc n) (shutdown_deadline ∷ arrivals) errors =
    some (errors ++ (shutdown_timed_out ∷ []), true)

-- `drained` is whether all goroutines end within the time for it. The errors joined are the one returned.
abbrev after_collection :
    Bool
    → CancellationCoordinator
    → Option (List ShutdownError × Bool)
    → Option (List ShutdownError)
after_collection drained cc none = none
after_collection drained cc (some (errors, true)) = some errors
after_collection drained cc (some (errors, false)) =
    some
      (if drained then errors else errors ++ (goroutines_left (length cc.goroutine_tracker) ∷ []))

unfoldable pub coordinate_component_shutdown :
    List Arrival → Bool → CancellationCoordinator → Option (List ShutdownError)
unfolding collect
coordinate_component_shutdown arrivals drained cc =
    let count = length cc.components in
    let waited = after_collection drained cc (collect count arrivals []) in
    if count == 0 then some [] else waited
