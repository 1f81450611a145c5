-- ===== src/Coordinator/Examples.antt =====
-- A run of internal/analyzers/cancellation_coordinator.go.
use ideas.Base.{true, List, [], ◌∷◌, some}
use ideas.Base.Text.{codes}
use ideas.Coordinator.{
  Happening, start_goroutine, goroutine_returns, registers, shutdown, coordinate_all,
}
use ideas.Coordinator.Tracked.{Follows, coordinate_all-Follows}

-- The last happening stands first: a worker returns while another of its name goes on.
abbrev happenings : List Happening
happenings =
    goroutine_returns (codes "worker")
    ∷ shutdown
    ∷ start_goroutine (codes "worker")
    ∷ registers (codes "pipeline") 1
    ∷ start_goroutine (codes "worker")
    ∷ []

coordinate_all-Follows_example :
    Follows (some (true, codes "worker" ∷ [])) (coordinate_all happenings)
coordinate_all-Follows_example = coordinate_all-Follows happenings
