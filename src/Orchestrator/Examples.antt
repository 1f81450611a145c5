-- ===== src/Orchestrator/Examples.antt =====
-- Runs of internal/analyzers/orchestrator.go.
use ideas.Base.{◌+◌, true, false, List, [], ◌∷◌, ◌++◌, none, ◌≡◌, ◌≢◌, refl, replicate, arith}
use ideas.Base.Int.{pos}
use ideas.Base.Text.{codes}
use ideas.Orchestrator.Coordinate.{create_workers, start, coordinate_all}
use ideas.Orchestrator.Types.{
  AnalysisOrchestrator, CoordinationMsg, new_analysis_orchestrator, msg_get_metrics,
  msg_request_started, msg_request_completed, msg_request_failed,
}
use ideas.Orchestrator.Figures.{Shows, unmatched, coordinate_all-Shows}
use ideas.Orchestrator.Requests.{submit_request, coordinates, submits, happen_all}
use ideas.Orchestrator.Rotation.{turns, create_workers-turns}
use ideas.Orchestrator.Running.{start-Refused}
use ideas.Pipeline.Types.{AnalysisRequest}

abbrev request : AnalysisRequest
request = record {
  document = record { id = codes "d"; content = codes "text" };
  request_id = [];
  priority = pos 0;
  custom_config = none;
  has_callback = false;
}

abbrev new : AnalysisOrchestrator
new = new_analysis_orchestrator none

abbrev two_pipelines : AnalysisOrchestrator
two_pipelines = record new { pipelines = 8 ∷ 9 ∷ [] }

start-Refused_example :
    (submit_request true (codes "req") request (
      happen_all
        (submits true (codes "r") request ∷ coordinates ∷ [])
        (start 5 (replicate 10 msg_get_metrics) two_pipelines).0)).1
    ≢ none
start-Refused_example =
    start-Refused 5 (replicate 10 msg_get_metrics) two_pipelines
      (submits true (codes "r") request ∷ coordinates ∷ []) true (codes "req") request (refl, tt)
      (tt, (tt, (tt, (tt, (tt, (tt, (tt, (tt, (tt, (tt, tt)))))))))) (omega arith)

-- The request a fails between the starts of a and b: none is counted as active any more when b starts.
abbrev a_fails : List CoordinationMsg
a_fails =
    msg_request_started (codes "a")
    ∷ msg_request_failed 0 (codes "a")
    ∷ msg_request_completed 0 (codes "a")
    ∷ msg_request_started (codes "b")
    ∷ []

coordinate_all-Shows_example : Shows new.metrics (coordinate_all a_fails new).metrics a_fails
coordinate_all-Shows_example = coordinate_all-Shows a_fails new

-- One end found no active request.
a_fails-unmatched : unmatched 0 a_fails ≡ 1
a_fails-unmatched = refl

create_workers-turns_example :
    ((create_workers 5 4 0 two_pipelines).workers ≡ [] ++ turns 5 (8 ∷ 9 ∷ []) 4 0 0)
    × ((create_workers 5 4 0 two_pipelines).round_robin_counter ≡ 0 + 4)
create_workers-turns_example = create_workers-turns 4 0 5 two_pipelines refl (λ e. omega (arith, e))
