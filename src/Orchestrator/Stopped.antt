-- ===== src/Orchestrator/Stopped.antt =====
-- The coordinator of internal/analyzers/orchestrator.go that was not told that the orchestrator runs.
use ideas.Base.{
  Bool, false, ltb, List, [], ◌∷◌, ◌++◌, Option, none, some, ◌≡◌, ◌≢◌, refl, subst, sym, length,
  All, if-holds, if◌then◌else◌,
}
use ideas.Base.Text.{Bytes, codes}
use ideas.Orchestrator.Coordinate.{coordinate, coordinate_all, drain, offer, has_pipeline}
use ideas.Orchestrator.Types.{
  AnalysisOrchestrator, CoordinationMsg, msg_pipeline, msg_running, msg_get_metrics,
  msg_get_worker_status, msg_request_started, msg_request_completed, msg_request_failed,
  msg_worker_stopped, msg_shutdown_request,
}
use ideas.Orchestrator.Requests.{with_id, enqueue, if_running, submit_request}
use ideas.Pipeline.Types.{AnalysisRequest}

-- Any message but the one at the end of Start.
abbrev pub IsOther : CoordinationMsg → Type 0
IsOther (msg_pipeline p) = Unit
IsOther (msg_running b) = ⊥
IsOther msg_get_metrics = Unit
IsOther msg_get_worker_status = Unit
IsOther (msg_request_started r) = Unit
IsOther (msg_request_completed w r) = Unit
IsOther (msg_request_failed w r) = Unit
IsOther msg_worker_stopped = Unit
IsOther msg_shutdown_request = Unit

-- The coordinator was not told that the orchestrator runs, and no such message waits.
abbrev pub IsStopped : AnalysisOrchestrator → Type 0
IsStopped o = (o.is_running ≡ false) × All IsOther o.coordination_chan

pub All-append :
    (xs ys : List CoordinationMsg) → All IsOther xs → All IsOther ys → All IsOther (xs ++ ys)
All-append [] ys h k = k
All-append (x ∷ xs) ys h k = (h.0, All-append xs ys h.1 k)

pub offer-IsStopped :
    (m : CoordinationMsg) (o : AnalysisOrchestrator)
    → IsOther m
    → IsStopped o
    → IsStopped (offer m o)
offer-IsStopped m o h s =
    if-holds IsStopped (ltb (length o.coordination_chan) 10)
      (s.0, All-append o.coordination_chan (m ∷ []) s.1 (h, tt)) s

-- The coordinator changes neither the flag nor the channel on such a message.
coordinate-flag :
    (m : CoordinationMsg) (o : AnalysisOrchestrator)
    → IsOther m
    → o.is_running ≡ false
    → ((coordinate m o).is_running ≡ false)
      × ((coordinate m o).coordination_chan ≡ o.coordination_chan)
unfolding coordinate
coordinate-flag (msg_pipeline p) o h e =
    if-holds
      (λ (t : AnalysisOrchestrator).
        (t.is_running ≡ false) × (t.coordination_chan ≡ o.coordination_chan))
      (has_pipeline p o.pipelines) (e, refl) (e, refl)
coordinate-flag (msg_running b) o h e = absurd h
coordinate-flag msg_get_metrics o h e = (e, refl)
coordinate-flag msg_get_worker_status o h e = (e, refl)
coordinate-flag (msg_request_started r) o h e = (e, refl)
coordinate-flag (msg_request_completed w r) o h e = (e, refl)
coordinate-flag (msg_request_failed w r) o h e = (e, refl)
coordinate-flag msg_worker_stopped o h e = (e, refl)
coordinate-flag msg_shutdown_request o h e = (e, refl)

pub coordinate-IsStopped :
    (m : CoordinationMsg) (o : AnalysisOrchestrator)
    → IsOther m
    → IsStopped o
    → IsStopped (coordinate m o)
coordinate-IsStopped m o h s =
    let f = coordinate-flag m o h s.0 in (f.0, subst (All IsOther) (sym f.1) s.1)

coordinate_all-IsStopped :
    (ms : List CoordinationMsg) (o : AnalysisOrchestrator)
    → All IsOther ms
    → IsStopped o
    → IsStopped (coordinate_all ms o)
unfolding coordinate_all
coordinate_all-IsStopped [] o h s = s
coordinate_all-IsStopped (m ∷ ms) o h s =
    coordinate_all-IsStopped ms (coordinate m o) h.1 (coordinate-IsStopped m o h.0 s)

pub drain-IsStopped : (o : AnalysisOrchestrator) → IsStopped o → IsStopped (drain o)
unfolding drain
drain-IsStopped o s =
    coordinate_all-IsStopped o.coordination_chan (record o { coordination_chan = [] }) s.1 (s.0, tt)

-- A call of SubmitRequest returns an error.
abbrev pub Refused : AnalysisOrchestrator × Option Bytes → Type 0
Refused r = IsStopped r.0 × (r.1 ≢ none)

if_running-Refused :
    (generated : Bytes) (r : AnalysisRequest) (o : AnalysisOrchestrator)
    → IsStopped o
    → Refused (if_running generated r o)
if_running-Refused generated r o s =
    subst
      (λ (b : Bool). Refused (
        if b
        then enqueue (with_id generated r) o
        else (o, some (codes "orchestrator is not running"))))
      (sym s.0) (s, λ e. absurd (cc e))

pub submit_request-Refused :
    (answers : Bool) (generated : Bytes) (r : AnalysisRequest) (o : AnalysisOrchestrator)
    → IsStopped o
    → Refused (submit_request answers generated r o)
unfolding submit_request
submit_request-Refused answers generated r o s =
    let sent = record o { coordination_chan = o.coordination_chan ++ (msg_get_metrics ∷ []) } in
    let more : IsStopped sent =
      (s.0, All-append o.coordination_chan (msg_get_metrics ∷ []) s.1 (tt, tt)) in
    let unavailable : Option Bytes = some (codes "orchestrator coordination not available") in
    if-holds Refused (ltb (length o.coordination_chan) 10)
      (if-holds Refused answers
        (if_running-Refused generated r (drain sent) (drain-IsStopped sent more))
        (more, λ e. absurd (cc e)))
      (s, λ e. absurd (cc e))
