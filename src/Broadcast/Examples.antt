-- ===== src/Broadcast/Examples.antt =====
-- Runs of internal/analyzers/metrics_broadcaster.go.
use ideas.Base.{◌==◌, ◌≡◌, refl, replicate, arith, true, false, List, [], ◌∷◌, count, if◌then◌else◌}
use ideas.Broadcast.{
  Broadcaster, Happening, subscribes, event_arrives, unsubscribes, receives, source_closed,
  new_metrics_broadcaster, broadcast, broadcast_from, offer_at, offer, remove_listener_by_index,
  serve,
}
use ideas.Broadcast.Delivery.{broadcast-delivers}
use ideas.Broadcast.Invariant.{IsWellFormed, new-IsWellFormed, serve-IsWellFormed}

-- Three subscribers, the second of them with no room left.
abbrev three : Broadcaster
three = record {
  listeners = 0 ∷ 1 ∷ 2 ∷ [];
  buffer = λ l. if l == 1 then replicate 100 9 else [];
  closed = λ _. false;
  next = 3;
  serving = true;
}

broadcast-delivers_example :
    ((broadcast 7 three).buffer 2 ≡ 7 ∷ []) × (count 2 (broadcast 7 three).listeners ≡ 1)
broadcast-delivers_example = broadcast-delivers 7 three (λ a. ground arith) 2

slow_goes : (broadcast 7 three).listeners ≡ 0 ∷ 2 ∷ []
unfolding broadcast broadcast_from offer_at offer remove_listener_by_index
slow_goes = refl

abbrev story : List Happening
story =
    subscribes
    ∷ event_arrives 4
    ∷ subscribes
    ∷ unsubscribes 0
    ∷ event_arrives 5
    ∷ receives 1
    ∷ source_closed
    ∷ []

serve-IsWellFormed_example : IsWellFormed (serve story new_metrics_broadcaster)
serve-IsWellFormed_example = serve-IsWellFormed story new_metrics_broadcaster new-IsWellFormed
