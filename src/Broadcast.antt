-- ===== src/Broadcast.antt =====
-- internal/analyzers/metrics_broadcaster.go: metrics events go to every subscriber. A channel is known
-- by a number, an event too. The select of Serve is a function of what happens next.
pub mod Removal
pub mod Delivery
pub mod Invariant
mod Examples
use ideas.Base.{
  ℕ, zero, suc, ◌+◌, ◌-◌, Bool, true, false, List, [], ◌∷◌, ◌++◌, Option, none, some, length,
  get_elem?, set, take, ltb, ◌==◌, if◌then◌else◌,
}

-- The capacity of a subscriber's channel.
abbrev pub capacity : ℕ
capacity = 100

-- The broadcaster with the channels that it made: what each holds, whether it is closed, and the
-- number of the next one. `serving` says whether Serve still runs.
pub record Broadcaster : Type 0 where
  pub listeners : List ℕ
  pub buffer : ℕ → List ℕ
  pub closed : ℕ → Bool
  pub next : ℕ
  pub serving : Bool

abbrev pub new_metrics_broadcaster : Broadcaster
new_metrics_broadcaster = record {
  listeners = [];
  buffer = λ _. [];
  closed = λ _. false;
  next = 0;
  serving = true;
}

abbrev pub update {ℓ} : {A : Type ℓ} → (ℕ → A) → ℕ → A → ℕ → A
update f k v j = if k == j then v else f j

-- removeListenerByIndex: the last element, if there is one, takes the place of the one removed.
abbrev pub move_last : ℕ → ℕ → List ℕ → Option ℕ → List ℕ
move_last index last_index ls none = ls
move_last index last_index ls (some l) =
    take last_index (if index == last_index then ls else set ls index l)

unfoldable pub remove_listener_by_index : ℕ → List ℕ → List ℕ
remove_listener_by_index index ls =
    let last_index = length ls - 1 in move_last index last_index ls (get_elem? ls last_index)

-- The send to one listener, and its removal if its channel is full.
unfoldable pub offer : ℕ → ℕ → ℕ → Broadcaster → Broadcaster
offer event index l b =
    if ltb (length (b.buffer l)) capacity
    then record b { buffer = update b.buffer l (b.buffer l ++ (event ∷ [])) }
    else record b { listeners = remove_listener_by_index index b.listeners }

abbrev pub offer_found : ℕ → ℕ → Broadcaster → Option ℕ → Broadcaster
offer_found event index b none = b
offer_found event index b (some l) = offer event index l b

unfoldable pub offer_at : ℕ → ℕ → Broadcaster → Broadcaster
offer_at event index b = offer_found event index b (get_elem? b.listeners index)

-- The loop of broadcast, from index n - 1 down to 0.
unfoldable pub broadcast_from : ℕ → ℕ → Broadcaster → Broadcaster
broadcast_from event zero b = b
broadcast_from event (suc i) b = broadcast_from event i (offer_at event i b)

unfoldable pub broadcast : ℕ → Broadcaster → Broadcaster
broadcast event b = broadcast_from event (length b.listeners) b

-- The index of a channel among the listeners.
abbrev pub next_index : Option ℕ → Option ℕ
next_index none = none
next_index (some i) = some (suc i)

unfoldable pub index_of : ℕ → List ℕ → Option ℕ
index_of l [] = none
index_of l (k ∷ ks) = if k == l then some 0 else next_index (index_of l ks)

-- removeListenerFromSlice: the first channel that is the one asked for goes and is closed.
abbrev pub remove_found : ℕ → Broadcaster → Option ℕ → Broadcaster
remove_found l b none = b
remove_found l b (some i) = record b {
  listeners = remove_listener_by_index i b.listeners;
  closed = update b.closed l true;
}

unfoldable pub remove_listener_from_slice : ℕ → Broadcaster → Broadcaster
remove_listener_from_slice l b = remove_found l b (index_of l b.listeners)

unfoldable pub close_all : List ℕ → (ℕ → Bool) → ℕ → Bool
close_all [] closed = closed
close_all (l ∷ ls) closed = close_all ls (update closed l true)

unfoldable pub cleanup : Broadcaster → Broadcaster
cleanup b = record b { listeners = []; closed = close_all b.listeners b.closed; serving = false }

-- Subscribe: a new channel, which Serve adds.
unfoldable pub subscribe : Broadcaster → Broadcaster
subscribe b = record b { listeners = b.listeners ++ (b.next ∷ []); next = suc b.next }

-- A subscriber takes an event from its channel.
abbrev pub take_first : ℕ → Broadcaster → List ℕ → Broadcaster
take_first l b [] = b
take_first l b (e ∷ es) = record b { buffer = update b.buffer l es }

unfoldable pub receive : ℕ → Broadcaster → Broadcaster
receive l b = take_first l b (b.buffer l)

-- What Serve waits for, and the receives of the subscribers.
pub data Happening : Type 0 where
  event_arrives : ℕ → Happening
  source_closed context_done subscribes : Happening
  unsubscribes receives : ℕ → Happening

-- One round of Serve.
unfoldable pub serve_step : Happening → Broadcaster → Broadcaster
serve_step (event_arrives e) b = broadcast e b
serve_step source_closed b = cleanup b
serve_step context_done b = cleanup b
serve_step subscribes b = subscribe b
serve_step (unsubscribes l) b = remove_listener_from_slice l b
serve_step (receives l) b = receive l b

unfoldable pub serve : List Happening → Broadcaster → Broadcaster
serve [] b = b
serve (h ∷ hs) b = serve hs (if b.serving then serve_step h b else b)
