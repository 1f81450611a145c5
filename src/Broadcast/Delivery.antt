-- ===== src/Broadcast/Delivery.antt =====
-- What broadcast of internal/analyzers/metrics_broadcaster.go delivers.
use ideas.Base.{
  ℕ, zero, suc, ◌+◌, ◌≤◌, ◌≡◌, ◌≢◌, refl, sym, ap, subst, ◌∙◌, true, false, List, [], ◌∷◌, ◌++◌,
  length, get_elem?, take, count, count-append, length-take, arith, ltb, ◌==◌, if◌then◌else◌,
  eq_true, eq_false, eq_cases, Bool-cases, inl, inr,
}
use ideas.Broadcast.Removal.{
  last_of, rest_of, count-rest_of, get-append, remove-middle, init-last, append_nil, append_snoc,
}
use ideas.Broadcast.{
  capacity, Broadcaster, offer_found, update, remove_listener_by_index, offer, offer_at,
  broadcast_from, broadcast,
}

-- What a channel holds after a send that does not wait, and whether it has room for it.
abbrev pub delivered : ℕ → List ℕ → List ℕ
delivered event xs = if ltb (length xs) capacity then xs ++ (event ∷ []) else xs

offer-room :
    (event index l : ℕ) (b : Broadcaster)
    → ltb (length (b.buffer l)) capacity ≡ true
    → offer event index l b ≡ record b { buffer = update b.buffer l (b.buffer l ++ (event ∷ [])) }
unfolding offer
offer-room event index l b h = rw h

offer-full :
    (event index l : ℕ) (b : Broadcaster)
    → ltb (length (b.buffer l)) capacity ≡ false
    → offer event index l b ≡ record b { listeners = remove_listener_by_index index b.listeners }
unfolding offer
offer-full event index l b h = rw h

offer_at-middle :
    (event : ℕ) {index : ℕ} (b : Broadcaster) (pre : List ℕ) (x : ℕ) (ks : List ℕ)
    → b.listeners ≡ pre ++ (x ∷ ks)
    → index ≡ length pre
    → offer_at event index b ≡ offer event index x b
unfolding offer_at
offer_at-middle event {index = index} b pre x ks h e =
    ap (offer_found event index b) (ap (λ ls. get_elem? ls index) h ∙ get-append pre x ks e)

-- What is left to show once the last of the listeners not yet served is `x`: `n` stands for how often
-- `l` is among those before it.
got : ℕ → ℕ → List ℕ → List ℕ
got event n xs = if n == 1 then delivered event xs else xs

stays : ℕ → List ℕ → ℕ
stays n xs = if ltb (length xs) capacity then n else 0

Reached : ℕ → Broadcaster → List ℕ → List ℕ → Broadcaster → ℕ → Type 0
Reached event b pre suf c l =
    (c.buffer l ≡ got event (count l pre) (b.buffer l))
    × (count l c.listeners ≡ stays (count l pre) (b.buffer l) + count l suf)

room-same :
    (event : ℕ) (b : Broadcaster) (init suf : List ℕ) (x : ℕ) (c : Broadcaster)
    → ltb (length (b.buffer x)) capacity ≡ true
    → count x init ≡ 0
    → Reached event
        (record b { buffer = update b.buffer x (b.buffer x ++ (event ∷ [])) })
        init
        (x ∷ suf)
        c
        x
    → (c.buffer x ≡ got event 1 (b.buffer x))
      × (count x c.listeners ≡ stays 1 (b.buffer x) + count x suf)
unfolding Reached got stays
room-same event b init suf x c h n (o, q) =
    (o ∙ rw (n, eq_true x x refl, h) refl, q ∙ rw (n, eq_true x x refl, h) (ground arith))

room-other :
    (event : ℕ) (b : Broadcaster) (init suf : List ℕ) (x l : ℕ) (c : Broadcaster)
    → l ≢ x
    → Reached event
        (record b { buffer = update b.buffer x (b.buffer x ++ (event ∷ [])) })
        init
        (x ∷ suf)
        c
        l
    → Reached event b init suf c l
unfolding Reached got stays
room-other event b init suf x l c h (o, q) = (
  o ∙ rw (eq_false x l (λ p. h (sym p))) refl,
  q ∙ rw (eq_false x l (λ p. h (sym p)), eq_false l x h) (omega arith),
)

full-same :
    (event : ℕ) (b : Broadcaster) (init suf : List ℕ) (x : ℕ) (c : Broadcaster)
    → ltb (length (b.buffer x)) capacity ≡ false
    → count x init ≡ 0
    → Reached event b init (rest_of suf) c x
    → (c.buffer x ≡ got event 1 (b.buffer x))
      × (count x c.listeners ≡ stays 1 (b.buffer x) + count x suf)
unfolding Reached got stays
full-same event b init suf x c h n (o, q) =
    (o ∙ rw (n, h) refl, q ∙ rw (n, h, count-rest_of x suf) refl)

full-other :
    (event : ℕ) (b : Broadcaster) (init suf : List ℕ) (l : ℕ) (c : Broadcaster)
    → Reached event (record b { listeners = init ++ rest_of suf }) init (rest_of suf) c l
    → Reached event b init suf c l
unfolding Reached
full-other event b init suf l c (o, q) = (o, rw (sym (count-rest_of l suf)) q)

Served : ℕ → ℕ → Type 0
Served event i =
    (b : Broadcaster) (pre suf : List ℕ)
    → b.listeners ≡ pre ++ suf
    → length pre ≡ i
    → ((a : ℕ) → count a pre ≤ 1)
    → (l : ℕ) → Reached event b pre suf (broadcast_from event i b) l

count-snoc :
    (l : ℕ) (init : List ℕ) (x : ℕ)
    → count l (init ++ (x ∷ [])) ≡ count l init + (if l == x then 1 else 0)
count-snoc l init x = omega (arith, count-append l init (x ∷ []))

snoc-same :
    (init : List ℕ) (x : ℕ)
    → count x (init ++ (x ∷ [])) ≤ 1
    → (count x init ≡ 0) × (count x (init ++ (x ∷ [])) ≡ 1)
snoc-same init x d =
    let p = rw (eq_true x x refl) at (count-snoc x init x) in
    (omega (arith, p, d), omega (arith, p, d))

snoc-other : (l : ℕ) (init : List ℕ) (x : ℕ) → l ≢ x → count l (init ++ (x ∷ [])) ≡ count l init
snoc-other l init x h = let p = rw (eq_false l x h) at (count-snoc l init x) in omega (arith, p)

-- One round, at a listener `x` in front of those served.
module _ (event i : ℕ) (ih : Served event i) (b : Broadcaster) (init suf : List ℕ) (x : ℕ)
    (e : length init ≡ i) (d : (a : ℕ) → count a (init ++ (x ∷ [])) ≤ 1) where
  init-Distinct : (a : ℕ) → count a init ≤ 1
  init-Distinct a = let p = d a in omega (arith, p, count-snoc a init x)

  after_room : Broadcaster
  after_room = record b { buffer = update b.buffer x (b.buffer x ++ (event ∷ [])) }

  settle-same :
      (c : Broadcaster)
      → (c.buffer x ≡ got event 1 (b.buffer x))
        × (count x c.listeners ≡ stays 1 (b.buffer x) + count x suf)
      → (l : ℕ) → l ≡ x
      → Reached event b (init ++ (x ∷ [])) suf c l
  unfolding Reached
  settle-same c o l p =
      subst (λ k. Reached event b (init ++ (x ∷ [])) suf c k) (sym p)
        (rw ((snoc-same init x (d x)).1) o)

  settle-other :
      (c : Broadcaster) (l : ℕ)
      → l ≢ x
      → Reached event b init suf c l
      → Reached event b (init ++ (x ∷ [])) suf c l
  unfolding Reached
  settle-other c l q o = rw (snoc-other l init x q) o

  serve-room :
      ltb (length (b.buffer x)) capacity ≡ true
      → b.listeners ≡ init ++ (x ∷ suf)
      → (l : ℕ) → Reached event b (init ++ (x ∷ [])) suf (broadcast_from event i after_room) l
  unfolding Served after_room
  serve-room r h l =
      let c = broadcast_from event i after_room in
      let o = ih after_room init (x ∷ suf) h e init-Distinct in
      elim (eq_cases l x) [
        | inl p ↦
            settle-same c (room-same event b init suf x c r ((snoc-same init x (d x)).0) (o x)) l p
        | inr q ↦ settle-other c l q (room-other event b init suf x l c q (o l))
      ]

  after_full : Broadcaster
  after_full = record b { listeners = init ++ rest_of suf }

  serve-full :
      ltb (length (b.buffer x)) capacity ≡ false
      → (l : ℕ) → Reached event b (init ++ (x ∷ [])) suf (broadcast_from event i after_full) l
  unfolding Served after_full Reached
  serve-full r l =
      let c = broadcast_from event i after_full in
      let o = ih after_full init (rest_of suf) refl e init-Distinct in
      elim (eq_cases l x) [
        | inl p ↦
            settle-same c (full-same event b init suf x c r ((snoc-same init x (d x)).0) (o x)) l p
        | inr q ↦ settle-other c l q (full-other event b init suf l c (o l))
      ]

  serve-one :
      b.listeners ≡ init ++ (x ∷ suf)
      → (l : ℕ)
      → Reached event b (init ++ (x ∷ [])) suf (broadcast_from event i (offer_at event i b)) l
  unfolding after_room after_full
  serve-one h l =
      let m = offer_at-middle event b init x suf h (sym e) in
      elim (Bool-cases (ltb (length (b.buffer x)) capacity)) [
        | inl r ↦
            subst (λ c. Reached event b (init ++ (x ∷ [])) suf (broadcast_from event i c) l)
              (sym (m ∙ offer-room event i x b r)) (serve-room r h l)
        | inr r ↦
            subst (λ c. Reached event b (init ++ (x ∷ [])) suf (broadcast_from event i c) l)
              (sym (
                m
                ∙ offer-full event i x b r
                ∙ ap (λ ls. record b { listeners = ls })
                    (ap (remove_listener_by_index i) h ∙ remove-middle init x suf (sym e))))
              (serve-full r l)
      ]

broadcast_from-Served : (event i : ℕ) → Served event i
unfolding Served broadcast_from Reached got stays
broadcast_from-Served event zero b [] suf h e d l = (refl, ground (arith, ap (count l) h))
broadcast_from-Served event zero b (k ∷ ks) suf h e d l = absurd (omega (arith, e))
broadcast_from-Served event (suc i) b [] suf h e d l = absurd (omega (arith, e))
broadcast_from-Served event (suc i) b (k ∷ ks) suf h e d l =
    let s = init-last k ks in
    let init = take (length ks) (k ∷ ks) in
    let n = length-take (length ks) (k ∷ ks) in
    subst (λ pre. Reached event b pre suf (broadcast_from event i (offer_at event i b)) l) (sym s)
      (serve-one event i (broadcast_from-Served event i) b init suf (last_of k ks)
        (omega (arith, n, e)) (λ a. subst (λ pre. count a pre ≤ 1) s (d a))
        (h ∙ ap (λ pre. pre ++ suf) s ∙ append_snoc init (last_of k ks) suf) l)

-- With no listener twice, `broadcast` sends the event once to each listener whose channel has room and
-- to nobody else, and the listeners after it are those whose channel had room.
pub broadcast-delivers :
    (event : ℕ) (b : Broadcaster)
    → ((a : ℕ) → count a b.listeners ≤ 1)
    → (l : ℕ)
    → ((broadcast event b).buffer l
        ≡ (if count l b.listeners == 1 then delivered event (b.buffer l) else b.buffer l))
      × (count l (broadcast event b).listeners
          ≡ (if ltb (length (b.buffer l)) capacity then count l b.listeners else 0))
unfolding broadcast Reached got stays Served
broadcast-delivers event b d l =
    let (o, q) =
      broadcast_from-Served event (length b.listeners) b b.listeners []
        (sym (append_nil b.listeners)) refl d l in
    (o, omega (arith, q))
