-- ===== src/Broadcast/Invariant.antt =====
-- What stays true while Serve of internal/analyzers/metrics_broadcaster.go runs.
use ideas.Base.{
  ℕ, zero, suc, ◌+◌, ◌≤◌, ◌<◌, ◌≡◌, ◌≢◌, refl, sym, ap, subst, ◌∙◌, Bool, true, false, List, [],
  ◌∷◌, ◌++◌, Option, none, some, length, get_elem?, ==_iff, count, count-append, length-append,
  arith, ltb, ◌==◌, if◌then◌else◌, eq_true, eq_false, eq_cases, Bool-cases, inl, inr,
}
use mathlib.Core.Option.{some-injective}
use ideas.Broadcast.Removal.{rest_of, count-rest_of, remove-middle}
use ideas.Broadcast.Delivery.{broadcast-delivers}
use ideas.Broadcast.{
  capacity, Broadcaster, new_metrics_broadcaster, Happening, event_arrives, source_closed,
  context_done, subscribes, unsubscribes, receives, update, next_index, index_of,
  remove_listener_by_index, offer, offer_found, offer_at, broadcast_from, broadcast, remove_found,
  remove_listener_from_slice, close_all, cleanup, subscribe, take_first, receive, serve_step, serve,
}

-- No channel is twice among the listeners; the listeners were made before and are open; no channel
-- holds more than it can; a channel not made yet is not closed.
pub IsWellFormed : Broadcaster → Type 0
IsWellFormed b =
    ((a : ℕ) → count a b.listeners ≤ 1)
    × (((a : ℕ) → 1 ≤ count a b.listeners → (a < b.next) × (b.closed a ≡ false))
        × (((a : ℕ) → length (b.buffer a) ≤ capacity)
            × ((a : ℕ) → b.next ≤ a → b.closed a ≡ false)))

pub new-IsWellFormed : IsWellFormed new_metrics_broadcaster
unfolding IsWellFormed
new-IsWellFormed =
    (λ a. omega arith, (λ a h. absurd (omega (arith, h)), (λ a. omega arith, λ a h. refl)))

-- A broadcast closes no channel and makes none.
SameChannels : Broadcaster → Broadcaster → Type 0
SameChannels b c = (c.closed ≡ b.closed) × (c.next ≡ b.next)

offer-SameChannels : (event index l : ℕ) (b : Broadcaster) → SameChannels b (offer event index l b)
unfolding SameChannels offer
offer-SameChannels event index l b = elim (Bool-cases (ltb (length (b.buffer l)) capacity)) [
  | inl r ↦ rw r (refl, refl)
  | inr r ↦ rw r (refl, refl)
]

offer_found-SameChannels :
    (event index : ℕ) (b : Broadcaster) (o : Option ℕ)
    → SameChannels b (offer_found event index b o)
unfolding SameChannels
offer_found-SameChannels event index b none = (refl, refl)
offer_found-SameChannels event index b (some l) = offer-SameChannels event index l b

broadcast_from-SameChannels :
    (event i : ℕ) (b : Broadcaster) → SameChannels b (broadcast_from event i b)
unfolding SameChannels broadcast_from offer_at
broadcast_from-SameChannels event zero b = (refl, refl)
broadcast_from-SameChannels event (suc i) b =
    let (p, q) = offer_found-SameChannels event i b (get_elem? b.listeners i) in
    let (r, s) = broadcast_from-SameChannels event i (offer_at event i b) in (r ∙ p, s ∙ q)

-- Where the index found stands.
SplitAt : ℕ → List ℕ → ℕ → Type 0
SplitAt l ls i = (pre : List ℕ) × ((ks : List ℕ) × ((ls ≡ pre ++ (l ∷ ks)) × (i ≡ length pre)))

SplitAt-next : (l k : ℕ) (ls : List ℕ) (j : ℕ) → SplitAt l ls j → SplitAt l (k ∷ ls) (suc j)
unfolding SplitAt
SplitAt-next l k ls j (pre, (ks, (e, n))) = (k ∷ pre, (ks, (ap (λ zs. k ∷ zs) e, ap suc n)))

SplitAt-later :
    (l k : ℕ) (ls : List ℕ) (i : ℕ) (o : Option ℕ)
    → ((j : ℕ) → o ≡ some j → SplitAt l ls j)
    → next_index o ≡ some i
    → SplitAt l (k ∷ ls) i
SplitAt-later l k ls i none ih h = absurd (cc h)
SplitAt-later l k ls i (some j) ih h =
    subst (SplitAt l (k ∷ ls)) (omega (arith, some-injective (suc j) i h))
      (SplitAt-next l k ls j (ih j refl))

index_of-SplitAt : (l : ℕ) (ls : List ℕ) (i : ℕ) → index_of l ls ≡ some i → SplitAt l ls i
unfolding index_of SplitAt
index_of-SplitAt l [] i h = absurd (cc h)
index_of-SplitAt l (k ∷ ks) i h = elim (Bool-cases (k == l)) [
  | inl p ↦ ([], (ks, (ap (λ z. z ∷ ks) ((==_iff k l).0 p), sym (some-injective 0 i (rw p at h)))))
  | inr n ↦ SplitAt-later l k ks i (index_of l ks) (index_of-SplitAt l ks) (rw n at h)
]

remove-count :
    (l : ℕ) (ls : List ℕ) (i : ℕ)
    → index_of l ls ≡ some i
    → (a : ℕ) → count a (remove_listener_by_index i ls) + (if a == l then 1 else 0) ≡ count a ls
unfolding SplitAt
remove-count l ls i h a =
    let (pre, (ks, (e, n))) = index_of-SplitAt l ls i h in
    rw (e, remove-middle pre l ks n)
      (omega
        (arith, count-append a pre (l ∷ ks), count-append a pre (rest_of ks), count-rest_of a ks))

close_all-other :
    (ls : List ℕ) (closed : ℕ → Bool) (a : ℕ) → count a ls ≡ 0 → close_all ls closed a ≡ closed a
unfolding close_all
close_all-other [] closed a h = refl
close_all-other (l ∷ ls) closed a h = elim (eq_cases l a) [
  | inl p ↦ absurd (ground (arith, p, h))
  | inr q ↦
      close_all-other ls (update closed l true) a (omega (arith, h)) ∙ rw (eq_false l a q) refl
]

update-other {ℓ} : {A : Type ℓ} (f : ℕ → A) (l : ℕ) (v : A) (a : ℕ) → l ≢ a → update f l v a ≡ f a
update-other f l v a q = rw (eq_false l a q) refl

module _ (b : Broadcaster) (w : IsWellFormed b) where
  fresh : (a : ℕ) → b.next ≤ a → count a b.listeners ≡ 0
  unfolding IsWellFormed
  fresh a h = elim (eq_cases (count a b.listeners) 0) [
    | inl p ↦ p
    | inr q ↦ let m = w.1.0 a (ground (arith, q)) in absurd (omega (arith, m.0, h))
  ]

  broadcast-IsWellFormed : (event : ℕ) → IsWellFormed (broadcast event b)
  unfolding IsWellFormed SameChannels broadcast
  broadcast-IsWellFormed event =
      let (p, q) = broadcast_from-SameChannels event (length b.listeners) b in
      let (w0, (w1, (w2, w3))) = w in
      (
        λ a. ground (arith, (broadcast-delivers event b w0 a).1, w0 a),
        (
          λ a h.
              let m = w1 a (ground (arith, (broadcast-delivers event b w0 a).1, h)) in
              (rw q (m.0), rw p (m.1)),
          (
            λ a.
                rw ((broadcast-delivers event b w0 a).0)
                  (ground (arith, length-append (b.buffer a) (event ∷ []), w2 a)),
            λ a h. rw p (w3 a (rw q at h)),
          ),
        ),
      )

  remove_found-IsWellFormed :
      (l : ℕ) (o : Option ℕ) → index_of l b.listeners ≡ o → IsWellFormed (remove_found l b o)
  unfolding IsWellFormed
  remove_found-IsWellFormed l none e = w
  remove_found-IsWellFormed l (some i) e =
      let r = remove-count l b.listeners i e in
      let (w0, (w1, (w2, w3))) = w in
      let k : l < b.next = (w1 l (ground (arith, r l))).0 in
      (
        λ a. omega (arith, r a, w0 a),
        (
          λ a h.
              let m = w1 a (omega (arith, r a, h)) in
              (m.0, update-other b.closed l true a (λ p. ground (arith, p, r a, h, w0 a)) ∙ m.1),
          (w2, λ a h. update-other b.closed l true a (λ p. omega (arith, p, h, k)) ∙ w3 a h),
        ),
      )

  subscribe-IsWellFormed : IsWellFormed (subscribe b)
  unfolding IsWellFormed subscribe
  subscribe-IsWellFormed =
      let (w0, (w1, (w2, w3))) = w in
      let s = λ (a : ℕ). count-append a b.listeners (b.next ∷ []) in
      let n = fresh b.next (omega arith) in
      (
        λ a. elim (eq_cases a b.next) [
          | inl p ↦ rw p (omega (arith, rw (eq_true b.next b.next refl, n) at (s b.next)))
          | inr q ↦ ground (arith, s a, w0 a, q)
        ],
        (
          λ a h. elim (eq_cases a b.next) [
            | inl p ↦ (omega (arith, p), w3 a (omega (arith, p)))
            | inr q ↦ let m = w1 a (ground (arith, s a, q, h)) in (omega (arith, m.0), m.1)
          ],
          (w2, λ a h. w3 a (omega (arith, h))),
        ),
      )

  receive-IsWellFormed : (l : ℕ) (es : List ℕ) → b.buffer l ≡ es → IsWellFormed (take_first l b es)
  unfolding IsWellFormed
  receive-IsWellFormed l [] e = w
  receive-IsWellFormed l (x ∷ es) e =
      let (w0, (w1, (w2, w3))) = w in
      (
        w0,
        (
          w1,
          (
            λ a. elim (eq_cases l a) [
              | inl p ↦ rw (sym p, eq_true l l refl) (omega (arith, ap length e, w2 l))
              | inr q ↦ rw (update-other b.buffer l es a q) (w2 a)
            ],
            w3,
          ),
        ),
      )

  cleanup-IsWellFormed : IsWellFormed (cleanup b)
  unfolding IsWellFormed cleanup
  cleanup-IsWellFormed =
      let (w0, (w1, (w2, w3))) = w in
      (
        λ a. omega arith,
        (
          λ a h. absurd (omega (arith, h)),
          (w2, λ a h. close_all-other b.listeners b.closed a (fresh a h) ∙ w3 a h),
        ),
      )

serve_step-IsWellFormed :
    (h : Happening) (b : Broadcaster) → IsWellFormed b → IsWellFormed (serve_step h b)
unfolding serve_step receive remove_listener_from_slice
serve_step-IsWellFormed (event_arrives e) b w = broadcast-IsWellFormed b w e
serve_step-IsWellFormed source_closed b w = cleanup-IsWellFormed b w
serve_step-IsWellFormed context_done b w = cleanup-IsWellFormed b w
serve_step-IsWellFormed subscribes b w = subscribe-IsWellFormed b w
serve_step-IsWellFormed (unsubscribes l) b w =
    remove_found-IsWellFormed b w l (index_of l b.listeners) refl
serve_step-IsWellFormed (receives l) b w = receive-IsWellFormed b w l (b.buffer l) refl

-- If no channel is twice among the listeners, every listener is a channel that was made and is not
-- closed, no channel holds more than its capacity, and none is closed before it is made, then this
-- holds whatever happens while Serve runs.
pub serve-IsWellFormed :
    (hs : List Happening) (b : Broadcaster) → IsWellFormed b → IsWellFormed (serve hs b)
unfolding serve
serve-IsWellFormed [] b w = w
serve-IsWellFormed (h ∷ hs) b w = elim (Bool-cases b.serving) [
  | inl p ↦
      subst (λ t. IsWellFormed (serve hs (if t then serve_step h b else b))) (sym p)
        (serve-IsWellFormed hs (serve_step h b) (serve_step-IsWellFormed h b w))
  | inr p ↦
      subst (λ t. IsWellFormed (serve hs (if t then serve_step h b else b))) (sym p)
        (serve-IsWellFormed hs b w)
]
