-- ===== src/Supervisor/Select.antt =====
-- The choice of a worker in internal/analyzers/worker_supervisor.go.
use ideas.Base.{
  ℕ, zero, suc, ◌%◌, ◌≤◌, ◌<◌, ◌≡◌, ==_iff, refl, ap, ◌∙◌, true, false, ◌==◌, List, [], ◌∷◌, ◌++◌,
  length, length-append, length-take, min, ltb→lt, ◌+◌, Option, none, some, ltb, if◌then◌else◌,
  arith, Bool-cases, inl, inr,
}
use ideas.Base.Int.{ℤ, pos, ◌+ℤ◌, eqb_ℤ}
use native.Mathlib.Nat.{mod-lt, mod-mod, mod_self}
use ideas.Supervisor.{
  WorkerEvent, WorkerSupervisor, new_worker_supervisor, to_int, rem, mem, insert_key, next_id,
  send_event, register_worker, create_worker, arrive, and_then, create_workers, start, select_from,
  select_worker,
}

-- The ids 1, …, n.
abbrev pub up_to : ℕ → List ℕ
up_to zero = []
up_to (suc n) = up_to n ++ (suc n ∷ [])

pub length-up_to : (n : ℕ) → length (up_to n) ≡ n
length-up_to zero = refl
length-up_to (suc n) = omega (arith, length-append (up_to n) (suc n ∷ []), length-up_to n)

mem-snoc : (k w : ℕ) (ws : List ℕ) → mem k (ws ++ (w ∷ [])) ≡ (if k == w then true else mem k ws)
mem-snoc k w [] = refl
mem-snoc k w (v ∷ ws) = ground (arith, mem-snoc k w ws)

pub mem-up_to : (n k : ℕ) → mem k (up_to n) ≡ (if ltb n k then false else ltb 0 k)
mem-up_to zero k = ground arith
mem-up_to (suc n) k = mem-snoc k (suc n) (up_to n) ∙ ground (arith, mem-up_to n k)

-- The state after n workers are created at the start, when `others` events of the monitors were sent.
abbrev pub WithWorkers : ℕ → ℕ → ℕ → WorkerSupervisor → Type 0
WithWorkers most n others s =
    (s.max_workers ≡ most)
    × (s.workers ≡ up_to n)
    × (s.worker_counter ≡ n)
    × (s.total_workers ≡ n)
    × (s.active_workers ≡ pos n)
    × (length s.worker_events ≤ n + others)

-- The events that the monitors send before each of n workers sends its own.
abbrev pub count_sent : (ℕ → List WorkerEvent) → ℕ → ℕ
count_sent sent zero = 0
count_sent sent (suc n) = length (sent n) + count_sent sent n

-- The creation of a number of workers waits for ever only if they and the monitors send more than 100 events, and it
-- succeeds only for at most 100 workers.
abbrev pub Created : ℕ → ℕ → ℕ → Option WorkerSupervisor → Type 0
Created most n others none = 100 < n + others
Created most n others (some s) =
    (n ≤ length s.worker_events) × (n ≤ 100) × WithWorkers most n others s

-- The state with one worker more, its event not yet sent.
abbrev Registered : ℕ → ℕ → List WorkerEvent → WorkerSupervisor → Type 0
Registered most n events t =
    (t.max_workers ≡ most)
    × (t.workers ≡ up_to (suc n))
    × (t.worker_counter ≡ suc n)
    × (t.total_workers ≡ suc n)
    × (t.active_workers ≡ pos (suc n))
    × (t.worker_events ≡ events)

register_worker-WithWorkers :
    (most n others : ℕ) (s : WorkerSupervisor)
    → n ≤ 100
    → WithWorkers most n others s
    → Registered most n s.worker_events (register_worker s)
unfolding register_worker ◌+ℤ◌
register_worker-WithWorkers most n others s small (m, w, c, t, a, e) =
    let next : next_id s ≡ suc n = omega (arith, c, small) in
    (m, inserted next, next, omega (arith, t), ap (λ z. z +ℤ pos 1) a ∙ ground arith, refl)
  where
    inserted : next_id s ≡ suc n → insert_key (next_id s) s.workers ≡ up_to (suc n)
    inserted next = rw (next, w) (ground (arith, mem-up_to n (suc n)))

arrive-length :
    (es : List WorkerEvent) (s : WorkerSupervisor)
    → length (let t = arrive es s in t.worker_events) ≡ min 100 (length s.worker_events + length es)
arrive-length es s =
    length-take 100 (s.worker_events ++ es) ∙ ap (min 100) (length-append s.worker_events es)

too_many : (k n others : ℕ) → ltb k 100 ≡ false → k ≤ n + others → 100 < suc n + others
too_many k n others h e = ground arith

create_worker-Created :
    (most n others : ℕ) (es : List WorkerEvent) (s : WorkerSupervisor)
    → Created most n others (some s)
    → Created most (suc n) (length es + others) (create_worker (arrive es s))
unfolding create_worker send_event
create_worker-Created most n others es s (enough, few, (m0, w0, c0, t0, a0, e0)) =
    let o = arrive es s in
    let filled = arrive-length es s in
    let (m, w, c, t, a, e) =
      register_worker-WithWorkers most n (length es + others) o few
        (m0, w0, c0, t0, a0, omega (arith, filled, e0)) in
    let u = register_worker o in
    let same : length u.worker_events ≡ length o.worker_events = ap length e in
    elim (Bool-cases (ltb (length u.worker_events) 100)) [
      | inl b ↦
          let low = ltb→lt (length u.worker_events) 100 b in
          rw b (
            omega (arith, same, filled, enough, few, length-append {0}),
            omega (arith, same, filled, enough, few, low),
            (m, w, c, t, a, omega (arith, same, filled, e0, length-append {0})),
          )
      | inr b ↦ rw b (
          too_many (length u.worker_events) n (length es + others) b
            (omega (arith, same, filled, e0)))
    ]

and_then-Created :
    (most n others : ℕ) (es : List WorkerEvent) (r : Option WorkerSupervisor)
    → Created most n others r
    → Created most (suc n) (length es + others) (and_then r (λ t. create_worker (arrive es t)))
and_then-Created most n others es none h = omega (arith, h)
and_then-Created most n others es (some s) h = create_worker-Created most n others es s h

create_workers-Created :
    (sent : ℕ → List WorkerEvent) (most n : ℕ)
    → Created most n (count_sent sent n) (create_workers sent n (new_worker_supervisor most))
unfolding create_workers
create_workers-Created sent most zero =
    (omega arith, omega arith, (refl, refl, refl, refl, refl, omega arith))
create_workers-Created sent most (suc n) =
    and_then-Created most n (count_sent sent n) (sent n)
      (create_workers sent n (new_worker_supervisor most)) (create_workers-Created sent most n)

-- Whatever events the monitors of the workers send while Start runs, when nothing reads the events yet: Start never
-- returns if more than 100 workers are asked for, and it can wait for ever only if the workers and those events are
-- more than 100 together. Whenever it returns it has created all workers, with the ids 1, 2, and so on, all counted
-- as active.
pub start-Created :
    (sent : ℕ → List WorkerEvent) (most : ℕ)
    → Created most most (count_sent sent most) (start sent (new_worker_supervisor most))
unfolding start
start-Created sent most = create_workers-Created sent most most

-- The id selected is a worker's, and the one whose turn it is.
abbrev pub IsTurn : ℤ → ℕ → List ℕ → Option ℕ → Type 0
IsTurn c n ws none = ⊥
IsTurn c n ws (some w) = (mem w ws ≡ true) × (eqb_ℤ (rem c n) (rem (to_int w) n) ≡ true)

IsTurn-cons :
    (c : ℤ) (n v : ℕ) (ws : List ℕ) (r : Option ℕ) → IsTurn c n ws r → IsTurn c n (v ∷ ws) r
IsTurn-cons c n v ws none h = h
IsTurn-cons c n v ws (some w) h = (ground (arith, h.0), h.1)

pub select_from-IsTurn :
    (c : ℤ) (n id : ℕ) (ws : List ℕ)
    → mem id ws ≡ true
    → eqb_ℤ (rem c n) (rem (to_int id) n) ≡ true
    → IsTurn c n ws (select_from c n ws)
select_from-IsTurn c n id [] m h = absurd (cc m)
select_from-IsTurn c n id (w ∷ ws) m h = elim (Bool-cases (eqb_ℤ (rem c n) (rem (to_int w) n))) [
  | inl t ↦ rw t (ground arith, t)
  | inr t ↦ elim (Bool-cases (id == w)) [
    | inl e ↦ absurd (
        ground
          (arith, e, h, t, ap (λ (k : ℕ). eqb_ℤ (rem c n) (rem (to_int k) n)) ((==_iff id w).0 e)))
    | inr e ↦
        rw t
          (IsTurn-cons c n w ws (select_from c n ws) (select_from-IsTurn c n id ws (rw e at m) h))
  ]
]

-- The worker whose id leaves the remainder of c, among 1, …, n.
abbrev turn_of : ℕ → ℕ → ℕ
turn_of c n = if c % n == 0 then n else c % n

turn_of-mem : (c n : ℕ) → 0 < n → mem (turn_of c n) (up_to n) ≡ true
turn_of-mem c n h = ground (arith, mem-up_to n (turn_of c n), mod-lt c h)

turn_of-rem : (c n : ℕ) → 0 < n → turn_of c n % n ≡ c % n
turn_of-rem c n h = elim (Bool-cases (c % n == 0)) [
  | inl t ↦ rw t (ground (arith, t, mod_self n))
  | inr t ↦ rw t (mod-mod c n)
]

-- With the workers 1 to n, as Start makes them, every request finds a worker, one whose id leaves the
-- remainder of the counter by n, as long as the counter has not passed the greatest int32.
pub select_worker-IsTurn :
    (s : WorkerSupervisor) (n : ℕ)
    → s.workers ≡ up_to n
    → 0 < n
    → n ≤ 100
    → next_id s < 2147483648
    → IsTurn (pos (next_id s)) n (up_to n) (select_worker s).0
unfolding select_worker
select_worker-IsTurn s n w h small low =
    let id = turn_of (next_id s) n in
    let c : to_int (next_id s) ≡ pos (next_id s) = ground (arith, low) in
    rw (w, c, length-up_to n)
      (select_from-IsTurn (pos (next_id s)) n id (up_to n) (turn_of-mem (next_id s) n h)
        (same_rem id refl))
  where
    same_rem :
        (id : ℕ)
        → id ≡ turn_of (next_id s) n
        → eqb_ℤ (pos (next_id s % n)) (rem (to_int id) n) ≡ true
    same_rem id e = ground (arith, e, turn_of-rem (next_id s) n h, mod-lt (next_id s) h)
