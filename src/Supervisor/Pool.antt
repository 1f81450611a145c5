-- ===== src/Supervisor/Pool.antt =====
-- The count of the workers in internal/analyzers/worker_supervisor.go, and the replacement of failed ones.
use ideas.Base.{
  ℕ, suc, ◌+◌, ◌≤◌, ◌<◌, ◌≡◌, ==_iff, refl, sym, ap, subst, ◌∙◌, true, false, ◌==◌, List, [], ◌∷◌,
  ◌++◌, length, length-append, Option, none, some, ltb, lt→ltb, ltb→lt, arith, Bool-cases, inl, inr,
}
use ideas.Base.Int.{ℤ, pos, negsuc, ◌+ℤ◌, +ℤ_parts, eq_of_parts}
use ideas.Supervisor.{
  WorkerSupervisor, Meanwhile, worker_shutdown_event, wrap, mem, delete, next_id, send_event,
  register_worker, create_worker, drop_worker, cleanup_worker, handle_worker_failure,
  handle_worker_event,
}

-- No id stands twice.
abbrev pub Distinct : List ℕ → Type 0
Distinct [] = Unit
Distinct (w ∷ ws) = (mem w ws ≡ false) × Distinct ws

mem-delete : (k id : ℕ) (ws : List ℕ) → mem k ws ≡ false → mem k (delete id ws) ≡ false
mem-delete k id [] h = refl
mem-delete k id (w ∷ ws) h = elim (Bool-cases (id == w)) [
  | inl t ↦ rw t (mem-delete k id ws (ground (arith, h)))
  | inr t ↦ rw t (ground (arith, h, mem-delete k id ws))
]

delete-Distinct : (id : ℕ) (ws : List ℕ) → Distinct ws → Distinct (delete id ws)
delete-Distinct id [] h = tt
delete-Distinct id (w ∷ ws) h = elim (Bool-cases (id == w)) [
  | inl t ↦ rw t (delete-Distinct id ws h.1)
  | inr t ↦ rw t (mem-delete w id ws h.0, delete-Distinct id ws h.1)
]

delete-absent : (id : ℕ) (ws : List ℕ) → mem id ws ≡ false → length (delete id ws) ≡ length ws
delete-absent id [] h = refl
delete-absent id (w ∷ ws) h = elim (Bool-cases (id == w)) [
  | inl t ↦ absurd (ground (arith, h, t))
  | inr t ↦ rw t (ap suc (delete-absent id ws (rw t at h)))
]

length-delete :
    (id : ℕ) (ws : List ℕ) → Distinct ws → mem id ws ≡ true → length (delete id ws) + 1 ≡ length ws
length-delete id [] d h = absurd (cc h)
length-delete id (w ∷ ws) d h = elim (Bool-cases (id == w)) [
  | inl t ↦ rw t (
      omega
        (arith, delete-absent id ws (subst (λ k. mem k ws ≡ false) (sym ((==_iff id w).0 t)) d.0)))
  | inr t ↦ rw t (omega (arith, length-delete id ws d.1 (rw t at h)))
]

mem-snoc_false :
    (k w : ℕ) (ws : List ℕ) → mem k ws ≡ false → (k == w) ≡ false → mem k (ws ++ (w ∷ [])) ≡ false
mem-snoc_false k w [] h e = rw e refl
mem-snoc_false k w (v ∷ ws) h e = ground (arith, h, mem-snoc_false k w ws, e)

snoc-Distinct : (w : ℕ) (ws : List ℕ) → Distinct ws → mem w ws ≡ false → Distinct (ws ++ (w ∷ []))
snoc-Distinct w [] d h = (refl, tt)
snoc-Distinct w (v ∷ ws) d h =
    (mem-snoc_false v w ws d.0 (ground (arith, h)), snoc-Distinct w ws d.1 (ground (arith, h)))

-- Each worker is counted as active once, there are no more than allowed, and no id is above the counter.
pub record IsCounted (s : WorkerSupervisor) : Type 0 where
  pub distinct : Distinct s.workers
  pub bounded : length s.workers ≤ s.max_workers
  pub counted : s.active_workers ≡ pos (length s.workers)
  pub fresh : (k : ℕ) → s.worker_counter < k → mem k s.workers ≡ false

one_less : (a : ℤ) (m n : ℕ) → a ≡ pos n → m + 1 ≡ n → a +ℤ negsuc 0 ≡ pos m
one_less a m n h e =
    eq_of_parts (a +ℤ negsuc 0) (pos m) (ground (arith, +ℤ_parts a (negsuc 0), h, e))

one_more : (a : ℤ) (m n : ℕ) → a ≡ pos n → n + 1 ≡ m → a +ℤ pos 1 ≡ pos m
one_more a m n h e = eq_of_parts (a +ℤ pos 1) (pos m) (ground (arith, +ℤ_parts a (pos 1), h, e))

drop_worker-IsCounted :
    (during : Meanwhile) (id : ℕ) (s : WorkerSupervisor)
    → mem id s.workers ≡ true
    → IsCounted (during s)
    → (let t = during s in mem id t.workers ≡ true)
    → IsCounted (drop_worker during id s)
unfolding drop_worker
drop_worker-IsCounted during id s m c still =
    let t = during s in
    let shorter = length-delete id t.workers c.distinct still in
    rw m (record {
      distinct = delete-Distinct id t.workers c.distinct;
      bounded = omega (arith, c.bounded, shorter);
      counted =
          one_less t.active_workers (length (delete id t.workers)) (length t.workers) c.counted
            shorter;
      fresh = λ k h. mem-delete k id t.workers (c.fresh k h);
    })

mem-gone : (id : ℕ) (ws : List ℕ) → mem id (delete id ws) ≡ false
mem-gone id [] = refl
mem-gone id (w ∷ ws) = elim (Bool-cases (id == w)) [
  | inl t ↦ rw t (mem-gone id ws)
  | inr t ↦ rw t (ground (arith, t, mem-gone id ws))
]

drop_worker-room :
    (during : Meanwhile) (id : ℕ) (s : WorkerSupervisor)
    → mem id s.workers ≡ true
    → IsCounted (during s)
    → (let t = during s in mem id t.workers ≡ true)
    → let t = drop_worker during id s in
      let w = during s in
      (length t.workers + 1 ≡ length w.workers)
      × (mem id t.workers ≡ false)
      × (t.worker_counter ≡ w.worker_counter)
      × (t.max_workers ≡ w.max_workers)
      × (t.worker_events ≡ w.worker_events)
unfolding drop_worker
drop_worker-room during id s m c still =
    let t = during s in
    rw m (length-delete id t.workers c.distinct still, mem-gone id t.workers, refl, refl, refl)

register_worker-IsCounted :
    (s : WorkerSupervisor)
    → IsCounted s
    → length s.workers < s.max_workers
    → s.worker_counter + 1 < wrap
    → IsCounted (register_worker s)
      × (let t = register_worker s in
          (t.workers ≡ s.workers ++ (next_id s ∷ [])) × (t.worker_events ≡ s.worker_events))
unfolding register_worker
register_worker-IsCounted s c room low =
    let next : next_id s ≡ s.worker_counter + 1 = omega (arith, low) in
    let new : mem (next_id s) s.workers ≡ false = c.fresh (next_id s) (omega (arith, next)) in
    rw new (
      record {
        distinct = snoc-Distinct (next_id s) s.workers c.distinct new;
        bounded = omega (arith, room, length-append s.workers (next_id s ∷ []));
        counted =
            one_more s.active_workers (length (s.workers ++ (next_id s ∷ []))) (length s.workers)
              c.counted (omega (arith, length-append s.workers (next_id s ∷ [])));
        fresh = λ k h.
            mem-snoc_false k (next_id s) s.workers (c.fresh k (omega (arith, h, next)))
              (ground (arith, h));
      },
      (refl, refl),
    )

not_next :
    (id : ℕ) (s t : WorkerSupervisor)
    → IsCounted s
    → mem id s.workers ≡ true
    → t.worker_counter ≡ s.worker_counter
    → s.worker_counter + 1 < wrap
    → (id == next_id t) ≡ false
not_next id s t c m same low = elim (Bool-cases (ltb s.worker_counter id)) [
  | inl b ↦ absurd (ground (arith, m, c.fresh id (ltb→lt s.worker_counter id b)))
  | inr b ↦ ground (arith, b, same, low)
]

-- The outcome of a failure that was handled.
abbrev pub Replaced : ℕ → WorkerSupervisor → Option WorkerSupervisor → Type 0
Replaced id s none = ⊥
Replaced id s (some t) =
    IsCounted t × (length t.workers ≡ length s.workers) × (mem id t.workers ≡ false)

-- The failure of a worker that the supervisor has is handled once its Shutdown has returned. If the workers are then
-- counted right, that worker is still there, there is room for an event, the counter is not at its end, and nobody else
-- changes the workers from then on, then that worker is gone, another has taken its place, and the workers are counted
-- right and at most as many as allowed.
pub handle_worker_failure-Replaced :
    (during : Meanwhile) (id : ℕ) (s : WorkerSupervisor)
    → mem id s.workers ≡ true
    → IsCounted (during s)
    → (let t = during s in mem id t.workers ≡ true)
    → (let t = during s in t.worker_counter + 1 < wrap)
    → (let t = during s in length t.worker_events < 100)
    → Replaced id (during s) (handle_worker_failure during id s)
unfolding handle_worker_failure create_worker send_event
handle_worker_failure-Replaced during id s there c m low room =
    let w = during s in
    let t = drop_worker during id s in
    let (shorter, gone, same, most, events) = drop_worker-room during id s there c m in
    let kept = drop_worker-IsCounted during id s there c m in
    let less : length t.workers < t.max_workers = omega (arith, shorter, c.bounded, most) in
    let (counted, (ids, sent)) = register_worker-IsCounted t kept less (omega (arith, low, same)) in
    let u = register_worker t in
    let fits : length u.worker_events < 100 =
      omega (arith, room, ap length sent, ap length events) in
    let old : (id == next_id t) ≡ false = not_next id w t c m same low in
    rw (lt→ltb (length t.workers) t.max_workers less, lt→ltb (length u.worker_events) 100 fits)
      (
        record {
          distinct = counted.distinct;
          bounded = counted.bounded;
          counted = counted.counted;
          fresh = counted.fresh;
        },
        ap length ids ∙ omega (arith, shorter, length-append t.workers (next_id t ∷ [])),
        ap (mem id) ids ∙ mem-snoc_false id (next_id t) t.workers gone old,
      )

-- The failed worker's own shutdown event, which follows, is counted a second time.
abbrev pub Undercounted : ℕ → Option WorkerSupervisor → Type 0
Undercounted id none = ⊥
Undercounted id (some t) =
    let u = handle_worker_event (worker_shutdown_event id) t in
    u.active_workers +ℤ pos 1 ≡ pos (length u.workers)

Undercounted-after :
    (id : ℕ) (s : WorkerSupervisor) (r : Option WorkerSupervisor)
    → Replaced id s r
    → Undercounted id r
unfolding handle_worker_event cleanup_worker
Undercounted-after id s none h = h
Undercounted-after id s (some t) (c, n, gone) =
    eq_of_parts (t.active_workers +ℤ negsuc 0 +ℤ pos 1) (pos (length (delete id t.workers))) (
      ground (
        arith,
        +ℤ_parts t.active_workers (negsuc 0),
        +ℤ_parts (t.active_workers +ℤ negsuc 0) (pos 1),
        c.counted,
        delete-absent id t.workers gone,
      ))

-- After such a failure, and the shutdown event that the closed result channel of the worker brings, the number of
-- active workers is one less than that of the workers there are.
pub handle_worker_failure-Undercounted :
    (during : Meanwhile) (id : ℕ) (s : WorkerSupervisor)
    → mem id s.workers ≡ true
    → IsCounted (during s)
    → (let t = during s in mem id t.workers ≡ true)
    → (let t = during s in t.worker_counter + 1 < wrap)
    → (let t = during s in length t.worker_events < 100)
    → Undercounted id (handle_worker_failure during id s)
handle_worker_failure-Undercounted during id s there c m low room =
    Undercounted-after id (during s) (handle_worker_failure during id s)
      (handle_worker_failure-Replaced during id s there c m low room)
