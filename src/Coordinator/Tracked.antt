-- ===== src/Coordinator/Tracked.antt =====
-- What the tracker of internal/analyzers/cancellation_coordinator.go knows of the goroutines that run.
use ideas.Base.{
  ℕ, ◌+◌, ◌-◌, ◌≡◌, refl, sym, ap, subst, ◌∙◌, Bool, true, false, ◌&&◌, ◌==◌, List, [], ◌∷◌, Option,
  none, some, length, ltb, if◌then◌else◌, arith, Bool-cases, inl, inr,
}
use ideas.Base.TextLaws.{bytes_eq_self, bytes_eq_sound, bytes_eq_sym}
use ideas.Base.Text.{Bytes, bytes_eq}
use ideas.Coordinator.{
  count_of, delete, put, has_key, lowered, CancellationCoordinator, track_goroutine, start_tracked,
  untrack_goroutine, register_component, unregister_component, initiate_shutdown, Happening,
  start_goroutine, goroutine_returns, registers, unregisters, shutdown, coordinate, next,
  coordinate_all,
}

-- The specification: the goroutines that run are the list of their names; one that returns is one of them, and none
-- starts where none runs once a shutdown has begun.
abbrev pub on_rest : Bytes → Option (List Bytes) → Option (List Bytes)
on_rest m none = none
on_rest m (some rest) = some (m ∷ rest)

abbrev pub remove_one : Bytes → List Bytes → Option (List Bytes)
remove_one n [] = none
remove_one n (m ∷ ms) =
    let rest = on_rest m (remove_one n ms) in if bytes_eq n m then some ms else rest

-- Whether a shutdown has begun, and what runs.
abbrev pub Ran : Type 0
Ran = Bool × List Bytes

abbrev pub with_running : Bool → Option (List Bytes) → Option Ran
with_running down none = none
with_running down (some running) = some (down, running)

abbrev pub start_one : Bytes → Bool → List Bytes → Option Ran
start_one name true [] = none
start_one name true (m ∷ ms) = some (true, name ∷ m ∷ ms)
start_one name false running = some (false, name ∷ running)

abbrev pub run_one : Happening → Ran → Option Ran
run_one (start_goroutine name) (down, running) = start_one name down running
run_one (goroutine_returns name) (down, running) = with_running down (remove_one name running)
run_one (registers name component) r = some r
run_one (unregisters name) r = some r
run_one shutdown (down, running) = some (true, running)

-- The goroutines that run after the happenings, `none` if one returned that did not run, or one started after a
-- shutdown while none ran.
abbrev pub run_all : List Happening → Option Ran
run_all [] = some (false, [])
run_all (h ∷ hs) = next (run_one h) (run_all hs)

abbrev pub occurrences : Bytes → List Bytes → ℕ
occurrences n [] = 0
occurrences n (m ∷ ms) = (if bytes_eq n m then 1 else 0) + occurrences n ms

-- The tracker has each name as often as it runs, and the wait group has them all.
pub record Tracks (running : List Bytes) (coord : CancellationCoordinator) : Type 0 where
  pub counts : (n : Bytes) → count_of n coord.goroutine_tracker ≡ occurrences n running
  pub waits : coord.active_goroutines ≡ length running

pub count_of-delete :
    (m n : Bytes) (es : List (Bytes × ℕ))
    → count_of m (delete n es) ≡ (if bytes_eq m n then 0 else count_of m es)
count_of-delete m n [] = ground arith
count_of-delete m n (e ∷ es) = elim (Bool-cases (bytes_eq n e.0)) [
  | inl t ↦
      let same : e.0 ≡ n = sym (bytes_eq_sound n e.0 t) in
      rw t (
        subst
          (λ k.
            count_of m (delete n es)
            ≡ (if bytes_eq m n then 0 else if bytes_eq m k then e.1 else count_of m es))
          (sym same) (count_of-delete m n es ∙ ground arith))
  | inr t ↦ elim (Bool-cases (bytes_eq m e.0)) [
    | inl u ↦
        let other : bytes_eq m n ≡ false =
          subst (λ k. bytes_eq k n ≡ false) (sym (bytes_eq_sound m e.0 u))
            (bytes_eq_sym e.0 n ∙ t) in
        rw (t, u, other) refl
    | inr u ↦ rw (t, u) (count_of-delete m n es)
  ]
]

pub count_of-put :
    (m n : Bytes) (v : ℕ) (es : List (Bytes × ℕ))
    → count_of m (put n v es) ≡ (if bytes_eq m n then v else count_of m es)
count_of-put m n v es = ground (arith, count_of-delete m n es)

-- The list is longer by the name that was removed.
Removed : Bytes → List Bytes → Option (List Bytes) → Type 0
Removed n ms none = Unit
Removed n ms (some rest) =
    ((m : Bytes) → occurrences m ms ≡ (if bytes_eq m n then 1 else 0) + occurrences m rest)
    × (length ms ≡ length rest + 1)

on_rest-Removed :
    (n m : Bytes) (ms : List Bytes) (r : Option (List Bytes))
    → Removed n ms r
    → Removed n (m ∷ ms) (on_rest m r)
unfolding Removed
on_rest-Removed n m ms none h = tt
on_rest-Removed n m ms (some rest) (p, q) = (λ k. omega (arith, p k), omega (arith, q))

remove_one-Removed : (n : Bytes) (ms : List Bytes) → Removed n ms (remove_one n ms)
unfolding Removed
remove_one-Removed n [] = tt
remove_one-Removed n (m ∷ ms) = elim (Bool-cases (bytes_eq n m)) [
  | inl t ↦ rw t (λ k. rw (bytes_eq_sound n m t) refl, omega arith)
  | inr t ↦ rw t (on_rest-Removed n m ms (remove_one n ms) (remove_one-Removed n ms))
]

track-Tracks :
    (n : Bytes) (running : List Bytes) (coord : CancellationCoordinator)
    → Tracks running coord
    → Tracks (n ∷ running) (track_goroutine n coord)
unfolding track_goroutine
track-Tracks n running coord t = record {
  counts = λ m. counts_of m;
  waits = omega (arith, t.waits);
}
  where
    counts_of :
        (m : Bytes)
        → count_of m (put n (count_of n coord.goroutine_tracker + 1) coord.goroutine_tracker)
          ≡ occurrences m (n ∷ running)
    counts_of m =
        count_of-put m n (count_of n coord.goroutine_tracker + 1) coord.goroutine_tracker
        ∙ elim (Bool-cases (bytes_eq m n)) [
          | inl e ↦ rw e (
              omega (
                arith,
                t.counts m,
                ap (λ (k : Bytes). count_of k coord.goroutine_tracker) (bytes_eq_sound m n e),
              ))
          | inr e ↦ rw e (omega (arith, t.counts m))
        ]

-- The entry of the name after a goroutine of it has returned.
count_of-lowered :
    (m n : Bytes) (es : List (Bytes × ℕ)) (rest : ℕ)
    → count_of n es ≡ 1 + rest
    → count_of m (lowered n (count_of n es) es) ≡ (if bytes_eq m n then rest else count_of m es)
count_of-lowered m n es rest h = elim (Bool-cases (count_of n es - 1 == 0)) [
  | inl t ↦ rw t (count_of-delete m n es ∙ ground (arith, t, h))
  | inr t ↦ rw t (count_of-put m n (count_of n es - 1) es ∙ ground (arith, h))
]

-- The same goroutines are tracked, and the shutdown has begun or not.
abbrev pub Matches : Ran → CancellationCoordinator → Type 0
Matches r coord = Tracks r.1 coord × (coord.shutdown_begun ≡ r.0)

-- The outcome in the code, for one in the specification that is not excluded.
abbrev pub Follows : Option Ran → Option CancellationCoordinator → Type 0
Follows none c = Unit
Follows (some r) none = ⊥
Follows (some r) (some coord) = Matches r coord

untrack-Tracks :
    (n : Bytes) (down : Bool) (running : List Bytes) (coord : CancellationCoordinator)
    (r : Option (List Bytes))
    → Matches (down, running) coord
    → Removed n running r
    → Follows (with_running down r) (untrack_goroutine n coord)
unfolding untrack_goroutine Removed
untrack-Tracks n down running coord none m h = tt
untrack-Tracks n down running coord (some rest) (t, begun) (p, q) =
    let one : count_of n coord.goroutine_tracker ≡ 1 + occurrences n rest =
      t.counts n ∙ (p n ∙ rw (bytes_eq_self n) refl) in
    let waiting : (coord.active_goroutines == 0) ≡ false = ground (arith, t.waits, q) in
    let there : ltb 0 (count_of n coord.goroutine_tracker) ≡ true = ground (arith, one) in
    rw (waiting, there)
      (record { counts = λ m. counts_of m one; waits = omega (arith, t.waits, q) }, begun)
  where
    counts_of :
        (m : Bytes)
        → count_of n coord.goroutine_tracker ≡ 1 + occurrences n rest
        → count_of m (lowered n (count_of n coord.goroutine_tracker) coord.goroutine_tracker)
          ≡ occurrences m rest
    counts_of m one =
        count_of-lowered m n coord.goroutine_tracker (occurrences n rest) one
        ∙ elim (Bool-cases (bytes_eq m n)) [
          | inl e ↦ rw e (ap (λ (k : Bytes). occurrences k rest) (sym (bytes_eq_sound m n e)))
          | inr e ↦ rw e (omega (arith, t.counts m, rw e at (p m)))
        ]

abbrev begin : Bool → CancellationCoordinator → CancellationCoordinator
begin b coord =
    if b then coord else record coord { shutdown_begun = true; done = true; root_cancelled = true }

tracked :
    (name : Bytes) (coord : CancellationCoordinator)
    → (track_goroutine name coord).shutdown_begun ≡ coord.shutdown_begun
unfolding track_goroutine
tracked name coord = refl

shutdown-Tracks :
    (running : List Bytes) (coord : CancellationCoordinator)
    → Tracks running coord
    → Matches (true, running) (initiate_shutdown coord)
unfolding initiate_shutdown
shutdown-Tracks running coord t = elim (Bool-cases coord.shutdown_begun) [
  | inl e ↦ subst (λ b. Matches (true, running) (begin b coord)) (sym e) (t, e)
  | inr e ↦
      subst (λ b. Matches (true, running) (begin b coord)) (sym e)
        (record { counts = t.counts; waits = t.waits }, refl)
]

start-Follows :
    (name : Bytes) (down : Bool) (running : List Bytes) (coord : CancellationCoordinator)
    → Matches (down, running) coord
    → Follows (start_one name down running) (start_tracked name coord)
unfolding start_tracked
start-Follows name true [] coord (t, begun) = tt
start-Follows name true (m ∷ ms) coord (t, begun) =
    let busy : (coord.active_goroutines == 0) ≡ false = ground (arith, t.waits) in
    let goes : (coord.shutdown_begun && coord.active_goroutines == 0) ≡ false =
      ground (arith, busy) in
    rw goes (track-Tracks name (m ∷ ms) coord t, tracked name coord ∙ begun)
start-Follows name false running coord (t, begun) =
    let goes : (coord.shutdown_begun && coord.active_goroutines == 0) ≡ false =
      ground (arith, begun) in
    rw goes (track-Tracks name running coord t, tracked name coord ∙ begun)

abbrev pick :
    Bool
    → CancellationCoordinator × Bool
    → CancellationCoordinator × Bool
    → CancellationCoordinator × Bool
pick b x y = if b then x else y

register-Matches :
    (name : Bytes) (component : ℕ) (r : Ran) (coord : CancellationCoordinator)
    → Matches r coord
    → Matches r (register_component name component coord).0
unfolding register_component
register-Matches name component r coord (t, begun) = by_key (has_key name coord.components)
  where
    by_key :
        (b : Bool)
        → Matches r
            (pick b
              (coord, true)
              (record coord { components = put name component coord.components }, false)).0
    by_key true = (t, begun)
    by_key false = (record { counts = t.counts; waits = t.waits }, begun)

coordinate-Follows :
    (h : Happening) (r : Ran) (coord : CancellationCoordinator)
    → Matches r coord
    → Follows (run_one h r) (coordinate h coord)
unfolding coordinate unregister_component
coordinate-Follows (start_goroutine name) (down, running) coord m =
    start-Follows name down running coord m
coordinate-Follows (goroutine_returns name) (down, running) coord m =
    untrack-Tracks name down running coord (remove_one name running) m
      (remove_one-Removed name running)
coordinate-Follows (registers name component) r coord m = register-Matches name component r coord m
coordinate-Follows (unregisters name) r coord (t, begun) =
    (record { counts = t.counts; waits = t.waits }, begun)
coordinate-Follows shutdown (down, running) coord (t, begun) = shutdown-Tracks running coord t

next-Follows :
    (h : Happening) (r : Option Ran) (c : Option CancellationCoordinator)
    → Follows r c
    → Follows (next (run_one h) r) (next (coordinate h) c)
next-Follows h none c f = tt
next-Follows h (some r) none f = elim f [ ]
next-Follows h (some r) (some coord) f = coordinate-Follows h r coord f

-- Whatever happens to a coordinator, if no goroutine returns that did not run, and none is started after a shutdown
-- while none runs, then nothing panics, the tracker has each name with the number of goroutines of that name that run,
-- the wait group has the number of all, and a shutdown has begun exactly if one was called: shutdowns and components,
-- registered or not, change nothing of what is tracked.
pub coordinate_all-Follows : (hs : List Happening) → Follows (run_all hs) (coordinate_all hs)
unfolding coordinate_all
coordinate_all-Follows [] = (record { counts = λ n. refl; waits = refl }, refl)
coordinate_all-Follows (h ∷ hs) =
    next-Follows h (run_all hs) (coordinate_all hs) (coordinate_all-Follows hs)
