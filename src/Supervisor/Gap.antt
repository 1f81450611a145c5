-- ===== src/Supervisor/Gap.antt =====
-- What a replaced worker means for the choice of workers in internal/analyzers/worker_supervisor.go.
use ideas.Base.{
  ℕ, ◌%◌, ◌≤◌, ◌<◌, ◌≡◌, ◌≢◌, ==_iff, refl, true, false, ◌==◌, List, [], ◌∷◌, ◌++◌, length, All,
  none, if◌then◌else◌, arith, Bool-cases, inl, inr,
}
use ideas.Base.Int.{ℤ, eqb_ℤ}
use native.Mathlib.Nat.{mod_self, mod-eq_of_lt}
use ideas.Supervisor.{
  WorkerSupervisor, to_int, rem, mem, delete, next_id, select_from, select_worker,
}
use ideas.Supervisor.Select.{up_to, mem-up_to}

abbrev Misses : ℤ → ℕ → ℕ → Type 0
Misses c n w = eqb_ℤ (rem c n) (rem (to_int w) n) ≡ false

select_from-none : (c : ℤ) (n : ℕ) (ws : List ℕ) → All (Misses c n) ws → select_from c n ws ≡ none
select_from-none c n [] h = refl
select_from-none c n (w ∷ ws) h = rw (h.0) (select_from-none c n ws h.1)

from_mem {ℓ} : (P : ℕ → Type ℓ) (ws : List ℕ) → ((w : ℕ) → mem w ws ≡ true → P w) → All P ws
from_mem P [] h = tt
from_mem P (w ∷ ws) h = (h w (ground arith), from_mem P ws (λ v m. h v (ground (arith, m))))

mem-delete_both :
    (w i : ℕ) (ws : List ℕ) → mem w (delete i ws) ≡ true → (mem w ws ≡ true) × ((i == w) ≡ false)
mem-delete_both w i [] h = absurd (cc h)
mem-delete_both w i (v ∷ ws) h = elim (Bool-cases (i == v)) [
  | inl t ↦ let (a, b) = mem-delete_both w i ws (rw t at h) in (ground (arith, a), b)
  | inr t ↦ elim (Bool-cases (w == v)) [
    | inl e ↦ (ground (arith, e), ground (arith, t, e))
    | inr e ↦ let (a, b) = mem-delete_both w i ws (rw e at (rw t at h)) in (ground (arith, a), b)
  ]
]

rem_small : (w n : ℕ) → 0 < w → w ≤ n → w % n ≡ (if w == n then 0 else w)
rem_small w n h k = elim (Bool-cases (w == n)) [
  | inl t ↦ rw (t, (==_iff w n).0 t) (mod_self n)
  | inr t ↦ rw t (mod-eq_of_lt (ground (arith, t, k)))
]

-- A worker i of 1 to n is replaced by one of the id `new`. If the remainders of both by n differ, then no request
-- whose counter has the remainder of i finds a worker, though there are n.
pub select_worker-gap :
    (s : WorkerSupervisor) (n i new : ℕ)
    → s.workers ≡ delete i (up_to n) ++ (new ∷ [])
    → length s.workers ≡ n
    → 0 < i
    → i ≤ n
    → n ≤ 100
    → new < 2147483648
    → next_id s < 2147483648
    → new % n ≢ i % n
    → next_id s % n ≡ i % n
    → (select_worker s).0 ≡ none
unfolding select_worker
select_worker-gap s n i new w l pos_i small few low_new low differs turn =
    rw (l, w) (select_from-none (to_int (next_id s)) n (delete i (up_to n) ++ (new ∷ [])) all_miss)
  where
    old_misses : (v : ℕ) → mem v (delete i (up_to n)) ≡ true → Misses (to_int (next_id s)) n v
    old_misses v m =
        let (a, b) = mem-delete_both v i (up_to n) m in
        let c = mem-up_to n v in
        ground (
          arith,
          a,
          b,
          c,
          rem_small v n (ground (arith, a, c)) (ground (arith, a, c)),
          rem_small i n pos_i small,
          turn,
          low,
          few,
        )

    new_misses : Misses (to_int (next_id s)) n new
    new_misses = ground (arith, differs, turn, low, low_new)

    snoc_All :
        (ws : List ℕ)
        → All (Misses (to_int (next_id s)) n) ws
        → All (Misses (to_int (next_id s)) n) (ws ++ (new ∷ []))
    snoc_All [] h = (new_misses, tt)
    snoc_All (v ∷ ws) h = (h.0, snoc_All ws h.1)

    all_miss : All (Misses (to_int (next_id s)) n) (delete i (up_to n) ++ (new ∷ []))
    all_miss =
        snoc_All (delete i (up_to n))
          (from_mem (Misses (to_int (next_id s)) n) (delete i (up_to n)) old_misses)
