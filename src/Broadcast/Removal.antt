-- ===== src/Broadcast/Removal.antt =====
-- removeListenerByIndex of internal/analyzers/metrics_broadcaster.go, on the list of listeners.
use ideas.Base.{
  ℕ, zero, suc, ◌+◌, ◌-◌, ◌≡◌, refl, ap, ◌∙◌, List, [], ◌∷◌, ◌++◌, some, length, get_elem?, set,
  take, count, length-append, arith, ◌==◌, if◌then◌else◌, eq_true, eq_false,
}
use ideas.Broadcast.{move_last, remove_listener_by_index}

-- The last of a list that begins with `k`, and all before it.
pub last_of : ℕ → List ℕ → ℕ
last_of k [] = k
last_of k (j ∷ js) = last_of j js

get-last : (k : ℕ) (ks : List ℕ) → get_elem? (k ∷ ks) (length ks) ≡ some (last_of k ks)
unfolding last_of
get-last k [] = refl
get-last k (j ∷ js) = get-last j js

count-init :
    (a k : ℕ) (ks : List ℕ)
    → count a (take (length ks) (k ∷ ks)) + (if a == last_of k ks then 1 else 0) ≡ count a (k ∷ ks)
unfolding last_of
count-init a k [] = omega arith
count-init a k (j ∷ js) = omega (arith, count-init a j js)

-- The listeners behind the one removed, in their new order.
pub rest_of : List ℕ → List ℕ
rest_of [] = []
rest_of (k ∷ ks) = last_of k ks ∷ take (length ks) (k ∷ ks)

pub count-rest_of : (a : ℕ) (ks : List ℕ) → count a (rest_of ks) ≡ count a ks
unfolding rest_of
count-rest_of a [] = refl
count-rest_of a (k ∷ ks) = omega (arith, count-init a k ks)

pub get-append :
    (pre : List ℕ) (x : ℕ) (ks : List ℕ) {i : ℕ}
    → i ≡ length pre
    → get_elem? (pre ++ (x ∷ ks)) i ≡ some x
get-append [] x ks {i = zero} e = refl
get-append [] x ks {i = suc i} e = absurd (omega arith)
get-append (y ∷ pre) x ks {i = zero} e = absurd (omega arith)
get-append (y ∷ pre) x ks {i = suc i} e = get-append pre x ks {i = i} (omega arith)

get-last-append :
    (pre : List ℕ) (x : ℕ) (ks : List ℕ) {i : ℕ}
    → i ≡ length pre + length ks
    → get_elem? (pre ++ (x ∷ ks)) i ≡ some (last_of x ks)
get-last-append [] x ks {i = i} e = ap (get_elem? (x ∷ ks)) (omega (arith, e)) ∙ get-last x ks
get-last-append (y ∷ pre) x ks {i = zero} e = absurd (omega arith)
get-last-append (y ∷ pre) x ks {i = suc i} e = get-last-append pre x ks {i = i} (omega arith)

set-append :
    (pre : List ℕ) (x : ℕ) (ks : List ℕ) (l : ℕ) {i : ℕ}
    → i ≡ length pre
    → set (pre ++ (x ∷ ks)) i l ≡ pre ++ (l ∷ ks)
set-append [] x ks l {i = zero} e = refl
set-append [] x ks l {i = suc i} e = absurd (omega arith)
set-append (y ∷ pre) x ks l {i = zero} e = absurd (omega arith)
set-append (y ∷ pre) x ks l {i = suc i} e =
    ap (λ zs. y ∷ zs) (set-append pre x ks l {i = i} (omega arith))

take-append :
    (pre ks : List ℕ) (m : ℕ) {n : ℕ} → n ≡ length pre + m → take n (pre ++ ks) ≡ pre ++ take m ks
take-append [] ks m {n = n} e = ap (λ k. take k ks) (omega (arith, e))
take-append (y ∷ pre) ks m {n = zero} e = absurd (omega arith)
take-append (y ∷ pre) ks m {n = suc n} e =
    ap (λ zs. y ∷ zs) (take-append pre ks m {n = n} (omega arith))

last_index :
    (pre : List ℕ) (x : ℕ) (ks : List ℕ) → length (pre ++ (x ∷ ks)) - 1 ≡ length pre + length ks
last_index pre x ks = omega (arith, length-append pre (x ∷ ks))

pub remove-middle :
    (pre : List ℕ) (x : ℕ) (ks : List ℕ) {i : ℕ}
    → i ≡ length pre
    → remove_listener_by_index i (pre ++ (x ∷ ks)) ≡ pre ++ rest_of ks
unfolding remove_listener_by_index rest_of last_of
remove-middle pre x [] {i = i} e =
    ap (λ n. move_last i n (pre ++ (x ∷ [])) (get_elem? (pre ++ (x ∷ [])) n)) (last_index pre x [])
    ∙ ap (move_last i (length pre + 0) (pre ++ (x ∷ []))) (get-last-append pre x [] refl)
    ∙ rw (eq_true i (length pre + 0) (omega arith)) (take-append pre (x ∷ []) 0 refl)
remove-middle pre x (k ∷ ks) {i = i} e =
    ap (λ n. move_last i n (pre ++ (x ∷ k ∷ ks)) (get_elem? (pre ++ (x ∷ k ∷ ks)) n))
      (last_index pre x (k ∷ ks))
    ∙ ap (move_last i (length pre + suc (length ks)) (pre ++ (x ∷ k ∷ ks)))
        (get-last-append pre x (k ∷ ks) refl)
    ∙ rw (eq_false i (length pre + suc (length ks)) (λ q. omega arith)) (
        ap (take (length pre + suc (length ks))) (set-append pre x (k ∷ ks) (last_of k ks) e)
        ∙ take-append pre (last_of k ks ∷ k ∷ ks) (suc (length ks)) refl)

-- A list that is not empty is all before its last and the last.
pub init-last : (k : ℕ) (ks : List ℕ) → k ∷ ks ≡ take (length ks) (k ∷ ks) ++ (last_of k ks ∷ [])
unfolding last_of
init-last k [] = refl
init-last k (j ∷ js) = ap (λ zs. k ∷ zs) (init-last j js)

pub append_nil : (xs : List ℕ) → xs ++ [] ≡ xs
append_nil [] = refl
append_nil (x ∷ xs) = ap (λ zs. x ∷ zs) (append_nil xs)

pub append_snoc : (xs : List ℕ) (x : ℕ) (ys : List ℕ) → (xs ++ (x ∷ [])) ++ ys ≡ xs ++ (x ∷ ys)
append_snoc [] x ys = refl
append_snoc (z ∷ xs) x ys = ap (λ zs. z ∷ zs) (append_snoc xs x ys)
