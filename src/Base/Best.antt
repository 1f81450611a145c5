-- ===== src/Base/Best.antt =====
-- Lists with one element for each key, that of the highest worth.
use mathlib.Core.Bool.{Bool, true, false, not, ◌&&◌, ◌||◌}
use mathlib.Core.List.{List, [], ◌∷◌}
use mathlib.Core.Logic.{inl, inr}
use mathlib.Core.Path.{◌≡◌, refl, sym, ap, ◌∙◌}
use native.Mathlib.Omega.{arith}
use ideas.Base.Int.{ℤ, ltb_ℤ}
use ideas.Base.Lists.{All}
use ideas.Base.Tests.{if◌then◌else◌, Bool-cases}
use ideas.Base.Text.{Bytes, bytes_eq}
use ideas.Base.TextLaws.{bytes_eq_sound, bytes_eq_self, bytes_eq_sym}

or-true : (a : Bool) → (a || true) ≡ true
or-true true = refl
or-true false = refl

module _ {A : Type 0} (key : A → Bytes) (worth : A → ℤ) where
  abbrev pub same_key : A → A → Bool
  same_key e f = bytes_eq (key e) (key f)

  abbrev pub above : A → A → Bool
  above e f = ltb_ℤ (worth f) (worth e)

  -- An element goes into the list.
  unfoldable pub insert_best : A → List A → List A
  insert_best e [] = e ∷ []
  insert_best e (u ∷ us) =
      let rest = insert_best e us in
      if same_key e u then (if above e u then e ∷ us else u ∷ us) else u ∷ rest

  unfoldable pub insert_all : List A → List A → List A
  insert_all [] us = us
  insert_all (e ∷ es) us = insert_all es (insert_best e us)

  -- No two elements of the list have the same key.
  abbrev pub OnePerKey : List A → Type 0
  OnePerKey [] = Unit
  OnePerKey (u ∷ us) = All (λ v. same_key u v ≡ false) us × OnePerKey us

  -- Some element of the list has the key of `e`, and its worth at least.
  abbrev pub represented : A → List A → Bool
  represented e [] = false
  represented e (u ∷ us) = (same_key e u && not (above e u)) || represented e us

  module _ {ℓ} (P : A → Type ℓ) where
    pub insert_best-All : (e : A) (us : List A) → P e → All P us → All P (insert_best e us)
    unfolding insert_best
    insert_best-All e [] p h = (p, tt)
    insert_best-All e (u ∷ us) p h = elim (Bool-cases (same_key e u)) [
      | inl k ↦ elim (Bool-cases (above e u)) [ inl a ↦ rw (k, a) (p, h.1) | inr a ↦ rw (k, a) h ]
      | inr k ↦ rw k (h.0, insert_best-All e us p h.1)
    ]

    pub insert_all-All : (es us : List A) → All P es → All P us → All P (insert_all es us)
    unfolding insert_all
    insert_all-All [] us p h = h
    insert_all-All (e ∷ es) us p h =
        insert_all-All es (insert_best e us) p.1 (insert_best-All e us p.0 h)

  same_key-left : (e u v : A) → same_key e u ≡ true → same_key u v ≡ same_key e v
  same_key-left e u v h = ap (λ k. bytes_eq k (key v)) (sym (bytes_eq_sound _ _ h))

  All-left :
      (e u : A) (us : List A)
      → same_key e u ≡ true
      → All (λ v. same_key u v ≡ false) us
      → All (λ v. same_key e v ≡ false) us
  All-left e u [] k h = tt
  All-left e u (v ∷ us) k h = (sym (same_key-left e u v k) ∙ h.0, All-left e u us k h.1)

  insert_best-OnePerKey : (e : A) (us : List A) → OnePerKey us → OnePerKey (insert_best e us)
  unfolding insert_best
  insert_best-OnePerKey e [] h = (tt, tt)
  insert_best-OnePerKey e (u ∷ us) h = elim (Bool-cases (same_key e u)) [
    | inl k ↦ elim (Bool-cases (above e u)) [
      | inl a ↦ rw (k, a) (All-left e u us k h.0, h.1)
      | inr a ↦ rw (k, a) h
    ]
    | inr k ↦ rw k (
      insert_best-All (λ v. same_key u v ≡ false) e us (bytes_eq_sym (key u) (key e) ∙ k) h.0,
      insert_best-OnePerKey e us h.1,
    )
  ]

  pub insert_all-OnePerKey : (es us : List A) → OnePerKey us → OnePerKey (insert_all es us)
  unfolding insert_all
  insert_all-OnePerKey [] us h = h
  insert_all-OnePerKey (e ∷ es) us h =
      insert_all-OnePerKey es (insert_best e us) (insert_best-OnePerKey e us h)

  above_self : (e : A) → above e e ≡ false
  above_self e = ground arith

  above_trans : (d e u : A) → above d u ≡ false → above e u ≡ true → above d e ≡ false
  above_trans d e u h k = ground (arith, h, k)

  same_key-right : (d e u : A) → same_key e u ≡ true → same_key d u ≡ same_key d e
  same_key-right d e u h = ap (bytes_eq (key d)) (sym (bytes_eq_sound _ _ h))

  represented-insert_best : (e : A) (us : List A) → represented e (insert_best e us) ≡ true
  unfolding insert_best
  represented-insert_best e [] = rw (bytes_eq_self (key e), above_self e) refl
  represented-insert_best e (u ∷ us) = elim (Bool-cases (same_key e u)) [
    | inl k ↦ elim (Bool-cases (above e u)) [
      | inl a ↦ rw (k, a, bytes_eq_self (key e), above_self e) refl
      | inr a ↦ rw (k, a, k, a) refl
    ]
    | inr k ↦ rw (k, k) (represented-insert_best e us)
  ]

  -- The head that takes the place of `u` represents what `u` did.
  moved :
      (d e u : A) (x : Bool)
      → same_key e u ≡ true
      → above e u ≡ true
      → ((same_key d u && not (above d u)) || x) ≡ true
      → ((same_key d e && not (above d e)) || x) ≡ true
  moved d e u x k a h = elim (Bool-cases (same_key d u)) [
    | inl s ↦ elim (Bool-cases (above d u)) [
      | inl b ↦ let t = rw (s, b) at h in rw t (or-true _)
      | inr b ↦ rw (sym (same_key-right d e u k), s, above_trans d e u b a) refl
    ]
    | inr s ↦ let t = rw s at h in rw t (or-true _)
  ]

  represented_still :
      (d e : A) (us : List A) → represented d us ≡ true → represented d (insert_best e us) ≡ true
  unfolding insert_best
  represented_still d e [] h = absurd (cc h)
  represented_still d e (u ∷ us) h = elim (Bool-cases (same_key e u)) [
    | inl k ↦ elim (Bool-cases (above e u)) [
      | inl a ↦ rw (k, a) (moved d e u (represented d us) k a h)
      | inr a ↦ rw (k, a) h
    ]
    | inr k ↦ rw k (elim (Bool-cases (same_key d u && not (above d u))) [
      | inl b ↦ rw b refl
      | inr b ↦ rw (represented_still d e us (rw b at h)) (or-true _)
    ])
  ]

  pub represented-insert_all :
      (d : A) (es us : List A) → represented d us ≡ true → represented d (insert_all es us) ≡ true
  unfolding insert_all
  represented-insert_all d [] us h = h
  represented-insert_all d (e ∷ es) us h =
      represented-insert_all d es (insert_best e us) (represented_still d e us h)

  -- Every element that went in is represented.
  pub insert_all-represented :
      (es us : List A) → All (λ e. represented e (insert_all es us) ≡ true) es
  unfolding insert_all
  insert_all-represented [] us = tt
  insert_all-represented (e ∷ es) us = (
    represented-insert_all e es (insert_best e us) (represented-insert_best e us),
    insert_all-represented es (insert_best e us),
  )
