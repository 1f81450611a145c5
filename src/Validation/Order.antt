-- ===== src/Validation/Order.antt =====
-- sortEntitiesByConfidence of internal/extractors/entity_validator.go: the sort by exchange of
-- neighbours, highest confidence first.
use ideas.Base.{
  ℕ, zero, suc, ◌+◌, ◌-◌, ◌≡◌, refl, sym, ap, subst, ◌∙◌, Bool, true, false, List, [], ◌∷◌, ◌++◌,
  length, All, arith, if◌then◌else◌, Bool-cases, inl, inr,
}
use ideas.Base.Int.{ℤ, ◌≤ℤ◌, ltb_ℤ}
use ideas.Validation.Types.{ExtractedEntity}

abbrev pub lower : ExtractedEntity → ExtractedEntity → Bool
lower d e = ltb_ℤ d.confidence e.confidence

-- The inner loop, with `n` rounds left.
unfoldable pub bubble : ℕ → List ExtractedEntity → List ExtractedEntity
bubble zero es = es
bubble (suc n) [] = []
bubble (suc n) (d ∷ []) = d ∷ []
bubble (suc n) (d ∷ e ∷ es) =
    let kept = d ∷ bubble n (e ∷ es) in
    let swapped = e ∷ bubble n (d ∷ es) in if lower d e then swapped else kept

-- The outer loop: its inner loops have `n`, n - 1, … rounds.
unfoldable pub bubbles : ℕ → List ExtractedEntity → List ExtractedEntity
bubbles zero es = es
bubbles (suc n) es = bubbles n (bubble (suc n) es)

unfoldable pub sort_entities_by_confidence : List ExtractedEntity → List ExtractedEntity
sort_entities_by_confidence es = bubbles (length es - 1) es

-- How many entities of the list pass a test.
abbrev pub count_if : (ExtractedEntity → Bool) → List ExtractedEntity → ℕ
count_if p [] = 0
count_if p (e ∷ es) = (if p e then 1 else 0) + count_if p es

-- Highest confidence first.
abbrev pub Descends : List ExtractedEntity → Type 0
Descends [] = Unit
Descends (d ∷ es) = All (λ (e : ExtractedEntity). e.confidence ≤ℤ d.confidence) es × Descends es

bubble-count :
    (p : ExtractedEntity → Bool) (n : ℕ) (es : List ExtractedEntity)
    → count_if p (bubble n es) ≡ count_if p es
unfolding bubble
bubble-count p zero es = refl
bubble-count p (suc n) [] = refl
bubble-count p (suc n) (d ∷ []) = refl
bubble-count p (suc n) (d ∷ e ∷ es) = elim (Bool-cases (lower d e)) [
  | inl t ↦ rw t (omega (arith, bubble-count p n (d ∷ es)))
  | inr t ↦ rw t (omega (arith, bubble-count p n (e ∷ es)))
]

bubbles-count :
    (p : ExtractedEntity → Bool) (n : ℕ) (es : List ExtractedEntity)
    → count_if p (bubbles n es) ≡ count_if p es
unfolding bubbles
bubbles-count p zero es = refl
bubbles-count p (suc n) es = bubbles-count p n (bubble (suc n) es) ∙ bubble-count p (suc n) es

pub bubble-All {ℓ} :
    (P : ExtractedEntity → Type ℓ) (n : ℕ) (es : List ExtractedEntity)
    → All P es
    → All P (bubble n es)
unfolding bubble
bubble-All P zero es h = h
bubble-All P (suc n) [] h = h
bubble-All P (suc n) (d ∷ []) h = h
bubble-All P (suc n) (d ∷ e ∷ es) h = elim (Bool-cases (lower d e)) [
  | inl t ↦ rw t (h.1.0, bubble-All P n (d ∷ es) (h.0, h.1.1))
  | inr t ↦ rw t (h.0, bubble-All P n (e ∷ es) h.1)
]

bubbles-All {ℓ} :
    (P : ExtractedEntity → Type ℓ) (n : ℕ) (es : List ExtractedEntity)
    → All P es
    → All P (bubbles n es)
unfolding bubbles
bubbles-All P zero es h = h
bubbles-All P (suc n) es h = bubbles-All P n (bubble (suc n) es) (bubble-All P (suc n) es h)

abbrev AtLeast : ℤ → List ExtractedEntity → Type 0
AtLeast c = All (λ (e : ExtractedEntity). c ≤ℤ e.confidence)

-- After a pass over the front, the lowest of the front stands at its end.
record Passed (n : ℕ) (start back es : List ExtractedEntity) : Type 0 where
  front : List ExtractedEntity
  last : ExtractedEntity
  shape : es ≡ front ++ (last ∷ back)
  size : length front ≡ n
  lowest : AtLeast last.confidence front
  under : AtLeast last.confidence start
  among : (c : ℤ) → AtLeast c start → (c ≤ℤ last.confidence) × AtLeast c front

not_lower :
    (d e : ExtractedEntity) (c : ℤ) → lower d e ≡ true → c ≤ℤ d.confidence → c ≤ℤ e.confidence
not_lower d e c t h = ground (arith, t, h)

as_high :
    (d e : ExtractedEntity) (c : ℤ) → lower d e ≡ false → c ≤ℤ e.confidence → c ≤ℤ d.confidence
as_high d e c t h = ground (arith, t, h)

bubble-Passed :
    (n : ℕ) (front back : List ExtractedEntity)
    → length front ≡ suc n
    → Passed n front back (bubble n (front ++ back))
unfolding bubble
bubble-Passed n [] back h = absurd (omega (arith, h))
bubble-Passed zero (d ∷ []) back h = record {
  front = [];
  last = d;
  shape = refl;
  size = refl;
  lowest = tt;
  under = (omega arith, tt);
  among = λ c k. (k.0, tt);
}
bubble-Passed zero (d ∷ e ∷ es) back h = absurd (omega (arith, h))
bubble-Passed (suc n) (d ∷ []) back h = absurd (omega (arith, h))
bubble-Passed (suc n) (d ∷ e ∷ es) back h = elim (Bool-cases (lower d e)) [
  | inl t ↦
      let p = bubble-Passed n (d ∷ es) back (omega (arith, h)) in
      let l = p.last in
      let high = not_lower d e l.confidence t p.under.0 in
      rw t (record {
        front = e ∷ p.front;
        last = p.last;
        shape = ap (λ zs. e ∷ zs) p.shape;
        size = omega (arith, p.size);
        lowest = (high, p.lowest);
        under = (p.under.0, (high, p.under.1));
        among = λ c k. let (a, b) = p.among c (k.0, k.1.1) in (a, (k.1.0, b));
      })
  | inr t ↦
      let p = bubble-Passed n (e ∷ es) back (omega (arith, h)) in
      let l = p.last in
      let high = as_high d e l.confidence t p.under.0 in
      rw t (record {
        front = d ∷ p.front;
        last = p.last;
        shape = ap (λ zs. d ∷ zs) p.shape;
        size = omega (arith, p.size);
        lowest = (high, p.lowest);
        under = (high, p.under);
        among = λ c k. let (a, b) = p.among c k.1 in (a, (k.0, b));
      })
]

-- Everything in the back is at most everything in the front.
abbrev Ranked : List ExtractedEntity → List ExtractedEntity → Type 0
Ranked front = All (λ (b : ExtractedEntity). AtLeast b.confidence front)

Ranked-last :
    {n : ℕ} {start back es : List ExtractedEntity} (p : Passed n start back es)
    (bs : List ExtractedEntity)
    → Ranked start bs
    → All (λ (b : ExtractedEntity). let l = p.last in b.confidence ≤ℤ l.confidence) bs
      × Ranked p.front bs
Ranked-last p [] h = (tt, tt)
Ranked-last p (b ∷ bs) h =
    let (x, y) = p.among b.confidence h.0 in let (u, v) = Ranked-last p bs h.1 in ((x, u), (y, v))

Ranked-one :
    (d : ExtractedEntity) (bs : List ExtractedEntity)
    → Ranked (d ∷ []) bs
    → All (λ (e : ExtractedEntity). e.confidence ≤ℤ d.confidence) bs
Ranked-one d [] h = tt
Ranked-one d (b ∷ bs) h = (h.0.0, Ranked-one d bs h.1)

bubbles-Descends :
    (n : ℕ) (front back : List ExtractedEntity)
    → length front ≡ suc n
    → Descends back
    → Ranked front back
    → Descends (bubbles n (front ++ back))
unfolding bubbles
bubbles-Descends n [] back h d r = absurd (omega (arith, h))
bubbles-Descends zero (x ∷ []) back h d r = (Ranked-one x back r, d)
bubbles-Descends zero (x ∷ y ∷ es) back h d r = absurd (omega (arith, h))
bubbles-Descends (suc n) (x ∷ es) back h d r =
    let p = bubble-Passed (suc n) (x ∷ es) back h in
    let (low, ranked) = Ranked-last p back r in
    subst (λ zs. Descends (bubbles n zs)) (sym p.shape)
      (bubbles-Descends n p.front (p.last ∷ back) p.size (low, d) (p.lowest, ranked))

append_nil : (es : List ExtractedEntity) → es ++ [] ≡ es
append_nil [] = refl
append_nil (e ∷ es) = ap (λ zs. e ∷ zs) (append_nil es)

-- sortEntitiesByConfidence puts the entities in an order of falling confidence, and loses and adds none.
pub sort_entities_by_confidence-Descends :
    (es : List ExtractedEntity)
    → Descends (sort_entities_by_confidence es)
      × ((p : ExtractedEntity → Bool) → count_if p (sort_entities_by_confidence es) ≡ count_if p es)
unfolding sort_entities_by_confidence bubbles
sort_entities_by_confidence-Descends [] = (tt, λ p. refl)
sort_entities_by_confidence-Descends (e ∷ es) = (
  subst (λ zs. Descends (bubbles (length (e ∷ es) - 1) zs)) (append_nil (e ∷ es))
      (bubbles-Descends (length (e ∷ es) - 1) (e ∷ es) [] (omega arith) tt tt),
  λ p. bubbles-count p (length (e ∷ es) - 1) (e ∷ es),
)

pub sort_entities_by_confidence-All {ℓ} :
    (P : ExtractedEntity → Type ℓ) (es : List ExtractedEntity)
    → All P es
    → All P (sort_entities_by_confidence es)
unfolding sort_entities_by_confidence
sort_entities_by_confidence-All P es h = bubbles-All P (length es - 1) es h
