-- ===== src/Display/Plot.antt =====
-- A single pixel of internal/services/display/display_buffer.go, painted if a test says so.
use ideas.Base.{
  ℕ, suc, ◌+◌, ◌-◌, ◌<◌, ◌≡◌, refl, ap, ◌∙◌, Bool, true, false, ◌&&◌, ◌||◌, leb, ltb, if◌then◌else◌,
  arith, Bool-cases, inl, inr,
}
use ideas.Base.Int.{ℤ, pos, negsuc, pos_part, neg_part, ◌+ℤ◌, +ℤ_parts, leb_ℤ}
use ideas.Display.Colour.{Rgba}
use ideas.Display.Buffer.{DisplayBuffer, is_inside, plot}

-- A pixel inside, after a write at another position or at this one.
pub plot-pixel :
    (c : Rgba) (x y : ℤ) (b : DisplayBuffer) (i j : ℕ)
    → i < b.width
    → j < b.height
    → (plot c x y b).back_buffer i j ≡ (
        if leb_ℤ (pos i) x && (leb_ℤ x (pos i) && (leb_ℤ (pos j) y && leb_ℤ y (pos j)))
        then c
        else b.back_buffer i j)
unfolding plot
plot-pixel c (pos x) (pos y) b i j h k = ground arith
plot-pixel c (pos x) (negsuc y) b i j h k = ground arith
plot-pixel c (negsuc x) y b i j h k = ground arith

-- Where column `i` stands from `x` on, and whether `n` columns from the `dx`-th on reach it.
abbrev pub column : ℤ → ℕ → ℕ
column x i = i + neg_part x - pos_part x

abbrev pub reaches : ℤ → ℕ → ℕ → ℕ → Bool
reaches x i dx n =
    leb (pos_part x + dx) (i + neg_part x) && ltb (i + neg_part x) (pos_part x + dx + n)

pub plot-at :
    (c : Rgba) (x y : ℤ) (dx dy : ℕ) (b : DisplayBuffer) (i j : ℕ)
    → i < b.width
    → j < b.height
    → (plot c (x +ℤ pos dx) (y +ℤ pos dy) b).back_buffer i j
      ≡ (if reaches x i dx 1 && reaches y j dy 1 then c else b.back_buffer i j)
plot-at c x y dx dy b i j h k =
    plot-pixel c (x +ℤ pos dx) (y +ℤ pos dy) b i j h k
    ∙ ap (λ t. if t then c else b.back_buffer i j)
        (ground (arith, +ℤ_parts x (pos dx), +ℤ_parts y (pos dy)))

-- A step that may paint a pixel.
abbrev pub step : (ℕ → ℕ → Bool) → Rgba → ℤ → ℤ → ℕ → ℕ → DisplayBuffer → DisplayBuffer
step test c x y dy dx b = if test dx dy then plot c (x +ℤ pos dx) (y +ℤ pos dy) b else b

pub step-size :
    (test : ℕ → ℕ → Bool) (c : Rgba) (x y : ℤ) (dy dx : ℕ) (b : DisplayBuffer)
    → ((step test c x y dy dx b).width ≡ b.width) × ((step test c x y dy dx b).height ≡ b.height)
unfolding plot
step-size test c x y dy dx b = elim (Bool-cases (test dx dy)) [
  | inl t ↦ elim (Bool-cases (is_inside b (x +ℤ pos dx) (y +ℤ pos dy))) [
    | inl u ↦ rw (t, u) (refl, refl)
    | inr u ↦ rw (t, u) (refl, refl)
  ]
  | inr t ↦ rw t (refl, refl)
]

pub never : (a : Bool) (c d : Rgba) → d ≡ (if a && false then c else d)
never true c d = refl
never false c d = refl

pub join :
    (t p q y : Bool) (c d : Rgba)
    → (if t && (q && y) then c else (if t && (p && y) then c else d))
      ≡ (if t && ((p || q) && y) then c else d)
join false p q y c d = refl
join true true true true c d = refl
join true true true false c d = refl
join true true false true c d = refl
join true true false false c d = refl
join true false true true c d = refl
join true false true false c d = refl
join true false false y c d = refl

pub reaches_none : (x : ℤ) (i dx : ℕ) → reaches x i dx 0 ≡ false
reaches_none x i dx = ground arith

pub reaches_first :
    (x : ℤ) (i dx n : ℕ) → reaches x i dx (suc n) ≡ (reaches x i dx 1 || reaches x i (dx + 1) n)
reaches_first x i dx n = ground arith

pub step-pixel :
    (test : ℕ → ℕ → Bool) (c : Rgba) (x y : ℤ) (dy dx : ℕ) (b : DisplayBuffer) (i j : ℕ)
    → i < b.width
    → j < b.height
    → (step test c x y dy dx b).back_buffer i j ≡ (
        if test (column x i) dy && (reaches x i dx 1 && reaches y j dy 1)
        then c
        else b.back_buffer i j)
step-pixel test c x y dy dx b i j h k = elim (Bool-cases (reaches x i dx 1)) [
  | inl r ↦
      let e : column x i ≡ dx = ground (arith, r) in
      elim (Bool-cases (test dx dy)) [
        | inl t ↦ rw (t, e, t) (plot-at c x y dx dy b i j h k)
        | inr t ↦ rw (t, e, t) refl
      ]
  | inr r ↦ elim (Bool-cases (test dx dy)) [
    | inl t ↦
        rw (t, r)
          (plot-at c x y dx dy b i j h k
            ∙ rw r (never (test (column x i) dy) c (b.back_buffer i j)))
    | inr t ↦ rw (t, r) (never (test (column x i) dy) c _)
  ]
]
