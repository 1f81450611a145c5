-- ===== src/Display/Paint.antt =====
-- Which pixels the drawing of internal/services/display/display_buffer.go changes.
use ideas.Base.{
  ℕ, zero, suc, ◌+◌, ◌<◌, ◌≡◌, refl, sym, ap, ◌∙◌, Bool, true, false, ◌&&◌, [], ◌∷◌, if◌then◌else◌,
  arith, Bool-cases, inl, inr,
}
use ideas.Base.Int.{ℤ, pos, leb_ℤ}
use ideas.Display.Colour.{Rgba, of_rgb565, rgb565, rgb565-of_rgb565}
use ideas.Display.Plot.{
  column, reaches, step, step-size, never, join, reaches_none, reaches_first, step-pixel,
}
use ideas.Display.Buffer.{
  DisplayBuffer, paint_row, paint_rows, fill_rect, pattern_of, draw_char, draw_chars, draw_text,
  flush,
}

paint_row-size :
    (test : ℕ → ℕ → Bool) (c : Rgba) (x y : ℤ) (dy dx n : ℕ) (b : DisplayBuffer)
    → ((paint_row test c x y dy dx n b).width ≡ b.width)
      × ((paint_row test c x y dy dx n b).height ≡ b.height)
unfolding paint_row
paint_row-size test c x y dy dx zero b = (refl, refl)
paint_row-size test c x y dy dx (suc n) b =
    let (p, q) = step-size test c x y dy dx b in
    let (r, s) = paint_row-size test c x y dy (dx + 1) n (step test c x y dy dx b) in (r ∙ p, s ∙ q)

paint_row-pixel :
    (test : ℕ → ℕ → Bool) (c : Rgba) (x y : ℤ) (dy dx n : ℕ) (b : DisplayBuffer) (i j : ℕ)
    → i < b.width
    → j < b.height
    → (paint_row test c x y dy dx n b).back_buffer i j ≡ (
        if test (column x i) dy && (reaches x i dx n && reaches y j dy 1)
        then c
        else b.back_buffer i j)
unfolding paint_row
paint_row-pixel test c x y dy dx zero b i j h k =
    rw (reaches_none x i dx) (never (test (column x i) dy) c _)
paint_row-pixel test c x y dy dx (suc n) b i j h k =
    let (p, q) = step-size test c x y dy dx b in
    paint_row-pixel test c x y dy (dx + 1) n (step test c x y dy dx b) i j (omega (arith, p, h))
      (omega (arith, q, k))
    ∙ ap
        (λ z. if test (column x i) dy && (reaches x i (dx + 1) n && reaches y j dy 1) then c else z)
        (step-pixel test c x y dy dx b i j h k)
    ∙ join (test (column x i) dy) (reaches x i dx 1) (reaches x i (dx + 1) n) (reaches y j dy 1) c _
    ∙ ap (λ z. if test (column x i) dy && (z && reaches y j dy 1) then c else b.back_buffer i j)
        (sym (reaches_first x i dx n))

both : (a b : Bool) → (a && (b && true)) ≡ (a && (true && b))
both true true = refl
both true false = refl
both false b = refl

neither : (a b d : Bool) → (a && (b && false)) ≡ (d && false)
neither true true true = refl
neither true true false = refl
neither true false true = refl
neither true false false = refl
neither false b true = refl
neither false b false = refl

row_at :
    (test : ℕ → ℕ → Bool) (x y : ℤ) (w dy i j : ℕ)
    → (test (column x i) dy && (reaches x i 0 w && reaches y j dy 1))
      ≡ (test (column x i) (column y j) && (reaches y j dy 1 && reaches x i 0 w))
row_at test x y w dy i j = elim (Bool-cases (reaches y j dy 1)) [
  | inl r ↦ let e : column y j ≡ dy = ground (arith, r) in rw (r, e) (both _ _)
  | inr r ↦ rw r (neither _ _ _)
]

paint_rows-pixel :
    (test : ℕ → ℕ → Bool) (c : Rgba) (x y : ℤ) (w dy m : ℕ) (b : DisplayBuffer) (i j : ℕ)
    → i < b.width
    → j < b.height
    → (paint_rows test c x y w dy m b).back_buffer i j ≡ (
        if test (column x i) (column y j) && (reaches y j dy m && reaches x i 0 w)
        then c
        else b.back_buffer i j)
unfolding paint_rows
paint_rows-pixel test c x y w dy zero b i j h k =
    rw (reaches_none y j dy) (never (test (column x i) (column y j)) c _)
paint_rows-pixel test c x y w dy (suc m) b i j h k =
    let (p, q) = paint_row-size test c x y dy 0 w b in
    paint_rows-pixel test c x y w (dy + 1) m (paint_row test c x y dy 0 w b) i j
      (omega (arith, p, h)) (omega (arith, q, k))
    ∙ ap
        (λ z.
          if test (column x i) (column y j) && (reaches y j (dy + 1) m && reaches x i 0 w)
          then c
          else z)
        (paint_row-pixel test c x y dy 0 w b i j h k
          ∙ ap (λ z. if z then c else b.back_buffer i j) (row_at test x y w dy i j))
    ∙ join (test (column x i) (column y j)) (reaches y j dy 1) (reaches y j (dy + 1) m)
        (reaches x i 0 w) c _
    ∙ ap
        (λ z.
          if test (column x i) (column y j) && (z && reaches x i 0 w) then c else b.back_buffer i j)
        (sym (reaches_first y j dy m))

shown :
    (t : Bool) (colour : ℕ) (b : DisplayBuffer) (i j : ℕ)
    → colour < 65536
    → rgb565 (if t then of_rgb565 colour else b.back_buffer i j)
      ≡ (if t then colour else rgb565 (b.back_buffer i j))
shown true colour b i j s = rgb565-of_rgb565 colour s
shown false colour b i j s = refl

-- FillRect followed by Flush: inside the display, a pixel of the rectangle is shown in the colour given,
-- and every other pixel as before.
pub flush-fill_rect :
    (x y : ℤ) (w h colour : ℕ) (b : DisplayBuffer) (i j : ℕ)
    → colour < 65536
    → i < b.width
    → j < b.height
    → flush (fill_rect x y (pos w) (pos h) colour b) i j
      ≡ (if reaches y j 0 h && reaches x i 0 w then colour else flush b i j)
unfolding flush fill_rect
flush-fill_rect x y w h colour b i j s p q =
    ap rgb565 (paint_rows-pixel (λ _ _. true) (of_rgb565 colour) x y w 0 h b i j p q)
    ∙ shown (reaches y j 0 h && reaches x i 0 w) colour b i j s

unreached : (a b : Bool) (m n : ℕ) → n ≡ (if a && (b && false) then m else n)
unreached true true m n = refl
unreached true false m n = refl
unreached false b m n = refl

-- DrawText of one character, followed by Flush: inside the display, the border of a cell of 6 columns and
-- 8 rows is shown in the colour given, nothing for a space, and every other pixel as before.
pub flush-draw_text :
    (x y : ℤ) (char colour : ℕ) (b : DisplayBuffer) (i j : ℕ)
    → colour < 65536
    → i < b.width
    → j < b.height
    → flush (draw_text x y (char ∷ []) colour b) i j ≡ (
        if pattern_of char (column x i) (column y j) && (reaches y j 0 8 && reaches x i 0 6)
        then colour
        else flush b i j)
unfolding flush draw_text draw_chars draw_char
flush-draw_text x y char colour b i j s p q = elim (Bool-cases (leb_ℤ (pos b.width) x)) [
  | inl out ↦
      let r : reaches x i 0 6 ≡ false = ground (arith, out, p) in
      rw (out, r)
        (unreached (pattern_of char (column x i) (column y j)) (reaches y j 0 8) colour
          (flush b i j))
  | inr on ↦
      let d : Bool =
        pattern_of char (column x i) (column y j) && (reaches y j 0 8 && reaches x i 0 6) in
      rw on (
        ap rgb565 (paint_rows-pixel (pattern_of char) (of_rgb565 colour) x y 6 0 8 b i j p q)
        ∙ shown d colour b i j s)
]
