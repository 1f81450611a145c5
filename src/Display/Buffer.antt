-- ===== src/Display/Buffer.antt =====
-- The drawing of internal/services/display/display_buffer.go. An image is a function of a column and a
-- row.
use ideas.Base.{ℕ, zero, suc, ◌+◌, Bool, true, not, ◌&&◌, ◌||◌, [], ◌∷◌, ◌==◌, if◌then◌else◌}
use ideas.Base.Int.{ℤ, pos, pos_part, ◌+ℤ◌, leb_ℤ, ltb_ℤ}
use ideas.Base.Text.{Bytes}
use ideas.Display.Colour.{Rgba, of_rgb565, rgb565}

abbrev pub Image : Type 0
Image = ℕ → ℕ → Rgba

pub record DisplayBuffer : Type 0 where
  pub width : ℕ
  pub height : ℕ
  pub front_buffer : Image
  pub back_buffer : Image

unfoldable pub clear : ℕ → DisplayBuffer → DisplayBuffer
clear colour b = record b { back_buffer = λ i j. of_rgb565 colour }

abbrev pub is_inside : DisplayBuffer → ℤ → ℤ → Bool
is_inside b x y =
    leb_ℤ (pos 0) x && (ltb_ℤ x (pos b.width) && (leb_ℤ (pos 0) y && ltb_ℤ y (pos b.height)))

-- A write to a pixel of the back buffer, if it is inside.
unfoldable pub plot : Rgba → ℤ → ℤ → DisplayBuffer → DisplayBuffer
plot c x y b =
    if is_inside b x y
    then record b {
      back_buffer = λ i j. if (pos_part x == i) && (pos_part y == j) then c else b.back_buffer i j;
    }
    else b

unfoldable pub set_pixel : ℤ → ℤ → ℕ → DisplayBuffer → DisplayBuffer
set_pixel x y colour b = plot (of_rgb565 colour) x y b

-- The two loops that paint the pixels of a rectangle for which a test holds: `n` columns and `m` rows
-- are left.
unfoldable pub paint_row : (ℕ → ℕ → Bool) → Rgba → ℤ → ℤ → ℕ → ℕ → ℕ → DisplayBuffer → DisplayBuffer
paint_row test c x y dy dx zero b = b
paint_row test c x y dy dx (suc n) b =
    paint_row test c x y dy (dx + 1) n
      (if test dx dy then plot c (x +ℤ pos dx) (y +ℤ pos dy) b else b)

unfoldable pub paint_rows :
    (ℕ → ℕ → Bool) → Rgba → ℤ → ℤ → ℕ → ℕ → ℕ → DisplayBuffer → DisplayBuffer
paint_rows test c x y w dy zero b = b
paint_rows test c x y w dy (suc m) b =
    paint_rows test c x y w (dy + 1) m (paint_row test c x y dy 0 w b)

unfoldable pub fill_rect : ℤ → ℤ → ℤ → ℤ → ℕ → DisplayBuffer → DisplayBuffer
fill_rect x y width height colour b =
    paint_rows (λ _ _. true) (of_rgb565 colour) x y (pos_part width) 0 (pos_part height) b

-- The pattern of a character: the border of its cell, and nothing for a space.
abbrev pub pattern_of : ℕ → ℕ → ℕ → Bool
pattern_of char dx dy = not (char == 32) && ((dx == 0) || ((dx == 5) || ((dy == 0) || (dy == 7))))

unfoldable pub draw_char : ℤ → ℤ → ℕ → Rgba → DisplayBuffer → DisplayBuffer
draw_char x y char c b = paint_rows (pattern_of char) c x y 6 0 8 b

unfoldable pub draw_chars : ℤ → ℤ → Bytes → Rgba → DisplayBuffer → DisplayBuffer
draw_chars x y [] c b = b
draw_chars x y (char ∷ text) c b =
    let rest = draw_chars (x +ℤ pos 8) y text c (draw_char x y char c b) in
    if leb_ℤ (pos b.width) x then b else rest

unfoldable pub draw_text : ℤ → ℤ → Bytes → ℕ → DisplayBuffer → DisplayBuffer
draw_text x y text colour b = draw_chars x y text (of_rgb565 colour) b

-- Flush: the colour that the framebuffer gets for a pixel.
unfoldable pub flush : DisplayBuffer → ℕ → ℕ → ℕ
flush b i j = rgb565 (b.back_buffer i j)

unfoldable pub swap_buffers : DisplayBuffer → DisplayBuffer
swap_buffers b = record b { front_buffer = b.back_buffer; back_buffer = b.front_buffer }
