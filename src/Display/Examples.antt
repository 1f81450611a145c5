-- ===== src/Display/Examples.antt =====
-- Runs of internal/services/display.
use ideas.Base.{◌≡◌, arith}
use ideas.Base.Int.{pos, negsuc}
use ideas.Display.Colour.{of_rgb565}
use ideas.Display.Buffer.{DisplayBuffer, fill_rect, flush}
use ideas.Display.Paint.{flush-fill_rect}

abbrev dark : DisplayBuffer
dark = record {
  width = 20;
  height = 10;
  front_buffer = λ i j. of_rgb565 0;
  back_buffer = λ i j. of_rgb565 7;
}

-- A rectangle that begins left of the display.
flush-fill_rect_example :
    flush (fill_rect (negsuc 1) (pos 3) (pos 5) (pos 2) 51966 dark) 2 4 ≡ 51966
flush-fill_rect_example =
    flush-fill_rect (negsuc 1) (pos 3) 5 2 51966 dark 2 4 (omega arith) (omega arith) (omega arith)
