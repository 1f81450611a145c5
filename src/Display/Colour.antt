-- ===== src/Display/Colour.antt =====
-- The colours of internal/services/display: 16 bits, or 8 bits for each of red, green and blue.
use ideas.Base.{
  ℕ, zero, suc, ◌+◌, ◌*◌, ◌/◌, ◌%◌, ◌<◌, ◌≡◌, refl, subst, Bool, true, ◌&&◌, ◌==◌, ==_iff, arith,
}
use Prim.Native.Nat.{bit_or}

pub record Rgba : Type 0 where
  pub red : ℕ
  pub green : ℕ
  pub blue : ℕ

-- The conversion that Clear, SetPixel and the drawing begin with. A shift to the left is a product, and
-- uint8 keeps 8 bits.
abbrev pub of_rgb565 : ℕ → Rgba
of_rgb565 c = record {
  red = (c / 2048 * 8) % 256;
  green = (c / 32 % 64 * 4) % 256;
  blue = (c % 32 * 8) % 256;
}

-- The conversion of Flush.
abbrev pub rgb565 : Rgba → ℕ
rgb565 p = bit_or (bit_or (p.red / 8 * 2048 % 65536) (p.green / 4 * 32 % 65536)) (p.blue / 8)

holds_below : ℕ → (ℕ → Bool) → Bool
holds_below zero p = true
holds_below (suc n) p = p n && holds_below n p

table :
    holds_below 256 (λ h. holds_below 256 (λ l. rgb565 (of_rgb565 (h * 256 + l)) == (h * 256 + l)))
    ≡ true
unfolding holds_below
table = refl

holds_below_sound : (n : ℕ) (p : ℕ → Bool) (x : ℕ) → holds_below n p ≡ true → x < n → p x ≡ true
unfolding holds_below
holds_below_sound zero p x h lt = absurd (omega arith)
holds_below_sound (suc n) p x h lt = ground (arith, holds_below_sound n p x)

-- A 16-bit colour that is drawn and flushed comes back as it was.
pub rgb565-of_rgb565 : (c : ℕ) → c < 65536 → rgb565 (of_rgb565 c) ≡ c
rgb565-of_rgb565 c h =
    let inner = holds_below_sound 256 _ (c / 256) table (omega arith) in
    let found = holds_below_sound 256 _ (c % 256) inner (omega arith) in
    let e : c / 256 * 256 + c % 256 ≡ c = omega arith in
    subst (λ n. rgb565 (of_rgb565 n) ≡ n) e ((==_iff _ _).0 found)
