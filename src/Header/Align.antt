-- ===== src/Header/Align.antt =====
-- Record alignment: `align_up` to 64 rounds up to the next multiple, and never wraps for a length
-- that can be mapped.
use chronicle_rs.Base.{ℕ, ◌+◌, ◌-◌, ◌*◌, ◌/◌, ◌%◌, ◌^◌, ◌≤◌, ◌<◌, ◌≡◌, ap, ◌∙◌, arith}
use Prim.Native.Nat.{bit_and}
use chronicle_rs.Bits.{bit_and_low_bits, bit_and_even_mask}
use chronicle_rs.Header.{align_up}

-- Clearing the six low bits.
clear_six : (x : ℕ) → x < 2 ^ 64 → bit_and x (2 ^ 64 - 1 - 63) ≡ x / 64 * 64
clear_six x h = omega (
  arith,
  bit_and_even_mask x (2 ^ 63 - 32),
  bit_and_even_mask (x / 2) (2 ^ 62 - 16),
  bit_and_even_mask (x / 2 / 2) (2 ^ 61 - 8),
  bit_and_even_mask (x / 2 / 2 / 2) (2 ^ 60 - 4),
  bit_and_even_mask (x / 2 / 2 / 2 / 2) (2 ^ 59 - 2),
  bit_and_even_mask (x / 2 / 2 / 2 / 2 / 2) (2 ^ 58 - 1),
  bit_and_low_bits 58 (x / 2 / 2 / 2 / 2 / 2 / 2) (omega arith),
)

pub align_up_sixty_four : (val : ℕ) → val + 64 ≤ 2 ^ 64 → align_up val 64 ≡ (val + 63) / 64 * 64
unfolding align_up
align_up_sixty_four val h =
    ap (λ (t : ℕ). bit_and t (2 ^ 64 - 1 - 63)) (omega arith) ∙ clear_six (val + 63) (omega arith)

-- What the code relies on: the result is a multiple of 64, at least the length, and less than 64
-- above it.
pub align_up_bounds :
    (val : ℕ)
    → val + 64 ≤ 2 ^ 64
    → (val ≤ align_up val 64) × (align_up val 64 < val + 64) × (align_up val 64 % 64 ≡ 0)
align_up_bounds val h = omega (arith, align_up_sixty_four val h)
