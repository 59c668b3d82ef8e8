-- ===== src/Bits.antt =====
-- The bit masks of the code as arithmetic: `& 1` and `| 1` on flag words, and the alignment mask
-- `& !(align - 1)`.
use Prim.Native.Nat.{bit_and, bit_or, digits, bit_and-bitwise, bit_or-bitwise, min, max}
use native.Mathlib.Nat.{pow-suc, one-le-pow}
use chronicle_rs.Base.{ℕ, zero, suc, ◌+◌, ◌-◌, ◌*◌, ◌/◌, ◌%◌, ◌^◌, ◌≤◌, ◌<◌, ◌≡◌, refl, ap, arith}

-- The recursion behind the native operations has one value at every sufficient fuel.
module _ (edge : ℕ → ℕ) (op : ℕ → ℕ → ℕ) where
  enough_fuel : (f g x y : ℕ) → x ≤ f → x ≤ g → digits edge op f x y ≡ digits edge op g x y
  enough_fuel (suc f) (suc g) (suc x) y hf hg =
      ap (λ (t : ℕ). t * 2 + op (suc x % 2) (y % 2))
        (enough_fuel f g (suc x / 2) (y / 2) (omega arith) (omega arith))
  enough_fuel zero g (suc x) y hf hg = absurd (omega arith)
  enough_fuel (suc f) zero (suc x) y hf hg = absurd (omega arith)
  enough_fuel zero zero zero y hf hg = refl
  enough_fuel zero (suc g) zero y hf hg = refl
  enough_fuel (suc f) zero zero y hf hg = refl
  enough_fuel (suc f) (suc g) zero y hf hg = refl

  lowest_digit :
      (x y : ℕ)
      → digits edge op (suc x) (suc x) y
        ≡ digits edge op (suc x / 2) (suc x / 2) (y / 2) * 2 + op (suc x % 2) (y % 2)
  lowest_digit x y =
      ap (λ (t : ℕ). t * 2 + op (suc x % 2) (y % 2))
        (enough_fuel x (suc x / 2) (suc x / 2) (y / 2) (omega arith) (omega arith))

and_digit : (x y : ℕ) → bit_and x y ≡ bit_and (x / 2) (y / 2) * 2 + min (x % 2) (y % 2)
and_digit zero y = omega (arith, bit_and-bitwise 0 y, bit_and-bitwise 0 (y / 2))
and_digit (suc x) y = omega (
  arith,
  bit_and-bitwise (suc x) y,
  bit_and-bitwise (suc x / 2) (y / 2),
  lowest_digit (λ b. zero) min x y,
)

or_digit : (x y : ℕ) → bit_or x y ≡ bit_or (x / 2) (y / 2) * 2 + max (x % 2) (y % 2)
or_digit zero y = omega (arith, bit_or-bitwise 0 y, bit_or-bitwise 0 (y / 2))
or_digit (suc x) y = omega (
  arith,
  bit_or-bitwise (suc x) y,
  bit_or-bitwise (suc x / 2) (y / 2),
  lowest_digit (λ b. b) max x y,
)

and_none_below : (f x : ℕ) → x ≤ f → bit_and x 0 ≡ 0
and_none_below f zero h = bit_and-bitwise 0 0
and_none_below zero (suc x) h = absurd (omega arith)
and_none_below (suc f) (suc x) h =
    omega (arith, and_digit (suc x) 0, and_none_below f (suc x / 2) (omega arith))

or_none_below : (f x : ℕ) → x ≤ f → bit_or x 0 ≡ x
or_none_below f zero h = bit_or-bitwise 0 0
or_none_below zero (suc x) h = absurd (omega arith)
or_none_below (suc f) (suc x) h =
    omega (arith, or_digit (suc x) 0, or_none_below f (suc x / 2) (omega arith))

-- `x & 1`
pub bit_and-one : (x : ℕ) → bit_and x 1 ≡ x % 2
bit_and-one x = omega (arith, and_digit x 1, and_none_below (x / 2) (x / 2) (omega arith))

-- `x | 1`
pub bit_or-one : (x : ℕ) → bit_or x 1 ≡ x / 2 * 2 + 1
bit_or-one x = omega (arith, or_digit x 1, or_none_below (x / 2) (x / 2) (omega arith))

-- A mask of the low `k` bits.
pub bit_and_low_bits : (k x : ℕ) → x < 2 ^ k → bit_and x (2 ^ k - 1) ≡ x
bit_and_low_bits zero x h =
    let none_left : x ≡ 0 = omega arith in rw none_left (bit_and-bitwise 0 0)
bit_and_low_bits (suc k) x h = omega (
  arith,
  and_digit x (2 ^ suc k - 1),
  pow-suc 2 k,
  one-le-pow k 2,
  ap (λ (t : ℕ). bit_and (x / 2) t) half,
  bit_and_low_bits k (x / 2) (omega (arith, pow-suc 2 k)),
)
  where
    half : (2 ^ suc k - 1) / 2 ≡ 2 ^ k - 1
    half = omega (arith, pow-suc 2 k, one-le-pow k 2)

-- A zero bit of the mask clears the bit.
pub bit_and_even_mask : (x m : ℕ) → bit_and x (2 * m) ≡ bit_and (x / 2) m * 2
bit_and_even_mask x m = omega (arith, and_digit x (2 * m), ap (λ (t : ℕ). bit_and (x / 2) t) half)
  where
    half : 2 * m / 2 ≡ m
    half = omega arith
