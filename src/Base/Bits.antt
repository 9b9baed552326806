-- ===== src/Base/Bits.antt =====
-- Masks of k ones under `&` and `|`, at a variable, as quotients and remainders by 2 ^ k.
use Prim.Native.Nat.{
  ℕ, zero, suc, ◌+◌, ◌-◌, ◌*◌, ◌/◌, ◌%◌, ◌^◌, ◌≤◌, ◌<◌, min, max, bit_and, bit_or, digits,
  bit_and-bitwise, bit_or-bitwise,
}
use mathlib.Core.Path.{◌≡◌, sym, ap, ◌∙◌}
use native.Mathlib.Nat.{pow-suc, div-div-eq-div-mul, div-add-mod}
use native.Mathlib.Omega.{arith}

pub pow_pos : (k : ℕ) → 0 < 2 ^ k
pow_pos zero = omega arith
pow_pos (suc k) = rw pow-suc (omega (arith, pow_pos k))

pub quotient_half : (a m : ℕ) → a / (m * 2) ≡ a / 2 / m
quotient_half a m = ap (λ d. a / d) (omega arith) ∙ sym (div-div-eq-div-mul a 2 m)

-- The lowest digit of a number and the digits above it.
remainder_double : (a m : ℕ) → 0 < m → a / 2 % m * 2 + a % 2 ≡ a % (m * 2)
remainder_double a m h =
    omega (arith, div-add-mod a (m * 2), div-add-mod (a / 2) m, ap (λ q. m * q) (quotient_half a m))

-- A mask of k + 1 ones: its lowest digit is one, the digits above it are a mask of k ones.
mask_suc : (k : ℕ) → ((2 ^ suc k - 1) / 2 ≡ 2 ^ k - 1) × ((2 ^ suc k - 1) % 2 ≡ 1)
mask_suc k = rw pow-suc (omega (arith, pow_pos k))

zero_remainder : (k : ℕ) → 0 ≡ 0 % 2 ^ k
zero_remainder k = omega (arith, pow_pos k, div-add-mod 0 (2 ^ k))

and_ones : (n k a : ℕ) → a ≤ n → digits (λ b. zero) min n a (2 ^ k - 1) ≡ a % 2 ^ k
and_ones zero k zero h = zero_remainder k
and_ones zero k (suc a) h = absurd (omega arith)
and_ones (suc n) k zero h = zero_remainder k
and_ones (suc n) zero (suc a) h = omega (arith, and_ones n 0 (suc a / 2) (omega arith))
and_ones (suc n) (suc k) (suc a) h =
    rw ((mask_suc k).0, (mask_suc k).1, and_ones n k (suc a / 2) (omega arith), pow-suc)
      (omega (arith, remainder_double (suc a) (2 ^ k) (pow_pos k)))

or_ones :
    (n k a : ℕ) → a ≤ n → digits (λ b. b) max n a (2 ^ k - 1) ≡ a / 2 ^ k * 2 ^ k + (2 ^ k - 1)
or_ones zero k zero h = omega (arith, zero_remainder k, div-add-mod 0 (2 ^ k))
or_ones zero k (suc a) h = absurd (omega arith)
or_ones (suc n) k zero h = omega (arith, zero_remainder k, div-add-mod 0 (2 ^ k))
or_ones (suc n) zero (suc a) h = omega (arith, or_ones n 0 (suc a / 2) (omega arith))
or_ones (suc n) (suc k) (suc a) h =
    rw ((mask_suc k).0, (mask_suc k).1, or_ones n k (suc a / 2) (omega arith), pow-suc)
      (omega (arith, pow_pos k, ap (λ q. 2 ^ k * q) (quotient_half (suc a) (2 ^ k))))

-- `a & (2^k - 1)` is the remainder.
pub bit_and_mask : (k a : ℕ) → bit_and a (2 ^ k - 1) ≡ a % 2 ^ k
bit_and_mask k a = bit_and-bitwise a (2 ^ k - 1) ∙ and_ones a k a (omega arith)

-- `a | (2^k - 1)` fills the last k digits with ones.
pub bit_or_mask : (k a : ℕ) → bit_or a (2 ^ k - 1) ≡ a / 2 ^ k * 2 ^ k + (2 ^ k - 1)
bit_or_mask k a = bit_or-bitwise a (2 ^ k - 1) ∙ or_ones a k a (omega arith)
