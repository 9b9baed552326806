-- ===== src/Base/Digits.antt =====
-- Binary digits: what `&`, `|`, `^` and shifts of machine words do to each of them.
use Prim.Native.Nat.{
  ℕ, zero, suc, ◌+◌, ◌/◌, ◌%◌, ◌≤◌, ◌<◌, min, max, differ, bit_and, bit_or, bit_xor, digits,
  bit_and-bitwise, bit_or-bitwise, bit_xor-bitwise,
}
use mathlib.Core.Path.{◌≡◌, refl, sym, ap, ◌∙◌}
use native.Mathlib.Omega.{arith}

-- The digit of weight 2 ^ k.
abbrev pub digit : ℕ → ℕ → ℕ
digit zero a = a % 2
digit (suc k) a = digit k (a / 2)

pub digit-zero : (k : ℕ) → digit k 0 ≡ 0
digit-zero zero = refl
digit-zero (suc k) = digit-zero k

pub digit_bit : (k a : ℕ) → digit k a < 2
digit_bit zero a = omega arith
digit_bit (suc k) a = digit_bit k (a / 2)

-- Numbers with the same digits are equal.
ext_fuel : (n a b : ℕ) → a ≤ n → b ≤ n → ((k : ℕ) → digit k a ≡ digit k b) → a ≡ b
ext_fuel zero a b p q h = omega arith
ext_fuel (suc n) a b p q h =
    omega (arith, h 0, ext_fuel n (a / 2) (b / 2) (omega arith) (omega arith) (λ k. h (suc k)))

pub digit_ext : (a b : ℕ) → ((k : ℕ) → digit k a ≡ digit k b) → a ≡ b
digit_ext a b h = ext_fuel (a + b) a b (omega arith) (omega arith) h

module _ (z : ℕ → ℕ) (f : ℕ → ℕ → ℕ) (bit : (x y : ℕ) → x < 2 → y < 2 → f x y < 2)
    (none_left : (k b : ℕ) → digit k (z b) ≡ f 0 (digit k b)) where
  digit-digits : (n k a b : ℕ) → a ≤ n → digit k (digits z f n a b) ≡ f (digit k a) (digit k b)
  digit-digits zero k zero b h = none_left k b ∙ ap (λ x. f x (digit k b)) (sym (digit-zero k))
  digit-digits zero k (suc a) b h = absurd (omega arith)
  digit-digits (suc n) k zero b h = none_left k b ∙ ap (λ x. f x (digit k b)) (sym (digit-zero k))
  digit-digits (suc n) zero (suc a) b h =
      omega (arith, bit (suc a % 2) (b % 2) (omega arith) (omega arith))
  digit-digits (suc n) (suc k) (suc a) b h =
      ap (digit k) (omega (arith, bit (suc a % 2) (b % 2) (omega arith) (omega arith)))
      ∙ digit-digits n k (suc a / 2) (b / 2) (omega arith)

pub digit-bit_and : (k a b : ℕ) → digit k (bit_and a b) ≡ min (digit k a) (digit k b)
digit-bit_and k a b =
    ap (digit k) (bit_and-bitwise a b)
    ∙ digit-digits (λ b. zero) min (λ x y p q. omega arith) (λ k b. digit-zero k ∙ omega arith) a k
        a b (omega arith)

pub digit-bit_or : (k a b : ℕ) → digit k (bit_or a b) ≡ max (digit k a) (digit k b)
digit-bit_or k a b =
    ap (digit k) (bit_or-bitwise a b)
    ∙ digit-digits (λ b. b) max (λ x y p q. omega arith) (λ k b. omega arith) a k a b (omega arith)

differ_bit : (x y : ℕ) → x < 2 → y < 2 → differ x y < 2
differ_bit zero y p q = q
differ_bit (suc zero) zero p q = p
differ_bit (suc zero) (suc zero) p q = omega arith
differ_bit (suc zero) (suc (suc y)) p q = absurd (omega arith)
differ_bit (suc (suc x)) y p q = absurd (omega arith)

pub digit-bit_xor : (k a b : ℕ) → digit k (bit_xor a b) ≡ differ (digit k a) (digit k b)
digit-bit_xor k a b =
    ap (digit k) (bit_xor-bitwise a b)
    ∙ digit-digits (λ b. b) differ differ_bit (λ k b. refl) a k a b (omega arith)
