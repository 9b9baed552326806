-- ===== src/Base/Words.antt =====
-- Laws of `&`, `|`, `^` and shifts of machine words, at variables.
use Prim.Native.Nat.{
  ℕ, zero, suc, ◌+◌, ◌*◌, ◌/◌, ◌^◌, ◌≤◌, ◌<◌, differ, bit_and, bit_or, bit_xor, bit_xor-bitwise,
}
use mathlib.Core.Path.{◌≡◌, refl, sym, ap, ap₂, ◌∙◌}
use native.Mathlib.Nat.{pow-suc}
use native.Mathlib.Omega.{arith}
use skynet.Base.Bits.{quotient_half}
use skynet.Base.Digits.{
  digit, digit_bit, digit_ext, digit-zero, digit-bit_and, digit-bit_or, digit-bit_xor,
}

differ_cancel : (x y : ℕ) → x < 2 → y < 2 → differ (differ x y) y ≡ x
differ_cancel zero zero p q = refl
differ_cancel zero (suc zero) p q = refl
differ_cancel (suc zero) zero p q = refl
differ_cancel (suc zero) (suc zero) p q = refl
differ_cancel (suc (suc x)) y p q = absurd (omega arith)
differ_cancel zero (suc (suc y)) p q = absurd (omega arith)
differ_cancel (suc zero) (suc (suc y)) p q = absurd (omega arith)

differ_comm : (x y : ℕ) → x < 2 → y < 2 → differ x y ≡ differ y x
differ_comm zero zero p q = refl
differ_comm zero (suc zero) p q = refl
differ_comm (suc zero) zero p q = refl
differ_comm (suc zero) (suc zero) p q = refl
differ_comm (suc (suc x)) y p q = absurd (omega arith)
differ_comm zero (suc (suc y)) p q = absurd (omega arith)
differ_comm (suc zero) (suc (suc y)) p q = absurd (omega arith)

-- `x ^ y ^ y` is x.
pub xor_cancel : (a b : ℕ) → bit_xor (bit_xor a b) b ≡ a
xor_cancel a b = digit_ext (bit_xor (bit_xor a b) b) a (λ k.
    digit-bit_xor k (bit_xor a b) b
    ∙ ap (λ x. differ x (digit k b)) (digit-bit_xor k a b)
    ∙ differ_cancel (digit k a) (digit k b) (digit_bit k a) (digit_bit k b))

pub xor_comm : (a b : ℕ) → bit_xor a b ≡ bit_xor b a
xor_comm a b = digit_ext (bit_xor a b) (bit_xor b a) (λ k.
    digit-bit_xor k a b
    ∙ differ_comm (digit k a) (digit k b) (digit_bit k a) (digit_bit k b)
    ∙ sym (digit-bit_xor k b a))

-- A term that both sides have cancels.
differ_common : (x y t : ℕ) → x < 2 → y < 2 → t < 2 → differ (differ x t) (differ y t) ≡ differ x y
differ_common x y zero p q r = ap₂ differ (differ_comm x 0 p r) (differ_comm y 0 q r)
differ_common zero zero (suc zero) p q r = refl
differ_common zero (suc zero) (suc zero) p q r = refl
differ_common (suc zero) zero (suc zero) p q r = refl
differ_common (suc zero) (suc zero) (suc zero) p q r = refl
differ_common (suc (suc x)) y (suc zero) p q r = absurd (omega arith)
differ_common zero (suc (suc y)) (suc zero) p q r = absurd (omega arith)
differ_common (suc zero) (suc (suc y)) (suc zero) p q r = absurd (omega arith)
differ_common x y (suc (suc t)) p q r = absurd (omega arith)

pub xor_common : (a b t : ℕ) → bit_xor (bit_xor a t) (bit_xor b t) ≡ bit_xor a b
xor_common a b t = digit_ext (bit_xor (bit_xor a t) (bit_xor b t)) (bit_xor a b) (λ k.
    digit-bit_xor k (bit_xor a t) (bit_xor b t)
    ∙ ap₂ differ (digit-bit_xor k a t) (digit-bit_xor k b t)
    ∙ differ_common (digit k a) (digit k b) (digit k t) (digit_bit k a) (digit_bit k b)
        (digit_bit k t)
    ∙ sym (digit-bit_xor k a b))

pub or_comm : (a b : ℕ) → bit_or a b ≡ bit_or b a
or_comm a b =
    digit_ext (bit_or a b) (bit_or b a)
      (λ k. digit-bit_or k a b ∙ omega arith ∙ sym (digit-bit_or k b a))

-- One digit is shifted out.
pub xor_half : (a b : ℕ) → bit_xor a b / 2 ≡ bit_xor (a / 2) (b / 2)
xor_half a b =
    digit_ext (bit_xor a b / 2) (bit_xor (a / 2) (b / 2))
      (λ k. digit-bit_xor (suc k) a b ∙ sym (digit-bit_xor k (a / 2) (b / 2)))

and_half : (a b : ℕ) → bit_and a b / 2 ≡ bit_and (a / 2) (b / 2)
and_half a b =
    digit_ext (bit_and a b / 2) (bit_and (a / 2) (b / 2))
      (λ k. digit-bit_and (suc k) a b ∙ sym (digit-bit_and k (a / 2) (b / 2)))

or_half : (a b : ℕ) → bit_or a b / 2 ≡ bit_or (a / 2) (b / 2)
or_half a b =
    digit_ext (bit_or a b / 2) (bit_or (a / 2) (b / 2))
      (λ k. digit-bit_or (suc k) a b ∙ sym (digit-bit_or k (a / 2) (b / 2)))

-- `(a ^ b) >> m`
pub xor-shift : (m a b : ℕ) → bit_xor a b / 2 ^ m ≡ bit_xor (a / 2 ^ m) (b / 2 ^ m)
xor-shift zero a b =
    let e : (x : ℕ) → x / 1 ≡ x = λ x. omega arith in
    e (bit_xor a b) ∙ sym (ap₂ bit_xor (e a) (e b))
xor-shift (suc m) a b =
    let e : (x : ℕ) → x / 2 ^ suc m ≡ x / 2 / 2 ^ m =
      λ x. ap (λ d. x / d) (pow-suc 2 m) ∙ quotient_half x (2 ^ m) in
    e (bit_xor a b)
    ∙ ap (λ x. x / 2 ^ m) (xor_half a b)
    ∙ xor-shift m (a / 2) (b / 2)
    ∙ sym (ap₂ bit_xor (e a) (e b))

pub xor-lt : (w a b : ℕ) → a < 2 ^ w → b < 2 ^ w → bit_xor a b < 2 ^ w
xor-lt zero a b p q =
    let first : a ≡ 0 = omega arith in
    let second : b ≡ 0 = omega arith in rw (first, second) (omega arith)
xor-lt (suc w) a b p q =
    let e = pow-suc 2 w in
    omega (arith, e, xor_half a b, xor-lt w (a / 2) (b / 2) (omega (arith, e)) (omega (arith, e)))

and_fuel : (n a b : ℕ) → b ≤ n → bit_and a b ≤ b
and_fuel zero a b h =
    let e : b ≡ 0 = omega arith in
    let z : bit_and a 0 ≡ 0 =
      digit_ext (bit_and a 0) 0 (λ k. digit-bit_and k a 0 ∙ omega (arith, digit-zero k)) in
    rw (e, z) (omega arith)
and_fuel (suc n) a b h =
    omega (arith, and_half a b, digit-bit_and 0 a b, and_fuel n (a / 2) (b / 2) (omega arith))

pub and-le : (a b : ℕ) → bit_and a b ≤ b
and-le a b = and_fuel b a b (omega arith)

or-zero : (a : ℕ) → bit_or a 0 ≡ a
or-zero a = digit_ext (bit_or a 0) a (λ k. digit-bit_or k a 0 ∙ omega (arith, digit-zero k))

-- Where the digits of two numbers do not overlap, `|` adds them.
pub or_sum : (m a b : ℕ) → b < 2 ^ m → bit_or (a * 2 ^ m) b ≡ a * 2 ^ m + b
or_sum zero a b h = let e : b ≡ 0 = omega arith in rw e (or-zero (a * 1) ∙ omega arith)
or_sum (suc m) a b h =
    let e : a * 2 ^ suc m ≡ a * 2 ^ m * 2 = ap (λ d. a * d) (pow-suc 2 m) ∙ omega arith in
    let halves = or_half (a * 2 ^ suc m) b in
    let low = digit-bit_or 0 (a * 2 ^ suc m) b in
    let half : a * 2 ^ suc m / 2 ≡ a * 2 ^ m = omega (arith, e) in
    let next = ap (λ x. bit_or x (b / 2)) half ∙ or_sum m a (b / 2) (omega (arith, pow-suc 2 m)) in
    omega (arith, e, halves, low, half, next)

pub xor_swap : (x a b : ℕ) → bit_xor (bit_xor x a) b ≡ bit_xor (bit_xor x b) a
xor_swap x a b =
    ap₂ bit_xor (xor_comm x a) (sym (xor_cancel b x))
    ∙ xor_common a (bit_xor b x) x
    ∙ xor_comm a (bit_xor b x)
    ∙ ap (λ y. bit_xor y a) (xor_comm b x)

pub xor_zero : (x : ℕ) → bit_xor x 0 ≡ x
xor_zero x = xor_comm x 0 ∙ bit_xor-bitwise 0 x
