-- ===== src/Base/Modular.antt =====
-- Products and powers modulo n.
use native.Mathlib.Nat.{
  add-mul-mod_self_left, div-add-mod, pow-zero, pow-suc, mul_assoc, add-zero, add-suc, mul-one,
  one-mul,
}
use Prim.Native.Nat.{ℕ, zero, suc, ◌+◌, ◌*◌, ◌/◌, ◌%◌, ◌^◌}
use mathlib.Core.Path.{◌≡◌, refl, sym, ap, ap₂, ◌∙◌}
use native.Mathlib.Omega.{arith}

pub mod_mul_left : (a b n : ℕ) → a % n * b % n ≡ a * b % n
mod_mul_left a b n =
    let e : a * b ≡ a % n * b + n * (a / n * b) =
      ap (λ x. x * b) (sym (div-add-mod a n)) ∙ grind arith in
    sym (ap (λ x. x % n) e ∙ add-mul-mod_self_left (a % n * b) n (a / n * b))

pub mod_mul_right : (a b n : ℕ) → a * (b % n) % n ≡ a * b % n
mod_mul_right a b n =
    ap (λ x. x % n) (grind arith) ∙ mod_mul_left b a n ∙ ap (λ x. x % n) (grind arith)

pub mod_mul : (a b n : ℕ) → a % n * (b % n) % n ≡ a * b % n
mod_mul a b n = mod_mul_left a (b % n) n ∙ mod_mul_right a b n

pub pow_one : (a : ℕ) → a ^ 1 ≡ a
pow_one a = pow-suc a 0 ∙ ap (λ x. x * a) (pow-zero a) ∙ one-mul a

pub one_pow : (k : ℕ) → 1 ^ k ≡ 1
one_pow zero = pow-zero 1
one_pow (suc k) = pow-suc 1 k ∙ ap (λ x. x * 1) (one_pow k)

pub pow_add : (a m k : ℕ) → a ^ (m + k) ≡ a ^ m * a ^ k
pow_add a m zero =
    ap (λ x. a ^ x) (add-zero m) ∙ sym (ap (λ x. a ^ m * x) (pow-zero a) ∙ mul-one (a ^ m))
pow_add a m (suc k) =
    ap (λ x. a ^ x) (add-suc m k)
    ∙ pow-suc a (m + k)
    ∙ ap (λ x. x * a) (pow_add a m k)
    ∙ mul_assoc (a ^ m) (a ^ k) a
    ∙ ap (λ x. a ^ m * x) (sym (pow-suc a k))

pub pow_mul : (a m k : ℕ) → (a ^ m) ^ k ≡ a ^ (m * k)
pow_mul a m zero = pow-zero (a ^ m) ∙ sym (ap (λ x. a ^ x) (omega arith) ∙ pow-zero a)
pow_mul a m (suc k) =
    pow-suc (a ^ m) k
    ∙ ap (λ x. x * a ^ m) (pow_mul a m k)
    ∙ sym (pow_add a (m * k) m)
    ∙ ap (λ x. a ^ x) (grind arith)

middle_swap : (x y a b : ℕ) → x * y * (a * b) ≡ x * a * (y * b)
middle_swap x y a b = grind arith

pub mul_pow : (a b k : ℕ) → (a * b) ^ k ≡ a ^ k * b ^ k
mul_pow a b zero = rw (pow-zero (a * b), pow-zero a, pow-zero b) refl
mul_pow a b (suc k) =
    pow-suc (a * b) k
    ∙ ap (λ x. x * (a * b)) (mul_pow a b k)
    ∙ middle_swap (a ^ k) (b ^ k) a b
    ∙ sym (ap₂ ◌*◌ (pow-suc a k) (pow-suc b k))

pub mod_pow : (a k n : ℕ) → (a % n) ^ k % n ≡ a ^ k % n
mod_pow a zero n = ap (λ x. x % n) (pow-zero (a % n) ∙ sym (pow-zero a))
mod_pow a (suc k) n =
    ap (λ x. x % n) (pow-suc (a % n) k)
    ∙ sym (mod_mul_left ((a % n) ^ k) (a % n) n)
    ∙ ap (λ x. x * (a % n) % n) (mod_pow a k n)
    ∙ mod_mul (a ^ k) a n
    ∙ ap (λ x. x % n) (sym (pow-suc a k))
