-- ===== src/Crypt/Dh/Arith.antt =====
-- `mul_mod_p` and `pow_mod_p` (luaclib-src/lua-crypt.cpp) against products and powers modulo P.
use Prim.Native.Nat.{bit_and}
use native.Mathlib.Nat.{zero-add, mod-eq_of_lt, pow-suc, add-mod, mod-add-mod, mul-zero, mul-one}
use native.Mathlib.Decide.{ℕ_discrete}
use skynet.Base.{
  ℕ, zero, suc, ◌+◌, ◌-◌, ◌*◌, ◌/◌, ◌%◌, ◌^◌, ◌≤◌, ◌<◌, ◌≡◌, sym, ap, ◌∙◌, ◌⊎◌, inl, inr, arith,
  some, ltb, ◌==◌, if◌then◌else◌, false, bit_and_mask,
}
use skynet.Base.Modular.{mod_mul_left, mod_mul, pow_add, pow_one}
use skynet.Crypt.Dh.{prime, gap, add_mod_p, double_mod_p, mul_loop, mul_mod_p, pow_mod_p, powmodp}

gap_lem : (a : ℕ) → a < prime → gap a ≡ prime - a
gap_lem a lt = omega arith

add_mod_p_lem : (m a : ℕ) → m < prime → a < prime → add_mod_p m a ≡ (m + a) % prime
unfolding add_mod_p
add_mod_p_lem m a p q = ground arith

double_mod_p_lem : (a : ℕ) → a < prime → double_mod_p a ≡ a * 2 % prime
unfolding double_mod_p
double_mod_p_lem a q = ground arith

split : (m a b : ℕ) → m + a * (b % 2) + a * 2 * (b / 2) ≡ m + a * b
split m a b =
    let e : b ≡ b % 2 + 2 * (b / 2) = omega arith in sym (ap (λ x. m + a * x) e ∙ grind arith)

odd_or_even : (b : ℕ) → (b % 2 ≡ 1) ⊎ (b % 2 ≡ 0)
odd_or_even b = omega arith

half_lt : (b k : ℕ) → b < 2 ^ suc k → b / 2 < 2 ^ k
half_lt b k lt = let e : 2 ^ suc k ≡ 2 ^ k * 2 = pow-suc 2 k in omega arith

-- One round: its bit of b adds a, and a is doubled for the others.
round_sum :
    (m a b : ℕ)
    → ((m + a * (b % 2)) % prime + a * 2 % prime * (b / 2)) % prime ≡ (m + a * b) % prime
round_sum m a b =
    add-mod ((m + a * (b % 2)) % prime) (a * 2 % prime * (b / 2)) prime
    ∙ ap (λ x. ((m + a * (b % 2)) % prime % prime + x) % prime) (mod_mul_left (a * 2) (b / 2) prime)
    ∙ sym (add-mod ((m + a * (b % 2)) % prime) (a * 2 * (b / 2)) prime)
    ∙ mod-add-mod (m + a * (b % 2)) prime (a * 2 * (b / 2))
    ∙ ap (λ x. x % prime) (split m a b)

added_lem :
    (m a b : ℕ)
    → m < prime
    → a < prime
    → (if bit_and b 1 == 1 then add_mod_p m a else m) ≡ (m + a * (b % 2)) % prime
added_lem m a b p q =
    let low : bit_and b 1 ≡ b % 2 = bit_and_mask 1 b in
    rw low (elim (odd_or_even b) [
      | inl e ↦ rw e (rw (mul-one a) (add_mod_p_lem m a p q))
      | inr e ↦ rw e (rw (mul-zero a) (omega arith))
    ])

mul_loop_lem :
    (rounds m a b : ℕ)
    → m < prime
    → a < prime
    → b < 2 ^ rounds
    → mul_loop rounds m a b ≡ (m + a * b) % prime
unfolding mul_loop
mul_loop_lem zero m a b p q r = let e : b ≡ 0 = omega arith in rw (e, mul-zero a) (omega arith)
mul_loop_lem (suc rounds) m a b p q r =
    let added : ℕ = (m + a * (b % 2)) % prime in
    let rest =
      mul_loop_lem rounds added (a * 2 % prime) (b / 2) (omega arith) (omega arith)
        (half_lt b rounds r) in
    elim (ℕ_discrete b 0) [
      | yes e ↦ rw (e, mul-zero a) (omega arith)
      | no ne ↦
          let test : (b == 0) ≡ false = ground (arith, ne) in
          rw (test, added_lem m a b p q, double_mod_p_lem a q) (rest ∙ round_sum m a b)
    ]

-- For a below P and any uint64_t b, `mul_mod_p` returns the product modulo P, without overflow.
pub mul_mod_p_lem : (a b : ℕ) → a < prime → b < 2 ^ 64 → mul_mod_p a b ≡ a * b % prime
unfolding mul_mod_p
mul_mod_p_lem a b p r =
    mul_loop_lem 64 0 a b (omega arith) p r ∙ ap (λ x. x % prime) (zero-add (a * b))

-- A power from that of half the exponent.
square_lem :
    (a b : ℕ) → a ^ (b / 2) % prime * (a ^ (b / 2) % prime) % prime ≡ a ^ (b / 2 + b / 2) % prime
square_lem a b =
    mod_mul (a ^ (b / 2)) (a ^ (b / 2)) prime
    ∙ ap (λ x. x % prime) (sym (pow_add a (b / 2) (b / 2)))

times_lem : (a k : ℕ) → a ^ k % prime * a % prime ≡ a ^ suc k % prime
times_lem a k = mod_mul_left (a ^ k) a prime ∙ ap (λ x. x % prime) (sym (pow-suc a k))

mod_prime_lt : (x : ℕ) → x % prime < prime
mod_prime_lt x = omega arith

pub pow_mod_p_lem :
    (calls a b : ℕ) → a < prime → 1 ≤ b → b < 2 ^ calls → pow_mod_p calls a b ≡ some (a ^ b % prime)
unfolding pow_mod_p
pow_mod_p_lem zero a b p le lt = absurd (omega arith)
pow_mod_p_lem (suc calls) a b p le lt = elim (ℕ_discrete b 1) [
  | yes e ↦ rw e (ap some (sym (ap (λ x. x % prime) (pow_one a) ∙ mod-eq_of_lt p)))
  | no ne ↦
      let test : (b == 1) ≡ false = ground (arith, ne) in
      let root = a ^ (b / 2) % prime in
      let small = mod_prime_lt (a ^ (b / 2)) in
      let square = mul_mod_p_lem root root small (omega arith) ∙ square_lem a b in
      let back = pow_mod_p_lem calls a (b / 2) p (omega arith) (half_lt b calls lt) in
      rw (test, back)
        (elim (odd_or_even b) [
          | inl e ↦
              rw (e, square)
                (ap some (
                  mul_mod_p_lem (a ^ (b / 2 + b / 2) % prime) a (mod_prime_lt (a ^ (b / 2 + b / 2)))
                    (omega arith)
                  ∙ times_lem a (b / 2 + b / 2)
                  ∙ ap (λ x. a ^ x % prime) (omega arith)))
          | inr e ↦ rw (e, square) (ap (λ x. some (a ^ x % prime)) (omega arith))
        ])
]

-- For an exponent that is a uint64_t and not 0, and a base below P, `powmodp` ends and returns the
-- power modulo P.
pub powmodp_lem : (a b : ℕ) → a < prime → 1 ≤ b → b < 2 ^ 64 → powmodp a b ≡ some (a ^ b % prime)
unfolding powmodp
powmodp_lem a b p le lt =
    let test : ltb prime a ≡ false = ground arith in rw test (pow_mod_p_lem 64 a b p le lt)
