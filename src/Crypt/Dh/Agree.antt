-- ===== src/Crypt/Dh/Agree.antt =====
-- `l_dh_exchange` and `l_dh_secret` of luaclib-src/lua-crypt.cpp: both sides find the same secret.
use Prim.Native.Nat.{bit_and, bit_or}
use native.Mathlib.Nat.{mul_comm, zero-mul}
use native.Mathlib.Decide.{ℕ_discrete}
use skynet.Base.{
  ℕ, ◌+◌, ◌*◌, ◌%◌, ◌^◌, ◌≤◌, ◌<◌, ◌≡◌, ◌≢◌, refl, sym, ap, ◌∙◌, arith, some, List, [], ◌∷◌, length,
  replicate, ◌==◌, false, bit_and_mask,
}
use skynet.Base.Words.{or_sum, or_comm}
use skynet.Base.Modular.{mod_mul_left, mod_pow, pow_mul, mul_pow, one_pow}
use skynet.Crypt.{returned}
use skynet.Crypt.Bytes.{IsBytes, split_eight}
use skynet.Crypt.Des.{shl, shr}
use skynet.Crypt.Dh.{
  prime, generator, word_of, read64, push64, push_power, secret_of, dh_secret, exchange_of,
  dh_exchange,
}
use skynet.Crypt.Dh.Arith.{powmodp_lem}

-- `b | a << k` where b has k digits.
or_low : (k a b : ℕ) → b < 2 ^ k → bit_or b (a * 2 ^ k) ≡ a * 2 ^ k + b
or_low k a b lt = or_comm b (a * 2 ^ k) ∙ or_sum k a b lt

word_of_lem :
    (a b c d : ℕ)
    → a < 256
    → b < 256
    → c < 256
    → d < 256
    → word_of a b c d ≡ a + b * 256 + c * 65536 + d * 16777216
unfolding word_of
word_of_lem a b c d p q r s =
    let e₁ : bit_or (shl d 24) 0 ≡ d * 2 ^ 24 =
      ap (λ x. bit_or x 0) (omega arith) ∙ or_sum 24 d 0 (omega arith) ∙ omega arith in
    let e₂ : bit_or (shl c 16) (d * 2 ^ 24) ≡ (d * 256 + c) * 2 ^ 16 =
      or_low 24 d (shl c 16) (omega arith) ∙ omega arith in
    let e₃ : bit_or (shl b 8) ((d * 256 + c) * 2 ^ 16) ≡ (d * 65536 + c * 256 + b) * 2 ^ 8 =
      or_low 16 (d * 256 + c) (shl b 8) (omega arith) ∙ omega arith in
    ap (bit_or a) (ap (bit_or (shl b 8)) (ap (bit_or (shl c 16)) e₁ ∙ e₂) ∙ e₃)
    ∙ or_low 8 (d * 65536 + c * 256 + b) a p
    ∙ omega arith

-- Two words that are below 2 ^ 32, as one number.
qword_of_lem : (v w : ℕ) → v < 2 ^ 32 → w < 2 ^ 32 → bit_or v (w * 2 ^ 32 % 2 ^ 64) ≡ v + w * 2 ^ 32
qword_of_lem v w p q = ap (bit_or v) (omega arith) ∙ or_low 32 w v p ∙ omega arith

-- `push64` writes what `read64` reads.
read64-push64 : (r : ℕ) → r < 2 ^ 64 → read64 (push64 r) ≡ some r
unfolding read64 push64
read64-push64 r lt =
    let byte : (x : ℕ) → bit_and x 0xff ≡ x % 256 = bit_and_mask 8 in
    let low =
      word_of_lem (r % 256) (shr r 8 % 256) (shr r 16 % 256) (shr r 24 % 256) (omega arith)
        (omega arith) (omega arith) (omega arith) in
    let high =
      word_of_lem (shr r 32 % 256) (shr r 40 % 256) (shr r 48 % 256) (shr r 56 % 256) (omega arith)
        (omega arith) (omega arith) (omega arith) in
    rw
      (
        byte r,
        byte (shr r 8),
        byte (shr r 16),
        byte (shr r 24),
        byte (shr r 32),
        byte (shr r 40),
        byte (shr r 48),
        byte (shr r 56),
        low,
        high,
      )
      (ap some (qword_of_lem _ _ (omega arith) (omega arith) ∙ omega arith))

-- A key of eight bytes that are not all zero is a number from 1 to 2 ^ 64 - 1.
abbrev IsRead : List ℕ → Type 0
IsRead x =
    IsBytes x
    → length x ≡ 8
    → x ≢ replicate 8 0
    → (v : ℕ) × (read64 x ≡ some v) × (1 ≤ v) × (v < 2 ^ 64)

all_zero :
    (a b c d e f g h : ℕ)
    → a + b * 256 + c * 65536 + d * 16777216 + (e + f * 256 + g * 65536 + h * 16777216) * 2 ^ 32 ≡ 0
    → a ∷ b ∷ c ∷ d ∷ e ∷ f ∷ g ∷ h ∷ [] ≡ replicate 8 0
all_zero a b c d e f g h z =
    let a₀ : a ≡ 0 = omega arith in
    let b₀ : b ≡ 0 = omega arith in
    let c₀ : c ≡ 0 = omega arith in
    let d₀ : d ≡ 0 = omega arith in
    let e₀ : e ≡ 0 = omega arith in
    let f₀ : f ≡ 0 = omega arith in
    let g₀ : g ≡ 0 = omega arith in
    let h₀ : h ≡ 0 = omega arith in rw (a₀, b₀, c₀, d₀, e₀, f₀, g₀, h₀) refl

eight_bytes : (a b c d e f g h : ℕ) (rest : List ℕ) → IsRead (a ∷ b ∷ c ∷ d ∷ e ∷ f ∷ g ∷ h ∷ rest)
unfolding read64
eight_bytes a b c d e f g h (x ∷ rest) bytes eight ne = absurd (omega arith)
eight_bytes a b c d e f g h [] (p, (q, (r, (s, (t, (u, (v, (w, _)))))))) eight ne =
    let low = word_of_lem a b c d p q r s in
    let high = word_of_lem e f g h t u v w in
    let value : ℕ =
      a + b * 256 + c * 65536 + d * 16777216 + (e + f * 256 + g * 65536 + h * 16777216) * 2 ^ 32 in
    (
      value,
      rw (low, high) (ap some (qword_of_lem _ _ (omega arith) (omega arith))),
      elim (ℕ_discrete value 0) [
        | yes z ↦ absurd (ne (all_zero a b c d e f g h z))
        | no nz ↦ omega arith
      ],
      omega arith,
    )

read64_lem :
    (x : List ℕ)
    → IsBytes x
    → length x ≡ 8
    → x ≢ replicate 8 0
    → (v : ℕ) × (read64 x ≡ some v) × (1 ≤ v) × (v < 2 ^ 64)
read64_lem x bytes eight =
    split_eight IsRead (λ a b c d e f g h rest. eight_bytes a b c d e f g h rest) x (omega arith)
      bytes eight

-- 5 has an inverse modulo P, so no power of it is 0 modulo P.
abbrev inverse : ℕ
inverse = 7378697629483820623

power_not_zero : (k : ℕ) → generator ^ k % prime ≢ 0
power_not_zero k e =
    let one : generator ^ k * inverse ^ k % prime ≡ 1 =
      ap (λ x. x % prime) (sym (mul_pow generator inverse k))
      ∙ sym (mod_pow (generator * inverse) k prime)
      ∙ ap (λ x. x % prime) (one_pow k) in
    let none : generator ^ k * inverse ^ k % prime ≡ 0 =
      sym (mod_mul_left (generator ^ k) (inverse ^ k) prime)
      ∙ ap (λ x. x * inverse ^ k % prime) e
      ∙ ap (λ x. x % prime) (zero-mul (inverse ^ k)) in
    omega arith

dh_exchange_lem :
    (x : List ℕ) (v : ℕ)
    → read64 x ≡ some v
    → 1 ≤ v
    → v < 2 ^ 64
    → dh_exchange x ≡ returned (push64 (generator ^ v % prime))
unfolding dh_exchange exchange_of push_power
dh_exchange_lem x v e le lt =
    let test : (v == 0) ≡ false = ground arith in
    rw (e, test, powmodp_lem generator v (omega arith) le lt) refl

dh_secret_lem :
    (x y : List ℕ) (v w : ℕ)
    → read64 x ≡ some v
    → read64 y ≡ some w
    → 1 ≤ v
    → v < prime
    → 1 ≤ w
    → w < 2 ^ 64
    → dh_secret x y ≡ returned (push64 (v ^ w % prime))
unfolding dh_secret secret_of push_power
dh_secret_lem x y v w e₁ e₂ p q le lt =
    let test₁ : (v == 0) ≡ false = ground arith in
    let test₂ : (w == 0) ≡ false = ground arith in
    rw (e₁, e₂, test₁, test₂, powmodp_lem v w q le lt) refl

-- What is exchanged for x, and the secret that it makes with y.
shared :
    (x y : List ℕ) (v w : ℕ)
    → read64 x ≡ some v
    → read64 y ≡ some w
    → 1 ≤ w
    → w < 2 ^ 64
    → dh_secret (push64 (generator ^ v % prime)) y ≡ returned (push64 (generator ^ (v * w) % prime))
shared x y v w e₁ e₂ le lt =
    let sent : ℕ = generator ^ v % prime in
    let small : sent < prime = omega arith in
    let ne : sent ≢ 0 = power_not_zero v in
    dh_secret_lem (push64 sent) y sent w (read64-push64 sent (omega arith)) e₂ (omega arith) small
      le lt
    ∙ ap (λ n. returned (push64 n))
        (mod_pow (generator ^ v) w prime ∙ ap (λ n. n % prime) (pow_mul generator v w))

-- Two keys of eight bytes that are not all zero: both exchanges return, each side makes a secret of
-- its key and what the other one sent, and the two secrets are equal.
pub dh_secret-dh_exchange :
    (x y : List ℕ)
    → IsBytes x
    → IsBytes y
    → length x ≡ 8
    → length y ≡ 8
    → x ≢ replicate 8 0
    → y ≢ replicate 8 0
    → (sent_x sent_y secret : List ℕ) × (dh_exchange x ≡ returned sent_x)
      × (dh_exchange y ≡ returned sent_y)
      × (dh_secret sent_y x ≡ returned secret)
      × (dh_secret sent_x y ≡ returned secret)
dh_secret-dh_exchange x y bx by lx ly nx ny =
    let (v, e₁, le₁, lt₁) = read64_lem x bx lx nx in
    let (w, e₂, le₂, lt₂) = read64_lem y by ly ny in
    (
      push64 (generator ^ v % prime),
      push64 (generator ^ w % prime),
      push64 (generator ^ (v * w) % prime),
      dh_exchange_lem x v e₁ le₁ lt₁,
      dh_exchange_lem y w e₂ le₂ lt₂,
      shared y x w v e₂ e₁ le₁ lt₁
          ∙ ap (λ n. returned (push64 (generator ^ n % prime))) (mul_comm w v),
      shared x y v w e₁ e₂ le₂ lt₂,
    )
