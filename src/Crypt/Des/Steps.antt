-- ===== src/Crypt/Des/Steps.antt =====
-- The steps of the two permutations of DES (luaclib-src/lua-crypt.cpp) undo one another on 32-bit
-- words.
use Prim.Native.Nat.{bit_and, bit_or, bit_xor}
use skynet.Base.{ℕ, ◌+◌, ◌*◌, ◌/◌, ◌%◌, ◌^◌, ◌≤◌, ◌<◌, ◌≡◌, ap, ap₂, ◌∙◌, arith, bit_and_mask}
use skynet.Base.Words.{xor_cancel, xor_common, xor-shift, xor-lt, and-le, or_sum}
use skynet.Crypt.Des.{shl, shr, delta_swap, exchange, rotate_left, rotate_right}

-- Both words have 32 bits.
abbrev pub AreWords : ℕ × ℕ → Type 0
AreWords p = (p.0 < 2 ^ 32) × (p.1 < 2 ^ 32)

-- The mask loses nothing when it is shifted by k.
abbrev pub Fits : ℕ → ℕ → Type 0
Fits k mask = (t : ℕ) → t ≤ mask → (t * 2 ^ k < 2 ^ 32) × (t * 2 ^ k / 2 ^ k ≡ t) × (t < 2 ^ 32)

pub delta_swap_involution :
    (k mask x y : ℕ)
    → Fits k mask
    → let p = delta_swap k mask x y in delta_swap k mask p.0 p.1 ≡ (x, y)
unfolding delta_swap
delta_swap_involution k mask x y fits =
    let t : ℕ = bit_and (bit_xor (shr x k) y) mask in
    let f = fits t (and-le (bit_xor (shr x k) y) mask) in
    let whole : shl t k ≡ t * 2 ^ k = omega (arith, f.0) in
    let back : shr (bit_xor x (shl t k)) k ≡ bit_xor (shr x k) t =
      xor-shift k x (shl t k) ∙ ap (bit_xor (shr x k)) (ap (λ w. w / 2 ^ k) whole ∙ f.1) in
    let same : bit_and (bit_xor (shr (bit_xor x (shl t k)) k) (bit_xor y t)) mask ≡ t =
      ap (λ w. bit_and (bit_xor w (bit_xor y t)) mask) back
      ∙ ap (λ w. bit_and w mask) (xor_common (shr x k) y t) in
    ap (λ w. (bit_xor (bit_xor x (shl t k)) (shl w k), bit_xor (bit_xor y t) w)) same
    ∙ ap₂ (λ u v. (u, v)) (xor_cancel x (shl t k)) (xor_cancel y t)

pub delta_swap-AreWords :
    (k mask x y : ℕ) → Fits k mask → AreWords (x, y) → AreWords (delta_swap k mask x y)
unfolding delta_swap
delta_swap-AreWords k mask x y fits (p, q) =
    let t : ℕ = bit_and (bit_xor (shr x k) y) mask in
    let f = fits t (and-le (bit_xor (shr x k) y) mask) in
    (xor-lt 32 x (shl t k) p (omega arith), xor-lt 32 y t q f.2)

pub exchange_involution :
    (mask x y : ℕ) → let p = exchange mask x y in exchange mask p.0 p.1 ≡ (x, y)
unfolding exchange
exchange_involution mask x y =
    let t : ℕ = bit_and (bit_xor x y) mask in
    ap (λ w. (bit_xor (bit_xor x t) w, bit_xor (bit_xor y t) w))
      (ap (λ w. bit_and w mask) (xor_common x y t))
    ∙ ap₂ (λ u v. (u, v)) (xor_cancel x t) (xor_cancel y t)

pub exchange-AreWords :
    (mask x y : ℕ) → mask < 2 ^ 32 → AreWords (x, y) → AreWords (exchange mask x y)
unfolding exchange
exchange-AreWords mask x y small (p, q) =
    let t : ℕ = bit_and (bit_xor x y) mask in
    let lt : t < 2 ^ 32 = omega (arith, and-le (bit_xor x y) mask) in
    (xor-lt 32 x t p lt, xor-lt 32 y t q lt)

rotate_left_lem : (x : ℕ) → x < 2 ^ 32 → rotate_left x ≡ x * 2 % 2 ^ 32 + x / 2 ^ 31
unfolding rotate_left
rotate_left_lem x lt =
    bit_and_mask 32 (bit_or (shl x 1) (shr x 31))
    ∙ ap (λ w. w % 2 ^ 32)
        (ap (λ w. bit_or w (shr x 31)) (omega arith)
          ∙ or_sum 1 (x % 2 ^ 31) (shr x 31) (omega arith))
    ∙ omega arith

rotate_right_lem : (x : ℕ) → x < 2 ^ 32 → rotate_right x ≡ x % 2 * 2 ^ 31 + x / 2
unfolding rotate_right
rotate_right_lem x lt =
    bit_and_mask 32 (bit_or (shl x 31) (shr x 1))
    ∙ ap (λ w. w % 2 ^ 32)
        (ap (λ w. bit_or w (shr x 1)) (omega arith) ∙ or_sum 31 (x % 2) (shr x 1) (omega arith))
    ∙ omega arith

pub rotate_left-lt : (x : ℕ) → x < 2 ^ 32 → rotate_left x < 2 ^ 32
rotate_left-lt x lt = rw (rotate_left_lem x lt) (omega arith)

pub rotate_right-lt : (x : ℕ) → x < 2 ^ 32 → rotate_right x < 2 ^ 32
rotate_right-lt x lt = rw (rotate_right_lem x lt) (omega arith)

pub rotate_right-rotate_left : (x : ℕ) → x < 2 ^ 32 → rotate_right (rotate_left x) ≡ x
rotate_right-rotate_left x lt =
    rotate_right_lem (rotate_left x) (rotate_left-lt x lt) ∙ rw (rotate_left_lem x lt) (omega arith)

pub rotate_left-rotate_right : (x : ℕ) → x < 2 ^ 32 → rotate_left (rotate_right x) ≡ x
rotate_left-rotate_right x lt =
    rotate_left_lem (rotate_right x) (rotate_right-lt x lt)
    ∙ rw (rotate_right_lem x lt) (omega arith)
