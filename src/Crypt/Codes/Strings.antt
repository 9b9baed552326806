-- ===== src/Crypt/Codes/Strings.antt =====
-- `l_xor_str` and `l_random_key` of luaclib-src/lua-crypt.cpp.
use Prim.Native.Nat.{bit_and, bit_xor}
use native.Mathlib.Decide.{ℕ_discrete}
use skynet.Base.{
  ℕ, ◌+◌, ◌%◌, ◌≡◌, ◌≢◌, refl, ap, ap₂, ◌∙◌, arith, List, [], ◌∷◌, length, get_or, ◌==◌, true,
  false,
}
use skynet.Base.Digits.{digit-bit_or}
use skynet.Base.Words.{xor_cancel, xor_zero}
use skynet.Crypt.{returned}
use skynet.Crypt.Codes.{xor_from, xor_str, random_bytes, set_lowest, random_key}

xor_from_involution : (i : ℕ) (s1 s2 : List ℕ) → xor_from i (xor_from i s1 s2) s2 ≡ s1
unfolding xor_from
xor_from_involution i [] s2 = refl
xor_from_involution i (x ∷ s1) s2 =
    ap₂ ◌∷◌ (xor_cancel x (get_or s2 (i % length s2) 0)) (xor_from_involution (i + 1) s1 s2)

-- With a key that is not empty `l_xor_str` returns a string, and of that string the first one.
pub xor_str_involution :
    (s1 s2 : List ℕ)
    → length s2 ≢ 0
    → (s : List ℕ) × (xor_str s1 s2 ≡ returned s) × (xor_str s s2 ≡ returned s1)
unfolding xor_str
xor_str_involution s1 s2 ne =
    let test : (length s2 == 0) ≡ false = ground (arith, ne) in
    (xor_from 0 s1 s2, rw test refl, rw test (ap returned (xor_from_involution 0 s1 s2)))

abbrev pub AllZero : List ℕ → Type 0
AllZero [] = Unit {0}
AllZero (x ∷ xs) = (x ≡ 0) × AllZero xs

random_bytes_zero :
    (rs : List ℕ) (x : ℕ) → AllZero (random_bytes rs x).0 → (random_bytes rs x).1 ≡ x
unfolding random_bytes
random_bytes_zero [] x h = refl
random_bytes_zero (r ∷ rs) x (e, more) =
    random_bytes_zero rs (bit_xor x (bit_and r 0xff)) more ∙ ap (bit_xor x) e ∙ xor_zero x

-- `l_random_key` never returns zeros only, whatever `random` gives.
pub random_key_not_zero : (r : ℕ) (rs : List ℕ) → ¬ AllZero (random_key (r ∷ rs))
unfolding random_key random_bytes set_lowest
random_key_not_zero r rs =
    let tmp = random_bytes (r ∷ rs) 0 in
    elim (ℕ_discrete tmp.1 0) [
      | yes e ↦
          let test : (tmp.1 == 0) ≡ true = ground (arith, e) in
          rw test (λ h. omega (arith, h.0, digit-bit_or 0 (bit_and r 0xff) 1))
      | no ne ↦
          let test : (tmp.1 == 0) ≡ false = ground (arith, ne) in
          rw test (λ h. ne (random_bytes_zero (r ∷ rs) 0 h))
    ]
