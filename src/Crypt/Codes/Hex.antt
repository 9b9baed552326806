-- ===== src/Crypt/Codes/Hex.antt =====
-- Hex (luaclib-src/lua-crypt.cpp): reading back what was written, and which texts are read at all.
use Prim.Native.Nat.{bit_and, bit_or}
use skynet.Base.{
  ℕ, ◌/◌, ◌%◌, ◌<◌, ◌≡◌, refl, ap, ◌∙◌, arith, Option, none, some, List, [], ◌∷◌, length, get_or,
  ltb, leb, ◌==◌, ==_iff, ◌||◌, ◌&&◌, Bool, true, false, bit_and_mask, holds_below, holds_below_lem,
}
use skynet.Base.Words.{or_sum}
use skynet.Crypt.{returned}
use skynet.Crypt.Bytes.{IsBytes}
use skynet.Crypt.Des.{shl, shr}
use skynet.Crypt.Codes.{hex, to_hex, hex_value, from_pairs, outcome, from_hex}

hex_table : holds_below 16 (λ v. hex_value (get_or hex v 0) == v) ≡ true
unfolding hex_value
hex_table = refl

hex_value-hex : (v : ℕ) → v < 16 → hex_value (get_or hex v 0) ≡ v
hex_value-hex v lt =
    (==_iff _ v).0 (holds_below_lem 16 (λ v. hex_value (get_or hex v 0) == v) hex_table v lt)

from_pairs-to_hex : (text : List ℕ) → IsBytes text → from_pairs (to_hex text) ≡ some text
unfolding from_pairs to_hex
from_pairs-to_hex [] h = refl
from_pairs-to_hex (x ∷ text) (lt, more) =
    let low : bit_and x 0xf ≡ x % 16 = bit_and_mask 4 x in
    let hi : hex_value (get_or hex (shr x 4) 0) ≡ x / 16 =
      hex_value-hex (shr x 4) (omega arith) ∙ omega arith in
    let lo : hex_value (get_or hex (bit_and x 0xf) 0) ≡ x % 16 =
      hex_value-hex (bit_and x 0xf) (omega (arith, low)) ∙ low in
    let small : (ltb 16 (x / 16) || ltb 16 (x % 16)) ≡ false = ground arith in
    let byte : bit_or (shl (x / 16) 4) (x % 16) % 256 ≡ x =
      ap (λ y. bit_or y (x % 16) % 256) (omega arith)
      ∙ ap (λ y. y % 256) (or_sum 4 (x / 16) (x % 16) (omega arith))
      ∙ omega arith in
    rw (hi, lo, small, from_pairs-to_hex text more, byte) refl

even-to_hex : (text : List ℕ) → length (to_hex text) % 2 ≡ 0
unfolding to_hex
even-to_hex [] = refl
even-to_hex (x ∷ text) = omega (arith, even-to_hex text)

-- `l_from_hex` gives back every string of bytes that `l_to_hex` has written.
pub from_hex-to_hex : (text : List ℕ) → IsBytes text → from_hex (to_hex text) ≡ returned text
unfolding from_hex outcome
from_hex-to_hex text h =
    let even : bit_and (length (to_hex text)) 1 ≡ 0 =
      bit_and_mask 1 (length (to_hex text)) ∙ even-to_hex text in
    let test : (bit_and (length (to_hex text)) 1 == 0) ≡ true = ground (arith, even) in
    rw (test, from_pairs-to_hex text h) refl

-- The signs that HEX lets pass: the digits, and what lies between 'W' and 'g'.
abbrev pub passes : ℕ → Bool
passes c = leb 48 c && leb c 57 || leb 87 c && leb c 103

abbrev pub all_pass : List ℕ → Bool
all_pass [] = true
all_pass (c ∷ text) = passes c && all_pass text

abbrev is_some {ℓ} : {A : Type ℓ} → Option A → Bool
is_some none = false
is_some (some a) = true
