-- ===== src/Crypt/Des.antt =====
-- DES of luaclib-src/lua-crypt.cpp: the key schedule and the cipher of one block. A uint32_t is a
-- number, `<<` drops what leaves the 32 bits. The 32 words of SK are 16 pairs, since every round
-- reads two of them.
pub mod Boxes
pub mod Keys
pub mod Steps
pub mod Inverse
pub mod Cipher
use Prim.Native.Nat.{bit_and, bit_or, bit_xor}
use skynet.Base.{
  ℕ, zero, suc, ◌+◌, ◌*◌, ◌/◌, ◌%◌, ◌^◌, List, [], ◌∷◌, ◌++◌, get_or, ltb, ◌==◌, ◌||◌,
  if◌then◌else◌,
}
use skynet.Crypt.Des.Boxes.{sb1, sb2, sb3, sb4, sb5, sb6, sb7, sb8, lhs, rhs}

abbrev pub shl : ℕ → ℕ → ℕ
shl x k = x * 2 ^ k % 2 ^ 32

abbrev pub shr : ℕ → ℕ → ℕ
shr x k = x / 2 ^ k

-- `x | y | ...`
abbrev pub or_all : List ℕ → ℕ
or_all [] = 0
or_all (x ∷ xs) = bit_or x (or_all xs)

-- GET_UINT32 and PUT_UINT32, of and to four bytes.
unfoldable pub get_uint32 : ℕ → ℕ → ℕ → ℕ → ℕ
get_uint32 a b c d = bit_or (shl a 24) (bit_or (shl b 16) (bit_or (shl c 8) d))

unfoldable pub put_uint32 : ℕ → List ℕ
put_uint32 n = shr n 24 % 256 ∷ shr n 16 % 256 ∷ shr n 8 % 256 ∷ n % 256 ∷ []

-- `T = ((X >> k) ^ Y) & mask; Y ^= T; X ^= (T << k);`
unfoldable pub delta_swap : ℕ → ℕ → ℕ → ℕ → ℕ × ℕ
delta_swap k mask x y =
    let t = bit_and (bit_xor (shr x k) y) mask in (bit_xor x (shl t k), bit_xor y t)

-- `T = (X ^ Y) & mask; Y ^= T; X ^= T;`
unfoldable pub exchange : ℕ → ℕ → ℕ → ℕ × ℕ
exchange mask x y = let t = bit_and (bit_xor x y) mask in (bit_xor x t, bit_xor y t)

unfoldable pub rotate_left : ℕ → ℕ
rotate_left x = bit_and (bit_or (shl x 1) (shr x 31)) 0xFFFFFFFF

unfoldable pub rotate_right : ℕ → ℕ
rotate_right x = bit_and (bit_or (shl x 31) (shr x 1)) 0xFFFFFFFF

abbrev pub swap : ℕ × ℕ → ℕ × ℕ
swap p = (p.1, p.0)

-- The two macros of the initial and the final permutation, on the pair of X and Y.
unfoldable pub des_ip : ℕ × ℕ → ℕ × ℕ
des_ip p₀ =
    let p₁ = delta_swap 4 0x0F0F0F0F p₀.0 p₀.1 in
    let p₂ = delta_swap 16 0x0000FFFF p₁.0 p₁.1 in
    let p₃ = swap (delta_swap 2 0x33333333 p₂.1 p₂.0) in
    let p₄ = swap (delta_swap 8 0x00FF00FF p₃.1 p₃.0) in
    let p₅ = exchange 0xAAAAAAAA p₄.0 (rotate_left p₄.1) in (rotate_left p₅.0, p₅.1)

unfoldable pub des_fp : ℕ × ℕ → ℕ × ℕ
des_fp p₀ =
    let p₁ = exchange 0xAAAAAAAA (rotate_right p₀.0) p₀.1 in
    let p₂ = swap (delta_swap 8 0x00FF00FF (rotate_right p₁.1) p₁.0) in
    let p₃ = swap (delta_swap 2 0x33333333 p₂.1 p₂.0) in
    let p₄ = delta_swap 16 0x0000FFFF p₃.0 p₃.1 in delta_swap 4 0x0F0F0F0F p₄.0 p₄.1

-- `SB[(T >> k) & 0x3F]`
abbrev pub box : List ℕ → ℕ → ℕ → ℕ
box sb t k = get_or sb (bit_and (shr t k) 0x3F) 0

abbrev pub xor_four : ℕ → ℕ → ℕ → ℕ → ℕ
xor_four a b c d = bit_xor (bit_xor (bit_xor a b) c) d

-- DES_ROUND, with its pair of words of SK: the new Y.
unfoldable pub des_round : ℕ × ℕ → ℕ → ℕ → ℕ
des_round sk x y =
    let t = bit_xor sk.0 x in
    let t' = bit_xor sk.1 (bit_or (shl x 28) (shr x 4)) in
    bit_xor (bit_xor y (xor_four (box sb8 t 0) (box sb6 t 8) (box sb4 t 16) (box sb2 t 24)))
      (xor_four (box sb7 t' 0) (box sb5 t' 8) (box sb3 t' 16) (box sb1 t' 24))

-- The calls of DES_ROUND, in which X and Y change roles from one to the next.
unfoldable pub des_rounds : List (ℕ × ℕ) → ℕ × ℕ → ℕ × ℕ
des_rounds [] p = p
des_rounds (sk ∷ rest) p = des_rounds rest (p.1, des_round sk p.1 p.0)

-- `des_crypt`, on the two words of a block.
unfoldable pub crypt_words : List (ℕ × ℕ) → ℕ × ℕ → ℕ × ℕ
crypt_words sk p = des_fp (swap (des_rounds sk (des_ip p)))

-- `des_crypt`; an input that is not of eight bytes is not met.
unfoldable pub des_crypt : List (ℕ × ℕ) → List ℕ → List ℕ
des_crypt sk (a ∷ b ∷ c ∷ d ∷ e ∷ f ∷ g ∷ h ∷ []) =
    let p = crypt_words sk (get_uint32 a b c d, get_uint32 e f g h) in
    put_uint32 p.0 ++ put_uint32 p.1
des_crypt sk input = []

-- The loop of `l_des_decode` over the words of the key: pair j is pair 15 - j of the encryption.
unfoldable pub reverse_keys : ℕ → List (ℕ × ℕ) → List (ℕ × ℕ)
reverse_keys zero esk = []
reverse_keys (suc n) esk = get_or esk n (0, 0) ∷ reverse_keys n esk
