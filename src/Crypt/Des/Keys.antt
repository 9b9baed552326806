-- ===== src/Crypt/Des/Keys.antt =====
-- `des_main_ks` of luaclib-src/lua-crypt.cpp: the sixteen pairs of words of the key schedule.
use Prim.Native.Nat.{bit_and, bit_or}
use skynet.Base.{ℕ, zero, suc, ◌+◌, ◌-◌, List, [], ◌∷◌, get_or, ltb, ◌==◌, ◌||◌, if◌then◌else◌}
use skynet.Crypt.Des.Boxes.{lhs, rhs}
use skynet.Crypt.Des.{shl, shr, or_all, get_uint32, delta_swap, exchange, swap}

-- `table[(x >> k) & 0xF]`
abbrev nibble : List ℕ → ℕ → ℕ → ℕ
nibble table x k = get_or table (bit_and (shr x k) 0xF) 0

unfoldable pub left_half : ℕ → ℕ
left_half x =
    bit_and
      (or_all (
        shl (nibble lhs x 0) 3
        ∷ shl (nibble lhs x 8) 2
        ∷ shl (nibble lhs x 16) 1
        ∷ nibble lhs x 24
        ∷ shl (nibble lhs x 5) 7
        ∷ shl (nibble lhs x 13) 6
        ∷ shl (nibble lhs x 21) 5
        ∷ shl (nibble lhs x 29) 4
        ∷ []))
      0x0FFFFFFF

unfoldable pub right_half : ℕ → ℕ
right_half y =
    bit_and
      (or_all (
        shl (nibble rhs y 1) 3
        ∷ shl (nibble rhs y 9) 2
        ∷ shl (nibble rhs y 17) 1
        ∷ nibble rhs y 25
        ∷ shl (nibble rhs y 4) 7
        ∷ shl (nibble rhs y 12) 6
        ∷ shl (nibble rhs y 20) 5
        ∷ shl (nibble rhs y 28) 4
        ∷ []))
      0x0FFFFFFF

-- `((x << k) | (x >> (28 - k))) & 0x0FFFFFFF`
abbrev rotate_half : ℕ → ℕ → ℕ
rotate_half k x = bit_and (bit_or (shl x k) (shr x (28 - k))) 0x0FFFFFFF

unfoldable pub first_subkey : ℕ → ℕ → ℕ
first_subkey x y = or_all (
    bit_and (shl x 4) 0x24000000
    ∷ bit_and (shl x 28) 0x10000000
    ∷ bit_and (shl x 14) 0x08000000
    ∷ bit_and (shl x 18) 0x02080000
    ∷ bit_and (shl x 6) 0x01000000
    ∷ bit_and (shl x 9) 0x00200000
    ∷ bit_and (shr x 1) 0x00100000
    ∷ bit_and (shl x 10) 0x00040000
    ∷ bit_and (shl x 2) 0x00020000
    ∷ bit_and (shr x 10) 0x00010000
    ∷ bit_and (shr y 13) 0x00002000
    ∷ bit_and (shr y 4) 0x00001000
    ∷ bit_and (shl y 6) 0x00000800
    ∷ bit_and (shr y 1) 0x00000400
    ∷ bit_and (shr y 14) 0x00000200
    ∷ bit_and y 0x00000100
    ∷ bit_and (shr y 5) 0x00000020
    ∷ bit_and (shr y 10) 0x00000010
    ∷ bit_and (shr y 3) 0x00000008
    ∷ bit_and (shr y 18) 0x00000004
    ∷ bit_and (shr y 26) 0x00000002
    ∷ bit_and (shr y 24) 0x00000001
    ∷ [])

unfoldable pub second_subkey : ℕ → ℕ → ℕ
second_subkey x y = or_all (
    bit_and (shl x 15) 0x20000000
    ∷ bit_and (shl x 17) 0x10000000
    ∷ bit_and (shl x 10) 0x08000000
    ∷ bit_and (shl x 22) 0x04000000
    ∷ bit_and (shr x 2) 0x02000000
    ∷ bit_and (shl x 1) 0x01000000
    ∷ bit_and (shl x 16) 0x00200000
    ∷ bit_and (shl x 11) 0x00100000
    ∷ bit_and (shl x 3) 0x00080000
    ∷ bit_and (shr x 6) 0x00040000
    ∷ bit_and (shl x 15) 0x00020000
    ∷ bit_and (shr x 4) 0x00010000
    ∷ bit_and (shr y 2) 0x00002000
    ∷ bit_and (shl y 8) 0x00001000
    ∷ bit_and (shr y 14) 0x00000808
    ∷ bit_and (shr y 9) 0x00000400
    ∷ bit_and y 0x00000200
    ∷ bit_and (shl y 7) 0x00000100
    ∷ bit_and (shr y 7) 0x00000020
    ∷ bit_and (shr y 3) 0x00000011
    ∷ bit_and (shl y 2) 0x00000004
    ∷ bit_and (shr y 21) 0x00000002
    ∷ [])

-- The loop over the sixteen rounds.
unfoldable pub subkeys : ℕ → ℕ → ℕ → ℕ → List (ℕ × ℕ)
subkeys zero i x y = []
subkeys (suc rounds) i x y =
    let k = if ltb i 2 || i == 8 || i == 15 then 1 else 2 in
    let x' = rotate_half k x in
    let y' = rotate_half k y in
    (first_subkey x' y', second_subkey x' y') ∷ subkeys rounds (i + 1) x' y'

-- `des_main_ks`; a key that is not of eight bytes is not met.
unfoldable pub des_main_ks : List ℕ → List (ℕ × ℕ)
des_main_ks (a ∷ b ∷ c ∷ d ∷ e ∷ f ∷ g ∷ h ∷ []) =
    let p = swap (delta_swap 4 0x0F0F0F0F (get_uint32 e f g h) (get_uint32 a b c d)) in
    let q = exchange 0x10101010 p.0 p.1 in subkeys 16 0 (left_half q.0) (right_half q.1)
des_main_ks key = []
