-- ===== src/Crypt/Text.antt =====
-- `l_des_encode` and `l_des_decode` of luaclib-src/lua-crypt.cpp, with the paddings of the last
-- block. A padding mode is the bit pattern of an int. `last--` walks through the reversed buffer,
-- and none is a read before its start.
pub mod Blocks
pub mod Padding
pub mod Roundtrip
use skynet.Base.{
  ◌^◌, ℕ, zero, suc, ◌+◌, ◌-◌, ◌*◌, ◌/◌, ◌%◌, Option, none, some, List, [], ◌∷◌, ◌++◌, length, take,
  drop, replicate, reverse_onto, ltb, leb, ◌==◌, ◌||◌, not, if◌then◌else◌,
}
use skynet.Crypt.{Outcome, returned, raised, faulted}
use skynet.Crypt.Des.{des_crypt, reverse_keys}
use skynet.Crypt.Des.Keys.{des_main_ks}

abbrev pub padding_mode_count : ℕ
padding_mode_count = 2

-- `padding_add_iso7816_4` and `padding_add_pkcs7`, behind the bytes of the last block.
unfoldable pub padding_add_iso7816_4 : List ℕ → List ℕ
padding_add_iso7816_4 src = src ++ 0x80 ∷ replicate (7 - length src) 0

unfoldable pub padding_add_pkcs7 : List ℕ → List ℕ
padding_add_pkcs7 src = src ++ replicate (8 - length src) (8 - length src)

-- The loop of `padding_remove_iso7816_4`.
unfoldable pub skip_zeros : ℕ → ℕ → List ℕ → Option ℕ
skip_zeros zero padding last = some 0
skip_zeros (suc rounds) padding [] = none
skip_zeros (suc rounds) padding (x ∷ last) =
    let rest = skip_zeros rounds (padding + 1) last in
    if x == 0 then rest else if x == 0x80 then some padding else some 0

unfoldable pub padding_remove_iso7816_4 : List ℕ → Option ℕ
padding_remove_iso7816_4 last = skip_zeros 8 1 last

-- The loop of `padding_remove_pkcs7`.
unfoldable pub same_before : ℕ → ℕ → List ℕ → Option ℕ
same_before zero padding last = some padding
same_before (suc rounds) padding [] = none
same_before (suc rounds) padding (x ∷ last) =
    let rest = same_before rounds padding last in if not (x == padding) then some 0 else rest

unfoldable pub padding_remove_pkcs7 : List ℕ → Option ℕ
padding_remove_pkcs7 [] = none
padding_remove_pkcs7 (padding ∷ last) = same_before (padding - 1) padding last

-- `add_padding`: none where it raises an error.
unfoldable pub add_padding : List ℕ → ℕ → Option (List ℕ)
add_padding src mode =
    if leb padding_mode_count mode || leb 8 (length src)
    then none
    else some (if mode == 0 then padding_add_iso7816_4 src else padding_add_pkcs7 src)

-- The loop of both functions over whole blocks.
unfoldable pub crypt_blocks : List (ℕ × ℕ) → ℕ → List ℕ → List ℕ
crypt_blocks sk zero text = []
crypt_blocks sk (suc n) text = des_crypt sk (take 8 text) ++ crypt_blocks sk n (drop 8 text)

unfoldable pub with_tail : List (ℕ × ℕ) → List ℕ → Option (List ℕ) → Outcome
with_tail sk buffer none = raised
with_tail sk buffer (some tail) = returned (buffer ++ des_crypt sk tail)

-- `l_des_encode`. Of 2 ^ 31 bytes on `(int)textsz` is not the size, and of a negative one `memcpy`
-- faults; this stands for all such texts.
unfoldable pub des_encode : List ℕ → List ℕ → ℕ → Outcome
des_encode key text padding_mode =
    let sk = des_main_ks key in
    let n = length text / 8 in
    if not (length key == 8)
    then raised
    else if leb (2 ^ 31) (length text)
    then faulted
    else with_tail sk (crypt_blocks sk n text) (add_padding (drop (8 * n) text) padding_mode)

unfoldable pub without_padding : List ℕ → Option ℕ → Outcome
without_padding buffer none = faulted
without_padding buffer (some padding) =
    if leb padding 0 || ltb 8 padding
    then raised
    else returned (take (length buffer - padding) buffer)

-- `l_des_decode`, whose int `i` overflows on texts as long as these.
unfoldable pub des_decode : List ℕ → List ℕ → ℕ → Outcome
des_decode key text padding_mode =
    let buffer = crypt_blocks (reverse_keys 16 (des_main_ks key)) (length text / 8) text in
    let last = reverse_onto buffer [] in
    let padding =
      if padding_mode == 0 then padding_remove_iso7816_4 last else padding_remove_pkcs7 last in
    if not (length key == 8)
    then raised
    else if not (length text % 8 == 0) || length text == 0
    then raised
    else if leb (2 ^ 31) (length text)
    then faulted
    else if leb padding_mode_count padding_mode
    then raised
    else without_padding buffer padding
