-- ===== src/Crypt/Codes.antt =====
-- Hex, base64 and the other functions on strings of luaclib-src/lua-crypt.cpp. An int that may be
-- negative is its bit pattern, and what is stored in a char is taken modulo 256.
pub mod Hex
pub mod Base64
pub mod Strings
use Prim.Native.Nat.{bit_and, bit_or, bit_xor}
use skynet.Base.{
  ℕ, zero, suc, ◌+◌, ◌-◌, ◌*◌, ◌/◌, ◌%◌, ◌^◌, Option, none, some, List, [], ◌∷◌, ◌++◌, length,
  get_or, ltb, leb, ◌==◌, ◌||◌, ◌&&◌, not, if◌then◌else◌, ◌>>=◌,
}
use skynet.Crypt.{Outcome, returned, raised, faulted}
use skynet.Crypt.Des.{shl, shr}

-- "0123456789abcdef"
abbrev pub hex : List ℕ
hex = 48 ∷ 49 ∷ 50 ∷ 51 ∷ 52 ∷ 53 ∷ 54 ∷ 55 ∷ 56 ∷ 57 ∷ 97 ∷ 98 ∷ 99 ∷ 100 ∷ 101 ∷ 102 ∷ []

-- `l_to_hex`
unfoldable pub to_hex : List ℕ → List ℕ
to_hex [] = []
to_hex (x ∷ text) = get_or hex (shr x 4) 0 ∷ get_or hex (bit_and x 0xf) 0 ∷ to_hex text

-- HEX, into a uint8_t.
unfoldable pub hex_value : ℕ → ℕ
hex_value c = if leb 48 c && leb c 57 then c - 48 else (c + 256 - 97 + 10) % 256

-- The loop of `l_from_hex`: none where it raises an error.
unfoldable pub from_pairs : List ℕ → Option (List ℕ)
from_pairs [] = some []
from_pairs (c ∷ []) = some []
from_pairs (c ∷ d ∷ text) =
    let hi = hex_value c in
    let low = hex_value d in
    let rest = from_pairs text in
    if ltb 16 hi || ltb 16 low
    then none
    else (rest >>= λ bytes. some (bit_or (shl hi 4) low % 256 ∷ bytes))

unfoldable pub outcome : Option (List ℕ) → Outcome
outcome none = raised
outcome (some bytes) = returned bytes

-- `l_from_hex`
unfoldable pub from_hex : List ℕ → Outcome
from_hex text = if not (bit_and (length text) 1 == 0) then raised else outcome (from_pairs text)

-- "ABCDEFGHIJKLMNOPQRSTUVWXYZabcdefghijklmnopqrstuvwxyz0123456789+/"
abbrev pub encoding : List ℕ
encoding =
    65 ∷ 66 ∷ 67 ∷ 68 ∷ 69 ∷ 70 ∷ 71 ∷ 72 ∷ 73 ∷ 74 ∷ 75 ∷ 76 ∷ 77 ∷ 78 ∷ 79 ∷ 80 ∷ 81 ∷ 82 ∷ 83
    ∷ 84 ∷ 85 ∷ 86 ∷ 87 ∷ 88 ∷ 89 ∷ 90 ∷ 97 ∷ 98 ∷ 99 ∷ 100 ∷ 101 ∷ 102 ∷ 103 ∷ 104 ∷ 105 ∷ 106
    ∷ 107 ∷ 108 ∷ 109 ∷ 110 ∷ 111 ∷ 112 ∷ 113 ∷ 114 ∷ 115 ∷ 116 ∷ 117 ∷ 118 ∷ 119 ∷ 120 ∷ 121 ∷ 122
    ∷ 48 ∷ 49 ∷ 50 ∷ 51 ∷ 52 ∷ 53 ∷ 54 ∷ 55 ∷ 56 ∷ 57 ∷ 43 ∷ 47 ∷ []

-- `encoding[v]` and the byte '='.
abbrev pub sign : ℕ → ℕ
sign v = get_or encoding v 0

abbrev pub equals_sign : ℕ
equals_sign = 61

-- `l_base64_encode`: the loop over groups of three bytes, and the switch on what is left.
unfoldable pub encode_groups : List ℕ → List ℕ
encode_groups [] = []
encode_groups (a ∷ []) =
    sign (shr a 2) ∷ sign (shl (bit_and a 3) 4) ∷ equals_sign ∷ equals_sign ∷ []
encode_groups (a ∷ b ∷ []) =
    let v = bit_or (shl a 8) b in
    sign (shr v 10)
    ∷ sign (bit_and (shr v 4) 0x3f)
    ∷ sign (shl (bit_and v 0xf) 2)
    ∷ equals_sign
    ∷ []
encode_groups (a ∷ b ∷ c ∷ text) =
    let v = bit_or (bit_or (shl a 16) (shl b 8)) c in
    sign (shr v 18)
    ∷ sign (bit_and (shr v 12) 0x3f)
    ∷ sign (bit_and (shr v 6) 0x3f)
    ∷ sign (bit_and v 0x3f)
    ∷ encode_groups text

-- `l_base64_encode`: where `encode_sz` is no int any more, faulted stands for what comes of it.
unfoldable pub base64_encode : List ℕ → Outcome
base64_encode text =
    if leb (2 ^ 31) ((length text + 2) / 3 * 4) then faulted else returned (encode_groups text)

-- -1 and -2
abbrev pub not_a_sign : ℕ
not_a_sign = 2 ^ 32 - 1

abbrev pub padding_sign : ℕ
padding_sign = 2 ^ 32 - 2

abbrev pub decoding : List ℕ
decoding =
    62 ∷ not_a_sign ∷ not_a_sign ∷ not_a_sign ∷ 63 ∷ 52 ∷ 53 ∷ 54 ∷ 55 ∷ 56 ∷ 57 ∷ 58 ∷ 59 ∷ 60 ∷ 61
    ∷ not_a_sign ∷ not_a_sign ∷ not_a_sign ∷ padding_sign ∷ not_a_sign ∷ not_a_sign ∷ not_a_sign ∷ 0
    ∷ 1 ∷ 2 ∷ 3 ∷ 4 ∷ 5 ∷ 6 ∷ 7 ∷ 8 ∷ 9 ∷ 10 ∷ 11 ∷ 12 ∷ 13 ∷ 14 ∷ 15 ∷ 16 ∷ 17 ∷ 18 ∷ 19 ∷ 20 ∷ 21
    ∷ 22 ∷ 23 ∷ 24 ∷ 25 ∷ not_a_sign ∷ not_a_sign ∷ not_a_sign ∷ not_a_sign ∷ not_a_sign
    ∷ not_a_sign ∷ 26 ∷ 27 ∷ 28 ∷ 29 ∷ 30 ∷ 31 ∷ 32 ∷ 33 ∷ 34 ∷ 35 ∷ 36 ∷ 37 ∷ 38 ∷ 39 ∷ 40 ∷ 41
    ∷ 42 ∷ 43 ∷ 44 ∷ 45 ∷ 46 ∷ 47 ∷ 48 ∷ 49 ∷ 50 ∷ 51 ∷ []

unfoldable pub b64index : ℕ → ℕ
b64index c =
    if ltb c 43
    then not_a_sign
    else if leb (length decoding) (c - 43)
    then not_a_sign
    else get_or decoding (c - 43) not_a_sign

-- The inner loop of `l_base64_decode`: the next `need` signs behind those in `c`, the number of '='
-- among them, and the text that is left. none where the text ends before.
unfoldable pub read_signs : List ℕ → ℕ → ℕ → List ℕ → Option (ℕ × List ℕ × List ℕ)
read_signs text zero padding c = some (padding, c, text)
read_signs [] (suc need) padding c = none
read_signs (x ∷ text) (suc need) padding c =
    let k = b64index x in
    let skipped = k == not_a_sign in
    let need' = if skipped then suc need else need in
    let padding' = if k == padding_sign then padding + 1 else padding in
    let c' = if skipped then c else c ++ k ∷ [] in read_signs text need' padding' c'

-- The switch on the number of '=': none where it raises an error.
unfoldable pub sign_bytes : ℕ → ℕ → ℕ → ℕ → ℕ → Option (List ℕ)
sign_bytes zero c₀ c₁ c₂ c₃ =
    let v = bit_or (bit_or (bit_or (shl c₀ 18) (shl c₁ 12)) (shl c₂ 6)) c₃ in
    some (shr v 16 % 256 ∷ bit_and (shr v 8) 0xff ∷ bit_and v 0xff ∷ [])
sign_bytes (suc zero) c₀ c₁ c₂ c₃ =
    let v = bit_or (bit_or (shl c₀ 10) (shl c₁ 4)) (shr c₂ 2) in
    if not (c₃ == padding_sign) || not (bit_and c₂ 3 == 0)
    then none
    else some (shr v 8 % 256 ∷ bit_and v 0xff ∷ [])
sign_bytes (suc (suc zero)) c₀ c₁ c₂ c₃ =
    let v = bit_or (shl c₀ 2) (shr c₁ 4) in
    if not (c₃ == padding_sign) || not (c₂ == padding_sign) || not (bit_and c₁ 0xf == 0)
    then none
    else some (v % 256 ∷ [])
sign_bytes (suc (suc (suc padding))) c₀ c₁ c₂ c₃ = none

unfoldable pub group_bytes : Option (ℕ × List ℕ × List ℕ) → Option (List ℕ × List ℕ)
group_bytes none = none
group_bytes (some (padding, c, text)) =
    sign_bytes padding (get_or c 0 0) (get_or c 1 0) (get_or c 2 0) (get_or c 3 0) >>= λ bytes.
    some (bytes, text)

-- The outer loop of `l_base64_decode`; none also where the rounds do not suffice.
unfoldable pub decode_groups : ℕ → List ℕ → Option (List ℕ)
decode_groups zero text = none
decode_groups (suc rounds) [] = some []
decode_groups (suc rounds) (x ∷ text) =
    group_bytes (read_signs (x ∷ text) 4 0 []) >>= λ (bytes, left).
    decode_groups rounds left >>= λ more. some (bytes ++ more)

-- `l_base64_decode`: a group takes four bytes and more, so there are fewer groups than bytes. On 2 ^ 31 bytes
-- or more its int `i` overflows, for which faulted stands.
unfoldable pub base64_decode : List ℕ → Outcome
base64_decode text =
    if leb (2 ^ 31) (length text) then faulted else outcome (decode_groups (suc (length text)) text)

-- The loop of `l_xor_str`.
unfoldable pub xor_from : ℕ → List ℕ → List ℕ → List ℕ
xor_from i [] s2 = []
xor_from i (x ∷ s1) s2 = bit_xor x (get_or s2 (i % length s2) 0) ∷ xor_from (i + 1) s1 s2

-- `l_xor_str`
unfoldable pub xor_str : List ℕ → List ℕ → Outcome
xor_str s1 s2 = if length s2 == 0 then raised else returned (xor_from 0 s1 s2)

-- `l_random_key`, from the results of its calls of `random`: the loop gives the bytes and their xor.
unfoldable pub random_bytes : List ℕ → ℕ → List ℕ × ℕ
random_bytes [] x = ([], x)
random_bytes (r ∷ rs) x =
    let (tmp, last) = random_bytes rs (bit_xor x (bit_and r 0xff)) in (bit_and r 0xff ∷ tmp, last)

unfoldable pub set_lowest : List ℕ → List ℕ
set_lowest [] = []
set_lowest (x ∷ tmp) = bit_or x 1 ∷ tmp

unfoldable pub random_key : List ℕ → List ℕ
random_key rs = let (tmp, x) = random_bytes rs 0 in if x == 0 then set_lowest tmp else tmp
