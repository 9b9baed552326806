-- ===== src/Crypt/Digest.antt =====
-- The digests and authentication codes of luaclib-src/lua-crypt.cpp. A uint32_t is taken modulo 2 ^
-- 32.
pub mod Sum
use Prim.Native.Nat.{bit_and, bit_or, bit_xor}
use skynet.Base.{
  ℕ, zero, suc, ◌+◌, ◌-◌, ◌*◌, ◌/◌, ◌%◌, ◌^◌, Option, none, some, List, [], ◌∷◌, ◌++◌, get_or, ltb,
  if◌then◌else◌,
}
use skynet.Crypt.{Outcome, returned, raised}
use skynet.Crypt.Des.{shl, shr}
use skynet.Crypt.Dh.{word_of}

-- The two words of `Hash`.
unfoldable pub hash_text : List ℕ → ℕ → ℕ → ℕ × ℕ
hash_text [] djb_hash js_hash = (djb_hash, js_hash)
hash_text (c ∷ str) djb_hash js_hash =
    hash_text str ((djb_hash + (shl djb_hash 5 + c) % 2 ^ 32) % 2 ^ 32)
      (bit_xor js_hash ((shl js_hash 5 + c + shr js_hash 2) % 2 ^ 32))

-- The bytes of a word, the lowest first.
abbrev pub word_bytes : ℕ → List ℕ
word_bytes n =
    bit_and n 0xff ∷ bit_and (shr n 8) 0xff ∷ bit_and (shr n 16) 0xff ∷ bit_and (shr n 24) 0xff ∷ []

-- `pushqword`
abbrev pub pushqword : ℕ × ℕ → List ℕ
pushqword result = word_bytes result.0 ++ word_bytes result.1

-- `l_hash_key`
unfoldable pub hash_key : List ℕ → List ℕ
hash_key key = pushqword (hash_text key 5381 1315423911)

-- k and r
abbrev pub md5_table : List ℕ
md5_table =
    0xd76aa478 ∷ 0xe8c7b756 ∷ 0x242070db ∷ 0xc1bdceee ∷ 0xf57c0faf ∷ 0x4787c62a ∷ 0xa8304613
    ∷ 0xfd469501 ∷ 0x698098d8 ∷ 0x8b44f7af ∷ 0xffff5bb1 ∷ 0x895cd7be ∷ 0x6b901122 ∷ 0xfd987193
    ∷ 0xa679438e ∷ 0x49b40821 ∷ 0xf61e2562 ∷ 0xc040b340 ∷ 0x265e5a51 ∷ 0xe9b6c7aa ∷ 0xd62f105d
    ∷ 0x02441453 ∷ 0xd8a1e681 ∷ 0xe7d3fbc8 ∷ 0x21e1cde6 ∷ 0xc33707d6 ∷ 0xf4d50d87 ∷ 0x455a14ed
    ∷ 0xa9e3e905 ∷ 0xfcefa3f8 ∷ 0x676f02d9 ∷ 0x8d2a4c8a ∷ 0xfffa3942 ∷ 0x8771f681 ∷ 0x6d9d6122
    ∷ 0xfde5380c ∷ 0xa4beea44 ∷ 0x4bdecfa9 ∷ 0xf6bb4b60 ∷ 0xbebfbc70 ∷ 0x289b7ec6 ∷ 0xeaa127fa
    ∷ 0xd4ef3085 ∷ 0x04881d05 ∷ 0xd9d4d039 ∷ 0xe6db99e5 ∷ 0x1fa27cf8 ∷ 0xc4ac5665 ∷ 0xf4292244
    ∷ 0x432aff97 ∷ 0xab9423a7 ∷ 0xfc93a039 ∷ 0x655b59c3 ∷ 0x8f0ccc92 ∷ 0xffeff47d ∷ 0x85845dd1
    ∷ 0x6fa87e4f ∷ 0xfe2ce6e0 ∷ 0xa3014314 ∷ 0x4e0811a1 ∷ 0xf7537e82 ∷ 0xbd3af235 ∷ 0x2ad7d2bb
    ∷ 0xeb86d391 ∷ []

abbrev pub md5_shifts : List ℕ
md5_shifts =
    7 ∷ 12 ∷ 17 ∷ 22 ∷ 7 ∷ 12 ∷ 17 ∷ 22 ∷ 7 ∷ 12 ∷ 17 ∷ 22 ∷ 7 ∷ 12 ∷ 17 ∷ 22 ∷ 5 ∷ 9 ∷ 14 ∷ 20 ∷ 5
    ∷ 9 ∷ 14 ∷ 20 ∷ 5 ∷ 9 ∷ 14 ∷ 20 ∷ 5 ∷ 9 ∷ 14 ∷ 20 ∷ 4 ∷ 11 ∷ 16 ∷ 23 ∷ 4 ∷ 11 ∷ 16 ∷ 23 ∷ 4 ∷ 11
    ∷ 16 ∷ 23 ∷ 4 ∷ 11 ∷ 16 ∷ 23 ∷ 6 ∷ 10 ∷ 15 ∷ 21 ∷ 6 ∷ 10 ∷ 15 ∷ 21 ∷ 6 ∷ 10 ∷ 15 ∷ 21 ∷ 6 ∷ 10
    ∷ 15 ∷ 21 ∷ []

-- `~x`
abbrev pub complement : ℕ → ℕ
complement x = bit_xor x 0xFFFFFFFF

-- LEFTROTATE
abbrev pub left_rotate : ℕ → ℕ → ℕ
left_rotate x c = bit_or (shl x c) (shr x (32 - c))

pub record Digest : Type 0 where
  pub a : ℕ
  pub b : ℕ
  pub c : ℕ
  pub d : ℕ

-- f and g in round i.
unfoldable pub md5_mix : ℕ → Digest → ℕ × ℕ
md5_mix i s =
    if ltb i 16
    then (bit_or (bit_and s.b s.c) (bit_and (complement s.b) s.d), i)
    else if ltb i 32
    then (bit_or (bit_and s.d s.b) (bit_and (complement s.d) s.c), (5 * i + 1) % 16)
    else if ltb i 48
    then (bit_xor (bit_xor s.b s.c) s.d, (3 * i + 5) % 16)
    else (bit_xor s.c (bit_or s.b (complement s.d)), 7 * i % 16)

unfoldable pub md5_round : List ℕ → ℕ → Digest → Digest
md5_round w i s =
    let m = md5_mix i s in
    let sum = (s.a + m.0 + get_or md5_table i 0 + get_or w m.1 0) % 2 ^ 32 in
    record {
      a = s.d;
      b = (s.b + left_rotate sum (get_or md5_shifts i 0)) % 2 ^ 32;
      c = s.b;
      d = s.c;
    }

-- The loop of `digest_md5`, from round i on.
unfoldable pub md5_rounds : ℕ → ℕ → List ℕ → Digest → Digest
md5_rounds zero i w s = s
md5_rounds (suc rounds) i w s = md5_rounds rounds (i + 1) w (md5_round w i s)

abbrev pub md5_start : Digest
md5_start = record { a = 0x67452301; b = 0xefcdab89; c = 0x98badcfe; d = 0x10325476 }

unfoldable pub digest_md5 : List ℕ → Digest
digest_md5 w = md5_rounds 64 0 w md5_start

-- `hmac`
unfoldable pub hmac : ℕ × ℕ → ℕ × ℕ → ℕ × ℕ
hmac x y =
    let quarter : List ℕ = x.1 ∷ x.0 ∷ y.1 ∷ y.0 ∷ [] in
    let r = digest_md5 (quarter ++ (quarter ++ (quarter ++ quarter))) in
    (bit_xor r.c r.d, bit_xor r.a r.b)

-- `hmac_md5`
unfoldable pub hmac_md5 : ℕ × ℕ → ℕ × ℕ → ℕ × ℕ
hmac_md5 x y =
    let quarter : List ℕ = x.0 ∷ x.1 ∷ y.0 ∷ y.1 ∷ [] in
    let last : List ℕ = 0x80 ∷ 0 ∷ 384 ∷ 0 ∷ [] in
    let r = digest_md5 (quarter ++ (quarter ++ (quarter ++ last))) in
    (
      bit_xor ((r.a + 0x67452301) % 2 ^ 32) ((r.c + 0x98badcfe) % 2 ^ 32),
      bit_xor ((r.b + 0xefcdab89) % 2 ^ 32) ((r.d + 0x10325476) % 2 ^ 32),
    )

-- Two words from the eight bytes of a string.
unfoldable pub read_words : List ℕ → Option (ℕ × ℕ)
read_words (a ∷ b ∷ c ∷ d ∷ e ∷ f ∷ g ∷ h ∷ []) = some (word_of a b c d, word_of e f g h)
read_words x = none

unfoldable pub code_of : (ℕ × ℕ → ℕ × ℕ → ℕ × ℕ) → Option (ℕ × ℕ) → Option (ℕ × ℕ) → Outcome
code_of code none y = raised
code_of code (some x) none = raised
code_of code (some x) (some y) = returned (pushqword (code x y))

-- `l_hmac64`, `l_hmac64_md5` and `l_hmac_hash`
unfoldable pub hmac64 : List ℕ → List ℕ → Outcome
hmac64 x y = code_of hmac (read_words x) (read_words y)

unfoldable pub hmac64_md5 : List ℕ → List ℕ → Outcome
hmac64_md5 x y = code_of hmac_md5 (read_words x) (read_words y)

unfoldable pub hmac_hash : List ℕ → List ℕ → Outcome
hmac_hash key text = code_of hmac (read_words (hash_key text)) (read_words key)
