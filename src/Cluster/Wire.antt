-- ===== src/Cluster/Wire.antt =====
-- The words of a package in luaclib-src/lua-cluster.cpp.
use Prim.Native.Nat.{bit_and, bit_or}
use skynet.Base.{
  ℕ, ◌+◌, ◌*◌, ◌/◌, ◌%◌, ◌^◌, ◌≤◌, ◌<◌, ◌≡◌, refl, ap, ◌∙◌, arith, bit_and_mask, List, [], ◌∷◌,
  ◌++◌, length, drop, ltb, leb, ◌||◌, ◌==◌, ==_iff, some, true, false, if◌then◌else◌,
}
use skynet.Base.Words.{or_sum, or_comm}
use skynet.Base.Result.{Result, got, invalid, outside, ◌then_do◌}
use skynet.Netpack.Filter.{pack_data}

abbrev pub temp_length : ℕ
temp_length = 0x8200

abbrev pub multi_part : ℕ
multi_part = 0x8000

unfoldable pub fill_uint32 : ℕ → List ℕ
fill_uint32 n =
    bit_and n 0xff
    ∷ bit_and (n / 2 ^ 8) 0xff
    ∷ bit_and (n / 2 ^ 16) 0xff
    ∷ bit_and (n / 2 ^ 24) 0xff
    ∷ []

-- `fill_header` of this size, and the content behind it in a buffer of TEMP_LENGTH bytes.
unfoldable pub in_package : ℕ → List ℕ → Result (List ℕ)
in_package sz content =
    if leb 0x10000 sz || ltb temp_length (length content + 2)
    then outside
    else got (bit_and (sz / 2 ^ 8) 0xff ∷ bit_and sz 0xff ∷ content)

unfoldable pub unpack_uint32 : List ℕ → Result ℕ
unpack_uint32 (a ∷ b ∷ c ∷ d ∷ buf) =
    got (bit_or (bit_or (bit_or a (b * 2 ^ 8)) (c * 2 ^ 16)) (d * 2 ^ 24))
unpack_uint32 buf = outside

or_shifted : (m a b : ℕ) → a < 2 ^ m → bit_or a (b * 2 ^ m) ≡ b * 2 ^ m + a
or_shifted m a b lt = or_comm a (b * 2 ^ m) ∙ or_sum m b a lt

pub unpack_uint32-fill_uint32 :
    (n : ℕ) (rest : List ℕ) → n < 2 ^ 32 → unpack_uint32 (fill_uint32 n ++ rest) ≡ got n
unfolding unpack_uint32 fill_uint32
unpack_uint32-fill_uint32 n rest lt =
    let a : bit_and n 0xff ≡ n % 2 ^ 8 = bit_and_mask 8 n in
    let b : bit_and (n / 2 ^ 8) 0xff ≡ n / 2 ^ 8 % 2 ^ 8 = bit_and_mask 8 (n / 2 ^ 8) in
    let c : bit_and (n / 2 ^ 16) 0xff ≡ n / 2 ^ 16 % 2 ^ 8 = bit_and_mask 8 (n / 2 ^ 16) in
    let d : bit_and (n / 2 ^ 24) 0xff ≡ n / 2 ^ 24 % 2 ^ 8 = bit_and_mask 8 (n / 2 ^ 24) in
    let ab = or_shifted 8 (n % 2 ^ 8) (n / 2 ^ 8 % 2 ^ 8) (omega arith) in
    let abc =
      or_shifted 16 (n / 2 ^ 8 % 2 ^ 8 * 2 ^ 8 + n % 2 ^ 8) (n / 2 ^ 16 % 2 ^ 8) (omega arith) in
    let abcd =
      or_shifted 24 (n / 2 ^ 16 % 2 ^ 8 * 2 ^ 16 + (n / 2 ^ 8 % 2 ^ 8 * 2 ^ 8 + n % 2 ^ 8))
        (n / 2 ^ 24 % 2 ^ 8) (omega arith) in
    rw (a, b, c, d, ab, abc, abcd) (ap got (omega (arith, lt)))

-- The content is that of a package of `pack_data` (luaclib-src/lua-netpack.cpp).
abbrev pub Frames : List ℕ → List ℕ → Type 0
Frames content p = (pack_data content ≡ some p) × (drop 2 p ≡ content)

-- The header has the length of the content.
pub in_package_lem :
    (sz : ℕ) (content : List ℕ)
    → length content ≡ sz
    → sz + 2 ≤ temp_length
    → (p : List ℕ) × (in_package sz content ≡ got p) × Frames content p
unfolding in_package pack_data
in_package_lem sz content e le =
    let small : (leb 0x10000 sz || ltb temp_length (sz + 2)) ≡ false = ground (arith, le) in
    let short : leb 0x10000 sz ≡ false = ground (arith, le) in
    rw (e, small, short) (_, refl, (refl, refl))

-- What a gate takes out of a package: its content, if that is as long as the header says.
abbrev pub content_of : List ℕ → Result (List ℕ)
content_of (hi ∷ lo ∷ content) = if hi * 2 ^ 8 + lo == length content then got content else invalid
content_of p = invalid

pub content_of-in_package :
    (sz : ℕ) (content : List ℕ)
    → length content ≡ sz
    → sz + 2 ≤ temp_length
    → (in_package sz content then_do λ p. content_of p) ≡ got content
unfolding in_package
content_of-in_package sz content e le =
    let small : (leb 0x10000 sz || ltb temp_length (sz + 2)) ≡ false = ground (arith, le) in
    let hi : bit_and (sz / 2 ^ 8) 0xff ≡ sz / 2 ^ 8 % 2 ^ 8 = bit_and_mask 8 (sz / 2 ^ 8) in
    let lo : bit_and sz 0xff ≡ sz % 2 ^ 8 = bit_and_mask 8 sz in
    let whole : (sz / 2 ^ 8 % 2 ^ 8 * 2 ^ 8 + sz % 2 ^ 8 == sz) ≡ true =
      let same : sz / 2 ^ 8 % 2 ^ 8 * 2 ^ 8 + sz % 2 ^ 8 ≡ sz = omega (arith, le) in
      (==_iff (sz / 2 ^ 8 % 2 ^ 8 * 2 ^ 8 + sz % 2 ^ 8) sz).1 same in
    rw (e, small, hi, lo, e, whole) refl
