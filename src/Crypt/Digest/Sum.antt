-- ===== src/Crypt/Digest/Sum.antt =====
-- The comment above `l_hmac64_md5` in luaclib-src/lua-crypt.cpp: the code is the xor of the two
-- halves of an MD5 sum.
use Prim.Native.Nat.{bit_and, bit_xor, differ, min}
use skynet.Base.{
  ℕ, zero, suc, ◌+◌, ◌-◌, ◌*◌, ◌%◌, ◌^◌, ◌<◌, ◌≡◌, refl, sym, ap, ap₂, ◌∙◌, arith, List, [], ◌∷◌,
  ◌++◌, length, take, drop, replicate,
}
use skynet.Base.Words.{xor-shift}
use skynet.Base.Digits.{digit, digit_bit, digit_ext, digit-bit_and, digit-bit_xor}
use skynet.Crypt.{returned}
use skynet.Crypt.Bytes.{split_eight}
use skynet.Crypt.Codes.{xor_from, xor_str}
use skynet.Crypt.Des.{shr}
use skynet.Crypt.Dh.{word_of}
use skynet.Crypt.Digest.{
  word_bytes, pushqword, Digest, digest_md5, hmac_md5, read_words, code_of, hmac64_md5,
}

-- Words from bytes, four by four.
unfoldable pub words_of : List ℕ → List ℕ
words_of (a ∷ b ∷ c ∷ d ∷ rest) = word_of a b c d ∷ words_of rest
words_of rest = []

-- The MD5 sum of a text of at most 55 bytes, which takes one block (RFC 1321): a byte 0x80, zeros
-- and the length in bits are put behind it, and the block's digest is added to the start.
abbrev pub block_of : List ℕ → List ℕ
block_of text =
    text ++ (0x80 ∷ replicate (55 - length text) 0 ++ word_bytes (length text * 8) ++ word_bytes 0)

abbrev pub sum_bytes : Digest → List ℕ
sum_bytes r =
    word_bytes ((r.a + 0x67452301) % 2 ^ 32)
    ++ word_bytes ((r.b + 0xefcdab89) % 2 ^ 32)
    ++ word_bytes ((r.c + 0x98badcfe) % 2 ^ 32)
    ++ word_bytes ((r.d + 0x10325476) % 2 ^ 32)

unfoldable pub md5_sum : List ℕ → List ℕ
md5_sum text = sum_bytes (digest_md5 (words_of (block_of text)))

min-differ : (x y z : ℕ) → x < 2 → y < 2 → z < 2 → min (differ x y) z ≡ differ (min x z) (min y z)
min-differ zero zero zero p q r = refl
min-differ zero zero (suc zero) p q r = refl
min-differ zero (suc zero) zero p q r = refl
min-differ zero (suc zero) (suc zero) p q r = refl
min-differ (suc zero) zero zero p q r = refl
min-differ (suc zero) zero (suc zero) p q r = refl
min-differ (suc zero) (suc zero) zero p q r = refl
min-differ (suc zero) (suc zero) (suc zero) p q r = refl
min-differ (suc (suc x)) y z p q r = absurd (omega arith)
min-differ zero (suc (suc y)) z p q r = absurd (omega arith)
min-differ (suc zero) (suc (suc y)) z p q r = absurd (omega arith)
min-differ zero zero (suc (suc z)) p q r = absurd (omega arith)
min-differ zero (suc zero) (suc (suc z)) p q r = absurd (omega arith)
min-differ (suc zero) zero (suc (suc z)) p q r = absurd (omega arith)
min-differ (suc zero) (suc zero) (suc (suc z)) p q r = absurd (omega arith)

mask-xor : (a b m : ℕ) → bit_and (bit_xor a b) m ≡ bit_xor (bit_and a m) (bit_and b m)
mask-xor a b m = digit_ext (bit_and (bit_xor a b) m) (bit_xor (bit_and a m) (bit_and b m)) (λ k.
    digit-bit_and k (bit_xor a b) m
    ∙ ap (λ x. min x (digit k m)) (digit-bit_xor k a b)
    ∙ min-differ (digit k a) (digit k b) (digit k m) (digit_bit k a) (digit_bit k b) (digit_bit k m)
    ∙ sym (ap₂ differ (digit-bit_and k a m) (digit-bit_and k b m))
    ∙ sym (digit-bit_xor k (bit_and a m) (bit_and b m)))

byte-xor :
    (k a b : ℕ)
    → bit_and (shr (bit_xor a b) k) 0xff ≡ bit_xor (bit_and (shr a k) 0xff) (bit_and (shr b k) 0xff)
byte-xor k a b = ap (λ x. bit_and x 0xff) (xor-shift k a b) ∙ mask-xor (shr a k) (shr b k) 0xff

-- The bytes of two words, one by one.
abbrev xor_bytes : ℕ → ℕ → List ℕ → List ℕ
xor_bytes p q rest =
    bit_xor (bit_and p 0xff) (bit_and q 0xff)
    ∷ bit_xor (bit_and (shr p 8) 0xff) (bit_and (shr q 8) 0xff)
    ∷ bit_xor (bit_and (shr p 16) 0xff) (bit_and (shr q 16) 0xff)
    ∷ bit_xor (bit_and (shr p 24) 0xff) (bit_and (shr q 24) 0xff)
    ∷ rest

word_bytes-xor : (p q : ℕ) (rest : List ℕ) → word_bytes (bit_xor p q) ++ rest ≡ xor_bytes p q rest
word_bytes-xor p q rest =
    ap₂ ◌∷◌ (mask-xor p q 0xff)
      (ap₂ ◌∷◌ (byte-xor 8 p q) (ap₂ ◌∷◌ (byte-xor 16 p q) (ap₂ ◌∷◌ (byte-xor 24 p q) refl)))

halves_lem :
    (a b c d : ℕ)
    → let m = word_bytes a ++ word_bytes b ++ word_bytes c ++ word_bytes d in
      xor_str (take 8 m) (drop 8 m) ≡ returned (xor_bytes a c (xor_bytes b d []))
unfolding xor_str xor_from
halves_lem a b c d = refl

pushqword-xor :
    (a b c d : ℕ) → pushqword (bit_xor a c, bit_xor b d) ≡ xor_bytes a c (xor_bytes b d [])
pushqword-xor a b c d =
    word_bytes-xor a c (word_bytes (bit_xor b d)) ∙ ap (xor_bytes a c) (word_bytes-xor b d [])

abbrev three_times : List ℕ → List ℕ → List ℕ
three_times x y = x ++ (y ++ (x ++ (y ++ (x ++ y))))

-- With both strings of eight bytes.
abbrev IsSum : List ℕ → List ℕ → Type 0
IsSum x y =
    length x ≡ 8
    → length y ≡ 8
    → let m = md5_sum (three_times x y) in hmac64_md5 x y ≡ xor_str (take 8 m) (drop 8 m)

explicit :
    (a b c d e f g h : ℕ) (rest : List ℕ) (a' b' c' d' e' f' g' h' : ℕ) (rest' : List ℕ)
    → IsSum (a ∷ b ∷ c ∷ d ∷ e ∷ f ∷ g ∷ h ∷ rest) (a' ∷ b' ∷ c' ∷ d' ∷ e' ∷ f' ∷ g' ∷ h' ∷ rest')
unfolding hmac64_md5 read_words code_of hmac_md5 md5_sum words_of word_of
explicit a b c d e f g h (x ∷ rest) a' b' c' d' e' f' g' h' rest' p q = absurd (omega arith)
explicit a b c d e f g h [] a' b' c' d' e' f' g' h' (x ∷ rest') p q = absurd (omega arith)
explicit a b c d e f g h [] a' b' c' d' e' f' g' h' [] p q =
    let x₀ = word_of a b c d in
    let x₁ = word_of e f g h in
    let y₀ = word_of a' b' c' d' in
    let y₁ = word_of e' f' g' h' in
    let quarter : List ℕ = x₀ ∷ x₁ ∷ y₀ ∷ y₁ ∷ [] in
    let last : List ℕ = 0x80 ∷ 0 ∷ 384 ∷ 0 ∷ [] in
    let r = digest_md5 (quarter ++ (quarter ++ (quarter ++ last))) in
    ap returned (
      pushqword-xor ((r.a + 0x67452301) % 2 ^ 32) ((r.b + 0xefcdab89) % 2 ^ 32)
        ((r.c + 0x98badcfe) % 2 ^ 32) ((r.d + 0x10325476) % 2 ^ 32))
    ∙ sym (
        halves_lem ((r.a + 0x67452301) % 2 ^ 32) ((r.b + 0xefcdab89) % 2 ^ 32)
          ((r.c + 0x98badcfe) % 2 ^ 32) ((r.d + 0x10325476) % 2 ^ 32))

-- For two strings of eight bytes `l_hmac64_md5` returns what its comment says: the xor of the two
-- halves of the MD5 sum of the strings, one after the other, three times.
pub hmac64_md5-md5_sum :
    (x y : List ℕ)
    → length x ≡ 8
    → length y ≡ 8
    → let m = md5_sum (x ++ (y ++ (x ++ (y ++ (x ++ y))))) in
      hmac64_md5 x y ≡ xor_str (take 8 m) (drop 8 m)
hmac64_md5-md5_sum x y p q =
    split_eight (λ x. IsSum x y)
      (λ a b c d e f g h rest.
        split_eight (IsSum (a ∷ b ∷ c ∷ d ∷ e ∷ f ∷ g ∷ h ∷ rest)) (explicit a b c d e f g h rest) y
          (omega arith))
      x (omega arith) p q
