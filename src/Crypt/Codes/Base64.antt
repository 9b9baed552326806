-- ===== src/Crypt/Codes/Base64.antt =====
-- Base64 (luaclib-src/lua-crypt.cpp): reading back what was written.
use Prim.Native.Nat.{bit_and, bit_or}
use skynet.Base.{
  leb, false, ℕ, zero, suc, ◌+◌, ◌*◌, ◌/◌, ◌%◌, ◌^◌, ◌<◌, ◌≡◌, refl, ap, ap₂, ◌∙◌, arith, some,
  List, [], ◌∷◌, ◌++◌, length, ◌==◌, ==_iff, true, false, bit_and_mask, holds_below,
  holds_below_lem, ◌>>=◌,
}
use skynet.Base.Words.{or_sum}
use skynet.Crypt.{returned}
use skynet.Crypt.Bytes.{IsBytes}
use skynet.Crypt.Des.{shl, shr}
use skynet.Crypt.Codes.{
  sign, equals_sign, not_a_sign, padding_sign, b64index, encode_groups, base64_encode, read_signs,
  sign_bytes, group_bytes, decode_groups, base64_decode, outcome,
}

sign_table : holds_below 64 (λ v. b64index (sign v) == v) ≡ true
unfolding b64index
sign_table = refl

b64index-sign : (v : ℕ) → v < 64 → b64index (sign v) ≡ v
b64index-sign v lt =
    (==_iff _ v).0 (holds_below_lem 64 (λ v. b64index (sign v) == v) sign_table v lt)

read_signs-sign :
    (v : ℕ) (text : List ℕ) (need padding : ℕ) (c : List ℕ)
    → v < 64
    → read_signs (sign v ∷ text) (suc need) padding c ≡ read_signs text need padding (c ++ v ∷ [])
unfolding read_signs
read_signs-sign v text need padding c lt =
    let e₁ : (v == not_a_sign) ≡ false = ground arith in
    let e₂ : (v == padding_sign) ≡ false = ground arith in
    rw (read_signs, b64index-sign v lt, e₁, e₂) refl

read_signs-equals :
    (text : List ℕ) (need padding : ℕ) (c : List ℕ)
    → read_signs (equals_sign ∷ text) (suc need) padding c
      ≡ read_signs text need (padding + 1) (c ++ padding_sign ∷ [])
unfolding read_signs b64index
read_signs-equals text need padding c = refl

read_signs-done :
    (text : List ℕ) (padding : ℕ) (c : List ℕ)
    → read_signs text 0 padding c ≡ some (padding, c, text)
unfolding read_signs
read_signs-done [] padding c = refl
read_signs-done (x ∷ text) padding c = refl

-- The numbers that the encoder takes signs for, as quotients and remainders.
low_six : (x : ℕ) → bit_and x 0x3f ≡ x % 64
low_six x = bit_and_mask 6 x

join_two : (a b : ℕ) → a < 256 → b < 256 → bit_or (shl a 8) b ≡ a * 256 + b
join_two a b p q = ap (λ x. bit_or x b) (omega arith) ∙ or_sum 8 a b (omega arith)

join_three :
    (a b c : ℕ)
    → a < 256
    → b < 256
    → c < 256
    → bit_or (bit_or (shl a 16) (shl b 8)) c ≡ a * 65536 + b * 256 + c
join_three a b c p q r =
    let first : bit_or (shl a 16) (shl b 8) ≡ (a * 256 + b) * 2 ^ 8 =
      ap (λ x. bit_or x (shl b 8)) (omega arith)
      ∙ or_sum 16 a (shl b 8) (omega arith)
      ∙ omega arith in
    ap (λ x. bit_or x c) first ∙ or_sum 8 (a * 256 + b) c (omega arith) ∙ omega arith

-- The three bytes of four signs.
sign_bytes_full :
    (a b c : ℕ)
    → a < 256
    → b < 256
    → c < 256
    → let v = a * 65536 + b * 256 + c in
      sign_bytes 0 (v / 2 ^ 18) (v / 2 ^ 12 % 64) (v / 2 ^ 6 % 64) (v % 64) ≡ some (a ∷ b ∷ c ∷ [])
unfolding sign_bytes
sign_bytes_full a b c p q r =
    let v : ℕ = a * 65536 + b * 256 + c in
    let e₁ : bit_or (shl (v / 2 ^ 18) 18) (shl (v / 2 ^ 12 % 64) 12) ≡ v / 2 ^ 12 * 2 ^ 12 =
      ap (λ x. bit_or x (shl (v / 2 ^ 12 % 64) 12)) (omega arith)
      ∙ or_sum 18 (v / 2 ^ 18) (shl (v / 2 ^ 12 % 64) 12) (omega arith)
      ∙ omega arith in
    let e₂ : bit_or (v / 2 ^ 12 * 2 ^ 12) (shl (v / 2 ^ 6 % 64) 6) ≡ v / 2 ^ 6 * 2 ^ 6 =
      or_sum 12 (v / 2 ^ 12) (shl (v / 2 ^ 6 % 64) 6) (omega arith) ∙ omega arith in
    let e₃ : bit_or (v / 2 ^ 6 * 2 ^ 6) (v % 64) ≡ v =
      or_sum 6 (v / 2 ^ 6) (v % 64) (omega arith) ∙ omega arith in
    let whole =
      ap (λ x. bit_or x (v % 64)) (ap (λ x. bit_or x (shl (v / 2 ^ 6 % 64) 6)) e₁ ∙ e₂) ∙ e₃ in
    let byte : (x : ℕ) → bit_and x 0xff ≡ x % 256 = bit_and_mask 8 in
    rw (whole, byte (shr v 8), byte v)
      (ap some (ap₂ ◌∷◌ (omega arith) (ap₂ ◌∷◌ (omega arith) (ap₂ ◌∷◌ (omega arith) refl))))

sign_bytes_two :
    (a b : ℕ)
    → a < 256
    → b < 256
    → let v = a * 256 + b in
      sign_bytes 1 (v / 2 ^ 10) (v / 2 ^ 4 % 64) (v % 16 * 4) padding_sign ≡ some (a ∷ b ∷ [])
unfolding sign_bytes
sign_bytes_two a b p q =
    let v : ℕ = a * 256 + b in
    let e₁ : bit_or (shl (v / 2 ^ 10) 10) (shl (v / 2 ^ 4 % 64) 4) ≡ v / 2 ^ 4 * 2 ^ 4 =
      ap (λ x. bit_or x (shl (v / 2 ^ 4 % 64) 4)) (omega arith)
      ∙ or_sum 10 (v / 2 ^ 10) (shl (v / 2 ^ 4 % 64) 4) (omega arith)
      ∙ omega arith in
    let e₂ : bit_or (v / 2 ^ 4 * 2 ^ 4) (shr (v % 16 * 4) 2) ≡ v =
      or_sum 4 (v / 2 ^ 4) (shr (v % 16 * 4) 2) (omega arith) ∙ omega arith in
    let whole = ap (λ x. bit_or x (shr (v % 16 * 4) 2)) e₁ ∙ e₂ in
    let low : bit_and (v % 16 * 4) 3 ≡ 0 = bit_and_mask 2 (v % 16 * 4) ∙ omega arith in
    rw (whole, low, bit_and_mask 8 v) (ap some (ap₂ ◌∷◌ (omega arith) (ap₂ ◌∷◌ (omega arith) refl)))

sign_bytes_one :
    (a : ℕ)
    → a < 256
    → sign_bytes 2 (a / 2 ^ 2) (a % 4 * 16) padding_sign padding_sign ≡ some (a ∷ [])
unfolding sign_bytes
sign_bytes_one a p =
    let whole : bit_or (shl (a / 2 ^ 2) 2) (shr (a % 4 * 16) 4) ≡ a =
      ap (λ x. bit_or x (shr (a % 4 * 16) 4)) (omega arith)
      ∙ or_sum 2 (a / 2 ^ 2) (shr (a % 4 * 16) 4) (omega arith)
      ∙ omega arith in
    let low : bit_and (a % 4 * 16) 0xf ≡ 0 = bit_and_mask 4 (a % 4 * 16) ∙ omega arith in
    rw (whole, low) (ap some (ap₂ ◌∷◌ (omega arith) refl))

-- What the encoder writes, in quotients and remainders.
encode_three :
    (a b c : ℕ) (text : List ℕ)
    → a < 256
    → b < 256
    → c < 256
    → let v = a * 65536 + b * 256 + c in
      encode_groups (a ∷ b ∷ c ∷ text)
      ≡ sign (v / 2 ^ 18)
        ∷ sign (v / 2 ^ 12 % 64)
        ∷ sign (v / 2 ^ 6 % 64)
        ∷ sign (v % 64)
        ∷ encode_groups text
unfolding encode_groups
encode_three a b c text p q r =
    let v : ℕ = a * 65536 + b * 256 + c in
    let low : (x : ℕ) → bit_and x 0x3f ≡ x % 64 = low_six in
    rw (encode_groups, join_three a b c p q r, low (shr v 12), low (shr v 6), low v) refl

encode_two :
    (a b : ℕ)
    → a < 256
    → b < 256
    → let v = a * 256 + b in
      encode_groups (a ∷ b ∷ [])
      ≡ sign (v / 2 ^ 10) ∷ sign (v / 2 ^ 4 % 64) ∷ sign (v % 16 * 4) ∷ equals_sign ∷ []
unfolding encode_groups
encode_two a b p q =
    let v : ℕ = a * 256 + b in
    let last : shl (v % 2 ^ 4) 2 ≡ v % 16 * 4 = omega arith in
    rw (encode_groups, join_two a b p q, low_six (shr v 4), bit_and_mask 4 v)
      (ap (λ z. sign (v / 2 ^ 10) ∷ sign (v / 2 ^ 4 % 64) ∷ sign z ∷ equals_sign ∷ []) last)

encode_one :
    (a : ℕ)
    → a < 256
    → encode_groups (a ∷ []) ≡ sign (a / 2 ^ 2) ∷ sign (a % 4 * 16) ∷ equals_sign ∷ equals_sign ∷ []
unfolding encode_groups
encode_one a p =
    let last : shl (a % 2 ^ 2) 4 ≡ a % 4 * 16 = omega arith in
    rw (encode_groups, bit_and_mask 2 a)
      (ap (λ z. sign (a / 2 ^ 2) ∷ sign z ∷ equals_sign ∷ equals_sign ∷ []) last)

-- A group whose four signs give `bytes`.
decode_group :
    (rounds : ℕ) (x : ℕ) (text : List ℕ) (padding c₀ c₁ c₂ c₃ : ℕ) (left bytes : List ℕ)
    → read_signs (x ∷ text) 4 0 [] ≡ some (padding, c₀ ∷ c₁ ∷ c₂ ∷ c₃ ∷ [], left)
    → sign_bytes padding c₀ c₁ c₂ c₃ ≡ some bytes
    → decode_groups (suc rounds) (x ∷ text)
      ≡ (decode_groups rounds left >>= λ more. some (bytes ++ more))
unfolding decode_groups group_bytes
decode_group rounds x text padding c₀ c₁ c₂ c₃ left bytes e₁ e₂ = rw (e₁, e₂) refl

groups_back :
    (rounds : ℕ) (text : List ℕ)
    → IsBytes text
    → length text < rounds
    → decode_groups rounds (encode_groups text) ≡ some text
unfolding encode_groups decode_groups
groups_back zero text bytes lt = ground arith
groups_back (suc rounds) [] bytes lt = refl
groups_back (suc zero) (a ∷ text) bytes lt = ground arith
groups_back (suc (suc rounds)) (a ∷ []) (p, _) lt =
    let v₁ : a / 2 ^ 2 < 64 = omega arith in
    let v₂ : a % 4 * 16 < 64 = omega arith in
    let read =
      read_signs-sign (a / 2 ^ 2) _ 3 0 [] v₁
      ∙ read_signs-sign (a % 4 * 16) _ 2 0 _ v₂
      ∙ read_signs-equals _ 1 0 _
      ∙ read_signs-equals _ 0 1 _
      ∙ read_signs-done [] 2 _ in
    ap (decode_groups (suc (suc rounds))) (encode_one a p)
    ∙ decode_group (suc rounds) _ _ 2 _ _ _ _ [] _ read (sign_bytes_one a p)
groups_back (suc (suc rounds)) (a ∷ b ∷ []) (p, (q, _)) lt =
    let v : ℕ = a * 256 + b in
    let v₁ : v / 2 ^ 10 < 64 = omega arith in
    let v₂ : v / 2 ^ 4 % 64 < 64 = omega arith in
    let v₃ : v % 16 * 4 < 64 = omega arith in
    let read =
      read_signs-sign (v / 2 ^ 10) _ 3 0 [] v₁
      ∙ read_signs-sign (v / 2 ^ 4 % 64) _ 2 0 _ v₂
      ∙ read_signs-sign (v % 16 * 4) _ 1 0 _ v₃
      ∙ read_signs-equals _ 0 0 _
      ∙ read_signs-done [] 1 _ in
    ap (decode_groups (suc (suc rounds))) (encode_two a b p q)
    ∙ decode_group (suc rounds) _ _ 1 _ _ _ _ [] _ read (sign_bytes_two a b p q)
groups_back (suc (suc rounds)) (a ∷ b ∷ c ∷ text) (p, (q, (r, bytes))) lt =
    let v : ℕ = a * 65536 + b * 256 + c in
    let v₁ : v / 2 ^ 18 < 64 = omega arith in
    let v₂ : v / 2 ^ 12 % 64 < 64 = omega arith in
    let v₃ : v / 2 ^ 6 % 64 < 64 = omega arith in
    let v₄ : v % 64 < 64 = omega arith in
    let read =
      read_signs-sign (v / 2 ^ 18) _ 3 0 [] v₁
      ∙ read_signs-sign (v / 2 ^ 12 % 64) _ 2 0 _ v₂
      ∙ read_signs-sign (v / 2 ^ 6 % 64) _ 1 0 _ v₃
      ∙ read_signs-sign (v % 64) _ 0 0 _ v₄
      ∙ read_signs-done (encode_groups text) 0 _ in
    ap (decode_groups (suc (suc rounds))) (encode_three a b c text p q r)
    ∙ decode_group (suc rounds) _ _ 0 _ _ _ _ _ _ read (sign_bytes_full a b c p q r)
    ∙ ap (λ o. o >>= λ more. some (a ∷ b ∷ c ∷ more))
        (groups_back (suc rounds) text bytes (omega arith))

length-encode_groups : (text : List ℕ) → length (encode_groups text) ≡ (length text + 2) / 3 * 4
unfolding encode_groups
length-encode_groups [] = omega arith
length-encode_groups (a ∷ []) = omega arith
length-encode_groups (a ∷ b ∷ []) = omega arith
length-encode_groups (a ∷ b ∷ c ∷ text) = omega (arith, length-encode_groups text)

-- Any bytes whose base64 text has a size that is an int have such a text, and decoding it gives the bytes
-- back.
pub base64_decode-base64_encode :
    (text : List ℕ)
    → IsBytes text
    → (length text + 2) / 3 * 4 < 2 ^ 31
    → (c : List ℕ) × (base64_encode text ≡ returned c) × (base64_decode c ≡ returned text)
unfolding base64_encode base64_decode outcome
base64_decode-base64_encode text bytes small =
    let size = length-encode_groups text in
    let int_text : leb (2 ^ 31) ((length text + 2) / 3 * 4) ≡ false = ground (arith, small) in
    let int_c : leb (2 ^ 31) (length (encode_groups text)) ≡ false = ground (arith, small, size) in
    (
      encode_groups text,
      rw int_text refl,
      rw int_c (
          ap outcome
            (groups_back (suc (length (encode_groups text))) text bytes (omega (arith, size)))),
    )
