-- ===== src/Crypt/Text/Blocks.antt =====
-- The blocks of a text (luaclib-src/lua-crypt.cpp), encrypted and decrypted.
use Prim.Native.Nat.{bit_or}
use skynet.Base.{
  ℕ, zero, suc, ◌+◌, ◌*◌, ◌%◌, ◌^◌, ◌≤◌, ◌<◌, ◌≡◌, refl, sym, ap, ap₂, ◌∙◌, arith, List, [], ◌∷◌,
  ◌++◌, length, take, drop, length-append,
}
use skynet.Base.Words.{or_sum}
use skynet.Crypt.Bytes.{IsBytes, split_eight}
use skynet.Crypt.Des.{get_uint32, put_uint32, des_crypt, crypt_words, reverse_keys, shl, shr}
use skynet.Crypt.Des.Steps.{AreWords}
use skynet.Crypt.Des.Cipher.{crypt_words-AreWords, crypt_words-reverse_keys}
use skynet.Crypt.Text.{crypt_blocks}

get_uint32_lem :
    (a b c d : ℕ)
    → a < 256
    → b < 256
    → c < 256
    → d < 256
    → get_uint32 a b c d ≡ a * 2 ^ 24 + b * 2 ^ 16 + c * 2 ^ 8 + d
unfolding get_uint32
get_uint32_lem a b c d p q r s =
    let e₁ : bit_or (shl c 8) d ≡ c * 2 ^ 8 + d =
      ap (λ x. bit_or x d) (omega arith) ∙ or_sum 8 c d (omega arith) in
    let e₂ : bit_or (shl b 16) (c * 2 ^ 8 + d) ≡ b * 2 ^ 16 + (c * 2 ^ 8 + d) =
      ap (λ x. bit_or x (c * 2 ^ 8 + d)) (omega arith)
      ∙ or_sum 16 b (c * 2 ^ 8 + d) (omega arith) in
    let e₃ : bit_or (shl a 24) (b * 2 ^ 16 + (c * 2 ^ 8 + d))
        ≡ a * 2 ^ 24 + (b * 2 ^ 16 + (c * 2 ^ 8 + d)) =
      ap (λ x. bit_or x (b * 2 ^ 16 + (c * 2 ^ 8 + d))) (omega arith)
      ∙ or_sum 24 a (b * 2 ^ 16 + (c * 2 ^ 8 + d)) (omega arith) in
    ap (bit_or (shl a 24)) (ap (bit_or (shl b 16)) e₁ ∙ e₂) ∙ e₃ ∙ omega arith

get_uint32-put_uint32 :
    (n : ℕ)
    → n < 2 ^ 32
    → get_uint32 (shr n 24 % 256) (shr n 16 % 256) (shr n 8 % 256) (n % 256) ≡ n
get_uint32-put_uint32 n lt =
    get_uint32_lem (shr n 24 % 256) (shr n 16 % 256) (shr n 8 % 256) (n % 256) (omega arith)
      (omega arith) (omega arith) (omega arith)
    ∙ omega arith

put_uint32-get_uint32 :
    (a b c d : ℕ)
    → a < 256
    → b < 256
    → c < 256
    → d < 256
    → put_uint32 (get_uint32 a b c d) ≡ a ∷ b ∷ c ∷ d ∷ []
unfolding put_uint32
put_uint32-get_uint32 a b c d p q r s = rw (get_uint32_lem a b c d p q r s) (
    ap₂ ◌∷◌ (omega arith)
      (ap₂ ◌∷◌ (omega arith) (ap₂ ◌∷◌ (omega arith) (ap₂ ◌∷◌ (omega arith) refl))))

-- What comes back when a block of eight bytes is encrypted and decrypted.
des_crypt-reverse_keys :
    (sk : List (ℕ × ℕ)) (a b c d e f g h : ℕ)
    → let text = a ∷ b ∷ c ∷ d ∷ e ∷ f ∷ g ∷ h ∷ [] in
      IsBytes text → des_crypt (reverse_keys (length sk) sk) (des_crypt sk text) ≡ text
unfolding des_crypt put_uint32
des_crypt-reverse_keys sk a b c d e f g h (p, (q, (r, (s, (t, (u, (v, (w, _)))))))) =
    let x = get_uint32 a b c d in
    let y = get_uint32 e f g h in
    let words : AreWords (x, y) = (
      omega (arith, get_uint32_lem a b c d p q r s),
      omega (arith, get_uint32_lem e f g h t u v w),
    ) in
    let z = crypt_words sk (x, y) in
    let z-words = crypt_words-AreWords sk (x, y) words in
    let write : ℕ × ℕ → List ℕ = λ o. put_uint32 o.0 ++ put_uint32 o.1 in
    ap (λ o. write (crypt_words (reverse_keys (length sk) sk) o))
      (ap₂ (λ m n. (m, n)) (get_uint32-put_uint32 z.0 z-words.0)
        (get_uint32-put_uint32 z.1 z-words.1))
    ∙ ap write (crypt_words-reverse_keys sk (x, y) words)
    ∙ ap₂ ◌++◌ (put_uint32-get_uint32 a b c d p q r s) (put_uint32-get_uint32 e f g h t u v w)

module _ (sk : List (ℕ × ℕ)) where
  -- The n blocks of a text and a last block come back in their order.
  abbrev pub ComesBack : ℕ → List ℕ → List ℕ → Type 0
  ComesBack n text tail =
      crypt_blocks (reverse_keys (length sk) sk) (suc n)
        (crypt_blocks sk n text ++ des_crypt sk tail)
      ≡ take (8 * n) text ++ tail

  last-ComesBack :
      (a b c d e f g h : ℕ) (rest : List ℕ)
      → let tail = a ∷ b ∷ c ∷ d ∷ e ∷ f ∷ g ∷ h ∷ rest in
        length tail ≡ 8
        → IsBytes tail
        → crypt_blocks (reverse_keys (length sk) sk) 1 (des_crypt sk tail) ≡ tail
  unfolding crypt_blocks des_crypt put_uint32
  last-ComesBack a b c d e f g h [] eq bs =
      ap (λ x. x ++ []) (des_crypt-reverse_keys sk a b c d e f g h bs)
  last-ComesBack a b c d e f g h (x ∷ rest) eq bs = absurd (omega arith)

  next-ComesBack :
      (n : ℕ) (tail : List ℕ)
      → ((text : List ℕ) → 8 * n ≤ length text → IsBytes text → ComesBack n text tail)
      → (a b c d e f g h : ℕ) (rest : List ℕ)
      → let text = a ∷ b ∷ c ∷ d ∷ e ∷ f ∷ g ∷ h ∷ rest in
        8 * suc n ≤ length text → IsBytes text → ComesBack (suc n) text tail
  unfolding crypt_blocks des_crypt put_uint32
  next-ComesBack n tail ih a b c d e f g h rest le (p, (q, (r, (s, (t, (u, (v, (w, more)))))))) =
      let eight_more : 8 * suc n ≡ suc (suc (suc (suc (suc (suc (suc (suc (8 * n)))))))) =
        omega arith in
      ap₂ ◌++◌
        (des_crypt-reverse_keys sk a b c d e f g h (p, (q, (r, (s, (t, (u, (v, (w, tt)))))))))
        (ih rest (omega arith) more)
      ∙ ap (λ m. take m (a ∷ b ∷ c ∷ d ∷ e ∷ f ∷ g ∷ h ∷ rest) ++ tail) (sym eight_more)

  pub blocks-ComesBack :
      (n : ℕ) (tail : List ℕ)
      → IsBytes tail
      → length tail ≡ 8
      → (text : List ℕ) → 8 * n ≤ length text
      → IsBytes text
      → ComesBack n text tail
  unfolding crypt_blocks
  blocks-ComesBack zero tail bs eight text le ts =
      split_eight
        (λ tail.
          length tail ≡ 8
          → IsBytes tail
          → crypt_blocks (reverse_keys (length sk) sk) 1 (des_crypt sk tail) ≡ tail)
        (λ a b c d e f g h rest. last-ComesBack a b c d e f g h rest) tail (omega arith) eight bs
  blocks-ComesBack (suc n) tail bs eight text le ts =
      split_eight (λ text. 8 * suc n ≤ length text → IsBytes text → ComesBack (suc n) text tail)
        (next-ComesBack n tail (blocks-ComesBack n tail bs eight)) text (omega arith) le ts

  length-des_crypt :
      (a b c d e f g h : ℕ) → length (des_crypt sk (a ∷ b ∷ c ∷ d ∷ e ∷ f ∷ g ∷ h ∷ [])) ≡ 8
  unfolding des_crypt put_uint32
  length-des_crypt a b c d e f g h = refl

  pub length-crypt_blocks :
      (n : ℕ) (text : List ℕ) → 8 * n ≤ length text → length (crypt_blocks sk n text) ≡ 8 * n
  unfolding crypt_blocks
  length-crypt_blocks zero text le = omega arith
  length-crypt_blocks (suc n) text le =
      split_eight
        (λ text.
          8 * suc n ≤ length text
          → length (des_crypt sk (take 8 text) ++ crypt_blocks sk n (drop 8 text)) ≡ 8 * suc n)
        (λ a b c d e f g h rest le.
          length-append (des_crypt sk (a ∷ b ∷ c ∷ d ∷ e ∷ f ∷ g ∷ h ∷ [])) (crypt_blocks sk n rest)
          ∙ omega
              (arith, length-des_crypt a b c d e f g h, length-crypt_blocks n rest (omega arith)))
        text (omega arith) le

  pub length-one_block : (tail : List ℕ) → length tail ≡ 8 → length (des_crypt sk tail) ≡ 8
  length-one_block tail eight =
      split_eight (λ tail. length tail ≡ 8 → length (des_crypt sk tail) ≡ 8) exact tail
        (omega arith) eight
    where
      exact :
          (a b c d e f g h : ℕ) (rest : List ℕ)
          → length (a ∷ b ∷ c ∷ d ∷ e ∷ f ∷ g ∷ h ∷ rest) ≡ 8
          → length (des_crypt sk (a ∷ b ∷ c ∷ d ∷ e ∷ f ∷ g ∷ h ∷ rest)) ≡ 8
      exact a b c d e f g h [] eq = length-des_crypt a b c d e f g h
      exact a b c d e f g h (x ∷ rest) eq = absurd (omega arith)
