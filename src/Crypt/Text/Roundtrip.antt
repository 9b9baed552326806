-- ===== src/Crypt/Text/Roundtrip.antt =====
-- Decoding what was encoded gives the text (luaclib-src/lua-crypt.cpp).
use skynet.Base.{
  ◌^◌, ℕ, zero, suc, ◌+◌, ◌-◌, ◌*◌, ◌/◌, ◌%◌, ◌<◌, ◌≡◌, refl, sym, ap, ap₂, ◌∙◌, arith, List, [],
  ◌∷◌, ◌++◌, length, take, drop, replicate, take-drop, length-drop, length-append, take-append,
  append_assoc, ltb, leb, ◌==◌, true, false,
}
use skynet.Crypt.{returned}
use skynet.Crypt.Bytes.{IsBytes, drop-IsBytes, append-IsBytes, split_eight}
use skynet.Crypt.Des.{des_crypt, reverse_keys}
use skynet.Crypt.Des.Keys.{des_main_ks, subkeys}
use skynet.Crypt.Text.Blocks.{blocks-ComesBack, length-crypt_blocks, length-one_block}
use skynet.Crypt.Text.Padding.{IsPadding, iso7816_4-IsPadding, pkcs7-IsPadding}
use skynet.Crypt.Text.{crypt_blocks, with_tail, des_encode, without_padding, des_decode}

length-subkeys : (rounds i x y : ℕ) → length (subkeys rounds i x y) ≡ rounds
unfolding subkeys
length-subkeys zero i x y = refl
length-subkeys (suc rounds) i x y = ap suc (length-subkeys rounds _ _ _)

length-des_main_ks : (key : List ℕ) → length key ≡ 8 → length (des_main_ks key) ≡ 16
unfolding des_main_ks
length-des_main_ks key eight =
    split_eight (λ key. length key ≡ 8 → length (des_main_ks key) ≡ 16) exact key (omega arith)
      eight
  where
    exact :
        (a b c d e f g h : ℕ) (rest : List ℕ)
        → length (a ∷ b ∷ c ∷ d ∷ e ∷ f ∷ g ∷ h ∷ rest) ≡ 8
        → length (des_main_ks (a ∷ b ∷ c ∷ d ∷ e ∷ f ∷ g ∷ h ∷ rest)) ≡ 16
    exact a b c d e f g h [] eq = length-subkeys 16 0 _ _
    exact a b c d e f g h (x ∷ rest) eq = absurd (omega arith)

module _ (key text : List ℕ) (mode : ℕ) (eight : length key ≡ 8) (ts : IsBytes text)
    (small : length text + 8 < 2 ^ 31) where
  abbrev whole_blocks : ℕ
  whole_blocks = length text / 8

  abbrev rest_of_text : List ℕ
  rest_of_text = drop (8 * whole_blocks) text

  padded-Roundtrip :
      (pad : List ℕ)
      → mode < 2
      → IsPadding mode rest_of_text pad
      → (c : List ℕ) × (des_encode key text mode ≡ returned c)
        × (des_decode key c mode ≡ returned text)
  unfolding des_encode des_decode with_tail without_padding
  padded-Roundtrip pad known m =
      let sk = des_main_ks key in
      let n = whole_blocks in
      let tail = rest_of_text ++ pad in
      let c = crypt_blocks sk n text ++ des_crypt sk tail in
      let tail_length : length tail ≡ 8 = length-append rest_of_text pad ∙ m.whole in
      let c_length : length c ≡ 8 * n + 8 =
        length-append (crypt_blocks sk n text) (des_crypt sk tail)
        ∙ omega (
          arith,
          length-crypt_blocks sk n text (omega arith),
          length-one_block sk tail tail_length,
        ) in
      let buffer : crypt_blocks (reverse_keys 16 sk) (length c / 8) c ≡ text ++ pad =
        ap₂ (λ r k. crypt_blocks (reverse_keys r sk) k c) (sym (length-des_main_ks key eight))
          (omega (arith, c_length))
        ∙ blocks-ComesBack sk n tail
            (append-IsBytes rest_of_text pad (drop-IsBytes (8 * n) text ts) m.bytes) tail_length
            text (omega arith) ts
        ∙ sym (append_assoc (take (8 * n) text) rest_of_text pad)
        ∙ ap (λ t. t ++ pad) (take-drop (8 * n) text) in
      let key_test : (length key == 8) ≡ true = ground (arith, eight) in
      let multiple : (length c % 8 == 0) ≡ true = ground (arith, c_length) in
      let int_text : leb (2 ^ 31) (length text) ≡ false = ground (arith, small) in
      let int_c : leb (2 ^ 31) (length c) ≡ false = ground (arith, small, c_length) in
      let not_empty : (length c == 0) ≡ false = ground (arith, c_length) in
      let mode_test : leb 2 mode ≡ false = ground (arith, known) in
      let size : length (text ++ pad) - length pad ≡ length text =
        omega (arith, length-append text pad) in
      let some_padding : leb (length pad) 0 ≡ false = ground (arith, m.more) in
      let at_most_eight : ltb 8 (length pad) ≡ false = ground (arith, m.whole) in
      (
        c,
        rw (key_test, int_text, m.added) refl,
        rw
            (
              key_test,
              multiple,
              not_empty,
              int_c,
              mode_test,
              buffer,
              m.removed text,
              some_padding,
              at_most_eight,
              size,
            )
            (ap returned (take-append text pad)),
      )

-- With a key of eight bytes and either padding mode, `l_des_encode` returns a text of any bytes whose
-- padded size is an int, and `l_des_decode` returns of it what was encoded.
pub des_decode-des_encode :
    (key text : List ℕ) (mode : ℕ)
    → length key ≡ 8
    → IsBytes text
    → length text + 8 < 2 ^ 31
    → mode < 2
    → (c : List ℕ) × (des_encode key text mode ≡ returned c)
      × (des_decode key c mode ≡ returned text)
des_decode-des_encode key text zero eight ts small known =
    let src = drop (8 * (length text / 8)) text in
    padded-Roundtrip key text 0 eight ts small (0x80 ∷ replicate (7 - length src) 0) known
      (iso7816_4-IsPadding src (omega (arith, length-drop (8 * (length text / 8)) text)))
des_decode-des_encode key text (suc zero) eight ts small known =
    let src = drop (8 * (length text / 8)) text in
    padded-Roundtrip key text 1 eight ts small (replicate (8 - length src) (8 - length src)) known
      (pkcs7-IsPadding src (omega (arith, length-drop (8 * (length text / 8)) text)))
des_decode-des_encode key text (suc (suc mode)) eight ts small known = absurd (omega arith)
