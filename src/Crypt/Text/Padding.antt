-- ===== src/Crypt/Text/Padding.antt =====
-- The two paddings of the last block (luaclib-src/lua-crypt.cpp) are read as they were written.
use skynet.Base.{
  ℕ, zero, suc, ◌+◌, ◌-◌, ◌<◌, ◌≡◌, refl, sym, ap, ◌∙◌, arith, some, List, [], ◌∷◌, ◌++◌, length,
  replicate, reverse_onto, reverse_onto-append, reverse_onto-replicate, length-replicate, leb, ◌==◌,
  if◌then◌else◌, true, false,
}
use skynet.Crypt.Bytes.{IsBytes, replicate-IsBytes}
use skynet.Crypt.Text.{
  skip_zeros, padding_remove_iso7816_4, same_before, padding_remove_pkcs7, padding_add_iso7816_4,
  padding_add_pkcs7, add_padding,
}

skip_zeros-replicate :
    (n r padding : ℕ) (last : List ℕ)
    → n < r
    → skip_zeros r padding (replicate n 0 ++ 0x80 ∷ last) ≡ some (padding + n)
unfolding skip_zeros
skip_zeros-replicate zero zero padding last h = absurd (omega arith)
skip_zeros-replicate zero (suc r) padding last h = ap some (omega arith)
skip_zeros-replicate (suc n) zero padding last h = absurd (omega arith)
skip_zeros-replicate (suc n) (suc r) padding last h =
    skip_zeros-replicate n r (padding + 1) last (omega arith) ∙ ap some (omega arith)

same_before-replicate :
    (n padding : ℕ) (last : List ℕ)
    → same_before n padding (replicate n padding ++ last) ≡ some padding
unfolding same_before
same_before-replicate zero padding last = refl
same_before-replicate (suc n) padding last =
    let e : (padding == padding) ≡ true = ground arith in
    rw e (same_before-replicate n padding last)

padding_remove_pkcs7-replicate :
    (m : ℕ) → 0 < m → (last : List ℕ) → padding_remove_pkcs7 (replicate m m ++ last) ≡ some m
unfolding padding_remove_pkcs7
padding_remove_pkcs7-replicate zero h last = absurd (omega arith)
padding_remove_pkcs7-replicate (suc m) h last =
    let e : suc m - 1 ≡ m = omega arith in rw e (same_before-replicate m (suc m) last)

-- What a padding adds to the bytes of the last block, and what is read of it from behind.
pub record IsPadding (mode : ℕ) (src pad : List ℕ) : Type 0 where
  pub added : add_padding src mode ≡ some (src ++ pad)
  pub whole : length src + length pad ≡ 8
  pub more : 0 < length pad
  pub bytes : IsBytes pad
  pub removed :
      (text : List ℕ)
      → (let last = reverse_onto (text ++ pad) [] in
          if mode == 0 then padding_remove_iso7816_4 last else padding_remove_pkcs7 last)
        ≡ some (length pad)

pub iso7816_4-IsPadding :
    (src : List ℕ) → length src < 8 → IsPadding 0 src (0x80 ∷ replicate (7 - length src) 0)
unfolding add_padding padding_add_iso7816_4 padding_remove_iso7816_4
iso7816_4-IsPadding src lt =
    let m = 7 - length src in
    record {
      added = let e : leb 8 (length src) ≡ false = ground arith in rw e refl;
      whole = omega (arith, length-replicate {A = ℕ} m 0);
      more = omega arith;
      bytes = (omega arith, replicate-IsBytes m 0 (omega arith));
      removed = λ text.
          ap (skip_zeros 8 1) (
            reverse_onto-append text (0x80 ∷ replicate m 0) []
            ∙ reverse_onto-replicate m 0 (0x80 ∷ reverse_onto text []))
          ∙ skip_zeros-replicate m 8 1 (reverse_onto text []) (omega arith)
          ∙ ap some (omega (arith, length-replicate {A = ℕ} m 0));
    }

pub pkcs7-IsPadding :
    (src : List ℕ) → length src < 8 → IsPadding 1 src (replicate (8 - length src) (8 - length src))
unfolding add_padding padding_add_pkcs7
pkcs7-IsPadding src lt =
    let m = 8 - length src in
    record {
      added = let e : leb 8 (length src) ≡ false = ground arith in rw e refl;
      whole = omega (arith, length-replicate m m);
      more = omega (arith, length-replicate m m);
      bytes = replicate-IsBytes m m (omega arith);
      removed = λ text.
          ap padding_remove_pkcs7 (
            reverse_onto-append text (replicate m m) []
            ∙ reverse_onto-replicate m m (reverse_onto text []))
          ∙ padding_remove_pkcs7-replicate m (omega arith) (reverse_onto text [])
          ∙ ap some (sym (length-replicate m m));
    }
