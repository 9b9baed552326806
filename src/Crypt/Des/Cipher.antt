-- ===== src/Crypt/Des/Cipher.antt =====
-- The rounds of the cipher (luaclib-src/lua-crypt.cpp), and with them a whole block, are undone by
-- the keys in reverse order.
use Prim.Native.Nat.{bit_and, bit_or, bit_xor}
use skynet.Base.{
  ℕ, zero, suc, ◌*◌, ◌/◌, ◌%◌, ◌^◌, ◌≤◌, ◌<◌, ◌≡◌, refl, sym, ap, ◌∙◌, arith, List, [], ◌∷◌, get_or,
  ltb, true, Bool, ◌&&◌, length, take, take-all,
}
use skynet.Base.Words.{xor_cancel, xor_swap, xor-lt}
use skynet.Crypt.Des.Boxes.{sb1, sb2, sb3, sb4, sb5, sb6, sb7, sb8}
use skynet.Crypt.Des.{
  swap, des_ip, des_fp, des_round, des_rounds, crypt_words, box, xor_four, reverse_keys,
}
use skynet.Crypt.Des.Steps.{AreWords}
use skynet.Crypt.Des.Inverse.{des_ip-AreWords, des_fp-AreWords, des_fp-des_ip, des_ip-des_fp}

abbrev all_words : List ℕ → Bool
all_words [] = true
all_words (x ∷ xs) = ltb x (2 ^ 32) && all_words xs

get_or-lt : (xs : List ℕ) (i : ℕ) → all_words xs ≡ true → get_or xs i 0 < 2 ^ 32
get_or-lt [] i h = omega arith
get_or-lt (x ∷ xs) zero h = ground arith
get_or-lt (x ∷ xs) (suc i) h = get_or-lt xs i (ground arith)

xor_four-lt :
    (a b c d : ℕ) → a < 2 ^ 32 → b < 2 ^ 32 → c < 2 ^ 32 → d < 2 ^ 32 → xor_four a b c d < 2 ^ 32
xor_four-lt a b c d p q r s =
    xor-lt 32 (bit_xor (bit_xor a b) c) d (xor-lt 32 (bit_xor a b) c (xor-lt 32 a b p q) r) s

des_round-lt : (sk : ℕ × ℕ) (x y : ℕ) → y < 2 ^ 32 → des_round sk x y < 2 ^ 32
unfolding des_round
des_round-lt sk x y h =
    let lt : (sb : List ℕ) (t k : ℕ) → all_words sb ≡ true → box sb t k < 2 ^ 32 =
      λ sb t k e. get_or-lt sb (bit_and (t / 2 ^ k) 0x3F) e in
    let t = bit_xor sk.0 x in
    let t' = bit_xor sk.1 (bit_or (x * 2 ^ 28 % 2 ^ 32) (x / 2 ^ 4)) in
    let f = xor_four (box sb8 t 0) (box sb6 t 8) (box sb4 t 16) (box sb2 t 24) in
    let g = xor_four (box sb7 t' 0) (box sb5 t' 8) (box sb3 t' 16) (box sb1 t' 24) in
    xor-lt 32 (bit_xor y f) g
      (xor-lt 32 y f h (
        xor_four-lt (box sb8 t 0) (box sb6 t 8) (box sb4 t 16) (box sb2 t 24) (lt sb8 t 0 refl)
          (lt sb6 t 8 refl) (lt sb4 t 16 refl) (lt sb2 t 24 refl)))
      (xor_four-lt (box sb7 t' 0) (box sb5 t' 8) (box sb3 t' 16) (box sb1 t' 24) (lt sb7 t' 0 refl)
        (lt sb5 t' 8 refl) (lt sb3 t' 16 refl) (lt sb1 t' 24 refl))

-- A round is undone by itself.
des_round_involution : (sk : ℕ × ℕ) (x y : ℕ) → des_round sk x (des_round sk x y) ≡ y
unfolding des_round
des_round_involution sk x y =
    let t = bit_xor sk.0 x in
    let t' = bit_xor sk.1 (bit_or (x * 2 ^ 28 % 2 ^ 32) (x / 2 ^ 4)) in
    let f = xor_four (box sb8 t 0) (box sb6 t 8) (box sb4 t 16) (box sb2 t 24) in
    let g = xor_four (box sb7 t' 0) (box sb5 t' 8) (box sb3 t' 16) (box sb1 t' 24) in
    ap (λ z. bit_xor z g) (xor_swap (bit_xor y f) g f ∙ ap (λ z. bit_xor z g) (xor_cancel y f))
    ∙ xor_cancel y g

abbrev one_round : ℕ × ℕ → ℕ × ℕ → ℕ × ℕ
one_round sk p = (p.1, des_round sk p.1 p.0)

des_rounds-take :
    (n : ℕ) (sk : List (ℕ × ℕ)) (p : ℕ × ℕ)
    → n < length sk
    → des_rounds (take (suc n) sk) p ≡ one_round (get_or sk n (0, 0)) (des_rounds (take n sk) p)
unfolding des_rounds
des_rounds-take zero [] p h = absurd (omega arith)
des_rounds-take zero (k ∷ sk) p h = refl
des_rounds-take (suc n) [] p h = absurd (omega arith)
des_rounds-take (suc n) (k ∷ sk) p h = des_rounds-take n sk (one_round k p) (omega arith)

des_rounds-reverse_keys :
    (n : ℕ) (sk : List (ℕ × ℕ)) (p : ℕ × ℕ)
    → n ≤ length sk
    → des_rounds (reverse_keys n sk) (swap (des_rounds (take n sk) p)) ≡ swap p
unfolding des_rounds reverse_keys
des_rounds-reverse_keys zero sk p h = refl
des_rounds-reverse_keys (suc n) sk p h =
    let k = get_or sk n (0, 0) in
    let q = des_rounds (take n sk) p in
    ap (λ r. des_rounds (reverse_keys n sk) (one_round k (swap r)))
      (des_rounds-take n sk p (omega arith))
    ∙ ap (λ y. des_rounds (reverse_keys n sk) (q.1, y)) (des_round_involution k q.1 q.0)
    ∙ des_rounds-reverse_keys n sk p (omega arith)

des_rounds-AreWords : (sk : List (ℕ × ℕ)) (p : ℕ × ℕ) → AreWords p → AreWords (des_rounds sk p)
unfolding des_rounds
des_rounds-AreWords [] p w = w
des_rounds-AreWords (k ∷ sk) p w =
    des_rounds-AreWords sk (one_round k p) (w.1, des_round-lt k p.1 p.0 w.0)

pub crypt_words-AreWords :
    (sk : List (ℕ × ℕ)) (p : ℕ × ℕ) → AreWords p → AreWords (crypt_words sk p)
unfolding crypt_words
crypt_words-AreWords sk p w =
    let v = des_rounds-AreWords sk (des_ip p) (des_ip-AreWords p w) in
    des_fp-AreWords (swap (des_rounds sk (des_ip p))) (v.1, v.0)

pub crypt_words-reverse_keys :
    (sk : List (ℕ × ℕ)) (p : ℕ × ℕ)
    → AreWords p
    → crypt_words (reverse_keys (length sk) sk) (crypt_words sk p) ≡ p
unfolding crypt_words
crypt_words-reverse_keys sk p w =
    let q = des_ip p in
    let r = des_rounds sk q in
    let v = des_rounds-AreWords sk q (des_ip-AreWords p w) in
    let n = length sk in
    ap (λ s. des_fp (swap (des_rounds (reverse_keys n sk) s))) (des_ip-des_fp (swap r) (v.1, v.0))
    ∙ ap (λ s. des_fp (swap s))
        (ap (λ ks. des_rounds (reverse_keys n sk) (swap (des_rounds ks q)))
            (sym (take-all n sk (omega arith)))
          ∙ des_rounds-reverse_keys n sk q (omega arith))
    ∙ des_fp-des_ip p w
