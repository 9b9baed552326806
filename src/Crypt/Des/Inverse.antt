-- ===== src/Crypt/Des/Inverse.antt =====
-- The cipher of one block (luaclib-src/lua-crypt.cpp) with the keys in reverse order undoes the
-- cipher.
use skynet.Base.{ℕ, ◌≡◌, ap, ◌∙◌, arith}
use skynet.Crypt.Des.{delta_swap, exchange, rotate_left, rotate_right, swap, des_ip, des_fp}
use skynet.Crypt.Des.Steps.{
  AreWords, Fits, delta_swap_involution, delta_swap-AreWords, exchange_involution,
  exchange-AreWords, rotate_left-lt, rotate_right-lt, rotate_right-rotate_left,
  rotate_left-rotate_right,
}

abbrev forth : ℕ → ℕ → ℕ × ℕ → ℕ × ℕ
forth k mask p = delta_swap k mask p.0 p.1

abbrev back : ℕ → ℕ → ℕ × ℕ → ℕ × ℕ
back k mask p = swap (delta_swap k mask p.1 p.0)

abbrev both : ℕ × ℕ → ℕ × ℕ
both p = exchange 0xAAAAAAAA p.0 p.1

mask_4_lem : Fits 4 0x0F0F0F0F
mask_4_lem t le = (omega arith, omega arith, omega arith)

mask_16_lem : Fits 16 0x0000FFFF
mask_16_lem t le = (omega arith, omega arith, omega arith)

mask_2_lem : Fits 2 0x33333333
mask_2_lem t le = (omega arith, omega arith, omega arith)

mask_8_lem : Fits 8 0x00FF00FF
mask_8_lem t le = (omega arith, omega arith, omega arith)

back_involution : (k mask : ℕ) (p : ℕ × ℕ) → Fits k mask → back k mask (back k mask p) ≡ p
back_involution k mask p fits = ap swap (delta_swap_involution k mask p.1 p.0 fits)

forth-AreWords : (k mask : ℕ) (p : ℕ × ℕ) → Fits k mask → AreWords p → AreWords (forth k mask p)
forth-AreWords k mask p fits w = delta_swap-AreWords k mask p.0 p.1 fits w

back-AreWords : (k mask : ℕ) (p : ℕ × ℕ) → Fits k mask → AreWords p → AreWords (back k mask p)
back-AreWords k mask p fits w =
    let v = delta_swap-AreWords k mask p.1 p.0 fits (w.1, w.0) in (v.1, v.0)

-- The four exchanges of digits at the start of the initial permutation.
abbrev four : ℕ × ℕ → ℕ × ℕ
four p = back 8 0x00FF00FF (back 2 0x33333333 (forth 16 0x0000FFFF (forth 4 0x0F0F0F0F p)))

abbrev four_back : ℕ × ℕ → ℕ × ℕ
four_back p = forth 4 0x0F0F0F0F (forth 16 0x0000FFFF (back 2 0x33333333 (back 8 0x00FF00FF p)))

four-AreWords : (p : ℕ × ℕ) → AreWords p → AreWords (four p)
four-AreWords p w =
    let w₁ = forth-AreWords 4 0x0F0F0F0F p mask_4_lem w in
    let w₂ = forth-AreWords 16 0x0000FFFF (forth 4 0x0F0F0F0F p) mask_16_lem w₁ in
    back-AreWords 8 0x00FF00FF (back 2 0x33333333 (forth 16 0x0000FFFF (forth 4 0x0F0F0F0F p)))
      mask_8_lem
      (back-AreWords 2 0x33333333 (forth 16 0x0000FFFF (forth 4 0x0F0F0F0F p)) mask_2_lem w₂)

four_back-four : (p : ℕ × ℕ) → four_back (four p) ≡ p
four_back-four p =
    let p₁ = forth 4 0x0F0F0F0F p in
    let p₂ = forth 16 0x0000FFFF p₁ in
    ap (λ q. forth 4 0x0F0F0F0F (forth 16 0x0000FFFF (back 2 0x33333333 q)))
      (back_involution 8 0x00FF00FF (back 2 0x33333333 p₂) mask_8_lem)
    ∙ ap (λ q. forth 4 0x0F0F0F0F (forth 16 0x0000FFFF q))
        (back_involution 2 0x33333333 p₂ mask_2_lem)
    ∙ ap (forth 4 0x0F0F0F0F) (delta_swap_involution 16 0x0000FFFF p₁.0 p₁.1 mask_16_lem)
    ∙ delta_swap_involution 4 0x0F0F0F0F p.0 p.1 mask_4_lem

four-four_back : (p : ℕ × ℕ) → four (four_back p) ≡ p
four-four_back p =
    let p₁ = back 8 0x00FF00FF p in
    let p₂ = back 2 0x33333333 p₁ in
    let p₃ = forth 16 0x0000FFFF p₂ in
    ap (λ q. back 8 0x00FF00FF (back 2 0x33333333 (forth 16 0x0000FFFF q)))
      (delta_swap_involution 4 0x0F0F0F0F p₃.0 p₃.1 mask_4_lem)
    ∙ ap (λ q. back 8 0x00FF00FF (back 2 0x33333333 q))
        (delta_swap_involution 16 0x0000FFFF p₂.0 p₂.1 mask_16_lem)
    ∙ ap (back 8 0x00FF00FF) (back_involution 2 0x33333333 p₁ mask_2_lem)
    ∙ back_involution 8 0x00FF00FF p mask_8_lem

pub des_ip-AreWords : (p : ℕ × ℕ) → AreWords p → AreWords (des_ip p)
unfolding des_ip
des_ip-AreWords p w =
    let v = four-AreWords p w in
    let u =
      exchange-AreWords 0xAAAAAAAA (four p).0 (rotate_left (four p).1) (omega arith)
        (v.0, rotate_left-lt (four p).1 v.1) in
    (rotate_left-lt (both ((four p).0, rotate_left (four p).1)).0 u.0, u.1)

pub des_fp-des_ip : (p : ℕ × ℕ) → AreWords p → des_fp (des_ip p) ≡ p
unfolding des_ip des_fp
des_fp-des_ip p w =
    let v = four-AreWords p w in
    let q = both ((four p).0, rotate_left (four p).1) in
    let u =
      exchange-AreWords 0xAAAAAAAA (four p).0 (rotate_left (four p).1) (omega arith)
        (v.0, rotate_left-lt (four p).1 v.1) in
    ap (λ x. four_back ((both (x, q.1)).0, rotate_right (both (x, q.1)).1))
      (rotate_right-rotate_left q.0 u.0)
    ∙ ap (λ r. four_back (r.0, rotate_right r.1))
        (exchange_involution 0xAAAAAAAA (four p).0 (rotate_left (four p).1))
    ∙ ap (λ y. four_back ((four p).0, y)) (rotate_right-rotate_left (four p).1 v.1)
    ∙ four_back-four p

pub des_ip-des_fp : (p : ℕ × ℕ) → AreWords p → des_ip (des_fp p) ≡ p
unfolding des_ip des_fp
des_ip-des_fp p w =
    let q = both (rotate_right p.0, p.1) in
    let u =
      exchange-AreWords 0xAAAAAAAA (rotate_right p.0) p.1 (omega arith)
        (rotate_right-lt p.0 w.0, w.1) in
    ap (λ r. let s = both (r.0, rotate_left r.1) in (rotate_left s.0, s.1))
      (four-four_back (q.0, rotate_right q.1))
    ∙ ap (λ y. let s = both (q.0, y) in (rotate_left s.0, s.1)) (rotate_left-rotate_right q.1 u.1)
    ∙ ap (λ s. (rotate_left s.0, s.1)) (exchange_involution 0xAAAAAAAA (rotate_right p.0) p.1)
    ∙ ap (λ x. (x, p.1)) (rotate_left-rotate_right p.0 w.0)

pub des_fp-AreWords : (p : ℕ × ℕ) → AreWords p → AreWords (des_fp p)
unfolding des_fp
des_fp-AreWords p w =
    let q = both (rotate_right p.0, p.1) in
    let u =
      exchange-AreWords 0xAAAAAAAA (rotate_right p.0) p.1 (omega arith)
        (rotate_right-lt p.0 w.0, w.1) in
    let r : ℕ × ℕ = (q.0, rotate_right q.1) in
    let w₁ = back-AreWords 8 0x00FF00FF r mask_8_lem (u.0, rotate_right-lt q.1 u.1) in
    let w₂ = back-AreWords 2 0x33333333 (back 8 0x00FF00FF r) mask_2_lem w₁ in
    let p₂ = back 2 0x33333333 (back 8 0x00FF00FF r) in
    forth-AreWords 4 0x0F0F0F0F (forth 16 0x0000FFFF p₂) mask_4_lem
      (forth-AreWords 16 0x0000FFFF p₂ mask_16_lem w₂)
