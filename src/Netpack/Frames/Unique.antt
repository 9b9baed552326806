-- ===== src/Netpack/Frames/Unique.antt =====
-- How a stream is parsed is determined by its bytes (luaclib-src/lua-netpack.cpp).
use skynet.Base.{
  ℕ, ◌/◌, ◌%◌, ◌^◌, ◌<◌, ◌≡◌, refl, ap, ap₂, sym, subst, ◌∙◌, arith, List, [], ◌∷◌, ◌++◌, length,
  length-append, get_or, take, drop, take-append, drop-append, append_assoc,
}
use skynet.Netpack.Frames.{frame, frames, frames-append, AllFit, append-AllFit, IsShort, Parses}

-- A whole packet in front is not short.
frame-IsShort : (x t : List ℕ) → length x < 2 ^ 16 → ¬ IsShort (frame x ++ t)
frame-IsShort x t fit short = omega (arith, short, length-append x t)

-- Equal streams begin with the same packet.
same_first : (x y s t : List ℕ) → frame x ++ s ≡ frame y ++ t → (x ≡ y) × (s ≡ t)
same_first x y s t e =
    let hi : length x / 2 ^ 8 ≡ length y / 2 ^ 8 = ap (λ l. get_or l 0 0) e in
    let lo : length x % 2 ^ 8 ≡ length y % 2 ^ 8 = ap (λ l. get_or l 1 0) e in
    let len : length x ≡ length y = omega (arith, hi, lo) in
    let rest : x ++ s ≡ y ++ t = ap (drop 2) e in
    (
      sym (take-append x s) ∙ ap₂ take len rest ∙ take-append y t,
      sym (drop-append x s) ∙ ap₂ drop len rest ∙ drop-append y t,
    )

unique :
    (a b : List (List ℕ)) (r r' : List ℕ)
    → frames a ++ r ≡ frames b ++ r'
    → AllFit a
    → AllFit b
    → IsShort r
    → IsShort r'
    → a ≡ b
unique [] [] r r' e fa fb sr sr' = refl
unique [] (y ∷ b) r r' e fa (fit, fb) sr sr' = absurd (
    frame-IsShort y (frames b ++ r') fit
      (subst IsShort (e ∙ append_assoc (frame y) (frames b) r') sr))
unique (x ∷ a) [] r r' e (fit, fa) fb sr sr' = absurd (
    frame-IsShort x (frames a ++ r) fit
      (subst IsShort (sym e ∙ append_assoc (frame x) (frames a) r) sr'))
unique (x ∷ a) (y ∷ b) r r' e (_, fa) (_, fb) sr sr' =
    let (first, later) =
      same_first x y (frames a ++ r) (frames b ++ r')
        (sym (append_assoc (frame x) (frames a) r) ∙ e ∙ append_assoc (frame y) (frames b) r') in
    ap₂ ◌∷◌ first (unique a b r r' later fa fb sr sr')

pub Parses-unique :
    {s : List ℕ} {a b : List (List ℕ)} {r r' : List ℕ} → Parses s a r → Parses s b r' → a ≡ b
Parses-unique {s} {a} {b} {r} {r'} p q =
    unique a b r r' (sym p.whole ∙ q.whole) p.fit q.fit p.short q.short

-- What follows is parsed with the rest of what was there before.
pub Parses-append :
    (t : List ℕ) {s : List ℕ} {a b : List (List ℕ)} {r r' : List ℕ}
    → Parses s a r
    → Parses (r ++ t) b r'
    → Parses (s ++ t) (a ++ b) r'
Parses-append t {s} {a} {b} {r} {r'} p q = record {
  whole =
      ap (λ l. l ++ t) p.whole
      ∙ append_assoc (frames a) r t
      ∙ ap (λ l. frames a ++ l) q.whole
      ∙ sym (append_assoc (frames a) (frames b) r')
      ∙ ap (λ l. l ++ r') (sym (frames-append a b));
  fit = append-AllFit a b p.fit q.fit;
  short = q.short;
}
