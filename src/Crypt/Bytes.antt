-- ===== src/Crypt/Bytes.antt =====
-- Strings as lists of bytes.
use skynet.Base.{
  ℕ, zero, suc, ◌≤◌, ◌<◌, ◌≡◌, refl, List, [], ◌∷◌, ◌++◌, length, take, drop, replicate, arith,
  Bool, true, false, ◌&&◌, ltb,
}

abbrev pub IsBytes : List ℕ → Type 0
IsBytes [] = Unit {0}
IsBytes (x ∷ xs) = (x < 256) × IsBytes xs

-- The same as a test, for strings that are given.
abbrev pub are_bytes : List ℕ → Bool
are_bytes [] = true
are_bytes (x ∷ xs) = ltb x 256 && are_bytes xs

pub and_both : (a b : Bool) → (a && b) ≡ true → (a ≡ true) × (b ≡ true)
and_both true b e = (refl, e)
and_both false b e = absurd (ground (arith, e))

pub are_bytes_lem : (xs : List ℕ) → are_bytes xs ≡ true → IsBytes xs
are_bytes_lem [] e = tt
are_bytes_lem (x ∷ xs) e =
    let (first, rest) = and_both (ltb x 256) (are_bytes xs) e in
    (ground (arith, first), are_bytes_lem xs rest)

pub take-IsBytes : (n : ℕ) (xs : List ℕ) → IsBytes xs → IsBytes (take n xs)
take-IsBytes zero xs h = tt
take-IsBytes (suc n) [] h = tt
take-IsBytes (suc n) (x ∷ xs) (p, q) = (p, take-IsBytes n xs q)

pub drop-IsBytes : (n : ℕ) (xs : List ℕ) → IsBytes xs → IsBytes (drop n xs)
drop-IsBytes zero xs h = h
drop-IsBytes (suc n) [] h = tt
drop-IsBytes (suc n) (x ∷ xs) (p, q) = drop-IsBytes n xs q

pub append-IsBytes : (xs ys : List ℕ) → IsBytes xs → IsBytes ys → IsBytes (xs ++ ys)
append-IsBytes [] ys p q = q
append-IsBytes (x ∷ xs) ys (p, p') q = (p, append-IsBytes xs ys p' q)

pub replicate-IsBytes : (n a : ℕ) → a < 256 → IsBytes (replicate n a)
replicate-IsBytes zero a h = tt
replicate-IsBytes (suc n) a h = (h, replicate-IsBytes n a h)

-- To show something of a string of eight bytes and more, take the eight bytes apart.
pub split_eight :
    (P : List ℕ → Type 0)
    → ((a b c d e f g h : ℕ) (rest : List ℕ) → P (a ∷ b ∷ c ∷ d ∷ e ∷ f ∷ g ∷ h ∷ rest))
    → (xs : List ℕ) → 8 ≤ length xs
    → P xs
split_eight P s [] le = absurd (omega arith)
split_eight P s (a ∷ []) le = absurd (omega arith)
split_eight P s (a ∷ b ∷ []) le = absurd (omega arith)
split_eight P s (a ∷ b ∷ c ∷ []) le = absurd (omega arith)
split_eight P s (a ∷ b ∷ c ∷ d ∷ []) le = absurd (omega arith)
split_eight P s (a ∷ b ∷ c ∷ d ∷ e ∷ []) le = absurd (omega arith)
split_eight P s (a ∷ b ∷ c ∷ d ∷ e ∷ f ∷ []) le = absurd (omega arith)
split_eight P s (a ∷ b ∷ c ∷ d ∷ e ∷ f ∷ g ∷ []) le = absurd (omega arith)
split_eight P s (a ∷ b ∷ c ∷ d ∷ e ∷ f ∷ g ∷ h ∷ rest) le = s a b c d e f g h rest
