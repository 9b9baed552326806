-- ===== src/Mq/Global/Chain.antt =====
-- Linked lists through a `next` function, and occurrences in a list of addresses.
use skynet.Base.{
  ℕ, ◌+◌, ◌≤◌, ◌<◌, ◌≡◌, refl, sym, subst, List, [], ◌∷◌, ◌++◌, arith, ◌==◌, if◌then◌else◌,
}

abbrev pub count : ℕ → List ℕ → ℕ
count p [] = 0
count p (x ∷ xs) = (if p == x then 1 else 0) + count p xs

-- Without its first occurrence.
abbrev pub remove : ℕ → List ℕ → List ℕ
remove p [] = []
remove p (x ∷ xs) = if p == x then xs else x ∷ remove p xs

abbrev pub last : List ℕ → ℕ
last [] = 0
last (x ∷ []) = x
last (x ∷ y ∷ xs) = last (y ∷ xs)

-- From `p` the links lead through exactly `xs` to the null pointer.
abbrev pub Chain : (ℕ → ℕ) → ℕ → List ℕ → Type 0
Chain next p [] = p ≡ 0
Chain next p (x ∷ xs) = (p ≡ x) × Chain next (next x) xs

pub count-append : (p : ℕ) (xs ys : List ℕ) → count p (xs ++ ys) ≡ count p xs + count p ys
count-append p [] ys = omega arith
count-append p (x ∷ xs) ys = omega (arith, count-append p xs ys)

pub count-remove :
    (p q : ℕ) (xs : List ℕ)
    → 0 < count q xs
    → count p (remove q xs) + (if p == q then 1 else 0) ≡ count p xs
count-remove p q [] h = absurd (omega arith)
count-remove p q (x ∷ xs) h = ground (arith, count-remove p q xs)

-- The links need only agree on the list itself.
pub Chain-congr :
    (f g : ℕ → ℕ) (p : ℕ) (xs : List ℕ)
    → ((y : ℕ) → 0 < count y xs → g y ≡ f y)
    → Chain f p xs
    → Chain g p xs
Chain-congr f g p [] h c = c
Chain-congr f g p (x ∷ xs) h c = (
  c.0,
  Chain-congr f g (g x) xs (λ y k. h y (omega arith))
      (subst (λ p. Chain f p xs) (sym (h x (ground arith))) c.1),
)

pub last-append : (xs : List ℕ) (q : ℕ) → last (xs ++ q ∷ []) ≡ q
last-append [] q = refl
last-append (x ∷ []) q = refl
last-append (x ∷ y ∷ xs) q = last-append (y ∷ xs) q

pub count-last : (x : ℕ) (xs : List ℕ) → 0 < count (last (x ∷ xs)) (x ∷ xs)
count-last x [] = ground arith
count-last x (y ∷ xs) = omega (arith, count-last y xs)

-- Linking `q` behind the last entry extends the chain by it.
pub Chain-link :
    (f g : ℕ → ℕ) (p q x : ℕ) (xs : List ℕ)
    → ((y : ℕ) → count y (x ∷ xs) ≤ 1)
    → count q (x ∷ xs) ≡ 0
    → f q ≡ 0
    → ((y : ℕ) → g y ≡ (if last (x ∷ xs) == y then q else f y))
    → Chain f p (x ∷ xs)
    → Chain g p (x ∷ xs ++ q ∷ [])
Chain-link f g p q x [] once out free link c =
    (c.0, (ground (arith, link x), ground (arith, link q)))
Chain-link f g p q x (y ∷ xs) once out free link c = (
  c.0,
  Chain-link f g (g x) q y xs (λ z. omega (arith, once z)) (omega arith) free link
      (subst (λ p. Chain f p (y ∷ xs)) (sym kept) c.1),
)
  where
    kept : g x ≡ f x
    kept = ground (arith, link x, once x, count-last y xs)

-- Every address on a chain with no repetition but the first keeps its link when the first is cut off.
pub Chain-unlink :
    (f g : ℕ → ℕ) (x : ℕ) (xs : List ℕ)
    → count x xs ≡ 0
    → ((y : ℕ) → g y ≡ (if x == y then 0 else f y))
    → Chain f (f x) xs
    → Chain g (f x) xs
Chain-unlink f g x xs out link = Chain-congr f g (f x) xs (λ y h. ground (arith, link y))

-- On a chain of non-null addresses the null pointer ends it and nothing else does.
pub Chain-null : (f : ℕ → ℕ) (p : ℕ) (xs : List ℕ) → count 0 xs ≡ 0 → Chain f p xs → p ≡ 0 → xs ≡ []
Chain-null f p [] h c e = refl
Chain-null f p (x ∷ xs) h c e = absurd (ground arith)
