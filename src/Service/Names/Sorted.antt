-- ===== src/Service/Names/Sorted.antt =====
-- The first n entries of an array of names (skynet-src/service/service_manager.cpp) as a finite map
-- from names to handles, read by a scan, and what it says when they are sorted.
use Prim.Native.Nat.{Ordering}
use native.Mathlib.Decide.{ℕ_discrete}
use skynet.Base.{
  ℕ, zero, suc, ◌≤◌, ◌<◌, ◌≡◌, ◌≢◌, refl, sym, subst, ◌⊎◌, inl, inr, Option, none, some, List,
  length, arith,
}
use skynet.Service.Name.{
  Name, compare_names, compare_names_refl, compare_names-eq, compare_names-lt,
}
use skynet.Service.Names.{HandleName, Names, entry}

pub Ordering-cases : (c : Ordering) → (c ≡ Ordering.lt) ⊎ ((c ≡ Ordering.eq) ⊎ (c ≡ Ordering.gt))
Ordering-cases Ordering.lt = inl refl
Ordering-cases Ordering.eq = inr (inl refl)
Ordering-cases Ordering.gt = inr (inr refl)

abbrev pub key : List HandleName → ℕ → Name
key a i = (entry a i).svc_name

abbrev pub IsSorted : List HandleName → ℕ → Type 0
IsSorted a n = (i j : ℕ) → i < j → j < n → compare_names (key a i) (key a j) ≡ Ordering.lt

abbrev pub if_same : Ordering → Option ℕ → Option ℕ → Option ℕ
if_same Ordering.lt x y = y
if_same Ordering.eq x y = x
if_same Ordering.gt x y = y

-- The handle of a name among the first n entries, by a scan.
unfoldable pub lookup : List HandleName → ℕ → Name → Option ℕ
lookup a zero k = none
lookup a (suc n) k =
    if_same (compare_names (key a n) k) (some ((entry a n).svc_handle)) (lookup a n k)

abbrev pub IsAbsent : List HandleName → ℕ → Name → Type 0
IsAbsent a n k = (i : ℕ) → i < n → compare_names (key a i) k ≢ Ordering.eq

pub lookup-none : (a : List HandleName) (n : ℕ) (k : Name) → IsAbsent a n k → lookup a n k ≡ none
unfolding lookup
lookup-none a zero k h = refl
lookup-none a (suc n) k h = elim (Ordering-cases (compare_names (key a n) k)) [
  | inl e ↦ rw e (lookup-none a n k (λ i lt. h i (omega arith)))
  | inr (inl e) ↦ absurd (h n (omega arith) e)
  | inr (inr e) ↦ rw e (lookup-none a n k (λ i lt. h i (omega arith)))
]

pub lookup-at :
    (a : List HandleName) (n i : ℕ)
    → IsSorted a n
    → i < n
    → lookup a n (key a i) ≡ some ((entry a i).svc_handle)
unfolding lookup
lookup-at a zero i s lt = absurd (omega arith)
lookup-at a (suc n) i s lt = elim (ℕ_discrete i n) [
  | yes e ↦ rw (e, compare_names_refl (key a n)) refl
  | no ne ↦
      rw (compare_names-lt (key a i) (key a n) (s i n (omega arith) (omega arith)))
        (lookup-at a n i (λ x y p q. s x y p (omega arith)) (omega arith))
]

-- A name stands at an entry, or at none.
pub lookup-cases :
    (a : List HandleName) (n : ℕ) (k : Name) → ((i : ℕ) × (i < n) × (key a i ≡ k)) ⊎ IsAbsent a n k
lookup-cases a zero k = inr (λ i lt. absurd (omega arith))
lookup-cases a (suc n) k = elim (lookup-cases a n k) [
  | inl (i, lt, e) ↦ inl (i, omega arith, e)
  | inr h ↦ elim (Ordering-cases (compare_names (key a n) k)) [
    | inl e ↦ inr (λ i lt. later h (λ c. ground (arith, e, c)) i lt)
    | inr (inl e) ↦ inl (n, omega arith, compare_names-eq (key a n) k e)
    | inr (inr e) ↦ inr (λ i lt. later h (λ c. ground (arith, e, c)) i lt)
  ]
]
  where
    later : IsAbsent a n k → compare_names (key a n) k ≢ Ordering.eq → IsAbsent a (suc n) k
    later h ne i lt = elim (ℕ_discrete i n) [
      | yes e ↦ subst (λ j. compare_names (key a j) k ≢ Ordering.eq) (sym e) ne
      | no n' ↦ h i (omega arith)
    ]

-- What every call of the service manager keeps: the count is in the array, whose names are sorted.
pub record IsValid (ns : Names) : Type 0 where
  pub cap_pos : 0 < ns.name_cap
  pub fits : ns.name_count ≤ ns.name_cap
  pub cells : length ns.name ≡ ns.name_cap
  pub sorted : IsSorted ns.name ns.name_count

-- The finite map that the names stand for.
abbrev pub handle_named : Names → Name → Option ℕ
handle_named ns k = lookup ns.name ns.name_count k
