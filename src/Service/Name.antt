-- ===== src/Service/Name.antt =====
-- `std::string::compare`, as skynet-src/service/service_manager.cpp uses it on service names: a name
-- is the list of its bytes, and the order is lexicographic.
use Prim.Native.Nat.{compare, Ordering}
use skynet.Base.{ℕ, ◌≡◌, refl, List, [], ◌∷◌, arith}

abbrev pub Name : Type 0
Name = List ℕ

unfoldable pub compare_names : Name → Name → Ordering
compare_names [] [] = Ordering.eq
compare_names [] (y ∷ ys) = Ordering.lt
compare_names (x ∷ xs) [] = Ordering.gt
compare_names (x ∷ xs) (y ∷ ys) =
    let rest = compare_names xs ys in
    elim (compare x y) [
      | Ordering.lt ↦ Ordering.lt
      | Ordering.eq ↦ rest
      | Ordering.gt ↦ Ordering.gt
    ]

pub compare_names_refl : (x : Name) → compare_names x x ≡ Ordering.eq
unfolding compare_names
compare_names_refl [] = refl
compare_names_refl (x ∷ xs) = ground (arith, compare_names_refl xs)

pub compare_names-eq : (x y : Name) → compare_names x y ≡ Ordering.eq → x ≡ y
unfolding compare_names
compare_names-eq [] [] h = refl
compare_names-eq [] (y ∷ ys) h = ground arith
compare_names-eq (x ∷ xs) [] h = ground arith
compare_names-eq (x ∷ xs) (y ∷ ys) h = grind (arith, compare_names-eq xs ys)

pub compare_names-lt_trans :
    (x y z : Name)
    → compare_names x y ≡ Ordering.lt
    → compare_names y z ≡ Ordering.lt
    → compare_names x z ≡ Ordering.lt
unfolding compare_names
compare_names-lt_trans [] [] z g h = ground arith
compare_names-lt_trans [] (y ∷ ys) [] g h = ground arith
compare_names-lt_trans [] (y ∷ ys) (z ∷ zs) g h = refl
compare_names-lt_trans (x ∷ xs) [] z g h = ground arith
compare_names-lt_trans (x ∷ xs) (y ∷ ys) [] g h = ground arith
compare_names-lt_trans (x ∷ xs) (y ∷ ys) (z ∷ zs) g h =
    ground (arith, compare_names-lt_trans xs ys zs)

pub compare_names-gt :
    (x y : Name) → compare_names x y ≡ Ordering.gt → compare_names y x ≡ Ordering.lt
unfolding compare_names
compare_names-gt [] [] h = ground arith
compare_names-gt [] (y ∷ ys) h = ground arith
compare_names-gt (x ∷ xs) [] h = refl
compare_names-gt (x ∷ xs) (y ∷ ys) h = ground (arith, compare_names-gt xs ys)

pub compare_names-lt :
    (x y : Name) → compare_names x y ≡ Ordering.lt → compare_names y x ≡ Ordering.gt
unfolding compare_names
compare_names-lt [] [] h = ground arith
compare_names-lt [] (y ∷ ys) h = refl
compare_names-lt (x ∷ xs) [] h = ground arith
compare_names-lt (x ∷ xs) (y ∷ ys) h = ground (arith, compare_names-lt xs ys)
