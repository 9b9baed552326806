-- ===== src/Service/Names/Forget.antt =====
-- The loop of `unregister_service` (skynet-src/service/service_manager.cpp) over the names, as an
-- operation on the finite map from names to handles.
use Prim.Native.Nat.{Ordering}
use native.Mathlib.Decide.{ℕ_discrete}
use skynet.Base.{
  ℕ, zero, suc, ◌+◌, ◌≤◌, ◌<◌, ◌≡◌, ◌≢◌, refl, sym, ap, ap₂, ◌∙◌, subst, true, false, Option, none,
  some, List, length, length-set, get_or-set_self, get_or-set_ne, set, arith, ◌==◌, if◌then◌else◌,
}
use skynet.Service.Name.{Name, compare_names, compare_names-eq}
use skynet.Service.Names.{HandleName, Names, blank, entry, drop_names, forget_handle}
use skynet.Service.Names.Sorted.{IsValid, IsSorted, key, lookup, lookup-none, handle_named, if_same}

-- The finite map without the names of a handle.
abbrev pub without : ℕ → Option ℕ → Option ℕ
without h none = none
without h (some g) = if g == h then none else some g

lookup_frame :
    (a b : List HandleName) (n : ℕ) (x : Name)
    → ((i : ℕ) → i < n → entry b i ≡ entry a i)
    → lookup b n x ≡ lookup a n x
unfolding lookup
lookup_frame a b zero x h = refl
lookup_frame a b (suc n) x h =
    ap₂ (λ e r. if_same (compare_names (e.svc_name) x) (some (e.svc_handle)) r) (h n (omega arith))
      (lookup_frame a b n x (λ i lt. h i (omega arith)))

lookup_next :
    (a : List HandleName) (n : ℕ) (x : Name)
    → lookup a (n + 1) x
      ≡ if_same (compare_names (key a n) x) (some ((entry a n).svc_handle)) (lookup a n x)
unfolding lookup
lookup_next a n x = let e : n + 1 ≡ suc n = omega arith in ap (λ m. lookup a m x) e

lookup_prefix :
    (a b : List HandleName) (n : ℕ) (x : Name) (e : HandleName)
    → entry b n ≡ e
    → ((i : ℕ) → i < n → entry b i ≡ entry a i)
    → lookup b (n + 1) x
      ≡ if_same (compare_names (e.svc_name) x) (some (e.svc_handle)) (lookup a n x)
lookup_prefix a b n x e eq h =
    lookup_next b n x
    ∙ ap₂ (λ e r. if_same (compare_names (e.svc_name) x) (some (e.svc_handle)) r) eq
        (lookup_frame a b n x h)

-- One more entry, of the handle or of another.
without_same :
    (h : ℕ) (c : Ordering) (o : Option ℕ)
    → (c ≡ Ordering.eq → o ≡ none)
    → without h o ≡ without h (if_same c (some h) o)
without_same h Ordering.lt o e = refl
without_same h Ordering.gt o e = refl
without_same h Ordering.eq o e = rw (e refl) (ground arith)

without_other :
    (h g : ℕ) (c : Ordering) (o : Option ℕ)
    → g ≢ h
    → if_same c (some g) (without h o) ≡ without h (if_same c (some g) o)
without_other h g Ordering.lt o ne = refl
without_other h g Ordering.gt o ne = refl
without_other h g Ordering.eq o ne = ground arith

key_of : {e e' : HandleName} → e ≡ e' → e.svc_name ≡ e'.svc_name
key_of h = ap (λ e. e.svc_name) h

-- The state of the loop: i entries of `a` are read, j of them are kept, in the first cells of `b`.
pub record Kept (a : List HandleName) (n h i j : ℕ) (b : List HandleName) : Type 0 where
  pub behind : j ≤ i
  pub cells : length b ≡ length a
  pub unread : (q : ℕ) → i ≤ q → q < n → entry b q ≡ entry a q
  pub sorted : IsSorted b j
  pub below : (p q : ℕ) → p < j → i ≤ q → q < n → compare_names (key b p) (key a q) ≡ Ordering.lt
  pub map : (x : Name) → lookup b j x ≡ without h (lookup a i x)

module _ (a : List HandleName) (n h : ℕ) (sorted : IsSorted a n) (fits : n ≤ length a) where
  absent_before : (i : ℕ) → i < n → lookup a i (key a i) ≡ none
  absent_before i lt = lookup-none a i (key a i) (λ p less c. ground (arith, sorted p i less lt, c))

  skip :
      (i j : ℕ) (b : List HandleName)
      → i < n
      → (entry a i).svc_handle ≡ h
      → Kept a n h i j b
      → Kept a n h (i + 1) j b
  skip i j b lt same s = record {
    behind = omega (arith, s.behind);
    cells = s.cells;
    unread = λ q ge h'. s.unread q (omega arith) h';
    sorted = s.sorted;
    below = λ p q less ge h'. s.below p q less (omega arith) h';
    map = λ x.
        s.map x
        ∙ without_same h (compare_names (key a i) x) (lookup a i x) (λ c.
          subst (λ y. lookup a i y ≡ none) (compare_names-eq (key a i) x c) (absent_before i lt))
        ∙ ap (without h) (sym (lookup_next a i x ∙ rw same refl));
  }

  keep :
      (i j : ℕ) (b b' : List HandleName)
      → i < n
      → (entry a i).svc_handle ≢ h
      → length b' ≡ length b
      → entry b' j ≡ entry a i
      → ((p : ℕ) → p ≢ j → entry b' p ≡ entry b p)
      → Kept a n h i j b
      → Kept a n h (i + 1) (j + 1) b'
  keep i j b b' lt other size new old s = record {
    behind = omega (arith, s.behind);
    cells = size ∙ s.cells;
    unread = λ q ge h'. old q (omega (arith, s.behind)) ∙ s.unread q (omega arith) h';
    sorted = λ p q less top. elim (ℕ_discrete q j) [
      | yes e ↦
          rw (e, key_of new, key_of (old p (omega arith)))
            (s.below p i (omega arith) (omega arith) lt)
      | no ne ↦
          rw (key_of (old q ne), key_of (old p (omega arith))) (s.sorted p q less (omega arith))
    ];
    below = λ p q less ge h'. elim (ℕ_discrete p j) [
      | yes e ↦ rw (e, key_of new) (sorted i q (omega arith) h')
      | no ne ↦ rw (key_of (old p ne)) (s.below p q (omega arith) (omega arith) h')
    ];
    map = λ x.
        lookup_prefix b b' j x (entry a i) new (λ p less. old p (omega arith))
        ∙ ap (if_same (compare_names (key a i) x) (some ((entry a i).svc_handle))) (s.map x)
        ∙ without_other h ((entry a i).svc_handle) (compare_names (key a i) x) (lookup a i x) other
        ∙ ap (without h) (sym (lookup_next a i x));
  }

  drop_names-Kept :
      (r i j : ℕ) (b : List HandleName)
      → i + r ≡ n
      → Kept a n h i j b
      → let (j', b') = drop_names r h i j b in Kept a n h n j' b'
  unfolding drop_names
  drop_names-Kept zero i j b e s = subst (λ m. Kept a n h m j b) (omega arith) s
  drop_names-Kept (suc r) i j b e s =
      let here : entry b i ≡ entry a i = s.unread i (omega arith) (omega arith) in
      elim (ℕ_discrete ((entry a i).svc_handle) h) [
        | yes same ↦
            let test : ((entry b i).svc_handle == h) ≡ true = rw (here, same) (ground arith) in
            rw (drop_names, test)
              (drop_names-Kept r (i + 1) j b (omega arith) (skip i j b (omega arith) same s))
        | no other ↦
            let test : ((entry b i).svc_handle == h) ≡ false = rw here (ground arith) in
            elim (ℕ_discrete i j) [
              | yes eq ↦
                  let eq' : (i == j) ≡ true = ground arith in
                  rw (drop_names, test, eq')
                    (drop_names-Kept r (i + 1) (j + 1) b (omega arith) (
                      keep i j b b (omega arith) other refl
                        (subst (λ m. entry b m ≡ entry a i) eq here) (λ p ne. refl) s))
              | no ne ↦
                  let ne' : (i == j) ≡ false = ground arith in
                  rw (drop_names, test, ne')
                    (drop_names-Kept r (i + 1) (j + 1) (set b j (entry b i)) (omega arith) (
                      keep i j b (set b j (entry b i)) (omega arith) other
                        (length-set b j (entry b i))
                        (get_or-set_self b j (entry b i) blank (omega (arith, s.behind, s.cells))
                          ∙ here)
                        (λ p ne. get_or-set_ne b j p (entry b i) blank (λ e. ne (sym e))) s))
            ]
      ]

-- On valid names the loop of `unregister_service` takes away the names of the handle, leaves every
-- other name as it was, and keeps the names valid.
pub forget_handle_lem :
    (ns : Names) (h : ℕ)
    → IsValid ns
    → IsValid (forget_handle ns h)
      × ((x : Name) → handle_named (forget_handle ns h) x ≡ without h (handle_named ns x))
unfolding forget_handle lookup
forget_handle_lem ns h v =
    let start : Kept ns.name ns.name_count h 0 0 ns.name = record {
      behind = omega arith;
      cells = refl;
      unread = λ q ge lt. refl;
      sorted = λ p q less top. absurd (omega arith);
      below = λ p q less ge lt. absurd (omega arith);
      map = λ x. refl;
    } in
    let last =
      drop_names-Kept ns.name ns.name_count h v.sorted (omega (arith, v.fits, v.cells))
        ns.name_count 0 0 ns.name (omega arith) start in
    (
      record {
        cap_pos = v.cap_pos;
        fits = omega (arith, last.behind, v.fits);
        cells = last.cells ∙ v.cells;
        sorted = last.sorted;
      },
      last.map,
    )
