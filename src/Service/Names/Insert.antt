-- ===== src/Service/Names/Insert.antt =====
-- `_insert_name` (skynet-src/service/service_manager.cpp) as an operation on the finite map from
-- names to handles.
use Prim.Native.Nat.{Ordering}
use native.Mathlib.Decide.{ℕ_discrete, dec_lt}
use skynet.Base.{
  Option-cases, ℕ, ◌+◌, ◌-◌, ◌*◌, ◌≤◌, ◌<◌, ◌≡◌, ◌≢◌, refl, sym, ap, ◌∙◌, subst, ◌⊎◌, inl, inr,
  Option, none, some, List, length-set, get_or-set_self, get_or-set_ne, set, arith,
}
use skynet.Service.Name.{Name, compare_names, compare_names-eq, compare_names-gt}
use skynet.Service.Names.{
  HandleName, Names, Search, found, missing, blank, entry, max_slot_size, insert_name_before,
  insert_name, place_name, insert_unless_found,
}
use skynet.Service.Names.Sorted.{
  Ordering-cases, IsValid, IsSorted, IsAbsent, key, lookup, lookup-at, lookup-none, lookup-cases,
  handle_named, if_same,
}
use skynet.Service.Names.Find.{Located, search_all-Located, missing-IsAbsent}
use skynet.Service.Names.Room.{HasGap, make_room-HasGap}

-- The finite map after an insertion: a name that is bound keeps its handle.
abbrev pub bound_to : Option ℕ → Ordering → ℕ → Option ℕ
bound_to (some g) c h = some g
bound_to none c h = if_same c (some h) none

-- `_insert_name` returns the name that it inserts, a null pointer if the name is there already.
abbrev pub name_returned : Option ℕ → Name → Option Name
name_returned (some g) k = none
name_returned none k = some k

-- The array `b` has the n entries of `a` and a new one at `before`.
record HasNew (n before : ℕ) (k : Name) (h : ℕ) (a b : List HandleName) : Type 0 where
  front : (i : ℕ) → i < before → entry b i ≡ entry a i
  new_entry : entry b before ≡ record { svc_name = k; svc_handle = h }
  back : (i : ℕ) → before ≤ i → i < n → entry b (i + 1) ≡ entry a i

gap-HasNew :
    (a a' : List HandleName) (n before size : ℕ) (k : Name) (h : ℕ)
    → before ≤ n
    → HasGap n before size a a'
    → HasNew n before k h a (set a' before (record { svc_name = k; svc_handle = h }))
gap-HasNew a a' n before size k h le gap =
    let named : HandleName = record { svc_name = k; svc_handle = h } in
    record {
      front = λ i lt. get_or-set_ne a' before i named blank (λ e. omega arith) ∙ gap.front i lt;
      new_entry = get_or-set_self a' before named blank (omega (arith, gap.larger, gap.cells));
      back = λ i ge lt.
          get_or-set_ne a' before (i + 1) named blank (λ e. omega arith) ∙ gap.back i ge lt;
    }

module _ (a b : List HandleName) (n before : ℕ) (k : Name) (h : ℕ) (sorted : IsSorted a n)
    (l : Located a n k (missing before)) (new : HasNew n before k h a b) where
  new_key : key b before ≡ k
  new_key = ap (λ e. e.svc_name) new.new_entry

  front_key : (i : ℕ) → i < before → key b i ≡ key a i
  front_key i lt = ap (λ e. e.svc_name) (new.front i lt)

  back_key : (i : ℕ) → before ≤ i → i < n → key b (i + 1) ≡ key a i
  back_key i ge lt = ap (λ e. e.svc_name) (new.back i ge lt)

  -- An entry of the new array stands before the new one, or is it, or stands behind it.
  place :
      (i : ℕ)
      → i < n + 1
      → (i < before) ⊎ ((i ≡ before) ⊎ ((j : ℕ) × (before ≤ j) × (j < n) × (i ≡ j + 1)))
  place i lt = elim (dec_lt i before) [
    | yes f ↦ inl f
    | no ge ↦ elim (ℕ_discrete i before) [
      | yes e ↦ inr (inl e)
      | no ne ↦ inr (inr (i - 1, omega arith, omega arith, omega arith))
    ]
  ]

  inserted-IsSorted : IsSorted b (n + 1)
  inserted-IsSorted i j lt top = elim (place i (omega arith)) [
    | inl f ↦ elim (place j top) [
      | inl g ↦ rw (front_key i f, front_key j g) (sorted i j lt (omega (arith, l.0)))
      | inr (inl e) ↦ rw (e, new_key, front_key i f) (l.1 i f)
      | inr (inr (j', ge, lt', e)) ↦
          rw (e, front_key i f, back_key j' ge lt') (sorted i j' (omega arith) lt')
    ]
    | inr (inl e) ↦ elim (place j top) [
      | inl g ↦ absurd (omega arith)
      | inr (inl e') ↦ absurd (omega arith)
      | inr (inr (j', ge, lt', e')) ↦
          rw (e, e', new_key, back_key j' ge lt') (compare_names-gt (key a j') k (l.2 j' ge lt'))
    ]
    | inr (inr (i', ge, lt', e)) ↦ elim (place j top) [
      | inl g ↦ absurd (omega arith)
      | inr (inl e') ↦ absurd (omega arith)
      | inr (inr (j', ge', lt'', e')) ↦
          rw (e, e', back_key i' ge lt', back_key j' ge' lt'') (sorted i' j' (omega arith) lt'')
    ]
  ]

  -- An entry that both arrays have is found in both.
  kept :
      (i j : ℕ)
      → i < n
      → j < n + 1
      → entry b j ≡ entry a i
      → lookup b (n + 1) (key a i) ≡ lookup a n (key a i)
  kept i j lt top e =
      subst (λ x. lookup b (n + 1) (x.svc_name) ≡ some (x.svc_handle)) e
        (lookup-at b (n + 1) j inserted-IsSorted top)
      ∙ sym (lookup-at a n i sorted lt)

  old_found : (i : ℕ) → i < n → lookup b (n + 1) (key a i) ≡ lookup a n (key a i)
  old_found i lt = elim (dec_lt i before) [
    | yes f ↦ kept i i lt (omega arith) (new.front i f)
    | no ge ↦ kept i (i + 1) lt (omega arith) (new.back i (omega arith) lt)
  ]

  new_found : lookup b (n + 1) k ≡ some h
  new_found =
      subst (λ x. lookup b (n + 1) (x.svc_name) ≡ some (x.svc_handle)) new.new_entry
        (lookup-at b (n + 1) before inserted-IsSorted (omega (arith, l.0)))

  others-IsAbsent :
      (x : Name) → IsAbsent a n x → compare_names k x ≢ Ordering.eq → IsAbsent b (n + 1) x
  others-IsAbsent x absent ne i lt = elim (place i lt) [
    | inl f ↦ rw (front_key i f) (absent i (omega (arith, l.0)))
    | inr (inl e) ↦ rw (e, new_key) ne
    | inr (inr (j, ge, lt', e)) ↦ rw (e, back_key j ge lt') (absent j lt')
  ]

  inserted_lookup : (x : Name) → lookup b (n + 1) x ≡ bound_to (lookup a n x) (compare_names k x) h
  inserted_lookup x = elim (lookup-cases a n x) [
    | inl (i, lt, e) ↦
        subst (λ y. lookup b (n + 1) y ≡ bound_to (lookup a n y) (compare_names k y) h) e
          (old_found i lt ∙ rw (lookup-at a n i sorted lt) refl)
    | inr absent ↦ rw (lookup-none a n x absent) (elim (Ordering-cases (compare_names k x)) [
      | inl c ↦
          rw (c, lookup-none b (n + 1) x (others-IsAbsent x absent (λ c'. ground (arith, c, c'))))
            refl
      | inr (inl c) ↦ rw c (ap (lookup b (n + 1)) (sym (compare_names-eq k x c)) ∙ new_found)
      | inr (inr c) ↦
          rw (c, lookup-none b (n + 1) x (others-IsAbsent x absent (λ c'. ground (arith, c, c'))))
            refl
    ])
  ]

-- What a call of `_insert_name` leaves.
pub record Inserted (ns : Names) (k : Name) (h : ℕ) (ret : Option Name) (ns' : Names) : Type 0 where
  pub valid : IsValid ns'
  pub returned : ret ≡ name_returned (handle_named ns k) k
  pub bound : (x : Name) → handle_named ns' x ≡ bound_to (handle_named ns x) (compare_names k x) h

module _ (ns : Names) (k : Name) (h : ℕ) (v : IsValid ns) where
  insert_before-Inserted :
      (b : ℕ)
      → ns.name_cap * 2 ≤ max_slot_size
      → Located ns.name ns.name_count k (missing b)
      → (ret : Option Name) × (ns' : Names) × (insert_name_before ns k h b ≡ some (ret, ns'))
        × Inserted ns k h ret ns'
  unfolding insert_name_before place_name
  insert_before-Inserted b small l =
      let (size, a', e, gap) = make_room-HasGap ns b v small l.0 in
      let new = gap-HasNew ns.name a' ns.name_count b size k h l.0 gap in
      let a'' = set a' b (record { svc_name = k; svc_handle = h }) in
      rw e (
        _,
        _,
        refl,
        record {
          valid = record {
            cap_pos = omega (arith, gap.larger);
            fits = omega (arith, gap.larger);
            cells = length-set a' b (record { svc_name = k; svc_handle = h }) ∙ gap.cells;
            sorted = inserted-IsSorted ns.name a'' ns.name_count b k h v.sorted l new;
          };
          returned =
              rw
                (lookup-none ns.name ns.name_count k (missing-IsAbsent ns.name ns.name_count k b l))
                refl;
          bound = inserted_lookup ns.name a'' ns.name_count b k h v.sorted l new;
        },
      )

  found-Inserted : (i : ℕ) → Located ns.name ns.name_count k (found i) → Inserted ns k h none ns
  found-Inserted i (lt, e) =
      let here =
        subst (λ y. handle_named ns y ≡ some ((entry ns.name i).svc_handle)) e
          (lookup-at ns.name ns.name_count i v.sorted lt) in
      record { valid = v; returned = rw here refl; bound = unchanged here }
    where
      unchanged :
          {g : ℕ}
          → handle_named ns k ≡ some g
          → (x : Name) → handle_named ns x ≡ bound_to (handle_named ns x) (compare_names k x) h
      unchanged here x = elim (Option-cases (handle_named ns x)) [
        | inl e' ↦ rw e' (elim (Ordering-cases (compare_names k x)) [
          | inl c ↦ rw c refl
          | inr (inl c) ↦ ground (arith, e', ap (handle_named ns) (compare_names-eq k x c), here)
          | inr (inr c) ↦ rw c refl
        ])
        | inr (g, e') ↦ rw e' refl
      ]

-- On valid names that can still double, `_insert_name` ends without a failed assert and keeps the
-- names valid. It binds the name to the handle and returns it, and changes no other name; a name that
-- is bound already keeps its handle, and then a null pointer is returned.
pub insert_name_lem :
    (ns : Names) (k : Name) (h : ℕ)
    → IsValid ns
    → ns.name_cap * 2 ≤ max_slot_size
    → (ret : Option Name) × (ns' : Names) × (insert_name ns k h ≡ some (ret, ns'))
      × Inserted ns k h ret ns'
unfolding insert_name insert_unless_found
insert_name_lem ns k h v small = let (s, e, l) = search_all-Located ns k v in rw e (result s l)
  where
    result :
        (s : Search)
        → Located ns.name ns.name_count k s
        → (ret : Option Name) × (ns' : Names) × (insert_unless_found ns k h (some s)
            ≡ some (ret, ns'))
          × Inserted ns k h ret ns'
    result (found i) l = (none, ns, refl, found-Inserted ns k h v i l)
    result (missing b) l = insert_before-Inserted ns k h v b small l
