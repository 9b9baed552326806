-- ===== src/Service/Names/Room.antt =====
-- The loops of `_insert_name_before` (skynet-src/service/service_manager.cpp) that make room for a
-- name, in the array or in one of twice the size.
use native.Mathlib.Decide.{ℕ_discrete, dec_lt}
use skynet.Base.{
  ℕ, zero, suc, ◌+◌, ◌-◌, ◌*◌, ◌≤◌, ◌<◌, ◌≡◌, refl, sym, ◌∙◌, subst, ◌⊎◌, inl, inr, some, List,
  length, length-set, length-replicate, get_or-set_self, get_or-set_ne, set, replicate, arith,
}
use skynet.Service.Names.{
  HandleName, Names, blank, entry, copy_range, shift_up, make_room, max_slot_size,
}
use skynet.Service.Names.Sorted.{IsValid}

pub length-copy_range :
    (r d i : ℕ) (a n : List HandleName) → length (copy_range r d i a n) ≡ length n
unfolding copy_range
length-copy_range zero d i a n = refl
length-copy_range (suc r) d i a n =
    length-copy_range r d (i + 1) a (set n (i + d) (entry a i)) ∙ length-set n (i + d) (entry a i)

copy_range-outside :
    (r d i j : ℕ) (a n : List HandleName)
    → (j < i + d) ⊎ (i + d + r ≤ j)
    → entry (copy_range r d i a n) j ≡ entry n j
unfolding copy_range
copy_range-outside zero d i j a n h = refl
copy_range-outside (suc r) d i j a n h =
    copy_range-outside r d (i + 1) j a (set n (i + d) (entry a i)) (ground (arith, h))
    ∙ get_or-set_ne n (i + d) j (entry a i) blank (λ e. ground (arith, h))

copy_range-inside :
    (r d i j : ℕ) (a n : List HandleName)
    → i ≤ j
    → j < i + r
    → i + r + d ≤ length n
    → entry (copy_range r d i a n) (j + d) ≡ entry a j
unfolding copy_range
copy_range-inside zero d i j a n ge lt fits = absurd (omega arith)
copy_range-inside (suc r) d i j a n ge lt fits = elim (ℕ_discrete i j) [
  | yes e ↦
      subst (λ x. entry (copy_range r d (i + 1) a (set n (i + d) (entry a i))) (x + d) ≡ entry a x)
        e
        (copy_range-outside r d (i + 1) (i + d) a (set n (i + d) (entry a i)) (inl (omega arith))
          ∙ get_or-set_self n (i + d) (entry a i) blank (omega arith))
  | no ne ↦
      copy_range-inside r d (i + 1) j a (set n (i + d) (entry a i)) (omega arith) (omega arith)
        (omega (arith, length-set n (i + d) (entry a i)))
]

length-shift_up : (r b : ℕ) (a : List HandleName) → length (shift_up r b a) ≡ length a
unfolding shift_up
length-shift_up zero b a = refl
length-shift_up (suc r) b a =
    length-shift_up r b (set a (b + r + 1) (entry a (b + r)))
    ∙ length-set a (b + r + 1) (entry a (b + r))

shift_up-outside :
    (r b j : ℕ) (a : List HandleName) → (j ≤ b) ⊎ (b + r < j) → entry (shift_up r b a) j ≡ entry a j
unfolding shift_up
shift_up-outside zero b j a h = refl
shift_up-outside (suc r) b j a h =
    shift_up-outside r b j (set a (b + r + 1) (entry a (b + r))) (ground (arith, h))
    ∙ get_or-set_ne a (b + r + 1) j (entry a (b + r)) blank (λ e. ground (arith, h))

shift_up-inside :
    (r b j : ℕ) (a : List HandleName)
    → b ≤ j
    → j < b + r
    → b + r < length a
    → entry (shift_up r b a) (j + 1) ≡ entry a j
unfolding shift_up
shift_up-inside zero b j a ge lt fits = absurd (omega arith)
shift_up-inside (suc r) b j a ge lt fits = elim (ℕ_discrete j (b + r)) [
  | yes e ↦
      shift_up-outside r b (j + 1) (set a (b + r + 1) (entry a (b + r))) (inr (omega arith))
      ∙ subst (λ x. entry (set a (b + r + 1) (entry a (b + r))) (x + 1) ≡ entry a x) (sym e)
          (get_or-set_self a (b + r + 1) (entry a (b + r)) blank (omega arith))
  | no ne ↦
      shift_up-inside r b j (set a (b + r + 1) (entry a (b + r))) ge (omega arith)
        (omega (arith, length-set a (b + r + 1) (entry a (b + r))))
      ∙ get_or-set_ne a (b + r + 1) j (entry a (b + r)) blank (λ e. omega arith)
]

-- The n entries of an array with a gap at `before`.
pub record HasGap (n before size : ℕ) (a a' : List HandleName) : Type 0 where
  pub cells : length a' ≡ size
  pub larger : n < size
  pub front : (i : ℕ) → i < before → entry a' i ≡ entry a i
  pub back : (i : ℕ) → before ≤ i → i < n → entry a' (i + 1) ≡ entry a i

copied-HasGap :
    (n before size : ℕ) (a : List HandleName)
    → before ≤ n
    → n < size
    → HasGap n before size a
        (copy_range (n - before) 1 before a (copy_range before 0 0 a (replicate size blank)))
copied-HasGap n before size a le lt =
    let first = copy_range before 0 0 a (replicate size blank) in
    let kept : length first ≡ size =
      length-copy_range before 0 0 a (replicate size blank) ∙ length-replicate size blank in
    record {
      cells = length-copy_range (n - before) 1 before a first ∙ kept;
      larger = lt;
      front = λ i h.
          copy_range-outside (n - before) 1 before i a first (inl (omega arith))
          ∙ subst (λ x. entry first x ≡ entry a i) (omega arith)
              (copy_range-inside before 0 0 i a (replicate size blank) (omega arith) (omega arith)
                (omega (arith, length-replicate size blank)));
      back = λ i ge h.
          copy_range-inside (n - before) 1 before i a first ge (omega arith) (omega arith);
    }

shifted-HasGap :
    (n before size : ℕ) (a : List HandleName)
    → before ≤ n
    → n < size
    → length a ≡ size
    → HasGap n before size a (shift_up (n - before) before a)
shifted-HasGap n before size a le lt whole = record {
  cells = length-shift_up (n - before) before a ∙ whole;
  larger = lt;
  front = λ i h. shift_up-outside (n - before) before i a (inl (omega arith));
  back = λ i ge h. shift_up-inside (n - before) before i a ge (omega arith) (omega arith);
}

pub make_room-HasGap :
    (ns : Names) (before : ℕ)
    → IsValid ns
    → ns.name_cap * 2 ≤ max_slot_size
    → before ≤ ns.name_count
    → (size : ℕ) × (a : List HandleName) × (make_room ns before ≡ some (size, a))
      × HasGap ns.name_count before size ns.name a
unfolding make_room
make_room-HasGap ns before v small le = elim (dec_lt ns.name_count ns.name_cap) [
  | yes lt ↦ (
    ns.name_cap,
    _,
    ground arith,
    shifted-HasGap ns.name_count before ns.name_cap ns.name le lt v.cells,
  )
  | no ge ↦ (
    ns.name_cap * 2,
    _,
    ground arith,
    copied-HasGap ns.name_count before (ns.name_cap * 2) ns.name le (omega (arith, v.cap_pos)),
  )
]
