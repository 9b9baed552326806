-- ===== src/Timer/Place.antt =====
-- Where a node stands in the wheel, and that `timer_shift` moves exactly the lists that are due.
use Prim.Native.Nat.{bit_and}
use native.Mathlib.Decide.{ℕ_discrete}
use skynet.Base.{
  ℕ, suc, ◌+◌, ◌-◌, ◌*◌, ◌/◌, ◌%◌, ◌^◌, ◌≤◌, ◌<◌, ◌≡◌, ◌≢◌, ◌↔◌, sym, ◌∙◌, ◌⊎◌, inl, arith, ◌==◌,
  if◌then◌else◌, not,
}
use skynet.Timer.{
  Slot, near_slot, level_slot, Target, keep, move, exhausted, find_level, place, shift_loop,
  shift_target,
}
use skynet.Base.{bit_and_mask, bit_or_mask}

-- `place` by quotients: the first block size at which the two times agree gives the list.
abbrev pub place_by_blocks : ℕ → ℕ → Slot
place_by_blocks now e =
    if e / 2 ^ 8 == now / 2 ^ 8
    then near_slot (e % 2 ^ 8)
    else if e / 2 ^ 14 == now / 2 ^ 14
    then level_slot 0 (e / 2 ^ 8 % 2 ^ 6)
    else if e / 2 ^ 20 == now / 2 ^ 20
    then level_slot 1 (e / 2 ^ 14 % 2 ^ 6)
    else if e / 2 ^ 26 == now / 2 ^ 26
    then level_slot 2 (e / 2 ^ 20 % 2 ^ 6)
    else level_slot 3 (e / 2 ^ 26 % 2 ^ 6)

pub place_lem : (now e : ℕ) → place now e ≡ place_by_blocks now e
unfolding place find_level
place_lem now e = ground (
  arith,
  bit_and_mask 8 e,
  bit_or_mask 8 e,
  bit_or_mask 8 now,
  bit_or_mask 14 e,
  bit_or_mask 14 now,
  bit_or_mask 20 e,
  bit_or_mask 20 now,
  bit_or_mask 26 e,
  bit_or_mask 26 now,
  bit_and_mask 6 (e / 2 ^ 8),
  bit_and_mask 6 (e / 2 ^ 14),
  bit_and_mask 6 (e / 2 ^ 20),
  bit_and_mask 6 (e / 2 ^ 26),
)

-- `shift_target` by quotients.
abbrev pub target_by_blocks : ℕ → Target
target_by_blocks ct =
    if ct == 0
    then move 3 0
    else if not (ct % 2 ^ 8 == 0)
    then keep
    else if not (ct / 2 ^ 8 % 2 ^ 6 == 0)
    then move 0 (ct / 2 ^ 8 % 2 ^ 6)
    else if not (ct / 2 ^ 14 % 2 ^ 6 == 0)
    then move 1 (ct / 2 ^ 14 % 2 ^ 6)
    else if not (ct / 2 ^ 20 % 2 ^ 6 == 0)
    then move 2 (ct / 2 ^ 20 % 2 ^ 6)
    else move 3 (ct / 2 ^ 26 % 2 ^ 6)

-- The loop from its level `i` on, where the mask is `m - 1` and `q` is the time above the levels
-- passed.
shift_loop-stop :
    (fuel ct m q i : ℕ) → bit_and ct (m - 1) ≢ 0 → shift_loop (suc fuel) ct m q i ≡ keep
unfolding shift_loop
shift_loop-stop fuel ct m q i h = ground arith

shift_loop-move :
    (fuel ct m q i : ℕ)
    → bit_and ct (m - 1) ≡ 0
    → q % 2 ^ 6 ≢ 0
    → shift_loop (suc fuel) ct m q i ≡ move i (q % 2 ^ 6)
unfolding shift_loop
shift_loop-move fuel ct m q i h k = ground (arith, bit_and_mask 6 q)

shift_loop-next :
    (fuel ct m q i : ℕ)
    → bit_and ct (m - 1) ≡ 0
    → q % 2 ^ 6 ≡ 0
    → shift_loop (suc fuel) ct m q i ≡ shift_loop fuel ct (m * 2 ^ 6) (q / 2 ^ 6) (i + 1)
unfolding shift_loop
shift_loop-next fuel ct m q i h k = ground (arith, bit_and_mask 6 q)

module _ (ct : ℕ) where
  low : (k : ℕ) → ct % 2 ^ k ≡ 0 → bit_and ct (2 ^ k - 1) ≡ 0
  low k h = bit_and_mask k ct ∙ h

  -- The same loop at the third and fourth level.
  last_levels :
      ct ≢ 0
      → ct < 2 ^ 32
      → ct % 2 ^ 20 ≡ 0
      → shift_loop 2 ct (2 ^ 20) (ct / 2 ^ 8 / 2 ^ 6 / 2 ^ 6) 2 ≡ (
          if not (ct / 2 ^ 20 % 2 ^ 6 == 0)
          then move 2 (ct / 2 ^ 20 % 2 ^ 6)
          else move 3 (ct / 2 ^ 26 % 2 ^ 6))
  last_levels ne lt h = elim (ℕ_discrete (ct / 2 ^ 20 % 2 ^ 6) 0) [
    | no more ↦
        shift_loop-move 1 ct (2 ^ 20) (ct / 2 ^ 8 / 2 ^ 6 / 2 ^ 6) 2 (low 20 h) (omega arith)
        ∙ ground arith
    | yes e ↦
        shift_loop-next 1 ct (2 ^ 20) (ct / 2 ^ 8 / 2 ^ 6 / 2 ^ 6) 2 (low 20 h) (omega arith)
        ∙ shift_loop-move 0 ct (2 ^ 26) (ct / 2 ^ 8 / 2 ^ 6 / 2 ^ 6 / 2 ^ 6) 3
            (low 26 (omega arith)) (omega arith)
        ∙ ground arith
  ]

  first_levels : ct ≢ 0 → ct < 2 ^ 32 → shift_loop 4 ct (2 ^ 8) (ct / 2 ^ 8) 0 ≡ target_by_blocks ct
  first_levels ne lt = elim (ℕ_discrete (ct % 2 ^ 8) 0) [
    | no odd ↦
        shift_loop-stop 3 ct (2 ^ 8) (ct / 2 ^ 8) 0 (λ h. odd (sym (bit_and_mask 8 ct) ∙ h))
        ∙ ground arith
    | yes h ↦ elim (ℕ_discrete (ct / 2 ^ 8 % 2 ^ 6) 0) [
      | no more ↦ shift_loop-move 3 ct (2 ^ 8) (ct / 2 ^ 8) 0 (low 8 h) more ∙ ground arith
      | yes e ↦
          shift_loop-next 3 ct (2 ^ 8) (ct / 2 ^ 8) 0 (low 8 h) e
          ∙ elim (ℕ_discrete (ct / 2 ^ 14 % 2 ^ 6) 0) [
            | no more ↦
                shift_loop-move 2 ct (2 ^ 14) (ct / 2 ^ 8 / 2 ^ 6) 1 (low 14 (omega arith))
                  (omega arith)
                ∙ ground arith
            | yes e' ↦
                shift_loop-next 2 ct (2 ^ 14) (ct / 2 ^ 8 / 2 ^ 6) 1 (low 14 (omega arith))
                  (omega arith)
                ∙ last_levels ne lt (omega arith)
                ∙ ground arith
          ]
    ]
  ]

  -- At every 32-bit time the loop of `timer_shift` ends within its four levels, at
  -- the list that the digits of the time name.
  pub shift_target_lem : ct < 2 ^ 32 → shift_target ct ≡ target_by_blocks ct
  unfolding shift_target
  shift_target_lem lt = elim (ℕ_discrete ct 0) [
    | yes z ↦ ground arith
    | no ne ↦ ground (arith, first_levels ne lt)
  ]

-- A node that expires at `e` is not yet due at `now`: within the blocks of the first three levels the
-- times do not wrap.
abbrev pub Ahead : ℕ → ℕ → Type 0
Ahead now e = e / 2 ^ 26 ≡ now / 2 ^ 26 → now < e

-- Nor overdue.
abbrev pub NotPast : ℕ → ℕ → Type 0
NotPast now e = e / 2 ^ 26 ≡ now / 2 ^ 26 → now ≤ e

abbrev pub IsSlotOfTarget : Target → Slot → Type 0
IsSlotOfTarget keep s = ⊥
IsSlotOfTarget (move i j) s = s ≡ level_slot i j
IsSlotOfTarget exhausted s = ⊥

abbrev pub next_time : ℕ → ℕ
next_time now = (now + 1) % 2 ^ 32

pub next-NotPast : (now e : ℕ) → now < 2 ^ 32 → Ahead now e → NotPast (next_time now) e
next-NotPast now e lt a h = grind arith

-- A node keeps its place in the wheel, or its list is the one that is moved.
abbrev pub KeepsPlace : ℕ → ℕ → Type 0
KeepsPlace now e =
    (place_by_blocks (next_time now) e ≡ place_by_blocks now e)
    ⊎ IsSlotOfTarget (target_by_blocks (next_time now)) (place_by_blocks now e)

-- Within the low 26 digits a node that is ahead does not share a block that ends with `now`.
wrap-KeepsPlace : (now e : ℕ) → now + 1 ≡ 2 ^ 32 → e < 2 ^ 32 → Ahead now e → KeepsPlace now e
wrap-KeepsPlace now e w lt a = let here : now ≡ 2 ^ 32 - 1 = omega arith in rw here (ground arith)

module _ (now e : ℕ) (lt : now + 1 < 2 ^ 32) (a : Ahead now e) where
  same_next : next_time now ≡ now + 1
  same_next = omega arith

  within-KeepsPlace : (now + 1) % 2 ^ 8 ≢ 0 → KeepsPlace now e
  within-KeepsPlace h =
      let e8 : (now + 1) / 2 ^ 8 ≡ now / 2 ^ 8 = omega arith in
      let e14 : (now + 1) / 2 ^ 14 ≡ now / 2 ^ 14 = omega arith in
      let e20 : (now + 1) / 2 ^ 20 ≡ now / 2 ^ 20 = omega arith in
      let e26 : (now + 1) / 2 ^ 26 ≡ now / 2 ^ 26 = omega arith in
      inl (rw (same_next, e8, e14, e20, e26))

  first-KeepsPlace : (now + 1) % 2 ^ 8 ≡ 0 → (now + 1) / 2 ^ 8 % 2 ^ 6 ≢ 0 → KeepsPlace now e
  first-KeepsPlace h k =
      let e14 : (now + 1) / 2 ^ 14 ≡ now / 2 ^ 14 = omega arith in
      let e20 : (now + 1) / 2 ^ 20 ≡ now / 2 ^ 20 = omega arith in
      let e26 : (now + 1) / 2 ^ 26 ≡ now / 2 ^ 26 = omega arith in
      rw (same_next, e14, e20, e26) (ground arith)

  second-KeepsPlace : (now + 1) % 2 ^ 14 ≡ 0 → (now + 1) / 2 ^ 14 % 2 ^ 6 ≢ 0 → KeepsPlace now e
  second-KeepsPlace h k =
      let e20 : (now + 1) / 2 ^ 20 ≡ now / 2 ^ 20 = omega arith in
      let e26 : (now + 1) / 2 ^ 26 ≡ now / 2 ^ 26 = omega arith in
      rw (same_next, e20, e26) (ground arith)

  third-KeepsPlace : (now + 1) % 2 ^ 20 ≡ 0 → (now + 1) / 2 ^ 20 % 2 ^ 6 ≢ 0 → KeepsPlace now e
  third-KeepsPlace h k =
      let e26 : (now + 1) / 2 ^ 26 ≡ now / 2 ^ 26 = omega arith in
      rw (same_next, e26) (ground arith)

  fourth-KeepsPlace : e < 2 ^ 32 → (now + 1) % 2 ^ 26 ≡ 0 → KeepsPlace now e
  fourth-KeepsPlace le h = rw same_next (ground arith)

  digits-KeepsPlace : e < 2 ^ 32 → KeepsPlace now e
  digits-KeepsPlace le = elim (ℕ_discrete ((now + 1) % 2 ^ 8) 0) [
    | no h ↦ within-KeepsPlace h
    | yes h ↦ elim (ℕ_discrete ((now + 1) / 2 ^ 8 % 2 ^ 6) 0) [
      | no k ↦ first-KeepsPlace h k
      | yes k ↦ elim (ℕ_discrete ((now + 1) / 2 ^ 14 % 2 ^ 6) 0) [
        | no k' ↦ second-KeepsPlace (omega arith) k'
        | yes k' ↦ elim (ℕ_discrete ((now + 1) / 2 ^ 20 % 2 ^ 6) 0) [
          | no k'' ↦ third-KeepsPlace (omega arith) k''
          | yes k'' ↦ fourth-KeepsPlace le (omega arith)
        ]
      ]
    ]
  ]

-- By quotients, also over the wrap of the 32-bit time.
pub step-KeepsPlace : (now e : ℕ) → now < 2 ^ 32 → e < 2 ^ 32 → Ahead now e → KeepsPlace now e
step-KeepsPlace now e lt le a = elim (ℕ_discrete (now + 1) (2 ^ 32)) [
  | yes w ↦ wrap-KeepsPlace now e w le a
  | no ne ↦ digits-KeepsPlace now e (omega arith) a le
]

-- When the 32-bit time steps, also over the wrap, `add_node` would put a node that is ahead where it
-- would have put it before the step, unless that list is the one that the loop of `timer_shift` moves.
pub place-next_time :
    (now e : ℕ)
    → now < 2 ^ 32
    → e < 2 ^ 32
    → Ahead now e
    → (place (next_time now) e ≡ place now e)
      ⊎ IsSlotOfTarget (shift_target (next_time now)) (place now e)
place-next_time now e lt le a =
    rw
      (place_lem (next_time now) e, place_lem now e, shift_target_lem (next_time now) (omega arith))
      (step-KeepsPlace now e lt le a)

-- A node that is not overdue stands in the list that is dispatched exactly when it is due.
pub place-due :
    (now e : ℕ) → NotPast now e → (place_by_blocks now e ≡ near_slot (now % 2 ^ 8)) ↔ (e ≡ now)
place-due now e np = (λ h. ground arith, λ h. ground arith)
