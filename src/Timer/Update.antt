-- ===== src/Timer/Update.antt =====
-- What `timer_shift` does to the nodes that wait.
use native.Mathlib.Decide.{ℕ_discrete, dec_lt}
use skynet.Base.{
  ℕ, ◌/◌, ◌^◌, ◌<◌, ◌≡◌, ◌≢◌, refl, sym, ap, subst, ◌∙◌, ◌⊎◌, inl, inr, List, [], ◌∷◌, ◌++◌, arith,
  if◌then◌else◌, Bool-cases, append-nil,
}
use skynet.Timer.{
  Timer, TimerNode, Slot, near_slot, level_slot, Target, keep, move, exhausted, set_level,
  move_list, move_target, shift_target, timer_shift,
}
use skynet.Timer.Place.{
  place_by_blocks, target_by_blocks, shift_target_lem, Ahead, NotPast, next_time, next-NotPast,
  IsSlotOfTarget, step-KeepsPlace,
}
use skynet.Timer.Wheel.{
  at, same_slot, same_slot_eq, same_slot_ne, due, pending, Stands, Ready, AllStand, due-elsewhere,
  due-unrelated, pending-add_nodes, AllStand-add_nodes, time-add_nodes,
}

-- Between two ticks: every node stands where the code looks for it, and none is due.
pub record IsWheel (w : Timer) : Type 0 where
  pub small : w.time < 2 ^ 32
  pub stands : AllStand Ahead w

Ahead-cases : (now e : ℕ) → Ahead now e ⊎ ¬ Ahead now e
Ahead-cases now e = elim (dec_lt now e) [
  | yes lt ↦ inl (λ _. lt)
  | no ge ↦ elim (ℕ_discrete (e / 2 ^ 26) (now / 2 ^ 26)) [
    | yes same ↦ inr (λ a. ge (a same))
    | no other ↦ inl (λ same. absurd (other same))
  ]
]

at-clear_level :
    (w : Timer) (i j : ℕ) (r : Slot)
    → at (set_level w i j []) r ≡ (if same_slot (level_slot i j) r then [] else at w r)
at-clear_level w i j (near_slot k) = refl
at-clear_level w i j (level_slot h k) = ground arith

-- Moving the list of a target, where `ct` is the time to come and no other list has to move.
module _ (w : Timer) (v : IsWheel w) where
  abbrev ct : ℕ
  ct = next_time w.time

  abbrev later : Timer
  later = record w { time = ct }

  abbrev Covers : Target → Type 0
  Covers t =
      (e : ℕ)
      → e < 2 ^ 32
      → Ahead w.time e
      → (place_by_blocks ct e ≡ place_by_blocks w.time e)
        ⊎ IsSlotOfTarget t (place_by_blocks w.time e)

  nothing_due : (e : ℕ) (s : Slot) → ¬ Ahead w.time e → due e (at w s) ≡ []
  nothing_due e s = due-unrelated Ahead w.time s e (at w s) (v.stands s)

  nothing_at : (e : ℕ) (s : Slot) → place_by_blocks w.time e ≢ s → due e (at w s) ≡ []
  nothing_at e s = due-elsewhere Ahead w.time s e (at w s) (v.stands s)

  pending-keep :
      (e : ℕ)
      → (Ahead w.time e → place_by_blocks ct e ≡ place_by_blocks w.time e)
      → pending later e ≡ pending w e
  pending-keep e h = elim (Ahead-cases w.time e) [
    | inl a ↦ ap (λ s. due e (at w s)) (h a)
    | inr past ↦ nothing_due e _ past ∙ sym (nothing_due e _ past)
  ]

  at-later : (r : Slot) → at later r ≡ at w r
  at-later (near_slot j) = refl
  at-later (level_slot i j) = refl

  -- What is left of the moved list, and of any other.
  cleared :
      (i j : ℕ) (r : Slot)
      → at (set_level later i j []) r ≡ (if same_slot (level_slot i j) r then [] else at w r)
  cleared i j r =
      at-clear_level later i j r
      ∙ ap (λ l. if same_slot (level_slot i j) r then [] else l) (at-later r)

  module _ (i j e : ℕ) where
    cleared_past : (r : Slot) → ¬ Ahead w.time e → due e (at (set_level later i j []) r) ≡ []
    cleared_past r past = elim (Bool-cases (same_slot (level_slot i j) r)) [
      | inl same ↦ rw (cleared i j r, same)
      | inr other ↦ rw (cleared i j r, other) (nothing_due e r past)
    ]

    moved :
        (r s : Slot)
        → ((q : Slot) → s ≢ q → due e (at w q) ≡ [])
        → (r ≡ s) ⊎ (s ≡ level_slot i j)
        → due e (at (set_level later i j []) r) ++ due e (w.t i j) ≡ due e (at w s)
    moved r s only where_now = elim (Bool-cases (same_slot (level_slot i j) r)) [
      | inl same ↦
          let here : level_slot i j ≡ s = elim where_now [
            | inl eq ↦ same_slot_eq _ r same ∙ eq
            | inr eq ↦ sym eq
          ] in
          rw (cleared i j r, same) (ap (λ q. due e (at w q)) here)
      | inr other ↦ elim where_now [
        | inl eq ↦
            let apart : s ≢ level_slot i j = λ h. same_slot_ne _ r other (sym h ∙ sym eq) in
            rw (cleared i j r, other, only (level_slot i j) apart, append-nil)
              (ap (λ q. due e (at w q)) eq)
        | inr eq ↦
            let apart : s ≢ r = λ h. same_slot_ne _ r other (sym eq ∙ h) in
            rw (cleared i j r, other, only r apart) (ap (λ q. due e (at w q)) (sym eq))
      ]
    ]

    pending-move :
        (Ahead w.time e
          → (place_by_blocks ct e ≡ place_by_blocks w.time e)
            ⊎ (place_by_blocks w.time e ≡ level_slot i j))
        → pending (move_list later i j) e ≡ pending w e
    unfolding move_list
    pending-move h =
        pending-add_nodes (set_level later i j []) (w.t i j) e ∙ elim (Ahead-cases w.time e) [
          | inl a ↦ moved (place_by_blocks ct e) (place_by_blocks w.time e) (nothing_at e) (h a)
          | inr past ↦
              rw (cleared_past (place_by_blocks ct e) past, nothing_due e (level_slot i j) past)
                (sym (nothing_due e (place_by_blocks w.time e) past))
        ]

  pending-move_target :
      (t : Target) (e : ℕ) → e < 2 ^ 32 → Covers t → pending (move_target later t) e ≡ pending w e
  pending-move_target keep e lt c =
      pending-keep e (λ a. elim (c e lt a) [ inl eq ↦ eq | inr no_slot ↦ absurd no_slot ])
  pending-move_target (move i j) e lt c = pending-move i j e (c e lt)
  pending-move_target exhausted e lt c =
      pending-keep e (λ a. elim (c e lt a) [ inl eq ↦ eq | inr no_slot ↦ absurd no_slot ])

  -- On a wheel that is ready for it, `timer_shift` changes no node that waits, nor the order of
  -- those that wait for the same time.
  pub pending-shift : (e : ℕ) → e < 2 ^ 32 → pending (timer_shift w) e ≡ pending w e
  unfolding timer_shift
  pending-shift e lt = rw (shift_target_lem ct (omega arith)) (
      pending-move_target (target_by_blocks ct) e lt
        (λ x k a. step-KeepsPlace w.time x v.small k a))

  -- The nodes of a list, at the next time, whether they keep their place or not.
  Ready-next : (s : Slot) (ns : List TimerNode) → Stands Ahead w.time s ns → Ready NotPast ct ns
  Ready-next s [] h = tt
  Ready-next s (n ∷ ns) h =
      ((h.0.1, next-NotPast w.time n.expire v.small h.0.2), Ready-next s ns h.1)

  Stands-next :
      (t : Target) (s : Slot) (ns : List TimerNode)
      → Covers t
      → ¬ IsSlotOfTarget t s
      → Stands Ahead w.time s ns
      → Stands NotPast ct s ns
  Stands-next t s [] c out h = tt
  Stands-next t s (n ∷ ns) c out h = (
    (
      elim (c n.expire h.0.1 h.0.2) [
        | inl eq ↦ eq ∙ h.0.0
        | inr met ↦ absurd (out (subst (IsSlotOfTarget t) h.0.0 met))
      ],
      h.0.1,
      next-NotPast w.time n.expire v.small h.0.2,
    ),
    Stands-next t s ns c out h.1,
  )

  stay-AllStand :
      (t : Target) → Covers t → ((s : Slot) → ¬ IsSlotOfTarget t s) → AllStand NotPast later
  stay-AllStand t c out s = rw (at-later s) (Stands-next t s (at w s) c (out s) (v.stands s))

  cleared-AllStand : (i j : ℕ) → Covers (move i j) → AllStand NotPast (set_level later i j [])
  cleared-AllStand i j c s = elim (Bool-cases (same_slot (level_slot i j) s)) [
    | inl same ↦ rw (cleared i j s, same) tt
    | inr other ↦
        rw (cleared i j s, other)
          (Stands-next (move i j) s (at w s) c (λ eq. same_slot_ne _ s other (sym eq)) (v.stands s))
  ]

  move_target-AllStand : (t : Target) → Covers t → AllStand NotPast (move_target later t)
  unfolding move_list
  move_target-AllStand keep c = stay-AllStand keep c (λ s h. h)
  move_target-AllStand (move i j) c =
      AllStand-add_nodes NotPast (set_level later i j []) (w.t i j) (cleared-AllStand i j c)
        (Ready-next (level_slot i j) (w.t i j) (v.stands (level_slot i j)))
  move_target-AllStand exhausted c = stay-AllStand exhausted c (λ s h. h)

  pub shift-AllStand : AllStand NotPast (timer_shift w)
  unfolding timer_shift
  shift-AllStand =
      rw (shift_target_lem ct (omega arith))
        (move_target-AllStand (target_by_blocks ct) (λ x k a. step-KeepsPlace w.time x v.small k a))

  time-move_target : (t : Target) → (move_target later t).time ≡ ct
  unfolding move_list
  time-move_target keep = refl
  time-move_target (move i j) = time-add_nodes (set_level later i j []) (w.t i j)
  time-move_target exhausted = refl

  pub time-shift : (timer_shift w).time ≡ ct
  unfolding timer_shift
  time-shift = time-move_target (shift_target ct)
