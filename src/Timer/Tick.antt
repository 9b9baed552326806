-- ===== src/Timer/Tick.antt =====
-- One tick of the wheel: what `timer_execute`, `timer_update` and `timer_add` do to the nodes that
-- wait.
use skynet.Base.{
  ℕ, ◌%◌, ◌^◌, ◌≡◌, ◌≢◌, refl, sym, ap, ◌∙◌, inl, inr, List, [], ◌∷◌, arith, ◌==◌, if◌then◌else◌,
  Bool-cases,
}
use skynet.Timer.{Timer, TimerNode, Slot, near_slot, level_slot, set_near, timer_execute}
use skynet.Base.{bit_and_mask}
use skynet.Timer.Place.{place_by_blocks, Ahead, NotPast, place-due}
use skynet.Timer.Wheel.{
  at, same_slot, same_slot_eq, same_slot_ne, due, pending, Stands, AllStand, due-unrelated,
}
use skynet.Timer.Update.{IsWheel}

at-clear_near :
    (w : Timer) (j : ℕ) (r : Slot)
    → at (set_near w j []) r ≡ (if same_slot (near_slot j) r then [] else at w r)
at-clear_near w j (near_slot k) = ground arith
at-clear_near w j (level_slot h k) = refl

-- The list at the foot of the wheel.
abbrev foot : ℕ → Slot
foot now = near_slot (now % 2 ^ 8)

place-foot : (now e : ℕ) → place_by_blocks now e ≡ foot now → e ≡ now
place-foot now e h = ground arith

module _ (w : Timer) (all : AllStand NotPast w) where
  -- All of the list that is dispatched is due.
  foot-due : (ns : List TimerNode) → Stands NotPast w.time (foot w.time) ns → due w.time ns ≡ ns
  foot-due [] h = refl
  foot-due (n ∷ ns) h = ground (arith, (place-due w.time n.expire h.0.2).0 h.0.0, foot-due ns h.1)

  place-now : place_by_blocks w.time w.time ≡ foot w.time
  place-now = ground arith

  pub execute-fired : (timer_execute w).0 ≡ pending w w.time
  unfolding timer_execute
  execute-fired =
      rw (bit_and_mask 8 w.time, place-now)
        (sym (foot-due (w.near (w.time % 2 ^ 8)) (all (foot w.time))))

  unfoldable pub after : Timer
  after = set_near w (w.time % 2 ^ 8) []

  pub execute-after : (timer_execute w).1 ≡ after
  unfolding timer_execute after
  execute-after = rw (bit_and_mask 8 w.time)

  pub pending-after : (e : ℕ) → pending after e ≡ (if e == w.time then [] else pending w e)
  unfolding after
  pending-after e =
      let s : Slot = place_by_blocks w.time e in
      elim (Bool-cases (same_slot (foot w.time) s)) [
        | inl same ↦
            let now : e ≡ w.time = place-foot w.time e (sym (same_slot_eq (foot w.time) s same)) in
            rw (at-clear_near w (w.time % 2 ^ 8) s, same) (ground arith)
        | inr other ↦
            let apart : e ≢ w.time = λ eq.
              same_slot_ne (foot w.time) s other
                (sym (ap (place_by_blocks w.time) eq ∙ place-now)) in
            rw (at-clear_near w (w.time % 2 ^ 8) s, other) (ground arith)
      ]

  Stands-after :
      (s : Slot) (ns : List TimerNode)
      → s ≢ foot w.time
      → Stands NotPast w.time s ns
      → Stands Ahead w.time s ns
  Stands-after s [] ne h = tt
  Stands-after s (n ∷ ns) ne h =
      let later : n.expire ≢ w.time =
        λ eq. ne (sym h.0.0 ∙ (place-due w.time n.expire h.0.2).1 eq) in
      ((h.0.0, h.0.1, λ same. omega (arith, h.0.2 same)), Stands-after s ns ne h.1)

  pub after-AllStand : AllStand Ahead after
  unfolding after
  after-AllStand s = elim (Bool-cases (same_slot (foot w.time) s)) [
    | inl same ↦ rw (at-clear_near w (w.time % 2 ^ 8) s, same) tt
    | inr other ↦
        rw (at-clear_near w (w.time % 2 ^ 8) s, other)
          (Stands-after s (at w s) (λ eq. same_slot_ne _ s other (sym eq)) (all s))
  ]

-- Nothing is due between two ticks, so the first of the two dispatches of a tick finds nothing.
module _ (w : Timer) (v : IsWheel w) where
  pub not-NotPast : AllStand NotPast w
  not-NotPast s = weaken s (at w s) (v.stands s)
    where
      weaken :
          (s : Slot) (ns : List TimerNode) → Stands Ahead w.time s ns → Stands NotPast w.time s ns
      weaken s [] h = tt
      weaken s (n ∷ ns) h = ((h.0.0, h.0.1, λ same. omega (arith, h.0.2 same)), weaken s ns h.1)

  pub none_now : pending w w.time ≡ []
  none_now = due-unrelated Ahead w.time _ w.time (at w _) (v.stands _) (λ a. omega (arith, a refl))

  -- After the first dispatch the wheel is a wheel still, with the same nodes.
  unfoldable pub idle : Timer
  idle = after w not-NotPast

  pub idle-IsWheel : IsWheel idle
  unfolding idle after
  idle-IsWheel = record { small = v.small; stands = after-AllStand w not-NotPast }

  pub pending-idle : (e : ℕ) → pending idle e ≡ pending w e
  unfolding idle
  pending-idle e = ground (arith, pending-after w not-NotPast e, none_now)
