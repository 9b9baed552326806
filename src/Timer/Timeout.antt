-- ===== src/Timer/Timeout.antt =====
-- Setting a timer, and the calls of the timer thread: `timeout` and `update_time`.
use native.Mathlib.Decide.{ℕ_discrete}
use skynet.Base.{
  ℕ, zero, suc, ◌+◌, ◌-◌, ◌%◌, ◌^◌, ◌<◌, ◌≤◌, ◌≡◌, ◌≢◌, ◌⊎◌, ltb, refl, ap, ap₂, ◌∙◌, Bool, false,
  List, [], ◌∷◌, ◌++◌, arith, ◌==◌, if◌then◌else◌, append-nil,
}
use skynet.Mq.Message.{Message}
use skynet.Timer.{
  Timer, TimerNode, Slot, near_slot, level_slot, Target, keep, move, exhausted, link, place,
  add_node, add_nodes, move_list, move_target, create_timer, timer_add, timer_shift, timer_execute,
  timer_update, updates, timeout, update_time, response,
}
use skynet.Timer.Place.{Ahead, next_time}
use skynet.Timer.Wheel.{
  at, pending, due, AllStand, pending-add_node, AllStand-add_node, time-add_node,
}
use skynet.Timer.Update.{IsWheel}
use skynet.Timer.Fire.{
  after_ticks, upcoming, upcoming-congr, upcoming-last, updates-fired, time-updates,
}

pub create-IsWheel : IsWheel create_timer
unfolding create_timer
create-IsWheel = record { small = omega arith; stands = none_there }
  where
    none_there : AllStand Ahead create_timer
    none_there (near_slot j) = tt
    none_there (level_slot i j) = tt

due_self : (e : ℕ) (n : TimerNode) → n.expire ≡ e → due e (n ∷ []) ≡ n ∷ []
due_self e n h = ground arith

due-other : (e : ℕ) (n : TimerNode) → n.expire ≢ e → due e (n ∷ []) ≡ []
due-other e n h = ground arith

module _ (w : Timer) (svc_handle session d : ℕ) (v : IsWheel w) (pos : 0 < d)
    (small : d < 2 ^ 31) where
  -- The node that `timer_add` makes.
  abbrev pub node : TimerNode
  node = record { expire = (d + w.time) % 2 ^ 32; svc_handle = svc_handle; session = session }

  pub add-IsWheel : IsWheel (timer_add w svc_handle session d)
  unfolding timer_add
  add-IsWheel = record {
    small = rw (time-add_node w node) v.small;
    stands = AllStand-add_node Ahead w node v.stands (omega arith) (λ same. omega (arith, v.small));
  }

  pending-add :
      (e : ℕ) → pending (timer_add w svc_handle session d) e ≡ pending w e ++ due e (node ∷ [])
  unfolding timer_add
  pending-add e = pending-add_node w node e

  time-add : (timer_add w svc_handle session d).time ≡ w.time
  unfolding timer_add
  time-add = time-add_node w node

  -- On a wheel in its invariant, a timer set for `d` ticks, where 0 < d < 2 ^ 31, leaves what the
  -- next `d - 1` ticks dispatch as it was, and is dispatched by the tick after them, behind the
  -- timers set before for the same time.
  pub timer_fires :
      (updates d (timer_add w svc_handle session d)).0
      ≡ upcoming w w.time (d - 1) ++ (pending w (after_ticks w.time d) ++ node ∷ []) ∷ []
  timer_fires =
      let w' : Timer = timer_add w svc_handle session d in
      let k : ℕ = d - 1 in
      let dk : d ≡ suc k = omega arith in
      let due_then : pending w' (after_ticks w.time (k + 1))
          ≡ pending w (after_ticks w.time d) ++ node ∷ [] =
        ap (λ i. pending w' (after_ticks w.time i)) {y = d} (omega arith)
        ∙ pending-add (after_ticks w.time d)
        ∙ ap (λ l. pending w (after_ticks w.time d) ++ l)
            (due_self (after_ticks w.time d) node (omega arith)) in
      updates-fired d w' (omega arith) add-IsWheel
      ∙ ap (λ t. upcoming w' t d) time-add
      ∙ ap (upcoming w' w.time) dk
      ∙ upcoming-last w' w.time k
      ∙ ap₂ (λ l x. l ++ x ∷ [])
          (upcoming-congr w w' w.time (after_ticks w.time d) k v.small
            (λ e lt ne.
              pending-add e
              ∙ ap (λ l. pending w e ++ l) (due-other e node (λ eq. ne (omega arith)))
              ∙ append-nil (pending w e))
            (λ i p q. omega (arith, v.small)))
          due_then

-- `timeout` with a positive time returns the session and sets the timer; otherwise it pushes the
-- response at once, leaves the wheel alone, and returns the session, or -1 if the push fails.
pub timeout_cases :
    (push_fails : ℕ → Message → Bool) (w : Timer) (svc_handle d session : ℕ)
    → ((0 < d)
        × (d < 2 ^ 31)
        × (timeout push_fails w svc_handle d session ≡ (session, timer_add w svc_handle session d)))
      ⊎ (((d ≡ 0) ⊎ (2 ^ 31 ≤ d))
          × (timeout push_fails w svc_handle d session
              ≡ (if push_fails svc_handle (response session) then 2 ^ 32 - 1 else session, w)))
unfolding timeout
timeout_cases push_fails w svc_handle d session = ground arith

-- The fields of the timer that only `update_time` writes.
abbrev clock : Timer → ℕ × ℕ × ℕ
clock w = (w.start_seconds, w.current, w.current_tick)

clock-link : (w : Timer) (s : Slot) (n : TimerNode) → clock (link w s n) ≡ clock w
clock-link w (near_slot j) n = refl
clock-link w (level_slot i j) n = refl

clock-add_nodes : (w : Timer) (ns : List TimerNode) → clock (add_nodes w ns) ≡ clock w
unfolding add_nodes add_node
clock-add_nodes w [] = refl
clock-add_nodes w (n ∷ ns) =
    clock-add_nodes (add_node w n) ns ∙ clock-link w (place w.time n.expire) n

clock-move_target : (w : Timer) (t : Target) → clock (move_target w t) ≡ clock w
unfolding move_list
clock-move_target w keep = refl
clock-move_target w (move i j) = clock-add_nodes _ (w.t i j)
clock-move_target w exhausted = refl

clock-update : (w : Timer) → clock (timer_update w).1 ≡ clock w
unfolding timer_update timer_execute timer_shift
clock-update w = clock-move_target _ _

clock-updates : (k : ℕ) (w : Timer) → clock (updates k w).1 ≡ clock w
unfolding updates
clock-updates zero w = refl
clock-updates (suc k) w = clock-updates k (timer_update w).1 ∙ clock-update w

-- What `update_time` is to leave behind after `diff` ticks, when the clock says `ct`.
abbrev pub CaughtUp : Timer → ℕ → ℕ → List (List TimerNode) × Timer → Type 0
CaughtUp w ct diff (fired, w') =
    (fired ≡ upcoming w w.time diff)
    × (w'.time ≡ after_ticks w.time diff)
    × (w'.current_tick ≡ ct)
    × (w'.current ≡ (w.current + diff) % 2 ^ 64)
    × IsWheel w'

standing :
    (w : Timer) (ct : ℕ)
    → IsWheel w
    → w.current < 2 ^ 64
    → ct ≡ w.current_tick
    → CaughtUp w ct (ct - w.current_tick) (update_time ct w)
unfolding update_time
standing w ct v fits e =
    let none : ct - w.current_tick ≡ 0 = omega arith in rw none (ground (arith, v))

abbrev clocked : Timer → ℕ → Timer
clocked w ct = record w {
  current_tick = ct;
  current = (w.current + (ct - w.current_tick) % 2 ^ 32) % 2 ^ 64;
}

going_runs :
    (w : Timer) (ct : ℕ)
    → w.current_tick < ct
    → ct - w.current_tick < 2 ^ 32
    → update_time ct w ≡ updates (ct - w.current_tick) (clocked w ct)
unfolding update_time
going_runs w ct lt le =
    let d : (ct - w.current_tick) % 2 ^ 32 ≡ ct - w.current_tick = omega arith in
    let on : ltb ct w.current_tick ≡ false = ground arith in
    let apart : (ct == w.current_tick) ≡ false = ground arith in
    rw (on, apart) (ap (λ k. updates k (clocked w ct)) d)

at-clocked : (w : Timer) (ct : ℕ) (s : Slot) → at (clocked w ct) s ≡ at w s
at-clocked w ct (near_slot j) = refl
at-clocked w ct (level_slot i j) = refl

going :
    (w : Timer) (ct : ℕ)
    → IsWheel w
    → w.current_tick < ct
    → ct - w.current_tick < 2 ^ 32
    → CaughtUp w ct (ct - w.current_tick) (update_time ct w)
going w ct v lt le =
    let k : ℕ = ct - w.current_tick in
    let w' : Timer = clocked w ct in
    let v' : IsWheel w' = record { small = v.small; stands = stands_still } in
    let c = clock-updates k w' in
    rw (going_runs w ct lt le) (
      updates-fired k w' (omega arith) v' ∙ upcoming-same k w.time,
      (time-updates k w' v').0,
      ap (λ (p : ℕ × ℕ × ℕ). p.2) c,
      ap (λ (p : ℕ × ℕ × ℕ). p.1) c ∙ ap (λ d. (w.current + d) % 2 ^ 64) (omega arith),
      (time-updates k w' v').1,
    )
  where
    stands_still : AllStand Ahead (clocked w ct)
    stands_still (near_slot j) = v.stands (near_slot j)
    stands_still (level_slot i j) = v.stands (level_slot i j)

    upcoming-same : (k now : ℕ) → upcoming (clocked w ct) now k ≡ upcoming w now k
    upcoming-same zero now = refl
    upcoming-same (suc k) now =
        ap₂ ◌∷◌ (ap (due (next_time now)) (at-clocked w ct _)) (upcoming-same k (next_time now))

-- On a wheel in its invariant whose 64-bit `current` is in range, when the clock has gone on by fewer
-- than 2 ^ 31 ticks since the last call, so that the int which counts them does not overflow,
-- `update_time` makes exactly these ticks: it dispatches what waited for them, tick by tick, and takes
-- over the clock.
pub update_time_catches_up :
    (w : Timer) (ct : ℕ)
    → IsWheel w
    → w.current < 2 ^ 64
    → w.current_tick ≤ ct
    → ct - w.current_tick < 2 ^ 31
    → CaughtUp w ct (ct - w.current_tick) (update_time ct w)
update_time_catches_up w ct v fits le lt = elim (ℕ_discrete ct w.current_tick) [
  | yes e ↦ standing w ct v fits e
  | no ne ↦ going w ct v (omega arith) (omega arith)
]
