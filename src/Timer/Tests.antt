-- ===== src/Timer/Tests.antt =====
-- Runs of the wheel, and the theorems at concrete inputs.
use skynet.Base.{◌^◌, ◌≡◌, ◌⊎◌, refl, [], ◌∷◌, arith}
use skynet.Timer.{
  Timer, TimerNode, Slot, move, create_timer, timer_add, timer_shift, updates, update_time,
  shift_target, place, add_node, find_level, shift_loop,
}
use skynet.Timer.Place.{shift_target_lem, IsSlotOfTarget, place-next_time}
use skynet.Timer.Wheel.{pending}
use skynet.Timer.Update.{IsWheel, pending-shift}
use skynet.Timer.Fire.{upcoming, updates-fired}
use skynet.Timer.Timeout.{
  create-IsWheel, add-IsWheel, timer_fires, CaughtUp, update_time_catches_up,
}

abbrev event : TimerNode
event = record { expire = 3; svc_handle = 5; session = 9 }

-- A timer set for 300 ticks starts at level 0 and moves to the near lists at tick 256.
place_300 : (place 0 300 ≡ Slot.level_slot 0 1) × (place 256 300 ≡ Slot.near_slot 44)
unfolding place find_level
place_300 = (refl, refl)

-- The time comes round: level 3 is moved at 0.
target_0 : (shift_target 0 ≡ move 3 0) × (shift_target (2 ^ 14) ≡ move 1 1)
unfolding shift_target shift_loop
target_0 = (refl, refl)

abbrev armed : Timer
armed = timer_add create_timer 5 9 3

armed-IsWheel : IsWheel armed
unfolding create_timer
armed-IsWheel = add-IsWheel create_timer 5 9 3 create-IsWheel (omega arith) (omega arith)

timer_fires_example : (updates 3 armed).0 ≡ [] ∷ [] ∷ (event ∷ []) ∷ []
unfolding create_timer
timer_fires_example = timer_fires create_timer 5 9 3 create-IsWheel (omega arith) (omega arith)

updates-fired_example : (updates 4 armed).0 ≡ upcoming armed armed.time 4
updates-fired_example = updates-fired 4 armed (omega arith) armed-IsWheel

update_time_catches_up_example : CaughtUp armed 2 2 (update_time 2 armed)
unfolding timer_add add_node place create_timer
update_time_catches_up_example =
    update_time_catches_up armed 2 armed-IsWheel (omega arith) (omega arith) (omega arith)

pending-shift_example : pending (timer_shift armed) 3 ≡ pending armed 3
pending-shift_example = pending-shift armed armed-IsWheel 3 (omega arith)

shift_target_lem_example : shift_target (2 ^ 14) ≡ move 1 1
shift_target_lem_example = shift_target_lem (2 ^ 14) (omega arith)

place-next_time_example :
    (place 256 300 ≡ place 255 300) ⊎ IsSlotOfTarget (shift_target 256) (place 255 300)
place-next_time_example = place-next_time 255 300 (omega arith) (omega arith) (λ same. omega arith)
