-- ===== src/Timer.antt =====
-- The timer wheel (skynet-src/timer): timer.h, timer.cpp and timer_manager.cpp. A `link_list` is the
-- list of its nodes from the head to the tail, so `link` appends and `link_clear` empties; the arrays
-- `near` and `t` are functions of their indices. Times are `uint32_t` and wrap.
pub mod Place
pub mod Wheel
pub mod Update
pub mod Tick
pub mod Fire
pub mod Timeout
mod Tests
use Prim.Native.Nat.{bit_and, bit_or}
use skynet.Base.{
  ℕ, zero, suc, ◌+◌, ◌-◌, ◌*◌, ◌/◌, ◌%◌, ◌^◌, Bool, true, false, not, ◌||◌, List, [], ◌∷◌, ◌++◌,
  ltb, leb, ◌==◌, if◌then◌else◌, map,
}
use skynet.Mq.Message.{Message}

abbrev pub time_near_shift : ℕ
time_near_shift = 8

abbrev pub time_near : ℕ
time_near = 2 ^ 8

abbrev pub time_level_shift : ℕ
time_level_shift = 6

abbrev pub time_level : ℕ
time_level = 2 ^ 6

abbrev pub time_near_mask : ℕ
time_near_mask = time_near - 1

abbrev pub time_level_mask : ℕ
time_level_mask = time_level - 1

-- A `timer_node` with the `timer_event` behind it; the session is the bit pattern of an `int`.
pub record TimerNode : Type 0 where
  pub expire : ℕ
  pub svc_handle : ℕ
  pub session : ℕ

pub record Timer : Type 0 where
  pub near : ℕ → List TimerNode
  pub t : ℕ → ℕ → List TimerNode
  pub time : ℕ
  pub start_seconds : ℕ
  pub current : ℕ
  pub current_tick : ℕ

-- One of the lists of the wheel: `near[j]` or `t[i][j]`.
pub data Slot : Type 0 where
  near_slot : ℕ → Slot
  level_slot : ℕ → ℕ → Slot

abbrev pub set_near : Timer → ℕ → List TimerNode → Timer
set_near w j l = record w { near = λ k. if k == j then l else w.near k }

abbrev pub set_level : Timer → ℕ → ℕ → List TimerNode → Timer
set_level w i j l = record w {
  t = λ h k. if h == i then (if k == j then l else w.t h k) else w.t h k;
}

-- `link`
abbrev pub link : Timer → Slot → TimerNode → Timer
link w (near_slot j) n = set_near w j (w.near j ++ n ∷ [])
link w (level_slot i j) n = set_level w i j (w.t i j ++ n ∷ [])

-- The loop of `add_node` over the levels: the level at which it stops.
unfoldable pub find_level : ℕ → ℕ → ℕ → ℕ → ℕ → ℕ
find_level zero i mask time current_time = i
find_level (suc rounds) i mask time current_time =
    let rest = find_level rounds (i + 1) (mask * 2 ^ 6 % 2 ^ 32) time current_time in
    if bit_or time (mask - 1) == bit_or current_time (mask - 1) then i else rest

-- The list to which `add_node` links a node that expires at `time`.
unfoldable pub place : ℕ → ℕ → Slot
place current_time time =
    if bit_or time time_near_mask == bit_or current_time time_near_mask
    then near_slot (bit_and time time_near_mask)
    else (let i = find_level 3 0 (time_near * 2 ^ 6) time current_time in
        level_slot i
          (bit_and (time / 2 ^ (time_near_shift + i * time_level_shift)) time_level_mask))

-- `add_node`
unfoldable pub add_node : Timer → TimerNode → Timer
add_node w n = link w (place w.time n.expire) n

unfoldable pub add_nodes : Timer → List TimerNode → Timer
add_nodes w [] = w
add_nodes w (n ∷ ns) = add_nodes (add_node w n) ns

-- `move_list`
unfoldable pub move_list : Timer → ℕ → ℕ → Timer
move_list w level idx = add_nodes (set_level w level idx []) (w.t level idx)

-- What the loop of `timer_shift` finds: nothing to move, or a list. `exhausted` says that its fuel
-- ran out, which Timer/Place.antt rules out.
pub data Target : Type 0 where
  keep : Target
  move : ℕ → ℕ → Target
  exhausted : Target

unfoldable pub shift_loop : ℕ → ℕ → ℕ → ℕ → ℕ → Target
shift_loop zero ct mask time i = exhausted
shift_loop (suc fuel) ct mask time i =
    let rest = shift_loop fuel ct (mask * 2 ^ 6) (time / 2 ^ 6) (i + 1) in
    let idx = bit_and time time_level_mask in
    if bit_and ct (mask - 1) == 0 then (if not (idx == 0) then move i idx else rest) else keep

-- The list that `timer_shift` moves when the time becomes `ct`. The wheel has four levels.
unfoldable pub shift_target : ℕ → Target
shift_target ct =
    if ct == 0 then move 3 0 else shift_loop 4 ct time_near (ct / 2 ^ time_near_shift) 0

abbrev pub move_target : Timer → Target → Timer
move_target w keep = w
move_target w (move i idx) = move_list w i idx
move_target w exhausted = w

-- `timer_shift`
unfoldable pub timer_shift : Timer → Timer
timer_shift w =
    let ct = (w.time + 1) % 2 ^ 32 in move_target (record w { time = ct }) (shift_target ct)

-- `timer_execute`: the nodes that are dispatched, in order, and the timer. The loop of the code tests
-- the list again after it has let go of the lock; nothing is added meanwhile in this model, so it is
-- then empty.
unfoldable pub timer_execute : Timer → List TimerNode × Timer
timer_execute w = let idx = bit_and w.time time_near_mask in (w.near idx, set_near w idx [])

-- `timer_update`
unfoldable pub timer_update : Timer → List TimerNode × Timer
timer_update w =
    let (first, w₁) = timer_execute w in
    let (second, w₂) = timer_execute (timer_shift w₁) in (first ++ second, w₂)

-- `timer_add`; `time` is the bit pattern of an `int`.
unfoldable pub timer_add : Timer → ℕ → ℕ → ℕ → Timer
timer_add w svc_handle session time =
    add_node w
      (record { expire = (time + w.time) % 2 ^ 32; svc_handle = svc_handle; session = session })

-- `create_timer`
unfoldable pub create_timer : Timer
create_timer = record {
  near = λ j. [];
  t = λ i j. [];
  time = 0;
  start_seconds = 0;
  current = 0;
  current_tick = 0;
}

-- The `data_size` of a response: the type in the top byte.
abbrev pub response_size : ℕ
response_size = 1 * 2 ^ 56

-- The message that `dispatch_list` and `timeout` send for an event.
abbrev pub response : ℕ → Message
response session = record {
  src_svc_handle = 0;
  session_id = session;
  data_ptr = 0;
  data_size = response_size;
}

-- `dispatch_list`: what is pushed to which service, in order.
unfoldable pub dispatch_list : List TimerNode → List (ℕ × Message)
dispatch_list ns = map (λ n. (n.svc_handle, response n.session)) ns

-- `timer_manager::timeout`. The parameter says whether `push_service_message` fails. The result is
-- the value that is returned, the pattern of -1 on a failure, and the timer.
unfoldable pub timeout : (ℕ → Message → Bool) → Timer → ℕ → ℕ → ℕ → ℕ × Timer
timeout push_fails w svc_handle time session_id =
    if time == 0 || leb (2 ^ 31) time
    then (if push_fails svc_handle (response session_id) then 2 ^ 32 - 1 else session_id, w)
    else (session_id, timer_add w svc_handle session_id time)

-- `for (int i = 0; i < diff; i++) timer_update(TI_);`: what each update dispatches.
-- From 2 ^ 31 rounds on the counter of the code overflows; here it does not.
unfoldable pub updates : ℕ → Timer → List (List TimerNode) × Timer
updates zero w = ([], w)
updates (suc n) w =
    let (fired, w') = timer_update w in let (later, last) = updates n w' in (fired ∷ later, last)

-- `timer_manager::update_time`, when the clock says `ct`.
unfoldable pub update_time : ℕ → Timer → List (List TimerNode) × Timer
update_time ct w =
    if ltb ct w.current_tick
    then ([], record w { current_tick = ct })
    else (if not (ct == w.current_tick)
        then (let diff = (ct - w.current_tick) % 2 ^ 32 in
            updates diff (record w { current_tick = ct; current = (w.current + diff) % 2 ^ 64 }))
        else ([], w))
