-- ===== src/Netpack/Queue/Ring.antt =====
-- The ring of packets of luaclib-src/lua-netpack.cpp against the list of the packets in it.
use native.Mathlib.Nat.{mod-eq_of_lt}
use skynet.Base.{
  ◌≢◌, ℕ, zero, suc, ◌+◌, ◌-◌, ◌%◌, ◌<◌, ◌≡◌, refl, ap, ap₂, sym, subst, ◌∙◌, none, some, List, [],
  ◌∷◌, ◌++◌, arith, length, length-append, length-replicate, length-set, replicate, get_or,
  if◌then◌else◌, leb, ◌==◌, ==_iff, Bool-cases, inl, inr,
}
use skynet.Base.Window.{window, window-set, window-append, window_turn}
use skynet.Netpack.Queue.{
  Packet, MsgQueue, blank_packet, queue_size, new_queue, get_queue, copy_packets, expand_packets,
  put_tail, push_data, pop_packet,
}

pub record IsRing (q : MsgQueue) : Type 0 where
  pub storage : length q.queue ≡ q.cap
  pub head_in : q.head < q.cap
  pub tail_in : q.tail < q.cap

abbrev pub count : MsgQueue → ℕ
count q = if leb q.head q.tail then q.tail - q.head else q.tail + q.cap - q.head

abbrev pub packets : MsgQueue → List Packet
packets q = window blank_packet q.queue q.cap q.head (count q)

pub new_queue-IsRing : IsRing new_queue
new_queue-IsRing = omega (arith, length-replicate {A = Packet} queue_size blank_packet)

length-copy_packets :
    (queue : List Packet) (cap head i n : ℕ) → length (copy_packets queue cap head i n) ≡ n
unfolding copy_packets
length-copy_packets queue cap head i zero = refl
length-copy_packets queue cap head i (suc n) = ap suc (length-copy_packets queue cap head (i + 1) n)

copy_packets-window :
    (queue : List Packet) (cap h i n : ℕ)
    → 0 < cap
    → copy_packets queue cap h i n ≡ window blank_packet queue cap ((h + i) % cap) n
unfolding copy_packets
copy_packets-window queue cap h i zero pos = refl
copy_packets-window queue cap h i (suc n) pos =
    ap (◌∷◌ (get_or queue ((h + i) % cap) blank_packet))
      (copy_packets-window queue cap h (i + 1) n pos)
    ∙ window_turn blank_packet queue cap h i n pos

expand_packets-IsRing : {q : MsgQueue} → IsRing q → IsRing (expand_packets q)
unfolding expand_packets
expand_packets-IsRing {q} v = omega (
  arith,
  length-append (copy_packets q.queue q.cap q.head 0 q.cap) (replicate queue_size blank_packet),
  length-copy_packets q.queue q.cap q.head 0 q.cap,
  length-replicate {A = Packet} queue_size blank_packet,
)

put_tail-IsRing : {q : MsgQueue} (np : Packet) → IsRing q → IsRing (put_tail q np)
unfolding put_tail
put_tail-IsRing {q} np v = ground (arith, v, length-set q.queue q.tail np)

module _ {q : MsgQueue} (np : Packet) (v : IsRing q) where
  stored : MsgQueue
  stored = put_tail q np

  stored-window :
      window blank_packet stored.queue q.cap q.head (suc (count q)) ≡ packets q ++ np ∷ []
  unfolding stored put_tail
  stored-window =
      window-set blank_packet q.queue q.cap np (count q) q.head q.tail v.storage v.head_in
        (ground (arith, v)) (ground (arith, v))

  expanded-packets : q.head ≡ stored.tail → packets (expand_packets stored) ≡ packets q ++ np ∷ []
  unfolding stored put_tail expand_packets
  expanded-packets full =
      let copied = copy_packets stored.queue q.cap q.head 0 q.cap in
      let blanks = replicate queue_size blank_packet in
      let sizes : length copied ≡ q.cap = length-copy_packets stored.queue q.cap q.head 0 q.cap in
      let start : (q.head + 0) % q.cap ≡ q.head % q.cap = ap (λ k. k % q.cap) (omega arith) in
      ap (window blank_packet (copied ++ blanks) (q.cap + queue_size) 0) (ground (arith, sizes))
      ∙ window-append blank_packet (copied ++ blanks) [] copied blanks (q.cap + queue_size) 0 refl
          refl (omega (arith, sizes))
      ∙ copy_packets-window stored.queue q.cap q.head 0 q.cap (omega (arith, v))
      ∙ ap₂ (window blank_packet stored.queue q.cap) {v = suc (count q)}
          (start ∙ mod-eq_of_lt v.head_in) (ground (arith, v))
      ∙ stored-window

pub push_data-IsRing :
    {q : MsgQueue} (socket_id : ℕ) (buffer : List ℕ) (size : ℕ)
    → IsRing q
    → IsRing (push_data (some q) socket_id buffer size)
unfolding push_data get_queue
push_data-IsRing {q} socket_id buffer size v =
    let np : Packet = record { socket_id = socket_id; size = size; buf = buffer } in
    let w = put_tail-IsRing np v in
    elim (Bool-cases ((put_tail q np).head == (put_tail q np).tail)) [
      | inl full ↦ rw (full) (expand_packets-IsRing w)
      | inr room ↦ rw (room) w
    ]

-- `push_data` puts the packet behind the others, whether or not the ring has to grow for it.
pub packets-push_data :
    {q : MsgQueue} (socket_id : ℕ) (buffer : List ℕ) (size : ℕ)
    → IsRing q
    → packets (push_data (some q) socket_id buffer size)
      ≡ packets q ++ record { socket_id = socket_id; size = size; buf = buffer } ∷ []
unfolding push_data get_queue put_tail stored
packets-push_data {q} socket_id buffer size v =
    let np : Packet = record { socket_id = socket_id; size = size; buf = buffer } in
    let put = put_tail q np in
    elim (Bool-cases (put.head == put.tail)) [
      | inl full ↦ rw (full) (expanded-packets np v ((==_iff _ _).0 full))
      | inr room ↦ rw (room) (
          ap (window blank_packet put.queue q.cap q.head) {y = suc (count q)} (ground (arith, v))
          ∙ stored-window np v)
    ]

packets-empty : (q : MsgQueue) → q.head ≡ q.tail → packets q ≡ []
packets-empty q e = ap (window blank_packet q.queue q.cap q.head) {y = 0} (ground arith)

abbrev next_head : MsgQueue → MsgQueue
next_head q = record q { head = if leb q.cap (q.head + 1) then 0 else q.head + 1 }

next_head-IsRing : {q : MsgQueue} → IsRing q → IsRing (next_head q)
next_head-IsRing v = ground arith

packets-next_head :
    {q : MsgQueue}
    → IsRing q
    → q.head ≢ q.tail
    → packets q ≡ get_or q.queue q.head blank_packet ∷ packets (next_head q)
packets-next_head {q} v ne =
    ap (window blank_packet q.queue q.cap q.head) {y = suc (count (next_head q))}
      (ground (arith, v))

-- `pop_packet` takes the oldest packet, and finds none exactly when there is none.
abbrev pub PopsFirst : MsgQueue → List Packet → Type 0
PopsFirst q [] = pop_packet (some q) ≡ none
PopsFirst q (np ∷ later) =
    (q' : MsgQueue) × (pop_packet (some q) ≡ some (np, q'))
    × (packets q' ≡ later)
    × IsRing q'
    × (q'.hash ≡ q.hash)

pub pop_packet_lem : {q : MsgQueue} → IsRing q → PopsFirst q (packets q)
unfolding pop_packet
pop_packet_lem {q} v = elim (Bool-cases (q.head == q.tail)) [
  | inl same ↦
      let e = packets-empty q ((==_iff q.head q.tail).0 same) in
      subst (PopsFirst q) (sym e) (rw same refl)
  | inr room ↦
      let e = packets-next_head v (λ e. ground (arith, e)) in
      subst (PopsFirst q) (sym e) (next_head q, rw room refl, refl, next_head-IsRing v, refl)
]
