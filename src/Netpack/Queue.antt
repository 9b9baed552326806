-- ===== src/Netpack/Queue.antt =====
-- The struct msg_queue of luaclib-src/lua-netpack.cpp: a ring of packets, and chains of packets
-- that are not complete. The queue is a userdata that may be null; a chain through `next` is a
-- list.
pub mod Ring
pub mod Chains
use skynet.Base.{
  ℕ, zero, suc, ◌+◌, ◌-◌, ◌*◌, ◌/◌, ◌%◌, ◌^◌, ◌≡◌, Option, none, some, List, [], ◌∷◌, ◌++◌, get_or,
  set, replicate, ltb, leb, ◌==◌, if◌then◌else◌,
}

-- QUEUE_SIZE and HASH_SIZE
abbrev pub queue_size : ℕ
queue_size = 1024

abbrev pub hash_size : ℕ
hash_size = 4096

-- netpack
pub record Packet : Type 0 where
  pub socket_id : ℕ
  pub size : ℕ
  pub buf : List ℕ

-- uncomplete; `read` is the bit pattern of an int, which may be -1.
pub record Uncomplete : Type 0 where
  pub pack : Packet
  pub read : ℕ
  pub header : ℕ

abbrev pub size_unread : ℕ
size_unread = 2 ^ 32 - 1

-- msg_queue
pub record MsgQueue : Type 0 where
  pub cap : ℕ
  pub head : ℕ
  pub tail : ℕ
  pub hash : List (List Uncomplete)
  pub queue : List Packet

-- What stands in a cell that was never written.
abbrev pub blank_packet : Packet
blank_packet = record { socket_id = 0; size = 0; buf = [] }

-- `get_queue`
abbrev pub new_queue : MsgQueue
new_queue = record {
  cap = queue_size;
  head = 0;
  tail = 0;
  hash = replicate hash_size [];
  queue = replicate queue_size blank_packet;
}

unfoldable pub get_queue : Option MsgQueue → MsgQueue
get_queue none = new_queue
get_queue (some q) = q

-- The copy loop of `expand_queue`, from its round i on.
unfoldable pub copy_packets : List Packet → ℕ → ℕ → ℕ → ℕ → List Packet
copy_packets queue cap head i zero = []
copy_packets queue cap head i (suc n) =
    get_or queue ((head + i) % cap) blank_packet ∷ copy_packets queue cap head (i + 1) n

unfoldable pub expand_packets : MsgQueue → MsgQueue
expand_packets q = record q {
  cap = q.cap + queue_size;
  head = 0;
  tail = q.cap;
  queue = copy_packets q.queue q.cap q.head 0 q.cap ++ replicate queue_size blank_packet;
}

-- `push_data`, on the queue that `get_queue` gives; a clone of the buffer has the same bytes.
unfoldable pub put_tail : MsgQueue → Packet → MsgQueue
put_tail q np = record q {
  queue = set q.queue q.tail np;
  tail = if leb q.cap (q.tail + 1) then q.tail + 1 - q.cap else q.tail + 1;
}

unfoldable pub push_data : Option MsgQueue → ℕ → List ℕ → ℕ → MsgQueue
push_data q socket_id buffer size =
    let stored =
      put_tail (get_queue q) (record { socket_id = socket_id; size = size; buf = buffer }) in
    if stored.head == stored.tail then expand_packets stored else stored

-- `l_pop`
unfoldable pub pop_packet : Option MsgQueue → Option (Packet × MsgQueue)
pop_packet none = none
pop_packet (some q) =
    if q.head == q.tail
    then none
    else some (
      get_or q.queue q.head blank_packet,
      record q { head = if leb q.cap (q.head + 1) then 0 else q.head + 1 },
    )

-- `hash_socket_id`
unfoldable pub hash_socket_id : ℕ → ℕ
hash_socket_id socket_id =
    (socket_id / 2 ^ 24 + socket_id / 2 ^ 12 + socket_id) % 2 ^ 32 % hash_size

unfoldable pub keep_before :
    Uncomplete → Option (Uncomplete × List Uncomplete) → Option (Uncomplete × List Uncomplete)
keep_before uc none = none
keep_before uc (some (found, left)) = some (found, uc ∷ left)

-- The search of `_find_uncomplete` in one chain: what it finds, and the chain without it.
unfoldable pub find_in : ℕ → List Uncomplete → Option (Uncomplete × List Uncomplete)
find_in socket_id [] = none
find_in socket_id (uc ∷ next) =
    let later = find_in socket_id next in
    if uc.pack.socket_id == socket_id then some (uc, next) else keep_before uc later

unfoldable pub link : MsgQueue → ℕ → List Uncomplete → MsgQueue
link q h chain = record q { hash = set q.hash h chain }

unfoldable pub unlinked :
    MsgQueue → ℕ → Option (Uncomplete × List Uncomplete) → Option (Uncomplete × MsgQueue)
unlinked q h none = none
unlinked q h (some (uc, left)) = some (uc, link q h left)

-- `_find_uncomplete`
unfoldable pub find_uncomplete : Option MsgQueue → ℕ → Option (Uncomplete × MsgQueue)
find_uncomplete none socket_id = none
find_uncomplete (some q) socket_id =
    let h = hash_socket_id socket_id in unlinked q h (find_in socket_id (get_or q.hash h []))

-- `uc->next = q->hash[h]; q->hash[h] = uc;`
unfoldable pub link_front : MsgQueue → ℕ → Uncomplete → MsgQueue
link_front q socket_id uc = let h = hash_socket_id socket_id in link q h (uc ∷ get_or q.hash h [])

-- `l_clear`
unfoldable pub clear_queue : Option MsgQueue → Option MsgQueue
clear_queue none = none
clear_queue (some q) = some (record q { head = 0; tail = 0; hash = replicate hash_size [] })
