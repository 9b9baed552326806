-- ===== src/Netpack/Filter.antt =====
-- `filter_data_`, `l_filter` and `l_pack` of luaclib-src/lua-netpack.cpp. none is a read behind the
-- end of a buffer.
use Prim.Native.Nat.{bit_and, bit_or}
use skynet.Base.{
  ℕ, zero, suc, ◌+◌, ◌-◌, ◌*◌, ◌/◌, ◌^◌, Option, none, some, List, [], ◌∷◌, ◌++◌, length, take,
  drop, ltb, leb, ◌==◌, if◌then◌else◌, ◌>>=◌,
}
use skynet.Netpack.Queue.{
  Packet, Uncomplete, MsgQueue, size_unread, get_queue, push_data, find_uncomplete, link_front,
}

-- What Lua gets: nothing but the queue, a packet, or word of packets in the queue.
pub data Filtered : Type 0 where
  nothing : Filtered
  data_of : Packet → Filtered
  more : Filtered
  error_of : ℕ → List ℕ → Filtered
  open_of : ℕ → List ℕ → Filtered
  close_of : ℕ → Filtered
  warning_of : ℕ → ℕ → Filtered

-- `save_uncomplete`, with what its callers write to the new object.
unfoldable pub save_header : Option MsgQueue → ℕ → ℕ → MsgQueue
save_header q socket_id header = link_front (get_queue q) socket_id (record {
  pack = record { socket_id = socket_id; size = 0; buf = [] };
  read = size_unread;
  header = header;
})

unfoldable pub save_data : Option MsgQueue → ℕ → ℕ → List ℕ → MsgQueue
save_data q socket_id pack_size buffer = link_front (get_queue q) socket_id (record {
  pack = record { socket_id = socket_id; size = pack_size; buf = buffer };
  read = length buffer;
  header = 0;
})

unfoldable pub read_size : ℕ → ℕ → ℕ
read_size b c = bit_or (b * 2 ^ 8) c

-- `_push_more`, with so many calls at most.
unfoldable pub push_more : ℕ → MsgQueue → ℕ → List ℕ → Option MsgQueue
push_more zero q socket_id buffer = none
push_more (suc calls) q socket_id [] = none
push_more (suc calls) q socket_id (b ∷ []) = some (save_header (some q) socket_id b)
push_more (suc calls) q socket_id (b ∷ c ∷ buffer) =
    let pack_size = read_size b c in
    let pushed = push_data (some q) socket_id (take pack_size buffer) pack_size in
    let left = drop pack_size buffer in
    let later = push_more calls pushed socket_id left in
    if ltb (length buffer) pack_size
    then some (save_data (some q) socket_id pack_size buffer)
    else if ltb 0 (length left)
    then later
    else some pushed

unfoldable pub more_of : Option MsgQueue → Option (Option MsgQueue × Filtered)
more_of none = none
more_of (some q) = some (some q, more)

-- The first bytes of a chunk for an uncomplete packet: the size of it, if that is unknown so far.
unfoldable pub read_header : Uncomplete → List ℕ → Option (Uncomplete × List ℕ)
read_header uc [] = if uc.read == size_unread then none else some (uc, [])
read_header uc (b ∷ buffer) =
    let pack_size = bit_or b (uc.header * 2 ^ 8) in
    if uc.read == size_unread
    then some (record uc { pack = record uc.pack { size = pack_size; buf = [] }; read = 0 }, buffer)
    else some (uc, b ∷ buffer)

-- The rest of that branch of `filter_data_`.
unfoldable pub fill : MsgQueue → ℕ → Uncomplete → List ℕ → Option (Option MsgQueue × Filtered)
fill q socket_id uc buffer =
    let need = uc.pack.size - uc.read in
    let np = record uc.pack { buf = uc.pack.buf ++ take need buffer } in
    let left = drop need buffer in
    if ltb (length buffer) need
    then some (
      some (link_front q socket_id (record uc { pack = np; read = uc.read + length buffer })),
      nothing,
    )
    else if length left == 0
    then some (some q, data_of np)
    else more_of
        (push_more (length left) (push_data (some q) socket_id np.buf np.size) socket_id left)

-- The other branch: no packet of the socket has begun.
unfoldable pub begin : Option MsgQueue → ℕ → List ℕ → Option (Option MsgQueue × Filtered)
begin q socket_id [] = none
begin q socket_id (b ∷ []) = some (some (save_header q socket_id b), nothing)
begin q socket_id (b ∷ c ∷ buffer) =
    let pack_size = read_size b c in
    let left = drop pack_size buffer in
    let pushed = push_data q socket_id (take pack_size buffer) pack_size in
    if ltb (length buffer) pack_size
    then some (some (save_data q socket_id pack_size buffer), nothing)
    else if length buffer == pack_size
    then some (q, data_of (record { socket_id = socket_id; size = length buffer; buf = buffer }))
    else more_of (push_more (length left) pushed socket_id left)

unfoldable pub resume :
    Option MsgQueue
    → ℕ
    → List ℕ
    → Option (Uncomplete × MsgQueue)
    → Option (Option MsgQueue × Filtered)
resume q socket_id buffer none = begin q socket_id buffer
resume q socket_id buffer (some (uc, q')) =
    read_header uc buffer >>= λ (uc', left). fill q' socket_id uc' left

-- `filter_data_`
unfoldable pub filter_data : Option MsgQueue → ℕ → List ℕ → Option (Option MsgQueue × Filtered)
filter_data q socket_id buffer = resume q socket_id buffer (find_uncomplete q socket_id)

-- `l_pack`: none where it raises an error.
unfoldable pub pack_data : List ℕ → Option (List ℕ)
pack_data ptr =
    let len = length ptr in
    if leb 0x10000 len then none else some (bit_and (len / 2 ^ 8) 0xff ∷ bit_and len 0xff ∷ ptr)

-- The socket_event of a skynet_socket_message, and the message: `padding` is what follows the struct.
pub data SocketEvent : Type 0 where
  event_data : SocketEvent
  event_connect : SocketEvent
  event_close : SocketEvent
  event_accept : SocketEvent
  event_error : SocketEvent
  event_udp : SocketEvent
  event_warning : SocketEvent

pub record SocketMessage : Type 0 where
  pub socket_event : SocketEvent
  pub socket_id : ℕ
  pub ud : ℕ
  pub buffer : Option (List ℕ)
  pub padding : List ℕ

-- `_close_uncomplete`
unfoldable pub without_found : Option MsgQueue → Option (Uncomplete × MsgQueue) → Option MsgQueue
without_found q none = q
without_found q (some (uc, q')) = some q'

unfoldable pub close_uncomplete : Option MsgQueue → ℕ → Option MsgQueue
close_uncomplete q socket_id = without_found q (find_uncomplete q socket_id)

-- The text of a message: with a buffer of its own the size is -1, which no string has.
unfoldable pub text_of : SocketMessage → Option (List ℕ)
text_of m = elim m.buffer [ none ↦ some m.padding | some buffer ↦ none ]

-- The data of a message, which always has a buffer of its own: the code asserts it.
unfoldable pub chunk_of : SocketMessage → Option (List ℕ)
chunk_of m = elim m.buffer [
  | none ↦ none
  | some buffer ↦ if ltb (length buffer) m.ud then none else some (take m.ud buffer)
]

-- `l_filter`
unfoldable pub filter : Option MsgQueue → SocketMessage → Option (Option MsgQueue × Filtered)
filter q m = elim m.socket_event [
  | event_data ↦ (chunk_of m >>= λ chunk. filter_data q m.socket_id chunk)
  | event_connect ↦ some (q, nothing)
  | event_close ↦ some (close_uncomplete q m.socket_id, close_of m.socket_id)
  | event_accept ↦ (text_of m >>= λ text. some (q, open_of m.ud text))
  | event_error ↦
      (text_of m >>= λ text. some (close_uncomplete q m.socket_id, error_of m.socket_id text))
  | event_udp ↦ some (q, nothing)
  | event_warning ↦ some (q, warning_of m.socket_id m.ud)
]
