-- ===== src/Netpack/Frames.antt =====
-- What luaclib-src/lua-netpack.cpp makes of a stream: the packets that it consists of, and a rest
-- that holds no whole packet.
pub mod Steps
pub mod Stream
pub mod Received
pub mod Filled
pub mod Resumed
pub mod Unique
pub mod Session
pub mod Chunk
pub mod Gate
pub mod Closed
use skynet.Base.{
  ℕ, zero, suc, ◌+◌, ◌*◌, ◌/◌, ◌%◌, ◌^◌, ◌<◌, ◌≡◌, ◌≢◌, refl, ap, sym, ◌∙◌, List, [], ◌∷◌, ◌++◌,
  map, arith, length, append_assoc, append-nil, if◌then◌else◌, ◌==◌, ◌⊎◌,
}
use skynet.Netpack.Queue.{Packet, Uncomplete, MsgQueue, size_unread, hash_size}
use skynet.Netpack.Queue.Ring.{IsRing, packets}
use skynet.Netpack.Queue.Chains.{held}

-- A packet as it is sent: two bytes for its size, then its data.
abbrev pub frame : List ℕ → List ℕ
frame body = length body / 2 ^ 8 ∷ length body % 2 ^ 8 ∷ body

abbrev pub frames : List (List ℕ) → List ℕ
frames [] = []
frames (body ∷ later) = frame body ++ frames later

abbrev pub AllFit : List (List ℕ) → Type 0
AllFit [] = Unit {0}
AllFit (body ∷ later) = (length body < 2 ^ 16) × AllFit later

-- No whole packet stands in front.
abbrev pub IsShort : List ℕ → Type 0
IsShort [] = Unit {0}
IsShort (b ∷ []) = Unit {0}
IsShort (b ∷ c ∷ rest) = length rest < b * 2 ^ 8 + c

-- A stream consists of these packets and a rest.
pub record Parses (stream : List ℕ) (sent : List (List ℕ)) (rest : List ℕ) : Type 0 where
  pub whole : stream ≡ frames sent ++ rest
  pub fit : AllFit sent
  pub short : IsShort rest

pub frames-append : (xs ys : List (List ℕ)) → frames (xs ++ ys) ≡ frames xs ++ frames ys
frames-append [] ys = refl
frames-append (x ∷ xs) ys =
    ap (λ l. frame x ++ l) (frames-append xs ys)
    ∙ sym (append_assoc (frame x) (frames xs) (frames ys))

pub append-AllFit : (xs ys : List (List ℕ)) → AllFit xs → AllFit ys → AllFit (xs ++ ys)
append-AllFit [] ys p q = q
append-AllFit (x ∷ xs) ys (lt, p) q = (lt, append-AllFit xs ys p q)

-- What has come of a packet that is not complete.
abbrev pub pending : List Uncomplete → List ℕ
pending [] = []
pending (uc ∷ _) =
    if uc.read == size_unread
    then uc.header ∷ []
    else uc.pack.size / 2 ^ 8 ∷ uc.pack.size % 2 ^ 8 ∷ uc.pack.buf

-- An object knows the first byte of a packet, or its size and some of its data.
abbrev pub IsPartial : Uncomplete → Type 0
IsPartial uc =
    ((uc.read ≡ size_unread) × (uc.header < 2 ^ 8))
    ⊎ ((uc.read ≡ length uc.pack.buf)
        × (length uc.pack.buf < uc.pack.size)
        × (uc.pack.size < 2 ^ 16))

abbrev pub AtMostOne : List Uncomplete → Type 0
AtMostOne [] = Unit {0}
AtMostOne (uc ∷ []) = IsPartial uc
AtMostOne (uc ∷ _ ∷ _) = ⊥

pub record IsQueue (q : MsgQueue) : Type 0 where
  pub ring : IsRing q
  pub slots : length q.hash ≡ hash_size
  pub kept : (id : ℕ) → AtMostOne (held q id)

-- A packet of a socket.
abbrev pub packet_of : ℕ → List ℕ → Packet
packet_of id body = record { socket_id = id; size = length body; buf = body }

-- From q to q' the bytes of `stream` have come from a socket of which nothing was kept: its packets
-- stand in the queue, the rest is kept, and of the other sockets the same is kept as before.
pub record Advances (id : ℕ) (q q' : MsgQueue) (stream : List ℕ) (sent : List (List ℕ))
    : Type 0 where
  pub parsed : Parses stream sent (pending (held q' id))
  pub queued : packets q' ≡ packets q ++ map (packet_of id) sent
  pub others : (other : ℕ) → other ≢ id → held q' other ≡ held q other
  pub valid : IsQueue q'
