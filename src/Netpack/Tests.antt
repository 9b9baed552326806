-- ===== src/Netpack/Tests.antt =====
-- Concrete instances of the theorems on luaclib-src/lua-netpack.cpp.
use skynet.Base.{ℕ, ◌≡◌, ◌≢◌, refl, Option, none, some, List, [], ◌∷◌, arith}
use skynet.Crypt.Bytes.{are_bytes_lem}
use skynet.Netpack.Queue.{Packet, MsgQueue, new_queue, get_queue}
use skynet.Netpack.Queue.Ring.{packets}
use skynet.Netpack.Queue.Chains.{held, held-new_queue}
use skynet.Netpack.Filter.{SocketMessage, event_close, close_of, filter, save_header, pack_data}
use skynet.Netpack.Frames.{Parses, pending, IsQueue}
use skynet.Netpack.Frames.Steps.{save_header-Advances}
use skynet.Netpack.Frames.Session.{session, stream_of, bodies_of, AreChunks}
use skynet.Netpack.Frames.Gate.{
  session-Parses, session_cut, session-pack_data, new_queue-IsQueue, packed,
}
use skynet.Netpack.Frames.Closed.{filter_closes}

abbrev texts : List (List ℕ)
texts = (1 ∷ 2 ∷ 3 ∷ []) ∷ [] ∷ []

-- Socket 7 sends the texts, and its first chunk ends within the size of the first; socket 4103 has
-- the same chain.
abbrev arrivals : List (ℕ × List ℕ)
arrivals = (7, 0 ∷ []) ∷ (4103, 0 ∷ 2 ∷ 9 ∷ []) ∷ (7, 3 ∷ 1 ∷ 2 ∷ []) ∷ (7, 3 ∷ 0 ∷ 0 ∷ []) ∷ []

abbrev at_once : List (ℕ × List ℕ)
at_once = (7, 0 ∷ 3 ∷ 1 ∷ 2 ∷ 3 ∷ 0 ∷ 0 ∷ []) ∷ []

arrivals_chunks : AreChunks arrivals
arrivals_chunks = (
  are_bytes_lem (0 ∷ []) refl,
  omega arith,
  (
    are_bytes_lem (0 ∷ 2 ∷ 9 ∷ []) refl,
    omega arith,
    (
      are_bytes_lem (3 ∷ 1 ∷ 2 ∷ []) refl,
      omega arith,
      (are_bytes_lem (3 ∷ 0 ∷ 0 ∷ []) refl, omega arith, tt),
    ),
  ),
)

at_once_chunks : AreChunks at_once
at_once_chunks = (are_bytes_lem (0 ∷ 3 ∷ 1 ∷ 2 ∷ 3 ∷ 0 ∷ 0 ∷ []) refl, omega arith, tt)

packed-texts : packed texts ≡ some (stream_of 7 arrivals)
unfolding pack_data
packed-texts = refl

session-pack_data_example :
    (nps : List Packet) × (last : Option MsgQueue) × (session none arrivals ≡ some (nps, last))
    × (bodies_of 7 nps ≡ texts)
session-pack_data_example = session-pack_data 7 texts arrivals arrivals_chunks packed-texts

session-Parses_example :
    (nps : List Packet) × (last : Option MsgQueue) × (session none arrivals ≡ some (nps, last))
    × ((id : ℕ)
        → Parses (stream_of id arrivals) (bodies_of id nps) (pending (held (get_queue last) id)))
session-Parses_example = session-Parses arrivals arrivals_chunks

session_cut_example :
    (nps nps' : List Packet) × (last last' : Option MsgQueue) × (session none arrivals
      ≡ some (nps, last))
    × (session none at_once ≡ some (nps', last'))
    × (bodies_of 7 nps ≡ bodies_of 7 nps')
session_cut_example = session_cut 7 arrivals at_once arrivals_chunks at_once_chunks refl

abbrev first_byte : MsgQueue
first_byte = save_header (some new_queue) 7 0

abbrev closing : SocketMessage
closing = record { socket_event = event_close; socket_id = 7; ud = 0; buffer = none; padding = [] }

first_byte-IsQueue : IsQueue first_byte
first_byte-IsQueue =
    let step =
      save_header-Advances new_queue 7 0 new_queue-IsQueue (held-new_queue 7) (omega arith) in
    step.valid

filter_closes_example :
    (q' : MsgQueue) × (filter (some first_byte) closing ≡ some (some q', close_of 7))
    × (held q' 7 ≡ [])
    × ((other : ℕ) → other ≢ 7 → held q' other ≡ held first_byte other)
    × (packets q' ≡ packets first_byte)
    × IsQueue q'
filter_closes_example = filter_closes first_byte closing first_byte-IsQueue refl
