-- ===== src/Netpack/Frames/Session.antt =====
-- A gate that receives chunks of many sockets, and takes the packets that luaclib-src/lua-netpack.cpp
-- gives it: those that `filter` hands over, and all that `pop` finds in the queue then.
use skynet.Base.{
  ℕ, zero, suc, ◌≤◌, ◌≡◌, refl, ap, sym, subst, ◌∙◌, arith, Option, none, some, List, [], ◌∷◌, ◌++◌,
  map, length, if◌then◌else◌, ◌==◌, ==_iff, Bool-cases, inl, inr, true, false, ◌>>=◌,
}
use skynet.Base.Window.{length-window}
use skynet.Crypt.Bytes.{IsBytes}
use skynet.Netpack.Queue.{Packet, MsgQueue, blank_packet, get_queue, pop_packet}
use skynet.Netpack.Queue.Ring.{IsRing, packets, count, PopsFirst, pop_packet_lem}
use skynet.Netpack.Filter.{filter_data}
use skynet.Netpack.Frames.{packet_of}
use skynet.Netpack.Frames.Stream.{handed}

-- `pop` until it finds nothing, at most so many times.
unfoldable pub pop_all : ℕ → MsgQueue → List Packet × MsgQueue
pop_all zero q = ([], q)
pop_all (suc rounds) q = elim (pop_packet (some q)) [
  | none ↦ ([], q)
  | some (np, q') ↦ let (later, last) = pop_all rounds q' in (np ∷ later, last)
]

-- Chunks that arrive, with their sockets. A queue holds fewer packets than it has cells.
unfoldable pub session :
    Option MsgQueue → List (ℕ × List ℕ) → Option (List Packet × Option MsgQueue)
session q [] = some ([], q)
session q ((id, chunk) ∷ later) = filter_data q id chunk >>= λ (q', f).
    let (popped, left) = pop_all (get_queue q').cap (get_queue q') in
    session (some left) later >>= λ (nps, last). some (handed f ++ (popped ++ nps), last)

-- All packets are taken, and nothing else changes.
abbrev pub TakesAll : MsgQueue → List Packet → List Packet × MsgQueue → Type 0
TakesAll q nps result =
    (result.0 ≡ nps) × (packets result.1 ≡ []) × IsRing result.1 × (result.1.hash ≡ q.hash)

pop_all-none :
    (rounds : ℕ) (q : MsgQueue) → pop_packet (some q) ≡ none → pop_all (suc rounds) q ≡ ([], q)
unfolding pop_all
pop_all-none rounds q e = rw (pop_all, e) refl

pop_all-some :
    (rounds : ℕ) (q q' : MsgQueue) (np : Packet)
    → pop_packet (some q) ≡ some (np, q')
    → pop_all (suc rounds) q ≡ (np ∷ (pop_all rounds q').0, (pop_all rounds q').1)
unfolding pop_all
pop_all-some rounds q q' np e = rw (pop_all, e) refl

pop_all_lem :
    (rounds : ℕ) (q : MsgQueue) (nps : List Packet)
    → IsRing q
    → packets q ≡ nps
    → length nps ≤ rounds
    → TakesAll q nps (pop_all rounds q)
unfolding pop_all
pop_all_lem zero q [] v e le = (refl, e, v, refl)
pop_all_lem zero q (np ∷ nps) v e le = absurd (omega arith)
pop_all_lem (suc rounds) q [] v e le =
    let stop = subst (PopsFirst q) e (pop_packet_lem v) in
    subst (TakesAll q []) (sym (pop_all-none rounds q stop)) (refl, e, v, refl)
pop_all_lem (suc rounds) q (np ∷ nps) v e le =
    let (q', first, same, ring, hash) = subst (PopsFirst q) e (pop_packet_lem v) in
    let (all, empty, ring', hash') = pop_all_lem rounds q' nps ring same (omega arith) in
    subst (TakesAll q (np ∷ nps)) (sym (pop_all-some rounds q q' np first))
      (ap (λ l. np ∷ l) all, empty, ring', hash' ∙ hash)

pub pop_all-queue : (q : MsgQueue) → IsRing q → TakesAll q (packets q) (pop_all q.cap q)
pop_all-queue q v =
    pop_all_lem q.cap q (packets q) v refl
      (ground (arith, v, length-window blank_packet q.queue q.cap q.head (count q)))

-- The chunks of a socket in order, and the data of its packets.
abbrev pub stream_of : ℕ → List (ℕ × List ℕ) → List ℕ
stream_of id [] = []
stream_of id ((socket_id, chunk) ∷ later) =
    if socket_id == id then chunk ++ stream_of id later else stream_of id later

abbrev pub bodies_of : ℕ → List Packet → List (List ℕ)
bodies_of id [] = []
bodies_of id (np ∷ nps) = if np.socket_id == id then np.buf ∷ bodies_of id nps else bodies_of id nps

abbrev pub AreChunks : List (ℕ × List ℕ) → Type 0
AreChunks [] = Unit {0}
AreChunks ((id, chunk) ∷ later) = IsBytes chunk × (1 ≤ length chunk) × AreChunks later

pub bodies_of-append :
    (id : ℕ) (xs ys : List Packet) → bodies_of id (xs ++ ys) ≡ bodies_of id xs ++ bodies_of id ys
bodies_of-append id [] ys = refl
bodies_of-append id (np ∷ xs) ys = elim (Bool-cases (np.socket_id == id)) [
  | inl own ↦ rw own (ap (λ l. np.buf ∷ l) (bodies_of-append id xs ys))
  | inr other ↦ rw other (bodies_of-append id xs ys)
]

pub bodies_of_self : (id : ℕ) (sent : List (List ℕ)) → bodies_of id (map (packet_of id) sent) ≡ sent
bodies_of_self id [] = refl
bodies_of_self id (body ∷ sent) =
    let own : (id == id) ≡ true = (==_iff id id).1 refl in
    rw own (ap (λ l. body ∷ l) (bodies_of_self id sent))

pub bodies_of_other :
    (id other : ℕ) (sent : List (List ℕ))
    → (id == other) ≡ false
    → bodies_of other (map (packet_of id) sent) ≡ []
bodies_of_other id other [] ne = refl
bodies_of_other id other (body ∷ sent) ne = rw ne (bodies_of_other id other sent ne)
