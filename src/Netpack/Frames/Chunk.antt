-- ===== src/Netpack/Frames/Chunk.antt =====
-- One chunk of a socket and what comes later (luaclib-src/lua-netpack.cpp): what the packets of
-- both are.
use skynet.Base.{
  ℕ, ◌≡◌, ◌≢◌, ap, sym, subst, ◌∙◌, arith, Option, List, [], ◌∷◌, ◌++◌, map, length, append_assoc,
  ◌==◌, ==_iff, inl, inr, true, false,
}
use skynet.Netpack.Queue.{Packet, MsgQueue, get_queue, Uncomplete, size_unread}
use skynet.Netpack.Queue.Ring.{IsRing, packets}
use skynet.Netpack.Queue.Chains.{held}
use skynet.Netpack.Filter.{Filtered}
use skynet.Netpack.Frames.{IsShort, Parses, pending, AtMostOne, IsQueue, packet_of}
use skynet.Netpack.Frames.Steps.{held_same}
use skynet.Netpack.Frames.Stream.{handed, Filters}
use skynet.Netpack.Frames.Session.{
  stream_of, bodies_of, bodies_of-append, bodies_of_self, bodies_of_other,
}
use skynet.Netpack.Frames.Unique.{Parses-append}

pub pending-IsShort : (l : List Uncomplete) → AtMostOne l → IsShort (pending l)
pending-IsShort [] p = tt
pending-IsShort (uc ∷ []) (inl (unread, small)) =
    let test : (uc.read == size_unread) ≡ true = (==_iff _ _).1 unread in rw test tt
pending-IsShort (uc ∷ []) (inr (known, less, fit)) =
    let test : (uc.read == size_unread) ≡ false = ground (arith, known, less, fit) in
    rw test (omega (arith, less))
pending-IsShort (uc ∷ uc' ∷ l) p = absurd p

pub drained-IsQueue : {q q' : MsgQueue} → IsQueue q → IsRing q' → q'.hash ≡ q.hash → IsQueue q'
drained-IsQueue {q} {q'} v ring e = record {
  ring = ring;
  slots = ap length e ∙ v.slots;
  kept = λ id. subst AtMostOne (sym (held_same q q' id e)) (v.kept id);
}

-- One chunk, and what comes later.
module _ {id : ℕ} {q : MsgQueue} {q' : Option MsgQueue} {f : Filtered} {sent : List (List ℕ)}
    {popped : List Packet} {rest : List ℕ} (chunk : List ℕ) (later : List (ℕ × List ℕ))
    (nps : List Packet) (left : MsgQueue)
    (b : Filters id q (pending (held q id) ++ chunk) q' f sent)
    (all : popped ≡ packets (get_queue q')) (hash : left.hash ≡ (get_queue q').hash) (other : ℕ)
    (tail : Parses
      (pending (held left other) ++ stream_of other later)
      (bodies_of other nps)
      rest) where
  given : handed f ++ (popped ++ nps) ≡ map (packet_of id) sent ++ nps
  given =
      ap (λ l. handed f ++ (l ++ nps)) all
      ∙ sym (append_assoc (handed f) (packets (get_queue q')) nps)
      ∙ ap (λ l. l ++ nps) b.gives

  bodies :
      bodies_of other (handed f ++ (popped ++ nps))
      ≡ bodies_of other (map (packet_of id) sent) ++ bodies_of other nps
  bodies = ap (bodies_of other) given ∙ bodies_of-append other (map (packet_of id) sent) nps

  pub mine :
      other ≡ id
      → Parses
          (pending (held q other) ++ (chunk ++ stream_of other later))
          (bodies_of other (handed f ++ (popped ++ nps)))
          rest
  mine e =
      let parsed : Parses (pending (held q other) ++ chunk) sent (pending (held left other)) =
        subst (λ i. Parses (pending (held q i) ++ chunk) sent (pending (held left i))) (sym e)
          (subst (λ l. Parses (pending (held q id) ++ chunk) sent (pending l))
            (sym (held_same (get_queue q') left id hash)) b.parsed) in
      let sent_bodies : sent ++ bodies_of other nps
          ≡ bodies_of other (handed f ++ (popped ++ nps)) =
        ap (λ l. l ++ bodies_of other nps)
          (sym (ap (λ i. bodies_of i (map (packet_of id) sent)) e ∙ bodies_of_self id sent))
        ∙ sym bodies in
      subst (λ l. Parses (pending (held q other) ++ (chunk ++ stream_of other later)) l rest)
        sent_bodies
        (subst (λ s. Parses s (sent ++ bodies_of other nps) rest)
          (append_assoc (pending (held q other)) chunk (stream_of other later))
          (Parses-append (stream_of other later) parsed tail))

  pub others :
      other ≢ id
      → Parses
          (pending (held q other) ++ stream_of other later)
          (bodies_of other (handed f ++ (popped ++ nps)))
          rest
  others ne =
      let test : (id == other) ≡ false = ground (arith, ne) in
      let kept = held_same (get_queue q') left other hash ∙ b.others other ne in
      let none_sent =
        bodies ∙ ap (λ l. l ++ bodies_of other nps) (bodies_of_other id other sent test) in
      subst (λ l. Parses (pending (held q other) ++ stream_of other later) l rest) (sym none_sent)
        (subst (λ l. Parses (pending l ++ stream_of other later) (bodies_of other nps) rest) kept
          tail)
