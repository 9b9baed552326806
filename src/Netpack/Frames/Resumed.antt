-- ===== src/Netpack/Frames/Resumed.antt =====
-- `filter_data_` of luaclib-src/lua-netpack.cpp as a whole.
use Prim.Native.Nat.{bit_or}
use native.Mathlib.Decide.{ℕ_discrete}
use skynet.Base.{
  ℕ, ◌+◌, ◌*◌, ◌/◌, ◌%◌, ◌^◌, ◌≤◌, ◌<◌, ◌≡◌, ◌≢◌, refl, ap, ap₂, sym, subst, ◌∙◌, arith, Option,
  none, some, List, [], ◌∷◌, ◌++◌, length, ◌==◌, ==_iff, inl, inr, true, false, ◌>>=◌,
}
use skynet.Base.Words.{or_sum, or_comm}
use skynet.Crypt.Bytes.{IsBytes}
use skynet.Netpack.Queue.{
  Uncomplete, MsgQueue, size_unread, hash_size, get_queue, new_queue, find_uncomplete,
}
use skynet.Netpack.Queue.Ring.{IsRing, packets}
use skynet.Netpack.Queue.Chains.{held, find_uncomplete_lem, held-new_queue, TakesOut}
use skynet.Netpack.Filter.{Filtered, read_header, fill, begin, resume, filter_data}
use skynet.Netpack.Frames.{pending, IsPartial, AtMostOne, IsQueue}
use skynet.Netpack.Frames.Received.{begin_lem}
use skynet.Netpack.Frames.Filled.{fill_lem, pending_known}
use skynet.Netpack.Frames.Stream.{Returns}

pub alone : (uc : Uncomplete) (l : List Uncomplete) → AtMostOne (uc ∷ l) → (l ≡ []) × IsPartial uc
alone uc [] p = (refl, p)
alone uc (uc' ∷ l) p = absurd p

rebase :
    {id : ℕ} {q q' : MsgQueue} {stream : List ℕ} {result : Option (Option MsgQueue × Filtered)}
    → ((other : ℕ) → other ≢ id → held q' other ≡ held q other)
    → Returns id q' stream result
    → Returns id q stream result
rebase same (last, f, sent, e, b) = (
  last,
  f,
  sent,
  e,
  record {
    parsed = b.parsed;
    gives = b.gives;
    others = λ other ne. b.others other ne ∙ same other ne;
    valid = b.valid;
  },
)

-- The queue without the object of the socket.
pub taken-IsQueue :
    {id : ℕ} {q q' : MsgQueue}
    → IsQueue q
    → (IsRing q → IsRing q')
    → length q'.hash ≡ hash_size
    → held q' id ≡ []
    → ((other : ℕ) → other ≢ id → held q' other ≡ held q other)
    → IsQueue q'
taken-IsQueue {id} {q} {q'} v ring slots free others = record {
  ring = ring v.ring;
  slots = slots;
  kept = λ other. elim (ℕ_discrete other id) [
    | yes same ↦ subst AtMostOne (sym (ap (held q') same ∙ free)) tt
    | no ne ↦ subst AtMostOne (sym (others other ne)) (v.kept other)
  ];
}

-- What is read for an object that knows the first byte only, and for one that knows the size.
first_byte_lem :
    (uc : Uncomplete) (b : ℕ) (buffer : List ℕ)
    → uc.read ≡ size_unread
    → read_header uc (b ∷ buffer)
      ≡ some (
        record uc {
          pack = record uc.pack { size = bit_or b (uc.header * 2 ^ 8); buf = [] };
          read = 0;
        },
        buffer,
      )
unfolding read_header
first_byte_lem uc b buffer unread =
    let test : (uc.read == size_unread) ≡ true = (==_iff _ _).1 unread in rw test refl

known_size_lem :
    (uc : Uncomplete) (b : ℕ) (buffer : List ℕ)
    → (uc.read == size_unread) ≡ false
    → read_header uc (b ∷ buffer) ≡ some (uc, b ∷ buffer)
unfolding read_header
known_size_lem uc b buffer test = rw test refl

pending_first :
    (uc : Uncomplete) (b : ℕ) (buffer : List ℕ)
    → uc.read ≡ size_unread
    → pending (uc ∷ []) ++ b ∷ buffer ≡ uc.header ∷ b ∷ buffer
pending_first uc b buffer unread =
    let test : (uc.read == size_unread) ≡ true = (==_iff _ _).1 unread in rw test refl

resume_partial :
    (id : ℕ) (q : MsgQueue) (uc : Uncomplete) (b : ℕ) (buffer : List ℕ)
    → IsQueue q
    → held q id ≡ []
    → packets q ≡ []
    → b < 2 ^ 8
    → IsBytes buffer
    → uc.pack.socket_id ≡ id
    → IsPartial uc
    → Returns id q
        (pending (uc ∷ []) ++ b ∷ buffer)
        (read_header uc (b ∷ buffer) >>= λ (uc', left). fill q id uc' left)
resume_partial id q uc b buffer v free empty lt bytes own (inl (unread, small)) =
    let size = bit_or b (uc.header * 2 ^ 8) in
    let e : size ≡ uc.header * 2 ^ 8 + b =
      or_comm b (uc.header * 2 ^ 8) ∙ or_sum 8 uc.header b lt in
    let uc' : Uncomplete = record uc {
      pack = record uc.pack { size = size; buf = [] };
      read = 0;
    } in
    let hi : size / 2 ^ 8 ≡ uc.header = omega (arith, e) in
    let lo : size % 2 ^ 8 ≡ b = omega (arith, e) in
    let back = fill_lem id q uc' buffer (record {
      valid = v;
      free = free;
      empty = empty;
      bytes = bytes;
      own = own;
      known = refl;
      within = omega arith;
      fit = omega (arith, e);
    }) in
    rw (first_byte_lem uc b buffer unread) (
      subst (λ s. Returns id q s (fill q id uc' buffer))
        (ap₂ (λ x y. x ∷ y ∷ buffer) hi lo ∙ sym (pending_first uc b buffer unread)) back)
resume_partial id q uc b buffer v free empty lt bytes own (inr (known, less, fit)) =
    let test : (uc.read == size_unread) ≡ false = ground (arith, known, less, fit) in
    let back = fill_lem id q uc (b ∷ buffer) (record {
      valid = v;
      free = free;
      empty = empty;
      bytes = (lt, bytes);
      own = own;
      known = known;
      within = omega (arith, known, less);
      fit = fit;
    }) in
    rw (known_size_lem uc b buffer test) (
      subst (λ s. Returns id q s (fill q id uc (b ∷ buffer)))
        (ap (λ l. l ++ b ∷ buffer) (sym (pending_known uc test))) back)

resume_lem :
    (q : MsgQueue) (id : ℕ) (chunk : List ℕ) (o : Option (Uncomplete × MsgQueue))
    → TakesOut q id o
    → IsQueue q
    → packets q ≡ []
    → IsBytes chunk
    → 1 ≤ length chunk
    → Returns id q (pending (held q id) ++ chunk) (resume (some q) id chunk o)
unfolding resume get_queue
resume_lem q id chunk none free v empty bytes pos =
    subst (λ l. Returns id q (pending l ++ chunk) (begin (some q) id chunk)) (sym free)
      (begin_lem (some q) id chunk v free empty bytes pos)
resume_lem q id [] (some (uc, q')) found v empty bytes pos = absurd (omega arith)
resume_lem q id (b ∷ buffer) (some (uc, q')) (e, own, others, slots, ring, same) v empty (lt, bytes)
      pos =
    let (free, p) = alone uc (held q' id) (subst AtMostOne e (v.kept id)) in
    let v' = taken-IsQueue v ring slots free others in
    subst
      (λ l.
        Returns id q (pending l ++ b ∷ buffer)
          (read_header uc (b ∷ buffer) >>= λ (uc', left). fill q' id uc' left))
      (sym e)
      (rebase others (resume_partial id q' uc b buffer v' free (same ∙ empty) lt bytes own p))

-- Where the queue holds no packets, `filter_data_` returns for every chunk of a socket that is not
-- empty. What was kept of the socket and the chunk together are the packets that it hands over or
-- puts into the queue, in order, and the rest that is kept of the socket now, which holds no whole
-- packet. What is kept of other sockets stays.
pub filter_data_lem :
    (q : Option MsgQueue) (id : ℕ) (chunk : List ℕ)
    → IsQueue (get_queue q)
    → packets (get_queue q) ≡ []
    → IsBytes chunk
    → 1 ≤ length chunk
    → Returns id (get_queue q) (pending (held (get_queue q) id) ++ chunk) (filter_data q id chunk)
unfolding filter_data get_queue find_uncomplete resume
filter_data_lem none id chunk v empty bytes pos =
    subst (λ l. Returns id new_queue (pending l ++ chunk) (begin none id chunk))
      (sym (held-new_queue id)) (begin_lem none id chunk v (held-new_queue id) empty bytes pos)
filter_data_lem (some q) id chunk v empty bytes pos =
    resume_lem q id chunk (find_uncomplete (some q) id) (find_uncomplete_lem q id v.slots) v empty
      bytes pos
