-- ===== src/Netpack/Frames/Gate.antt =====
-- What a gate gets of luaclib-src/lua-netpack.cpp, whatever sockets send and however it is cut.
use Prim.Native.Nat.{bit_and}
use skynet.Base.{
  bit_and_mask, some-injective, Bool, ◌⊎◌, ◌/◌, ◌%◌, ◌^◌, length-replicate, ℕ, ◌≤◌, ◌<◌, ◌≡◌, refl,
  ap, ap₂, sym, subst, ◌∙◌, arith, Option, none, some, List, [], ◌∷◌, ◌++◌, length, append_assoc,
  append-nil, ◌==◌, leb, ==_iff, Bool-cases, inl, inr, true, false, ◌>>=◌,
}
use native.Mathlib.Decide.{ℕ_discrete}
use skynet.Netpack.Queue.{Packet, MsgQueue, get_queue, new_queue, hash_size, Uncomplete}
use skynet.Netpack.Queue.Ring.{packets, new_queue-IsRing}
use skynet.Netpack.Queue.Chains.{held, held-new_queue}
use skynet.Netpack.Filter.{pack_data}
use skynet.Netpack.Frames.{frame, frames, Parses, pending, AtMostOne, IsQueue}
use skynet.Netpack.Frames.Stream.{handed}
use skynet.Netpack.Frames.Resumed.{filter_data_lem}
use skynet.Netpack.Frames.Session.{pop_all, session, pop_all-queue, stream_of, bodies_of, AreChunks}
use skynet.Netpack.Frames.Unique.{Parses-unique}
use skynet.Netpack.Frames.Chunk.{pending-IsShort, drained-IsQueue, mine, others}

-- For every socket: what was kept of it and what came are the packets that were given and what is
-- kept.
abbrev Receives : MsgQueue → List (ℕ × List ℕ) → Option (List Packet × Option MsgQueue) → Type 0
Receives q events result =
    (nps : List Packet) × (last : Option MsgQueue) × (result ≡ some (nps, last))
    × ((id : ℕ)
        → Parses (pending (held q id) ++ stream_of id events) (bodies_of id nps)
            (pending (held (get_queue last) id)))

session_lem :
    (q : Option MsgQueue) (events : List (ℕ × List ℕ))
    → IsQueue (get_queue q)
    → packets (get_queue q) ≡ []
    → AreChunks events
    → Receives (get_queue q) events (session q events)
unfolding session get_queue
session_lem q [] v empty chunks = (
  [],
  q,
  refl,
  λ id. record {
    whole = append-nil (pending (held (get_queue q) id));
    fit = tt;
    short = pending-IsShort (held (get_queue q) id) (v.kept id);
  },
)
session_lem q ((id, chunk) ∷ later) v empty (bytes, pos, more) =
    let (q', f, sent, e, b) = filter_data_lem q id chunk v empty bytes pos in
    let popped = pop_all (get_queue q').cap (get_queue q') in
    let (all, drained, ring, hash) = pop_all-queue (get_queue q') b.valid.ring in
    let v' = drained-IsQueue b.valid ring hash in
    let (nps, last, e', tail) = session_lem (some popped.1) later v' drained more in
    (
      handed f ++ (popped.0 ++ nps),
      last,
      rw (e, e') refl,
      λ other. elim (ℕ_discrete other id) [
        | yes same ↦
            let test : (id == other) ≡ true = (==_iff _ _).1 (sym same) in
            rw test (mine chunk later nps popped.1 b all hash other (tail other) same)
        | no ne ↦
            let test : (id == other) ≡ false = ground (arith, ne) in
            rw test (others chunk later nps popped.1 b all hash other (tail other) ne)
      ],
    )

pub new_queue-IsQueue : IsQueue new_queue
new_queue-IsQueue = record {
  ring = new_queue-IsRing;
  slots = length-replicate {A = List Uncomplete} hash_size [];
  kept = λ id. subst AtMostOne (sym (held-new_queue id)) tt;
}

-- From no queue on, every call of `filter_data_` in any history of chunks returns, and the packets
-- that the gate gets of a socket are those of the stream of the socket, in order, up to a rest that
-- holds no whole packet: neither the other sockets nor the cuts of the stream matter.
pub session-Parses :
    (events : List (ℕ × List ℕ))
    → AreChunks events
    → (nps : List Packet) × (last : Option MsgQueue) × (session none events ≡ some (nps, last))
      × ((id : ℕ)
          → Parses (stream_of id events) (bodies_of id nps) (pending (held (get_queue last) id)))
unfolding get_queue
session-Parses events chunks =
    let (nps, last, e, parsed) = session_lem none events new_queue-IsQueue refl chunks in
    (
      nps,
      last,
      e,
      λ id.
          subst
            (λ l.
              Parses (pending l ++ stream_of id events) (bodies_of id nps)
                (pending (held (get_queue last) id)))
            (held-new_queue id) (parsed id),
    )

-- If two histories bring the same bytes of a socket, cut and mixed with other sockets in any way,
-- the gate gets the same packets of it.
pub session_cut :
    (id : ℕ) (events events' : List (ℕ × List ℕ))
    → AreChunks events
    → AreChunks events'
    → stream_of id events ≡ stream_of id events'
    → (nps nps' : List Packet) × (last last' : Option MsgQueue) × (session none events
        ≡ some (nps, last))
      × (session none events' ≡ some (nps', last'))
      × (bodies_of id nps ≡ bodies_of id nps')
session_cut id events events' chunks chunks' same =
    let (nps, last, e, parsed) = session-Parses events chunks in
    let (nps', last', e', parsed') = session-Parses events' chunks' in
    let other = parsed' id in
    (
      nps,
      nps',
      last,
      last',
      e,
      e',
      Parses-unique (parsed id) (
          subst (λ s. Parses s (bodies_of id nps') (pending (held (get_queue last') id))) (sym same)
            other),
    )

-- The texts that a sender packs, one after another.
abbrev pub packed : List (List ℕ) → Option (List ℕ)
packed [] = some []
packed (text ∷ later) =
    pack_data text >>= λ buffer. packed later >>= λ buffers. some (buffer ++ buffers)

pack_data_lem :
    (text : List ℕ)
    → ((pack_data text ≡ none) × (2 ^ 16 ≤ length text))
      ⊎ ((pack_data text ≡ some (frame text)) × (length text < 2 ^ 16))
unfolding pack_data
pack_data_lem text = elim (Bool-cases (leb 0x10000 (length text))) [
  | inl long ↦ inl (rw long refl, ground (arith, long))
  | inr fits ↦
      let lt : length text < 2 ^ 16 = ground (arith, fits) in
      let hi : bit_and (length text / 2 ^ 8) 0xff ≡ length text / 2 ^ 8 =
        bit_and_mask 8 (length text / 2 ^ 8) ∙ omega (arith, lt) in
      let lo : bit_and (length text) 0xff ≡ length text % 2 ^ 8 = bit_and_mask 8 (length text) in
      inr (rw (fits, hi, lo) refl, lt)
]

is_some : Option (List ℕ) → Bool
is_some none = false
is_some (some s) = true

bind_some :
    (o : Option (List ℕ)) (f : List ℕ → Option (List ℕ)) (s : List ℕ)
    → (o >>= f) ≡ some s
    → (a : List ℕ) × (o ≡ some a) × (f a ≡ some s)
unfolding is_some
bind_some none f s e = absurd (ground (arith, ap is_some e))
bind_some (some a) f s e = (a, refl, e)

packed_frames : (texts : List (List ℕ)) (s : List ℕ) → packed texts ≡ some s → Parses s texts []
unfolding is_some
packed_frames [] s e = record { whole = sym (some-injective [] s e); fit = tt; short = tt }
packed_frames (text ∷ texts) s e =
    let (buffer, e₁, rest) = bind_some (pack_data text) _ s e in
    let (buffers, e₂, e₃) = bind_some (packed texts) _ s rest in
    let tail = packed_frames texts buffers e₂ in
    elim (pack_data_lem text) [
      | inl (fails, _) ↦ absurd (ground (arith, ap is_some (sym fails ∙ e₁)))
      | inr (packs, lt) ↦
          let frame_is : buffer ≡ frame text =
            some-injective buffer (frame text) (sym e₁ ∙ packs) in
          record {
            whole =
                sym (some-injective (buffer ++ buffers) s e₃)
                ∙ ap₂ ◌++◌ frame_is tail.whole
                ∙ sym (append_assoc (frame text) (frames texts) []);
            fit = (lt, tail.fit);
            short = tt;
          }
    ]

-- Texts of a socket that were packed and sent one after another, and arrive cut and mixed with what
-- other sockets send in any way: the gate gets these texts of the socket.
pub session-pack_data :
    (id : ℕ) (texts : List (List ℕ)) (events : List (ℕ × List ℕ))
    → AreChunks events
    → packed texts ≡ some (stream_of id events)
    → (nps : List Packet) × (last : Option MsgQueue) × (session none events ≡ some (nps, last))
      × (bodies_of id nps ≡ texts)
session-pack_data id texts events chunks sent =
    let (nps, last, e, parsed) = session-Parses events chunks in
    (nps, last, e, Parses-unique (parsed id) (packed_frames texts (stream_of id events) sent))
