-- ===== src/Netpack/Frames/Filled.antt =====
-- `filter_data_` of luaclib-src/lua-netpack.cpp where a packet has begun, and as a whole.
use skynet.Base.{
  ℕ, ◌+◌, ◌-◌, ◌/◌, ◌%◌, ◌^◌, ◌≤◌, ◌<◌, ◌≡◌, refl, ap, ap₂, sym, subst, ◌∙◌, arith, some, List, [],
  ◌∷◌, ◌++◌, length, take, drop, take-drop, take-all, length-take, append_assoc, length-append,
  append-nil, ◌==◌, ==_iff, ltb, Bool-cases, inl, inr, false,
}
use skynet.Crypt.Bytes.{IsBytes, drop-IsBytes}
use skynet.Netpack.Queue.{Uncomplete, MsgQueue, size_unread, get_queue, push_data, link_front}
use skynet.Netpack.Queue.Ring.{packets}
use skynet.Netpack.Queue.Chains.{held}
use skynet.Netpack.Filter.{nothing, data_of, fill}
use skynet.Netpack.Frames.{frame, IsShort, pending, IsQueue, packet_of, Advances}
use skynet.Netpack.Frames.Steps.{link_front-Advances}
use skynet.Netpack.Frames.Received.{pushed_and_more}
use skynet.Netpack.Frames.Stream.{
  no_bytes, Filters, Returns, Advances-Filters, whole-Filters, more_of-Returns,
}

pub pending_known :
    (uc : Uncomplete)
    → (uc.read == size_unread) ≡ false
    → pending (uc ∷ []) ≡ uc.pack.size / 2 ^ 8 ∷ uc.pack.size % 2 ^ 8 ∷ uc.pack.buf
pending_known uc test = rw test refl

-- The bytes of the object, whose size is known, and those of the chunk.
abbrev pub joined : Uncomplete → List ℕ → List ℕ
joined uc buffer = uc.pack.size / 2 ^ 8 ∷ uc.pack.size % 2 ^ 8 ∷ (uc.pack.buf ++ buffer)

pub record Fills (id : ℕ) (q : MsgQueue) (uc : Uncomplete) (buffer : List ℕ) : Type 0 where
  pub valid : IsQueue q
  pub free : held q id ≡ []
  pub empty : packets q ≡ []
  pub bytes : IsBytes buffer
  pub own : uc.pack.socket_id ≡ id
  pub known : uc.read ≡ length uc.pack.buf
  pub within : uc.read ≤ uc.pack.size
  pub fit : uc.pack.size < 2 ^ 16

module _ {id : ℕ} {q : MsgQueue} {uc : Uncomplete} {buffer : List ℕ}
    (h : Fills id q uc buffer) where
  need : ℕ
  need = uc.pack.size - uc.read

  body : List ℕ
  body = uc.pack.buf ++ take need buffer

  -- Still not complete.
  fill_part :
      length buffer < need
      → Returns id q (joined uc buffer) (
          some (
            some (
                link_front q id (record uc {
                  pack = record uc.pack { buf = body };
                  read = uc.read + length buffer;
                })),
            nothing,
          ))
  unfolding need body
  fill_part lt =
      let uc' : Uncomplete = record uc {
        pack = record uc.pack { buf = body };
        read = uc.read + length buffer;
      } in
      let all : take need buffer ≡ buffer = take-all need buffer (omega (arith, lt)) in
      let len : length body ≡ length uc.pack.buf + length buffer =
        ap (λ l. length (uc.pack.buf ++ l)) all ∙ length-append uc.pack.buf buffer in
      let test : (uc.read + length buffer == size_unread) ≡ false = ground (arith, h, lt) in
      let e : pending (uc' ∷ []) ≡ joined uc buffer =
        pending_known uc' test
        ∙ ap (λ l. uc.pack.size / 2 ^ 8 ∷ uc.pack.size % 2 ^ 8 ∷ (uc.pack.buf ++ l)) all in
      (
        some (link_front q id uc'),
        nothing,
        [],
        refl,
        Advances-Filters nothing refl h.empty (
            subst (λ s. Advances id q (link_front q id uc') s []) e
              (link_front-Advances q id uc' h.valid h.free h.own
                (inr (omega (arith, h, len), omega (arith, h, len, lt), h.fit))
                (subst IsShort (sym e) (omega (arith, h, lt, length-append uc.pack.buf buffer))))),
      )

  length-body : need ≤ length buffer → uc.pack.size ≡ length body
  unfolding need body
  length-body le =
      omega (arith, h, le, length-append uc.pack.buf (take need buffer), length-take need buffer)

  framed-body : need ≤ length buffer → frame body ++ drop need buffer ≡ joined uc buffer
  unfolding need body
  framed-body le =
      ap₂ (λ n l. n / 2 ^ 8 ∷ n % 2 ^ 8 ∷ l) (sym (length-body le))
        (append_assoc uc.pack.buf (take need buffer) (drop need buffer)
          ∙ ap (λ l. uc.pack.buf ++ l) (take-drop need buffer))

same_packet :
    (uc : Uncomplete) (id : ℕ) (b : List ℕ)
    → uc.pack.socket_id ≡ id
    → uc.pack.size ≡ length b
    → record uc.pack { buf = b } ≡ packet_of id b
same_packet uc id b own size = λ i. record { socket_id = own i; size = size i; buf = b }

pub fill_lem :
    (id : ℕ) (q : MsgQueue) (uc : Uncomplete) (buffer : List ℕ)
    → Fills id q uc buffer
    → Returns id q (joined uc buffer) (fill q id uc buffer)
unfolding fill need body get_queue
fill_lem id q uc buffer h =
    let left = drop (uc.pack.size - uc.read) buffer in
    let b = body h in
    elim (Bool-cases (ltb (length buffer) (uc.pack.size - uc.read))) [
      | inl part ↦ rw part (fill_part h (ground (arith, part)))
      | inr enough ↦
          let le : uc.pack.size - uc.read ≤ length buffer = ground (arith, enough) in
          let size = length-body h le in
          let fit : length b < 2 ^ 16 = omega (arith, size, h) in
          elim (Bool-cases (length left == 0)) [
            | inl whole ↦
                let np = same_packet uc id b h.own size in
                let split =
                  sym (append-nil (frame b))
                  ∙ ap (λ l. frame b ++ l) (sym (no_bytes left ((==_iff _ _).0 whole)))
                  ∙ framed-body h le in
                (
                  some q,
                  data_of (packet_of id b),
                  b ∷ [],
                  rw (enough, whole) (ap (λ n. some (some q, data_of n)) np),
                  subst (λ s. Filters id q s (some q) (data_of (packet_of id b)) (b ∷ [])) split
                      (whole-Filters id (some q) b h.valid h.free h.empty fit),
                )
            | inr longer ↦
                let goes =
                  pushed_and_more q id b left h.valid h.free fit (drop-IsBytes _ buffer h.bytes)
                    (ground (arith, longer)) in
                let (q', f, sent, e', back) =
                  more_of-Returns id q (frame b ++ left) _ h.empty goes in
                (
                  q',
                  f,
                  sent,
                  rw (enough, longer, ap (push_data (some q) id b) size) e',
                  subst (λ s. Filters id q s q' f sent) (framed-body h le) back,
                )
          ]
    ]
