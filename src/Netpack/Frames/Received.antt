-- ===== src/Netpack/Frames/Received.antt =====
-- `filter_data_` of luaclib-src/lua-netpack.cpp against the stream of a socket.
use skynet.Base.{
  ℕ, ◌/◌, ◌%◌, ◌^◌, ◌≤◌, ◌<◌, ◌≡◌, refl, ap, ap₂, sym, subst, ◌∙◌, arith, Option, none, some, List,
  [], ◌∷◌, ◌++◌, length, take, drop, take-all, length-drop, ◌==◌, ==_iff, ltb, Bool-cases, inl, inr,
}
use skynet.Crypt.Bytes.{IsBytes, drop-IsBytes}
use skynet.Netpack.Queue.{MsgQueue, get_queue, push_data}
use skynet.Netpack.Queue.Ring.{packets}
use skynet.Netpack.Queue.Chains.{held}
use skynet.Netpack.Filter.{nothing, data_of, save_header, save_data, read_size, push_more, begin}
use skynet.Netpack.Frames.{frame, IsQueue, packet_of, Advances}
use skynet.Netpack.Frames.Steps.{
  save_header-Advances, save_data-Advances, push_data-Advances, append-Advances,
}
use skynet.Netpack.Frames.Stream.{
  read_size_lem, frame_split, push_more_lem, Goes, Filters, Returns, Advances-Filters,
  whole-Filters, more_of-Returns,
}

-- A call on no queue is one on a new queue.
save_header_new :
    (q : Option MsgQueue) (id b : ℕ) → save_header q id b ≡ save_header (some (get_queue q)) id b
unfolding save_header get_queue
save_header_new none id b = refl
save_header_new (some q) id b = refl

save_data_new :
    (q : Option MsgQueue) (id n : ℕ) (buffer : List ℕ)
    → save_data q id n buffer ≡ save_data (some (get_queue q)) id n buffer
unfolding save_data get_queue
save_data_new none id n buffer = refl
save_data_new (some q) id n buffer = refl

push_data_new :
    (q : Option MsgQueue) (id : ℕ) (buffer : List ℕ) (n : ℕ)
    → push_data q id buffer n ≡ push_data (some (get_queue q)) id buffer n
unfolding push_data get_queue
push_data_new none id buffer n = refl
push_data_new (some q) id buffer n = refl

-- A whole packet, and more bytes behind it.
pub pushed_and_more :
    (q : MsgQueue) (id : ℕ) (body left : List ℕ)
    → IsQueue q
    → held q id ≡ []
    → length body < 2 ^ 16
    → IsBytes left
    → 1 ≤ length left
    → Goes id q
        (frame body ++ left)
        (push_more (length left) (push_data (some q) id body (length body)) id left)
pushed_and_more q id body left v free fit bytes pos =
    let (free', step) = push_data-Advances q id body v free fit in
    let pushed = push_data (some q) id body (length body) in
    let (q', sent, e, rest) =
      push_more_lem (length left) pushed id left step.valid free' bytes pos (omega arith) in
    (q', body ∷ sent, e, append-Advances free' step rest)

pub begin_lem :
    (q : Option MsgQueue) (id : ℕ) (chunk : List ℕ)
    → IsQueue (get_queue q)
    → held (get_queue q) id ≡ []
    → packets (get_queue q) ≡ []
    → IsBytes chunk
    → 1 ≤ length chunk
    → Returns id (get_queue q) chunk (begin q id chunk)
unfolding begin
begin_lem q id [] v free empty bytes pos = absurd (omega arith)
begin_lem q id (b ∷ []) v free empty (lt, _) pos = (
  some (save_header (some (get_queue q)) id b),
  nothing,
  [],
  ap (λ q'. some (some q', nothing)) (save_header_new q id b),
  Advances-Filters nothing refl empty (save_header-Advances (get_queue q) id b v free lt),
)
begin_lem q id (b ∷ c ∷ buffer) v free empty (p, (r, bytes)) pos =
    let n = read_size b c in
    let e = read_size_lem b c r in
    let now = get_queue q in
    elim (Bool-cases (ltb (length buffer) n)) [
      | inl part ↦
          let hi : n / 2 ^ 8 ≡ b = omega (arith, e) in
          let lo : n % 2 ^ 8 ≡ c = omega (arith, e) in
          (
            some (save_data (some now) id n buffer),
            nothing,
            [],
            rw part (ap (λ q'. some (some q', nothing)) (save_data_new q id n buffer)),
            Advances-Filters nothing refl empty (
                subst (λ s. Advances id now (save_data (some now) id n buffer) s [])
                  (ap₂ (λ x y. x ∷ y ∷ buffer) hi lo)
                  (save_data-Advances now id n buffer v free (ground (arith, part))
                    (omega (arith, e)))),
          )
      | inr enough ↦
          let (size, split) = frame_split b c buffer n r e (ground (arith, enough)) in
          let body = take n buffer in
          let left = drop n buffer in
          elim (Bool-cases (length buffer == n)) [
            | inl whole ↦
                let len : length buffer ≡ n = (==_iff _ _).0 whole in
                let all : body ≡ buffer = take-all n buffer (omega (arith, len)) in
                let hi : length buffer / 2 ^ 8 ≡ b = omega (arith, e, len) in
                let lo : length buffer % 2 ^ 8 ≡ c = omega (arith, e, len) in
                (
                  q,
                  data_of (packet_of id buffer),
                  buffer ∷ [],
                  rw (enough, whole) refl,
                  subst (λ s. Filters id now s q (data_of (packet_of id buffer)) (buffer ∷ []))
                      (ap₂ (λ x y. x ∷ y ∷ buffer) hi lo)
                      (whole-Filters id q buffer v free empty (omega (arith, e, len))),
                )
            | inr longer ↦
                let same : push_data q id body n ≡ push_data (some now) id body (length body) =
                  push_data_new q id body n ∙ ap (push_data (some now) id body) size in
                let goes =
                  pushed_and_more now id body left v free (omega (arith, e, size))
                    (drop-IsBytes n buffer bytes)
                    (ground (arith, longer, enough, length-drop n buffer)) in
                let (q', f, sent, e', back) =
                  more_of-Returns id now (frame body ++ left) _ empty goes in
                (
                  q',
                  f,
                  sent,
                  rw (enough, longer, same) e',
                  subst (λ s. Filters id now s q' f sent) (sym split) back,
                )
          ]
    ]
