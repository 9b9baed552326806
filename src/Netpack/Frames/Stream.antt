-- ===== src/Netpack/Frames/Stream.antt =====
-- `_push_more` and `filter_data_` of luaclib-src/lua-netpack.cpp against the parts of a stream.
use skynet.Base.{
  ℕ, zero, suc, ◌+◌, ◌*◌, ◌/◌, ◌%◌, ◌^◌, ◌≤◌, ◌<◌, ◌≡◌, ◌≢◌, refl, ap, ap₂, sym, subst, ◌∙◌, arith,
  Option, some, List, [], ◌∷◌, ◌++◌, map, length, take, drop, take-drop, length-take, length-drop,
  append-nil, ltb, Bool-cases, inl, inr,
}
use skynet.Base.Words.{or_sum}
use skynet.Crypt.Bytes.{IsBytes, drop-IsBytes}
use skynet.Netpack.Queue.{Packet, MsgQueue, get_queue, push_data}
use skynet.Netpack.Queue.Ring.{packets}
use skynet.Netpack.Queue.Chains.{held}
use skynet.Netpack.Filter.{
  Filtered, nothing, data_of, more, error_of, open_of, close_of, warning_of, save_header, save_data,
  read_size, push_more, more_of,
}
use skynet.Netpack.Frames.{frame, frames, IsShort, Parses, pending, IsQueue, packet_of, Advances}
use skynet.Netpack.Frames.Steps.{
  save_header-Advances, save_data-Advances, push_data-Advances, append-Advances,
}

pub read_size_lem : (b c : ℕ) → c < 2 ^ 8 → read_size b c ≡ b * 2 ^ 8 + c
unfolding read_size
read_size_lem b c lt = or_sum 8 b c lt

-- A size in front of at least as many bytes.
pub frame_split :
    (b c : ℕ) (buffer : List ℕ) (n : ℕ)
    → c < 2 ^ 8
    → n ≡ b * 2 ^ 8 + c
    → n ≤ length buffer
    → (n ≡ length (take n buffer)) × (b ∷ c ∷ buffer ≡ frame (take n buffer) ++ drop n buffer)
frame_split b c buffer n lt e le =
    let size : n ≡ length (take n buffer) = omega (arith, length-take n buffer) in
    let hi : b ≡ length (take n buffer) / 2 ^ 8 = omega (arith, size, e) in
    let lo : c ≡ length (take n buffer) % 2 ^ 8 = omega (arith, size, e) in
    (size, ap₂ ◌∷◌ hi (ap₂ ◌∷◌ lo (sym (take-drop n buffer))))

pub no_bytes : (xs : List ℕ) → length xs ≡ 0 → xs ≡ []
no_bytes [] e = refl
no_bytes (x ∷ xs) e = absurd (omega (arith, e))

abbrev pub Goes : ℕ → MsgQueue → List ℕ → Option MsgQueue → Type 0
Goes id q stream result =
    (q' : MsgQueue) × (sent : List (List ℕ)) × (result ≡ some q') × Advances id q q' stream sent

pub push_more_lem :
    (calls : ℕ) (q : MsgQueue) (id : ℕ) (stream : List ℕ)
    → IsQueue q
    → held q id ≡ []
    → IsBytes stream
    → 1 ≤ length stream
    → length stream ≤ calls
    → Goes id q stream (push_more calls q id stream)
unfolding push_more
push_more_lem zero q id stream v free bytes pos le = absurd (omega arith)
push_more_lem (suc calls) q id [] v free bytes pos le = absurd (omega arith)
push_more_lem (suc calls) q id (b ∷ []) v free (lt, _) pos le =
    (save_header (some q) id b, [], refl, save_header-Advances q id b v free lt)
push_more_lem (suc calls) q id (b ∷ c ∷ buffer) v free (p, (r, bytes)) pos le =
    let n = read_size b c in
    let e = read_size_lem b c r in
    elim (Bool-cases (ltb (length buffer) n)) [
      | inl part ↦
          let hi : n / 2 ^ 8 ≡ b = omega (arith, e) in
          let lo : n % 2 ^ 8 ≡ c = omega (arith, e) in
          (
            save_data (some q) id n buffer,
            [],
            rw part refl,
            subst (λ s. Advances id q (save_data (some q) id n buffer) s [])
                (ap₂ (λ x y. x ∷ y ∷ buffer) hi lo)
                (save_data-Advances q id n buffer v free (ground (arith, part)) (omega (arith, e))),
          )
      | inr enough ↦
          let (size, split) = frame_split b c buffer n r e (ground (arith, enough)) in
          let body = take n buffer in
          let left = drop n buffer in
          let (free', step) = push_data-Advances q id body v free (omega (arith, e, size)) in
          let pushed = push_data (some q) id body (length body) in
          let same : push_data (some q) id body n ≡ pushed = ap (push_data (some q) id body) size in
          elim (Bool-cases (ltb 0 (length left))) [
            | inl again ↦
                let (q', sent, e', rest) =
                  push_more_lem calls pushed id left step.valid free' (drop-IsBytes n buffer bytes)
                    (ground (arith, again)) (omega (arith, length-drop n buffer)) in
                (
                  q',
                  body ∷ sent,
                  rw (enough, again, same) e',
                  subst (λ s. Advances id q q' s (body ∷ sent)) (sym split)
                      (append-Advances free' step rest),
                )
            | inr done ↦ (
              pushed,
              body ∷ [],
              rw (enough, done, same) refl,
              subst (λ s. Advances id q pushed s (body ∷ []))
                  (sym (
                    split
                    ∙ ap (λ l. frame body ++ l) (no_bytes left (ground (arith, done)))
                    ∙ append-nil (frame body)))
                  step,
            )
          ]
    ]

-- The packet that a call hands over at once.
abbrev pub handed : Filtered → List Packet
handed nothing = []
handed (data_of np) = np ∷ []
handed more = []
handed (error_of id text) = []
handed (open_of id text) = []
handed (close_of id) = []
handed (warning_of id ud) = []

-- A call returns: with what it hands over or queues the stream is parsed, and the other sockets are
-- left alone.
pub record Filters (id : ℕ) (q : MsgQueue) (stream : List ℕ) (q' : Option MsgQueue) (f : Filtered)
    (sent : List (List ℕ)) : Type 0 where
  pub parsed : Parses stream sent (pending (held (get_queue q') id))
  pub gives : handed f ++ packets (get_queue q') ≡ map (packet_of id) sent
  pub others : (other : ℕ) → other ≢ id → held (get_queue q') other ≡ held q other
  pub valid : IsQueue (get_queue q')

abbrev pub Returns : ℕ → MsgQueue → List ℕ → Option (Option MsgQueue × Filtered) → Type 0
Returns id q stream result =
    (q' : Option MsgQueue) × (f : Filtered) × (sent : List (List ℕ)) × (result ≡ some (q', f))
    × Filters id q stream q' f sent

pub Advances-Filters :
    {id : ℕ} {q q' : MsgQueue} {stream : List ℕ} {sent : List (List ℕ)} (f : Filtered)
    → handed f ≡ []
    → packets q ≡ []
    → Advances id q q' stream sent
    → Filters id q stream (some q') f sent
unfolding get_queue
Advances-Filters {id} {q} {q'} {stream} {sent} f idle empty a = record {
  parsed = a.parsed;
  gives = ap (λ l. l ++ packets q') idle ∙ a.queued ∙ ap (λ l. l ++ map (packet_of id) sent) empty;
  others = a.others;
  valid = a.valid;
}

-- One whole packet is handed over.
pub whole-Filters :
    (id : ℕ) (q : Option MsgQueue) (body : List ℕ)
    → IsQueue (get_queue q)
    → held (get_queue q) id ≡ []
    → packets (get_queue q) ≡ []
    → length body < 2 ^ 16
    → Filters id (get_queue q) (frame body) q (data_of (packet_of id body)) (body ∷ [])
whole-Filters id q body v free empty fit = record {
  parsed = record {
    whole =
        sym (append-nil (frame body ++ []) ∙ append-nil (frame body))
        ∙ ap (λ l. frames (body ∷ []) ++ pending l) (sym free);
    fit = (fit, tt);
    short = subst (λ l. IsShort (pending l)) (sym free) tt;
  };
  gives = ap (λ l. packet_of id body ∷ l) empty;
  others = λ other ne. refl;
  valid = v;
}

pub more_of-Returns :
    (id : ℕ) (q : MsgQueue) (stream : List ℕ) (result : Option MsgQueue)
    → packets q ≡ []
    → Goes id q stream result
    → Returns id q stream (more_of result)
unfolding more_of
more_of-Returns id q stream result empty (q', sent, e, a) =
    (some q', more, sent, rw e refl, Advances-Filters more refl empty a)
