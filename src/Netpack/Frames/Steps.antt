-- ===== src/Netpack/Frames/Steps.antt =====
-- The steps of luaclib-src/lua-netpack.cpp that keep a part of a packet or queue a whole one.
use native.Mathlib.Decide.{ℕ_discrete}
use skynet.Base.{
  ℕ, ◌/◌, ◌%◌, ◌^◌, ◌<◌, ◌≡◌, ◌≢◌, refl, ap, ap₂, sym, subst, ◌∙◌, arith, some, get_or, List, [],
  ◌∷◌, ◌++◌, map, length, append_assoc, append-nil, ◌==◌, inl, inr, false,
}
use skynet.Netpack.Queue.{
  Uncomplete, MsgQueue, size_unread, get_queue, hash_socket_id, push_data, link_front,
}
use skynet.Netpack.Queue.Ring.{packets, push_data-IsRing, packets-push_data}
use skynet.Netpack.Queue.Chains.{held, of_socket, link_front_lem, hash-push_data}
use skynet.Netpack.Filter.{save_header, save_data}
use skynet.Netpack.Frames.{
  frame, frames, frames-append, append-AllFit, IsShort, pending, IsPartial, AtMostOne, IsQueue,
  packet_of, Advances,
}

pub held_same : (q q' : MsgQueue) (other : ℕ) → q'.hash ≡ q.hash → held q' other ≡ held q other
held_same q q' other e = ap (λ h. of_socket other (get_or h (hash_socket_id other) [])) e

map-append {ℓ κ} :
    {A : Type ℓ} {B : Type κ} (f : A → B) (xs ys : List A) → map f (xs ++ ys) ≡ map f xs ++ map f ys
map-append f [] ys = refl
map-append f (x ∷ xs) ys = ap (λ l. f x ∷ l) (map-append f xs ys)

-- Of every socket but one the same is kept, and of that one an object that is partial.
kept_after :
    (q q' : MsgQueue) (id : ℕ) (uc : Uncomplete)
    → IsQueue q
    → held q' id ≡ uc ∷ []
    → IsPartial uc
    → ((other : ℕ) → other ≢ id → held q' other ≡ held q other)
    → (other : ℕ) → AtMostOne (held q' other)
kept_after q q' id uc v e p others other = elim (ℕ_discrete other id) [
  | yes same ↦ subst AtMostOne (sym (ap (held q') same ∙ e)) p
  | no ne ↦ subst AtMostOne (sym (others other ne)) (v.kept other)
]

-- An object that is kept for a socket of which nothing was kept.
pub link_front-Advances :
    (q : MsgQueue) (id : ℕ) (uc : Uncomplete)
    → IsQueue q
    → held q id ≡ []
    → uc.pack.socket_id ≡ id
    → IsPartial uc
    → IsShort (pending (uc ∷ []))
    → Advances id q (link_front q id uc) (pending (uc ∷ [])) []
link_front-Advances q id uc v free own p short =
    let (mine, others, slots, ring, same) = link_front_lem q id uc v.slots own in
    let e = mine ∙ ap (λ l. uc ∷ l) free in
    record {
      parsed = record {
        whole = sym (ap pending e);
        fit = tt;
        short = subst (λ l. IsShort (pending l)) (sym e) short;
      };
      queued = same ∙ sym (append-nil (packets q));
      others = others;
      valid = record {
        ring = ring v.ring;
        slots = slots;
        kept = kept_after q (link_front q id uc) id uc v e p others;
      };
    }

pub save_header-Advances :
    (q : MsgQueue) (id b : ℕ)
    → IsQueue q
    → held q id ≡ []
    → b < 2 ^ 8
    → Advances id q (save_header (some q) id b) (b ∷ []) []
unfolding save_header get_queue
save_header-Advances q id b v free lt = link_front-Advances q id _ v free refl (inl (refl, lt)) tt

pub save_data-Advances :
    (q : MsgQueue) (id size : ℕ) (buffer : List ℕ)
    → IsQueue q
    → held q id ≡ []
    → length buffer < size
    → size < 2 ^ 16
    → Advances id q (save_data (some q) id size buffer) (size / 2 ^ 8 ∷ size % 2 ^ 8 ∷ buffer) []
unfolding save_data get_queue
save_data-Advances q id size buffer v free lt fit =
    let uc : Uncomplete = record {
      pack = record { socket_id = id; size = size; buf = buffer };
      read = length buffer;
      header = 0;
    } in
    let test : (length buffer == size_unread) ≡ false = ground arith in
    let e : pending (uc ∷ []) ≡ size / 2 ^ 8 ∷ size % 2 ^ 8 ∷ buffer = rw test refl in
    subst (λ s. Advances id q (link_front q id uc) s []) e
      (link_front-Advances q id uc v free refl (inr (refl, lt, fit))
        (subst IsShort (sym e) (omega arith)))

pub push_data-Advances :
    (q : MsgQueue) (id : ℕ) (body : List ℕ)
    → IsQueue q
    → held q id ≡ []
    → length body < 2 ^ 16
    → (held (push_data (some q) id body (length body)) id ≡ [])
      × Advances id q (push_data (some q) id body (length body)) (frame body) (body ∷ [])
push_data-Advances q id body v free fit =
    let q' = push_data (some q) id body (length body) in
    let same : (other : ℕ) → held q' other ≡ held q other =
      λ other. held_same q q' other (hash-push_data q id body (length body)) in
    (
      same id ∙ free,
      record {
        parsed = record {
          whole =
              sym (append-nil (frame body ++ []) ∙ append-nil (frame body))
              ∙ ap (λ l. frames (body ∷ []) ++ pending l) (sym (same id ∙ free));
          fit = (fit, tt);
          short = subst (λ l. IsShort (pending l)) (sym (same id ∙ free)) tt;
        };
        queued = packets-push_data id body (length body) v.ring;
        others = λ other ne. same other;
        valid = record {
          ring = push_data-IsRing id body (length body) v.ring;
          slots = ap length (hash-push_data q id body (length body)) ∙ v.slots;
          kept = λ other. subst AtMostOne (sym (same other)) (v.kept other);
        };
      },
    )

-- One advance behind another that has left no rest.
pub append-Advances :
    {id : ℕ} {q q' q'' : MsgQueue} {stream more : List ℕ} {sent later : List (List ℕ)}
    → held q' id ≡ []
    → Advances id q q' stream sent
    → Advances id q' q'' more later
    → Advances id q q'' (stream ++ more) (sent ++ later)
append-Advances {id} {q} {q'} {q''} {stream} {more} {sent} {later} free a b =
    let whole : stream ≡ frames sent =
      a.parsed.whole ∙ ap (λ l. frames sent ++ pending l) free ∙ append-nil (frames sent) in
    record {
      parsed = record {
        whole =
            ap₂ ◌++◌ whole b.parsed.whole
            ∙ sym (append_assoc (frames sent) (frames later) (pending (held q'' id)))
            ∙ ap (λ l. l ++ pending (held q'' id)) (sym (frames-append sent later));
        fit = append-AllFit sent later a.parsed.fit b.parsed.fit;
        short = b.parsed.short;
      };
      queued =
          b.queued
          ∙ ap (λ l. l ++ map (packet_of id) later) a.queued
          ∙ append_assoc (packets q) (map (packet_of id) sent) (map (packet_of id) later)
          ∙ ap (λ l. packets q ++ l) (sym (map-append (packet_of id) sent later));
      others = λ other ne. b.others other ne ∙ a.others other ne;
      valid = b.valid;
    }
