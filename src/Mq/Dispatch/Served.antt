-- ===== src/Mq/Dispatch/Served.antt =====
-- Which messages a call of `node::dispatch_message` (skynet-src/node/node.cpp) handles.
use Prim.Native.Nat.{max}
use native.Mathlib.Nat.{div-le_self}
use skynet.Base
use skynet.Base.{
  ℕ, zero, suc, ◌+◌, ◌-◌, ◌*◌, ◌/◌, ◌%◌, ◌^◌, ◌≤◌, ◌<◌, ◌≡◌, refl, sym, ap, ap₂, subst, ◌∙◌, arith,
  Option, none, some, List, [], ◌∷◌, ◌++◌, take, drop, append-nil, append_assoc, length-append,
  Bool, true, false, if◌then◌else◌,
}
use skynet.Mq.Message.{Message, blank}
use skynet.Mq.Ring
use skynet.Mq.Ring.{Ring, push, pop, take_overload}
use skynet.Mq.Ring.Invariant.{IsValid, push-IsValid, pop-IsValid, take_overload-IsValid}
use skynet.Mq.Ring.Refine.{contents, pop_list, length-contents, contents-push, pop_refines}
use skynet.Mq.Dispatch.{
  process_begin, process_end, Worker, arrive, rounds, handle, serve_rest, dispatch_message,
}

-- How many messages are handled, of which so many are there.
abbrev pub served : Option ℕ → ℕ → ℕ
served none n = 1
served (some weight) n = max 1 ((n - 1) / 2 ^ weight)

contents-take_overload : (q : Ring) → contents (take_overload q).1 ≡ contents q
unfolding take_overload Ring.length
contents-take_overload q = ground arith

arrive_lem :
    (ms : List Message) {q : Ring}
    → IsValid q
    → IsValid (arrive q ms) × (contents (arrive q ms) ≡ contents q ++ ms)
unfolding arrive
arrive_lem [] {q} v = (v, sym (append-nil (contents q)))
arrive_lem (m ∷ ms) {q} v =
    let (v', e) = arrive_lem ms (push-IsValid m v) in
    (v', e ∙ ap (λ l. l ++ ms) (contents-push m v) ∙ append_assoc (contents q) (m ∷ []) ms)

take_front : (n : ℕ) (xs ys : List Message) → n ≤ Base.length xs → take n (xs ++ ys) ≡ take n xs
take_front zero xs ys le = refl
take_front (suc n) [] ys le = absurd (omega (arith, le))
take_front (suc n) (x ∷ xs) ys le = ap (λ l. x ∷ l) (take_front n xs ys (omega (arith, le)))

drop_front :
    (n : ℕ) (xs ys : List Message) → n ≤ Base.length xs → drop n (xs ++ ys) ≡ drop n xs ++ ys
drop_front zero xs ys le = refl
drop_front (suc n) [] ys le = absurd (omega (arith, le))
drop_front (suc n) (x ∷ xs) ys le = drop_front n xs ys (omega (arith, le))

-- The oldest message of a queue that has one.
pop_first :
    (q : Ring) (m : Message) (ms : List Message)
    → IsValid q
    → contents q ≡ m ∷ ms
    → ((pop q blank).0 ≡ false) × ((pop q blank).1 ≡ m) × (contents (pop q blank).2 ≡ ms)
pop_first q m ms v e =
    let whole =
      subst (λ c. ((pop q blank).0, (pop q blank).1, contents (pop q blank).2) ≡ pop_list c blank) e
        (pop_refines blank v) in
    (ap (λ r. r.0) whole, ap (λ r. r.1) whole, ap (λ r. r.2) whole)

module _ {ℓ} {S : Type ℓ} (callback : S → Message → S × List Message) where
  -- The messages one after the other: the state of the service, and all that was sent to it meanwhile.
  abbrev pub serve_all : S → List Message → S × List Message
  serve_all s [] = (s, [])
  serve_all s (m ∷ ms) =
      let answer = callback s m in
      let later = serve_all answer.0 ms in (later.0, answer.1 ++ later.1)

  -- The messages `ms` have been handled by the service, from this state and this version of the monitor
  -- on, and `left` are left of the queue.
  pub record Serves (s : S) (version : ℕ) (ms left : List Message) (r : Bool × Worker S)
      : Type ℓ where
    pub going : r.0 ≡ false
    pub valid : IsValid r.1.ring
    pub state : r.1.service ≡ (serve_all s ms).0
    pub queue : contents r.1.ring ≡ left ++ (serve_all s ms).1
    pub progress : r.1.monitor.last_version ≡ (version + 2 * Base.length ms) % 2 ^ 32

  handle-queue :
      (w : Worker S) (m : Message)
      → IsValid w.ring
      → IsValid (handle callback w m).ring
        × (contents (handle callback w m).ring ≡ contents w.ring ++ (callback w.service m).1)
  unfolding handle
  handle-queue w m v =
      let (v', e) = arrive_lem (callback w.service m).1 (take_overload-IsValid v) in
      (v', e ∙ ap (λ l. l ++ (callback w.service m).1) (contents-take_overload w.ring))

  -- One message more.
  handle-Serves :
      (w : Worker S) (m : Message) (ms left : List Message) (r : Bool × Worker S)
      → Serves
          (callback w.service m).0
          (handle callback w m).monitor.last_version
          ms
          (left ++ (callback w.service m).1)
          r
      → Serves w.service w.monitor.last_version (m ∷ ms) left r
  unfolding handle process_begin process_end
  handle-Serves w m ms left r s = record {
    going = s.going;
    valid = s.valid;
    state = s.state;
    queue =
        s.queue
        ∙ append_assoc left (callback w.service m).1 (serve_all (callback w.service m).0 ms).1;
    progress = s.progress ∙ omega arith;
  }

  handle-version :
      (w : Worker S) (m : Message) → (handle callback w m).monitor.last_version < 2 ^ 32
  unfolding handle process_end
  handle-version w m = omega arith

  handle-service :
      (w : Worker S) (m : Message) → (handle callback w m).service ≡ (callback w.service m).0
  unfolding handle
  handle-service w m = refl

  -- What `serve_rest` does in so many rounds, from any worker on.
  abbrev ServesRest : ℕ → Type ℓ
  ServesRest n =
      (w : Worker S) (c : List Message)
      → IsValid w.ring
      → contents w.ring ≡ c
      → n ≤ Base.length c
      → w.monitor.last_version < 2 ^ 32
      → Serves w.service w.monitor.last_version (take n c) (drop n c) (serve_rest callback n w)

  -- The round for a message that was taken, and those after it.
  round-Serves :
      (n : ℕ) (w : Worker S) (m : Message) (c : List Message)
      → ServesRest n
      → IsValid w.ring
      → contents w.ring ≡ c
      → n ≤ Base.length c
      → Serves w.service w.monitor.last_version
          (m ∷ take n c)
          (drop n c)
          (serve_rest callback n (handle callback w m))
  round-Serves n w m c rest v e le =
      let arrivals = (callback w.service m).1 in
      let (v', e') = handle-queue w m v in
      let all : contents (handle callback w m).ring ≡ c ++ arrivals =
        e' ∙ ap (λ l. l ++ arrivals) e in
      let later =
        rest (handle callback w m) (c ++ arrivals) v' all
          (omega (arith, le, length-append c arrivals)) (handle-version w m) in
      handle-Serves w m (take n c) (drop n c) (serve_rest callback n (handle callback w m)) (
        subst
          (λ s.
            Serves s (handle callback w m).monitor.last_version (take n c) (drop n c ++ arrivals)
              (serve_rest callback n (handle callback w m)))
          (handle-service w m)
          (rw (sym (take_front n c arrivals le), sym (drop_front n c arrivals le)) later))

  serve_rest-Serves : (n : ℕ) → ServesRest n
  unfolding serve_rest
  serve_rest-Serves zero w c v e le small = record {
    going = refl;
    valid = v;
    state = refl;
    queue = e ∙ sym (append-nil c);
    progress = omega (arith, small);
  }
  serve_rest-Serves (suc n) w [] v e le small = absurd (omega (arith, le))
  serve_rest-Serves (suc n) w (m ∷ c) v e le small =
      let (found, same, left) = pop_first w.ring m c v e in
      let w' = record w { ring = (pop w.ring blank).2 } in
      rw (found, same)
        (round-Serves n w' m c (serve_rest-Serves n) (pop-IsValid blank v) left (omega (arith, le)))

rounds_lem :
    (weight : Option ℕ) (q : Ring) (c : List Message)
    → contents q ≡ c
    → (served weight (suc (Base.length c)) ≡ suc (rounds weight q - 1))
      × (rounds weight q - 1 ≤ Base.length c)
unfolding rounds
rounds_lem none q c e = (refl, omega arith)
rounds_lem (some weight) q c e =
    let n : Ring.length q ≡ Base.length c = sym (length-contents q) ∙ ap Base.length e in
    let same : suc (Base.length c) - 1 ≡ Base.length c = omega arith in
    let le = div-le_self (Base.length c) (2 ^ weight) in
    rw (n, same) (omega arith, omega (arith, le))

module _ {ℓ} {S : Type ℓ} (callback : S → Message → S × List Message) where
  -- A queue with messages is served from the oldest message on, in order: one message for a negative
  -- weight, else as many as the weight says of those that are left after the first, but at least one. The
  -- service gets exactly these, each once, and the queue keeps the others with what came meanwhile behind
  -- them; the monitor counts twice for each message. The call ends with a queue that was not found empty.
  pub dispatch_message-Serves :
      (weight : Option ℕ) (w : Worker S) (m : Message) (c : List Message)
      → IsValid w.ring
      → contents w.ring ≡ m ∷ c
      → w.monitor.last_version < 2 ^ 32
      → Serves callback w.service w.monitor.last_version
          (take (served weight (Base.length (m ∷ c))) (m ∷ c))
          (drop (served weight (Base.length (m ∷ c))) (m ∷ c))
          (dispatch_message callback weight w)
  unfolding dispatch_message
  dispatch_message-Serves weight w m c v e small =
      let (found, same, left) = pop_first w.ring m c v e in
      let w' = record w { ring = (pop w.ring blank).2 } in
      let (k, le) = rounds_lem weight (pop w.ring blank).2 c left in
      let n = rounds weight (pop w.ring blank).2 - 1 in
      rw (k, found, same)
        (round-Serves callback n w' m c (serve_rest-Serves callback n) (pop-IsValid blank v) left
          le)

  -- A queue without messages is let go of.
  pub dispatch_empty :
      (weight : Option ℕ) (w : Worker S)
      → IsValid w.ring
      → contents w.ring ≡ []
      → ((dispatch_message callback weight w).0 ≡ true)
        × ((dispatch_message callback weight w).1.service ≡ w.service)
  unfolding dispatch_message
  dispatch_empty weight w v e =
      let whole =
        subst
          (λ c.
            ((pop w.ring blank).0, (pop w.ring blank).1, contents (pop w.ring blank).2)
            ≡ pop_list c blank)
          e (pop_refines blank v) in
      let empty : (pop w.ring blank).0 ≡ true = ap (λ r. r.0) whole in rw empty (refl, refl)
