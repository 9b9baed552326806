-- ===== src/Mq/Ring/Refine.antt =====
-- `mq_private` against the plain queue of the messages that it holds, oldest first.
use native.Mathlib.Nat.{mod-eq_of_lt}
use skynet.Base
use skynet.Base.{
  ℕ, zero, suc, ◌+◌, ◌-◌, ◌*◌, ◌%◌, ◌≤◌, ◌<◌, ◌≡◌, refl, ap, ap₂, sym, ◌∙◌, ◌≢◌, Bool, true, false,
  List, [], ◌∷◌, ◌++◌, arith, length-append, length-set, replicate, get_or, set, get_or-append,
  get_or-set_self, get_or-set_ne, append-nil, append_assoc, if◌then◌else◌, leb, ◌==◌, ==_iff,
  Bool-cases, inl, inr,
}
use skynet.Base.Window.{window, length-window, window-set, window-append, window_turn}
use skynet.Mq.Message.{Message, blank}
use skynet.Mq.Ring.{
  Ring, copy_old, expand_queue, store_tail, expand_if_full, push, note_overload, advance_head, pop,
  length, default_overload_threshold,
}
use skynet.Mq.Ring.Invariant.{IsValid, length-copy_old, push-IsValid, pop-IsValid}

abbrev pub contents : Ring → List Message
contents q = window blank q.queue q.cap q.head (length q)

-- `length()` counts the messages.
pub length-contents : (q : Ring) → Base.length (contents q) ≡ length q
length-contents q = length-window blank q.queue q.cap q.head (length q)

-- The copy loop reads a whole turn of the ring.
copy_old-window :
    (queue : List Message) (cap h i n : ℕ)
    → 0 < cap
    → copy_old queue cap h i n ≡ window blank queue cap ((h + i) % cap) n
unfolding copy_old
copy_old-window queue cap h i zero pos = refl
copy_old-window queue cap h i (suc n) pos =
    ap (◌∷◌ (get_or queue ((h + i) % cap) blank)) (copy_old-window queue cap h (i + 1) n pos)
    ∙ window_turn blank queue cap h i n pos

module _ {q : Ring} (m : Message) (v : IsValid q) where
  stored : Ring
  stored = store_tail q m

  stored-window : window blank stored.queue q.cap q.head (suc (length q)) ≡ contents q ++ m ∷ []
  unfolding stored store_tail length
  stored-window =
      window-set blank q.queue q.cap m (length q) q.head q.tail v.storage v.head_in
        (ground (arith, v)) (ground (arith, v))

  -- The array that replaces a full one holds the old messages in order, then the new one.
  expanded-contents : q.head ≡ stored.tail → contents (expand_queue stored) ≡ contents q ++ m ∷ []
  unfolding stored store_tail expand_queue length
  expanded-contents full =
      ap (window blank (copied ++ blanks) (q.cap * 2) 0) (ground (arith, sizes))
      ∙ window-append blank (copied ++ blanks) [] copied blanks (q.cap * 2) 0 refl refl
          (omega (arith, sizes))
      ∙ copy_old-window stored.queue q.cap q.head 0 q.cap (omega (arith, v))
      ∙ ap₂ (window blank stored.queue q.cap) {v = suc (length q)} (start ∙ mod-eq_of_lt v.head_in)
          (ground (arith, v))
      ∙ stored-window
    where
      copied : List Message
      copied = copy_old stored.queue q.cap q.head 0 q.cap

      blanks : List Message
      blanks = replicate q.cap blank

      sizes : Base.length copied ≡ q.cap
      sizes = length-copy_old stored.queue q.cap q.head 0 q.cap

      start : (q.head + 0) % q.cap ≡ q.head % q.cap
      start = ap (λ k. k % q.cap) (omega arith)

  -- `push` appends the message, whether or not the array has to grow for it.
  pub contents-push : contents (push q m).0 ≡ contents q ++ m ∷ []
  unfolding stored push expand_if_full length store_tail
  contents-push = elim (Bool-cases (stored.head == stored.tail)) [
    | inl full ↦
        rw (full, expand_if_full, push) (unfold length in expanded-contents ((==_iff _ _).0 full))
    | inr room ↦
        rw (room, expand_if_full, push)
          (ap (window blank stored.queue q.cap q.head) {y = suc (length q)} (ground (arith, v))
            ∙ unfold length in stored-window)
  ]

pub contents-note_overload : (q : Ring) → contents (note_overload q) ≡ contents q
unfolding note_overload length
contents-note_overload q = refl

contents-empty : (q : Ring) → q.head ≡ q.tail → window blank q.queue q.cap q.head (length q) ≡ []
unfolding length
contents-empty q e = ap (window blank q.queue q.cap q.head) {y = 0} (ground arith)

-- The queue that `pop` is meant to implement, with its emptiness flag, `*message` afterwards, and
-- the messages left.
abbrev pub pop_list : List Message → Message → Bool × Message × List Message
pop_list [] out = (true, out, [])
pop_list (m ∷ ms) out = (false, m, ms)

contents-advance :
    {q : Ring}
    → IsValid q
    → q.head ≢ q.tail
    → contents q ≡ get_or q.queue q.head blank ∷ contents (advance_head q)
unfolding advance_head length
contents-advance {q} v ne =
    ap (window blank q.queue q.cap q.head) {y = suc (length (advance_head q))} (ground (arith, v))

abbrev drained : Ring → Ring
drained q = record q { overload_threshold = default_overload_threshold; is_in_global = false }

-- `pop` takes the oldest message, and reports an empty queue exactly when there is none.
pub pop_refines :
    {q : Ring} (out : Message)
    → IsValid q
    → let (e, m, q') = pop q out in (e, m, contents q') ≡ pop_list (contents q) out
unfolding pop
pop_refines {q} out v = elim (Bool-cases (q.head == q.tail)) [
  | inl same ↦
      let e = (==_iff q.head q.tail).0 same in
      rw (same, pop, contents-empty q e, contents-empty (drained q) e)
  | inr more ↦
      rw
        (more, pop, contents-advance v (λ e. ground arith), contents-note_overload (advance_head q))
]

-- What a service and its senders do with the queue.
pub data Op : Type 0 where
  put : Message → Op
  get : Message → Op

abbrev report {ℓ} :
    {A : Type ℓ} → Bool → Message → List (Bool × Message) × A → List (Bool × Message) × A
report e m (seen, last) = ((e, m) ∷ seen, last)

-- The calls of a history in order; the result is what each `pop` reports and leaves in `*message`.
unfoldable pub run : Ring → List Op → List (Bool × Message) × Ring
run q [] = ([], q)
run q (put m ∷ ops) = run (push q m).0 ops
run q (get out ∷ ops) = let (e, m, q') = pop q out in report e m (run q' ops)

unfoldable pub run_list : List Message → List Op → List (Bool × Message) × List Message
run_list ms [] = ([], ms)
run_list ms (put m ∷ ops) = run_list (ms ++ m ∷ []) ops
run_list ms (get out ∷ ops) = let (e, m, ms') = pop_list ms out in report e m (run_list ms' ops)

-- On every history of pushes and pops the ring of a valid queue is indistinguishable from the list
-- of its messages, and it holds in the end what the list holds.
pub run_refines :
    (ops : List Op) {q : Ring}
    → IsValid q
    → let (seen, last) = run q ops in (seen, contents last) ≡ run_list (contents q) ops
unfolding run run_list
run_refines [] v = refl
run_refines (put m ∷ ops) v = rw (run_refines ops (push-IsValid m v), contents-push m v)
run_refines (get out ∷ ops) {q} v =
    ap (report (pop q out).0 (pop q out).1) (run_refines ops (pop-IsValid out v))
    ∙ ap (λ (p : Bool × Message × List Message). report p.0 p.1 (run_list p.2 ops))
        (pop_refines out v)
