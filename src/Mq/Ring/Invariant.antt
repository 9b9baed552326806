-- ===== src/Mq/Ring/Invariant.antt =====
-- The representation invariant of `mq_private`, and that every method keeps it.
use skynet.Base.{
  ℕ, zero, suc, ◌+◌, ◌*◌, ◌<◌, ◌≡◌, refl, ap, true, false, not, if◌then◌else◌, List, [], ◌∷◌, ◌++◌,
  arith, length-append, length-replicate, length-set, replicate,
}
use skynet.Base
use skynet.Mq.Message.{Message, blank}
use skynet.Mq.Ring.{
  Ring, create, copy_old, expand_queue, store_tail, expand_if_full, push, raise_threshold, distance,
  note_overload, advance_head, pop, take_overload,
}

-- The indices lie in the array, and the threshold can be doubled past any length.
pub record IsValid (q : Ring) : Type 0 where
  pub storage : Base.length q.queue ≡ q.cap
  pub head_in : q.head < q.cap
  pub tail_in : q.tail < q.cap
  pub positive : 0 < q.overload_threshold

pub length-copy_old :
    (queue : List Message) (cap head i n : ℕ) → Base.length (copy_old queue cap head i n) ≡ n
unfolding copy_old
length-copy_old queue cap head i zero = refl
length-copy_old queue cap head i (suc n) = ap suc (length-copy_old queue cap head (i + 1) n)

pub create-IsValid : (svc_handle : ℕ) → IsValid (create svc_handle)
unfolding create
create-IsValid svc_handle = omega arith

pub expand_queue-IsValid : {q : Ring} → IsValid q → IsValid (expand_queue q)
unfolding expand_queue
expand_queue-IsValid {q} v = omega (
  arith,
  length-append (copy_old q.queue q.cap q.head 0 q.cap) (replicate q.cap blank),
  length-copy_old q.queue q.cap q.head 0 q.cap,
  length-replicate q.cap blank,
)

pub push-IsValid : {q : Ring} (m : Message) → IsValid q → IsValid (push q m).0
unfolding push expand_if_full store_tail
push-IsValid {q} m v =
    ground (arith, expand_queue-IsValid {q = store_tail q m}, length-set q.queue q.tail m)

pub raise_threshold_pos : (fuel n o t : ℕ) → 0 < t → 0 < (raise_threshold fuel n (o, t)).1
unfolding raise_threshold
raise_threshold_pos zero n o t h = h
raise_threshold_pos (suc fuel) n o t h = ground (arith, raise_threshold_pos fuel n n (t * 2))

pub note_overload-IsValid : {q : Ring} → IsValid q → IsValid (note_overload q)
unfolding note_overload
note_overload-IsValid {q} v =
    let n = distance q.head q.tail q.cap in
    ground (arith, raise_threshold_pos n n q.overload q.overload_threshold)

pub advance_head-IsValid : {q : Ring} → IsValid q → IsValid (advance_head q)
unfolding advance_head
advance_head-IsValid v = ground arith

pub pop-IsValid : {q : Ring} (out : Message) → IsValid q → IsValid (pop q out).2
unfolding pop
pop-IsValid {q} out v = ground (arith, note_overload-IsValid (advance_head-IsValid v))

pub take_overload-IsValid : {q : Ring} → IsValid q → IsValid (take_overload q).1
unfolding take_overload
take_overload-IsValid v = ground arith

-- What `push` does to the marks of the queue, and when it calls for the global list.
pub push_flags :
    (q : Ring) (m : Message)
    → ((push q m).0.is_in_global ≡ true)
      × ((push q m).0.is_release ≡ q.is_release)
      × ((push q m).1 ≡ not q.is_in_global)
unfolding push expand_if_full store_tail expand_queue
push_flags q m = ground arith

-- What `pop` does to the marks: an empty queue, and only that, is taken to have left the global list.
pub pop_flags :
    (q : Ring) (out : Message)
    → ((pop q out).2.is_release ≡ q.is_release)
      × ((pop q out).2.is_in_global ≡ (if (pop q out).0 then false else q.is_in_global))
      × ((pop q out).0 ≡ true → (pop q out).2.head ≡ (pop q out).2.tail)
unfolding pop note_overload advance_head
pop_flags q out = ground arith

pub create_flags : (svc_handle : ℕ) → (create svc_handle).is_in_global ≡ true
unfolding create
create_flags svc_handle = refl

pub create_rests : (svc_handle : ℕ) → (create svc_handle).head ≡ (create svc_handle).tail
unfolding create
create_rests svc_handle = refl
