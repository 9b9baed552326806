-- ===== src/Mq/Ring.antt =====
-- `mq_private` (skynet-src/mq/mq_private.h and .cpp): the ring buffer of one service's messages.
-- `next_` belongs to the global list and is modelled in Mq/Global.antt. An `int` is a plain number
-- here; Mq/Ring/Bounds.antt says when none of them leaves the range of an `int`.
pub mod Invariant
pub mod Refine
pub mod Bounds
use skynet.Base.{
  ℕ, zero, suc, ◌+◌, ◌-◌, ◌*◌, ◌%◌, Bool, true, false, not, List, [], ◌∷◌, ◌++◌, get_or, set,
  replicate, ltb, leb, ◌==◌, if◌then◌else◌,
}
use skynet.Mq.Message.{Message, blank}

abbrev pub default_queue_capacity : ℕ
default_queue_capacity = 64

abbrev pub default_overload_threshold : ℕ
default_overload_threshold = 1024

pub record Ring : Type 0 where
  pub svc_handle : ℕ
  pub is_release : Bool
  pub is_in_global : Bool
  pub overload : ℕ
  pub overload_threshold : ℕ
  pub cap : ℕ
  pub head : ℕ
  pub tail : ℕ
  pub queue : List Message

unfoldable pub create : ℕ → Ring
create svc_handle = record {
  svc_handle = svc_handle;
  is_release = false;
  is_in_global = true;
  overload = 0;
  overload_threshold = default_overload_threshold;
  cap = default_queue_capacity;
  head = 0;
  tail = 0;
  queue = replicate default_queue_capacity blank;
}

-- The cells `new_queue[i], new_queue[i + 1], ...` that `n` rounds of the copy loop write.
unfoldable pub copy_old : List Message → ℕ → ℕ → ℕ → ℕ → List Message
copy_old queue cap head i zero = []
copy_old queue cap head i (suc n) =
    get_or queue ((head + i) % cap) blank ∷ copy_old queue cap head (i + 1) n

-- `_expand_queue`. The cells past `cap_` of the new array are as `new` leaves them.
unfoldable pub expand_queue : Ring → Ring
expand_queue q = record q {
  queue = copy_old q.queue q.cap q.head 0 q.cap ++ replicate q.cap blank;
  head = 0;
  tail = q.cap;
  cap = q.cap * 2;
}

-- `queue_[tail_] = *message; if (++tail_ >= cap_) tail_ = 0;`
unfoldable pub store_tail : Ring → Message → Ring
store_tail q m = record q {
  queue = set q.queue q.tail m;
  tail = if leb q.cap (q.tail + 1) then 0 else q.tail + 1;
}

unfoldable pub expand_if_full : Ring → Ring
expand_if_full q = if q.head == q.tail then expand_queue q else q

-- `push`. The flag says that `mq_global::push(this)` is called.
unfoldable pub push : Ring → Message → Ring × Bool
push q m =
    let stored = expand_if_full (store_tail q m) in
    (record stored { is_in_global = true }, not stored.is_in_global)

-- `while (length > overload_threshold_) { overload_ = length; overload_threshold_ *= 2; }`: the
-- pair of `overload_` and `overload_threshold_`.
unfoldable pub raise_threshold : ℕ → ℕ → ℕ × ℕ → ℕ × ℕ
raise_threshold zero length s = s
raise_threshold (suc fuel) length (overload, threshold) =
    let rest = raise_threshold fuel length (length, threshold * 2) in
    if ltb threshold length then rest else (overload, threshold)

-- `tail - head`, and `+ cap` if that is negative.
unfoldable pub distance : ℕ → ℕ → ℕ → ℕ
distance head tail cap = if ltb tail head then tail + cap - head else tail - head

-- The bookkeeping of `pop` after it has read: `head` is already advanced. As many rounds as the
-- queue is long are enough for a positive threshold, which at least doubles in each.
unfoldable pub note_overload : Ring → Ring
note_overload q =
    let n = distance q.head q.tail q.cap in
    let (overload, threshold) = raise_threshold n n (q.overload, q.overload_threshold) in
    record q { overload = overload; overload_threshold = threshold }

-- `*message = queue_[head_++]` and the wrap of `head_`.
unfoldable pub advance_head : Ring → Ring
advance_head q = record q { head = if leb q.cap (q.head + 1) then 0 else q.head + 1 }

-- `pop`: whether the queue was empty, what `*message` holds afterwards, and the queue.
unfoldable pub pop : Ring → Message → Bool × Message × Ring
pop q out =
    if q.head == q.tail
    then (
      true,
      out,
      record q { overload_threshold = default_overload_threshold; is_in_global = false },
    )
    else (false, get_or q.queue q.head blank, note_overload (advance_head q))

unfoldable pub length : Ring → ℕ
length q = if leb q.head q.tail then q.tail - q.head else q.tail + q.cap - q.head

-- `overload()`: the recorded overload, which is cleared.
unfoldable pub take_overload : Ring → ℕ × Ring
take_overload q = if not (q.overload == 0) then (q.overload, record q { overload = 0 }) else (0, q)
