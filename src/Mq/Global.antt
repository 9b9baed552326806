-- ===== src/Mq/Global.antt =====
-- `mq_global` (skynet-src/mq/mq_global.h and .cpp): the global list of private queues, linked through
-- `mq_private::next_`, and the methods of `mq_private` that touch it. Queues live in a memory that is
-- indexed by their address; 0 is the null pointer. `none` as a result is a fault: a failed `assert`,
-- or an access through a null or dangling pointer.
pub mod Chain
pub mod Memory
pub mod Links
pub mod Drain
pub mod System
pub use skynet.Base.{◌>>=◌, ◌>>◌}
use skynet.Base.{
  ℕ, zero, suc, ◌&&◌, ◌||◌, Bool, true, false, not, Option, none, some, List, [], ◌∷◌, ◌==◌,
  if◌then◌else◌,
}
use skynet.Mq.Message.{Message, blank}
use skynet.Mq.Ring
use skynet.Mq.Ring.{Ring}

-- A `mq_private` object.
pub record Node : Type 0 where
  pub ring : Ring
  pub next : ℕ

pub record World : Type 0 where
  pub memory : ℕ → Option Node
  pub head : ℕ
  pub tail : ℕ

abbrev pub assert : Bool → Option (Unit {0})
assert true = some tt
assert false = none

abbrev pub update : (ℕ → Option Node) → ℕ → Option Node → ℕ → Option Node
update f p v q = if p == q then v else f q

abbrev is_null {ℓ} : {A : Type ℓ} → Option A → Bool
is_null none = true
is_null (some a) = false

-- `p->next_ = q`
unfoldable pub set_next : ℕ → ℕ → World → Option World
set_next p q w = do
  n ← w.memory p
  some (record w { memory = update w.memory p (some (record n { next = q })) })

unfoldable pub set_ring : ℕ → Ring → World → Option World
set_ring p r w = do
  n ← w.memory p
  some (record w { memory = update w.memory p (some (record n { ring = r })) })

-- `mq_global::push`
unfoldable pub global_push : ℕ → World → Option World
global_push q w = do
  n ← w.memory q
  assert (n.next == 0)
  if not (w.tail == 0)
      then (set_next w.tail q w >>= λ w'. some (record w' { tail = q }))
      else some (record w { head = q; tail = q })

-- The body of `mq_global::pop` for a list that is not empty.
unfoldable pub unlink : ℕ → Node → World → Option (ℕ × World)
unlink mq n w = do
  assert (not (n.next == 0) || mq == w.tail)
  w' ← set_next mq 0 (record w { head = n.next; tail = if n.next == 0 then 0 else w.tail })
  some (mq, w')

-- `mq_global::pop`
unfoldable pub global_pop : World → Option (ℕ × World)
global_pop w =
    if not (w.head == 0) then w.memory w.head >>= (λ n. unlink w.head n w) else some (0, w)

-- `mq_private::create`, at a fresh address.
unfoldable pub create : ℕ → ℕ → World → Option World
create p svc_handle w = do
  assert (not (p == 0) && is_null (w.memory p))
  some (record w {
    memory = update w.memory p (some (record { ring = Ring.create svc_handle; next = 0 }));
  })

unfoldable pub push_if : Bool → ℕ → World → Option World
push_if true q w = global_push q w
push_if false q w = some w

-- `mq_private::push`
unfoldable pub send : ℕ → Message → World → Option World
unfolding push_if
send p m w = do
  n ← w.memory p
  let (ring, calls) = Ring.push n.ring m
  w' ← set_ring p ring w
  push_if calls p w'

-- `mq_private::pop`
unfoldable pub recv : ℕ → Message → World → Option (Bool × Message × World)
recv p out w = do
  n ← w.memory p
  let (is_empty, m, ring) = Ring.pop n.ring out
  w' ← set_ring p ring w
  some (is_empty, m, w')

-- `mq_private::mark_release`
unfoldable pub mark_release : ℕ → World → Option World
unfolding push_if
mark_release p w = do
  n ← w.memory p
  assert (not n.ring.is_release)
  w' ← set_ring p (record n.ring { is_release = true }) w
  push_if (not n.ring.is_in_global) p w'

-- `while (!q->pop(&msg)) drop_func(&msg, ud);`: the messages that are dropped, in order, and the
-- queue. `none` means that the fuel ran out.
unfoldable pub drain : ℕ → Ring → Message → Option (List Message × Ring)
drain zero q out = none
drain (suc fuel) q out =
    let (is_empty, m, q') = Ring.pop q out in
    let rest = drain fuel q' m in
    if is_empty then some ([], q') else (rest >>= λ (ms, last). some (m ∷ ms, last))

-- `mq_private::_drop_queue`; `delete q` frees the address. The queue holds `length q` messages, so
-- one round more than these ends the loop.
unfoldable pub drop_queue : ℕ → World → Option (List Message × World)
drop_queue p w = do
  n ← w.memory p
  (ms, last) ← drain (suc (Ring.length n.ring)) n.ring blank
  assert (n.next == 0)
  some (ms, record w { memory = update w.memory p none })

-- `mq_private::release`: the messages that are dropped.
unfoldable pub release : ℕ → World → Option (List Message × World)
release p w = do
  n ← w.memory p
  if n.ring.is_release then drop_queue p w else global_push p w >>= (λ w'. some ([], w'))
