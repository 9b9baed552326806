-- ===== src/Mq/Global/Memory.antt =====
-- What the elementary accesses of Mq/Global.antt do to the links and to the rings of all queues.
use skynet.Base.{ℕ, ◌≡◌, Option, none, some, arith, ◌==◌, if◌then◌else◌, Option-cases, inl, inr}
use skynet.Mq.Ring.{Ring}
use skynet.Mq.Global.{Node, World, update, set_next, set_ring, ◌>>=◌}

abbrev pub Memory : Type 0
Memory = ℕ → Option Node

abbrev pub node_next : Option Node → ℕ
node_next none = 0
node_next (some n) = n.next

abbrev pub node_ring : Option Node → Option Ring
node_ring none = none
node_ring (some n) = some n.ring

-- The link of the queue at an address, null for a free address.
unfoldable pub next_of : Memory → ℕ → ℕ
next_of m p = node_next (m p)

unfoldable pub ring_of : Memory → ℕ → Option Ring
ring_of m p = node_ring (m p)

-- The memory after `p->next_ = q`, where `n` stands at `p`.
abbrev pub relinked : Memory → ℕ → Node → ℕ → Memory
relinked m p n q = update m p (some (record n { next = q }))

abbrev pub refilled : Memory → ℕ → Node → Ring → Memory
refilled m p n r = update m p (some (record n { ring = r }))

pub set_next_lem :
    (w : World) (p q : ℕ) (n : Node)
    → w.memory p ≡ some n
    → set_next p q w ≡ some (record w { memory = relinked w.memory p n q })
unfolding set_next
set_next_lem w p q n e = rw (e, ◌>>=◌)

pub set_ring_lem :
    (w : World) (p : ℕ) (r : Ring) (n : Node)
    → w.memory p ≡ some n
    → set_ring p r w ≡ some (record w { memory = refilled w.memory p n r })
unfolding set_ring
set_ring_lem w p r n e = rw (e, ◌>>=◌)

module _ (m : Memory) (p : ℕ) (n : Node) (e : m p ≡ some n) where
  pub next_of-relinked :
      (q y : ℕ) → next_of (relinked m p n q) y ≡ (if p == y then q else next_of m y)
  unfolding next_of
  next_of-relinked q y = ground arith

  pub ring_of-relinked : (q y : ℕ) → ring_of (relinked m p n q) y ≡ ring_of m y
  unfolding ring_of
  ring_of-relinked q y = ground arith

  pub next_of-refilled : (r : Ring) (y : ℕ) → next_of (refilled m p n r) y ≡ next_of m y
  unfolding next_of
  next_of-refilled r y = ground arith

  pub ring_of-refilled :
      (r : Ring) (y : ℕ) → ring_of (refilled m p n r) y ≡ (if p == y then some r else ring_of m y)
  unfolding ring_of
  ring_of-refilled r y = ground arith

  pub next_of-node : next_of m p ≡ n.next
  unfolding next_of
  next_of-node = rw e

  pub ring_of-node : ring_of m p ≡ some n.ring
  unfolding ring_of
  ring_of-node = rw e

-- Likewise for an object that is created or deleted at `p`.
module _ (m : Memory) (p : ℕ) (o : Option Node) where
  pub next_of-update :
      (y : ℕ) → next_of (update m p o) y ≡ (if p == y then node_next o else next_of m y)
  unfolding next_of
  next_of-update y = ground arith

  pub ring_of-update :
      (y : ℕ) → ring_of (update m p o) y ≡ (if p == y then node_ring o else ring_of m y)
  unfolding ring_of
  ring_of-update y = ground arith

-- An address with a ring holds a node.
pub memory_of_ring :
    (m : Memory) (p : ℕ) (r : Ring)
    → ring_of m p ≡ some r
    → (n : Node) × (m p ≡ some n) × (n.ring ≡ r)
unfolding ring_of
memory_of_ring m p r e = elim (Option-cases (m p)) [
  | inl free ↦ ground arith
  | inr (n, h) ↦ (n, h, ground arith)
]
