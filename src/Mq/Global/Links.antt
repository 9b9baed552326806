-- ===== src/Mq/Global/Links.antt =====
-- `mq_global` as a queue: `push` appends to the list of linked queues, `pop` takes its first.
use skynet.Base.{
  ℕ, ◌≤◌, ◌<◌, ◌≡◌, ◌≢◌, refl, sym, subst, Option, none, some, List, [], ◌∷◌, ◌++◌, arith, ◌==◌,
  Option-cases, if◌then◌else◌, inl, inr,
}
use skynet.Mq.Ring.{Ring}
use skynet.Mq.Global.{Node, World, update, global_push, unlink, global_pop}
use skynet.Mq.Global.Chain.{
  count, last, Chain, count-append, Chain-congr, last-append, count-last, Chain-link, Chain-unlink,
}
use skynet.Mq.Global.Memory.{
  next_of, ring_of, relinked, set_next_lem, next_of-relinked, ring_of-relinked, next_of-node,
  ring_of-node, node_next, next_of-update, ring_of-update, refilled, next_of-refilled,
  ring_of-refilled,
}

-- The global list holds the queues at `xs`, first to last; every other queue's link is null.
pub record IsLinked (w : World) (xs : List ℕ) : Type 0 where
  pub chain : Chain (next_of w.memory) w.head xs
  pub ends : w.tail ≡ last xs
  pub loose : (p : ℕ) → count p xs ≡ 0 → next_of w.memory p ≡ 0
  pub once : (p : ℕ) → count p xs ≤ 1
  pub real : (p : ℕ) → 0 < count p xs → ring_of w.memory p ≢ none
  pub proper : count 0 xs ≡ 0

-- The addresses other than `q` have the rings of `w`, and so has `q`.
abbrev pub SameRings : World → World → Type 0
SameRings w w' = (y : ℕ) → ring_of w'.memory y ≡ ring_of w.memory y

linked_node :
    (w : World) (xs : List ℕ) (p : ℕ)
    → IsLinked w xs
    → 0 < count p xs
    → (n : Node) × (w.memory p ≡ some n)
unfolding ring_of
linked_node w xs p l h = elim (Option-cases (w.memory p)) [
  | inl free ↦ absurd (l.real p h (rw free))
  | inr there ↦ there
]

module _ (w : World) (q : ℕ) (n : Node) (e : w.memory q ≡ some n) (ne : q ≢ 0) where
  first-IsLinked : IsLinked w [] → IsLinked (record w { head = q; tail = q }) (q ∷ [])
  first-IsLinked l = record {
    chain = (refl, l.loose q refl);
    ends = refl;
    loose = λ p h. l.loose p refl;
    once = λ p. ground arith;
    real = λ p h. ground (arith, ring_of-node w.memory q n e);
    proper = ground arith;
  }

  -- The world after `tail_->next_ = q; tail_ = q`.
  abbrev behind : Node → World
  behind t = record w { memory = relinked w.memory w.tail t q; tail = q }

  behind-IsLinked :
      (x : ℕ) (xs : List ℕ) (t : Node)
      → w.memory w.tail ≡ some t
      → count q (x ∷ xs) ≡ 0
      → IsLinked w (x ∷ xs)
      → IsLinked (behind t) (x ∷ xs ++ q ∷ [])
  behind-IsLinked x xs t et out l = record {
    chain =
        Chain-link (next_of w.memory) (next_of (behind t).memory) w.head q x xs l.once out
          (l.loose q out) (λ y. rw (← l.ends) (next_of-relinked w.memory w.tail t et q y)) l.chain;
    ends = sym (last-append (x ∷ xs) q);
    loose = λ p h. ground (
      arith,
      next_of-relinked w.memory w.tail t et q p,
      count-append p (x ∷ xs) (q ∷ []),
      l.loose p,
      count-last x xs,
      l.ends,
    );
    once = λ p. ground (arith, count-append p (x ∷ xs) (q ∷ []), l.once p);
    real = λ p h. ground (
      arith,
      ring_of-relinked w.memory w.tail t et q p,
      count-append p (x ∷ xs) (q ∷ []),
      l.real p,
      ring_of-node w.memory q n e,
    );
    proper = ground (arith, count-append 0 (x ∷ xs) (q ∷ []), l.proper);
  }

  global_push-first : IsLinked w [] → global_push q w ≡ some (record w { head = q; tail = q })
  unfolding global_push
  global_push-first l = ground (arith, next_of-node w.memory q n e, l.loose q refl, l.ends, e)

  global_push-behind :
      (x : ℕ) (xs : List ℕ) (t : Node)
      → w.memory w.tail ≡ some t
      → count q (x ∷ xs) ≡ 0
      → IsLinked w (x ∷ xs)
      → global_push q w ≡ some (behind t)
  unfolding global_push
  global_push-behind x xs t et out l = ground (
    arith,
    next_of-node w.memory q n e,
    l.loose q,
    l.ends,
    e,
    count-last x xs,
    l.proper,
    set_next_lem w w.tail q t et,
  )

  -- `mq_global::push` of a queue that is not in the list succeeds, puts it at the end, and changes no
  -- ring.
  pub global_push_lem :
      (xs : List ℕ)
      → count q xs ≡ 0
      → IsLinked w xs
      → (w' : World) × (global_push q w ≡ some w') × IsLinked w' (xs ++ q ∷ []) × SameRings w w'
  global_push_lem [] out l = (_, global_push-first l, first-IsLinked l, λ y. refl)
  global_push_lem (x ∷ xs) out l =
      let (t, et) =
        linked_node w (x ∷ xs) w.tail l
          (subst (λ p. 0 < count p (x ∷ xs)) (sym l.ends) (count-last x xs)) in
      (
        behind t,
        global_push-behind x xs t et out l,
        behind-IsLinked x xs t et out l,
        λ y. ring_of-relinked w.memory w.tail t et q y,
      )

-- `mq_global::pop` of an empty list returns the null pointer and changes nothing.
pub global_pop-empty : (w : World) → IsLinked w [] → global_pop w ≡ some (0, w)
unfolding global_pop
global_pop-empty w l = ground (arith, l.chain)

module _ (w : World) (x : ℕ) (xs : List ℕ) (l : IsLinked w (x ∷ xs)) (n : Node)
    (e : w.memory x ≡ some n) where
  -- The world after the first queue is unlinked.
  abbrev rest : World
  rest = record w {
    memory = relinked w.memory x n 0;
    head = n.next;
    tail = if n.next == 0 then 0 else w.tail;
  }

  rest-Chain : Chain (next_of w.memory) n.next xs
  rest-Chain = subst (λ p. Chain (next_of w.memory) p xs) (next_of-node w.memory x n e) l.chain.1

  gone : count x xs ≡ 0
  gone = ground (arith, l.once x)

  rest-ends : (ys : List ℕ) → xs ≡ ys → rest.tail ≡ last ys
  rest-ends [] eq = ground (arith, rest-Chain)
  rest-ends (y ∷ ys) eq = ground (arith, rest-Chain, l.proper, l.ends)

  rest-IsLinked : IsLinked rest xs
  rest-IsLinked = record {
    chain =
        subst (λ p. Chain (next_of rest.memory) p xs) (next_of-node w.memory x n e)
          (Chain-unlink (next_of w.memory) (next_of rest.memory) x xs gone
            (next_of-relinked w.memory x n e 0) l.chain.1);
    ends = rest-ends xs refl;
    loose = λ p h. ground (arith, next_of-relinked w.memory x n e 0 p, l.loose p);
    once = λ p. ground (arith, l.once p);
    real = λ p h. ground (arith, ring_of-relinked w.memory x n e 0 p, l.real p);
    proper = ground (arith, l.proper);
  }

  -- The `assert` of the code: an entry with no next one is the last.
  sole : (ys : List ℕ) → xs ≡ ys → n.next ≡ 0 → x ≡ w.tail
  sole [] eq h = ground (arith, l.ends)
  sole (y ∷ ys) eq h = ground (arith, rest-Chain, l.proper)

  global_pop-rest : global_pop w ≡ some (x, rest)
  unfolding global_pop unlink
  global_pop-rest = ground (
    arith,
    l.chain,
    l.proper,
    e,
    sole xs refl,
    set_next_lem (record w { head = n.next; tail = if n.next == 0 then 0 else w.tail }) x 0 n e,
  )

-- `mq_global::pop` of a list that is not empty returns its first queue and unlinks it, and changes no
-- ring.
pub global_pop_lem :
    (w : World) (x : ℕ) (xs : List ℕ)
    → IsLinked w (x ∷ xs)
    → (w' : World) × (global_pop w ≡ some (x, w')) × IsLinked w' xs × SameRings w w'
global_pop_lem w x xs l =
    let (n, e) = linked_node w (x ∷ xs) x l (ground arith) in
    (
      rest w x xs l n e,
      global_pop-rest w x xs l n e,
      rest-IsLinked w x xs l n e,
      λ y. ring_of-relinked w.memory x n e 0 y,
    )

-- Writing a ring in place leaves the list as it is.
pub refilled-IsLinked :
    (w : World) (xs : List ℕ) (p : ℕ) (n : Node) (r : Ring)
    → w.memory p ≡ some n
    → IsLinked w xs
    → IsLinked (record w { memory = refilled w.memory p n r }) xs
refilled-IsLinked w xs p n r e l = record {
  chain =
      Chain-congr (next_of w.memory) (next_of (refilled w.memory p n r)) w.head xs
        (λ y h. next_of-refilled w.memory p n e r y) l.chain;
  ends = l.ends;
  loose = λ y h. ground (arith, next_of-refilled w.memory p n e r y, l.loose y);
  once = l.once;
  real = λ y h. ground (arith, ring_of-refilled w.memory p n e r y, l.real y);
  proper = l.proper;
}

-- Creating or deleting an object outside the list leaves the list as it is.
pub update-IsLinked :
    (w : World) (xs : List ℕ) (p : ℕ) (o : Option Node)
    → node_next o ≡ 0
    → count p xs ≡ 0
    → IsLinked w xs
    → IsLinked (record w { memory = update w.memory p o }) xs
update-IsLinked w xs p o null out l = record {
  chain =
      Chain-congr (next_of w.memory) (next_of (update w.memory p o)) w.head xs
        (λ y h. ground (arith, next_of-update w.memory p o y)) l.chain;
  ends = l.ends;
  loose = λ y h. ground (arith, next_of-update w.memory p o y, l.loose y);
  once = l.once;
  real = λ y h. ground (arith, ring_of-update w.memory p o y, l.real y);
  proper = l.proper;
}
