-- ===== src/Timer/Wheel.antt =====
-- The lists of the wheel: what they hold, and what adding nodes does to them.
use mathlib.Core.List.{append-nil, append_assoc}
use skynet.Base.{
  ℕ, ◌^◌, ◌<◌, ◌≡◌, ◌≢◌, refl, sym, ap, subst, ◌∙◌, Bool, true, false, ◌&&◌, ==_iff, List, [], ◌∷◌,
  ◌++◌, arith, ◌==◌, if◌then◌else◌, Bool-cases, inl, inr,
}
use skynet.Timer.{Timer, TimerNode, Slot, near_slot, level_slot, link, place, add_node, add_nodes}
use skynet.Timer.Place.{place_by_blocks, place_lem}

abbrev pub at : Timer → Slot → List TimerNode
at w (near_slot j) = w.near j
at w (level_slot i j) = w.t i j

abbrev pub same_slot : Slot → Slot → Bool
same_slot (near_slot j) (near_slot k) = k == j
same_slot (near_slot j) (level_slot h k) = false
same_slot (level_slot i j) (near_slot k) = false
same_slot (level_slot i j) (level_slot h k) = h == i && k == j

pub same_slot_eq : (s r : Slot) → same_slot s r ≡ true → s ≡ r
same_slot_eq (near_slot j) (near_slot k) h = ground arith
same_slot_eq (near_slot j) (level_slot h k) e = cc
same_slot_eq (level_slot i j) (near_slot k) e = cc
same_slot_eq (level_slot i j) (level_slot h k) e = ground arith

pub same_slot_self : (s : Slot) → same_slot s s ≡ true
same_slot_self (near_slot j) = ground arith
same_slot_self (level_slot i j) = ground arith

pub same_slot_ne : (s r : Slot) → same_slot s r ≡ false → s ≢ r
same_slot_ne s r other eq =
    let met : same_slot s r ≡ true = subst (λ q. same_slot s q ≡ true) eq (same_slot_self s) in cc

pub at-link :
    (w : Timer) (s : Slot) (n : TimerNode) (r : Slot)
    → at (link w s n) r ≡ (if same_slot s r then at w s ++ n ∷ [] else at w r)
at-link w (near_slot j) n (near_slot k) = ground arith
at-link w (near_slot j) n (level_slot h k) = refl
at-link w (level_slot i j) n (near_slot k) = refl
at-link w (level_slot i j) n (level_slot h k) = ground arith

pub time-link : (w : Timer) (s : Slot) (n : TimerNode) → (link w s n).time ≡ w.time
time-link w (near_slot j) n = refl
time-link w (level_slot i j) n = refl

-- The nodes of a list that expire at `e`, in order.
abbrev pub due : ℕ → List TimerNode → List TimerNode
due e [] = []
due e (n ∷ ns) = if n.expire == e then n ∷ due e ns else due e ns

pub due-append : (e : ℕ) (ms ns : List TimerNode) → due e (ms ++ ns) ≡ due e ms ++ due e ns
due-append e [] ns = refl
due-append e (m ∷ ms) ns = ground (arith, due-append e ms ns)

-- What waits in the wheel for the time `e`, in order of its insertion.
abbrev pub pending : Timer → ℕ → List TimerNode
pending w e = due e (at w (place_by_blocks w.time e))

-- The nodes of a list stand where `place` puts them at the time `now`, and `R` relates that time to
-- when they expire.
abbrev pub Stands : (ℕ → ℕ → Type 0) → ℕ → Slot → List TimerNode → Type 0
Stands R now s [] = Unit {0}
Stands R now s (n ∷ ns) =
    ((place_by_blocks now n.expire ≡ s) × (n.expire < 2 ^ 32) × R now n.expire) × Stands R now s ns

-- Nodes that `R` relates to the time, wherever they are to stand.
abbrev pub Ready : (ℕ → ℕ → Type 0) → ℕ → List TimerNode → Type 0
Ready R now [] = Unit {0}
Ready R now (n ∷ ns) = ((n.expire < 2 ^ 32) × R now n.expire) × Ready R now ns

abbrev pub AllStand : (ℕ → ℕ → Type 0) → Timer → Type 0
AllStand R w = (s : Slot) → Stands R w.time s (at w s)

module _ (R : ℕ → ℕ → Type 0) (now : ℕ) where
  pub Stands-append :
      (s : Slot) (ms ns : List TimerNode)
      → Stands R now s ms
      → Stands R now s ns
      → Stands R now s (ms ++ ns)
  Stands-append s [] ns h k = k
  Stands-append s (m ∷ ms) ns h k = (h.0, Stands-append s ms ns h.1 k)

  -- A list holds nothing that expires at a time whose place is another.
  pub due-elsewhere :
      (s : Slot) (e : ℕ) (ns : List TimerNode)
      → Stands R now s ns
      → place_by_blocks now e ≢ s
      → due e ns ≡ []
  due-elsewhere s e [] h ne = refl
  due-elsewhere s e (n ∷ ns) h ne = elim (Bool-cases (n.expire == e)) [
    | inl same ↦
        absurd (ne (subst (λ x. place_by_blocks now x ≡ s) ((==_iff n.expire e).0 same) h.0.0))
    | inr other ↦ rw other (due-elsewhere s e ns h.1 ne)
  ]

  -- Nor anything that `R` rules out.
  pub due-unrelated :
      (s : Slot) (e : ℕ) (ns : List TimerNode) → Stands R now s ns → ¬ R now e → due e ns ≡ []
  due-unrelated s e [] h ne = refl
  due-unrelated s e (n ∷ ns) h ne = elim (Bool-cases (n.expire == e)) [
    | inl same ↦ absurd (ne (subst (R now) ((==_iff n.expire e).0 same) h.0.2))
    | inr other ↦ rw other (due-unrelated s e ns h.1 ne)
  ]

due-link :
    (w : Timer) (s : Slot) (n : TimerNode) (e : ℕ) (r : Slot)
    → (n.expire ≡ e → s ≡ r)
    → due e (at (link w s n) r) ≡ due e (at w r) ++ due e (n ∷ [])
due-link w s n e r h = elim (Bool-cases (same_slot s r)) [
  | inl same ↦ rw (at-link w s n r, same, same_slot_eq s r same) (due-append e (at w r) (n ∷ []))
  | inr other ↦
      rw (at-link w s n r, other) (ground (arith, missed other, append-nil (due e (at w r))))
]
  where
    missed : same_slot s r ≡ false → n.expire ≢ e
    missed other eq = same_slot_ne s r other (h eq)

Stands-link :
    (R : ℕ → ℕ → Type 0) (now : ℕ) (w : Timer) (s : Slot) (n : TimerNode) (r : Slot)
    → Stands R now r (at w r)
    → Stands R now s (n ∷ [])
    → Stands R now r (at (link w s n) r)
Stands-link R now w s n r h k = elim (Bool-cases (same_slot s r)) [
  | inl same ↦
      let e = same_slot_eq s r same in
      rw (at-link w s n r, same)
        (subst (λ q. Stands R now r (at w q ++ n ∷ [])) (sym e)
          (Stands-append R now r (at w r) (n ∷ []) h (subst (λ q. Stands R now q (n ∷ [])) e k)))
  | inr other ↦ rw (at-link w s n r, other) h
]

pub time-add_node : (w : Timer) (n : TimerNode) → (add_node w n).time ≡ w.time
unfolding add_node
time-add_node w n = time-link w (place w.time n.expire) n

-- `add_node` puts the node behind all that wait for the same time, and moves nothing else.
pub pending-add_node :
    (w : Timer) (n : TimerNode) (e : ℕ) → pending (add_node w n) e ≡ pending w e ++ due e (n ∷ [])
unfolding add_node
pending-add_node w n e =
    rw (place_lem w.time n.expire, time-link)
      (due-link w (place_by_blocks w.time n.expire) n e (place_by_blocks w.time e)
        (λ eq. ap (place_by_blocks w.time) eq))

pub AllStand-add_node :
    (R : ℕ → ℕ → Type 0) (w : Timer) (n : TimerNode)
    → AllStand R w
    → n.expire < 2 ^ 32
    → R w.time n.expire
    → AllStand R (add_node w n)
unfolding add_node
AllStand-add_node R w n all lt r s =
    rw (place_lem w.time n.expire, time-link)
      (Stands-link R w.time w (place_by_blocks w.time n.expire) n s (all s) ((refl, lt, r), tt))

pub time-add_nodes : (w : Timer) (ns : List TimerNode) → (add_nodes w ns).time ≡ w.time
unfolding add_nodes
time-add_nodes w [] = refl
time-add_nodes w (n ∷ ns) = time-add_nodes (add_node w n) ns ∙ time-add_node w n

-- So with a list of nodes, one after the other.
pub pending-add_nodes :
    (w : Timer) (ns : List TimerNode) (e : ℕ) → pending (add_nodes w ns) e ≡ pending w e ++ due e ns
unfolding add_nodes
pending-add_nodes w [] e = sym (append-nil (pending w e))
pending-add_nodes w (n ∷ ns) e =
    pending-add_nodes (add_node w n) ns e
    ∙ ap (λ l. l ++ due e ns) (pending-add_node w n e)
    ∙ append_assoc (pending w e) (due e (n ∷ [])) (due e ns)
    ∙ ap (λ l. pending w e ++ l) (sym (due-append e (n ∷ []) ns))

pub AllStand-add_nodes :
    (R : ℕ → ℕ → Type 0) (w : Timer) (ns : List TimerNode)
    → AllStand R w
    → Ready R w.time ns
    → AllStand R (add_nodes w ns)
unfolding add_nodes
AllStand-add_nodes R w [] all h = all
AllStand-add_nodes R w (n ∷ ns) all h =
    AllStand-add_nodes R (add_node w n) ns (AllStand-add_node R w n all h.0.0 h.0.1)
      (subst (λ t. Ready R t ns) (sym (time-add_node w n)) h.1)
