-- ===== src/Mq/Global/System/Safety.antt =====
-- Every enabled call runs without a fault and keeps the invariant; so does every history of them.
use skynet.Base.{
  ℕ, ◌+◌, ◌<◌, ◌≡◌, ◌≢◌, refl, sym, subst, ◌∙◌, true, false, Option, none, some, List, [], ◌∷◌,
  ◌++◌, arith, Bool-cases, Option-cases, inl, inr,
}
use skynet.Mq.Message.{Message, blank}
use skynet.Mq.Ring
use skynet.Mq.Ring.{Ring}
use skynet.Mq.Ring.Invariant.{
  IsValid, create-IsValid, push-IsValid, pop-IsValid, push_flags, pop_flags, create_flags,
  create_rests,
}
use skynet.Mq.Global.Drain.{drain_total}
use skynet.Mq.Global.{
  Node, World, global_push, create, send, recv, mark_release, release, drop_queue, ◌>>=◌, push_if,
  update,
}
use skynet.Mq.Global.Chain.{count, remove, count-remove}
use skynet.Mq.Global.Memory.{next_of-node, Memory, ring_of, set_ring_lem}
use skynet.Mq.Global.Links.{global_pop_lem, global_pop-empty}
use skynet.Mq.Global.System.{
  System, Action, launch, publish, abandon, deliver, take, receive, requeue, retire, discard,
  is_live, Enabled, step,
}
use skynet.Mq.Global.System.Invariant.{
  Inv, Rests, IsGood, changed, good_here, stay-Inv, leave-Inv, append-Inv, requeue-Inv, places_here,
  not_null, update-Inv,
}

-- The call returns, and the invariant holds of what it leaves.
abbrev pub Steps : System → Action → Type 0
Steps s a = (s' : System) × (listed : List ℕ) × (step s a ≡ some s') × Inv s' listed

live_node :
    (m : Memory) (p : ℕ)
    → is_live (ring_of m p) ≡ true
    → (n : Node) × (m p ≡ some n) × (n.ring.is_release ≡ false)
unfolding ring_of
live_node m p h = elim (Option-cases (m p)) [
  | inl free ↦ ground arith
  | inr (n, e) ↦ (n, e, ground arith)
]

module _ (s : System) (listed : List ℕ) (v : Inv s listed) where
  deliver-Steps :
      (p : ℕ) (m : Message) → is_live (ring_of s.memory p) ≡ true → Steps s (deliver p m)
  unfolding step send push_if
  deliver-Steps p m h =
      let (n, e, live) = live_node s.memory p h in
      let r : Ring = (Ring.push n.ring m).0 in
      let flags = push_flags n.ring m in
      let good : IsValid r × Rests r =
        (push-IsValid m (good_here s listed v p n e).0, λ out. ground (arith, flags)) in
      elim (Bool-cases n.ring.is_in_global) [
        | inl inside ↦ (
          record s { world = changed s p n r },
          listed,
          ground (arith, e, flags, set_ring_lem s.world p r n e),
          stay-Inv s listed v p n e r good (ground (arith, flags)),
        )
        | inr outside ↦
            let (w, run, inv) =
              append-Inv s listed v p n e r good (ground arith) (ground (arith, flags)) in
            (
              record s { world = w },
              listed ++ p ∷ [],
              ground (arith, e, flags, set_ring_lem s.world p r n e, run),
              inv,
            )
      ]

  retire-Steps : (p : ℕ) → is_live (ring_of s.memory p) ≡ true → Steps s (retire p)
  unfolding step mark_release push_if
  retire-Steps p h =
      let (n, e, live) = live_node s.memory p h in
      let r : Ring = record n.ring { is_release = true } in
      let old = good_here s listed v p n e in
      let good : IsValid r × Rests r = (omega (arith, old.0), old.1) in
      elim (Bool-cases n.ring.is_in_global) [
        | inl inside ↦ (
          record s { world = changed s p n r },
          listed,
          ground (arith, e, set_ring_lem s.world p r n e),
          stay-Inv s listed v p n e r good (ground arith),
        )
        | inr outside ↦
            let (w, run, inv) = append-Inv s listed v p n e r good (ground arith) (ground arith) in
            (
              record s { world = w },
              listed ++ p ∷ [],
              ground (arith, e, set_ring_lem s.world p r n e, run),
              inv,
            )
      ]

  receive-Steps :
      (p : ℕ) (out : Message)
      → 0 < count p s.busy
      → is_live (ring_of s.memory p) ≡ true
      → Steps s (receive p out)
  unfolding step recv
  receive-Steps p out h l =
      let (n, e, live) = live_node s.memory p l in
      let r : Ring = (Ring.pop n.ring out).2 in
      let flags = pop_flags n.ring out in
      let here = places_here s listed v p n e in
      let good : IsValid r × Rests r =
        (pop-IsValid out (good_here s listed v p n e).0, λ gone. ground (arith, flags, here)) in
      elim (Bool-cases (Ring.pop n.ring out).0) [
        | inl is_empty ↦ (
          record s { world = changed s p n r; busy = remove p s.busy },
          listed,
          ground (arith, e, set_ring_lem s.world p r n e),
          leave-Inv s listed v p n e r good (ground (arith, flags)) h,
        )
        | inr more ↦ (
          record s { world = changed s p n r },
          listed,
          ground (arith, e, set_ring_lem s.world p r n e),
          stay-Inv s listed v p n e r good (ground (arith, flags)),
        )
      ]

  held_node :
      (p : ℕ) → 0 < count p s.busy + count p s.launching → (n : Node) × (s.memory p ≡ some n)
  unfolding ring_of
  held_node p h = elim (Option-cases (s.memory p)) [
    | inl free ↦ absurd (ground (arith, v.places p))
    | inr there ↦ there
  ]

  -- A worker puts the queue that it holds at the end of the global list.
  handed_on :
      (p : ℕ)
      → 0 < count p s.busy
      → (w : World) × (global_push p s.world ≡ some w)
        × Inv (record s { world = w; busy = remove p s.busy }) (listed ++ p ∷ [])
  handed_on p h =
      let (n, e) = held_node p (omega arith) in
      requeue-Inv s listed v p n e (remove p s.busy) s.launching
        (λ y. ground (arith, count-remove y p s.busy h))

  requeue-Steps : (p : ℕ) → 0 < count p s.busy → Steps s (requeue p)
  unfolding step
  requeue-Steps p h =
      let (w, run, inv) = handed_on p h in
      (record s { world = w; busy = remove p s.busy }, listed ++ p ∷ [], rw (run, ◌>>=◌), inv)

  publish-Steps : (p : ℕ) → 0 < count p s.launching → Steps s (publish p)
  unfolding step
  publish-Steps p h =
      let (n, e) = held_node p (omega arith) in
      let (w, run, inv) =
        requeue-Inv s listed v p n e s.busy (remove p s.launching)
          (λ y. ground (arith, count-remove y p s.launching h)) in
      (
        record s { world = w; launching = remove p s.launching },
        listed ++ p ∷ [],
        rw (run, ◌>>=◌),
        inv,
      )

  -- Nothing is done to the queue itself.
  abandon-Steps : (p : ℕ) → 0 < count p s.launching → Steps s (abandon p)
  unfolding step
  abandon-Steps p h = (
    record s { launching = remove p s.launching; failed = p ∷ s.failed },
    listed,
    refl,
    record {
      linked = v.linked;
      places = λ y. ground (arith, v.places y, count-remove y p s.launching h);
      good = v.good;
      null = v.null;
    },
  )

  -- A queue that a thread holds is not in the list.
  held_apart : (p : ℕ) → 0 < count p s.busy → count p listed ≡ 0
  held_apart p h =
      let (n, e) = held_node p (omega arith) in ground (arith, places_here s listed v p n e)

  fresh_apart :
      (p : ℕ)
      → ring_of s.memory p ≡ none
      → (count p listed ≡ 0) × (count p s.busy + count p s.launching + count p s.failed ≡ 0)
  fresh_apart p free = ground (arith, v.places p)

  launch-Steps :
      (p svc_handle : ℕ) → p ≢ 0 → ring_of s.memory p ≡ none → Steps s (launch p svc_handle)
  unfolding step create ring_of
  launch-Steps p svc_handle ne free =
      let o : Option Node = some (record { ring = Ring.create svc_handle; next = 0 }) in
      (
        record s {
          world = record s.world { memory = update s.memory p o };
          launching = p ∷ s.launching;
        },
        listed,
        ground (arith, Option-cases (s.memory p)),
        update-Inv s listed s.busy (p ∷ s.launching) p o v ne (fresh_apart p free).0 refl
            (create-IsValid svc_handle, λ h. create_rests svc_handle)
            (ground (arith, create_flags svc_handle, fresh_apart p free)) (λ y h. ground arith),
      )

  freed-Inv :
      (p : ℕ)
      → 0 < count p s.busy
      → Inv
          (record s {
            world = record s.world { memory = update s.memory p none };
            busy = remove p s.busy;
          })
          listed
  freed-Inv p h =
      let (n, e) = held_node p (omega arith) in
      update-Inv s listed (remove p s.busy) s.launching p none v (not_null s listed v p n e)
        (held_apart p h) refl tt
        (ground (arith, places_here s listed v p n e, count-remove p p s.busy h))
        (λ y ne. ground (arith, count-remove y p s.busy h))

  discard-Steps : (p : ℕ) → 0 < count p s.busy → Steps s (discard p)
  unfolding step release drop_queue
  discard-Steps p h =
      let (n, e) = held_node p (omega arith) in
      let (w, run, inv) = handed_on p h in
      let (last, emptied) = drain_total n.ring blank (good_here s listed v p n e).0 in
      elim (Bool-cases n.ring.is_release) [
        | inl dead ↦ (
          record s {
            world = record s.world { memory = update s.memory p none };
            busy = remove p s.busy;
          },
          listed,
          ground
              (arith, e, emptied, next_of-node s.memory p n e, v.linked.loose p (held_apart p h)),
          freed-Inv p h,
        )
        | inr live ↦ (
          record s { world = w; busy = remove p s.busy },
          listed ++ p ∷ [],
          ground (arith, e, run),
          inv,
        )
      ]

take-Steps : (s : System) (listed : List ℕ) → Inv s listed → Steps s take
unfolding step
take-Steps s [] v = (s, [], rw (global_pop-empty s.world v.linked, ◌>>=◌), v)
take-Steps s (p ∷ ps) v =
    let (w, run, l, same) = global_pop_lem s.world p ps v.linked in
    let ne : p ≢ 0 = ground (arith, v.linked.proper) in
    (
      record s { world = w; busy = p ∷ s.busy },
      ps,
      ground (arith, run, ne),
      record {
        linked = l;
        places = λ y. ground (arith, same y, v.places y);
        good = λ y. subst IsGood (sym (same y)) (v.good y);
        null = same 0 ∙ v.null;
      },
    )

-- From a state in the invariant, every call that is due runs without a failed `assert` or an access
-- through a null or dangling pointer, and the invariant holds after it.
pub step-Inv : (s : System) (listed : List ℕ) (a : Action) → Inv s listed → Enabled s a → Steps s a
step-Inv s listed (launch p svc_handle) v h = launch-Steps s listed v p svc_handle h.0 h.1
step-Inv s listed (publish p) v h = publish-Steps s listed v p h
step-Inv s listed (abandon p) v h = abandon-Steps s listed v p h
step-Inv s listed (deliver p m) v h = deliver-Steps s listed v p m h
step-Inv s listed take v h = take-Steps s listed v
step-Inv s listed (receive p out) v h = receive-Steps s listed v p out h.0 h.1
step-Inv s listed (requeue p) v h = requeue-Steps s listed v p h
step-Inv s listed (retire p) v h = retire-Steps s listed v p h
step-Inv s listed (discard p) v h = discard-Steps s listed v p h
