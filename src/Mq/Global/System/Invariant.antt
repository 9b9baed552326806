-- ===== src/Mq/Global/System/Invariant.antt =====
-- The invariant of the system of queues, and what each call does to it.
use skynet.Base.{
  ℕ, ◌+◌, ◌<◌, ◌≡◌, ◌≢◌, sym, subst, ◌∙◌, true, false, ◌||◌, Option, none, some, List, [], ◌∷◌,
  ◌++◌, arith, ◌==◌, if◌then◌else◌,
}
use skynet.Mq.Ring.{Ring}
use skynet.Mq.Ring.Invariant.{IsValid}
use skynet.Mq.Global.{Node, World, global_push, update}
use skynet.Mq.Global.Chain.{count, remove, count-append, count-remove}
use skynet.Mq.Global.Memory.{
  node_next, node_ring, ring_of-update, ring_of, refilled, ring_of-refilled, ring_of-node,
}
use skynet.Mq.Global.Links.{IsLinked, global_push_lem, refilled-IsLinked, update-IsLinked}
use skynet.Mq.Global.System.{System}

-- How often a queue stands in the global list, with a thread, or among those of failed services.
abbrev pub expected : Option Ring → ℕ
expected none = 0
expected (some r) = if r.is_in_global || r.is_release then 1 else 0

-- A queue that is not marked as listed or held is empty.
abbrev pub Rests : Ring → Type 0
Rests r = r.is_in_global ≡ false → r.head ≡ r.tail

abbrev pub IsGood : Option Ring → Type 0
IsGood none = Unit {0}
IsGood (some r) = IsValid r × Rests r

pub record Inv (s : System) (listed : List ℕ) : Type 0 where
  pub linked : IsLinked s.world listed
  pub places :
      (p : ℕ)
      → count p listed + (count p s.busy + count p s.launching + count p s.failed)
        ≡ expected (ring_of s.memory p)
  pub good : (p : ℕ) → IsGood (ring_of s.memory p)
  pub null : ring_of s.memory 0 ≡ none

-- The state with another ring at `p`.
abbrev pub changed : System → ℕ → Node → Ring → World
changed s p n r = record s.world { memory = refilled s.memory p n r }

module _ (s : System) (listed : List ℕ) (v : Inv s listed) (p : ℕ) (n : Node)
    (e : s.memory p ≡ some n) where
  ring_here : ring_of s.memory p ≡ some n.ring
  ring_here = ring_of-node s.memory p n e

  pub good_here : IsValid n.ring × Rests n.ring
  good_here = subst IsGood ring_here (v.good p)

  pub places_here :
      count p listed + (count p s.busy + count p s.launching + count p s.failed)
      ≡ expected (some n.ring)
  places_here =
      subst
        (λ o.
          count p listed + (count p s.busy + count p s.launching + count p s.failed) ≡ expected o)
        ring_here (v.places p)

  pub not_null : p ≢ 0
  not_null = ground (arith, v.null, ring_here)

  module _ (r : Ring) (g : IsValid r × Rests r) where
    changed-IsGood : (y : ℕ) → IsGood (ring_of (refilled s.memory p n r) y)
    changed-IsGood y =
        rw (ring_of-refilled s.memory p n e r y)
          (elim (p == y) as (λ b. IsGood (if b then some r else ring_of s.memory y)) [
            | true ↦ g
            | false ↦ v.good y
          ])

    changed-null : ring_of (refilled s.memory p n r) 0 ≡ none
    changed-null = ground (arith, ring_of-refilled s.memory p n e r 0, v.null, not_null)

    -- The ring changes and the queue stays where it is.
    pub stay-Inv :
        expected (some r) ≡ expected (some n.ring)
        → Inv (record s { world = changed s p n r }) listed
    stay-Inv same = record {
      linked = refilled-IsLinked s.world listed p n r e v.linked;
      places = λ y. ground (arith, ring_of-refilled s.memory p n e r y, v.places y, places_here);
      good = changed-IsGood;
      null = changed-null;
    }

    -- The ring changes and the thread that holds the queue lets go of it.
    pub leave-Inv :
        expected (some r) ≡ 0
        → 0 < count p s.busy
        → Inv (record s { world = changed s p n r; busy = remove p s.busy }) listed
    leave-Inv now h = record {
      linked = refilled-IsLinked s.world listed p n r e v.linked;
      places = λ y. ground (
        arith,
        ring_of-refilled s.memory p n e r y,
        v.places y,
        places_here,
        count-remove y p s.busy h,
      );
      good = changed-IsGood;
      null = changed-null;
    }

    -- The ring changes, and a queue that was nowhere goes to the end of the global list.
    pub append-Inv :
        expected (some n.ring) ≡ 0
        → expected (some r) ≡ 1
        → (w : World) × (global_push p (changed s p n r) ≡ some w)
          × Inv (record s { world = w }) (listed ++ p ∷ [])
    append-Inv before now =
        let (w, run, l, same) =
          global_push_lem (changed s p n r) p (record n { ring = r }) (ground arith) not_null listed
            (omega (arith, places_here)) (refilled-IsLinked s.world listed p n r e v.linked) in
        (
          w,
          run,
          record {
            linked = l;
            places = λ y. ground (
              arith,
              same y,
              ring_of-refilled s.memory p n e r y,
              v.places y,
              places_here,
              count-append y listed (p ∷ []),
            );
            good = λ y. subst IsGood (sym (same y)) (changed-IsGood y);
            null = same 0 ∙ changed-null;
          },
        )

  -- A thread hands the queue that it holds to the global list.
  pub requeue-Inv :
      (busy launching : List ℕ)
      → ((y : ℕ)
          → count y busy + count y launching + count y (p ∷ [])
            ≡ count y s.busy + count y s.launching)
      → (w : World) × (global_push p s.world ≡ some w)
        × Inv (record s { world = w; busy = busy; launching = launching }) (listed ++ p ∷ [])
  requeue-Inv busy launching left =
      let (w, run, l, same) =
        global_push_lem s.world p n e not_null listed (ground (arith, places_here, left p))
          v.linked in
      (
        w,
        run,
        record {
          linked = l;
          places = λ y. ground (arith, same y, v.places y, count-append y listed (p ∷ []), left y);
          good = λ y. subst IsGood (sym (same y)) (v.good y);
          null = same 0 ∙ v.null;
        },
      )

-- An object comes into being, or ends, outside the global list.
pub update-Inv :
    (s : System) (listed busy launching : List ℕ) (p : ℕ) (o : Option Node)
    → Inv s listed
    → p ≢ 0
    → count p listed ≡ 0
    → node_next o ≡ 0
    → IsGood (node_ring o)
    → count p busy + count p launching + count p s.failed ≡ expected (node_ring o)
    → ((y : ℕ) → y ≢ p → count y busy + count y launching ≡ count y s.busy + count y s.launching)
    → Inv
        (record s {
          world = record s.world { memory = update s.memory p o };
          busy = busy;
          launching = launching;
        })
        listed
update-Inv s listed busy launching p o v ne out null good now others = record {
  linked = update-IsLinked s.world listed p o null out v.linked;
  places = λ y. ground (arith, ring_of-update s.memory p o y, v.places y, others y);
  good = λ y.
      rw (ring_of-update s.memory p o y)
        (elim (p == y) as (λ b. IsGood (if b then node_ring o else ring_of s.memory y)) [
          | true ↦ good
          | false ↦ v.good y
        ]);
  null = ground (arith, ring_of-update s.memory p o 0, v.null);
}
