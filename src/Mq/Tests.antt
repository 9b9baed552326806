-- ===== src/Mq/Tests.antt =====
-- Runs of the queues, and the theorems at concrete inputs.
use skynet.Base
use skynet.Base.{
  ℕ, ◌+◌, ◌*◌, ◌^◌, ◌<◌, ◌≤◌, ◌≡◌, ◌≢◌, ◌⊎◌, refl, Bool, true, false, Option, none, some, List, [],
  ◌∷◌, ◌++◌, arith,
}
use skynet.Mq.Message.{Message, blank}
use skynet.Mq.Ring
use skynet.Mq.Ring.{Ring}
use skynet.Mq.Ring.Invariant.{IsValid}
use skynet.Mq.Ring.Refine.{put, get, run, run_list, contents, run_refines}
use skynet.Mq.Ring.Bounds.{run_bounds, pop_overload}
use skynet.Mq.Global.{World, update, drain, global_push, create, send, set_ring, push_if}
use skynet.Mq.Global.Chain.{count}
use skynet.Mq.Global.Memory.{Memory, next_of, ring_of}
use skynet.Mq.Global.Links.{IsLinked, SameRings, global_push_lem}
use skynet.Mq.Global.Drain.{drain_total}
use skynet.Mq.Global.System.{System, launch, deliver, publish, abandon, step}
use skynet.Mq.Global.System.Safety.{Steps, step-Inv}
use skynet.Mq.Global.System.Reach.{
  initial, initial-Inv, Reach, start, later, never_faults, message_placed,
}

abbrev hello : Message
hello = record { src_svc_handle = 1; session_id = 2; data_ptr = 3; data_size = 4 }

abbrev reply : Message
reply = record { src_svc_handle = 9; session_id = 8; data_ptr = 0; data_size = 2 ^ 56 }

-- Two cells, one message, the next push fills the array.
abbrev pair_ring : Ring
pair_ring = record {
  svc_handle = 5;
  is_release = false;
  is_in_global = false;
  overload = 0;
  overload_threshold = 1;
  cap = 2;
  head = 1;
  tail = 0;
  queue = blank ∷ hello ∷ [];
}

-- Four messages past a threshold of one.
abbrev crowded : Ring
crowded = record pair_ring {
  cap = 5;
  head = 3;
  tail = 2;
  queue = hello ∷ reply ∷ blank ∷ hello ∷ reply ∷ [];
}

pair_ring-IsValid : IsValid pair_ring
pair_ring-IsValid = omega arith

crowded-IsValid : IsValid crowded
crowded-IsValid = omega arith

pushed_twice : (Ring.push (Ring.push pair_ring reply).0 reply).0.cap ≡ 4
unfolding Ring.push Ring.expand_if_full Ring.store_tail Ring.expand_queue
pushed_twice = refl

crowded-pop :
    ((Ring.pop crowded blank).2.overload ≡ 3) × ((Ring.pop crowded blank).2.overload_threshold ≡ 4)
unfolding Ring.pop Ring.note_overload Ring.raise_threshold Ring.distance Ring.advance_head
crowded-pop = (refl, refl)

run_refines_example :
    let (seen, last) = run pair_ring (put reply ∷ get blank ∷ get blank ∷ get blank ∷ []) in
    (seen, contents last)
    ≡ run_list (hello ∷ []) (put reply ∷ get blank ∷ get blank ∷ get blank ∷ [])
unfolding Ring.length
run_refines_example =
    run_refines (put reply ∷ get blank ∷ get blank ∷ get blank ∷ []) pair_ring-IsValid

run_bounds_example :
    let q = (run (Ring.create 7) (put hello ∷ put reply ∷ [])).1 in
    (q.cap ≤ 68) × (q.cap < 2 ^ 31) × (q.head < q.cap) × (q.tail < q.cap)
run_bounds_example = run_bounds 7 (put hello ∷ put reply ∷ []) (omega arith)

pop_overload_example :
    let q' = (Ring.pop crowded blank).2 in
    (Ring.length q' ≤ q'.overload_threshold)
    × (((Ring.length q' ≤ 1) × (q'.overload ≡ 0) × (q'.overload_threshold ≡ 1))
        ⊎ ((1 < Ring.length q') × (q'.overload ≡ Ring.length q')))
unfolding Ring.pop
pop_overload_example = pop_overload blank crowded-IsValid refl

drain_total_example :
    (last : Ring) × (drain (Base.suc (Ring.length crowded)) crowded blank
      ≡ some (contents crowded, last))
drain_total_example = drain_total crowded blank crowded-IsValid

-- Queue 1 is in the list, queue 2 is not.
abbrev two_queues : Memory
two_queues =
    update (update (λ p. none) 1 (some (record { ring = pair_ring; next = 0 }))) 2
      (some (record { ring = crowded; next = 0 }))

abbrev one_listed : World
one_listed = record { memory = two_queues; head = 1; tail = 1 }

one_listed-IsLinked : IsLinked one_listed (1 ∷ [])
unfolding next_of ring_of
one_listed-IsLinked = record {
  chain = (refl, refl);
  ends = refl;
  loose = λ p h. ground arith;
  once = λ p. ground arith;
  real = λ p h. ground arith;
  proper = refl;
}

global_push_lem_example :
    (w : World) × (global_push 2 one_listed ≡ some w)
    × IsLinked w (1 ∷ 2 ∷ [])
    × SameRings one_listed w
global_push_lem_example =
    global_push_lem one_listed 2 (record { ring = crowded; next = 0 }) refl (omega arith) (1 ∷ [])
      refl one_listed-IsLinked

step-Inv_example : Steps initial (launch 1 5)
unfolding ring_of
step-Inv_example = step-Inv initial [] (launch 1 5) initial-Inv (omega arith, refl)

abbrev launched : System
launched = record {
  world = record {
    memory = update (λ p. none) 1 (some (record { ring = Ring.create 5; next = 0 }));
    head = 0;
    tail = 0;
  };
  busy = [];
  launching = 1 ∷ [];
  failed = [];
}

abbrev delivered : System
delivered = record launched {
  world = record launched.world {
    memory =
        update launched.memory 1
          (some (record { ring = (Ring.push (Ring.create 5) hello).0; next = 0 }));
  };
}

launched-Reach : Reach launched
unfolding step create ring_of
launched-Reach = later (launch 1 5) start (omega arith, refl) refl

delivered-Reach : Reach delivered
unfolding step send set_ring push_if ring_of Ring.create Ring.push Ring.expand_if_full
    Ring.store_tail
delivered-Reach = later (deliver 1 hello) launched-Reach refl refl

-- The service fails to start after a message has come for it.
abbrev abandoned : System
abandoned = record delivered { launching = []; failed = 1 ∷ [] }

abandoned-Reach : Reach abandoned
unfolding step
abandoned-Reach = later (abandon 1) delivered-Reach (omega arith) refl

-- Its message is lost.
abandoned-lost : count 1 abandoned.busy + count 1 abandoned.launching ≡ 0
abandoned-lost = refl

never_faults_example : step delivered (publish 1) ≢ none
never_faults_example = never_faults (publish 1) delivered-Reach (omega arith)

message_placed_example :
    (listed : List ℕ) × IsLinked delivered.world listed
    × (count 1 listed + (count 1 [] + count 1 (1 ∷ []) + count 1 []) ≡ 1)
unfolding ring_of Ring.length Ring.push Ring.create Ring.expand_if_full Ring.store_tail
message_placed_example =
    message_placed 1 (Ring.push (Ring.create 5) hello).0 delivered-Reach refl (omega arith)
