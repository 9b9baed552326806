-- ===== src/Mq/Global/System/Reach.antt =====
-- The histories of calls from an empty node, and what holds after each of them.
use skynet.Base.{ℕ, ◌+◌, ◌≡◌, ◌≢◌, refl, none, some, List, [], arith, subst}
use skynet.Mq.Ring
use skynet.Mq.Ring.{Ring}
use skynet.Mq.Global.Chain.{count}
use skynet.Mq.Global.Memory.{next_of, ring_of}
use skynet.Mq.Global.Links.{IsLinked}
use skynet.Mq.Global.System.{System, Action, Enabled, step}
use skynet.Mq.Global.System.Invariant.{Inv}
use skynet.Mq.Global.System.Safety.{step-Inv}

-- No queue exists yet.
abbrev pub initial : System
initial = record {
  world = record { memory = λ p. none; head = 0; tail = 0 };
  busy = [];
  launching = [];
  failed = [];
}

pub data Reach : System → Type 0 where
  start : Reach initial
  later : {s t : System} (a : Action) → Reach s → Enabled s a → step s a ≡ some t → Reach t

pub initial-Inv : Inv initial []
unfolding ring_of next_of
initial-Inv = record {
  linked = record {
    chain = refl;
    ends = refl;
    loose = λ p h. refl;
    once = λ p. omega arith;
    real = λ p h. absurd (omega arith);
    proper = refl;
  };
  places = λ p. refl;
  good = λ p. tt;
  null = refl;
}

pub Reach-Inv : {s : System} → Reach s → (listed : List ℕ) × Inv s listed
Reach-Inv start = ([], initial-Inv)
Reach-Inv (later {s} {t} a r en run) =
    let (listed, v) = Reach-Inv r in
    let (t', listed', run', v') = step-Inv s listed a v en in
    let same : t' ≡ t = cc (run, run') in (listed', subst (λ u. Inv u listed') same v')

-- In every state that calls can lead to, each call that is due runs without a fault: no `assert` of
-- the two queue classes fails, and no null or freed queue is accessed.
pub never_faults : {s : System} (a : Action) → Reach s → Enabled s a → step s a ≢ none
never_faults {s} a r en =
    let (listed, v) = Reach-Inv r in let (t, listed', run, v') = step-Inv s listed a v en in λ h. cc

-- In every state that calls can lead to a queue that holds a message stands exactly once: in the global
-- list, from which a worker will take it, or with the worker or the call of `create_service` that holds
-- it, or it is the queue of a service that failed to start, which no thread finds again.
pub message_placed :
    {s : System} (p : ℕ) (q : Ring)
    → Reach s
    → ring_of s.memory p ≡ some q
    → Ring.length q ≢ 0
    → (listed : List ℕ) × IsLinked s.world listed
      × (count p listed + (count p s.busy + count p s.launching + count p s.failed) ≡ 1)
unfolding Ring.length
message_placed {s} p q r e ne =
    let (listed, v) = Reach-Inv r in (listed, v.linked, ground (arith, v.places p, v.good p))
