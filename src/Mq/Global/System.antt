-- ===== src/Mq/Global/System.antt =====
-- The queues, the global list and the threads that hold queues, as one system of calls.
pub mod Invariant
pub mod Safety
pub mod Reach
use mathlib.Core.Logic.{◌↔◌}
use skynet.Base.{
  ℕ, ◌+◌, ◌≤◌, ◌<◌, ◌≡◌, ◌≢◌, Bool, true, false, not, ◌&&◌, ◌||◌, Option, none, some, List, [], ◌∷◌,
  ◌++◌, ◌==◌, if◌then◌else◌,
}
use skynet.Mq.Message.{Message}
use skynet.Mq.Ring
use skynet.Mq.Ring.{Ring}
use skynet.Mq.Global.{
  World, create, send, recv, mark_release, release, global_push, global_pop, ◌>>=◌,
}
use skynet.Mq.Global.Chain.{count, remove}
use skynet.Mq.Global.Memory.{Memory, ring_of}

-- `busy` lists the queues that worker threads are dispatching, `launching` those that a call of
-- `create_service` holds in its local variable, and `failed` those that it has let go of because the
-- service did not start: no variable holds them any more, and its call of `queue->release` is commented
-- out.
pub record System : Type 0 where
  pub world : World
  pub open world use *
  pub busy : List ℕ
  pub launching : List ℕ
  pub failed : List ℕ

-- Who calls what. `take`, `receive`, `requeue` and `discard` are the calls of
-- `node::dispatch_message`; `launch`, `publish` and `abandon` are what `create_service` does with the new
-- queue, the two latter when the service has started and when it has not; `deliver` is that of `push_service_message`, `retire` that of
-- `release_service`.
pub data Action : Type 0 where
  launch : ℕ → ℕ → Action
  publish : ℕ → Action
  abandon : ℕ → Action
  deliver : ℕ → Message → Action
  take : Action
  receive : ℕ → Message → Action
  requeue : ℕ → Action
  retire : ℕ → Action
  discard : ℕ → Action

abbrev pub is_live : Option Ring → Bool
is_live none = false
is_live (some r) = not r.is_release

-- When the callers make a call: an allocation returns a fresh address, a call on a queue whose
-- service is not yet deleted is made under a reference to the service, and a thread hands back only
-- a queue that it holds.
abbrev pub Enabled : System → Action → Type 0
Enabled s (launch p h) = (p ≢ 0) × (ring_of s.memory p ≡ none)
Enabled s (publish p) = 0 < count p s.launching
Enabled s (abandon p) = 0 < count p s.launching
Enabled s (deliver p m) = is_live (ring_of s.memory p) ≡ true
Enabled s take = Unit {0}
Enabled s (receive p out) = (0 < count p s.busy) × (is_live (ring_of s.memory p) ≡ true)
Enabled s (requeue p) = 0 < count p s.busy
Enabled s (retire p) = is_live (ring_of s.memory p) ≡ true
Enabled s (discard p) = 0 < count p s.busy

abbrev pub held : ℕ → List ℕ → List ℕ
held p busy = if p == 0 then busy else p ∷ busy

-- The effect of a call; `none` is a fault. A thread that finds its queue empty lets go of it.
unfoldable pub step : System → Action → Option System
step s (launch p h) = do
  w ← create p h s.world
  some (record s { world = w; launching = p ∷ s.launching })
step s (publish p) = do
  w ← global_push p s.world
  some (record s { world = w; launching = remove p s.launching })
step s (abandon p) = some (record s { launching = remove p s.launching; failed = p ∷ s.failed })
step s (deliver p m) = do w ← send p m s.world; some (record s { world = w })
step s take = do (p, w) ← global_pop s.world; some (record s { world = w; busy = held p s.busy })
step s (receive p out) = do
  (is_empty, m, w) ← recv p out s.world
  some (record s { world = w; busy = if is_empty then remove p s.busy else s.busy })
step s (requeue p) = do
  w ← global_push p s.world
  some (record s { world = w; busy = remove p s.busy })
step s (retire p) = do w ← mark_release p s.world; some (record s { world = w })
step s (discard p) = do
  (ms, w) ← release p s.world
  some (record s { world = w; busy = remove p s.busy })
