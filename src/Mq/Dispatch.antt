-- ===== src/Mq/Dispatch.antt =====
-- The loop of `node::dispatch_message` (skynet-src/node/node.cpp) over the messages of one queue, and the
-- service_monitor of the worker thread (skynet-src/service/service_monitor.cpp).
pub mod Served
pub mod Watch
mod Tests
use skynet.Base.{
  ℕ, zero, suc, ◌+◌, ◌-◌, ◌*◌, ◌/◌, ◌%◌, ◌^◌, Option, none, some, List, [], ◌∷◌, ◌++◌, ◌==◌, not,
  Bool, true, false, if◌then◌else◌,
}
use skynet.Mq.Message.{Message, blank}
use skynet.Mq.Ring
use skynet.Mq.Ring.{Ring, push, pop, take_overload}

-- The version is an atomic int, here its bit pattern.
pub record Monitor : Type 0 where
  pub last_version : ℕ
  pub check_version : ℕ
  pub src_svc_handle : ℕ
  pub dst_svc_handle : ℕ

abbrev pub create_monitor : Monitor
create_monitor = record {
  last_version = 0;
  check_version = 0;
  src_svc_handle = 0;
  dst_svc_handle = 0;
}

unfoldable pub process_begin : Monitor → ℕ → ℕ → Monitor
process_begin monitor src dst = record monitor {
  src_svc_handle = src;
  dst_svc_handle = dst;
  last_version = (monitor.last_version + 1) % 2 ^ 32;
}

unfoldable pub process_end : Monitor → Monitor
process_end monitor = record monitor {
  src_svc_handle = 0;
  dst_svc_handle = 0;
  last_version = (monitor.last_version + 1) % 2 ^ 32;
}

-- `check`: the monitor afterwards, and the service that process_blocked_service is called for.
unfoldable pub check : Monitor → Monitor × Option ℕ
check monitor =
    if monitor.check_version == monitor.last_version
    then (monitor, if not (monitor.dst_svc_handle == 0) then some monitor.dst_svc_handle else none)
    else (record monitor { check_version = monitor.last_version }, none)

-- A worker with the queue that it holds, and the state of the service.
pub record Worker {ℓ} (S : Type ℓ) : Type ℓ where
  pub ring : Ring
  pub monitor : Monitor
  pub service : S

-- Messages that are sent to the service meanwhile. Its queue counts as linked, so that none of them is a
-- reason to link it.
unfoldable pub arrive : Ring → List Message → Ring
arrive q [] = q
arrive q (m ∷ ms) = arrive (push q m).0 ms

-- How many rounds there are, by what is left after the first message: n of `dispatch_message`, for a
-- negative weight (none) or another.
unfoldable pub rounds : Option ℕ → Ring → ℕ
rounds none q = 1
rounds (some weight) q = Ring.length q / 2 ^ weight

-- The callback of the service gives its state after a message, and the messages that came in the
-- meantime. Without a callback a service has one that changes nothing.
module _ {ℓ} {S : Type ℓ} (callback : S → Message → S × List Message) where
  -- One round, once there is a message.
  unfoldable pub handle : Worker S → Message → Worker S
  handle w msg =
      let answer = callback w.service msg in
      record {
        ring = arrive (take_overload w.ring).1 answer.1;
        monitor = process_end (process_begin w.monitor msg.src_svc_handle w.ring.svc_handle);
        service = answer.0;
      }

  -- The rounds after the first; true if the queue was found empty.
  unfoldable pub serve_rest : ℕ → Worker S → Bool × Worker S
  serve_rest zero w = (false, w)
  serve_rest (suc n) w =
      let popped = pop w.ring blank in
      let left = record w { ring = popped.2 } in
      let more = serve_rest n (handle left popped.1) in if popped.0 then (true, left) else more

  unfoldable pub dispatch_message : Option ℕ → Worker S → Bool × Worker S
  dispatch_message weight w =
      let popped = pop w.ring blank in
      let left = record w { ring = popped.2 } in
      let more = serve_rest (rounds weight popped.2 - 1) (handle left popped.1) in
      if popped.0 then (true, left) else more
