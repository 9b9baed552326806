-- ===== src/Mq/Dispatch/Watch.antt =====
-- What the monitor thread finds out by `service_monitor::check` (skynet-src/service/service_monitor.cpp).
use skynet.Base.{
  sym, ap, Option, ℕ, ◌+◌, ◌%◌, ◌^◌, ◌<◌, ◌≡◌, refl, ◌∙◌, arith, none, some, List, [], ◌∷◌, length,
  ◌==◌, ◌&&◌, not, Bool, true, false, if◌then◌else◌,
}
use skynet.Mq.Dispatch.{Monitor, create_monitor, process_begin, process_end, check}

-- What the worker calls.
pub data Call : Type 0 where
  begin : ℕ → ℕ → Call
  finish : Call

abbrev pub call : Monitor → Call → Monitor
call monitor (begin src dst) = process_begin monitor src dst
call monitor finish = process_end monitor

abbrev pub calls : Monitor → List Call → Monitor
calls monitor [] = monitor
calls monitor (c ∷ cs) = calls (call monitor c) cs

abbrev pub is_idle : List Call → Bool
is_idle [] = true
is_idle (c ∷ cs) = false

call-version :
    (monitor : Monitor) (c : Call)
    → ((call monitor c).last_version ≡ (monitor.last_version + 1) % 2 ^ 32)
      × ((call monitor c).check_version ≡ monitor.check_version)
unfolding process_begin process_end
call-version monitor (begin src dst) = (refl, refl)
call-version monitor finish = (refl, refl)

calls-version :
    (monitor : Monitor) (cs : List Call)
    → monitor.last_version < 2 ^ 32
    → ((calls monitor cs).last_version ≡ (monitor.last_version + length cs) % 2 ^ 32)
      × ((calls monitor cs).check_version ≡ monitor.check_version)
calls-version monitor [] small = (omega (arith, small), refl)
calls-version monitor (c ∷ cs) small =
    let (last, seen) = call-version monitor c in
    let (last', seen') = calls-version (call monitor c) cs (omega (arith, last)) in
    (omega (arith, last, last'), seen' ∙ seen)

check-version :
    (monitor : Monitor)
    → ((check monitor).0.check_version ≡ (check monitor).0.last_version)
      × ((check monitor).0.last_version ≡ monitor.last_version)
unfolding check
check-version monitor = ground arith

idle_lem :
    (monitor : Monitor) (cs : List Call)
    → monitor.last_version < 2 ^ 32
    → length cs < 2 ^ 32
    → let between = calls (check monitor).0 cs in
      (between.check_version == between.last_version) ≡ is_idle cs
idle_lem monitor [] small few = ground (arith, check-version monitor)
idle_lem monitor (c ∷ cs) small few =
    let (seen, last) = check-version monitor in
    let (last', seen') = calls-version (check monitor).0 (c ∷ cs) (omega (arith, small, last)) in
    ground (arith, seen, last, last', seen', small, few)

found_lem :
    (monitor : Monitor) (idle : Bool)
    → (monitor.check_version == monitor.last_version) ≡ idle
    → (check monitor).1
      ≡ (if idle && not (monitor.dst_svc_handle == 0) then some monitor.dst_svc_handle else none)
unfolding check
found_lem monitor true e = rw e refl
found_lem monitor false e = rw e refl

-- The service whose message the worker is in, by the calls it made, given the one before them. A handle of
-- 0 is no service.
abbrev pub in_message : Option ℕ → List Call → Option ℕ
in_message now [] = now
in_message now (begin src dst ∷ cs) = in_message (if dst == 0 then none else some dst) cs
in_message now (finish ∷ cs) = in_message none cs

abbrev named_by : ℕ → Option ℕ
named_by dst = if dst == 0 then none else some dst

named_by-calls :
    (monitor : Monitor) (cs : List Call)
    → named_by (calls monitor cs).dst_svc_handle ≡ in_message (named_by monitor.dst_svc_handle) cs
unfolding process_begin process_end
named_by-calls monitor [] = refl
named_by-calls monitor (begin src dst ∷ cs) = named_by-calls (process_begin monitor src dst) cs
named_by-calls monitor (finish ∷ cs) = named_by-calls (process_end monitor) cs

check-dst : (monitor : Monitor) → (check monitor).0.dst_svc_handle ≡ monitor.dst_svc_handle
unfolding check
check-dst monitor = ground arith

few_calls : (cs : List Call) → (calls create_monitor cs).last_version < 2 ^ 32
few_calls cs = omega (arith, (calls-version create_monitor cs (omega arith)).0)

found-named_by :
    (idle : Bool) (dst : ℕ)
    → (if idle && not (dst == 0) then some dst else none) ≡ (if idle then named_by dst else none)
found-named_by idle dst = ground arith

standing :
    (monitor : Monitor) (cs : List Call) (idle : Bool)
    → is_idle cs ≡ idle
    → (if idle then named_by (calls (check monitor).0 cs).dst_svc_handle else none)
      ≡ (if idle then named_by monitor.dst_svc_handle else none)
standing monitor [] idle e = rw (check-dst monitor) refl
standing monitor (c ∷ cs) idle e = rw (sym e) refl

-- From a new monitor, whatever the worker called before the first check and with fewer than 2 ^ 32
-- calls between the two, the second check finds a service exactly when there was no call between
-- them and the worker is in a message, begun and not finished: the service that the message is for.
pub check-calls :
    (before between : List Call)
    → length between < 2 ^ 32
    → (check (calls (check (calls create_monitor before)).0 between)).1
      ≡ (if is_idle between then in_message none before else none)
check-calls before between few =
    let monitor = calls create_monitor before in
    found_lem (calls (check monitor).0 between) (is_idle between)
      (idle_lem monitor between (few_calls before) few)
    ∙ found-named_by (is_idle between) (calls (check monitor).0 between).dst_svc_handle
    ∙ standing monitor between (is_idle between) refl
    ∙ ap (λ o. if is_idle between then o else none) (named_by-calls create_monitor before)
