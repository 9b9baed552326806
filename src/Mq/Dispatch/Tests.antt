-- ===== src/Mq/Dispatch/Tests.antt =====
-- A worker with three messages, and the monitor of a worker that is stuck.
use native.Mathlib.Omega.{arith}
use skynet.Base.{ℕ, ◌+◌, ◌≡◌, refl, some, List, [], ◌∷◌}
use skynet.Mq.Message.{Message}
use skynet.Mq.Ring
use skynet.Mq.Ring.{Ring, create, push}
use skynet.Mq.Ring.Invariant.{IsValid, create-IsValid, push-IsValid}
use skynet.Mq.Ring.Refine.{contents}
use skynet.Mq.Dispatch.{create_monitor, Worker, dispatch_message, check}
use skynet.Mq.Dispatch.Served.{Serves, dispatch_message-Serves}
use skynet.Mq.Dispatch.Watch.{begin, finish, calls, check-calls}

abbrev message : ℕ → Message
message n = record { src_svc_handle = n; session_id = n; data_ptr = 0; data_size = 0 }

-- A service that counts its messages and gets another for each.
abbrev count_up : ℕ → Message → ℕ × List Message
count_up n m = (n + 1, message 9 ∷ [])

abbrev a_worker : Worker ℕ
a_worker = record {
  ring = (push (push (push (create 5) (message 1)).0 (message 2)).0 (message 3)).0;
  monitor = create_monitor;
  service = 0;
}

a_worker-IsValid : IsValid a_worker.ring
a_worker-IsValid =
    push-IsValid (message 3)
      (push-IsValid (message 2) (push-IsValid (message 1) (create-IsValid 5)))

a_worker-contents : contents a_worker.ring ≡ message 1 ∷ message 2 ∷ message 3 ∷ []
unfolding create push Ring.length Ring.expand_if_full Ring.store_tail
a_worker-contents = refl

-- A weight of 0 handles two of the three.
dispatch_message-Serves_example :
    Serves count_up 0 0
      (message 1 ∷ message 2 ∷ [])
      (message 3 ∷ [])
      (dispatch_message count_up (some 0) a_worker)
dispatch_message-Serves_example =
    dispatch_message-Serves count_up (some 0) a_worker (message 1) (message 2 ∷ message 3 ∷ [])
      a_worker-IsValid a_worker-contents (omega arith)

-- The worker is in a message from 7 to 5 after one to 4, and makes no call any more.
check-calls_example :
    (check (calls (check (calls create_monitor (begin 6 4 ∷ finish ∷ begin 7 5 ∷ []))).0 [])).1
    ≡ some 5
check-calls_example = check-calls (begin 6 4 ∷ finish ∷ begin 7 5 ∷ []) [] (omega arith)
