-- ===== src/Mq/Ring/Bounds.antt =====
-- How large the numbers of `mq_private` get: its capacity, and its overload threshold.
use native.Mathlib.Decide.{dec_le}
use skynet.Base.{
  ℕ, zero, suc, ◌+◌, ◌*◌, ◌^◌, ◌≤◌, ◌<◌, ◌≡◌, refl, sym, subst, ◌⊎◌, inl, inr, List, [], ◌∷◌, arith,
  false,
}
use skynet.Mq.Message.{Message}
use skynet.Mq.Ring.{
  Ring, create, expand_queue, store_tail, expand_if_full, push, raise_threshold, distance,
  note_overload, advance_head, pop, length,
}
use skynet.Mq.Ring.Invariant.{IsValid, create-IsValid, push-IsValid, pop-IsValid}
use skynet.Mq.Ring.Refine.{Op, put, get, run}

-- On a valid queue, `push` doubles the array exactly when the message fills its last free cell.
pub push_capacity :
    {q : Ring} (m : Message)
    → IsValid q
    → ((length q + 1 < q.cap) × ((push q m).0.cap ≡ q.cap))
      ⊎ ((length q + 1 ≡ q.cap) × ((push q m).0.cap ≡ q.cap * 2))
unfolding push expand_if_full store_tail expand_queue length
push_capacity {q} m v = ground arith

cap-pop : (q : Ring) (out : Message) → (pop q out).2.cap ≡ q.cap
unfolding pop note_overload advance_head
cap-pop q out = ground arith

pub length-push : {q : Ring} (m : Message) → IsValid q → length (push q m).0 ≡ length q + 1
unfolding push expand_if_full store_tail expand_queue length
length-push {q} m v = ground arith

length-pop-le : {q : Ring} (out : Message) → IsValid q → length (pop q out).2 ≤ length q
unfolding pop note_overload advance_head length
length-pop-le {q} out v = ground arith

-- The number of `push` calls of a history.
abbrev pub pushes : List Op → ℕ
pushes [] = 0
pushes (put m ∷ ops) = suc (pushes ops)
pushes (get out ∷ ops) = pushes ops

cap-run :
    (ops : List Op) (n : ℕ) {q : Ring}
    → IsValid q
    → length q + pushes ops ≤ n
    → q.cap ≤ 64 + 2 * n
    → IsValid (run q ops).1 × ((run q ops).1.cap ≤ 64 + 2 * n)
unfolding run
cap-run [] n v few h = (v, h)
cap-run (put m ∷ ops) n {q} v few h =
    cap-run ops n (push-IsValid m v) (omega (arith, length-push m v))
      (ground (arith, push_capacity m v))
cap-run (get out ∷ ops) n {q} v few h =
    cap-run ops n (pop-IsValid out v) (omega (arith, length-pop-le out v))
      (omega (arith, cap-pop q out))

-- However a new queue is used, with fewer than 2 ^ 29 messages pushed in all its life, its array
-- has at most 64 + 2 n cells for n messages pushed, and no index of it leaves the range of `int`.
pub run_bounds :
    (svc_handle : ℕ) (ops : List Op)
    → pushes ops < 2 ^ 29
    → let q = (run (create svc_handle) ops).1 in
      (q.cap ≤ 64 + 2 * pushes ops) × (q.cap < 2 ^ 31) × (q.head < q.cap) × (q.tail < q.cap)
unfolding create length
run_bounds svc_handle ops few =
    let r = cap-run ops (pushes ops) (create-IsValid svc_handle) (omega arith) (omega arith) in
    omega (arith, r)

raise_threshold-le : (fuel n o t : ℕ) → 0 < t → n ≤ t + fuel → n ≤ (raise_threshold fuel n (o, t)).1
unfolding raise_threshold
raise_threshold-le zero n o t h le = omega arith
raise_threshold-le (suc fuel) n o t h le = ground (arith, raise_threshold-le fuel n n (t * 2))

raise_threshold_overload :
    (fuel n o t : ℕ) → 0 < fuel → t < n → (raise_threshold fuel n (o, t)).0 ≡ n
unfolding raise_threshold
raise_threshold_overload zero n o t p h = absurd (omega arith)
raise_threshold_overload (suc zero) n o t p h = ground arith
raise_threshold_overload (suc (suc fuel)) n o t p h =
    ground (arith, raise_threshold_overload (suc fuel) n n (t * 2))

raise_threshold_idle : (fuel n o t : ℕ) → n ≤ t → raise_threshold fuel n (o, t) ≡ (o, t)
unfolding raise_threshold
raise_threshold_idle zero n o t h = refl
raise_threshold_idle (suc fuel) n o t h = ground arith

length-note_overload : (q : Ring) → length (note_overload q) ≡ distance q.head q.tail q.cap
unfolding note_overload distance length
length-note_overload q = ground arith

-- What `raise_threshold` makes of the pair, whichever way its test goes.
abbrev Raised : ℕ → ℕ × ℕ → ℕ × ℕ → Type 0
Raised n s r = (n ≤ r.1) × (((n ≤ s.1) × (r.0 ≡ s.0) × (r.1 ≡ s.1)) ⊎ ((s.1 < n) × (r.0 ≡ n)))

raise_threshold-Raised : (n o t : ℕ) → 0 < t → Raised n (o, t) (raise_threshold n n (o, t))
raise_threshold-Raised n o t h = elim (dec_le n t) [
  | yes le ↦ rw (raise_threshold_idle n n o t le) (le, inl (le, refl, refl))
  | no gt ↦ (
    raise_threshold-le n n o t h (omega arith),
    inr (omega arith, raise_threshold_overload n n o t (omega arith) (omega arith)),
  )
]

note_overload-Raised :
    (q : Ring)
    → 0 < q.overload_threshold
    → let q' = note_overload q in
      Raised (length q') (q.overload, q.overload_threshold) (q'.overload, q'.overload_threshold)
unfolding note_overload
note_overload-Raised q h =
    let d = distance q.head q.tail q.cap in
    let start : ℕ × ℕ = (q.overload, q.overload_threshold) in
    subst (λ n. Raised n start (raise_threshold d d start)) (sym (length-note_overload q))
      (raise_threshold-Raised d q.overload q.overload_threshold h)

-- The bookkeeping of a successful `pop` of a valid queue ends its loop: the threshold covers the
-- messages left, and the overload is reported, as their number, exactly when there were more than
-- the threshold.
pub pop_overload :
    {q : Ring} (out : Message)
    → IsValid q
    → (pop q out).0 ≡ false
    → let q' = (pop q out).2 in
      (length q' ≤ q'.overload_threshold)
      × (((length q' ≤ q.overload_threshold)
            × (q'.overload ≡ q.overload)
            × (q'.overload_threshold ≡ q.overload_threshold))
          ⊎ ((q.overload_threshold < length q') × (q'.overload ≡ length q')))
unfolding pop advance_head
pop_overload {q} out v ok = ground (arith, note_overload-Raised (advance_head q))
