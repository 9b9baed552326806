-- ===== src/Timer/Fire.antt =====
-- The wheel fires every timer at its tick: `timer_update`, `timer_add` and `update_time` against the
-- plain view of what waits for which time.
use skynet.Base.{
  ℕ, zero, suc, ◌+◌, ◌%◌, ◌^◌, ◌<◌, ◌≤◌, ◌≡◌, ◌≢◌, refl, ap, ap₂, subst, ◌∙◌, List, [], ◌∷◌, ◌++◌,
  arith, ◌==◌, if◌then◌else◌,
}
use skynet.Timer.{Timer, TimerNode, timer_shift, timer_execute, timer_update, updates}
use skynet.Timer.Place.{NotPast, next_time}
use skynet.Timer.Wheel.{pending, AllStand}
use skynet.Timer.Update.{IsWheel, pending-shift, shift-AllStand, time-shift}
use skynet.Timer.Tick.{
  after, execute-fired, execute-after, pending-after, after-AllStand, idle, idle-IsWheel,
  pending-idle, not-NotPast, none_now,
}

module _ (w : Timer) (v : IsWheel w) where
  shifted : Timer
  shifted = timer_shift (idle w v)

  shifted-AllStand : AllStand NotPast shifted
  unfolding shifted
  shifted-AllStand = shift-AllStand (idle w v) (idle-IsWheel w v)

  time-shifted : shifted.time ≡ next_time w.time
  unfolding shifted idle after
  time-shifted = time-shift (idle w v) (idle-IsWheel w v)

  pending-shifted : (e : ℕ) → e < 2 ^ 32 → pending shifted e ≡ pending w e
  unfolding shifted
  pending-shifted e lt = pending-shift (idle w v) (idle-IsWheel w v) e lt ∙ pending-idle w v e

  execute-first : timer_execute w ≡ ([], idle w v)
  unfolding idle
  execute-first =
      ground
        (arith, execute-fired w (not-NotPast w v), none_now w v, execute-after w (not-NotPast w v))

  execute-second :
      timer_execute shifted ≡ (pending w (next_time w.time), after shifted shifted-AllStand)
  execute-second = ground (
    arith,
    execute-fired shifted shifted-AllStand,
    ap (pending shifted) time-shifted,
    pending-shifted (next_time w.time) (omega arith),
    execute-after shifted shifted-AllStand,
  )

  -- A tick dispatches the nodes that wait for the new time, and those only.
  update_lem : timer_update w ≡ (pending w (next_time w.time), after shifted shifted-AllStand)
  unfolding timer_update shifted
  update_lem = rw (execute-first, execute-second)

  pub update-fired : (timer_update w).0 ≡ pending w (next_time w.time)
  update-fired = ap (λ (p : List TimerNode × Timer). p.0) update_lem

  pub time-update : (timer_update w).1.time ≡ next_time w.time
  unfolding after
  time-update = ap (λ (p : List TimerNode × Timer). p.1.time) update_lem ∙ time-shifted

  -- On a wheel in its invariant, a tick leaves nothing that waits for the new time, and what waits
  -- for any other 32-bit time as it was, in the same order.
  pub pending-update :
      (e : ℕ)
      → e < 2 ^ 32
      → pending (timer_update w).1 e ≡ (if e == next_time w.time then [] else pending w e)
  pending-update e lt =
      ap (λ (p : List TimerNode × Timer). pending p.1 e) update_lem
      ∙ pending-after shifted shifted-AllStand e
      ∙ rw (pending-shifted e lt, time-shifted)

  pub update-IsWheel : IsWheel (timer_update w).1
  unfolding after
  update-IsWheel = rw update_lem (record {
    small = rw time-shifted (omega arith);
    stands = after-AllStand shifted shifted-AllStand;
  })

-- What waits for the `k` ticks from `now` on, tick by tick.
abbrev pub upcoming : Timer → ℕ → ℕ → List (List TimerNode)
upcoming w now zero = []
upcoming w now (suc k) = pending w (next_time now) ∷ upcoming w (next_time now) k

-- The time after `k` ticks.
abbrev pub after_ticks : ℕ → ℕ → ℕ
after_ticks now k = (now + k) % 2 ^ 32

pub upcoming-congr :
    (w w' : Timer) (now past k : ℕ)
    → now < 2 ^ 32
    → ((e : ℕ) → e < 2 ^ 32 → e ≢ past → pending w' e ≡ pending w e)
    → ((i : ℕ) → 0 < i → i ≤ k → after_ticks now i ≢ past)
    → upcoming w' now k ≡ upcoming w now k
upcoming-congr w w' now past zero lt same apart = refl
upcoming-congr w w' now past (suc k) lt same apart =
    ap₂ ◌∷◌ (same (next_time now) (omega arith) (apart 1 (omega arith) (omega arith))) (
      upcoming-congr w w' (next_time now) past k (omega arith) same
        (λ i p q. subst (λ t. t ≢ past) (shift i) (apart (i + 1) (omega arith) (omega arith))))
  where
    shift : (i : ℕ) → after_ticks now (i + 1) ≡ after_ticks (next_time now) i
    shift i = omega arith

pub upcoming-last :
    (w : Timer) (now k : ℕ)
    → upcoming w now (suc k) ≡ upcoming w now k ++ pending w (after_ticks now (k + 1)) ∷ []
upcoming-last w now zero = ap (λ t. pending w t ∷ []) (omega arith)
upcoming-last w now (suc k) = ap (◌∷◌ (pending w (next_time now))) (
    upcoming-last w (next_time now) k
    ∙ ap (λ t. upcoming w (next_time now) k ++ pending w t ∷ []) (omega arith))

-- On a wheel in its invariant, for at most 2 ^ 32 ticks, each tick dispatches exactly what waited
-- for its time, in order of insertion.
pub updates-fired :
    (k : ℕ) (w : Timer) → k ≤ 2 ^ 32 → IsWheel w → (updates k w).0 ≡ upcoming w w.time k
unfolding updates
updates-fired zero w le v = refl
updates-fired (suc k) w le v = ap₂ ◌∷◌ (update-fired w v) (
    updates-fired k (timer_update w).1 (omega arith) (update-IsWheel w v)
    ∙ ap (λ t. upcoming (timer_update w).1 t k) (time-update w v)
    ∙ upcoming-congr w (timer_update w).1 (next_time w.time) (next_time w.time) k (omega arith)
        (λ e lt ne. ground (arith, pending-update w v e lt)) (λ i p q. omega arith))

pub time-updates :
    (k : ℕ) (w : Timer)
    → IsWheel w
    → ((updates k w).1.time ≡ after_ticks w.time k) × IsWheel (updates k w).1
unfolding updates
time-updates zero w v = (omega (arith, v.small), v)
time-updates (suc k) w v =
    let (t, u) = time-updates k (timer_update w).1 (update-IsWheel w v) in
    (omega (arith, t, time-update w v), u)
