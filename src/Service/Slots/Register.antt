-- ===== src/Service/Slots/Register.antt =====
-- `register_service` (skynet-src/service/service_manager.cpp): as long as the seed stays below
-- HANDLE_MASK, it ends, and gives a handle that no service had before.
use native.Mathlib.Decide.{ℕ_discrete, dec_lt}
use native.Mathlib.Nat.{div-add-mod, mul-add-mod_self_left, mod-lt, mod-eq_of_lt, mul-suc}
use skynet.Base.{
  ℕ, zero, suc, ◌+◌, ◌-◌, ◌*◌, ◌/◌, ◌%◌, ◌^◌, ◌≤◌, ◌<◌, ◌≡◌, ◌≢◌, refl, ap, ◌∙◌, subst, ◌⊎◌, inl,
  inr, none, some, List, length, get_or, arith, bit_and_mask, ◌==◌, true, false,
}
use skynet.Service.Slots.{handle_mask, Slots, hash, wrap, probe}

abbrev pub slot_at : Slots → ℕ → ℕ
slot_at s i = get_or s.svc_ctx_slot i 0

-- The array has 2 ^ k slots, and a service stands at its handle's remainder; handles are positive and
-- below the seed.
pub record IsValid (k : ℕ) (s : Slots) : Type 0 where
  pub size : s.svc_ctx_slot_size ≡ 2 ^ k
  pub cells : length s.svc_ctx_slot ≡ 2 ^ k
  pub home : (i : ℕ) → i < 2 ^ k → slot_at s i ≢ 0 → s.svc_handle (slot_at s i) % 2 ^ k ≡ i
  pub issued :
      (i : ℕ)
      → i < 2 ^ k
      → slot_at s i ≢ 0
      → (0 < s.svc_handle (slot_at s i)) × (s.svc_handle (slot_at s i) < s.alloc_svc_handle_seed)
  pub seed_pos : 0 < s.alloc_svc_handle_seed

pub hash_mod : (k h : ℕ) → hash h (2 ^ k) ≡ h % 2 ^ k
hash_mod k h = bit_and_mask k h

pub residue : (m q i x : ℕ) → i < m → x ≡ m * q + i → x % m ≡ i
residue m q i x lt e = rw e (mul-add-mod_self_left m q i ∙ mod-eq_of_lt lt)

-- Each residue is met within one round of the array.
pub reach_residue : (h m i : ℕ) → i < m → (d : ℕ) × (d < m) × ((h + d) % m ≡ i)
reach_residue h m i lt =
    let whole = div-add-mod h m in
    let below : h % m < m = mod-lt h (omega arith) in
    elim (dec_lt i (h % m)) [
      | yes less ↦ (
        i + m - h % m,
        omega arith,
        residue m (suc (h / m)) i (h + (i + m - h % m)) lt
            (omega (arith, whole, mul-suc m (h / m))),
      )
      | no ge ↦
          (i - h % m, omega arith, residue m (h / m) i (h + (i - h % m)) lt (omega (arith, whole)))
    ]

taken_later :
    (r k h : ℕ) (slot : List ℕ)
    → get_or slot (h % 2 ^ k) 0 ≢ 0
    → ((d : ℕ) → d < r → get_or slot ((h + 1 + d) % 2 ^ k) 0 ≢ 0)
    → (d : ℕ) → d < suc r
    → get_or slot ((h + d) % 2 ^ k) 0 ≢ 0
taken_later r k h slot taken all d lt = elim (ℕ_discrete d 0) [
  | yes e ↦ subst (λ x. get_or slot (x % 2 ^ k) 0 ≢ 0) (omega arith) taken
  | no ne ↦ subst (λ x. get_or slot (x % 2 ^ k) 0 ≢ 0) (omega arith) (all (d - 1) (omega arith))
]

-- The probing from `h` on, where it does not pass HANDLE_MASK.
pub probe_lem :
    (r k h : ℕ) (slot : List ℕ)
    → h + r ≤ handle_mask + 1
    → ((probe r slot (2 ^ k) h ≡ none) × ((d : ℕ) → d < r → get_or slot ((h + d) % 2 ^ k) 0 ≢ 0))
      ⊎ ((d : ℕ) × (d < r)
          × (probe r slot (2 ^ k) h ≡ some (h + d))
          × (get_or slot ((h + d) % 2 ^ k) 0 ≡ 0))
unfolding probe
probe_lem zero k h slot le = inl (refl, λ d lt. absurd (omega arith))
probe_lem (suc r) k h slot le =
    let straight : wrap h ≡ h = ground arith in
    elim (ℕ_discrete (get_or slot (h % 2 ^ k) 0) 0) [
      | yes free ↦
          let test : (get_or slot (h % 2 ^ k) 0 == 0) ≡ true = ground arith in
          inr (
            0,
            omega arith,
            rw (straight, hash_mod k h, test) (ap some (omega arith)),
            subst (λ x. get_or slot (x % 2 ^ k) 0 ≡ 0) (omega arith) free,
          )
      | no taken ↦
          let test : (get_or slot (h % 2 ^ k) 0 == 0) ≡ false = ground arith in
          elim (probe_lem r k (h + 1) slot (omega arith)) [
            | inl (e, all) ↦
                inl (rw (straight, hash_mod k h, test) e, taken_later r k h slot taken all)
            | inr (d, lt, e, free) ↦ inr (
              d + 1,
              omega arith,
              rw (straight, hash_mod k h, test) (e ∙ ap some (omega arith)),
              subst (λ x. get_or slot (x % 2 ^ k) 0 ≡ 0) (omega arith) free,
            )
          ]
    ]
