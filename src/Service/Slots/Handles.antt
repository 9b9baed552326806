-- ===== src/Service/Slots/Handles.antt =====
-- `register_service` and `grab` (skynet-src/service/service_manager.cpp): a new service gets a handle
-- that no service had, is found by it, and no other service is lost.
use native.Mathlib.Decide.{ℕ_discrete}
use native.Mathlib.Nat.{mod-lt}
use skynet.Base.{
  ℕ, ◌+◌, ◌%◌, ◌^◌, ◌≤◌, ◌<◌, ◌≡◌, ◌≢◌, refl, sym, ap, ◌∙◌, subst, ◌⊎◌, inl, inr, set, length-set,
  get_or-set_self, get_or-set_ne, arith, pow_pos, ◌==◌, if◌then◌else◌, true, false,
}
use skynet.Service.Slots.{Slots, hash, enter, set_handle, grab}
use skynet.Service.Slots.Register.{slot_at, IsValid, hash_mod}

-- A service `c` of handle `g` stands in the array.
abbrev pub Serves : ℕ → Slots → ℕ → ℕ → Type 0
Serves k s g c = (i : ℕ) × (i < 2 ^ k) × (slot_at s i ≡ c) × (c ≢ 0) × (s.svc_handle c ≡ g)

pub hash_here : (k : ℕ) (s : Slots) → IsValid k s → (h : ℕ) → hash h s.svc_ctx_slot_size ≡ h % 2 ^ k
hash_here k s v h = ap (hash h) v.size ∙ hash_mod k h

pub grab-Serves : (k : ℕ) (s : Slots) (g c : ℕ) → IsValid k s → Serves k s g c → grab s g ≡ c
unfolding grab
grab-Serves k s g c v (i, lt, at, some_ctx, handle) =
    let place : g % 2 ^ k ≡ i =
      subst (λ x. x % 2 ^ k ≡ i) (ap s.svc_handle at ∙ handle)
        (v.home i lt (λ e. some_ctx (sym at ∙ e))) in
    let here : slot_at s (g % 2 ^ k) ≡ c = ap (slot_at s) place ∙ at in
    let present : (c == 0) ≡ false = ground (arith, some_ctx) in
    let same : (s.svc_handle c == g) ≡ true = ground (arith, handle) in
    rw (hash_here k s v g, here, present, same) refl

pub grab_cases :
    (k : ℕ) (s : Slots) (g : ℕ) → IsValid k s → ((c : ℕ) × Serves k s g c) ⊎ (grab s g ≡ 0)
unfolding grab
grab_cases k s g v =
    let i : ℕ = g % 2 ^ k in
    let c : ℕ = slot_at s i in
    elim (ℕ_discrete c 0) [
      | yes e ↦ inr (rw (hash_here k s v g, e) refl)
      | no ne ↦
          let present : (c == 0) ≡ false = ground (arith, ne) in
          elim (ℕ_discrete (s.svc_handle c) g) [
            | yes e ↦ inl (c, (i, mod-lt g (pow_pos k), refl, ne, e))
            | no ne' ↦
                let other : (s.svc_handle c == g) ≡ false = ground (arith, ne') in
                inr (rw (hash_here k s v g, present, other) refl)
          ]
    ]

-- Two arrays that serve the same contexts for a handle grab the same.
pub grab_same :
    (k k' : ℕ) (s s' : Slots) (g : ℕ)
    → IsValid k s
    → IsValid k' s'
    → ((c : ℕ) → Serves k s g c → Serves k' s' g c)
    → ((c : ℕ) → Serves k' s' g c → Serves k s g c)
    → grab s' g ≡ grab s g
grab_same k k' s s' g v v' to from = elim (grab_cases k s g v) [
  | inl (c, here) ↦ grab-Serves k' s' g c v' (to c here) ∙ sym (grab-Serves k s g c v here)
  | inr e ↦ elim (grab_cases k' s' g v') [
    | inl (c, here) ↦ grab-Serves k' s' g c v' here ∙ sym (grab-Serves k s g c v (from c here))
    | inr e' ↦ e' ∙ sym e
  ]
]

-- A service enters a free slot, and then is given its handle.
module _ (k : ℕ) (s : Slots) (c h : ℕ) (v : IsValid k s) (some_ctx : c ≢ 0)
    (new : (i : ℕ) → i < 2 ^ k → slot_at s i ≢ c) (fresh : s.alloc_svc_handle_seed ≤ h)
    (free : slot_at s (h % 2 ^ k) ≡ 0) where
  abbrev pub entered : Slots
  entered = record {
    alloc_svc_handle_seed = h + 1;
    svc_ctx_slot_size = s.svc_ctx_slot_size;
    svc_ctx_slot = set s.svc_ctx_slot (h % 2 ^ k) c;
    svc_handle = λ ctx. if ctx == c then h else s.svc_handle ctx;
  }

  pub entered_lem : set_handle c h (enter c s h) ≡ entered
  unfolding set_handle enter
  entered_lem = rw (hash_here k s v h) refl

  new_slot : slot_at entered (h % 2 ^ k) ≡ c
  new_slot =
      get_or-set_self s.svc_ctx_slot (h % 2 ^ k) c 0
        (subst (λ n. h % 2 ^ k < n) (sym v.cells) (mod-lt h (pow_pos k)))

  old_slot : (i : ℕ) → i ≢ h % 2 ^ k → slot_at entered i ≡ slot_at s i
  old_slot i ne = get_or-set_ne s.svc_ctx_slot (h % 2 ^ k) i c 0 (λ e. ne (sym e))

  new_handle : entered.svc_handle c ≡ h
  new_handle = let e : (c == c) ≡ true = ground arith in rw e refl

  old_handle : (x : ℕ) → x ≢ c → entered.svc_handle x ≡ s.svc_handle x
  old_handle x ne = let e : (x == c) ≡ false = ground (arith, ne) in rw e refl

  pub entered-IsValid : IsValid k entered
  entered-IsValid = record {
    size = v.size;
    cells = length-set s.svc_ctx_slot (h % 2 ^ k) c ∙ v.cells;
    home = λ i lt taken. elim (ℕ_discrete i (h % 2 ^ k)) [
      | yes e ↦
          ap (λ x. entered.svc_handle x % 2 ^ k) (ap (slot_at entered) e ∙ new_slot)
          ∙ ap (λ x. x % 2 ^ k) new_handle
          ∙ sym e
      | no ne ↦
          ap (λ x. entered.svc_handle x % 2 ^ k) (old_slot i ne)
          ∙ ap (λ x. x % 2 ^ k) (old_handle (slot_at s i) (new i lt))
          ∙ v.home i lt (λ e. taken (old_slot i ne ∙ e))
    ];
    issued = λ i lt taken. elim (ℕ_discrete i (h % 2 ^ k)) [
      | yes e ↦
          let at : entered.svc_handle (slot_at entered i) ≡ h =
            ap entered.svc_handle (ap (slot_at entered) e ∙ new_slot) ∙ new_handle in
          (omega (arith, at, v.seed_pos), omega (arith, at))
      | no ne ↦
          let at : entered.svc_handle (slot_at entered i) ≡ s.svc_handle (slot_at s i) =
            ap entered.svc_handle (old_slot i ne) ∙ old_handle (slot_at s i) (new i lt) in
          let old = v.issued i lt (λ e. taken (old_slot i ne ∙ e)) in
          (omega (arith, at, old.0), omega (arith, at, old.1))
    ];
    seed_pos = omega arith;
  }

  pub entered-Serves : Serves k entered h c
  entered-Serves = (h % 2 ^ k, mod-lt h (pow_pos k), new_slot, some_ctx, new_handle)

  pub still-Serves : (g x : ℕ) → Serves k s g x → Serves k entered g x
  still-Serves g x (i, lt, at, ctx, handle) =
      let apart : i ≢ h % 2 ^ k = λ e. ctx (sym at ∙ ap (slot_at s) e ∙ free) in
      let other : x ≢ c = λ e. new i lt (at ∙ e) in
      (i, lt, old_slot i apart ∙ at, ctx, old_handle x other ∙ handle)

  pub before-Serves : (g x : ℕ) → g ≢ h → Serves k entered g x → Serves k s g x
  before-Serves g x ne (i, lt, at, ctx, handle) = elim (ℕ_discrete i (h % 2 ^ k)) [
    | yes e ↦
        let same : x ≡ c = sym at ∙ ap (slot_at entered) e ∙ new_slot in
        absurd (ne (sym handle ∙ ap entered.svc_handle same ∙ new_handle))
    | no apart ↦
        let there : slot_at s i ≡ x = sym (old_slot i apart) ∙ at in
        let other : x ≢ c = λ e. new i lt (there ∙ e) in
        (i, lt, there, ctx, sym (old_handle x other) ∙ handle)
  ]
