-- ===== src/Service/Slots/Fresh.antt =====
-- `register_service` (skynet-src/service/service_manager.cpp) as a whole: the rounds of its outer
-- loop, with and without an expansion.
use native.Mathlib.Nat.{pow-suc, mod-lt}
use skynet.Base.{
  ℕ, suc, ◌+◌, ◌*◌, ◌%◌, ◌^◌, ◌≤◌, ◌<◌, ◌≡◌, ◌≢◌, refl, sym, ap, ◌∙◌, subst, ◌⊎◌, inl, inr, none,
  some, arith, pow_pos,
}
use skynet.Service.Slots.{
  handle_mask, Slots, probe, enter, enter_or, try_slots, register_service, set_handle, grab,
}
use skynet.Service.Slots.Register.{slot_at, IsValid, probe_lem, reach_residue}
use skynet.Service.Slots.Expand.{Expanded, expand_lem}
use skynet.Service.Slots.Handles.{
  Serves, grab-Serves, grab_cases, grab_same, entered, entered_lem, entered-IsValid, entered-Serves,
  still-Serves, before-Serves,
}

-- The first handle from the seed on whose slot is free, if there is one.
FreeHandle : ℕ → Slots → Type 0
FreeHandle k s =
    (h : ℕ) × (probe s.svc_ctx_slot_size s.svc_ctx_slot s.svc_ctx_slot_size s.alloc_svc_handle_seed
      ≡ some h)
    × (s.alloc_svc_handle_seed ≤ h)
    × (h ≤ handle_mask)
    × (slot_at s (h % 2 ^ k) ≡ 0)

probe_cases :
    (k : ℕ) (s : Slots)
    → IsValid k s
    → s.alloc_svc_handle_seed + 2 ^ k ≤ handle_mask + 1
    → FreeHandle k s
      ⊎ ((probe s.svc_ctx_slot_size s.svc_ctx_slot s.svc_ctx_slot_size s.alloc_svc_handle_seed
            ≡ none)
          × ((i : ℕ) → i < 2 ^ k → slot_at s i ≢ 0))
unfolding FreeHandle
probe_cases k s v le =
    let seed : ℕ = s.alloc_svc_handle_seed in
    let size = ap (λ m. probe m s.svc_ctx_slot m seed) v.size in
    elim (probe_lem (2 ^ k) k seed s.svc_ctx_slot le) [
      | inl (e, all) ↦ inr (
        size ∙ e,
        λ i lt.
            let (d, less, met) = reach_residue seed (2 ^ k) i lt in
            subst (λ x. slot_at s x ≢ 0) met (all d less),
      )
      | inr (d, less, e, free) ↦ inl (seed + d, size ∙ e, omega arith, omega arith, free)
    ]

-- What a registration of `c` with the handle `h` leaves, once the caller has set the field.
pub record Registered (s : Slots) (c h : ℕ) (s' : Slots) : Type 0 where
  pub new_k : ℕ
  pub valid : IsValid new_k s'
  pub later : s.alloc_svc_handle_seed ≤ h
  pub in_mask : h ≤ handle_mask
  pub unused : grab s h ≡ 0
  pub found : grab s' h ≡ c
  pub others : (g : ℕ) → g ≢ h → grab s' g ≡ grab s g

seed_unused : (k : ℕ) (s : Slots) (h : ℕ) → IsValid k s → s.alloc_svc_handle_seed ≤ h → grab s h ≡ 0
seed_unused k s h v le = elim (grab_cases k s h v) [
  | inl (c, (i, lt, at, ctx, handle)) ↦
      let below = (v.issued i lt (λ e. ctx (sym at ∙ e))).1 in
      let same : s.svc_handle (slot_at s i) ≡ h = ap s.svc_handle at ∙ handle in
      absurd (omega (arith, below, same))
  | inr e ↦ e
]

entered-Registered :
    (k : ℕ) (s : Slots) (c h : ℕ)
    → IsValid k s
    → c ≢ 0
    → ((i : ℕ) → i < 2 ^ k → slot_at s i ≢ c)
    → s.alloc_svc_handle_seed ≤ h
    → h ≤ handle_mask
    → slot_at s (h % 2 ^ k) ≡ 0
    → Registered s c h (set_handle c h (enter c s h))
entered-Registered k s c h v ctx new later mask free =
    let s' = entered k s c h v ctx new later free in
    let v' : IsValid k s' = entered-IsValid k s c h v ctx new later free in
    subst (Registered s c h) (sym (entered_lem k s c h v ctx new later free)) (record {
      new_k = k;
      valid = v';
      later = later;
      in_mask = mask;
      unused = seed_unused k s h v later;
      found = grab-Serves k s' h c v' (entered-Serves k s c h v ctx new later free);
      others = λ g ne.
          grab_same k k s s' g v v' (still-Serves k s c h v ctx new later free g)
            (λ x. before-Serves k s c h v ctx new later free g x ne);
    })

-- The expansion changes no lookup.
Expanded-grab :
    (k : ℕ) (s s' : Slots)
    → IsValid k s
    → ((i : ℕ) → i < 2 ^ k → slot_at s i ≢ 0)
    → Expanded k s s'
    → (g : ℕ) → grab s' g ≡ grab s g
Expanded-grab k s s' v full x g = grab_same k (suc k) s s' g v x.valid to from
  where
    to : (c : ℕ) → Serves k s g c → Serves (suc k) s' g c
    to c (i, lt, at, ctx, handle) = (
      s.svc_handle (slot_at s i) % 2 ^ suc k,
      mod-lt (s.svc_handle (slot_at s i)) (pow_pos (suc k)),
      x.services i lt ∙ at,
      ctx,
      ap (λ f. f c) x.handles ∙ handle,
    )

    from : (c : ℕ) → Serves (suc k) s' g c → Serves k s g c
    from c (i, lt, at, ctx, handle) =
        let (j, less, eq) = x.no_others i (λ e. ctx (sym at ∙ e)) in
        (j, less, eq ∙ at, ctx, sym (ap (λ f. f c) x.handles) ∙ handle)

-- On a valid array whose seed is further from HANDLE_MASK than twice the slots, register_service
-- returns for a context that is not in the array yet: no null pointer is read and no `assert` fails.
-- Once the caller has set the field, the array is valid, the handle is not below the seed, was not in
-- use, and finds the new service, and every other handle finds what it found before.
pub register_service_lem :
    (k : ℕ) (s : Slots) (c : ℕ)
    → IsValid k s
    → c ≢ 0
    → ((i : ℕ) → i < 2 ^ k → slot_at s i ≢ c)
    → s.alloc_svc_handle_seed + 2 ^ k * 2 ≤ handle_mask + 1
    → (h : ℕ) × (s' : Slots) × (register_service c s ≡ some (h, s'))
      × Registered s c h (set_handle c h s')
unfolding register_service try_slots enter_or FreeHandle
register_service_lem k s c v ctx new room = elim (probe_cases k s v (omega arith)) [
  | inl (h, e, later, mask, free) ↦
      (h, enter c s h, rw e refl, entered-Registered k s c h v ctx new later mask free)
  | inr (e, full) ↦
      let (s', e', x) = expand_lem k s v full (omega (arith, v.seed_pos)) in
      let new' : (i : ℕ) → i < 2 ^ suc k → slot_at s' i ≢ c = λ i lt at.
        let (j, less, eq) = x.no_others i (λ z. ctx (sym at ∙ z)) in new j less (eq ∙ at) in
      elim (probe_cases (suc k) s' x.valid (omega (arith, x.seed, pow-suc 2 k))) [
        | inl (h, e'', later, mask, free) ↦
            let r = entered-Registered (suc k) s' c h x.valid ctx new' later mask free in
            let same = Expanded-grab k s s' v full x in
            (
              h,
              enter c s' h,
              rw (e, e', e'') refl,
              record {
                new_k = r.new_k;
                valid = r.valid;
                later = omega (arith, x.seed, later);
                in_mask = mask;
                unused = sym (same h) ∙ r.unused;
                found = r.found;
                others = λ g ne. r.others g ne ∙ same g;
              },
            )
        | inr (e'', full') ↦ let (i, lt, free) = x.free in absurd (full' i lt free)
      ]
]
