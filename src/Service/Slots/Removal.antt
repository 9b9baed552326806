-- ===== src/Service/Slots/Removal.antt =====
-- `unregister_service` (skynet-src/service/service_manager.cpp) on the slots.
use native.Mathlib.Decide.{ℕ_discrete}
use native.Mathlib.Nat.{mod-lt}
use skynet.Base.{
  ℕ, ◌%◌, ◌^◌, ◌<◌, ◌≡◌, ◌≢◌, refl, sym, ap, ◌∙◌, subst, inl, inr, set, length-set, get_or-set_self,
  get_or-set_ne, arith, pow_pos, ◌==◌, if◌then◌else◌, true, false,
}
use skynet.Service.Slots.{Slots, grab, unregister_service}
use skynet.Service.Slots.Register.{slot_at, IsValid}
use skynet.Service.Slots.Handles.{Serves, grab-Serves, grab_cases, grab_same, hash_here}

module _ (k : ℕ) (s : Slots) (g : ℕ) (v : IsValid k s) where
  abbrev cleared : Slots
  cleared = record s { svc_ctx_slot = set s.svc_ctx_slot (g % 2 ^ k) 0 }

  cleared_slot : slot_at cleared (g % 2 ^ k) ≡ 0
  cleared_slot =
      get_or-set_self s.svc_ctx_slot (g % 2 ^ k) 0 0
        (subst (λ n. g % 2 ^ k < n) (sym v.cells) (mod-lt g (pow_pos k)))

  kept_slot : (i : ℕ) → i ≢ g % 2 ^ k → slot_at cleared i ≡ slot_at s i
  kept_slot i ne = get_or-set_ne s.svc_ctx_slot (g % 2 ^ k) i 0 0 (λ e. ne (sym e))

  -- A slot that is taken after the removal is another one, and was taken before.
  taken_slot : (i : ℕ) → slot_at cleared i ≢ 0 → slot_at cleared i ≡ slot_at s i
  taken_slot i taken = elim (ℕ_discrete i (g % 2 ^ k)) [
    | yes e ↦ absurd (taken (ap (slot_at cleared) e ∙ cleared_slot))
    | no ne ↦ kept_slot i ne
  ]

  cleared-IsValid : IsValid k cleared
  cleared-IsValid = record {
    size = v.size;
    cells = length-set s.svc_ctx_slot (g % 2 ^ k) 0 ∙ v.cells;
    home = λ i lt taken.
        let same = taken_slot i taken in
        ap (λ c. s.svc_handle c % 2 ^ k) same ∙ v.home i lt (λ e. taken (same ∙ e));
    issued = λ i lt taken.
        let same = taken_slot i taken in
        subst (λ c. (0 < s.svc_handle c) × (s.svc_handle c < s.alloc_svc_handle_seed)) (sym same)
          (v.issued i lt (λ e. taken (same ∙ e)));
    seed_pos = v.seed_pos;
  }

  -- A handle stands at its own remainder only.
  Serves-home : (x c : ℕ) → Serves k s x c → slot_at s (x % 2 ^ k) ≡ c
  Serves-home x c (i, lt, at, ctx, handle) =
      ap (slot_at s) (
        sym (
          subst (λ y. i ≡ y % 2 ^ k) (ap s.svc_handle at ∙ handle)
            (sym (v.home i lt (λ e. ctx (sym at ∙ e))))))
      ∙ at

  cleared-others :
      s.svc_handle (slot_at s (g % 2 ^ k)) ≡ g → (x : ℕ) → x ≢ g → grab cleared x ≡ grab s x
  cleared-others mine x ne = grab_same k k s cleared x v cleared-IsValid to from
    where
      to : (c : ℕ) → Serves k s x c → Serves k cleared x c
      to c (i, lt, at, ctx, handle) =
          let apart : i ≢ g % 2 ^ k =
            λ e. ne (sym handle ∙ ap s.svc_handle (sym at ∙ ap (slot_at s) e) ∙ mine) in
          (i, lt, kept_slot i apart ∙ at, ctx, handle)

      from : (c : ℕ) → Serves k cleared x c → Serves k s x c
      from c (i, lt, at, ctx, handle) =
          (i, lt, sym (taken_slot i (λ e. ctx (sym at ∙ e))) ∙ at, ctx, handle)

  cleared_gone : grab cleared g ≡ 0
  cleared_gone = elim (grab_cases k cleared g cleared-IsValid) [
    | inr e ↦ e
    | inl (c, (i, lt, at, ctx, handle)) ↦
        let taken : slot_at cleared i ≢ 0 = λ e. ctx (sym at ∙ e) in
        let home : g % 2 ^ k ≡ i =
          subst (λ x. x % 2 ^ k ≡ i) (ap s.svc_handle at ∙ handle)
            (cleared-IsValid.home i lt taken) in
        absurd (taken (ap (slot_at cleared) (sym home) ∙ cleared_slot))
  ]

  removal_found : (c : ℕ) → Serves k s g c → unregister_service s g ≡ (1, cleared)
  unfolding unregister_service
  removal_found c here =
      let at : slot_at s (g % 2 ^ k) ≡ c = Serves-home g c here in
      let present : (c == 0) ≡ false = ground (arith, here.3) in
      let same : (s.svc_handle c == g) ≡ true = ground (arith, here.4) in
      rw (hash_here k s v g, at, present, same) refl

  removal_missing : grab s g ≡ 0 → unregister_service s g ≡ (0, s)
  unfolding unregister_service
  removal_missing none_there =
      let c : ℕ = slot_at s (g % 2 ^ k) in
      elim (ℕ_discrete c 0) [
        | yes e ↦ rw (hash_here k s v g, e) refl
        | no ne ↦ elim (ℕ_discrete (s.svc_handle c) g) [
          | yes e ↦ absurd (
              ne (
                sym (grab-Serves k s g c v (g % 2 ^ k, mod-lt g (pow_pos k), refl, ne, e))
                ∙ none_there))
          | no ne' ↦
              let present : (c == 0) ≡ false = ground (arith, ne) in
              let other : (s.svc_handle c == g) ≡ false = ground (arith, ne') in
              rw (hash_here k s v g, present, other) refl
        ]
      ]

-- What a removal of the handle `g` leaves: 1 is returned when it found a service.
pub record Removed (k : ℕ) (s : Slots) (g ret : ℕ) (s' : Slots) : Type 0 where
  pub valid : IsValid k s'
  pub returned : ret ≡ (if grab s g == 0 then 0 else 1)
  pub gone : grab s' g ≡ 0
  pub others : (x : ℕ) → x ≢ g → grab s' x ≡ grab s x

-- On a valid array unregister_service keeps it valid, afterwards the handle finds nothing and every
-- other handle what it found before, and 1 is returned exactly when the handle found a service.
pub unregister_service_lem :
    (k : ℕ) (s : Slots) (g : ℕ)
    → IsValid k s
    → let (ret, s') = unregister_service s g in Removed k s g ret s'
unregister_service_lem k s g v = elim (grab_cases k s g v) [
  | inl (c, here) ↦
      let found : grab s g ≡ c = grab-Serves k s g c v here in
      let test : (c == 0) ≡ false = ground (arith, here.3) in
      let mine : s.svc_handle (slot_at s (g % 2 ^ k)) ≡ g =
        ap s.svc_handle (Serves-home k s g v g c here) ∙ here.4 in
      subst (λ p. Removed k s g p.0 p.1) (sym (removal_found k s g v c here))
        (record {
          valid = cleared-IsValid k s g v;
          returned = rw (found, test) refl;
          gone = cleared_gone k s g v;
          others = cleared-others k s g v mine;
        })
  | inr e ↦
      subst (λ p. Removed k s g p.0 p.1) (sym (removal_missing k s g v e))
        (record { valid = v; returned = rw e refl; gone = e; others = λ x ne. refl })
]
