-- ===== src/Service/Slots/Expand.antt =====
-- The expansion in `register_service` (skynet-src/service/service_manager.cpp): in a full array no
-- read through a null pointer and no failed `assert`, and every service stays reachable.
use native.Mathlib.Decide.{ℕ_discrete, dec_lt}
use native.Mathlib.Nat.{
  div-add-mod, mod-lt, mul-suc, add-mod_right, mod-mod_of_dvd, dvd-mul_right, pow-suc,
}
use skynet.Base.{
  ℕ, zero, suc, ◌+◌, ◌-◌, ◌*◌, ◌/◌, ◌%◌, ◌^◌, ◌≤◌, ◌<◌, ◌≡◌, ◌≢◌, refl, sym, ap, ◌∙◌, subst, some,
  List, length, get_or, set, replicate, length-set, length-replicate, get_or-set_self,
  get_or-set_ne, get_or-replicate, arith, pow_pos, leb, ◌==◌, true, false,
}
use skynet.Service.Slots.{handle_mask, Slots, hash, rehash, with_slots, expand}
use skynet.Service.Slots.Register.{slot_at, IsValid, hash_mod, residue}

mod_double : (m x : ℕ) → x % (m * 2) % m ≡ x % m
mod_double m x = mod-mod_of_dvd m x (dvd-mul_right m 2)

hash_double : (k h : ℕ) → hash h (2 ^ k * 2) ≡ h % (2 ^ k * 2)
hash_double k h = subst (λ m. hash h m ≡ h % m) (pow-suc 2 k) (hash_mod (suc k) h)

module _ (k : ℕ) (s : Slots) (v : IsValid k s) (full : (i : ℕ) → i < 2 ^ k → slot_at s i ≢ 0) where
  -- The first i services have moved to the new array.
  record Moved (i : ℕ) (new_slot : List ℕ) : Type 0 where
    pub cells : length new_slot ≡ 2 ^ k * 2
    pub from :
        (x : ℕ)
        → get_or new_slot x 0 ≢ 0
        → (j : ℕ) × (j < i)
          × (slot_at s j ≡ get_or new_slot x 0)
          × (s.svc_handle (slot_at s j) % (2 ^ k * 2) ≡ x)
    pub into :
        (j : ℕ) → j < i → get_or new_slot (s.svc_handle (slot_at s j) % (2 ^ k * 2)) 0 ≡ slot_at s j

  -- Services of different slots have different slots in the new array.
  stays_apart :
      (i j : ℕ)
      → i < 2 ^ k
      → j < 2 ^ k
      → s.svc_handle (slot_at s j) % (2 ^ k * 2) ≡ s.svc_handle (slot_at s i) % (2 ^ k * 2)
      → j ≡ i
  stays_apart i j lt lt' e =
      sym (v.home j lt' (full j lt'))
      ∙ sym (mod_double (2 ^ k) (s.svc_handle (slot_at s j)))
      ∙ ap (λ x. x % 2 ^ k) e
      ∙ mod_double (2 ^ k) (s.svc_handle (slot_at s i))
      ∙ v.home i lt (full i lt)

  hash_at : (h : ℕ) → hash h (s.svc_ctx_slot_size * 2) ≡ h % (2 ^ k * 2)
  hash_at h = ap (λ m. hash h (m * 2)) v.size ∙ hash_double k h

  one-Moved :
      (i : ℕ) (new_slot : List ℕ)
      → i < 2 ^ k
      → let at = s.svc_handle (slot_at s i) % (2 ^ k * 2) in
        get_or new_slot at 0 ≡ 0 → Moved i new_slot → Moved (i + 1) (set new_slot at (slot_at s i))
  one-Moved i new_slot lt free m =
      let ctx : ℕ = slot_at s i in
      let at : ℕ = s.svc_handle ctx % (2 ^ k * 2) in
      let inside : at < length new_slot =
        subst (λ n. at < n) (sym m.cells) (mod-lt (s.svc_handle ctx) (omega arith)) in
      let stored : get_or (set new_slot at ctx) at 0 ≡ ctx =
        get_or-set_self new_slot at ctx 0 inside in
      record {
        cells = length-set new_slot at ctx ∙ m.cells;
        from = λ x taken. elim (ℕ_discrete x at) [
          | yes e ↦
              (i, omega arith, sym (ap (λ y. get_or (set new_slot at ctx) y 0) e ∙ stored), sym e)
          | no ne ↦
              let same : get_or (set new_slot at ctx) x 0 ≡ get_or new_slot x 0 =
                get_or-set_ne new_slot at x ctx 0 (λ e. ne (sym e)) in
              let (j, less, eq, home) = m.from x (λ e. taken (same ∙ e)) in
              (j, omega arith, eq ∙ sym same, home)
        ];
        into = λ j less. elim (ℕ_discrete j i) [
          | yes e ↦
              subst
                (λ y.
                  get_or (set new_slot at ctx) (s.svc_handle (slot_at s y) % (2 ^ k * 2)) 0
                  ≡ slot_at s y)
                (sym e) stored
          | no ne ↦
              get_or-set_ne new_slot at (s.svc_handle (slot_at s j) % (2 ^ k * 2)) ctx 0
                (λ e. ne (stays_apart i j lt (omega arith) (sym e)))
              ∙ m.into j (omega arith)
        ];
      }

  rehash_lem :
      (r i : ℕ) (new_slot : List ℕ)
      → i + r ≡ 2 ^ k
      → Moved i new_slot
      → (last : List ℕ) × (rehash r s i new_slot ≡ some last) × Moved (2 ^ k) last
  unfolding rehash
  rehash_lem zero i new_slot e m = (new_slot, refl, subst (λ x. Moved x new_slot) (omega arith) m)
  rehash_lem (suc r) i new_slot e m =
      let ctx : ℕ = slot_at s i in
      let at : ℕ = s.svc_handle ctx % (2 ^ k * 2) in
      let lt : i < 2 ^ k = omega arith in
      let present : (ctx == 0) ≡ false = ground (arith, full i lt) in
      let free : get_or new_slot at 0 ≡ 0 = elim (ℕ_discrete (get_or new_slot at 0) 0) [
        | yes e ↦ e
        | no ne ↦
            let (j, less, _, same) = m.from at ne in
            absurd (omega (arith, stays_apart i j lt (omega arith) same))
      ] in
      let test : (get_or new_slot at 0 == 0) ≡ true = ground arith in
      rw (rehash, hash_at (s.svc_handle ctx), present, test)
        (rehash_lem r (i + 1) (set new_slot at ctx) (omega arith) (one-Moved i new_slot lt free m))

-- Half a turn of the new array leads to another slot.
half_turn : (m g : ℕ) → 0 < m → (g + m) % (m * 2) ≢ g % (m * 2)
half_turn m g pos e =
    let whole = div-add-mod g (m * 2) in
    let below : g % (m * 2) < m * 2 = mod-lt g (omega arith) in
    elim (dec_lt (g % (m * 2)) m) [
      | yes lt ↦
          let there : (g + m) % (m * 2) ≡ g % (m * 2) + m =
            residue (m * 2) (g / (m * 2)) (g % (m * 2) + m) (g + m) (omega arith)
              (omega (arith, whole)) in
          omega arith
      | no ge ↦
          let there : (g + m) % (m * 2) ≡ g % (m * 2) - m =
            residue (m * 2) (suc (g / (m * 2))) (g % (m * 2) - m) (g + m) (omega arith)
              (omega (arith, whole, mul-suc (m * 2) (g / (m * 2)))) in
          omega arith
    ]

-- The slots `s'` after the expansion of `s`: the same services with the same handles, and room.
pub record Expanded (k : ℕ) (s s' : Slots) : Type 0 where
  pub valid : IsValid (suc k) s'
  pub seed : s'.alloc_svc_handle_seed ≡ s.alloc_svc_handle_seed
  pub handles : s'.svc_handle ≡ s.svc_handle
  pub services :
      (j : ℕ) → j < 2 ^ k → slot_at s' (s.svc_handle (slot_at s j) % 2 ^ suc k) ≡ slot_at s j
  pub no_others : (x : ℕ) → slot_at s' x ≢ 0 → (j : ℕ) × (j < 2 ^ k) × (slot_at s j ≡ slot_at s' x)
  pub free : (x : ℕ) × (x < 2 ^ suc k) × (slot_at s' x ≡ 0)

module _ (k : ℕ) (s : Slots) (v : IsValid k s) (full : (i : ℕ) → i < 2 ^ k → slot_at s i ≢ 0) where
  Moved-Expanded :
      (new_slot : List ℕ)
      → Moved k s v full (2 ^ k) new_slot
      → Expanded k s
          (record s { svc_ctx_slot = new_slot; svc_ctx_slot_size = s.svc_ctx_slot_size * 2 })
  Moved-Expanded new_slot m =
      let pos : 0 < 2 ^ k = pow_pos k in
      let g : ℕ = s.svc_handle (slot_at s 0) in
      let x : ℕ = (g + 2 ^ k) % (2 ^ k * 2) in
      record {
        valid = record {
          size = ap (λ n. n * 2) v.size ∙ sym (pow-suc 2 k);
          cells = m.cells ∙ sym (pow-suc 2 k);
          home =
              λ i lt taken. let (j, less, eq, home) = m.from i taken in rw (pow-suc, sym eq) home;
          issued = λ i lt taken.
              let (j, less, eq, home) = m.from i taken in
              subst (λ c. (0 < s.svc_handle c) × (s.svc_handle c < s.alloc_svc_handle_seed)) eq
                (v.issued j less (full j less));
          seed_pos = v.seed_pos;
        };
        seed = refl;
        handles = refl;
        services = λ j less. rw pow-suc (m.into j less);
        no_others = λ x taken. let (j, less, eq, home) = m.from x taken in (j, less, eq);
        free = (
          x,
          rw pow-suc (mod-lt (g + 2 ^ k) (omega arith)),
          elim (ℕ_discrete (get_or new_slot x 0) 0) [
            | yes e ↦ e
            | no ne ↦
                let (j, less, eq, home) = m.from x ne in
                let first : j ≡ 0 =
                  sym (v.home j less (full j less))
                  ∙ sym (mod_double (2 ^ k) (s.svc_handle (slot_at s j)))
                  ∙ ap (λ y. y % 2 ^ k) home
                  ∙ mod_double (2 ^ k) (g + 2 ^ k)
                  ∙ add-mod_right g (2 ^ k)
                  ∙ v.home 0 pos (full 0 pos) in
                absurd (
                  half_turn (2 ^ k) g pos
                    (sym (subst (λ y. s.svc_handle (slot_at s y) % (2 ^ k * 2) ≡ x) first home)))
          ],
        );
      }

  none-Moved : Moved k s v full 0 (replicate (s.svc_ctx_slot_size * 2) 0)
  none-Moved = record {
    cells = length-replicate (s.svc_ctx_slot_size * 2) 0 ∙ ap (λ n. n * 2) v.size;
    from = λ x taken. absurd (taken (get_or-replicate (s.svc_ctx_slot_size * 2) x 0));
    into = λ j less. absurd (omega arith);
  }

  -- When every slot of a valid array is taken and twice as many slots are within HANDLE_MASK, the
  -- expansion reads through no null pointer and fails no `assert`. It keeps every service with its
  -- handle and no other, at the slot of that handle, and leaves a free slot.
  pub expand_lem :
      2 ^ k * 2 - 1 ≤ handle_mask → (s' : Slots) × (expand s ≡ some s') × Expanded k s s'
  unfolding expand with_slots
  expand_lem le =
      let (last, e, m) =
        rehash_lem k s v full (s.svc_ctx_slot_size) 0 (replicate (s.svc_ctx_slot_size * 2) 0)
          (omega (arith, v.size)) none-Moved in
      let test : leb (s.svc_ctx_slot_size * 2 - 1) handle_mask ≡ true = ground (arith, v.size) in
      (_, rw (test, e) refl, Moved-Expanded last m)
