-- ===== src/Service/Slots/Tests.antt =====
-- Concrete instances of the theorems on the slots of services
-- (skynet-src/service/service_manager.cpp).
use skynet.Base.{
  ℕ, zero, suc, ◌-◌, ◌%◌, ◌<◌, ◌≡◌, ◌≢◌, refl, some, [], ◌∷◌, arith, ◌==◌, if◌then◌else◌,
}
use skynet.Service.Slots.{
  unregister_service, Slots, probe, rehash, expand, with_slots, enter, enter_or, try_slots,
  register_service, set_handle,
}
use skynet.Service.Slots.Register.{slot_at, IsValid}
use skynet.Service.Slots.Expand.{Expanded, expand_lem}
use skynet.Service.Slots.Removal.{Removed, unregister_service_lem}
use skynet.Service.Slots.Fresh.{Registered, register_service_lem}

-- Four services with the handles 4, 1, 2 and 3, in an array that is full.
abbrev four_services : Slots
four_services = record {
  alloc_svc_handle_seed = 5;
  svc_ctx_slot_size = 4;
  svc_ctx_slot = 10 ∷ 11 ∷ 12 ∷ 13 ∷ [];
  svc_handle = λ ctx. if ctx == 10 then 4 else ctx - 10;
}

below_four : (P : ℕ → Type 0) → P 0 → P 1 → P 2 → P 3 → (i : ℕ) → i < 4 → P i
below_four P a b c d zero lt = a
below_four P a b c d (suc zero) lt = b
below_four P a b c d (suc (suc zero)) lt = c
below_four P a b c d (suc (suc (suc zero))) lt = d
below_four P a b c d (suc (suc (suc (suc i)))) lt = absurd (omega arith)

four_services-IsValid : IsValid 2 four_services
four_services-IsValid = record {
  size = refl;
  cells = refl;
  home =
      below_four
        (λ i.
          slot_at four_services i ≢ 0 → four_services.svc_handle (slot_at four_services i) % 4 ≡ i)
        (λ h. refl) (λ h. refl) (λ h. refl) (λ h. refl);
  issued =
      below_four
        (λ i.
          slot_at four_services i ≢ 0
          → (0 < four_services.svc_handle (slot_at four_services i))
            × (four_services.svc_handle (slot_at four_services i) < 5))
        (λ h. (omega arith, omega arith)) (λ h. (omega arith, omega arith))
        (λ h. (omega arith, omega arith)) (λ h. (omega arith, omega arith));
  seed_pos = omega arith;
}

four_services_full : (i : ℕ) → i < 4 → slot_at four_services i ≢ 0
four_services_full =
    below_four (λ i. slot_at four_services i ≢ 0) (λ e. omega arith) (λ e. omega arith)
      (λ e. omega arith) (λ e. omega arith)

-- The fifth service makes the array double and gets the handle 5.
fifth_service :
    try_slots 20 (expand four_services) (some (0, four_services))
    ≡ some (
      5,
      enter 20
          (record four_services {
            svc_ctx_slot_size = 8;
            svc_ctx_slot = 0 ∷ 11 ∷ 12 ∷ 13 ∷ 10 ∷ 0 ∷ 0 ∷ 0 ∷ [];
          })
          5,
    )
unfolding try_slots expand with_slots rehash probe enter_or
fifth_service = refl

expand_lem_example : (s' : Slots) × (expand four_services ≡ some s') × Expanded 2 four_services s'
expand_lem_example =
    expand_lem 2 four_services four_services-IsValid four_services_full (omega arith)

register_service_lem_example :
    (h : ℕ) × (s' : Slots) × (register_service 20 four_services ≡ some (h, s'))
    × Registered four_services 20 h (set_handle 20 h s')
register_service_lem_example =
    register_service_lem 2 four_services 20 four_services-IsValid (λ e. omega arith)
      (below_four (λ i. slot_at four_services i ≢ 20) (λ e. omega arith) (λ e. omega arith)
        (λ e. omega arith) (λ e. omega arith))
      (omega arith)

unregister_service_lem_example :
    Removed 2 four_services 2
      (unregister_service four_services 2).0
      (unregister_service four_services 2).1
unregister_service_lem_example = unregister_service_lem 2 four_services 2 four_services-IsValid
