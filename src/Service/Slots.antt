-- ===== src/Service/Slots.antt =====
-- The array `svc_ctx_slot_` of skynet-src/service/service_manager.cpp: services by handle. A service
-- context is its address, 0 is the null pointer, and `svc_handle` is the field svc_handle_ of the
-- context at an address, which the caller of register_service sets when the call returns.
pub mod Register
pub mod Expand
pub mod Handles
pub mod Fresh
pub mod Removal
pub mod Tests
use Prim.Native.Nat.{bit_and}
use skynet.Base.{
  ℕ, zero, suc, ◌+◌, ◌-◌, ◌*◌, Bool, true, false, not, ◌&&◌, Option, none, some, List, [], ◌∷◌,
  get_or, set, replicate, ltb, leb, ◌==◌, if◌then◌else◌,
}

abbrev pub handle_mask : ℕ
handle_mask = 0x00FFFFFF

abbrev pub default_slot_size : ℕ
default_slot_size = 4

pub record Slots : Type 0 where
  pub alloc_svc_handle_seed : ℕ
  pub svc_ctx_slot_size : ℕ
  pub svc_ctx_slot : List ℕ
  pub svc_handle : ℕ → ℕ

-- `service_manager::init`, as far as it concerns the slots.
unfoldable pub init : Slots
init = record {
  alloc_svc_handle_seed = 1;
  svc_ctx_slot_size = default_slot_size;
  svc_ctx_slot = replicate default_slot_size 0;
  svc_handle = λ ctx. 0;
}

-- `svc_handle & (size - 1)`
abbrev pub hash : ℕ → ℕ → ℕ
hash svc_handle size = bit_and svc_handle (size - 1)

abbrev pub wrap : ℕ → ℕ
wrap svc_handle = if ltb handle_mask svc_handle then 1 else svc_handle

-- The inner loop of `register_service`: the first handle of the next ones whose slot is free.
unfoldable pub probe : ℕ → List ℕ → ℕ → ℕ → Option ℕ
probe zero slot size svc_handle = none
probe (suc rounds) slot size svc_handle =
    let rest = probe rounds slot size (wrap svc_handle + 1) in
    if get_or slot (hash (wrap svc_handle) size) 0 == 0 then some (wrap svc_handle) else rest

-- The loop that moves the contexts to an array of twice the size; `none` where it would read through
-- a null pointer or its `assert` fails.
unfoldable pub rehash : ℕ → Slots → ℕ → List ℕ → Option (List ℕ)
rehash zero s i new_slot = some new_slot
rehash (suc rounds) s i new_slot =
    let ctx = get_or s.svc_ctx_slot i 0 in
    let at = hash (s.svc_handle ctx) (s.svc_ctx_slot_size * 2) in
    let rest = rehash rounds s (i + 1) (set new_slot at ctx) in
    if not (ctx == 0) && get_or new_slot at 0 == 0 then rest else none

unfoldable pub with_slots : Slots → Option (List ℕ) → Option Slots
with_slots s none = none
with_slots s (some new_slot) =
    some (record s { svc_ctx_slot = new_slot; svc_ctx_slot_size = s.svc_ctx_slot_size * 2 })

unfoldable pub expand : Slots → Option Slots
expand s =
    let new_slot = rehash s.svc_ctx_slot_size s 0 (replicate (s.svc_ctx_slot_size * 2) 0) in
    if leb (s.svc_ctx_slot_size * 2 - 1) handle_mask then with_slots s new_slot else none

-- `svc_ctx_slot_[hash] = svc_ctx; alloc_svc_handle_seed_ = svc_handle + 1;`
unfoldable pub enter : ℕ → Slots → ℕ → Slots
enter svc_ctx s svc_handle = record s {
  svc_ctx_slot = set s.svc_ctx_slot (hash svc_handle s.svc_ctx_slot_size) svc_ctx;
  alloc_svc_handle_seed = svc_handle + 1;
}

-- One round of the outer loop of `register_service` over the slots given, `rest` being the next.
unfoldable pub enter_or : ℕ → Slots → Option ℕ → Option (ℕ × Slots) → Option (ℕ × Slots)
enter_or svc_ctx s none rest = rest
enter_or svc_ctx s (some svc_handle) rest = some (svc_handle, enter svc_ctx s svc_handle)

unfoldable pub try_slots : ℕ → Option Slots → Option (ℕ × Slots) → Option (ℕ × Slots)
try_slots svc_ctx none rest = none
try_slots svc_ctx (some s) rest =
    enter_or svc_ctx s
      (probe s.svc_ctx_slot_size s.svc_ctx_slot s.svc_ctx_slot_size s.alloc_svc_handle_seed) rest

-- `register_service`, with at most one expansion.
unfoldable pub register_service : ℕ → Slots → Option (ℕ × Slots)
register_service svc_ctx s = try_slots svc_ctx (some s) (try_slots svc_ctx (expand s) none)

-- `svc_ctx->svc_handle_ = svc_handle`
unfoldable pub set_handle : ℕ → ℕ → Slots → Slots
set_handle svc_ctx svc_handle s = record s {
  svc_handle = λ ctx. if ctx == svc_ctx then svc_handle else s.svc_handle ctx;
}

-- `grab`, which also counts the reference.
unfoldable pub grab : Slots → ℕ → ℕ
grab s svc_handle =
    let ctx = get_or s.svc_ctx_slot (hash svc_handle s.svc_ctx_slot_size) 0 in
    if not (ctx == 0) && s.svc_handle ctx == svc_handle then ctx else 0

-- `unregister_service`, as far as it concerns the slots: the result, and the slots.
unfoldable pub unregister_service : Slots → ℕ → ℕ × Slots
unregister_service s svc_handle =
    let at = hash svc_handle s.svc_ctx_slot_size in
    let ctx = get_or s.svc_ctx_slot at 0 in
    if not (ctx == 0) && s.svc_handle ctx == svc_handle
    then (1, record s { svc_ctx_slot = set s.svc_ctx_slot at 0 })
    else (0, s)
