-- ===== src/Base/Result.antt =====
-- How a function of the libraries for Lua ends, and postconditions on it.
use skynet.Base.{Bool, true, false, if◌then◌else◌}

-- A value, an error that Lua raises, an access outside a buffer, or more calls than are counted.
pub data Result {ℓ} (A : Type ℓ) : Type ℓ where
  got : A → Result A
  invalid outside out_of_calls : Result A

infixl 1 ◌then_do◌
abbrev pub ◌then_do◌ {ℓ κ} : {A : Type ℓ} {B : Type κ} → Result A → (A → Result B) → Result B
got a then_do f = f a
invalid then_do f = invalid
outside then_do f = outside
out_of_calls then_do f = out_of_calls

-- The calls sufficed, and P holds of what was got.
pub data Keeps {ℓ κ} {A : Type ℓ} (P : A → Type κ) : Result A → Type (ℓ ⊔ κ) where
  gets : {a : A} → P a → Keeps P (got a)
  raises : Keeps P invalid
  faults : Keeps P outside

module _ {ℓ κ} {A : Type ℓ} {P : A → Type κ} where
  pub if-Keeps : (b : Bool) {x y : Result A} → Keeps P x → Keeps P y → Keeps P (if b then x else y)
  if-Keeps true hx hy = hx
  if-Keeps false hx hy = hy

  pub then_do-Keeps {ℓ' κ'} :
      {B : Type ℓ'} {Q : B → Type κ'} {r : Result A} {f : A → Result B}
      → Keeps P r
      → ((a : A) → P a → Keeps Q (f a))
      → Keeps Q (r then_do f)
  then_do-Keeps (gets {a} h) k = k a h
  then_do-Keeps raises k = raises
  then_do-Keeps faults k = faults
