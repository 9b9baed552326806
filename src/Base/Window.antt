-- ===== src/Base/Window.antt =====
-- The elements of a ring buffer from an index on, going round at its capacity.
use native.Mathlib.Nat.{mod-add-mod, mod-eq_of_lt, mod_self, mod-lt}
use Prim.Native.Nat.{ℕ, zero, suc, ◌+◌, ◌-◌, ◌%◌, ◌≤◌, ◌<◌}
use mathlib.Core.Path.{◌≡◌, refl, ap, ap₂, sym, ◌∙◌}
use mathlib.Core.List.{List, [], ◌∷◌, ◌++◌, append_assoc}
use native.Mathlib.Omega.{arith}
use skynet.Base.Tests.{if◌then◌else◌, leb}
use skynet.Base.Lists.{
  length, get_or, set, length-append, get_or-append, get_or-set_self, get_or-set_ne,
}

-- The index after `i`.
abbrev pub succ : ℕ → ℕ → ℕ
succ cap i = if leb cap (i + 1) then 0 else i + 1

-- The index `n` places after `h`.
abbrev pub offset : ℕ → ℕ → ℕ → ℕ
offset cap h n = if leb cap (h + n) then h + n - cap else h + n

pub succ-mod : (cap j k : ℕ) → j < cap → k ≡ j + 1 → succ cap j ≡ k % cap
succ-mod cap j k h e = ground (arith, mod-eq_of_lt {n = k} {m = cap}, mod_self cap)

add_one : (h i : ℕ) → h + (i + 1) ≡ h + i + 1
add_one h i = omega arith

module _ {A : Type 0} (blank : A) where
  -- The `n` elements from index `h` on, going round at `cap`.
  abbrev pub window : List A → ℕ → ℕ → ℕ → List A
  window queue cap h zero = []
  window queue cap h (suc n) = get_or queue h blank ∷ window queue cap (succ cap h) n

  pub length-window : (queue : List A) (cap h n : ℕ) → length (window queue cap h n) ≡ n
  length-window queue cap h zero = refl
  length-window queue cap h (suc n) = ap suc (length-window queue cap (succ cap h) n)

  -- A write just past a window extends it.
  pub window-set :
      (queue : List A) (cap : ℕ) (m : A) (n h i : ℕ)
      → length queue ≡ cap
      → h < cap
      → n < cap
      → i ≡ offset cap h n
      → window (set queue i m) cap h (suc n) ≡ window queue cap h n ++ m ∷ []
  window-set queue cap m zero h i len hh hn e =
      let e' : i ≡ h = ground arith in rw (e', get_or-set_self queue h m blank (omega arith))
  window-set queue cap m (suc n) h i len hh hn e =
      ap₂ ◌∷◌ (get_or-set_ne queue i h m blank (ground arith))
        (window-set queue cap m n (succ cap h) i len (ground arith) (omega arith) (ground arith))

  -- A window over the middle part of an array is that part.
  pub window-append :
      (l xs ys zs : List A) (cap h : ℕ)
      → l ≡ xs ++ (ys ++ zs)
      → length xs ≡ h
      → h + length ys ≤ cap
      → window l cap h (length ys) ≡ ys
  window-append l xs [] zs cap h e eh le = refl
  window-append l xs (y ∷ []) zs cap h e eh le =
      ap (λ x. x ∷ []) (rw (e, ← eh) (get_or-append xs zs y blank))
  window-append l xs (y ∷ z ∷ ys) zs cap h e eh le =
      ap₂ ◌∷◌ (rw (e, ← eh) (get_or-append xs (z ∷ (ys ++ zs)) y blank)) (
        window-append l (xs ++ y ∷ []) (z ∷ ys) zs cap (succ cap h) (rw append_assoc e)
          (ground (arith, length-append xs (y ∷ []))) (ground arith))

  -- One step on a way round that is counted from h.
  pub window_turn :
      (queue : List A) (cap h i n : ℕ)
      → 0 < cap
      → get_or queue ((h + i) % cap) blank ∷ window queue cap ((h + (i + 1)) % cap) n
        ≡ window queue cap ((h + i) % cap) (suc n)
  window_turn queue cap h i n pos =
      let next : (h + (i + 1)) % cap ≡ succ cap ((h + i) % cap) =
        ap (λ k. k % cap) (add_one h i)
        ∙ sym (mod-add-mod (h + i) cap 1)
        ∙ sym (succ-mod cap ((h + i) % cap) ((h + i) % cap + 1) (mod-lt (h + i) pos) refl) in
      ap (λ j. get_or queue ((h + i) % cap) blank ∷ window queue cap j n) next
