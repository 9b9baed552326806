-- ===== src/Seri/Pack/Accepts.antt =====
-- Which values `luaseri_pack` (luaclib-src/lua-seri.cpp) packs, and into which bytes.
use Prim.Native.Nat.{max}
use skynet.Base.{
  zero, ◌<◌, ◌^◌, ◌≢◌, ◌↔◌, sym, length, joined, joined-append, ℕ, suc, ◌+◌, ◌≡◌, refl, ap, ap₂,
  subst, ◌∙◌, arith, Option, none, some, List, [], ◌∷◌, ◌++◌, ltb, leb, ◌&&◌, Bool, true, false,
  Bool-cases, inl, inr, if◌then◌else◌, ◌>>=◌,
}
use skynet.Seri.{
  Value, Items, Pairs, null, boolean, integer, real, string, light_userdata, table, with_metapairs,
  unsupported, no_items, item, no_pairs, pair, count_items,
}
use skynet.Seri.Write.{wb_init, seri, Pushes, max_depth, combine_type, wb_nil}
use skynet.Seri.Write.Blocks.{seri-push_all}
use skynet.Seri.Pack.{
  wb_array_size, in_array, is_nil, at_depth, before, both, pack_one, pack_items, pack_hash,
  pack_metapairs, pack_from, push_all, luaseri_pack,
}
use skynet.Seri.Plain.{
  plain, plain_items, plain_hash, plain_metapairs, supported, supported_items, supported_pairs,
  height, height_items, height_pairs, packable, emit, emit_items, emit_pairs, plain_all,
  all_packable, emit_all, is_index, AllFit, Fits, FitItems, FitPairs,
}

-- Pushes of these bytes, or an error.
data Packs : Option Pushes → Bool → List ℕ → Type 0 where
  packs : {ps : Pushes} {bytes : List ℕ} → joined ps ≡ bytes → Packs (some ps) true bytes
  fails : {bytes : List ℕ} → Packs none false bytes

at_depth-Packs :
    {r : Option Pushes} {ok : Bool} {bytes : List ℕ} (depth : ℕ)
    → Packs r ok bytes
    → Packs (at_depth depth r) (leb depth max_depth && ok) bytes
at_depth-Packs depth p = elim (Bool-cases (leb depth max_depth)) [
  | inl t ↦ let f : ltb max_depth depth ≡ false = ground (arith, t) in rw (t, f) p
  | inr t ↦ let f : ltb max_depth depth ≡ true = ground (arith, t) in rw (t, f) fails
]

before-Packs :
    {r : Option Pushes} {ok : Bool} {bytes : List ℕ} (first : Pushes)
    → Packs r ok bytes
    → Packs (before first r) ok (joined first ++ bytes)
unfolding before
before-Packs first (packs {ps} e) = packs (joined-append first ps ∙ ap (λ l. joined first ++ l) e)
before-Packs first fails = fails

both-Packs :
    {r r' : Option Pushes} {ok ok' : Bool} {bytes bytes' : List ℕ}
    → Packs r ok bytes
    → Packs r' ok' bytes'
    → Packs (both r r') (ok && ok') (bytes ++ bytes')
unfolding both before
both-Packs (packs {ps} e) (packs {ps = ps'} e') = packs (joined-append ps ps' ∙ ap₂ ◌++◌ e e')
both-Packs (packs e) fails = fails
both-Packs fails p = fails

nil-Packs : Packs (some wb_nil) true (0 ∷ [])
unfolding wb_nil
nil-Packs = packs refl

empty_array-Packs :
    {r : Option Pushes} {ok : Bool} {bytes : List ℕ}
    → Packs r ok bytes
    → Packs
        (before ((combine_type 6 0 ∷ []) ∷ []) r)
        ok
        (joined (wb_array_size (count_items no_items)) ++ bytes)
unfolding wb_array_size count_items
empty_array-Packs p = before-Packs ((combine_type 6 0 ∷ []) ∷ []) p

-- What the tests of the depth let pass.
unfoldable mutual
  accepts : ℕ → Value → Bool
  accepts depth (table xs es) =
      leb depth max_depth && (accept_items (depth + 1) xs && accept_pairs (depth + 1) es)
  accepts depth (with_metapairs es) = false
  accepts depth unsupported = false
  accepts depth v = leb depth max_depth && true

  accept_items : ℕ → Items → Bool
  accept_items depth no_items = true
  accept_items depth (item v xs) = accepts depth v && accept_items depth xs

  accept_pairs : ℕ → Pairs → Bool
  accept_pairs depth no_pairs = true
  accept_pairs depth (pair k v es) = accepts depth k && (accepts depth v && accept_pairs depth es)

count-plain_items : (xs : Items) → count_items (plain_items xs) ≡ count_items xs
unfolding count_items plain
count-plain_items no_items = refl
count-plain_items (item v xs) = ap suc (count-plain_items xs)

-- The test of `wb_table_hash` finds the keys that are indices.
in_range_lem :
    (n x : ℕ) → n < 2 ^ 63 → (ltb 0 x && leb x n && ltb x (2 ^ 63)) ≡ is_index n (integer x)
unfolding is_index
in_range_lem zero x lt = ground arith
in_range_lem (suc n) x lt = ground (arith, in_range_lem n x (omega arith))

not_index : (n : ℕ) (k : Value) → ((x : ℕ) → k ≢ integer x) → is_index n k ≡ false
unfolding is_index
not_index zero k h = refl
not_index (suc n) (integer x) h = absurd (h x refl)
not_index (suc n) null h = refl
not_index (suc n) _ h = refl

in_array_lem : (n : ℕ) (k : Value) → n < 2 ^ 31 → in_array n k ≡ is_index n k
unfolding in_array
in_array_lem n (integer x) lt = in_range_lem n x (omega (arith, lt))
in_array_lem n null lt = sym (not_index n null (λ x. cc))
in_array_lem n (boolean b) lt = sym (not_index n (boolean b) (λ x. cc))
in_array_lem n (real r) lt = sym (not_index n (real r) (λ x. cc))
in_array_lem n (string s) lt = sym (not_index n (string s) (λ x. cc))
in_array_lem n (light_userdata a) lt = sym (not_index n (light_userdata a) (λ x. cc))
in_array_lem n (table xs es) lt = sym (not_index n (table xs es) (λ x. cc))
in_array_lem n (with_metapairs es) lt = sym (not_index n (with_metapairs es) (λ x. cc))
in_array_lem n unsupported lt = sym (not_index n unsupported (λ x. cc))

mutual
  unfolding pack_one plain accepts emit

  pack_one-Packs :
      (v : Value) (depth : ℕ)
      → Fits v
      → Packs (pack_one v depth) (accepts depth (plain v)) (emit (plain v))
  pack_one-Packs null depth f = at_depth-Packs depth nil-Packs
  pack_one-Packs (boolean b) depth f = at_depth-Packs depth (packs refl)
  pack_one-Packs (integer v) depth f = at_depth-Packs depth (packs refl)
  pack_one-Packs (real v) depth f = at_depth-Packs depth (packs refl)
  pack_one-Packs (string str) depth f = at_depth-Packs depth (packs refl)
  pack_one-Packs (light_userdata v) depth f = at_depth-Packs depth (packs refl)
  pack_one-Packs (table xs es) depth (few, fx, fe, keys, numbers) = rw (count-plain_items xs) (
      at_depth-Packs depth (
        before-Packs (wb_array_size (count_items xs)) (
          both-Packs (pack_items-Packs xs (depth + 1) fx)
            (pack_hash-Packs (count_items xs) es (depth + 1) few fe))))
  pack_one-Packs (with_metapairs es) depth (fe, numbers) =
      at_depth-Packs depth (empty_array-Packs (pack_metapairs-Packs es (depth + 1) fe))
  pack_one-Packs unsupported depth f = fails

  pack_items-Packs :
      (xs : Items) (depth : ℕ)
      → FitItems xs
      → Packs
          (pack_items xs depth)
          (accept_items depth (plain_items xs))
          (emit_items (plain_items xs))
  pack_items-Packs no_items depth f = packs refl
  pack_items-Packs (item v xs) depth (fv, fx) =
      both-Packs (pack_one-Packs v depth fv) (pack_items-Packs xs depth fx)

  pack_hash-Packs :
      (n : ℕ) (es : Pairs) (depth : ℕ)
      → n < 2 ^ 31
      → FitPairs es
      → Packs
          (pack_hash n es depth)
          (accept_pairs depth (plain_hash n es))
          (emit_pairs (plain_hash n es))
  pack_hash-Packs n no_pairs depth few f = nil-Packs
  pack_hash-Packs n (pair k v es) depth few (fk, fv, fe) = elim (Bool-cases (is_index n k)) [
    | inl skip ↦ rw (in_array_lem n k few, skip) (pack_hash-Packs n es depth few fe)
    | inr keep ↦
        rw (in_array_lem n k few, keep)
          (both-Packs (pack_one-Packs k depth fk)
            (both-Packs (pack_one-Packs v depth fv) (pack_hash-Packs n es depth few fe)))
  ]

  pack_metapairs-Packs :
      (es : Pairs) (depth : ℕ)
      → FitPairs es
      → Packs
          (pack_metapairs es depth)
          (accept_pairs depth (plain_metapairs es))
          (emit_pairs (plain_metapairs es))
  pack_metapairs-Packs no_pairs depth f = nil-Packs
  pack_metapairs-Packs (pair k v es) depth (fk, fv, fe) = elim (Bool-cases (is_nil k)) [
    | inl stop ↦ rw stop nil-Packs
    | inr go ↦ rw go (
        both-Packs (pack_one-Packs k depth fk)
          (both-Packs (pack_one-Packs v depth fv) (pack_metapairs-Packs es depth fe)))
  ]

scalar_lem : (d : ℕ) → (leb d max_depth && true) ≡ leb (d + 0) max_depth
scalar_lem d = ground arith

tables_lem :
    (d h h' : ℕ) (a a' s s' b : Bool)
    → (b && a) ≡ (s && leb (d + h) max_depth)
    → (b && a') ≡ (s' && leb (d + h') max_depth)
    → (b && (a && a')) ≡ ((s && s') && leb (d + max h h') max_depth)
tables_lem d h h' a a' s s' b e e' = ground (arith, e, e')

-- A part, and those behind it.
part_step :
    (d h hs : ℕ) (a s a' s' : Bool)
    → a ≡ (s && leb (d + 1 + h) max_depth)
    → (leb d max_depth && a') ≡ (s' && leb (d + hs) max_depth)
    → (leb d max_depth && (a && a')) ≡ ((s && s') && leb (d + max (suc h) hs) max_depth)
part_step d h hs a s a' s' e e' = ground (arith, e, e')

mutual
  unfolding accepts supported height

  accepts_lem :
      (depth : ℕ) (v : Value) → accepts depth v ≡ (supported v && leb (depth + height v) max_depth)
  accepts_lem depth (table xs es) =
      tables_lem depth (height_items xs) (height_pairs es) (accept_items (depth + 1) xs)
        (accept_pairs (depth + 1) es) (supported_items xs) (supported_pairs es)
        (leb depth max_depth) (accept_items_lem depth xs) (accept_pairs_lem depth es)
  accepts_lem depth (with_metapairs es) = refl
  accepts_lem depth unsupported = refl
  accepts_lem depth _ = scalar_lem depth

  accept_items_lem :
      (depth : ℕ) (xs : Items)
      → (leb depth max_depth && accept_items (depth + 1) xs)
        ≡ (supported_items xs && leb (depth + height_items xs) max_depth)
  accept_items_lem depth no_items = scalar_lem depth
  accept_items_lem depth (item v xs) =
      part_step depth (height v) (height_items xs) (accepts (depth + 1) v) (supported v)
        (accept_items (depth + 1) xs) (supported_items xs) (accepts_lem (depth + 1) v)
        (accept_items_lem depth xs)

  accept_pairs_lem :
      (depth : ℕ) (es : Pairs)
      → (leb depth max_depth && accept_pairs (depth + 1) es)
        ≡ (supported_pairs es && leb (depth + height_pairs es) max_depth)
  accept_pairs_lem depth no_pairs = scalar_lem depth
  accept_pairs_lem depth (pair k v es) =
      part_step depth (height k) (max (suc (height v)) (height_pairs es)) (accepts (depth + 1) k)
        (supported k) (accepts (depth + 1) v && accept_pairs (depth + 1) es)
        (supported v && supported_pairs es) (accepts_lem (depth + 1) k)
        (part_step depth (height v) (height_pairs es) (accepts (depth + 1) v) (supported v)
          (accept_pairs (depth + 1) es) (supported_pairs es) (accepts_lem (depth + 1) v)
          (accept_pairs_lem depth es))

pack_from-Packs :
    (vs : List Value)
    → AllFit vs
    → Packs (pack_from vs) (all_packable (plain_all vs)) (emit_all (plain_all vs))
unfolding pack_from
pack_from-Packs [] f = packs refl
pack_from-Packs (v ∷ vs) (fv, fs) =
    let outermost : accepts 0 (plain v) ≡ packable (plain v) =
      ground (arith, accepts_lem 0 (plain v)) in
    let here : Packs (pack_one v 0) (packable (plain v)) (emit (plain v)) =
      subst (λ ok. Packs (pack_one v 0) ok (emit (plain v))) outermost (pack_one-Packs v 0 fv) in
    both-Packs here (pack_from-Packs vs fs)

packed_lem :
    {r : Option Pushes} {ok : Bool} {bytes : List ℕ}
    → Packs r ok bytes
    → length bytes < 2 ^ 31
    → (r >>= λ ps. some (seri (push_all wb_init ps))) ≡ (if ok then some bytes else none)
packed_lem (packs {ps} e) lt =
    ap some (seri-push_all ps (subst (λ l. length l < 2 ^ 31) (sym e) lt) ∙ e)
packed_lem fails lt = refl

-- The bytes of what is kept of the values, where these are fewer than 2 ^ 31.
pub luaseri_pack_bytes :
    (vs : List Value)
    → AllFit vs
    → length (emit_all (plain_all vs)) < 2 ^ 31
    → luaseri_pack vs
      ≡ (if all_packable (plain_all vs) then some (emit_all (plain_all vs)) else none)
unfolding luaseri_pack
luaseri_pack_bytes vs f lt = packed_lem (pack_from-Packs vs f) lt

-- For values whose numbers are those of 64 bits, of fewer than 2 ^ 31 parts, and without a key nil or NaN,
-- which pack into fewer than 2 ^ 31 bytes: packing them raises an error if and only if some value, or some
-- part of one that is not left out, is of an unsupported type or lies in more than MAX_DEPTH tables. Left
-- out are the pairs of a table whose keys are indices of its array, and those of a metamethod from a
-- key nil on.
pub luaseri_pack-raises :
    (vs : List Value)
    → AllFit vs
    → length (emit_all (plain_all vs)) < 2 ^ 31
    → (luaseri_pack vs ≡ none) ↔ (all_packable (plain_all vs) ≡ false)
luaseri_pack-raises vs f lt =
    rw (luaseri_pack_bytes vs f lt)
      (if-raises (all_packable (plain_all vs)) (emit_all (plain_all vs)))
  where
    if-raises :
        (ok : Bool) (bytes : List ℕ) → ((if ok then some bytes else none) ≡ none) ↔ (ok ≡ false)
    if-raises true bytes = (λ h. absurd (cc h), λ h. absurd (cc h))
    if-raises false bytes = (λ h. refl, λ h. refl)
