-- ===== src/Seri/Unpack/Roundtrip.antt =====
-- The values that `luaseri_unpack` of luaclib-src/lua-seri.cpp gives of what `luaseri_pack` has packed.
use skynet.Base.{
  joined, ℕ, zero, suc, ◌+◌, ◌-◌, ◌*◌, ◌^◌, ◌≤◌, ◌<◌, ◌≡◌, refl, arith, List, [], ◌∷◌, ◌++◌, length,
  length-append, append_assoc, leb, ◌==◌, ◌&&◌, true, false, Bool-cases, inl, inr, if◌then◌else◌,
  none, some, ◌>>=◌,
}
use skynet.Crypt.Bytes.{and_both}
use skynet.Seri.{
  Value, Items, Pairs, null, boolean, integer, real, string, light_userdata, table, with_metapairs,
  unsupported, no_items, item, no_pairs, pair, count_items,
}
use skynet.Base.Result.{Result, got, ◌then_do◌}
use skynet.Seri.Write.{
  wb_boolean, wb_integer, wb_real, wb_pointer, wb_string, max_cookie, max_depth,
}
use skynet.Seri.Pack.{wb_array_size, is_nil, luaseri_pack}
use skynet.Seri.Pack.Accepts.{luaseri_pack_bytes}
use skynet.Seri.Plain.{
  supported, supported_items, supported_pairs, height, packable, emit, emit_items, emit_pairs,
  HasKeys, HasNumbers, Fits, FitItems, FitPairs, plain_all, all_packable, AllFit, emit_all,
}
use skynet.Seri.Unpack.{
  unpack_one, unpack_items, unpack_pairs, unpack_all, luaseri_unpack, push_value, array_count,
}
use skynet.Seri.Unpack.Numbers.{
  Reads, combine_type-low, combine_type-high, boolean-Reads, integer-Reads, real-Reads,
  light_userdata-Reads,
}
use skynet.Seri.Unpack.Fitting.{plain_all-AllFit}
use skynet.Seri.Unpack.Sizes.{string-Reads, array_count-wb_integer}

-- What `unpack_table` does once it has the number of items.
abbrev parts : ℕ → ℕ → List ℕ → Result (Value × List ℕ)
parts calls n stream = unpack_items calls n stream then_do λ (xs, rest).
    unpack_pairs calls rest then_do λ (es, rest). got (table xs es, rest)

array_size_lem :
    (n calls : ℕ) (rest : List ℕ)
    → n < 2 ^ 31
    → unpack_one (suc calls) (joined (wb_array_size n) ++ rest) ≡ parts calls n rest
unfolding unpack_one wb_array_size
array_size_lem n calls rest lt = elim (Bool-cases (leb (max_cookie - 1) n)) [
  | inl long ↦
      rw long
        (unfold push_value in rw (array_count-wb_integer n rest (ground (arith, long)) lt) refl)
  | inr short ↦
      let same : array_count n rest ≡ got (n, rest) =
        let other : (n == 31) ≡ false = ground (arith, short) in
        unfold array_count in rw other refl in
      rw (short, combine_type-low 6 n (omega arith), combine_type-high 6 n (omega arith))
        (unfold push_value in rw same refl)
]

null-Reads : Reads (0 ∷ []) null
unfolding unpack_one push_value
null-Reads calls rest = refl

Reads-some_bytes : (bytes : List ℕ) (v : Value) → Reads bytes v → 1 ≤ length bytes
unfolding unpack_one
Reads-some_bytes [] v r = absurd (let e = r 0 [] in cc)
Reads-some_bytes (b ∷ bytes) v r = omega arith

-- Enough calls for what is read in one.
scalar_lem :
    (bytes : List ℕ) (v : Value) (calls : ℕ) (rest : List ℕ)
    → Reads bytes v
    → 2 * length bytes ≤ calls
    → unpack_one calls (bytes ++ rest) ≡ got (v, rest)
scalar_lem bytes v zero rest r le = absurd (omega (arith, Reads-some_bytes bytes v r))
scalar_lem bytes v (suc calls) rest r le = r calls rest

array_size-some_bytes : (n : ℕ) → 1 ≤ length (joined (wb_array_size n))
unfolding wb_array_size
array_size-some_bytes n = elim (Bool-cases (leb (max_cookie - 1) n)) [
  | inl long ↦ rw long (omega arith)
  | inr short ↦ rw short (omega arith)
]

emit-some_bytes : (w : Value) → supported w ≡ true → Fits w → 1 ≤ length (emit w)
unfolding emit supported
emit-some_bytes null s f = omega arith
emit-some_bytes (boolean b) s f = Reads-some_bytes _ (boolean b) (boolean-Reads b)
emit-some_bytes (integer v) s f = Reads-some_bytes _ (integer v) (integer-Reads v f)
emit-some_bytes (real v) s f = Reads-some_bytes _ (real v) (real-Reads v f)
emit-some_bytes (string str) s f = Reads-some_bytes _ (string str) (string-Reads str f.1)
emit-some_bytes (light_userdata v) s f =
    Reads-some_bytes _ (light_userdata v) (light_userdata-Reads v f)
emit-some_bytes (table xs es) s f = omega (
  arith,
  array_size-some_bytes (count_items xs),
  length-append (joined (wb_array_size (count_items xs))) (emit_items xs ++ emit_pairs es),
)
emit-some_bytes (with_metapairs es) s f = absurd (cc)
emit-some_bytes unsupported s f = absurd (cc)

mutual
  unfolding emit supported unpack_one count_items is_nil

  unpack_one-emit :
      (w : Value) (calls : ℕ) (rest : List ℕ)
      → supported w ≡ true
      → Fits w
      → 2 * length (emit w) ≤ calls
      → unpack_one calls (emit w ++ rest) ≡ got (w, rest)
  unpack_one-emit null calls rest s f le = scalar_lem (0 ∷ []) null calls rest null-Reads le
  unpack_one-emit (boolean b) calls rest s f le =
      scalar_lem (joined (wb_boolean b)) (boolean b) calls rest (boolean-Reads b) le
  unpack_one-emit (integer v) calls rest s f le =
      scalar_lem (joined (wb_integer v)) (integer v) calls rest (integer-Reads v f) le
  unpack_one-emit (real v) calls rest s f le =
      scalar_lem (joined (wb_real v)) (real v) calls rest (real-Reads v f) le
  unpack_one-emit (string str) calls rest s f le =
      scalar_lem (joined (wb_string str)) (string str) calls rest (string-Reads str f.1) le
  unpack_one-emit (light_userdata v) calls rest s f le =
      scalar_lem (joined (wb_pointer v)) (light_userdata v) calls rest (light_userdata-Reads v f) le
  unpack_one-emit (with_metapairs es) calls rest s f le = absurd (cc)
  unpack_one-emit unsupported calls rest s f le = absurd (cc)
  unpack_one-emit (table xs es) zero rest s f le =
      absurd (omega (arith, emit-some_bytes (table xs es) s f))
  unpack_one-emit (table xs es) (suc calls) rest s (few, fx, fe, keys, numbers) le =
      let size = joined (wb_array_size (count_items xs)) in
      let (sx, se) = and_both (supported_items xs) (supported_pairs es) s in
      let total = length-append size (emit_items xs ++ emit_pairs es) in
      let total' = length-append (emit_items xs) (emit_pairs es) in
      let some_bytes = array_size-some_bytes (count_items xs) in
      let items = unpack_items-emit xs calls (emit_pairs es ++ rest) sx fx (omega (arith, le)) in
      let pairs = unpack_pairs-emit es calls rest se fe keys numbers (omega (arith, le)) in
      rw
        (
          append_assoc size (emit_items xs ++ emit_pairs es) rest,
          append_assoc (emit_items xs) (emit_pairs es) rest,
          array_size_lem (count_items xs) calls (emit_items xs ++ (emit_pairs es ++ rest)) few,
          items,
          pairs,
        )
        refl

  unpack_items-emit :
      (xs : Items) (calls : ℕ) (rest : List ℕ)
      → supported_items xs ≡ true
      → FitItems xs
      → 2 * length (emit_items xs) + 1 ≤ calls
      → unpack_items calls (count_items xs) (emit_items xs ++ rest) ≡ got (xs, rest)
  unpack_items-emit xs zero rest s f le = absurd (omega (arith, le))
  unpack_items-emit no_items (suc calls) rest s f le = refl
  unpack_items-emit (item v xs) (suc calls) rest s (fv, fx) le =
      let (sv, sx) = and_both (supported v) (supported_items xs) s in
      let total = length-append (emit v) (emit_items xs) in
      let some_bytes = emit-some_bytes v sv fv in
      let first = unpack_one-emit v calls (emit_items xs ++ rest) sv fv (omega (arith, le)) in
      let later = unpack_items-emit xs calls rest sx fx (omega (arith, le)) in
      rw (append_assoc (emit v) (emit_items xs) rest, first, later) refl

  unpack_pairs-emit :
      (es : Pairs) (calls : ℕ) (rest : List ℕ)
      → supported_pairs es ≡ true
      → FitPairs es
      → HasKeys es
      → HasNumbers es
      → 2 * length (emit_pairs es) + 1 ≤ calls
      → unpack_pairs calls (emit_pairs es ++ rest) ≡ got (es, rest)
  unpack_pairs-emit es zero rest s f keys numbers le = absurd (omega (arith, le))
  unpack_pairs-emit no_pairs (suc calls) rest s f keys numbers le =
      let last = scalar_lem (0 ∷ []) null calls rest null-Reads (omega (arith, le)) in rw last refl
  unpack_pairs-emit (pair k v es) (suc calls) rest s (fk, fv, fe) (key, keys) (number, numbers) le =
      let (sk, s') = and_both (supported k) (supported v && supported_pairs es) s in
      let (sv, se) = and_both (supported v) (supported_pairs es) s' in
      let total = length-append (emit k) (emit v ++ emit_pairs es) in
      let total' = length-append (emit v) (emit_pairs es) in
      let some_k = emit-some_bytes k sk fk in
      let some_v = emit-some_bytes v sv fv in
      let first =
        unpack_one-emit k calls (emit v ++ (emit_pairs es ++ rest)) sk fk (omega (arith, le)) in
      let second = unpack_one-emit v calls (emit_pairs es ++ rest) sv fv (omega (arith, le)) in
      let later = unpack_pairs-emit es calls rest se fe keys numbers (omega (arith, le)) in
      rw
        (
          append_assoc (emit k) (emit v ++ emit_pairs es) rest,
          append_assoc (emit v) (emit_pairs es) rest,
          first,
          key,
          second,
          number,
          later,
        )
        refl

unpack_all_lem :
    (calls : ℕ) (stream : List ℕ)
    → 1 ≤ length stream
    → unpack_all (suc calls) stream ≡ (
        unpack_one calls stream then_do λ (v, rest).
        unpack_all calls rest then_do λ vs. got (v ∷ vs))
unfolding unpack_all
unpack_all_lem calls [] le = absurd (omega (arith, le))
unpack_all_lem calls (b ∷ stream) le = refl

unpack_all-emit_all :
    (ws : List Value) (calls : ℕ)
    → all_packable ws ≡ true
    → AllFit ws
    → 2 * length (emit_all ws) + 1 ≤ calls
    → unpack_all calls (emit_all ws) ≡ got ws
unfolding unpack_all
unpack_all-emit_all ws zero ok f le = absurd (omega (arith, le))
unpack_all-emit_all [] (suc calls) ok f le = refl
unpack_all-emit_all (w ∷ ws) (suc calls) ok (fw, fs) le =
    let (good, ok') = and_both (packable w) (all_packable ws) ok in
    let (sw, low) = and_both (supported w) (leb (height w) max_depth) good in
    let some_bytes = emit-some_bytes w sw fw in
    let total = length-append (emit w) (emit_all ws) in
    let first = unpack_one-emit w calls (emit_all ws) sw fw (omega (arith, le)) in
    let later = unpack_all-emit_all ws calls ok' fs (omega (arith, le)) in
    let more = unpack_all_lem calls (emit w ++ emit_all ws) (omega arith) in
    rw (more, first, later) refl

-- Where no number is longer than 64 bits, no string or array has 2 ^ 31 parts, no key of a table is nil,
-- no key NaN, and the values pack into fewer than 2 ^ 31 bytes, whatever `luaseri_pack` packs
-- `luaseri_unpack` gives back: exactly the values that were packed, less the pairs of a table whose keys
-- are indices of its array, and with a table in the place of one with a metamethod, with its pairs
-- before a key nil. The calls that are counted suffice. Where a value cannot be packed, there is nothing to
-- unpack.
pub luaseri_unpack-luaseri_pack :
    (vs : List Value)
    → AllFit vs
    → length (emit_all (plain_all vs)) < 2 ^ 31
    → (luaseri_pack vs >>= λ bytes. some (luaseri_unpack bytes))
      ≡ (if all_packable (plain_all vs) then some (got (plain_all vs)) else none)
unfolding luaseri_unpack
luaseri_unpack-luaseri_pack vs f lt = elim (Bool-cases (all_packable (plain_all vs))) [
  | inl ok ↦
      let bytes = emit_all (plain_all vs) in
      let back =
        unpack_all-emit_all (plain_all vs) (2 * length bytes + 2) ok (plain_all-AllFit vs f)
          (omega arith) in
      rw (luaseri_pack_bytes vs f lt, ok, back) refl
  | inr bad ↦ rw (luaseri_pack_bytes vs f lt, bad) refl
]
