-- ===== src/Seri/Unpack/Fitting.antt =====
-- What is kept of a value (luaclib-src/lua-seri.cpp) has numbers and sizes as small as the value's.
use skynet.Base.{
  ℕ, suc, ◌^◌, ◌<◌, ◌≡◌, refl, sym, ap, subst, ◌∙◌, arith, Bool-cases, inl, inr, List, [], ◌∷◌,
}
use skynet.Seri.{
  is_nan, Value, Items, Pairs, table, with_metapairs, no_items, item, no_pairs, pair, count_items,
}
use skynet.Seri.Pack.{is_nil}
use skynet.Seri.Plain.{
  plain, plain_items, plain_hash, plain_metapairs, HasKeys, HasNumbers, is_index, Fits, FitItems,
  FitPairs, plain_all, AllFit,
}

count-plain_items : (xs : Items) → count_items (plain_items xs) ≡ count_items xs
unfolding count_items plain
count-plain_items no_items = refl
count-plain_items (item v xs) = ap suc (count-plain_items xs)

is_nil-plain : (k : Value) → is_nil (plain k) ≡ is_nil k
unfolding is_nil plain
is_nil-plain (table xs es) = refl
is_nil-plain (with_metapairs es) = refl
is_nil-plain _ = refl

is_nan-plain : (k : Value) → is_nan (plain k) ≡ is_nan k
unfolding is_nan plain
is_nan-plain (table xs es) = refl
is_nan-plain (with_metapairs es) = refl
is_nan-plain _ = refl

-- What holds of the pairs of a table.
abbrev AreKept : Pairs → Type 0
AreKept es = FitPairs es × HasKeys es × HasNumbers es

no_items-few : count_items no_items < 2 ^ 31
unfolding count_items
no_items-few = omega arith

mutual
  unfolding plain

  plain-Fits : (v : Value) → Fits v → Fits (plain v)
  plain-Fits (table xs es) (few, fx, fe, keys, numbers) =
      let (later, later_keys, later_numbers) =
        plain_hash-AreKept (count_items xs) es (fe, keys, numbers) in
      (
        subst (λ n. n < 2 ^ 31) (sym (count-plain_items xs)) few,
        plain-FitItems xs fx,
        later,
        later_keys,
        later_numbers,
      )
  plain-Fits (with_metapairs es) (fe, numbers) =
      let (later, later_keys, later_numbers) = plain_metapairs-AreKept es fe numbers in
      (no_items-few, tt, later, later_keys, later_numbers)
  plain-Fits v f = f

  plain-FitItems : (xs : Items) → FitItems xs → FitItems (plain_items xs)
  plain-FitItems no_items f = tt
  plain-FitItems (item v xs) (fv, fx) = (plain-Fits v fv, plain-FitItems xs fx)

  plain_hash-AreKept : (n : ℕ) (es : Pairs) → AreKept es → AreKept (plain_hash n es)
  plain_hash-AreKept n no_pairs f = (tt, tt, tt)
  plain_hash-AreKept n (pair k v es) ((fk, fv, fe), (key, keys), (number, numbers)) =
      let (later, later_keys, later_numbers) = plain_hash-AreKept n es (fe, keys, numbers) in
      elim (Bool-cases (is_index n k)) [
        | inl skip ↦ rw skip (later, later_keys, later_numbers)
        | inr keep ↦ rw keep (
          (plain-Fits k fk, plain-Fits v fv, later),
          (is_nil-plain k ∙ key, later_keys),
          (is_nan-plain k ∙ number, later_numbers),
        )
      ]

  plain_metapairs-AreKept :
      (es : Pairs) → FitPairs es → HasNumbers es → AreKept (plain_metapairs es)
  plain_metapairs-AreKept no_pairs f numbers = (tt, tt, tt)
  plain_metapairs-AreKept (pair k v es) (fk, fv, fe) (number, numbers) =
      let (later, later_keys, later_numbers) = plain_metapairs-AreKept es fe numbers in
      elim (Bool-cases (is_nil k)) [
        | inl stop ↦ rw stop (tt, tt, tt)
        | inr go ↦ rw go (
          (plain-Fits k fk, plain-Fits v fv, later),
          (is_nil-plain k ∙ go, later_keys),
          (is_nan-plain k ∙ number, later_numbers),
        )
      ]

pub plain_all-AllFit : (vs : List Value) → AllFit vs → AllFit (plain_all vs)
plain_all-AllFit [] f = tt
plain_all-AllFit (v ∷ vs) (fv, fs) = (plain-Fits v fv, plain_all-AllFit vs fs)
