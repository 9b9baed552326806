-- ===== src/Service/Names/Find.antt =====
-- The binary searches of `find_by_name` and `_insert_name`
-- (skynet-src/service/service_manager.cpp): on sorted names they end, and agree with a scan.
use Prim.Native.Nat.{Ordering}
use native.Mathlib.Decide.{ℕ_discrete, dec_lt}
use skynet.Base.{
  ℕ, zero, suc, ◌+◌, ◌-◌, ◌/◌, ◌≤◌, ◌<◌, ◌≡◌, refl, sym, inl, inr, Option, none, some, List, arith,
  ltb, true,
}
use skynet.Service.Name.{
  Name, compare_names, compare_names-eq, compare_names-lt, compare_names-gt, compare_names-lt_trans,
}
use skynet.Service.Names.{
  HandleName, Names, Search, found, missing, narrow, stop_or, search, search_all, handle_of,
  find_by_name,
}
use skynet.Service.Names.Sorted.{
  Ordering-cases, key, IsSorted, lookup-none, lookup-at, IsAbsent, IsValid, handle_named,
}

abbrev pub Below : List HandleName → Name → ℕ → Type 0
Below a k b = (i : ℕ) → i < b → compare_names (key a i) k ≡ Ordering.lt

abbrev pub Above : List HandleName → Name → ℕ → ℕ → Type 0
Above a k b n = (i : ℕ) → b ≤ i → i < n → compare_names (key a i) k ≡ Ordering.gt

-- What the end of a search for `k` among the first n entries says.
abbrev pub Located : List HandleName → ℕ → Name → Search → Type 0
Located a n k (found i) = (i < n) × (key a i ≡ k)
Located a n k (missing b) = (b ≤ n) × Below a k b × Above a k b n

module _ (a : List HandleName) (n : ℕ) (k : Name) (sorted : IsSorted a n) where
  Below-mid : (mid : ℕ) → mid < n → compare_names (key a mid) k ≡ Ordering.lt → Below a k (mid + 1)
  Below-mid mid lt c i h = elim (ℕ_discrete i mid) [
    | yes e ↦ rw e c
    | no ne ↦ compare_names-lt_trans (key a i) (key a mid) k (sorted i mid (omega arith) lt) c
  ]

  Above-mid : (mid : ℕ) → mid < n → compare_names (key a mid) k ≡ Ordering.gt → Above a k mid n
  Above-mid mid lt c i ge h = elim (ℕ_discrete i mid) [
    | yes e ↦ rw e c
    | no ne ↦ compare_names-lt k (key a i) (
        compare_names-lt_trans k (key a mid) (key a i) (compare_names-gt (key a mid) k c)
          (sorted mid i (omega arith) h))
  ]

  search-Located :
      (fuel begin stop : ℕ)
      → begin ≤ stop
      → stop ≤ n
      → stop - begin < fuel
      → Below a k begin
      → Above a k stop n
      → (s : Search) × (search fuel a k begin stop ≡ some s) × Located a n k s
  unfolding search narrow stop_or
  search-Located zero begin stop le top enough below above = absurd (omega arith)
  search-Located (suc fuel) begin stop le top enough below above =
      let mid : ℕ = (begin + stop - 1) / 2 in
      elim (ℕ_discrete begin stop) [
        | yes e ↦
            (missing begin, ground arith, (omega arith, below, λ i ge h. above i (omega arith) h))
        | no ne ↦
            let runs : ltb begin stop ≡ true = ground arith in
            elim (Ordering-cases (compare_names (key a mid) k)) [
              | inl e ↦
                  rw (runs, e)
                    (search-Located fuel (mid + 1) stop (omega arith) top (omega arith)
                      (Below-mid mid (omega arith) e) above)
              | inr (inl e) ↦
                  rw (runs, e) (found mid, refl, (omega arith, compare_names-eq (key a mid) k e))
              | inr (inr e) ↦
                  rw (runs, e)
                    (search-Located fuel begin mid (omega arith) (omega arith) (omega arith) below
                      (Above-mid mid (omega arith) e))
            ]
      ]

pub search_all-Located :
    (ns : Names) (k : Name)
    → IsValid ns
    → (s : Search) × (search_all ns k ≡ some s) × Located ns.name ns.name_count k s
unfolding search_all
search_all-Located ns k v =
    search-Located ns.name ns.name_count k v.sorted (suc ns.name_count) 0 ns.name_count
      (omega arith) (omega arith) (omega arith) (λ i h. absurd (omega arith))
      (λ i ge h. absurd (omega arith))

pub missing-IsAbsent :
    (a : List HandleName) (n : ℕ) (k : Name) (b : ℕ) → Located a n k (missing b) → IsAbsent a n k
missing-IsAbsent a n k b (le, below, above) i h c = elim (dec_lt i b) [
  | yes lt ↦ ground (arith, below i lt)
  | no ge ↦ ground (arith, above i (omega arith) h)
]

abbrev pub handle_or_zero : Option ℕ → ℕ
handle_or_zero none = 0
handle_or_zero (some h) = h

-- On valid names `find_by_name` ends, and returns what a scan of the entries for the name returns, 0
-- if there is none.
pub find_by_name_lem :
    (ns : Names) (k : Name)
    → IsValid ns
    → find_by_name ns k ≡ some (handle_or_zero (handle_named ns k))
unfolding find_by_name handle_of
find_by_name_lem ns k v = let (s, e, l) = search_all-Located ns k v in rw e (result s l)
  where
    a : List HandleName
    a = ns.name

    result :
        (s : Search)
        → Located a ns.name_count k s
        → handle_of a (some s) ≡ some (handle_or_zero (handle_named ns k))
    result (found i) (lt, eq) = rw (sym eq, lookup-at a ns.name_count i v.sorted lt) refl
    result (missing b) l =
        rw (lookup-none a ns.name_count k (missing-IsAbsent a ns.name_count k b l)) refl
