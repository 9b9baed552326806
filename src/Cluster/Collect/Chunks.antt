-- ===== src/Cluster/Collect/Chunks.antt =====
-- A size and the strings behind it, as `l_append` and `l_concat` of luaclib-src/lua-cluster.cpp keep them.
use skynet.Base.{
  ℕ, suc, ◌+◌, ◌-◌, ◌^◌, ◌<◌, ◌≡◌, refl, ap, ◌∙◌, arith, some, List, [], ◌∷◌, ◌++◌, map, joined,
  joined-append, length, length-append, append_assoc, append-nil, ltb, leb, ◌==◌, true, false,
}
use skynet.Base.Result.{got}
use skynet.Cluster.Wire.{multi_part}
use skynet.Cluster.Request.{parts_of}
use skynet.Cluster.Collect.{Entry, size, chunk, append, concat, concat_loop}

unfoldable pub chunks : List (List ℕ) → List Entry
chunks cs = map chunk cs

concat_loop-chunks :
    (sz : ℕ) (buff : List ℕ) (cs : List (List ℕ))
    → length buff + length (joined cs) ≡ sz
    → concat_loop sz buff (chunks cs) ≡ got (buff ++ joined cs)
unfolding concat_loop chunks
concat_loop-chunks sz buff [] e =
    let whole : (length buff == sz) ≡ true = ground (arith, e) in rw (whole, append-nil buff) refl
concat_loop-chunks sz buff (c ∷ cs) e =
    let total = length-append c (joined cs) in
    let fits : ltb sz (length c + length buff) ≡ false = ground (arith, e, total) in
    let rest =
      concat_loop-chunks sz (buff ++ c) cs (omega (arith, e, total, length-append buff c)) in
    rw (fits, rest, append_assoc buff c (joined cs)) refl

-- `l_concat` gives the strings behind the size, if it is theirs.
pub concat-chunks :
    (cs : List (List ℕ))
    → length (joined cs) < 2 ^ 31
    → concat (size (length (joined cs)) ∷ chunks cs) ≡ got (joined cs)
unfolding concat
concat-chunks cs lt =
    let positive : leb (2 ^ 31) (length (joined cs)) ≡ false = ground (arith, lt) in
    rw positive (concat_loop-chunks (length (joined cs)) [] cs (omega arith))

pub chunks-append :
    (cs : List (List ℕ)) (str : List ℕ) → chunks cs ++ chunk str ∷ [] ≡ chunks (cs ++ str ∷ [])
unfolding chunks
chunks-append [] str = refl
chunks-append (c ∷ cs) str = ap (λ t. chunk c ∷ t) (chunks-append cs str)

pub append-chunks :
    (n sz : ℕ) (cs : List (List ℕ)) (str : List ℕ)
    → append (size n ∷ chunks cs) (some str) sz ≡ size n ∷ chunks (cs ++ str ∷ [])
unfolding append
append-chunks n sz cs str = ap (λ t. size n ∷ t) (chunks-append cs str)

pub joined-last :
    (cs : List (List ℕ)) (str rest : List ℕ)
    → joined (cs ++ str ∷ []) ++ rest ≡ joined cs ++ (str ++ rest)
joined-last cs str rest =
    ap (λ l. l ++ rest) (joined-append cs (str ∷ []) ∙ ap (λ l. joined cs ++ l) (append-nil str))
    ∙ append_assoc (joined cs) str rest

-- One part less to come.
pub fewer_parts :
    (len len' n : ℕ)
    → parts_of len ≡ suc n
    → multi_part < len
    → len' ≡ len - multi_part
    → parts_of len' ≡ n
fewer_parts len len' n count more e = omega (arith, count, more, e)
