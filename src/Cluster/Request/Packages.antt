-- ===== src/Cluster/Request/Packages.antt =====
-- The packages that `packrequest` of luaclib-src/lua-cluster.cpp makes: their headers and contents.
use skynet.Base.{
  ℕ, ◌^◌, ◌≤◌, ◌<◌, ◌≡◌, refl, ◌∙◌, arith, some, List, ◌∷◌, length, ltb, leb, ◌==◌, ◌&&◌, ◌||◌, not,
  Bool, true, false, Bool-cases, inl, inr, if◌then◌else◌,
}
use skynet.Base.Result.{Result, got, invalid, ◌then_do◌}
use skynet.Cluster.Wire.{multi_part}
use skynet.Cluster.Request.{
  Address, id, named, Head, parts_of, packreq_string, packreq_multi, Packed, pack_head,
  next_session, packrequest,
}
use skynet.Cluster.Request.Contents.{single, multi}
use skynet.Cluster.Request.Heads.{
  part_contents, contents, FramesAll, is_valid, Heads, packreq_number-small, packreq_number-large,
  packreq_string-small, packreq_string-large, packreq_multi_lem,
}

-- Where the arguments are right, these contents in packages and a next session that is positive as an int;
-- else an error.
pub data Accepts (cs : List (List ℕ)) : Bool → Result Packed → Type 0 where
  accepts :
      {r : Packed}
      → FramesAll cs (r.text ∷ r.padding)
      → 1 ≤ r.new_session
      → r.new_session < 2 ^ 31
      → Accepts cs true (got r)
  refuses : Accepts cs false invalid

abbrev pub good_name : Address → Bool
good_name (id addr) = true
good_name (named addr) = not (ltb (length addr) 1 || ltb 255 (length addr))

pack_head-small :
    (addr : Address) (session : ℕ) (msg : List ℕ) (is_push : Bool)
    → good_name addr ≡ true
    → ltb (length msg) multi_part ≡ true
    → Heads
        (pack_head addr session msg is_push)
        (single addr (if is_push then 0 else session) msg)
        0
pack_head-small (id addr) session msg is_push good small =
    packreq_number-small addr session msg is_push small
pack_head-small (named addr) session msg is_push good small =
    packreq_string-small addr session msg is_push (ground (arith, good)) small

pack_head-large :
    (addr : Address) (session : ℕ) (msg : List ℕ) (is_push : Bool)
    → good_name addr ≡ true
    → ltb (length msg) multi_part ≡ false
    → Heads
        (pack_head addr session msg is_push)
        (multi addr session (length msg) is_push)
        (parts_of (length msg))
pack_head-large (id addr) session msg is_push good large =
    packreq_number-large addr session msg is_push large
pack_head-large (named addr) session msg is_push good large =
    packreq_string-large addr session msg is_push (ground (arith, good)) large

next_session_lem : (session : ℕ) → (1 ≤ next_session session) × (next_session session < 2 ^ 31)
unfolding next_session
next_session_lem session = (ground arith, ground arith)

-- The request with the parts behind it.
parts-Accepts :
    (head : Result Head) (session n : ℕ) (c msg : List ℕ)
    → Heads head c n
    → Accepts (c ∷ part_contents n session msg) true (
        head then_do λ head. packreq_multi head.multipak session msg then_do λ parts.
        got (record { text = head.text; new_session = next_session session; padding = parts }))
parts-Accepts head session n c msg (p, same, frames) =
    let (ps, later, frames') = packreq_multi_lem n session msg in
    rw (same, later)
      (accepts (frames, frames') (next_session_lem session).0 (next_session_lem session).1)

refused_lem :
    (addr : Address) (session : ℕ) (msg : List ℕ) (is_push : Bool)
    → good_name addr ≡ false
    → pack_head addr session msg is_push ≡ invalid
refused_lem (id addr) session msg is_push bad = absurd (cc)
refused_lem (named addr) session msg is_push bad =
    let test : (ltb (length addr) 1 || ltb 255 (length addr)) ≡ true = ground (arith, bad) in
    unfold packreq_string in rw test refl

pub is_valid_lem :
    (addr : Address) (session : ℕ)
    → is_valid addr session ≡ (not (session == 0 || leb (2 ^ 31) session) && good_name addr)
is_valid_lem (id addr) session = ground arith
is_valid_lem (named addr) session = refl

pub packrequest-Accepts :
    (is_push : Bool) (addr : Address) (session : ℕ) (msg : List ℕ)
    → Accepts
        (contents is_push addr session msg)
        (is_valid addr session)
        (packrequest is_push addr session (some msg))
unfolding packrequest
packrequest-Accepts is_push addr session msg =
    elim (Bool-cases (session == 0 || leb (2 ^ 31) session)) [
      | inl bad ↦
          let no : is_valid addr session ≡ false =
            is_valid_lem addr session ∙ ground (arith, bad) in
          rw (no, bad) refuses
      | inr ok ↦ elim (Bool-cases (good_name addr)) [
        | inr bad ↦
            let no : is_valid addr session ≡ false =
              is_valid_lem addr session ∙ ground (arith, bad) in
            rw (no, ok, refused_lem addr session msg is_push bad) refuses
        | inl good ↦
            let yes : is_valid addr session ≡ true =
              is_valid_lem addr session ∙ ground (arith, ok, good) in
            elim (Bool-cases (ltb (length msg) multi_part)) [
              | inl small ↦
                  rw (yes, ok, small)
                    (parts-Accepts (pack_head addr session msg is_push) session 0
                      (single addr (if is_push then 0 else session) msg) msg
                      (pack_head-small addr session msg is_push good small))
              | inr large ↦
                  rw (yes, ok, large)
                    (parts-Accepts (pack_head addr session msg is_push) session
                      (parts_of (length msg)) (multi addr session (length msg) is_push) msg
                      (pack_head-large addr session msg is_push good large))
            ]
      ]
    ]
