-- ===== src/Cluster/Request/Contents.antt =====
-- What stands behind the header of the packages of luaclib-src/lua-cluster.cpp, and that
-- `l_unpackrequest` reads it.
use skynet.Base.{
  ℕ, suc, ◌+◌, ◌^◌, ◌≤◌, ◌<◌, ◌≡◌, refl, sym, ap, subst, ◌∙◌, arith, List, [], ◌∷◌, ◌++◌,
  append-nil, length, drop, Bool-cases, inl, inr, length-append, take-append, drop-append, ltb,
  ◌==◌, Bool, true, false, if◌then◌else◌,
}
use skynet.Base.Result.{got, invalid, ◌then_do◌}
use skynet.Cluster.Wire.{
  fill_uint32, unpack_uint32, unpack_uint32-fill_uint32, content_of, in_package_lem,
  content_of-in_package,
}
use skynet.Cluster.Request.{
  Address, id, named, request, multi_request, request_part, unpackreq_number, unpackmreq_number,
  unpackmreq_part, unpackreq_string, unpackmreq_string, unpackrequest, packtrace, trace_tag,
}

abbrev pub single : Address → ℕ → List ℕ → List ℕ
single (id addr) session msg = 0 ∷ (fill_uint32 addr ++ (fill_uint32 session ++ msg))
single (named addr) session msg = 0x80 ∷ length addr ∷ (addr ++ (fill_uint32 session ++ msg))

abbrev pub multi : Address → ℕ → ℕ → Bool → List ℕ
multi (id addr) session sz is_push =
    (if is_push then 0x41 else 1) ∷ (fill_uint32 addr ++ (fill_uint32 session ++ fill_uint32 sz))
multi (named addr) session sz is_push =
    (if is_push then 0xc1 else 0x81)
    ∷ length addr
    ∷ (addr ++ (fill_uint32 session ++ fill_uint32 sz))

abbrev pub part_content : Bool → ℕ → List ℕ → List ℕ
part_content more session str = (if more then 2 else 3) ∷ (fill_uint32 session ++ str)

-- A number is a uint32_t, a name has from 1 to 255 bytes.
abbrev pub IsAddress : Address → Type 0
IsAddress (id addr) = addr < 2 ^ 32
IsAddress (named addr) = (1 ≤ length addr) × (length addr ≤ 255)

pub length-fill_uint32 : (n : ℕ) (rest : List ℕ) → length (fill_uint32 n ++ rest) ≡ 4 + length rest
unfolding fill_uint32
length-fill_uint32 n rest = omega arith

pub drop-fill_uint32 : (n : ℕ) (rest : List ℕ) → drop 4 (fill_uint32 n ++ rest) ≡ rest
unfolding fill_uint32
drop-fill_uint32 n rest = refl

drop_two : (n m : ℕ) (rest : List ℕ) → drop 8 (fill_uint32 n ++ (fill_uint32 m ++ rest)) ≡ rest
unfolding fill_uint32
drop_two n m rest = refl

pub last_uint32 : (n : ℕ) → n < 2 ^ 32 → unpack_uint32 (fill_uint32 n) ≡ got n
last_uint32 n lt =
    ap unpack_uint32 (sym (append-nil (fill_uint32 n))) ∙ unpack_uint32-fill_uint32 n [] lt

pub length-last : (n : ℕ) → length (fill_uint32 n) ≡ 4
unfolding fill_uint32
length-last n = refl

drop_name : (addr rest : List ℕ) → drop (length addr + 4) (addr ++ rest) ≡ drop 4 rest
drop_name [] rest = refl
drop_name (x ∷ addr) rest =
    let next : suc (length addr) + 4 ≡ suc (length addr + 4) = omega arith in
    rw next (drop_name addr rest)

pub unpackrequest-single :
    (addr : Address) (session : ℕ) (msg : List ℕ)
    → IsAddress addr
    → session < 2 ^ 32
    → unpackrequest (single addr session msg) ≡ got (request addr session msg (session == 0))
unfolding unpackrequest unpackreq_number unpackreq_string
unpackrequest-single (id addr) session msg a s =
    let long : ltb (length (single (id addr) session msg)) 9 ≡ false = ground (
      arith,
      length-fill_uint32 addr (fill_uint32 session ++ msg),
      length-fill_uint32 session msg,
    ) in
    rw
      (
        long,
        unpack_uint32-fill_uint32 addr (fill_uint32 session ++ msg) a,
        drop-fill_uint32 addr (fill_uint32 session ++ msg),
        unpack_uint32-fill_uint32 session msg s,
        drop_two addr session msg,
      )
      refl
unpackrequest-single (named addr) session msg (a, b) s =
    let rest = fill_uint32 session ++ msg in
    let long : ltb (2 + length (addr ++ rest)) (length addr + 6) ≡ false =
      ground (arith, length-append addr rest, length-fill_uint32 session msg) in
    rw
      (
        long,
        drop-append addr rest,
        take-append addr rest,
        drop_name addr rest,
        drop-fill_uint32 session msg,
        unpack_uint32-fill_uint32 session msg s,
      )
      refl

number-unpackmreq :
    (type addr session sz : ℕ) (is_push : Bool)
    → addr < 2 ^ 32
    → session < 2 ^ 32
    → sz < 2 ^ 32
    → unpackmreq_number
        (type ∷ (fill_uint32 addr ++ (fill_uint32 session ++ fill_uint32 sz)))
        is_push
      ≡ got (multi_request (id addr) session sz is_push)
unfolding unpackmreq_number
number-unpackmreq type addr session sz is_push a s z =
    let rest = fill_uint32 session ++ fill_uint32 sz in
    let whole : (suc (length (fill_uint32 addr ++ rest)) == 13) ≡ true = ground (
      arith,
      length-fill_uint32 addr rest,
      length-fill_uint32 session (fill_uint32 sz),
      length-last sz,
    ) in
    rw
      (
        whole,
        unpack_uint32-fill_uint32 addr rest a,
        drop-fill_uint32 addr rest,
        unpack_uint32-fill_uint32 session (fill_uint32 sz) s,
        drop_two addr session (fill_uint32 sz),
        last_uint32 sz z,
      )
      refl

name-unpackmreq :
    (type : ℕ) (addr : List ℕ) (session sz : ℕ) (is_push : Bool)
    → session < 2 ^ 32
    → sz < 2 ^ 32
    → unpackmreq_string
        (type ∷ length addr ∷ (addr ++ (fill_uint32 session ++ fill_uint32 sz)))
        is_push
      ≡ got (multi_request (named addr) session sz is_push)
unfolding unpackmreq_string
name-unpackmreq type addr session sz is_push s z =
    let rest = fill_uint32 session ++ fill_uint32 sz in
    let long : ltb (2 + length (addr ++ rest)) (length addr + 10) ≡ false = ground (
      arith,
      length-append addr rest,
      length-fill_uint32 session (fill_uint32 sz),
      length-last sz,
    ) in
    rw
      (
        long,
        drop-append addr rest,
        take-append addr rest,
        drop_name addr rest,
        drop-fill_uint32 session (fill_uint32 sz),
        unpack_uint32-fill_uint32 session (fill_uint32 sz) s,
        last_uint32 sz z,
      )
      refl

pub unpackrequest-multi :
    (addr : Address) (session sz : ℕ) (is_push : Bool)
    → IsAddress addr
    → session < 2 ^ 32
    → sz < 2 ^ 32
    → unpackrequest (multi addr session sz is_push) ≡ got (multi_request addr session sz is_push)
unfolding unpackrequest
unpackrequest-multi (id addr) session sz true a s z =
    number-unpackmreq 0x41 addr session sz true a s z
unpackrequest-multi (id addr) session sz false a s z =
    number-unpackmreq 1 addr session sz false a s z
unpackrequest-multi (named addr) session sz true a s z =
    name-unpackmreq 0xc1 addr session sz true s z
unpackrequest-multi (named addr) session sz false a s z =
    name-unpackmreq 0x81 addr session sz false s z

part-unpackmreq :
    (type session : ℕ) (str : List ℕ) (more : Bool)
    → session < 2 ^ 32
    → unpackmreq_part more (type ∷ (fill_uint32 session ++ str))
      ≡ got (request_part session str more)
unfolding unpackmreq_part
part-unpackmreq type session str more s =
    let long : ltb (suc (length (fill_uint32 session ++ str))) 5 ≡ false =
      ground (arith, length-fill_uint32 session str) in
    rw (long, unpack_uint32-fill_uint32 session str s, drop-fill_uint32 session str) refl

pub unpackrequest-part_content :
    (more : Bool) (session : ℕ) (str : List ℕ)
    → session < 2 ^ 32
    → unpackrequest (part_content more session str) ≡ got (request_part session str more)
unfolding unpackrequest
unpackrequest-part_content true session str s = part-unpackmreq 2 session str true s
unpackrequest-part_content false session str s = part-unpackmreq 3 session str false s

-- A trace tag of at most 0x8000 bytes is read as it was packed.
pub unpackrequest-packtrace :
    (tag : List ℕ)
    → (packtrace tag then_do λ p. content_of p then_do λ c. unpackrequest c)
      ≡ (if ltb 0x8000 (length tag) then invalid else got (trace_tag tag))
unfolding packtrace
unpackrequest-packtrace tag = elim (Bool-cases (ltb 0x8000 (length tag))) [
  | inl long ↦ rw long refl
  | inr short ↦
      let (p, same, frames) =
        in_package_lem (length tag + 1) (4 ∷ tag) (omega arith) (ground (arith, short)) in
      let opened : content_of p ≡ got (4 ∷ tag) =
        subst (λ x. (x then_do λ p. content_of p) ≡ got (4 ∷ tag)) same
          (content_of-in_package (length tag + 1) (4 ∷ tag) (omega arith)
            (ground (arith, short))) in
      rw (short, same, opened) (unfold unpackrequest in refl)
]
