-- ===== src/Cluster/Request.antt =====
-- `packrequest`, `l_packtrace` and `l_unpackrequest` of luaclib-src/lua-cluster.cpp.
pub mod Contents
pub mod Heads
pub mod Packages
pub mod Arrivals
pub mod Roundtrip
use Prim.Native.Nat.{bit_and}
use skynet.Base.{
  ℕ, zero, suc, ◌+◌, ◌-◌, ◌*◌, ◌/◌, ◌%◌, ◌^◌, Option, none, some, List, [], ◌∷◌, ◌++◌, length, take,
  drop, ltb, leb, ◌==◌, ◌||◌, not, Bool, true, false, if◌then◌else◌,
}
use skynet.Base.Result.{Result, got, invalid, outside, ◌then_do◌}
use skynet.Cluster.Wire.{multi_part, fill_uint32, in_package, unpack_uint32}

-- What Lua gives for the address of a service: a number or a string.
pub data Address : Type 0 where
  id : ℕ → Address
  named : List ℕ → Address

-- What `packreq_number` and `packreq_string` give: the string, and the number of parts. The session is an int.
pub record Head : Type 0 where
  pub text : List ℕ
  pub multipak : ℕ

abbrev head_of : ℕ → Result (List ℕ) → Result Head
head_of multipak r = r then_do λ text. got (record { text = text; multipak = multipak })

abbrev pub parts_of : ℕ → ℕ
parts_of sz = (sz - 1) / multi_part + 1

unfoldable pub packreq_number : ℕ → ℕ → List ℕ → Bool → Result Head
packreq_number addr session msg is_push =
    let sz = length msg in
    if ltb sz multi_part
    then head_of 0 (
        in_package (sz + 9)
          (0 ∷ (fill_uint32 addr ++ (fill_uint32 (if is_push then 0 else session) ++ msg))))
    else head_of (parts_of sz) (
        in_package 13 (
          (if is_push then 0x41 else 1)
          ∷ (fill_uint32 addr ++ (fill_uint32 session ++ fill_uint32 sz))))

unfoldable pub packreq_string : List ℕ → ℕ → List ℕ → Bool → Result Head
packreq_string name session msg is_push =
    let sz = length msg in
    let namelen = length name in
    if ltb namelen 1 || ltb 255 namelen
    then invalid
    else if ltb sz multi_part
    then head_of 0 (
        in_package (sz + 6 + namelen)
          (0x80 ∷ namelen ∷ (name ++ (fill_uint32 (if is_push then 0 else session) ++ msg))))
    else head_of (parts_of sz) (
        in_package (10 + namelen) (
          (if is_push then 0xc1 else 0x81)
          ∷ namelen
          ∷ (name ++ (fill_uint32 session ++ fill_uint32 sz))))

-- One round of `packreq_multi`: the size of the part and its string.
unfoldable pub part_size : List ℕ → ℕ
part_size ptr = if ltb multi_part (length ptr) then multi_part else length ptr

unfoldable pub pack_part : ℕ → List ℕ → Result (List ℕ)
pack_part session ptr = in_package (part_size ptr + 5) (
    (if ltb multi_part (length ptr) then 2 else 3)
    ∷ (fill_uint32 session ++ take (part_size ptr) ptr))

unfoldable pub packreq_multi : ℕ → ℕ → List ℕ → Result (List (List ℕ))
packreq_multi zero session ptr = got []
packreq_multi (suc part) session ptr = pack_part session ptr then_do λ first.
    packreq_multi part session (drop (part_size ptr) ptr) then_do λ later. got (first ∷ later)

-- What `packrequest` returns to Lua.
pub record Packed : Type 0 where
  pub text : List ℕ
  pub new_session : ℕ
  pub padding : List (List ℕ)

abbrev pack_head : Address → ℕ → List ℕ → Bool → Result Head
pack_head (id addr) session msg is_push = packreq_number addr session msg is_push
pack_head (named addr) session msg is_push = packreq_string addr session msg is_push

unfoldable pub next_session : ℕ → ℕ
next_session session = if ltb (2 ^ 31 - 1) (session + 1) then 1 else session + 1

-- A null pointer is no message.
unfoldable pub packrequest : Bool → Address → ℕ → Option (List ℕ) → Result Packed
packrequest is_push addr session none = invalid
packrequest is_push addr session (some msg) =
    if session == 0 || leb (2 ^ 31) session
    then invalid
    else (pack_head addr session msg is_push then_do λ head.
        packreq_multi head.multipak session msg then_do λ parts.
        got (record { text = head.text; new_session = next_session session; padding = parts }))

-- `l_packtrace`
unfoldable pub packtrace : List ℕ → Result (List ℕ)
packtrace tag = if ltb 0x8000 (length tag) then invalid else in_package (length tag + 1) (4 ∷ tag)

-- What `l_unpackrequest` returns to Lua, by its number of values and the one that is false or nil.
pub data Unpacked : Type 0 where
  request : Address → ℕ → List ℕ → Bool → Unpacked
  multi_request : Address → ℕ → ℕ → Bool → Unpacked
  request_part : ℕ → List ℕ → Bool → Unpacked
  trace_tag : List ℕ → Unpacked

unfoldable pub unpackreq_number : List ℕ → Result Unpacked
unpackreq_number buf =
    if ltb (length buf) 9
    then invalid
    else (unpack_uint32 (drop 1 buf) then_do λ address.
        unpack_uint32 (drop 5 buf) then_do λ session.
        got (request (id address) session (drop 9 buf) (session == 0)))

unfoldable pub unpackmreq_number : List ℕ → Bool → Result Unpacked
unpackmreq_number buf is_push =
    if not (length buf == 13)
    then invalid
    else (unpack_uint32 (drop 1 buf) then_do λ address.
        unpack_uint32 (drop 5 buf) then_do λ session. unpack_uint32 (drop 9 buf) then_do λ size.
        got (multi_request (id address) session size is_push))

unfoldable pub unpackmreq_part : Bool → List ℕ → Result Unpacked
unpackmreq_part padding buf =
    if ltb (length buf) 5
    then invalid
    else (unpack_uint32 (drop 1 buf) then_do λ session.
        got (request_part session (drop 5 buf) padding))

unfoldable pub unpackreq_string : List ℕ → Result Unpacked
unpackreq_string (type ∷ namesz ∷ buf) =
    if ltb (2 + length buf) (namesz + 6)
    then invalid
    else (unpack_uint32 (drop namesz buf) then_do λ session.
        got (request (named (take namesz buf)) session (drop (namesz + 4) buf) (session == 0)))
unpackreq_string buf = invalid

unfoldable pub unpackmreq_string : List ℕ → Bool → Result Unpacked
unpackmreq_string (type ∷ namesz ∷ buf) is_push =
    if ltb (2 + length buf) (namesz + 10)
    then invalid
    else (unpack_uint32 (drop namesz buf) then_do λ session.
        unpack_uint32 (drop (namesz + 4) buf) then_do λ size.
        got (multi_request (named (take namesz buf)) session size is_push))
unpackmreq_string buf is_push = invalid

-- `l_unpackrequest` of a string: behind an empty one stands a byte 0.
unfoldable pub unpackrequest : List ℕ → Result Unpacked
unpackrequest [] = invalid
unpackrequest (type ∷ buf) =
    let msg = type ∷ buf in
    if type == 0
    then unpackreq_number msg
    else if type == 1
    then unpackmreq_number msg false
    else if type == 0x41
    then unpackmreq_number msg true
    else if type == 2 || type == 3
    then unpackmreq_part (type == 2) msg
    else if type == 4
    then got (trace_tag buf)
    else if type == 0x80
    then unpackreq_string msg
    else if type == 0x81
    then unpackmreq_string msg false
    else if type == 0xc1
    then unpackmreq_string msg true
    else invalid

-- `l_unpackrequest` of a lightuserdata with its size, as cluster_agent.lua calls it: the first byte is
-- read also when the size is 0, and nothing then stands behind the pointer.
unfoldable pub unpackrequest_userdata : List ℕ → Result Unpacked
unpackrequest_userdata [] = outside
unpackrequest_userdata (type ∷ buf) = unpackrequest (type ∷ buf)
