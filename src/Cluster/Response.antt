-- ===== src/Cluster/Response.antt =====
-- `l_packresponse` and `l_unpackresponse` of luaclib-src/lua-cluster.cpp, and how the socket channel of
-- lualib/skynet/socket_channel.lua puts the parts of a response together.
pub mod Roundtrip
use skynet.Base.{
  ℕ, zero, suc, ◌+◌, ◌-◌, ◌*◌, ◌/◌, ◌^◌, Option, none, some, List, [], ◌∷◌, ◌++◌, length, take,
  drop, ltb, leb, ◌==◌, ◌&&◌, ◌||◌, not, Bool, true, false, if◌then◌else◌,
}
use skynet.Base.Result.{Result, got, invalid, outside, ◌then_do◌}
use skynet.Cluster.Wire.{multi_part, fill_uint32, in_package, unpack_uint32}
use skynet.Cluster.Request.{parts_of, part_size}
use skynet.Cluster.Collect.{Entry, size, chunk, concat}

-- What `l_packresponse` returns: a string or a table of strings.
pub data Reply : Type 0 where
  one : List ℕ → Reply
  several : List (List ℕ) → Reply

-- A package of this type.
unfoldable pub pack_reply : ℕ → ℕ → List ℕ → Result (List ℕ)
pack_reply session type str = in_package (length str + 5) (fill_uint32 session ++ type ∷ str)

-- The loop over the parts.
unfoldable pub pack_parts : ℕ → ℕ → List ℕ → Result (List (List ℕ))
pack_parts zero session ptr = got []
pack_parts (suc n) session ptr =
    pack_reply session (if ltb multi_part (length ptr) then 3 else 4) (take (part_size ptr) ptr)
    then_do λ first.
        pack_parts n session (drop (part_size ptr) ptr) then_do λ later. got (first ∷ later)

unfoldable pub packresponse : ℕ → Bool → List ℕ → Result Reply
packresponse session ok msg =
    let large = ltb multi_part (length msg) in
    if not ok
    then (pack_reply session 0 (if large then take multi_part msg else msg) then_do λ p.
        got (one p))
    else if large
    then (in_package 9 (fill_uint32 session ++ 2 ∷ fill_uint32 (length msg)) then_do λ begin.
        pack_parts (parts_of (length msg)) session msg then_do λ parts.
        got (several (begin ∷ parts)))
    else (pack_reply session 1 msg then_do λ p. got (one p))

-- What `l_unpackresponse` returns: nothing, a session with a text and a flag, or with a size.
pub data Response : Type 0 where
  no_response : Response
  response : ℕ → Bool → List ℕ → Bool → Response
  response_size : ℕ → ℕ → Response

unfoldable pub unpack_body : ℕ → List ℕ → Result Response
unpack_body session [] = outside
unpack_body session (type ∷ msg) =
    if type == 0
    then got (response session false msg false)
    else if type == 1 || type == 4
    then got (response session true msg false)
    else if type == 2
    then (if not (length msg == 4)
        then got no_response
        else (unpack_uint32 msg then_do λ sz. got (response_size session sz)))
    else if type == 3
    then got (response session true msg true)
    else got no_response

unfoldable pub unpackresponse : List ℕ → Result Response
unpackresponse buf =
    if ltb (length buf) 5
    then got no_response
    else (unpack_uint32 buf then_do λ session. unpack_body session (drop 4 buf))

-- The end of a response: a text alone, or the last of the parts that were kept before it.
unfoldable pub last_part : List Entry → Bool → List ℕ → Result (Bool × List ℕ)
last_part [] ok text = got (ok, text)
last_part (e ∷ kept) ok text =
    let parts = concat ((e ∷ kept) ++ chunk text ∷ []) then_do λ msg. got (true, msg) in
    if ok then parts else got (false, text)

-- The branch of dispatch_by_session for the session of a thread, for the responses of that session one
-- after the other; `cluster_sender.lua` concatenates a table. Where responses are missing it is invalid.
unfoldable pub result_of : List Entry → List Response → Result (Bool × List ℕ)
result_of kept (response session true text true ∷ rs) = result_of (kept ++ chunk text ∷ []) rs
result_of kept (response session ok text padding ∷ rs) = last_part kept ok text
result_of kept (response_size session sz ∷ rs) = result_of (kept ++ size sz ∷ []) rs
result_of kept rs = invalid
