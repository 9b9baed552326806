-- ===== src/Cluster/Collect.antt =====
-- `l_append` and `l_concat` of luaclib-src/lua-cluster.cpp, and the parts of a large request as
-- service/cluster_agent.lua keeps them until the last.
pub mod Chunks
use skynet.Base.{
  ℕ, zero, suc, ◌+◌, ◌-◌, ◌^◌, Option, none, some, List, [], ◌∷◌, ◌++◌, length, ltb, leb, ◌==◌, not,
  Bool, true, false, if◌then◌else◌,
}
use skynet.Base.Result.{Result, got, invalid, outside, ◌then_do◌}
use skynet.Cluster.Request.{Address, Unpacked, request, multi_request, request_part, trace_tag}

-- An element of the table: a size, or a string.
pub data Entry : Type 0 where
  size : ℕ → Entry
  chunk : List ℕ → Entry

-- `l_append`, with a pointer or with nil.
unfoldable pub append : List Entry → Option (List ℕ) → ℕ → List Entry
append t none sz = t ++ size sz ∷ []
append t (some buffer) sz = t ++ chunk buffer ∷ []

-- The loop of `l_concat`: what is in `buff`, of which `offset` is the length.
unfoldable pub concat_loop : ℕ → List ℕ → List Entry → Result (List ℕ)
concat_loop sz buff (chunk str ∷ t) =
    let rest = concat_loop sz (buff ++ str) t in
    if ltb sz (length str + length buff) then invalid else rest
concat_loop sz buff t = if not (length buff == sz) then invalid else got buff

-- `l_concat`: invalid where it returns nothing, outside where there is no array of a negative size.
unfoldable pub concat : List Entry → Result (List ℕ)
concat (size sz ∷ t) = if leb (2 ^ 31) sz then outside else concat_loop sz [] t
concat t = invalid

-- An element of large_request; a part without a request before it has no address.
pub record LargeRequest : Type 0 where
  pub addr : Option Address
  pub is_push : Bool
  pub req : List Entry

-- large_request, by the session.
abbrev pub Large : Type 0
Large = ℕ → Option LargeRequest

unfoldable pub store : Large → ℕ → Option LargeRequest → Large
store large session req other = if other == session then req else large other

-- What `dispatch_request` does with a request: it keeps a part, or has the message of a request, or has
-- none of it, or `l_concat` throws.
pub data Event : Type 0 where
  kept : Event
  delivered : Option Address → ℕ → List ℕ → Bool → Event
  invalid_large thrown : ℕ → Event

unfoldable pub append_to :
    Option LargeRequest → Option Address → Bool → Option (List ℕ) → ℕ → LargeRequest
append_to none addr is_push msg sz = record {
  addr = addr;
  is_push = is_push;
  req = append [] msg sz;
}
append_to (some r) addr is_push msg sz = record r { req = append r.req msg sz }

unfoldable pub conclude : ℕ → LargeRequest → Result (List ℕ) → Event
conclude session r (got msg) = delivered r.addr session msg r.is_push
conclude session r outside = thrown session
conclude session r failed = invalid_large session

-- The last part, or a request that has only one.
unfoldable pub finish : Option LargeRequest → Option Address → ℕ → List ℕ → Bool → Event
finish none addr session msg is_push = delivered addr session msg is_push
finish (some r) addr session msg is_push = conclude session r (concat (append r.req (some msg) 0))

unfoldable pub dispatch_request : Large → Unpacked → Large × Event
dispatch_request large (trace_tag tag) = (large, kept)
dispatch_request large (multi_request addr session sz is_push) =
    (store large session (some (append_to (large session) (some addr) is_push none sz)), kept)
dispatch_request large (request_part session msg true) =
    (store large session (some (append_to (large session) none false (some msg) 0)), kept)
dispatch_request large (request_part session msg false) =
    (store large session none, finish (large session) none session msg false)
dispatch_request large (request addr session msg is_push) =
    (store large session none, finish (large session) (some addr) session msg is_push)
