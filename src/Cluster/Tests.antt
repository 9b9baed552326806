-- ===== src/Cluster/Tests.antt =====
-- A request, a response and broken packages of luaclib-src/lua-cluster.cpp.
use skynet.Base.{ℕ, ◌≡◌, ◌≢◌, ◌↔◌, refl, arith, none, some, List, [], ◌∷◌, true, false}
use skynet.Base.Result.{got, outside, ◌then_do◌}
use skynet.Cluster.Wire.{fill_uint32, in_package, unpack_uint32}
use skynet.Cluster.Request.{
  Address, named, Packed, packreq_string, packreq_multi, next_session, packrequest, unpackrequest,
  unpackrequest_userdata, unpackreq_string, unpackmreq_part,
}
use skynet.Cluster.Request.Arrivals.{received, arrivals, events_of}
use skynet.Cluster.Request.Roundtrip.{request_arrives}
use skynet.Cluster.Collect.{Large, delivered}
use skynet.Cluster.Response.{packresponse, unpackresponse, result_of}
use skynet.Cluster.Response.Roundtrip.{read_all, strings, response_arrives}
use skynet.Cluster.Bounds.{unpack_inside}

-- `db`
abbrev db : Address
db = named (100 ∷ 98 ∷ [])

abbrev a_request : Packed
a_request = record {
  text = 0 ∷ 11 ∷ 128 ∷ 2 ∷ 100 ∷ 98 ∷ 7 ∷ 0 ∷ 0 ∷ 0 ∷ 1 ∷ 2 ∷ 3 ∷ [];
  new_session = 8;
  padding = [];
}

pack_request : packrequest false db 7 (some (1 ∷ 2 ∷ 3 ∷ [])) ≡ got a_request
unfolding packrequest packreq_string in_package fill_uint32 packreq_multi next_session
pack_request = refl

-- Nothing is kept.
abbrev no_requests : Large
no_requests session = none

-- The request, between two parts of session 9.
abbrev a_history : List (List ℕ)
a_history =
    (2 ∷ 9 ∷ 0 ∷ 0 ∷ 0 ∷ 5 ∷ [])
    ∷ (128 ∷ 2 ∷ 100 ∷ 98 ∷ 7 ∷ 0 ∷ 0 ∷ 0 ∷ 1 ∷ 2 ∷ 3 ∷ [])
    ∷ (3 ∷ 9 ∷ 0 ∷ 0 ∷ 0 ∷ 6 ∷ [])
    ∷ []

request_arrives_example :
    events_of 7 (arrivals no_requests (received a_history))
    ≡ delivered (some db) 7 (1 ∷ 2 ∷ 3 ∷ []) false ∷ []
unfolding unpackrequest unpackmreq_part unpackreq_string unpack_uint32
request_arrives_example =
    request_arrives false db 7 (1 ∷ 2 ∷ 3 ∷ []) a_request pack_request (omega arith, omega arith)
      (omega arith) no_requests a_history refl refl

response_arrives_example :
    (packresponse 12 true (1 ∷ 2 ∷ []) then_do λ reply.
    read_all 12 (strings reply) then_do λ rs. result_of [] rs)
    ≡ got (true, 1 ∷ 2 ∷ [])
response_arrives_example = response_arrives 12 true (1 ∷ 2 ∷ []) (omega arith) (omega arith)

-- A name of 255 bytes in a package of 6.
abbrev short_name : List ℕ
short_name = 128 ∷ 255 ∷ 1 ∷ 2 ∷ 3 ∷ 4 ∷ []

unpack_inside_example :
    (unpackrequest short_name ≢ outside)
    × (unpackresponse short_name ≢ outside)
    × ((unpackrequest_userdata short_name ≡ outside) ↔ (short_name ≡ []))
unpack_inside_example = unpack_inside short_name (omega arith)
