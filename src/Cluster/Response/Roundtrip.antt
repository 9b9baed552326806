-- ===== src/Cluster/Response/Roundtrip.antt =====
-- A response that was packed by `l_packresponse` of luaclib-src/lua-cluster.cpp, where it arrives.
use skynet.Base.{
  ℕ, zero, suc, ◌+◌, ◌^◌, ◌≤◌, ◌<◌, ◌≡◌, refl, sym, ap, subst, ◌∙◌, arith, List, [], ◌∷◌, ◌++◌,
  joined, length, take, drop, length-take, length-drop, take-all, take-drop, append-nil, ltb, ◌==◌,
  Bool, true, false, Bool-cases, inl, inr, if◌then◌else◌,
}
use skynet.Base.Result.{Result, got, invalid, ◌then_do◌}
use skynet.Cluster.Wire.{
  temp_length, multi_part, fill_uint32, in_package, in_package_lem, unpack_uint32-fill_uint32,
  content_of, content_of-in_package,
}
use skynet.Cluster.Request.{parts_of, part_size}
use skynet.Cluster.Request.Contents.{length-fill_uint32, length-last, drop-fill_uint32, last_uint32}
use skynet.Cluster.Collect.{size, concat}
use skynet.Cluster.Collect.Chunks.{chunks, concat-chunks, chunks-append, joined-last, fewer_parts}
use skynet.Cluster.Response.{
  Reply, one, several, pack_reply, pack_parts, packresponse, Response, no_response, response,
  response_size, unpack_body, unpackresponse, last_part, result_of,
}

abbrev pub strings : Reply → List (List ℕ)
strings (one p) = p ∷ []
strings (several ps) = ps

-- A response of another session is none of this thread's.
abbrev of_thread : ℕ → Response → Result Response
of_thread s no_response = invalid
of_thread s (response session ok text padding) =
    if session == s then got (response session ok text padding) else invalid
of_thread s (response_size session sz) =
    if session == s then got (response_size session sz) else invalid

abbrev read : ℕ → List ℕ → Result Response
read session p = content_of p then_do λ c. unpackresponse c then_do λ r. of_thread session r

-- The packages, read one after the other.
abbrev pub read_all : ℕ → List (List ℕ) → Result (List Response)
read_all session [] = got []
read_all session (p ∷ ps) =
    read session p then_do λ r. read_all session ps then_do λ rs. got (r ∷ rs)

-- A package of this content is read as this response.
abbrev ReadsAs : ℕ → Result (List ℕ) → Response → Type 0
ReadsAs session packing r = (p : List ℕ) × (packing ≡ got p) × (read session p ≡ got r)

in_package-ReadsAs :
    (session sz : ℕ) (body : List ℕ) (r : Response)
    → session < 2 ^ 32
    → length body + 4 ≡ sz
    → 1 ≤ length body
    → sz + 2 ≤ temp_length
    → unpack_body session body ≡ got r
    → of_thread session r ≡ got r
    → ReadsAs session (in_package sz (fill_uint32 session ++ body)) r
in_package-ReadsAs session sz body r fits e some_bytes le reads own =
    let size_of = length-fill_uint32 session body in
    let content = fill_uint32 session ++ body in
    let whole : length content ≡ sz = omega (arith, size_of, e) in
    let (p, same, frames) = in_package_lem sz content whole le in
    let opened : content_of p ≡ got content =
      subst (λ x. (x then_do λ p. content_of p) ≡ got content) same
        (content_of-in_package sz content whole le) in
    let long : ltb (length content) 5 ≡ false = ground (arith, size_of, some_bytes) in
    let unpacked : unpackresponse content ≡ got r =
      unfold unpackresponse in
      rw (long, unpack_uint32-fill_uint32 session body fits, drop-fill_uint32 session body) reads in
    (p, same, rw (opened, unpacked) own)

text-ReadsAs :
    (session type : ℕ) (str : List ℕ) (ok padding : Bool)
    → session < 2 ^ 32
    → length str ≤ multi_part
    → unpack_body session (type ∷ str) ≡ got (response session ok str padding)
    → ReadsAs session (pack_reply session type str) (response session ok str padding)
unfolding pack_reply
text-ReadsAs session type str ok padding fits le reads =
    let same : (session == session) ≡ true = ground arith in
    in_package-ReadsAs session (length str + 5) (type ∷ str) (response session ok str padding) fits
      (omega arith) (omega arith) (omega (arith, le)) reads (rw same refl)

size-ReadsAs :
    (session sz : ℕ)
    → session < 2 ^ 32
    → sz < 2 ^ 32
    → ReadsAs session
        (in_package 9 (fill_uint32 session ++ 2 ∷ fill_uint32 sz))
        (response_size session sz)
size-ReadsAs session sz fits small =
    let same : (session == session) ≡ true = ground arith in
    let four = length-last sz in
    let exact : (length (fill_uint32 sz) == 4) ≡ true = ground (arith, four) in
    in_package-ReadsAs session 9 (2 ∷ fill_uint32 sz) (response_size session sz) fits
      (omega (arith, four)) (omega arith) (omega arith)
      (unfold unpack_body in rw (exact, last_uint32 sz small) refl) (rw same refl)

part_responses : ℕ → ℕ → List ℕ → List Response
part_responses zero session ptr = []
part_responses (suc n) session ptr =
    response session true (take (part_size ptr) ptr) (ltb multi_part (length ptr))
    ∷ part_responses n session (drop (part_size ptr) ptr)

-- One part.
part-ReadsAs :
    (session : ℕ) (ptr : List ℕ)
    → session < 2 ^ 32
    → ReadsAs session
        (pack_reply session
          (if ltb multi_part (length ptr) then 3 else 4)
          (take (part_size ptr) ptr))
        (response session true (take (part_size ptr) ptr) (ltb multi_part (length ptr)))
unfolding part_size
part-ReadsAs session ptr fits = elim (Bool-cases (ltb multi_part (length ptr))) [
  | inl more ↦
      let le : length (take multi_part ptr) ≤ multi_part =
        omega (arith, length-take multi_part ptr) in
      rw more (
        text-ReadsAs session 3 (take multi_part ptr) true true fits le (unfold unpack_body in refl))
  | inr last ↦
      let le : length (take (length ptr) ptr) ≤ multi_part =
        ground (arith, last, length-take (length ptr) ptr) in
      rw last (
        text-ReadsAs session 4 (take (length ptr) ptr) true false fits le
          (unfold unpack_body in refl))
]

pack_parts_lem :
    (n session : ℕ) (ptr : List ℕ)
    → session < 2 ^ 32
    → (ps : List (List ℕ)) × (pack_parts n session ptr ≡ got ps)
      × (read_all session ps ≡ got (part_responses n session ptr))
unfolding pack_parts part_responses
pack_parts_lem zero session ptr fits = ([], refl, refl)
pack_parts_lem (suc n) session ptr fits =
    let (p, first, reads) = part-ReadsAs session ptr fits in
    let (ps, later, reads') = pack_parts_lem n session (drop (part_size ptr) ptr) fits in
    (p ∷ ps, rw (first, later) refl, rw (reads, reads') refl)

-- The parts, behind those that were kept.
result_of-parts :
    (n session : ℕ) (ptr msg : List ℕ) (cs : List (List ℕ))
    → parts_of (length ptr) ≡ n
    → joined cs ++ ptr ≡ msg
    → length msg < 2 ^ 31
    → result_of (size (length msg) ∷ chunks cs) (part_responses n session ptr) ≡ got (true, msg)
unfolding part_responses part_size result_of last_part
result_of-parts zero session ptr msg cs count e lt = absurd (omega (arith, count))
result_of-parts (suc n) session ptr msg cs count e lt =
    elim (Bool-cases (ltb multi_part (length ptr))) [
      | inl more ↦
          let str = take multi_part ptr in
          let ptr' = drop multi_part ptr in
          let left =
            fewer_parts (length ptr) (length ptr') n count (ground (arith, more))
              (length-drop multi_part ptr) in
          let e' : joined (cs ++ str ∷ []) ++ ptr' ≡ msg =
            joined-last cs str ptr' ∙ ap (λ l. joined cs ++ l) (take-drop multi_part ptr) ∙ e in
          rw (more, chunks-append cs str)
            (result_of-parts n session ptr' msg (cs ++ str ∷ []) left e' lt)
      | inr last ↦
          let all : take (length ptr) ptr ≡ ptr = take-all (length ptr) ptr (omega arith) in
          let e' : joined (cs ++ ptr ∷ []) ≡ msg =
            sym (append-nil (joined (cs ++ ptr ∷ [])))
            ∙ joined-last cs ptr []
            ∙ ap (λ l. joined cs ++ l) (append-nil ptr)
            ∙ e in
          let whole : concat (size (length msg) ∷ chunks (cs ++ ptr ∷ [])) ≡ got msg =
            subst (λ l. concat (size (length l) ∷ chunks (cs ++ ptr ∷ [])) ≡ got l) e'
              (concat-chunks (cs ++ ptr ∷ []) (subst (λ l. length l < 2 ^ 31) (sym e') lt)) in
          rw (last, all, chunks-append cs ptr, whole) refl
    ]

-- A response in one package.
one_lem :
    (session : ℕ) (packing : Result (List ℕ)) (ok : Bool) (str : List ℕ)
    → ReadsAs session packing (response session ok str false)
    → ((packing then_do λ p. got (one p)) then_do λ reply.
        read_all session (strings reply) then_do λ rs. result_of [] rs)
      ≡ got (ok, str)
unfolding result_of last_part
one_lem session packing true str (p, same, reads) = rw (same, reads) refl
one_lem session packing false str (p, same, reads) = rw (same, reads) refl

several_lem :
    (session : ℕ) (msg : List ℕ)
    → session < 2 ^ 32
    → length msg < 2 ^ 31
    → ((in_package 9 (fill_uint32 session ++ 2 ∷ fill_uint32 (length msg)) then_do λ begin.
          pack_parts (parts_of (length msg)) session msg then_do λ parts.
          got (several (begin ∷ parts)))
        then_do λ reply. read_all session (strings reply) then_do λ rs. result_of [] rs)
      ≡ got (true, msg)
unfolding result_of chunks
several_lem session msg fits lt =
    let (p, first, reads) = size-ReadsAs session (length msg) fits (omega (arith, lt)) in
    let (ps, later, reads') = pack_parts_lem (parts_of (length msg)) session msg fits in
    rw (first, later, reads, reads')
      (result_of-parts (parts_of (length msg)) session msg msg [] refl refl lt)

-- Of a message of fewer than 2 ^ 31 bytes `l_packresponse` makes packages that are read, with their headers
-- and the session, as the message itself, whole, however many parts it has; of an error message, as its
-- first MULTI_PART bytes. No assert fails and nothing is written behind the buffer.
pub response_arrives :
    (session : ℕ) (ok : Bool) (msg : List ℕ)
    → session < 2 ^ 32
    → length msg < 2 ^ 31
    → (packresponse session ok msg then_do λ reply.
        read_all session (strings reply) then_do λ rs. result_of [] rs)
      ≡ got (ok, if ok then msg else take multi_part msg)
unfolding packresponse
response_arrives session true msg fits lt = elim (Bool-cases (ltb multi_part (length msg))) [
  | inl large ↦ rw large (several_lem session msg fits lt)
  | inr small ↦
      let le : length msg ≤ multi_part = ground (arith, small) in
      rw small (
        one_lem session _ true msg
          (text-ReadsAs session 1 msg true false fits le (unfold unpack_body in refl)))
]
response_arrives session false msg fits lt = elim (Bool-cases (ltb multi_part (length msg))) [
  | inl large ↦
      let le : length (take multi_part msg) ≤ multi_part =
        omega (arith, length-take multi_part msg) in
      rw large (
        one_lem session _ false (take multi_part msg) (
          text-ReadsAs session 0 (take multi_part msg) false false fits le
            (unfold unpack_body in refl)))
  | inr small ↦
      let le : length msg ≤ multi_part = ground (arith, small) in
      rw (small, take-all multi_part msg le)
        (one_lem session _ false msg
          (text-ReadsAs session 0 msg false false fits le (unfold unpack_body in refl)))
]
