-- ===== src/Cluster/Request/Roundtrip.antt =====
-- A message that was packed by `packrequest` of luaclib-src/lua-cluster.cpp, where it arrives.
use skynet.Base.{
  ℕ, zero, suc, ◌^◌, ◌≤◌, ◌<◌, ◌≡◌, refl, sym, ap, ap₂, subst, ◌∙◌, arith, Option, none, some, List,
  [], ◌∷◌, ◌++◌, map, joined, length, take, drop, length-drop, take-all, take-drop, append-nil, ltb,
  leb, ◌==◌, ◌&&◌, ◌||◌, Bool, true, false, Bool-cases, inl, inr, if◌then◌else◌,
}
use skynet.Base.Result.{got}
use skynet.Cluster.Wire.{multi_part}
use skynet.Cluster.Request.{Address, parts_of, part_size, Packed, packrequest}
use skynet.Cluster.Request.Contents.{
  IsAddress, single, multi, unpackrequest-single, unpackrequest-multi, unpackrequest-part_content,
}
use skynet.Cluster.Request.Heads.{contents, part_contents, is_valid, FramesAll}
use skynet.Cluster.Request.Packages.{is_valid_lem, Accepts, accepts, packrequest-Accepts}
use skynet.Cluster.Request.Arrivals.{received, of_session, arrivals, events_of, arrivals-of_session}
use skynet.Cluster.Collect.Chunks.{chunks, concat-chunks, append-chunks, joined-last, fewer_parts}
use skynet.Cluster.Collect.{
  size, append, concat, Large, LargeRequest, store, delivered, append_to, conclude, finish,
  dispatch_request,
}

-- What is kept of a request of this message, of which these parts have arrived.
abbrev waiting : Option Address → Bool → List ℕ → List (List ℕ) → LargeRequest
waiting addr is_push msg cs = record {
  addr = addr;
  is_push = is_push;
  req = size (length msg) ∷ chunks cs;
}

append-waiting :
    (addr : Option Address) (is_push : Bool) (msg str : List ℕ) (cs : List (List ℕ))
    → append_to (some (waiting addr is_push msg cs)) none false (some str) 0
      ≡ waiting addr is_push msg (cs ++ str ∷ [])
unfolding append_to
append-waiting addr is_push msg str cs =
    ap (λ t. record { addr = addr; is_push = is_push; req = t })
      (append-chunks (length msg) 0 cs str)

-- The last part.
finish-waiting :
    (addr : Option Address) (is_push : Bool) (msg str : List ℕ) (cs : List (List ℕ)) (s : ℕ)
    → joined (cs ++ str ∷ []) ≡ msg
    → length msg < 2 ^ 31
    → finish (some (waiting addr is_push msg cs)) none s str false ≡ delivered addr s msg is_push
unfolding finish conclude
finish-waiting addr is_push msg str cs s e lt =
    let same : length (joined (cs ++ str ∷ [])) ≡ length msg = ap length e in
    let whole : concat (size (length msg) ∷ chunks (cs ++ str ∷ [])) ≡ got msg =
      subst (λ l. concat (size (length l) ∷ chunks (cs ++ str ∷ [])) ≡ got l) e
        (concat-chunks (cs ++ str ∷ []) (omega (arith, same))) in
    rw (append-chunks (length msg) 0 cs str, whole) refl

store-same : (large : Large) (s : ℕ) (r : Option LargeRequest) → store large s r s ≡ r
unfolding store
store-same large s r = let same : (s == s) ≡ true = ground arith in rw same refl

parts_arrive :
    (n s : ℕ) (ptr : List ℕ) (large : Large) (addr : Option Address) (is_push : Bool) (msg : List ℕ)
    (cs : List (List ℕ))
    → s < 2 ^ 32
    → parts_of (length ptr) ≡ n
    → joined cs ++ ptr ≡ msg
    → length msg < 2 ^ 31
    → large s ≡ some (waiting addr is_push msg cs)
    → events_of s (arrivals large (received (part_contents n s ptr)))
      ≡ delivered addr s msg is_push ∷ []
unfolding dispatch_request part_size
parts_arrive zero s ptr large addr is_push msg cs fits count e lt here =
    absurd (omega (arith, count))
parts_arrive (suc n) s ptr large addr is_push msg cs fits count e lt here =
    let same : (s == s) ≡ true = ground arith in
    elim (Bool-cases (ltb multi_part (length ptr))) [
      | inl more ↦
          let str = take multi_part ptr in
          let ptr' = drop multi_part ptr in
          let cs' = cs ++ str ∷ [] in
          let left : parts_of (length ptr') ≡ n =
            fewer_parts (length ptr) (length ptr') n count (ground (arith, more))
              (length-drop multi_part ptr) in
          let e' : joined cs' ++ ptr' ≡ msg =
            joined-last cs str ptr' ∙ ap (λ l. joined cs ++ l) (take-drop multi_part ptr) ∙ e in
          let large' = store large s (some (append_to (large s) none false (some str) 0)) in
          let here' : large' s ≡ some (waiting addr is_push msg cs') =
            store-same large s _
            ∙ ap (λ o. some (append_to o none false (some str) 0)) here
            ∙ ap some (append-waiting addr is_push msg str cs) in
          let later = parts_arrive n s ptr' large' addr is_push msg cs' fits left e' lt here' in
          rw (more, unpackrequest-part_content true s str fits) later
      | inr last ↦
          let le : length ptr ≤ multi_part = ground (arith, last) in
          let none_left : n ≡ 0 = omega (arith, count, le) in
          let all : take (length ptr) ptr ≡ ptr = take-all (length ptr) ptr (omega arith) in
          let e' : joined (cs ++ ptr ∷ []) ≡ msg =
            sym (append-nil (joined (cs ++ ptr ∷ [])))
            ∙ joined-last cs ptr []
            ∙ ap (λ l. joined cs ++ l) (append-nil ptr)
            ∙ e in
          let done = finish-waiting addr is_push msg ptr cs s e' lt in
          rw (last, none_left, all, unpackrequest-part_content false s ptr fits, here, done, same)
            refl
    ]

-- The session that stands in the packages: 0 in a push of one package.
abbrev pub sent_session : Bool → ℕ → List ℕ → ℕ
sent_session is_push session msg = if is_push && ltb (length msg) multi_part then 0 else session

accepted_lem :
    {cs : List (List ℕ)} {b : Bool} {r : Packed}
    → Accepts cs b (got r)
    → (b ≡ true) × FramesAll cs (r.text ∷ r.padding)
accepted_lem (accepts f one below) = (refl, f)

FramesAll-contents : (cs ps : List (List ℕ)) → FramesAll cs ps → map (λ p. drop 2 p) ps ≡ cs
FramesAll-contents [] [] f = refl
FramesAll-contents (c ∷ cs) (p ∷ ps) (frames, f) = ap₂ ◌∷◌ frames.1 (FramesAll-contents cs ps f)
FramesAll-contents [] (p ∷ ps) f = absurd f
FramesAll-contents (c ∷ cs) [] f = absurd f

single-arrives :
    (addr : Address) (s : ℕ) (msg : List ℕ) (large : Large)
    → IsAddress addr
    → s < 2 ^ 32
    → large s ≡ none
    → events_of s (arrivals large (received (single addr s msg ∷ [])))
      ≡ delivered (some addr) s msg (s == 0) ∷ []
unfolding dispatch_request finish
single-arrives addr s msg large a fits free =
    let same : (s == s) ≡ true = ground arith in
    rw (unpackrequest-single addr s msg a fits, free, same) refl

multi-arrives :
    (addr : Address) (s : ℕ) (msg : List ℕ) (is_push : Bool) (large : Large)
    → IsAddress addr
    → s < 2 ^ 32
    → length msg < 2 ^ 31
    → large s ≡ none
    → events_of s (
        arrivals large (
          received
            (multi addr s (length msg) is_push ∷ part_contents (parts_of (length msg)) s msg)))
      ≡ delivered (some addr) s msg is_push ∷ []
unfolding dispatch_request append_to append chunks
multi-arrives addr s msg is_push large a fits lt free =
    let first = store large s (some (append_to (large s) (some addr) is_push none (length msg))) in
    let here : first s ≡ some (waiting (some addr) is_push msg []) =
      store-same large s _
      ∙ ap (λ o. some (append_to o (some addr) is_push none (length msg))) free in
    rw (unpackrequest-multi addr s (length msg) is_push a fits (omega (arith, lt))) (
      parts_arrive (parts_of (length msg)) s msg first (some addr) is_push msg [] fits refl refl lt
        here)

-- What arrives of the packages alone.
packages_arrive :
    (is_push : Bool) (addr : Address) (session : ℕ) (msg : List ℕ) (large : Large)
    → IsAddress addr
    → is_valid addr session ≡ true
    → length msg < 2 ^ 31
    → large (sent_session is_push session msg) ≡ none
    → events_of
        (sent_session is_push session msg)
        (arrivals large (received (contents is_push addr session msg)))
      ≡ delivered (some addr) (sent_session is_push session msg) msg is_push ∷ []
packages_arrive is_push addr session msg large a good lt free =
    let positive : (session == 0 || leb (2 ^ 31) session) ≡ false =
      ground (arith, good, is_valid_lem addr session) in
    elim (Bool-cases (ltb (length msg) multi_part)) [
      | inl small ↦
          let s = if is_push then 0 else session in
          let same : sent_session is_push session msg ≡ s = ground (arith, small) in
          let push : (s == 0) ≡ is_push = ground (arith, positive) in
          let whole =
            single-arrives addr s msg large a (ground (arith, positive))
              (ap large (sym same) ∙ free) in
          rw (same, small) (whole ∙ ap (λ b. delivered (some addr) s msg b ∷ []) push)
      | inr big ↦
          let same : sent_session is_push session msg ≡ session = ground (arith, big) in
          let whole =
            multi-arrives addr session msg is_push large a (ground (arith, positive)) lt
              (ap large (sym same) ∙ free) in
          rw (same, big) whole
    ]

-- If `packrequest` or `packpush` has packed a message of fewer than 2 ^ 31 bytes to a service whose
-- number, if it is one, is a uint32_t, and the contents of all its packages arrive in order, in any way
-- among requests of other sessions, at a node that keeps nothing of its session yet, then exactly one
-- message of its session comes of them: the one that was packed, whole, with its address, its session
-- (0 for a push in one package) and whether it is a push.
pub request_arrives :
    (is_push : Bool) (addr : Address) (session : ℕ) (msg : List ℕ) (r : Packed)
    → packrequest is_push addr session (some msg) ≡ got r
    → IsAddress addr
    → length msg < 2 ^ 31
    → (large : Large) (history : List (List ℕ)) → large (sent_session is_push session msg) ≡ none
    → of_session (sent_session is_push session msg) (received history)
      ≡ received (map (λ p. drop 2 p) (r.text ∷ r.padding))
    → events_of (sent_session is_push session msg) (arrivals large (received history))
      ≡ delivered (some addr) (sent_session is_push session msg) msg is_push ∷ []
request_arrives is_push addr session msg r e a lt large history free among =
    let accepted =
      subst (λ x. Accepts (contents is_push addr session msg) (is_valid addr session) x) e
        (packrequest-Accepts is_push addr session msg) in
    let (good, frames) = accepted_lem accepted in
    let s = sent_session is_push session msg in
    arrivals-of_session s large large (received history) refl
    ∙ ap (λ us. events_of s (arrivals large us))
        (among ∙ ap received (FramesAll-contents _ (r.text ∷ r.padding) frames))
    ∙ packages_arrive is_push addr session msg large a good lt free
