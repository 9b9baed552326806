-- ===== src/Cluster/Request/Heads.antt =====
-- The parts of the packages that `packrequest` of luaclib-src/lua-cluster.cpp makes, one by one.
use skynet.Base.{
  ℕ, zero, suc, ◌+◌, ◌^◌, ◌≤◌, ◌<◌, ◌≡◌, refl, arith, List, [], ◌∷◌, ◌++◌, length, take, drop,
  length-append, length-take, ltb, leb, ◌==◌, ◌&&◌, ◌||◌, not, Bool, true, false, if◌then◌else◌,
}
use skynet.Base.Result.{Result, got}
use skynet.Cluster.Wire.{temp_length, multi_part, fill_uint32, in_package, in_package_lem, Frames}
use skynet.Cluster.Request.{
  Address, id, named, Head, head_of, parts_of, packreq_number, packreq_string, part_size, pack_part,
  packreq_multi,
}
use skynet.Cluster.Request.Contents.{single, multi, part_content, length-fill_uint32, length-last}

abbrev pub part_contents : ℕ → ℕ → List ℕ → List (List ℕ)
part_contents zero session ptr = []
part_contents (suc n) session ptr =
    part_content (ltb multi_part (length ptr)) session (take (part_size ptr) ptr)
    ∷ part_contents n session (drop (part_size ptr) ptr)

abbrev pub contents : Bool → Address → ℕ → List ℕ → List (List ℕ)
contents is_push addr session msg =
    if ltb (length msg) multi_part
    then (single addr (if is_push then 0 else session) msg ∷ [])
    else (multi addr session (length msg) is_push
        ∷ part_contents (parts_of (length msg)) session msg)

abbrev pub FramesAll : List (List ℕ) → List (List ℕ) → Type 0
FramesAll [] [] = Unit {0}
FramesAll (c ∷ cs) (p ∷ ps) = Frames c p × FramesAll cs ps
FramesAll [] (p ∷ ps) = ⊥
FramesAll (c ∷ cs) [] = ⊥

-- A positive int, and a name of 1 to 255 bytes where the address is one.
abbrev pub is_valid : Address → ℕ → Bool
is_valid (id addr) session = not (session == 0 || leb (2 ^ 31) session)
is_valid (named addr) session =
    not (session == 0 || leb (2 ^ 31) session) && not (ltb (length addr) 1 || ltb 255 (length addr))

abbrev pub Heads : Result Head → List ℕ → ℕ → Type 0
Heads r content multipak =
    (p : List ℕ) × (r ≡ got (record { text = p; multipak = multipak })) × Frames content p

head_of-Heads :
    (sz multipak : ℕ) (content : List ℕ)
    → length content ≡ sz
    → sz + 2 ≤ temp_length
    → Heads (head_of multipak (in_package sz content)) content multipak
head_of-Heads sz multipak content e le =
    let (p, same, frames) = in_package_lem sz content e le in (p, rw same refl, frames)

pub packreq_number-small :
    (addr session : ℕ) (msg : List ℕ) (is_push : Bool)
    → ltb (length msg) multi_part ≡ true
    → Heads
        (packreq_number addr session msg is_push)
        (single (id addr) (if is_push then 0 else session) msg)
        0
unfolding packreq_number
packreq_number-small addr session msg is_push small =
    let s = if is_push then 0 else session in
    let lt : length msg < multi_part = ground (arith, small) in
    rw small (
      head_of-Heads (length msg + 9) 0 (single (id addr) s msg)
        (omega (arith, length-fill_uint32 addr (fill_uint32 s ++ msg), length-fill_uint32 s msg))
        (omega (arith, lt)))

pub packreq_number-large :
    (addr session : ℕ) (msg : List ℕ) (is_push : Bool)
    → ltb (length msg) multi_part ≡ false
    → Heads
        (packreq_number addr session msg is_push)
        (multi (id addr) session (length msg) is_push)
        (parts_of (length msg))
unfolding packreq_number
packreq_number-large addr session msg is_push large =
    let sz = length msg in
    rw large (
      head_of-Heads 13 (parts_of sz) (multi (id addr) session sz is_push)
        (omega (
          arith,
          length-fill_uint32 addr (fill_uint32 session ++ fill_uint32 sz),
          length-fill_uint32 session (fill_uint32 sz),
          length-last sz,
        ))
        (omega arith))

-- A name that is long enough and not too long.
abbrev IsName : List ℕ → Type 0
IsName addr = (ltb (length addr) 1 || ltb 255 (length addr)) ≡ false

pub packreq_string-small :
    (addr : List ℕ) (session : ℕ) (msg : List ℕ) (is_push : Bool)
    → IsName addr
    → ltb (length msg) multi_part ≡ true
    → Heads
        (packreq_string addr session msg is_push)
        (single (named addr) (if is_push then 0 else session) msg)
        0
unfolding packreq_string
packreq_string-small addr session msg is_push good small =
    let s = if is_push then 0 else session in
    let lt : length msg < multi_part = ground (arith, small) in
    let short : length addr ≤ 255 = ground (arith, good) in
    rw (good, small)
      (head_of-Heads (length msg + 6 + length addr) 0 (single (named addr) s msg)
        (omega (arith, length-append addr (fill_uint32 s ++ msg), length-fill_uint32 s msg))
        (omega (arith, lt, short)))

pub packreq_string-large :
    (addr : List ℕ) (session : ℕ) (msg : List ℕ) (is_push : Bool)
    → IsName addr
    → ltb (length msg) multi_part ≡ false
    → Heads
        (packreq_string addr session msg is_push)
        (multi (named addr) session (length msg) is_push)
        (parts_of (length msg))
unfolding packreq_string
packreq_string-large addr session msg is_push good large =
    let sz = length msg in
    let short : length addr ≤ 255 = ground (arith, good) in
    rw (good, large)
      (head_of-Heads (10 + length addr) (parts_of sz) (multi (named addr) session sz is_push)
        (omega (
          arith,
          length-append addr (fill_uint32 session ++ fill_uint32 sz),
          length-fill_uint32 session (fill_uint32 sz),
          length-last sz,
        ))
        (omega (arith, short)))

pack_part_lem :
    (session : ℕ) (ptr : List ℕ)
    → (p : List ℕ) × (pack_part session ptr ≡ got p)
      × Frames (part_content (ltb multi_part (length ptr)) session (take (part_size ptr) ptr)) p
unfolding pack_part part_size
pack_part_lem session ptr =
    let n = if ltb multi_part (length ptr) then multi_part else length ptr in
    let le : n ≤ multi_part = ground arith in
    let fits : n ≤ length ptr = ground arith in
    in_package_lem (n + 5) (part_content (ltb multi_part (length ptr)) session (take n ptr))
      (omega (arith, length-fill_uint32 session (take n ptr), length-take n ptr, fits))
      (omega (arith, le))

pub packreq_multi_lem :
    (n session : ℕ) (ptr : List ℕ)
    → (ps : List (List ℕ)) × (packreq_multi n session ptr ≡ got ps)
      × FramesAll (part_contents n session ptr) ps
unfolding packreq_multi
packreq_multi_lem zero session ptr = ([], refl, tt)
packreq_multi_lem (suc n) session ptr =
    let (p, first, frames) = pack_part_lem session ptr in
    let (ps, later, frames') = packreq_multi_lem n session (drop (part_size ptr) ptr) in
    (p ∷ ps, rw (first, later) refl, (frames, frames'))
