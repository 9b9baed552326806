-- ===== src/Seri/Write.antt =====
-- The struct write_block of luaclib-src/lua-seri.cpp, and what is pushed for values without parts.
pub mod Blocks
use Prim.Native.Nat.{bit_or}
use skynet.Base.{
  ℕ, zero, suc, ◌+◌, ◌-◌, ◌*◌, ◌/◌, ◌%◌, ◌^◌, List, [], ◌∷◌, ◌++◌, length, take, drop, ltb, leb,
  ◌==◌, ◌&&◌, ◌||◌, not, Bool, true, false, if◌then◌else◌,
}

-- BLOCK_SIZE, MAX_COOKIE and MAX_DEPTH
abbrev pub block_size : ℕ
block_size = 128

abbrev pub max_cookie : ℕ
max_cookie = 32

abbrev pub max_depth : ℕ
max_depth = 32

-- write_block: the blocks from head on before the current one, the bytes written to the current block,
-- of which there are `ptr`, at most BLOCK_SIZE, and `len`, which is an int, here its bit pattern.
pub record WriteBlock : Type 0 where
  pub full : List (List ℕ)
  pub current : List ℕ
  pub ptr : ℕ
  pub len : ℕ

unfoldable pub wb_init : WriteBlock
wb_init = record { full = []; current = []; ptr = 0; len = 0 }

-- `b->current = b->current->next = blk_alloc(); b->ptr = 0;`
unfoldable pub next_block : WriteBlock → WriteBlock
next_block b = record b { full = b.full ++ b.current ∷ []; current = []; ptr = 0 }

unfoldable pub copy_in : WriteBlock → List ℕ → WriteBlock
copy_in b buffer = record b {
  current = b.current ++ buffer;
  ptr = b.ptr + length buffer;
  len = (b.len + length buffer) % 2 ^ 32;
}

-- `wb_push` from its second test on: each round but the last fills a block.
unfoldable pub push_rest : ℕ → WriteBlock → List ℕ → WriteBlock
push_rest zero b buffer = b
push_rest (suc rounds) b buffer =
    let copy = block_size - b.ptr in
    let again = push_rest rounds (next_block (copy_in b (take copy buffer))) (drop copy buffer) in
    if leb (length buffer) copy then copy_in b buffer else again

unfoldable pub wb_push : WriteBlock → List ℕ → WriteBlock
wb_push b buffer =
    push_rest (suc (length buffer)) (if b.ptr == block_size then next_block b else b) buffer

-- The loop of `seri` over the blocks.
unfoldable pub copy_blocks : List (List ℕ) → ℕ → List ℕ
copy_blocks [] len = []
copy_blocks (b ∷ next) len =
    let rest = copy_blocks next (len - block_size) in
    if len == 0 then [] else if leb block_size len then b ++ rest else take len b

-- Of a negative len nothing is copied.
unfoldable pub seri : WriteBlock → List ℕ
seri b = if leb (2 ^ 31) b.len then [] else copy_blocks (b.full ++ b.current ∷ []) b.len

-- The low bytes of a number, as `memcpy` takes them from an int of so many bytes.
unfoldable pub low_bytes : ℕ → ℕ → List ℕ
low_bytes zero v = []
low_bytes (suc n) v = v % 2 ^ 8 ∷ low_bytes n (v / 2 ^ 8)

-- COMBINE_TYPE
abbrev pub combine_type : ℕ → ℕ → ℕ
combine_type t v = bit_or t (v * 2 ^ 3)

-- A function that calls `wb_push` is the list of the buffers that it pushes.
abbrev pub Pushes : Type 0
Pushes = List (List ℕ)

unfoldable pub wb_nil : Pushes
wb_nil = (0 ∷ []) ∷ []

unfoldable pub wb_boolean : Bool → Pushes
wb_boolean b = (combine_type 1 (if b then 1 else 0) ∷ []) ∷ []

-- `v != (int32_t) v` and `v < 0` of a lua_Integer.
abbrev pub is_long : ℕ → Bool
is_long v = not (ltb v (2 ^ 31)) && ltb v (2 ^ 64 - 2 ^ 31)

abbrev pub is_negative : ℕ → Bool
is_negative v = leb (2 ^ 63) v

unfoldable pub wb_integer : ℕ → Pushes
wb_integer v =
    if v == 0
    then ((combine_type 2 0 ∷ []) ∷ [])
    else if is_long v
    then ((combine_type 2 6 ∷ []) ∷ low_bytes 8 v ∷ [])
    else if is_negative v
    then ((combine_type 2 4 ∷ []) ∷ low_bytes 4 v ∷ [])
    else if ltb v 0x100
    then ((combine_type 2 1 ∷ []) ∷ low_bytes 1 v ∷ [])
    else if ltb v 0x10000
    then ((combine_type 2 2 ∷ []) ∷ low_bytes 2 v ∷ [])
    else ((combine_type 2 4 ∷ []) ∷ low_bytes 4 v ∷ [])

unfoldable pub wb_real : ℕ → Pushes
wb_real v = (combine_type 2 8 ∷ []) ∷ low_bytes 8 v ∷ []

unfoldable pub wb_pointer : ℕ → Pushes
wb_pointer v = (3 ∷ []) ∷ low_bytes 8 v ∷ []

-- `wb_string` for a len that is not negative.
unfoldable pub wb_chars : ℕ → List ℕ → Pushes
wb_chars len str =
    if ltb len max_cookie
    then ((combine_type 4 len ∷ []) ∷ (if ltb 0 len then str ∷ [] else []))
    else if ltb len 0x10000
    then ((combine_type 5 2 ∷ []) ∷ low_bytes 2 len ∷ str ∷ [])
    else ((combine_type 5 4 ∷ []) ∷ low_bytes 4 len ∷ str ∷ [])

-- `wb_string` with the `(int) sz` of its caller: a string of 2 ^ 31 bytes or more has another len, and a
-- negative one counts as short, of which the type byte has the low bits.
unfoldable pub wb_string : List ℕ → Pushes
wb_string str =
    let len = length str % 2 ^ 32 in
    if leb (2 ^ 31) len
    then ((combine_type 4 (len % 2 ^ 5) ∷ []) ∷ [])
    else wb_chars len (take len str)
