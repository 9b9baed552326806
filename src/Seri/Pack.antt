-- ===== src/Seri/Pack.antt =====
-- `pack_one` and `luaseri_pack` of luaclib-src/lua-seri.cpp: none where an error is raised.
pub mod Accepts
use skynet.Base.{
  ℕ, zero, suc, ◌+◌, ◌-◌, ◌^◌, Option, none, some, List, [], ◌∷◌, ◌++◌, ltb, leb, ◌&&◌, Bool, true,
  false, if◌then◌else◌, ◌>>=◌,
}
use skynet.Seri.{
  Value, Items, Pairs, null, boolean, integer, real, string, light_userdata, table, with_metapairs,
  unsupported, no_items, item, no_pairs, pair, count_items,
}
use skynet.Seri.Write.{
  WriteBlock, wb_init, wb_push, seri, Pushes, max_cookie, max_depth, combine_type, wb_nil,
  wb_boolean, wb_integer, wb_real, wb_pointer, wb_string,
}

-- What `wb_table_array` pushes in front of the items, of which there are fewer than 2 ^ 31.
unfoldable pub wb_array_size : ℕ → Pushes
wb_array_size array_size =
    if leb (max_cookie - 1) array_size
    then ((combine_type 6 (max_cookie - 1) ∷ []) ∷ wb_integer array_size)
    else ((combine_type 6 array_size ∷ []) ∷ [])

-- An integer key that `wb_table_hash` leaves out: the array has it.
unfoldable pub in_array : ℕ → Value → Bool
in_array array_size (integer x) = ltb 0 x && leb x array_size && ltb x (2 ^ 63)
in_array array_size k = false

unfoldable pub is_nil : Value → Bool
is_nil null = true
is_nil v = false

-- The test of the depth in `pack_one`.
abbrev pub at_depth : ℕ → Option Pushes → Option Pushes
at_depth depth pushed = if ltb max_depth depth then none else pushed

unfoldable pub before : Pushes → Option Pushes → Option Pushes
before first later = later >>= λ ps. some (first ++ ps)

unfoldable pub both : Option Pushes → Option Pushes → Option Pushes
both first later = first >>= λ ps. before ps later

-- `wb_table_hash` and `wb_table_metapairs` call `wb_nil` last; the second ends at a key nil.
unfoldable mutual
  pub pack_one : Value → ℕ → Option Pushes
  pack_one null depth = at_depth depth (some wb_nil)
  pack_one (boolean b) depth = at_depth depth (some (wb_boolean b))
  pack_one (integer v) depth = at_depth depth (some (wb_integer v))
  pack_one (real v) depth = at_depth depth (some (wb_real v))
  pack_one (string str) depth = at_depth depth (some (wb_string str))
  pack_one (light_userdata v) depth = at_depth depth (some (wb_pointer v))
  pack_one (table xs es) depth =
      let array_size = count_items xs in
      at_depth depth (
        before (wb_array_size array_size)
          (both (pack_items xs (depth + 1)) (pack_hash array_size es (depth + 1))))
  pack_one (with_metapairs es) depth =
      at_depth depth (before ((combine_type 6 0 ∷ []) ∷ []) (pack_metapairs es (depth + 1)))
  pack_one unsupported depth = none

  pub pack_items : Items → ℕ → Option Pushes
  pack_items no_items depth = some []
  pack_items (item v xs) depth = both (pack_one v depth) (pack_items xs depth)

  pub pack_hash : ℕ → Pairs → ℕ → Option Pushes
  pack_hash array_size no_pairs depth = some wb_nil
  pack_hash array_size (pair k v es) depth =
      let later = pack_hash array_size es depth in
      let here = both (pack_one k depth) (both (pack_one v depth) later) in
      if in_array array_size k then later else here

  pub pack_metapairs : Pairs → ℕ → Option Pushes
  pack_metapairs no_pairs depth = some wb_nil
  pack_metapairs (pair k v es) depth =
      let more = both (pack_one k depth) (both (pack_one v depth) (pack_metapairs es depth)) in
      if is_nil k then some wb_nil else more

-- `pack_from`
unfoldable pub pack_from : List Value → Option Pushes
pack_from [] = some []
pack_from (v ∷ vs) = both (pack_one v 0) (pack_from vs)

unfoldable pub push_all : WriteBlock → Pushes → WriteBlock
push_all b [] = b
push_all b (buffer ∷ later) = push_all (wb_push b buffer) later

-- `luaseri_pack`
unfoldable pub luaseri_pack : List Value → Option (List ℕ)
luaseri_pack vs = pack_from vs >>= λ ps. some (seri (push_all wb_init ps))
