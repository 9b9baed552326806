-- ===== src/Seri/Unpack/Tests.antt =====
-- Tables, strings and numbers packed and unpacked, and streams that no call of `luaseri_pack` makes.
use skynet.Base.{
  ◌↔◌, joined, ℕ, ◌^◌, ◌-◌, ◌≤◌, ◌≡◌, refl, arith, List, [], ◌∷◌, length, replicate, none, some,
  ◌>>=◌, true, false,
}
use skynet.Crypt.Bytes.{are_bytes_lem}
use skynet.Seri.{
  is_nan, Value, null, boolean, integer, real, string, table, with_metapairs, unsupported, no_items,
  item, no_pairs, pair, count_items,
}
use skynet.Base.Result.{got, invalid, outside, Keeps}
use skynet.Seri.Write.{
  wb_boolean, wb_real, wb_chars, Pushes, wb_integer, wb_string, wb_nil, low_bytes, wb_init,
  next_block, copy_in, push_rest, wb_push, copy_blocks, seri,
}
use skynet.Seri.Write.Blocks.{seri-push_all}
use skynet.Seri.Pack.{
  before, both, in_array, is_nil, wb_array_size, push_all, pack_one, pack_from, luaseri_pack,
}
use skynet.Seri.Pack.Accepts.{luaseri_pack-raises}
use skynet.Seri.Plain.{is_index, plain_all, all_packable, emit, plain, AllFit, supported, height}
use skynet.Seri.Unpack.{
  luaseri_unpack, unpack_all, unpack_one, push_value, array_count, get_long, get_buffer, rb_read,
  read_array_size, from_bytes, get_integer, as_count, sign_extend,
}
use skynet.Seri.Unpack.Roundtrip.{luaseri_unpack-luaseri_pack}
use skynet.Seri.Unpack.Calls.{luaseri_unpack-Keeps}

-- `{10, 2 ^ 40, x = -3, [2] = 2 ^ 40}`
abbrev a_table : Value
a_table = table (item (integer 10) (item (integer (2 ^ 40)) no_items)) (
    pair (integer 1) (integer 10) (
      pair (string (120 ∷ [])) (integer (2 ^ 64 - 3))
        (pair (integer 2) (integer (2 ^ 40)) no_pairs)))

-- The table, one whose metamethod gives a pair, a string of 40 bytes and a boolean.
abbrev some_values : List Value
some_values =
    a_table
    ∷ with_metapairs (pair (boolean true) (real 7) no_pairs)
    ∷ string (replicate 40 255)
    ∷ boolean false
    ∷ []

some_values-AllFit : AllFit some_values
unfolding count_items is_nil is_nan
some_values-AllFit = (
  (
    omega arith,
    (omega arith, (omega arith, tt)),
    (
      omega arith,
      omega arith,
      ((are_bytes_lem (120 ∷ []) refl, omega arith), omega arith, (omega arith, omega arith, tt)),
    ),
    (refl, (refl, (refl, tt))),
    (refl, (refl, (refl, tt))),
  ),
  (
    ((tt, omega arith, tt), (refl, tt)),
    ((are_bytes_lem (replicate 40 255) refl, omega arith), (tt, tt)),
  ),
)

abbrev some_values_back : List Value
some_values_back =
    table (item (integer 10) (item (integer (2 ^ 40)) no_items))
      (pair (string (120 ∷ [])) (integer (2 ^ 64 - 3)) no_pairs)
    ∷ table no_items (pair (boolean true) (real 7) no_pairs)
    ∷ string (replicate 40 255)
    ∷ boolean false
    ∷ []

luaseri_unpack-luaseri_pack_example :
    (luaseri_pack some_values >>= λ bytes. some (luaseri_unpack bytes))
    ≡ some (got some_values_back)
unfolding plain supported height is_index count_items is_nil emit wb_array_size wb_boolean
    wb_integer wb_real wb_string wb_chars low_bytes
luaseri_unpack-luaseri_pack_example =
    luaseri_unpack-luaseri_pack some_values some_values-AllFit (omega arith)

-- A table of which the array has one item, with a pair that is not in it, and a value of another type.
abbrev bad_values : List Value
bad_values = null ∷ table (item null no_items) (pair (integer 2) unsupported no_pairs) ∷ []

luaseri_pack-raises_example :
    (luaseri_pack bad_values ≡ none) ↔ (all_packable (plain_all bad_values) ≡ false)
unfolding plain is_index count_items is_nil is_nan emit wb_array_size wb_integer low_bytes
luaseri_pack-raises_example =
    luaseri_pack-raises bad_values
      (tt, ((omega arith, (tt, tt), (omega arith, tt, tt), (refl, tt), (refl, tt)), tt))
      (omega arith)

bad_values-raise : luaseri_pack bad_values ≡ none
unfolding luaseri_pack pack_from pack_one both before in_array count_items
bad_values-raise = refl

-- A table whose first pair has the key NaN.
unpack_nan : luaseri_unpack (6 ∷ 66 ∷ 0 ∷ 0 ∷ 0 ∷ 0 ∷ 0 ∷ 0 ∷ 248 ∷ 127 ∷ 9 ∷ 0 ∷ []) ≡ invalid
unfolding luaseri_unpack unpack_all unpack_one push_value array_count rb_read from_bytes is_nan
    is_nil
unpack_nan = refl

-- Buffers of 100, 100 and 200 bytes, in four blocks.
abbrev three_buffers : Pushes
three_buffers = replicate 100 1 ∷ replicate 100 2 ∷ replicate 200 3 ∷ []

seri-push_all_example : seri (push_all wb_init three_buffers) ≡ joined three_buffers
seri-push_all_example = seri-push_all three_buffers (omega arith)

-- A table of 2 ^ 31 - 1 items of which the stream has none.
abbrev short_stream : List ℕ
short_stream = 254 ∷ 34 ∷ 255 ∷ 255 ∷ 255 ∷ 127 ∷ []

luaseri_unpack-Keeps_example :
    Keeps (λ vs. length vs ≤ length short_stream) (luaseri_unpack short_stream)
luaseri_unpack-Keeps_example = luaseri_unpack-Keeps short_stream

unpack_short : luaseri_unpack short_stream ≡ invalid
unfolding luaseri_unpack unpack_all unpack_one push_value array_count rb_read read_array_size
    from_bytes get_integer as_count sign_extend
unpack_short = refl

-- A long string of 2 ^ 32 - 1 bytes, whose size is the int -1.
unpack_negative : luaseri_unpack (37 ∷ 255 ∷ 255 ∷ 255 ∷ 255 ∷ []) ≡ outside
unfolding luaseri_unpack unpack_all unpack_one push_value get_long rb_read get_buffer from_bytes
unpack_negative = refl

pack_table :
    luaseri_pack (a_table ∷ [])
    ≡ some (
        22 ∷ 10 ∷ 10 ∷ 50 ∷ 0 ∷ 0 ∷ 0 ∷ 0 ∷ 0 ∷ 1 ∷ 0 ∷ 0 ∷ 12 ∷ 120 ∷ 34 ∷ 253 ∷ 255 ∷ 255 ∷ 255
        ∷ 0 ∷ [])
unfolding luaseri_pack pack_from pack_one count_items wb_array_size both before in_array wb_integer
    wb_string wb_chars wb_nil low_bytes push_all wb_push push_rest copy_in next_block seri
    copy_blocks wb_init
pack_table = refl
