-- ===== src/Seri/Unpack.antt =====
-- `push_value` and `luaseri_unpack` of luaclib-src/lua-seri.cpp. A table is what lua_rawseti and lua_rawset
-- are called with; a key nil ends it, and for a key NaN lua_rawset raises an error. Each call counts, since what it leaves of the stream is not a part of it.
pub mod Numbers
pub mod Sizes
pub mod Fitting
pub mod Roundtrip
pub mod Calls
pub mod Tests
use Prim.Native.Nat.{bit_and}
use skynet.Base.{
  ℕ, zero, suc, ◌+◌, ◌-◌, ◌*◌, ◌/◌, ◌%◌, ◌^◌, List, [], ◌∷◌, ◌++◌, length, take, drop, ltb, leb,
  ◌==◌, ◌||◌, not, Bool, true, false, if◌then◌else◌,
}
use skynet.Seri.{
  is_nan, Value, Items, Pairs, null, boolean, integer, real, string, light_userdata, table,
  no_items, item, no_pairs, pair,
}
use skynet.Base.Result.{Result, got, invalid, outside, out_of_calls, ◌then_do◌}
use skynet.Seri.Write.{max_cookie}
use skynet.Seri.Pack.{is_nil}

-- `rb_read`, with the error of its callers.
unfoldable pub rb_read : ℕ → List ℕ → Result (List ℕ × List ℕ)
rb_read sz stream = if ltb (length stream) sz then invalid else got (take sz stream, drop sz stream)

-- The number whose low bytes these are.
unfoldable pub from_bytes : List ℕ → ℕ
from_bytes [] = 0
from_bytes (b ∷ bytes) = b + from_bytes bytes * 2 ^ 8

abbrev pub read_number : ℕ → List ℕ → Result (ℕ × List ℕ)
read_number sz stream = rb_read sz stream then_do λ (bytes, rest). got (from_bytes bytes, rest)

-- An int32_t as a lua_Integer.
unfoldable pub sign_extend : ℕ → ℕ
sign_extend n = if ltb n (2 ^ 31) then n else n + 2 ^ 64 - 2 ^ 32

unfoldable pub get_integer : ℕ → List ℕ → Result (ℕ × List ℕ)
get_integer cookie stream =
    if cookie == 0
    then got (0, stream)
    else if cookie == 1
    then read_number 1 stream
    else if cookie == 2
    then read_number 2 stream
    else if cookie == 4
    then (read_number 4 stream then_do λ (n, rest). got (sign_extend n, rest))
    else if cookie == 6
    then read_number 8 stream
    else invalid

-- `get_buffer`, whose len is an int: rb_read of a negative one moves back and hands out bytes in front.
unfoldable pub get_buffer : ℕ → List ℕ → Result (Value × List ℕ)
get_buffer len stream =
    if leb (2 ^ 31) len
    then outside
    else (rb_read len stream then_do λ (str, rest). got (string str, rest))

-- The size that `unpack_table` reads for the largest cookie, as an int: a negative one is no items.
unfoldable pub as_count : ℕ → ℕ
as_count n = let low = n % 2 ^ 32 in if leb (2 ^ 31) low then 0 else low

unfoldable pub read_array_size : ℕ → List ℕ → Result (ℕ × List ℕ)
read_array_size type stream =
    let cookie = type / 2 ^ 3 in
    if not (bit_and type 7 == 2) || cookie == 8
    then invalid
    else (get_integer cookie stream then_do λ (n, rest). got (as_count n, rest))

unfoldable pub array_count : ℕ → List ℕ → Result (ℕ × List ℕ)
array_count array_size stream =
    if array_size == max_cookie - 1
    then (rb_read 1 stream then_do λ (type, rest). read_array_size (from_bytes type) rest)
    else got (array_size, stream)

-- TYPE_LONG_STRING
unfoldable pub get_long : ℕ → List ℕ → Result (Value × List ℕ)
get_long cookie stream =
    if cookie == 2
    then (read_number 2 stream then_do λ (n, rest). get_buffer n rest)
    else if not (cookie == 4)
    then invalid
    else (read_number 4 stream then_do λ (n, rest). get_buffer n rest)

abbrev pub get_number : ℕ → List ℕ → Result (Value × List ℕ)
get_number cookie stream =
    if cookie == 8
    then (read_number 8 stream then_do λ (n, rest). got (real n, rest))
    else (get_integer cookie stream then_do λ (n, rest). got (integer n, rest))

-- `push_value`; the last argument is what `unpack_table` returns.
unfoldable pub push_value : ℕ → ℕ → List ℕ → Result (Value × List ℕ) → Result (Value × List ℕ)
push_value type cookie stream of_table =
    if type == 0
    then got (null, stream)
    else if type == 1
    then got (boolean (not (cookie == 0)), stream)
    else if type == 2
    then get_number cookie stream
    else if type == 3
    then (read_number 8 stream then_do λ (n, rest). got (light_userdata n, rest))
    else if type == 4
    then get_buffer cookie stream
    else if type == 5
    then get_long cookie stream
    else if type == 6
    then of_table
    else invalid

unfoldable mutual
  -- `unpack_one`, and `push_value` with `unpack_table`.
  pub unpack_one : ℕ → List ℕ → Result (Value × List ℕ)
  unpack_one zero stream = out_of_calls
  unpack_one (suc calls) [] = invalid
  unpack_one (suc calls) (type ∷ stream) = push_value (bit_and type 7) (type / 2 ^ 3) stream (
      array_count (type / 2 ^ 3) stream then_do λ (array_size, rest).
      unpack_items calls array_size rest then_do λ (xs, rest).
      unpack_pairs calls rest then_do λ (es, rest). got (table xs es, rest))

  pub unpack_items : ℕ → ℕ → List ℕ → Result (Items × List ℕ)
  unpack_items zero n stream = out_of_calls
  unpack_items (suc calls) zero stream = got (no_items, stream)
  unpack_items (suc calls) (suc n) stream = unpack_one calls stream then_do λ (v, rest).
      unpack_items calls n rest then_do λ (xs, rest). got (item v xs, rest)

  pub unpack_pairs : ℕ → List ℕ → Result (Pairs × List ℕ)
  unpack_pairs zero stream = out_of_calls
  unpack_pairs (suc calls) stream = unpack_one calls stream then_do λ (k, rest).
      let more = unpack_one calls rest then_do λ (v, rest).
      let later = unpack_pairs calls rest then_do λ (es, rest). got (pair k v es, rest) in
      if is_nan k then invalid else later in
      if is_nil k then got (no_pairs, rest) else more

-- The loop of `luaseri_unpack`.
unfoldable pub unpack_all : ℕ → List ℕ → Result (List Value)
unpack_all zero stream = out_of_calls
unpack_all (suc calls) [] = got []
unpack_all (suc calls) (b ∷ stream) = unpack_one calls (b ∷ stream) then_do λ (v, rest).
    unpack_all calls rest then_do λ vs. got (v ∷ vs)

-- `luaseri_unpack` of a stream whose size is an int: a call reads at most one byte less often than twice a byte.
unfoldable pub luaseri_unpack : List ℕ → Result (List Value)
luaseri_unpack stream = unpack_all (2 * length stream + 2) stream
