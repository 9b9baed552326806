-- ===== src/Seri.antt =====
-- luaclib-src/lua-seri.cpp: Lua values as bytes and back. What the Lua library tells of a value stands
-- in the value itself.
pub mod Plain
pub mod Write
pub mod Pack
pub mod Unpack
use skynet.Base.{ℕ, suc, ◌%◌, ◌^◌, ltb, Bool, false, List}

-- Lua values. An integer and a real are their 64-bit patterns, a string is its bytes, and a light userdata
-- is an address. A table has what lua_rawgeti gives for the indices up to lua_rawlen, and the pairs that
-- lua_next gives in their order; a table with a metamethod __pairs has the pairs that this gives. Any
-- other value is unsupported.
mutual
  pub data Value : Type 0 where
    null : Value
    boolean : Bool → Value
    integer : ℕ → Value
    real : ℕ → Value
    string : List ℕ → Value
    light_userdata : ℕ → Value
    table : Items → Pairs → Value
    with_metapairs : Pairs → Value
    unsupported : Value

  pub data Items : Type 0 where
    no_items : Items
    item : Value → Items → Items

  pub data Pairs : Type 0 where
    no_pairs : Pairs
    pair : Value → Value → Pairs → Pairs

-- A real that is no number, by its pattern: lua_rawset raises an error where it is a key.
unfoldable pub is_nan : Value → Bool
is_nan (real n) = ltb 0x7ff0000000000000 (n % 2 ^ 63)
is_nan v = false

unfoldable pub count_items : Items → ℕ
count_items no_items = 0
count_items (item v xs) = suc (count_items xs)
