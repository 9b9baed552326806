-- ===== src/Seri/Plain.antt =====
-- What luaclib-src/lua-seri.cpp keeps of a value, which values it can keep, and the bytes of them.
use Prim.Native.Nat.{max}
use skynet.Base.{
  zero, ◌==◌, ◌||◌, joined, ℕ, suc, ◌^◌, ◌<◌, ◌≡◌, List, [], ◌∷◌, ◌++◌, length, leb, ◌&&◌, Bool,
  true, false, if◌then◌else◌,
}
use skynet.Crypt.Bytes.{IsBytes}
use skynet.Seri.{
  is_nan, Value, Items, Pairs, null, boolean, integer, real, string, light_userdata, table,
  with_metapairs, unsupported, no_items, item, no_pairs, pair, count_items,
}
use skynet.Seri.Write.{max_depth, wb_boolean, wb_integer, wb_real, wb_pointer, wb_string}
use skynet.Seri.Pack.{wb_array_size, is_nil}

-- A key that is one of the indices of an array of so many items.
unfoldable pub is_index : ℕ → Value → Bool
is_index zero k = false
is_index (suc n) (integer x) = x == suc n || is_index n (integer x)
is_index (suc n) k = false

-- Of the pairs of a table those are kept whose keys the array has not, and of a metamethod's those before
-- the key nil.
unfoldable mutual
  pub plain : Value → Value
  plain (table xs es) = table (plain_items xs) (plain_hash (count_items xs) es)
  plain (with_metapairs es) = table no_items (plain_metapairs es)
  plain v = v

  pub plain_items : Items → Items
  plain_items no_items = no_items
  plain_items (item v xs) = item (plain v) (plain_items xs)

  pub plain_hash : ℕ → Pairs → Pairs
  plain_hash n no_pairs = no_pairs
  plain_hash n (pair k v es) =
      let later = plain_hash n es in if is_index n k then later else pair (plain k) (plain v) later

  pub plain_metapairs : Pairs → Pairs
  plain_metapairs no_pairs = no_pairs
  plain_metapairs (pair k v es) =
      let later = plain_metapairs es in
      if is_nil k then no_pairs else pair (plain k) (plain v) later

-- No part is of an unsupported type.
unfoldable mutual
  pub supported : Value → Bool
  supported (table xs es) = supported_items xs && supported_pairs es
  supported (with_metapairs es) = false
  supported unsupported = false
  supported v = true

  pub supported_items : Items → Bool
  supported_items no_items = true
  supported_items (item v xs) = supported v && supported_items xs

  pub supported_pairs : Pairs → Bool
  supported_pairs no_pairs = true
  supported_pairs (pair k v es) = supported k && (supported v && supported_pairs es)

-- The number of tables around the innermost part.
unfoldable mutual
  pub height : Value → ℕ
  height (table xs es) = max (height_items xs) (height_pairs es)
  height v = 0

  pub height_items : Items → ℕ
  height_items no_items = 0
  height_items (item v xs) = max (suc (height v)) (height_items xs)

  pub height_pairs : Pairs → ℕ
  height_pairs no_pairs = 0
  height_pairs (pair k v es) = max (suc (height k)) (max (suc (height v)) (height_pairs es))

-- A plain value can be packed: all of it is supported, and no part lies in more than MAX_DEPTH tables.
abbrev pub packable : Value → Bool
packable v = supported v && leb (height v) max_depth

unfoldable mutual
  pub emit : Value → List ℕ
  emit null = 0 ∷ []
  emit (boolean b) = joined (wb_boolean b)
  emit (integer v) = joined (wb_integer v)
  emit (real v) = joined (wb_real v)
  emit (string str) = joined (wb_string str)
  emit (light_userdata v) = joined (wb_pointer v)
  emit (table xs es) = joined (wb_array_size (count_items xs)) ++ (emit_items xs ++ emit_pairs es)
  emit (with_metapairs es) = []
  emit unsupported = []

  pub emit_items : Items → List ℕ
  emit_items no_items = []
  emit_items (item v xs) = emit v ++ emit_items xs

  pub emit_pairs : Pairs → List ℕ
  emit_pairs no_pairs = 0 ∷ []
  emit_pairs (pair k v es) = emit k ++ (emit v ++ emit_pairs es)

-- No key is NaN.
abbrev pub HasNumbers : Pairs → Type 0
HasNumbers no_pairs = Unit {0}
HasNumbers (pair k v es) = (is_nan k ≡ false) × HasNumbers es

-- No key is nil.
abbrev pub HasKeys : Pairs → Type 0
HasKeys no_pairs = Unit {0}
HasKeys (pair k v es) = (is_nil k ≡ false) × HasKeys es

-- The numbers are those of 64 bits, what an int counts are fewer than 2 ^ 31, and the keys are those
-- that a table can have; a metamethod may give nil, which ends the table, but not NaN.
abbrev mutual
  pub Fits : Value → Type 0
  Fits (integer v) = v < 2 ^ 64
  Fits (real v) = v < 2 ^ 64
  Fits (light_userdata v) = v < 2 ^ 64
  Fits (string str) = IsBytes str × (length str < 2 ^ 31)
  Fits (table xs es) =
      (count_items xs < 2 ^ 31) × FitItems xs × FitPairs es × HasKeys es × HasNumbers es
  Fits (with_metapairs es) = FitPairs es × HasNumbers es
  Fits v = Unit {0}

  pub FitItems : Items → Type 0
  FitItems no_items = Unit {0}
  FitItems (item v xs) = Fits v × FitItems xs

  pub FitPairs : Pairs → Type 0
  FitPairs no_pairs = Unit {0}
  FitPairs (pair k v es) = Fits k × Fits v × FitPairs es

abbrev pub plain_all : List Value → List Value
plain_all [] = []
plain_all (v ∷ vs) = plain v ∷ plain_all vs

abbrev pub all_packable : List Value → Bool
all_packable [] = true
all_packable (v ∷ vs) = packable v && all_packable vs

abbrev pub AllFit : List Value → Type 0
AllFit [] = Unit {0}
AllFit (v ∷ vs) = Fits v × AllFit vs

abbrev pub emit_all : List Value → List ℕ
emit_all [] = []
emit_all (v ∷ vs) = emit v ++ emit_all vs
