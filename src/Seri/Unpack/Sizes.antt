-- ===== src/Seri/Unpack/Sizes.antt =====
-- What stands behind a size in luaclib-src/lua-seri.cpp: strings, and how many items a table has.
use skynet.Base.{
  take-all, ◌%◌, joined, ℕ, suc, ◌-◌, ◌^◌, ◌<◌, ◌≡◌, refl, ◌∙◌, arith, List, [], ◌∷◌, ◌++◌, length,
  append_assoc, append-nil, ltb, leb, ◌==◌, false, Bool-cases, inl, inr,
}
use skynet.Seri.{Value, string}
use skynet.Base.Result.{got, ◌then_do◌}
use skynet.Seri.Write.{low_bytes, combine_type, wb_integer, wb_chars, wb_string, max_cookie}
use skynet.Seri.Unpack.{
  rb_read, read_number, from_bytes, get_buffer, as_count, array_count, read_array_size, get_long,
  push_value,
}
use skynet.Seri.Unpack.Numbers.{
  Reads, combine_type-Reads, combine_type-low, combine_type-high, rb_read-append, length-low_bytes,
  from_bytes-low_bytes, GetsBack, integer_forms,
}

get_buffer-append :
    (str rest : List ℕ) (n : ℕ)
    → length str ≡ n
    → length str < 2 ^ 31
    → get_buffer n ((str ++ []) ++ rest) ≡ got (string str, rest)
unfolding get_buffer
get_buffer-append str rest n e lt =
    let positive : leb (2 ^ 31) n ≡ false = ground (arith, e, lt) in
    rw (positive, append-nil str, rb_read-append n str rest e) refl

-- A size of so many bytes and the string behind it.
sized : ℕ → List ℕ → List ℕ
sized n str = low_bytes n (length str) ++ (str ++ [])

get_long-sized :
    (n : ℕ) (str rest : List ℕ)
    → from_bytes (low_bytes n (length str)) ≡ length str
    → length str < 2 ^ 31
    → ◌then_do◌ {B = Value × List ℕ}
        (read_number n (sized n str ++ rest))
        (λ (len, rest). get_buffer len rest)
      ≡ got (string str, rest)
unfolding sized
get_long-sized n str rest e lt =
    rw
      (
        append_assoc (low_bytes n (length str)) (str ++ []) rest,
        rb_read-append n (low_bytes n (length str)) ((str ++ []) ++ rest)
            (length-low_bytes n (length str)),
        e,
      )
      (get_buffer-append str rest (length str) refl lt)

word_sized-Reads :
    (str : List ℕ) → length str < 2 ^ 16 → Reads (combine_type 5 2 ∷ sized 2 str) (string str)
word_sized-Reads str lt =
    let same : from_bytes (low_bytes 2 (length str)) ≡ length str =
      (from_bytes-low_bytes (length str)).1 ∙ omega (arith, lt) in
    combine_type-Reads 5 2 (sized 2 str) (string str) (omega arith)
      (unfold push_value get_long in λ rest of_table. get_long-sized 2 str rest same (omega arith))

dword_sized-Reads :
    (str : List ℕ) → length str < 2 ^ 31 → Reads (combine_type 5 4 ∷ sized 4 str) (string str)
dword_sized-Reads str lt =
    let same : from_bytes (low_bytes 4 (length str)) ≡ length str =
      (from_bytes-low_bytes (length str)).2 ∙ omega (arith, lt) in
    combine_type-Reads 5 4 (sized 4 str) (string str) (omega arith)
      (unfold push_value get_long in λ rest of_table. get_long-sized 4 str rest same lt)

short-Reads :
    (str bytes : List ℕ)
    → length str < 2 ^ 31
    → bytes ≡ str ++ []
    → Reads (combine_type 4 (length str) ∷ bytes) (string str)
short-Reads str bytes lt e =
    combine_type-Reads 4 (length str) bytes (string str) (omega arith)
      (unfold push_value in λ rest of_table. rw e (get_buffer-append str rest (length str) refl lt))

nothing_lem : (str : List ℕ) → ltb 0 (length str) ≡ false → [] ≡ str ++ []
nothing_lem [] e = refl
nothing_lem (b ∷ str) e = absurd (ground (arith, e))

chars-Reads :
    (str : List ℕ) → length str < 2 ^ 31 → Reads (joined (wb_chars (length str) str)) (string str)
unfolding wb_chars sized low_bytes
chars-Reads str lt = elim (Bool-cases (ltb (length str) max_cookie)) [
  | inl short ↦ elim (Bool-cases (ltb 0 (length str))) [
    | inl some_bytes ↦ rw (short, some_bytes) (short-Reads str (str ++ []) lt refl)
    | inr no_bytes ↦ rw (short, no_bytes) (short-Reads str [] lt (nothing_lem str no_bytes))
  ]
  | inr long ↦ elim (Bool-cases (ltb (length str) 0x10000)) [
    | inl two ↦ rw (long, two) (word_sized-Reads str (ground (arith, two)))
    | inr four ↦ rw (long, four) (dword_sized-Reads str lt)
  ]
]

wb_string_lem : (str : List ℕ) → length str < 2 ^ 31 → wb_string str ≡ wb_chars (length str) str
unfolding wb_string
wb_string_lem str lt =
    let same : length str % 2 ^ 32 ≡ length str = omega (arith, lt) in
    let positive : leb (2 ^ 31) (length str) ≡ false = ground (arith, lt) in
    rw (same, positive, take-all (length str) str (omega arith)) refl

pub string-Reads :
    (str : List ℕ) → length str < 2 ^ 31 → Reads (joined (wb_string str)) (string str)
string-Reads str lt = rw (wb_string_lem str lt) (chars-Reads str lt)

array_count_form :
    (size : ℕ) (rest : List ℕ)
    → size < 2 ^ 31
    → (cookie n : ℕ) → cookie < 8
    → GetsBack cookie n size
    → array_count (max_cookie - 1) ((combine_type 2 cookie ∷ low_bytes n size ++ []) ++ rest)
      ≡ got (size, rest)
unfolding array_count rb_read read_array_size
array_count_form size rest lt cookie n small gets =
    let typed : from_bytes (combine_type 2 cookie ∷ []) ≡ combine_type 2 cookie =
      unfold from_bytes in omega arith in
    let here : ltb (suc (length ((low_bytes n size ++ []) ++ rest))) 1 ≡ false = ground arith in
    let other : (cookie == 8) ≡ false = ground (arith, small) in
    let count : as_count size ≡ size = unfold as_count in ground (arith, lt) in
    rw
      (
        here,
        typed,
        combine_type-low 2 cookie (omega arith),
        combine_type-high 2 cookie (omega arith),
        other,
        gets rest,
        count,
      )
      refl

-- The size behind the largest cookie.
pub array_count-wb_integer :
    (size : ℕ) (rest : List ℕ)
    → 0 < size
    → size < 2 ^ 31
    → array_count (max_cookie - 1) (joined (wb_integer size) ++ rest) ≡ got (size, rest)
array_count-wb_integer size rest some_items lt =
    integer_forms (λ bytes. array_count (max_cookie - 1) (bytes ++ rest) ≡ got (size, rest)) size
      (omega arith) (ground (arith, some_items)) (array_count_form size rest lt)
