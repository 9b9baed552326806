-- ===== src/Seri/Unpack/Numbers.antt =====
-- Numbers and strings of luaclib-src/lua-seri.cpp, read where they were pushed.
use Prim.Native.Nat.{bit_and}
use skynet.Base.{
  joined, ℕ, zero, suc, ◌+◌, ◌*◌, ◌/◌, ◌%◌, ◌^◌, ◌<◌, ◌≡◌, refl, ap, subst, ◌∙◌, arith, List, [],
  ◌∷◌, ◌++◌, length, length-append, take, drop, take-append, drop-append, append-nil, bit_and_mask,
  ltb, ◌==◌, Bool, true, false, Bool-cases, inl, inr,
}
use skynet.Base.Words.{or_sum, or_comm}
use skynet.Seri.{Value, boolean, integer, real, light_userdata}
use skynet.Base.Result.{Result, got, ◌then_do◌}
use skynet.Seri.Write.{
  low_bytes, combine_type, wb_boolean, wb_integer, wb_real, wb_pointer, is_long, is_negative,
}
use skynet.Seri.Unpack.{
  unpack_one, rb_read, from_bytes, read_number, sign_extend, get_integer, push_value,
}

-- A type of three bits and a cookie in one byte.
pub combine_type-low : (t v : ℕ) → t < 2 ^ 3 → bit_and (combine_type t v) 7 ≡ t
combine_type-low t v lt =
    let sum : combine_type t v ≡ v * 2 ^ 3 + t = or_comm t (v * 2 ^ 3) ∙ or_sum 3 v t lt in
    ap (λ n. bit_and n 7) sum ∙ bit_and_mask 3 (v * 2 ^ 3 + t) ∙ omega (arith, lt)

pub combine_type-high : (t v : ℕ) → t < 2 ^ 3 → combine_type t v / 2 ^ 3 ≡ v
combine_type-high t v lt =
    let sum : combine_type t v ≡ v * 2 ^ 3 + t = or_comm t (v * 2 ^ 3) ∙ or_sum 3 v t lt in
    ap (λ n. n / 2 ^ 3) sum ∙ omega (arith, lt)

pub rb_read-append :
    (n : ℕ) (bytes rest : List ℕ) → length bytes ≡ n → rb_read n (bytes ++ rest) ≡ got (bytes, rest)
unfolding rb_read
rb_read-append n bytes rest e =
    let whole = length-append bytes rest in
    let enough : ltb (length (bytes ++ rest)) n ≡ false = ground (arith, whole, e) in
    let front : take n (bytes ++ rest) ≡ bytes =
      subst (λ k. take k (bytes ++ rest) ≡ bytes) e (take-append bytes rest) in
    let back : drop n (bytes ++ rest) ≡ rest =
      subst (λ k. drop k (bytes ++ rest) ≡ rest) e (drop-append bytes rest) in
    rw (enough, front, back) refl

pub length-low_bytes : (n v : ℕ) → length (low_bytes n v) ≡ n
unfolding low_bytes
length-low_bytes zero v = refl
length-low_bytes (suc n) v = ap suc (length-low_bytes n (v / 2 ^ 8))

-- The last buffer that is pushed, and what comes after it.
read_number-low_bytes :
    (n v w : ℕ) (rest : List ℕ)
    → from_bytes (low_bytes n v) ≡ w
    → read_number n ((low_bytes n v ++ []) ++ rest) ≡ got (w, rest)
read_number-low_bytes n v w rest e =
    rw (append-nil (low_bytes n v), rb_read-append n (low_bytes n v) rest (length-low_bytes n v), e)
      refl

pub from_bytes-low_bytes :
    (v : ℕ)
    → (from_bytes (low_bytes 1 v) ≡ v % 2 ^ 8)
      × (from_bytes (low_bytes 2 v) ≡ v % 2 ^ 16)
      × (from_bytes (low_bytes 4 v) ≡ v % 2 ^ 32)
      × (from_bytes (low_bytes 8 v) ≡ v % 2 ^ 64)
unfolding from_bytes low_bytes
from_bytes-low_bytes v = (omega arith, omega arith, omega arith, omega arith)

-- Whatever comes behind these bytes, and however many calls are left, they are read as this value.
abbrev pub Reads : List ℕ → Value → Type 0
Reads bytes v = (calls : ℕ) (rest : List ℕ) → unpack_one (suc calls) (bytes ++ rest) ≡ got (v, rest)

pub combine_type-Reads :
    (t cookie : ℕ) (bytes : List ℕ) (v : Value)
    → t < 2 ^ 3
    → ((rest : List ℕ) (of_table : Result (Value × List ℕ))
        → push_value t cookie (bytes ++ rest) of_table ≡ got (v, rest))
    → Reads (combine_type t cookie ∷ bytes) v
unfolding unpack_one
combine_type-Reads t cookie bytes v lt reads calls rest =
    rw (combine_type-low t cookie lt, combine_type-high t cookie lt) (reads rest _)

pub boolean-Reads : (b : Bool) → Reads (joined (wb_boolean b)) (boolean b)
unfolding wb_boolean
boolean-Reads true =
    combine_type-Reads 1 1 [] (boolean true) (omega arith)
      (unfold push_value in λ rest of_table. refl)
boolean-Reads false =
    combine_type-Reads 1 0 [] (boolean false) (omega arith)
      (unfold push_value in λ rest of_table. refl)

read_lem :
    (n v w : ℕ) (make : ℕ → Value) (rest : List ℕ)
    → from_bytes (low_bytes n v) ≡ w
    → ◌then_do◌ {B = Value × List ℕ}
        (read_number n ((low_bytes n v ++ []) ++ rest))
        (λ (x, rest). got (make x, rest))
      ≡ got (make w, rest)
read_lem n v w make rest e = rw (read_number-low_bytes n v w rest e) refl

pub real-Reads : (v : ℕ) → v < 2 ^ 64 → Reads (joined (wb_real v)) (real v)
unfolding wb_real
real-Reads v lt = combine_type-Reads 2 8 (low_bytes 8 v ++ []) (real v) (omega arith) (
    unfold push_value in
    λ rest of_table. read_lem 8 v v real rest ((from_bytes-low_bytes v).3 ∙ omega (arith, lt)))

pub light_userdata-Reads : (v : ℕ) → v < 2 ^ 64 → Reads (joined (wb_pointer v)) (light_userdata v)
unfolding wb_pointer
light_userdata-Reads v lt =
    combine_type-Reads 3 0 (low_bytes 8 v ++ []) (light_userdata v) (omega arith) (
      unfold push_value in
      λ rest of_table.
        read_lem 8 v v light_userdata rest ((from_bytes-low_bytes v).3 ∙ omega (arith, lt)))

-- `get_integer` gets the number back from its low bytes.
abbrev pub GetsBack : ℕ → ℕ → ℕ → Type 0
GetsBack cookie n v =
    (rest : List ℕ) → get_integer cookie ((low_bytes n v ++ []) ++ rest) ≡ got (v, rest)

byte-GetsBack : (v : ℕ) → v < 2 ^ 8 → GetsBack 1 1 v
unfolding get_integer
byte-GetsBack v lt rest =
    read_number-low_bytes 1 v v rest ((from_bytes-low_bytes v).0 ∙ omega (arith, lt))

word-GetsBack : (v : ℕ) → v < 2 ^ 16 → GetsBack 2 2 v
unfolding get_integer
word-GetsBack v lt rest =
    read_number-low_bytes 2 v v rest ((from_bytes-low_bytes v).1 ∙ omega (arith, lt))

qword-GetsBack : (v : ℕ) → v < 2 ^ 64 → GetsBack 6 8 v
unfolding get_integer
qword-GetsBack v lt rest =
    read_number-low_bytes 8 v v rest ((from_bytes-low_bytes v).3 ∙ omega (arith, lt))

-- An int32_t is extended with its sign.
dword-GetsBack : (v : ℕ) → v < 2 ^ 64 → is_long v ≡ false → GetsBack 4 4 v
unfolding get_integer
dword-GetsBack v lt short rest =
    let same : sign_extend (v % 2 ^ 32) ≡ v = unfold sign_extend in ground (arith, lt, short) in
    rw (read_number-low_bytes 4 v (v % 2 ^ 32) rest (from_bytes-low_bytes v).2, same) refl

-- What holds of a cookie with the low bytes that it stands for, holds of what is pushed for a number.
pub integer_forms :
    (P : List ℕ → Type 0) (v : ℕ)
    → v < 2 ^ 64
    → (v == 0) ≡ false
    → ((cookie n : ℕ)
        → cookie < 8
        → GetsBack cookie n v
        → P (combine_type 2 cookie ∷ low_bytes n v ++ []))
    → P (joined (wb_integer v))
unfolding wb_integer
integer_forms P v lt nz form = elim (Bool-cases (is_long v)) [
  | inl long ↦ rw (nz, long) (form 6 8 (omega arith) (qword-GetsBack v lt))
  | inr short ↦
      let four = form 4 4 (omega arith) (dword-GetsBack v lt short) in
      elim (Bool-cases (is_negative v)) [
        | inl neg ↦ rw (nz, short, neg) four
        | inr pos ↦ elim (Bool-cases (ltb v 0x100)) [
          | inl one ↦
              rw (nz, short, pos, one)
                (form 1 1 (omega arith) (byte-GetsBack v (ground (arith, one))))
          | inr not_one ↦ elim (Bool-cases (ltb v 0x10000)) [
            | inl two ↦
                rw (nz, short, pos, not_one, two)
                  (form 2 2 (omega arith) (word-GetsBack v (ground (arith, two))))
            | inr not_two ↦ rw (nz, short, pos, not_one, not_two) four
          ]
        ]
      ]
]

number-Reads :
    (v cookie n : ℕ)
    → cookie < 8
    → GetsBack cookie n v
    → Reads (combine_type 2 cookie ∷ low_bytes n v ++ []) (integer v)
number-Reads v cookie n lt gets =
    let other : (cookie == 8) ≡ false = ground (arith, lt) in
    combine_type-Reads 2 cookie (low_bytes n v ++ []) (integer v) (omega arith)
      (unfold push_value in λ rest of_table. rw (other, gets rest) refl)

zero-Reads : (v : ℕ) → v ≡ 0 → Reads (combine_type 2 0 ∷ []) (integer v)
zero-Reads v e =
    combine_type-Reads 2 0 [] (integer v) (omega arith)
      (unfold push_value get_integer in λ rest of_table. rw e refl)

pub integer-Reads : (v : ℕ) → v < 2 ^ 64 → Reads (joined (wb_integer v)) (integer v)
integer-Reads v lt = elim (Bool-cases (v == 0)) [
  | inl z ↦ unfold wb_integer in rw z (zero-Reads v (ground (arith, z)))
  | inr nz ↦ integer_forms (λ bytes. Reads bytes (integer v)) v lt nz (number-Reads v)
]
