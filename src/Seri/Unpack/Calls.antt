-- ===== src/Seri/Unpack/Calls.antt =====
-- How often the functions of luaclib-src/lua-seri.cpp call each other to read a stream.
use skynet.Base.{
  ℕ, zero, suc, ◌+◌, ◌-◌, ◌*◌, ◌/◌, ◌^◌, ◌≤◌, ◌<◌, arith, List, [], ◌∷◌, length, length-drop, ltb,
  leb, ◌==◌, ◌||◌, not,
}
use Prim.Native.Nat.{bit_and}
use skynet.Seri.{Value, is_nan}
use skynet.Base.Result.{Result, ◌then_do◌, Keeps, gets, raises, faults, if-Keeps, then_do-Keeps}
use skynet.Seri.Write.{max_cookie}
use skynet.Seri.Pack.{is_nil}
use skynet.Seri.Unpack.{
  rb_read, read_number, get_integer, get_buffer, read_array_size, array_count, get_long, push_value,
  unpack_one, unpack_items, unpack_pairs, unpack_all, luaseri_unpack,
}

-- At most so many bytes are left.
abbrev Leaves {ℓ} : {A : Type ℓ} → ℕ → Result (A × List ℕ) → Type ℓ
Leaves n r = Keeps (λ p. length p.1 ≤ n) r

more-Leaves {ℓ} : {A : Type ℓ} {m n : ℕ} {r : Result (A × List ℕ)} → m ≤ n → Leaves m r → Leaves n r
more-Leaves le (gets h) = gets (omega arith)
more-Leaves le raises = raises
more-Leaves le faults = faults

rb_read-Leaves : (sz : ℕ) (stream : List ℕ) → Leaves (length stream - sz) (rb_read sz stream)
unfolding rb_read
rb_read-Leaves sz stream =
    if-Keeps (ltb (length stream) sz) raises (gets (omega (arith, length-drop sz stream)))

read_number-Leaves : (sz : ℕ) (stream : List ℕ) → Leaves (length stream) (read_number sz stream)
read_number-Leaves sz stream =
    then_do-Keeps (rb_read-Leaves sz stream) (λ p h. gets (omega (arith, h)))

get_integer-Leaves :
    (cookie : ℕ) (stream : List ℕ) → Leaves (length stream) (get_integer cookie stream)
unfolding get_integer
get_integer-Leaves cookie stream = if-Keeps (cookie == 0) (gets (omega arith)) (
    if-Keeps (cookie == 1) (read_number-Leaves 1 stream) (
      if-Keeps (cookie == 2) (read_number-Leaves 2 stream) (
        if-Keeps (cookie == 4) (then_do-Keeps (read_number-Leaves 4 stream) (λ p h. gets h))
          (if-Keeps (cookie == 6) (read_number-Leaves 8 stream) raises))))

get_buffer-Leaves : (len : ℕ) (stream : List ℕ) → Leaves (length stream) (get_buffer len stream)
unfolding get_buffer
get_buffer-Leaves len stream =
    if-Keeps (leb (2 ^ 31) len) faults
      (then_do-Keeps (rb_read-Leaves len stream) (λ p h. gets (omega (arith, h))))

-- A size, and the string behind it.
sized-Leaves :
    (sz : ℕ) (stream : List ℕ)
    → Leaves
        (length stream)
        (◌then_do◌ {B = Value × List ℕ} (read_number sz stream) (λ (n, rest). get_buffer n rest))
sized-Leaves sz stream =
    then_do-Keeps (read_number-Leaves sz stream) (λ p h. more-Leaves h (get_buffer-Leaves p.0 p.1))

get_long-Leaves : (cookie : ℕ) (stream : List ℕ) → Leaves (length stream) (get_long cookie stream)
unfolding get_long
get_long-Leaves cookie stream =
    if-Keeps (cookie == 2) (sized-Leaves 2 stream)
      (if-Keeps (not (cookie == 4)) raises (sized-Leaves 4 stream))

read_array_size-Leaves :
    (type : ℕ) (stream : List ℕ) → Leaves (length stream) (read_array_size type stream)
unfolding read_array_size
read_array_size-Leaves type stream =
    if-Keeps (not (bit_and type 7 == 2) || type / 2 ^ 3 == 8) raises
      (then_do-Keeps (get_integer-Leaves (type / 2 ^ 3) stream) (λ p h. gets h))

array_count-Leaves : (n : ℕ) (stream : List ℕ) → Leaves (length stream) (array_count n stream)
unfolding array_count
array_count-Leaves n stream =
    if-Keeps (n == max_cookie - 1)
      (then_do-Keeps (rb_read-Leaves 1 stream)
        (λ p h. more-Leaves (omega (arith, h)) (read_array_size-Leaves _ p.1)))
      (gets (omega arith))

push_value-Leaves :
    (type cookie : ℕ) (stream : List ℕ) (of_table : Result (Value × List ℕ))
    → Leaves (length stream) of_table
    → Leaves (length stream) (push_value type cookie stream of_table)
unfolding push_value
push_value-Leaves type cookie stream of_table t = if-Keeps (type == 0) (gets (omega arith)) (
    if-Keeps (type == 1) (gets (omega arith)) (
      if-Keeps (type == 2)
        (if-Keeps (cookie == 8) (then_do-Keeps (read_number-Leaves 8 stream) (λ p h. gets h))
          (then_do-Keeps (get_integer-Leaves cookie stream) (λ p h. gets h)))
        (if-Keeps (type == 3) (then_do-Keeps (read_number-Leaves 8 stream) (λ p h. gets h)) (
          if-Keeps (type == 4) (get_buffer-Leaves cookie stream) (
            if-Keeps (type == 5) (get_long-Leaves cookie stream)
              (if-Keeps (type == 6) t raises))))))

-- Something is read in `unpack_one`, so that the stream gets shorter.
Shortens {ℓ} : {A : Type ℓ} → List ℕ → Result (A × List ℕ) → Type ℓ
Shortens stream r = Keeps (λ p. length p.1 < length stream) r

Leaves-Shortens {ℓ} :
    {A : Type ℓ} {r : Result (A × List ℕ)} (type : ℕ) (stream : List ℕ)
    → Leaves (length stream) r
    → Shortens (type ∷ stream) r
unfolding Shortens
Leaves-Shortens type stream (gets h) = gets (omega arith)
Leaves-Shortens type stream raises = raises
Leaves-Shortens type stream faults = faults

mutual
  unfolding unpack_one Shortens

  unpack_one-Shortens :
      (calls : ℕ) (stream : List ℕ)
      → 2 * length stream + 1 ≤ calls
      → Shortens stream (unpack_one calls stream)
  unpack_one-Shortens zero stream le = absurd (omega (arith, le))
  unpack_one-Shortens (suc calls) [] le = raises
  unpack_one-Shortens (suc calls) (type ∷ stream) le = Leaves-Shortens type stream (
      push_value-Leaves _ _ stream _ (
        then_do-Keeps (array_count-Leaves (type / 2 ^ 3) stream) (λ p h.
          then_do-Keeps (more-Leaves h (unpack_items-Leaves calls p.0 p.1 (omega (arith, le, h))))
            (λ q h'.
              then_do-Keeps (more-Leaves h' (unpack_pairs-Leaves calls q.1 (omega (arith, le, h'))))
                (λ r h''. gets h'')))))

  unpack_items-Leaves :
      (calls n : ℕ) (stream : List ℕ)
      → 2 * length stream + 2 ≤ calls
      → Leaves (length stream) (unpack_items calls n stream)
  unpack_items-Leaves zero n stream le = absurd (omega (arith, le))
  unpack_items-Leaves (suc calls) zero stream le = gets (omega arith)
  unpack_items-Leaves (suc calls) (suc n) stream le =
      then_do-Keeps (unpack_one-Shortens calls stream (omega (arith, le))) (λ p h.
        then_do-Keeps (unpack_items-Leaves calls n p.1 (omega (arith, le, h)))
          (λ q h'. gets (omega (arith, h, h'))))

  unpack_pairs-Leaves :
      (calls : ℕ) (stream : List ℕ)
      → 2 * length stream + 2 ≤ calls
      → Leaves (length stream) (unpack_pairs calls stream)
  unpack_pairs-Leaves zero stream le = absurd (omega (arith, le))
  unpack_pairs-Leaves (suc calls) stream le =
      then_do-Keeps (unpack_one-Shortens calls stream (omega (arith, le))) (λ p h.
        if-Keeps (is_nil p.0) (gets (omega (arith, h))) (
          then_do-Keeps (unpack_one-Shortens calls p.1 (omega (arith, le, h))) (λ q h'.
            if-Keeps (is_nan p.0) raises (
              then_do-Keeps (unpack_pairs-Leaves calls q.1 (omega (arith, le, h, h')))
                (λ r h''. gets (omega (arith, h, h', h'')))))))

unpack_all-Keeps :
    (calls : ℕ) (stream : List ℕ)
    → 2 * length stream + 2 ≤ calls
    → Keeps (λ vs. length vs ≤ length stream) (unpack_all calls stream)
unfolding unpack_all Shortens
unpack_all-Keeps zero stream le = absurd (omega (arith, le))
unpack_all-Keeps (suc calls) [] le = gets (omega arith)
unpack_all-Keeps (suc calls) (b ∷ stream) le =
    then_do-Keeps (unpack_one-Shortens calls (b ∷ stream) (omega (arith, le))) (λ p h.
      then_do-Keeps (unpack_all-Keeps calls p.1 (omega (arith, le, h)))
        (λ vs h'. gets (omega (arith, h, h'))))

-- Of every stream `luaseri_unpack` makes an end within two calls a byte and two more: it returns no more
-- values than there are bytes, or raises an error, or reads outside the stream.
pub luaseri_unpack-Keeps :
    (stream : List ℕ) → Keeps (λ vs. length vs ≤ length stream) (luaseri_unpack stream)
unfolding luaseri_unpack
luaseri_unpack-Keeps stream = unpack_all-Keeps (2 * length stream + 2) stream (omega arith)
