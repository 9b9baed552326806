-- ===== src/Crypt/Dh.antt =====
-- The Diffie-Hellman key exchange of luaclib-src/lua-crypt.cpp. A uint64_t is taken modulo 2 ^ 64.
pub mod Arith
pub mod Agree
use Prim.Native.Nat.{bit_and, bit_or}
use skynet.Base.{
  ℕ, zero, suc, ◌+◌, ◌-◌, ◌*◌, ◌/◌, ◌%◌, ◌^◌, Option, none, some, List, [], ◌∷◌, ltb, leb, ◌==◌,
  ◌||◌, if◌then◌else◌, ◌>>=◌,
}
use skynet.Crypt.{Outcome, returned, raised, faulted}
use skynet.Crypt.Des.{shl, shr, or_all}

-- P and G
abbrev pub prime : ℕ
prime = 0xffffffffffffffc5

abbrev pub generator : ℕ
generator = 5

-- What is taken for `t`: P - a.
abbrev pub gap : ℕ → ℕ
gap a = (prime + 2 ^ 64 - a) % 2 ^ 64

-- `if (m >= t) m -= t; else m += a;`
unfoldable pub add_mod_p : ℕ → ℕ → ℕ
add_mod_p m a = if leb (gap a) m then m - gap a else (m + a) % 2 ^ 64

-- `if (a >= P - a) a = a * 2 - P; else a = a * 2;`
unfoldable pub double_mod_p : ℕ → ℕ
double_mod_p a =
    if leb (gap a) a then (a * 2 % 2 ^ 64 + 2 ^ 64 - prime) % 2 ^ 64 else a * 2 % 2 ^ 64

-- The loop of `mul_mod_p`, from m: 64 rounds take every bit of a uint64_t.
unfoldable pub mul_loop : ℕ → ℕ → ℕ → ℕ → ℕ
mul_loop zero m a b = m
mul_loop (suc rounds) m a b =
    let added = if bit_and b 1 == 1 then add_mod_p m a else m in
    let result = mul_loop rounds added (double_mod_p a) (shr b 1) in if b == 0 then m else result

unfoldable pub mul_mod_p : ℕ → ℕ → ℕ
mul_mod_p a b = mul_loop 64 0 a b

-- `pow_mod_p`, with so many calls at most: none where they do not suffice, as for b = 0, where the
-- code has no end.
unfoldable pub pow_mod_p : ℕ → ℕ → ℕ → Option ℕ
pow_mod_p zero a b = none
pow_mod_p (suc calls) a b =
    let root = pow_mod_p calls a (shr b 1) in
    if b == 1
    then some a
    else (root >>= λ t.
        let square = mul_mod_p t t in some (if b % 2 == 0 then square else mul_mod_p square a))

unfoldable pub powmodp : ℕ → ℕ → Option ℕ
powmodp a b = pow_mod_p 64 (if ltb prime a then a % prime else a) b

-- A number from the eight bytes of a string, in two words; none for a string of another length.
unfoldable pub word_of : ℕ → ℕ → ℕ → ℕ → ℕ
word_of a b c d = or_all (a ∷ shl b 8 ∷ shl c 16 ∷ shl d 24 ∷ [])

unfoldable pub read64 : List ℕ → Option ℕ
read64 (a ∷ b ∷ c ∷ d ∷ e ∷ f ∷ g ∷ h ∷ []) =
    some (bit_or (word_of a b c d) (word_of e f g h * 2 ^ 32 % 2 ^ 64))
read64 x = none

unfoldable pub push64 : ℕ → List ℕ
push64 r =
    bit_and r 0xff
    ∷ bit_and (shr r 8) 0xff
    ∷ bit_and (shr r 16) 0xff
    ∷ bit_and (shr r 24) 0xff
    ∷ bit_and (shr r 32) 0xff
    ∷ bit_and (shr r 40) 0xff
    ∷ bit_and (shr r 48) 0xff
    ∷ bit_and (shr r 56) 0xff
    ∷ []

-- A call of `powmodp` that does not end is a fault: the stack is finite.
unfoldable pub push_power : Option ℕ → Outcome
push_power none = faulted
push_power (some r) = returned (push64 r)

unfoldable pub secret_of : Option ℕ → Option ℕ → Outcome
secret_of (some xx) (some yy) = if xx == 0 || yy == 0 then raised else push_power (powmodp xx yy)
secret_of none yy = raised
secret_of (some xx) none = raised

-- `l_dh_secret`
unfoldable pub dh_secret : List ℕ → List ℕ → Outcome
dh_secret x y = secret_of (read64 x) (read64 y)

unfoldable pub exchange_of : Option ℕ → Outcome
exchange_of none = raised
exchange_of (some x64) = if x64 == 0 then raised else push_power (powmodp generator x64)

-- `l_dh_exchange`
unfoldable pub dh_exchange : List ℕ → Outcome
dh_exchange x = exchange_of (read64 x)
