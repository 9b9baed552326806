-- ===== src/Crypt.antt =====
-- luaclib-src/lua-crypt.cpp: the functions on strings behind the Lua module skynet.crypt. A string
-- is the list of its bytes; what Lua raises as an error is a result of its own. The buffers, on the
-- stack or in a userdata, are not modelled: what is written to one is the result.
pub mod Bytes
pub mod Des
pub mod Text
pub mod Codes
pub mod Dh
pub mod Digest
pub mod Tests
use skynet.Base.{ℕ, List}

-- How a call from Lua ends: with a string, with an error that Lua raises, or with an access outside a
-- buffer, which also stands for what comes of a size that overflows an int.
pub data Outcome : Type 0 where
  returned : List ℕ → Outcome
  raised : Outcome
  faulted : Outcome
