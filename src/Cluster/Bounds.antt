-- ===== src/Cluster/Bounds.antt =====
-- Where `l_unpackrequest` and `l_unpackresponse` of luaclib-src/lua-cluster.cpp read.
use skynet.Base.{
  ℕ, ◌+◌, ◌≤◌, ◌≡◌, ◌≢◌, ◌↔◌, ◌<◌, ◌^◌, refl, arith, List, [], ◌∷◌, length, drop, length-drop, ltb,
  ◌==◌, ◌||◌, not, Bool, true, false, if◌then◌else◌,
}
use skynet.Base.Result.{Result, got, invalid, outside, ◌then_do◌}
use skynet.Cluster.Wire.{unpack_uint32}
use skynet.Cluster.Request.{
  unpackreq_number, unpackmreq_number, unpackmreq_part, unpackreq_string, unpackmreq_string,
  unpackrequest, unpackrequest_userdata,
}
use skynet.Cluster.Response.{unpack_body, unpackresponse}

-- A value, or an error that Lua raises.
data Inside {ℓ} {A : Type ℓ} : Result A → Type ℓ where
  value : {a : A} → Inside (got a)
  error : Inside invalid

Inside-outside {ℓ} : {A : Type ℓ} {r : Result A} → Inside r → r ≢ outside
Inside-outside value = cc
Inside-outside error = cc

module _ {ℓ} {A : Type ℓ} where
  if-Inside :
      (b : Bool) {x y : Result A}
      → (b ≡ true → Inside x)
      → (b ≡ false → Inside y)
      → Inside (if b then x else y)
  if-Inside true hx hy = hx refl
  if-Inside false hx hy = hy refl

  -- The number is there.
  unpack_uint32-Inside :
      (buf : List ℕ) {f : ℕ → Result A}
      → 4 ≤ length buf
      → ((n : ℕ) → Inside (f n))
      → Inside (unpack_uint32 buf then_do f)
  unfolding unpack_uint32
  unpack_uint32-Inside [] le k = absurd (omega arith)
  unpack_uint32-Inside (a ∷ []) le k = absurd (omega arith)
  unpack_uint32-Inside (a ∷ b ∷ []) le k = absurd (omega arith)
  unpack_uint32-Inside (a ∷ b ∷ c ∷ []) le k = absurd (omega arith)
  unpack_uint32-Inside (a ∷ b ∷ c ∷ d ∷ buf) le k = k _

unpackreq_number-Inside : (buf : List ℕ) → Inside (unpackreq_number buf)
unfolding unpackreq_number
unpackreq_number-Inside buf =
    if-Inside (ltb (length buf) 9) (λ short. error)
      (λ long.
        unpack_uint32-Inside (drop 1 buf) (ground (arith, long, length-drop 1 buf)) (λ address.
          unpack_uint32-Inside (drop 5 buf) (ground (arith, long, length-drop 5 buf))
            (λ session. value)))

unpackmreq_number-Inside : (buf : List ℕ) (is_push : Bool) → Inside (unpackmreq_number buf is_push)
unfolding unpackmreq_number
unpackmreq_number-Inside buf is_push =
    if-Inside (not (length buf == 13)) (λ wrong. error)
      (λ exact.
        unpack_uint32-Inside (drop 1 buf) (ground (arith, exact, length-drop 1 buf)) (λ address.
          unpack_uint32-Inside (drop 5 buf) (ground (arith, exact, length-drop 5 buf)) (λ session.
            unpack_uint32-Inside (drop 9 buf) (ground (arith, exact, length-drop 9 buf))
              (λ size. value))))

unpackmreq_part-Inside : (padding : Bool) (buf : List ℕ) → Inside (unpackmreq_part padding buf)
unfolding unpackmreq_part
unpackmreq_part-Inside padding buf =
    if-Inside (ltb (length buf) 5) (λ short. error)
      (λ long.
        unpack_uint32-Inside (drop 1 buf) (ground (arith, long, length-drop 1 buf))
          (λ session. value))

unpackreq_string-Inside : (buf : List ℕ) → Inside (unpackreq_string buf)
unfolding unpackreq_string
unpackreq_string-Inside [] = error
unpackreq_string-Inside (type ∷ []) = error
unpackreq_string-Inside (type ∷ namesz ∷ buf) =
    if-Inside (ltb (2 + length buf) (namesz + 6)) (λ short. error)
      (λ long.
        unpack_uint32-Inside (drop namesz buf) (ground (arith, long, length-drop namesz buf))
          (λ session. value))

unpackmreq_string-Inside : (buf : List ℕ) (is_push : Bool) → Inside (unpackmreq_string buf is_push)
unfolding unpackmreq_string
unpackmreq_string-Inside [] is_push = error
unpackmreq_string-Inside (type ∷ []) is_push = error
unpackmreq_string-Inside (type ∷ namesz ∷ buf) is_push =
    if-Inside (ltb (2 + length buf) (namesz + 10)) (λ short. error)
      (λ long.
        unpack_uint32-Inside (drop namesz buf) (ground (arith, long, length-drop namesz buf))
          (λ session.
            unpack_uint32-Inside (drop (namesz + 4) buf)
              (ground (arith, long, length-drop (namesz + 4) buf)) (λ size. value)))

unpackrequest-Inside : (buf : List ℕ) → Inside (unpackrequest buf)
unfolding unpackrequest
unpackrequest-Inside [] = error
unpackrequest-Inside (type ∷ buf) =
    let msg = type ∷ buf in
    if-Inside (type == 0) (λ h. unpackreq_number-Inside msg)
      (λ h.
        if-Inside (type == 1) (λ h. unpackmreq_number-Inside msg false)
          (λ h.
            if-Inside (type == 0x41) (λ h. unpackmreq_number-Inside msg true)
              (λ h.
                if-Inside (type == 2 || type == 3) (λ h. unpackmreq_part-Inside (type == 2) msg)
                  (λ h.
                    if-Inside (type == 4) (λ h. value)
                      (λ h.
                        if-Inside (type == 0x80) (λ h. unpackreq_string-Inside msg)
                          (λ h.
                            if-Inside (type == 0x81) (λ h. unpackmreq_string-Inside msg false)
                              (λ h.
                                if-Inside (type == 0xc1) (λ h. unpackmreq_string-Inside msg true)
                                  (λ h. error))))))))

unpack_body-Inside :
    (session : ℕ) (body : List ℕ) → 1 ≤ length body → Inside (unpack_body session body)
unfolding unpack_body
unpack_body-Inside session [] le = absurd (omega arith)
unpack_body-Inside session (type ∷ msg) le =
    if-Inside (type == 0) (λ h. value)
      (λ h.
        if-Inside (type == 1 || type == 4) (λ h. value)
          (λ h.
            if-Inside (type == 2)
              (λ h.
                if-Inside (not (length msg == 4)) (λ wrong. value)
                  (λ exact. unpack_uint32-Inside msg (ground (arith, exact)) (λ sz. value)))
              (λ h. if-Inside (type == 3) (λ h. value) (λ h. value))))

unpackresponse-Inside : (buf : List ℕ) → Inside (unpackresponse buf)
unfolding unpackresponse
unpackresponse-Inside buf =
    if-Inside (ltb (length buf) 5) (λ short. value)
      (λ long. unpack_uint32-Inside buf (ground (arith, long)) (λ session.
        unpack_body-Inside session (drop 4 buf) (ground (arith, long, length-drop 4 buf))))

userdata-outside : (buf : List ℕ) → (unpackrequest_userdata buf ≡ outside) ↔ (buf ≡ [])
unfolding unpackrequest_userdata
userdata-outside [] = (λ h. refl, λ h. refl)
userdata-outside (type ∷ buf) =
    (λ h. absurd (Inside-outside (unpackrequest-Inside (type ∷ buf)) h), λ h. absurd (cc h))

-- Of bytes whose number is an int, with every type and every length of a name, `l_unpackrequest` of a string and `l_unpackresponse` read
-- no byte that is not theirs; `l_unpackrequest` of a lightuserdata, as a frame from the gate arrives,
-- does so exactly for a frame of no bytes.
pub unpack_inside :
    (buf : List ℕ)
    → length buf < 2 ^ 31
    → (unpackrequest buf ≢ outside)
      × (unpackresponse buf ≢ outside)
      × ((unpackrequest_userdata buf ≡ outside) ↔ (buf ≡ []))
unpack_inside buf fits = (
  Inside-outside (unpackrequest-Inside buf),
  Inside-outside (unpackresponse-Inside buf),
  userdata-outside buf,
)
