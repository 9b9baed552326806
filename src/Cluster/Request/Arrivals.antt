-- ===== src/Cluster/Request/Arrivals.antt =====
-- Requests of luaclib-src/lua-cluster.cpp where they arrive, among those of other sessions.
use skynet.Base.{
  ℕ, ◌≡◌, refl, sym, ap, subst, ◌∙◌, arith, Option, none, some, List, [], ◌∷◌, ◌==◌, ==_iff, Bool,
  true, false, Bool-cases, inl, inr, if◌then◌else◌,
}
use skynet.Base.Result.{Result, got, invalid, outside, out_of_calls}
use skynet.Cluster.Request.{
  Address, Unpacked, request, multi_request, request_part, trace_tag, unpackrequest,
}
use skynet.Cluster.Collect.{
  Large, LargeRequest, store, Event, kept, delivered, invalid_large, thrown, append_to, conclude,
  finish, concat, append, dispatch_request,
}

abbrev keep : Result Unpacked → List Unpacked → List Unpacked
keep (got u) us = u ∷ us
keep failed us = us

-- What is read of the contents of packages, but those for which an error is raised.
abbrev pub received : List (List ℕ) → List Unpacked
received [] = []
received (c ∷ cs) = keep (unpackrequest c) (received cs)

abbrev pub is_of : ℕ → Unpacked → Bool
is_of s (request addr session msg is_push) = session == s
is_of s (multi_request addr session sz is_push) = session == s
is_of s (request_part session msg padding) = session == s
is_of s (trace_tag tag) = false

abbrev pub of_session : ℕ → List Unpacked → List Unpacked
of_session s [] = []
of_session s (u ∷ us) = if is_of s u then (u ∷ of_session s us) else of_session s us

-- What comes of requests, one after the other.
abbrev pub arrivals : Large → List Unpacked → List Event
arrivals large [] = []
arrivals large (u ∷ us) = (dispatch_request large u).1 ∷ arrivals (dispatch_request large u).0 us

abbrev pub about : ℕ → Event → Bool
about s kept = false
about s (delivered addr session msg is_push) = session == s
about s (invalid_large session) = session == s
about s (thrown session) = session == s

abbrev pub events_of : ℕ → List Event → List Event
events_of s [] = []
events_of s (e ∷ es) = if about s e then (e ∷ events_of s es) else events_of s es

store_lem :
    (large large' : Large) (s session : ℕ) (r : Option LargeRequest)
    → large s ≡ large' s
    → store large session r s ≡ store large' session r s
unfolding store
store_lem large large' s session r e = ap (λ o. if s == session then r else o) e

store_other :
    (large : Large) (s session : ℕ) (r : Option LargeRequest)
    → (session == s) ≡ false
    → store large session r s ≡ large s
unfolding store
store_other large s session r e =
    let other : (s == session) ≡ false = ground (arith, e) in rw other refl

conclude-about :
    (s session : ℕ) (r : LargeRequest) (text : Result (List ℕ))
    → about s (conclude session r text) ≡ (session == s)
unfolding conclude
conclude-about s session r (got msg) = refl
conclude-about s session r invalid = refl
conclude-about s session r outside = refl
conclude-about s session r out_of_calls = refl

finish-about :
    (s session : ℕ) (o : Option LargeRequest) (addr : Option Address) (msg : List ℕ)
    (is_push : Bool)
    → about s (finish o addr session msg is_push) ≡ (session == s)
unfolding finish
finish-about s session none addr msg is_push = refl
finish-about s session (some r) addr msg is_push =
    conclude-about s session r (concat (append r.req (some msg) 0))

-- Two tables that agree on a session do after a request of it, and the same comes of it.
Agree : ℕ → Large × Event → Large × Event → Type 0
Agree s r r' = (r.0 s ≡ r'.0 s) × (r.1 ≡ r'.1)

dispatch_own :
    (large large' : Large) (s : ℕ) (u : Unpacked)
    → is_of s u ≡ true
    → large s ≡ large' s
    → Agree s (dispatch_request large u) (dispatch_request large' u)
unfolding dispatch_request Agree
dispatch_own large large' s (request addr session msg is_push) own e =
    let here = subst (λ n. large n ≡ large' n) (sym ((==_iff session s).0 own)) e in
    (
      store_lem large large' s session none e,
      ap (λ o. finish o (some addr) session msg is_push) here,
    )
dispatch_own large large' s (multi_request addr session sz is_push) own e =
    let here = subst (λ n. large n ≡ large' n) (sym ((==_iff session s).0 own)) e in
    (
      ap (λ o. store large session (some (append_to o (some addr) is_push none sz)) s) here
          ∙ store_lem large large' s session _ e,
      refl,
    )
dispatch_own large large' s (request_part session msg true) own e =
    let here = subst (λ n. large n ≡ large' n) (sym ((==_iff session s).0 own)) e in
    (
      ap (λ o. store large session (some (append_to o none false (some msg) 0)) s) here
          ∙ store_lem large large' s session _ e,
      refl,
    )
dispatch_own large large' s (request_part session msg false) own e =
    let here = subst (λ n. large n ≡ large' n) (sym ((==_iff session s).0 own)) e in
    (store_lem large large' s session none e, ap (λ o. finish o none session msg false) here)
dispatch_own large large' s (trace_tag tag) own e = absurd (cc)

dispatch_other :
    (large : Large) (s : ℕ) (u : Unpacked)
    → is_of s u ≡ false
    → ((dispatch_request large u).0 s ≡ large s) × (about s (dispatch_request large u).1 ≡ false)
unfolding dispatch_request
dispatch_other large s (request addr session msg is_push) other = (
  store_other large s session none other,
  finish-about s session (large session) (some addr) msg is_push ∙ other,
)
dispatch_other large s (multi_request addr session sz is_push) other =
    (store_other large s session _ other, refl)
dispatch_other large s (request_part session msg true) other =
    (store_other large s session _ other, refl)
dispatch_other large s (request_part session msg false) other = (
  store_other large s session none other,
  finish-about s session (large session) none msg false ∙ other,
)
dispatch_other large s (trace_tag tag) other = (refl, refl)

-- What comes of the requests of a session does not depend on what else arrives between them, nor on what
-- is kept of other sessions.
pub arrivals-of_session :
    (s : ℕ) (large large' : Large) (us : List Unpacked)
    → large s ≡ large' s
    → events_of s (arrivals large us) ≡ events_of s (arrivals large' (of_session s us))
unfolding Agree
arrivals-of_session s large large' [] e = refl
arrivals-of_session s large large' (u ∷ us) e = elim (Bool-cases (is_of s u)) [
  | inl own ↦
      let (after, same) = dispatch_own large large' s u own e in
      let later =
        arrivals-of_session s (dispatch_request large u).0 (dispatch_request large' u).0 us after in
      rw (own, same, later) refl
  | inr other ↦
      let (after, silent) = dispatch_other large s u other in
      rw (other, silent) (arrivals-of_session s (dispatch_request large u).0 large' us (after ∙ e))
]
