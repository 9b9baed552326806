-- ===== src/Netpack/Queue/Chains.antt =====
-- The chains of uncomplete packets of luaclib-src/lua-netpack.cpp: what is kept for each socket.
use skynet.Base.{
  ℕ, ◌<◌, ◌≡◌, ◌≢◌, refl, ap, sym, ◌∙◌, true, false, Option, none, some, List, [], ◌∷◌, arith,
  length, length-set, get_or-set_self, get_or-set_ne, get_or-replicate, get_or, set, if◌then◌else◌,
  ◌==◌, ==_iff, Bool-cases, inl, inr, subst,
}
use native.Mathlib.Decide.{ℕ_discrete}
use skynet.Netpack.Queue.{
  Uncomplete, MsgQueue, hash_size, new_queue, hash_socket_id, find_in, keep_before, link, unlinked,
  find_uncomplete, link_front, push_data, get_queue, put_tail, expand_packets,
}
use skynet.Netpack.Queue.Ring.{IsRing, packets}

-- The objects of a chain that belong to a socket.
abbrev pub of_socket : ℕ → List Uncomplete → List Uncomplete
of_socket socket_id [] = []
of_socket socket_id (uc ∷ next) =
    if uc.pack.socket_id == socket_id
    then uc ∷ of_socket socket_id next
    else of_socket socket_id next

abbrev pub held : MsgQueue → ℕ → List Uncomplete
held q socket_id = of_socket socket_id (get_or q.hash (hash_socket_id socket_id) [])

hash_socket_id_lt : (socket_id : ℕ) → hash_socket_id socket_id < hash_size
unfolding hash_socket_id
hash_socket_id_lt socket_id = omega arith

-- What the search in a chain finds.
abbrev Finds : ℕ → List Uncomplete → Option (Uncomplete × List Uncomplete) → Type 0
Finds id chain none = of_socket id chain ≡ []
Finds id chain (some (uc, left)) =
    (of_socket id chain ≡ uc ∷ of_socket id left)
    × (uc.pack.socket_id ≡ id)
    × ((other : ℕ) → other ≢ id → of_socket other left ≡ of_socket other chain)

of_socket_skip :
    (id : ℕ) (uc : Uncomplete) (next : List Uncomplete)
    → (uc.pack.socket_id == id) ≡ false
    → of_socket id (uc ∷ next) ≡ of_socket id next
of_socket_skip id uc next different = rw different refl

of_socket_take :
    (id : ℕ) (uc : Uncomplete) (next : List Uncomplete)
    → uc.pack.socket_id ≡ id
    → of_socket id (uc ∷ next) ≡ uc ∷ of_socket id next
of_socket_take id uc next own =
    let same : (uc.pack.socket_id == id) ≡ true = (==_iff _ _).1 own in rw same refl

keep_before-Finds :
    (id : ℕ) (uc : Uncomplete) (next : List Uncomplete)
    → (uc.pack.socket_id == id) ≡ false
    → (o : Option (Uncomplete × List Uncomplete)) → Finds id next o
    → Finds id (uc ∷ next) (keep_before uc o)
unfolding keep_before
keep_before-Finds id uc next different none e = of_socket_skip id uc next different ∙ e
keep_before-Finds id uc next different (some (found, left)) (e, own, others) = (
  of_socket_skip id uc next different
      ∙ e
      ∙ ap (λ l. found ∷ l) (sym (of_socket_skip id uc left different)),
  own,
  λ other ne. ap (λ l. if uc.pack.socket_id == other then uc ∷ l else l) (others other ne),
)

first_found :
    (id : ℕ) (uc : Uncomplete) (next : List Uncomplete)
    → (uc.pack.socket_id == id) ≡ true
    → find_in id (uc ∷ next) ≡ some (uc, next)
unfolding find_in
first_found id uc next same = rw same refl

later_found :
    (id : ℕ) (uc : Uncomplete) (next : List Uncomplete)
    → (uc.pack.socket_id == id) ≡ false
    → find_in id (uc ∷ next) ≡ keep_before uc (find_in id next)
unfolding find_in
later_found id uc next different = rw different refl

find_in_lem : (id : ℕ) (chain : List Uncomplete) → Finds id chain (find_in id chain)
unfolding find_in
find_in_lem id [] = refl
find_in_lem id (uc ∷ next) = elim (Bool-cases (uc.pack.socket_id == id)) [
  | inl same ↦
      let e = (==_iff _ _).0 same in
      subst (Finds id (uc ∷ next)) (sym (first_found id uc next same)) (
        of_socket_take id uc next e,
        e,
        λ other ne. sym (of_socket_skip other uc next (ground (arith, e, ne))),
      )
  | inr different ↦
      rw different (keep_before-Finds id uc next different (find_in id next) (find_in_lem id next))
]

abbrev Slots : MsgQueue → Type 0
Slots q = length q.hash ≡ hash_size

-- What a new chain at the place of a socket changes.
held-link_self :
    (q : MsgQueue) (id : ℕ) (chain : List Uncomplete)
    → Slots q
    → held (link q (hash_socket_id id) chain) id ≡ of_socket id chain
unfolding link
held-link_self q id chain slots = ap (of_socket id) (
    get_or-set_self q.hash (hash_socket_id id) chain []
      (omega (arith, hash_socket_id_lt id, slots)))

held-link_other :
    (q : MsgQueue) (id other : ℕ) (chain : List Uncomplete)
    → Slots q
    → of_socket other chain ≡ of_socket other (get_or q.hash (hash_socket_id id) [])
    → held (link q (hash_socket_id id) chain) other ≡ held q other
unfolding link
held-link_other q id other chain slots e =
    elim (ℕ_discrete (hash_socket_id other) (hash_socket_id id)) [
      | yes same ↦
          ap (λ h. of_socket other (get_or (set q.hash (hash_socket_id id) chain) h [])) same
          ∙ ap (of_socket other) (
              get_or-set_self q.hash (hash_socket_id id) chain []
                (omega (arith, hash_socket_id_lt id, slots)))
          ∙ e
          ∙ sym (ap (λ h. of_socket other (get_or q.hash h [])) same)
      | no different ↦ ap (of_socket other) (
          get_or-set_ne q.hash (hash_socket_id id) (hash_socket_id other) chain []
            (λ e'. different (sym e')))
    ]

-- `_find_uncomplete` takes out the first object of the socket and leaves those of the others.
abbrev pub TakesOut : MsgQueue → ℕ → Option (Uncomplete × MsgQueue) → Type 0
TakesOut q id none = held q id ≡ []
TakesOut q id (some (uc, q')) =
    (held q id ≡ uc ∷ held q' id)
    × (uc.pack.socket_id ≡ id)
    × ((other : ℕ) → other ≢ id → held q' other ≡ held q other)
    × (length q'.hash ≡ hash_size)
    × (IsRing q → IsRing q')
    × (packets q' ≡ packets q)

unlinked_lem :
    (q : MsgQueue) (id : ℕ) (o : Option (Uncomplete × List Uncomplete))
    → length q.hash ≡ hash_size
    → Finds id (get_or q.hash (hash_socket_id id) []) o
    → TakesOut q id (unlinked q (hash_socket_id id) o)
unfolding unlinked link
unlinked_lem q id none slots e = e
unlinked_lem q id (some (uc, left)) slots (e, own, others) = (
  e ∙ ap (λ l. uc ∷ l) (sym (held-link_self q id left slots)),
  own,
  λ other ne. held-link_other q id other left slots (others other ne),
  length-set q.hash (hash_socket_id id) left ∙ slots,
  λ v. omega (arith, v),
  refl,
)

pub find_uncomplete_lem :
    (q : MsgQueue) (id : ℕ)
    → length q.hash ≡ hash_size
    → TakesOut q id (find_uncomplete (some q) id)
unfolding find_uncomplete
find_uncomplete_lem q id slots =
    let chain = get_or q.hash (hash_socket_id id) [] in
    unlinked_lem q id (find_in id chain) slots (find_in_lem id chain)

-- `link_front` puts an object before those of its socket, and leaves those of the others.
pub link_front_lem :
    (q : MsgQueue) (id : ℕ) (uc : Uncomplete)
    → length q.hash ≡ hash_size
    → uc.pack.socket_id ≡ id
    → (held (link_front q id uc) id ≡ uc ∷ held q id)
      × ((other : ℕ) → other ≢ id → held (link_front q id uc) other ≡ held q other)
      × (length (link_front q id uc).hash ≡ hash_size)
      × (IsRing q → IsRing (link_front q id uc))
      × (packets (link_front q id uc) ≡ packets q)
unfolding link_front link
link_front_lem q id uc slots own =
    let chain = get_or q.hash (hash_socket_id id) [] in
    (
      held-link_self q id (uc ∷ chain) slots ∙ of_socket_take id uc chain own,
      λ other ne.
          held-link_other q id other (uc ∷ chain) slots
            (of_socket_skip other uc chain (ground (arith, own, ne))),
      length-set q.hash (hash_socket_id id) (uc ∷ chain) ∙ slots,
      λ v. omega (arith, v),
      refl,
    )

pub held-new_queue : (id : ℕ) → held new_queue id ≡ []
held-new_queue id =
    ap (of_socket id) (get_or-replicate {A = List Uncomplete} hash_size (hash_socket_id id) [])

pub hash-push_data :
    (q : MsgQueue) (id : ℕ) (buffer : List ℕ) (size : ℕ)
    → (push_data (some q) id buffer size).hash ≡ q.hash
unfolding push_data get_queue put_tail expand_packets
hash-push_data q id buffer size = ground arith
