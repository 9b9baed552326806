-- ===== src/Netpack/Frames/Closed.antt =====
-- `l_filter` of luaclib-src/lua-netpack.cpp where a socket is closed.
use skynet.Base.{◌≡◌, ◌≢◌, refl, subst, ℕ, Option, none, some, []}
use skynet.Netpack.Queue.{MsgQueue, Uncomplete, find_uncomplete}
use skynet.Netpack.Queue.Ring.{packets}
use skynet.Netpack.Queue.Chains.{held, find_uncomplete_lem, TakesOut}
use skynet.Netpack.Filter.{
  close_of, SocketMessage, event_close, close_uncomplete, without_found, filter,
}
use skynet.Netpack.Frames.{AtMostOne, IsQueue}
use skynet.Netpack.Frames.Resumed.{alone, taken-IsQueue}

abbrev Forgets : MsgQueue → ℕ → Option MsgQueue → Type 0
Forgets q id o =
    (q' : MsgQueue) × (o ≡ some q')
    × (held q' id ≡ [])
    × ((other : ℕ) → other ≢ id → held q' other ≡ held q other)
    × (packets q' ≡ packets q)
    × IsQueue q'

without_found_lem :
    (q : MsgQueue) (id : ℕ) (o : Option (Uncomplete × MsgQueue))
    → IsQueue q
    → TakesOut q id o
    → Forgets q id (without_found (some q) o)
unfolding without_found
without_found_lem q id none v free = (q, refl, free, λ other ne. refl, refl, v)
without_found_lem q id (some (uc, q')) v (e, own, others, slots, ring, same) =
    let (free, p) = alone uc (held q' id) (subst AtMostOne e (v.kept id)) in
    (q', refl, free, others, same, taken-IsQueue v ring slots free others)

-- When a socket is closed, what was kept of it is forgotten; what is kept of the others and the
-- packets in the queue stay.
pub filter_closes :
    (q : MsgQueue) (m : SocketMessage)
    → IsQueue q
    → m.socket_event ≡ event_close
    → (q' : MsgQueue) × (filter (some q) m ≡ some (some q', close_of m.socket_id))
      × (held q' m.socket_id ≡ [])
      × ((other : ℕ) → other ≢ m.socket_id → held q' other ≡ held q other)
      × (packets q' ≡ packets q)
      × IsQueue q'
unfolding filter close_uncomplete
filter_closes q m v e =
    let id = m.socket_id in
    let (q', is, free, others, same, v') =
      without_found_lem q id (find_uncomplete (some q) id) v (find_uncomplete_lem q id v.slots) in
    (q', rw (e, is) refl, free, others, same, v')
