-- ===== src/Mq/Global/Drain.antt =====
-- The loop of `_drop_queue`: it ends, and it drops exactly the messages of the queue, in order.
use skynet.Base
use skynet.Base.{
  ℕ, zero, suc, ◌+◌, ◌≤◌, ◌<◌, ◌≡◌, refl, sym, ap, ◌∙◌, Bool, true, false, Option, none, some, List,
  [], ◌∷◌, arith, Bool-cases, inl, inr, if◌then◌else◌,
}
use skynet.Mq.Message.{Message}
use skynet.Mq.Ring
use skynet.Mq.Ring.{Ring}
use skynet.Mq.Ring.Invariant.{IsValid, pop-IsValid}
use skynet.Mq.Ring.Refine.{contents, pop_list, pop_refines, length-contents}
use skynet.Mq.Global.{drain, ◌>>=◌}

-- What one `pop` says, with its result and the list of the messages shut away.
pop_cases :
    (q : Ring) (out : Message) (ms : List Message)
    → IsValid q
    → contents q ≡ ms
    → ((Ring.pop q out).0, (Ring.pop q out).1, contents (Ring.pop q out).2) ≡ pop_list ms out
pop_cases q out ms v e = pop_refines out v ∙ ap (λ l. pop_list l out) e

drain_list :
    (ms : List Message) (fuel : ℕ) (q : Ring) (out : Message)
    → IsValid q
    → contents q ≡ ms
    → Base.length ms < fuel
    → (last : Ring) × (drain fuel q out ≡ some (ms, last))
unfolding drain
drain_list ms zero q out v e h = absurd (omega arith)
drain_list [] (suc fuel) q out v e h =
    let step = pop_cases q out [] v e in
    ((Ring.pop q out).2, rw (ap (λ (p : Bool × Message × List Message). p.0) step))
drain_list (m ∷ ms) (suc fuel) q out v e h =
    let step = pop_cases q out (m ∷ ms) v e in
    let q' : Ring = (Ring.pop q out).2 in
    let (last, run) =
      drain_list ms fuel q' (Ring.pop q out).1 (pop-IsValid out v)
        (ap (λ (p : Bool × Message × List Message). p.2) step) (omega arith) in
    (
      last,
      rw (
        ap (λ (p : Bool × Message × List Message). p.0) step,
        run,
        ap (λ (p : Bool × Message × List Message). p.1) step,
        ◌>>=◌,
      ),
    )

-- With one round more than a valid queue has messages the loop ends, and it has handed exactly the
-- messages of the queue, oldest first, to `drop_func`.
pub drain_total :
    (q : Ring) (out : Message)
    → IsValid q
    → (last : Ring) × (drain (suc (Ring.length q)) q out ≡ some (contents q, last))
drain_total q out v =
    drain_list (contents q) (suc (Ring.length q)) q out v refl (omega (arith, length-contents q))
