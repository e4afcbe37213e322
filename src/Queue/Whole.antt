-- ===== src/Queue/Whole.antt =====
-- ec_queue.h: the constructor, the destructor and `swap`.
use eclib.Common.{
  ℕ, zero, suc, ◌<◌, ◌≡◌, ◌≢◌, refl, sym, ap, ◌∙◌, true, false, List, [], ◌∷◌, none, some, length,
  All, arith,
}
use mathlib.Core.Path.{subst}
use eclib.Stack.{Heap}
use eclib.Stack.Linked.{Linked}
use eclib.Queue.{Queue, new_queue, destroy, empty, is_null, swap}
use eclib.Queue.Snoc.{last}
use eclib.Queue.Ends.{IsQueue, dequeue_lem}

module _ {A : Type 0} where
  pub new_queue_lem : (heap : Heap A) → IsQueue (new_queue heap) []
  unfolding new_queue Linked last
  new_queue_lem heap = record { linked = refl; ends = refl; counted = refl }

  -- The destructor's loop ends and dereferences nothing that is not in use. It leaves an empty queue,
  -- frees every node, and leaves every other address as it was. `fuel` counts its tests.
  pub destroy_queue :
      (cs : List (ℕ × A)) (fuel : ℕ) (q : Queue A)
      → IsQueue q cs
      → length cs < fuel
      → (q' : Queue A) × (destroy fuel q ≡ some q')
        × IsQueue q' []
        × All (λ (c : ℕ × A). q'.heap c.0 ≡ none) cs
        × ((b : ℕ) → All (λ (c : ℕ × A). c.0 ≢ b) cs → q'.heap b ≡ q.heap b)
  unfolding destroy Linked empty is_null
  destroy_queue [] zero q valid h = elim h [ ]
  destroy_queue (c ∷ cs) zero q valid h = elim h [ ]
  destroy_queue [] (suc fuel) q valid h =
      let test : empty q ≡ true = ap is_null valid.linked in
      (q, rw test refl, valid, tt, λ b away. refl)
  destroy_queue (c ∷ cs) (suc fuel) q valid h =
      let test : empty q ≡ false = ap is_null valid.linked.0 in
      let fresh = valid.linked.1.3 in
      let (q1, pops, valid1, freed, same1) = (dequeue_lem c cs q valid).1 in
      let (q2, ends, valid2, all, same2) = destroy_queue cs fuel q1 valid1 (omega (arith, h)) in
      (
        q2,
        rw (test, pops) ends,
        valid2,
        (same2 c.0 fresh ∙ freed, all),
        λ b away. same2 b away.1 ∙ same1 b (λ e. away.0 (sym e)),
      )

  -- Each queue has the values of the other one after `swap`, with its tail.
  pub swap_queues :
      (q x : Queue A) (cs ds : List (ℕ × A))
      → q.heap ≡ x.heap
      → IsQueue q cs
      → IsQueue x ds
      → IsQueue (swap (q, x)).0 ds × IsQueue (swap (q, x)).1 cs
  unfolding swap
  swap_queues q x cs ds shared first second = (
    record {
      linked = subst (λ (heap : Heap A). Linked heap x.head ds) (sym shared) second.linked;
      ends = second.ends;
      counted = second.counted;
    },
    record {
      linked = subst (λ (heap : Heap A). Linked heap q.head cs) shared first.linked;
      ends = first.ends;
      counted = first.counted;
    },
  )
