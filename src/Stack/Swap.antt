-- ===== src/Stack/Swap.antt =====
-- ec_stack.h: `swap` of two stacks on one heap.
use eclib.Common.{ℕ, ◌≡◌, refl, sym, List, []}
use mathlib.Core.Path.{subst}
use eclib.Stack.{Heap, Stack, new_stack, swap}
use eclib.Stack.Linked.{Linked, IsStack}

module _ {A : Type 0} where
  pub new_stack_lem : (heap : Heap A) → IsStack (new_stack heap) []
  unfolding new_stack Linked
  new_stack_lem heap = record { linked = refl; counted = refl }

  -- Each stack has the values of the other one after `swap`.
  pub swap_lem :
      (s x : Stack A) (cs ds : List (ℕ × A))
      → s.heap ≡ x.heap
      → IsStack s cs
      → IsStack x ds
      → IsStack (swap (s, x)).0 ds × IsStack (swap (s, x)).1 cs
  unfolding swap
  swap_lem s x cs ds shared first second = (
    record {
      linked = subst (λ (heap : Heap A). Linked heap x.head ds) (sym shared) second.linked;
      counted = second.counted;
    },
    record {
      linked = subst (λ (heap : Heap A). Linked heap s.head cs) shared first.linked;
      counted = first.counted;
    },
  )
