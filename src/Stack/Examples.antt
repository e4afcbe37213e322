-- ===== src/Stack/Examples.antt =====
-- ec_stack.h: runs, and the theorems at concrete values.
use eclib.Common.{ℕ, ◌≡◌, refl, false, [], ◌∷◌, none, some, arith, ◌==◌, if◌then◌else◌}
use eclib.Stack.{Stack, top, empty, new_stack, swap}
use eclib.Stack.Linked.{Linked, IsStack}
use eclib.Stack.Swap.{swap_lem, new_stack_lem}

-- Two values, at the addresses 8 and 16.
abbrev two_items : Stack ℕ
two_items = record {
  heap = λ a.
      if a == 16
      then some (record { next = some 8; value = 5 })
      else if a == 8
      then some (record { next = none; value = 4 })
      else none;
  head = some 16;
  size = 2;
}

two_items-IsStack : IsStack two_items ((16, 5) ∷ (8, 4) ∷ [])
unfolding Linked
two_items-IsStack = record {
  linked = (refl, (some 8, refl, (refl, (none, refl, refl, tt)), ((omega arith), tt)));
  counted = refl;
}

top_two : top two_items ≡ some 5
unfolding top
top_two = refl

full : empty two_items ≡ false
unfolding empty
full = refl

abbrev no_items : Stack ℕ
no_items = new_stack two_items.heap

swapped :
    IsStack (swap (two_items, no_items)).0 []
    × IsStack (swap (two_items, no_items)).1 ((16, 5) ∷ (8, 4) ∷ [])
unfolding new_stack
swapped =
    swap_lem two_items no_items ((16, 5) ∷ (8, 4) ∷ []) [] refl two_items-IsStack
      (new_stack_lem two_items.heap)
