-- ===== src/Stack/Steps.antt =====
-- ec_stack.h: `push`, `pop`, `top` and the destructor on the list of nodes.
use eclib.Common.{
  ℕ, zero, suc, ◌-◌, ◌<◌, ◌≡◌, ◌≢◌, refl, sym, ap, ◌∙◌, true, false, List, [], ◌∷◌, Option, none,
  some, length, All, arith,
}
use eclib.Stack.{
  Node, Stack, update, push, pop, drop_head, drop_node, top, value_at, node_value, empty, is_null,
  destroy,
}
use eclib.Stack.Linked.{Linked, IsStack, update-same, update-other, update-Linked, unused-fresh}

module _ {A : Type 0} where
  -- `push` with memory for a node puts the value on top, and leaves the rest of the list and every
  -- address but the new one, which was not in use, as it was.
  pub push_lem :
      (a : ℕ) (val : A) (s : Stack A) (cs : List (ℕ × A))
      → IsStack s cs
      → s.heap a ≡ none
      → IsStack (push (some a) val s) ((a, val) ∷ cs)
        × (top (push (some a) val s) ≡ some val)
        × ((b : ℕ) → b ≢ a → (push (some a) val s).heap b ≡ s.heap b)
  unfolding push top value_at node_value Linked
  push_lem a val s cs valid free =
      let entry : Option (Node A) = some (record { next = s.head; value = val }) in
      let fresh = unused-fresh s.heap a s.head cs free valid.linked in
      let found = update-same s.heap a entry in
      (
        record {
          linked = (
            refl,
            (s.head, found, update-Linked s.heap a entry s.head cs fresh valid.linked, fresh),
          );
          counted = omega (arith, valid.counted);
        },
        ap node_value found,
        λ b h. update-other s.heap a b entry h,
      )

  pop_full :
      (s : Stack A) (c : ℕ × A) (cs : List (ℕ × A)) (next : Option ℕ)
      → s.head ≡ some c.0
      → s.heap c.0 ≡ some (record { next = next; value = c.1 })
      → pop s ≡ some (record { heap = update s.heap c.0 none; head = next; size = s.size - 1 })
  unfolding pop drop_head drop_node
  pop_full s c cs next here holds =
      ap (λ (p : Option ℕ). drop_head p s) here ∙ ap (drop_node c.0 s) holds

  -- `pop` on a stack that is not empty returns. It takes the top value off the list, frees its node, and
  -- leaves every other address as it was.
  pub pop_lem :
      (c : ℕ × A) (cs : List (ℕ × A)) (s : Stack A)
      → IsStack s (c ∷ cs)
      → (s' : Stack A) × (pop s ≡ some s')
        × IsStack s' cs
        × (s'.heap c.0 ≡ none)
        × ((b : ℕ) → b ≢ c.0 → s'.heap b ≡ s.heap b)
  unfolding Linked
  pop_lem c cs s valid =
      let (here, (next, holds, onward, fresh)) = valid.linked in
      (
        record { heap = update s.heap c.0 none; head = next; size = s.size - 1 },
        pop_full s c cs next here holds,
        record {
          linked = update-Linked s.heap c.0 none next cs fresh onward;
          counted = omega (arith, valid.counted);
        },
        update-same s.heap c.0 none,
        λ b h. update-other s.heap c.0 b none h,
      )

  -- The destructor's loop ends and dereferences nothing that is not in use. It leaves an empty list,
  -- frees every node of the stack, and leaves every other address as it was. `fuel` counts its tests.
  pub destroy_lem :
      (cs : List (ℕ × A)) (fuel : ℕ) (s : Stack A)
      → IsStack s cs
      → length cs < fuel
      → (s' : Stack A) × (destroy fuel s ≡ some s')
        × IsStack s' []
        × All (λ (c : ℕ × A). s'.heap c.0 ≡ none) cs
        × ((b : ℕ) → All (λ (c : ℕ × A). c.0 ≢ b) cs → s'.heap b ≡ s.heap b)
  unfolding destroy Linked empty is_null
  destroy_lem [] zero s valid h = elim h [ ]
  destroy_lem (c ∷ cs) zero s valid h = elim h [ ]
  destroy_lem [] (suc fuel) s valid h =
      let test : empty s ≡ true = ap is_null valid.linked in
      (s, rw test refl, valid, tt, λ b away. refl)
  destroy_lem (c ∷ cs) (suc fuel) s valid h =
      let test : empty s ≡ false = ap is_null valid.linked.0 in
      let fresh = valid.linked.1.3 in
      let (s1, pops, valid1, freed, same1) = pop_lem c cs s valid in
      let (s2, ends, valid2, all, same2) = destroy_lem cs fuel s1 valid1 (omega (arith, h)) in
      (
        s2,
        rw (test, pops) ends,
        valid2,
        (same2 c.0 fresh ∙ freed, all),
        λ b away. same2 b away.1 ∙ same1 b (λ e. away.0 (sym e)),
      )
