-- ===== src/Stack/Linked.antt =====
-- ec_stack.h: the list of nodes that starts at `_phead`, and what a change of the heap does to it.
use eclib.Common.{
  ℕ, ◌≡◌, ◌≢◌, refl, sym, ap, ◌∙◌, true, false, List, [], ◌∷◌, Option, none, some, ◌==◌, length,
  All, arith,
}
use eclib.Stack.{Node, Heap, Stack, update}

module _ {A : Type 0} where
  -- The nodes at the pointer, as addresses and values. No address occurs twice.
  unfoldable pub Linked : Heap A → Option ℕ → List (ℕ × A) → Type 0
  Linked heap p [] = p ≡ none
  Linked heap p (c ∷ cs) =
      (p ≡ some c.0)
      × ((next : Option ℕ) × (heap c.0 ≡ some (record { next = next; value = c.1 }))
          × Linked heap next cs
          × All (λ (d : ℕ × A). d.0 ≢ c.0) cs)

  pub record IsStack (s : Stack A) (cs : List (ℕ × A)) : Type 0 where
    pub linked : Linked s.heap s.head cs
    pub counted : s.size ≡ length cs

  pub update-same :
      (heap : Heap A) (a : ℕ) (entry : Option (Node A)) → update heap a entry a ≡ entry
  unfolding update
  update-same heap a entry = let test : (a == a) ≡ true = ground arith in rw test refl

  pub update-other :
      (heap : Heap A) (a b : ℕ) (entry : Option (Node A)) → b ≢ a → update heap a entry b ≡ heap b
  unfolding update
  update-other heap a b entry h = let test : (a == b) ≡ false = ground (arith, h) in rw test refl

  pub update-Linked :
      (heap : Heap A) (a : ℕ) (entry : Option (Node A)) (p : Option ℕ) (cs : List (ℕ × A))
      → All (λ (d : ℕ × A). d.0 ≢ a) cs
      → Linked heap p cs
      → Linked (update heap a entry) p cs
  unfolding Linked
  update-Linked heap a entry p [] away l = l
  update-Linked heap a entry p (c ∷ cs) away (here, (next, holds, onward, fresh)) = (
    here,
    (
      next,
      update-other heap a c.0 entry away.0 ∙ holds,
      update-Linked heap a entry next cs away.1 onward,
      fresh,
    ),
  )

  -- An address not in use is none of the list.
  pub unused-fresh :
      (heap : Heap A) (a : ℕ) (p : Option ℕ) (cs : List (ℕ × A))
      → heap a ≡ none
      → Linked heap p cs
      → All (λ (d : ℕ × A). d.0 ≢ a) cs
  unfolding Linked
  unused-fresh heap a p [] free l = tt
  unused-fresh heap a p (c ∷ cs) free (here, (next, holds, onward, fresh)) = (
    (λ e. let clash = sym free ∙ ap heap (sym e) ∙ holds in ground arith),
    unused-fresh heap a next cs free onward,
  )
