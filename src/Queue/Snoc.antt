-- ===== src/Queue/Snoc.antt =====
-- ec_queue.h: what a node that is linked behind the last one does to the list of nodes.
use eclib.Common.{ℕ, ◌≡◌, ◌≢◌, refl, sym, ap, ◌∙◌, List, [], ◌∷◌, ◌++◌, Option, none, some, All}
use eclib.Stack.{Heap, update}
use eclib.Stack.Linked.{Linked, update-same, update-other}

module _ {A : Type 0} where
  -- The address of the last node.
  unfoldable pub last : List (ℕ × A) → Option ℕ
  last [] = none
  last (c ∷ []) = some c.0
  last (c ∷ d ∷ cs) = last (d ∷ cs)

  pub last-snoc : (cs : List (ℕ × A)) (t : ℕ × A) → last (cs ++ t ∷ []) ≡ some t.0
  unfolding last
  last-snoc [] t = refl
  last-snoc (c ∷ []) t = refl
  last-snoc (c ∷ d ∷ cs) t = last-snoc (d ∷ cs) t

  pub snoc_cases :
      (c : ℕ × A) (cs : List (ℕ × A))
      → (init : List (ℕ × A)) × (t : ℕ × A) × (c ∷ cs ≡ init ++ t ∷ [])
  snoc_cases c [] = ([], c, refl)
  snoc_cases c (d ∷ cs) =
      let (init, t, e) = snoc_cases d cs in (c ∷ init, t, ap (λ (xs : List (ℕ × A)). c ∷ xs) e)

  -- The last node points nowhere.
  pub Linked-last :
      (heap : Heap A) (p : Option ℕ) (cs : List (ℕ × A)) (t : ℕ × A)
      → Linked heap p (cs ++ t ∷ [])
      → heap t.0 ≡ some (record { next = none; value = t.1 })
  unfolding Linked
  Linked-last heap p [] t (here, (next, holds, ends, fresh)) =
      holds ∙ ap (λ (n : Option ℕ). some (record { next = n; value = t.1 })) ends
  Linked-last heap p (c ∷ cs) t (here, (next, holds, onward, fresh)) =
      Linked-last heap next cs t onward

  pub All-last :
      (cs : List (ℕ × A)) (t : ℕ × A) (b : ℕ)
      → All (λ (d : ℕ × A). d.0 ≢ b) (cs ++ t ∷ [])
      → t.0 ≢ b
  All-last [] t b h = h.0
  All-last (c ∷ cs) t b h = All-last cs t b h.1

  All-snoc :
      (cs : List (ℕ × A)) (t u : ℕ × A) (b : ℕ)
      → All (λ (d : ℕ × A). d.0 ≢ b) (cs ++ t ∷ [])
      → u.0 ≢ b
      → All (λ (d : ℕ × A). d.0 ≢ b) (cs ++ t ∷ u ∷ [])
  All-snoc [] t u b h k = (h.0, (k, tt))
  All-snoc (c ∷ cs) t u b h k = (h.0, All-snoc cs t u b h.1 k)

  unfoldable pub linked_heap : Heap A → ℕ → A → ℕ × A → Heap A
  linked_heap heap a val t =
      update (update heap a (some (record { next = none; value = val }))) t.0
        (some (record { next = some a; value = t.1 }))

  pub linked_heap-other :
      (heap : Heap A) (a : ℕ) (val : A) (t : ℕ × A) (b : ℕ)
      → b ≢ t.0
      → b ≢ a
      → linked_heap heap a val t b ≡ heap b
  unfolding linked_heap
  linked_heap-other heap a val t b h k =
      update-other (update heap a (some (record { next = none; value = val }))) t.0 b
        (some (record { next = some a; value = t.1 })) h
      ∙ update-other heap a b (some (record { next = none; value = val })) k

  pub linked_heap-new :
      (heap : Heap A) (a : ℕ) (val : A) (t : ℕ × A)
      → a ≢ t.0
      → linked_heap heap a val t a ≡ some (record { next = none; value = val })
  unfolding linked_heap
  linked_heap-new heap a val t h =
      update-other (update heap a (some (record { next = none; value = val }))) t.0 a
        (some (record { next = some a; value = t.1 })) h
      ∙ update-same heap a (some (record { next = none; value = val }))

  pub snoc-Linked :
      (heap : Heap A) (a : ℕ) (val : A) (p : Option ℕ) (cs : List (ℕ × A)) (t : ℕ × A)
      → All (λ (d : ℕ × A). d.0 ≢ a) (cs ++ t ∷ [])
      → Linked heap p (cs ++ t ∷ [])
      → Linked (linked_heap heap a val t) p (cs ++ t ∷ (a, val) ∷ [])
  unfolding Linked
  snoc-Linked heap a val p [] t away (here, (next, holds, ends, fresh)) =
      let apart : a ≢ t.0 = λ e. away.0 (sym e) in
      (
        here,
        (
          some a,
          unfold linked_heap in
              update-same (update heap a (some (record { next = none; value = val }))) t.0
                (some (record { next = some a; value = t.1 })),
          (refl, (none, linked_heap-new heap a val t apart, refl, tt)),
          (apart, tt),
        ),
      )
  snoc-Linked heap a val p (c ∷ cs) t away (here, (next, holds, onward, fresh)) = (
    here,
    (
      next,
      linked_heap-other heap a val t c.0 (λ e. All-last cs t c.0 fresh (sym e)) away.0 ∙ holds,
      snoc-Linked heap a val next cs t away.1 onward,
      All-snoc cs t (a, val) c.0 fresh (λ e. away.0 (sym e)),
    ),
  )
