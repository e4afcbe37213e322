-- ===== src/Queue/Ends.antt =====
-- ec_queue.h: both ends of the queue.
use eclib.Common.{
  ℕ, ◌+◌, ◌-◌, ◌≡◌, ◌≢◌, refl, sym, ap, ◌∙◌, List, [], ◌∷◌, ◌++◌, Option, none, some, arith, length,
  length-append, ◌>>=◌,
}
use mathlib.Core.Path.{subst}
use mathlib.Core.List.{append_assoc}
use eclib.Stack.{Node, Heap, update}
use eclib.Stack.Linked.{Linked, update-same, update-other, update-Linked, unused-fresh}
use eclib.Queue.{
  Queue, enqueue, push_node, link_tail, link, emplacefront, first_or, dequeue, pop_head, pop_node,
  tail_after, front, back, at_address, value_of,
}
use eclib.Queue.Snoc.{
  last, last-snoc, snoc_cases, Linked-last, All-last, linked_heap, linked_heap-other,
  linked_heap-new, snoc-Linked,
}

module _ {A : Type 0} where
  -- The nodes `cs`, as addresses and values, first to last.
  pub record IsQueue (q : Queue A) (cs : List (ℕ × A)) : Type 0 where
    pub linked : Linked q.heap q.head cs
    pub ends : q.tail ≡ last cs
    pub counted : q.size ≡ length cs

  -- `r` is the queue with the nodes `cs`, the last one of which holds `val`, and no address has come in
  -- use but `a`.
  abbrev pub Enqueues : Queue A → ℕ → A → List (ℕ × A) → Option (Queue A) → Type 0
  Enqueues q a val cs r =
      (q' : Queue A) × (r ≡ some q')
      × IsQueue q' cs
      × (back q' ≡ some val)
      × ((b : ℕ) → b ≢ a → q.heap b ≡ none → q'.heap b ≡ none)

  unused-other :
      (heap : Heap A) (b : ℕ) (n : Node A) (a : ℕ) → heap b ≡ none → heap a ≡ some n → b ≢ a
  unused-other heap b n a free held e = let clash = sym free ∙ ap heap e ∙ held in ground arith

  enqueue_first :
      (a : ℕ) (val : A) (q : Queue A)
      → IsQueue q []
      → Enqueues q a val ((a, val) ∷ []) (enqueue (some a) val q)
  unfolding enqueue push_node Linked last back at_address value_of
  enqueue_first a val q valid =
      let entry : Option (Node A) = some (record { next = none; value = val }) in
      let found = update-same q.heap a entry in
      (
        record { heap = update q.heap a entry; head = some a; tail = some a; size = q.size + 1 },
        ap (λ (p : Option ℕ). push_node p a val q) valid.linked,
        record {
          linked = (refl, (none, found, refl, tt));
          ends = refl;
          counted = omega (arith, valid.counted);
        },
        ap value_of found,
        λ b h free. update-other q.heap a b entry h ∙ free,
      )

  enqueue_behind :
      (a : ℕ) (val : A) (q : Queue A) (c : ℕ × A) (cs init : List (ℕ × A)) (t : ℕ × A)
      → c ∷ cs ≡ init ++ t ∷ []
      → IsQueue q (c ∷ cs)
      → q.heap a ≡ none
      → Enqueues q a val ((c ∷ cs) ++ (a, val) ∷ []) (enqueue (some a) val q)
  unfolding enqueue push_node link_tail link back at_address value_of Linked
  enqueue_behind a val q c cs init t e valid free =
      let linked = subst (Linked q.heap q.head) e valid.linked in
      let fresh = unused-fresh q.heap a q.head (init ++ t ∷ []) free linked in
      let apart = All-last init t a fresh in
      let entry : Option (Node A) = some (record { next = none; value = val }) in
      let holds = update-other q.heap a t.0 entry apart ∙ Linked-last q.heap q.head init t linked in
      let heap = linked_heap q.heap a val t in
      let tail : q.tail ≡ some t.0 = valid.ends ∙ ap last e ∙ last-snoc init t in
      let extended : (c ∷ cs) ++ (a, val) ∷ [] ≡ init ++ t ∷ (a, val) ∷ [] =
        ap (λ (xs : List (ℕ × A)). xs ++ (a, val) ∷ []) e
        ∙ append_assoc init (t ∷ []) ((a, val) ∷ []) in
      let next : Queue A = record {
        heap = heap;
        head = q.head;
        tail = some a;
        size = q.size + 1;
      } in
      let links : link_tail (update q.heap a entry) q.tail a ≡ some heap =
        unfold linked_heap in
        (ap (λ (p : Option ℕ). link_tail (update q.heap a entry) p a) tail
          ∙ ap (link (update q.heap a entry) t.0 a) holds) in
      (
        next,
        ap (λ (p : Option ℕ). push_node p a val q) valid.linked.0
            ∙ ap
                (λ (r : Option (Heap A)). r >>= (λ h.
                  some (record { heap = h; head = q.head; tail = some a; size = q.size + 1 })))
                links,
        record {
          linked =
              subst (Linked heap q.head) (sym extended)
                (snoc-Linked q.heap a val q.head init t fresh linked);
          ends = sym (last-snoc (c ∷ cs) (a, val));
          counted = omega (arith, valid.counted, length-append (c ∷ cs) ((a, val) ∷ []));
        },
        ap value_of (linked_heap-new q.heap a val t (λ e. apart (sym e))),
        λ b h none_at.
            linked_heap-other q.heap a val t b
              (unused-other q.heap b (record { next = none; value = t.1 }) t.0 none_at
                (Linked-last q.heap q.head init t linked))
              h
            ∙ none_at,
      )

  -- `push` with memory for a node returns, puts the value behind all others, and makes `back` answer it.
  -- No address has come in use but the new one.
  pub enqueue_lem :
      (a : ℕ) (val : A) (q : Queue A) (cs : List (ℕ × A))
      → IsQueue q cs
      → q.heap a ≡ none
      → Enqueues q a val (cs ++ (a, val) ∷ []) (enqueue (some a) val q)
  enqueue_lem a val q [] valid free = enqueue_first a val q valid
  enqueue_lem a val q (c ∷ cs) valid free =
      let (init, t, e) = snoc_cases c cs in enqueue_behind a val q c cs init t e valid free

  new_tail :
      (next tail : Option ℕ) (heap : Heap A) (c : ℕ × A) (cs : List (ℕ × A))
      → Linked heap next cs
      → tail ≡ last (c ∷ cs)
      → tail_after next tail ≡ last cs
  unfolding tail_after Linked last
  new_tail next tail heap c [] l e = ap (λ (n : Option ℕ). tail_after n tail) l
  new_tail next tail heap c (d ∷ cs) l e = ap (λ (n : Option ℕ). tail_after n tail) l.0 ∙ e

  -- `pop` on a queue that is not empty returns. It takes the value that `front` answers, the first one
  -- put in, off the queue, frees its node, and leaves every other address as it was.
  pub dequeue_lem :
      (c : ℕ × A) (cs : List (ℕ × A)) (q : Queue A)
      → IsQueue q (c ∷ cs)
      → (front q ≡ some c.1)
        × ((q' : Queue A) × (dequeue q ≡ some q')
            × IsQueue q' cs
            × (q'.heap c.0 ≡ none)
            × ((b : ℕ) → b ≢ c.0 → q'.heap b ≡ q.heap b))
  unfolding front at_address value_of dequeue pop_head pop_node Linked
  dequeue_lem c cs q valid =
      let (here, (next, holds, onward, fresh)) = valid.linked in
      (
        ap (at_address q.heap) here ∙ ap value_of holds,
        (
          record {
            heap = update q.heap c.0 none;
            head = next;
            tail = tail_after next q.tail;
            size = q.size - 1;
          },
          ap (λ (p : Option ℕ). pop_head p q) here ∙ ap (pop_node c.0 q) holds,
          record {
            linked = update-Linked q.heap c.0 none next cs fresh onward;
            ends = new_tail next q.tail q.heap c cs onward valid.ends;
            counted = omega (arith, valid.counted);
          },
          update-same q.heap c.0 none,
          λ b h. update-other q.heap c.0 b none h,
        ),
      )

  new_head :
      (tail : Option ℕ) (a : ℕ) (val : A) (cs : List (ℕ × A))
      → tail ≡ last cs
      → first_or tail a ≡ last ((a, val) ∷ cs)
  unfolding first_or last
  new_head tail a val [] e = ap (λ (p : Option ℕ). first_or p a) e
  new_head tail a val (c ∷ cs) e =
      let (init, t, whole) = snoc_cases c cs in
      let found = ap last whole ∙ last-snoc init t in
      ap (λ (p : Option ℕ). first_or p a) (e ∙ found) ∙ sym found

  -- `emplacefront` with memory for a node puts the value before all others.
  pub emplacefront_lem :
      (a : ℕ) (val : A) (q : Queue A) (cs : List (ℕ × A))
      → IsQueue q cs
      → q.heap a ≡ none
      → IsQueue (emplacefront (some a) val q) ((a, val) ∷ cs)
  unfolding emplacefront Linked
  emplacefront_lem a val q cs valid free =
      let entry : Option (Node A) = some (record { next = q.head; value = val }) in
      let fresh = unused-fresh q.heap a q.head cs free valid.linked in
      record {
        linked = (
          refl,
          (
            q.head,
            update-same q.heap a entry,
            update-Linked q.heap a entry q.head cs fresh valid.linked,
            fresh,
          ),
        );
        ends = new_head q.tail a val cs valid.ends;
        counted = omega (arith, valid.counted);
      }
