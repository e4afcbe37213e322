-- ===== src/Queue.antt =====
-- ec_queue.h: the class `queue`, a list of nodes on the heap with a pointer to the last one. The nodes
-- and the heap are those of the class `stack`, whose `t_node` is the same. `none` as a result is
-- undefined behaviour: a null pointer, or one to an address not in use, is followed.
pub mod Snoc
pub mod Ends
pub mod Whole
mod Examples
use eclib.Common.{
  ℕ, zero, suc, ◌+◌, ◌-◌, Bool, true, false, Option, none, some, ◌==◌, if◌then◌else◌, ◌>>=◌,
}
use eclib.Stack.{Node, Heap, update}

pub record Queue (A : Type 0) : Type 0 where
  pub heap : Heap A
  pub head : Option ℕ
  pub tail : Option ℕ
  pub size : ℕ

-- The tail after a node at `a` was put in front.
first_or : Option ℕ → ℕ → Option ℕ
first_or none a = some a
first_or (some t) a = some t

-- The tail after the first node is gone, `next` being the new head.
tail_after : Option ℕ → Option ℕ → Option ℕ
tail_after none tail = none
tail_after (some h) tail = tail

is_null : Option ℕ → Bool
is_null none = true
is_null (some a) = false

module _ {A : Type 0} where
  -- `_ptail->pNext = pnode`.
  link : Heap A → ℕ → ℕ → Option (Node A) → Option (Heap A)
  link heap t a none = none
  link heap t a (some n) = some (update heap t (some (record n { next = some a })))

  link_tail : Heap A → Option ℕ → ℕ → Option (Heap A)
  unfolding link
  link_tail heap none a = none
  link_tail heap (some t) a = link heap t a (heap t)

  -- The heap after `new t_node(val)` at `a`.
  abbrev with_node : ℕ → A → Heap A → Heap A
  with_node a val heap = update heap a (some (record { next = none; value = val }))

  push_node : Option ℕ → ℕ → A → Queue A → Option (Queue A)
  unfolding link_tail
  push_node none a val q =
      some
        (record { heap = with_node a val q.heap; head = some a; tail = some a; size = q.size + 1 })
  push_node (some h) a val q = do
    heap ← link_tail (with_node a val q.heap) q.tail a
    some (record { heap = heap; head = q.head; tail = some a; size = q.size + 1 })

  -- `push` and `emplace`. `got` is what `new` answers.
  pub enqueue : Option ℕ → A → Queue A → Option (Queue A)
  unfolding push_node
  enqueue none val q = some q
  enqueue (some a) val q = push_node q.head a val q

  pub emplacefront : Option ℕ → A → Queue A → Queue A
  unfolding first_or
  emplacefront none val q = q
  emplacefront (some a) val q = record {
    heap = update q.heap a (some (record { next = q.head; value = val }));
    head = some a;
    tail = first_or q.tail a;
    size = q.size + 1;
  }

  pop_node : ℕ → Queue A → Option (Node A) → Option (Queue A)
  unfolding tail_after
  pop_node a q none = none
  pop_node a q (some n) = some (record {
    heap = update q.heap a none;
    head = n.next;
    tail = tail_after n.next q.tail;
    size = q.size - 1;
  })

  pop_head : Option ℕ → Queue A → Option (Queue A)
  unfolding pop_node
  pop_head none q = some q
  pop_head (some a) q = pop_node a q (q.heap a)

  pub dequeue : Queue A → Option (Queue A)
  unfolding pop_head
  dequeue q = pop_head q.head q

  value_of : Option (Node A) → Option A
  value_of none = none
  value_of (some n) = some n.value

  at_address : Heap A → Option ℕ → Option A
  unfolding value_of
  at_address heap none = none
  at_address heap (some a) = value_of (heap a)

  pub front : Queue A → Option A
  unfolding at_address
  front q = at_address q.heap q.head

  pub back : Queue A → Option A
  unfolding at_address
  back q = at_address q.heap q.tail

  -- The constructor, on a heap that other objects use too.
  pub new_queue : Heap A → Queue A
  new_queue heap = record { heap = heap; head = none; tail = none; size = 0 }

  pub empty : Queue A → Bool
  unfolding is_null
  empty q = is_null q.head

  -- The loop of the destructor, with fuel for its tests of `_phead`.
  pub destroy : ℕ → Queue A → Option (Queue A)
  unfolding dequeue empty
  destroy zero q = none
  destroy (suc fuel) q = if empty q then some q else (do q' ← dequeue q; destroy fuel q')

  -- Two queues on one heap.
  pub swap : Queue A × Queue A → Queue A × Queue A
  swap (q, x) = (
    record q { head = x.head; tail = x.tail; size = x.size },
    record x { head = q.head; tail = q.tail; size = q.size },
  )
