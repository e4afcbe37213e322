-- ===== src/Stack.antt =====
-- ec_stack.h: the class `stack`, a linked list of nodes on the heap. An address is a number, and the
-- null pointer is `none`. The heap holds what stands at the addresses in use.
pub mod Linked
pub mod Steps
pub mod Swap
mod Examples
use eclib.Common.{
  ℕ, zero, suc, ◌+◌, ◌-◌, Bool, true, false, Option, none, some, ◌==◌, if◌then◌else◌, ◌>>=◌,
}

pub record Node {ℓ} (A : Type ℓ) : Type ℓ where
  pub next : Option ℕ
  pub value : A

abbrev pub Heap {ℓ} : Type ℓ → Type ℓ
Heap A = ℕ → Option (Node A)

pub record Stack {ℓ} (A : Type ℓ) : Type ℓ where
  pub heap : Heap A
  pub head : Option ℕ
  pub size : ℕ

is_null : Option ℕ → Bool
is_null none = true
is_null (some a) = false

module _ {ℓ} {A : Type ℓ} where
  pub update : Heap A → ℕ → Option (Node A) → Heap A
  update heap a node b = if a == b then node else heap b

  -- `got` is what `new` answers: the address of the node, or null.
  pub push : Option ℕ → A → Stack A → Stack A
  unfolding update
  push none val s = s
  push (some a) val s = record {
    heap = update s.heap a (some (record { next = s.head; value = val }));
    head = some a;
    size = s.size + 1;
  }

  -- `none` is undefined behaviour: a pointer to an address not in use.
  drop_node : ℕ → Stack A → Option (Node A) → Option (Stack A)
  unfolding update
  drop_node a s none = none
  drop_node a s (some node) =
      some (record { heap = update s.heap a none; head = node.next; size = s.size - 1 })

  drop_head : Option ℕ → Stack A → Option (Stack A)
  unfolding drop_node
  drop_head none s = some s
  drop_head (some a) s = drop_node a s (s.heap a)

  pub pop : Stack A → Option (Stack A)
  unfolding drop_head
  pop s = drop_head s.head s

  node_value : Option (Node A) → Option A
  node_value none = none
  node_value (some node) = some node.value

  value_at : Option ℕ → Stack A → Option A
  unfolding node_value
  value_at none s = none
  value_at (some a) s = node_value (s.heap a)

  pub top : Stack A → Option A
  unfolding value_at
  top s = value_at s.head s

  pub empty : Stack A → Bool
  unfolding is_null
  empty s = is_null s.head

  -- The constructor, on a heap that other objects use too.
  pub new_stack : Heap A → Stack A
  new_stack heap = record { heap = heap; head = none; size = 0 }

  -- Two stacks on one heap.
  pub swap : Stack A × Stack A → Stack A × Stack A
  swap (s, x) =
      (record s { head = x.head; size = x.size }, record x { head = s.head; size = s.size })

  -- The loop of the destructor, with fuel for its tests of `_phead`.
  pub destroy : ℕ → Stack A → Option (Stack A)
  unfolding pop empty
  destroy zero s = none
  destroy (suc fuel) s = if empty s then some s else (do s' ← pop s; destroy fuel s')
