-- ===== src/Memheap.antt =====
-- ec_alloctor.h: `memheap_`, blocks of one size in one piece of memory. An address is a number, the null
-- pointer is `none`. `none` as a result is undefined behaviour: a read of an address that holds nothing.
pub mod Chain
pub mod Init
pub mod Heap
use eclib.Common.{
  ℕ, zero, suc, ◌+◌, ◌-◌, ◌%◌, ◌*◌, ◌^◌, length, Bool, true, false, not, ◌&&◌, Option, none, some,
  List, [], ◌∷◌, ◌++◌, ltb, ◌==◌, if◌then◌else◌, ◌>>=◌,
}

-- The pointer that stands at an address of the heap's memory.
abbrev pub Memory : Type 0
Memory = ℕ → Option (Option ℕ)

unfoldable pub store : Memory → ℕ → Option ℕ → Memory
store mem a p b = if a == b then some p else mem b

-- `self` is the address of the object, `memory` what stands in the piece at `pmem`.
pub record Memheap : Type 0 where
  pub self : ℕ
  pub palloc : ℕ
  pub numfree : ℕ
  pub numblk : ℕ
  pub sizeblk : ℕ
  pub pmem : Option ℕ
  pub head : Option ℕ
  pub memory : Memory

unfoldable pub new_heap : ℕ → ℕ → Memheap
new_heap self palloc = record {
  self = self;
  palloc = palloc;
  numfree = 0;
  numblk = 0;
  sizeblk = 0;
  pmem = none;
  head = none;
  memory = λ a. none;
}

unfoldable pub aligned : ℕ → ℕ
aligned sizeblk = if sizeblk % 8 == 0 then sizeblk else sizeblk + (8 - sizeblk % 8)

-- `n` is what is left of `numblk - i`; `size` is `sizeblk` with the header.
pub init_loop : ℕ → ℕ → ℕ → ℕ → Memory → Memory
unfolding store
init_loop zero self size ps mem = mem
init_loop (suc n) self size ps mem =
    init_loop n self size (ps + size)
      (store (store mem ps (some self)) (ps + 8) (if n == 0 then none else some (ps + size + 8)))

unfoldable pub init_heap : Option ℕ → ℕ → ℕ → Memheap → Bool × Memheap
unfolding aligned init_loop
init_heap none sizeblk numblk h = (false, h)
init_heap (some pmem) sizeblk numblk h = (
  true,
  record h {
    numfree = numblk;
    numblk = numblk;
    sizeblk = aligned sizeblk;
    pmem = some pmem;
    head = some (pmem + 8);
    memory = init_loop numblk h.self (aligned sizeblk + 8) pmem h.memory;
  },
)

take_head : Option ℕ → Memheap → Option (Option ℕ × Memheap)
take_head none h = some (none, h)
take_head (some p) h = do
  next ← h.memory p
  some (some p, record h { head = next; numfree = h.numfree - 1 })

pub heap_malloc : Memheap → Option (Option ℕ × Memheap)
unfolding take_head
heap_malloc h = take_head h.head h

unfoldable pub heap_free : ℕ → Memheap → Memheap
unfolding store
heap_free p h = record h {
  memory = store h.memory p h.head;
  head = some p;
  numfree = h.numfree + 1;
}

abbrev pub canfree : Memheap → Bool
canfree h = h.numblk == h.numfree
