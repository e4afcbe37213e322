-- ===== src/Memheap/Heap.antt =====
-- ec_alloctor.h, `memheap_`: which blocks are free and which are in use.
use eclib.Common.{
  ℕ, zero, suc, ◌+◌, ◌-◌, ◌<◌, ◌≡◌, refl, sym, ap, ◌∙◌, false, List, [], ◌∷◌, Option, none, some,
  ◌==◌, if◌then◌else◌, arith, length, Bool-cases, inl, inr, ◌>>=◌,
}
use eclib.Memheap.{Memheap, aligned, new_heap, init_heap, heap_malloc, take_head, heap_free}
use eclib.Memheap.Chain.{Chain, store-same, store-Chain}
use eclib.Memheap.Init.{
  blocks, length-blocks, init_loop-Chain, aligned-wide, count, count-absent, count-blocks,
}

-- The chain holds the blocks `free`, and they and the blocks `used` are those of the heap's memory, each
-- of them once.
pub record IsHeap (h : Memheap) (used free : List ℕ) : Type 0 where
  pub chain : Chain h.memory h.head free
  pub counted : h.numfree ≡ length free
  pub total : h.numblk ≡ length used + length free
  pub base : ℕ
  pub split : (q : ℕ) → count q used + count q free ≡ count q (blocks h.numblk (h.sizeblk + 8) base)

-- `init` of a heap of one block at least, whose size is not zero, makes every block free.
pub init_heap_lem :
    (pmem sizeblk numblk self palloc : ℕ)
    → 0 < sizeblk
    → 0 < numblk
    → IsHeap
        (init_heap (some pmem) sizeblk numblk (new_heap self palloc)).1
        []
        (blocks numblk (aligned sizeblk + 8) pmem)
unfolding init_heap new_heap count
init_heap_lem pmem sizeblk zero self palloc some_size some_block = elim some_block [ ]
init_heap_lem pmem sizeblk (suc n) self palloc some_size some_block =
    let size = aligned sizeblk + 8 in
    let test : (suc n == 0) ≡ false = ground arith in
    record {
      chain = rw test at (
          init_loop-Chain (suc n) self size pmem (λ a. none)
            (omega (arith, aligned-wide sizeblk some_size)));
      counted = sym (length-blocks (suc n) size pmem);
      total = omega (arith, length-blocks (suc n) size pmem);
      base = pmem;
      split = λ q. omega arith;
    }

-- A heap with a free block hands out the first one.
pub heap_malloc_lem :
    (h : Memheap) (used : List ℕ) (p : ℕ) (free : List ℕ)
    → IsHeap h used (p ∷ free)
    → (h' : Memheap) × (heap_malloc h ≡ some (some p, h'))
      × IsHeap h' (p ∷ used) free
      × (h'.self ≡ h.self)
      × (h'.numblk ≡ h.numblk)
unfolding heap_malloc take_head Chain count
heap_malloc_lem h used p free valid =
    let (here, (next, holds, onward, fresh)) = valid.chain in
    (
      record h { head = next; numfree = h.numfree - 1 },
      ap (λ (t : Option ℕ). take_head t h) here
          ∙ ap
              (λ (t : Option (Option ℕ)).
                t >>= (λ n. some (some p, record h { head = n; numfree = h.numfree - 1 })))
              holds,
      record {
        chain = onward;
        counted = omega (arith, valid.counted);
        total = omega (arith, valid.total);
        base = valid.base;
        split = λ q. omega (arith, valid.split q);
      },
      refl,
      refl,
    )

pub heap_malloc-empty :
    (h : Memheap) (used : List ℕ) → IsHeap h used [] → heap_malloc h ≡ some (none, h)
unfolding heap_malloc take_head Chain
heap_malloc-empty h used valid = ap (λ (t : Option ℕ). take_head t h) valid.chain

pub remove : ℕ → List ℕ → List ℕ
remove p [] = []
remove p (b ∷ bs) = if b == p then bs else b ∷ remove p bs

pub count-remove :
    (p q : ℕ) (bs : List ℕ)
    → 0 < count p bs
    → count q (remove p bs) + (if p == q then 1 else 0) ≡ count q bs
unfolding remove count
count-remove p q [] h = omega arith
count-remove p q (b ∷ bs) h = elim (Bool-cases (b == p)) [
  | inl e ↦ ground arith
  | inr e ↦ ground (arith, count-remove p q bs (ground arith))
]

pub length-remove : (p : ℕ) (bs : List ℕ) → 0 < count p bs → length (remove p bs) + 1 ≡ length bs
unfolding remove count
length-remove p [] h = omega arith
length-remove p (b ∷ bs) h = elim (Bool-cases (b == p)) [
  | inl e ↦ ground arith
  | inr e ↦ ground (arith, length-remove p bs (ground arith))
]

-- A block in use that is given back is the first one of the chain, and no other block changes hands.
pub heap_free_lem :
    (h : Memheap) (used free : List ℕ) (p : ℕ)
    → IsHeap h used free
    → 0 < count p used
    → IsHeap (heap_free p h) (remove p used) (p ∷ free)
unfolding heap_free Chain count
heap_free_lem h used free p valid held =
    let once = count-blocks h.numblk (h.sizeblk + 8) valid.base p (omega arith) in
    let absent : count p free ≡ 0 = omega (arith, valid.split p) in
    let fresh = count-absent p free absent in
    record {
      chain = (
        refl,
        (
          h.head,
          store-same h.memory p h.head,
          store-Chain h.memory p h.head h.head free fresh valid.chain,
          fresh,
        ),
      );
      counted = omega (arith, valid.counted);
      total = omega (arith, valid.total, length-remove p used held);
      base = valid.base;
      split = λ q. omega (arith, valid.split q, count-remove p q used held);
    }
