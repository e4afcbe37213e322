-- ===== src/Blocks.antt =====
-- ec_alloctor.h: `blk_alloctor`, a list of heaps with blocks of one size. `got` and `self` are what
-- `malloc` and `new` answer. `none` as a result of type Option is undefined behaviour.
pub mod Owners
pub mod Walk
pub mod Take
pub mod Give
pub mod Samples
mod Examples
use eclib.Common.{
  ℕ, zero, suc, ◌+◌, ◌-◌, ◌%◌, ◌*◌, ◌^◌, length, Bool, true, false, not, ◌&&◌, Option, none, some,
  List, [], ◌∷◌, ◌++◌, ltb, ◌==◌, if◌then◌else◌, ◌>>=◌,
}
use eclib.Memheap.{Memheap, new_heap, aligned, init_heap, heap_malloc, heap_free, canfree}

-- `heaps` is the list from `_phead` on, `deleted` the heaps that were deleted, the last one first.
pub record BlkAlloctor : Type 0 where
  pub self : ℕ
  pub heaps : List Memheap
  pub numheaps : ℕ
  pub numfreeblks : ℕ
  pub sizeblk : ℕ
  pub numblksperheap : ℕ
  pub deleted : List Memheap

-- The walk over the heaps: `seen` are those before `pheap`.
malloc_next :
    List Memheap
    → List Memheap
    → Option ℕ × Memheap
    → Option (ℕ × List Memheap)
    → Option (ℕ × List Memheap)
malloc_next seen hs (none, h) rest = rest
malloc_next [] hs (some p, h) rest = some (p, h ∷ hs)
malloc_next (s ∷ seen) hs (some p, h) rest =
    some (p, if ltb 0 h.numfree then h ∷ (s ∷ seen) ++ hs else (s ∷ seen) ++ h ∷ hs)

pub malloc_loop : List Memheap → List Memheap → Option (ℕ × List Memheap)
unfolding malloc_next
malloc_loop seen [] = none
malloc_loop seen (h ∷ hs) =
    let rest = malloc_loop (seen ++ h ∷ []) hs in
    do got ← heap_malloc h; malloc_next seen hs got rest

-- The branch with no free block. `new` answers `self`, the heap's `malloc` answers `got`.
pub grow : Option ℕ → Option ℕ → BlkAlloctor → Option (Option ℕ × BlkAlloctor)
grow none got s = some (none, s)
grow (some self) none s = some (none, s)
grow (some self) (some pmem) s =
    let (made, heap) = init_heap (some pmem) s.sizeblk s.numblksperheap (new_heap self s.self) in
    do
      (p, heap) ← heap_malloc heap
      some (
        p,
        record s {
          heaps = heap ∷ s.heaps;
          numheaps = s.numheaps + 1;
          numfreeblks = s.numfreeblks + (s.numblksperheap - 1);
        },
      )

-- The assertion after the loop is that the loop finds a block.
pub malloc : Option ℕ → Option ℕ → BlkAlloctor → Option (Option ℕ × BlkAlloctor)
unfolding grow malloc_loop
malloc self got s = if s.numfreeblks == 0 then grow self got s else (do
  (p, heaps) ← malloc_loop [] s.heaps
  some (some p, record s { heaps = heaps; numfreeblks = s.numfreeblks - 1 }))

-- The loop of `gc_` after the first heap: the heaps kept and those deleted.
pub gc_loop : List Memheap → List Memheap × List Memheap
gc_loop [] = ([], [])
gc_loop (h ∷ hs) =
    let (kept, gone) = gc_loop hs in if canfree h then (kept, gone ++ h ∷ []) else (h ∷ kept, gone)

-- The first heap is never deleted.
gc_heaps : List Memheap → BlkAlloctor → BlkAlloctor
unfolding gc_loop
gc_heaps [] s = s
gc_heaps (h ∷ hs) s =
    let (kept, gone) = gc_loop hs in
    record s {
      heaps = h ∷ kept;
      numheaps = s.numheaps - length gone;
      numfreeblks = s.numfreeblks - length gone * s.numblksperheap;
      deleted = gone ++ s.deleted;
    }

pub gc : BlkAlloctor → BlkAlloctor
unfolding gc_heaps
gc s = gc_heaps s.heaps s

-- `pheap->free_(p)`: the list with that heap changed, and the heap.
free_at : ℕ → ℕ → List Memheap → Option (List Memheap × Memheap)
free_at pheap p [] = none
free_at pheap p (h ∷ hs) =
    let rest = (do (hs', h') ← free_at pheap p hs; some (h ∷ hs', h')) in
    if h.self == pheap then some (heap_free p h ∷ hs, heap_free p h) else rest

-- `pheap != _phead`.
is_behind : ℕ → List Memheap → Bool
is_behind pheap [] = true
is_behind pheap (h ∷ hs) = not (h.self == pheap)

abbrev pub gc_minheaps : ℕ
gc_minheaps = 3

free_collect : ℕ → List Memheap × Memheap → BlkAlloctor → Option BlkAlloctor
unfolding gc is_behind
free_collect pheap (heaps, h) s =
    let s' = record s { heaps = heaps; numfreeblks = s.numfreeblks + 1 } in
    if ltb gc_minheaps s.numheaps && (canfree h && is_behind pheap heaps)
    then (if s.numblksperheap == 0
        then none
        else if s'.numfreeblks % s.numblksperheap == 0
        then some s'
        else some (gc s'))
    else some s'

pub free : ℕ → ℕ → BlkAlloctor → Option BlkAlloctor
unfolding free_at free_collect
free pheap p s = do at ← free_at pheap p s.heaps; free_collect pheap at s

pub numfree_heaps : List Memheap → ℕ
numfree_heaps [] = 0
numfree_heaps (h ∷ hs) = h.numfree + numfree_heaps hs

pub numfree : BlkAlloctor → ℕ
unfolding numfree_heaps
numfree s = numfree_heaps s.heaps

unfoldable pub new_alloctor : ℕ → BlkAlloctor
new_alloctor self = record {
  self = self;
  heaps = [];
  numheaps = 0;
  numfreeblks = 0;
  sizeblk = 0;
  numblksperheap = 0;
  deleted = [];
}

-- `init` with `balloc`: the first heap, at `self`, its memory at `got`.
first_heap : Option ℕ → Option ℕ → ℕ → ℕ → BlkAlloctor → Bool × BlkAlloctor
first_heap none got sizeblk numblk s = (false, s)
first_heap (some self) none sizeblk numblk s = (false, s)
first_heap (some self) (some pmem) sizeblk numblk s =
    let (made, heap) = init_heap (some pmem) sizeblk numblk (new_heap self s.self) in
    (
      true,
      record s {
        heaps = heap ∷ [];
        sizeblk = heap.sizeblk % 2 ^ 32;
        numblksperheap = numblk % 2 ^ 32;
        numheaps = 1;
        numfreeblks = s.numfreeblks + numblk % 2 ^ 32;
      },
    )

unfoldable pub init : Option ℕ → Option ℕ → ℕ → ℕ → Bool → BlkAlloctor → Bool × BlkAlloctor
unfolding first_heap
init self got sizeblk numblk balloc s =
    if not (length s.heaps == 0)
    then (true, s)
    else if balloc
    then first_heap self got sizeblk numblk s
    else (true, record s { sizeblk = aligned sizeblk % 2 ^ 32; numblksperheap = numblk % 2 ^ 32 })

pub destroy : BlkAlloctor → BlkAlloctor
destroy s = record {
  self = s.self;
  heaps = [];
  numheaps = 0;
  numfreeblks = 0;
  sizeblk = 0;
  numblksperheap = 0;
  deleted = s.heaps ++ s.deleted;
}
