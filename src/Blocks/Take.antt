-- ===== src/Blocks/Take.antt =====
-- ec_alloctor.h, `blk_alloctor::malloc_`: a new heap, and the block that is returned.
use eclib.Common.{
  ℕ, ◌+◌, ◌-◌, ◌<◌, ◌≡◌, refl, sym, ap, ◌∙◌, false, List, [], ◌∷◌, map, Option, some, ◌==◌,
  if◌then◌else◌, arith, Bool-cases, inl, inr, ◌>>=◌,
}
use mathlib.Core.Path.{subst}
use eclib.Memheap.{Memheap, new_heap, init_heap, aligned}
use eclib.Blocks.{BlkAlloctor, malloc_loop, grow, malloc}
use eclib.Memheap.Init.{blocks, blocks-first, length-blocks, count}
use eclib.Memheap.Heap.{IsHeap, init_heap_lem, heap_malloc_lem}
use eclib.Blocks.Owners.{
  owned-le, apart-cons, owned-once, Live, total, named, owned, IsAlloctor, IsTaken,
}
use eclib.Blocks.Walk.{malloc_loop_lem}

-- Where no block is free, `new` and `malloc` answer, and the new heap's address is not in use.
abbrev pub HasMemory : BlkAlloctor → List Live → Option ℕ → Option ℕ → Type 0
HasMemory s ls self got =
    s.numfreeblks ≡ 0
    → (a : ℕ) × (b : ℕ) × (self ≡ some a) × (got ≡ some b) × (total (named a) ls ≡ 0)

-- `malloc_` returns the block `p` of the heap at `id`, which was free, and `after` are the heaps then.
abbrev pub Mallocs : BlkAlloctor → List Live → Option (Option ℕ × BlkAlloctor) → Type 0
Mallocs s ls r =
    (p : ℕ) × (id : ℕ) × (after : List Live) × (s' : BlkAlloctor) × (r ≡ some (some p, s'))
    × IsAlloctor s' after
    × (owned id p ls ≡ 0)
    × ((i q : ℕ)
        → owned i q after ≡ owned i q ls + (if id == i then (if p == q then 1 else 0) else 0))

module _ (s : BlkAlloctor) (ls : List Live) (valid : IsAlloctor s ls)
    (some_block : 0 < s.numblksperheap) where
  grow_lem :
      (a b : ℕ)
      → 0 < s.sizeblk
      → s.numfreeblks ≡ 0
      → total (named a) ls ≡ 0
      → Mallocs s ls (grow (some a) (some b) s)
  unfolding grow init_heap new_heap count
  grow_lem a b wide none_left new =
      let rest =
        blocks (s.numblksperheap - 1) (aligned s.sizeblk + 8) (b + (aligned s.sizeblk + 8)) in
      let fresh = (init_heap (some b) s.sizeblk s.numblksperheap (new_heap a s.self)).1 in
      let start = init_heap_lem b s.sizeblk s.numblksperheap a s.self wide some_block in
      let (h, e, v, self, numblk) = heap_malloc_lem fresh [] (b + 8) rest (
        subst (λ u. IsHeap fresh [] u)
          (blocks-first s.numblksperheap (aligned s.sizeblk + 8) b some_block) start) in
      let l : Live = record { heap = h; used = (b + 8) ∷ []; unused = rest } in
      let named_new : h.self ≡ a = self in
      let more : (i q : ℕ)
          → owned i q (l ∷ ls)
            ≡ owned i q ls + (if a == i then (if b + 8 == q then 1 else 0) else 0) =
        λ i q. rw named_new (ground arith) in
      (
        b + 8,
        a,
        l ∷ ls,
        record s {
          heaps = h ∷ s.heaps;
          numheaps = s.numheaps + 1;
          numfreeblks = s.numfreeblks + (s.numblksperheap - 1);
        },
        rw e refl,
        record {
          heaps = ap (λ (hs : List Memheap). h ∷ hs) valid.heaps;
          live = (record { valid = v; blocks = numblk }, valid.live);
          counted = omega (arith, valid.counted);
          unused = omega (
            arith,
            valid.unused,
            length-blocks (s.numblksperheap - 1) (aligned s.sizeblk + 8)
                (b + (aligned s.sizeblk + 8)),
          );
          apart = apart-cons l ls (ap (λ (k : ℕ). total (named k) ls) named_new ∙ new) valid.apart;
        },
        omega (arith, owned-le a (b + 8) s.numblksperheap ls valid.live, new),
        more,
      )

  found :
      (p id : ℕ) (after : List Live) (s' : BlkAlloctor)
      → s' ≡ record s { heaps = map Live.heap after; numfreeblks = s.numfreeblks - 1 }
      → IsTaken s.numblksperheap ls after id p
      → IsAlloctor s' after
  found p id after s' e taken =
      subst (λ z. IsAlloctor z after) (sym e)
        (record {
          heaps = refl;
          live = taken.live;
          counted = omega (arith, valid.counted, taken.counted);
          unused = omega (arith, valid.unused, taken.unused);
          apart = λ q. omega (arith, valid.apart q, taken.names q);
        })

  walk_lem : 0 < s.numfreeblks → (self got : Option ℕ) → Mallocs s ls (malloc self got s)
  unfolding malloc
  walk_lem h self got =
      let (p, id, after, e, taken) =
        malloc_loop_lem s.numblksperheap [] ls tt valid.live (omega (arith, valid.unused)) in
      let next = record s { heaps = map Live.heap after; numfreeblks = s.numfreeblks - 1 } in
      let ok = found p id after next refl taken in
      let test : (s.numfreeblks == 0) ≡ false = ground arith in
      let finish : ℕ × List Memheap → Option (Option ℕ × BlkAlloctor) =
        λ r. some (some r.0, record s { heaps = r.1; numfreeblks = s.numfreeblks - 1 }) in
      (
        p,
        id,
        after,
        next,
        rw test (
            ap (λ (hs : List Memheap). malloc_loop [] hs >>= finish) valid.heaps
            ∙ ap (λ (r : Option (ℕ × List Memheap)). r >>= finish) e),
        ok,
        ground (arith, owned-once next after ok id p, taken.taken id p),
        taken.taken,
      )

  -- With memory where none of its blocks is free, `malloc_` returns a block that is not in use and puts
  -- it in use, and changes the owner of no other block. The allocator stays valid.
  pub malloc_lem :
      (self got : Option ℕ)
      → 0 < s.sizeblk
      → HasMemory s ls self got
      → Mallocs s ls (malloc self got s)
  unfolding malloc
  malloc_lem self got wide memory = elim (Bool-cases (s.numfreeblks == 0)) [
    | inl e ↦
        let (a, b, named_a, at_b, new) = memory (ground arith) in
        rw (e, named_a, at_b) (grow_lem a b wide (ground arith) new)
    | inr e ↦ walk_lem (ground arith) self got
  ]
