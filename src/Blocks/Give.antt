-- ===== src/Blocks/Give.antt =====
-- ec_alloctor.h, `blk_alloctor::free_` and `gc_`.
use eclib.Common.{
  ℕ, ◌+◌, ◌*◌, ◌%◌, ◌≤◌, ◌<◌, ◌≡◌, refl, sym, ap, ◌∙◌, false, ◌&&◌, List, [], ◌∷◌, ◌++◌, map,
  Option, some, length-append, ltb, ◌==◌, if◌then◌else◌, All, arith, length, Bool-cases, inl, inr,
  ◌>>=◌,
}
use mathlib.Core.Path.{subst}
use eclib.Memheap.{Memheap, canfree, heap_free}
use eclib.Blocks.{
  BlkAlloctor, gc_loop, gc_heaps, gc, free_at, free_collect, free, gc_minheaps, is_behind,
}
use eclib.Memheap.Init.{count}
use eclib.Memheap.Heap.{heap_free_lem, remove, count-remove}
use eclib.Blocks.Owners.{
  Live, total, unused_of, named, owned, IsLive, IsAlloctor, IsTaken, owned-le,
}

-- What `gc_` keeps of the heaps `ls` behind the first: every block in use with its owner, and no heap
-- that has all its blocks free.
record IsKept (nb : ℕ) (ls kept : List Live) (gone : List Memheap) : Type 0 where
  live : All (IsLive nb) kept
  busy : All (λ l. canfree l.heap ≡ false) kept
  counted : length kept + length gone ≡ length ls
  unused : total unused_of kept + length gone * nb ≡ total unused_of ls
  names : (q : ℕ) → total (named q) kept ≤ total (named q) ls
  same : (i q : ℕ) → owned i q kept ≡ owned i q ls

count-none : (us : List ℕ) (q : ℕ) → length us ≡ 0 → count q us ≡ 0
unfolding count
count-none [] q h = refl
count-none (u ∷ us) q h = omega (arith, h)

module _ (nb : ℕ) where
  collect :
      (ls : List Live)
      → All (IsLive nb) ls
      → (kept : List Live) × ((gc_loop (map Live.heap ls)).0 ≡ map Live.heap kept)
        × IsKept nb ls kept (gc_loop (map Live.heap ls)).1
  unfolding gc_loop
  collect [] v = (
    [],
    refl,
    record {
      live = tt;
      busy = tt;
      counted = omega arith;
      unused = omega arith;
      names = λ q. omega arith;
      same = λ i q. refl;
    },
  )
  collect (l ∷ ls) v =
      let (kept, e, k) = collect ls v.1 in
      let gone = (gc_loop (map Live.heap ls)).1 in
      elim (Bool-cases (canfree l.heap)) [
        | inl t ↦
            let idle : length l.used ≡ 0 = ground (arith, v.0.valid.total, v.0.valid.counted) in
            let all_free : length l.unused ≡ nb =
              omega (arith, v.0.valid.total, v.0.blocks, idle) in
            let more : length (gone ++ l.heap ∷ []) ≡ length gone + 1 =
              omega (arith, length-append gone (l.heap ∷ [])) in
            (
              kept,
              rw t e,
              rw t (record {
                live = k.live;
                busy = k.busy;
                counted = omega (arith, k.counted, more);
                unused = rw more (omega (arith, k.unused, all_free));
                names = λ q. omega (arith, k.names q);
                same = λ i q. ground (arith, k.same i q, count-none l.used q idle);
              }),
            )
        | inr t ↦ (
          l ∷ kept,
          rw t (ap (λ (hs : List Memheap). l.heap ∷ hs) e),
          rw t (record {
            live = (v.0, k.live);
            busy = (t, k.busy);
            counted = omega (arith, k.counted);
            unused = omega (arith, k.unused);
            names = λ q. omega (arith, k.names q);
            same = λ i q. omega (arith, k.same i q);
          }),
        )
      ]

  -- `pheap->free_(p)` on the heap at `id`.
  give :
      (id p : ℕ) (ls : List Live)
      → All (IsLive nb) ls
      → total (named id) ls ≤ 1
      → 0 < owned id p ls
      → (after : List Live) × (h : Memheap) × (free_at id p (map Live.heap ls)
          ≡ some (map Live.heap after, h))
        × All (IsLive nb) after
        × IsTaken nb after ls id p
  unfolding free_at heap_free
  give id p [] v apart held = elim held [ ]
  give id p (l ∷ ls) v apart held = elim (Bool-cases (l.heap.self == id)) [
    | inl t ↦
        let others : owned id p ls ≡ 0 = ground (arith, owned-le id p nb ls v.1) in
        let mine : 0 < count p l.used = ground arith in
        let l' : Live = record {
          heap = heap_free p l.heap;
          used = remove p l.used;
          unused = p ∷ l.unused;
        } in
        (
          l' ∷ ls,
          heap_free p l.heap,
          rw t refl,
          (
            record {
              valid = heap_free_lem l.heap l.used l.unused p v.0.valid mine;
              blocks = v.0.blocks;
            },
            v.1,
          ),
          record {
            live = v;
            counted = refl;
            unused = omega arith;
            names = λ q. refl;
            taken = λ i q. ground (arith, count-remove p q l.used mine);
          },
        )
    | inr t ↦
        let (after, h, e, v', k) = give id p ls v.1 (ground arith) (ground arith) in
        (
          l ∷ after,
          h,
          rw (t, e) refl,
          (v.0, v'),
          record {
            live = v;
            counted = omega (arith, k.counted);
            unused = omega (arith, k.unused);
            names = λ q. omega (arith, k.names q);
            taken = λ i q. omega (arith, k.taken i q);
          },
        )
  ]

-- The first heap and the heaps that `gc_` keeps.
abbrev pub IsCollected : BlkAlloctor → List Live → BlkAlloctor → Type 0
IsCollected s [] s' = s' ≡ s
IsCollected s (l ∷ ls) s' =
    (kept : List Live) × IsAlloctor s' (l ∷ kept)
    × All (λ k. canfree k.heap ≡ false) kept
    × ((i q : ℕ) → owned i q (l ∷ kept) ≡ owned i q (l ∷ ls))

-- `gc_` keeps the allocator valid and every block in use with its owner, and leaves behind the first heap
-- no heap whose blocks are all free.
pub gc_lem : (s : BlkAlloctor) (ls : List Live) → IsAlloctor s ls → IsCollected s ls (gc s)
unfolding gc gc_heaps
gc_lem s [] valid = ap (λ (hs : List Memheap). gc_heaps hs s) valid.heaps
gc_lem s (l ∷ ls) valid =
    let (kept, e, k) = collect s.numblksperheap ls valid.live.1 in
    let step = ap (λ (hs : List Memheap). gc_heaps hs s) valid.heaps in
    (
      kept,
      subst (λ z. IsAlloctor z (l ∷ kept)) (sym step)
          (record {
            heaps = ap (λ (hs : List Memheap). l.heap ∷ hs) e;
            live = (valid.live.0, k.live);
            counted = omega (arith, valid.counted, k.counted);
            unused = omega (arith, valid.unused, k.unused);
            apart = λ q. omega (arith, valid.apart q, k.names q);
          }),
      k.busy,
      λ i q. omega (arith, k.same i q),
    )

-- `free_` returns, and `after` are the heaps then: the block is in use once less.
abbrev pub Frees : ℕ → ℕ → List Live → Option BlkAlloctor → Type 0
Frees id p ls r =
    (after : List Live) × (s' : BlkAlloctor) × (r ≡ some s')
    × IsAlloctor s' after
    × ((i q : ℕ)
        → owned i q ls ≡ owned i q after + (if id == i then (if p == q then 1 else 0) else 0))

collected :
    (id p : ℕ) (ls after : List Live) (s : BlkAlloctor)
    → IsAlloctor s after
    → ((i q : ℕ)
        → owned i q ls ≡ owned i q after + (if id == i then (if p == q then 1 else 0) else 0))
    → Frees id p ls (some (gc s))
collected id p ls [] s valid given =
    ([], gc s, refl, subst (λ z. IsAlloctor z []) (sym (gc_lem s [] valid)) valid, given)
collected id p ls (l ∷ after) s valid given =
    let (kept, v, busy, same) = gc_lem s (l ∷ after) valid in
    (l ∷ kept, gc s, refl, v, λ i q. rw (same i q) (given i q))

-- A block in use that is given back to its heap is in use no more, and no other block changes hands. The
-- allocator stays valid, whether or not the garbage is collected.
pub free_lem :
    (id p : ℕ) (s : BlkAlloctor) (ls : List Live)
    → IsAlloctor s ls
    → 0 < s.numblksperheap
    → 0 < owned id p ls
    → Frees id p ls (free id p s)
unfolding free free_collect
free_lem id p s ls valid some_block held =
    let (after, h, e, v, k) = give s.numblksperheap id p ls valid.live (valid.apart id) held in
    let heaps = map Live.heap after in
    let next = record s { heaps = heaps; numfreeblks = s.numfreeblks + 1 } in
    let ok : IsAlloctor next after = record {
      heaps = refl;
      live = v;
      counted = omega (arith, valid.counted, k.counted);
      unused = omega (arith, valid.unused, k.unused);
      apart = λ q. omega (arith, valid.apart q, k.names q);
    } in
    let plain : Frees id p ls (some next) = (after, next, refl, ok, k.taken) in
    let cleaned = collected id p ls after next ok k.taken in
    let start : free id p s ≡ free_collect id (heaps, h) s =
      ap (λ (hs : List Memheap). free_at id p hs >>= (λ t. free_collect id t s)) valid.heaps
      ∙ ap (λ (r : Option (List Memheap × Memheap)). r >>= (λ t. free_collect id t s)) e in
    let some_blocks : (s.numblksperheap == 0) ≡ false = ground arith in
    subst (Frees id p ls) (sym start)
      (elim (Bool-cases (ltb gc_minheaps s.numheaps && (canfree h && is_behind id heaps))) [
        | inr t ↦ rw t plain
        | inl t ↦ elim (Bool-cases ((s.numfreeblks + 1) % s.numblksperheap == 0)) [
          | inl u ↦ rw (t, some_blocks, u) plain
          | inr u ↦ rw (t, some_blocks, u) cleaned
        ]
      ])
