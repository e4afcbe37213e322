-- ===== src/Blocks/Samples.antt =====
-- ec_alloctor.h: small allocators for the tests.
use eclib.Common.{refl, List, [], ◌∷◌, none, some, ◌==◌, if◌then◌else◌, arith}
use eclib.Memheap.{Memheap}
use eclib.Blocks.{BlkAlloctor}
use eclib.Memheap.Chain.{Chain}
use eclib.Memheap.Init.{blocks, count}
use eclib.Memheap.Heap.{IsHeap}
use eclib.Blocks.Owners.{Live, IsAlloctor}

-- A heap of two blocks, with the first one in use.
abbrev pub half : Memheap
half = record {
  self = 7;
  palloc = 1;
  numfree = 1;
  numblk = 2;
  sizeblk = 32;
  pmem = some 1000;
  head = some 1048;
  memory = λ a. if a == 1048 then some none else none;
}

-- A heap of two free blocks.
abbrev pub idle : Memheap
idle = record {
  self = 9;
  palloc = 1;
  numfree = 2;
  numblk = 2;
  sizeblk = 32;
  pmem = some 2000;
  head = some 2008;
  memory = λ a. if a == 2008 then some (some 2048) else if a == 2048 then some none else none;
}

abbrev pub two_heaps : BlkAlloctor
two_heaps = record {
  self = 1;
  heaps = half ∷ idle ∷ [];
  numheaps = 2;
  numfreeblks = 3;
  sizeblk = 32;
  numblksperheap = 2;
  deleted = [];
}

abbrev pub lives : List Live
lives =
    record { heap = half; used = 1008 ∷ []; unused = 1048 ∷ [] }
    ∷ record { heap = idle; used = []; unused = 2008 ∷ 2048 ∷ [] }
    ∷ []

half-IsHeap : IsHeap half (1008 ∷ []) (1048 ∷ [])
unfolding Chain blocks count
half-IsHeap = record {
  chain = (refl, (none, refl, refl, tt));
  counted = refl;
  total = refl;
  base = 1000;
  split = λ q. omega arith;
}

idle-IsHeap : IsHeap idle [] (2008 ∷ 2048 ∷ [])
unfolding Chain blocks count
idle-IsHeap = record {
  chain = (refl, (some 2048, refl, (refl, (none, refl, refl, tt)), (omega arith, tt)));
  counted = refl;
  total = refl;
  base = 2000;
  split = λ q. omega arith;
}

pub two_heaps-IsAlloctor : IsAlloctor two_heaps lives
two_heaps-IsAlloctor = record {
  heaps = refl;
  live = (
    record { valid = half-IsHeap; blocks = refl },
    (record { valid = idle-IsHeap; blocks = refl }, tt),
  );
  counted = refl;
  unused = refl;
  apart = λ id. ground arith;
}

-- An allocator that has no heap yet.
abbrev pub no_heap : BlkAlloctor
no_heap = record {
  self = 1;
  heaps = [];
  numheaps = 0;
  numfreeblks = 0;
  sizeblk = 32;
  numblksperheap = 2;
  deleted = [];
}

pub no_heap-IsAlloctor : IsAlloctor no_heap []
no_heap-IsAlloctor = record {
  heaps = refl;
  live = tt;
  counted = refl;
  unused = refl;
  apart = λ id. omega arith;
}
