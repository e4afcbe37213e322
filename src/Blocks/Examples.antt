-- ===== src/Blocks/Examples.antt =====
-- ec_alloctor.h, `memheap_` and `blk_alloctor`: runs, and the theorems at concrete values.
use eclib.Common.{◌≡◌, refl, false, [], none, some, arith}
use eclib.Memheap.{aligned}
use eclib.Blocks.{new_alloctor, init, malloc, free, numfree, destroy}
use eclib.Memheap.Init.{count}
use eclib.Blocks.Samples.{two_heaps, lives, two_heaps-IsAlloctor, no_heap, no_heap-IsAlloctor}
use eclib.Blocks.Take.{Mallocs, malloc_lem}
use eclib.Blocks.Give.{Frees, free_lem}

set_up : (init none none 30 2 false (new_alloctor 1)).1 ≡ no_heap
unfolding init new_alloctor aligned
set_up = refl

sum_of_heaps : numfree two_heaps ≡ 3
unfolding numfree
sum_of_heaps = refl

emptied : (destroy two_heaps).numheaps ≡ 0
unfolding destroy
emptied = refl

malloc_lem_example : Mallocs no_heap [] (malloc (some 7) (some 1000) no_heap)
malloc_lem_example =
    malloc_lem no_heap [] no_heap-IsAlloctor (omega arith) (some 7) (some 1000) (omega arith)
      (λ e. (7, 1000, refl, refl, refl))

free_lem_example : Frees 7 1008 lives (free 7 1008 two_heaps)
unfolding count
free_lem_example = free_lem 7 1008 two_heaps lives two_heaps-IsAlloctor (omega arith) (omega arith)
