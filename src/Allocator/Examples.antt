-- ===== src/Allocator/Examples.antt =====
-- ec_alloctor.h, `allocator`: runs, and the theorems at concrete values.
use eclib.Common.{
  ℕ, ◌<◌, ◌≡◌, refl, true, false, List, [], ◌∷◌, none, some, ◌==◌, if◌then◌else◌, arith,
}
use mathlib.Core.Path.{subst}
use mathlib.Core.Option.{some-injective}
use Prim.Native.Nat.{zero, suc}
use eclib.Blocks.{BlkAlloctor, init, new_alloctor}
use eclib.Blocks.Take.{HasMemory}
use eclib.Blocks.Owners.{Live, IsAlloctor}
use eclib.Blocks.Samples.{no_heap, two_heaps, lives, two_heaps-IsAlloctor}
use eclib.Allocator.{
  Allocator, System, sizes, half_loop, scan, pick, request, maxblksize, add_alloctor,
}
use eclib.Allocator.Choice.{IsAscending, is_ascending, is_ascending-IsAscending, pick_lem}
use eclib.Allocator.Requests.{IsServing, IsServed, request_lem}

-- The block sizes of `ec_allocator_`, where memory is not tiny or small.
abbrev table : List ℕ
table =
    32 ∷ 72 ∷ 120 ∷ 248 ∷ 312 ∷ 504 ∷ 632 ∷ 792 ∷ 1016 ∷ 1592 ∷ 2040 ∷ 3064 ∷ 5112 ∷ 8184 ∷ 12280
    ∷ 16376 ∷ 20472 ∷ 24568 ∷ 32760 ∷ 49144 ∷ 65528 ∷ 131064 ∷ 262136 ∷ 409592 ∷ 655352 ∷ 1048568
    ∷ []

hit : pick 5000 table ≡ some 12
unfolding pick half_loop scan
hit = refl

miss : pick 2000000 table ≡ none
unfolding pick half_loop scan
miss = refl

table-IsAscending : IsAscending table
unfolding is_ascending
table-IsAscending = is_ascending-IsAscending table refl

-- Blocks of 32 bytes with two heaps, and of 64 bytes with none.
abbrev wide : BlkAlloctor
wide = record no_heap { self = 2; sizeblk = 64 }

abbrev two_sizes : Allocator
two_sizes = record { alloctors = two_heaps ∷ wide ∷ [] }

abbrev system : System
system = record { object = some 7; memory = some 1000; large = none }

abbrev two_lives : ℕ → List Live
two_lives i = if i == 0 then lives else []

wide-IsAlloctor : IsAlloctor wide []
wide-IsAlloctor = record {
  heaps = refl;
  live = tt;
  counted = refl;
  unused = refl;
  apart = λ id. omega arith;
}

Ready : BlkAlloctor → List Live → Type 0
Ready s ls =
    IsAlloctor s ls
    × (0 < s.numblksperheap)
    × (0 < s.sizeblk)
    × HasMemory s ls system.object system.memory

two_sizes-IsServing : IsServing system two_sizes two_lives
unfolding Ready
two_sizes-IsServing zero s at =
    subst (λ s. Ready s lives) (some-injective two_heaps s at)
      (two_heaps-IsAlloctor, omega arith, omega arith, λ e. ground arith)
two_sizes-IsServing (suc zero) s at =
    subst (λ s. Ready s []) (some-injective wide s at)
      (wide-IsAlloctor, omega arith, omega arith, λ e. (7, 1000, refl, refl, refl))
two_sizes-IsServing (suc (suc i)) s at = ground arith

pick_lem_example : pick 5000 table ≡ scan 5000 table 0
pick_lem_example = pick_lem 5000 table table-IsAscending

sizes-IsAscending : IsAscending (sizes two_sizes)
unfolding is_ascending
sizes-IsAscending = is_ascending-IsAscending (sizes two_sizes) refl

request_lem_example : IsServed system 40 two_sizes two_lives (request system 40 two_sizes)
unfolding maxblksize
request_lem_example =
    request_lem system 40 two_sizes two_lives sizes-IsAscending two_sizes-IsServing (omega arith)
      (omega arith)

added : (add_alloctor 3 system 30 2 false (record { alloctors = [] })).0 ≡ true
unfolding add_alloctor init new_alloctor
added = refl
