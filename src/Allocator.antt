-- ===== src/Allocator.antt =====
-- ec_alloctor.h: the class `allocator`, a table of `blk_alloctor` by block size, and the choice of one
-- of them. `none` as a result is undefined behaviour.
pub mod Choice
pub mod Requests
mod Examples
use eclib.Common.{
  ℕ, zero, suc, ◌+◌, ◌-◌, ◌*◌, ◌/◌, ◌^◌, ◌%◌, Bool, true, false, not, ◌&&◌, Option, none, some,
  List, [], ◌∷◌, ◌++◌, map, length, get_or, get_elem?, set, drop, ltb, leb, ◌==◌, if◌then◌else◌,
  ◌>>=◌,
}
use eclib.Memheap.{Memheap}
use eclib.Blocks.{BlkAlloctor, new_alloctor, init, malloc, free}

-- `alloctors` is `_alloctors` up to `_size`.
pub record Allocator : Type 0 where
  pub alloctors : List BlkAlloctor

abbrev pub sizes : Allocator → List ℕ
sizes a = map BlkAlloctor.sizeblk a.alloctors

-- What the system answers: `object` to `new`, `memory` to the `malloc` of a heap, `large` to the
-- `malloc` of a block that no heap holds.
pub record System : Type 0 where
  pub object : Option ℕ
  pub memory : Option ℕ
  pub large : Option ℕ

-- `object` is the address of the new `blk_alloctor`.
pub add_alloctor : ℕ → System → ℕ → ℕ → Bool → Allocator → Bool × Allocator
add_alloctor object sys sizeblk numblk balloc a =
    if length a.alloctors == 32
    then (false, a)
    else (let (ok, p) = init sys.object sys.memory sizeblk numblk balloc (new_alloctor object) in
        if ok then (true, record { alloctors = a.alloctors ++ p ∷ [] }) else (false, a))

last_or : ℕ → List ℕ → ℕ
last_or d [] = d
last_or d (x ∷ xs) = last_or x xs

pub maxblksize : Allocator → ℕ
unfolding last_or
maxblksize a = last_or 0 (sizes a)

-- The loop `while (nl <= nh)`. `hi` is `nh + 1`, which is not negative.
pub half_loop : ℕ → List ℕ → ℕ → ℕ → ℕ → ℕ → ℕ
half_loop zero xs size nl hi nm = nm
half_loop (suc fuel) xs size nl hi nm =
    let mid = (nl + (hi - 1)) / 2 in
    let s = get_or xs mid 0 in
    let rest =
      half_loop fuel xs size (if ltb s size then mid + 1 else nl) (if ltb s size then hi else mid)
        mid in
    if ltb nl hi then (if not (ltb s size) && not (ltb size s) then mid else rest) else nm

-- The loop over the table from `i` on, `xs` being what is left of it.
pub scan : ℕ → List ℕ → ℕ → Option ℕ
scan size [] i = none
scan size (x ∷ xs) i = if leb size x then some i else scan size xs (i + 1)

-- The index of the allocator that a request of `size` bytes goes to.
pub pick : ℕ → List ℕ → Option ℕ
unfolding half_loop scan
pick size xs =
    let start =
      if ltb 16 (length xs) then half_loop (suc (length xs)) xs size 0 (length xs) 0 else 0 in
    scan size (drop start xs) start

-- A pointer and what is written to `*psize`, if anything.
pub record Answer : Type 0 where
  pub pointer : Option ℕ
  pub psize : Option ℕ

behind_header : Option ℕ → ℕ → Answer
behind_header none size = record { pointer = none; psize = none }
behind_header (some p) size = record { pointer = some (p + 8); psize = some size }

answer : Option ℕ → ℕ → Answer
answer none size = record { pointer = none; psize = none }
answer (some p) size = record { pointer = some p; psize = some size }

malloc_at : System → Option ℕ → Allocator → Option (Answer × Allocator)
unfolding answer
malloc_at sys none a = some (record { pointer = none; psize = none }, a)
malloc_at sys (some i) a = do
  s ← get_elem? a.alloctors i
  (p, s') ← malloc sys.object sys.memory s
  some (answer p s.sizeblk, record { alloctors = set a.alloctors i s' })

pub request : System → ℕ → Allocator → Option (Answer × Allocator)
unfolding maxblksize behind_header pick malloc_at
request sys size a =
    if ltb (maxblksize a) size
    then some (behind_header sys.large size, a)
    else malloc_at sys (pick size (sizes a)) a
