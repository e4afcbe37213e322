-- ===== src/Allocator/Requests.antt =====
-- ec_alloctor.h, `allocator::malloc_`: a request that some block size fits.
use eclib.Common.{
  ℕ, zero, suc, ◌+◌, ◌≤◌, ◌<◌, ◌≡◌, refl, ◌∙◌, true, false, List, [], ◌∷◌, map, Option, some,
  length, get_or, get_elem?, set, ltb, leb, ◌==◌, if◌then◌else◌, arith, Bool-cases, inl, inr,
}
use eclib.Blocks.{BlkAlloctor}
use eclib.Blocks.Owners.{Live, IsAlloctor, owned}
use eclib.Blocks.Take.{HasMemory, malloc_lem}
use eclib.Allocator.{
  Allocator, System, Answer, sizes, last_or, maxblksize, scan, pick, answer, malloc_at, request,
}
use eclib.Allocator.Choice.{IsAscending, pick_lem}

-- The first size that fits stands at `k`.
abbrev FirstFit : ℕ → List ℕ → ℕ → Type 0
FirstFit size xs k =
    (k < length xs) × (size ≤ get_or xs k 0) × ((j : ℕ) → j < k → get_or xs j 0 < size)

later :
    (size k x : ℕ) (xs : List ℕ)
    → x < size
    → ((j : ℕ) → j < k → get_or xs j 0 < size)
    → (j : ℕ) → j < suc k
    → get_or (x ∷ xs) j 0 < size
later size k x xs first small zero h = first
later size k x xs first small (suc j) h = small j (omega arith)

scan-FirstFit :
    (size d : ℕ) (xs : List ℕ) (i : ℕ)
    → 0 < length xs
    → size ≤ last_or d xs
    → (k : ℕ) × (scan size xs i ≡ some (i + k)) × FirstFit size xs k
unfolding scan last_or
scan-FirstFit size d [] i some_size fits = elim some_size [ ]
scan-FirstFit size d (x ∷ []) i some_size fits =
    let test : leb size x ≡ true = ground arith in
    let same : i + 0 ≡ i = omega arith in
    (0, rw (test, same) refl, (omega arith, fits, λ j h. elim h [ ]))
scan-FirstFit size d (x ∷ y ∷ ys) i some_size fits = elim (Bool-cases (leb size x)) [
  | inl e ↦
      let same : i + 0 ≡ i = omega arith in
      (0, rw (e, same) refl, (omega arith, ground arith, λ j h. elim h [ ]))
  | inr e ↦
      let (k, found, (inside, wide, small)) =
        scan-FirstFit size x (y ∷ ys) (i + 1) (omega arith) fits in
      let moved : i + 1 + k ≡ i + suc k = omega arith in
      (
        suc k,
        rw e (rw moved at found),
        (omega arith, wide, later size k x (y ∷ ys) (ground arith) small),
      )
]

element :
    (ps : List BlkAlloctor) (k : ℕ)
    → k < length (map BlkAlloctor.sizeblk ps)
    → (s : BlkAlloctor) × (get_elem? ps k ≡ some s)
      × (get_or (map BlkAlloctor.sizeblk ps) k 0 ≡ s.sizeblk)
element [] k h = elim h [ ]
element (a ∷ ps) zero h = (a, refl, refl)
element (a ∷ ps) (suc k) h = element ps k (omega arith)

-- Each allocator of the table is valid, with the heaps `lives i`, and has memory to grow.
abbrev pub IsServing : System → Allocator → (ℕ → List Live) → Type 0
IsServing sys a lives =
    (i : ℕ) (s : BlkAlloctor)
    → get_elem? a.alloctors i ≡ some s
    → IsAlloctor s (lives i)
      × (0 < s.numblksperheap)
      × (0 < s.sizeblk)
      × HasMemory s (lives i) sys.object sys.memory

-- The allocator `s` at `i` of the table, the first one whose blocks are large enough, serves the
-- request with its block `p`, which was free.
pub record IsServed (sys : System) (size : ℕ) (a : Allocator) (lives : ℕ → List Live)
    (r : Option (Answer × Allocator)) : Type 0 where
  pub i : ℕ
  pub p : ℕ
  pub heap : ℕ
  pub before : BlkAlloctor
  pub after : BlkAlloctor
  pub lives' : List Live
  pub found : get_elem? a.alloctors i ≡ some before
  pub fits : size ≤ before.sizeblk
  pub first : (j : ℕ) → j < i → get_or (sizes a) j 0 < size
  pub answers :
      r
      ≡ some (
        record { pointer = some p; psize = some before.sizeblk },
        record { alloctors = set a.alloctors i after },
      )
  pub valid : IsAlloctor after lives'
  pub unused : owned heap p (lives i) ≡ 0
  pub taken :
      (h q : ℕ)
      → owned h q lives'
        ≡ owned h q (lives i) + (if heap == h then (if p == q then 1 else 0) else 0)

-- With ascending block sizes a request of at most the largest one is served by the smallest block size
-- that fits, and the size that it reports is the block's. No other allocator of the table changes.
pub request_lem :
    (sys : System) (size : ℕ) (a : Allocator) (lives : ℕ → List Live)
    → IsAscending (sizes a)
    → IsServing sys a lives
    → 0 < length (sizes a)
    → size ≤ maxblksize a
    → IsServed sys size a lives (request sys size a)
unfolding request maxblksize malloc_at answer
request_lem sys size a lives sorted serving some_size small =
    let (k, scanned, (inside, wide, first)) = scan-FirstFit size 0 (sizes a) 0 some_size small in
    let (s, at, same) = element a.alloctors k inside in
    let (valid, some_block, some_bytes, memory) = serving k s at in
    let (p, id, after, s', e, valid', unused, taken) =
      malloc_lem s (lives k) valid some_block sys.object sys.memory some_bytes memory in
    let pooled : ltb (maxblksize a) size ≡ false = ground arith in
    let at_start : 0 + k ≡ k = omega arith in
    let picks : pick size (sizes a) ≡ some k =
      pick_lem size (sizes a) sorted ∙ rw at_start at scanned in
    record {
      i = k;
      p = p;
      heap = id;
      before = s;
      after = s';
      lives' = after;
      found = at;
      fits = omega (arith, wide, same);
      first = first;
      answers = rw (pooled, picks, at, e) refl;
      valid = valid';
      unused = unused;
      taken = taken;
    }
