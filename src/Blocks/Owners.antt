-- ===== src/Blocks/Owners.antt =====
-- ec_alloctor.h, `blk_alloctor`: its heaps with their blocks in use and their free ones.
use eclib.Common.{
  ℕ, ◌+◌, ◌≤◌, ◌≡◌, ap, List, [], ◌∷◌, ◌++◌, map, ◌==◌, if◌then◌else◌, All, arith, length, ◌∙◌,
  Bool-cases, inl, inr,
}
use eclib.Memheap.{Memheap}
use eclib.Blocks.{BlkAlloctor}
use eclib.Memheap.Init.{count, count-blocks}
use eclib.Memheap.Heap.{IsHeap}

pub record Live : Type 0 where
  pub heap : Memheap
  pub used : List ℕ
  pub unused : List ℕ

-- The sum of `f` over a list.
abbrev pub total {ℓ} : {A : Type ℓ} → (A → ℕ) → List A → ℕ
total f [] = 0
total f (x ∷ xs) = f x + total f xs

pub total-append {ℓ} :
    {A : Type ℓ} (f : A → ℕ) (xs ys : List A) → total f (xs ++ ys) ≡ total f xs + total f ys
total-append f [] ys = omega arith
total-append f (x ∷ xs) ys = omega (arith, total-append f xs ys)

abbrev pub unused_of : Live → ℕ
unused_of l = length l.unused

abbrev pub named : ℕ → Live → ℕ
named id l = if l.heap.self == id then 1 else 0

abbrev pub held_by : ℕ → ℕ → Live → ℕ
held_by id q l = if l.heap.self == id then count q l.used else 0

-- How often the block `q` of the heap at `id` is in use.
abbrev pub owned : ℕ → ℕ → List Live → ℕ
owned id q ls = total (held_by id q) ls

pub record IsLive (numblk : ℕ) (l : Live) : Type 0 where
  pub valid : IsHeap l.heap l.used l.unused
  pub blocks : l.heap.numblk ≡ numblk

-- The heaps are those of `ls`, each of them at its own address, and the counters count heaps and free
-- blocks.
pub record IsAlloctor (s : BlkAlloctor) (ls : List Live) : Type 0 where
  pub heaps : s.heaps ≡ map Live.heap ls
  pub live : All (IsLive s.numblksperheap) ls
  pub counted : s.numheaps ≡ length ls
  pub unused : s.numfreeblks ≡ total unused_of ls
  pub apart : (id : ℕ) → total (named id) ls ≤ 1

-- What one block changes hands by: `before` and `after` have the same heaps, and the block `p` of the
-- heap at `id` is in use in `after` once more than in `before`.
pub record IsTaken (numblk : ℕ) (before after : List Live) (id p : ℕ) : Type 0 where
  pub live : All (IsLive numblk) after
  pub counted : length after ≡ length before
  pub unused : total unused_of after + 1 ≡ total unused_of before
  pub names : (q : ℕ) → total (named q) after ≡ total (named q) before
  pub taken :
      (i q : ℕ)
      → owned i q after ≡ owned i q before + (if id == i then (if p == q then 1 else 0) else 0)

held_by-le : (id q numblk : ℕ) (l : Live) → IsLive numblk l → held_by id q l ≤ named id l
held_by-le id q numblk l v =
    let once = count-blocks l.heap.numblk (l.heap.sizeblk + 8) v.valid.base q (omega arith) in
    let less : count q l.used ≤ 1 = omega (arith, v.valid.split q) in ground (arith, less)

pub owned-le :
    (id q numblk : ℕ) (ls : List Live)
    → All (IsLive numblk) ls
    → owned id q ls ≤ total (named id) ls
owned-le id q numblk [] v = omega arith
owned-le id q numblk (l ∷ ls) v =
    omega (arith, held_by-le id q numblk l v.0, owned-le id q numblk ls v.1)

-- No block is in use twice.
pub owned-once :
    (s : BlkAlloctor) (ls : List Live) → IsAlloctor s ls → (id q : ℕ) → owned id q ls ≤ 1
owned-once s ls v id q = omega (arith, owned-le id q s.numblksperheap ls v.live, v.apart id)

pub apart-cons :
    (l : Live) (ls : List Live)
    → total (named l.heap.self) ls ≡ 0
    → ((id : ℕ) → total (named id) ls ≤ 1)
    → (id : ℕ) → total (named id) (l ∷ ls) ≤ 1
apart-cons l ls new apart id = elim (Bool-cases (l.heap.self == id)) [
  | inl e ↦
      let same : id ≡ l.heap.self = ground arith in
      let unnamed : total (named id) ls ≡ 0 = ap (λ (k : ℕ). total (named k) ls) same ∙ new in
      ground arith
  | inr e ↦ ground (arith, apart id)
]
