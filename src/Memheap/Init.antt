-- ===== src/Memheap/Init.antt =====
-- ec_alloctor.h, `memheap_::init`: the chain that its loop threads.
use eclib.Common.{
  ℕ, zero, suc, ◌+◌, ◌-◌, ◌≤◌, ◌<◌, ◌≡◌, ◌≢◌, refl, ◌∙◌, false, List, [], ◌∷◌, none, some, ◌==◌,
  if◌then◌else◌, All, arith, length, Bool-cases, inl, inr,
}
use eclib.Memheap.{Memory, store, init_loop, aligned}
use eclib.Memheap.Chain.{Chain, store-same, store-other}

-- The blocks of a piece of memory at `ps`, each behind its header.
unfoldable pub blocks : ℕ → ℕ → ℕ → List ℕ
blocks zero size ps = []
blocks (suc n) size ps = (ps + 8) ∷ blocks n size (ps + size)

pub length-blocks : (n size ps : ℕ) → length (blocks n size ps) ≡ n
unfolding blocks
length-blocks zero size ps = refl
length-blocks (suc n) size ps = omega (arith, length-blocks n size (ps + size))

pub blocks-first :
    (n size ps : ℕ) → 0 < n → blocks n size ps ≡ (ps + 8) ∷ blocks (n - 1) size (ps + size)
unfolding blocks
blocks-first zero size ps h = elim h [ ]
blocks-first (suc n) size ps h = let less : suc n - 1 ≡ n = omega arith in rw less refl

blocks-apart : (n size ps b : ℕ) → b < ps + 8 → All (λ c. c ≢ b) (blocks n size ps)
unfolding blocks
blocks-apart zero size ps b h = tt
blocks-apart (suc n) size ps b h = (omega arith, blocks-apart n size (ps + size) b (omega arith))

init_loop-below :
    (n self size ps : ℕ) (mem : Memory) (a : ℕ) → a < ps → init_loop n self size ps mem a ≡ mem a
unfolding init_loop
init_loop-below zero self size ps mem a h = refl
init_loop-below (suc n) self size ps mem a h =
    init_loop-below n self size (ps + size)
      (store (store mem ps (some self)) (ps + 8) (if n == 0 then none else some (ps + size + 8))) a
      (omega arith)
    ∙ store-other (store mem ps (some self)) (ps + 8) a
        (if n == 0 then none else some (ps + size + 8)) (omega arith)
    ∙ store-other mem ps a (some self) (omega arith)

-- Blocks of eight bytes at least do not reach into the next header.
pub init_loop-Chain :
    (n self size ps : ℕ) (mem : Memory)
    → 16 ≤ size
    → Chain
        (init_loop n self size ps mem)
        (if n == 0 then none else some (ps + 8))
        (blocks n size ps)
unfolding init_loop blocks Chain
init_loop-Chain zero self size ps mem wide = refl
init_loop-Chain (suc n) self size ps mem wide =
    let test : (suc n == 0) ≡ false = ground arith in
    rw test (
      refl,
      (
        if n == 0 then none else some (ps + size + 8),
        init_loop-below n self size (ps + size)
              (store (store mem ps (some self)) (ps + 8)
                (if n == 0 then none else some (ps + size + 8)))
              (ps + 8) (omega arith)
            ∙ store-same (store mem ps (some self)) (ps + 8)
                (if n == 0 then none else some (ps + size + 8)),
        init_loop-Chain n self size (ps + size)
            (store (store mem ps (some self)) (ps + 8)
              (if n == 0 then none else some (ps + size + 8)))
            wide,
        blocks-apart n size (ps + size) (ps + 8) (omega arith),
      ),
    )

pub aligned-wide : (n : ℕ) → 0 < n → 8 ≤ aligned n
unfolding aligned
aligned-wide n h = ground arith

-- How often an address occurs.
unfoldable pub count : ℕ → List ℕ → ℕ
count q [] = 0
count q (b ∷ bs) = (if b == q then 1 else 0) + count q bs

pub count-absent : (q : ℕ) (bs : List ℕ) → count q bs ≡ 0 → All (λ c. c ≢ q) bs
unfolding count
count-absent q [] h = tt
count-absent q (b ∷ bs) h = (ground arith, count-absent q bs (ground arith))

count-below : (n size ps q : ℕ) → q < ps + 8 → count q (blocks n size ps) ≡ 0
unfolding count blocks
count-below zero size ps q h = refl
count-below (suc n) size ps q h = ground (arith, count-below n size (ps + size) q (omega arith))

pub count-blocks : (n size ps q : ℕ) → 0 < size → count q (blocks n size ps) ≤ 1
unfolding count blocks
count-blocks zero size ps q h = omega arith
count-blocks (suc n) size ps q h = elim (Bool-cases (ps + 8 == q)) [
  | inl e ↦ ground (arith, count-below n size (ps + size) q (ground arith))
  | inr e ↦ ground (arith, count-blocks n size (ps + size) q h)
]
