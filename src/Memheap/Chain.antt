-- ===== src/Memheap/Chain.antt =====
-- ec_alloctor.h, `memheap_`: the chain of free blocks that is threaded through the blocks.
use eclib.Common.{
  ℕ, ◌≡◌, ◌≢◌, refl, ◌∙◌, true, false, List, [], ◌∷◌, Option, none, some, ◌==◌, All, arith,
}
use eclib.Memheap.{Memory, store}

-- The blocks from the pointer on. No block occurs twice.
unfoldable pub Chain : Memory → Option ℕ → List ℕ → Type 0
Chain mem p [] = p ≡ none
Chain mem p (b ∷ bs) =
    (p ≡ some b)
    × ((next : Option ℕ) × (mem b ≡ some next) × Chain mem next bs × All (λ c. c ≢ b) bs)

pub store-same : (mem : Memory) (a : ℕ) (v : Option ℕ) → store mem a v a ≡ some v
unfolding store
store-same mem a v = let test : (a == a) ≡ true = ground arith in rw test refl

pub store-other : (mem : Memory) (a b : ℕ) (v : Option ℕ) → b ≢ a → store mem a v b ≡ mem b
unfolding store
store-other mem a b v h = let test : (a == b) ≡ false = ground (arith, h) in rw test refl

-- A write outside of the free blocks, as a user of a block does, leaves the chain.
pub store-Chain :
    (mem : Memory) (a : ℕ) (v p : Option ℕ) (bs : List ℕ)
    → All (λ c. c ≢ a) bs
    → Chain mem p bs
    → Chain (store mem a v) p bs
unfolding Chain
store-Chain mem a v p [] away l = l
store-Chain mem a v p (b ∷ bs) away (here, (next, holds, onward, fresh)) = (
  here,
  (next, store-other mem a b v away.0 ∙ holds, store-Chain mem a v next bs away.1 onward, fresh),
)
