-- ===== src/Map.antt =====
-- ec_map.h: the class `hashmap`, a table of singly linked chains of values.
-- A chain is the list of its nodes' values. `none` is undefined behaviour: a division by zero or
-- a read outside the table. `released` lists the values handed to `_DelVal`, the latest first.
pub mod Chain
pub mod Table
pub mod Relink
pub mod Write
pub mod Erase
pub mod Emplace
pub mod Clear
pub mod Cursor
pub mod Visit
pub mod Walk
pub mod Range
pub mod Poke
pub mod Move
mod Examples
use eclib.Common.{
  ℕ, zero, suc, ◌+◌, ◌-◌, ◌*◌, ◌/◌, ◌%◌, ◌^◌, ◌≡◌, Bool, true, false, ◌||◌, Option, none, some,
  List, [], ◌∷◌, flatten, get_elem?, set, replicate, drop, leb, ◌==◌, if◌then◌else◌, ◌>>=◌,
}

-- The template parameters `_Hasher` and `_Keyeq`.
pub record Traits {ℓ} (K V : Type ℓ) : Type ℓ where
  pub hasher : K → ℕ
  pub keyeq : K → V → Bool

-- What a map asks of them: keys equal to the key of one value are one key.
pub record IsLawful {ℓ} {K V : Type ℓ} (t : Traits K V) : Type ℓ where
  pub hasher-keyeq :
      (a b : K) (v : V) → t.keyeq a v ≡ true → t.keyeq b v ≡ true → t.hasher a ≡ t.hasher b
  pub keyeq_congr :
      (a b : K) (v w : V) → t.keyeq a v ≡ true → t.keyeq b v ≡ true → t.keyeq a w ≡ t.keyeq b w

abbrev pub Buckets {ℓ} : Type ℓ → Type ℓ
Buckets V = List (List V)

-- `_ppv` is null where its allocation failed, and after a move. `_usize` could wrap only with more
-- than 2 ^ 64 nodes.
pub record HashMap {ℓ} (V : Type ℓ) : Type ℓ where
  pub ppv : Option (Buckets V)
  pub uhashsize : ℕ
  pub usize : ℕ
  pub released : List V

module _ {ℓ} {K V : Type ℓ} (t : Traits K V) where
  -- The loop over `pNext` that stops at an equal key.
  unfoldable pub find : K → List V → Option V
  find k [] = none
  find k (v ∷ c) = if t.keyeq k v then some v else find k c

  -- The node that the loop stops at is assigned a new value.
  unfoldable pub assign : K → V → List V → List V
  assign k w [] = []
  assign k w (v ∷ c) = if t.keyeq k v then w ∷ c else v ∷ assign k w c

  -- `*ppNodePrev = pNode->pNext` at that node.
  unfoldable pub unlink : K → List V → List V
  unlink k [] = []
  unlink k (v ∷ c) = if t.keyeq k v then c else v ∷ unlink k c

-- The constructor: `got` says whether `ec_malloc` returned memory.
unfoldable pub new {ℓ} : (V : Type ℓ) (got : Bool) (uhashsize : ℕ) → HashMap V
new V got n = record {
  ppv = if got then some (replicate n []) else none;
  uhashsize = n;
  usize = 0;
  released = [];
}

pub is_empty {ℓ} : {V : Type ℓ} → HashMap V → Bool
is_empty m = elim m.ppv [ none ↦ true | some bs ↦ m.usize == 0 ]

-- `_Hasher()(key) % _uhashsize`
unfoldable pub slot {ℓ} : {K V : Type ℓ} (t : Traits K V) → K → ℕ → Option ℕ
slot t k zero = none
slot t k (suc n) = some (t.hasher k % suc n)

-- The index of a key's chain, and the chain.
unfoldable pub locate {ℓ} :
    {K V : Type ℓ} (t : Traits K V) → K → ℕ → Buckets V → Option (ℕ × List V)
locate t k n bs = do i ← slot t k n; c ← get_elem? bs i; some (i, c)

module _ {ℓ} {K V : Type ℓ} (t : Traits K V) where
  -- `got` says whether `new t_node` returned memory.
  unfoldable pub set_value : (got : Bool) → K → V → HashMap V → Option (Bool × HashMap V)
  set_value got k v m = elim m.ppv [
    | none ↦ some (false, m)
    | some bs ↦ do
      (i, c) ← locate t k m.uhashsize bs
      elim (find t k c) [
        | some old ↦
            some (
              true,
              record m { ppv = some (set bs i (assign t k v c)); released = old ∷ m.released },
            )
        | none ↦ some (
            if got
            then (true, record m { ppv = some (set bs i (v ∷ c)); usize = m.usize + 1 })
            else (false, m))
      ]
  ]

  unfoldable pub get : K → HashMap V → Option (Option V)
  get k m = elim m.ppv [
    | none ↦ some none
    | some bs ↦
        if m.usize == 0
        then some none
        else (do (i, c) ← locate t k m.uhashsize bs; some (find t k c))
  ]

  pub has : K → HashMap V → Option Bool
  unfolding get
  has k m = do r ← get k m; some (elim r [ none ↦ false | some v ↦ true ])

  unfoldable pub erase : K → HashMap V → Option (Bool × HashMap V)
  erase k m = elim m.ppv [
    | none ↦ some (false, m)
    | some bs ↦ if m.usize == 0 then some (false, m) else (do
      (i, c) ← locate t k m.uhashsize bs
      elim (find t k c) [
        | none ↦ some (false, m)
        | some old ↦ some (
          true,
          record m {
            ppv = some (set bs i (unlink t k c));
            usize = m.usize - 1;
            released = old ∷ m.released;
          },
        )
      ])
  ]

  -- The overload with a callback: the value goes to `ondel`, in the result, and not to `_DelVal`.
  pub erase_with : K → HashMap V → Option (Option V × HashMap V)
  erase_with k m = elim m.ppv [
    | none ↦ some (none, m)
    | some bs ↦ if m.usize == 0 then some (none, m) else (do
      (i, c) ← locate t k m.uhashsize bs
      elim (find t k c) [
        | none ↦ some (none, m)
        | some old ↦
            some (some old, record m { ppv = some (set bs i (unlink t k c)); usize = m.usize - 1 })
      ])
  ]

  -- `emplace`: an equal node is freed first, then the new one is allocated and linked in front.
  emplace_free : K → ℕ → List V → Buckets V → HashMap V → HashMap V
  emplace_free k i c bs m = elim (find t k c) [
    | none ↦ m
    | some old ↦ record m {
      ppv = some (set bs i (unlink t k c));
      usize = m.usize - 1;
      released = old ∷ m.released;
    }
  ]

  pub emplace : (got : Bool) → K → V → HashMap V → Option (Bool × HashMap V)
  unfolding emplace_free
  emplace got k v m = elim m.ppv [
    | none ↦ some (false, m)
    | some bs ↦ do
      (i, c) ← locate t k m.uhashsize bs
      let m' = emplace_free k i c bs m
      some (
          if got
          then (true, record m' { ppv = some (set bs i (v ∷ unlink t k c)); usize = m'.usize + 1 })
          else (false, m'))
  ]

-- The loops over the table and over each chain release the values in their order.
release_all {ℓ} : {V : Type ℓ} → List V → List V → List V
release_all [] out = out
release_all (v ∷ vs) out = release_all vs (v ∷ out)

empty_chains {ℓ} : {V : Type ℓ} → Buckets V → Buckets V
empty_chains [] = []
empty_chains (c ∷ bs) = [] ∷ empty_chains bs

unfoldable pub clear {ℓ} : {V : Type ℓ} → HashMap V → HashMap V
unfolding release_all empty_chains
clear m = elim m.ppv [
  | none ↦ m
  | some bs ↦ if m.usize == 0 then record m { usize = 0 } else record m {
    ppv = some (empty_chains bs);
    usize = 0;
    released = release_all (flatten bs) m.released;
  }
]

-- The destructor: `clear`, then the table is freed.
pub destroy {ℓ} : {V : Type ℓ} → HashMap V → HashMap V
unfolding clear
destroy m = record (clear m) { ppv = none }

-- `*this = std::move(v)`: this map and `v` after it.
pub move {ℓ} : {V : Type ℓ} → HashMap V → HashMap V → HashMap V × HashMap V
unfolding destroy
move m v = (
  record (destroy m) { ppv = v.ppv; uhashsize = v.uhashsize; usize = v.usize },
  record v { ppv = none; usize = 0 },
)
