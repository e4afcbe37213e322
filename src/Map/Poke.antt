-- ===== src/Map/Poke.antt =====
-- ec_map.h, `hashmap`: a write through the pointer that `get` returns.
use eclib.Common.{◌≡◌, refl, Option, none, some, arith, set, if◌then◌else◌, ◌>>=◌, Returns, true}
use eclib.Map.{Traits, IsLawful, HashMap, locate, assign}
use eclib.Map.Chain.{find-assign, count-assign, length-assign}
use eclib.Map.Table.{IsValid, view, locate_lem}
use eclib.Map.Relink.{index, chain, relink, relinked}
use eclib.Map.Write.{find-chain, stored_apart, stored_view}

module _ {ℓ} {K V : Type ℓ} (t : Traits K V) where
  -- The value of the node that `get` finds for `k` becomes `w`. A null table has no node.
  unfoldable pub poke : K → V → HashMap V → Option (HashMap V)
  poke k w m = elim m.ppv [
    | none ↦ none
    | some bs ↦ do
      (i, c) ← locate t k m.uhashsize bs
      some (record m { ppv = some (set bs i (assign t k w c)) })
  ]

  -- The map `m'` has the value `w` in the place of one with an equal key.
  pub record IsPoked (w : V) (m m' : HashMap V) : Type ℓ where
    pub valid : IsValid t m'
    pub reads : (q : K) → view t m' q ≡ (if t.keyeq q w then some w else view t m q)
    pub counted : m'.usize ≡ m.usize

  pub poke_lem :
      (k : K) (old w : V) (m : HashMap V)
      → IsLawful t
      → IsValid t m
      → view t m k ≡ some old
      → t.keyeq k w ≡ true
      → Returns (poke k w m) (IsPoked w m)
  unfolding poke view
  poke_lem k old w m law (IsValid.no_table _ e z) present own =
      let gone : view t m k ≡ none = rw e refl in cc
  poke_lem k old w m law (IsValid.table _ bs e p size) present own =
      let c = chain t m bs k in
      let there = find-chain t law k w own m bs e p size (some old) present in
      let (valid, reads) =
        relink t m bs k (assign t k w c) m.usize m.released
          (stored_view t law k w own m bs e p size) e p size (omega (arith, length-assign t k w c))
          (λ q. rw (count-assign t law k q w c own) (p.once q (index t m bs k)))
          (λ q away. rw (count-assign t law k q w c own) (p.home q (index t m bs k) away))
          (λ q. find-assign t law k q w old c own there)
          (stored_apart t law k w own m bs e p size) in
      (
        relinked t m bs k (assign t k w c) m.usize m.released,
        rw (e, locate_lem t k m.uhashsize bs p, ◌>>=◌) refl,
        record { valid = valid; reads = reads; counted = refl },
      )
