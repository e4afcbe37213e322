-- ===== src/Map/Relink.antt =====
-- ec_map.h, `hashmap`: every write replaces the chain that a key selects. What the new chain must
-- satisfy for the table to stay valid, and how the abstract view changes.
use eclib.Common.{
  ℕ, ◌+◌, ◌%◌, ◌≤◌, ◌<◌, ◌≡◌, ◌≢◌, refl, ◌∙◌, Option, some, List, [], flatten, arith, length,
  get_or, set,
}
use native.Mathlib.Decide.{ℕ_discrete}
use eclib.Map.{Traits, Buckets, HashMap, find}
use eclib.Map.Chain.{count}
use eclib.Map.Table.{
  IsPlaced, IsValid, view, length-flatten-set, find-flatten, set-IsPlaced, find-flatten-set,
}

module _ {ℓ} {K V : Type ℓ} (t : Traits K V) (m : HashMap V) (bs : Buckets V) (k : K) where
  -- The chain of `k`.
  abbrev pub index : ℕ
  index = t.hasher k % m.uhashsize

  abbrev pub chain : List V
  chain = get_or bs index []

  abbrev pub relinked : List V → ℕ → List V → HashMap V
  relinked c u out = record m { ppv = some (set bs index c); usize = u; released = out }

  pub view_table : (q : K) → m.ppv ≡ some bs → view t m q ≡ find t q (flatten bs)
  unfolding view
  view_table q e = rw e

  pub view-chain : m.ppv ≡ some bs → IsPlaced t m.uhashsize bs → view t m k ≡ find t k chain
  view-chain e p = view_table k e ∙ find-flatten t k m.uhashsize bs p

  -- `f q` is what the write does to the value of the key `q`.
  pub relink :
      (c : List V) (u : ℕ) (out : List V) (f : K → Option V → Option V)
      → m.ppv ≡ some bs
      → IsPlaced t m.uhashsize bs
      → m.usize ≡ length (flatten bs)
      → u + length chain ≡ m.usize + length c
      → ((q : K) → count t q c ≤ 1)
      → ((q : K) → index ≢ t.hasher q % m.uhashsize → count t q c ≡ 0)
      → ((q : K) → find t q c ≡ f q (find t q chain))
      → ((q : K) (x : Option V) → index ≢ t.hasher q % m.uhashsize → f q x ≡ x)
      → IsValid t (relinked c u out) × ((q : K) → view t (relinked c u out) q ≡ f q (view t m q))
  unfolding view
  relink c u out f e p size grown few home reads apart =
      let n = m.uhashsize in
      let below : index < n = omega (arith, p.some_chain) in
      let p' = set-IsPlaced t n index bs c p below few home in
      let moved = length-flatten-set bs index c (omega (arith, p.width)) in
      (
        IsValid.table _ (set bs index c) refl p' (omega arith),
        λ q.
            rw (e, find-flatten-set t q n index bs c p p' below)
              (elim (ℕ_discrete index (t.hasher q % n)) [
                | yes same ↦ rw (find-flatten t q n bs p, ← same) (ground (arith, reads q))
                | no away ↦ ground (arith, apart q (find t q (flatten bs)) away)
              ]),
      )
