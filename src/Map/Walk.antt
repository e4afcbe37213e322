-- ===== src/Map/Walk.antt =====
-- ec_map.h, `hashmap`: a walk over the table by `next`.
use eclib.Common.{
  ℕ, zero, suc, ◌^◌, ◌≤◌, ◌<◌, ◌≡◌, refl, sym, ap, ◌∙◌, none, some, List, [], ◌∷◌, flatten, arith,
  length, List-cases, inl, inr,
}
use eclib.Map.{Traits, Buckets, HashMap}
use eclib.Map.Cursor.{next, stop}
use eclib.Map.Table.{IsValid, values, values_table}
use eclib.Map.Visit.{rest_at, after-zero, length-rest_at, next-takes, next-ends}

-- `while ((p = map.next(i))) ...`, from the cursor `i`.
unfoldable pub walk {ℓ} : {V : Type ℓ} → ℕ → HashMap V → ℕ → List V
walk zero m i = []
walk (suc fuel) m i = elim (next m i).0 [ none ↦ [] | some v ↦ v ∷ walk fuel m (next m i).1 ]

module _ {ℓ} {V : Type ℓ} where
  walk_from :
      (fuel : ℕ) (m : HashMap V) (bs : Buckets V) (i : ℕ)
      → m.ppv ≡ some bs
      → length bs ≡ m.uhashsize
      → m.usize ≡ length (flatten bs)
      → m.uhashsize < 2 ^ 32
      → m.usize < 2 ^ 32
      → length (rest_at bs i) < fuel
      → walk fuel m i ≡ rest_at bs i
  unfolding walk
  walk_from zero m bs i e width size narrow few enough = absurd (omega arith)
  walk_from (suc fuel) m bs i e width size narrow few enough = elim (List-cases (rest_at bs i)) [
    | inl none_left ↦ rw (next-ends m bs e width size narrow few i none_left, walk, none_left) refl
    | inr (v, r, more) ↦
        let (value, left) = next-takes m bs e width size narrow few i v r more in
        rw (value, walk, more)
          (ap (λ x. v ∷ x)
            (walk_from fuel m bs (next m i).1 e width size narrow few
                (omega (arith, ap length left, ap length more))
              ∙ left))
  ]

-- A walk by `next` from the cursor 0 meets the value of every node once, chain after chain, and
-- ends, in any valid map with fewer than 2 ^ 32 chains and nodes. `fuel` counts calls of `next`.
pub walk_lem {ℓ} :
    {K V : Type ℓ} (t : Traits K V) (fuel : ℕ) (m : HashMap V)
    → IsValid t m
    → m.uhashsize < 2 ^ 32
    → m.usize < fuel
    → fuel ≤ 2 ^ 32
    → walk fuel m 0 ≡ values m
unfolding rest_at walk
walk_lem t zero m valid narrow enough few = absurd (omega arith)
walk_lem t (suc fuel) m (IsValid.no_table _ e z) narrow enough few =
    let over : next m 0 ≡ (none, stop) = unfold next in rw e refl in rw (walk, over, e) refl
walk_lem t (suc fuel) m (IsValid.table _ bs e p size) narrow enough few =
    let start : rest_at bs 0 ≡ flatten bs = after-zero bs in
    let all =
      walk_from (suc fuel) m bs 0 e p.width size narrow (omega arith)
        (omega (arith, length-rest_at bs 0)) in
    all ∙ start ∙ sym (values_table m bs e)
