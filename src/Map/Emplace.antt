-- ===== src/Map/Emplace.antt =====
-- ec_map.h, `hashmap`: `emplace`, which frees the node of an equal key before it allocates.
use eclib.Common.{
  ◌+◌, ◌-◌, ◌≡◌, ◌⊎◌, inl, inr, refl, ap, ◌∙◌, Bool, true, false, none, some, ◌∷◌, flatten, arith,
  length, ◌>>=◌, Option-cases, Returns,
}
use eclib.Map.{Traits, IsLawful, Buckets, HashMap, find, unlink, erase, emplace, emplace_free}
use eclib.Map.Chain.{
  find-keyeq, count-eq-zero, unlink_absent, length-unlink, count-unlink, find-unlink, keyeq_swap,
}
use eclib.Map.Table.{IsPlaced, IsValid, view, locate_lem}
use eclib.Map.Relink.{index, chain, relinked}
use eclib.Map.Write.{IsStored, link, find-chain}
use eclib.Map.Erase.{nodes, removed, erase_there, erase_absent, absent_chain, there, erase_lem}

module _ {ℓ} {K V : Type ℓ} (t : Traits K V) where
  module _ (law : IsLawful t) (k : K) (v : V) (own : t.keyeq k v ≡ true) (m : HashMap V)
      (bs : Buckets V) (e : m.ppv ≡ some bs) (p : IsPlaced t m.uhashsize bs)
      (size : m.usize ≡ length (flatten bs)) where
    emplace_new : view t m k ≡ none → Returns (emplace t true k v m) (IsStored t k v m)
    unfolding emplace
    emplace_new absent =
        let c = chain t m bs k in
        let gone = find-chain t law k v own m bs e p size none absent in
        let same = unlink_absent t k c gone in
        let (valid, reads) =
          link t law k v own m bs e p size c (m.usize + 1) m.released (omega arith)
            (count-eq-zero t k c gone) (λ q. omega arith) (λ q. unfold find in refl) in
        (
          (true, relinked t m bs k (v ∷ c) (m.usize + 1) m.released),
          rw (e, locate_lem t k m.uhashsize bs p, ◌>>=◌, emplace_free, gone, same) refl,
          record {
            stored = refl;
            valid = valid;
            reads = reads;
            counted = rw absent refl;
            deleted = rw absent refl;
          },
        )

    emplace_again :
        (old : V) → view t m k ≡ some old → Returns (emplace t true k v m) (IsStored t k v m)
    unfolding emplace find
    emplace_again old present =
        let c = chain t m bs k in
        let there = find-chain t law k v own m bs e p size (some old) present in
        let was = find-keyeq t k c old there in
        let shorter = length-unlink t k c old there in
        let filled = nodes t law k m bs e p size old present in
        let (valid, reads) =
          link t law k v own m bs e p size (unlink t k c) (m.usize - 1 + 1) (old ∷ m.released)
            (omega (arith, filled, shorter))
            (ground (arith, count-unlink t law k k old c there, p.once k (index t m bs k), was))
            (λ q. omega (arith, count-unlink t law k q old c there))
            (λ q. ground (
              arith,
              find-unlink t law k q old c there,
              p.once q (index t m bs k),
              keyeq_swap t law k q v old,
              was,
            )) in
        (
          (true, relinked t m bs k (v ∷ unlink t k c) (m.usize - 1 + 1) (old ∷ m.released)),
          rw (e, locate_lem t k m.uhashsize bs p, ◌>>=◌, emplace_free, there) refl,
          record {
            stored = refl;
            valid = valid;
            reads = reads;
            counted = rw present (omega (arith, filled));
            deleted = rw present refl;
          },
        )

  -- Without memory for the node `emplace` is `erase` that returns false: the old value is lost.
  emplace_fails :
      (k : K) (v : V) (m : HashMap V)
      → IsLawful t
      → IsValid t m
      → emplace t false k v m ≡ erase t k m >>= (λ r. some (false, r.1))
  unfolding emplace removed
  emplace_fails k v m law (IsValid.no_table _ e z) = unfold erase in rw e (ground arith)
  emplace_fails k v m law (IsValid.table _ bs e p size) = elim (Option-cases (view t m k)) [
    | inl absent ↦
        rw ((erase_absent t law k m bs e p size absent).0, ◌>>=◌)
          (rw
            (
              e,
              locate_lem t k m.uhashsize bs p,
              ◌>>=◌,
              emplace_free,
              absent_chain t law k m bs e p size absent,
            )
            (ground arith))
    | inr (old, present) ↦
        rw (erase_there t law k m bs e p size old present, ◌>>=◌)
          (rw
            (
              e,
              locate_lem t k m.uhashsize bs p,
              ◌>>=◌,
              emplace_free,
              there t law k m bs e p size old present,
            )
            refl)
  ]

  -- In a valid map, and for a value that has the key, `emplace` returns, on each of its branches.
  -- With memory for the node it stores the value, as
  -- `set` does. Without, it is `erase` that returns false: the old value of the key is lost.
  pub emplace_lem :
      (got : Bool) (k : K) (v : V) (m : HashMap V)
      → IsLawful t
      → IsValid t m
      → t.keyeq k v ≡ true
      → Returns (emplace t got k v m) λ r.
        (got ≡ true) × IsStored t k v m r
        ⊎ (m.ppv ≡ none) × (r ≡ (false, m))
        ⊎ (got ≡ false) × (erase t k m >>= (λ s. some (false, s.1)) ≡ some r)
  unfolding emplace
  emplace_lem got k v m law (IsValid.no_table _ e z) own =
      ((false, m), rw e (ground arith), inr (inl (e, refl)))
  emplace_lem false k v m law (IsValid.table _ bs e p size) own =
      let valid = IsValid.table m bs e p size in
      let (r, run, _) = erase_lem t k m law valid in
      (
        (false, r.1),
        emplace_fails k v m law valid ∙ ap (λ o. o >>= (λ s. some (false, s.1))) run,
        inr (inr (refl, ap (λ o. o >>= (λ s. some (false, s.1))) run)),
      )
  emplace_lem true k v m law (IsValid.table _ bs e p size) own = elim (Option-cases (view t m k)) [
    | inl absent ↦
        let (r, run, done) = emplace_new law k v own m bs e p size absent in
        (r, run, inl (refl, done))
    | inr (old, present) ↦
        let (r, run, done) = emplace_again law k v own m bs e p size old present in
        (r, run, inl (refl, done))
  ]
