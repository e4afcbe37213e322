-- ===== src/Map/Erase.antt =====
-- ec_map.h, `hashmap`: both overloads of `erase`, `emplace`, `clear` and the constructor.
use eclib.Common.{
  ◌+◌, ◌-◌, ◌<◌, ◌≡◌, ◌⊎◌, inl, inr, refl, sym, ◌∙◌, true, false, none, some, List, ◌∷◌, flatten,
  arith, length, if◌then◌else◌, ◌==◌, ◌>>=◌, Option-cases, Bool-cases, Returns,
}
use eclib.Map.{Traits, IsLawful, Buckets, HashMap, find, unlink, erase, erase_with}
use eclib.Map.Chain.{find-keyeq, length-unlink, count-unlink, find-unlink}
use eclib.Map.Table.{IsPlaced, IsValid, view, locate_lem, length-flatten-get}
use eclib.Map.Relink.{index, chain, relinked, view-chain, relink}
use eclib.Map.Write.{same_index}

module _ {ℓ} {K V : Type ℓ} (t : Traits K V) where
  -- After a removal of `old`: the table is valid, the keys equal to that of `old` read nothing and
  -- all others what they read before, and one node less is counted.
  pub record IsRemoved (old : V) (m : HashMap V) (m' : HashMap V) : Type ℓ where
    pub valid : IsValid t m'
    pub reads : (q : K) → view t m' q ≡ (if t.keyeq q old then none else view t m q)
    pub counted : m'.usize + 1 ≡ m.usize

  module _ (law : IsLawful t) (k : K) (m : HashMap V) (bs : Buckets V) (e : m.ppv ≡ some bs)
      (p : IsPlaced t m.uhashsize bs) (size : m.usize ≡ length (flatten bs)) where
    pub absent_chain : view t m k ≡ none → find t k (chain t m bs k) ≡ none
    absent_chain h = sym (view-chain t m bs k e p) ∙ h

    module _ (old : V) (present : view t m k ≡ some old) where
      pub there : find t k (chain t m bs k) ≡ some old
      there = sym (view-chain t m bs k e p) ∙ present

      shorter : length (unlink t k (chain t m bs k)) + 1 ≡ length (chain t m bs k)
      shorter = length-unlink t k (chain t m bs k) old there

      pub nodes : 0 < m.usize
      nodes = omega (arith, length-flatten-get bs (index t m bs k), shorter)

      unfoldable pub removed : List V → HashMap V
      removed out = relinked t m bs k (unlink t k (chain t m bs k)) (m.usize - 1) out

      removed-IsRemoved : (out : List V) → IsRemoved old m (removed out)
      unfolding removed
      removed-IsRemoved out =
          let c = chain t m bs k in
          let drop_one = λ (q : K). count-unlink t law k q old c there in
          let (valid, reads) =
            relink t m bs k (unlink t k c) (m.usize - 1) out
              (λ q o. if t.keyeq q old then none else o) e p size (omega (arith, nodes, shorter))
              (λ q. omega (arith, drop_one q, p.once q (index t m bs k)))
              (λ q away. omega (arith, drop_one q, p.home q (index t m bs k) away))
              (λ q. find-unlink t law k q old c there (p.once q (index t m bs k)))
              (λ q x away.
                rw (same_index t m.uhashsize k q old law (find-keyeq t k c old there) away) refl) in
          record { valid = valid; reads = reads; counted = omega (arith, nodes) }

      pub erase_there : erase t k m ≡ some (true, removed (old ∷ m.released))
      unfolding erase removed
      erase_there =
          let full : (m.usize == 0) ≡ false = ground (arith, nodes) in
          rw (e, full, locate_lem t k m.uhashsize bs p, ◌>>=◌, there) refl

      erase_with_there : erase_with t k m ≡ some (some old, removed m.released)
      unfolding erase_with removed
      erase_with_there =
          let full : (m.usize == 0) ≡ false = ground (arith, nodes) in
          rw (e, full, locate_lem t k m.uhashsize bs p, ◌>>=◌, there) refl

    pub erase_absent :
        view t m k ≡ none → (erase t k m ≡ some (false, m)) × (erase_with t k m ≡ some (none, m))
    unfolding erase erase_with
    erase_absent absent = elim (Bool-cases (m.usize == 0)) [
      | inl empty ↦ (rw (e, empty) (ground arith), rw (e, empty) (ground arith))
      | inr full ↦ (
        rw (e, full, locate_lem t k m.uhashsize bs p, ◌>>=◌, absent_chain absent) (ground arith),
        rw (e, full, locate_lem t k m.uhashsize bs p, ◌>>=◌, absent_chain absent) (ground arith),
      )
    ]

  -- In a valid map `erase` returns, on each of its branches: a key that is not there changes
  -- nothing, and one that
  -- is there is removed, its value released once.
  pub erase_lem :
      (k : K) (m : HashMap V)
      → IsLawful t
      → IsValid t m
      → Returns (erase t k m) λ r.
        (view t m k ≡ none) × (r ≡ (false, m))
        ⊎ ((old : V) × (view t m k ≡ some old)
            × (r.0 ≡ true)
            × IsRemoved old m r.1
            × (r.1.released ≡ old ∷ m.released))
  unfolding erase view removed
  erase_lem k m law (IsValid.no_table _ e z) = ((false, m), rw e (ground arith), inl (rw e, refl))
  erase_lem k m law (IsValid.table _ bs e p size) = elim (Option-cases (view t m k)) [
    | inl absent ↦ ((false, m), (erase_absent law k m bs e p size absent).0, inl (absent, refl))
    | inr (old, present) ↦ (
      (true, removed law k m bs e p size old present (old ∷ m.released)),
      erase_there law k m bs e p size old present,
      inr (
        old,
        present,
        refl,
        removed-IsRemoved law k m bs e p size old present (old ∷ m.released),
        refl,
      ),
    )
  ]

  -- In a valid map the overload of `erase` with a callback returns. It hands it the removed
  -- value, and releases nothing itself.
  pub erase_with_lem :
      (k : K) (m : HashMap V)
      → IsLawful t
      → IsValid t m
      → Returns (erase_with t k m) λ r.
        (r.0 ≡ view t m k)
        × (r.1.released ≡ m.released)
        × ((view t m k ≡ none) × (r.1 ≡ m)
            ⊎ ((old : V) × (view t m k ≡ some old) × IsRemoved old m r.1))
  unfolding erase_with view removed
  erase_with_lem k m law (IsValid.no_table _ e z) =
      ((none, m), rw e (ground arith), (rw e, refl, inl (rw e, refl)))
  erase_with_lem k m law (IsValid.table _ bs e p size) = elim (Option-cases (view t m k)) [
    | inl absent ↦ (
      (none, m),
      (erase_absent law k m bs e p size absent).1,
      (sym absent, refl, inl (absent, refl)),
    )
    | inr (old, present) ↦ (
      (some old, removed law k m bs e p size old present m.released),
      erase_with_there law k m bs e p size old present,
      (
        sym present,
        refl,
        inr (old, present, removed-IsRemoved law k m bs e p size old present m.released),
      ),
    )
  ]
