-- ===== src/Map/Clear.antt =====
-- ec_map.h, `hashmap`: the constructor and `clear`.
use eclib.Common.{
  ℕ, ◌<◌, ◌≡◌, refl, ap, Bool, true, false, none, some, List, [], ◌∷◌, ◌++◌, flatten, arith, length,
  replicate, ◌==◌, Bool-cases, inl, inr,
}
use mathlib.Core.List.{reverse, reverse-append, append_assoc}
use eclib.Map.{Traits, Buckets, HashMap, find, clear, new, release_all, empty_chains}
use eclib.Map.Table.{IsValid, view, replicate-IsPlaced, flatten-replicate}

module _ {ℓ} {V : Type ℓ} where
  release_all_lem : (vs out : List V) → release_all vs out ≡ reverse vs ++ out
  unfolding release_all
  release_all_lem [] out = refl
  release_all_lem (v ∷ vs) out =
      rw (release_all_lem vs (v ∷ out), reverse-append (v ∷ []) vs, append_assoc) refl

  empty_chains_lem : (bs : Buckets V) → empty_chains bs ≡ replicate (length bs) []
  unfolding empty_chains
  empty_chains_lem [] = refl
  empty_chains_lem (c ∷ bs) = ap (λ r. [] ∷ r) (empty_chains_lem bs)

  pub no_nodes : (vs : List V) → length vs ≡ 0 → vs ≡ []
  no_nodes [] h = refl
  no_nodes (v ∷ vs) h = absurd (omega arith)

  none_is_not : (m : HashMap V) (bs : Buckets V) → m.ppv ≡ none → m.ppv ≡ some bs → ⊥
  none_is_not m bs e h = cc

  one_table : (m : HashMap V) (bs cs : Buckets V) → m.ppv ≡ some bs → m.ppv ≡ some cs → bs ≡ cs
  one_table m bs cs e h = cc

module _ {ℓ} {K V : Type ℓ} (t : Traits K V) where
  -- A new map with one chain at least is valid and holds nothing, whether or not there was memory
  -- for its table.
  pub new-IsValid :
      (got : Bool) (n : ℕ)
      → 0 < n
      → IsValid t (new V got n) × ((q : K) → view t (new V got n) q ≡ none)
  unfolding new view find
  new-IsValid true n h = (
    IsValid.table _ (replicate n []) refl (replicate-IsPlaced t n h)
        (rw (flatten-replicate {A = V} n) refl),
    λ q. rw (flatten-replicate {A = V} n) refl,
  )
  new-IsValid false n h = (IsValid.no_table _ refl refl, λ q. refl)

  abbrev cleared : HashMap V → Buckets V → HashMap V
  cleared m bs = record m {
    ppv = some (replicate (length bs) []);
    usize = 0;
    released = reverse (flatten bs) ++ m.released;
  }

  clear_full :
      (m : HashMap V) (bs : Buckets V)
      → m.ppv ≡ some bs
      → (m.usize == 0) ≡ false
      → clear m ≡ cleared m bs
  unfolding clear
  clear_full m bs e full =
      rw (e, full, empty_chains_lem bs, release_all_lem (flatten bs) m.released) refl

  clear_empty :
      (m : HashMap V) (bs : Buckets V)
      → m.ppv ≡ some bs
      → (m.usize == 0) ≡ true
      → clear m ≡ record m { usize = 0 }
  unfolding clear
  clear_empty m bs e empty = rw (e, empty) (ground arith)

  -- `clear` turns a valid map into a valid map that holds nothing, and releases the value of every
  -- node once.
  pub clear_lem :
      (m : HashMap V)
      → IsValid t m
      → IsValid t (clear m)
        × ((clear m).usize ≡ 0)
        × ((q : K) → view t (clear m) q ≡ none)
        × ((bs : Buckets V)
            → m.ppv ≡ some bs
            → (clear m).released ≡ reverse (flatten bs) ++ m.released)
  unfolding view find
  clear_lem m (IsValid.no_table _ e z) =
      unfold clear in
      (
        rw e (IsValid.no_table _ refl z),
        rw e z,
        λ q. rw e refl,
        λ bs h. absurd (none_is_not m bs e h),
      )
  clear_lem m (IsValid.table _ bs e p size) = elim (Bool-cases (m.usize == 0)) [
    | inl empty ↦
        let nil = no_nodes (flatten bs) (ground arith) in
        rw (clear_empty m bs e empty) (
          IsValid.table _ bs e p (rw nil refl),
          refl,
          λ q. rw (e, nil) refl,
          λ cs h. rw (one_table m cs bs h e, nil) refl,
        )
    | inr full ↦ rw (clear_full m bs e full) (
      IsValid.table _ (replicate (length bs) []) refl
          (rw p.width (replicate-IsPlaced t m.uhashsize p.some_chain))
          (rw (flatten-replicate {A = V} (length bs)) refl),
      refl,
      λ q. rw (flatten-replicate {A = V} (length bs)) refl,
      λ cs h. rw (one_table m cs bs h e) refl,
    )
  ]
