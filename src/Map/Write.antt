-- ===== src/Map/Write.antt =====
-- ec_map.h, `hashmap`: `get`, `has`, `set` and `emplace` against the abstract view.
use eclib.Common.{
  ℕ, ◌+◌, ◌%◌, ◌≤◌, ◌≡◌, ◌≢◌, ◌⊎◌, inl, inr, refl, sym, ap, ◌∙◌, Bool, true, false, Option, none,
  some, List, [], ◌∷◌, flatten, arith, length, if◌then◌else◌, ◌==◌, ◌>>=◌, Option-cases, Bool-cases,
  Returns,
}
use mathlib.Core.Path.{subst}
use eclib.Map.{Traits, IsLawful, Buckets, HashMap, find, assign, get, set_value}
use eclib.Map.Chain.{count, count-eq-zero, count_same, find-assign, count-assign, length-assign}
use eclib.Map.Table.{IsPlaced, IsValid, view, locate_lem}
use eclib.Map.Relink.{index, chain, relinked, view-chain, view_table, relink}

-- 1 for a key that is not there yet.
abbrev pub is_new {ℓ} : {V : Type ℓ} → Option V → ℕ
is_new none = 1
is_new (some v) = 0

-- A value that is replaced or removed goes to `_DelVal`.
abbrev pub release {ℓ} : {V : Type ℓ} → Option V → List V → List V
release none out = out
release (some v) out = v ∷ out

module _ {ℓ} {K V : Type ℓ} (t : Traits K V) where
  -- The empty table finds nothing, so the test of `_usize` changes nothing.
  find_in_nothing : (k : K) (vs : List V) → length vs ≡ 0 → find t k vs ≡ none
  unfolding find
  find_in_nothing k [] h = refl
  find_in_nothing k (v ∷ vs) h = absurd (omega arith)

  -- In a valid map `get` returns, and what it finds in one chain is what a search of all of them
  -- finds.
  pub get-view : (k : K) (m : HashMap V) → IsValid t m → get t k m ≡ some (view t m k)
  unfolding get view
  get-view k m (IsValid.no_table _ e z) = rw e
  get-view k m (IsValid.table _ bs e p size) = elim (Bool-cases (m.usize == 0)) [
    | inl empty ↦ rw (e, empty, find_in_nothing k (flatten bs) (ground arith)) refl
    | inr full ↦
        rw (e, full, locate_lem t k m.uhashsize bs p)
          (ap some (sym (view-chain t m bs k e p) ∙ view_table t m bs k k e))
  ]

  -- After a write of `v` under `k`: the table is valid, every key equal to that of `v` reads `v`
  -- and all others what they read before, a new key is counted, and an old value is released.
  pub record IsStored (k : K) (v : V) (m : HashMap V) (r : Bool × HashMap V) : Type ℓ where
    pub stored : r.0 ≡ true
    pub valid : IsValid t r.1
    pub reads : (q : K) → view t r.1 q ≡ (if t.keyeq q v then some v else view t m q)
    pub counted : r.1.usize ≡ m.usize + is_new (view t m k)
    pub deleted : r.1.released ≡ release (view t m k) m.released

  -- Only keys of the chain's own index are equal to a key with that index.
  pub same_index :
      (n : ℕ) (k q : K) (v : V)
      → IsLawful t
      → t.keyeq k v ≡ true
      → t.hasher k % n ≢ t.hasher q % n
      → t.keyeq q v ≡ false
  same_index n k q v law own away = elim (Bool-cases (t.keyeq q v)) [
    | inr other ↦ other
    | inl same ↦ absurd (away (ap (λ h. h % n) (law.hasher-keyeq k q v own same)))
  ]

  module _ (law : IsLawful t) (k : K) (v : V) (own : t.keyeq k v ≡ true) (m : HashMap V)
      (bs : Buckets V) (e : m.ppv ≡ some bs) (p : IsPlaced t m.uhashsize bs)
      (size : m.usize ≡ length (flatten bs)) where
    abbrev pub stored_view : K → Option V → Option V
    stored_view q o = if t.keyeq q v then some v else o

    pub stored_apart :
        (q : K) (x : Option V) → index t m bs k ≢ t.hasher q % m.uhashsize → stored_view q x ≡ x
    stored_apart q x away = rw (same_index m.uhashsize k q v law own away)

    -- A node with the new value is linked in front of what is left of the chain.
    pub link :
        (c : List V) (u : ℕ) (out : List V)
        → u + length (chain t m bs k) ≡ m.usize + (length c + 1)
        → count t k c ≡ 0
        → ((q : K) → count t q c ≤ count t q (chain t m bs k))
        → ((q : K) → find t q (v ∷ c) ≡ stored_view q (find t q (chain t m bs k)))
        → IsValid t (relinked t m bs k (v ∷ c) u out)
          × ((q : K) → view t (relinked t m bs k (v ∷ c) u out) q ≡ stored_view q (view t m q))
    unfolding count
    link c u out grown none_left fewer reads =
        relink t m bs k (v ∷ c) u out stored_view e p size (omega arith)
          (λ q. ground (arith, count_same t law k q v c, fewer q, p.once q (index t m bs k)))
          (λ q away. ground (
            arith,
            same_index m.uhashsize k q v law own away,
            fewer q,
            p.home q (index t m bs k) away,
          ))
          reads stored_apart

    pub find-chain : (o : Option V) → view t m k ≡ o → find t k (chain t m bs k) ≡ o
    find-chain o h = sym (view-chain t m bs k e p) ∙ h

    set_new : view t m k ≡ none → Returns (set_value t true k v m) (IsStored k v m)
    unfolding set_value find
    set_new absent =
        let c = chain t m bs k in
        let gone = find-chain none absent in
        let (valid, reads) =
          link c (m.usize + 1) m.released (omega arith) (count-eq-zero t k c gone)
            (λ q. omega arith) (λ q. refl) in
        (
          (true, relinked t m bs k (v ∷ c) (m.usize + 1) m.released),
          rw (e, locate_lem t k m.uhashsize bs p, ◌>>=◌, gone) refl,
          record {
            stored = refl;
            valid = valid;
            reads = reads;
            counted = rw absent refl;
            deleted = rw absent refl;
          },
        )

    -- The value of an equal key is replaced in place, whether or not there is memory for a node.
    set_replace :
        (got : Bool) (old : V)
        → view t m k ≡ some old
        → Returns (set_value t got k v m) (IsStored k v m)
    unfolding set_value
    set_replace got old present =
        let c = chain t m bs k in
        let there = find-chain (some old) present in
        let (valid, reads) =
          relink t m bs k (assign t k v c) m.usize (old ∷ m.released) stored_view e p size
            (omega (arith, length-assign t k v c))
            (λ q. rw (count-assign t law k q v c own) (p.once q (index t m bs k)))
            (λ q away. rw (count-assign t law k q v c own) (p.home q (index t m bs k) away))
            (λ q. find-assign t law k q v old c own there) stored_apart in
        (
          (true, relinked t m bs k (assign t k v c) m.usize (old ∷ m.released)),
          rw (e, locate_lem t k m.uhashsize bs p, ◌>>=◌, there) refl,
          record {
            stored = refl;
            valid = valid;
            reads = reads;
            counted = rw present (omega arith);
            deleted = rw present refl;
          },
        )

    set_full : view t m k ≡ none → set_value t false k v m ≡ some (false, m)
    unfolding set_value
    set_full absent =
        rw (e, locate_lem t k m.uhashsize bs p, ◌>>=◌, find-chain none absent) (ground arith)

  -- In a valid map, and for a value that has the key, `set` returns, on each of its branches. It
  -- stores the value, unless there is no table, or the
  -- key is new and there is no memory for a node: then it returns false and changes nothing.
  pub set_value_lem :
      (got : Bool) (k : K) (v : V) (m : HashMap V)
      → IsLawful t
      → IsValid t m
      → t.keyeq k v ≡ true
      → Returns (set_value t got k v m) λ r.
        IsStored k v m r ⊎ (r ≡ (false, m)) × ((m.ppv ≡ none) ⊎ (view t m k ≡ none) × (got ≡ false))
  unfolding set_value
  set_value_lem got k v m law (IsValid.no_table _ e z) own =
      ((false, m), rw e (ground arith), inr (refl, inl e))
  set_value_lem got k v m law (IsValid.table _ bs e p size) own = elim (Option-cases (view t m k)) [
    | inr (old, present) ↦
        let (r, run, done) = set_replace law k v own m bs e p size got old present in
        (r, run, inl done)
    | inl absent ↦ elim (Bool-cases got) [
      | inl yes_got ↦
          let (r, run, done) = set_new law k v own m bs e p size absent in
          (r, rw yes_got run, inl done)
      | inr no_got ↦ (
        (false, m),
        rw no_got (set_full law k v own m bs e p size absent),
        inr (refl, inr (absent, no_got)),
      )
    ]
  ]

  pub set_value-IsValid :
      (got : Bool) (k : K) (v : V) (m : HashMap V) (r : Bool × HashMap V)
      → IsLawful t
      → IsValid t m
      → t.keyeq k v ≡ true
      → set_value t got k v m ≡ some r
      → IsValid t r.1
  set_value-IsValid got k v m r law valid own run =
      let (s, run', done) = set_value_lem got k v m law valid own in
      let same : s ≡ r = cc in
      let valid' : IsValid t s.1 = elim done [
        | inl stored ↦ stored.valid
        | inr kept ↦ rw kept.0 valid
      ] in
      subst (λ o. IsValid t o.1) same valid'
