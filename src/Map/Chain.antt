-- ===== src/Map/Chain.antt =====
-- ec_map.h, `hashmap`: the loops over one chain, and how often a key occurs in it.
use eclib.Common.{
  ℕ, ◌+◌, ◌≤◌, ◌≡◌, refl, Bool, true, false, Option, none, some, List, [], ◌∷◌, ◌++◌, arith, length,
  if◌then◌else◌,
}
use eclib.Map.{Traits, IsLawful, find, assign, unlink}

abbrev pub to_ℕ : Bool → ℕ
to_ℕ true = 1
to_ℕ false = 0

abbrev pub or_else {ℓ} : {A : Type ℓ} → Option A → Option A → Option A
or_else none b = b
or_else (some a) b = some a

module _ {ℓ} {K V : Type ℓ} (t : Traits K V) where
  -- The number of nodes whose key is `q`.
  unfoldable pub count : K → List V → ℕ
  count q [] = 0
  count q (v ∷ c) = to_ℕ (t.keyeq q v) + count q c

  pub find-keyeq : (k : K) (c : List V) (v : V) → find t k c ≡ some v → t.keyeq k v ≡ true
  unfolding find
  find-keyeq k [] v h = absurd (ground arith)
  find-keyeq k (w ∷ c) v h = ground (arith, find-keyeq k c v)

  pub find-eq-none : (q : K) (c : List V) → count q c ≡ 0 → find t q c ≡ none
  unfolding find count
  find-eq-none q [] h = refl
  find-eq-none q (v ∷ c) h = ground (arith, find-eq-none q c)

  pub count-eq-zero : (q : K) (c : List V) → find t q c ≡ none → count q c ≡ 0
  unfolding find count
  count-eq-zero q [] h = refl
  count-eq-zero q (v ∷ c) h = ground (arith, count-eq-zero q c)

  pub find-append : (q : K) (a b : List V) → find t q (a ++ b) ≡ or_else (find t q a) (find t q b)
  unfolding find
  find-append q [] b = refl
  find-append q (v ∷ a) b = ground (arith, find-append q a b)

  pub count-append : (q : K) (a b : List V) → count q (a ++ b) ≡ count q a + count q b
  unfolding count
  count-append q [] b = omega arith
  count-append q (v ∷ a) b = omega (arith, count-append q a b)

  pub length-assign : (k : K) (w : V) (c : List V) → length (assign t k w c) ≡ length c
  unfolding assign
  length-assign k w [] = refl
  length-assign k w (v ∷ c) = ground (arith, length-assign k w c)

  pub length-unlink :
      (k : K) (c : List V) (old : V) → find t k c ≡ some old → length (unlink t k c) + 1 ≡ length c
  unfolding find unlink
  length-unlink k [] old h = absurd (ground arith)
  length-unlink k (v ∷ c) old h = ground (arith, length-unlink k c old)

  pub unlink_absent : (k : K) (c : List V) → find t k c ≡ none → unlink t k c ≡ c
  unfolding find unlink
  unlink_absent k [] h = refl
  unlink_absent k (v ∷ c) h = ground (arith, unlink_absent k c)

  module _ (law : IsLawful t) where
    -- Two values that share one key agree at every key.
    pub keyeq_swap :
        (k q : K) (v w : V) → t.keyeq k v ≡ true → t.keyeq k w ≡ true → t.keyeq q v ≡ t.keyeq q w
    keyeq_swap k q v w hv hw = ground (arith, law.keyeq_congr q k v w, law.keyeq_congr q k w v)

    -- A key that has a node in common with `k` counts as often as `k`.
    pub count_same :
        (k q : K) (v : V) (c : List V)
        → t.keyeq k v ≡ true
        → t.keyeq q v ≡ true
        → count q c ≡ count k c
    unfolding count
    count_same k q v [] hk hq = refl
    count_same k q v (w ∷ c) hk hq = ground (arith, law.keyeq_congr q k v w, count_same k q v c)

    pub find_same :
        (k q : K) (v : V) (c : List V)
        → t.keyeq k v ≡ true
        → t.keyeq q v ≡ true
        → find t q c ≡ find t k c
    unfolding find
    find_same k q v [] hk hq = refl
    find_same k q v (w ∷ c) hk hq = ground (arith, law.keyeq_congr q k v w, find_same k q v c)

    pub count-assign :
        (k q : K) (w : V) (c : List V) → t.keyeq k w ≡ true → count q (assign t k w c) ≡ count q c
    unfolding count assign
    count-assign k q w [] h = refl
    count-assign k q w (v ∷ c) h = ground (arith, count-assign k q w c, keyeq_swap k q v w)

    pub find-assign :
        (k q : K) (w old : V) (c : List V)
        → t.keyeq k w ≡ true
        → find t k c ≡ some old
        → find t q (assign t k w c) ≡ (if t.keyeq q w then some w else find t q c)
    unfolding find assign
    find-assign k q w old [] h e = absurd (ground arith)
    find-assign k q w old (v ∷ c) h e =
        ground (arith, find-assign k q w old c, keyeq_swap k q v w, law.keyeq_congr q k w v)

    pub count-unlink :
        (k q : K) (old : V) (c : List V)
        → find t k c ≡ some old
        → count q (unlink t k c) + to_ℕ (t.keyeq q old) ≡ count q c
    unfolding find count unlink
    count-unlink k q old [] e = absurd (ground arith)
    count-unlink k q old (v ∷ c) e = ground (arith, count-unlink k q old c)

    pub find-unlink :
        (k q : K) (old : V) (c : List V)
        → find t k c ≡ some old
        → count q c ≤ 1
        → find t q (unlink t k c) ≡ (if t.keyeq q old then none else find t q c)
    unfolding find count unlink
    find-unlink k q old [] e h = absurd (ground arith)
    find-unlink k q old (v ∷ c) e h = ground (
      arith,
      find-unlink k q old c,
      find-eq-none q c,
      find-keyeq k c old,
      keyeq_swap k q v old,
      law.keyeq_congr q k old v,
    )
