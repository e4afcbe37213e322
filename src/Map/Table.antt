-- ===== src/Map/Table.antt =====
-- ec_map.h, `hashmap`: the invariant of the table, and what a write to one chain does to it.
use eclib.Common.{
  ℕ, zero, suc, ◌+◌, ◌%◌, ◌≤◌, ◌<◌, ◌≡◌, refl, sym, ◌∙◌, ◌≢◌, Option, none, some, List, [], ◌∷◌,
  flatten, arith, length, get_or, set, replicate, length-append, length-set, length-replicate,
  get_elem?-get_or, get_or-set_self, get_or-set_ne, get_or-replicate, if◌then◌else◌, ◌==◌,
}
use native.Mathlib.Decide.{ℕ_discrete}
use eclib.Map.{Traits, Buckets, HashMap, find, slot, locate}
use eclib.Map.Chain.{count, find-eq-none, find-append, count-append}

module _ {ℓ} {A : Type ℓ} where
  pub length-flatten-set :
      (table : List (List A)) (n : ℕ) (fresh : List A)
      → n < length table
      → length (flatten (set table n fresh)) + length (get_or table n [])
        ≡ length (flatten table) + length fresh
  unfolding flatten
  length-flatten-set [] n fresh inside = absurd (omega arith)
  length-flatten-set (old ∷ table) zero fresh inside = simp length-append (omega arith)
  length-flatten-set (old ∷ table) (suc n) fresh inside =
      let rest = length-flatten-set table n fresh (omega arith) in simp length-append (omega arith)

  pub length-flatten-get :
      (bs : List (List A)) (i : ℕ) → length (get_or bs i []) ≤ length (flatten bs)
  unfolding flatten
  length-flatten-get [] i = omega arith
  length-flatten-get (x ∷ bs) zero = simp length-append (omega arith)
  length-flatten-get (x ∷ bs) (suc i) = simp length-append (omega (arith, length-flatten-get bs i))

  pub flatten-replicate : (n : ℕ) → flatten {A = A} (replicate n []) ≡ []
  unfolding flatten
  flatten-replicate zero = refl
  flatten-replicate (suc n) = flatten-replicate n

-- The values of all nodes, chain after chain.
abbrev pub values {ℓ} : {V : Type ℓ} → HashMap V → List V
values m = elim m.ppv [ none ↦ [] | some bs ↦ flatten bs ]

pub values_table {ℓ} :
    {V : Type ℓ} (m : HashMap V) (bs : Buckets V) → m.ppv ≡ some bs → values m ≡ flatten bs
values_table m bs e = rw e refl

module _ {ℓ} {K V : Type ℓ} (t : Traits K V) where
  -- A key occurs once at most, and only in the chain that its hash selects.
  pub record IsPlaced (n : ℕ) (bs : Buckets V) : Type ℓ where
    pub width : length bs ≡ n
    pub some_chain : 0 < n
    pub once : (q : K) (i : ℕ) → count t q (get_or bs i []) ≤ 1
    pub home : (q : K) (i : ℕ) → i ≢ t.hasher q % n → count t q (get_or bs i []) ≡ 0

  -- `_usize` is the number of nodes, and a null table has none.
  pub data IsValid : HashMap V → Type ℓ where
    no_table : (m : HashMap V) → m.ppv ≡ none → m.usize ≡ 0 → IsValid m
    table :
        (m : HashMap V) (bs : Buckets V)
        → m.ppv ≡ some bs
        → IsPlaced m.uhashsize bs
        → m.usize ≡ length (flatten bs)
        → IsValid m

  -- The abstract view: the value of a key, wherever in the table it is.
  unfoldable pub view : HashMap V → K → Option V
  view m q = elim m.ppv [ none ↦ none | some bs ↦ find t q (flatten bs) ]

  pub locate_lem :
      (k : K) (n : ℕ) (bs : Buckets V)
      → IsPlaced n bs
      → locate t k n bs ≡ some (t.hasher k % n, get_or bs (t.hasher k % n) [])
  unfolding locate slot
  locate_lem k zero bs p = absurd (omega (arith, p.some_chain))
  locate_lem k (suc n) bs p =
      rw (get_elem?-get_or bs (t.hasher k % suc n) [] (omega (arith, p.width))) refl

  count-flatten_nowhere :
      (q : K) (bs : Buckets V)
      → ((i : ℕ) → count t q (get_or bs i []) ≡ 0)
      → count t q (flatten bs) ≡ 0
  unfolding flatten count
  count-flatten_nowhere q [] h = refl
  count-flatten_nowhere q (c ∷ cs) h =
      omega
        (arith, count-append t q c (flatten cs), h 0, count-flatten_nowhere q cs (λ i. h (suc i)))

  -- A key that stands in one chain only is found there.
  flatten_only :
      (q : K) (bs : Buckets V) (j : ℕ)
      → ((i : ℕ) → i ≢ j → count t q (get_or bs i []) ≡ 0)
      → find t q (flatten bs) ≡ find t q (get_or bs j [])
  unfolding flatten find
  flatten_only q [] j h = refl
  flatten_only q (c ∷ cs) zero h =
      let rest =
        find-eq-none t q (flatten cs) (count-flatten_nowhere q cs (λ i. h (suc i) (omega arith))) in
      ground (arith, find-append t q c (flatten cs), rest)
  flatten_only q (c ∷ cs) (suc j) h =
      let here = find-eq-none t q c (h 0 (omega arith)) in
      let there = flatten_only q cs j (λ i n. h (suc i) (omega arith)) in
      ground (arith, find-append t q c (flatten cs), here, there)

  pub find-flatten :
      (q : K) (n : ℕ) (bs : Buckets V)
      → IsPlaced n bs
      → find t q (flatten bs) ≡ find t q (get_or bs (t.hasher q % n) [])
  find-flatten q n bs p = flatten_only q bs (t.hasher q % n) (p.home q)

  pub replicate-IsPlaced : (n : ℕ) → 0 < n → IsPlaced n (replicate n [])
  unfolding count
  replicate-IsPlaced n h = record {
    width = length-replicate n [];
    some_chain = h;
    once = λ q i. rw (get_or-replicate {A = List V} n i []) (omega arith);
    home = λ q i _. rw (get_or-replicate {A = List V} n i []);
  }

  -- A chain is replaced by one in which each key occurs once at most, and only at its place.
  pub set-IsPlaced :
      (n i : ℕ) (bs : Buckets V) (c : List V)
      → IsPlaced n bs
      → i < n
      → ((q : K) → count t q c ≤ 1)
      → ((q : K) → i ≢ t.hasher q % n → count t q c ≡ 0)
      → IsPlaced n (set bs i c)
  set-IsPlaced n i bs c p h few at_home = record {
    width = length-set bs i c ∙ p.width;
    some_chain = p.some_chain;
    once = λ q j. elim (ℕ_discrete i j) [
      | yes e ↦ rw (← e, get_or-set_self bs i c [] (omega (arith, p.width))) (few q)
      | no e ↦ rw (get_or-set_ne bs i j c [] e) (p.once q j)
    ];
    home = λ q j away. elim (ℕ_discrete i j) [
      | yes e ↦
          rw (← e, get_or-set_self bs i c [] (omega (arith, p.width)))
            (at_home q (λ x. away (sym e ∙ x)))
      | no e ↦ rw (get_or-set_ne bs i j c [] e) (p.home q j away)
    ];
  }

  pub find-flatten-set :
      (q : K) (n i : ℕ) (bs : Buckets V) (c : List V)
      → IsPlaced n bs
      → IsPlaced n (set bs i c)
      → i < n
      → find t q (flatten (set bs i c))
        ≡ (if i == t.hasher q % n then find t q c else find t q (flatten bs))
  find-flatten-set q n i bs c p p' h =
      rw (find-flatten q n bs p, find-flatten q n (set bs i c) p')
        (elim (ℕ_discrete i (t.hasher q % n)) [
          | yes e ↦ rw (← e, get_or-set_self bs i c [] (omega (arith, p.width))) (ground arith)
          | no e ↦ rw (get_or-set_ne bs i (t.hasher q % n) c [] e) (ground arith)
        ])
