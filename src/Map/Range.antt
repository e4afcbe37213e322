-- ===== src/Map/Range.antt =====
-- ec_map.h, `hashmap::iterator`: a range-based `for` over the map.
use eclib.Common.{
  ℕ, zero, suc, ◌+◌, ◌/◌, ◌%◌, ◌^◌, ◌≤◌, ◌<◌, ◌≡◌, refl, ap, ◌∙◌, false, ◌||◌, Option, none, some,
  List, [], ◌∷◌, ◌++◌, flatten, arith, length, drop, get_elem?, if◌then◌else◌, ◌==◌, leb,
  Bool-cases, List-cases, inl, inr, ◌⊎◌, ◌>>=◌,
}
use native.Mathlib.Numerals.{add-one}
use eclib.Map.{Traits, Buckets, HashMap}
use eclib.Map.Cursor.{stop, pack, begin, advance, at_pos, first_chain, step_chain}
use eclib.Map.Table.{IsValid, values, values_table}
use eclib.Map.Clear.{no_nodes}
use eclib.Map.Visit.{drop-suc, drop-next, drop_long, length-chain}

-- `for (i = begin(); i != end(); ++i) ... *i ...`. A dereferenced null pointer is `none`.
unfoldable pub range_for {ℓ} : {V : Type ℓ} → ℕ → HashMap V → ℕ → Option (List V)
range_for zero m i = none
range_for (suc fuel) m i =
    if i == stop
    then some []
    else (do v ← at_pos m i; j ← advance m i; r ← range_for fuel m j; some (v ∷ r))

get_elem?-drop {ℓ} :
    {A : Type ℓ} (n : ℕ) (xs ys : List A) (x : A) → drop n xs ≡ x ∷ ys → get_elem? xs n ≡ some x
get_elem?-drop zero [] ys x h = cc
get_elem?-drop (suc n) [] ys x h = cc
get_elem?-drop zero (y ∷ xs) ys x h = cc
get_elem?-drop (suc n) (y ∷ xs) ys x h = get_elem?-drop n xs ys x h

module _ {ℓ} {V : Type ℓ} (all : Buckets V) where
  -- The cursor stands at a node, which is the first of the list `r` of values left.
  record IsAt (i : ℕ) (r : List V) : Type ℓ where
    value : V
    tail : List V
    bucket : List V
    others : Buckets V
    at_bucket : drop (i / 2 ^ 32) all ≡ bucket ∷ others
    at_node : drop (i % 2 ^ 32) bucket ≡ value ∷ tail
    left : r ≡ value ∷ (tail ++ flatten others)

  abbrev Points : ℕ → List V → Type ℓ
  Points i r = (i ≡ stop) × (r ≡ []) ⊎ IsAt i r

  first_chain-Points :
      (bs : Buckets V) (ih : ℕ) → drop ih all ≡ bs → Points (first_chain bs ih) (flatten bs)
  unfolding first_chain flatten
  first_chain-Points [] ih h = inl (refl, refl)
  first_chain-Points ([] ∷ bs) ih h = first_chain-Points bs (ih + 1) (drop-next ih all bs [] h)
  first_chain-Points ((v ∷ c) ∷ bs) ih h =
      let high : pack ih 0 / 2 ^ 32 ≡ ih = omega arith in
      let low : pack ih 0 % 2 ^ 32 ≡ 0 = omega arith in
      inr (record {
        value = v;
        tail = c;
        bucket = v ∷ c;
        others = bs;
        at_bucket = rw high h;
        at_node = rw low refl;
        left = refl;
      })

  module _ (m : HashMap V) (e : m.ppv ≡ some all) (width : length all ≡ m.uhashsize)
      (size : m.usize ≡ length (flatten all)) (narrow : m.uhashsize < 2 ^ 32)
      (few : m.usize < 2 ^ 32) where
    at_pos-IsAt : (i : ℕ) (r : List V) (p : IsAt i r) → at_pos m i ≡ some p.value
    unfolding at_pos
    at_pos-IsAt i r p =
        let inside = drop_long (i / 2 ^ 32) all p.others p.bucket p.at_bucket in
        let node = drop_long (i % 2 ^ 32) p.bucket p.tail p.value p.at_node in
        let test : (leb m.uhashsize (i / 2 ^ 32) || m.usize == 0) ≡ false =
          ground (arith, length-chain (i / 2 ^ 32) all p.others p.bucket p.at_bucket) in
        rw
          (
            e,
            test,
            get_elem?-drop (i / 2 ^ 32) all p.others p.bucket p.at_bucket,
            get_elem?-drop (i % 2 ^ 32) p.bucket p.tail p.value p.at_node,
          )
          refl

    advance-Points :
        (i : ℕ) (r : List V) (p : IsAt i r)
        → (j : ℕ) × (advance m i ≡ some j) × Points j (p.tail ++ flatten p.others)
    unfolding advance step_chain
    advance-Points i r p =
        let ih = i / 2 ^ 32 in
        let il = i % 2 ^ 32 in
        let inside = drop_long ih all p.others p.bucket p.at_bucket in
        let test : leb m.uhashsize ih ≡ false = ground arith in
        elim (List-cases p.tail) [
          | inl e₁ ↦ (
            first_chain p.others (ih + 1),
            rw (test, e, p.at_bucket, step_chain, p.at_node, e₁) refl,
            rw e₁ (
                first_chain-Points p.others (ih + 1)
                  (drop-next ih all p.others p.bucket p.at_bucket)),
          )
          | inr (w, ws, e₁) ↦
              let more = drop-suc il p.bucket p.tail p.value p.at_node in
              let node : drop (il + 1) p.bucket ≡ w ∷ ws = rw (add-one il) (more ∙ e₁) in
              let short : il + 1 < 2 ^ 32 = omega (
                arith,
                drop_long (il + 1) p.bucket ws w node,
                length-chain ih all p.others p.bucket p.at_bucket,
              ) in
              let high : pack ih (il + 1) / 2 ^ 32 ≡ ih = omega arith in
              let low : pack ih (il + 1) % 2 ^ 32 ≡ il + 1 = omega arith in
              (
                pack ih (il + 1),
                rw (test, e, p.at_bucket, step_chain, p.at_node, e₁) refl,
                inr (record {
                  value = w;
                  tail = ws;
                  bucket = p.bucket;
                  others = p.others;
                  at_bucket = rw high p.at_bucket;
                  at_node = rw low node;
                  left = rw e₁ refl;
                }),
              )
        ]

    range_from :
        (fuel i : ℕ) (r : List V) → Points i r → length r < fuel → range_for fuel m i ≡ some r
    unfolding range_for
    range_from zero i r p h = absurd (omega arith)
    range_from (suc fuel) i r (inl (at_end, none_left)) h = rw (at_end, none_left) refl
    range_from (suc fuel) i r (inr p) h =
        let (j, step, q) = advance-Points i r p in
        let inside = drop_long (i / 2 ^ 32) all p.others p.bucket p.at_bucket in
        let go_on : (i == stop) ≡ false = ground arith in
        let rest =
          range_from fuel j (p.tail ++ flatten p.others) q (omega (arith, ap length p.left)) in
        rw (go_on, at_pos-IsAt i r p, ◌>>=◌, step, rest, p.left) refl

-- A range-based `for` over any valid map with fewer than 2 ^ 32 chains and nodes dereferences no
-- null
-- pointer, meets the value of every node once, chain after chain, and ends. `fuel` counts its
-- tests.
pub range_for_lem {ℓ} :
    {K V : Type ℓ} (t : Traits K V) (fuel : ℕ) (m : HashMap V)
    → IsValid t m
    → m.uhashsize < 2 ^ 32
    → m.usize < fuel
    → fuel ≤ 2 ^ 32
    → range_for fuel m (begin m) ≡ some (values m)
range_for_lem t zero m valid narrow enough few = absurd (omega arith)
range_for_lem t (suc fuel) m (IsValid.no_table _ e z) narrow enough few =
    let start : begin m ≡ stop = unfold begin in rw e refl in unfold range_for in rw (start, e) refl
range_for_lem t (suc fuel) m (IsValid.table _ bs e p size) narrow enough few =
    let from = range_from bs m e p.width size narrow (omega arith) (suc fuel) in
    elim (Bool-cases (m.usize == 0)) [
      | inl empty ↦
          let start : begin m ≡ stop = unfold begin in rw (e, empty) refl in
          rw (start, values_table m bs e)
            (from stop (flatten bs) (inl (refl, no_nodes (flatten bs) (ground arith)))
              (omega (arith, size)))
      | inr full ↦
          let start : begin m ≡ first_chain bs 0 = unfold begin in rw (e, full) refl in
          rw (start, values_table m bs e)
            (from (first_chain bs 0) (flatten bs) (first_chain-Points bs bs 0 refl)
              (omega (arith, size)))
    ]
