-- ===== src/Map/Visit.antt =====
-- ec_map.h, `hashmap::next`: the loop over the whole table by a 64-bit cursor.
use eclib.Common.{
  ℕ, zero, suc, ◌+◌, ◌-◌, ◌/◌, ◌%◌, ◌^◌, ◌≤◌, ◌<◌, ◌≡◌, refl, ap, ◌∙◌, false, ◌||◌, none, some,
  List, [], ◌∷◌, ◌++◌, flatten, arith, length, length-append, length-drop, drop, ◌==◌, leb,
  Bool-cases, List-cases, inl, inr,
}
use native.Mathlib.Numerals.{add-one}
use eclib.Map.{Buckets, HashMap}
use eclib.Map.Cursor.{next, next_loop, next_index, first_from, stop, pack}

module _ {ℓ} {A : Type ℓ} where
  pub drop-nil : (n : ℕ) → drop {A = A} n [] ≡ []
  drop-nil zero = refl
  drop-nil (suc n) = refl

  pub drop-suc : (n : ℕ) (xs ys : List A) (x : A) → drop n xs ≡ x ∷ ys → drop (suc n) xs ≡ ys
  drop-suc zero [] ys x h = cc
  drop-suc (suc n) [] ys x h = cc
  drop-suc zero (y ∷ xs) ys x h = cc
  drop-suc (suc n) (y ∷ xs) ys x h = drop-suc n xs ys x h

  pub drop-all : (n : ℕ) (xs : List A) → length xs ≤ n → drop n xs ≡ []
  drop-all zero [] h = refl
  drop-all (suc n) [] h = refl
  drop-all zero (x ∷ xs) h = absurd (omega arith)
  drop-all (suc n) (x ∷ xs) h = drop-all n xs (omega arith)

  pub drop_short : (n : ℕ) (xs : List A) → drop n xs ≡ [] → length xs ≤ n
  drop_short zero [] h = omega arith
  drop_short (suc n) [] h = omega arith
  drop_short zero (x ∷ xs) h = absurd (ground arith)
  drop_short (suc n) (x ∷ xs) h = omega (arith, drop_short n xs h)

  pub drop_long : (n : ℕ) (xs ys : List A) (x : A) → drop n xs ≡ x ∷ ys → n < length xs
  drop_long zero [] ys x h = absurd (ground arith)
  drop_long (suc n) [] ys x h = absurd (ground arith)
  drop_long zero (y ∷ xs) ys x h = omega arith
  drop_long (suc n) (y ∷ xs) ys x h = omega (arith, drop_long n xs ys x h)

module _ {ℓ} {V : Type ℓ} where
  -- The values from node number `il` of the first chain on.
  unfoldable pub after : Buckets V → ℕ → List V
  after [] il = []
  after (c ∷ bs) il = drop il c ++ flatten bs

  -- The values that a cursor has before it.
  unfoldable pub rest_at : Buckets V → ℕ → List V
  rest_at bs i = after (drop (i / 2 ^ 32) bs) (i % 2 ^ 32)

  pub after-zero : (bs : Buckets V) → after bs 0 ≡ flatten bs
  unfolding after flatten
  after-zero [] = refl
  after-zero (c ∷ bs) = refl

  pub length-chain :
      (n : ℕ) (bs rest : Buckets V) (c : List V)
      → drop n bs ≡ c ∷ rest
      → length c ≤ length (flatten bs)
  unfolding flatten
  length-chain zero [] rest c h = absurd (ground arith)
  length-chain (suc n) [] rest c h = absurd (ground arith)
  length-chain zero (b ∷ bs) rest c h =
      let same : b ≡ c = cc in omega (arith, ap length same, length-append b (flatten bs))
  length-chain (suc n) (b ∷ bs) rest c h =
      omega (arith, length-append b (flatten bs), length-chain n bs rest c h)

  pub rest_at-pack :
      (bs : Buckets V) (ih il : ℕ) → il < 2 ^ 32 → rest_at bs (pack ih il) ≡ after (drop ih bs) il
  unfolding rest_at
  rest_at-pack bs ih il h =
      let high : pack ih il / 2 ^ 32 ≡ ih = omega arith in
      let low : pack ih il % 2 ^ 32 ≡ il = omega arith in rw (high, low) refl

  pub rest_at-stop : (bs : Buckets V) → length bs < 2 ^ 32 → rest_at bs stop ≡ []
  unfolding rest_at after
  rest_at-stop bs h = rw (drop-all (2 ^ 32 - 1) bs (omega arith)) refl

  pub drop-next :
      (ih : ℕ) (all bs : Buckets V) (c : List V) → drop ih all ≡ c ∷ bs → drop (ih + 1) all ≡ bs
  drop-next ih all bs c h = rw (add-one ih) (drop-suc ih all bs c h)

  module _ (all : Buckets V) (narrow : length all < 2 ^ 32)
      (few : length (flatten all) < 2 ^ 32) where
    -- The search for a node stands at the first value that it has before it.
    pub rest_at-first_from :
        (bs : Buckets V) (ih il : ℕ)
        → drop ih all ≡ bs
        → rest_at all (first_from bs ih il) ≡ after bs il
    unfolding first_from after
    rest_at-first_from [] ih il h = rest_at-stop all narrow
    rest_at-first_from (c ∷ bs) ih il h = elim (List-cases (drop il c)) [
      | inl e ↦
          rw (e, first_from)
            (rest_at-first_from bs (ih + 1) 0 (drop-next ih all bs c h) ∙ after-zero bs)
      | inr (v, vs, e) ↦
          rw (e, first_from)
            (rest_at-pack all ih il
                (omega (arith, drop_long il c vs v e, length-chain ih all bs c h))
              ∙ rw (h, after, e) refl)
    ]

    -- The loop of `next` takes the first value, and its new cursor has the others before it.
    next_loop-takes :
        (bs : Buckets V) (ih il : ℕ) (v : V) (r : List V)
        → drop ih all ≡ bs
        → after bs il ≡ v ∷ r
        → ((next_loop all bs ih il).0 ≡ some v) × (rest_at all (next_loop all bs ih il).1 ≡ r)
    unfolding next_loop next_index after
    next_loop-takes [] ih il v r h e = absurd (ground arith)
    next_loop-takes (c ∷ bs) ih il v r h e = elim (List-cases (drop il c)) [
      | inl e₀ ↦
          let later : flatten bs ≡ v ∷ r = rw e₀ at e in
          rw (e₀, next_loop)
            (next_loop-takes bs (ih + 1) 0 v r (drop-next ih all bs c h) (after-zero bs ∙ later))
      | inr (w, ws, e₀) ↦
          let here : w ∷ (ws ++ flatten bs) ≡ v ∷ r = rw e₀ at e in
          let value : some w ≡ some v = cc in
          let left : ws ++ flatten bs ≡ r = cc in
          elim (List-cases ws) [
            | inl e₁ ↦
                let step : flatten bs ≡ r = rw e₁ at left in
                rw (e₀, e₁, next_loop)
                  (
                    value,
                    rest_at-first_from (drop (ih + 1) all) (ih + 1) 0 refl
                        ∙ rw (drop-next ih all bs c h) (after-zero bs ∙ step),
                  )
            | inr (x, xs, e₁) ↦
                rw (e₀, e₁, next_loop)
                  (
                    value,
                    rest_at-first_from (drop ih all) ih (il + 1) refl
                        ∙ rw (h, after, add-one il, drop-suc il c ws w e₀) left,
                  )
          ]
    ]

    next_loop-ends :
        (bs : Buckets V) (ih il : ℕ) → after bs il ≡ [] → next_loop all bs ih il ≡ (none, stop)
    unfolding next_loop after
    next_loop-ends [] ih il e = refl
    next_loop-ends (c ∷ bs) ih il e = elim (List-cases (drop il c)) [
      | inl e₀ ↦
          let later : flatten bs ≡ [] = rw e₀ at e in
          rw (e₀, next_loop) (next_loop-ends bs (ih + 1) 0 (after-zero bs ∙ later))
      | inr (w, ws, e₀) ↦
          let here : w ∷ (ws ++ flatten bs) ≡ [] = rw e₀ at e in absurd (ground arith)
    ]

module _ {ℓ} {V : Type ℓ} where
  length-after : (bs : Buckets V) (il : ℕ) → length (after bs il) ≤ length (flatten bs)
  unfolding after flatten
  length-after [] il = omega arith
  length-after (c ∷ bs) il = omega (
    arith,
    length-append (drop il c) (flatten bs),
    length-append c (flatten bs),
    length-drop il c,
  )

  length-flatten-drop :
      (n : ℕ) (bs : Buckets V) → length (flatten (drop n bs)) ≤ length (flatten bs)
  unfolding flatten
  length-flatten-drop zero bs = omega arith
  length-flatten-drop (suc n) [] = omega arith
  length-flatten-drop (suc n) (c ∷ bs) =
      omega (arith, length-append c (flatten bs), length-flatten-drop n bs)

  pub length-rest_at : (bs : Buckets V) (i : ℕ) → length (rest_at bs i) ≤ length (flatten bs)
  unfolding rest_at
  length-rest_at bs i =
      omega (
        arith,
        length-after (drop (i / 2 ^ 32) bs) (i % 2 ^ 32),
        length-flatten-drop (i / 2 ^ 32) bs,
      )

  -- A cursor with a value before it is in the table.
  pub rest_at-inside :
      (bs : Buckets V) (i : ℕ) (v : V) (r : List V) → rest_at bs i ≡ v ∷ r → i / 2 ^ 32 < length bs
  unfolding rest_at after
  rest_at-inside bs i v r h = elim (List-cases (drop (i / 2 ^ 32) bs)) [
    | inl e ↦ let none_left : [] ≡ v ∷ r = rw e at h in absurd (ground arith)
    | inr (c, cs, e) ↦ drop_long (i / 2 ^ 32) bs cs c e
  ]

  module _ (m : HashMap V) (bs : Buckets V) (e : m.ppv ≡ some bs) (width : length bs ≡ m.uhashsize)
      (size : m.usize ≡ length (flatten bs)) (narrow : m.uhashsize < 2 ^ 32)
      (few : m.usize < 2 ^ 32) where
    -- `next` at any cursor: it returns the first value before the cursor, and the new cursor has
    -- the
    -- others before it; with none left it returns null, and the cursor is the end.
    pub next-takes :
        (i : ℕ) (v : V) (r : List V)
        → rest_at bs i ≡ v ∷ r
        → ((next m i).0 ≡ some v) × (rest_at bs (next m i).1 ≡ r)
    unfolding next rest_at
    next-takes i v r h =
        let inside = rest_at-inside bs i v r h in
        let held : length (rest_at bs i) ≡ suc (length r) = ap length h in
        let test : (leb m.uhashsize (i / 2 ^ 32) || m.usize == 0) ≡ false =
          ground (arith, length-rest_at bs i) in
        rw (e, test)
          (next_loop-takes bs (omega arith) (omega arith) (drop (i / 2 ^ 32) bs) (i / 2 ^ 32)
            (i % 2 ^ 32) v r refl h)

    pub next-ends : (i : ℕ) → rest_at bs i ≡ [] → next m i ≡ (none, stop)
    unfolding next rest_at
    next-ends i h = elim (Bool-cases (leb m.uhashsize (i / 2 ^ 32) || m.usize == 0)) [
      | inl out ↦ rw (e, out) refl
      | inr within ↦
          rw (e, within)
            (next_loop-ends bs (omega arith) (omega arith) (drop (i / 2 ^ 32) bs) (i / 2 ^ 32)
              (i % 2 ^ 32) h)
    ]
