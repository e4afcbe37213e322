-- ===== src/Allocator/Choice.antt =====
-- ec_alloctor.h, `allocator::malloc_`: which block size a request is given.
use eclib.Common.{
  ℕ, zero, suc, ◌+◌, ◌-◌, ◌/◌, ◌≤◌, ◌<◌, ◌≡◌, ◌⊎◌, refl, Bool, true, false, ◌&&◌, List, [], ◌∷◌,
  length, get_or, drop, ltb, leb, ◌==◌, arith, Bool-cases, inl, inr,
}
use eclib.Allocator.{half_loop, scan, pick}

-- Each size is greater than those before it.
unfoldable pub IsAscending : List ℕ → Type 0
IsAscending xs = (i j : ℕ) → i < j → j < length xs → get_or xs i 0 < get_or xs j 0

-- The sizes before `n` are too small.
abbrev Small : List ℕ → ℕ → ℕ → Type 0
Small xs size n = (j : ℕ) → j < n → get_or xs j 0 < size

scan-drop :
    (size : ℕ) (xs : List ℕ) (n i : ℕ)
    → n ≤ length xs
    → Small xs size n
    → scan size (drop n xs) (i + n) ≡ scan size xs i
unfolding scan
scan-drop size xs zero i fits small = let same : i + 0 ≡ i = omega arith in rw same refl
scan-drop size [] (suc n) i fits small = elim fits [ ]
scan-drop size (x ∷ xs) (suc n) i fits small =
    let first : leb size x ≡ false = ground (arith, small 0 (omega arith)) in
    let moved : i + suc n ≡ i + 1 + n = omega arith in
    rw (first, moved)
      (scan-drop size xs n (i + 1) (omega arith) (λ j h. small (suc j) (omega arith)))

module _ (xs : List ℕ) (size : ℕ) (sorted : IsAscending xs) where
  below : (mid j : ℕ) → mid < length xs → get_or xs mid 0 ≤ size → j < mid → get_or xs j 0 < size
  unfolding IsAscending
  below mid j inside fits h = omega (arith, sorted j mid h inside)

  up_to :
      (mid j : ℕ) → mid < length xs → get_or xs mid 0 < size → j < mid + 1 → get_or xs j 0 < size
  up_to mid j inside fits h = elim (Bool-cases (j == mid)) [
    | inl e ↦ let same : j ≡ mid = ground arith in rw same fits
    | inr e ↦ below mid j inside (omega arith) (ground arith)
  ]

  half_loop-Small :
      (fuel nl hi nm : ℕ)
      → hi - nl < fuel
      → nl ≤ hi
      → hi ≤ length xs
      → (nm ≤ nl) ⊎ (nm ≡ hi)
      → Small xs size nl
      → Small xs size (half_loop fuel xs size nl hi nm)
        × (half_loop fuel xs size nl hi nm ≤ length xs)
  unfolding half_loop
  half_loop-Small zero nl hi nm enough le inside place small = elim enough [ ]
  half_loop-Small (suc fuel) nl hi nm enough le inside place small =
      let mid = (nl + (hi - 1)) / 2 in
      let s = get_or xs mid 0 in
      elim (Bool-cases (ltb nl hi)) [
        | inr e ↦ rw e ((λ j h. small j (ground (arith, place))), ground (arith, place))
        | inl e ↦
            let open_range : nl < hi = ground arith in
            let inner : mid < length xs = omega arith in
            elim (Bool-cases (ltb s size)) [
              | inl less ↦
                  rw (e, less)
                    (half_loop-Small fuel (mid + 1) hi mid (omega arith) (omega arith) inside
                      (inl (omega arith)) (λ j h. up_to mid j inner (ground arith) h))
              | inr more ↦ elim (Bool-cases (ltb size s)) [
                | inl greater ↦
                    rw (e, more, greater)
                      (half_loop-Small fuel nl mid mid (omega arith) (omega arith) (omega arith)
                        (inr refl) small)
                | inr equal ↦
                    rw (e, more, equal) ((λ j h. below mid j inner (ground arith) h), omega arith)
              ]
            ]
      ]

-- The search by halves, which a table of more than 16 sizes begins with, skips only sizes that are too
-- small: on ascending sizes the choice is the first size that fits.
pub pick_lem : (size : ℕ) (xs : List ℕ) → IsAscending xs → pick size xs ≡ scan size xs 0
unfolding pick
pick_lem size xs sorted = elim (Bool-cases (ltb 16 (length xs))) [
  | inr e ↦ rw e refl
  | inl e ↦
      let (small, inside) =
        half_loop-Small xs size sorted (suc (length xs)) 0 (length xs) 0 (omega arith) (omega arith)
          (omega arith) (inl (omega arith)) (λ j h. elim h [ ]) in
      let skipped = half_loop (suc (length xs)) xs size 0 (length xs) 0 in
      let same : 0 + skipped ≡ skipped = omega arith in
      rw e (rw same at (scan-drop size xs skipped 0 inside small))
]

above_all : ℕ → List ℕ → Bool
above_all x [] = true
above_all x (y ∷ ys) = ltb x y && above_all x ys

unfoldable pub is_ascending : List ℕ → Bool
unfolding above_all
is_ascending [] = true
is_ascending (x ∷ xs) = above_all x xs && is_ascending xs

and_both : (a b : Bool) → (a && b) ≡ true → (a ≡ true) × (b ≡ true)
and_both true b h = (refl, h)
and_both false b h = cc

above_all-lt :
    (x : ℕ) (xs : List ℕ) (j : ℕ) → above_all x xs ≡ true → j < length xs → x < get_or xs j 0
unfolding above_all
above_all-lt x [] j h inside = elim inside [ ]
above_all-lt x (y ∷ ys) zero h inside = ground (arith, and_both (ltb x y) (above_all x ys) h)
above_all-lt x (y ∷ ys) (suc j) h inside =
    above_all-lt x ys j (and_both (ltb x y) (above_all x ys) h).1 (omega arith)

pub is_ascending-IsAscending : (xs : List ℕ) → is_ascending xs ≡ true → IsAscending xs
unfolding is_ascending IsAscending
is_ascending-IsAscending [] h i j lt inside = elim inside [ ]
is_ascending-IsAscending (x ∷ xs) h i zero lt inside = elim lt [ ]
is_ascending-IsAscending (x ∷ xs) h zero (suc j) lt inside =
    above_all-lt x xs j (and_both (above_all x xs) (is_ascending xs) h).0 (omega arith)
is_ascending-IsAscending (x ∷ xs) h (suc i) (suc j) lt inside =
    is_ascending-IsAscending xs (and_both (above_all x xs) (is_ascending xs) h).1 i j (omega arith)
      (omega arith)
