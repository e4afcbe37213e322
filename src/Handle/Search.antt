-- ===== src/Handle/Search.antt =====
-- ec_handle.h, `handle::create`: the search of a free number ends.
use eclib.Common.{
  ℕ, zero, suc, ◌+◌, ◌-◌, ◌%◌, ◌^◌, ◌≤◌, ◌<◌, ◌≡◌, ◌≢◌, refl, sym, ap, ◌∙◌, ◌⊎◌, inl, inr, false,
  List, [], ◌∷◌, none, length, arith, ltb, leb, ◌*◌, ◌==◌, if◌then◌else◌, Option-cases, Bool-cases,
  Returns,
}
use eclib.Map.{HashMap, find}
use eclib.Map.Table.{IsValid, view, values}
use eclib.Map.Write.{get-view}
use eclib.Handle.{Item, items, nexthv, find_free, max_handles}

-- A number below `n` that `f` sends to `k`.
search_below :
    (n : ℕ) (f : ℕ → ℕ) (k : ℕ) → ((i : ℕ) × (i < n) × (f i ≡ k)) ⊎ ((i : ℕ) → i < n → f i ≢ k)
search_below zero f k = inr (λ i h e. omega arith)
search_below (suc n) f k = elim (Bool-cases (f n == k)) [
  | inl e ↦ inl (n, omega arith, ground arith)
  | inr e ↦ elim (search_below n f k) [
    | inl (i, h, d) ↦ inl (i, omega arith, d)
    | inr nowhere ↦ inr (λ i h d. elim (Bool-cases (i == n)) [
      | inl same ↦
          let last : i ≡ n = ground arith in let hit : f n ≡ k = ap f (sym last) ∙ d in ground arith
      | inr away ↦ nowhere i (ground arith) d
    ])
  ]
]

abbrev AreDistinct : ℕ → (ℕ → ℕ) → Type 0
AreDistinct n f = (i j : ℕ) → i < n → j < n → i ≢ j → f i ≢ f j

-- The numbers without `i`.
abbrev skip : ℕ → ℕ → ℕ
skip i j = if ltb j i then j else suc j

skip_lem : (i j : ℕ) → (skip i j ≤ suc j) × (skip i j ≢ i)
skip_lem i j = (ground arith, ground arith)

skip_apart : (i j k : ℕ) → j ≢ k → skip i j ≢ skip i k
skip_apart i j k h = ground arith

-- Of more numbers than there are items, one is not the number of an item.
pigeonhole :
    (vs : List Item) (n : ℕ) (f : ℕ → ℕ)
    → length vs < n
    → AreDistinct n f
    → (i : ℕ) × (i < n) × (find items (f i) vs ≡ none)
unfolding find items
pigeonhole [] n f h apart = (0, omega arith, refl)
pigeonhole (v ∷ vs) zero f h apart = absurd (omega arith)
pigeonhole (v ∷ vs) (suc n) f h apart = elim (search_below (suc n) f v.key) [
  | inr nowhere ↦
      let (i, below, gone) = pigeonhole vs (suc n) f (omega arith) apart in
      let test : (f i == v.key) ≡ false = let away = nowhere i below in ground arith in
      (i, below, rw test gone)
  | inl (i, below, hit) ↦
      let (j, under, gone) =
        pigeonhole vs n (λ j. f (skip i j)) (omega arith)
          (λ a b x y ne.
            apart (skip i a) (skip i b) (omega (arith, (skip_lem i a).0))
              (omega (arith, (skip_lem i b).0)) (skip_apart i a b ne)) in
      let (bound, away) = skip_lem i j in
      let other : f (skip i j) ≢ f i = apart (skip i j) i (omega arith) below away in
      let test : (f (skip i j) == v.key) ≡ false = ground arith in
      (skip i j, omega arith, rw test gone)
]

-- The number after `n` calls of `nexthv`.
abbrev later : ℕ → ℕ → ℕ
later zero next = next
later (suc n) next = later n (nexthv next)

pub nexthv_lem :
    (next : ℕ)
    → next ≤ 2 * max_handles
    → nexthv next ≡ (if next == 2 * max_handles then 1 else suc next)
unfolding nexthv
nexthv_lem next h =
    let wrap : (next + 1) % 2 ^ 32 ≡ next + 1 = omega arith in rw wrap (ground arith)

later_lem :
    (n next : ℕ)
    → next ≤ 2 * max_handles
    → n < 2 * max_handles
    → later n next
      ≡ (if leb (next + n) (2 * max_handles) then next + n else next + n - 2 * max_handles)
later_lem zero next h small = ground arith
later_lem (suc n) next h small =
    let step = nexthv_lem next h in
    let rest = later_lem n (nexthv next) (ground (arith, step)) (omega arith) in
    ground (arith, step, rest)

nodes : (m : HashMap Item) → IsValid items m → length (values m) ≡ m.usize
nodes m (IsValid.no_table _ e z) = rw e (sym z)
nodes m (IsValid.table _ bs e p size) = rw e (sym size)

pub view-find : (m : HashMap Item) (q : ℕ) → view items m q ≡ find items q (values m)
unfolding view find
view-find m q = elim (Option-cases m.ppv) [ inl e ↦ rw e refl | inr (bs, e) ↦ rw e refl ]

-- A free number is among the next 1024.
free_below :
    (m : HashMap Item) (next : ℕ)
    → IsValid items m
    → m.usize < max_handles
    → next ≤ 2 * max_handles
    → (i : ℕ) × (i < max_handles) × (view items m (later i next) ≡ none)
free_below m next valid few small =
    let (i, below, gone) =
      pigeonhole (values m) max_handles (λ i. later i next) (omega (arith, nodes m valid))
        (λ i j h k ne e.
          let first = later_lem i next small (omega arith) in
          let second = later_lem j next small (omega arith) in ground arith) in
    (i, below, view-find m (later i next) ∙ gone)

find_free_lem :
    (i fuel : ℕ) (m : HashMap Item) (next : ℕ)
    → IsValid items m
    → i < fuel
    → next ≤ 2 * max_handles
    → view items m (later i next) ≡ none
    → Returns (find_free fuel m next) λ c. (view items m c ≡ none) × (c ≤ 2 * max_handles)
unfolding find_free
find_free_lem i zero m next valid below small gone = absurd (omega arith)
find_free_lem zero (suc fuel) m next valid below small gone =
    (next, rw (get-view items next m valid, gone) refl, (gone, small))
find_free_lem (suc i) (suc fuel) m next valid below small gone =
    let range = nexthv_lem next small in
    elim (Option-cases (view items m next)) [
      | inl e ↦ (next, rw (get-view items next m valid, e) refl, (e, small))
      | inr (v, e) ↦
          let (c, run, found) =
            find_free_lem i fuel m (nexthv next) valid (omega arith) (ground (arith, range)) gone in
          (c, rw (get-view items next m valid, e) run, found)
    ]

-- In a valid map with less than 1024 nodes the loop ends within 1024 rounds at a number that is not in
-- use and at most 2048.
pub find_free_enough :
    (fuel : ℕ) (m : HashMap Item) (next : ℕ)
    → IsValid items m
    → m.usize < max_handles
    → next ≤ 2 * max_handles
    → max_handles ≤ fuel
    → Returns (find_free fuel m next) λ c. (view items m c ≡ none) × (c ≤ 2 * max_handles)
find_free_enough fuel m next valid few small enough =
    let (i, below, gone) = free_below m next valid few small in
    find_free_lem i fuel m next valid (omega arith) small gone
