-- ===== src/Map/Cursor.antt =====
-- ec_map.h, `hashmap`: `next`, and the iterator's `_begin`, `_nexti` and `atpos`.
use eclib.Common.{
  ℕ, ◌+◌, ◌-◌, ◌*◌, ◌/◌, ◌%◌, ◌^◌, ◌||◌, Option, none, some, [], ◌∷◌, get_elem?, drop, leb, ◌==◌,
  if◌then◌else◌,
}
use eclib.Map.{Buckets, HashMap}

-- Cursors: the chain's index in the high 32 bits, the node's index in the low ones.
abbrev pub stop : ℕ
stop = 2 ^ 64 - 1

abbrev pub pack : ℕ → ℕ → ℕ
pack ih il = ih * 2 ^ 32 + il

-- The list is the chains from number `ih` on. The inner loop leaves `drop il c` with `ul` nodes
-- passed: `il`, where a node is left.
unfoldable pub first_from {ℓ} : {V : Type ℓ} → Buckets V → ℕ → ℕ → ℕ
first_from [] ih il = stop
first_from (c ∷ bs) ih il =
    let rest = first_from bs (ih + 1) 0 in elim (drop il c) [ [] ↦ rest | v ∷ vs ↦ pack ih il ]

-- `_nexti(ih, il)`
unfoldable pub next_index {ℓ} : {V : Type ℓ} → Buckets V → ℕ → ℕ → ℕ
next_index bs ih il = first_from (drop ih bs) ih il

-- The loop of `next(i)`: the value it stops at and the new cursor.
unfoldable pub next_loop {ℓ} : {V : Type ℓ} → Buckets V → Buckets V → ℕ → ℕ → Option V × ℕ
next_loop all [] ih il = (none, stop)
next_loop all (c ∷ bs) ih il =
    let rest = next_loop all bs (ih + 1) 0 in
    elim (drop il c) [
      | [] ↦ rest
      | v ∷ [] ↦ (some v, next_index all (ih + 1) 0)
      | v ∷ w ∷ vs ↦ (some v, next_index all ih (il + 1))
    ]

unfoldable pub next {ℓ} : {V : Type ℓ} → HashMap V → ℕ → Option V × ℕ
unfolding next_loop
next m i = elim m.ppv [
  | none ↦ (none, stop)
  | some bs ↦
      let run = next_loop bs (drop (i / 2 ^ 32) bs) (i / 2 ^ 32) (i % 2 ^ 32) in
      if leb m.uhashsize (i / 2 ^ 32) || m.usize == 0 then (none, stop) else run
]

-- The iterator: `_begin`, `_nexti(pos)` and `atpos`.
unfoldable pub first_chain {ℓ} : {V : Type ℓ} → Buckets V → ℕ → ℕ
first_chain [] ih = stop
first_chain ([] ∷ bs) ih = first_chain bs (ih + 1)
first_chain ((v ∷ c) ∷ bs) ih = pack ih 0

unfoldable pub begin {ℓ} : {V : Type ℓ} → HashMap V → ℕ
unfolding first_chain
begin m = elim m.ppv [ none ↦ stop | some bs ↦ if m.usize == 0 then stop else first_chain bs 0 ]

-- `++i`: the test of `pNode->pNext` looks one node past the cursor. A null table is dereferenced
-- only by a cursor below `_uhashsize`.
unfoldable pub step_chain {ℓ} : {V : Type ℓ} → Buckets V → ℕ → ℕ → ℕ
step_chain [] ih il = stop
step_chain (c ∷ bs) ih il = elim (drop il c) [
  | v ∷ w ∷ vs ↦ pack ih (il + 1)
  | _ ↦ first_chain bs (ih + 1)
]

unfoldable pub advance {ℓ} : {V : Type ℓ} → HashMap V → ℕ → Option ℕ
unfolding step_chain first_chain
advance m pos = if leb m.uhashsize (pos / 2 ^ 32) then some stop else elim m.ppv [
  | none ↦ none
  | some bs ↦ some (step_chain (drop (pos / 2 ^ 32) bs) (pos / 2 ^ 32) (pos % 2 ^ 32))
]

unfoldable pub at_pos {ℓ} : {V : Type ℓ} → HashMap V → ℕ → Option V
at_pos m i = elim m.ppv [
  | none ↦ none
  | some bs ↦
      if leb m.uhashsize (i / 2 ^ 32) || m.usize == 0
      then none
      else elim (get_elem? bs (i / 2 ^ 32)) [ none ↦ none | some c ↦ get_elem? c (i % 2 ^ 32) ]
]
