-- ===== src/Map/Examples.antt =====
-- ec_map.h, `hashmap`: runs on small maps, and the theorems at them.
use eclib.Common.{
  ℕ, ◌*◌, ◌%◌, ◌^◌, ◌≡◌, ◌⊎◌, refl, true, false, none, some, [], ◌∷◌, ◌++◌, flatten, arith, ◌==◌,
  ==_iff, ◌>>=◌, Returns,
}
use mathlib.Core.List.{reverse}
use eclib.Map.{
  Traits, IsLawful, Buckets, HashMap, new, locate, slot, find, assign, unlink, set_value, get,
  erase, erase_with, emplace, clear, move,
}
use eclib.Map.Cursor.{next, next_loop, first_from, begin, advance, at_pos}
use eclib.Map.Table.{IsValid, view, values}
use eclib.Map.Write.{IsStored, get-view, set_value_lem, set_value-IsValid}
use eclib.Map.Erase.{IsRemoved, erase_lem}
use eclib.Map.Emplace.{emplace_lem}
use eclib.Map.Clear.{new-IsValid, clear_lem}
use eclib.Map.Walk.{walk, walk_lem}
use eclib.Map.Move.{move_lem}
use eclib.Map.Range.{range_for}

-- A value is a key with a payload; the hash is that of `ec::hash` for an integer, on 64 bits.
abbrev Item : Type 0
Item = ℕ × ℕ

abbrev items : Traits ℕ Item
items = record { hasher = λ k. k * 11400714819323198485 % 2 ^ 64; keyeq = λ k v. k == v.0 }

items-IsLawful : IsLawful items
items-IsLawful = record {
  hasher-keyeq = λ a b v p q.
      let same : a ≡ b = omega (arith, (==_iff a v.0).0 p, (==_iff b v.0).0 q) in rw same refl;
  keyeq_congr = λ a b v w p q.
      let same : a ≡ b = omega (arith, (==_iff a v.0).0 p, (==_iff b v.0).0 q) in rw same refl;
}

abbrev empty_map : HashMap Item
empty_map = new Item true 4

empty-IsValid : IsValid items empty_map × ((q : ℕ) → view items empty_map q ≡ none)
empty-IsValid = new-IsValid items true 4 (omega arith)

set_value_lem_example : Returns (set_value items true 7 (7, 70) empty_map) λ r.
    IsStored items 7 (7, 70) empty_map r
    ⊎ (r ≡ (false, empty_map))
      × ((empty_map.ppv ≡ none) ⊎ (view items empty_map 7 ≡ none) × (true ≡ false))
set_value_lem_example =
    set_value_lem items true 7 (7, 70) empty_map items-IsLawful empty-IsValid.0 refl

-- Three keys, two of them in one chain.
abbrev three : Buckets Item
three = [] ∷ ((5, 50) ∷ (1, 10) ∷ []) ∷ [] ∷ ((3, 30) ∷ []) ∷ []

abbrev three_map : HashMap Item
three_map = record { ppv = some three; uhashsize = 4; usize = 3; released = [] }

run_all : Unit {0}
unfolding set_value locate slot find new unlink get erase erase_with emplace clear next next_loop
    first_from begin advance at_pos walk range_for
run_all = tt

abbrev one_map : HashMap Item
one_map = record {
  ppv = some ([] ∷ ((1, 10) ∷ []) ∷ [] ∷ [] ∷ []);
  uhashsize = 4;
  usize = 1;
  released = [];
}

abbrev two_map : HashMap Item
two_map = record {
  ppv = some ([] ∷ ((1, 10) ∷ []) ∷ [] ∷ ((3, 30) ∷ []) ∷ []);
  uhashsize = 4;
  usize = 2;
  released = [];
}

put_one : set_value items true 1 (1, 10) empty_map ≡ some (true, one_map)
unfolding run_all
put_one = refl

put_two : set_value items true 3 (3, 30) one_map ≡ some (true, two_map)
unfolding run_all
put_two = refl

put_three : set_value items true 5 (5, 50) two_map ≡ some (true, three_map)
unfolding run_all
put_three = refl

one-IsValid : IsValid items one_map
one-IsValid =
    set_value-IsValid items true 1 (1, 10) empty_map (true, one_map) items-IsLawful empty-IsValid.0
      refl put_one

three-IsValid : IsValid items three_map
three-IsValid =
    let two =
      set_value-IsValid items true 3 (3, 30) one_map (true, two_map) items-IsLawful one-IsValid refl
        put_two in
    set_value-IsValid items true 5 (5, 50) two_map (true, three_map) items-IsLawful two refl
      put_three

get-view_example : get items 5 three_map ≡ some (view items three_map 5)
get-view_example = get-view items 5 three_map three-IsValid

erase_lem_example : Returns (erase items 1 three_map) λ r.
    (view items three_map 1 ≡ none) × (r ≡ (false, three_map))
    ⊎ ((old : Item) × (view items three_map 1 ≡ some old)
        × (r.0 ≡ true)
        × IsRemoved items old three_map r.1
        × (r.1.released ≡ old ∷ three_map.released))
erase_lem_example = erase_lem items 1 three_map items-IsLawful three-IsValid

emplace_lem_example : Returns (emplace items false 5 (5, 51) three_map) λ r.
    (false ≡ true) × IsStored items 5 (5, 51) three_map r
    ⊎ (three_map.ppv ≡ none) × (r ≡ (false, three_map))
    ⊎ (false ≡ false) × (erase items 5 three_map >>= (λ s. some (false, s.1)) ≡ some r)
emplace_lem_example = emplace_lem items false 5 (5, 51) three_map items-IsLawful three-IsValid refl

clear_lem_example :
    IsValid items (clear three_map)
    × ((clear three_map).usize ≡ 0)
    × ((q : ℕ) → view items (clear three_map) q ≡ none)
    × ((bs : Buckets Item)
        → three_map.ppv ≡ some bs
        → (clear three_map).released ≡ reverse (flatten bs) ++ three_map.released)
clear_lem_example = clear_lem items three_map three-IsValid

walk_lem_example : walk 4 three_map 0 ≡ (5, 50) ∷ (1, 10) ∷ (3, 30) ∷ []
unfolding flatten
walk_lem_example =
    walk_lem items 4 three_map three-IsValid (omega arith) (omega arith) (omega arith)

-- A replaced value is released; a failed `emplace` loses the old one.
replaced :
    (m : HashMap Item) × (set_value items false 5 (5, 51) three_map ≡ some (true, m))
    × (m.released ≡ (5, 50) ∷ [])
unfolding run_all assign
replaced = (
  record three_map {
    ppv = some ([] ∷ ((5, 51) ∷ (1, 10) ∷ []) ∷ [] ∷ ((3, 30) ∷ []) ∷ []);
    released = (5, 50) ∷ [];
  },
  refl,
  refl,
)

lost : emplace items false 5 (5, 51) three_map >>= (λ r. get items 5 r.1) ≡ some none
unfolding run_all
lost = refl

move_lem_example :
    IsValid items (move three_map one_map).0
    × IsValid items (move three_map one_map).1
    × ((q : ℕ) → view items (move three_map one_map).0 q ≡ view items one_map q)
    × ((q : ℕ) → view items (move three_map one_map).1 q ≡ none)
    × ((move three_map one_map).0.released ≡ reverse (values three_map) ++ three_map.released)
move_lem_example = move_lem items three_map one_map three-IsValid one-IsValid
