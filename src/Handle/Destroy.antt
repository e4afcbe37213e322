-- ===== src/Handle/Destroy.antt =====
-- ec_handle.h, the destructor of `handle`.
use eclib.Common.{
  ℕ, ◌^◌, ◌≤◌, ◌<◌, ◌≡◌, refl, sym, ap, ◌∙◌, List, [], ◌∷◌, ◌++◌, none, some, arith, ◌==◌, Returns,
  Bool-cases, Option-cases, inl, inr,
}
use mathlib.Core.List.{reverse, reverse-cons, append_assoc}
use eclib.Map.{HashMap, clear}
use eclib.Map.Table.{IsValid, values}
use eclib.Map.Range.{range_for_lem}
use eclib.Handle.{
  Item, items, Registry, destroy, delete_all, delete_object, null_objects, max_handles,
}
use eclib.Handle.Invariant.{IsRegistry}

-- The objects of a list of items, in order.
abbrev pub objects : List Item → List ℕ
objects [] = []
objects (i ∷ is) = elim i.pcls [ none ↦ objects is | some p ↦ p ∷ objects is ]

delete_all-objects : (is : List Item) (d : List ℕ) → delete_all is d ≡ reverse (objects is) ++ d
unfolding delete_all delete_object
delete_all-objects [] d = refl
delete_all-objects (i ∷ is) d = elim (Option-cases i.pcls) [
  | inl e ↦ rw e (delete_all-objects is d)
  | inr (p, e) ↦ rw e (
      delete_all-objects is (p ∷ d)
      ∙ sym (append_assoc (reverse (objects is)) (p ∷ []) d)
      ∙ ap (λ (l : List ℕ). l ++ d) (sym (reverse-cons p (objects is))))
]

-- The map is empty after the destructor's call of `clear`.
cleared : (m : HashMap Item) → IsValid items m → (clear (null_objects m)).usize ≡ 0
unfolding clear null_objects
cleared m (IsValid.no_table _ e z) = rw e z
cleared m (IsValid.table _ bs e p size) =
    rw e (elim (Bool-cases (m.usize == 0)) [ inl d ↦ rw d refl | inr d ↦ rw d refl ])

-- The destructor ends, deletes the object of each item once, in the order of the table, and empties the
-- map. Fuel counts the tests of the loop, one more than there are items.
pub destroy_registry :
    (fuel : ℕ) (r : Registry)
    → IsRegistry r
    → r.map.uhashsize ≡ max_handles
    → r.map.usize < fuel
    → fuel ≤ 2 ^ 32
    → Returns
        (destroy fuel r)
        λ r'. (r'.deleted ≡ reverse (objects (values r.map)) ++ r.deleted) × (r'.map.usize ≡ 0)
unfolding destroy
destroy_registry fuel r registry width enough few =
    let run = range_for_lem items fuel r.map registry.valid (omega arith) enough few in
    (
      record r { map = clear (null_objects r.map); deleted = delete_all (values r.map) r.deleted },
      rw run refl,
      (delete_all-objects (values r.map) r.deleted, cleared r.map registry.valid),
    )
