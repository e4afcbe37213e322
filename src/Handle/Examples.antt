-- ===== src/Handle/Examples.antt =====
-- ec_handle.h, `handle`: runs, and the theorems at concrete values.
use eclib.Common.{
  ℕ, ◌≡◌, refl, ◌⊎◌, true, false, [], ◌∷◌, ◌++◌, sym, ◌∙◌, replicate, Option, none, some, ◌+◌, ◌-◌,
  ◌^◌, arith, Returns,
}
use mathlib.Core.List.{reverse}
use mathlib.Core.Path.{subst}
use mathlib.Core.Option.{some-injective}
use eclib.Map.{assign, unlink, new, get, set_value, erase, locate, slot, find}
use eclib.Map.Poke.{poke}
use eclib.Map.Table.{view, values}
use eclib.Handle.{
  new_item, Item, items, Registry, new_registry, create, del, getobjptr, setiv, getiv, setlv, getlv,
  setpv, getpv, destroy,
}
use eclib.Handle.Invariant.{IsRegistry, new_registry_lem}
use eclib.Handle.Create.{Outcome, create_lem}
use eclib.Handle.Delete.{IsDeleted, del_lem}
use eclib.Handle.Destroy.{objects, destroy_registry}
use eclib.Handle.Members.{IsAnswer, setlv_lem, setiv_lem}

first : IsRegistry (new_registry true)
first = (new_registry_lem true).0

create_lem_example :
    Returns
      (create 1024 (some 500) true (new_registry true))
      λ s. IsRegistry s.1 × Outcome (some 500) true (new_registry true) s
create_lem_example =
    create_lem (new_registry true) first 1024 (some 500) true (omega arith)
      (λ p e q i h. let empty = (new_registry_lem true).1 q in absurd cc)

-- A registry with the object 500.
made :
    Returns
      (create 1024 (some 500) true (new_registry true))
      λ s. IsRegistry s.1 × Outcome (some 500) true (new_registry true) s
made =
    create_lem (new_registry true) first 1024 (some 500) true (omega arith)
      (λ p e q i h. let empty = (new_registry_lem true).1 q in absurd cc)

abbrev one : Registry
one = record {
  next = 0;
  map = record {
    ppv = some ((new_item 0 500 ∷ []) ∷ replicate 1023 []);
    uhashsize = 1024;
    usize = 1;
    released = [];
  };
  deleted = [];
}

run_all : Unit {0}
unfolding create new_item new_registry new get set_value erase locate slot find assign unlink poke
    items del getobjptr setiv getiv setlv
run_all = tt

one_run : create 1024 (some 500) true (new_registry true) ≡ some (some 0, one)
unfolding run_all
one_run = refl

one-IsRegistry : IsRegistry one
one-IsRegistry =
    subst (λ (s : Option ℕ × Registry). IsRegistry s.1)
      (some-injective made.0 (some 0, one) (sym made.1 ∙ one_run)) made.2.0

-- Two handles are made, the first is deleted, and its object with it.
abbrev after : {A : Type 0} → Option (A × Registry) → (Registry → Option ℕ) → Option ℕ
after none f = none
after (some s) f = f s.1

-- A table of two chains.
abbrev small : Registry
small = record { next = 2 ^ 32 - 1; map = new Item true 2; deleted = [] }

numbers :
    after
      (create 3 (some 500) true small)
      (λ r. after (create 3 (some 600) true r) (λ r. some r.next))
    ≡ some 1
unfolding run_all
numbers = refl

second_object :
    after (create 3 (some 500) true small) (λ r.
      after
        (create 3 (some 600) true r)
        (λ r. after (del 0 r) (λ r. elim (getobjptr 1 r) [ none ↦ none | some o ↦ o ])))
    ≡ some 600
unfolding run_all
second_object = refl

no_handle : after (del 5 small) (λ r. some r.map.usize) ≡ some 0
unfolding run_all
no_handle = refl

-- The four high bytes of the union stay.
low_bytes :
    after
      (create 3 (some 500) true small)
      (λ r. after (setlv 0 3 (2 ^ 32 + 9) r) (λ r. after (setiv 0 3 7 r) (λ r. getiv 0 3 r)))
    ≡ some 7
unfolding run_all
low_bytes = refl

del_lem_example : Returns (del 0 one) λ s.
    IsRegistry s.1
    × ((view items one.map 0 ≡ none) × (s ≡ (false, one))
        ⊎ (i : Item) × (s.0 ≡ true) × IsDeleted 0 i one s.1)
del_lem_example = del_lem 0 one one-IsRegistry

setiv_lem_example : Returns (setiv 0 2 7 one) (IsAnswer getiv 0 2 7 one)
setiv_lem_example = setiv_lem 0 2 7 one (omega arith) one-IsRegistry

setlv_lem_example :
    Returns (setlv 0 2 7 one) (IsAnswer getlv 0 2 7 one)
    × Returns (setpv 0 2 7 one) (IsAnswer getpv 0 2 7 one)
setlv_lem_example = setlv_lem 0 2 7 one one-IsRegistry

destroy_registry_example :
    Returns
      (destroy 1025 one)
      λ r'. (r'.deleted ≡ reverse (objects (values one.map)) ++ one.deleted) × (r'.map.usize ≡ 0)
destroy_registry_example = destroy_registry 1025 one one-IsRegistry refl (omega arith) (omega arith)
