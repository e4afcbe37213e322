-- ===== src/Map/Move.antt =====
-- ec_map.h, `hashmap`: the destructor and the move assignment.
use eclib.Common.{◌≡◌, refl, sym, ap, ◌∙◌, none, List, ◌++◌, Option-cases, inl, inr}
use mathlib.Core.List.{reverse}
use eclib.Map.{Traits, HashMap, clear, destroy, move}
use eclib.Map.Table.{IsValid, view, values, values_table}
use eclib.Map.Clear.{clear_lem}

module _ {ℓ} {K V : Type ℓ} (t : Traits K V) where
  -- Neither the invariant nor the view looks at the values that were released.
  released-IsValid :
      (m : HashMap V) (out : List V) → IsValid t m → IsValid t (record m { released = out })
  released-IsValid m out (IsValid.no_table _ e z) = IsValid.no_table _ e z
  released-IsValid m out (IsValid.table _ bs e p size) = IsValid.table _ bs e p size

  clear-released :
      (m : HashMap V) → IsValid t m → (clear m).released ≡ reverse (values m) ++ m.released
  clear-released m valid = elim (Option-cases m.ppv) [
    | inl e ↦ unfold clear in rw e refl
    | inr (bs, e) ↦
        (clear_lem t m valid).3 bs e
        ∙ ap (λ (l : List V). reverse l ++ m.released) (sym (values_table m bs e))
  ]

  -- A map that is assigned another one releases its own values once and reads as the other one did; the
  -- other one has no table and holds nothing. Both are valid.
  pub move_lem :
      (m v : HashMap V)
      → IsValid t m
      → IsValid t v
      → IsValid t (move m v).0
        × IsValid t (move m v).1
        × ((q : K) → view t (move m v).0 q ≡ view t v q)
        × ((q : K) → view t (move m v).1 q ≡ none)
        × ((move m v).0.released ≡ reverse (values m) ++ m.released)
  unfolding move destroy view
  move_lem m v mine theirs = (
    released-IsValid v (clear m).released theirs,
    IsValid.no_table _ refl refl,
    λ q. refl,
    λ q. refl,
    clear-released m mine,
  )
