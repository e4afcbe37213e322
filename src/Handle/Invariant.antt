-- ===== src/Handle/Invariant.antt =====
-- ec_handle.h, `handle`: the invariant of the registry.
use eclib.Common.{
  ℕ, ◌-◌, ◌*◌, ◌^◌, ◌≤◌, ◌≡◌, refl, sym, ◌∙◌, ◌⊎◌, inl, inr, length, Option, none, some, arith,
  ◌==◌, Bool, if◌then◌else◌, ==_iff, Bool-cases,
}
use eclib.Map.{IsLawful, HashMap, new}
use eclib.Map.Chain.{find-keyeq}
use eclib.Map.Table.{IsValid, view, values}
use eclib.Map.Clear.{new-IsValid}
use eclib.Handle.{Item, items, Registry, max_handles, new_registry}
use eclib.Handle.Search.{view-find}

pub items-IsLawful : IsLawful items
unfolding items
items-IsLawful = record {
  hasher-keyeq = λ a b v p q.
      let same : a ≡ b = omega (arith, (==_iff a v.key).0 p, (==_iff b v.key).0 q) in rw same refl;
  keyeq_congr = λ a b v w p q.
      let same : a ≡ b = omega (arith, (==_iff a v.key).0 p, (==_iff b v.key).0 q) in rw same refl;
}

-- An item stands under its own number.
pub own_key : (m : HashMap Item) (q : ℕ) (i : Item) → view items m q ≡ some i → i.key ≡ q
unfolding items
own_key m q i h = ground (arith, find-keyeq items q (values m) i (sym (view-find m q) ∙ h))

-- Every number in use is at most 2048, an item has four members, and no two items have the same object.
pub record IsKept (m : HashMap Item) : Type 0 where
  pub small : (q : ℕ) (i : Item) → view items m q ≡ some i → q ≤ 2 * max_handles
  pub members : (q : ℕ) (i : Item) → view items m q ≡ some i → length i.uv ≡ 4
  pub apart :
      (q q' : ℕ) (i i' : Item) (p : ℕ)
      → view items m q ≡ some i
      → view items m q' ≡ some i'
      → i.pcls ≡ some p
      → i'.pcls ≡ some p
      → q ≡ q'

-- The map `m'` reads `o` under `h`, and is as `m` elsewhere.
abbrev pub Reads : ℕ → Option Item → HashMap Item → HashMap Item → Type 0
Reads h o m m' = (q : ℕ) → view items m' q ≡ (if q == h then o else view items m q)

read-cases :
    (h : ℕ) (o : Option Item) (m m' : HashMap Item) (q : ℕ) (i : Item)
    → Reads h o m m'
    → view items m' q ≡ some i
    → (q ≡ h) × (o ≡ some i) ⊎ (view items m q ≡ some i)
read-cases h o m m' q i reads e = elim (Bool-cases (q == h)) [
  | inl d ↦ let here : view items m' q ≡ o = reads q ∙ rw d refl in inl (ground arith, sym here ∙ e)
  | inr d ↦
      let there : view items m' q ≡ view items m q = reads q ∙ rw d refl in inr (sym there ∙ e)
]

-- An item that may stand under `h`: its object is that of no other number.
abbrev pub IsGood : ℕ → Option Item → HashMap Item → Type 0
IsGood h o m =
    (i : Item)
    → o ≡ some i
    → (h ≤ 2 * max_handles)
      × (length i.uv ≡ 4)
      × ((p q : ℕ) (j : Item) → i.pcls ≡ some p → view items m q ≡ some j → j.pcls ≡ some p → q ≡ h)

pub Reads-IsKept :
    (h : ℕ) (o : Option Item) (m m' : HashMap Item)
    → IsKept m
    → Reads h o m m'
    → IsGood h o m
    → IsKept m'
Reads-IsKept h o m m' kept reads good = record {
  small = λ q i e. elim (read-cases h o m m' q i reads e) [
    | inl (same, here) ↦ rw same (good i here).0
    | inr there ↦ kept.small q i there
  ];
  members = λ q i e. elim (read-cases h o m m' q i reads e) [
    | inl (same, here) ↦ (good i here).1
    | inr there ↦ kept.members q i there
  ];
  apart = λ q q' i i' p e e' d d'. elim (read-cases h o m m' q i reads e) [
    | inl (same, here) ↦ elim (read-cases h o m m' q' i' reads e') [
      | inl (same', here') ↦ same ∙ sym same'
      | inr there' ↦ same ∙ sym ((good i here).2 p q' i' d there' d')
    ]
    | inr there ↦ elim (read-cases h o m m' q' i' reads e') [
      | inl (same', here') ↦ (good i' here').2 p q i d' there d ∙ sym same'
      | inr there' ↦ kept.apart q q' i i' p there there' d d'
    ]
  ];
}

pub record IsRegistry (r : Registry) : Type 0 where
  pub valid : IsValid items r.map
  pub bounded : r.map.usize ≤ max_handles
  pub range : (r.next ≡ 2 ^ 32 - 1) ⊎ (r.next ≤ 2 * max_handles)
  pub kept : IsKept r.map

-- The constructor makes a registry without handles, whether or not there is memory for the table.
pub new_registry_lem :
    (got : Bool)
    → IsRegistry (new_registry got) × ((q : ℕ) → view items (new_registry got).map q ≡ none)
unfolding new_registry new
new_registry_lem got =
    let (valid, empty) = new-IsValid items got max_handles (omega arith) in
    (
      record {
        valid = valid;
        bounded = omega arith;
        range = inl refl;
        kept = record {
          small = λ q i h. let e = empty q in cc;
          members = λ q i h. let e = empty q in cc;
          apart = λ q q' i i' p h k e d. let e = empty q in cc;
        };
      },
      empty,
    )
