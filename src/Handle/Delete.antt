-- ===== src/Handle/Delete.antt =====
-- ec_handle.h, `handle::del`.
use eclib.Common.{
  ℕ, ◌+◌, ◌≡◌, refl, ap, ◌∙◌, ◌⊎◌, inl, inr, Bool, true, false, none, some, arith, ◌==◌,
  if◌then◌else◌, Option-cases, Returns,
}
use eclib.Map.{HashMap, erase}
use eclib.Map.Table.{IsValid, view}
use eclib.Map.Write.{get-view}
use eclib.Map.Poke.{poke, poke_lem}
use eclib.Map.Erase.{erase_lem}
use eclib.Handle.{Item, items, Registry, del, delete_object}
use eclib.Handle.Invariant.{IsRegistry, Reads, Reads-IsKept, own_key, items-IsLawful}

keyeq_key : (q : ℕ) (i : Item) → items.keyeq q i ≡ (q == i.key)
unfolding items
keyeq_key q i = refl

-- A write through the pointer of an item, which keeps its number.
pub poke_item :
    (h : ℕ) (old new : Item) (m : HashMap Item)
    → IsValid items m
    → view items m h ≡ some old
    → new.key ≡ old.key
    → Returns
        (poke items h new m)
        λ m'. IsValid items m' × Reads h (some new) m m' × (m'.usize ≡ m.usize)
poke_item h old new m valid present same =
    let own = own_key m h old present in
    let test : items.keyeq h new ≡ true = keyeq_key h new ∙ ground arith in
    let (m', run, poked) = poke_lem items h old new m items-IsLawful valid present test in
    let at : new.key ≡ h = same ∙ own in
    (
      m',
      run,
      (
        poked.valid,
        λ q.
            poked.reads q
            ∙ ap (λ (b : Bool). if b then some new else view items m q)
                (keyeq_key q new ∙ ap (λ (k : ℕ). q == k) at),
        poked.counted,
      ),
    )

-- The item under `h` goes.
erase_item :
    (h : ℕ) (old : Item) (m : HashMap Item)
    → IsValid items m
    → view items m h ≡ some old
    → Returns
        (erase items h m)
        λ s. IsValid items s.1 × Reads h none m s.1 × (s.1.usize + 1 ≡ m.usize)
erase_item h old m valid present =
    let (s, run, done) = erase_lem items h m items-IsLawful valid in
    let own = own_key m h old present in
    (
      s,
      run,
      elim done [
        | inl (gone, same) ↦ absurd (let e = present in cc)
        | inr (i, there, ok, removed, out) ↦
            let at : i.key ≡ h = own_key m h i there in
            (
              removed.valid,
              λ q.
                  removed.reads q
                  ∙ ap (λ (b : Bool). if b then none else view items m q)
                      (keyeq_key q i ∙ ap (λ (k : ℕ). q == k) at),
              removed.counted,
            )
      ],
    )

-- The item is gone with its object, and nothing else has changed.
pub record IsDeleted (h : ℕ) (i : Item) (r r' : Registry) : Type 0 where
  pub there : view items r.map h ≡ some i
  pub reads : Reads h none r.map r'.map
  pub counted : r'.map.usize + 1 ≡ r.map.usize
  pub once : r'.deleted ≡ delete_object i.pcls r.deleted
  pub next : r'.next ≡ r.next

module _ (r : Registry) (registry : IsRegistry r) (h : ℕ) (i : Item)
    (there : view items r.map h ≡ some i) where
  abbrev after : HashMap Item → Registry
  after m = record r { map = m; deleted = delete_object i.pcls r.deleted }

  del_end :
      (m : HashMap Item)
      → IsValid items m
      → Reads h none r.map m
      → m.usize + 1 ≡ r.map.usize
      → IsRegistry (after m) × IsDeleted h i r (after m)
  del_end m valid reads counted = (
    record {
      valid = valid;
      bounded = let most = registry.bounded in omega arith;
      range = registry.range;
      kept = Reads-IsKept h none r.map m registry.kept reads (λ j e. absurd cc);
    },
    record { there = there; reads = reads; counted = counted; once = refl; next = refl },
  )

  del_there : Returns (del h r) λ s. (s.0 ≡ true) × IsRegistry s.1 × IsDeleted h i r s.1
  unfolding del
  del_there = elim (Option-cases i.pcls) [
    | inl e ↦
        let ((ok, m), run, (valid, reads, counted)) = erase_item h i r.map registry.valid there in
        let (kept, done) = del_end m valid reads counted in
        (
          (true, after m),
          rw (get-view items h r.map registry.valid, there, e, run) refl,
          (refl, kept, done),
        )
    | inr (p, e) ↦
        let no_object = record i { pcls = none } in
        let (m1, poked, (valid1, reads1, size1)) =
          poke_item h i no_object r.map registry.valid there refl in
        let here : view items m1 h ≡ some no_object = reads1 h ∙ ground arith in
        let ((ok, m), run, (valid, reads, counted)) = erase_item h no_object m1 valid1 here in
        let both : Reads h none r.map m = λ q. ground (arith, reads q, reads1 q) in
        let (kept, done) = del_end m valid both (counted ∙ size1) in
        (
          (true, after m),
          rw (get-view items h r.map registry.valid, there, e, poked, run) refl,
          (refl, kept, done),
        )
  ]

-- `del` returns and keeps the invariant. For a number in use it answers 0: the number is free then, its
-- object is deleted once, and all other numbers keep their items; else it answers -1 and changes nothing.
pub del_lem :
    (h : ℕ) (r : Registry)
    → IsRegistry r
    → Returns (del h r) λ s.
      IsRegistry s.1
      × ((view items r.map h ≡ none) × (s ≡ (false, r))
          ⊎ (i : Item) × (s.0 ≡ true) × IsDeleted h i r s.1)
unfolding del
del_lem h r registry = elim (Option-cases (view items r.map h)) [
  | inl e ↦
      ((false, r), rw (get-view items h r.map registry.valid, e) refl, (registry, inl (e, refl)))
  | inr (i, e) ↦
      let (s, run, (ok, kept, done)) = del_there r registry h i e in
      (s, run, (kept, inr (i, ok, done)))
]
