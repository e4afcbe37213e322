-- ===== src/Handle/Create.antt =====
-- ec_handle.h, `handle::create`.
use eclib.Common.{
  ℕ, suc, ◌-◌, ◌*◌, ◌^◌, ◌≤◌, ◌<◌, ◌≡◌, ◌≢◌, refl, sym, ap, ◌∙◌, ◌⊎◌, inl, inr, Bool, true, false,
  Option, none, some, arith, leb, ◌==◌, if◌then◌else◌, Option-cases, Bool-cases, Returns,
}
use mathlib.Core.Path.{subst}
use mathlib.Core.Option.{some-injective}
use eclib.Map.{HashMap, set_value}
use eclib.Map.Table.{view}
use eclib.Map.Write.{set_value_lem}
use eclib.Handle.{Item, items, Registry, max_handles, nexthv, new_item, create}
use eclib.Handle.Search.{nexthv_lem, find_free_enough}
use eclib.Handle.Invariant.{IsRegistry, IsGood, Reads, Reads-IsKept, items-IsLawful}

nexthv_first :
    (next : ℕ) → (next ≡ 2 ^ 32 - 1) ⊎ (next ≤ 2 * max_handles) → nexthv next ≤ 2 * max_handles
unfolding nexthv
nexthv_first next (inl e) = rw e (omega arith)
nexthv_first next (inr h) = ground (arith, nexthv_lem next h)

-- The object of a new item is not one of those in the registry.
abbrev pub IsFresh : ℕ → HashMap Item → Type 0
IsFresh p m = (q : ℕ) (i : Item) → view items m q ≡ some i → i.pcls ≢ some p

-- The object `p` is in the registry under `h`, which was free.
pub record IsCreated (h p : ℕ) (m m' : HashMap Item) : Type 0 where
  pub small : h ≤ 2 * max_handles
  pub free : view items m h ≡ none
  pub reads : Reads h (some (new_item h p)) m m'
  pub counted : m'.usize ≡ suc m.usize

-- What `create` does on each of its branches. Without a node for the map the handle is returned all the
-- same, and the registry has not got it.
pub data Outcome (object : Option ℕ) (got : Bool) (r : Registry)
    : Option ℕ × Registry → Type 0 where
  full : max_handles ≤ r.map.usize → Outcome object got r (none, r)
  no_object : (next : ℕ) → object ≡ none → Outcome object got r (none, record r { next = next })
  created :
      (h p : ℕ) (m' : HashMap Item)
      → object ≡ some p
      → IsCreated h p r.map m'
      → Outcome object got r (some h, record r { next = h; map = m' })
  lost :
      (h p : ℕ)
      → object ≡ some p
      → (got ≡ false) ⊎ (r.map.ppv ≡ none)
      → view items r.map h ≡ none
      → Outcome object got r (some h, record r { next = h })

keyeq_test : (q h p : ℕ) → items.keyeq q (new_item h p) ≡ (q == h)
unfolding items new_item
keyeq_test q h p = refl

keyeq-new_item : (h p : ℕ) → items.keyeq h (new_item h p) ≡ true
unfolding items new_item
keyeq-new_item h p = ground arith

module _ (r : Registry) (registry : IsRegistry r) where
  moved-IsRegistry : (next : ℕ) → next ≤ 2 * max_handles → IsRegistry (record r { next = next })
  moved-IsRegistry next small = record {
    valid = registry.valid;
    bounded = registry.bounded;
    range = inr small;
    kept = registry.kept;
  }

  new_item-IsGood :
      (h p : ℕ) → h ≤ 2 * max_handles → IsFresh p r.map → IsGood h (some (new_item h p)) r.map
  unfolding new_item
  new_item-IsGood h p small fresh i e =
      let same : new_item h p ≡ i = some-injective (new_item h p) i e in
      rw (← same) (small, refl, λ p' q j d v c. absurd (fresh q j v (c ∙ sym d)))

  create_stored :
      (got : Bool) (h p : ℕ)
      → r.map.usize < max_handles
      → h ≤ 2 * max_handles
      → view items r.map h ≡ none
      → IsFresh p r.map
      → Returns (set_value items got h (new_item h p) r.map) λ s.
        IsRegistry (record r { next = h; map = s.1 })
        × Outcome (some p) got r (some h, record r { next = h; map = s.1 })
  create_stored got h p few small free fresh =
      let (s, run, done) =
        set_value_lem items got h (new_item h p) r.map items-IsLawful registry.valid
          (keyeq-new_item h p) in
      (
        s,
        run,
        elim done [
          | inl stored ↦
              let reads : Reads h (some (new_item h p)) r.map s.1 = λ q.
                stored.reads q
                ∙ ap (λ (b : Bool). if b then some (new_item h p) else view items r.map q)
                    (keyeq_test q h p) in
              let new : s.1.usize ≡ suc r.map.usize = stored.counted ∙ rw free (omega arith) in
              (
                record {
                  valid = stored.valid;
                  bounded = omega (arith, new);
                  range = inr small;
                  kept =
                      Reads-IsKept h (some (new_item h p)) r.map s.1 registry.kept reads
                        (new_item-IsGood h p small fresh);
                },
                created h p s.1 refl
                    (record { small = small; free = free; reads = reads; counted = new }),
              )
          | inr kept ↦
              let same : s.1 ≡ r.map = ap (λ (x : Bool × HashMap Item). x.1) kept.0 in
              let why = elim kept.1 as (λ x. (got ≡ false) ⊎ (r.map.ppv ≡ none)) [
                | inl e ↦ inr e
                | inr e ↦ inl e.1
              ] in
              subst
                (λ (m : HashMap Item).
                  IsRegistry (record r { next = h; map = m })
                  × Outcome (some p) got r (some h, record r { next = h; map = m }))
                (sym same) (moved-IsRegistry h small, lost h p refl why free)
        ],
      )

  -- With fuel for 1024 rounds, and an object that is not in the registry yet, `create` returns and keeps
  -- the invariant. It answers -1 when 1024 handles are in use, changing nothing, or when there is no object;
  -- else a number that was free, under which the object then stands, and nothing else is changed; or, when
  -- there is no memory for the node or no table, a number under which nothing stands.
  pub create_lem :
      (fuel : ℕ) (object : Option ℕ) (got : Bool)
      → max_handles ≤ fuel
      → ((p : ℕ) → object ≡ some p → IsFresh p r.map)
      → Returns (create fuel object got r) λ s. IsRegistry s.1 × Outcome object got r s
  unfolding create
  create_lem fuel object got enough fresh = elim (Bool-cases (leb max_handles r.map.usize)) [
    | inl e ↦ ((none, r), rw e refl, (registry, full (ground arith)))
    | inr e ↦
        let (h, run, (free, small)) =
          find_free_enough fuel r.map (nexthv r.next) registry.valid (ground arith)
            (nexthv_first r.next registry.range) enough in
        elim (Option-cases object) [
          | inl d ↦ (
            (none, record r { next = h }),
            rw (e, run, d) refl,
            (moved-IsRegistry h small, no_object h d),
          )
          | inr (p, d) ↦
              let ((stored, m), set_run, (kept, done)) =
                create_stored got h p (ground arith) small free (fresh p d) in
              (
                (some h, record r { next = h; map = m }),
                rw (e, run, d, set_run) refl,
                (kept, rw d done),
              )
        ]
  ]
