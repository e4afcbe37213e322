-- ===== src/Handle/Members.antt =====
-- ec_handle.h, `handle`: the user data of an item, read and written through its number.
use eclib.Common.{
  ℕ, ◌+◌, ◌-◌, ◌%◌, ◌^◌, ◌<◌, ◌≡◌, ◌≢◌, refl, ap, ◌∙◌, ◌⊎◌, inl, inr, Bool, true, false, ◌&&◌,
  length, set, get_or, Option, none, some, arith, ◌==◌, if◌then◌else◌, ◌>>=◌, Option-cases,
  Bool-cases, Returns, length-set, get_or-set_self, get_or-set_ne,
}
use eclib.Map.{get}
use eclib.Map.Table.{view}
use eclib.Map.Write.{get-view}
use eclib.Handle.{
  Item, items, Registry, outside, member, set_member, setpv, setiv, setlv, getpv, getiv, getlv,
}
use eclib.Handle.Invariant.{IsRegistry, IsGood, Reads-IsKept}
use eclib.Handle.Delete.{poke_item}
use mathlib.Core.Option.{some-injective}

-- The common shape of the getters: `read` is what they make of the union.
abbrev seen : (ℕ → ℕ) → Option ℕ → ℕ
seen read none = 0
seen read (some w) = read w

abbrev get_member : (ℕ → ℕ) → ℕ → ℕ → Registry → Option ℕ
get_member read h nindex r = do found ← get items h r.map; some (seen read (member nindex found))

abbrev written : ℕ → ℕ → Item → Item
written nindex w i = record i { uv = set i.uv nindex w }

member-written :
    (k n w : ℕ) (i : Item)
    → length i.uv ≡ 4
    → outside n ≡ false
    → member k (some (written n w i)) ≡ (if k == n then some w else member k (some i))
unfolding member outside
member-written k n w i four inside = elim (Bool-cases (k == n)) [
  | inl e ↦
      let same : k ≡ n = ground arith in
      rw (e, same, inside, get_or-set_self i.uv n w 0 (ground arith)) refl
  | inr e ↦ rw (e, get_or-set_ne i.uv n k w 0 (ground arith)) refl
]

-- After a write of `v` to a member: the getter reads it there, and all other members of all items are as
-- they were.
pub record IsMemberSet (getter : ℕ → ℕ → Registry → Option ℕ) (h n v : ℕ) (r r' : Registry)
    : Type 0 where
  pub kept : IsRegistry r'
  pub same_next : r'.next ≡ r.next
  pub same_deleted : r'.deleted ≡ r.deleted
  pub reads : (q k : ℕ) → getter q k r' ≡ (if (q == h) && (k == n) then some v else getter q k r)

module _ (read write : ℕ → ℕ) (v : ℕ) (back : (w : ℕ) → read (write w) ≡ v) (h n : ℕ) (r : Registry)
    (registry : IsRegistry r) where
  written-IsGood :
      (i : Item) (w : ℕ) → view items r.map h ≡ some i → IsGood h (some (written n w i)) r.map
  written-IsGood i w there j e =
      let same : written n w i ≡ j = some-injective (written n w i) j e in
      rw (← same) (
        registry.kept.small h i there,
        length-set i.uv n w ∙ registry.kept.members h i there,
        λ p q k d there' d'. registry.kept.apart q h k i p there' there d' d,
      )

  get_at :
      (r : Registry) (q k : ℕ)
      → IsRegistry r
      → get_member read q k r ≡ some (seen read (member k (view items r.map q)))
  get_at r q k registry = rw (get-view items q r.map registry.valid) refl

  set_there :
      (i : Item)
      → view items r.map h ≡ some i
      → outside n ≡ false
      → Returns
          (set_member write h n r)
          λ s. (s.0 ≡ true) × IsMemberSet (get_member read) h n v r s.1
  unfolding set_member
  set_there i there inside =
      let w = write (get_or i.uv n 0) in
      let (m, run, (valid, reads, size)) =
        poke_item h i (written n w i) r.map registry.valid there refl in
      let r' : Registry = record r { map = m } in
      let kept : IsRegistry r' = record {
        valid = valid;
        bounded = let most = registry.bounded in omega (arith, size);
        range = registry.range;
        kept =
            Reads-IsKept h (some (written n w i)) r.map m registry.kept reads
              (written-IsGood i w there);
      } in
      (
        (true, r'),
        rw (get-view items h r.map registry.valid, there, inside, run) refl,
        (
          refl,
          record {
            kept = kept;
            same_next = refl;
            same_deleted = refl;
            reads = λ q k.
                rw (get_at r' q k kept, get_at r q k registry, reads q)
                  (elim (Bool-cases (q == h)) [
                    | inl e ↦
                        let same : q ≡ h = ground arith in
                        let four = registry.kept.members h i there in
                        let here : view items r.map q ≡ some i = rw same there in
                        rw (e, here, member-written k n w i four inside)
                          (elim (Bool-cases (k == n)) [
                            | inl d ↦ rw d (ap some (back (get_or i.uv n 0)))
                            | inr d ↦ rw d refl
                          ])
                    | inr e ↦ rw e refl
                  ]);
          },
        ),
      )

  -- `set_member` on each of its branches.
  set_member_lem : Returns (set_member write h n r) λ s.
      (s ≡ (false, r)) × ((view items r.map h ≡ none) ⊎ (outside n ≡ true))
      ⊎ (s.0 ≡ true)
        × (view items r.map h ≢ none)
        × (outside n ≡ false)
        × IsMemberSet (get_member read) h n v r s.1
  unfolding set_member
  set_member_lem = elim (Option-cases (view items r.map h)) [
    | inl e ↦ ((false, r), rw (get-view items h r.map registry.valid, e) refl, inl (refl, inl e))
    | inr (i, e) ↦ elim (Bool-cases (outside n)) [
      | inl d ↦
          ((false, r), rw (get-view items h r.map registry.valid, e, d) refl, inl (refl, inr d))
      | inr d ↦
          let (s, run, (ok, done)) = set_there i e d in
          (s, run, inr (ok, λ gone. absurd cc, d, done))
    ]
  ]

-- A setter answers false and changes nothing where the handle is not in use or the index is outside; else
-- it answers true, and the getter finds the value at that place.
abbrev pub IsAnswer :
    (ℕ → ℕ → Registry → Option ℕ) → ℕ → ℕ → ℕ → Registry → Bool × Registry → Type 0
IsAnswer getter h n v r s =
    (s ≡ (false, r)) × ((view items r.map h ≡ none) ⊎ (outside n ≡ true))
    ⊎ (s.0 ≡ true)
      × (view items r.map h ≢ none)
      × (outside n ≡ false)
      × IsMemberSet getter h n v r s.1

-- `setlv` and `setpv` return, and `getlv` and `getpv` then find the value at the member that was written,
-- and what they found before at all others.
pub setlv_lem :
    (h n v : ℕ) (r : Registry)
    → IsRegistry r
    → Returns (setlv h n v r) (IsAnswer getlv h n v r)
      × Returns (setpv h n v r) (IsAnswer getpv h n v r)
unfolding setlv setpv getlv getpv
setlv_lem h n v r registry =
    let done = set_member_lem (λ w. w) (λ w. v) v (λ w. refl) h n r registry in (done, done)

-- `setiv` of an int returns, and `getiv` then finds the int at the member that was written, and what it
-- found before at all others.
pub setiv_lem :
    (h n v : ℕ) (r : Registry)
    → v < 2 ^ 32
    → IsRegistry r
    → Returns (setiv h n v r) (IsAnswer getiv h n v r)
unfolding setiv getiv
setiv_lem h n v r small registry =
    set_member_lem (λ w. w % 2 ^ 32) (λ w. w - w % 2 ^ 32 + v) v (λ w. omega arith) h n r registry
