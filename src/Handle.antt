-- ===== src/Handle.antt =====
-- ec_handle.h: the class `handle`, a registry of objects under small numbers, on a `hashmap`. An int is a
-- word of 32 bits, so -1 is 2 ^ 32 - 1. An object is its address. The lock is held by every method.
pub mod Search
pub mod Invariant
pub mod Create
pub mod Delete
pub mod Members
pub mod Destroy
mod Examples
use eclib.Common.{
  ℕ, zero, suc, ◌+◌, ◌-◌, ◌*◌, ◌%◌, ◌/◌, ◌^◌, Bool, true, false, ◌&&◌, ◌||◌, not, List, [], ◌∷◌,
  map, get_or, set, replicate, Option, none, some, ltb, leb, ◌==◌, if◌then◌else◌, ◌>>=◌,
}
use eclib.Map.{Traits, HashMap, new, get, set_value, erase, clear}
use eclib.Map.Poke.{poke}
use eclib.Map.Range.{range_for}
use eclib.Map.Cursor.{begin}

abbrev pub max_handles : ℕ
max_handles = 1024

abbrev uv_size : ℕ
uv_size = 4

-- `t_i`: a member of `uv` is a union of 8 bytes.
pub record Item : Type 0 where
  pub key : ℕ
  pub pcls : Option ℕ
  pub uv : List ℕ

-- `deleted` lists the objects that were deleted, the latest first.
pub record Registry : Type 0 where
  pub next : ℕ
  pub map : HashMap Item
  pub deleted : List ℕ

-- `static_cast<size_t>` of an int.
size_of_int : ℕ → ℕ
size_of_int key = if ltb key (2 ^ 31) then key else key + (2 ^ 64 - 2 ^ 32)

-- `hash<int>` and `keq_mapnode`.
pub items : Traits ℕ Item
unfolding size_of_int
items = record {
  hasher = λ k. size_of_int k * 11400714819323198485 % 2 ^ 64;
  keyeq = λ k i. k == i.key;
}

-- `got` says whether there is memory for the table.
pub new_registry : Bool → Registry
new_registry got = record { next = 2 ^ 32 - 1; map = new Item got max_handles; deleted = [] }

-- `a > b` of ints, where `b` is not negative.
above : ℕ → ℕ → Bool
above a b = ltb b a && ltb a (2 ^ 31)

pub nexthv : ℕ → ℕ
unfolding above
nexthv next = let next = (next + 1) % 2 ^ 32 in if above next (2 * max_handles) then 1 else next

-- `while (_map.get(_next)) nexthv();`
pub find_free : ℕ → HashMap Item → ℕ → Option ℕ
find_free zero m next = none
find_free (suc fuel) m next =
    let rest = find_free fuel m (nexthv next) in
    do r ← get items next m; elim r [ none ↦ some next | some i ↦ rest ]

pub new_item : ℕ → ℕ → Item
new_item key object = record { key = key; pcls = some object; uv = replicate uv_size 0 }

-- `object` is the answer of `new value_type()`, and `got` says whether there is memory for a node of
-- the map. The result `none` of the inner type is -1. What `set` returns is not looked at.
pub create : ℕ → Option ℕ → Bool → Registry → Option (Option ℕ × Registry)
unfolding nexthv find_free
create fuel object got r = if leb max_handles r.map.usize then some (none, r) else (do
  next ← find_free fuel r.map (nexthv r.next)
  elim object [
    | none ↦ some (none, record r { next = next })
    | some p ↦ do
      (stored, m) ← set_value items got next (new_item next p) r.map
      some (some next, record r { next = next; map = m })
  ])

pub delete_object : Option ℕ → List ℕ → List ℕ
delete_object none deleted = deleted
delete_object (some p) deleted = p ∷ deleted

-- `true` is the result 0, `false` is -1. The pointer in the node is set to null before the node goes.
pub del : ℕ → Registry → Option (Bool × Registry)
unfolding delete_object
del h r = do
  found ← get items h r.map
  elim found [
    | none ↦ some (false, r)
    | some i ↦ do
      m ← elim i.pcls [ none ↦ some r.map | some p ↦ poke items h (record i { pcls = none }) r.map ]
      (erased, m) ← erase items h m
      some (true, record r { map = m; deleted = delete_object i.pcls r.deleted })
  ]

pub getobjptr : ℕ → Registry → Option (Option ℕ)
getobjptr h r = do found ← get items h r.map; some (elim found [ none ↦ none | some i ↦ i.pcls ])

-- `nindex < 0 || nindex >= EC_HANDLE_UVSIZE`
pub outside : ℕ → Bool
outside nindex = leb (2 ^ 31) nindex || leb uv_size nindex

-- The union at an index. `none` is an index outside, or no item.
pub member : ℕ → Option Item → Option ℕ
unfolding outside
member nindex none = none
member nindex (some i) = if outside nindex then none else some (get_or i.uv nindex 0)

-- A null pointer is 0.
pub getpv : ℕ → ℕ → Registry → Option ℕ
unfolding member
getpv h nindex r = do
  found ← get items h r.map
  some (elim (member nindex found) [ none ↦ 0 | some w ↦ w ])

-- The four low bytes of the union.
pub getiv : ℕ → ℕ → Registry → Option ℕ
unfolding member
getiv h nindex r = do
  found ← get items h r.map
  some (elim (member nindex found) [ none ↦ 0 | some w ↦ w % 2 ^ 32 ])

pub getlv : ℕ → ℕ → Registry → Option ℕ
unfolding member
getlv h nindex r = do
  found ← get items h r.map
  some (elim (member nindex found) [ none ↦ 0 | some w ↦ w ])

-- The assignment `p->uv[nindex].pv = v`, where `write` says what it makes of the union.
set_member : (ℕ → ℕ) → ℕ → ℕ → Registry → Option (Bool × Registry)
unfolding outside
set_member write h nindex r = do
  found ← get items h r.map
  elim found [
    | none ↦ some (false, r)
    | some i ↦ if outside nindex then some (false, r) else (do
      m ← poke items h (record i { uv = set i.uv nindex (write (get_or i.uv nindex 0)) }) r.map
      some (true, record r { map = m }))
  ]

pub setpv : ℕ → ℕ → ℕ → Registry → Option (Bool × Registry)
unfolding set_member
setpv h nindex v = set_member (λ w. v) h nindex

-- The four high bytes of the union stay.
pub setiv : ℕ → ℕ → ℕ → Registry → Option (Bool × Registry)
unfolding set_member
setiv h nindex v = set_member (λ w. w - w % 2 ^ 32 + v) h nindex

pub setlv : ℕ → ℕ → ℕ → Registry → Option (Bool × Registry)
unfolding set_member
setlv h nindex v = set_member (λ w. v) h nindex

-- The destructor deletes the objects on its way over the map.
delete_all : List Item → List ℕ → List ℕ
unfolding delete_object
delete_all [] deleted = deleted
delete_all (i ∷ is) deleted = delete_all is (delete_object i.pcls deleted)

null_objects : HashMap Item → HashMap Item
null_objects m = elim m.ppv [
  | none ↦ m
  | some bs ↦ record m { ppv = some (map (map {A = Item} (λ i. record i { pcls = none })) bs) }
]

-- The loop of the destructor, which sets each pointer to null, and the call of `clear`.
pub destroy : ℕ → Registry → Option Registry
unfolding delete_all null_objects
destroy fuel r = do
  is ← range_for fuel r.map (begin r.map)
  some (record r { map = clear (null_objects r.map); deleted = delete_all is r.deleted })
