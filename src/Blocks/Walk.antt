-- ===== src/Blocks/Walk.antt =====
-- ec_alloctor.h, `blk_alloctor::malloc_`: the walk over the heaps.
use eclib.Common.{
  ℕ, suc, ◌+◌, ◌<◌, ◌≡◌, refl, sym, ap, ◌∙◌, List, [], ◌∷◌, ◌++◌, map, Option, some, ltb, ◌==◌,
  if◌then◌else◌, All, arith, length, length-append, Bool-cases, inl, inr,
}
use mathlib.Core.List.{append_assoc, map-append}
use mathlib.Core.Path.{subst}
use eclib.Memheap.{Memheap}
use eclib.Blocks.{malloc_next, malloc_loop}
use eclib.Memheap.Init.{count}
use eclib.Memheap.Heap.{IsHeap, heap_malloc_lem, heap_malloc-empty}
use eclib.Blocks.Owners.{Live, total, total-append, unused_of, named, held_by, IsLive, IsTaken}

module _ {ℓ κ} {A : Type ℓ} (P : A → Type κ) where
  All-append : (xs ys : List A) → All P xs → All P ys → All P (xs ++ ys)
  All-append [] ys hx hy = hy
  All-append (x ∷ xs) ys hx hy = (hx.0, All-append xs ys hx.1 hy)

module _ (nb : ℕ) (seen ls : List Live) (l : Live) (p : ℕ) (h : Memheap) where
  abbrev taken_live : List ℕ → Live
  taken_live rest = record { heap = h; used = p ∷ l.used; unused = rest }

  module _ (rest : List ℕ) (full : l.unused ≡ p ∷ rest) (same : h.self ≡ l.heap.self)
      (good : IsLive nb (taken_live rest)) (seen_live : All (IsLive nb) seen)
      (ls_live : All (IsLive nb) ls) where
    full_length : length l.unused ≡ suc (length rest)
    full_length = ap length full

    named-same : (q : ℕ) → named q (taken_live rest) ≡ named q l
    named-same q = rw same refl

    held-more :
        (i q : ℕ)
        → held_by i q (taken_live rest)
          ≡ held_by i q l + (if l.heap.self == i then (if p == q then 1 else 0) else 0)
    unfolding count
    held-more i q = rw same (ground arith)

    in_place : IsTaken nb (seen ++ l ∷ ls) (seen ++ taken_live rest ∷ ls) l.heap.self p
    in_place = record {
      live = All-append (IsLive nb) seen (taken_live rest ∷ ls) seen_live (good, ls_live);
      counted =
          omega (arith, length-append seen (l ∷ ls), length-append seen (taken_live rest ∷ ls));
      unused = omega (
        arith,
        full_length,
        total-append unused_of seen (l ∷ ls),
        total-append unused_of seen (taken_live rest ∷ ls),
      );
      names = λ q. omega (
        arith,
        named-same q,
        total-append (named q) seen (l ∷ ls),
        total-append (named q) seen (taken_live rest ∷ ls),
      );
      taken = λ i q. omega (
        arith,
        held-more i q,
        total-append (held_by i q) seen (l ∷ ls),
        total-append (held_by i q) seen (taken_live rest ∷ ls),
      );
    }

    to_front : IsTaken nb (seen ++ l ∷ ls) (taken_live rest ∷ seen ++ ls) l.heap.self p
    to_front = record {
      live = (good, All-append (IsLive nb) seen ls seen_live ls_live);
      counted = omega (arith, length-append seen (l ∷ ls), length-append seen ls);
      unused = omega (
        arith,
        full_length,
        total-append unused_of seen (l ∷ ls),
        total-append unused_of seen ls,
      );
      names = λ q. omega (
        arith,
        named-same q,
        total-append (named q) seen (l ∷ ls),
        total-append (named q) seen ls,
      );
      taken = λ i q. omega (
        arith,
        held-more i q,
        total-append (held_by i q) seen (l ∷ ls),
        total-append (held_by i q) seen ls,
      );
    }

-- What the walk does with the block of a heap, behind the heaps `seen`.
abbrev pub Takes : ℕ → List Live → Option (ℕ × List Memheap) → Type 0
Takes nb before r =
    (p : ℕ) × (id : ℕ) × (after : List Live) × (r ≡ some (p, map Live.heap after))
    × IsTaken nb before after id p

module _ (nb : ℕ) where
  place :
      (seen ls : List Live) (l : Live) (p : ℕ) (h : Memheap) (rest : List ℕ)
      (other : Option (ℕ × List Memheap))
      → l.unused ≡ p ∷ rest
      → h.self ≡ l.heap.self
      → IsLive nb (record { heap = h; used = p ∷ l.used; unused = rest })
      → All (IsLive nb) seen
      → All (IsLive nb) ls
      → Takes nb
          (seen ++ l ∷ ls)
          (malloc_next (map Live.heap seen) (map Live.heap ls) (some p, h) other)
  unfolding malloc_next
  place [] ls l p h rest other full same good v w =
      let l' : Live = record { heap = h; used = p ∷ l.used; unused = rest } in
      (p, l.heap.self, l' ∷ ls, refl, in_place nb [] ls l p h rest full same good v w)
  place (s ∷ seen) ls l p h rest other full same good v w =
      let l' : Live = record { heap = h; used = p ∷ l.used; unused = rest } in
      elim (Bool-cases (ltb 0 h.numfree)) [
        | inl e ↦ (
          p,
          l.heap.self,
          l' ∷ (s ∷ seen) ++ ls,
          rw (e, map-append Live.heap seen ls) refl,
          to_front nb (s ∷ seen) ls l p h rest full same good v w,
        )
        | inr e ↦ (
          p,
          l.heap.self,
          (s ∷ seen) ++ l' ∷ ls,
          rw (e, map-append Live.heap seen (l' ∷ ls)) refl,
          in_place nb (s ∷ seen) ls l p h rest full same good v w,
        )
      ]

  walk_step :
      (seen ls : List Live) (l : Live) (unused : List ℕ)
      → l.unused ≡ unused
      → All (IsLive nb) seen
      → All (IsLive nb) (l ∷ ls)
      → (length unused ≡ 0
          → Takes nb
              ((seen ++ l ∷ []) ++ ls)
              (malloc_loop (map Live.heap (seen ++ l ∷ [])) (map Live.heap ls)))
      → Takes nb (seen ++ l ∷ ls) (malloc_loop (map Live.heap seen) (map Live.heap (l ∷ ls)))
  unfolding malloc_loop
  walk_step seen ls l [] full v w onward =
      let (p, id, after, e, t) = onward refl in
      let none_left =
        heap_malloc-empty l.heap l.used (subst (λ u. IsHeap l.heap l.used u) full w.0.valid) in
      (
        p,
        id,
        after,
        rw (none_left, malloc_next) (rw (sym (map-append Live.heap seen (l ∷ []))) e),
        subst (λ before. IsTaken nb before after id p) (append_assoc seen (l ∷ []) ls) t,
      )
  walk_step seen ls l (p ∷ rest) full v w onward =
      let (h, e, valid, self, numblk) =
        heap_malloc_lem l.heap l.used p rest (subst (λ u. IsHeap l.heap l.used u) full w.0.valid) in
      let good : IsLive nb (record { heap = h; used = p ∷ l.used; unused = rest }) = record {
        valid = valid;
        blocks = numblk ∙ w.0.blocks;
      } in
      rw (e) (
        place seen ls l p h rest
          (malloc_loop (map Live.heap seen ++ l.heap ∷ []) (map Live.heap ls)) full self good v w.1)

  -- The walk finds a block if there is one: the assertion after the loop holds.
  pub malloc_loop_lem :
      (seen ls : List Live)
      → All (IsLive nb) seen
      → All (IsLive nb) ls
      → 0 < total unused_of ls
      → Takes nb (seen ++ ls) (malloc_loop (map Live.heap seen) (map Live.heap ls))
  malloc_loop_lem seen [] v w h = elim h [ ]
  malloc_loop_lem seen (l ∷ ls) v w h = walk_step seen ls l l.unused refl v w (λ e.
      malloc_loop_lem (seen ++ l ∷ []) ls (All-append (IsLive nb) seen (l ∷ []) v (w.0, tt)) w.1
        (omega (arith, h, e)))
