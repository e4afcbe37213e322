-- ===== src/ParseBuffer/Bytes.antt =====
-- ec_memory.h, `parsebuffer`: the bytes that it holds.
use eclib.Common.{
  ℕ, zero, suc, ◌+◌, ◌-◌, ◌/◌, ◌≤◌, ◌<◌, ◌≡◌, refl, sym, ap, ◌∙◌, Bool, true, false, List, [], ◌∷◌,
  ◌++◌, length, take, drop, Option, none, some, leb, ◌==◌, arith, length-append, length-take,
  length-drop, take-append_length, drop-drop, drop-append_within, drop-all, Bool-cases, inl, inr,
}
use mathlib.Core.List.{append_assoc}
use eclib.Stream.{patch}
use eclib.Stream.Patch.{patch-IsPatched}
use eclib.ParseBuffer.{ParseBuffer, append, append_to, start, renew, freehead, free_up_to}

-- What stands from `_head` to `_tail`.
abbrev held_in : Option (List ℕ) → ℕ → ℕ → List ℕ
held_in none head tail = []
held_in (some old) head tail = drop head (take tail old)

abbrev pub held : ParseBuffer → List ℕ
held b = held_in b.pbuf b.head b.tail

abbrev Fits : Option (List ℕ) → ParseBuffer → Type 0
Fits none b = Unit {0}
Fits (some old) b = (b.head ≤ b.tail) × (b.tail ≤ b.bufsize) × (b.bufsize ≡ length old)

abbrev pub IsBuffer : ParseBuffer → Type 0
IsBuffer b = Fits b.pbuf b

-- The block is as large as `append` wants it, one and a half times the bytes.
abbrev pub IsLarge : List ℕ → List ℕ → ParseBuffer → Type 0
IsLarge block bytes b =
    length (held b) + length bytes + (length (held b) + length bytes) / 2 ≤ length block

take-back : (xs ys zs : List ℕ) → take (length xs + length ys) (xs ++ (ys ++ zs)) ≡ xs ++ ys
take-back xs ys zs =
    let size : length xs + length ys ≡ length (xs ++ ys) = sym (length-append xs ys) in
    rw (size, sym (append_assoc xs ys zs)) (take-append_length (xs ++ ys) zs)

take-empty : (n : ℕ) → take {A = ℕ} n [] ≡ []
take-empty zero = refl
take-empty (suc n) = refl

take-drop : (h t : ℕ) (xs : List ℕ) → h ≤ t → take (t - h) (drop h xs) ≡ drop h (take t xs)
take-drop zero t xs le = let same : t - 0 ≡ t = omega arith in rw same refl
take-drop (suc h) zero xs le = elim le [ ]
take-drop (suc h) (suc t) [] le =
    let same : suc t - suc h ≡ t - h = omega arith in rw same (take-empty (t - h))
take-drop (suc h) (suc t) (x ∷ xs) le =
    let same : suc t - suc h ≡ t - h = omega arith in rw same (take-drop h t xs (omega arith))

-- The result of an `append` that went well.
abbrev pub IsAppended : List ℕ → ParseBuffer → Bool × ParseBuffer → Type 0
IsAppended bytes b r = (r.0 ≡ true) × IsBuffer r.1 × (held r.1 ≡ held b ++ bytes)

module _ (block bytes : List ℕ) (some_byte : 0 < length bytes) where
  full : (length bytes == 0) ≡ false
  full = ground arith

  append_first :
      (b : ParseBuffer)
      → length bytes ≤ length block
      → IsAppended bytes
          (record b { pbuf = none })
          (append (some block) bytes (record b { pbuf = none }))
  unfolding append append_to start
  append_first b wide = rw full (
    refl,
    (
      omega arith,
      wide,
      omega (
        arith,
        length-append bytes (drop (length bytes) block),
        length-drop (length bytes) block,
      ),
    ),
    take-append_length bytes (drop (length bytes) block),
  )

  append_behind :
      (b : ParseBuffer) (old : List ℕ)
      → IsBuffer (record b { pbuf = some old })
      → IsLarge block bytes (record b { pbuf = some old })
      → IsAppended bytes
          (record b { pbuf = some old })
          (append (some block) bytes (record b { pbuf = some old }))
  unfolding append append_to renew
  append_behind b old (order, inside, whole) wide =
      let n = length bytes in
      let front : length (take b.tail old) ≡ b.tail = omega (arith, length-take b.tail old) in
      let kept : length (drop b.head (take b.tail old)) ≡ b.tail - b.head =
        omega (arith, length-drop b.head (take b.tail old), front) in
      elim (Bool-cases (leb (b.tail + n) b.bufsize)) [
        | inl e ↦
            let change = patch-IsPatched old b.tail bytes (ground arith) in
            let cut : take (b.tail + n) (patch old b.tail bytes) ≡ take b.tail old ++ bytes =
              rw front at (take-back (take b.tail old) bytes (drop (b.tail + n) old)) in
            rw (full, e)
              (
                refl,
                (omega arith, ground arith, omega (arith, change.same_length)),
                ap (drop b.head) cut
                    ∙ drop-append_within b.head (take b.tail old) bytes (omega (arith, front)),
              )
        | inr e ↦
            let rest = drop (b.tail - b.head + n) block in
            let moved = take-drop b.head b.tail old order in
            let cut : take (b.tail - b.head + n) (drop b.head (take b.tail old) ++ (bytes ++ rest))
                ≡ drop b.head (take b.tail old) ++ bytes =
              rw kept at (take-back (drop b.head (take b.tail old)) bytes rest) in
            let size : length (drop b.head (take b.tail old) ++ (bytes ++ rest)) ≡ length block =
              omega (
                arith,
                length-append (drop b.head (take b.tail old)) (bytes ++ rest),
                length-append bytes rest,
                length-drop (b.tail - b.head + n) block,
                kept,
              ) in
            rw (full, e, moved) (refl, (omega arith, omega (arith, kept), sym size), cut)
      ]

append_at :
    (p : Option (List ℕ)) (block bytes : List ℕ) (b : ParseBuffer)
    → 0 < length bytes
    → IsBuffer (record b { pbuf = p })
    → IsLarge block bytes (record b { pbuf = p })
    → IsAppended bytes (record b { pbuf = p }) (append (some block) bytes (record b { pbuf = p }))
append_at none block bytes b some_byte valid wide =
    append_first block bytes some_byte b (omega arith)
append_at (some old) block bytes b some_byte valid wide =
    append_behind block bytes some_byte b old valid wide

-- With memory for one and a half times the bytes `append` returns 0 and puts the new bytes behind those
-- that the buffer holds, whether it needs a first block, has room, or moves to a larger block.
pub append_lem :
    (block bytes : List ℕ) (b : ParseBuffer)
    → 0 < length bytes
    → IsBuffer b
    → IsLarge block bytes b
    → IsAppended bytes b (append (some block) bytes b)
append_lem block bytes b = append_at b.pbuf block bytes b

freehead_at :
    (p : Option (List ℕ)) (size : ℕ) (b : ParseBuffer)
    → IsBuffer (record b { pbuf = p })
    → IsBuffer (freehead size (record b { pbuf = p }))
      × (held (freehead size (record b { pbuf = p })) ≡ drop size (held (record b { pbuf = p })))
unfolding freehead free_up_to
freehead_at none size b valid = (valid, sym (drop-all size [] (omega arith)))
freehead_at (some old) size b (order, inside, whole) =
    let n = length-drop b.head (take b.tail old) in
    let front = length-take b.tail old in
    elim (Bool-cases (leb b.tail (b.head + size))) [
      | inl e ↦
          rw e (tt, sym (drop-all size (drop b.head (take b.tail old)) (ground (arith, n, front))))
      | inr e ↦ rw e ((ground arith, inside, whole), drop-drop b.head size (take b.tail old))
    ]

-- `freehead` takes the given number of bytes off the front, and all of them if there are fewer.
pub freehead_lem :
    (size : ℕ) (b : ParseBuffer)
    → IsBuffer b
    → IsBuffer (freehead size b) × (held (freehead size b) ≡ drop size (held b))
freehead_lem size b = freehead_at b.pbuf size b
