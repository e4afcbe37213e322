-- ===== src/ParseBuffer/Access/Written.antt =====
-- ec_memory.h, `parsebuffer`: what a write changes in the bytes that are held.
use eclib.Common.{
  ℕ, zero, suc, ◌+◌, ◌-◌, ◌≤◌, ◌<◌, ◌≡◌, refl, sym, ap, ◌∙◌, true, false, List, [], ◌∷◌, ◌++◌,
  length, take, drop, Option, none, some, ltb, leb, ◌==◌, arith, length-take, length-drop, drop-all,
  Bool-cases, take-append-drop, inl, inr,
}
use mathlib.Core.List.{append_assoc, append-nil}
use eclib.Stream.{patch}
use eclib.Stream.Patch.{patch-IsPatched}
use eclib.ParseBuffer.{ParseBuffer, append, append_to, renew}
use eclib.ParseBuffer.Bytes.{held, IsBuffer, IsLarge, append_lem}
use eclib.ParseBuffer.Access.{done, copy_in, moved, grown, write}

take-patch_front :
    (t : ℕ) (old bs : List ℕ)
    → length bs ≤ t
    → t ≤ length old
    → take t (bs ++ drop (length bs) old) ≡ bs ++ drop (length bs) (take t old)
take-patch_front t old [] h k = refl
take-patch_front zero old (b ∷ bs) h k = absurd (omega arith)
take-patch_front (suc t) [] (b ∷ bs) h k = absurd (omega arith)
take-patch_front (suc t) (x ∷ xs) (b ∷ bs) h k =
    ap (λ (l : List ℕ). b ∷ l) (take-patch_front t xs bs (omega arith) (omega arith))

take-patch :
    (p t : ℕ) (old bs : List ℕ)
    → p + length bs ≤ t
    → t ≤ length old
    → take t (patch old p bs) ≡ patch (take t old) p bs
take-patch zero t old bs h k =
    let same : 0 + length bs ≡ length bs = omega arith in
    rw same (take-patch_front t old bs (omega arith) k)
take-patch (suc p) zero old bs h k = absurd (omega arith)
take-patch (suc p) (suc t) [] bs h k = absurd (omega arith)
take-patch (suc p) (suc t) (x ∷ xs) bs h k =
    let same : suc p + length bs ≡ suc (p + length bs) = omega arith in
    rw same (ap (λ (l : List ℕ). x ∷ l) (take-patch p t xs bs (omega arith) (omega arith)))

drop-patch :
    (h p : ℕ) (old bs : List ℕ)
    → h ≤ length old
    → drop h (patch old (h + p) bs) ≡ patch (drop h old) p bs
drop-patch zero p old bs k = let same : 0 + p ≡ p = omega arith in rw same refl
drop-patch (suc h) p [] bs k = absurd (omega arith)
drop-patch (suc h) p (x ∷ xs) bs k =
    let same : suc h + p ≡ suc (h + p) = omega arith in
    let next : suc (h + p) + length bs ≡ suc (h + p + length bs) = omega arith in
    rw (same, next) (drop-patch h p xs bs (omega arith))

-- In the bytes that the buffer holds, `bytes` stand at `pos`, and the position is behind them.
pub record IsWritten (bytes : List ℕ) (b after : ParseBuffer) : Type 0 where
  pub valid : IsBuffer after
  pub holds : held after ≡ patch (held b) b.pos bytes
  pub moved_to : after.pos ≡ b.pos + length bytes

-- Bytes that reach past the end, in two parts.
patch-take :
    (p z : ℕ) (old bs : List ℕ)
    → length old ≡ p + z
    → z < length bs
    → patch old p (take z bs) ++ drop z bs ≡ patch old p bs
patch-take p z old bs h k =
    let size = length-take z bs in
    let front : drop (p + length (take z bs)) old ≡ [] =
      drop-all (p + length (take z bs)) old (omega (arith, size)) in
    let all : drop (p + length bs) old ≡ [] = drop-all (p + length bs) old (omega arith) in
    rw (front, all)
      (append_assoc (take p old) (take z bs ++ []) (drop z bs)
        ∙ ap (λ (l : List ℕ). take p old ++ l)
            (append_assoc (take z bs) [] (drop z bs) ∙ take-append-drop z bs ∙ sym (append-nil bs)))

-- A buffer that has a block.
abbrev pub with_block : List ℕ → ParseBuffer → ParseBuffer
with_block old b = record b { pbuf = some old }

append-pos :
    (block old bytes : List ℕ) (b : ParseBuffer)
    → (append (some block) bytes (with_block old b)).1.pos ≡ b.pos
unfolding append append_to renew
append-pos block old bytes b = elim (Bool-cases (length bytes == 0)) [
  | inl e ↦ rw e refl
  | inr e ↦ elim (Bool-cases (leb (b.tail + length bytes) b.bufsize)) [
    | inl f ↦ rw (e, f) refl
    | inr f ↦ rw (e, f) refl
  ]
]

set-IsBuffer :
    (p : Option (List ℕ)) (b : ParseBuffer) (pos : ℕ)
    → IsBuffer (record b { pbuf = p })
    → IsBuffer (record b { pbuf = p; pos = pos })
set-IsBuffer none b pos valid = valid
set-IsBuffer (some old) b pos valid = valid

length-held :
    (old : List ℕ) (b : ParseBuffer)
    → IsBuffer (with_block old b)
    → length (held (with_block old b)) ≡ b.tail - b.head
length-held old b (order, inside, whole) =
    omega (arith, length-drop b.head (take b.tail old), length-take b.tail old)

module _ (old : List ℕ) (b : ParseBuffer) (valid : IsBuffer (with_block old b)) where
  abbrev stored : List ℕ → ParseBuffer
  stored bytes = with_block (patch old (b.head + b.pos) bytes) b

  -- A copy inside the bytes that are held.
  copy_in_lem :
      (bytes : List ℕ)
      → b.head + b.pos + length bytes ≤ b.tail
      → (copy_in (some old) bytes (with_block old b) ≡ done (stored bytes))
        × IsBuffer (stored bytes)
        × (held (stored bytes) ≡ patch (held (with_block old b)) b.pos bytes)
  unfolding copy_in
  copy_in_lem bytes room =
      let (order, inside, whole) = valid in
      let test : leb (b.head + b.pos + length bytes) (length old) ≡ true = ground arith in
      let size = (patch-IsPatched old (b.head + b.pos) bytes (omega arith)).same_length in
      let front = length-take b.tail old in
      (
        rw test refl,
        (order, inside, omega (arith, size)),
        ap (drop b.head) (take-patch (b.head + b.pos) b.tail old bytes room (omega arith))
            ∙ drop-patch b.head b.pos (take b.tail old) bytes (omega (arith, front)),
      )

-- `write` of a buffer with a block at a position inside the bytes that it holds, or at their end,
-- replaces the bytes from there on and appends what reaches past the end, given a block for one and a
-- half times all bytes.
pub write_lem :
    (block old bytes : List ℕ) (b : ParseBuffer)
    → IsBuffer (with_block old b)
    → b.head + b.pos ≤ b.tail
    → IsLarge block bytes (with_block old b)
    → (after : ParseBuffer) × (write (some block) bytes (with_block old b) ≡ done after)
      × IsWritten bytes (with_block old b) after
unfolding write moved grown
write_lem block old bytes b valid at wide =
    let size = length bytes in
    let zcp = b.tail - b.head - b.pos in
    elim (Bool-cases (leb (b.head + b.pos + size) b.tail)) [
      | inl e ↦
          let (copied, keeps, holds) = copy_in_lem old b valid bytes (ground arith) in
          (
            record (stored old b valid bytes) { pos = b.pos + size },
            rw (e, copied) refl,
            record { valid = keeps; holds = holds; moved_to = refl },
          )
      | inr e ↦
          let n = length-take zcp bytes in
          let left = length-drop zcp bytes in
          let (order, inside, whole) = valid in
          let window = length-held old b valid in
          let test : ltb b.tail (b.head + b.pos) ≡ false = ground arith in
          let (copied, keeps, holds) =
            copy_in_lem old b valid (take zcp bytes) (ground (arith, n)) in
          let b1 = stored old b valid (take zcp bytes) in
          let same =
            (patch-IsPatched (held (with_block old b)) b.pos (take zcp bytes)
              (omega (arith, n, window))).same_length in
          let kept_size : length (held b1) ≡ length (held (with_block old b)) =
            ap length holds ∙ same in
          let (good, buffer, more) =
            append_lem block (drop zcp bytes) b1 (ground (arith, left)) keeps
              (omega (arith, kept_size, left, wide)) in
          let b2 = (append (some block) (drop zcp bytes) b1).1 in
          let kept =
            append-pos block (patch old (b.head + b.pos) (take zcp bytes)) (drop zcp bytes) b in
          (
            record b2 { pos = b2.pos + size },
            rw (e, test, copied) refl,
            record {
              valid = set-IsBuffer b2.pbuf b2 (b2.pos + size) buffer;
              holds =
                  more
                  ∙ ap (λ (l : List ℕ). l ++ drop zcp bytes) holds
                  ∙ patch-take b.pos zcp (held (with_block old b)) bytes (omega (arith, window))
                      (ground arith);
              moved_to = omega (arith, kept);
            },
          )
    ]
