-- ===== src/Stream.antt =====
-- ec_stream.h: the class `stream`, words and strings in a block of memory. `buf` is the block that
-- `attach` is given, `_size` bytes of it. size_t has 64 bits, and the host is little endian.
pub mod Patch
pub mod Words
pub mod Text
mod Examples
use eclib.Common.{
  ℕ, zero, suc, ◌+◌, ◌-◌, ◌*◌, ◌/◌, ◌%◌, ◌^◌, Bool, true, false, ◌&&◌, ◌||◌, not, List, [], ◌∷◌,
  ◌++◌, length, take, drop, ltb, leb, ◌==◌, if◌then◌else◌,
}
use mathlib.Core.List.{reverse}

pub record Stream : Type 0 where
  pub buf : List ℕ
  pub size : ℕ
  pub pos : ℕ

-- `thrown` carries the int that is thrown, `fault` is an access outside the block.
pub data Outcome {ℓ} (A : Type ℓ) : Type ℓ where
  ok : A → Outcome A
  thrown : ℕ → Outcome A
  fault : Outcome A

pub attach : List ℕ → ℕ → Stream
attach buf size = record { buf = buf; size = size; pos = 0 }

-- `_pos + n > _size`, where the sum wraps.
abbrev pub beyond : ℕ → Stream → Bool
beyond n s = ltb s.size ((s.pos + n) % 2 ^ 64)

-- The bytes of the block from `pos` on, `n` of them, replaced.
abbrev pub patch : List ℕ → ℕ → List ℕ → List ℕ
patch buf pos bs = take pos buf ++ (bs ++ drop (pos + length bs) buf)

pub read : ℕ → Stream → Outcome (List ℕ × Stream)
read n s =
    if beyond n s
    then thrown 1
    else if leb (s.pos + n) (length s.buf)
    then ok (take n (drop s.pos s.buf), record s { pos = s.pos + n })
    else fault

-- A copy of the bytes at a pointer that is not null.
pub write : List ℕ → Stream → Outcome Stream
write bs s =
    if length bs == 0
    then ok s
    else if beyond (length bs) s
    then thrown 1
    else if leb (s.pos + length bs) (length s.buf)
    then ok (record s { buf = patch s.buf s.pos bs; pos = s.pos + length bs })
    else fault

-- The bytes of a word in memory, the lowest first.
pub word_bytes : ℕ → ℕ → List ℕ
word_bytes zero v = []
word_bytes (suc n) v = (v % 256) ∷ word_bytes n (v / 256)

pub word_value : List ℕ → ℕ
word_value [] = 0
word_value (b ∷ bs) = b + 256 * word_value bs

-- `operator >>` and `operator <<` on words of `n` bytes: memory order.
pub get_le : ℕ → Stream → Outcome (ℕ × Stream)
unfolding word_value
get_le n s =
    if beyond n s
    then thrown 1
    else if leb (s.pos + n) (length s.buf)
    then ok (word_value (take n (drop s.pos s.buf)), record s { pos = s.pos + n })
    else fault

pub put_le : ℕ → ℕ → Stream → Outcome Stream
unfolding word_bytes
put_le n v s =
    if beyond n s
    then thrown 1
    else if leb (s.pos + n) (length s.buf)
    then ok (record s { buf = patch s.buf s.pos (word_bytes n v); pos = s.pos + n })
    else fault

-- `operator >` and `operator <`: the loop copies the bytes backwards.
pub get_be : ℕ → Stream → Outcome (ℕ × Stream)
unfolding word_value
get_be n s =
    if beyond n s
    then thrown 1
    else if leb (s.pos + n) (length s.buf)
    then ok (word_value (reverse (take n (drop s.pos s.buf))), record s { pos = s.pos + n })
    else fault

pub put_be : ℕ → ℕ → Stream → Outcome Stream
unfolding word_bytes
put_be n v s =
    if beyond n s
    then thrown 1
    else if leb (s.pos + n) (length s.buf)
    then ok (record s { buf = patch s.buf s.pos (reverse (word_bytes n v)); pos = s.pos + n })
    else fault

pub setpos : ℕ → Stream → Outcome Stream
setpos pos s = if ltb s.size pos then thrown 1 else ok (record s { pos = pos })

-- `_size - _pos` on size_t.
pub leftsize : Stream → ℕ
leftsize s = (s.size + 2 ^ 64 - s.pos) % 2 ^ 64

pub iseof : Stream → Bool
iseof s = s.pos == s.size

-- The loop of `readstr`: `bytes` is the block from `_pos` to `_size`, `room` the bytes of `pbuf`.
-- What does not fit is read and dropped.
readstr_loop : List ℕ → ℕ → ℕ → List ℕ → List ℕ × ℕ
readstr_loop [] room pos out = (out, pos)
readstr_loop (b ∷ bytes) room pos out =
    let rest =
      readstr_loop bytes room (pos + 1)
        (if ltb (length out + 1) room then out ++ b ∷ [] else out) in
    if b == 0 then (out, pos) else rest

-- `_pos++` follows the loop in any case.
pub readstr : ℕ → Stream → Outcome (List ℕ × Stream)
unfolding readstr_loop
readstr room s =
    if room == 0
    then thrown 2
    else if leb s.size (length s.buf)
    then (let (out, pos) = readstr_loop (drop s.pos (take s.size s.buf)) room s.pos [] in
        ok (out, record s { pos = pos + 1 }))
    else fault

-- The string is given without its final zero; a null pointer is an empty one here.
pub writestr : List ℕ → Stream → Outcome Stream
writestr str s =
    if length str == 0
    then ok s
    else if leb s.size ((s.pos + length str + 1) % 2 ^ 64)
    then thrown 1
    else if leb (s.pos + length str + 1) (length s.buf)
    then ok (record s { buf = patch s.buf s.pos (str ++ 0 ∷ []); pos = s.pos + length str + 1 })
    else fault
