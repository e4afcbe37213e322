-- ===== src/ParseBuffer/Access.antt =====
-- ec_memory.h, `parsebuffer`: blocks of bytes at the position `_pos`, which counts from `_head`.
pub mod Written
use eclib.Common.{
  ℕ, ◌+◌, ◌-◌, true, false, List, [], length, take, drop, Option, none, some, ltb, leb, ◌==◌,
  if◌then◌else◌,
}
use eclib.Stream.{patch}
use eclib.ParseBuffer.{ParseBuffer, append}

-- `fault` is an access outside the block.
pub data Access {ℓ} (A : Type ℓ) : Type ℓ where
  done : A → Access A
  range_error : Access A
  fault : Access A

unfoldable pub setpos : ℕ → ParseBuffer → ParseBuffer
setpos pos b = record b { pos = if ltb b.tail (b.head + pos) then b.tail - b.head else pos }

unfoldable pub posend : ParseBuffer → ParseBuffer
posend b = record b { pos = b.tail - b.head }

unfoldable pub posbegin : ParseBuffer → ParseBuffer
posbegin b = record b { pos = 0 }

copy_out : Option (List ℕ) → ℕ → ParseBuffer → Access (List ℕ × ParseBuffer)
copy_out none size b = if size == 0 then done ([], b) else fault
copy_out (some old) size b =
    if leb (b.head + b.pos + size) (length old)
    then done (take size (drop (b.head + b.pos) old), record b { pos = b.pos + size })
    else fault

unfoldable pub read : ℕ → ParseBuffer → Access (List ℕ × ParseBuffer)
unfolding copy_out
read size b = if ltb b.tail (b.pos + b.head + size) then range_error else copy_out b.pbuf size b

-- A copy of bytes to the position, which does not move.
copy_in : Option (List ℕ) → List ℕ → ParseBuffer → Access ParseBuffer
copy_in none bytes b = if length bytes == 0 then done b else fault
copy_in (some old) bytes b =
    if leb (b.head + b.pos + length bytes) (length old)
    then done (record b { pbuf = some (patch old (b.head + b.pos) bytes) })
    else fault

moved : ℕ → Access ParseBuffer → Access ParseBuffer
moved size (done b) = done (record b { pos = b.pos + size })
moved size range_error = range_error
moved size fault = fault

-- The result of `append` is not looked at.
grown : Option (List ℕ) → List ℕ → Access ParseBuffer → Access ParseBuffer
grown got bytes (done b) = done (append got bytes b).1
grown got bytes range_error = range_error
grown got bytes fault = fault

-- Behind the end `_tail - _head - _pos` wraps to a size that no block has.
pub write : Option (List ℕ) → List ℕ → ParseBuffer → Access ParseBuffer
unfolding copy_in moved grown
write got bytes b =
    let size = length bytes in
    let zcp = b.tail - b.head - b.pos in
    moved size (
      if leb (b.head + b.pos + size) b.tail
      then copy_in b.pbuf bytes b
      else if ltb b.tail (b.head + b.pos)
      then fault
      else grown got (drop zcp bytes) (copy_in b.pbuf (take zcp bytes) b))
