-- ===== src/ParseBuffer.antt =====
-- ec_memory.h: the class `parsebuffer`, received bytes from `_head` to `_tail` of a block. A block is a
-- list of `_bufsize` bytes, and `got` is what `malloc_` answers: null, or a block with what stands in it.
pub mod Bytes
pub mod Access
mod Examples
use eclib.Common.{
  ℕ, zero, suc, ◌+◌, ◌-◌, ◌/◌, Bool, true, false, List, [], ◌∷◌, ◌++◌, length, take, drop, Option,
  none, some, leb, ◌==◌, if◌then◌else◌,
}
use eclib.Stream.{patch}

pub record ParseBuffer : Type 0 where
  pub head : ℕ
  pub tail : ℕ
  pub bufsize : ℕ
  pub pos : ℕ
  pub pbuf : Option (List ℕ)

pub new_buffer : ParseBuffer
new_buffer = record { head = 0; tail = 0; bufsize = 0; pos = 0; pbuf = none }

pub size_ : ParseBuffer → ℕ
size_ b = b.tail - b.head

-- The first block.
start : Option (List ℕ) → List ℕ → ParseBuffer → Bool × ParseBuffer
start none bytes b = (false, b)
start (some block) bytes b = (
  true,
  record {
    head = 0;
    tail = length bytes;
    bufsize = length block;
    pos = 0;
    pbuf = some (bytes ++ drop (length bytes) block);
  },
)

-- A larger block, with what was left of the old one in front.
renew : Option (List ℕ) → List ℕ → List ℕ → ParseBuffer → Bool × ParseBuffer
renew none old bytes b = (false, b)
renew (some block) old bytes b =
    let oldsize = b.tail - b.head in
    (
      true,
      record b {
        head = 0;
        tail = oldsize + length bytes;
        bufsize = length block;
        pbuf =
            some (take oldsize (drop b.head old) ++ (bytes ++ drop (oldsize + length bytes) block));
      },
    )

append_to : Option (List ℕ) → Option (List ℕ) → List ℕ → ParseBuffer → Bool × ParseBuffer
unfolding start renew
append_to none got bytes b = start got bytes b
append_to (some old) got bytes b =
    if leb (b.tail + length bytes) b.bufsize
    then (true, record b { tail = b.tail + length bytes; pbuf = some (patch old b.tail bytes) })
    else renew got old bytes b

-- `true` is the result 0, `false` is -1.
pub append : Option (List ℕ) → List ℕ → ParseBuffer → Bool × ParseBuffer
unfolding append_to
append got bytes b = if length bytes == 0 then (true, b) else append_to b.pbuf got bytes b

free_up_to : Option (List ℕ) → ℕ → ParseBuffer → ParseBuffer
free_up_to none size b = b
free_up_to (some old) size b =
    if leb b.tail (b.head + size)
    then record b { head = 0; tail = 0; bufsize = 0; pbuf = none }
    else record b { head = b.head + size }

pub freehead : ℕ → ParseBuffer → ParseBuffer
unfolding free_up_to
freehead size b = free_up_to b.pbuf size b

free_block : Option (List ℕ) → ParseBuffer → ParseBuffer
free_block none b = b
free_block (some old) b = record { head = 0; tail = 0; bufsize = 0; pos = 0; pbuf = none }

pub free_all : ParseBuffer → ParseBuffer
unfolding free_block
free_all b = free_block b.pbuf b
