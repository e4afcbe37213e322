-- ===== src/ParseBuffer/Examples.antt =====
-- ec_memory.h, `parsebuffer`: runs, and the theorems at concrete values.
use eclib.Common.{ℕ, List, ◌≡◌, refl, [], ◌∷◌, replicate, some, none, false, arith}
use eclib.ParseBuffer.{ParseBuffer, new_buffer, append, freehead, free_all, size_}
use eclib.ParseBuffer.Access.{done, range_error, read, write, setpos, posend, posbegin}
use eclib.ParseBuffer.Access.Written.{with_block, IsWritten, write_lem}
use eclib.ParseBuffer.Bytes.{IsAppended, held, append_lem}

-- A block of six bytes that holds three.
abbrev three : ParseBuffer
three = record {
  head = 1;
  tail = 4;
  bufsize = 6;
  pos = 0;
  pbuf = some (9 ∷ 1 ∷ 2 ∷ 3 ∷ 9 ∷ 9 ∷ []);
}

three_left : size_ three ≡ 3
unfolding size_
three_left = refl

first_block : (append (some (replicate 6 0)) (1 ∷ 2 ∷ []) new_buffer).1.bufsize ≡ 6
unfolding append new_buffer
first_block = refl

no_memory : append none (1 ∷ 2 ∷ 3 ∷ []) three ≡ (false, three)
unfolding append
no_memory = refl

all_freed : (free_all three).pbuf ≡ none
unfolding free_all
all_freed = refl

append_lem_example :
    IsAppended (5 ∷ 6 ∷ 7 ∷ []) three (append (some (replicate 9 0)) (5 ∷ 6 ∷ 7 ∷ []) three)
append_lem_example =
    append_lem (replicate 9 0) (5 ∷ 6 ∷ 7 ∷ []) three (omega arith) (omega arith, omega arith, refl)
      (omega arith)

two_off : held (freehead 2 three) ≡ 3 ∷ []
unfolding freehead
two_off = refl

abbrev old_block : List ℕ
old_block = 9 ∷ 1 ∷ 2 ∷ 3 ∷ 9 ∷ 9 ∷ []

abbrev at_two : ParseBuffer
at_two = record three { pos = 2 }

read_two : read 2 (setpos 1 three) ≡ done (2 ∷ 3 ∷ [], posend three)
unfolding read setpos posend
read_two = refl

rewound : posbegin at_two ≡ three
unfolding posbegin
rewound = refl

read_past_end : read 2 at_two ≡ range_error
unfolding read
read_past_end = refl

-- The first byte replaces the last one that is held, the others make it longer.
write_lem_example :
    (after : ParseBuffer) × (write
        (some (replicate 9 0))
        (5 ∷ 6 ∷ 7 ∷ [])
        (with_block old_block at_two)
      ≡ done after)
    × IsWritten (5 ∷ 6 ∷ 7 ∷ []) (with_block old_block at_two) after
write_lem_example =
    write_lem (replicate 9 0) old_block (5 ∷ 6 ∷ 7 ∷ []) at_two (omega arith, omega arith, refl)
      (omega arith) (omega arith)
