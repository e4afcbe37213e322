-- ===== src/Stream/Examples.antt =====
-- ec_stream.h, `stream`: runs, and the theorems at concrete values.
use eclib.Common.{ℕ, ◌-◌, ◌^◌, ◌≡◌, refl, false, List, [], ◌∷◌, ◌++◌, arith}
use eclib.Stream.{
  Stream, ok, thrown, attach, put_le, put_be, readstr, writestr, setpos, leftsize, iseof,
}
use eclib.Stream.Words.{HasRoom, IsWritten, rewound}
use eclib.Stream.Text.{readstr-writestr, readstr_past_end}

-- Six bytes, with the position at 1.
abbrev block : Stream
block = record { buf = 9 ∷ 9 ∷ 9 ∷ 9 ∷ 9 ∷ 9 ∷ []; size = 6; pos = 1 }

four : HasRoom 4 block
four = record { within = omega arith; block = omega arith; word = omega arith }

two : HasRoom 2 block
two = record { within = omega arith; block = omega arith; word = omega arith }

little : put_le 2 0x0102 block ≡ ok (record { buf = 9 ∷ 2 ∷ 1 ∷ 9 ∷ 9 ∷ 9 ∷ []; size = 6; pos = 3 })
unfolding put_le
little = refl

big : put_be 2 0x0102 block ≡ ok (record { buf = 9 ∷ 1 ∷ 2 ∷ 9 ∷ 9 ∷ 9 ∷ []; size = 6; pos = 3 })
unfolding put_be
big = refl

cut :
    readstr 2 (attach (b'h' ∷ b'i' ∷ 0 ∷ 7 ∷ []) 4)
    ≡ ok (b'h' ∷ [], record { buf = b'h' ∷ b'i' ∷ 0 ∷ 7 ∷ []; size = 4; pos = 3 })
unfolding readstr attach
cut = refl

moved_back : setpos 7 block ≡ thrown 1
unfolding setpos
moved_back = refl

readstr-writestr_example :
    (s' : Stream) × (writestr (b'h' ∷ b'i' ∷ []) block ≡ ok s')
    × IsWritten ((b'h' ∷ b'i' ∷ []) ++ 0 ∷ []) block s'
    × (readstr 3 (rewound block s') ≡ ok (b'h' ∷ b'i' ∷ [], s'))
readstr-writestr_example =
    readstr-writestr (b'h' ∷ b'i' ∷ []) 3 block (omega arith) (omega arith, (omega arith, tt))
      (omega arith) (omega arith) (omega arith) (omega arith)

readstr_past_end_example :
    (str : List ℕ) × (readstr 16 block ≡ ok (str, record block { pos = 7 }))
    × (iseof (record block { pos = 7 }) ≡ false)
    × (leftsize (record block { pos = 7 }) ≡ 2 ^ 64 - 1)
readstr_past_end_example =
    readstr_past_end 16 block (omega arith) (omega arith) (omega arith) (omega arith)
      (omega arith, (omega arith, (omega arith, (omega arith, (omega arith, tt)))))
