-- ===== src/Xor/Examples.antt =====
-- ec_string.h, xor_le: runs, and the theorem at concrete values.
use eclib.Common.{◌≡◌, refl, [], ◌∷◌, arith}
use eclib.Xor.{xor_le, xor_bytes}
use eclib.Xor.Words.{xor_le_lem}

-- The mask 0x44332211 on six bytes, at an address that is no multiple of four.
unaligned :
    xor_le 3 0x44332211 (0 ∷ 0 ∷ 0 ∷ 0 ∷ 0 ∷ 0 ∷ []) ≡ 0x11 ∷ 0x22 ∷ 0x33 ∷ 0x44 ∷ 0x11 ∷ 0x22 ∷ []
unfolding xor_le
unaligned = refl

aligned_word :
    xor_le 4 0x44332211 (1 ∷ 2 ∷ 3 ∷ 4 ∷ 5 ∷ []) ≡ xor_bytes 0x44332211 0 (1 ∷ 2 ∷ 3 ∷ 4 ∷ 5 ∷ [])
unfolding xor_le xor_bytes
aligned_word = refl

xor_le_lem_example :
    xor_le 6 0x44332211 (1 ∷ 2 ∷ 3 ∷ 4 ∷ 5 ∷ 6 ∷ 7 ∷ [])
    ≡ xor_bytes 0x44332211 0 (1 ∷ 2 ∷ 3 ∷ 4 ∷ 5 ∷ 6 ∷ 7 ∷ [])
xor_le_lem_example =
    xor_le_lem 6 0x44332211 (1 ∷ 2 ∷ 3 ∷ 4 ∷ 5 ∷ 6 ∷ 7 ∷ []) (omega arith) (omega arith)
