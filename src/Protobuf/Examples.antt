-- ===== src/Protobuf/Examples.antt =====
-- ec_protobuf.h: runs, and the theorems at concrete values.
use eclib.Common.{◌-◌, ◌^◌, ◌≡◌, refl, true, false, [], ◌∷◌, ◌++◌, arith}
use eclib.Protobuf.{Delimited, get_varint, out_varint, get_length_delimited}
use eclib.Protobuf.Varint.{get-out_varint}
use eclib.Protobuf.Skip.{get_length_delimited_lem}

three_hundred : out_varint 32 300 ≡ 0xAC ∷ 0x02 ∷ []
unfolding out_varint
three_hundred = refl

widest : out_varint 32 (2 ^ 32 - 1) ≡ 0xFF ∷ 0xFF ∷ 0xFF ∷ 0xFF ∷ 0x0F ∷ []
unfolding out_varint
widest = refl

get-out_varint_example :
    get_varint 32 0 (out_varint 64 300 ++ 7 ∷ [])
    ≡ record { ok = true; value = 300; rest = 7 ∷ []; failed = false }
get-out_varint_example =
    get-out_varint 32 64 300 0 (7 ∷ []) (omega arith) (omega arith) (omega arith) (omega arith)

get_length_delimited_lem_example :
    get_length_delimited (out_varint 64 (2 ^ 31) ++ 1 ∷ []) ≡ Delimited.overrun (2 ^ 31) (1 ∷ [])
get_length_delimited_lem_example =
    get_length_delimited_lem (2 ^ 31) (1 ∷ []) (omega arith) (omega arith)
