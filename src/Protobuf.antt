-- ===== src/Protobuf.antt =====
-- ec_protobuf.h: the class `base_protobuf` and the fields of `msg_protoc3`.
-- A reader's `pd` and `len` are the list of the bytes left; `len` is an int that fits. A writer's
-- output is the list that it appends. The host is little endian; appending does not throw.
pub mod Varint
pub mod Zigzag
pub mod Fields
pub mod Skip
mod Examples
use eclib.Common.{
  ℕ, zero, suc, ◌+◌, ◌-◌, ◌*◌, ◌/◌, ◌%◌, ◌^◌, ◌<◌, ◌≡◌, bit_and, bit_or, bit_xor, Bool, true, false,
  not, ◌&&◌, ◌||◌, Option, none, some, List, [], ◌∷◌, ◌++◌, length, take, drop, ltb, leb, ◌==◌,
  if◌then◌else◌, ◌>>=◌,
}

-- What a reader leaves: its answer, the value in `out`, the bytes left, and whether it set
-- `_lasterr` to `pberr_decode`.
pub record Got : Type 0 where
  pub ok : Bool
  pub value : ℕ
  pub rest : List ℕ
  pub failed : Bool

-- `out |= (*pd & (_Tp)0x7F) << nbit`, on words of `w` bits.
abbrev pub add_group : ℕ → ℕ → ℕ → ℕ → ℕ
add_group w nbit out b = bit_or out (bit_and b 0x7F * 2 ^ nbit % 2 ^ w)

-- The loop of `get_varint`; it goes on while bytes are left and `nbit` is below the width.
get_varint_loop : ℕ → ℕ → ℕ → List ℕ → Got
get_varint_loop w nbit out [] = record { ok = false; value = out; rest = []; failed = true }
get_varint_loop w nbit out (b ∷ bs) =
    let out' = add_group w nbit out b in
    let more = get_varint_loop w (nbit + 7) out' bs in
    if bit_and b 0x80 == 0
    then record { ok = true; value = out'; rest = bs; failed = false }
    else if leb w (nbit + 7)
    then record { ok = false; value = out'; rest = bs; failed = true }
    else more

pub get_varint : ℕ → ℕ → List ℕ → Got
unfolding get_varint_loop
get_varint w out [] = record { ok = false; value = out; rest = []; failed = false }
get_varint w out (b ∷ bs) = get_varint_loop w 0 0 (b ∷ bs)

-- The loop of `out_varint`: each round emits seven bits of `v`. After the loop, what is left of
-- `v`
-- is one more byte. A round takes one fuel; `w` of it is enough, since `nbit` grows to `w`.
out_varint_loop : ℕ → ℕ → ℕ → ℕ → List ℕ
out_varint_loop zero w v nbit = []
out_varint_loop (suc fuel) w v nbit =
    let out = bit_and (v / 2 ^ nbit) 0x7F in
    let more = out_varint_loop fuel w v (nbit + 7) in
    if v / 2 ^ (nbit + 7) == 0
    then out ∷ []
    else bit_or out 0x80 ∷ (if ltb (nbit + 7 + 7) w then more else (v / 2 ^ (nbit + 7) % 256) ∷ [])

pub out_varint : ℕ → ℕ → List ℕ
unfolding out_varint_loop
out_varint w v = out_varint_loop w w v 0

-- `size_varint` runs the same loop and counts.
size_varint_loop : ℕ → ℕ → ℕ → ℕ → ℕ
size_varint_loop zero w v nbit = 0
size_varint_loop (suc fuel) w v nbit =
    let more = size_varint_loop fuel w v (nbit + 7) in
    if v / 2 ^ (nbit + 7) == 0 then 1 else (1 + (if ltb (nbit + 7 + 7) w then more else 1))

pub size_varint : ℕ → ℕ → ℕ
unfolding size_varint_loop
size_varint w v = size_varint_loop w w v 0

-- `t_zigzag` on bit patterns of `w` bits: `v >> (w - 1)` copies the sign bit.
pub zigzag_encode : ℕ → ℕ → ℕ
zigzag_encode w u = bit_xor (u * 2 % 2 ^ w) (if ltb u (2 ^ (w - 1)) then 0 else (2 ^ w - 1))

pub zigzag_decode : ℕ → ℕ → ℕ
zigzag_decode w v = bit_xor (v / 2) (if bit_and v 1 == 0 then 0 else (2 ^ w - 1))

-- Fixed fields: the bytes of a word of `n` bytes, lowest first.
pub out_fixed : ℕ → ℕ → List ℕ
out_fixed zero v = []
out_fixed (suc n) v = (v % 256) ∷ out_fixed n (v / 256)

fixed_value : ℕ → List ℕ → ℕ
fixed_value zero bs = 0
fixed_value (suc n) [] = 0
fixed_value (suc n) (b ∷ bs) = b + 256 * fixed_value n bs

pub get_fixed : ℕ → ℕ → List ℕ → Got
unfolding fixed_value
get_fixed n out bs =
    if ltb (length bs) n
    then record { ok = false; value = out; rest = bs; failed = false }
    else record { ok = true; value = fixed_value n bs; rest = drop n bs; failed = false }

-- The wire types.
abbrev pub pb_varint : ℕ
pb_varint = 0

abbrev pub pb_fixed64 : ℕ
pb_fixed64 = 1

abbrev pub pb_length_delimited : ℕ
pb_length_delimited = 2

abbrev pub pb_fixed32 : ℕ
pb_fixed32 = 5

pub make_key : ℕ → ℕ → ℕ
make_key field_number wire_type = bit_or (field_number * 2 ^ 3 % 2 ^ 32) (bit_and wire_type 7)

pub out_key : ℕ → ℕ → List ℕ
unfolding make_key
out_key field_number wire_type = out_varint 32 (make_key field_number wire_type)

pub record Key : Type 0 where
  pub ok : Bool
  pub field_number : ℕ
  pub wire_type : ℕ
  pub rest : List ℕ
  pub failed : Bool

pub get_key : ℕ → ℕ → List ℕ → Key
get_key field_number wire_type bs =
    let got = get_varint 32 0 bs in
    if got.ok
    then record {
      ok = true;
      field_number = got.value / 2 ^ 3;
      wire_type = bit_and got.value 7;
      rest = got.rest;
      failed = got.failed;
    }
    else record {
      ok = false;
      field_number = field_number;
      wire_type = wire_type;
      rest = got.rest;
      failed = got.failed;
    }

-- A delimited field: `overrun` is the answer true with a view that ends behind the buffer.
pub data Delimited : Type 0 where
  refused : List ℕ → Bool → Delimited
  view : List ℕ → List ℕ → Delimited
  overrun : ℕ → List ℕ → Delimited

-- `len < (int)ul`: the cast makes a length from 2 ^ 31 on negative.
int_less : ℕ → ℕ → Bool
int_less len ul = ltb ul (2 ^ 31) && ltb len ul

pub get_length_delimited : List ℕ → Delimited
unfolding int_less
get_length_delimited bs =
    let got = get_varint 32 0 bs in
    if not got.ok
    then refused got.rest got.failed
    else if int_less (length got.rest) got.value
    then refused got.rest true
    else if leb got.value (length got.rest)
    then view (take got.value got.rest) (drop got.value got.rest)
    else overrun got.value got.rest

pub out_length_delimited : List ℕ → List ℕ
out_length_delimited bs = out_varint 64 (length bs) ++ bs

-- `jump_over`: a field of an unknown number is skipped by its wire type.
pub data Jumped : Type 0 where
  refused : List ℕ → Bool → Jumped
  skipped : List ℕ → Jumped
  overrun : ℕ → List ℕ → Jumped

skip_fixed : ℕ → List ℕ → Jumped
skip_fixed n bs = if ltb (length bs) n then Jumped.refused bs false else Jumped.skipped (drop n bs)

-- `(int)datalen` keeps the low 32 bits of the length.
skip_delimited : List ℕ → Jumped
unfolding int_less
skip_delimited bs =
    let got = get_varint 64 0 bs in
    if not got.ok
    then Jumped.refused got.rest got.failed
    else if int_less (length got.rest) (got.value % 2 ^ 32)
    then Jumped.refused got.rest false
    else if leb got.value (length got.rest)
    then Jumped.skipped (drop got.value got.rest)
    else Jumped.overrun got.value got.rest

pub jump_over : ℕ → List ℕ → Jumped
unfolding skip_fixed skip_delimited
jump_over wire_type bs =
    if wire_type == pb_varint
    then (let got = get_varint 64 0 bs in
        if got.ok then Jumped.skipped got.rest else Jumped.refused got.rest got.failed)
    else if wire_type == pb_fixed64
    then skip_fixed 8 bs
    else if wire_type == pb_length_delimited
    then skip_delimited bs
    else if wire_type == pb_fixed32
    then skip_fixed 4 bs
    else Jumped.refused bs true
