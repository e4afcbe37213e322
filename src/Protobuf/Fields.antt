-- ===== src/Protobuf/Fields.antt =====
-- ec_protobuf.h: keys, fixed fields, delimited fields, and the skipping of unknown fields.
use eclib.Common.{
  ℕ, zero, suc, ◌+◌, ◌*◌, ◌/◌, ◌%◌, ◌^◌, ◌≤◌, ◌<◌, ◌≡◌, refl, sym, ap, ◌∙◌, bit_and, true, false,
  List, ◌++◌, length, length-append, drop, take-append_length, drop-append_length, ltb, leb, arith,
}
use mathlib.Core.List.{append_assoc}
use eclib.Common.Bits.{bit_and_seven, bit_or-disjoint_left}
use native.Mathlib.Nat.{mod-eq_of_lt, pow-suc}
use eclib.Protobuf.{
  view, get_varint, out_varint, get_fixed, out_fixed, fixed_value, make_key, out_key, get_key,
  get_length_delimited, out_length_delimited, int_less,
}
use eclib.Protobuf.Varint.{get-out_varint}

pub length-out_fixed : (n v : ℕ) → length (out_fixed n v) ≡ n
unfolding out_fixed
length-out_fixed zero v = refl
length-out_fixed (suc n) v = ap suc (length-out_fixed n (v / 256))

fixed_value-out_fixed :
    (n v : ℕ) (rest : List ℕ) → v < 256 ^ n → fixed_value n (out_fixed n v ++ rest) ≡ v
unfolding fixed_value out_fixed
fixed_value-out_fixed zero v rest h = omega arith
fixed_value-out_fixed (suc n) v rest h =
    omega (arith, fixed_value-out_fixed n (v / 256) rest (omega (arith, pow-suc 256 n)))

-- A fixed field of `n` bytes is read back, and the bytes that follow are left.
pub get-out_fixed :
    (n v out : ℕ) (rest : List ℕ)
    → v < 256 ^ n
    → get_fixed n out (out_fixed n v ++ rest)
      ≡ record { ok = true; value = v; rest = rest; failed = false }
unfolding get_fixed
get-out_fixed n v out rest fits =
    let long : ltb (length (out_fixed n v ++ rest)) n ≡ false =
      ground (arith, length-append (out_fixed n v) rest, length-out_fixed n v) in
    let behind : drop n (out_fixed n v ++ rest) ≡ rest =
      ap (λ (k : ℕ). drop k (out_fixed n v ++ rest)) (sym (length-out_fixed n v))
      ∙ drop-append_length (out_fixed n v) rest in
    rw (long, behind, fixed_value-out_fixed n v rest fits) refl

make_key_lem :
    (field wire : ℕ) → field < 2 ^ 29 → wire < 8 → make_key field wire ≡ field * 2 ^ 3 + wire
unfolding make_key
make_key_lem field wire hf hw =
    let top : field * 2 ^ 3 % 2 ^ 32 ≡ field * 2 ^ 3 = omega arith in
    rw (top, bit_and_seven wire, mod-eq_of_lt hw) (bit_or-disjoint_left 3 wire field hw)

-- A key of a field number below 2 ^ 29 is read back.
pub get-out_key :
    (field wire f w : ℕ) (rest : List ℕ)
    → field < 2 ^ 29
    → wire < 8
    → get_key f w (out_key field wire ++ rest)
      ≡ record { ok = true; field_number = field; wire_type = wire; rest = rest; failed = false }
unfolding get_key out_key
get-out_key field wire f w rest hf hw =
    let key = make_key_lem field wire hf hw in
    let number : (field * 2 ^ 3 + wire) / 2 ^ 3 ≡ field = omega arith in
    let kind : bit_and (field * 2 ^ 3 + wire) 7 ≡ wire =
      bit_and_seven (field * 2 ^ 3 + wire) ∙ omega arith in
    rw
      (
        key,
        get-out_varint 32 32 (field * 2 ^ 3 + wire) 0 rest (omega arith) (omega arith) (omega arith)
            (omega arith),
        number,
        kind,
      )
      refl

read_length :
    (bs rest : List ℕ)
    → length bs < 2 ^ 31
    → get_varint 32 0 (out_length_delimited bs ++ rest)
      ≡ record { ok = true; value = length bs; rest = bs ++ rest; failed = false }
unfolding out_length_delimited
read_length bs rest h = rw (append_assoc (out_varint 64 (length bs)) bs rest) (
    get-out_varint 32 64 (length bs) 0 (bs ++ rest) (omega arith) (omega arith) (omega arith)
      (omega arith))

-- A delimited field shorter than 2 ^ 31 is read back, though its length is written on 64 bits and
-- read on 32.
pub get-out_length_delimited :
    (bs rest : List ℕ)
    → length bs < 2 ^ 31
    → get_length_delimited (out_length_delimited bs ++ rest) ≡ view bs rest
unfolding get_length_delimited
get-out_length_delimited bs rest h =
    let inside : length bs ≤ length (bs ++ rest) = omega (arith, length-append bs rest) in
    let fits : int_less (length (bs ++ rest)) (length bs) ≡ false =
      unfold int_less in ground arith in
    let within : leb (length bs) (length (bs ++ rest)) ≡ true = ground arith in
    rw (read_length bs rest h, fits, within, take-append_length bs rest, drop-append_length bs rest)
      refl
