-- ===== src/Protobuf/Skip.antt =====
-- ec_protobuf.h: the length test of `get_length_delimited`, and the skipping of unknown fields.
use eclib.Common.{
  ℕ, ◌%◌, ◌^◌, ◌≤◌, ◌<◌, ◌≡◌, refl, sym, ap, ◌∙◌, true, false, List, ◌++◌, length, length-append,
  take, drop, drop-append_length, ltb, leb, if◌then◌else◌, arith,
}
use mathlib.Core.List.{append_assoc}
use eclib.Protobuf.{
  Delimited, Jumped, out_varint, out_fixed, get_length_delimited, out_length_delimited, jump_over,
  int_less, skip_fixed, skip_delimited, pb_varint, pb_fixed64, pb_length_delimited, pb_fixed32,
}
use eclib.Protobuf.Varint.{get-out_varint}
use eclib.Protobuf.Fields.{length-out_fixed}

-- A delimited field whose length is written as `n`, followed by `rest`: it is read if `n` bytes
-- follow,
-- and refused if fewer do, unless `n` is 2 ^ 31 or more: the cast to int is negative then, the
-- test
-- passes, and the answer is true with a view that ends behind the buffer.
pub get_length_delimited_lem :
    (n : ℕ) (rest : List ℕ)
    → n < 2 ^ 32
    → length rest < 2 ^ 31
    → get_length_delimited (out_varint 64 n ++ rest) ≡ (
        if leb n (length rest)
        then Delimited.view (take n rest) (drop n rest)
        else if ltb n (2 ^ 31)
        then Delimited.refused rest true
        else Delimited.overrun n rest)
unfolding get_length_delimited int_less
get_length_delimited_lem n rest hn hr =
    rw (get-out_varint 32 64 n 0 rest (omega arith) (omega arith) hn (omega arith)) (ground arith)

-- The fields of a message, by wire type, and their bytes behind the key.
pub data Field : Type 0 where
  number : ℕ → Field
  word64 : ℕ → Field
  bytes : List ℕ → Field
  word32 : ℕ → Field

abbrev pub wire_type : Field → ℕ
wire_type (number v) = pb_varint
wire_type (word64 v) = pb_fixed64
wire_type (bytes bs) = pb_length_delimited
wire_type (word32 v) = pb_fixed32

abbrev pub encoded : Field → List ℕ
encoded (number v) = out_varint 64 v
encoded (word64 v) = out_fixed 8 v
encoded (bytes bs) = out_length_delimited bs
encoded (word32 v) = out_fixed 4 v

abbrev pub Fits : Field → Type 0
Fits (number v) = v < 2 ^ 64
Fits (word64 v) = Unit
Fits (bytes bs) = length bs < 2 ^ 31
Fits (word32 v) = Unit

skip_fixed_lem :
    (n v : ℕ) (rest : List ℕ) → skip_fixed n (out_fixed n v ++ rest) ≡ Jumped.skipped rest
unfolding skip_fixed
skip_fixed_lem n v rest =
    let long : ltb (length (out_fixed n v ++ rest)) n ≡ false =
      ground (arith, length-append (out_fixed n v) rest, length-out_fixed n v) in
    let behind : drop n (out_fixed n v ++ rest) ≡ rest =
      ap (λ (k : ℕ). drop k (out_fixed n v ++ rest)) (sym (length-out_fixed n v))
      ∙ drop-append_length (out_fixed n v) rest in
    rw (long, behind) refl

skip_delimited_lem :
    (bs rest : List ℕ)
    → length bs < 2 ^ 31
    → skip_delimited (out_length_delimited bs ++ rest) ≡ Jumped.skipped rest
unfolding skip_delimited out_length_delimited int_less
skip_delimited_lem bs rest h =
    let inside : length bs ≤ length (bs ++ rest) = omega (arith, length-append bs rest) in
    let within : leb (length bs) (length (bs ++ rest)) ≡ true = ground arith in
    let enough : ltb (length (bs ++ rest)) (length bs) ≡ false = ground arith in
    let small : ltb (length bs) (2 ^ 31) ≡ true = ground arith in
    let low : length bs % 2 ^ 32 ≡ length bs = omega arith in
    rw
      (
        append_assoc (out_varint 64 (length bs)) bs rest,
        get-out_varint 64 64 (length bs) 0 (bs ++ rest) (omega arith) (omega arith) (omega arith)
            (omega arith),
        low,
        enough,
        small,
        within,
        drop-append_length bs rest,
      )
      refl

-- A field of an unknown number is skipped exactly, whatever its wire type and content.
pub jump_over_lem :
    (f : Field) (rest : List ℕ)
    → Fits f
    → jump_over (wire_type f) (encoded f ++ rest) ≡ Jumped.skipped rest
unfolding jump_over
jump_over_lem (number v) rest h =
    rw (get-out_varint 64 64 v 0 rest (omega arith) (omega arith) h h) refl
jump_over_lem (word64 v) rest h = skip_fixed_lem 8 v rest
jump_over_lem (bytes bs) rest h = skip_delimited_lem bs rest h
jump_over_lem (word32 v) rest h = skip_fixed_lem 4 v rest
