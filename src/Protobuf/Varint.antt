-- ===== src/Protobuf/Varint.antt =====
-- ec_protobuf.h: variable-length integers, `out_varint`, `get_varint` and `size_varint`.
use eclib.Common.{
  ℕ, zero, suc, ◌+◌, ◌*◌, ◌/◌, ◌%◌, ◌^◌, ◌≤◌, ◌<◌, ◌≡◌, refl, sym, ap, ◌∙◌, bit_and, true, false,
  List, [], ◌∷◌, ◌++◌, length, length-append, ltb, leb, ◌==◌, Bool-cases, inl, inr, arith,
}
use eclib.Common.Bits.{bit_and_127, bit_and_128, bit_or_128, bit_or-disjoint, pow_pos, pow_mono}
use eclib.Common.Words.{pow-add_seven, div-group, mod-group}
use native.Mathlib.Nat.{div-add-mod', mod-eq_of_lt, mod-lt, div-eq_of_lt, div-lt_iff_lt-mul}
use native.Mathlib.Decide.{dec_lt}
use eclib.Protobuf.{
  add_group, get_varint, get_varint_loop, out_varint, out_varint_loop, size_varint,
  size_varint_loop,
}

-- Seven bits that fit the word are joined to those below them.
add_group_lem :
    (w nbit v b : ℕ)
    → v < 2 ^ w
    → b % 128 ≡ v / 2 ^ nbit % 128
    → add_group w nbit (v % 2 ^ nbit) b ≡ v % 2 ^ (nbit + 7)
add_group_lem w nbit v b fits same =
    let p = 2 ^ nbit in
    let group = v / p % 128 in
    let part : group * p ≤ v / p * p = grind arith in
    let small : group * p < 2 ^ w = omega (arith, part, div-add-mod' v p) in
    rw (bit_and_127 b, same, mod-eq_of_lt small)
      (bit_or-disjoint nbit (v % p) group (mod-lt v (pow_pos nbit))
        ∙ sym (ap (λ (t : ℕ). v % t) (pow-add_seven nbit) ∙ mod-group v p))

get_last :
    (w nbit out b : ℕ) (bs : List ℕ)
    → b < 128
    → get_varint_loop w nbit out (b ∷ bs)
      ≡ record { ok = true; value = add_group w nbit out b; rest = bs; failed = false }
unfolding get_varint_loop
get_last w nbit out b bs h =
    let clear : bit_and b 0x80 ≡ 0 = omega (arith, bit_and_128 b) in rw clear refl

get_more :
    (w nbit out x : ℕ) (bs : List ℕ)
    → x < 128
    → nbit + 7 < w
    → get_varint_loop w nbit out ((x + 128) ∷ bs)
      ≡ get_varint_loop w (nbit + 7) (add_group w nbit out (x + 128)) bs
unfolding get_varint_loop
get_more w nbit out x bs h more =
    let marked : bit_and (x + 128) 0x80 ≡ 128 = omega (arith, bit_and_128 (x + 128)) in
    let on : leb w (nbit + 7) ≡ false = ground arith in rw (marked, on) refl

module _ (fuel w v nbit : ℕ) where
  out_last :
      v / 2 ^ (nbit + 7) ≡ 0 → out_varint_loop (suc fuel) w v nbit ≡ (v / 2 ^ nbit % 128) ∷ []
  unfolding out_varint_loop
  out_last done = rw (done, bit_and_127 (v / 2 ^ nbit)) refl

  out_more :
      (v / 2 ^ (nbit + 7) == 0) ≡ false
      → ltb (nbit + 7 + 7) w ≡ true
      → out_varint_loop (suc fuel) w v nbit
        ≡ (v / 2 ^ nbit % 128 + 128) ∷ out_varint_loop fuel w v (nbit + 7)
  unfolding out_varint_loop
  out_more left again =
      rw (left, again, bit_and_127 (v / 2 ^ nbit), bit_or_128 (v / 2 ^ nbit % 128) (omega arith))
        refl

  out_end :
      (v / 2 ^ (nbit + 7) == 0) ≡ false
      → ltb (nbit + 7 + 7) w ≡ false
      → v / 2 ^ (nbit + 7) < 128
      → out_varint_loop (suc fuel) w v nbit ≡ (v / 2 ^ nbit % 128 + 128) ∷ (v / 2 ^ (nbit + 7)) ∷ []
  unfolding out_varint_loop
  out_end left last small =
      let byte : v / 2 ^ (nbit + 7) % 256 ≡ v / 2 ^ (nbit + 7) = omega arith in
      rw
        (
          left,
          last,
          byte,
          bit_and_127 (v / 2 ^ nbit),
          bit_or_128 (v / 2 ^ nbit % 128) (omega arith),
        )
        refl

-- A shift that leaves nothing has the whole word below it.
mod_whole : (v k : ℕ) → v / 2 ^ k ≡ 0 → v % 2 ^ k ≡ v
mod_whole v k h = omega (arith, div-add-mod' v (2 ^ k), ap (λ (t : ℕ). t * 2 ^ k) h)

-- The last byte of a word holds what is left of it.
last_group : (w v nbit : ℕ) → v < 2 ^ w → w ≤ nbit + 7 → v / 2 ^ nbit < 128
last_group w v nbit fits last =
    (div-lt_iff_lt-mul {k = 2 ^ nbit} (pow_pos nbit)).1
      (omega (arith, pow_mono w (nbit + 7) last, pow-add_seven nbit))

in_word : (w v nbit : ℕ) → v < 2 ^ w → (v / 2 ^ nbit == 0) ≡ false → nbit < w
in_word w v nbit fits left = elim (dec_lt nbit w) [
  | yes h ↦ h
  | no h ↦
      let none : v / 2 ^ nbit ≡ 0 = div-eq_of_lt (omega (arith, pow_mono w nbit (omega arith))) in
      absurd (ground arith)
]

-- The loops meet at every shift: the reader has the bits below it, the writer emits the others.
-- The
-- widths of the two may differ.
get-out_loop :
    (fuel wr ww v nbit : ℕ) (rest : List ℕ)
    → v < 2 ^ wr
    → v < 2 ^ ww
    → ww ≤ nbit + fuel
    → nbit < wr
    → nbit < ww
    → get_varint_loop wr nbit (v % 2 ^ nbit) (out_varint_loop fuel ww v nbit ++ rest)
      ≡ record { ok = true; value = v; rest = rest; failed = false }
get-out_loop zero wr ww v nbit rest fits fits' enough more more' = absurd (omega arith)
get-out_loop (suc fuel) wr ww v nbit rest fits fits' enough more more' =
    let low = v / 2 ^ nbit % 128 in
    let joined = add_group_lem wr nbit v low fits (omega arith) in
    let marked = add_group_lem wr nbit v (low + 128) fits (omega arith) in
    elim (Bool-cases (v / 2 ^ (nbit + 7) == 0)) [
      | inl done ↦
          let over : v / 2 ^ (nbit + 7) ≡ 0 = ground arith in
          rw
            (
              out_last fuel ww v nbit over,
              get_last wr nbit (v % 2 ^ nbit) low rest (omega arith),
              joined,
              mod_whole v (nbit + 7) over,
            )
            refl
      | inr left ↦
          let inside = in_word wr v (nbit + 7) fits left in
          elim (Bool-cases (ltb (nbit + 7 + 7) ww)) [
            | inl again ↦
                rw
                  (
                    out_more fuel ww v nbit left again,
                    get_more wr nbit (v % 2 ^ nbit) low
                        (out_varint_loop fuel ww v (nbit + 7) ++ rest) (omega arith) inside,
                    marked,
                  )
                  (get-out_loop fuel wr ww v (nbit + 7) rest fits fits' (omega arith) inside
                    (in_word ww v (nbit + 7) fits' left))
            | inr last ↦
                let small = last_group ww v (nbit + 7) fits' (ground arith) in
                let over : v / 2 ^ (nbit + 7 + 7) ≡ 0 =
                  ap (λ (t : ℕ). v / t) (pow-add_seven (nbit + 7))
                  ∙ div-group v (2 ^ (nbit + 7))
                  ∙ omega arith in
                rw
                  (
                    out_end fuel ww v nbit left last small,
                    get_more wr nbit (v % 2 ^ nbit) low ((v / 2 ^ (nbit + 7)) ∷ rest) (omega arith)
                        inside,
                    marked,
                    get_last wr (nbit + 7) (v % 2 ^ (nbit + 7)) (v / 2 ^ (nbit + 7)) rest small,
                    add_group_lem wr (nbit + 7) v (v / 2 ^ (nbit + 7)) fits refl,
                    mod_whole v (nbit + 7 + 7) over,
                  )
                  refl
          ]
    ]

out_varint_nonempty : (fuel w v nbit : ℕ) → 0 < length (out_varint_loop (suc fuel) w v nbit)
unfolding out_varint_loop
out_varint_nonempty fuel w v nbit = ground arith

get_varint_nonempty :
    (w out : ℕ) (bs : List ℕ) → 0 < length bs → get_varint w out bs ≡ get_varint_loop w 0 0 bs
unfolding get_varint
get_varint_nonempty w out [] h = absurd (omega arith)
get_varint_nonempty w out (b ∷ bs) h = refl

-- What `out_varint` writes on words of `ww` bits, `get_varint` reads back on words of `wr` bits,
-- and it
-- leaves the bytes that follow, for every number that both words hold.
pub get-out_varint :
    (wr ww v out : ℕ) (rest : List ℕ)
    → 0 < wr
    → 0 < ww
    → v < 2 ^ wr
    → v < 2 ^ ww
    → get_varint wr out (out_varint ww v ++ rest)
      ≡ record { ok = true; value = v; rest = rest; failed = false }
unfolding out_varint
get-out_varint wr zero v out rest pos pos' fits fits' = absurd (omega arith)
get-out_varint wr (suc w) v out rest pos pos' fits fits' =
    let bytes = out_varint_loop (suc w) (suc w) v 0 in
    let start : v % 2 ^ 0 ≡ 0 = omega arith in
    let run =
      get-out_loop (suc w) wr (suc w) v 0 rest fits fits' (omega arith) (omega arith)
        (omega arith) in
    get_varint_nonempty wr out (bytes ++ rest)
      (omega (arith, length-append bytes rest, out_varint_nonempty w (suc w) v 0))
    ∙ (rw start at run)

size_varint_from :
    (fuel w v nbit : ℕ) → size_varint_loop fuel w v nbit ≡ length (out_varint_loop fuel w v nbit)
unfolding size_varint_loop out_varint_loop
size_varint_from zero w v nbit = refl
size_varint_from (suc fuel) w v nbit = ground (arith, size_varint_from fuel w v (nbit + 7))

-- `size_varint` is the number of bytes that `out_varint` writes.
pub size_varint_lem : (w v : ℕ) → size_varint w v ≡ length (out_varint w v)
unfolding size_varint out_varint
size_varint_lem w v = size_varint_from w w v 0

-- A number of `k` groups of seven bits takes `k` bytes at most.
out_varint_bound :
    (fuel w v nbit k : ℕ)
    → v < 2 ^ (nbit + 7 * suc k)
    → length (out_varint_loop fuel w v nbit) ≤ suc k
unfolding out_varint_loop
out_varint_bound zero w v nbit k h = omega arith
out_varint_bound (suc fuel) w v nbit zero h =
    let fits : v < 2 ^ (nbit + 7) = h in
    let over : v / 2 ^ (nbit + 7) ≡ 0 = div-eq_of_lt fits in rw over (omega arith)
out_varint_bound (suc fuel) w v nbit (suc k) h =
    let shift : nbit + 7 * suc (suc k) ≡ nbit + 7 + 7 * suc k = omega arith in
    let fits : v < 2 ^ (nbit + 7 + 7 * suc k) = rw shift at h in
    ground (arith, out_varint_bound fuel w v (nbit + 7) k fits)

-- A number below 2 ^ (7 k) takes `k` bytes at most, on words of every width: 5 on 32 bits, 10 on
-- 64.
pub length-out_varint : (w v k : ℕ) → 0 < k → v < 2 ^ (7 * k) → length (out_varint w v) ≤ k
unfolding out_varint
length-out_varint w v zero pos h = absurd (omega arith)
length-out_varint w v (suc k) pos h =
    let start : 7 * suc k ≡ 0 + 7 * suc k = omega arith in
    out_varint_bound w w v 0 k (rw start at h)
