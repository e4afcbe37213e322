-- ===== src/Protobuf/Zigzag.antt =====
-- ec_protobuf.h, `t_zigzag`: signed numbers as bit patterns of `suc k` bits.
use eclib.Common.{
  ℕ, suc, ◌+◌, ◌-◌, ◌*◌, ◌/◌, ◌%◌, ◌^◌, ◌≤◌, ◌<◌, ◌≡◌, sym, ap, ◌∙◌, bit_and, true, false, ltb,
  arith,
}
use eclib.Common.Bits.{bit_and-one, bit_xor-zero, bit_xor_ones, pow-suc_two}
use native.Mathlib.Nat.{mod-eq_of_lt, mod-eq-sub-mod}
use native.Mathlib.Decide.{dec_lt}
use eclib.Protobuf.{zigzag_encode, zigzag_decode}

encode_low : (k n : ℕ) → n < 2 ^ k → zigzag_encode (suc k) n ≡ 2 * n
unfolding zigzag_encode
encode_low k n h =
    let half : suc k - 1 ≡ k = omega arith in
    let low : ltb n (2 ^ k) ≡ true = ground arith in
    let small : n * 2 < 2 ^ suc k = omega (arith, pow-suc_two k) in
    rw (half, low, mod-eq_of_lt small, bit_xor-zero (suc k) (n * 2) small) (omega arith)

encode_high : (k n : ℕ) → n < 2 ^ k → zigzag_encode (suc k) (2 ^ suc k - 1 - n) ≡ 2 * n + 1
unfolding zigzag_encode
encode_high k n h =
    let u = 2 ^ suc k - 1 - n in
    let half : suc k - 1 ≡ k = omega arith in
    let high : ltb u (2 ^ k) ≡ false = ground (arith, pow-suc_two k) in
    let once : 2 ^ suc k ≤ u * 2 = omega (arith, pow-suc_two k) in
    let left : u * 2 - 2 ^ suc k < 2 ^ suc k = omega (arith, pow-suc_two k) in
    let shifted : u * 2 % 2 ^ suc k ≡ u * 2 - 2 ^ suc k = mod-eq-sub-mod once ∙ mod-eq_of_lt left in
    rw (half, high, shifted, bit_xor_ones (suc k) (u * 2 - 2 ^ suc k) left)
      (omega (arith, pow-suc_two k))

-- The code of n is 2 n, and that of -(n + 1), whose pattern is 2 ^ w - 1 - n, is 2 n + 1: numbers
-- of a small absolute value have small codes.
pub zigzag_encode_lem :
    (k n : ℕ)
    → n < 2 ^ k
    → (zigzag_encode (suc k) n ≡ 2 * n) × (zigzag_encode (suc k) (2 ^ suc k - 1 - n) ≡ 2 * n + 1)
zigzag_encode_lem k n h = (encode_low k n h, encode_high k n h)

-- Decoding the code of a pattern gives the pattern back, on words of every width.
pub zigzag_decode-encode :
    (k u : ℕ) → u < 2 ^ suc k → zigzag_decode (suc k) (zigzag_encode (suc k) u) ≡ u
unfolding zigzag_decode
zigzag_decode-encode k u h = elim (dec_lt u (2 ^ k)) [
  | yes low ↦
      let even : bit_and (2 * u) 1 ≡ 0 = bit_and-one (2 * u) ∙ omega arith in
      let half : 2 * u / 2 ≡ u = omega arith in
      rw (encode_low k u low, even, half) (bit_xor-zero (suc k) u h)
  | no high ↦
      let n = 2 ^ suc k - 1 - u in
      let small : n < 2 ^ k = omega (arith, pow-suc_two k) in
      let same : 2 ^ suc k - 1 - n ≡ u = omega arith in
      let code : zigzag_encode (suc k) u ≡ 2 * n + 1 =
        ap (λ (x : ℕ). zigzag_encode (suc k) x) (sym same) ∙ encode_high k n small in
      let odd : bit_and (2 * n + 1) 1 ≡ 1 = bit_and-one (2 * n + 1) ∙ omega arith in
      let half : (2 * n + 1) / 2 ≡ n = omega arith in
      rw (code, odd, half) (bit_xor_ones (suc k) n (omega (arith, pow-suc_two k)) ∙ same)
]
