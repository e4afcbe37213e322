-- ===== src/Xor/Digits.antt =====
-- ec_string.h, xor_le: one word is masked as its four bytes are.
use eclib.Common.{
  ℕ, zero, suc, ◌+◌, ◌*◌, ◌/◌, ◌%◌, ◌^◌, ◌≤◌, ◌<◌, ◌≡◌, refl, ap, ◌∙◌, bit_xor, bit_and, [], ◌∷◌,
  arith,
}
use Prim.Native.Nat.{differ}
use eclib.Common.Bits.{
  bit_and_step, bit_and_127, bit_xor_step, zero-bit_xor, pow-suc_two, double_pow,
}
use eclib.Xor.{xor_word}

differ-le : (a b : ℕ) → a < 2 → b < 2 → differ a b ≤ 1
differ-le zero zero h k = omega arith
differ-le zero (suc zero) h k = omega arith
differ-le (suc zero) zero h k = omega arith
differ-le (suc zero) (suc zero) h k = omega arith
differ-le (suc (suc a)) b h k = absurd (omega arith)
differ-le zero (suc (suc b)) h k = absurd (omega arith)
differ-le (suc zero) (suc (suc b)) h k = absurd (omega arith)

-- Numbers below a power of two stay below it.
bit_xor-lt : (k a m : ℕ) → a < 2 ^ k → m < 2 ^ k → bit_xor a m < 2 ^ k
bit_xor-lt zero a m h j = let none : a ≡ 0 = omega arith in rw none (omega (arith, zero-bit_xor m))
bit_xor-lt (suc k) a m h j = omega (
  arith,
  bit_xor_step a m,
  pow-suc_two k,
  bit_xor-lt k (a / 2) (m / 2) (omega (arith, pow-suc_two k)) (omega (arith, pow-suc_two k)),
  differ-le (a % 2) (m % 2) (omega arith) (omega arith),
)

-- The digits of a number are combined one by one.
bit_xor-digit :
    (k a m b n : ℕ)
    → a < 2 ^ k
    → m < 2 ^ k
    → bit_xor (a + b * 2 ^ k) (m + n * 2 ^ k) ≡ bit_xor a m + bit_xor b n * 2 ^ k
bit_xor-digit zero a m b n h j =
    let none : a ≡ 0 = omega arith in
    let none' : m ≡ 0 = omega arith in
    let first : 0 + b * 2 ^ 0 ≡ b = omega arith in
    let second : 0 + n * 2 ^ 0 ≡ n = omega arith in
    rw (none, none', first, second) (omega (arith, zero-bit_xor 0))
bit_xor-digit (suc k) a m b n h j =
    let half : (a + b * 2 ^ suc k) / 2 ≡ a / 2 + b * 2 ^ k = omega (arith, double_pow k b) in
    let half' : (m + n * 2 ^ suc k) / 2 ≡ m / 2 + n * 2 ^ k = omega (arith, double_pow k n) in
    let low : (a + b * 2 ^ suc k) % 2 ≡ a % 2 = omega (arith, double_pow k b) in
    let low' : (m + n * 2 ^ suc k) % 2 ≡ m % 2 = omega (arith, double_pow k n) in
    let ih =
      bit_xor-digit k (a / 2) (m / 2) b n (omega (arith, pow-suc_two k))
        (omega (arith, pow-suc_two k)) in
    bit_xor_step (a + b * 2 ^ suc k) (m + n * 2 ^ suc k)
    ∙ rw (half, half', low, low', ih) (omega (arith, bit_xor_step a m, double_pow k (bit_xor b n)))

pub bit_and_255 : (a : ℕ) → bit_and a 0xFF ≡ a % 256
bit_and_255 a = omega (arith, bit_and_step a 0xFF, bit_and_127 (a / 2))

digit :
    (a m b n : ℕ)
    → a < 256
    → m < 256
    → bit_xor (a + 256 * b) (m + 256 * n) ≡ bit_xor a m + 256 * bit_xor b n
digit a m b n h j =
    let left : a + 256 * b ≡ a + b * 2 ^ 8 = omega arith in
    let right : m + 256 * n ≡ m + n * 2 ^ 8 = omega arith in
    rw (left, right) (bit_xor-digit 8 a m b n h j ∙ omega arith)

-- A word, and the word of four masks, byte by byte.
pub xor_word-bytes :
    (a b c d m0 m1 m2 m3 : ℕ)
    → a < 256
    → b < 256
    → c < 256
    → d < 256
    → m0 < 256
    → m1 < 256
    → m2 < 256
    → m3 < 256
    → xor_word (m0 + 256 * (m1 + 256 * (m2 + 256 * m3))) a b c d
      ≡ bit_xor a m0 ∷ bit_xor b m1 ∷ bit_xor c m2 ∷ bit_xor d m3 ∷ []
unfolding xor_word
xor_word-bytes a b c d m0 m1 m2 m3 ha hb hc hd h0 h1 h2 h3 =
    let w : bit_xor (a + 256 * (b + 256 * (c + 256 * d))) (m0 + 256 * (m1 + 256 * (m2 + 256 * m3)))
        ≡ bit_xor a m0 + 256 * (bit_xor b m1 + 256 * (bit_xor c m2 + 256 * bit_xor d m3)) =
      digit a m0 (b + 256 * (c + 256 * d)) (m1 + 256 * (m2 + 256 * m3)) ha h0
      ∙ ap (λ (t : ℕ). bit_xor a m0 + 256 * t)
          (digit b m1 (c + 256 * d) (m2 + 256 * m3) hb h1
            ∙ ap (λ (t : ℕ). bit_xor b m1 + 256 * t) (digit c m2 d m3 hc h2)) in
    let l0 = bit_xor-lt 8 a m0 ha h0 in
    let l1 = bit_xor-lt 8 b m1 hb h1 in
    let l2 = bit_xor-lt 8 c m2 hc h2 in
    let l3 = bit_xor-lt 8 d m3 hd h3 in
    let e0 : (bit_xor a m0 + 256 * (bit_xor b m1 + 256 * (bit_xor c m2 + 256 * bit_xor d m3))) % 256
        ≡ bit_xor a m0 =
      omega (arith, l0) in
    let e1 : (bit_xor a m0 + 256 * (bit_xor b m1 + 256 * (bit_xor c m2 + 256 * bit_xor d m3)))
          / 256
          % 256
        ≡ bit_xor b m1 =
      omega (arith, l0, l1) in
    let e2 : (bit_xor a m0 + 256 * (bit_xor b m1 + 256 * (bit_xor c m2 + 256 * bit_xor d m3)))
          / 65536
          % 256
        ≡ bit_xor c m2 =
      omega (arith, l0, l1, l2) in
    let e3 : (bit_xor a m0 + 256 * (bit_xor b m1 + 256 * (bit_xor c m2 + 256 * bit_xor d m3)))
          / 16777216
          % 256
        ≡ bit_xor d m3 =
      omega (arith, l0, l1, l2, l3) in
    rw (w, e0, e1, e2, e3) refl
