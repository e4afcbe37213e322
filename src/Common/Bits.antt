-- ===== src/Common/Bits.antt =====
-- Bit operations at masks: the values that the code uses them at, as quotients and remainders.
use native.Mathlib.Nat.{pow-suc}
use Prim.Native.Nat.{
  ℕ, zero, suc, ◌+◌, ◌-◌, ◌*◌, ◌/◌, ◌%◌, ◌≤◌, ◌^◌, ◌<◌, min, max, bit_and, bit_or, bit_xor, digits,
  bit_and-bitwise, bit_or-bitwise, bit_xor-bitwise, differ,
}
use mathlib.Core.Path.{◌≡◌, refl, sym, ap, ◌∙◌}
use native.Mathlib.Omega.{arith}

-- The native operations are given by a recursion over binary digits: `op` joins two digits, and `low`
-- is the rest once the first number is used up. The fuel does not matter where it is enough.
module _ (low : ℕ → ℕ) (op : ℕ → ℕ → ℕ) where
  abbrev joined : ℕ → ℕ → ℕ → ℕ
  joined = digits low op

  joined-zero : (m b : ℕ) → joined m 0 b ≡ low b
  joined-zero zero b = refl
  joined-zero (suc m) b = refl

  any_fuel : (a b m k : ℕ) → a ≤ m → a ≤ k → joined m a b ≡ joined k a b
  any_fuel zero b m k hm hk = joined-zero m b ∙ sym (joined-zero k b)
  any_fuel (suc a) b zero k hm hk = absurd (omega arith)
  any_fuel (suc a) b (suc m) zero hm hk = absurd (omega arith)
  any_fuel (suc a) b (suc m) (suc k) hm hk =
      ap (λ (t : ℕ). t * 2 + op (suc a % 2) (b % 2))
        (any_fuel (suc a / 2) (b / 2) m k (omega arith) (omega arith))

  joined-suc :
      (a b : ℕ)
      → joined (suc a) (suc a) b
        ≡ joined (suc a / 2) (suc a / 2) (b / 2) * 2 + op (suc a % 2) (b % 2)
  joined-suc a b =
      ap (λ (t : ℕ). t * 2 + op (suc a % 2) (b % 2))
        (any_fuel (suc a / 2) (b / 2) a (suc a / 2) (omega arith) (omega arith))

-- One binary digit of a conjunction.
pub bit_and_step : (a b : ℕ) → bit_and a b ≡ bit_and (a / 2) (b / 2) * 2 + min (a % 2) (b % 2)
bit_and_step zero b =
    let none : (c : ℕ) → bit_and 0 c ≡ 0 = λ c. bit_and-bitwise 0 c in
    omega (arith, none b, none (b / 2))
bit_and_step (suc a) b =
    bit_and-bitwise (suc a) b
    ∙ joined-suc (λ c. zero) min a b
    ∙ ap (λ (t : ℕ). t * 2 + min (suc a % 2) (b % 2)) (sym (bit_and-bitwise (suc a / 2) (b / 2)))

-- Nothing is left of a conjunction with zero.
vanish : (m a : ℕ) → a ≤ m → bit_and a 0 ≡ 0
vanish m zero h = refl
vanish zero (suc a) h = absurd (omega arith)
vanish (suc m) (suc a) h =
    let rest = vanish m (suc a / 2) (omega arith) in bit_and_step (suc a) 0 ∙ omega (arith, rest)

pub bit_and-zero : (a : ℕ) → bit_and a 0 ≡ 0
bit_and-zero a = vanish a a (omega arith)

pub bit_and-one : (a : ℕ) → bit_and a 1 ≡ a % 2
bit_and-one a = omega (arith, bit_and_step a 1, bit_and-zero (a / 2))

pub bit_and_three : (a : ℕ) → bit_and a 3 ≡ a % 4
bit_and_three a = omega (arith, bit_and_step a 3, bit_and-one (a / 2))

pub bit_and_seven : (a : ℕ) → bit_and a 7 ≡ a % 8
bit_and_seven a = omega (arith, bit_and_step a 7, bit_and_three (a / 2))

pub bit_and_15 : (a : ℕ) → bit_and a 15 ≡ a % 16
bit_and_15 a = omega (arith, bit_and_step a 15, bit_and_seven (a / 2))

pub bit_and_31 : (a : ℕ) → bit_and a 31 ≡ a % 32
bit_and_31 a = omega (arith, bit_and_step a 31, bit_and_15 (a / 2))

pub bit_and_63 : (a : ℕ) → bit_and a 63 ≡ a % 64
bit_and_63 a = omega (arith, bit_and_step a 63, bit_and_31 (a / 2))

pub bit_and_127 : (a : ℕ) → bit_and a 0x7F ≡ a % 128
bit_and_127 a = omega (arith, bit_and_step a 127, bit_and_63 (a / 2))

-- The same for a disjunction and a symmetric difference.
pub zero-bit_or : (b : ℕ) → bit_or 0 b ≡ b
zero-bit_or b = bit_or-bitwise 0 b

pub bit_or_step : (a b : ℕ) → bit_or a b ≡ bit_or (a / 2) (b / 2) * 2 + max (a % 2) (b % 2)
bit_or_step zero b = omega (arith, zero-bit_or b, zero-bit_or (b / 2))
bit_or_step (suc a) b =
    bit_or-bitwise (suc a) b
    ∙ joined-suc (λ c. c) max a b
    ∙ ap (λ (t : ℕ). t * 2 + max (suc a % 2) (b % 2)) (sym (bit_or-bitwise (suc a / 2) (b / 2)))

pub pow-suc_two : (k : ℕ) → 2 ^ suc k ≡ 2 * 2 ^ k
pow-suc_two k = rw (pow-suc 2 k) (omega arith)

pub pow_pos : (k : ℕ) → 0 < 2 ^ k
pow_pos zero = omega arith
pow_pos (suc k) = omega (arith, pow-suc_two k, pow_pos k)

pub pow_mono : (a b : ℕ) → a ≤ b → 2 ^ a ≤ 2 ^ b
pow_mono zero b h = pow_pos b
pow_mono (suc a) zero h = absurd (omega arith)
pow_mono (suc a) (suc b) h = omega (arith, pow-suc_two a, pow-suc_two b, pow_mono a b (omega arith))

bit_or_double : (x y : ℕ) → bit_or x (y * 2) ≡ bit_or (x / 2) y * 2 + x % 2
bit_or_double x y =
    let half : y * 2 / 2 ≡ y = omega arith in bit_or_step x (y * 2) ∙ rw half (omega arith)

pub double_pow : (k y : ℕ) → y * 2 ^ suc k ≡ y * 2 ^ k * 2
double_pow k y = rw (pow-suc_two k) (omega arith)

-- A disjunction of numbers that share no digit is their sum.
pub bit_or-disjoint : (k x y : ℕ) → x < 2 ^ k → bit_or x (y * 2 ^ k) ≡ x + y * 2 ^ k
bit_or-disjoint zero x y h =
    let none : x ≡ 0 = omega arith in rw none (omega (arith, zero-bit_or (y * 2 ^ 0)))
bit_or-disjoint (suc k) x y h =
    rw (double_pow k y, bit_or_double x (y * 2 ^ k))
      (omega (arith, bit_or-disjoint k (x / 2) y (omega (arith, pow-suc_two k))))

pub zero-bit_xor : (b : ℕ) → bit_xor 0 b ≡ b
zero-bit_xor b = bit_xor-bitwise 0 b

zero-differ : (d : ℕ) → d < 2 → differ 0 d ≡ d
zero-differ zero h = refl
zero-differ (suc zero) h = refl
zero-differ (suc (suc d)) h = absurd (omega arith)

pub bit_xor_step : (a b : ℕ) → bit_xor a b ≡ bit_xor (a / 2) (b / 2) * 2 + differ (a % 2) (b % 2)
bit_xor_step zero b =
    omega (arith, zero-bit_xor b, zero-bit_xor (b / 2), zero-differ (b % 2) (omega arith))
bit_xor_step (suc a) b =
    bit_xor-bitwise (suc a) b
    ∙ joined-suc (λ c. c) differ a b
    ∙ ap (λ (t : ℕ). t * 2 + differ (suc a % 2) (b % 2)) (sym (bit_xor-bitwise (suc a / 2) (b / 2)))

differ-one : (d : ℕ) → d < 2 → differ d 1 ≡ 1 - d
differ-one zero h = refl
differ-one (suc zero) h = refl
differ-one (suc (suc d)) h = absurd (omega arith)

differ-zero : (d : ℕ) → d < 2 → differ d 0 ≡ d
differ-zero zero h = refl
differ-zero (suc zero) h = refl
differ-zero (suc (suc d)) h = absurd (omega arith)

-- With zero, and with a word of ones.
pub bit_xor-zero : (k x : ℕ) → x < 2 ^ k → bit_xor x 0 ≡ x
bit_xor-zero zero x h = let none : x ≡ 0 = omega arith in rw none (zero-bit_xor 0)
bit_xor-zero (suc k) x h = omega (
  arith,
  bit_xor_step x 0,
  bit_xor-zero k (x / 2) (omega (arith, pow-suc_two k)),
  differ-zero (x % 2) (omega arith),
)

pub bit_xor_ones : (k x : ℕ) → x < 2 ^ k → bit_xor x (2 ^ k - 1) ≡ 2 ^ k - 1 - x
bit_xor_ones zero x h = let none : x ≡ 0 = omega arith in rw none (zero-bit_xor 0)
bit_xor_ones (suc k) x h =
    let half : (2 ^ suc k - 1) / 2 ≡ 2 ^ k - 1 = omega (arith, pow-suc_two k) in
    let odd : (2 ^ suc k - 1) % 2 ≡ 1 = omega (arith, pow-suc_two k) in
    bit_xor_step x (2 ^ suc k - 1)
    ∙ rw (half, odd, bit_xor_ones k (x / 2) (omega (arith, pow-suc_two k)))
        (omega (arith, pow-suc_two k, differ-one (x % 2) (omega arith)))

bit_or_double_left : (x y : ℕ) → bit_or (y * 2) x ≡ bit_or y (x / 2) * 2 + x % 2
bit_or_double_left x y =
    let half : y * 2 / 2 ≡ y = omega arith in bit_or_step (y * 2) x ∙ rw half (omega arith)

bit_or-zero_fuel : (n y : ℕ) → y ≤ n → bit_or y 0 ≡ y
bit_or-zero_fuel n zero h = zero-bit_or 0
bit_or-zero_fuel zero (suc y) h = absurd (omega arith)
bit_or-zero_fuel (suc n) (suc y) h =
    omega (arith, bit_or_step (suc y) 0, bit_or-zero_fuel n (suc y / 2) (omega arith))

bit_or-zero : (y : ℕ) → bit_or y 0 ≡ y
bit_or-zero y = bit_or-zero_fuel y y (omega arith)

pub bit_or-disjoint_left : (k x y : ℕ) → x < 2 ^ k → bit_or (y * 2 ^ k) x ≡ y * 2 ^ k + x
bit_or-disjoint_left zero x y h =
    let none : x ≡ 0 = omega arith in rw none (omega (arith, bit_or-zero (y * 2 ^ 0)))
bit_or-disjoint_left (suc k) x y h =
    rw (double_pow k y, bit_or_double_left x (y * 2 ^ k))
      (omega (arith, bit_or-disjoint_left k (x / 2) y (omega (arith, pow-suc_two k))))

pub bit_or_128 : (x : ℕ) → x < 128 → bit_or x 0x80 ≡ x + 128
bit_or_128 x h = bit_or-disjoint 7 x 1 h

-- One bit alone, from the lowest up.
bit_and_2 : (x : ℕ) → bit_and x 2 ≡ x / 2 % 2 * 2
bit_and_2 x = omega (arith, bit_and_step x 2, bit_and-one (x / 2))

bit_and_4 : (x : ℕ) → bit_and x 4 ≡ x / 4 % 2 * 4
bit_and_4 x = omega (arith, bit_and_step x 4, bit_and_2 (x / 2))

bit_and_8 : (x : ℕ) → bit_and x 8 ≡ x / 8 % 2 * 8
bit_and_8 x = omega (arith, bit_and_step x 8, bit_and_4 (x / 2))

bit_and_16 : (x : ℕ) → bit_and x 16 ≡ x / 16 % 2 * 16
bit_and_16 x = omega (arith, bit_and_step x 16, bit_and_8 (x / 2))

bit_and_32 : (x : ℕ) → bit_and x 32 ≡ x / 32 % 2 * 32
bit_and_32 x = omega (arith, bit_and_step x 32, bit_and_16 (x / 2))

bit_and_64 : (x : ℕ) → bit_and x 64 ≡ x / 64 % 2 * 64
bit_and_64 x = omega (arith, bit_and_step x 64, bit_and_32 (x / 2))

pub bit_and_128 : (x : ℕ) → bit_and x 0x80 ≡ x / 128 % 2 * 128
bit_and_128 x = omega (arith, bit_and_step x 128, bit_and_64 (x / 2))
