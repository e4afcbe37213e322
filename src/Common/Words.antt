-- ===== src/Common/Words.antt =====
-- Shifts by seven bits, for words cut into groups of seven.
use Prim.Native.Nat.{ℕ, ◌+◌, ◌*◌, ◌/◌, ◌%◌, ◌^◌}
use mathlib.Core.Path.{◌≡◌, ap, ◌∙◌}
use native.Mathlib.Numerals.{towards_suc}
use native.Mathlib.Nat.{div-div-eq-div-mul, div-add-mod'}
use native.Mathlib.Omega.{arith}

pub pow-add_seven : (n : ℕ) → 2 ^ (n + 7) ≡ 2 ^ n * 128
pow-add_seven n = simp towards_suc (omega arith)

pub div-group : (v p : ℕ) → v / (p * 128) ≡ v / p / 128
div-group v p = omega (arith, div-div-eq-div-mul v p 128)

pub mod-group : (v p : ℕ) → v % (p * 128) ≡ v % p + v / p % 128 * p
mod-group v p =
    let digits : v / p ≡ v / p / 128 * 128 + v / p % 128 = omega arith in
    let scaled : v / p * p ≡ v / p / 128 * 128 * p + v / p % 128 * p =
      ap (λ (t : ℕ). t * p) digits ∙ omega arith in
    let whole : v / (p * 128) * (p * 128) ≡ v / p / 128 * 128 * p =
      ap (λ (t : ℕ). t * (p * 128)) (div-group v p) ∙ omega arith in
    omega (arith, div-add-mod' v p, div-add-mod' v (p * 128), scaled, whole)
