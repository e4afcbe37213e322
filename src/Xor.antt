-- ===== src/Xor.antt =====
-- ec_string.h: xor_le, which masks a block four bytes at a time. `at` is the address of the block, and
-- the host is little endian.
pub mod Digits
pub mod Words
mod Examples
use eclib.Common.{
  ℕ, zero, suc, ◌+◌, ◌-◌, ◌*◌, ◌/◌, ◌%◌, ◌^◌, bit_or, bit_xor, bit_and, List, [], ◌∷◌, ◌++◌, length,
  take, drop, ltb, ◌==◌, if◌then◌else◌,
}

-- `(umask >> ((i % 4) * 8)) & 0xFF`.
pub mask_byte : ℕ → ℕ → ℕ
mask_byte umask i = bit_and (umask / 2 ^ (i % 4 * 8)) 0xFF

-- `pd[i] ^= ...`, byte by byte, for the bytes from the index `i` on.
pub xor_bytes : ℕ → ℕ → List ℕ → List ℕ
unfolding mask_byte
xor_bytes umask i [] = []
xor_bytes umask i (b ∷ bs) = bit_xor b (mask_byte umask i) ∷ xor_bytes umask (i + 1) bs

-- `puint[i] ^= um` on the four bytes of a little endian word.
pub xor_word : ℕ → ℕ → ℕ → ℕ → ℕ → List ℕ
xor_word um a b c d =
    let w = bit_xor (a + 256 * (b + 256 * (c + 256 * d))) um in
    (w % 256) ∷ (w / 256 % 256) ∷ (w / 65536 % 256) ∷ (w / 16777216 % 256) ∷ []

-- The words, and the bytes behind the last whole word, which are masked from the index `i` on.
pub xor_words : ℕ → ℕ → ℕ → List ℕ → List ℕ
unfolding xor_word xor_bytes
xor_words umask um i (a ∷ b ∷ c ∷ d ∷ bs) = xor_word um a b c d ++ xor_words umask um (i + 4) bs
xor_words umask um i bs = xor_bytes umask i bs

pub xor_le : ℕ → ℕ → List ℕ → List ℕ
unfolding xor_bytes xor_words
xor_le at umask bs =
    let nl = if at % 4 == 0 then 0 else 4 - at % 4 in
    let um =
      if at % 4 == 0
      then umask
      else bit_or (umask / 2 ^ (nl * 8)) (umask * 2 ^ ((4 - nl) * 8) % 2 ^ 32) in
    xor_bytes umask 0 (take nl bs) ++ xor_words umask um nl (drop nl bs)
