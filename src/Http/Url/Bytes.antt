-- ===== src/Http/Url/Bytes.antt =====
-- ec_http.h: a byte that a round of urlencode writes is read back by urldecode.
use eclib.Common.{
  ℕ, ◌/◌, ◌%◌, ◌≡◌, ◌≢◌, ◌<◌, refl, ap, ◌∙◌, bit_and, Bool-cases, inl, inr, false, List, [], ◌∷◌,
  ◌++◌, arith, ltb, ◌==◌,
}
use eclib.Common.Bits.{bit_or-disjoint_left}
use eclib.Http.Url.{encoded, urldecode, escaped, plain, upper_digit, hex_digit, char2hex_lem}

pub urldecode-nil : urldecode [] ≡ []
unfolding urldecode
urldecode-nil = refl

upper_digit_lem : (d : ℕ) → upper_digit d ≡ hex_digit d
unfolding upper_digit hex_digit
upper_digit_lem d = ground arith

plain_byte : (c : ℕ) (s : List ℕ) → (c == b'%') ≡ false → urldecode (c ∷ s) ≡ plain c ∷ urldecode s
unfolding urldecode
plain_byte c [] h = rw h refl
plain_byte c (d ∷ []) h = rw h refl
plain_byte c (d ∷ e ∷ s) h = rw h refl

-- A byte that `encoded` writes so that it is read back: the signs % and + are not encoded.
abbrev pub IsUrlByte : ℕ → Type 0
IsUrlByte c = (0 < c) × (c < 256) × (c ≢ b'%') × (c ≢ b'+')

pub encoded_byte : (c : ℕ) (s : List ℕ) → IsUrlByte c → urldecode (encoded c ++ s) ≡ c ∷ urldecode s
unfolding encoded urldecode escaped plain
encoded_byte c s (not_zero, byte, not_percent, not_plus) = elim (Bool-cases (c == 0x20)) [
  | inl e ↦ let space : c ≡ 0x20 = ground arith in rw space (plain_byte b'+' s refl)
  | inr e ↦ elim (Bool-cases (ltb 0 (bit_and c 0x80))) [
    | inl high ↦
        rw
          (
            e,
            high,
            upper_digit_lem (c / 16),
            upper_digit_lem (c % 16),
            char2hex_lem (c / 16) (omega arith),
            char2hex_lem (c % 16) (omega arith),
          )
          (ap (λ (b : ℕ). b ∷ urldecode s)
            (bit_or-disjoint_left 4 (c % 16) (c / 16) (omega arith) ∙ omega arith))
    | inr low ↦
        let first : (c == b'%') ≡ false = ground arith in
        let second : (c == b'+') ≡ false = ground arith in
        rw (e, low) (plain_byte c s first ∙ rw second refl)
  ]
]
