-- ===== src/Strings/Escapes/Codes.antt =====
-- ec_string.h: escapes with a code, in one or in two parts.
use eclib.Common.{
  ℕ, ◌+◌, ◌-◌, ◌*◌, ◌/◌, ◌%◌, ◌^◌, ◌≤◌, ◌<◌, ◌≡◌, refl, ap, ◌∙◌, true, false, ◌&&◌, ◌||◌, List, ◌∷◌,
  ◌++◌, length, ltb, leb, arith, some, bit_and, bit_or,
}
use eclib.Common.Bits.{bit_and_127, bit_and_step, bit_or-disjoint_left}
use eclib.Http.Url.{hex_digit, char2hex_lem}
use eclib.Strings.{unicode2utf8}
use eclib.Strings.Escapes.{
  hex4, surrogate, after_code, parse_json_utf16, coded, unescaped, unescape_loop, jstr_fromesc,
}
use eclib.Strings.Escapes.Roundtrip.{jstr_fromesc_lem}

-- A number below 0x10000 in four digits, and an escape with them.
abbrev pub digits4 : ℕ → List ℕ → List ℕ
digits4 u rest =
    hex_digit (u / 4096)
    ∷ hex_digit (u / 256 % 16)
    ∷ hex_digit (u / 16 % 16)
    ∷ hex_digit (u % 16)
    ∷ rest

abbrev pub code_escape : ℕ → List ℕ → List ℕ
code_escape u rest = b'\\' ∷ b'u' ∷ digits4 u rest

hex4_lem : (u : ℕ) (rest : List ℕ) → u < 0x10000 → hex4 (digits4 u rest) ≡ some u
unfolding hex4
hex4_lem u rest small =
    rw
      (
        char2hex_lem (u / 4096) (omega arith),
        char2hex_lem (u / 256 % 16) (omega arith),
        char2hex_lem (u / 16 % 16) (omega arith),
        char2hex_lem (u % 16) (omega arith),
      )
      (ap some (omega arith))

-- The code of a character that UTF-16 writes in one part is read back.
code_lem :
    (u : ℕ) (rest : List ℕ)
    → u < 0x10000
    → (leb 0xD800 u && leb u 0xDBFF) ≡ false
    → parse_json_utf16 (code_escape u rest) ≡ some (6, u)
unfolding parse_json_utf16 after_code
code_lem u rest small single =
    let long : ltb (length (code_escape u rest)) 6 ≡ false = ground arith in
    rw (long, hex4_lem u rest small, single) refl

-- An escape with the code of a character below 0x10000 that is no high surrogate becomes the bytes of
-- Unicode2Utf8, and the text behind it is read on.
pub unescape-code :
    (u : ℕ) (rest : List ℕ)
    → u < 0x10000
    → (leb 0xD800 u && leb u 0xDBFF) ≡ false
    → jstr_fromesc (code_escape u rest) ≡ unicode2utf8 u ++ jstr_fromesc rest
unfolding unescape_loop unescaped coded
unescape-code u rest small single =
    jstr_fromesc_lem (code_escape u rest)
    ∙ rw (code_lem u rest small single, jstr_fromesc_lem rest) refl

bit_and_1023 : (a : ℕ) → bit_and a 0x3FF ≡ a % 1024
bit_and_1023 a =
    let low = bit_and_127 (a / 2 / 2 / 2) in
    let first = bit_and_step (a / 2 / 2) 255 in
    let second = bit_and_step (a / 2) 511 in let third = bit_and_step a 1023 in omega arith

pair_lem :
    (u : ℕ) (rest : List ℕ)
    → u < 0x100000
    → parse_json_utf16 (code_escape (0xD800 + u / 1024) (code_escape (0xDC00 + u % 1024) rest))
      ≡ some (12, u)
unfolding parse_json_utf16 after_code surrogate
pair_lem u rest small =
    let high = 0xD800 + u / 1024 in
    let low = 0xDC00 + u % 1024 in
    let text = code_escape high (code_escape low rest) in
    let long : ltb (length text) 6 ≡ false = ground arith in
    let longer : ltb (length text) 12 ≡ false = ground arith in
    let is_high : (leb 0xD800 high && leb high 0xDBFF) ≡ true = ground arith in
    let is_low : (ltb low 0xDC00 || ltb 0xDFFF high) ≡ false = ground arith in
    let front : bit_and high 0x3FF ≡ u / 1024 = bit_and_1023 high ∙ omega arith in
    let back : bit_and low 0x3FF ≡ u % 1024 = bit_and_1023 low ∙ omega arith in
    let all : bit_or (u / 1024 * 2 ^ 10) (u % 1024) ≡ u =
      bit_or-disjoint_left 10 (u % 1024) (u / 1024) (omega arith) ∙ omega arith in
    rw
      (
        long,
        hex4_lem high (code_escape low rest) (omega arith),
        is_high,
        longer,
        hex4_lem low rest (omega arith),
        is_low,
        front,
        back,
        all,
      )
      refl

-- The escapes of two surrogates are read as one code point, but 0x10000 is not added: of every code
-- point from 0x10000 to 0x10FFFF, written in two parts, the result is 0x10000 less.
pub surrogate_lem :
    (point : ℕ) (rest : List ℕ)
    → 0x10000 ≤ point
    → point < 0x110000
    → parse_json_utf16 (
        code_escape
          (0xD800 + (point - 0x10000) / 1024)
          (code_escape (0xDC00 + (point - 0x10000) % 1024) rest))
      ≡ some (12, point - 0x10000)
surrogate_lem point rest large small = pair_lem (point - 0x10000) rest (omega arith)
