-- ===== src/Strings/Examples.antt =====
-- ec_string.h: runs, and the theorems at concrete texts.
use eclib.Common.{◌++◌, ℕ, ◌≡◌, ◌≤◌, refl, true, false, List, [], ◌∷◌, take, arith}
use eclib.Strings.{
  c_str, first_byte, next_byte, utf8_loop, is_utf8, strisutf8, ascii_loop, strisascii, cut_loop,
  utf8_sizesubstr, unicode2utf8,
}
use eclib.Strings.Cut.{utf8_sizesubstr_lem}

run_all : Unit {0}
unfolding first_byte next_byte utf8_loop is_utf8 strisutf8 ascii_loop strisascii c_str cut_loop
    utf8_sizesubstr unicode2utf8
run_all = tt

-- The letter a, the euro sign and the letter b.
abbrev euro : List ℕ
euro = b'a' ∷ 0xE2 ∷ 0x82 ∷ 0xAC ∷ b'b' ∷ []

euro_utf8 : is_utf8 euro ≡ true
unfolding run_all
euro_utf8 = refl

-- Without a size the text ends at its zero.
to_zero : strisutf8 (euro ++ 0 ∷ 0xFF ∷ []) 0 ≡ true
unfolding run_all
to_zero = refl

behind_zero : strisutf8 (euro ++ 0 ∷ 0xFF ∷ []) 7 ≡ false
unfolding run_all
behind_zero = refl

cut_off : is_utf8 (take 3 euro) ≡ false
unfolding run_all
cut_off = refl

overlong : is_utf8 (0xC0 ∷ 0x80 ∷ []) ≡ false
unfolding run_all
overlong = refl

euro_not_ascii : strisascii euro 5 ≡ false
unfolding run_all
euro_not_ascii = refl

-- A size of five, which is the whole text, takes the last character off.
cut_sizes :
    (utf8_sizesubstr euro 3 ≡ 1) × (utf8_sizesubstr euro 5 ≡ 4) × (utf8_sizesubstr euro 6 ≡ 5)
unfolding run_all
cut_sizes = (refl, refl, refl)

euro_bytes : unicode2utf8 0x20AC ≡ 0xE2 ∷ 0x82 ∷ 0xAC ∷ []
unfolding run_all
euro_bytes = refl

utf8_sizesubstr_lem_example :
    (is_utf8 (take (utf8_sizesubstr euro 3) euro) ≡ true) × (utf8_sizesubstr euro 3 ≤ 3)
utf8_sizesubstr_lem_example =
    utf8_sizesubstr_lem euro 3
      (omega arith, (omega arith, (omega arith, (omega arith, (omega arith, tt))))) euro_utf8
