-- ===== src/Strings/Escapes.antt =====
-- ec_string.h: JSON escapes. char2hex is the same function as in ec_http.h, letter for letter.
pub mod Roundtrip
pub mod Codes
mod Examples
use eclib.Common.{
  ℕ, zero, suc, ◌+◌, ◌-◌, ◌*◌, ◌^◌, bit_or, bit_and, Bool, true, false, ◌&&◌, ◌||◌, List, [], ◌∷◌,
  ◌++◌, length, drop, Option, none, some, ltb, leb, ◌==◌, if◌then◌else◌, ◌>>=◌,
}
use eclib.Http.Url.{char2hex}
use eclib.Strings.{unicode2utf8}

pub is_escaped : ℕ → Bool
is_escaped c =
    c == 8 || c == 9 || c == b'\n' || c == b'\r' || c == 12 || c == b'"' || c == b'\\' || c == b'/'

pub jstr_needesc : List ℕ → Bool
unfolding is_escaped
jstr_needesc [] = false
jstr_needesc (c ∷ src) = is_escaped c || jstr_needesc src

pub out_json_esc : ℕ → List ℕ
out_json_esc c =
    if c == 8
    then b'\\' ∷ b'b' ∷ []
    else if c == 9
    then b'\\' ∷ b't' ∷ []
    else if c == b'\n'
    then b'\\' ∷ b'n' ∷ []
    else if c == b'\r'
    then b'\\' ∷ b'r' ∷ []
    else if c == 12
    then b'\\' ∷ b'f' ∷ []
    else if c == b'"' || c == b'/' || c == b'\\'
    then b'\\' ∷ c ∷ []
    else c ∷ []

pub jstr_toesc : List ℕ → List ℕ
unfolding out_json_esc
jstr_toesc [] = []
jstr_toesc (c ∷ s) = out_json_esc c ++ jstr_toesc s

-- Four digits.
pub hex4 : List ℕ → Option ℕ
hex4 (a ∷ b ∷ c ∷ d ∷ s) = do
  a ← char2hex a
  b ← char2hex b
  c ← char2hex c
  d ← char2hex d
  some (((a * 16 + b) * 16 + c) * 16 + d)
hex4 s = none

-- Behind the first four digits, for a text of `len` bytes that starts with a backslash.
surrogate : List ℕ → ℕ → ℕ → Option (ℕ × ℕ)
surrogate s ucode ulow =
    if ltb ulow 0xDC00 || ltb 0xDFFF ucode
    then none
    else some (12, bit_or (bit_and ucode 0x3FF * 2 ^ 10) (bit_and ulow 0x3FF))

after_code : List ℕ → ℕ → Option (ℕ × ℕ)
unfolding hex4 surrogate
after_code s ucode =
    if leb 0xD800 ucode && leb ucode 0xDBFF
    then (if ltb (length s) 12 then none else hex4 (drop 8 s) >>= surrogate s ucode)
    else some (6, ucode)

-- How many bytes are used, and the code point. `none` is -1.
pub parse_json_utf16 : List ℕ → Option (ℕ × ℕ)
unfolding after_code
parse_json_utf16 s = if ltb (length s) 6 then none else hex4 (drop 2 s) >>= after_code s

-- An escape with a code, where `onward n` is what the loop makes of the text behind `n` further bytes.
coded : Option (ℕ × ℕ) → (ℕ → List ℕ) → List ℕ
unfolding unicode2utf8
coded none onward = []
coded (some (nchars, ucode)) onward = unicode2utf8 ucode ++ onward (nchars - 1)

-- An escape whose second byte is `d`.
unescaped : ℕ → Option (ℕ × ℕ) → (ℕ → List ℕ) → List ℕ
unfolding coded
unescaped d code onward =
    let behind = onward 1 in
    if d == b'"' || d == b'/' || d == b'\\'
    then d ∷ behind
    else if d == b'b'
    then 8 ∷ behind
    else if d == b't'
    then 9 ∷ behind
    else if d == b'r'
    then b'\r' ∷ behind
    else if d == b'n'
    then b'\n' ∷ behind
    else if d == b'f'
    then 12 ∷ behind
    else if d == b'u' || d == b'U'
    then coded code onward
    else behind

-- The loop, where `n` bytes are to be passed before the next round.
pub unescape_loop : ℕ → List ℕ → List ℕ
unfolding parse_json_utf16 unescaped
unescape_loop n [] = []
unescape_loop (suc n) (c ∷ s) = unescape_loop n s
unescape_loop zero (c ∷ []) = if c == b'\\' then [] else c ∷ []
unescape_loop zero (c ∷ d ∷ s) =
    let onward : ℕ → List ℕ = λ n. unescape_loop n (d ∷ s) in
    if c == b'\\' then unescaped d (parse_json_utf16 (c ∷ d ∷ s)) onward else c ∷ onward 0

pub has_backslash : List ℕ → Bool
has_backslash [] = false
has_backslash (c ∷ s) = c == b'\\' || has_backslash s

pub jstr_fromesc : List ℕ → List ℕ
unfolding has_backslash unescape_loop
jstr_fromesc s = if has_backslash s then unescape_loop 0 s else s
