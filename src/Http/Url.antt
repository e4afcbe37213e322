-- ===== src/Http/Url.antt =====
-- ec_http.h: urldecode and urlencode.
pub mod Bytes
mod Examples
use eclib.Common.{
  ℕ, zero, suc, ◌+◌, ◌-◌, ◌*◌, ◌/◌, ◌%◌, ◌^◌, ◌≤◌, ◌<◌, ◌≡◌, refl, ap, ◌∙◌, bit_or, bit_and, Bool,
  true, false, ◌&&◌, List, [], ◌∷◌, ◌++◌, All, length, Option, none, some, arith, ltb, leb, ◌==◌,
  if◌then◌else◌,
}
use eclib.Common.Bits.{bit_or-disjoint_left}

pub char2hex : ℕ → Option ℕ
char2hex c =
    if leb b'a' c && leb c b'f'
    then some (10 + (c - b'a'))
    else if leb b'A' c && leb c b'F'
    then some (10 + (c - b'A'))
    else if leb b'0' c && leb c b'9'
    then some (c - b'0')
    else none

-- The byte of two digits, in front of what follows; nothing where one of them is no digit.
escaped : Option ℕ → Option ℕ → List ℕ → List ℕ
escaped none l after = []
escaped (some h) none after = []
escaped (some h) (some l) after = bit_or (h * 16) l ∷ after

plain : ℕ → ℕ
plain c = if c == b'+' then 0x20 else c

-- A percent sign without two digits behind it ends the output.
pub urldecode : List ℕ → List ℕ
unfolding char2hex escaped plain
urldecode [] = []
urldecode (c ∷ []) = if c == b'%' then [] else plain c ∷ []
urldecode (c ∷ h ∷ []) = let rest = urldecode (h ∷ []) in if c == b'%' then [] else plain c ∷ rest
urldecode (c ∷ h ∷ l ∷ url) =
    let after = urldecode url in
    let rest = urldecode (h ∷ l ∷ url) in
    if c == b'%' then escaped (char2hex h) (char2hex l) after else plain c ∷ rest

upper_digit : ℕ → ℕ
upper_digit d = if leb 10 d then b'A' + d - 10 else b'0' + d

-- One round of the loop of urlencode.
pub encoded : ℕ → List ℕ
unfolding upper_digit
encoded c =
    if c == 0x20
    then b'+' ∷ []
    else if ltb 0 (bit_and c 0x80)
    then b'%' ∷ upper_digit (c / 16) ∷ upper_digit (c % 16) ∷ []
    else c ∷ []

-- `p` and `end` are the positions; the loop runs while `p > end`.
urlencode_loop : ℕ → ℕ → List ℕ → List ℕ
unfolding encoded
urlencode_loop p end [] = []
urlencode_loop p end (c ∷ url) =
    let rest = urlencode_loop (suc p) end url in if ltb end p then encoded c ++ rest else []

pub urlencode : List ℕ → List ℕ
unfolding urlencode_loop
urlencode url = urlencode_loop 0 (length url) url

-- urlencode writes nothing, whatever it is given.
pub urlencode_lem : (url : List ℕ) → urlencode url ≡ []
unfolding urlencode urlencode_loop
urlencode_lem [] = refl
urlencode_lem (c ∷ url) = let test : ltb (length (c ∷ url)) 0 ≡ false = ground arith in rw test refl

pub hex_digit : ℕ → ℕ
hex_digit d = if leb 10 d then b'A' + (d - 10) else b'0' + d

-- Each byte as a percent sign and two digits.
pub percent : List ℕ → List ℕ
unfolding hex_digit
percent [] = []
percent (b ∷ bytes) = b'%' ∷ hex_digit (b / 16) ∷ hex_digit (b % 16) ∷ percent bytes

pub char2hex_lem : (d : ℕ) → d < 16 → char2hex (hex_digit d) ≡ some d
unfolding char2hex hex_digit
char2hex_lem d h = ground arith

-- urldecode reads back all bytes that are written with a percent sign and two hexadecimal digits.
pub urldecode-percent :
    (bytes : List ℕ) → All (λ b. b < 256) bytes → urldecode (percent bytes) ≡ bytes
unfolding urldecode percent escaped
urldecode-percent [] h = refl
urldecode-percent (b ∷ bytes) h =
    let small = h.0 in
    let high = char2hex_lem (b / 16) (omega arith) in
    let low = char2hex_lem (b % 16) (omega arith) in
    let whole : bit_or (b / 16 * 16) (b % 16) ≡ b =
      bit_or-disjoint_left 4 (b % 16) (b / 16) (omega arith) ∙ omega arith in
    rw (high, low, whole) (ap (λ (l : List ℕ). b ∷ l) (urldecode-percent bytes h.1))
