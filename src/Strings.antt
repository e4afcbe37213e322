-- ===== src/Strings.antt =====
-- ec_string.h: UTF-8 tests and cuts, and Unicode2Utf8. Where a function takes a
-- text and its size, the list holds the bytes of the text.
pub mod Utf8
pub mod Cut
pub mod Escapes
pub mod Urls
mod Examples
use eclib.Common.{
  ℕ, zero, suc, ◌+◌, ◌-◌, ◌*◌, ◌/◌, bit_or, bit_and, Bool, true, false, ◌&&◌, ◌||◌, not, List, [],
  ◌∷◌, length, take, get_or, Option, none, some, ltb, leb, ◌==◌, if◌then◌else◌, ◌>>=◌, ◌^◌,
}

-- How many bytes follow the first byte of a character; nothing where no character starts so.
pub first_byte : ℕ → Option ℕ
first_byte c =
    if bit_and c 0x80 == 0
    then some 0
    else if c == 0xC0 || c == 0xC1 || ltb 0xF4 c
    then none
    else if bit_and c 0xFC == 0xFC
    then some 5
    else if bit_and c 0xF8 == 0xF8
    then some 4
    else if bit_and c 0xF0 == 0xF0
    then some 3
    else if bit_and c 0xE0 == 0xE0
    then some 2
    else if bit_and c 0xC0 == 0xC0
    then some 1
    else none

-- A round of strisutf8, where `nb` bytes are still to come; nothing is the result false.
pub next_byte : ℕ → ℕ → Option ℕ
unfolding first_byte
next_byte zero c = first_byte c
next_byte (suc nb) c = if bit_and c 0xC0 == 0x80 then some nb else none

-- The loop. The result is the number of bytes that are still to come.
pub utf8_loop : ℕ → List ℕ → Option ℕ
unfolding next_byte
utf8_loop nb [] = some nb
utf8_loop nb (c ∷ s) = next_byte nb c >>= (λ k. utf8_loop k s)

abbrev pub none_to_come : Option ℕ → Bool
none_to_come none = false
none_to_come (some nb) = nb == 0

-- strisutf8 from the loop on.
pub is_utf8 : List ℕ → Bool
unfolding utf8_loop
is_utf8 s = none_to_come (utf8_loop 0 s)

-- The text of a memory that starts with it: up to the first zero.
unfoldable pub c_str : List ℕ → List ℕ
c_str [] = []
c_str (c ∷ s) = let rest = c_str s in if c == 0 then [] else c ∷ rest

-- The bytes that are looked at, where `s` is the memory at the pointer and a size of 0 is for a text with
-- a final zero.
abbrev text_at : List ℕ → ℕ → List ℕ
text_at s size = if size == 0 then c_str s else take size s

pub strisutf8 : List ℕ → ℕ → Bool
unfolding is_utf8
strisutf8 s size = is_utf8 (text_at s size)

ascii_loop : List ℕ → Bool
ascii_loop [] = true
ascii_loop (c ∷ s) = let rest = ascii_loop s in if bit_and c 0x80 == 0 then rest else false

pub strisascii : List ℕ → ℕ → Bool
unfolding ascii_loop
strisascii s size = ascii_loop (text_at s size)

-- Whether a character starts with the byte.
abbrev pub is_start : ℕ → Bool
is_start uc = ltb uc 0x80 || leb 0xC0 uc

-- The loop down from `pos`.
cut_loop : List ℕ → ℕ → ℕ → ℕ
cut_loop s sublen zero = zero
cut_loop s sublen (suc pos) =
    let less = cut_loop s sublen pos in
    if is_start (get_or s (suc pos) 0) && leb (suc pos) sublen then suc pos else less

pub utf8_sizesubstr : List ℕ → ℕ → ℕ
unfolding cut_loop
utf8_sizesubstr s sublen =
    if ltb (length s) sublen
    then length s
    else if get_or s 0 0 == 0
    then 0
    else cut_loop s sublen (length s - 1)

abbrev follower : ℕ → ℕ
follower x = bit_or (bit_and x 0x3F) 0x80

pub unicode2utf8 : ℕ → List ℕ
unicode2utf8 ucode =
    if ltb ucode 0x80
    then ucode ∷ []
    else if ltb ucode 0x800
    then bit_or (bit_and (ucode / 2 ^ 6) 0x1F) 0xC0 ∷ follower ucode ∷ []
    else if ltb ucode 0x10000
    then bit_or (bit_and (ucode / 2 ^ 12) 0x0F) 0xE0
      ∷ follower (ucode / 2 ^ 6)
      ∷ follower ucode
      ∷ []
    else if ltb ucode 0x200000
    then bit_or (bit_and (ucode / 2 ^ 18) 0x07) 0xF0
      ∷ follower (ucode / 2 ^ 12)
      ∷ follower (ucode / 2 ^ 6)
      ∷ follower ucode
      ∷ []
    else if ltb ucode 0x4000000
    then bit_or (bit_and (ucode / 2 ^ 24) 0x03) 0xF8
      ∷ follower (ucode / 2 ^ 18)
      ∷ follower (ucode / 2 ^ 12)
      ∷ follower (ucode / 2 ^ 6)
      ∷ follower ucode
      ∷ []
    else bit_or (bit_and (ucode / 2 ^ 30) 0x01) 0xFC
      ∷ follower (ucode / 2 ^ 24)
      ∷ follower (ucode / 2 ^ 18)
      ∷ follower (ucode / 2 ^ 12)
      ∷ follower (ucode / 2 ^ 6)
      ∷ follower ucode
      ∷ []
