-- ===== src/Http/Fields.antt =====
-- ec_http.h: the fields of a head that `package` looks at, and strnext of ec_string.h, which cuts a text
-- into words.
pub mod Search
pub mod Words
pub mod Lists
pub mod Samples
mod Examples
use eclib.Common.{
  ℕ, zero, suc, ◌+◌, Bool, true, false, ◌&&◌, ◌||◌, not, List, [], ◌∷◌, ◌++◌, length, Option, none,
  some, leb, ◌==◌, if◌then◌else◌, ◌>>=◌,
}
use eclib.Common.Texts.{codes}
use eclib.Http.{Item, ieq, is_blank, is_nil}
use eclib.Http.Package.{Package, getattr, get_head_filed}

-- Spaces and tabs at the end of the output are deleted.
keep_word : ℕ → List ℕ → List ℕ
keep_word c [] = if is_blank c then [] else c ∷ []
keep_word c (d ∷ s) = c ∷ d ∷ s

pub trim_tail : List ℕ → List ℕ
unfolding keep_word
trim_tail [] = []
trim_tail (c ∷ s) = keep_word c (trim_tail s)

-- `strchr(split, c)`, which finds the final zero of `split` too.
pub is_split : List ℕ → ℕ → Bool
is_split [] c = c == 0
is_split (d ∷ split) c = c == d || is_split split c

-- A word and what follows it; without a word `none` and what was not looked at.
abbrev pub Next : Type 0
Next = Option (List ℕ) × List ℕ

last_word : ℕ → List ℕ → Next
unfolding trim_tail
last_word outsize out =
    if is_nil out || leb outsize (length out)
    then (none, [])
    else (if is_nil (trim_tail out) then none else some (trim_tail out), [])

-- Line ends are left out, and blanks in front of a word.
abbrev pub is_left_out : List ℕ → ℕ → Bool
is_left_out out c = c == b'\n' || c == b'\r' || is_nil out && is_blank c

-- Whether the loop returns at the byte `c`, where `out` is what `sout` holds and `s` what follows.
returned : List ℕ → ℕ → List ℕ → ℕ → List ℕ → Option Next
unfolding is_split trim_tail
returned split outsize out c s =
    if is_split split c
    then (if is_nil (trim_tail out) then none else some (some (trim_tail out), s))
    else if not (is_left_out out c) && leb outsize (length out + 1)
    then some (none, s)
    else none

-- The output when the loop goes on.
next_out : List ℕ → List ℕ → ℕ → List ℕ
unfolding is_split
next_out split out c =
    if is_split split c then [] else if is_left_out out c then out else out ++ c ∷ []

return_or : Option Next → Next → Next
return_or none more = more
return_or (some r) more = r

strnext_loop : List ℕ → ℕ → List ℕ → List ℕ → Next
unfolding returned next_out last_word return_or
strnext_loop split outsize [] out = last_word outsize out
strnext_loop split outsize (c ∷ s) out =
    let more = strnext_loop split outsize s (next_out split out c) in
    return_or (returned split outsize out c s) more

pub strnext : List ℕ → ℕ → List ℕ → Next
unfolding strnext_loop
strnext split outsize src = strnext_loop split outsize src []

word_is : List ℕ → Option (List ℕ) → Option Bool → Option Bool
word_is sval none more = some false
word_is sval (some w) more = if ieq w sval then some true else more

-- The loop of CheckHeadFiled over the words of a value, with fuel for its calls of strnext.
pub has_word : ℕ → List ℕ → List ℕ → Option Bool
unfolding strnext word_is
has_word zero src sval = none
has_word (suc fuel) src sval =
    let (word, rest) = strnext (codes ",;") 80 src in
    let more = has_word fuel rest sval in word_is sval word more

field_has : List ℕ → Option (List ℕ) → Option Bool
unfolding has_word
field_has sval none = some false
field_has sval (some v) = has_word (suc (length v)) v sval

pub check_head_filed : List ℕ → List ℕ → Package → Option Bool
unfolding field_has
check_head_filed key sval p = field_has sval (getattr key p.head)

pub has_keep_alive : Package → Option Bool
unfolding check_head_filed
has_keep_alive = check_head_filed (codes "Connection") (codes "keep-alive")

-- The key of an upgrade, for a buffer of `size` bytes; the inner `none` is the result false.
pub get_websocket_key : ℕ → Package → Option (Option (List ℕ))
unfolding check_head_filed
get_websocket_key size p = do
  asks ← check_head_filed (codes "Connection") (codes "Upgrade") p
  names ← check_head_filed (codes "Upgrade") (codes "websocket") p
  some (if asks && names then get_head_filed (codes "Sec-WebSocket-Key") size p else none)

pub ismethod : List ℕ → Package → Bool
ismethod key p = ieq p.req.method key
