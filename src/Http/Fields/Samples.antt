-- ===== src/Http/Fields/Samples.antt =====
-- ec_http.h: what the fields of two requests say.
use eclib.Common.{
  length, ◌<◌, ℕ, List, Bool, [], ◌∷◌, All, not, ◌&&◌, ◌==◌, arith, ◌≡◌, refl, true, false, some,
}
use eclib.Common.Texts.{codes}
use eclib.Http.Fields.Lists.{joined, IsFieldWord, names}
use eclib.Http.Fields.Words.{IsWordByte}
use eclib.Http.{is_blank, ieq, atoi, signed, skip_space, in_int, number}
use eclib.Http.Package.{getattr, get_head_filed}
use eclib.Http.Package.Samples.{post, upgrade}
use eclib.Http.Fields.{
  keep_word, trim_tail, is_split, word_is, field_has, return_or, last_word, returned, next_out,
  strnext_loop, strnext, has_word, check_head_filed, get_websocket_key, ismethod,
}

run_all : Unit {0}
unfolding keep_word trim_tail is_split word_is field_has return_or last_word returned next_out
    strnext_loop strnext has_word check_head_filed get_websocket_key ismethod ieq getattr
    get_head_filed atoi signed skip_space in_int number
run_all = tt

pub post-not_get : ismethod (codes "GET") post ≡ false
unfolding run_all
post-not_get = refl

pub upgrade-get : ismethod (codes "GET") upgrade ≡ true
unfolding run_all
upgrade-get = refl

pub upgrade-version : get_head_filed (codes "Sec-WebSocket-Version") 128 upgrade ≡ some (codes "13")
unfolding run_all
upgrade-version = refl

pub thirteen : atoi (codes "13") ≡ some (false, 13)
unfolding run_all
thirteen = refl

pub upgrade-extensions :
    get_head_filed (codes "Sec-WebSocket-Extensions") 256 upgrade
    ≡ some (codes "foo, permessage-deflate")
unfolding run_all
upgrade-extensions = refl

abbrev clean : List ℕ → List ℕ → Bool
clean split [] = true
clean split (c ∷ w) =
    not (is_split split c)
    && (not (c == b'\n') && (not (c == b'\r') && (not (is_blank c) && clean split w)))

not_and : (a b : Bool) → (not a && b) ≡ true → (a ≡ false) × (b ≡ true)
not_and true b h = absurd cc
not_and false b h = (refl, h)

clean_lem :
    (split : List ℕ) (n : ℕ) (w : List ℕ) → clean split w ≡ true → All (IsWordByte split n) w
clean_lem split n [] h = tt
clean_lem split n (c ∷ w) h =
    let (separator, h1) = not_and (is_split split c) _ h in
    let (newline, h2) = not_and (c == b'\n') _ h1 in
    let (return, h3) = not_and (c == b'\r') _ h2 in
    let (blank, h4) = not_and (is_blank c) (clean split w) h3 in
    ((separator, (λ e. ground arith), (λ e. ground arith), blank), clean_lem split n w h4)

pub foo-bytes : All (IsWordByte (codes ";,") 64) (codes "foo")
unfolding run_all
foo-bytes = clean_lem (codes ";,") 64 (codes "foo") refl

pub deflate-bytes : All (IsWordByte (codes ";,") 64) (codes "permessage-deflate")
unfolding run_all
deflate-bytes = clean_lem (codes ";,") 64 (codes "permessage-deflate") refl

-- The words of the fields Connection and Upgrade.
abbrev pub connection : List (List ℕ)
connection = codes "keep-alive" ∷ codes "Upgrade" ∷ []

abbrev pub upgrades : List (List ℕ)
upgrades = codes "websocket" ∷ []

field_word :
    (w : List ℕ) → clean (codes ",;") w ≡ true → 0 < length w → length w < 80 → IsFieldWord w
field_word w h some_byte short = record {
  bytes = clean_lem (codes ",;") 80 w h;
  some_byte = some_byte;
  short = short;
}

pub connection-IsFieldWord : All IsFieldWord connection
unfolding run_all
connection-IsFieldWord = (
  field_word (codes "keep-alive") refl (omega arith) (omega arith),
  (field_word (codes "Upgrade") refl (omega arith) (omega arith), tt),
)

pub upgrades-IsFieldWord : All IsFieldWord upgrades
unfolding run_all
upgrades-IsFieldWord = (field_word (codes "websocket") refl (omega arith) (omega arith), tt)

pub connection-names :
    (getattr (codes "Connection") upgrade.head ≡ some (joined connection))
    × (names (codes "Upgrade") connection ≡ true)
unfolding run_all
connection-names = (refl, refl)

pub upgrades-names :
    (getattr (codes "Upgrade") upgrade.head ≡ some (joined upgrades))
    × (names (codes "websocket") upgrades ≡ true)
unfolding run_all
upgrades-names = (refl, refl)

pub upgrade-has_key : get_head_filed (codes "Sec-WebSocket-Key") 128 upgrade ≡ some (codes "abc=")
unfolding run_all
upgrade-has_key = refl
