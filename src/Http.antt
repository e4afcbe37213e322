-- ===== src/Http.antt =====
-- ec_http.h: the class `ctxt`, a stretch of received text, and `req_line`, the first line of a package.
-- A stretch is the list of its bytes, where a null pointer is an empty list.
pub mod Package
pub mod Fields
pub mod Url
use eclib.Common.{
  ℕ, zero, suc, ◌+◌, ◌-◌, ◌*◌, ◌^◌, Bool, true, false, ◌&&◌, ◌||◌, not, List, [], ◌∷◌, length, take,
  Option, none, some, ltb, leb, ◌==◌, if◌then◌else◌,
}
use eclib.Common.Texts.{codes}

-- The negative results.
pub data Error : Type 0 where
  e_err e_line e_linesize e_method e_url e_ver e_head e_bodysize : Error

-- `tolower` of the C library in the C locale.
tolower : ℕ → ℕ
tolower c = if leb b'A' c && leb c b'Z' then c + 32 else c

pub ieq : List ℕ → List ℕ → Bool
unfolding tolower
ieq [] [] = true
ieq [] (d ∷ t) = false
ieq (c ∷ s) [] = false
ieq (c ∷ s) (d ∷ t) = (c == d || tolower c == tolower d) && ieq s t

abbrev pub is_blank : ℕ → Bool
is_blank c = c == b' ' || c == b'\t'

-- What `trim` takes off at the right.
abbrev pub is_ending : ℕ → Bool
is_ending c = c == b'\r' || c == b'\n' || is_blank c

pub ltrim : List ℕ → List ℕ
ltrim [] = []
ltrim (c ∷ s) = let rest = ltrim s in if is_blank c then rest else c ∷ s

keep_first : ℕ → List ℕ → List ℕ
keep_first c [] = if is_ending c then [] else c ∷ []
keep_first c (d ∷ s) = c ∷ d ∷ s

pub rtrim : List ℕ → List ℕ
unfolding keep_first
rtrim [] = []
rtrim (c ∷ s) = keep_first c (rtrim s)

pub trim : List ℕ → List ℕ
unfolding ltrim rtrim
trim s = rtrim (ltrim s)

abbrev pub is_nil : List ℕ → Bool
is_nil [] = true
is_nil (c ∷ s) = false

-- What `get2c` and `get2sp` hand out, and what is left.
pub record Cut : Type 0 where
  pub found : Bool
  pub out : List ℕ
  pub rest : List ℕ

abbrev cons_out : ℕ → Cut → Cut
cons_out c r = record r { out = c ∷ r.out }

pub get_to : ℕ → List ℕ → Cut
get_to c [] = record { found = false; out = []; rest = [] }
get_to c (d ∷ s) =
    let r = get_to c s in
    if d == c then record { found = true; out = []; rest = s } else cons_out d r

pub get_to_space : List ℕ → Cut
get_to_space [] = record { found = false; out = []; rest = [] }
get_to_space (d ∷ s) =
    let r = get_to_space s in
    if is_blank d then record { found = true; out = []; rest = d ∷ s } else cons_out d r

-- The results of `get2c` and `get2sp` are true for a stretch that is not empty; `get2c` wants its
-- character too.
pub get2c : ℕ → List ℕ → Bool × Cut
unfolding get_to
get2c c s = let r = get_to c s in (r.found && not (is_nil r.out), r)

pub get2sp : List ℕ → Bool × Cut
unfolding get_to_space
get2sp s = let r = get_to_space s in (not (is_nil r.out), r)

abbrev max_line : ℕ
max_line = 4000

-- A line with its end, and what follows; or no end within the text, of which `n` bytes were looked at.
pub data Scan : Type 0 where
  line : List ℕ → List ℕ → Scan
  no_end : ℕ → Scan
  bad_end : Scan

abbrev pub cons_line : ℕ → Scan → Scan
cons_line c (line l rest) = line (c ∷ l) rest
cons_line c (no_end n) = no_end (suc n)
cons_line c bad_end = bad_end

-- The loop of `getline`, which looks at two bytes.
pub scan_line : List ℕ → Scan
scan_line [] = no_end 0
scan_line (c ∷ []) = no_end 0
scan_line (c ∷ d ∷ s) =
    let more = cons_line c (scan_line (d ∷ s)) in
    if c == b'\r' then (if d == b'\n' then line (c ∷ d ∷ []) s else bad_end) else more

pub data Line : Type 0 where
  got_line : List ℕ → List ℕ → Line
  e_wait : Line
  bad_line : Error → Line

size_checked : Scan → Line
size_checked (line l rest) =
    if ltb max_line (length l) then bad_line e_linesize else got_line l rest
size_checked (no_end n) = if ltb max_line n then bad_line e_linesize else e_wait
size_checked bad_end = bad_line e_head

pub getline : List ℕ → Line
unfolding scan_line size_checked
getline s = size_checked (scan_line s)

abbrev is_skipped : ℕ → Bool
is_skipped c = c == b'\n' || is_blank c || c == b'\r'

pub skip : List ℕ → List ℕ
skip [] = []
skip (c ∷ s) = let rest = skip s in if is_skipped c then rest else c ∷ s

pub is_endline : List ℕ → Bool
is_endline (c ∷ d ∷ []) = c == b'\r' && d == b'\n'
is_endline _ = false

pub is_multiline : List ℕ → Bool
is_multiline [] = false
is_multiline (c ∷ s) = is_blank c

-- `t_i`.
pub record Item : Type 0 where
  pub key : List ℕ
  pub val : List ℕ

-- `none` is the result false.
pub headitem : List ℕ → Option Item
unfolding get2c skip trim
headitem l =
    let (ok, r) = get2c b':' l in
    let key = trim r.out in
    let val = skip r.rest in
    if ok && not (is_nil key || is_nil val) then some (record { key = key; val = val }) else none

-- The C library's `atoi`: white space, a sign, digits up to the first other byte.
abbrev is_space : ℕ → Bool
is_space c = c == b' ' || leb 9 c && leb c 13

abbrev pub is_digit : ℕ → Bool
is_digit c = leb b'0' c && leb c b'9'

pub number : List ℕ → ℕ → ℕ
number [] n = n
number (c ∷ s) n = let more = number s (n * 10 + (c - b'0')) in if is_digit c then more else n

skip_space : List ℕ → List ℕ
skip_space [] = []
skip_space (c ∷ s) = let rest = skip_space s in if is_space c then rest else c ∷ s

-- The sign, true for a minus, and the absolute value.
signed : List ℕ → Bool × ℕ
unfolding number
signed [] = (false, 0)
signed (c ∷ s) =
    if c == b'-'
    then (true, number s 0)
    else if c == b'+'
    then (false, number s 0)
    else (false, number (c ∷ s) 0)

in_int : Bool × ℕ → Option (Bool × ℕ)
in_int (minus, n) = if ltb n (2 ^ 31) || minus && n == 2 ^ 31 then some (minus, n) else none

-- `none` is undefined behaviour: a number that no int has.
pub atoi : List ℕ → Option (Bool × ℕ)
unfolding signed skip_space in_int
atoi s = in_int (signed (skip_space s))

-- At most 31 bytes are looked at.
pub stoi : List ℕ → Option (Bool × ℕ)
unfolding atoi
stoi s = atoi (take 31 s)

pub record ReqLine : Type 0 where
  pub method : List ℕ
  pub url : List ℕ
  pub ver : List ℕ

pub data Request : Type 0 where
  request : ReqLine → Request
  bad_request : Error → Request

pub is_method : List ℕ → Bool
unfolding ieq
is_method m =
    ieq m (codes "get") || ieq m (codes "head") || ieq m (codes "put") || ieq m (codes "post")

pub is_version : List ℕ → Bool
unfolding ieq
is_version v = ieq v (codes "http/1.1") || ieq v (codes "http/1.0")

-- A status line: the code stands in `url` and the message in `ver`.
parse_status : List ℕ → List ℕ → Request
unfolding get2sp get2c skip
parse_status method s =
    let (ok, code) = get2sp (skip s) in
    let (_, message) = get2c b'\r' (skip code.rest) in
    if ok
    then request (record { method = method; url = code.out; ver = message.out })
    else bad_request e_url

ver_checked : List ℕ → Bool × Cut → Bool × Cut → Request
unfolding is_version
ver_checked method (url_ok, url) (ver_ok, ver) =
    if not url_ok
    then bad_request e_url
    else if not ver_ok || not (is_version ver.out)
    then (if is_nil ver.out && is_version url.out then bad_request e_url else bad_request e_ver)
    else request (record { method = method; url = url.out; ver = ver.out })

after_url : List ℕ → Bool × Cut → Request
unfolding get2sp skip ver_checked
after_url method url = ver_checked method url (get2sp (skip url.1.rest))

after_method : Bool × Cut → Request
unfolding get2sp skip is_version is_method parse_status after_url
after_method (ok, method) =
    if not ok
    then bad_request e_method
    else if is_version method.out
    then parse_status method.out method.rest
    else if is_method method.out
    then after_url method.out (get2sp (skip method.rest))
    else bad_request e_method

pub parse_request : List ℕ → Request
unfolding get2sp after_method
parse_request l = if is_nil l then bad_request e_err else after_method (get2sp l)
