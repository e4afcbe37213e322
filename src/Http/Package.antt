-- ===== src/Http/Package.antt =====
-- ec_http.h: the class `package`, a request or an answer with its head and its body.
pub mod Lines
pub mod Words
pub mod Heads
pub mod Roundtrip
pub mod Prefix
pub mod Samples
mod Examples
use eclib.Common.{
  ℕ, zero, suc, ◌+◌, ◌-◌, ◌*◌, Bool, true, false, ◌&&◌, ◌||◌, not, List, [], ◌∷◌, ◌++◌, map, length,
  take, Option, none, some, ltb, leb, ◌==◌, if◌then◌else◌,
}
use eclib.Common.Texts.{codes}
use eclib.Http.{
  Error, e_head, e_bodysize, ReqLine, Request, request, bad_request, Item, Line, got_line, e_wait,
  bad_line, ieq, trim, is_nil, getline, is_endline, is_multiline, headitem, stoi, parse_request,
}

abbrev pub max_body : ℕ
max_body = 1024 * 1024

-- `_head.capacity()`
abbrev pub max_items : ℕ
max_items = 128

pub record Package : Type 0 where
  pub req : ReqLine
  pub head : List Item
  pub body : List ℕ

-- The int that `parse` returns: the size of a package, e_wait, or an error.
pub data Parsed : Type 0 where
  done : ℕ → Package → Parsed
  waits : Parsed
  failed : Error → Parsed

-- A line that goes on with the value of the item before.
pub extend_last : List ℕ → List Item → List Item
extend_last l [] = []
extend_last l (i ∷ []) = record i { val = i.val ++ l } ∷ []
extend_last l (i ∷ j ∷ is) = i ∷ extend_last l (j ∷ is)

pub trim_val : Item → Item
trim_val i = record i { val = trim i.val }

is_none_left : List Item → Bool
is_none_left [] = true
is_none_left (i ∷ is) = false

-- The size of the body after an item was read: `stoi` where it is Content-Length. The outer `none` is
-- undefined behaviour, the inner one a size that is refused.
size_allowed : Bool × ℕ → Option ℕ
size_allowed (minus, n) = if minus && not (n == 0) || ltb max_body n then none else some n

pub body_size : Item → ℕ → Option (Option ℕ)
body_size i body =
    if ieq i.key (codes "Content-Length")
    then elim (stoi i.val) [ none ↦ none | some n ↦ some (size_allowed n) ]
    else some (some body)

-- The end of the head. `size` is the size of the text.
pub end_head : ReqLine → ℕ → List ℕ → List Item → ℕ → Parsed
end_head req size rest head body =
    if leb body (length rest)
    then done (size - length rest + body)
        (record { req = req; head = map trim_val head; body = take body rest })
    else waits

-- The item of a line, and the rest of the loop with it.
pub add_item : (List Item → ℕ → Option Parsed) → Option Item → List Item → ℕ → Option Parsed
add_item next none head body = some (failed e_head)
add_item next (some i) head body =
    if length head == max_items then some (failed e_head) else elim (body_size i body) [
      | none ↦ none
      | some none ↦ some (failed e_bodysize)
      | some (some n) ↦ next (head ++ i ∷ []) n
    ]

pub head_line :
    (List Item → ℕ → Option Parsed) → ReqLine → ℕ → List ℕ → List ℕ → List Item → ℕ → Option Parsed
head_line next req size l rest head body =
    if is_multiline l
    then (if is_none_left head then some (failed e_head) else next (extend_last l head) body)
    else if is_endline l
    then some (end_head req size rest head body)
    else add_item next (headitem l) head body

pub head_round :
    (List ℕ → List Item → ℕ → Option Parsed) → ReqLine → ℕ → Line → List Item → ℕ → Option Parsed
head_round next req size (bad_line e) head body = some (failed e)
head_round next req size e_wait head body = some waits
head_round next req size (got_line l rest) head body =
    head_line (next rest) req size l rest head body

-- The loop over the lines of the head, with fuel for its rounds.
pub parse_head : ℕ → ReqLine → ℕ → List ℕ → List Item → ℕ → Option Parsed
parse_head zero req size s head body = none
parse_head (suc fuel) req size s head body =
    head_round (parse_head fuel req size) req size (getline s) head body

pub with_request : (ReqLine → Option Parsed) → Request → Option Parsed
with_request next (bad_request e) = some (failed e)
with_request next (request req) = next req

pub first_line : ℕ → Line → Option Parsed
first_line size (bad_line e) = some (failed e)
first_line size e_wait = some waits
first_line size (got_line l rest) =
    with_request (λ req. parse_head (suc (length rest)) req size rest [] 0) (parse_request (trim l))

pub parse : List ℕ → Option Parsed
parse s = first_line (length s) (getline s)

-- The value of the first item with the key.
unfoldable pub getattr : List ℕ → List Item → Option (List ℕ)
getattr key [] = none
getattr key (i ∷ is) = let rest = getattr key is in if ieq i.key key then some i.val else rest

-- The text that fits a buffer of `size` bytes with its final zero.
unfoldable pub get_head_filed : List ℕ → ℕ → Package → Option (List ℕ)
get_head_filed key size p = elim (getattr key p.head) [
  | none ↦ none
  | some v ↦ if leb size (length v) then none else some v
]

pub get_url : List ℕ → List ℕ
get_url [] = []
get_url (c ∷ s) = let rest = get_url s in if c == b'?' then [] else c ∷ rest
