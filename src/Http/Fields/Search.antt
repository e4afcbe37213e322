-- ===== src/Http/Fields/Search.antt =====
-- ec_http.h: the search of a word in a field ends.
use eclib.Common.{
  Bool-cases, inl, inr, sym, if◌then◌else◌, ℕ, zero, suc, ◌≤◌, ◌<◌, ◌≡◌, refl, ap, Bool, true,
  false, List, [], ◌∷◌, length, Option, none, some, arith,
}
use mathlib.Core.Option.{some-injective}
use eclib.Common.Texts.{codes}
use eclib.Http.{ieq}
use eclib.Http.Package.{Package, getattr}
use eclib.Http.Fields.{
  Next, last_word, returned, next_out, strnext_loop, strnext, has_word, check_head_filed,
  get_websocket_key, word_is, field_has, return_or,
}

abbrev chosen : Bool → Bool → Bool → List ℕ → List ℕ → Option Next
chosen ends nothing full w s =
    if ends
    then (if nothing then none else some (some w, s))
    else if full
    then some (none, s)
    else none

chosen_rest :
    (ends nothing full : Bool) (w s : List ℕ) (r : Next)
    → chosen ends nothing full w s ≡ some r
    → r.1 ≡ s
chosen_rest true true full w s r h = absurd cc
chosen_rest true false full w s r h = sym (ap (λ (p : Next). p.1) (some-injective _ _ h))
chosen_rest false nothing true w s r h = sym (ap (λ (p : Next). p.1) (some-injective _ _ h))
chosen_rest false nothing false w s r h = absurd cc

return_or-shorter :
    (o : Option Next) (more : Next) (s : List ℕ)
    → ((r : Next) → o ≡ some r → r.1 ≡ s)
    → length more.1 ≤ length s
    → length (return_or o more).1 ≤ length s
unfolding return_or
return_or-shorter none more s stops shorter = shorter
return_or-shorter (some r) more s stops shorter =
    let same : length r.1 ≡ length s = ap length (stops r refl) in omega arith

last_word_rest : (outsize : ℕ) (out : List ℕ) → length (last_word outsize out).1 ≡ 0
unfolding last_word
last_word_rest outsize out = ground arith

-- A call of strnext on a text that is not empty leaves less than the text.
strnext_loop-shorter :
    (split : List ℕ) (outsize c : ℕ) (s out : List ℕ)
    → length (strnext_loop split outsize (c ∷ s) out).1 ≤ length s
unfolding strnext_loop returned return_or
strnext_loop-shorter split outsize c [] out =
    return_or-shorter (returned split outsize out c []) (last_word outsize (next_out split out c))
      [] (λ r h. chosen_rest _ _ _ _ _ r h)
      (let rest = last_word_rest outsize (next_out split out c) in omega arith)
strnext_loop-shorter split outsize c (d ∷ s) out =
    return_or-shorter (returned split outsize out c (d ∷ s))
      (strnext_loop split outsize (d ∷ s) (next_out split out c)) (d ∷ s)
      (λ r h. chosen_rest _ _ _ _ _ r h)
      (let shorter = strnext_loop-shorter split outsize d s (next_out split out c) in omega arith)

pub word_shorter :
    (split : List ℕ) (outsize : ℕ) (src w : List ℕ)
    → (strnext split outsize src).0 ≡ some w
    → length (strnext split outsize src).1 < length src
unfolding strnext strnext_loop last_word
word_shorter split outsize [] w h = absurd cc
word_shorter split outsize (c ∷ s) w h =
    let shorter = strnext_loop-shorter split outsize c s [] in omega arith

word_is_lem :
    (sval : List ℕ) (word : Option (List ℕ)) (more : Option Bool)
    → ((w : List ℕ) → word ≡ some w → (b : Bool) × (more ≡ some b))
    → (b : Bool) × (word_is sval word more ≡ some b)
unfolding word_is
word_is_lem sval none more h = (false, refl)
word_is_lem sval (some w) more h = elim (Bool-cases (ieq w sval)) [
  | inl is ↦ (true, rw is refl)
  | inr is_not ↦ let (b, eq) = h w refl in (b, rw is_not eq)
]

has_word_lem :
    (fuel : ℕ) (src sval : List ℕ)
    → length src < fuel
    → (b : Bool) × (has_word fuel src sval ≡ some b)
unfolding has_word
has_word_lem zero src sval h = absurd omega arith
has_word_lem (suc fuel) src sval h =
    let next = strnext (codes ",;") 80 src in
    word_is_lem sval next.0 (has_word fuel next.1 sval) (λ w eq.
      let shorter = word_shorter (codes ",;") 80 src w eq in
      has_word_lem fuel next.1 sval (omega arith))

field_has_lem : (sval : List ℕ) (v : Option (List ℕ)) → (b : Bool) × (field_has sval v ≡ some b)
unfolding field_has
field_has_lem sval none = (false, refl)
field_has_lem sval (some v) = has_word_lem (suc (length v)) v sval (omega arith)

-- CheckHeadFiled comes to an end: the search for any word in any field of any package has a result.
pub check_head_filed_lem :
    (key sval : List ℕ) (p : Package) → (b : Bool) × (check_head_filed key sval p ≡ some b)
unfolding check_head_filed
check_head_filed_lem key sval p = field_has_lem sval (getattr key p.head)

-- GetWebSocketKey has a result too.
pub get_websocket_key_lem :
    (size : ℕ) (p : Package) → (key : Option (List ℕ)) × (get_websocket_key size p ≡ some key)
unfolding get_websocket_key
get_websocket_key_lem size p =
    let (asks, eq) = check_head_filed_lem (codes "Connection") (codes "Upgrade") p in
    let (names, eq') = check_head_filed_lem (codes "Upgrade") (codes "websocket") p in
    rw (eq, eq') (_, refl)
