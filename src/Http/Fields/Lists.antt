-- ===== src/Http/Fields/Lists.antt =====
-- ec_http.h: fields that hold a list of words, and what the searches find in them.
use eclib.Common.{
  ℕ, zero, suc, ◌≤◌, ◌<◌, ◌≡◌, refl, ap, ◌∙◌, Bool, true, false, List, [], ◌∷◌, ◌++◌, length, All,
  Option, some, if◌then◌else◌, arith, Bool-cases, inl, inr, length-append,
}
use eclib.Common.Texts.{codes}
use eclib.Http.{ieq}
use eclib.Http.Package.{Package, getattr, get_head_filed}
use eclib.Http.Fields.{
  Next, strnext, is_split, word_is, has_word, field_has, check_head_filed, get_websocket_key,
}
use eclib.Http.Fields.Words.{IsWordByte, strnext-word, strnext-last, strnext-space, strnext-nil}

-- The words of a field, with a comma and a space between them.
abbrev pub joined : List (List ℕ) → List ℕ
joined [] = []
joined (w ∷ []) = w
joined (w ∷ v ∷ ws) = w ++ b',' ∷ b' ' ∷ joined (v ∷ ws)

-- A word of a field has no separator, blank or line end, and less than 80 bytes.
pub record IsFieldWord (w : List ℕ) : Type 0 where
  pub bytes : All (IsWordByte (codes ",;") 80) w
  pub some_byte : 0 < length w
  pub short : length w < 80

-- Whether one of the words is `sval`, in letters of either case.
abbrev pub names : List ℕ → List (List ℕ) → Bool
names sval [] = false
names sval (w ∷ ws) = if ieq w sval then true else names sval ws

word_is_names :
    (sval w : List ℕ) (ws : List (List ℕ)) (more : Option Bool)
    → more ≡ some (names sval ws)
    → word_is sval (some w) more ≡ some (names sval (w ∷ ws))
unfolding word_is
word_is_names sval w ws more h = elim (Bool-cases (ieq w sval)) [
  | inl e ↦ rw e refl
  | inr e ↦ rw e h
]

round_lem :
    (fuel : ℕ) (src sval w rest : List ℕ) (ws : List (List ℕ))
    → strnext (codes ",;") 80 src ≡ (some w, rest)
    → has_word fuel rest sval ≡ some (names sval ws)
    → has_word (suc fuel) src sval ≡ some (names sval (w ∷ ws))
unfolding has_word
round_lem fuel src sval w rest ws next more =
    ap (λ (n : Next). word_is sval n.0 (has_word fuel n.1 sval)) next
    ∙ word_is_names sval w ws (has_word fuel rest sval) more

end_lem : (fuel : ℕ) (sval : List ℕ) → has_word (suc fuel) [] sval ≡ some false
unfolding has_word word_is
end_lem fuel sval =
    ap (λ (n : Next). word_is sval n.0 (has_word fuel n.1 sval)) (strnext-nil (codes ",;") 80)

has_word-joined :
    (ws : List (List ℕ)) (w src sval : List ℕ) (fuel : ℕ)
    → All IsFieldWord (w ∷ ws)
    → length (joined (w ∷ ws)) ≤ fuel
    → strnext (codes ",;") 80 src ≡ strnext (codes ",;") 80 (joined (w ∷ ws))
    → has_word (suc fuel) src sval ≡ some (names sval (w ∷ ws))
unfolding is_split
has_word-joined ws [] src sval fuel h enough same = absurd (let one = h.0.some_byte in omega arith)
has_word-joined [] (c ∷ w) src sval zero h enough same = absurd (omega arith)
has_word-joined (v ∷ ws) (c ∷ w) src sval zero h enough same = absurd (omega arith)
has_word-joined [] (c ∷ w) src sval (suc fuel) h enough same =
    round_lem (suc fuel) src sval (c ∷ w) [] []
      (same ∙ strnext-last (codes ",;") 80 w c h.0.bytes h.0.short) (end_lem fuel sval)
has_word-joined (v ∷ ws) (c ∷ w) src sval (suc fuel) h enough same =
    let size = length-append (c ∷ w) (b',' ∷ b' ' ∷ joined (v ∷ ws)) in
    round_lem (suc fuel) src sval (c ∷ w) (b' ' ∷ joined (v ∷ ws)) (v ∷ ws)
      (same
        ∙ strnext-word (codes ",;") 80 w (b' ' ∷ joined (v ∷ ws)) c b',' h.0.bytes h.0.short refl)
      (has_word-joined ws v (b' ' ∷ joined (v ∷ ws)) sval fuel h.1 (omega arith)
        (strnext-space (codes ",;") 80 (joined (v ∷ ws)) refl))

field_has-joined :
    (ws : List (List ℕ)) (sval : List ℕ)
    → All IsFieldWord ws
    → field_has sval (some (joined ws)) ≡ some (names sval ws)
unfolding field_has
field_has-joined [] sval h = end_lem 0 sval
field_has-joined (w ∷ ws) sval h =
    has_word-joined ws w (joined (w ∷ ws)) sval (length (joined (w ∷ ws))) h (omega arith) refl

-- A field that lists words has those that are among them.
pub check_head_filed-joined :
    (key sval : List ℕ) (p : Package) (ws : List (List ℕ))
    → getattr key p.head ≡ some (joined ws)
    → All IsFieldWord ws
    → check_head_filed key sval p ≡ some (names sval ws)
unfolding check_head_filed
check_head_filed-joined key sval p ws field h =
    ap (field_has sval) field ∙ field_has-joined ws sval h

-- A request whose fields name Upgrade and websocket has the key of its field.
pub get_websocket_key-joined :
    (p : Package) (key : List ℕ) (connection upgrade : List (List ℕ))
    → getattr (codes "Connection") p.head ≡ some (joined connection)
    → All IsFieldWord connection
    → names (codes "Upgrade") connection ≡ true
    → getattr (codes "Upgrade") p.head ≡ some (joined upgrade)
    → All IsFieldWord upgrade
    → names (codes "websocket") upgrade ≡ true
    → get_head_filed (codes "Sec-WebSocket-Key") 128 p ≡ some key
    → get_websocket_key 128 p ≡ some (some key)
unfolding get_websocket_key
get_websocket_key-joined p key connection upgrade field words asks field' words' asks' has_key =
    rw
      (
        check_head_filed-joined (codes "Connection") (codes "Upgrade") p connection field words,
        asks,
        check_head_filed-joined (codes "Upgrade") (codes "websocket") p upgrade field' words',
        asks',
        has_key,
      )
      refl
