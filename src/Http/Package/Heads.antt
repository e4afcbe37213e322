-- ===== src/Http/Package/Heads.antt =====
-- ec_http.h: the items of a head, as they are written, are read back one by one.
use eclib.Common.{
  ℕ, zero, suc, ◌+◌, ◌≤◌, ◌<◌, ◌≡◌, ◌≢◌, ◌⊎◌, inl, inr, refl, ap, ◌∙◌, true, false, List, [], ◌∷◌,
  ◌++◌, map, length, All, Option, some, arith, ltb, ◌==◌, length-append,
}
use mathlib.Core.List.{append_assoc, append-nil}
use eclib.Common.Texts.{codes}
use eclib.Http.{
  Item, ReqLine, ieq, is_nil, get2c, skip, Line, getline, size_checked, scan_line, is_endline,
  is_multiline, headitem, max_line,
}
use eclib.Http.Package.{
  Parsed, max_items, max_body, body_size, size_allowed, add_item, head_line, head_round, end_head,
  parse_head,
}
use eclib.Http.Package.Lines.{
  NoReturn, IsTrimmed, crlf, getline_lem, get_to_lem, trim_lem, skip_lem,
}
use eclib.Http.Package.Words.{IsDecimal, stoi_lem}

-- The line of an item without its end.
abbrev pub item_line : Item → List ℕ
item_line i = i.key ++ (58 ∷ 32 ∷ i.val)

-- An item that a line can hold. A value may hold any byte but a carriage return.
pub record IsItem (i : Item) : Type 0 where
  pub key : IsTrimmed i.key
  pub no_colon : All (λ c. c ≢ 58) i.key
  pub val : IsTrimmed i.val
  pub no_return : NoReturn (item_line i)
  pub short : length (item_line i ++ crlf) ≤ max_line

-- The item with the line's end behind its value, as it is before the last `trim`.
abbrev pub raw : Item → Item
raw i = record i { val = i.val ++ crlf }

trimmed-not_nil : (s : List ℕ) → IsTrimmed s → is_nil s ≡ false
trimmed-not_nil [] h = absurd h
trimmed-not_nil (c ∷ s) h = refl

trimmed-not_nil_append : (s t : List ℕ) → IsTrimmed s → is_nil (s ++ t) ≡ false
trimmed-not_nil_append [] t h = absurd h
trimmed-not_nil_append (c ∷ s) t h = refl

line_split : (i : Item) → item_line i ++ crlf ≡ i.key ++ (58 ∷ 32 ∷ (i.val ++ crlf))
line_split i = append_assoc i.key (58 ∷ 32 ∷ i.val) crlf

headitem_lem : (i : Item) → IsItem i → headitem (item_line i ++ crlf) ≡ some (raw i)
unfolding headitem get2c skip
headitem_lem i h =
    ap headitem (line_split i)
    ∙ rw
        (
          get_to_lem 58 i.key (32 ∷ (i.val ++ crlf)) h.no_colon,
          trimmed-not_nil i.key h.key,
          trim_lem i.key h.key,
          trimmed-not_nil i.key h.key,
          skip_lem i.val crlf h.val,
          trimmed-not_nil_append i.val crlf h.val,
        )
        refl

not_endline : (k rest : List ℕ) → IsTrimmed k → is_endline (k ++ (58 ∷ 32 ∷ rest)) ≡ false
unfolding is_endline
not_endline [] rest h = absurd h
not_endline (c ∷ []) rest h = refl
not_endline (c ∷ d ∷ []) rest h = refl
not_endline (c ∷ d ∷ e ∷ k) rest h = refl

not_multiline : (k rest : List ℕ) → IsTrimmed k → is_multiline (k ++ rest) ≡ false
unfolding is_multiline
not_multiline [] rest h = absurd h
not_multiline (c ∷ k) rest h = let first = h.0 in ground arith

-- What the items say of the size of the body, `before` being what was said before them: the last
-- Content-Length counts.
abbrev pub Announces : List Item → ℕ → ℕ → Type 0
Announces [] before n = before ≡ n
Announces (i ∷ is) before n =
    (ieq i.key (codes "Content-Length") ≡ false) × Announces is before n
    ⊎ (ieq i.key (codes "Content-Length") ≡ true)
      × ((k : ℕ) × IsDecimal i.val k × (k ≤ max_body) × Announces is k n)

pub body_size_lem :
    (i : Item) (is : List Item) (before n : ℕ)
    → Announces (i ∷ is) before n
    → (k : ℕ) × (body_size (raw i) before ≡ some (some k)) × Announces is k n
unfolding body_size size_allowed
body_size_lem i is before n (inl (other, h)) = (before, rw other refl, h)
body_size_lem i is before n (inr (own, (k, decimal, small, h))) =
    let fits : ltb max_body k ≡ false = ground arith in
    (k, rw (own, stoi_lem i.val k decimal (omega arith), fits) refl, h)

-- The lines of the items, and what follows them.
abbrev pub head_text : List Item → List ℕ → List ℕ
head_text [] rest = rest
head_text (i ∷ is) rest = item_line i ++ (13 ∷ 10 ∷ head_text is rest)

module _ (req : ReqLine) (size : ℕ) (rest : List ℕ) (n : ℕ) where
  -- A line of an item adds it to the head.
  pub head_line_lem :
      (next : List Item → ℕ → Option Parsed) (i : Item) (follows : List ℕ) (head : List Item)
      (before k : ℕ)
      → IsItem i
      → length head < max_items
      → body_size (raw i) before ≡ some (some k)
      → head_line next req size (item_line i ++ crlf) follows head before
        ≡ next (head ++ raw i ∷ []) k
  unfolding head_line add_item
  head_line_lem next i follows head before k good few sized =
      let split = line_split i in
      let multi =
        ap is_multiline split ∙ not_multiline i.key (58 ∷ 32 ∷ (i.val ++ crlf)) good.key in
      let no_end = ap is_endline split ∙ not_endline i.key (i.val ++ crlf) good.key in
      let test : (length head == max_items) ≡ false = ground arith in
      rw (multi, no_end, headitem_lem i good, test, sized) refl

  pub end_line :
      (fuel : ℕ) (head : List Item) (before : ℕ)
      → parse_head (suc fuel) req size (13 ∷ 10 ∷ rest) head before
        ≡ some (end_head req size rest head before)
  unfolding parse_head getline size_checked scan_line head_round head_line is_multiline is_endline
  end_line fuel head before = refl

  pub parse_head_lem :
      (is : List Item) (fuel : ℕ) (head : List Item) (before : ℕ)
      → length is < fuel
      → All IsItem is
      → length head + length is ≤ max_items
      → Announces is before n
      → parse_head fuel req size (head_text is (13 ∷ 10 ∷ rest)) head before
        ≡ some (end_head req size rest (head ++ map raw is) n)
  unfolding parse_head head_round
  parse_head_lem is zero head before enough good few said = absurd (omega arith)
  parse_head_lem [] (suc fuel) head before enough good few said =
      rw (append-nil head, ← said) (end_line fuel head before)
  parse_head_lem (i ∷ is) (suc fuel) head before enough good few said =
      let (k, sized, onward) = body_size_lem i is before n said in
      let follows = head_text is (13 ∷ 10 ∷ rest) in
      let read = getline_lem (item_line i) follows good.0.no_return good.0.short in
      let more =
        parse_head_lem is fuel (head ++ raw i ∷ []) k (omega arith) good.1
          (omega (arith, length-append head (raw i ∷ []))) onward in
      ap (λ (l : Line). head_round (parse_head fuel req size) req size l head before) read
      ∙ head_line_lem (parse_head fuel req size follows) i follows head before k good.0
          (omega arith) sized
      ∙ more
      ∙ ap (λ (h : List Item). some (end_head req size rest h n))
          (append_assoc head (raw i ∷ []) (map raw is))
