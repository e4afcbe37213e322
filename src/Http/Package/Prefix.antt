-- ===== src/Http/Package/Prefix.antt =====
-- ec_http.h, `package::parse`: a request that has come in part, cut at any byte, is waited for.
use eclib.Common.{
  ℕ, zero, suc, ◌+◌, ◌≤◌, ◌<◌, ◌≡◌, ◌⊎◌, refl, sym, ap, ◌∙◌, false, List, [], ◌∷◌, ◌++◌, length,
  All, some, arith, ltb, leb, ◌==◌, inl, inr, length-append,
}
use mathlib.Core.List.{append_assoc}
use eclib.Http.{
  Item, ReqLine, Line, no_end, cons_line, scan_line, size_checked, e_wait, getline, max_line,
}
use eclib.Http.Package.{waits, max_items, parse, first_line, parse_head, head_round, end_head}
use eclib.Http.Package.Lines.{NoReturn, crlf, getline_lem}
use eclib.Http.Package.Words.{request_text}
use eclib.Http.Package.Heads.{
  IsItem, item_line, raw, Announces, head_text, head_line_lem, end_line, body_size_lem,
}
use eclib.Http.Package.Roundtrip.{IsPackage, package_text, parse_behind, request-NoReturn}

-- A text that is cut in two is cut within its front, or behind it.
abbrev CutIn : List ℕ → List ℕ → Type 0
CutIn front part = (cut : List ℕ) × (0 < length cut) × (part ++ cut ≡ front)

abbrev CutBehind : List ℕ → List ℕ → List ℕ → List ℕ → Type 0
CutBehind front back part more = (left : List ℕ) × (part ≡ front ++ left) × (left ++ more ≡ back)

cut_lem :
    (front back part more : List ℕ)
    → part ++ more ≡ front ++ back
    → CutIn front part ⊎ CutBehind front back part more
cut_lem [] back part more same = inr (part, refl, same)
cut_lem (x ∷ front) back [] more same = inl (x ∷ front, omega arith, refl)
cut_lem (x ∷ front) back (y ∷ part) more same =
    let first : y ≡ x = cc in
    let others : part ++ more ≡ front ++ back = cc in
    elim (cut_lem front back part more others) [
      | inl (cut, some_byte, eq) ↦
          inl (cut, some_byte, ap (λ (l : List ℕ). y ∷ l) eq ∙ ap (λ (c : ℕ). c ∷ front) first)
      | inr (left, eq, rest) ↦
          inr (left, ap (λ (l : List ℕ). y ∷ l) eq ∙ ap (λ (c : ℕ). c ∷ front ++ left) first, rest)
    ]

-- Before its end a line has no end.
scan_line_part :
    (xs part cut : List ℕ)
    → NoReturn xs
    → 0 < length cut
    → part ++ cut ≡ xs ++ crlf
    → (n : ℕ) × (scan_line part ≡ no_end n) × (n ≤ length part)
unfolding scan_line
scan_line_part xs [] cut h some_byte same = (0, refl, omega arith)
scan_line_part xs (c ∷ []) cut h some_byte same = (0, refl, omega arith)
scan_line_part [] (c ∷ d ∷ part) cut h some_byte same =
    let size = ap length same in let sum = length-append part cut in absurd (omega arith)
scan_line_part (x ∷ xs) (c ∷ d ∷ part) cut h some_byte same =
    let first : x ≡ c = cc in
    let others : d ∷ part ++ cut ≡ xs ++ crlf = cc in
    let (n, scans, small) = scan_line_part xs (d ∷ part) cut h.1 some_byte others in
    let test : (c == 13) ≡ false = ground (arith, h.0) in
    (suc n, rw test (ap (cons_line c) scans), omega arith)

getline_part :
    (xs part : List ℕ)
    → NoReturn xs
    → length (xs ++ crlf) ≤ max_line
    → CutIn (xs ++ crlf) part
    → getline part ≡ e_wait
unfolding getline size_checked
getline_part xs part h small (cut, some_byte, same) =
    let (n, scans, few) = scan_line_part xs part cut h some_byte same in
    let size = ap length same in
    let sum = length-append part cut in
    let test : ltb max_line n ≡ false = ground arith in rw (scans, test) refl

module _ (req : ReqLine) (size : ℕ) (body : List ℕ) where
  parse_head_part :
      (is : List Item) (fuel : ℕ) (head : List Item) (before : ℕ) (part more : List ℕ)
      → length part < fuel
      → All IsItem is
      → length head + length is ≤ max_items
      → Announces is before (length body)
      → 0 < length more
      → part ++ more ≡ head_text is (13 ∷ 10 ∷ body)
      → parse_head fuel req size part head before ≡ some waits
  unfolding parse_head head_round end_head
  parse_head_part is zero head before part more enough good few said some_byte same =
      absurd (omega arith)
  parse_head_part [] (suc fuel) head before part more enough good few said some_byte same =
      elim (cut_lem crlf body part more same) [
        | inl cut ↦
            ap (λ (l : Line). head_round (parse_head fuel req size) req size l head before)
              (getline_part [] part tt (omega arith) cut)
        | inr (left, front, back) ↦
            let whole = ap length back in
            let sum = length-append left more in
            let test : leb before (length left) ≡ false = ground arith in
            ap (λ (l : List ℕ). parse_head (suc fuel) req size l head before) front
            ∙ end_line req size left before fuel head before
            ∙ rw test refl
      ]
  parse_head_part (i ∷ is) (suc fuel) head before part more enough good few said some_byte same =
      elim (cut_lem (item_line i ++ crlf) (head_text is (13 ∷ 10 ∷ body)) part more
        (same ∙ sym (append_assoc (item_line i) crlf (head_text is (13 ∷ 10 ∷ body))))) [
          | inl cut ↦
              ap (λ (l : Line). head_round (parse_head fuel req size) req size l head before)
                (getline_part (item_line i) part good.0.no_return good.0.short cut)
          | inr (left, front, back) ↦
              let (k, sized, onward) = body_size_lem i is before (length body) said in
              let line_first : part ≡ item_line i ++ 13 ∷ 10 ∷ left =
                front ∙ append_assoc (item_line i) crlf left in
              let read = getline_lem (item_line i) left good.0.no_return good.0.short in
              let shorter = ap length front in
              let sum = length-append (item_line i ++ crlf) left in
              let line = length-append (item_line i) crlf in
              let rest =
                parse_head_part is fuel (head ++ raw i ∷ []) k left more (omega arith) good.1
                  (omega (arith, length-append head (raw i ∷ []))) onward some_byte back in
              ap
                (λ (l : List ℕ).
                  head_round (parse_head fuel req size) req size (getline l) head before)
                line_first
              ∙ ap (λ (l : Line). head_round (parse_head fuel req size) req size l head before) read
              ∙ head_line_lem req size left k (parse_head fuel req size left) i left head before k
                  good.0 (omega arith) sized
              ∙ rest
        ]

-- Whatever part of a request has come, from nothing to all but its last byte, the parser waits.
pub parse_prefix :
    (req : ReqLine) (head : List Item) (body part more : List ℕ)
    → IsPackage req head (length body)
    → 0 < length more
    → part ++ more ≡ package_text req head body
    → parse part ≡ some waits
unfolding parse first_line
parse_prefix req head body part more h some_byte same =
    elim (cut_lem (request_text req ++ crlf) (head_text head (13 ∷ 10 ∷ body)) part more
      (same ∙ sym (append_assoc (request_text req) crlf (head_text head (13 ∷ 10 ∷ body))))) [
        | inl cut ↦
            ap (first_line (length part))
              (getline_part (request_text req) part (request-NoReturn req h.request) h.short cut)
        | inr (left, front, back) ↦
            ap parse (front ∙ append_assoc (request_text req) crlf left)
            ∙ parse_behind req left h.request h.short
            ∙ parse_head_part req (length (request_text req ++ 13 ∷ 10 ∷ left)) body head
                (suc (length left)) [] 0 left more (omega arith) h.items (omega (arith, h.few))
                h.announced some_byte back
      ]
