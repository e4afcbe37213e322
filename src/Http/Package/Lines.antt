-- ===== src/Http/Package/Lines.antt =====
-- ec_http.h, `ctxt`: lines and stretches that were written are found again.
use eclib.Common.{
  ℕ, ◌≤◌, ◌≡◌, ◌≢◌, refl, ap, ◌∙◌, true, false, List, [], ◌∷◌, ◌++◌, length, All, arith, ltb, ◌==◌,
}
use eclib.Http.{
  is_blank, is_ending, ltrim, rtrim, keep_first, trim, get_to, get_to_space, cons_out, line,
  scan_line, cons_line, getline, size_checked, got_line, skip, is_skipped, max_line,
}

abbrev pub crlf : List ℕ
crlf = 13 ∷ 10 ∷ []

abbrev pub NoReturn : List ℕ → Type 0
NoReturn = All (λ c. c ≢ 13)

scan_line-crlf :
    (xs rest : List ℕ) → NoReturn xs → scan_line (xs ++ 13 ∷ 10 ∷ rest) ≡ line (xs ++ crlf) rest
unfolding scan_line
scan_line-crlf [] rest h = refl
scan_line-crlf (x ∷ []) rest h =
    let other = h.0 in let test : (x == 13) ≡ false = ground arith in rw test refl
scan_line-crlf (x ∷ y ∷ xs) rest h =
    let other = h.0 in
    let test : (x == 13) ≡ false = ground arith in
    rw test (ap (cons_line x) (scan_line-crlf (y ∷ xs) rest h.1))

pub getline_lem :
    (xs rest : List ℕ)
    → NoReturn xs
    → length (xs ++ crlf) ≤ max_line
    → getline (xs ++ 13 ∷ 10 ∷ rest) ≡ got_line (xs ++ crlf) rest
unfolding getline size_checked
getline_lem xs rest h small =
    let test : ltb max_line (length (xs ++ crlf)) ≡ false = ground arith in
    ap size_checked (scan_line-crlf xs rest h) ∙ rw test refl

rtrim-crlf : (xs : List ℕ) → rtrim (xs ++ crlf) ≡ rtrim xs
unfolding rtrim keep_first
rtrim-crlf [] = refl
rtrim-crlf (x ∷ xs) = ap (keep_first x) (rtrim-crlf xs)

-- Neither end of the text is taken off by `trim`, and it has one byte at least.
abbrev pub IsTrimmed : List ℕ → Type 0
IsTrimmed [] = ⊥
IsTrimmed (c ∷ s) = (is_ending c ≡ false) × (rtrim (c ∷ s) ≡ c ∷ s)

not_blank : (c : ℕ) → is_ending c ≡ false → is_blank c ≡ false
not_blank c h = ground arith

not_skipped : (c : ℕ) → is_ending c ≡ false → is_skipped c ≡ false
not_skipped c h = ground arith

ltrim_first : (c : ℕ) (s : List ℕ) → is_ending c ≡ false → ltrim (c ∷ s) ≡ c ∷ s
unfolding ltrim
ltrim_first c s h = let test : is_blank c ≡ false = not_blank c h in rw test refl

pub trim_lem : (s : List ℕ) → IsTrimmed s → trim s ≡ s
unfolding trim
trim_lem [] h = absurd h
trim_lem (c ∷ s) (first, last) = ap rtrim (ltrim_first c s first) ∙ last

pub trim-crlf : (s : List ℕ) → IsTrimmed s → trim (s ++ crlf) ≡ s
unfolding trim
trim-crlf [] h = absurd h
trim-crlf (c ∷ s) (first, last) =
    ap rtrim (ltrim_first c (s ++ crlf) first) ∙ rtrim-crlf (c ∷ s) ∙ last

pub skip_lem : (s rest : List ℕ) → IsTrimmed s → skip (s ++ rest) ≡ s ++ rest
unfolding skip
skip_lem [] rest h = absurd h
skip_lem (c ∷ s) rest (first, last) =
    let test : is_skipped c ≡ false = not_skipped c first in rw test refl

pub skip_all : (s : List ℕ) → IsTrimmed s → skip s ≡ s
unfolding skip
skip_all [] h = absurd h
skip_all (c ∷ s) (first, last) = rw (not_skipped c first) refl

-- A text that ends in one that `trim` keeps.
pub rtrim-append : (xs ys : List ℕ) → ys ≢ [] → rtrim ys ≡ ys → rtrim (xs ++ ys) ≡ xs ++ ys
unfolding rtrim keep_first
rtrim-append xs [] h e = absurd (h refl)
rtrim-append [] (y ∷ ys) h e = e
rtrim-append (x ∷ []) (y ∷ ys) h e = ap (keep_first x) e
rtrim-append (x ∷ z ∷ xs) (y ∷ ys) h e = ap (keep_first x) (rtrim-append (z ∷ xs) (y ∷ ys) h e)

pub NoReturn-append : (xs ys : List ℕ) → NoReturn xs → NoReturn ys → NoReturn (xs ++ ys)
NoReturn-append [] ys h k = k
NoReturn-append (x ∷ xs) ys h k = (h.0, NoReturn-append xs ys h.1 k)

pub token-NoReturn : (s : List ℕ) → All (λ c. is_ending c ≡ false) s → NoReturn s
token-NoReturn [] h = tt
token-NoReturn (c ∷ s) h = let first = h.0 in ((λ e. ground arith), token-NoReturn s h.1)

pub get_to_lem :
    (d : ℕ) (k rest : List ℕ)
    → All (λ c. c ≢ d) k
    → get_to d (k ++ d ∷ rest) ≡ record { found = true; out = k; rest = rest }
unfolding get_to
get_to_lem d [] rest h = let test : (d == d) ≡ true = ground arith in rw test refl
get_to_lem d (c ∷ k) rest h =
    let other = h.0 in
    let test : (c == d) ≡ false = ground arith in
    rw test (ap (cons_out c) (get_to_lem d k rest h.1))

-- A text without white space.
abbrev pub IsToken : List ℕ → Type 0
IsToken s = (s ≢ []) × All (λ c. is_ending c ≡ false) s

pub get_to_space_lem :
    (m rest : List ℕ)
    → All (λ c. is_ending c ≡ false) m
    → get_to_space (m ++ 32 ∷ rest) ≡ record { found = true; out = m; rest = 32 ∷ rest }
unfolding get_to_space
get_to_space_lem [] rest h = refl
get_to_space_lem (c ∷ m) rest h =
    let test : is_blank c ≡ false = not_blank c h.0 in
    rw test (ap (cons_out c) (get_to_space_lem m rest h.1))

pub get_to_space_end :
    (m : List ℕ)
    → All (λ c. is_ending c ≡ false) m
    → get_to_space m ≡ record { found = false; out = m; rest = [] }
unfolding get_to_space
get_to_space_end [] h = refl
get_to_space_end (c ∷ m) h =
    let test : is_blank c ≡ false = not_blank c h.0 in
    rw test (ap (cons_out c) (get_to_space_end m h.1))

pub rtrim_token : (s : List ℕ) → All (λ c. is_ending c ≡ false) s → rtrim s ≡ s
unfolding rtrim keep_first
rtrim_token [] h = refl
rtrim_token (c ∷ []) h = rw h.0 refl
rtrim_token (c ∷ d ∷ s) h = ap (keep_first c) (rtrim_token (d ∷ s) h.1)

pub token-IsTrimmed : (s : List ℕ) → IsToken s → IsTrimmed s
token-IsTrimmed [] (some_byte, h) = some_byte refl
token-IsTrimmed (c ∷ s) (some_byte, h) = (h.0, rtrim_token (c ∷ s) h)
