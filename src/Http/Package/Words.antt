-- ===== src/Http/Package/Words.antt =====
-- ec_http.h: the first line of a request, and the number of a Content-Length, as they are written.
use eclib.Common.{
  ℕ, suc, ◌+◌, ◌-◌, ◌*◌, ◌^◌, ◌≤◌, ◌<◌, ◌≡◌, ◌≢◌, refl, ap, ◌∙◌, Bool, true, false, ◌||◌, ◌&&◌,
  List, [], ◌∷◌, ◌++◌, length, All, some, arith, ltb, ◌==◌, if◌then◌else◌, length-append, take-all,
  Bool-cases, inl, inr, ◌⊎◌,
}
use eclib.Common.Texts.{codes}
use eclib.Http.{
  ieq, tolower, Cut, after_method, after_url, ver_checked, is_nil, get2sp, request, bad_request,
  e_err, ReqLine, parse_request, is_method, is_version, is_digit, number, signed, skip_space,
  is_space, in_int, stoi,
}
use eclib.Http.Package.Lines.{
  IsToken, crlf, get_to_space_lem, get_to_space_end, skip_lem, skip_all, token-IsTrimmed,
}

and_right : (a b : Bool) → (a && b) ≡ true → b ≡ true
and_right true b h = h
and_right false b h = ground arith

or_cases : (a b : Bool) → (a || b) ≡ true → (a ≡ true) ⊎ (b ≡ true)
or_cases true b h = inl refl
or_cases false b h = inr h

ieq-length : (s t : List ℕ) → ieq s t ≡ true → length s ≡ length t
unfolding ieq
ieq-length [] [] h = refl
ieq-length [] (d ∷ t) h = ground arith
ieq-length (c ∷ s) [] h = ground arith
ieq-length (c ∷ s) (d ∷ t) h =
    ap suc (ieq-length s t (and_right (c == d || tolower c == tolower d) (ieq s t) h))

not_nil : (s : List ℕ) → IsToken s → is_nil s ≡ false
not_nil [] (some_byte, h) = absurd (some_byte refl)
not_nil (c ∷ s) h = refl

get2sp_lem :
    (m rest : List ℕ)
    → IsToken m
    → get2sp (m ++ 32 ∷ rest) ≡ (true, record { found = true; out = m; rest = 32 ∷ rest })
unfolding get2sp
get2sp_lem m rest h = rw (get_to_space_lem m rest h.1, not_nil m h) refl

get2sp_end :
    (m : List ℕ) → IsToken m → get2sp m ≡ (true, record { found = false; out = m; rest = [] })
unfolding get2sp
get2sp_end m h = rw (get_to_space_end m h.1, not_nil m h) refl

-- A request line as it is written.
pub record IsRequest (r : ReqLine) : Type 0 where
  pub method : IsToken r.method
  pub url : IsToken r.url
  pub ver : IsToken r.ver
  pub known : is_method r.method ≡ true
  pub version : is_version r.ver ≡ true

abbrev pub request_text : ReqLine → List ℕ
request_text r = r.method ++ (32 ∷ (r.url ++ 32 ∷ r.ver))

method-length : (m : List ℕ) → is_method m ≡ true → length m < 5
unfolding is_method
method-length m h =
    elim (or_cases (ieq m (codes "get") || ieq m (codes "head") || ieq m (codes "put"))
      (ieq m (codes "post")) h) [
        | inr e ↦ omega (arith, ieq-length m (codes "post") e)
        | inl h ↦
            elim (or_cases (ieq m (codes "get") || ieq m (codes "head")) (ieq m (codes "put")) h) [
              | inr e ↦ omega (arith, ieq-length m (codes "put") e)
              | inl h ↦ elim (or_cases (ieq m (codes "get")) (ieq m (codes "head")) h) [
                | inl e ↦ omega (arith, ieq-length m (codes "get") e)
                | inr e ↦ omega (arith, ieq-length m (codes "head") e)
              ]
            ]
      ]

version-length : (v : List ℕ) → is_version v ≡ true → length v ≡ 8
unfolding is_version
version-length v h = elim (or_cases (ieq v (codes "http/1.1")) (ieq v (codes "http/1.0")) h) [
  | inl e ↦ ieq-length v (codes "http/1.1") e
  | inr e ↦ ieq-length v (codes "http/1.0") e
]

method_apart : (m : List ℕ) → is_method m ≡ true → is_version m ≡ false
method_apart m h = elim (Bool-cases (is_version m)) [
  | inr e ↦ e
  | inl e ↦ absurd (omega (arith, method-length m h, version-length m e))
]

not_nil-append : (s t : List ℕ) → IsToken s → is_nil (s ++ t) ≡ false
not_nil-append [] t (some_byte, h) = absurd (some_byte refl)
not_nil-append (c ∷ s) t h = refl

method_done :
    (r : ReqLine)
    → IsRequest r
    → after_method
        (true, record { found = true; out = r.method; rest = 32 ∷ (r.url ++ 32 ∷ r.ver) })
      ≡ after_url r.method (get2sp (r.url ++ 32 ∷ r.ver))
unfolding after_method
method_done r h =
    rw
      (
        method_apart r.method h.known,
        h.known,
        skip_lem r.url (32 ∷ r.ver) (token-IsTrimmed r.url h.url),
      )
      refl

ver_done :
    (r : ReqLine)
    → IsRequest r
    → ver_checked r.method
        (true, record { found = true; out = r.url; rest = 32 ∷ r.ver })
        (true, record { found = false; out = r.ver; rest = [] })
      ≡ request r
unfolding ver_checked
ver_done r h = rw h.version refl

pub parse_request_lem : (r : ReqLine) → IsRequest r → parse_request (request_text r) ≡ request r
unfolding parse_request after_url
parse_request_lem r h =
    let url : Bool × Cut = (true, record { found = true; out = r.url; rest = 32 ∷ r.ver }) in
    ap (λ (b : Bool). if b then bad_request e_err else after_method (get2sp (request_text r)))
      (not_nil-append r.method (32 ∷ (r.url ++ 32 ∷ r.ver)) h.method)
    ∙ ap after_method (get2sp_lem r.method (r.url ++ 32 ∷ r.ver) h.method)
    ∙ method_done r h
    ∙ ap (after_url r.method) (get2sp_lem r.url r.ver h.url)
    ∙ ap (λ (s : List ℕ). ver_checked r.method url (get2sp s))
        (skip_all r.ver (token-IsTrimmed r.ver h.ver))
    ∙ ap (ver_checked r.method url) (get2sp_end r.ver h.ver)
    ∙ ver_done r h

number_end :
    (v rest : List ℕ) (n : ℕ)
    → All (λ c. is_digit c ≡ true) v
    → number (v ++ 13 ∷ rest) n ≡ number v n
unfolding number
number_end [] rest n h = refl
number_end (c ∷ v) rest n h = rw h.0 (number_end v rest (n * 10 + (c - b'0')) h.1)

-- A decimal number of at most 29 digits.
pub record IsDecimal (v : List ℕ) (n : ℕ) : Type 0 where
  pub digits : All (λ c. is_digit c ≡ true) v
  pub some_digit : v ≢ []
  pub short : length v ≤ 29
  pub value : number v 0 ≡ n

pub stoi_lem :
    (v : List ℕ) (n : ℕ) → IsDecimal v n → n < 2 ^ 31 → stoi (v ++ crlf) ≡ some (false, n)
unfolding stoi signed skip_space in_int
stoi_lem [] n h small = absurd (h.some_digit refl)
stoi_lem (c ∷ v) n h small =
    let first = h.digits.0 in
    let whole = take-all 31 (c ∷ v ++ crlf) (omega (arith, h.short, length-append v crlf)) in
    let no_space : is_space c ≡ false = ground arith in
    let no_minus : (c == b'-') ≡ false = ground arith in
    let no_plus : (c == b'+') ≡ false = ground arith in
    let fits : ltb n (2 ^ 31) ≡ true = ground arith in
    let digits = number_end (c ∷ v) (10 ∷ []) 0 h.digits ∙ h.value in
    rw (whole, no_space, no_minus, no_plus, digits, fits) refl
