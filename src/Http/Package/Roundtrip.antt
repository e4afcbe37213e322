-- ===== src/Http/Package/Roundtrip.antt =====
-- ec_http.h, `package::parse`: a request that was written is read back, and waited for.
use eclib.Common.{
  ℕ, suc, ◌+◌, ◌-◌, ◌≤◌, ◌<◌, ◌≡◌, ◌≢◌, refl, sym, ap, ◌∙◌, true, false, List, [], ◌∷◌, ◌++◌, map,
  length, All, some, arith, leb, length-append, take-append_length,
}
use mathlib.Core.List.{append_assoc}
use eclib.Http.{Item, ReqLine, rtrim, parse_request, max_line}
use eclib.Http.Package.{
  Package, done, waits, max_items, parse, first_line, with_request, parse_head, end_head, trim_val,
}
use eclib.Http.Package.Lines.{
  NoReturn, IsTrimmed, IsToken, crlf, getline_lem, trim-crlf, rtrim-append, rtrim_token,
  NoReturn-append, token-NoReturn,
}
use eclib.Http.Package.Words.{IsRequest, request_text, parse_request_lem}
use eclib.Http.Package.Heads.{IsItem, item_line, raw, Announces, head_text, parse_head_lem}

-- A package as it is written: the request line, the items, an empty line and the body.
abbrev pub package_text : ReqLine → List Item → List ℕ → List ℕ
package_text req head body = request_text req ++ (13 ∷ 10 ∷ head_text head (13 ∷ 10 ∷ body))

-- A request whose lines the parser accepts, with a head that announces a body of `n` bytes.
pub record IsPackage (req : ReqLine) (head : List Item) (n : ℕ) : Type 0 where
  pub request : IsRequest req
  pub short : length (request_text req ++ crlf) ≤ max_line
  pub items : All IsItem head
  pub few : length head ≤ max_items
  pub announced : Announces head 0 n

append-ne-nil : (xs ys : List ℕ) → ys ≢ [] → xs ++ ys ≢ []
append-ne-nil [] ys h e = h e
append-ne-nil (x ∷ xs) ys h e = cc

pub request-NoReturn : (r : ReqLine) → IsRequest r → NoReturn (request_text r)
request-NoReturn r h =
    NoReturn-append r.method (32 ∷ (r.url ++ 32 ∷ r.ver)) (token-NoReturn r.method h.method.1) (
      (λ e. omega arith),
      NoReturn-append r.url (32 ∷ r.ver) (token-NoReturn r.url h.url.1)
          ((λ e. omega arith), token-NoReturn r.ver h.ver.1),
    )

request-rtrim : (r : ReqLine) → IsRequest r → rtrim (request_text r) ≡ request_text r
request-rtrim r h =
    let ver = rtrim-append (32 ∷ []) r.ver h.ver.0 (rtrim_token r.ver h.ver.1) in
    let full = append-ne-nil r.url (32 ∷ r.ver) (λ e. cc) in
    let url = rtrim-append r.url (32 ∷ r.ver) (λ e. cc) ver in
    rtrim-append r.method (32 ∷ (r.url ++ 32 ∷ r.ver)) (λ e. cc)
      (rtrim-append (32 ∷ []) (r.url ++ 32 ∷ r.ver) full url)

token_first-IsTrimmed :
    (m rest : List ℕ) → IsToken m → rtrim (m ++ rest) ≡ m ++ rest → IsTrimmed (m ++ rest)
token_first-IsTrimmed [] rest h e = absurd (h.0 refl)
token_first-IsTrimmed (c ∷ m) rest h e = (h.1.0, e)

items_back : (is : List Item) → All IsItem is → map trim_val (map raw is) ≡ is
unfolding trim_val
items_back [] h = refl
items_back (i ∷ is) h =
    ap (λ (v : List ℕ). record i { val = v } ∷ map trim_val (map raw is)) (trim-crlf i.val h.0.val)
    ∙ ap (λ (l : List Item). i ∷ l) (items_back is h.1)

head_text_size :
    (is : List Item) (rest : List ℕ)
    → (length (head_text is rest) ≡ length (head_text is []) + length rest)
      × (length is ≤ length (head_text is []))
head_text_size [] rest = (omega arith, omega arith)
head_text_size (i ∷ is) rest =
    let (size, many) = head_text_size is rest in
    let whole = length-append (item_line i) (13 ∷ 10 ∷ head_text is rest) in
    let front = length-append (item_line i) (13 ∷ 10 ∷ head_text is []) in
    (omega arith, omega arith)

-- The first line is read, and the head is what stands behind it.
pub parse_behind :
    (req : ReqLine) (behind : List ℕ)
    → IsRequest req
    → length (request_text req ++ crlf) ≤ max_line
    → parse (request_text req ++ 13 ∷ 10 ∷ behind)
      ≡ parse_head
          (suc (length behind))
          req
          (length (request_text req ++ 13 ∷ 10 ∷ behind))
          behind
          []
          0
unfolding parse first_line with_request
parse_behind req behind h short =
    let size = length (request_text req ++ 13 ∷ 10 ∷ behind) in
    let whole =
      token_first-IsTrimmed req.method (32 ∷ (req.url ++ 32 ∷ req.ver)) h.method
        (request-rtrim req h) in
    ap (first_line size) (getline_lem (request_text req) behind (request-NoReturn req h) short)
    ∙ ap
        (λ (l : List ℕ).
          with_request (λ r. parse_head (suc (length behind)) r size behind [] 0) (parse_request l))
        (trim-crlf (request_text req) whole)
    ∙ ap (with_request (λ r. parse_head (suc (length behind)) r size behind [] 0))
        (parse_request_lem req h)

-- The loop over the head comes to its end.
parse_to_end :
    (req : ReqLine) (head : List Item) (n : ℕ) (rest : List ℕ)
    → IsPackage req head n
    → parse (package_text req head rest)
      ≡ some (end_head req (length (package_text req head rest)) rest (map raw head) n)
parse_to_end req head n rest h =
    let (sizes, many) = head_text_size head (13 ∷ 10 ∷ rest) in
    parse_behind req (head_text head (13 ∷ 10 ∷ rest)) h.request h.short
    ∙ parse_head_lem req (length (package_text req head rest)) rest n head
        (suc (length (head_text head (13 ∷ 10 ∷ rest)))) [] 0 (omega arith) h.items
        (omega (arith, h.few)) h.announced

text_size :
    (req : ReqLine) (head : List Item) (body : List ℕ)
    → length (package_text req head body) ≡ length (package_text req head []) + length body
text_size req head body =
    let line = length-append (request_text req) (13 ∷ 10 ∷ head_text head (13 ∷ 10 ∷ body)) in
    let line' = length-append (request_text req) (13 ∷ 10 ∷ head_text head (13 ∷ 10 ∷ [])) in
    let size = (head_text_size head (13 ∷ 10 ∷ body)).0 in
    let size' = (head_text_size head (13 ∷ 10 ∷ [])).0 in omega arith

end_done :
    (p : Package) (more : List ℕ)
    → All IsItem p.head
    → end_head p.req
        (length (package_text p.req p.head (p.body ++ more)))
        (p.body ++ more)
        (map raw p.head)
        (length p.body)
      ≡ done (length (package_text p.req p.head p.body)) p
unfolding end_head
end_done p more h =
    let n = length p.body in
    let both = length-append p.body more in
    let test : leb n (length (p.body ++ more)) ≡ true = ground arith in
    let large = text_size p.req p.head (p.body ++ more) in
    let small = text_size p.req p.head p.body in
    let size : length (package_text p.req p.head (p.body ++ more)) - length (p.body ++ more) + n
        ≡ length (package_text p.req p.head p.body) =
      omega arith in
    rw (test, size, items_back p.head h, take-append_length p.body more) refl

-- A request that is written with its body is parsed to the same request, whatever follows it, and the
-- result is the number of its bytes.
pub parse_lem :
    (p : Package) (more : List ℕ)
    → IsPackage p.req p.head (length p.body)
    → parse (package_text p.req p.head (p.body ++ more))
      ≡ some (done (length (package_text p.req p.head p.body)) p)
parse_lem p more h =
    parse_to_end p.req p.head (length p.body) (p.body ++ more) h ∙ ap some (end_done p more h.items)

-- As long as the body has not come whole, the parser waits.
pub parse_part :
    (req : ReqLine) (head : List Item) (n : ℕ) (part : List ℕ)
    → IsPackage req head n
    → length part < n
    → parse (package_text req head part) ≡ some waits
unfolding end_head
parse_part req head n part h short =
    let test : leb n (length part) ≡ false = ground arith in
    parse_to_end req head n part h ∙ rw test refl

head_text-append :
    (is : List Item) (body more : List ℕ) → head_text is (body ++ more) ≡ head_text is body ++ more
head_text-append [] body more = refl
head_text-append (i ∷ is) body more =
    ap (λ (l : List ℕ). item_line i ++ 13 ∷ 10 ∷ l) (head_text-append is body more)
    ∙ sym (append_assoc (item_line i) (13 ∷ 10 ∷ head_text is body) more)

pub package_text-append :
    (req : ReqLine) (head : List Item) (body more : List ℕ)
    → package_text req head (body ++ more) ≡ package_text req head body ++ more
package_text-append req head body more =
    ap (λ (l : List ℕ). request_text req ++ 13 ∷ 10 ∷ l)
      (head_text-append head (13 ∷ 10 ∷ body) more)
    ∙ sym (append_assoc (request_text req) (13 ∷ 10 ∷ head_text head (13 ∷ 10 ∷ body)) more)
