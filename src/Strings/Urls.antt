-- ===== src/Strings/Urls.antt =====
-- ec_string.h: utf82url and url2utf8. Their rounds are those of urlencode and urldecode in ec_http.h; a
-- text ends at its zero, so its list holds none.
mod Examples
use eclib.Common.{ℕ, ◌≡◌, refl, ap, ◌∙◌, List, [], ◌∷◌, ◌++◌, All}
use eclib.Http.Url.{encoded, urldecode}
use eclib.Http.Url.Bytes.{IsUrlByte, encoded_byte, urldecode-nil}

pub utf82url : List ℕ → List ℕ
utf82url [] = []
utf82url (p ∷ url) = encoded p ++ utf82url url

pub url2utf8 : List ℕ → List ℕ
url2utf8 url = urldecode url

-- A text whose bytes are not zero, % or + is read back from its url.
pub url2utf8-utf82url : (s : List ℕ) → All IsUrlByte s → url2utf8 (utf82url s) ≡ s
unfolding utf82url url2utf8
url2utf8-utf82url [] h = urldecode-nil
url2utf8-utf82url (c ∷ s) h =
    encoded_byte c (utf82url s) h.0 ∙ ap (λ (t : List ℕ). c ∷ t) (url2utf8-utf82url s h.1)
