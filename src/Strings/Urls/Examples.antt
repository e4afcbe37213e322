-- ===== src/Strings/Urls/Examples.antt =====
-- ec_string.h: a url at concrete texts.
use eclib.Common.{◌≡◌, [], ◌∷◌, arith}
use eclib.Strings.Urls.{utf82url, url2utf8, url2utf8-utf82url}

url2utf8-utf82url_example : url2utf8 (utf82url (b'a' ∷ b' ' ∷ 0xE4 ∷ [])) ≡ b'a' ∷ b' ' ∷ 0xE4 ∷ []
url2utf8-utf82url_example = url2utf8-utf82url (b'a' ∷ b' ' ∷ 0xE4 ∷ []) (
  (omega arith, omega arith, (λ e. cc), (λ e. cc)),
  (
    (omega arith, omega arith, (λ e. cc), (λ e. cc)),
    ((omega arith, omega arith, (λ e. cc), (λ e. cc)), tt),
  ),
)
