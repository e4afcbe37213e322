-- ===== src/Http/Url/Examples.antt =====
-- ec_http.h: urldecode and urlencode, run on concrete texts.
use eclib.Common.{◌≡◌, refl, [], ◌∷◌, ◌++◌}
use eclib.Common.Texts.{codes}
use eclib.Http.Url.{char2hex, escaped, plain, urldecode, upper_digit, encoded}

run_all : Unit {0}
unfolding char2hex escaped plain urldecode upper_digit encoded
run_all = tt

decoded : urldecode (codes "a+b%2Fc%e4") ≡ codes "a b/c" ++ 0xe4 ∷ []
unfolding run_all
decoded = refl

cut_off : urldecode (codes "a%2") ≡ codes "a"
unfolding run_all
cut_off = refl

no_digit : urldecode (codes "a%2xb") ≡ codes "a"
unfolding run_all
no_digit = refl

one_round : encoded 0xe4 ≡ codes "%E4"
unfolding run_all
one_round = refl
