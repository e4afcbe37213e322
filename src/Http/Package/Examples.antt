-- ===== src/Http/Package/Examples.antt =====
-- ec_http.h: runs, and the theorems at concrete values.
use eclib.Common.{ℕ, ◌≡◌, refl, [], ◌∷◌, ◌++◌, some, List}
use eclib.Common.{length}
use eclib.Common.Texts.{codes}
use eclib.Http.Package.Samples.{post, post-IsPackage}
use eclib.Http.Package.Roundtrip.{package_text, parse_lem}
use eclib.Http.{
  e_ver, getline, parse_request, headitem, is_multiline, is_endline, trim, skip, ieq, stoi,
}
use eclib.Http.Package.{
  done, failed, waits, parse, parse_head, head_line, head_round, with_request, first_line, add_item,
  body_size, size_allowed, end_head, trim_val, is_none_left, extend_last, get_url, getattr,
  get_head_filed,
}

abbrev text : List ℕ
text = codes "POST /a HTTP/1.1\r\nHost: b\r\nContent-Length: 2\r\n\r\nhi"

run_all : Unit {0}
unfolding parse parse_head head_line head_round with_request first_line add_item body_size
    size_allowed end_head trim_val is_none_left extend_last getline parse_request headitem
    is_multiline is_endline trim skip ieq stoi get_url getattr get_head_filed
run_all = tt

parsed :
    parse (text ++ codes "next")
    ≡ some (
        done 50 (record {
          req = record { method = codes "POST"; url = codes "/a"; ver = codes "HTTP/1.1" };
          head =
              record { key = codes "Host"; val = codes "b" }
              ∷ record { key = codes "Content-Length"; val = codes "2" }
              ∷ [];
          body = codes "hi";
        }))
unfolding run_all
parsed = refl

in_part : parse (codes "GET / HTTP/1.1\r\nHost: b\r\n") ≡ some waits
unfolding run_all
in_part = refl

wrong_version : parse (codes "GET / HTTP/2\r\nHost: b\r\n") ≡ some (failed e_ver)
unfolding run_all
wrong_version = refl

parse_lem_example :
    parse (package_text post.req post.head (post.body ++ codes "next"))
    ≡ some (done (length (package_text post.req post.head post.body)) post)
parse_lem_example = parse_lem post (codes "next") post-IsPackage
