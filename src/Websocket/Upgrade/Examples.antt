-- ===== src/Websocket/Upgrade/Examples.antt =====
-- ec_netss_ws.h: requests and an upgrade, at concrete values.
use eclib.Common.{
  true, All, ◌≢◌, Bool, inr, ◌==◌, if◌then◌else◌, drop, suc, ℕ, ◌≡◌, refl, false, List, [], ◌∷◌,
  ◌++◌, length, Option, none, some, arith,
}
use mathlib.Core.List.{replicate}
use eclib.Common.Texts.{codes}
use eclib.ParseBuffer.{ParseBuffer}
use eclib.ParseBuffer.Bytes.{held, IsBuffer}
use eclib.Http.{atoi}
use eclib.Http.Package.{get_head_filed}
use eclib.Http.Package.Samples.{post, post-IsPackage, upgrade, upgrade-IsPackage}
use eclib.Http.Package.Roundtrip.{package_text}
use eclib.Http.Fields.Samples.{
  upgrade-extensions, foo-bytes, deflate-bytes, post-not_get, upgrade-get, connection, upgrades,
  connection-names, connection-IsFieldWord, upgrades-names, upgrades-IsFieldWord, upgrade-has_key,
  upgrade-version, thirteen,
}
use eclib.Strings.{c_str}
use eclib.Websocket.Receive.{he_ok, he_waitdata}
use eclib.Websocket.Upgrade.Offers.{IsOffer, chosen, answer_text}
use eclib.Websocket.Upgrade.{Peer, asked, text_of, read_http}
use eclib.Websocket.Upgrade.Requests.{read_http_lem, upgrade_lem, read_http_part}

abbrev deflate : List ℕ → Option (List ℕ)
deflate bytes = none

abbrev accept : List ℕ → List ℕ
accept text = codes "sum"

abbrev iosend : List ℕ → Option ℕ
iosend bytes = some (suc (length bytes))

abbrev http : Peer
http = record { nws = 0; wscompress = 0 }

post-asked : asked post ≡ some none
unfolding asked
post-asked = rw post-not_get refl

version :
    atoi (text_of (get_head_filed (codes "Sec-WebSocket-Version") 128 upgrade)) ≡ some (false, 13)
unfolding text_of c_str
version = rw upgrade-version thirteen

abbrev post_text : List ℕ
post_text = package_text post.req post.head post.body

-- A buffer with the first four bytes of a request.
abbrev begun : List ℕ → ParseBuffer
begun four = record {
  head = 1;
  tail = 5;
  bufsize = 7;
  pos = 0;
  pbuf = some (0 ∷ four ++ 0 ∷ 0 ∷ []);
}

read_http_lem_example :
    (after : ParseBuffer) × (read_http deflate accept iosend
        (some (replicate 500 0))
        (drop 4 post_text ++ codes "next")
        http
        (begun (codes "POST"))
      ≡ some (record { status = he_ok; msg = post_text; peer = http; sent = none; rbuf = after }))
    × IsBuffer after
    × (held after ≡ codes "next")
read_http_lem_example =
    read_http_lem deflate accept iosend post (codes "next") (drop 4 post_text ++ codes "next")
      (replicate 500 0) http (begun (codes "POST")) post-IsPackage (omega arith)
      (omega arith, omega arith, refl) (omega arith) refl post-asked

abbrev upgrade_text : List ℕ
upgrade_text = package_text upgrade.req upgrade.head []

abbrev offered : List (List ℕ)
offered = codes "foo" ∷ codes "permessage-deflate" ∷ []

abbrev no_zero : List ℕ → Bool
no_zero [] = true
no_zero (c ∷ s) = if c == 0 then false else no_zero s

not_first : (b x : Bool) → (if b then false else x) ≡ true → (b ≡ false) × (x ≡ true)
not_first true x h = absurd cc
not_first false x h = (refl, h)

no_zero_lem : (s : List ℕ) → no_zero s ≡ true → All (λ c. c ≢ 0) s
no_zero_lem [] h = tt
no_zero_lem (c ∷ s) h =
    let (other, rest) = not_first (c == 0) (no_zero s) h in
    ((λ e. ground arith), no_zero_lem s rest)

offered-IsOffer : All IsOffer offered
offered-IsOffer = (
  record {
    bytes = foo-bytes;
    text = no_zero_lem (codes "foo") refl;
    some_byte = omega arith;
    short = omega arith;
  },
  (
    record {
      bytes = deflate-bytes;
      text = no_zero_lem (codes "permessage-deflate") refl;
      some_byte = omega arith;
      short = omega arith;
    },
    tt,
  ),
)

upgrade_lem_example :
    (after : ParseBuffer) × (read_http deflate accept iosend
        (some (replicate 500 0))
        (drop 4 upgrade_text)
        http
        (begun (codes "GET "))
      ≡ some (record {
        status = he_waitdata;
        msg = [];
        peer = record { nws = 1; wscompress = (chosen offered).0 };
        sent = some (
            answer_text accept
              (codes "abc=")
              (text_of (get_head_filed (codes "Sec-WebSocket-Protocol") 128 upgrade))
              (get_head_filed (codes "Host") 256 upgrade)
              (chosen offered).1);
        rbuf = after;
      }))
    × IsBuffer after
    × (held after ≡ [])
upgrade_lem_example =
    upgrade_lem deflate accept iosend upgrade [] (drop 4 upgrade_text) (replicate 500 0) http
      (begun (codes "GET ")) upgrade-IsPackage (omega arith) (omega arith, omega arith, refl)
      (omega arith) refl (codes "abc=") length connection upgrades offered upgrade-get
      connection-names.0 connection-IsFieldWord connection-names.1 upgrades-names.0
      upgrades-IsFieldWord upgrades-names.1 upgrade-has_key (no_zero_lem (codes "abc=") refl) refl
      version offered-IsOffer (inr upgrade-extensions) (λ answer. refl)

-- A request that is cut within a line of its head.
abbrev front : List ℕ
front = codes "POST /a HTTP/1.1\r\nHost: b"

abbrev back : List ℕ
back = codes " c\r\ncontent-length: 2\r\n\r\nhi"

read_http_part_example :
    (after : ParseBuffer) × (read_http deflate accept iosend
        (some (replicate 500 0))
        (drop 4 front)
        http
        (begun (codes "POST"))
      ≡ some (record { status = he_waitdata; msg = []; peer = http; sent = none; rbuf = after }))
    × IsBuffer after
    × (held after ≡ front)
read_http_part_example =
    read_http_part deflate accept iosend post.req post.head post.body front back (drop 4 front)
      (replicate 500 0) http (begun (codes "POST")) post-IsPackage (omega arith) refl (omega arith)
      (omega arith, omega arith, refl) (omega arith) refl
