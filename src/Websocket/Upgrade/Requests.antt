-- ===== src/Websocket/Upgrade/Requests.antt =====
-- ec_netss_ws.h, `base_ws`: DoReadData while the session speaks HTTP, on whole requests and on parts.
use eclib.Common.{
  All, ◌≢◌, ltb, Bool-cases, inl, inr, ℕ, zero, suc, ◌<◌, ◌≡◌, refl, ap, ◌∙◌, true, false, List, [],
  ◌++◌, length, take, drop, Option, none, some, ◌>>=◌, arith, take-append_length,
  drop-append_length,
}
use eclib.Common.Texts.{codes}
use eclib.ParseBuffer.{ParseBuffer, append, freehead}
use eclib.ParseBuffer.Bytes.{held, IsBuffer, IsLarge, append_lem, freehead_lem}
use eclib.Http.{ReqLine, Item, atoi}
use eclib.Http.Package.{getattr, Package, parse, get_head_filed}
use eclib.Http.Package.Roundtrip.{IsPackage, package_text, parse_lem, package_text-append}
use eclib.Http.Fields.{get_websocket_key, strnext, ismethod}
use eclib.Http.Fields.Lists.{joined, IsFieldWord, names, get_websocket_key-joined}
use eclib.Http.Fields.Search.{word_shorter, get_websocket_key_lem}
use eclib.Strings.{c_str}
use eclib.Websocket.Receive.{he_ok, he_waitdata}
use eclib.Websocket.Session.{ws_send}
use eclib.Http.Package.Prefix.{parse_prefix}
use eclib.Websocket.Upgrade.Offers.{
  IsOffer, chosen, Offers, offers_lem, answer_text, switch_text_lem,
}
use eclib.Websocket.Upgrade.{
  Peer, extension, extension_of, extension_loop, first_of, negotiated, switch_text, switch,
  by_version, do_upgrade, asked, serve, serve_key, read_http, text_of, switched, sends,
}

extension_of_lem :
    (word : Option (List ℕ)) (more : Option (ℕ × List ℕ))
    → ((w : List ℕ) → word ≡ some w → (r : ℕ × List ℕ) × (more ≡ some r))
    → (r : ℕ × List ℕ) × (extension_of word more ≡ some r)
unfolding extension_of first_of
extension_of_lem none more h = (_, refl)
extension_of_lem (some w) more h =
    elim (extension w) as (λ e. (r : ℕ × List ℕ) × (first_of e more ≡ some r)) [
      | none ↦ h w refl
      | some e ↦ (e, refl)
    ]

extension_loop_lem :
    (fuel : ℕ) (src : List ℕ)
    → length src < fuel
    → (r : ℕ × List ℕ) × (extension_loop fuel src ≡ some r)
unfolding extension_loop
extension_loop_lem zero src h = absurd omega arith
extension_loop_lem (suc fuel) src h =
    let next = strnext (codes ";,") 64 src in
    extension_of_lem next.0 (extension_loop fuel next.1) (λ w eq.
      let shorter = word_shorter (codes ";,") 64 src w eq in
      extension_loop_lem fuel next.1 (omega arith))

-- The choice of an extension comes to an end.
pub negotiated_lem : (v : Option (List ℕ)) → (r : ℕ × List ℕ) × (negotiated v ≡ some r)
unfolding negotiated
negotiated_lem none = (_, refl)
negotiated_lem (some v) = extension_loop_lem (suc (length (c_str v))) (c_str v) (omega arith)

pub asked_lem : (p : Package) → (key : Option (List ℕ)) × (asked p ≡ some key)
unfolding asked
asked_lem p = elim (Bool-cases (ismethod (codes "GET") p)) [
  | inl get ↦ let (key, eq) = get_websocket_key_lem 128 p in (key, rw (get, eq) refl)
  | inr other ↦ (none, rw other refl)
]

asked-key :
    (p : Package) (key : List ℕ)
    → ismethod (codes "GET") p ≡ true
    → get_websocket_key 128 p ≡ some (some key)
    → asked p ≡ some (some key)
unfolding asked
asked-key p key get has_key = rw (get, has_key) refl

module _ (deflate : List ℕ → Option (List ℕ)) (accept : List ℕ → List ℕ)
    (iosend : List ℕ → Option ℕ) where
  -- What follows a package stays in the buffer.
  package_left :
      (p : Package) (rest : List ℕ) (rbuf : ParseBuffer)
      → IsBuffer rbuf
      → held rbuf ≡ package_text p.req p.head (p.body ++ rest)
      → let text = package_text p.req p.head p.body in
        (take (length text) (held rbuf) ≡ text)
        × IsBuffer (freehead (length text) rbuf)
        × (held (freehead (length text) rbuf) ≡ rest)
  package_left p rest rbuf valid whole =
      let text = package_text p.req p.head p.body in
      let both : held rbuf ≡ text ++ rest = whole ∙ package_text-append p.req p.head p.body rest in
      let (kept, left) = freehead_lem (length text) rbuf valid in
      (
        ap (take (length text)) both ∙ take-append_length text rest,
        kept,
        left ∙ ap (drop (length text)) both ∙ drop-append_length text rest,
      )

  module _ (p : Package) (rest bytes block : List ℕ) (s : Peer) (b : ParseBuffer)
      (well : IsPackage p.req p.head (length p.body)) (some_byte : 0 < length bytes)
      (valid : IsBuffer b) (wide : IsLarge block bytes b)
      (whole : held b ++ bytes ≡ package_text p.req p.head (p.body ++ rest)) where
    abbrev text_of_request : List ℕ
    text_of_request = package_text p.req p.head p.body

    abbrev rbuf : ParseBuffer
    rbuf = (append (some block) bytes b).1

    served :
        (key : Option (List ℕ))
        → asked p ≡ some key
        → read_http deflate accept iosend (some block) bytes s b
          ≡ serve_key deflate accept iosend key (length text_of_request) p s rbuf
    unfolding read_http serve
    served key asks =
        let (ok, buffer, holds) = append_lem block bytes b some_byte valid wide in
        ap (λ (l : List ℕ). parse l >>= (λ r. serve deflate accept iosend r s rbuf)) (holds ∙ whole)
        ∙ rw (parse_lem p rest well, asks) refl

    -- When the bytes that the buffer holds and those that come in are a request that asks for no upgrade,
    -- and what follows it, the text of the request is delivered, the session stays as it was, the buffer
    -- is valid and holds what follows. Some byte comes in, and there is a block for one and a half times
    -- the bytes.
    pub read_http_lem :
        asked p ≡ some none
        → (after : ParseBuffer) × (read_http deflate accept iosend (some block) bytes s b
            ≡ some (record {
              status = he_ok;
              msg = text_of_request;
              peer = s;
              sent = none;
              rbuf = after;
            }))
          × IsBuffer after
          × (held after ≡ rest)
    unfolding serve_key
    read_http_lem asks =
        let (ok, buffer, holds) = append_lem block bytes b some_byte valid wide in
        let (front, good, left) = package_left p rest rbuf buffer (holds ∙ whole) in
        (freehead (length text_of_request) rbuf, served none asks ∙ rw front refl, good, left)

    -- When they are a GET request in version 13 to a session that speaks HTTP, whose field Connection lists
    -- the word Upgrade and whose field Upgrade lists the word websocket, with a key of less than 128 bytes
    -- and the offers `ws`, then where the answer can be sent the session goes over to websocket with the
    -- first extension that the offers name, or with none, sends the answer that accepts the key and
    -- confirms that extension, waits, and holds what follows the request.
    pub upgrade_lem :
        (key : List ℕ) (n : List ℕ → ℕ) (connection upgrade ws : List (List ℕ))
        → ismethod (codes "GET") p ≡ true
        → getattr (codes "Connection") p.head ≡ some (joined connection)
        → All IsFieldWord connection
        → names (codes "Upgrade") connection ≡ true
        → getattr (codes "Upgrade") p.head ≡ some (joined upgrade)
        → All IsFieldWord upgrade
        → names (codes "websocket") upgrade ≡ true
        → get_head_filed (codes "Sec-WebSocket-Key") 128 p ≡ some key
        → All (λ c. c ≢ 0) key
        → s.nws ≡ 0
        → atoi (text_of (get_head_filed (codes "Sec-WebSocket-Version") 128 p)) ≡ some (false, 13)
        → All IsOffer ws
        → Offers p ws
        → ((answer : List ℕ) → iosend answer ≡ some (suc (n answer)))
        → (after : ParseBuffer) × (read_http deflate accept iosend (some block) bytes s b
            ≡ some (record {
              status = he_waitdata;
              msg = [];
              peer = record { nws = 1; wscompress = (chosen ws).0 };
              sent = some (
                  answer_text accept key
                    (text_of (get_head_filed (codes "Sec-WebSocket-Protocol") 128 p))
                    (get_head_filed (codes "Host") 256 p)
                    (chosen ws).1);
              rbuf = after;
            }))
          × IsBuffer after
          × (held after ≡ rest)
    unfolding serve_key do_upgrade by_version switch switched sends ws_send
    upgrade_lem key n connection upgrade ws get field words asks field' words' asks' has_key text
          http version well_offered offers sends_all =
        let asks_key = asked-key p key get (
          get_websocket_key-joined p key connection upgrade field words asks field' words' asks'
            has_key) in
        let answer = switch_text accept key p (chosen ws).1 in
        let positive : ltb 0 (suc (n answer)) ≡ true = ground arith in
        let (ok, buffer, holds) = append_lem block bytes b some_byte valid wide in
        let (front, good, left) = package_left p rest rbuf buffer (holds ∙ whole) in
        (
          freehead (length text_of_request) rbuf,
          served (some key) asks_key
              ∙ rw
                  (
                    version,
                    offers_lem p ws well_offered offers,
                    http,
                    sends_all answer,
                    positive,
                    switch_text_lem accept key (chosen ws).1 p text,
                  )
                  refl,
          good,
          left,
        )

  -- When they are a part of a request, from its first byte to all but its last, nothing is delivered, the
  -- session waits and holds all bytes.
  pub read_http_part :
      (req : ReqLine) (head : List Item) (body part more bytes block : List ℕ) (s : Peer)
      (b : ParseBuffer)
      → IsPackage req head (length body)
      → 0 < length more
      → part ++ more ≡ package_text req head body
      → 0 < length bytes
      → IsBuffer b
      → IsLarge block bytes b
      → held b ++ bytes ≡ part
      → (after : ParseBuffer) × (read_http deflate accept iosend (some block) bytes s b
          ≡ some (record { status = he_waitdata; msg = []; peer = s; sent = none; rbuf = after }))
        × IsBuffer after
        × (held after ≡ part)
  unfolding read_http serve
  read_http_part req head body part more bytes block s b well left_out cut some_byte valid wide
        whole =
      let (ok, buffer, holds) = append_lem block bytes b some_byte valid wide in
      let rbuf = (append (some block) bytes b).1 in
      (
        rbuf,
        ap (λ (l : List ℕ). parse l >>= (λ r. serve deflate accept iosend r s rbuf)) (holds ∙ whole)
            ∙ rw (parse_prefix req head body part more well left_out cut) refl,
        buffer,
        holds ∙ whole,
      )
