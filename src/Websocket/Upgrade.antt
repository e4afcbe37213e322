-- ===== src/Websocket/Upgrade.antt =====
-- ec_netss_ws.h, `base_ws`: DoUpgradeWebSocket, and the HTTP part of DoReadData. `accept` is the base64
-- text of the SHA-1 hash of a text, and `iosend` is ws_iosend, where `none` is a negative result. The log,
-- onupdatews, which the sessions define, and exceptions of a string without memory are left out.
pub mod Offers
pub mod Requests
mod Examples
use eclib.Common.{
  ℕ, zero, suc, ◌+◌, Bool, true, false, ◌&&◌, not, List, [], ◌∷◌, ◌++◌, length, take, Option, none,
  some, ltb, ◌==◌, if◌then◌else◌, ◌>>=◌,
}
use eclib.Common.Texts.{codes}
use eclib.ParseBuffer.{ParseBuffer, append, freehead, free_all}
use eclib.ParseBuffer.Bytes.{held}
use eclib.Http.{ieq, atoi}
use eclib.Http.Package.{Package, Parsed, done, waits, failed, parse, get_head_filed}
use eclib.Http.Fields.{Next, strnext, get_websocket_key, ismethod}
use eclib.Strings.{c_str}
use eclib.Websocket.Receive.{Status, he_ok, he_waitdata, he_failed}
use eclib.Websocket.Session.{ws_send}

-- What the upgrade changes of a session.
pub record Peer : Type 0 where
  pub nws : ℕ
  pub wscompress : ℕ

pub text_of : Option (List ℕ) → List ℕ
unfolding c_str
text_of none = []
text_of (some v) = c_str v

-- `_wscompress` and the line of an answer for a word of Sec-WebSocket-Extensions.
pub extension : List ℕ → Option (ℕ × List ℕ)
extension st =
    if ieq (codes "permessage-deflate") st
    then some (
      1,
      codes
          "Sec-WebSocket-Extensions: permessage-deflate; server_no_context_takeover; client_no_context_takeover\r\n",
    )
    else if ieq (codes "x-webkit-deflate-frame") st
    then some (2, codes "Sec-WebSocket-Extensions: x-webkit-deflate-frame; no_context_takeover\r\n")
    else none

first_of : Option (ℕ × List ℕ) → Option (ℕ × List ℕ) → Option (ℕ × List ℕ)
first_of none more = more
first_of (some e) more = some e

extension_of : Option (List ℕ) → Option (ℕ × List ℕ) → Option (ℕ × List ℕ)
unfolding first_of
extension_of none more = some (0, [])
extension_of (some st) more = first_of (extension st) more

-- The loop over the words, with fuel for its calls of strnext.
extension_loop : ℕ → List ℕ → Option (ℕ × List ℕ)
unfolding extension_of
extension_loop zero src = none
extension_loop (suc fuel) src =
    let next = strnext (codes ";,") 64 src in
    let more = extension_loop fuel next.1 in extension_of next.0 more

pub negotiated : Option (List ℕ) → Option (ℕ × List ℕ)
unfolding extension_loop c_str
negotiated none = some (0, [])
negotiated (some v) = extension_loop (suc (length (c_str v))) (c_str v)

protocol_line : List ℕ → List ℕ
protocol_line [] = []
protocol_line (c ∷ s) = codes "Sec-WebSocket-Protocol: " ++ c ∷ s ++ codes "\r\n"

host_line : Option (List ℕ) → List ℕ
unfolding c_str
host_line none = []
host_line (some v) = codes "Host: " ++ c_str v ++ codes "\r\n"

-- The answer with the line of an extension.
pub switch_text : (List ℕ → List ℕ) → List ℕ → Package → List ℕ → List ℕ
unfolding c_str text_of protocol_line host_line
switch_text accept key p line =
    codes
      "HTTP/1.1 101 Switching Protocols\r\nUpgrade: websocket\r\nConnection: Upgrade\r\nSec-WebSocket-Accept: "
    ++ accept (c_str key ++ codes "258EAFA5-E914-47DA-95CA-C5AB0DC85B11")
    ++ codes "\r\n"
    ++ protocol_line (text_of (get_head_filed (codes "Sec-WebSocket-Protocol") 128 p))
    ++ host_line (get_head_filed (codes "Host") 256 p)
    ++ line
    ++ codes "\r\n"

abbrev pub bad_version_text : List ℕ
bad_version_text = codes "http/1.1 400  Bad Request!\r\nConnection:keep-alive\r\n\r\n"

-- The result of DoUpgradeWebSocket, the session, and what was handed to ws_iosend.
pub record Upgraded : Type 0 where
  pub ok : Bool
  pub peer : Peer
  pub sent : Option (List ℕ)

-- `int ns = ws_send(...)`, where `none` is negative.
sends : (List ℕ → Option ℕ) → Option (List ℕ) → Option ℕ
sends iosend none = none
sends iosend (some text) = iosend text

is_sent : Option ℕ → Bool
is_sent none = false
is_sent (some ns) = true

-- After the answer was sent.
switched : Option ℕ → Option (List ℕ) → ℕ → ℕ → Upgraded
switched none sent nws z = record {
  ok = false;
  peer = record { nws = nws; wscompress = z };
  sent = sent;
}
switched (some ns) sent nws z = record {
  ok = ltb 0 ns;
  peer = record { nws = 1; wscompress = z };
  sent = sent;
}

switch :
    (List ℕ → Option (List ℕ))
    → (List ℕ → List ℕ)
    → (List ℕ → Option ℕ)
    → List ℕ
    → Package
    → Peer
    → ℕ × List ℕ
    → Option Upgraded
unfolding sends switched
switch deflate accept iosend key p s (z, line) =
    let answer = ws_send deflate s.nws z (switch_text accept key p line) 1 in
    some (switched (sends iosend answer) answer s.nws z)

-- The numbers are the sign and the value of `atoi(sVersion)`.
by_version :
    (List ℕ → Option (List ℕ))
    → (List ℕ → List ℕ)
    → (List ℕ → Option ℕ)
    → Bool × ℕ
    → List ℕ
    → Package
    → Peer
    → Option Upgraded
unfolding sends is_sent switch
by_version deflate accept iosend (minus, version) key p s =
    let refused = ws_send deflate s.nws s.wscompress bad_version_text 1 in
    let offered = negotiated (get_head_filed (codes "Sec-WebSocket-Extensions") 256 p) in
    if not minus && version == 13
    then offered >>= switch deflate accept iosend key p s
    else some (record { ok = is_sent (sends iosend refused); peer = s; sent = refused })

pub do_upgrade :
    (List ℕ → Option (List ℕ))
    → (List ℕ → List ℕ)
    → (List ℕ → Option ℕ)
    → List ℕ
    → Package
    → Peer
    → Option Upgraded
unfolding by_version text_of
do_upgrade deflate accept iosend key p s = do
  version ← atoi (text_of (get_head_filed (codes "Sec-WebSocket-Version") 128 p))
  by_version deflate accept iosend version key p s

-- What DoReadData leaves: its result, `pmsgout`, the session, what was sent, and the buffer.
pub record Served : Type 0 where
  pub status : Status
  pub msg : List ℕ
  pub peer : Peer
  pub sent : Option (List ℕ)
  pub rbuf : ParseBuffer

-- The key of a request that asks for an upgrade; the outer `none` is out of fuel.
pub asked : Package → Option (Option (List ℕ))
asked p = let key = get_websocket_key 128 p in if ismethod (codes "GET") p then key else some none

serve_key :
    (List ℕ → Option (List ℕ))
    → (List ℕ → List ℕ)
    → (List ℕ → Option ℕ)
    → Option (List ℕ)
    → ℕ
    → Package
    → Peer
    → ParseBuffer
    → Option Served
serve_key deflate accept iosend none nr p s rbuf = some (record {
  status = he_ok;
  msg = take nr (held rbuf);
  peer = s;
  sent = none;
  rbuf = freehead nr rbuf;
})
serve_key deflate accept iosend (some key) nr p s rbuf = do
  u ← do_upgrade deflate accept iosend key p s
  some (record {
    status = if u.ok then he_waitdata else he_failed;
    msg = [];
    peer = u.peer;
    sent = u.sent;
    rbuf = freehead nr rbuf;
  })

serve :
    (List ℕ → Option (List ℕ))
    → (List ℕ → List ℕ)
    → (List ℕ → Option ℕ)
    → Parsed
    → Peer
    → ParseBuffer
    → Option Served
unfolding serve_key
serve deflate accept iosend (done nr p) s rbuf = do
  key ← asked p
  serve_key deflate accept iosend key nr p s rbuf
serve deflate accept iosend waits s rbuf =
    some (record { status = he_waitdata; msg = []; peer = s; sent = none; rbuf = rbuf })
serve deflate accept iosend (failed e) s rbuf =
    some (record { status = he_failed; msg = []; peer = s; sent = none; rbuf = free_all rbuf })

-- DoReadData while the session speaks HTTP. The result of `append` is not looked at.
pub read_http :
    (List ℕ → Option (List ℕ))
    → (List ℕ → List ℕ)
    → (List ℕ → Option ℕ)
    → Option (List ℕ)
    → List ℕ
    → Peer
    → ParseBuffer
    → Option Served
unfolding serve
read_http deflate accept iosend got bytes s b =
    let rbuf = (append got bytes b).1 in
    do r ← parse (held rbuf); serve deflate accept iosend r s rbuf
