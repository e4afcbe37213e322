-- ===== src/Websocket/Receive.antt =====
-- ec_netss_ws.h, `base_ws`: ParseOneFrame and WebsocketParse. `at` is the address of the received bytes.
use eclib.Common.{
  ℕ, zero, suc, ◌+◌, bit_and, Bool, true, not, ◌&&◌, ◌||◌, List, [], ◌∷◌, ◌++◌, length, take, drop,
  ltb, ◌==◌, if◌then◌else◌, Option, none, some,
}
use eclib.Xor.{xor_le}
use eclib.Websocket.{
  Receiver, Result, failed, did, Parsed, max_frame, max_package, reset_msg, data_length, data_pos,
  mask_at,
}

-- `_wsmsg.append`, or the error.
append_inflated : Option (List ℕ) → ℕ → ℕ → Receiver → Parsed
append_inflated none sizedo fin s = record { result = failed; fin = fin; after = s }
append_inflated (some out) sizedo fin s = record {
  result = did sizedo;
  fin = fin;
  after = record s { wsmsg = s.wsmsg ++ out };
}

-- What becomes of the payload of a frame.
unfoldable pub keep : (List ℕ → Option (List ℕ)) → Bool → List ℕ → ℕ → ℕ → Receiver → Parsed
unfolding append_inflated
keep inflate comp payload sizedo fin s =
    if not comp
    then record { result = did sizedo; fin = fin; after = record s { wsmsg = s.wsmsg ++ payload } }
    else if s.wscompress == 2
    then append_inflated (inflate (0x78 ∷ 0x9C ∷ payload)) sizedo fin s
    else record {
      result = did sizedo;
      fin = fin;
      after = record s { comp = true; wsmsg = 0x78 ∷ 0x9C ∷ payload };
    }

abbrev pub payload_at : ℕ → List ℕ → Bool → ℕ → ℕ → List ℕ
payload_at at pu bmask pos len =
    if bmask
    then xor_le (at + pos) (mask_at pu pos) (take len (drop pos pu))
    else take len (drop pos pu)

-- `he_waitdata`, which is returned while the header is not there, is 1.
unfoldable pub parse_frame :
    (List ℕ → Option (List ℕ)) → ℕ → List ℕ → ℕ → Bool → ℕ → Bool → Receiver → Parsed
unfolding keep data_length data_pos
parse_frame inflate at pu fin comp plen bmask s =
    let pos = data_pos plen bmask in
    let len = data_length plen pu in
    if ltb (length pu) pos
    then record { result = did 1; fin = fin; after = s }
    else if ltb max_frame len || ltb max_package (length s.wsmsg + len)
    then record { result = failed; fin = fin; after = s }
    else if ltb (length pu) (pos + len)
    then record { result = did 0; fin = fin; after = s }
    else keep inflate comp (payload_at at pu bmask pos len) (pos + len) fin s

unfoldable pub parse_one_frame : (List ℕ → Option (List ℕ)) → ℕ → List ℕ → Receiver → Parsed
unfolding parse_frame
parse_one_frame inflate at [] s = record { result = did 0; fin = 0; after = s }
parse_one_frame inflate at (b ∷ []) s = record { result = did 0; fin = 0; after = s }
parse_one_frame inflate at (b ∷ c ∷ pu) s =
    parse_frame inflate at (b ∷ c ∷ pu) (bit_and b 0x80) (not (bit_and b 0x40 == 0))
      (bit_and c 0x7F) (not (bit_and c 0x80 == 0))
      (if length s.wsmsg == 0 then record s { opcode = bit_and b 0x0F } else s)

pub data Status : Type 0 where
  he_ok : Status
  he_waitdata : Status
  he_failed : Status

-- The result of WebsocketParse, `pong` being the messages that are answered.
pub record Received : Type 0 where
  pub status : Status
  pub sizedo : ℕ
  pub out : List ℕ
  pub pong : List (List ℕ)
  pub after : Receiver

unfoldable pub waiting : ℕ → List (List ℕ) → Receiver → Received
waiting sizedo pong s = record {
  status = he_waitdata;
  sizedo = sizedo;
  out = [];
  pong = pong;
  after = s;
}

unfoldable pub deliver : ℕ → List ℕ → Receiver → Received
unfolding waiting
deliver sizedo out s =
    if s.opcode == 10
    then waiting sizedo [] (reset_msg s)
    else if s.opcode == 9
    then waiting sizedo (out ∷ []) (reset_msg s)
    else if (s.opcode == 8) || (length out == 0)
    then waiting sizedo [] s
    else record { status = he_ok; sizedo = sizedo; out = out; pong = []; after = reset_msg s }

unfoldable pub deliver_inflated : Option (List ℕ) → ℕ → Receiver → Received
unfolding deliver
deliver_inflated none sizedo s = record {
  status = he_failed;
  sizedo = sizedo;
  out = [];
  pong = [];
  after = s;
}
deliver_inflated (some out) sizedo s = deliver sizedo out s

-- What is done after the end frame.
unfoldable pub end_frame : (List ℕ → Option (List ℕ)) → ℕ → Receiver → Received
unfolding deliver deliver_inflated
end_frame inflate sizedo s =
    if s.comp && (s.wscompress == 1)
    then deliver_inflated (inflate s.wsmsg) sizedo s
    else deliver sizedo s.wsmsg s

-- One round of the loop, after the frame was parsed.
unfoldable pub next_frame :
    (List ℕ → Option (List ℕ)) → ℕ → Result → ℕ → Receiver → Received → Received
unfolding end_frame waiting
next_frame inflate sizedo failed fin s rest = record {
  status = he_failed;
  sizedo = sizedo;
  out = [];
  pong = [];
  after = s;
}
next_frame inflate sizedo (did zero) fin s rest = waiting sizedo [] s
next_frame inflate sizedo (did (suc n)) fin s rest =
    if fin == 0 then rest else end_frame inflate (sizedo + suc n) s

unfoldable pub amount : Result → ℕ
amount failed = 0
amount (did n) = n

unfoldable pub websocket_loop :
    (List ℕ → Option (List ℕ)) → ℕ → ℕ → List ℕ → ℕ → Receiver → Received
unfolding next_frame amount parse_one_frame waiting
websocket_loop inflate zero at pd sizedo s = waiting sizedo [] s
websocket_loop inflate (suc fuel) at [] sizedo s = waiting sizedo [] s
websocket_loop inflate (suc fuel) at (b ∷ pd) sizedo s =
    let p = parse_one_frame inflate at (b ∷ pd) s in
    let n = amount p.result in
    next_frame inflate sizedo p.result p.fin p.after
      (websocket_loop inflate fuel (at + n) (drop n (b ∷ pd)) (sizedo + n) p.after)

unfoldable pub websocket_parse : (List ℕ → Option (List ℕ)) → ℕ → List ℕ → Receiver → Received
unfolding websocket_loop
websocket_parse inflate at stxt s = websocket_loop inflate (length stxt) at stxt 0 s
