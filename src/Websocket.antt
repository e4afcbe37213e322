-- ===== src/Websocket.antt =====
-- Websocket frames: ws_make_permsg of ec_wstips.h without a mask, as the server calls it, and the parser
-- of `base_ws` in ec_netss_ws.h. Bytes are numbers in lists. The arguments `deflate` and `inflate`
-- stand for ws_encode_zlib and ws_decode_zlib, where `none` is an error; Zlib models the two.
pub mod Receive
pub mod Frame
pub mod Sent
pub mod Message
pub mod Roundtrip
pub mod Split
pub mod Partial
pub mod Zlib
pub mod Deflated
pub mod Session
pub mod Upgrade
mod Examples
use eclib.Common.{
  ℕ, zero, suc, ◌+◌, ◌-◌, ◌*◌, ◌/◌, ◌%◌, ◌^◌, bit_and, bit_or, Bool, true, false, not, ◌&&◌, ◌||◌,
  List, [], ◌∷◌, ◌++◌, length, take, drop, get_or, ltb, leb, ◌==◌, if◌then◌else◌, Option, none,
  some,
}
use eclib.Xor.{xor_le}

-- EC_SIZE_WS_FRAME, MAXSIZE_WS_READ_FRAME and MAXSIZE_WS_READ_PKG.
abbrev pub frame_size : ℕ
frame_size = 30720

abbrev pub max_frame : ℕ
max_frame = 4194304

abbrev pub max_package : ℕ
max_package = 33554432

-- `n` bytes of `v` in big endian order.
pub be_bytes : ℕ → ℕ → List ℕ
be_bytes zero v = []
be_bytes (suc n) v = be_bytes n (v / 256) ++ (v % 256) ∷ []

-- The bytes of the length. `uc` is the first byte, an unsigned char that is compared with 65536.
pub length_bytes : ℕ → ℕ → List ℕ
unfolding be_bytes
length_bytes us uc =
    if ltb us 126
    then us ∷ []
    else if ltb uc 65536
    then 126 ∷ be_bytes 2 (us % 2 ^ 16)
    else 127 ∷ be_bytes 8 us

pub first_byte : ℕ → Bool → ℕ → Bool → ℕ
first_byte wsopt comp ss end =
    let uc =
      if ss == 0
      then (if comp then bit_or (bit_and 0x0F wsopt) 0x40 else bit_and 0x0F wsopt)
      else 0 in
    if end then bit_or uc 0x80 else uc

-- The loop over the frames. `pds` are the `slen` bytes that are sent.
pub permsg_loop : ℕ → ℕ → Bool → List ℕ → ℕ → ℕ → List ℕ
unfolding first_byte length_bytes
permsg_loop zero wsopt comp pds slen ss = []
permsg_loop (suc fuel) wsopt comp pds slen ss =
    let end = leb slen (ss + frame_size) in
    let us = if end then slen - ss else frame_size in
    let uc = first_byte wsopt comp ss end in
    let rest = permsg_loop fuel wsopt comp pds slen (ss + us) in
    let frame = uc ∷ length_bytes us uc ++ take us (drop ss pds) in
    if ltb (ss + us) slen then frame ++ rest else frame

-- The two first and the four last bytes of zlib's output are left out.
unfoldable pub send_compressed : ℕ → Option (List ℕ) → Option (List ℕ)
unfolding permsg_loop
send_compressed wsopt none = none
send_compressed wsopt (some tmp) =
    if ltb (length tmp) 6
    then none
    else (let slen = length tmp - 6 in
        some (permsg_loop (suc slen) wsopt true (take slen (drop 2 tmp)) slen 0))

unfoldable pub make_permsg : (List ℕ → Option (List ℕ)) → List ℕ → ℕ → Bool → Option (List ℕ)
unfolding permsg_loop send_compressed
make_permsg deflate msg wsopt ncompress =
    if ncompress && leb 128 (length msg)
    then send_compressed wsopt (deflate msg)
    else some (permsg_loop (suc (length msg)) wsopt false msg (length msg) 0)

-- `_wsmsg`, `_wscompress`, `_comp` and `_opcode`.
pub record Receiver : Type 0 where
  pub wsmsg : List ℕ
  pub wscompress : ℕ
  pub comp : Bool
  pub opcode : ℕ

pub reset_msg : Receiver → Receiver
reset_msg s = record s { wsmsg = []; comp = false; opcode = 1 }

-- The int that ParseOneFrame returns.
pub data Result : Type 0 where
  failed : Result
  did : ℕ → Result

pub record Parsed : Type 0 where
  pub result : Result
  pub fin : ℕ
  pub after : Receiver

-- Eight rounds of `datalen <<= 8; datalen |= pu[2 + i]` on 64 bits.
length_64 : List ℕ → ℕ → ℕ
length_64 [] d = d
length_64 (b ∷ bs) d = length_64 bs (bit_or (d * 256 % 2 ^ 64) b)

pub data_length : ℕ → List ℕ → ℕ
unfolding length_64
data_length plen pu =
    if plen == 126
    then bit_or (get_or pu 2 0 * 256) (get_or pu 3 0)
    else if plen == 127
    then length_64 (take 8 (drop 2 pu)) 0
    else plen

unfoldable pub data_pos : ℕ → Bool → ℕ
data_pos plen bmask =
    (if bmask then 6 else 2) + (if plen == 126 then 2 else if plen == 127 then 8 else 0)

-- The mask is read from the four bytes before the payload, the last one highest.
pub mask_at : List ℕ → ℕ → ℕ
mask_at pu pos =
    get_or pu (pos - 4) 0
    + 256 * (get_or pu (pos - 3) 0 + 256 * (get_or pu (pos - 2) 0 + 256 * get_or pu (pos - 1) 0))
