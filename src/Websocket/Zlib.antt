-- ===== src/Websocket/Zlib.antt =====
-- ec_wstips.h: ws_encode_zlib and ws_decode_zlib, the loops over zlib's `deflate` and `inflate`. Those
-- are parameters: `call` is a call with Z_SYNC_FLUSH and an empty buffer of 32768 bytes, and `stream` what
-- deflateInit2 or inflateInit leaves, nothing where it fails. Fuel counts the tests of a loop.
pub mod Calls
use eclib.Common.{
  ℕ, zero, suc, Bool, List, [], ◌∷◌, ◌++◌, length, Option, none, some, ◌==◌, if◌then◌else◌, ◌>>=◌,
}

abbrev pub buffer_size : ℕ
buffer_size = 32768

-- Z_OK, Z_STREAM_END, and the other results.
pub data Code : Type 0 where
  z_ok z_stream_end z_error : Code

-- What a call leaves: its result, the input that is not used, what stands in the buffer, and the stream.
pub record Call (S : Type 0) : Type 0 where
  pub code : Code
  pub left : List ℕ
  pub out : List ℕ
  pub stream : S

module _ {S : Type 0} (call : S → List ℕ → Call S) where
  -- Behind a call of `deflate`; `rest` is the loop after it.
  encoded_more : Code → List ℕ → Option (List ℕ) → Option (List ℕ)
  encoded_more z_ok out rest =
      if length out == buffer_size then (do more ← rest; some (out ++ more)) else some out
  encoded_more z_stream_end out rest = none
  encoded_more z_error out rest = none

  encode_loop : ℕ → S → List ℕ → Option (List ℕ)
  unfolding encoded_more
  encode_loop zero s input = none
  encode_loop (suc fuel) s input =
      let c = call s input in
      let rest = encode_loop fuel c.stream c.left in encoded_more c.code c.out rest

  -- Behind a call of `inflate`.
  decoded_more : Code → List ℕ → Option (List ℕ) → Option (List ℕ)
  decoded_more z_ok out rest = do more ← rest; some (out ++ more)
  decoded_more z_stream_end out rest = some out
  decoded_more z_error out rest = none

  -- The loop ends when the input is used, also when the buffer was filled.
  decode_loop : ℕ → S → List ℕ → Option (List ℕ)
  unfolding decoded_more
  decode_loop zero s input = none
  decode_loop (suc fuel) s [] = some []
  decode_loop (suc fuel) s (b ∷ input) =
      let c = call s (b ∷ input) in
      let rest = decode_loop fuel c.stream c.left in decoded_more c.code c.out rest

-- `none` is an error. What a loop appended before an error is not part of the result.
pub ws_encode_zlib : {S : Type 0} → (S → List ℕ → Call S) → Option S → ℕ → List ℕ → Option (List ℕ)
unfolding encode_loop
ws_encode_zlib call none fuel src = none
ws_encode_zlib call (some s) fuel src = encode_loop call fuel s src

pub ws_decode_zlib : {S : Type 0} → (S → List ℕ → Call S) → Option S → ℕ → List ℕ → Option (List ℕ)
unfolding decode_loop
ws_decode_zlib call none fuel src = none
ws_decode_zlib call (some s) fuel src = decode_loop call fuel s src
