-- ===== src/Websocket/Deflated.antt =====
-- Websocket messages with compression: from the sender's ws_encode_zlib to the receiver's ws_decode_zlib.
use eclib.Common.{ℕ, suc, ◌+◌, ◌≤◌, ◌<◌, ◌≡◌, List, ◌∷◌, ◌++◌, length, some, true}
use eclib.Common.{arith}
use eclib.Websocket.{max_package, make_permsg}
use eclib.Websocket.Receive.{websocket_parse}
use eclib.Websocket.Roundtrip.{IsData, idle, delivered, parse-make_compressed}
use eclib.Websocket.Zlib.{Call, ws_encode_zlib, ws_decode_zlib}
use eclib.Websocket.Zlib.Calls.{Deflates, Inflates, ws_encode_zlib_lem, ws_decode_zlib_lem}

module _ {S R : Type 0} (deflate : S → List ℕ → Call S) (inflate : R → List ℕ → Call R) (sender : S)
    (receiver : R) where
  -- A text or binary message of 128 bytes or more is packed with compression, and a receiver between two
  -- messages delivers it from its frames, whatever follows them, where the calls of `deflate` put out the
  -- header of zlib's format, a body and four bytes at the end, which are not sent, and the calls of
  -- `inflate` on the header and the body put out the message before the input is used up or with its last
  -- byte. Fuel for one round more than these calls is enough for ws_encode_zlib, and for two rounds more
  -- for ws_decode_zlib. The body is two bytes shorter than the longest message that is accepted.
  pub parse-make_deflated :
      (calls rounds calls' rounds' : ℕ) (msg rest body ending : List ℕ) (wsopt o at h1 h2 : ℕ)
      → IsData wsopt
      → 128 ≤ length msg
      → length ending ≡ 4
      → calls < rounds
      → suc calls' < rounds'
      → Deflates deflate calls sender msg (h1 ∷ h2 ∷ body ++ ending)
      → Inflates inflate calls' receiver (0x78 ∷ 0x9C ∷ body) msg
      → 2 + length body ≤ max_package
      → (frames : List ℕ) × (make_permsg
            (ws_encode_zlib deflate (some sender) rounds)
            msg
            wsopt
            true
          ≡ some frames)
        × (websocket_parse
              (ws_decode_zlib inflate (some receiver) rounds')
              at
              (frames ++ rest)
              (idle 1 o)
            ≡ delivered msg (length frames) 1)
  parse-make_deflated calls rounds calls' rounds' msg rest body ending wsopt o at h1 h2 data_frame
        long four enough enough' deflates inflates fits =
      parse-make_compressed (ws_encode_zlib deflate (some sender) rounds)
        (ws_decode_zlib inflate (some receiver) rounds') msg rest wsopt o at data_frame
        (omega arith) h1 h2 body ending long four
        (ws_encode_zlib_lem deflate calls rounds sender msg (h1 ∷ h2 ∷ body ++ ending) enough
          deflates)
        (ws_decode_zlib_lem inflate calls' rounds' receiver (0x78 ∷ 0x9C ∷ body) msg enough'
          inflates)
        fits
