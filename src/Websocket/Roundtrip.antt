-- ===== src/Websocket/Roundtrip.antt =====
-- Websocket messages: what the sender packs, the receiver delivers.
use eclib.Common.{
  ℕ, suc, ◌+◌, ◌-◌, ◌≤◌, ◌<◌, ◌≡◌, ◌⊎◌, refl, ap, ◌∙◌, bit_and, Bool, true, false, ◌&&◌, List, [],
  ◌∷◌, ◌++◌, length, drop, ltb, leb, ◌==◌, if◌then◌else◌, Option, some, arith, length-append,
  Bool-cases, inl, inr, take-append_length,
}
use mathlib.Core.List.{append_assoc}
use eclib.Websocket.{
  Receiver, frame_size, max_package, length_bytes, first_byte, make_permsg, send_compressed,
  reset_msg,
}
use eclib.Websocket.Receive.{
  keep, websocket_parse, websocket_loop, end_frame, deliver, deliver_inflated, Received, he_ok,
}
use eclib.Websocket.Frame.{is_compressed}
use eclib.Websocket.Sent.{
  frame, sent, piece, sent-last, sent-more, length-piece, drop-piece, length-sent,
}
use eclib.Websocket.Message.{Kept, gained, end_round, more_round, later_frames}

-- Text or binary.
abbrev pub IsData : ℕ → Type 0
IsData wsopt = (wsopt ≡ 1) ⊎ (wsopt ≡ 2)

-- A receiver between two messages.
abbrev pub idle : ℕ → ℕ → Receiver
idle wscompress opcode = record {
  wsmsg = [];
  wscompress = wscompress;
  comp = false;
  opcode = opcode;
}

-- What the first byte of the first frame says.
abbrev pub Opens : ℕ → Bool → Bool → ℕ → Type 0
Opens wsopt c end uc =
    (bit_and uc 0x0F ≡ wsopt)
    × (is_compressed uc ≡ c)
    × (bit_and uc 0x80 ≡ (if end then 0x80 else 0))
    × (uc < 65536)

text_byte : (c end : Bool) → Opens 1 c end (first_byte 1 c 0 end)
unfolding first_byte
text_byte true true = (refl, refl, refl, omega arith)
text_byte true false = (refl, refl, refl, omega arith)
text_byte false true = (refl, refl, refl, omega arith)
text_byte false false = (refl, refl, refl, omega arith)

binary_byte : (c end : Bool) → Opens 2 c end (first_byte 2 c 0 end)
unfolding first_byte
binary_byte true true = (refl, refl, refl, omega arith)
binary_byte true false = (refl, refl, refl, omega arith)
binary_byte false true = (refl, refl, refl, omega arith)
binary_byte false false = (refl, refl, refl, omega arith)

pub opens : (wsopt : ℕ) (c end : Bool) → IsData wsopt → Opens wsopt c end (first_byte wsopt c 0 end)
opens wsopt c end (inl e) = rw e (text_byte c end)
opens wsopt c end (inr e) = rw e (binary_byte c end)

-- The header of zlib's format, which the receiver puts back.
abbrev pub zlib_header : Bool → List ℕ
zlib_header true = 0x78 ∷ 0x9C ∷ []
zlib_header false = []

header_small : (c : Bool) → length (zlib_header c) ≤ 2
header_small true = omega arith
header_small false = omega arith

pub zero_plus : (n : ℕ) → 0 + n ≡ n
zero_plus n = omega arith

-- The receiver with the bytes `pds` of a message.
abbrev pub holding : ℕ → ℕ → Bool → List ℕ → Receiver
holding wscompress wsopt c pds = record {
  wsmsg = zlib_header c ++ pds;
  wscompress = wscompress;
  comp = c;
  opcode = wsopt;
}

module _ (inflate : List ℕ → Option (List ℕ)) (z o wsopt : ℕ) where
  pub first-Kept :
      (c : Bool) (uc : ℕ) (payload : List ℕ)
      → (c ≡ false) ⊎ (z ≡ 1)
      → bit_and uc 0x0F ≡ wsopt
      → is_compressed uc ≡ c
      → Kept inflate uc payload (idle z o) (holding z wsopt c payload)
  unfolding keep
  first-Kept true uc payload (inl e) low comp = absurd (cc)
  first-Kept true uc payload (inr e) low comp = rw (comp, low, e) refl
  first-Kept false uc payload e low comp = rw (comp, low) refl

  module _ (c : Bool) (pds rest : List ℕ) (data_frame : IsData wsopt)
      (mode : (c ≡ false) ⊎ (z ≡ 1)) where
    abbrev message : List ℕ
    message = sent wsopt c pds (suc (length pds)) 0

    -- The receiver has the whole message when it comes to the end frame.
    received :
        (at : ℕ)
        → 2 + length pds ≤ max_package
        → websocket_parse inflate at (message ++ rest) (idle z o)
          ≡ end_frame inflate (length message) (holding z wsopt c pds)
    unfolding websocket_parse
    received at fits = elim (Bool-cases (leb (length pds) frame_size)) [
      | inl e ↦
          let uc = first_byte wsopt c 0 true in
          let (low, comp, fin, byte) = opens wsopt c true data_frame in
          rw (sent-last wsopt c pds (length pds) 0 (ground arith) (omega arith)) (
            end_round inflate (length (length_bytes (length pds) uc ++ pds ++ rest)) at uc 0 pds
              rest (idle z o) (holding z wsopt c pds) (ground arith) (omega arith) byte fin
              (first-Kept c uc pds mode low comp)
            ∙ ap (λ (n : ℕ). end_frame inflate n (holding z wsopt c pds))
                (zero_plus (length (frame uc pds))))
      | inr e ↦
          let far : 0 + frame_size < length pds = ground arith in
          let uc = first_byte wsopt c 0 false in
          let (low, comp, fin, byte) = opens wsopt c false data_frame in
          let part = piece wsopt c pds 0 in
          let onward = sent wsopt c pds (length pds) frame_size in
          let size = length-piece wsopt c pds 0 far in
          let n = length (frame uc part) in
          let f = length (length_bytes (length part) uc ++ part ++ onward ++ rest) in
          let rounds : length pds - frame_size ≤ f = omega (
            arith,
            length-append (length_bytes (length part) uc ++ part ++ onward) rest,
            length-append (length_bytes (length part) uc ++ part) onward,
            length-sent wsopt c pds (length pds) frame_size (omega arith),
          ) in
          let begun = length-append (zlib_header c) part in
          let next = holding z wsopt c part in
          let joined : gained inflate (drop frame_size pds) next ≡ holding z wsopt c pds =
            ap (λ (l : List ℕ). record next { wsmsg = l })
              (append_assoc (zlib_header c) part (drop frame_size pds)
                ∙ ap (λ (l : List ℕ). zlib_header c ++ l) (drop-piece wsopt c pds 0)) in
          let sum : 0 + n + length onward ≡ length (frame uc part ++ onward) =
            omega (arith, length-append (frame uc part) onward) in
          rw (sent-more wsopt c pds (length pds) 0 far) (
            ap (λ (l : List ℕ). websocket_loop inflate (suc f) at l 0 (idle z o))
              (append_assoc (frame uc part) onward rest)
            ∙ more_round inflate f at uc 0 part (onward ++ rest) (idle z o) next
                (omega (arith, size)) (omega (arith, size)) byte fin
                (first-Kept c uc part mode low comp)
            ∙ later_frames inflate wsopt c pds rest (length pds) f (at + n) frame_size (0 + n) next
                (omega arith) (omega (arith, far)) (omega arith) rounds (omega (arith, begun, size))
                (omega (arith, begun, size, header_small c))
            ∙ ap (λ (k : ℕ). end_frame inflate k (gained inflate (drop frame_size pds) next)) sum
            ∙ ap (end_frame inflate (length (frame uc part ++ onward))) joined)
    ]

-- The receiver delivers `msg` from the `n` bytes of its frames, and is ready for the next message.
abbrev pub delivered : List ℕ → ℕ → ℕ → Received
delivered msg n wscompress = record {
  status = he_ok;
  sizedo = n;
  out = msg;
  pong = [];
  after = idle wscompress 1;
}

pub deliver_data :
    (z wsopt n : ℕ) (c : Bool) (out held : List ℕ)
    → IsData wsopt
    → 0 < length out
    → deliver n out (record { wsmsg = held; wscompress = z; comp = c; opcode = wsopt })
      ≡ delivered out n z
unfolding deliver reset_msg
deliver_data z wsopt n c out held (inl e) some_byte =
    let test : (length out == 0) ≡ false = ground arith in rw (e, test) refl
deliver_data z wsopt n c out held (inr e) some_byte =
    let test : (length out == 0) ≡ false = ground arith in rw (e, test) refl

module _ (deflate inflate : List ℕ → Option (List ℕ)) (msg rest : List ℕ) (wsopt o at : ℕ)
    (data_frame : IsData wsopt) (some_byte : 0 < length msg) where
  -- A text or binary message that is not compressed is packed, and a receiver between two messages
  -- delivers it from its frames, one or many, whatever follows them. The message is not empty, and two
  -- bytes shorter than the longest that is accepted.
  pub parse-make_permsg :
      (z : ℕ) (ncompress : Bool)
      → (ncompress && leb 128 (length msg)) ≡ false
      → 2 + length msg ≤ max_package
      → (frames : List ℕ) × (make_permsg deflate msg wsopt ncompress ≡ some frames)
        × (websocket_parse inflate at (frames ++ rest) (idle z o) ≡ delivered msg (length frames) z)
  unfolding make_permsg end_frame
  parse-make_permsg z ncompress plain fits =
      let frames = sent wsopt false msg (suc (length msg)) 0 in
      (
        frames,
        rw plain refl,
        received inflate z o wsopt false msg rest data_frame (inl refl) at fits
            ∙ deliver_data z wsopt (length frames) false msg msg data_frame some_byte,
      )

  -- A text or binary message of 128 bytes or more is packed with compression, and a receiver between two
  -- messages delivers it from its frames, whatever follows them, where zlib's output has its header, a
  -- body that inflates to the message, and four bytes at the end that are not sent. The body is two
  -- bytes shorter than the longest message that is accepted.
  pub parse-make_compressed :
      (h1 h2 : ℕ) (body ending : List ℕ)
      → 128 ≤ length msg
      → length ending ≡ 4
      → deflate msg ≡ some (h1 ∷ h2 ∷ body ++ ending)
      → inflate (0x78 ∷ 0x9C ∷ body) ≡ some msg
      → 2 + length body ≤ max_package
      → (frames : List ℕ) × (make_permsg deflate msg wsopt true ≡ some frames)
        × (websocket_parse inflate at (frames ++ rest) (idle 1 o) ≡ delivered msg (length frames) 1)
  unfolding make_permsg send_compressed end_frame deliver_inflated
  parse-make_compressed h1 h2 body ending long four deflates inflates fits =
      let frames = sent wsopt true body (suc (length body)) 0 in
      let test : leb 128 (length msg) ≡ true = ground arith in
      let size = length-append body ending in
      let n : length (h1 ∷ h2 ∷ body ++ ending) - 6 ≡ length body = omega (arith, size, four) in
      let enough : ltb (length (h1 ∷ h2 ∷ body ++ ending)) 6 ≡ false = ground (arith, size, four) in
      (
        frames,
        rw (test, deflates, enough, n, take-append_length body ending) refl,
        received inflate 1 o wsopt true body rest data_frame (inr refl) at fits
            ∙ rw (inflates) (
                deliver_data 1 wsopt (length frames) true msg (0x78 ∷ 0x9C ∷ body) data_frame
                  some_byte),
      )
