-- ===== src/Websocket/Partial.antt =====
-- ec_netss_ws.h, `base_ws`: what the parser does with a frame whose header has come in part.
use eclib.Common.{
  ℕ, ◌+◌, ◌<◌, ◌≡◌, refl, bit_and, true, not, List, [], ◌∷◌, length, ltb, ◌==◌, Option, arith,
  Bool-cases, inl, inr,
}
use eclib.Websocket.{Receiver, data_pos}
use eclib.Websocket.Receive.{
  parse_frame, parse_one_frame, websocket_parse, websocket_loop, next_frame, amount, end_frame,
  deliver, waiting, he_waitdata,
}
use eclib.Websocket.Roundtrip.{idle}

deliver-empty :
    (n : ℕ) (s : Receiver) → ((deliver n [] s).status ≡ he_waitdata) × ((deliver n [] s).sizedo ≡ n)
unfolding deliver waiting
deliver-empty n s = elim (Bool-cases (s.opcode == 10)) [
  | inl e ↦ rw e (refl, refl)
  | inr e ↦ elim (Bool-cases (s.opcode == 9)) [
    | inl d ↦ rw (e, d) (refl, refl)
    | inr d ↦ elim (Bool-cases (s.opcode == 8)) [
      | inl c ↦ rw (e, d, c) (refl, refl)
      | inr c ↦ rw (e, d, c) (refl, refl)
    ]
  ]
]

-- Of an end frame whose first two bytes have come but not its whole header, a receiver between two
-- messages takes one byte off the stream and waits: the rest of the frame will be read from its second
-- byte on.
pub partial_header :
    (inflate : List ℕ → Option (List ℕ)) (at b c z o : ℕ) (pu : List ℕ)
    → bit_and b 0x80 ≡ 0x80
    → 2 + length pu < data_pos (bit_and c 0x7F) (not (bit_and c 0x80 == 0))
    → ((websocket_parse inflate at (b ∷ c ∷ pu) (idle z o)).status ≡ he_waitdata)
      × ((websocket_parse inflate at (b ∷ c ∷ pu) (idle z o)).sizedo ≡ 1)
unfolding websocket_parse websocket_loop parse_one_frame parse_frame next_frame amount end_frame
partial_header inflate at b c z o pu last short =
    let test : ltb (length (b ∷ c ∷ pu)) (data_pos (bit_and c 0x7F) (not (bit_and c 0x80 == 0)))
        ≡ true =
      ground arith in
    rw (test, last) (deliver-empty 1 (record (idle z o) { opcode = bit_and b 0x0F }))
