-- ===== src/Websocket/Frame.antt =====
-- Websocket frames without a mask: the parser takes a frame apart as the sender put it together.
use eclib.Common.{
  ℕ, ◌+◌, ◌/◌, ◌%◌, ◌^◌, ◌≤◌, ◌<◌, ◌≡◌, refl, ◌∙◌, bit_and, Bool, true, false, not, List, [], ◌∷◌,
  ◌++◌, length, take, drop, ltb, ◌==◌, if◌then◌else◌, Option, arith, length-append,
  take-append_length, Bool-cases, inl, inr,
}
use eclib.Common.Bits.{bit_and_127, bit_and_128, bit_or-disjoint_left}
use eclib.Websocket.{
  Receiver, frame_size, max_frame, max_package, length_bytes, be_bytes, data_length, data_pos,
}
use eclib.Websocket.Receive.{keep, parse_frame, parse_one_frame}

-- The receiver when it has read the first byte of a frame.
abbrev pub opened : ℕ → Receiver → Receiver
opened uc s = if length s.wsmsg == 0 then record s { opcode = bit_and uc 0x0F } else s

abbrev pub is_compressed : ℕ → Bool
is_compressed uc = not (bit_and uc 0x40 == 0)

module _ (inflate : List ℕ → Option (List ℕ)) (at : ℕ) where
  parse_frame-whole :
      (pu : List ℕ) (fin : ℕ) (comp : Bool) (plen len : ℕ) (s : Receiver)
      → data_length plen pu ≡ len
      → data_pos plen false + len ≤ length pu
      → len ≤ max_frame
      → length s.wsmsg + len ≤ max_package
      → parse_frame inflate at pu fin comp plen false s
        ≡ keep inflate comp
            (take len (drop (data_pos plen false) pu))
            (data_pos plen false + len)
            fin
            s
  unfolding parse_frame
  parse_frame-whole pu fin comp plen len s same whole small fits =
      let header : ltb (length pu) (data_pos plen false) ≡ false = ground arith in
      let in_frame : ltb max_frame len ≡ false = ground arith in
      let in_package : ltb max_package (length s.wsmsg + len) ≡ false = ground arith in
      let there : ltb (length pu) (data_pos plen false + len) ≡ false = ground arith in
      rw (same, header, in_frame, in_package, there) refl

  opened-wsmsg : (uc : ℕ) (s : Receiver) → (opened uc s).wsmsg ≡ s.wsmsg
  opened-wsmsg uc s = elim (Bool-cases (length s.wsmsg == 0)) [
    | inl e ↦ rw e refl
    | inr e ↦ rw e refl
  ]

  module _ (uc : ℕ) (payload tail : List ℕ) (s : Receiver) (small : length payload ≤ frame_size)
      (fits : length s.wsmsg + length payload ≤ max_package) where
    taken : take (length payload) (payload ++ tail) ≡ payload
    taken = take-append_length payload tail

    room : length (opened uc s).wsmsg + length payload ≤ max_package
    room = rw (opened-wsmsg uc s) fits

    short_frame :
        length payload < 126
        → parse_one_frame inflate at (uc ∷ length payload ∷ payload ++ tail) s
          ≡ keep inflate
              (is_compressed uc)
              payload
              (2 + length payload)
              (bit_and uc 0x80)
              (opened uc s)
    unfolding parse_one_frame data_length data_pos
    short_frame short =
        let n = length payload in
        let bits : bit_and n 0x7F ≡ n = omega (arith, bit_and_127 n) in
        let no_bit : bit_and n 0x80 ≡ 0 = omega (arith, bit_and_128 n) in
        let not_two : (n == 126) ≡ false = ground arith in
        let not_eight : (n == 127) ≡ false = ground arith in
        let same : data_length n (uc ∷ n ∷ payload ++ tail) ≡ n = rw (not_two, not_eight) refl in
        let pos : data_pos n false ≡ 2 = rw (not_two, not_eight) refl in
        let whole : data_pos n false + n ≤ length (uc ∷ n ∷ payload ++ tail) =
          omega (arith, pos, length-append payload tail) in
        rw (bits, no_bit)
          (parse_frame-whole (uc ∷ n ∷ payload ++ tail) (bit_and uc 0x80) (is_compressed uc) n n
              (opened uc s) same whole (omega arith) room
            ∙ rw (pos, taken) refl)

    long_frame :
        126 ≤ length payload
        → parse_one_frame inflate at
            (uc ∷ 126 ∷ (length payload / 256 % 256) ∷ (length payload % 256) ∷ payload ++ tail)
            s
          ≡ keep inflate
              (is_compressed uc)
              payload
              (4 + length payload)
              (bit_and uc 0x80)
              (opened uc s)
    unfolding parse_one_frame data_length data_pos
    long_frame long =
        let n = length payload in
        let pu = uc ∷ 126 ∷ (n / 256 % 256) ∷ (n % 256) ∷ payload ++ tail in
        let same : data_length 126 pu ≡ n =
          omega (arith, bit_or-disjoint_left 8 (n % 256) (n / 256 % 256) (omega arith)) in
        parse_frame-whole pu (bit_and uc 0x80) (is_compressed uc) 126 n (opened uc s) same
          (omega (arith, length-append payload tail)) (omega arith) room
        ∙ rw taken refl

    short_bytes :
        ltb (length payload) 126 ≡ true → length_bytes (length payload) uc ≡ length payload ∷ []
    unfolding length_bytes
    short_bytes e = rw e refl

    long_bytes :
        ltb (length payload) 126 ≡ false
        → uc < 65536
        → length_bytes (length payload) uc
          ≡ 126 ∷ (length payload / 256 % 256) ∷ (length payload % 256) ∷ []
    unfolding length_bytes be_bytes
    long_bytes e byte =
        let test : ltb uc 65536 ≡ true = ground arith in
        let fits_word : length payload % 2 ^ 16 ≡ length payload = omega arith in
        rw (e, test, fits_word) refl

    -- A frame of the sender's loop is parsed whole, whatever follows.
    pub frame_lem :
        uc < 65536
        → parse_one_frame inflate at
            (uc ∷ (length_bytes (length payload) uc ++ (payload ++ tail)))
            s
          ≡ keep inflate
              (is_compressed uc)
              payload
              (1 + length (length_bytes (length payload) uc) + length payload)
              (bit_and uc 0x80)
              (opened uc s)
    frame_lem byte = elim (Bool-cases (ltb (length payload) 126)) [
      | inl e ↦ rw (short_bytes e) (short_frame (ground arith))
      | inr e ↦ rw (long_bytes e byte) (long_frame (ground arith))
    ]
