-- ===== src/Websocket/Examples.antt =====
-- Websocket frames: runs, and the theorems at concrete values.
use eclib.Common.{
  ◌+◌, ◌/◌, ◌<◌, ◌≤◌, ap, ◌-◌, length-append, zero, suc, ℕ, ◌≡◌, refl, true, false, List, [], ◌∷◌,
  ◌++◌, length, replicate, Option, none, some, leb, if◌then◌else◌, arith, inl, inr,
}
use eclib.Websocket.{make_permsg, data_pos, first_byte}
use eclib.Websocket.Receive.{Received, websocket_parse, he_waitdata}
use eclib.Websocket.Roundtrip.{idle, delivered, parse-make_permsg}
use eclib.Websocket.Zlib.{Call, z_ok, ws_encode_zlib, ws_decode_zlib}
use eclib.Websocket.Deflated.{parse-make_deflated}
use eclib.Websocket.Sent.{sent}
use eclib.Websocket.Session.Reads.{reads_lem}
use eclib.Websocket.Split.{start, front, make_permsg-front}
use eclib.Websocket.Partial.{partial_header}
use eclib.Websocket.Session.{make_perfrm, ws_send, read_data}
use eclib.ParseBuffer.{ParseBuffer}
use eclib.ParseBuffer.Bytes.{held, IsBuffer}

-- A compressor that knows one message.
abbrev long_message : List ℕ
long_message = replicate 200 7

abbrev packed : List ℕ
packed = 1 ∷ 2 ∷ 3 ∷ []

abbrev deflate : List ℕ → Option (List ℕ)
deflate bs = some (0x78 ∷ 0x9C ∷ packed ++ (0 ∷ 0 ∷ 0xFF ∷ 0xFF ∷ []))

abbrev inflate : List ℕ → Option (List ℕ)
inflate bs = if leb (length bs) 5 then some long_message else none

abbrev hello : List ℕ
hello = b'h' ∷ b'i' ∷ []

hello_frame : make_permsg deflate hello 1 false ≡ some (0x81 ∷ 2 ∷ hello)
unfolding make_permsg
hello_frame = refl

parse-make_permsg_example :
    (frames : List ℕ) × (make_permsg deflate hello 1 true ≡ some frames)
    × (websocket_parse inflate 3 (frames ++ 0x89 ∷ []) (idle 1 2)
        ≡ delivered hello (length frames) 1)
parse-make_permsg_example =
    parse-make_permsg deflate inflate hello (0x89 ∷ []) 1 2 3 (inl refl) (omega arith) 1 true refl
      (omega arith)

-- A stream that knows one message: the first call of `inflate` gives 120 bytes of it and leaves a byte of
-- its input.
abbrev deflate_call : ℕ → List ℕ → Call ℕ
deflate_call s input = record {
  code = z_ok;
  left = [];
  out = 0x78 ∷ 0x9C ∷ packed ++ (0 ∷ 0 ∷ 0xFF ∷ 0xFF ∷ []);
  stream = 1;
}

abbrev inflate_call : ℕ → List ℕ → Call ℕ
inflate_call zero input = record { code = z_ok; left = 3 ∷ []; out = replicate 120 7; stream = 1 }
inflate_call (suc s) input = record { code = z_ok; left = []; out = replicate 80 7; stream = 2 }

parse-make_deflated_example :
    (frames : List ℕ) × (make_permsg (ws_encode_zlib deflate_call (some 0) 1) long_message 2 true
      ≡ some frames)
    × (websocket_parse (ws_decode_zlib inflate_call (some 0) 3) 0 (frames ++ 0x89 ∷ []) (idle 1 1)
        ≡ delivered long_message (length frames) 1)
parse-make_deflated_example =
    parse-make_deflated deflate_call inflate_call 0 0 0 1 1 3 long_message (0x89 ∷ []) packed
      (0 ∷ 0 ∷ 0xFF ∷ 0xFF ∷ []) 2 1 0 0x78 0x9C (inr refl) (omega arith) refl (omega arith)
      (omega arith) ([], 1, refl, omega arith)
      (3 ∷ [], replicate 120 7, replicate 80 7, 1, refl, omega arith, refl, (2, refl, omega arith))
      (omega arith)

-- The first two bytes of a frame of 300 bytes.
partial_header_example :
    ((websocket_parse inflate 0 (0x82 ∷ 126 ∷ []) (idle 0 1)).status ≡ he_waitdata)
    × ((websocket_parse inflate 0 (0x82 ∷ 126 ∷ []) (idle 0 1)).sizedo ≡ 1)
unfolding data_pos
partial_header_example = partial_header inflate 0 0x82 126 0 1 [] refl (omega arith)

-- A long frame loses the six bytes of zlib around its content, and its first byte tells that it is
-- compressed.
long_perfrm : make_perfrm deflate (replicate 300 7) 2 ≡ some (0xC2 ∷ 3 ∷ packed)
unfolding make_perfrm
long_perfrm = refl

short_sent : ws_send deflate 1 2 hello 1 ≡ some (0x81 ∷ 2 ∷ hello)
unfolding ws_send
short_sent = refl

not_connected : ws_send deflate 2 0 hello 1 ≡ none
unfolding ws_send
not_connected = refl

-- A buffer with the first three bytes of a frame of four.
abbrev waiting_buffer : ParseBuffer
waiting_buffer = record {
  head = 1;
  tail = 4;
  bufsize = 6;
  pos = 0;
  pbuf = some (0 ∷ 0x81 ∷ 2 ∷ b'h' ∷ 0 ∷ 0 ∷ []);
}

-- A message of two frames, which come one by one, with a byte of another frame behind.
abbrev sevens : ℕ → List ℕ
sevens zero = []
sevens (suc n) = 7 ∷ sevens n

length-sevens : (n : ℕ) → length (sevens n) ≡ n
length-sevens zero = refl
length-sevens (suc n) = ap suc (length-sevens n)

two_frames : List ℕ
two_frames = sevens 30721

two_frames-long : length two_frames ≡ 30721
unfolding two_frames
two_frames-long = length-sevens 30721

first_part : List ℕ
first_part = front 2 two_frames 1 0

second_part : List ℕ
second_part = sent 2 false two_frames (suc (length two_frames) - 1) (start 1 0)

abbrev no_bytes : ParseBuffer
no_bytes = record { head = 0; tail = 0; bufsize = 0; pos = 0; pbuf = none }

abbrev first_read : Received × ParseBuffer
first_read = read_data inflate 1 (some (first_part ++ first_part)) first_part (idle 0 1) no_bytes

abbrev second_read : Received × ParseBuffer
second_read =
    read_data inflate 5 (some ((second_part ++ 0x82 ∷ []) ++ (second_part ++ 0x82 ∷ [])))
      (second_part ++ 0x82 ∷ []) first_read.0.after first_read.1

half_twice : (xs : List ℕ) → length xs + length xs / 2 ≤ length (xs ++ xs)
half_twice xs = omega (arith, length-append xs xs)

some_first : (b : ℕ) (xs : List ℕ) → 0 < length (b ∷ xs)
some_first b xs = omega arith

some_behind : (xs : List ℕ) → 0 < length (xs ++ 0x82 ∷ [])
some_behind xs = omega (arith, length-append xs (0x82 ∷ []))

far : 30720 < length two_frames
far = omega (arith, two_frames-long)

half_first : 0 + length first_part + (0 + length first_part) / 2 ≤ length (first_part ++ first_part)
half_first = omega (arith, half_twice first_part)

reads_lem_example :
    (first_read.0.status ≡ he_waitdata)
    × (first_read.0.out ≡ [])
    × (held first_read.1 ≡ [])
    × (second_read.0 ≡ delivered two_frames (length second_part) 0)
    × IsBuffer second_read.1
    × (held second_read.1 ≡ 0x82 ∷ [])
unfolding first_part second_part
reads_lem_example =
    reads_lem deflate inflate 1 5 0 1 2 0 two_frames second_part (0x82 ∷ []) first_part
      (second_part ++ 0x82 ∷ []) (first_part ++ first_part)
      ((second_part ++ 0x82 ∷ []) ++ (second_part ++ 0x82 ∷ [])) no_bytes (inr refl) far
      (omega (arith, two_frames-long)) (make_permsg-front 2 two_frames deflate 1 far)
      (some_first (first_byte 2 false 0 false) _) tt half_first refl (some_behind second_part) refl
      (half_twice (second_part ++ 0x82 ∷ []))
