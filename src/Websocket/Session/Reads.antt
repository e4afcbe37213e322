-- ===== src/Websocket/Session/Reads.antt =====
-- ec_netss_ws.h, `base_ws`: DoReadData on a websocket message that comes in two reads.
use eclib.Common.{
  ℕ, suc, ◌+◌, ◌-◌, ◌/◌, ◌≤◌, ◌<◌, ◌≡◌, refl, sym, ap, ◌∙◌, false, List, [], ◌++◌, length, drop,
  Option, some, arith, ◌==◌, Bool-cases, inl, inr, drop-append_length, drop-all,
}
use mathlib.Core.Path.{subst}
use mathlib.Core.Option.{some-injective}
use eclib.ParseBuffer.{ParseBuffer, append}
use eclib.ParseBuffer.Bytes.{held, IsBuffer, IsLarge, append_lem, freehead_lem}
use eclib.Websocket.{Receiver, max_package, make_permsg}
use eclib.Websocket.Receive.{websocket_parse, Received, he_waitdata, waiting}
use eclib.Websocket.Roundtrip.{IsData, idle, holding, delivered}
use eclib.Websocket.Sent.{sent}
use eclib.Websocket.Split.{start, front, content, sent-front, start-le, front_waits, back_delivered}
use eclib.Websocket.Session.{read_data, trim, trim_lem}

waits_lem :
    (n : ℕ) (b : ParseBuffer)
    → IsBuffer b
    → IsBuffer (trim he_waitdata n b) × (held (trim he_waitdata n b) ≡ drop n (held b))
unfolding trim
waits_lem n b valid = elim (Bool-cases (n == 0)) [
  | inl e ↦ let none_left : n ≡ 0 = ground arith in rw (e, none_left) (valid, refl)
  | inr e ↦ rw e (freehead_lem n b valid)
]

module _ (inflate : List ℕ → Option (List ℕ)) (at : ℕ) (block bytes : List ℕ) (s : Receiver)
    (b : ParseBuffer) (some_bytes : 0 < length bytes) (valid : IsBuffer b)
    (wide : IsLarge block bytes b) where
  abbrev read : Received × ParseBuffer
  read = read_data inflate at (some block) bytes s b

  abbrev Left : Received → Type 0
  Left r = (read.0 ≡ r) × IsBuffer read.1 × (held read.1 ≡ drop r.sizedo (held b ++ bytes))

  -- A read whose bytes the parser takes, or waits behind.
  read_waits :
      (n : ℕ) (s' : Receiver)
      → websocket_parse inflate at (held b ++ bytes) s ≡ waiting n [] s'
      → Left (waiting n [] s')
  unfolding read_data waiting
  read_waits n s' parses =
      let (ok, buffer, holds) = append_lem block bytes b some_bytes valid wide in
      let rbuf = (append (some block) bytes b).1 in
      let got = ap (λ (l : List ℕ). websocket_parse inflate at l s) holds ∙ parses in
      let (kept, left) = waits_lem n rbuf buffer in
      let trimmed = ap (λ (r : Received). trim r.status r.sizedo rbuf) got in
      (got, subst IsBuffer (sym trimmed) kept, ap held trimmed ∙ left ∙ ap (drop n) holds)

  read_delivers :
      (n z : ℕ) (msg : List ℕ)
      → websocket_parse inflate at (held b ++ bytes) s ≡ delivered msg n z
      → Left (delivered msg n z)
  unfolding read_data
  read_delivers n z msg parses =
      let (ok, buffer, holds) = append_lem block bytes b some_bytes valid wide in
      let rbuf = (append (some block) bytes b).1 in
      let got = ap (λ (l : List ℕ). websocket_parse inflate at l s) holds ∙ parses in
      let (kept, left) = trim_lem n rbuf buffer in
      let trimmed = ap (λ (r : Received). trim r.status r.sizedo rbuf) got in
      (got, subst IsBuffer (sym trimmed) kept, ap held trimmed ∙ left ∙ ap (drop n) holds)

-- When the frames of a text or binary message that is not compressed come in two reads, the first one
-- ending behind a whole frame that is not the last, a session between two messages takes the first frames
-- and waits with an empty buffer; then it delivers the message, and keeps what follows its frames in a
-- valid buffer. Some byte comes with each read, the buffer was valid, and there is a block for one and a
-- half times the bytes. The message is two bytes shorter than the longest that is accepted.
pub reads_lem :
    (deflate inflate : List ℕ → Option (List ℕ)) (at at' z o wsopt k : ℕ)
    (msg back rest bytes bytes' block block' : List ℕ) (b : ParseBuffer)
    → IsData wsopt
    → start (suc k) 0 < length msg
    → 2 + length msg ≤ max_package
    → make_permsg deflate msg wsopt false ≡ some (front wsopt msg (suc k) 0 ++ back)
    → 0 < length bytes
    → IsBuffer b
    → IsLarge block bytes b
    → held b ++ bytes ≡ front wsopt msg (suc k) 0
    → 0 < length bytes'
    → bytes' ≡ back ++ rest
    → length bytes' + length bytes' / 2 ≤ length block'
    → let first = read_data inflate at (some block) bytes (idle z o) b in
      let second = read_data inflate at' (some block') bytes' first.0.after first.1 in
      (first.0.status ≡ he_waitdata)
      × (first.0.out ≡ [])
      × (held first.1 ≡ [])
      × (second.0 ≡ delivered msg (length back) z)
      × IsBuffer second.1
      × (held second.1 ≡ rest)
unfolding make_permsg waiting
reads_lem deflate inflate at at' z o wsopt k msg back rest bytes bytes' block block' b data_frame
      inside fits packs some_bytes valid wide whole some_bytes' whole' wide' =
    let lead = front wsopt msg (suc k) 0 in
    let beyond = start-le (suc k) 0 in
    let frames : sent wsopt false msg (suc (length msg)) 0 ≡ lead ++ back =
      some-injective _ _ packs in
    let fuel : suc k + (length msg - k) ≡ suc (length msg) = omega arith in
    let split : sent wsopt false msg (suc (length msg)) 0
        ≡ lead ++ sent wsopt false msg (length msg - k) (start (suc k) 0) =
      (rw fuel at (sent-front wsopt msg (suc k) (length msg - k) 0 inside)) in
    let behind : back ≡ sent wsopt false msg (length msg - k) (start (suc k) 0) =
      sym (drop-append_length lead back)
      ∙ ap (drop (length lead)) (sym frames ∙ split)
      ∙ drop-append_length lead (sent wsopt false msg (length msg - k) (start (suc k) 0)) in
    let held' = holding z wsopt false (content wsopt msg (suc k) 0) in
    let (got, buffer, left) =
      read_waits inflate at block bytes (idle z o) b some_bytes valid wide (length lead) held' (
        ap (λ (l : List ℕ). websocket_parse inflate at l (idle z o)) whole
        ∙ front_waits wsopt msg inflate z o data_frame fits k at inside) in
    let first = read_data inflate at (some block) bytes (idle z o) b in
    let empty : held first.1 ≡ [] =
      left ∙ ap (drop (length lead)) whole ∙ drop-all (length lead) lead (omega arith) in
    let room : IsLarge block' bytes' first.1 = rw empty (omega arith) in
    let all : held first.1 ++ bytes' ≡ back ++ rest =
      ap (λ (l : List ℕ). l ++ bytes') empty ∙ whole' in
    let parses : websocket_parse inflate at' (held first.1 ++ bytes') first.0.after
        ≡ delivered msg (length back) z =
      ap (λ (l : List ℕ). websocket_parse inflate at' l first.0.after) all
      ∙ ap (λ (r : Received). websocket_parse inflate at' (back ++ rest) r.after) got
      ∙ subst
          (λ (l : List ℕ).
            websocket_parse inflate at' (l ++ rest) held' ≡ delivered msg (length l) z)
          (sym behind)
          (back_delivered wsopt msg inflate z o data_frame fits k at' (length msg - k) rest inside
            (omega arith)) in
    let (got', buffer', left') =
      read_delivers inflate at' block' bytes' first.0.after first.1 some_bytes' buffer room
        (length back) z msg parses in
    (
      ap Received.status got,
      ap Received.out got,
      empty,
      got',
      buffer',
      left' ∙ ap (drop (length back)) all ∙ drop-append_length back rest,
    )
