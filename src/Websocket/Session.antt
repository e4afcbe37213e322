-- ===== src/Websocket/Session.antt =====
-- Websocket sessions: ws_make_perfrm of ec_wstips.h without a mask, and ws_send and the websocket part
-- of DoReadData of `base_ws` in ec_netss_ws.h.
pub mod Reads
use eclib.Common.{
  true, ℕ, Bool-cases, inl, inr, zero, suc, ◌+◌, ◌-◌, ◌≤◌, ◌<◌, ◌≡◌, refl, sym, ap, ◌∙◌, bit_and,
  bit_or, Bool, false, not, ◌&&◌, List, [], ◌∷◌, ◌++◌, length, take, drop, ltb, leb, ◌==◌,
  if◌then◌else◌, Option, none, some, ◌>>=◌, arith, drop-append_length,
}
use mathlib.Core.Path.{subst}
use mathlib.Core.Option.{some-injective}
use eclib.ParseBuffer.{ParseBuffer, append, freehead, free_all}
use eclib.ParseBuffer.Bytes.{held, IsBuffer, IsLarge, append_lem, freehead_lem}
use eclib.Websocket.{Receiver, frame_size, max_package, length_bytes, make_permsg}
use eclib.Websocket.Receive.{websocket_parse, Received, Status, he_ok, he_waitdata, he_failed}
use eclib.Websocket.Roundtrip.{IsData, idle, delivered, parse-make_permsg}

-- The first byte of a frame, which is compressed where it has more than 256 bytes. `us` is its size
-- before the test for the end.
perfrm_byte : ℕ → ℕ → ℕ → Bool → ℕ
perfrm_byte wsopt ss us end =
    let uc = if ss == 0 then bit_and 0x0F wsopt else 0 in
    let uc = if ltb 256 us then bit_or uc 0x40 else uc in if end then bit_or uc 0x80 else uc

-- zlib's output without the two first and the four last bytes.
inner_bytes : Option (List ℕ) → Option (List ℕ)
inner_bytes none = none
inner_bytes (some tmp) =
    if ltb (length tmp) 6 then none else some (take (length tmp - 6) (drop 2 tmp))

perfrm_payload : (List ℕ → Option (List ℕ)) → ℕ → List ℕ → Option (List ℕ)
unfolding inner_bytes
perfrm_payload deflate uc bytes =
    if bit_and uc 0x40 == 0 then some bytes else inner_bytes (deflate bytes)

whole_size : ℕ → ℕ → ℕ
whole_size slen ss = if leb frame_size (slen - ss) then frame_size else slen - ss

-- How many bytes of the message a frame takes.
perfrm_size : ℕ → ℕ → ℕ
unfolding whole_size
perfrm_size slen ss = if leb slen (ss + frame_size) then slen - ss else whole_size slen ss

perfrm_loop : (List ℕ → Option (List ℕ)) → ℕ → ℕ → List ℕ → ℕ → ℕ → Option (List ℕ)
unfolding perfrm_byte perfrm_payload length_bytes
perfrm_loop deflate zero wsopt pds slen ss = some []
perfrm_loop deflate (suc fuel) wsopt pds slen ss =
    let end = leb slen (ss + frame_size) in
    let us = perfrm_size slen ss in
    let uc = perfrm_byte wsopt ss (whole_size slen ss) end in
    let rest =
      if ltb (ss + us) slen then perfrm_loop deflate fuel wsopt pds slen (ss + us) else some [] in
    do
      pf ← perfrm_payload deflate uc (take us (drop ss pds))
      frames ← rest
      some (uc ∷ length_bytes (length pf) uc ++ pf ++ frames)

unfoldable pub make_perfrm : (List ℕ → Option (List ℕ)) → List ℕ → ℕ → Option (List ℕ)
unfolding perfrm_loop perfrm_size whole_size
make_perfrm deflate msg wsopt = perfrm_loop deflate (suc (length msg)) wsopt msg (length msg) 0

perfrm_size_lem : (slen ss : ℕ) → ss + perfrm_size slen ss < slen → 0 < perfrm_size slen ss
unfolding perfrm_size whole_size
perfrm_size_lem slen ss more = ground arith

module _ (deflate : List ℕ → Option (List ℕ)) (wsopt : ℕ) (pds : List ℕ) (slen : ℕ) where
  abbrev more_frames : ℕ → ℕ → Option (List ℕ)
  more_frames fuel ss = if ltb ss slen then perfrm_loop deflate fuel wsopt pds slen ss else some []

  abbrev frame_before : ℕ → Option (List ℕ) → Option (List ℕ)
  frame_before ss rest =
      let uc = perfrm_byte wsopt ss (whole_size slen ss) (leb slen (ss + frame_size)) in
      do
        pf ← perfrm_payload deflate uc (take (perfrm_size slen ss) (drop ss pds))
        frames ← rest
        some (uc ∷ length_bytes (length pf) uc ++ pf ++ frames)

  perfrm_round :
      (fuel ss : ℕ)
      → perfrm_loop deflate (suc fuel) wsopt pds slen ss
        ≡ frame_before ss (more_frames fuel (ss + perfrm_size slen ss))
  unfolding perfrm_loop
  perfrm_round fuel ss = refl

  perfrm_loop_step :
      (fuel ss : ℕ)
      → (ltb (ss + perfrm_size slen ss) slen ≡ true
          → perfrm_loop deflate fuel wsopt pds slen (ss + perfrm_size slen ss)
            ≡ perfrm_loop deflate (suc fuel) wsopt pds slen (ss + perfrm_size slen ss))
      → perfrm_loop deflate (suc fuel) wsopt pds slen ss
        ≡ perfrm_loop deflate (suc (suc fuel)) wsopt pds slen ss
  perfrm_loop_step fuel ss step =
      let next = ss + perfrm_size slen ss in
      let same : more_frames fuel next ≡ more_frames (suc fuel) next =
        elim (Bool-cases (ltb next slen)) [ inl e ↦ rw e (step e) | inr e ↦ rw e refl ] in
      perfrm_round fuel ss ∙ ap (frame_before ss) same ∙ sym (perfrm_round (suc fuel) ss)

  -- A unit of fuel for each byte, and one more, is enough: with more the frames are the same.
  perfrm_loop_enough :
      (fuel ss : ℕ)
      → slen ≤ ss + fuel
      → perfrm_loop deflate (suc fuel) wsopt pds slen ss
        ≡ perfrm_loop deflate (suc (suc fuel)) wsopt pds slen ss
  perfrm_loop_enough zero ss le = perfrm_loop_step 0 ss (λ e. absurd (ground arith))
  perfrm_loop_enough (suc fuel) ss le = perfrm_loop_step (suc fuel) ss (λ e.
      let some_byte = perfrm_size_lem slen ss (ground arith) in
      perfrm_loop_enough fuel (ss + perfrm_size slen ss) (omega arith))

-- What `ws_send` hands to `ws_iosend`; `none` is -1.
unfoldable pub ws_send : (List ℕ → Option (List ℕ)) → ℕ → ℕ → List ℕ → ℕ → Option (List ℕ)
unfolding make_perfrm
ws_send deflate nws wscompress msg wsopt =
    if nws == 0
    then some msg
    else if nws == 1
    then (if wscompress == 2
        then make_perfrm deflate msg wsopt
        else make_permsg deflate msg wsopt (ltb 128 (length msg) && not (wscompress == 0)))
    else none

-- The buffer after WebsocketParse.
trim : Status → ℕ → ParseBuffer → ParseBuffer
trim he_failed sizedo b = free_all b
trim he_ok sizedo b = if sizedo == 0 then b else freehead sizedo b
trim he_waitdata sizedo b = if sizedo == 0 then b else freehead sizedo b

-- DoReadData of a websocket. The result of `append` is not looked at.
pub read_data :
    (List ℕ → Option (List ℕ))
    → ℕ
    → Option (List ℕ)
    → List ℕ
    → Receiver
    → ParseBuffer
    → Received × ParseBuffer
unfolding trim
read_data inflate at got bytes s b =
    let rbuf = (append got bytes b).1 in
    let r = websocket_parse inflate at (held rbuf) s in (r, trim r.status r.sizedo rbuf)

trim_lem :
    (n : ℕ) (b : ParseBuffer)
    → IsBuffer b
    → IsBuffer (trim he_ok n b) × (held (trim he_ok n b) ≡ drop n (held b))
unfolding trim
trim_lem n b valid = elim (Bool-cases (n == 0)) [
  | inl e ↦ let none_left : n ≡ 0 = ground arith in rw (e, none_left) (valid, refl)
  | inr e ↦ rw e (freehead_lem n b valid)
]

-- When the bytes that the buffer holds and those that come in are the frames of a text or binary message
-- that is not compressed, and what follows them, a session between two messages delivers the message,
-- keeps what follows and has a valid buffer, if the buffer was valid and there is a block for one and a
-- half times the bytes. The message is not empty, and two bytes shorter than the longest that is
-- accepted; some byte comes in.
pub read_data_lem :
    (deflate inflate : List ℕ → Option (List ℕ)) (at z o wsopt : ℕ)
    (msg frames rest bytes block : List ℕ) (b : ParseBuffer)
    → IsData wsopt
    → 0 < length msg
    → 2 + length msg ≤ max_package
    → 0 < length bytes
    → IsBuffer b
    → IsLarge block bytes b
    → make_permsg deflate msg wsopt false ≡ some frames
    → held b ++ bytes ≡ frames ++ rest
    → ((read_data inflate at (some block) bytes (idle z o) b).0 ≡ delivered msg (length frames) z)
      × IsBuffer (read_data inflate at (some block) bytes (idle z o) b).1
      × (held (read_data inflate at (some block) bytes (idle z o) b).1 ≡ rest)
unfolding read_data trim
read_data_lem deflate inflate at z o wsopt msg frames rest bytes block b data_frame some_byte small
      some_bytes valid wide packs whole =
    let (sent, packed, parses) =
      parse-make_permsg deflate inflate msg rest wsopt o at data_frame some_byte z false refl
        small in
    let same : sent ≡ frames = some-injective sent frames (sym packed ∙ packs) in
    let (ok, buffer, holds) = append_lem block bytes b some_bytes valid wide in
    let all : held (append (some block) bytes b).1 ≡ sent ++ rest =
      holds ∙ whole ∙ ap (λ (l : List ℕ). l ++ rest) (sym same) in
    let got =
      ap (λ (l : List ℕ). websocket_parse inflate at l (idle z o)) all
      ∙ parses
      ∙ ap (λ (l : List ℕ). delivered msg (length l) z) same in
    let (kept, left) = trim_lem (length frames) (append (some block) bytes b).1 buffer in
    let trimmed =
      ap (λ (r : Received). trim r.status r.sizedo (append (some block) bytes b).1) got in
    (
      got,
      subst IsBuffer (sym trimmed) kept,
      ap held trimmed
          ∙ left
          ∙ ap (drop (length frames)) (holds ∙ whole)
          ∙ drop-append_length frames rest,
    )
