-- ===== src/Websocket/Sent.antt =====
-- Websocket messages: the frames that the sender's loop makes.
use eclib.Common.{
  take-whole, drop-drop, ℕ, zero, suc, ◌+◌, ◌-◌, ◌≤◌, ◌<◌, ◌≡◌, refl, sym, Bool, true, false, List,
  ◌∷◌, ◌++◌, length, take, drop, ltb, leb, arith, length-append, length-take, length-drop,
  take-append-drop, Bool-cases, inl, inr,
}
use eclib.Websocket.{frame_size, length_bytes, first_byte, permsg_loop}

-- The bytes of a frame, and their number.
abbrev pub frame : ℕ → List ℕ → List ℕ
frame uc payload = uc ∷ (length_bytes (length payload) uc ++ payload)

abbrev pub extent : ℕ → List ℕ → ℕ
extent uc payload = length (length_bytes (length payload) uc) + length payload

-- The sender's loop, the bytes that are sent being `pds`.
module _ (wsopt : ℕ) (c : Bool) (pds : List ℕ) where
  abbrev pub sent : ℕ → ℕ → List ℕ
  sent fuel ss = permsg_loop fuel wsopt c pds (length pds) ss

  all_left : (ss : ℕ) → take (length pds - ss) (drop ss pds) ≡ drop ss pds
  all_left ss =
      let e : length pds - ss ≡ length (drop ss pds) = sym (length-drop ss pds) in
      rw e (take-whole (drop ss pds))

  pub sent-last :
      (fuel ss : ℕ)
      → length pds ≤ ss + frame_size
      → ss ≤ length pds
      → sent (suc fuel) ss ≡ frame (first_byte wsopt c ss true) (drop ss pds)
  unfolding permsg_loop
  sent-last fuel ss near inside =
      let end : leb (length pds) (ss + frame_size) ≡ true = ground arith in
      let no_more : ltb (ss + (length pds - ss)) (length pds) ≡ false = ground arith in
      rw (end, no_more, all_left ss, length-drop ss pds) refl

  abbrev pub piece : ℕ → List ℕ
  piece ss = take frame_size (drop ss pds)

  pub length-piece : (ss : ℕ) → ss + frame_size < length pds → length (piece ss) ≡ frame_size
  length-piece ss far = omega (arith, length-take frame_size (drop ss pds), length-drop ss pds)

  pub sent-more :
      (fuel ss : ℕ)
      → ss + frame_size < length pds
      → sent (suc fuel) ss
        ≡ frame (first_byte wsopt c ss false) (piece ss) ++ sent fuel (ss + frame_size)
  unfolding permsg_loop
  sent-more fuel ss far =
      let end : leb (length pds) (ss + frame_size) ≡ false = ground arith in
      let more : ltb (ss + frame_size) (length pds) ≡ true = ground arith in
      rw (end, more, length-piece ss far) refl

  pub drop-piece : (ss : ℕ) → piece ss ++ drop (ss + frame_size) pds ≡ drop ss pds
  drop-piece ss =
      let again : drop (ss + frame_size) pds ≡ drop frame_size (drop ss pds) =
        drop-drop ss frame_size pds in
      rw again (take-append-drop frame_size (drop ss pds))

  pub length-sent : (fuel ss : ℕ) → length pds - ss < fuel → length pds - ss ≤ length (sent fuel ss)
  length-sent zero ss enough = elim enough [ ]
  length-sent (suc fuel) ss enough = elim (Bool-cases (leb (length pds) (ss + frame_size))) [
    | inl e ↦ elim (Bool-cases (leb ss (length pds))) [
      | inl i ↦ rw (sent-last fuel ss (ground arith) (ground arith)) (
          omega (
            arith,
            length-append (length_bytes (length (drop ss pds)) (first_byte wsopt c ss true))
                (drop ss pds),
            length-drop ss pds,
          ))
      | inr i ↦ ground arith
    ]
    | inr e ↦
        let far : ss + frame_size < length pds = ground arith in
        let uc = first_byte wsopt c ss false in
        rw (sent-more fuel ss far) (
          omega (
            arith,
            length-append (frame uc (piece ss)) (sent fuel (ss + frame_size)),
            length-append (length_bytes (length (piece ss)) uc) (piece ss),
            length-piece ss far,
            length-sent fuel (ss + frame_size) (omega arith),
          ))
  ]
