-- ===== src/Websocket/Split.antt =====
-- Websocket messages: the frames of a message that come in two parts, with whole frames in the first.
use eclib.Common.{
  ℕ, zero, suc, ◌+◌, ◌-◌, ◌≤◌, ◌<◌, ◌≡◌, refl, sym, ap, ◌∙◌, false, List, [], ◌++◌, length, drop,
  Option, some, arith, inl, length-append, length-drop,
}
use mathlib.Core.List.{append_assoc, append-nil}
use eclib.Websocket.{Receiver, frame_size, max_package, length_bytes, first_byte, make_permsg}
use eclib.Websocket.Receive.{websocket_parse, websocket_loop, waiting, end_frame}
use eclib.Websocket.Sent.{
  frame, extent, sent, piece, sent-more, length-piece, drop-piece, length-sent,
}
use eclib.Websocket.Message.{gained, more_round, later_frames, behind, keep-later}
use eclib.Websocket.Roundtrip.{
  IsData, idle, holding, first-Kept, opens, delivered, deliver_data, zero_plus,
}

-- Where the frames behind `k` whole ones start.
abbrev pub start : ℕ → ℕ → ℕ
start zero ss = ss
start (suc k) ss = start k (ss + frame_size)

pub start-le : (k ss : ℕ) → k + ss ≤ start k ss
start-le zero ss = omega arith
start-le (suc k) ss = let h = start-le k (ss + frame_size) in omega arith

module _ (wsopt : ℕ) (pds : List ℕ) where
  -- The first `k` frames from the byte `ss` of the message on, none of them the last, and what they hold.
  abbrev pub front : ℕ → ℕ → List ℕ
  front zero ss = []
  front (suc k) ss =
      frame (first_byte wsopt false ss false) (piece wsopt false pds ss)
      ++ front k (ss + frame_size)

  abbrev pub content : ℕ → ℕ → List ℕ
  content zero ss = []
  content (suc k) ss = piece wsopt false pds ss ++ content k (ss + frame_size)

  content-drop : (k ss : ℕ) → content k ss ++ drop (start k ss) pds ≡ drop ss pds
  content-drop zero ss = refl
  content-drop (suc k) ss =
      append_assoc (piece wsopt false pds ss) (content k (ss + frame_size))
        (drop (start k (ss + frame_size)) pds)
      ∙ ap (λ (l : List ℕ). piece wsopt false pds ss ++ l) (content-drop k (ss + frame_size))
      ∙ drop-piece wsopt false pds ss

  pub sent-front :
      (k fuel ss : ℕ)
      → start k ss < length pds
      → sent wsopt false pds (k + fuel) ss ≡ front k ss ++ sent wsopt false pds fuel (start k ss)
  sent-front zero fuel ss inside = let same : 0 + fuel ≡ fuel = omega arith in rw same refl
  sent-front (suc k) fuel ss inside =
      let far = start-le k (ss + frame_size) in
      let same : suc k + fuel ≡ suc (k + fuel) = omega arith in
      rw (same, sent-more wsopt false pds (k + fuel) ss (omega arith))
        (ap
            (λ (l : List ℕ).
              frame (first_byte wsopt false ss false) (piece wsopt false pds ss) ++ l)
            (sent-front k fuel (ss + frame_size) inside)
          ∙ sym (
              append_assoc (frame (first_byte wsopt false ss false) (piece wsopt false pds ss))
                (front k (ss + frame_size))
                (sent wsopt false pds fuel (start k (ss + frame_size)))))

  -- The sender's frames, with `k` of them in front.
  pub make_permsg-front :
      (deflate : List ℕ → Option (List ℕ)) (k : ℕ)
      → start k 0 < length pds
      → make_permsg deflate pds wsopt false
        ≡ some (front k 0 ++ sent wsopt false pds (suc (length pds) - k) (start k 0))
  unfolding make_permsg
  make_permsg-front deflate k inside =
      let beyond = start-le k 0 in
      let fuel : k + (suc (length pds) - k) ≡ suc (length pds) = omega arith in
      ap some (rw fuel at (sent-front k (suc (length pds) - k) 0 inside))

  module _ (inflate : List ℕ → Option (List ℕ)) where
    loop-nil :
        (f at sizedo : ℕ) (s : Receiver)
        → websocket_loop inflate f at [] sizedo s ≡ waiting sizedo [] s
    unfolding websocket_loop
    loop-nil zero at sizedo s = refl
    loop-nil (suc f) at sizedo s = refl

    -- Whole frames behind the first one are taken, and the parser waits for the others.
    later_waits :
        (k f at ss sizedo : ℕ) (s : Receiver)
        → 0 < ss
        → start k ss < length pds
        → k ≤ f
        → 0 < length s.wsmsg
        → length s.wsmsg + (length pds - ss) ≤ max_package
        → websocket_loop inflate f at (front k ss) sizedo s
          ≡ waiting (sizedo + length (front k ss)) [] (gained inflate (content k ss) s)
    later_waits zero f at ss sizedo s later inside rounds begun fits =
        let same : sizedo + 0 ≡ sizedo = omega arith in
        rw (same, append-nil s.wsmsg) (loop-nil f at sizedo s)
    later_waits (suc k) zero at ss sizedo s later inside rounds begun fits = absurd (omega arith)
    later_waits (suc k) (suc f) at ss sizedo s later inside rounds begun fits =
        let beyond = start-le k (ss + frame_size) in
        let uc : first_byte wsopt false ss false ≡ 0 =
          behind inflate wsopt false pds [] ss false later in
        let part = piece wsopt false pds ss in
        let size = length-piece wsopt false pds ss (omega arith) in
        let onward = front k (ss + frame_size) in
        let n = length (frame 0 part) in
        let next = gained inflate part s in
        let more = length-append s.wsmsg part in
        let sum = length-append (frame 0 part) onward in
        let total : sizedo + n + length onward ≡ sizedo + length (frame 0 part ++ onward) =
          omega arith in
        let joined : gained inflate (content k (ss + frame_size)) next
            ≡ gained inflate (content (suc k) ss) s =
          ap (λ (l : List ℕ). record s { wsmsg = l })
            (append_assoc s.wsmsg part (content k (ss + frame_size))) in
        rw uc (
          more_round inflate f at 0 sizedo part onward s next (omega (arith, size))
            (omega (arith, size)) (omega arith) refl
            (keep-later inflate 0 part (suc (extent 0 part)) s begun refl)
          ∙ later_waits k f (at + n) (ss + frame_size) (sizedo + n) next (omega arith) inside
              (omega arith) (omega (arith, more)) (omega (arith, more, size))
          ∙ ap (λ (m : ℕ). waiting m [] (gained inflate (content k (ss + frame_size)) next)) total
          ∙ ap (waiting (sizedo + length (frame 0 part ++ onward)) []) joined)

    rounds_enough : (k ss : ℕ) → k ≤ length (front k ss)
    rounds_enough zero ss = omega arith
    rounds_enough (suc k) ss =
        let uc = first_byte wsopt false ss false in
        let sum = length-append (frame uc (piece wsopt false pds ss)) (front k (ss + frame_size)) in
        let ih = rounds_enough k (ss + frame_size) in omega arith

    module _ (z o : ℕ) (data_frame : IsData wsopt) (fits : 2 + length pds ≤ max_package) where
      -- A receiver between two messages takes whole frames of a message and waits for the others.
      pub front_waits :
          (k at : ℕ)
          → start (suc k) 0 < length pds
          → websocket_parse inflate at (front (suc k) 0) (idle z o)
            ≡ waiting (length (front (suc k) 0)) [] (holding z wsopt false (content (suc k) 0))
      unfolding websocket_parse
      front_waits k at inside =
          let beyond = start-le k (0 + frame_size) in
          let uc = first_byte wsopt false 0 false in
          let (low, comp, fin, byte) = opens wsopt false false data_frame in
          let part = piece wsopt false pds 0 in
          let size = length-piece wsopt false pds 0 (omega arith) in
          let n = length (frame uc part) in
          let onward = front k (0 + frame_size) in
          let f = length (length_bytes (length part) uc ++ part ++ onward) in
          let tail = length-append (length_bytes (length part) uc ++ part) onward in
          let sum = length-append (frame uc part) onward in
          let next = holding z wsopt false part in
          more_round inflate f at uc 0 part onward (idle z o) next (omega (arith, size))
            (omega (arith, size)) byte fin
            (first-Kept inflate z o wsopt false uc part (inl refl) low comp)
          ∙ later_waits k f (at + n) (0 + frame_size) (0 + n) next (omega arith) inside
              (omega (arith, rounds_enough k (0 + frame_size))) (omega (arith, size))
              (omega (arith, size))
          ∙ ap (λ (m : ℕ). waiting m [] (gained inflate (content k (0 + frame_size)) next))
              (omega (arith, sum))

      -- With the others it delivers the message.
      pub back_delivered :
          (k at fuel : ℕ) (rest : List ℕ)
          → start (suc k) 0 < length pds
          → length pds - start (suc k) 0 < fuel
          → websocket_parse inflate at
              (sent wsopt false pds fuel (start (suc k) 0) ++ rest)
              (holding z wsopt false (content (suc k) 0))
            ≡ delivered pds (length (sent wsopt false pds fuel (start (suc k) 0))) z
      unfolding websocket_parse end_frame
      back_delivered k at fuel rest inside enough =
          let ss = start (suc k) 0 in
          let beyond = start-le k (0 + frame_size) in
          let frames = sent wsopt false pds fuel ss in
          let sum = length-append frames rest in
          let long = length-sent wsopt false pds fuel ss (omega arith) in
          let whole = content-drop (suc k) 0 in
          let parts = length-append (content (suc k) 0) (drop ss pds) in
          let total = ap length whole in
          let left = length-drop ss pds in
          let begun = length-append (piece wsopt false pds 0) (content k (0 + frame_size)) in
          let size = length-piece wsopt false pds 0 (omega arith) in
          later_frames inflate wsopt false pds rest fuel (length (frames ++ rest)) at ss 0
            (holding z wsopt false (content (suc k) 0)) (omega arith) inside (omega arith)
            (omega arith) (omega arith) (omega arith)
          ∙ ap (λ (l : List ℕ). end_frame inflate (0 + length frames) (holding z wsopt false l))
              whole
          ∙ ap (λ (n : ℕ). end_frame inflate n (holding z wsopt false pds))
              (zero_plus (length frames))
          ∙ deliver_data z wsopt (length frames) false pds pds data_frame (omega arith)
