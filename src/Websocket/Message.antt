-- ===== src/Websocket/Message.antt =====
-- Websocket messages: the receiver's loop over the frames of a message that the sender made.
use eclib.Common.{
  ℕ, zero, suc, ◌+◌, ◌-◌, ◌≤◌, ◌<◌, ◌≡◌, refl, sym, ap, ◌∙◌, bit_and, Bool, true, false, List, ◌∷◌,
  ◌++◌, length, drop, leb, ◌==◌, if◌then◌else◌, Option, arith, length-append, length-drop,
  drop-append_length, Bool-cases, inl, inr,
}
use mathlib.Core.List.{append_assoc}
use eclib.Websocket.{Receiver, did, frame_size, max_package, length_bytes, first_byte}
use eclib.Websocket.Receive.{keep, parse_one_frame, websocket_loop, next_frame, amount, end_frame}
use eclib.Websocket.Frame.{opened, is_compressed, frame_lem}
use eclib.Websocket.Sent.{
  frame, extent, sent, piece, sent-last, sent-more, length-piece, drop-piece,
}

module _ (inflate : List ℕ → Option (List ℕ)) where
  -- One round of the loop on a frame that makes `s'` of the receiver `s`.
  round_lem :
      (f at uc sizedo : ℕ) (payload tail : List ℕ) (s s' : Receiver)
      → length payload ≤ frame_size
      → length s.wsmsg + length payload ≤ max_package
      → uc < 65536
      → keep inflate
          (is_compressed uc)
          payload
          (suc (extent uc payload))
          (bit_and uc 0x80)
          (opened uc s)
        ≡ record { result = did (suc (extent uc payload)); fin = bit_and uc 0x80; after = s' }
      → websocket_loop inflate (suc f) at (frame uc payload ++ tail) sizedo s
        ≡ next_frame inflate sizedo (did (suc (extent uc payload))) (bit_and uc 0x80) s' (
            websocket_loop inflate f
              (at + suc (extent uc payload))
              tail
              (sizedo + suc (extent uc payload))
              s')
  unfolding websocket_loop amount
  round_lem f at uc sizedo payload tail s s' small fits byte kept =
      let lb = length_bytes (length payload) uc in
      let n = suc (extent uc payload) in
      let grouped : lb ++ payload ++ tail ≡ lb ++ (payload ++ tail) =
        append_assoc lb payload tail in
      let same : 1 + length lb + length payload ≡ n = omega arith in
      let parsed : parse_one_frame inflate at (uc ∷ (lb ++ payload ++ tail)) s
          ≡ record { result = did n; fin = bit_and uc 0x80; after = s' } =
        ap (λ (l : List ℕ). parse_one_frame inflate at (uc ∷ l) s) grouped
        ∙ (rw same at (frame_lem inflate at uc payload tail s small fits byte))
        ∙ kept in
      let size : length (lb ++ payload) ≡ extent uc payload = length-append lb payload in
      let left : drop (extent uc payload) (lb ++ payload ++ tail) ≡ tail =
        ap (λ (k : ℕ). drop k (lb ++ payload ++ tail)) (sym size)
        ∙ drop-append_length (lb ++ payload) tail in
      rw (parsed, left) refl

  -- What the parser makes of a frame, with the receiver `s'` behind it.
  abbrev pub Kept : ℕ → List ℕ → Receiver → Receiver → Type 0
  Kept uc payload s s' =
      keep inflate (is_compressed uc) payload (suc (extent uc payload)) (bit_and uc 0x80)
        (opened uc s)
      ≡ record { result = did (suc (extent uc payload)); fin = bit_and uc 0x80; after = s' }

  whole_frame : (uc : ℕ) (payload : List ℕ) → suc (extent uc payload) ≡ length (frame uc payload)
  whole_frame uc payload = ap suc (sym (length-append (length_bytes (length payload) uc) payload))

  pub end_round :
      (f at uc sizedo : ℕ) (payload tail : List ℕ) (s s' : Receiver)
      → length payload ≤ frame_size
      → length s.wsmsg + length payload ≤ max_package
      → uc < 65536
      → bit_and uc 0x80 ≡ 0x80
      → Kept uc payload s s'
      → websocket_loop inflate (suc f) at (frame uc payload ++ tail) sizedo s
        ≡ end_frame inflate (sizedo + length (frame uc payload)) s'
  unfolding next_frame
  end_round f at uc sizedo payload tail s s' small fits byte fin kept =
      round_lem f at uc sizedo payload tail s s' small fits byte kept
      ∙ rw (fin) (ap (λ (n : ℕ). end_frame inflate (sizedo + n) s') (whole_frame uc payload))

  pub more_round :
      (f at uc sizedo : ℕ) (payload tail : List ℕ) (s s' : Receiver)
      → length payload ≤ frame_size
      → length s.wsmsg + length payload ≤ max_package
      → uc < 65536
      → bit_and uc 0x80 ≡ 0
      → Kept uc payload s s'
      → websocket_loop inflate (suc f) at (frame uc payload ++ tail) sizedo s
        ≡ websocket_loop inflate f
            (at + length (frame uc payload))
            tail
            (sizedo + length (frame uc payload))
            s'
  unfolding next_frame
  more_round f at uc sizedo payload tail s s' small fits byte fin kept =
      round_lem f at uc sizedo payload tail s s' small fits byte kept
      ∙ rw (fin) (
          ap (λ (n : ℕ). websocket_loop inflate f (at + n) tail (sizedo + n) s')
            (whole_frame uc payload))

  -- A payload that is not compressed is put behind what was received.
  abbrev pub gained : List ℕ → Receiver → Receiver
  gained payload s = record s { wsmsg = s.wsmsg ++ payload }

  opened-later : (uc : ℕ) (s : Receiver) → 0 < length s.wsmsg → opened uc s ≡ s
  opened-later uc s h = let test : (length s.wsmsg == 0) ≡ false = ground arith in rw test refl

  pub keep-later :
      (uc : ℕ) (payload : List ℕ) (n : ℕ) (s : Receiver)
      → 0 < length s.wsmsg
      → is_compressed uc ≡ false
      → keep inflate (is_compressed uc) payload n (bit_and uc 0x80) (opened uc s)
        ≡ record { result = did n; fin = bit_and uc 0x80; after = gained payload s }
  unfolding keep
  keep-later uc payload n s h e = rw (opened-later uc s h, e) refl

  -- The frames behind the first one, which have no opcode.
  module _ (wsopt : ℕ) (c : Bool) (pds rest : List ℕ) where
    pub behind :
        (ss : ℕ) (end : Bool) → 0 < ss → first_byte wsopt c ss end ≡ (if end then 0x80 else 0)
    unfolding first_byte
    behind ss true h = let test : (ss == 0) ≡ false = ground arith in rw test refl
    behind ss false h = let test : (ss == 0) ≡ false = ground arith in rw test refl

    pub later_frames :
        (fuel f at ss sizedo : ℕ) (s : Receiver)
        → 0 < ss
        → ss < length pds
        → length pds - ss < fuel
        → length pds - ss ≤ f
        → 0 < length s.wsmsg
        → length s.wsmsg + (length pds - ss) ≤ max_package
        → websocket_loop inflate f at (sent wsopt c pds fuel ss ++ rest) sizedo s
          ≡ end_frame inflate (sizedo + length (sent wsopt c pds fuel ss)) (gained (drop ss pds) s)
    later_frames zero f at ss sizedo s later inside enough rounds begun fits = elim enough [ ]
    later_frames (suc fuel) zero at ss sizedo s later inside enough rounds begun fits =
        absurd (omega arith)
    later_frames (suc fuel) (suc f) at ss sizedo s later inside enough rounds begun fits =
        elim (Bool-cases (leb (length pds) (ss + frame_size))) [
          | inl e ↦
              let uc : first_byte wsopt c ss true ≡ 0x80 = behind ss true later in
              let left = length-drop ss pds in
              rw (sent-last wsopt c pds fuel ss (ground arith) (omega arith), uc)
                (end_round f at 0x80 sizedo (drop ss pds) rest s (gained (drop ss pds) s)
                  (ground (arith, left)) (omega (arith, left)) (omega arith) refl
                  (keep-later 0x80 (drop ss pds) (suc (extent 0x80 (drop ss pds))) s begun refl))
          | inr e ↦
              let far : ss + frame_size < length pds = ground arith in
              let uc : first_byte wsopt c ss false ≡ 0 = behind ss false later in
              let part = piece wsopt c pds ss in
              let size = length-piece wsopt c pds ss far in
              let onward = sent wsopt c pds fuel (ss + frame_size) in
              let n = length (frame 0 part) in
              let next = gained part s in
              let more = length-append s.wsmsg part in
              let ih =
                later_frames fuel f (at + n) (ss + frame_size) (sizedo + n) next (omega arith) far
                  (omega arith) (omega arith) (omega (arith, more)) (omega (arith, more, size)) in
              let joined : gained (drop (ss + frame_size) pds) next ≡ gained (drop ss pds) s =
                ap (λ (l : List ℕ). record s { wsmsg = l })
                  (append_assoc s.wsmsg part (drop (ss + frame_size) pds)
                    ∙ ap (λ (l : List ℕ). s.wsmsg ++ l) (drop-piece wsopt c pds ss)) in
              let sum : sizedo + n + length onward ≡ sizedo + length (frame 0 part ++ onward) =
                omega (arith, length-append (frame 0 part) onward) in
              rw (sent-more wsopt c pds fuel ss far, uc)
                (ap (λ (l : List ℕ). websocket_loop inflate (suc f) at l sizedo s)
                    (append_assoc (frame 0 part) onward rest)
                  ∙ more_round f at 0 sizedo part (onward ++ rest) s next (omega (arith, size))
                      (omega (arith, size)) (omega arith) refl
                      (keep-later 0 part (suc (extent 0 part)) s begun refl)
                  ∙ ih
                  ∙ ap (λ (k : ℕ). end_frame inflate k (gained (drop (ss + frame_size) pds) next))
                      sum
                  ∙ ap (end_frame inflate (sizedo + length (frame 0 part ++ onward))) joined)
        ]
