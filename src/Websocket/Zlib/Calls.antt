-- ===== src/Websocket/Zlib/Calls.antt =====
-- ec_wstips.h: what the loops of ws_encode_zlib and ws_decode_zlib make of the calls of zlib.
use eclib.Common.{
  ℕ, zero, suc, ◌<◌, ◌≡◌, refl, ap, ◌∙◌, true, false, List, [], ◌∷◌, ◌++◌, length, some, ◌==◌,
  arith,
}
use mathlib.Core.List.{append-nil}
use eclib.Websocket.Zlib.{
  Call, z_ok, buffer_size, encoded_more, encode_loop, decoded_more, decode_loop, ws_encode_zlib,
  ws_decode_zlib,
}

module _ {S : Type 0} (call : S → List ℕ → Call S) where
  -- `n` calls that fill the buffer, and one that does not: zlib's output is then all there.
  abbrev pub Deflates : ℕ → S → List ℕ → List ℕ → Type 0
  Deflates zero s input bytes =
      (left : List ℕ) × (after : S) × (call s input
        ≡ record { code = z_ok; left = left; out = bytes; stream = after })
      × (length bytes < buffer_size)
  Deflates (suc n) s input bytes =
      (left out more : List ℕ) × (after : S) × (call s input
        ≡ record { code = z_ok; left = left; out = out; stream = after })
      × (length out ≡ buffer_size)
      × (out ++ more ≡ bytes)
      × Deflates n after left more

  -- The same for `inflate`, where the last call uses up the input, and those before leave some of it.
  abbrev pub Inflates : ℕ → S → List ℕ → List ℕ → Type 0
  Inflates zero s input bytes =
      (after : S) × (call s input ≡ record { code = z_ok; left = []; out = bytes; stream = after })
      × (0 < length input)
  Inflates (suc n) s input bytes =
      (left out more : List ℕ) × (after : S) × (call s input
        ≡ record { code = z_ok; left = left; out = out; stream = after })
      × (0 < length input)
      × (out ++ more ≡ bytes)
      × Inflates n after left more

  encode_loop_lem :
      (n fuel : ℕ) (s : S) (input bytes : List ℕ)
      → n < fuel
      → Deflates n s input bytes
      → encode_loop call fuel s input ≡ some bytes
  unfolding encode_loop encoded_more
  encode_loop_lem n zero s input bytes enough h = absurd (omega arith)
  encode_loop_lem zero (suc fuel) s input bytes enough (left, after, called, room) =
      let test : (length bytes == buffer_size) ≡ false = ground arith in rw (called, test) refl
  encode_loop_lem (suc n) (suc fuel) s input bytes enough
        (left, out, more, after, called, full, whole, onward) =
      let test : (length out == buffer_size) ≡ true = ground arith in
      rw (called, test, encode_loop_lem n fuel after left more (omega arith) onward) (ap some whole)

  decode_loop_lem :
      (n fuel : ℕ) (s : S) (input bytes : List ℕ)
      → suc n < fuel
      → Inflates n s input bytes
      → decode_loop call fuel s input ≡ some bytes
  unfolding decode_loop decoded_more
  decode_loop_lem n zero s input bytes enough h = absurd (omega arith)
  decode_loop_lem n (suc zero) s input bytes enough h = absurd (omega arith)
  decode_loop_lem zero (suc (suc fuel)) s [] bytes enough (after, called, some_byte) =
      absurd (omega arith)
  decode_loop_lem zero (suc (suc fuel)) s (b ∷ input) bytes enough (after, called, some_byte) =
      rw called (ap some (append-nil bytes))
  decode_loop_lem (suc n) (suc (suc fuel)) s [] bytes enough
        (left, out, more, after, called, some_byte, whole, onward) =
      absurd (omega arith)
  decode_loop_lem (suc n) (suc (suc fuel)) s (b ∷ input) bytes enough
        (left, out, more, after, called, some_byte, whole, onward) =
      ap
        (λ (c : Call S).
          decoded_more call c.code c.out (decode_loop call (suc fuel) c.stream c.left))
        called
      ∙ ap (decoded_more call z_ok out)
          (decode_loop_lem n (suc fuel) after left more (omega arith) onward)
      ∙ ap some whole

  -- ws_encode_zlib gives all that zlib puts out.
  pub ws_encode_zlib_lem :
      (n fuel : ℕ) (s : S) (src bytes : List ℕ)
      → n < fuel
      → Deflates n s src bytes
      → ws_encode_zlib call (some s) fuel src ≡ some bytes
  unfolding ws_encode_zlib
  ws_encode_zlib_lem n fuel s src bytes enough h = encode_loop_lem n fuel s src bytes enough h

  -- ws_decode_zlib gives what zlib puts out until its input is used up, whether or not that is all: a
  -- last call that fills the buffer is not followed by another.
  pub ws_decode_zlib_lem :
      (n fuel : ℕ) (s : S) (src bytes : List ℕ)
      → suc n < fuel
      → Inflates n s src bytes
      → ws_decode_zlib call (some s) fuel src ≡ some bytes
  unfolding ws_decode_zlib
  ws_decode_zlib_lem n fuel s src bytes enough h = decode_loop_lem n fuel s src bytes enough h
