-- ===== src/Stream/Text.antt =====
-- ec_stream.h, `stream`: strings that end in a zero byte, and the position.
use eclib.Common.{
  ℕ, suc, ◌+◌, ◌-◌, ◌%◌, ◌^◌, ◌≤◌, ◌<◌, ◌≡◌, ◌≢◌, refl, ap, ◌∙◌, true, false, List, [], ◌∷◌, ◌++◌,
  length, take, drop, ltb, leb, ◌==◌, if◌then◌else◌, length-append, length-take, length-drop, All,
  arith,
}
use mathlib.Core.List.{append_assoc, append-nil}
use eclib.Stream.Patch.{patch-IsPatched, drop-split}
use eclib.Stream.Words.{IsWritten, rewound}
use eclib.Stream.{patch, Stream, ok, readstr, readstr_loop, writestr, leftsize, iseof}

-- A string followed by a zero is read up to the zero, and cut where the room ends.
readstr_loop-zero :
    (str rest : List ℕ) (room pos : ℕ) (out : List ℕ)
    → All (λ b. b ≢ 0) str
    → length out + length str < room
    → readstr_loop (str ++ 0 ∷ rest) room pos out ≡ (out ++ str, pos + length str)
unfolding readstr_loop
readstr_loop-zero [] rest room pos out clean fits =
    let still : pos + 0 ≡ pos = omega arith in rw (append-nil out, still) refl
readstr_loop-zero (b ∷ str) rest room pos out clean fits =
    let goes : (b == 0) ≡ false = ground (arith, clean.0) in
    let kept : ltb (length out + 1) room ≡ true = ground arith in
    let onward : pos + 1 + length str ≡ pos + suc (length str) = omega arith in
    let longer : length (out ++ b ∷ []) + length str < room =
      omega (arith, length-append out (b ∷ [])) in
    rw (goes, kept)
      (readstr_loop-zero str rest room (pos + 1) (out ++ b ∷ []) clean.1 longer
        ∙ rw (append_assoc out (b ∷ []) str, onward) refl)

-- Without a zero the loop takes everything.
readstr_loop-end :
    (bytes : List ℕ) (room pos : ℕ) (out : List ℕ)
    → All (λ b. b ≢ 0) bytes
    → (readstr_loop bytes room pos out).1 ≡ pos + length bytes
unfolding readstr_loop
readstr_loop-end [] room pos out clean = omega arith
readstr_loop-end (b ∷ bytes) room pos out clean = ground (
  arith,
  readstr_loop-end bytes room (pos + 1) (if ltb (length out + 1) room then out ++ b ∷ [] else out)
      clean.1,
)

-- Where no zero byte is left, `readstr` moves the position one past the end of the stream: then `iseof`
-- is false, and `leftsize` is 2 ^ 64 - 1.
pub readstr_past_end :
    (room : ℕ) (s : Stream)
    → 0 < room
    → s.pos ≤ s.size
    → s.size ≤ length s.buf
    → s.size < 2 ^ 64
    → All (λ b. b ≢ 0) (drop s.pos (take s.size s.buf))
    → (str : List ℕ) × (readstr room s ≡ ok (str, record s { pos = s.size + 1 }))
      × (iseof (record s { pos = s.size + 1 }) ≡ false)
      × (leftsize (record s { pos = s.size + 1 }) ≡ 2 ^ 64 - 1)
unfolding readstr iseof leftsize
readstr_past_end room s pos inside block word clean =
    let bytes = drop s.pos (take s.size s.buf) in
    let n : length bytes ≡ s.size - s.pos =
      omega (arith, length-drop s.pos (take s.size s.buf), length-take s.size s.buf) in
    let stops : (readstr_loop bytes room s.pos []).1 + 1 ≡ s.size + 1 =
      omega (arith, readstr_loop-end bytes room s.pos [] clean) in
    let some_room : (room == 0) ≡ false = ground arith in
    let held : leb s.size (length s.buf) ≡ true = ground arith in
    (
      (readstr_loop bytes room s.pos []).0,
      rw (some_room, held, stops) refl,
      ground arith,
      omega arith,
    )

take-over : (xs ys : List ℕ) (m : ℕ) → take (length xs + m) (xs ++ ys) ≡ xs ++ take m ys
take-over [] ys m = let same : 0 + m ≡ m = omega arith in rw same refl
take-over (x ∷ xs) ys m =
    let moved : suc (length xs) + m ≡ suc (length xs + m) = omega arith in
    rw moved (ap (λ (t : List ℕ). x ∷ t) (take-over xs ys m))

-- What `readstr` sees of a block that was written at its position.
seen :
    (buf bs : List ℕ) (pos size : ℕ)
    → pos + length bs ≤ size
    → size ≤ length buf
    → (rest : List ℕ) × (drop pos (take size (patch buf pos bs)) ≡ bs ++ rest)
seen buf bs pos size within block =
    let front : length (take pos buf) ≡ pos = omega (arith, length-take pos buf) in
    let back = drop (pos + length bs) buf in
    let m = size - (pos + length bs) in
    let cut : size ≡ length (take pos buf) + (length bs + m) = omega arith in
    let rest = take m back in
    (
      rest,
      ap (λ (k : ℕ). drop pos (take k (patch buf pos bs))) cut
          ∙ ap (drop pos) (take-over (take pos buf) (bs ++ back) (length bs + m))
          ∙ drop-split pos (take pos buf) (take (length bs + m) (bs ++ back)) front
          ∙ take-over bs back m,
    )

-- A string that is not empty and has no zero byte, with room in the stream for it, for a zero and for
-- one byte more, is written without a fault, with a zero behind it. All other bytes stay, and `readstr`
-- with room for the string and its zero reads it back from the same position.
pub readstr-writestr :
    (str : List ℕ) (room : ℕ) (s : Stream)
    → 0 < length str
    → All (λ b. b ≢ 0) str
    → length str < room
    → s.pos + length str + 1 < s.size
    → s.size ≤ length s.buf
    → s.size < 2 ^ 64
    → (s' : Stream) × (writestr str s ≡ ok s')
      × IsWritten (str ++ 0 ∷ []) s s'
      × (readstr room (rewound s s') ≡ ok (str, s'))
unfolding writestr readstr
readstr-writestr str room s some clean fits within block word =
    let bs = str ++ 0 ∷ [] in
    let n : length bs ≡ length str + 1 = omega (arith, length-append str (0 ∷ [])) in
    let full : (length str == 0) ≡ false = ground arith in
    let sum : (s.pos + length str + 1) % 2 ^ 64 ≡ s.pos + length str + 1 = omega arith in
    let fine : leb s.size (s.pos + length str + 1) ≡ false = ground arith in
    let inside : leb (s.pos + length str + 1) (length s.buf) ≡ true = ground arith in
    let some_room : (room == 0) ≡ false = ground arith in
    let change = patch-IsPatched s.buf s.pos bs (omega arith) in
    let held : leb s.size (length (patch s.buf s.pos bs)) ≡ true =
      ground (arith, change.same_length) in
    let (rest, sees) = seen s.buf bs s.pos s.size (omega arith) block in
    (
      record s { buf = patch s.buf s.pos bs; pos = s.pos + length str + 1 },
      rw (full, sum, fine, inside) refl,
      record { changed = change; moved = omega arith; kept = refl },
      rw
          (
            some_room,
            held,
            sees,
            append_assoc str (0 ∷ []) rest,
            readstr_loop-zero str rest room s.pos [] clean (omega arith),
          )
          refl,
    )
