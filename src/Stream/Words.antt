-- ===== src/Stream/Words.antt =====
-- ec_stream.h, `stream`: words in both byte orders, and blocks.
use eclib.Common.{
  ℕ, zero, suc, ◌+◌, ◌/◌, ◌%◌, ◌^◌, ◌≤◌, ◌<◌, ◌≡◌, refl, sym, ap, ◌∙◌, true, false, List, [], ◌∷◌,
  length, take, drop, leb, ◌==◌, length-append, arith,
}
use mathlib.Core.List.{reverse, reverse-reverse, reverse-cons}
use native.Mathlib.Nat.{pow-suc}
use eclib.Stream.{
  Stream, ok, thrown, beyond, patch, read, write, get_le, put_le, get_be, put_be, word_bytes,
  word_value,
}
use eclib.Stream.Patch.{IsPatched, patch-IsPatched}

length-word_bytes : (n v : ℕ) → length (word_bytes n v) ≡ n
unfolding word_bytes
length-word_bytes zero v = refl
length-word_bytes (suc n) v = ap suc (length-word_bytes n (v / 256))

word_value-word_bytes : (n v : ℕ) → v < 256 ^ n → word_value (word_bytes n v) ≡ v
unfolding word_bytes word_value
word_value-word_bytes zero v h = omega arith
word_value-word_bytes (suc n) v h =
    omega (arith, word_value-word_bytes n (v / 256) (omega (arith, pow-suc 256 n)))

length-reverse : (xs : List ℕ) → length (reverse xs) ≡ length xs
length-reverse [] = refl
length-reverse (x ∷ xs) =
    ap length (reverse-cons x xs)
    ∙ omega (arith, length-append (reverse xs) (x ∷ []), length-reverse xs)

-- The position and `n` more bytes lie in the block.
pub record HasRoom (n : ℕ) (s : Stream) : Type 0 where
  pub within : s.pos + n ≤ s.size
  pub block : s.size ≤ length s.buf
  pub word : s.size < 2 ^ 64

-- After a write of the bytes `bs`: they stand at the old position, all other bytes are as they were,
-- and the position is behind them.
pub record IsWritten (bs : List ℕ) (s s' : Stream) : Type 0 where
  pub changed : IsPatched s.buf s.pos bs s'.buf
  pub moved : s'.pos ≡ s.pos + length bs
  pub kept : s'.size ≡ s.size

-- The stream after a write, with the position set back.
abbrev pub rewound : Stream → Stream → Stream
rewound s s' = record s' { pos = s.pos }

abbrev patched : List ℕ → ℕ → Stream → Stream
patched bs n s = record s { buf = patch s.buf s.pos bs; pos = s.pos + n }

module _ (n : ℕ) (s : Stream) (room : HasRoom n s) where
  no_throw : beyond n s ≡ false
  no_throw = let sum : (s.pos + n) % 2 ^ 64 ≡ s.pos + n = omega arith in rw sum (ground arith)

  inside_block : leb (s.pos + n) (length s.buf) ≡ true
  inside_block = ground arith

  get_le_lem :
      get_le n s ≡ ok (word_value (take n (drop s.pos s.buf)), record s { pos = s.pos + n })
  unfolding get_le
  get_le_lem = rw (no_throw, inside_block) refl

  get_be_lem :
      get_be n s
      ≡ ok (word_value (reverse (take n (drop s.pos s.buf))), record s { pos = s.pos + n })
  unfolding get_be
  get_be_lem = rw (no_throw, inside_block) refl

  read_lem : read n s ≡ ok (take n (drop s.pos s.buf), record s { pos = s.pos + n })
  unfolding read
  read_lem = rw (no_throw, inside_block) refl

  -- What every write of `n` bytes does.
  module _ (bs : List ℕ) (same : length bs ≡ n) where
    changed : IsPatched s.buf s.pos bs (patch s.buf s.pos bs)
    changed = patch-IsPatched s.buf s.pos bs (omega arith)

    patched-IsWritten : IsWritten bs s (patched bs n s)
    patched-IsWritten = record { changed = changed; moved = omega arith; kept = refl }

    rewound-HasRoom : HasRoom n (rewound s (patched bs n s))
    rewound-HasRoom = record {
      within = room.within;
      block = omega (arith, room.block, changed.same_length);
      word = room.word;
    }

    reread : take n (drop s.pos (patch s.buf s.pos bs)) ≡ bs
    reread = ap (λ (k : ℕ). take k (drop s.pos (patch s.buf s.pos bs))) (sym same) ∙ changed.inside

-- A word written in little endian order with room for its `n` bytes is written without a fault, changes
-- its own bytes alone, and is read back from the same position.
pub get-put_le :
    (n v : ℕ) (s : Stream)
    → HasRoom n s
    → v < 256 ^ n
    → (s' : Stream) × (put_le n v s ≡ ok s')
      × IsWritten (word_bytes n v) s s'
      × (get_le n (rewound s s') ≡ ok (v, s'))
unfolding put_le
get-put_le n v s room fits =
    let bs = word_bytes n v in
    let same = length-word_bytes n v in
    (
      patched bs n s,
      rw (no_throw n s room, inside_block n s room) refl,
      patched-IsWritten n s room bs same,
      get_le_lem n (rewound s (patched bs n s)) (rewound-HasRoom n s room bs same)
          ∙ rw (reread n s room bs same, word_value-word_bytes n v fits) refl,
    )

-- A word written in big endian order with room for its `n` bytes is written without a fault, its bytes
-- are those of the little endian order reversed, it changes them alone, and it is read back from the
-- same position.
pub get-put_be :
    (n v : ℕ) (s : Stream)
    → HasRoom n s
    → v < 256 ^ n
    → (s' : Stream) × (put_be n v s ≡ ok s')
      × IsWritten (reverse (word_bytes n v)) s s'
      × (get_be n (rewound s s') ≡ ok (v, s'))
unfolding put_be
get-put_be n v s room fits =
    let bs = reverse (word_bytes n v) in
    let same = length-reverse (word_bytes n v) ∙ length-word_bytes n v in
    (
      patched bs n s,
      rw (no_throw n s room, inside_block n s room) refl,
      patched-IsWritten n s room bs same,
      get_be_lem n (rewound s (patched bs n s)) (rewound-HasRoom n s room bs same)
          ∙ rw
              (
                reread n s room bs same,
                reverse-reverse (word_bytes n v),
                word_value-word_bytes n v fits,
              )
              refl,
    )

-- A block of bytes with room for it is written without a fault, changes its own bytes alone, and is read
-- back from the same position.
pub read-write :
    (bs : List ℕ) (s : Stream)
    → HasRoom (length bs) s
    → (s' : Stream) × (write bs s ≡ ok s')
      × IsWritten bs s s'
      × (read (length bs) (rewound s s') ≡ ok (bs, s'))
unfolding write
read-write [] s room =
    let still : s.pos + 0 ≡ s.pos = omega arith in
    (
      s,
      refl,
      record {
        changed = record { inside = refl; before = refl; behind = refl; same_length = refl };
        moved = omega arith;
        kept = refl;
      },
      read_lem 0 s room ∙ rw still refl,
    )
read-write (b ∷ bs) s room =
    let n = length (b ∷ bs) in
    let full : (n == 0) ≡ false = ground arith in
    (
      patched (b ∷ bs) n s,
      rw (full, no_throw n s room, inside_block n s room) refl,
      patched-IsWritten n s room (b ∷ bs) refl,
      read_lem n (rewound s (patched (b ∷ bs) n s)) (rewound-HasRoom n s room (b ∷ bs) refl)
          ∙ rw (reread n s room (b ∷ bs) refl) refl,
    )

-- A word read or written past the end, in either byte order, throws 1, and so does a block read past the
-- end, as long as the sum of the position and the size does not wrap.
pub past_end :
    (n v : ℕ) (s : Stream)
    → s.size < s.pos + n
    → s.pos + n < 2 ^ 64
    → (get_le n s ≡ thrown 1)
      × (get_be n s ≡ thrown 1)
      × (put_le n v s ≡ thrown 1)
      × (put_be n v s ≡ thrown 1)
      × (read n s ≡ thrown 1)
unfolding get_le get_be put_le put_be read
past_end n v s over small =
    let sum : (s.pos + n) % 2 ^ 64 ≡ s.pos + n = omega arith in
    let test : beyond n s ≡ true = rw sum (ground arith) in
    (rw test refl, rw test refl, rw test refl, rw test refl, rw test refl)
