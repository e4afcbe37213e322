-- ===== src/Http/Fields/Words.antt =====
-- ec_string.h: what strnext makes of a word in front of a separator, or at the end of the text.
use eclib.Common.{
  ℕ, ◌+◌, ◌<◌, ◌≡◌, ◌≢◌, refl, sym, ap, ◌∙◌, true, false, List, [], ◌∷◌, ◌++◌, length, All, none,
  some, leb, ◌==◌, arith, length-append,
}
use mathlib.Core.List.{append_assoc, append-nil}
use eclib.Common.Texts.{codes}
use eclib.Http.{is_blank}
use eclib.Http.Fields.{
  keep_word, trim_tail, is_split, is_left_out, last_word, returned, next_out, return_or,
  strnext_loop, strnext,
}

pub comma-is_split : is_split (codes ";,") b',' ≡ true
unfolding is_split
comma-is_split = refl

pub space-is_split : is_split (codes ";,") b' ' ≡ false
unfolding is_split
space-is_split = refl

module _ (split : List ℕ) (outsize : ℕ) where
  -- A byte of a word.
  abbrev pub IsWordByte : ℕ → Type 0
  IsWordByte c = (is_split split c ≡ false) × (c ≢ b'\n') × (c ≢ b'\r') × (is_blank c ≡ false)

  trim_tail-word : (out : List ℕ) → All IsWordByte out → trim_tail out ≡ out
  unfolding trim_tail keep_word
  trim_tail-word [] h = refl
  trim_tail-word (c ∷ []) h = let (s, n, r, blank) = h.0 in rw blank refl
  trim_tail-word (c ∷ d ∷ out) h = ap (keep_word c) (trim_tail-word (d ∷ out) h.1)

  not_left_out : (out : List ℕ) (c : ℕ) → IsWordByte c → is_left_out out c ≡ false
  not_left_out [] c (s, n, r, blank) =
      let first : (c == b'\n') ≡ false = ground arith in
      let second : (c == b'\r') ≡ false = ground arith in rw (first, second, blank) refl
  not_left_out (d ∷ out) c (s, n, r, blank) =
      let first : (c == b'\n') ≡ false = ground arith in
      let second : (c == b'\r') ≡ false = ground arith in rw (first, second) refl

  word_byte :
      (c : ℕ) (s out : List ℕ)
      → IsWordByte c
      → length out + 1 < outsize
      → strnext_loop split outsize (c ∷ s) out ≡ strnext_loop split outsize s (out ++ c ∷ [])
  unfolding strnext_loop returned next_out return_or
  word_byte c s out h small =
      let test : leb outsize (length out + 1) ≡ false = ground arith in
      rw (h.0, not_left_out out c h, test) refl

  word_run :
      (w s out : List ℕ)
      → All IsWordByte w
      → length out + length w < outsize
      → strnext_loop split outsize (w ++ s) out ≡ strnext_loop split outsize s (out ++ w)
  word_run [] s out h small = ap (strnext_loop split outsize s) (sym (append-nil out))
  word_run (c ∷ w) s out h small =
      word_byte c (w ++ s) out h.0 (omega arith)
      ∙ word_run w s (out ++ c ∷ []) h.1 (omega (arith, length-append out (c ∷ [])))
      ∙ ap (strnext_loop split outsize s) (append_assoc out (c ∷ []) w)

  -- A word in front of a separator is cut off, with the separator.
  pub strnext-word :
      (w s : List ℕ) (c d : ℕ)
      → All IsWordByte (c ∷ w)
      → length (c ∷ w) < outsize
      → is_split split d ≡ true
      → strnext split outsize (c ∷ w ++ d ∷ s) ≡ (some (c ∷ w), s)
  unfolding strnext strnext_loop returned return_or
  strnext-word w s c d h small ends =
      word_run (c ∷ w) (d ∷ s) [] h (omega arith) ∙ rw (ends, trim_tail-word (c ∷ w) h) refl

  -- So is one at the end of the text.
  pub strnext-last :
      (w : List ℕ) (c : ℕ)
      → All IsWordByte (c ∷ w)
      → length (c ∷ w) < outsize
      → strnext split outsize (c ∷ w) ≡ (some (c ∷ w), [])
  unfolding strnext strnext_loop last_word
  strnext-last w c h small =
      let test : leb outsize (length (c ∷ w)) ≡ false = ground arith in
      ap (λ (l : List ℕ). strnext_loop split outsize l []) (sym (append-nil (c ∷ w)))
      ∙ word_run (c ∷ w) [] [] h (omega arith)
      ∙ rw (test, trim_tail-word (c ∷ w) h) refl

  -- A space in front of a word is passed over.
  pub strnext-space :
      (s : List ℕ)
      → is_split split b' ' ≡ false
      → strnext split outsize (b' ' ∷ s) ≡ strnext split outsize s
  unfolding strnext strnext_loop returned next_out return_or
  strnext-space s h = rw h refl

  pub strnext-nil : strnext split outsize [] ≡ (none, [])
  unfolding strnext strnext_loop last_word
  strnext-nil = refl
