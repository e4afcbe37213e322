-- ===== src/Xor/Words.antt =====
-- ec_string.h, xor_le: the words are masked as their bytes are.
use eclib.Common.{
  ℕ, zero, suc, ◌+◌, ◌*◌, ◌/◌, ◌%◌, ◌^◌, ◌<◌, ◌≡◌, ◌⊎◌, refl, sym, ap, ◌∙◌, bit_or, bit_xor, List,
  [], ◌∷◌, ◌++◌, take, drop, ◌==◌, All, arith, inl, inr, Bool-cases,
}
use eclib.Common.Bits.{bit_or-disjoint}
use eclib.Xor.{mask_byte, xor_bytes, xor_word, xor_words, xor_le}
use eclib.Xor.Digits.{bit_and_255, xor_word-bytes}

abbrev IsByte : ℕ → Type 0
IsByte b = b < 256

-- The mask of the byte `j` of a word that starts at the index `i`.
mask_byte-lt : (umask i : ℕ) → mask_byte umask i < 256
unfolding mask_byte
mask_byte-lt umask i = omega (arith, bit_and_255 (umask / 2 ^ (i % 4 * 8)))

mask_byte-four : (umask i : ℕ) → mask_byte umask (i + 4) ≡ mask_byte umask i
unfolding mask_byte
mask_byte-four umask i = let same : (i + 4) % 4 ≡ i % 4 = omega arith in rw same refl

-- The four masks from the index `i` on, as a word.
abbrev mask_word : ℕ → ℕ → ℕ
mask_word umask i =
    mask_byte umask i
    + 256
      * (mask_byte umask (i + 1)
          + 256 * (mask_byte umask (i + 1 + 1) + 256 * mask_byte umask (i + 1 + 1 + 1)))

mask_word-four : (umask i : ℕ) → mask_word umask (i + 4) ≡ mask_word umask i
mask_word-four umask i =
    let one : i + 4 + 1 ≡ i + 1 + 4 = omega arith in
    let two : i + 4 + 1 + 1 ≡ i + 1 + 1 + 4 = omega arith in
    let three : i + 4 + 1 + 1 + 1 ≡ i + 1 + 1 + 1 + 4 = omega arith in
    rw
      (
        three,
        two,
        one,
        mask_byte-four umask i,
        mask_byte-four umask (i + 1),
        mask_byte-four umask (i + 1 + 1),
        mask_byte-four umask (i + 1 + 1 + 1),
      )
      refl

xor_words-bytes :
    (umask um i : ℕ) (bs : List ℕ)
    → um ≡ mask_word umask i
    → All IsByte bs
    → xor_words umask um i bs ≡ xor_bytes umask i bs
unfolding xor_words xor_bytes
xor_words-bytes umask um i [] e v = refl
xor_words-bytes umask um i (a ∷ []) e v = refl
xor_words-bytes umask um i (a ∷ b ∷ []) e v = refl
xor_words-bytes umask um i (a ∷ b ∷ c ∷ []) e v = refl
xor_words-bytes umask um i (a ∷ b ∷ c ∷ d ∷ bs) e v =
    let next : i + 1 + 1 + 1 + 1 ≡ i + 4 = omega arith in
    let rest = xor_words-bytes umask um (i + 4) bs (e ∙ sym (mask_word-four umask i)) v.1.1.1.1 in
    let word =
      xor_word-bytes a b c d (mask_byte umask i) (mask_byte umask (i + 1))
        (mask_byte umask (i + 1 + 1)) (mask_byte umask (i + 1 + 1 + 1)) v.0 v.1.0 v.1.1.0 v.1.1.1.0
        (mask_byte-lt umask i) (mask_byte-lt umask (i + 1)) (mask_byte-lt umask (i + 1 + 1))
        (mask_byte-lt umask (i + 1 + 1 + 1)) in
    rw next (
      ap (λ (w : ℕ). xor_word w a b c d ++ xor_words umask um (i + 4) bs) e
      ∙ ap (λ (l : List ℕ). l ++ xor_words umask um (i + 4) bs) word
      ∙ ap
          (λ (l : List ℕ).
            bit_xor a (mask_byte umask i)
            ∷ bit_xor b (mask_byte umask (i + 1))
            ∷ bit_xor c (mask_byte umask (i + 1 + 1))
            ∷ bit_xor d (mask_byte umask (i + 1 + 1 + 1))
            ∷ l)
          rest)

xor_bytes-split :
    (umask i n : ℕ) (bs : List ℕ)
    → xor_bytes umask i (take n bs) ++ xor_bytes umask (i + n) (drop n bs) ≡ xor_bytes umask i bs
unfolding xor_bytes
xor_bytes-split umask i zero bs = let same : i + 0 ≡ i = omega arith in rw same refl
xor_bytes-split umask i (suc n) [] = refl
xor_bytes-split umask i (suc n) (b ∷ bs) =
    let same : i + suc n ≡ i + 1 + n = omega arith in
    rw same
      (ap (λ (l : List ℕ). bit_xor b (mask_byte umask i) ∷ l) (xor_bytes-split umask (i + 1) n bs))

-- The mask, turned by the bytes in front of the first whole word.
turned-0 : (umask : ℕ) → umask < 2 ^ 32 → umask ≡ mask_word umask 0
unfolding mask_byte
turned-0 umask h = omega (
  arith,
  bit_and_255 (umask / 1),
  bit_and_255 (umask / 256),
  bit_and_255 (umask / 65536),
  bit_and_255 (umask / 16777216),
)

turned-1 :
    (umask : ℕ)
    → umask < 2 ^ 32
    → bit_or (umask / 2 ^ 8) (umask * 2 ^ 24 % 2 ^ 32) ≡ mask_word umask 1
unfolding mask_byte
turned-1 umask h =
    let low : umask * 2 ^ 24 % 2 ^ 32 ≡ umask % 256 * 2 ^ 24 = omega arith in
    rw low (
      omega (
        arith,
        bit_or-disjoint 24 (umask / 2 ^ 8) (umask % 256) (omega arith),
        bit_and_255 (umask / 1),
        bit_and_255 (umask / 256),
        bit_and_255 (umask / 65536),
        bit_and_255 (umask / 16777216),
      ))

turned-2 :
    (umask : ℕ)
    → umask < 2 ^ 32
    → bit_or (umask / 2 ^ 16) (umask * 2 ^ 16 % 2 ^ 32) ≡ mask_word umask 2
unfolding mask_byte
turned-2 umask h =
    let low : umask * 2 ^ 16 % 2 ^ 32 ≡ umask % 65536 * 2 ^ 16 = omega arith in
    rw low (
      omega (
        arith,
        bit_or-disjoint 16 (umask / 2 ^ 16) (umask % 65536) (omega arith),
        bit_and_255 (umask / 1),
        bit_and_255 (umask / 256),
        bit_and_255 (umask / 65536),
        bit_and_255 (umask / 16777216),
      ))

turned-3 :
    (umask : ℕ)
    → umask < 2 ^ 32
    → bit_or (umask / 2 ^ 24) (umask * 2 ^ 8 % 2 ^ 32) ≡ mask_word umask 3
unfolding mask_byte
turned-3 umask h =
    let low : umask * 2 ^ 8 % 2 ^ 32 ≡ umask % 16777216 * 2 ^ 8 = omega arith in
    rw low (
      omega (
        arith,
        bit_or-disjoint 8 (umask / 2 ^ 24) (umask % 16777216) (omega arith),
        bit_and_255 (umask / 1),
        bit_and_255 (umask / 256),
        bit_and_255 (umask / 65536),
        bit_and_255 (umask / 16777216),
      ))

All-drop : (n : ℕ) (bs : List ℕ) → All IsByte bs → All IsByte (drop n bs)
All-drop zero bs v = v
All-drop (suc n) [] v = v
All-drop (suc n) (b ∷ bs) v = All-drop n bs v.1

behind_front :
    (umask um nl : ℕ) (bs : List ℕ)
    → um ≡ mask_word umask nl
    → All IsByte bs
    → xor_bytes umask 0 (take nl bs) ++ xor_words umask um nl (drop nl bs) ≡ xor_bytes umask 0 bs
behind_front umask um nl bs e v =
    let at_front : 0 + nl ≡ nl = omega arith in
    ap (λ (l : List ℕ). xor_bytes umask 0 (take nl bs) ++ l)
      (xor_words-bytes umask um nl (drop nl bs) e (All-drop nl bs v))
    ∙ rw at_front at (xor_bytes-split umask 0 nl bs)

remainder : (n : ℕ) → (n % 4 ≡ 0) ⊎ ((n % 4 ≡ 1) ⊎ ((n % 4 ≡ 2) ⊎ (n % 4 ≡ 3)))
remainder n = elim (Bool-cases (n % 4 == 0)) [
  | inl a ↦ inl (ground arith)
  | inr a ↦ elim (Bool-cases (n % 4 == 1)) [
    | inl b ↦ inr (inl (ground arith))
    | inr b ↦ elim (Bool-cases (n % 4 == 2)) [
      | inl c ↦ inr (inr (inl (ground arith)))
      | inr c ↦ inr (inr (inr (ground arith)))
    ]
  ]
]

-- On bytes and a mask of 32 bits xor_le is the mask byte by byte, at every address and for every size.
pub xor_le_lem :
    (at umask : ℕ) (bs : List ℕ)
    → umask < 2 ^ 32
    → All IsByte bs
    → xor_le at umask bs ≡ xor_bytes umask 0 bs
unfolding xor_le
xor_le_lem at umask bs word v = elim (remainder at) [
  | inl e ↦ rw e (behind_front umask umask 0 bs (turned-0 umask word) v)
  | inr (inl e) ↦ rw e (
      behind_front umask (bit_or (umask / 2 ^ 24) (umask * 2 ^ 8 % 2 ^ 32)) 3 bs
        (turned-3 umask word) v)
  | inr (inr (inl e)) ↦ rw e (
      behind_front umask (bit_or (umask / 2 ^ 16) (umask * 2 ^ 16 % 2 ^ 32)) 2 bs
        (turned-2 umask word) v)
  | inr (inr (inr e)) ↦ rw e (
      behind_front umask (bit_or (umask / 2 ^ 8) (umask * 2 ^ 24 % 2 ^ 32)) 1 bs
        (turned-1 umask word) v)
]
