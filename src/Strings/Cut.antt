-- ===== src/Strings/Cut.antt =====
-- ec_string.h: utf8_sizesubstr cuts between two characters.
use eclib.Common.{
  ℕ, zero, suc, ◌-◌, ◌≤◌, ◌<◌, ◌≡◌, refl, sym, ap, ◌∙◌, bit_and, Bool, true, false, ◌&&◌, ◌||◌, not,
  List, [], ◌∷◌, ◌++◌, length, get_or, take, drop, All, Option, none, some, ltb, leb, ◌==◌, ◌>>=◌,
  arith, Bool-cases, inl, inr, take-append-drop, take-whole,
}
use eclib.Strings.{next_byte, utf8_loop, is_utf8, is_start, cut_loop, utf8_sizesubstr}
use eclib.Strings.Utf8.{whole, both, all_below_lem, utf8_loop-append}

drop-get_or :
    (s : List ℕ) (pos : ℕ) → pos < length s → drop pos s ≡ get_or s pos 0 ∷ drop (suc pos) s
drop-get_or [] pos less = absurd omega arith
drop-get_or (c ∷ s) zero less = refl
drop-get_or (c ∷ s) (suc pos) less = drop-get_or s pos (omega arith)

get_or_byte : (s : List ℕ) (pos : ℕ) → All (λ c. c < 256) s → get_or s pos 0 < 256
get_or_byte [] pos h = omega arith
get_or_byte (c ∷ s) zero h = h.0
get_or_byte (c ∷ s) (suc pos) h = get_or_byte s pos h.1

abbrev no_follower : ℕ → Bool
no_follower c = not (is_start c) || not (bit_and c 0xC0 == 0x80)

not_following : (a b : Bool) → (not a || not b) ≡ true → a ≡ true → b ≡ false
not_following true true h e = absurd cc
not_following true false h e = refl
not_following false b h e = absurd cc

start_lem : (c : ℕ) → c < 256 → is_start c ≡ true → (bit_and c 0xC0 == 0x80) ≡ false
start_lem c byte start =
    not_following (is_start c) _ (all_below_lem 256 c no_follower refl byte) start

-- In front of the first byte of a character no byte is left to come.
between :
    (o : Option ℕ) (c : ℕ) (t : List ℕ)
    → c < 256
    → is_start c ≡ true
    → (o >>= (λ k. utf8_loop k (c ∷ t))) ≡ some 0
    → o ≡ some 0
unfolding utf8_loop next_byte
between none c t byte start h = h
between (some zero) c t byte start h = refl
between (some (suc k)) c t byte start h =
    let next : next_byte (suc k) c ≡ none = rw (start_lem c byte start) refl in
    let wrong : ◌≡◌ {A = Option ℕ} none (some 0) =
      sym (ap (λ (o : Option ℕ). o >>= (λ k. utf8_loop k t)) next) ∙ h in
    absurd cc

take-utf8 :
    (s : List ℕ) (pos : ℕ)
    → All (λ c. c < 256) s
    → is_utf8 s ≡ true
    → pos < length s
    → is_start (get_or s pos 0) ≡ true
    → is_utf8 (take pos s) ≡ true
unfolding is_utf8
take-utf8 s pos bytes utf8 less start =
    let parts : s ≡ take pos s ++ get_or s pos 0 ∷ drop (suc pos) s =
      sym (take-append-drop pos s)
      ∙ ap (λ (t : List ℕ). take pos s ++ t) (drop-get_or s pos less) in
    let read =
      sym (utf8_loop-append (take pos s) (get_or s pos 0 ∷ drop (suc pos) s) 0)
      ∙ ap (utf8_loop 0) (sym parts)
      ∙ whole s utf8 in
    rw
      (between (utf8_loop 0 (take pos s)) (get_or s pos 0) (drop (suc pos) s)
        (get_or_byte s pos bytes) start read)
      refl

cut_loop_lem :
    (s : List ℕ) (sublen pos : ℕ)
    → All (λ c. c < 256) s
    → is_utf8 s ≡ true
    → pos < length s
    → (is_utf8 (take (cut_loop s sublen pos) s) ≡ true) × (cut_loop s sublen pos ≤ sublen)
unfolding cut_loop is_utf8 utf8_loop
cut_loop_lem s sublen zero bytes utf8 less = (refl, omega arith)
cut_loop_lem s sublen (suc pos) bytes utf8 less =
    elim (Bool-cases (is_start (get_or s (suc pos) 0) && leb (suc pos) sublen)) [
      | inl here ↦
          let (start, fits) = both (is_start (get_or s (suc pos) 0)) (leb (suc pos) sublen) here in
          rw here (take-utf8 s (suc pos) bytes utf8 less start, ground arith)
      | inr other ↦ rw other (cut_loop_lem s sublen pos bytes utf8 (omega arith))
    ]

first_some : (s : List ℕ) → (get_or s 0 0 == 0) ≡ false → 0 < length s
first_some [] h = absurd cc
first_some (c ∷ s) h = omega arith

-- utf8_sizesubstr gives a size that is not larger than the one wanted, and a text in UTF-8 that is cut
-- to the size is still in UTF-8.
pub utf8_sizesubstr_lem :
    (s : List ℕ) (sublen : ℕ)
    → All (λ c. c < 256) s
    → is_utf8 s ≡ true
    → (is_utf8 (take (utf8_sizesubstr s sublen) s) ≡ true) × (utf8_sizesubstr s sublen ≤ sublen)
unfolding utf8_sizesubstr is_utf8 utf8_loop
utf8_sizesubstr_lem s sublen bytes utf8 = elim (Bool-cases (ltb (length s) sublen)) [
  | inl small ↦ rw (small, take-whole s) (utf8, ground arith)
  | inr large ↦ elim (Bool-cases (get_or s 0 0 == 0)) [
    | inl zero_first ↦ rw (large, zero_first) (refl, omega arith)
    | inr some_first ↦
        rw (large, some_first)
          (cut_loop_lem s sublen (length s - 1) bytes utf8
            (let some_byte = first_some s some_first in omega arith))
  ]
]
