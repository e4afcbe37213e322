-- ===== src/Strings/Utf8.antt =====
-- ec_string.h: what is_utf8 says of texts put together, cut and made by Unicode2Utf8.
use eclib.Common.{
  ℕ, zero, suc, ◌+◌, ◌-◌, ◌/◌, ◌%◌, ◌≤◌, ◌<◌, ◌≡◌, refl, ap, ◌∙◌, bit_or, bit_and, Bool, true,
  false, ◌&&◌, List, [], ◌∷◌, ◌++◌, Option, none, some, ltb, ◌==◌, ◌>>=◌, ◌^◌, arith, Bool-cases,
  inl, inr,
}
use eclib.Common.Bits.{bit_and_63, bit_and_31, bit_and_15, bit_and_seven}
use eclib.Strings.{first_byte, next_byte, utf8_loop, none_to_come, is_utf8, unicode2utf8}

-- A test of all numbers below a bound.
abbrev pub all_below : ℕ → (ℕ → Bool) → Bool
all_below zero test = true
all_below (suc n) test = test n && all_below n test

pub both : (a b : Bool) → (a && b) ≡ true → (a ≡ true) × (b ≡ true)
both true b h = (refl, h)
both false b h = absurd cc

pub all_below_lem : (n x : ℕ) (test : ℕ → Bool) → all_below n test ≡ true → x < n → test x ≡ true
all_below_lem zero x test h less = absurd omega arith
all_below_lem (suc n) x test h less =
    let (last, before) = both (test n) (all_below n test) h in
    elim (Bool-cases (x == n)) [
      | inl same ↦ let eq : x ≡ n = ground arith in rw eq last
      | inr other ↦ all_below_lem n x test before (ground arith)
    ]

onward-append :
    (o : Option ℕ) (s t : List ℕ)
    → ((k : ℕ) → utf8_loop k (s ++ t) ≡ (utf8_loop k s >>= (λ k. utf8_loop k t)))
    → (o >>= (λ k. utf8_loop k (s ++ t))) ≡ ((o >>= (λ k. utf8_loop k s)) >>= (λ k. utf8_loop k t))
onward-append none s t onward = refl
onward-append (some k) s t onward = onward k

pub utf8_loop-append :
    (s t : List ℕ) (nb : ℕ) → utf8_loop nb (s ++ t) ≡ (utf8_loop nb s >>= (λ k. utf8_loop k t))
unfolding utf8_loop
utf8_loop-append [] t nb = refl
utf8_loop-append (c ∷ s) t nb = onward-append (next_byte nb c) s t (λ k. utf8_loop-append s t k)

-- A text is read as UTF-8 when no byte is left to come.
to_come : (o : Option ℕ) → none_to_come o ≡ true → o ≡ some 0
to_come none h = absurd cc
to_come (some k) h = let eq : k ≡ 0 = ground arith in ap some eq

pub whole : (s : List ℕ) → is_utf8 s ≡ true → utf8_loop 0 s ≡ some 0
unfolding is_utf8
whole s h = to_come (utf8_loop 0 s) h

-- A text in UTF-8 does not change what is_utf8 says of the text behind it.
pub is_utf8-append : (s t : List ℕ) → is_utf8 s ≡ true → is_utf8 (s ++ t) ≡ is_utf8 t
unfolding is_utf8
is_utf8-append s t h = rw (utf8_loop-append s t 0, whole s h) refl

continues : ℕ → Bool
continues x = bit_and (bit_or x 0x80) 0xC0 == 0x80

follower_lem : (nb x : ℕ) → next_byte (suc nb) (bit_or (bit_and x 0x3F) 0x80) ≡ some nb
unfolding next_byte continues
follower_lem nb x =
    let test : continues (x % 64) ≡ true = all_below_lem 64 (x % 64) continues refl (omega arith) in
    rw (bit_and_63 x, test) refl

abbrev is_count : Option ℕ → ℕ → Bool
is_count none n = false
is_count (some k) n = k == n

counts : (o : Option ℕ) (n : ℕ) → is_count o n ≡ true → o ≡ some n
counts none n h = absurd cc
counts (some k) n h = let eq : k ≡ n = ground arith in ap some eq

one_byte : (u : ℕ) → u < 128 → first_byte u ≡ some 0
unfolding first_byte
one_byte u less =
    counts (first_byte u) 0 (all_below_lem 128 u (λ x. is_count (first_byte x) 0) refl less)

two_bytes :
    (u : ℕ) → 0x80 ≤ u → u < 0x800 → first_byte (bit_or (bit_and (u / 2 ^ 6) 0x1F) 0xC0) ≡ some 1
unfolding first_byte
two_bytes u more less =
    let bits : bit_and (u / 2 ^ 6) 0x1F ≡ 2 + (u / 64 - 2) = bit_and_31 (u / 2 ^ 6) ∙ omega arith in
    rw bits (
      counts _ 1 (
        all_below_lem 30 (u / 64 - 2) (λ x. is_count (first_byte (bit_or (2 + x) 0xC0)) 1) refl
          (omega arith)))

three_bytes : (u : ℕ) → first_byte (bit_or (bit_and (u / 2 ^ 12) 0x0F) 0xE0) ≡ some 2
unfolding first_byte
three_bytes u = rw (bit_and_15 (u / 2 ^ 12)) (
    counts _ 2 (
      all_below_lem 16 (u / 2 ^ 12 % 16) (λ x. is_count (first_byte (bit_or x 0xE0)) 2) refl
        (omega arith)))

four_bytes : (u : ℕ) → u < 0x110000 → first_byte (bit_or (bit_and (u / 2 ^ 18) 0x07) 0xF0) ≡ some 3
unfolding first_byte
four_bytes u less = rw (bit_and_seven (u / 2 ^ 18)) (
    counts _ 3 (
      all_below_lem 5 (u / 2 ^ 18 % 8) (λ x. is_count (first_byte (bit_or x 0xF0)) 3) refl
        (omega arith)))

-- Unicode2Utf8 makes UTF-8 of every code point.
pub unicode2utf8_lem : (u : ℕ) → u < 0x110000 → is_utf8 (unicode2utf8 u) ≡ true
unfolding is_utf8 utf8_loop next_byte unicode2utf8
unicode2utf8_lem u less = elim (Bool-cases (ltb u 0x80)) [
  | inl one ↦ rw (one, one_byte u (ground arith)) refl
  | inr one ↦ elim (Bool-cases (ltb u 0x800)) [
    | inl two ↦ rw (one, two, two_bytes u (ground arith) (ground arith), follower_lem 0 u) refl
    | inr two ↦ elim (Bool-cases (ltb u 0x10000)) [
      | inl three ↦
          rw (one, two, three, three_bytes u, follower_lem 1 (u / 2 ^ 6), follower_lem 0 u) refl
      | inr three ↦
          let four : ltb u 0x200000 ≡ true = ground arith in
          rw
            (
              one,
              two,
              three,
              four,
              four_bytes u less,
              follower_lem 2 (u / 2 ^ 12),
              follower_lem 1 (u / 2 ^ 6),
              follower_lem 0 u,
            )
            refl
    ]
  ]
]
