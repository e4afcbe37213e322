-- ===== src/Strings/Escapes/Roundtrip.antt =====
-- ec_string.h: a text that was escaped for JSON is read back.
use eclib.Common.{
  ℕ, ◌≡◌, refl, ap, ◌∙◌, Bool, true, false, ◌||◌, List, [], ◌∷◌, ◌++◌, ◌==◌, arith, Bool-cases, inl,
  inr,
}
use eclib.Strings.Escapes.{
  out_json_esc, jstr_toesc, unescaped, unescape_loop, has_backslash, jstr_fromesc,
}

-- Outside an escape a byte is taken over.
plain_byte :
    (c : ℕ) (s : List ℕ) → (c == b'\\') ≡ false → unescape_loop 0 (c ∷ s) ≡ c ∷ unescape_loop 0 s
unfolding unescape_loop
plain_byte c [] h = rw h refl
plain_byte c (d ∷ s) h = rw h refl

neither : (a b : Bool) → (a || b) ≡ false → (a ≡ false) × (b ≡ false)
neither true b h = absurd cc
neither false b h = (refl, h)

no_backslash : (s : List ℕ) → has_backslash s ≡ false → unescape_loop 0 s ≡ s
unfolding has_backslash unescape_loop
no_backslash [] h = refl
no_backslash (c ∷ s) h =
    let (other, rest) = neither (c == b'\\') (has_backslash s) h in
    plain_byte c s other ∙ ap (λ (t : List ℕ). c ∷ t) (no_backslash s rest)

-- The test for a backslash is a shortcut: without it the loop gives the same.
pub jstr_fromesc_lem : (s : List ℕ) → jstr_fromesc s ≡ unescape_loop 0 s
unfolding jstr_fromesc
jstr_fromesc_lem s = elim (Bool-cases (has_backslash s)) [
  | inl e ↦ rw e refl
  | inr e ↦ rw (e, no_backslash s e) refl
]

-- A byte that is escaped is read back.
escaped_byte : (c : ℕ) (s : List ℕ) → unescape_loop 0 (out_json_esc c ++ s) ≡ c ∷ unescape_loop 0 s
unfolding out_json_esc unescape_loop unescaped
escaped_byte c s = elim (Bool-cases (c == 8)) [
  | inl e ↦ let same : c ≡ 8 = ground arith in rw same refl
  | inr e1 ↦ elim (Bool-cases (c == 9)) [
    | inl e ↦ let same : c ≡ 9 = ground arith in rw same refl
    | inr e2 ↦ elim (Bool-cases (c == b'\n')) [
      | inl e ↦ let same : c ≡ b'\n' = ground arith in rw same refl
      | inr e3 ↦ elim (Bool-cases (c == b'\r')) [
        | inl e ↦ let same : c ≡ b'\r' = ground arith in rw same refl
        | inr e4 ↦ elim (Bool-cases (c == 12)) [
          | inl e ↦ let same : c ≡ 12 = ground arith in rw same refl
          | inr e5 ↦ elim (Bool-cases (c == b'"')) [
            | inl e ↦ let same : c ≡ b'"' = ground arith in rw same refl
            | inr e6 ↦ elim (Bool-cases (c == b'/')) [
              | inl e ↦ let same : c ≡ b'/' = ground arith in rw same refl
              | inr e7 ↦ elim (Bool-cases (c == b'\\')) [
                | inl e ↦ let same : c ≡ b'\\' = ground arith in rw same refl
                | inr e8 ↦ rw (e1, e2, e3, e4, e5, e6, e7, e8) (plain_byte c s e8)
              ]
            ]
          ]
        ]
      ]
    ]
  ]
]

loop-toesc : (s : List ℕ) → unescape_loop 0 (jstr_toesc s) ≡ s
unfolding jstr_toesc unescape_loop
loop-toesc [] = refl
loop-toesc (c ∷ s) = escaped_byte c (jstr_toesc s) ∙ ap (λ (t : List ℕ). c ∷ t) (loop-toesc s)

-- Any text that jstr_toesc escapes is read back by jstr_fromesc.
pub fromesc-toesc : (s : List ℕ) → jstr_fromesc (jstr_toesc s) ≡ s
fromesc-toesc s = jstr_fromesc_lem (jstr_toesc s) ∙ loop-toesc s
