-- ===== src/Api/Json/Rounds.antt =====
-- The texts of encoding/json, round by round of the encoder, read back.
use gateway_login.Base.{
  ℕ, zero, suc, ◌%◌, ◌≤◌, ◌≡◌, refl, sym, ap, ◌∙◌, true, false, ◌||◌, some, [], ◌∷◌, ◌++◌, Text,
  codes, ltb, ◌==◌, arith, length, inl, inr, Bool-cases, append_assoc,
}
use gateway_login.Api.Json.{
  hex_digit, escape_byte, escaped, piece_of, piece_three, piece_four, is_two, is_three, is_four,
  is_separator,
}
use gateway_login.Api.Json.Reader.{plain, move, unquote, prepend}
use gateway_login.Api.Json.Quotes.{
  replacement, kept, kept_three, kept_four, cleaned, unquote-escape_byte, unquote_separator,
  unquote-replacement, unquote_two, unquote_three, unquote_four,
}

-- One round of the encoder, and what the reader makes of it.
record Round (b : ℕ) (s : Text) : Type 0 where
  left : Text
  written : Text
  meant : Text
  shorter : length left ≤ length s
  writes : escaped 0 0 (b ∷ s) ≡ written ++ escaped 0 0 left
  keeps : cleaned 0 (b ∷ s) ≡ meant ++ cleaned 0 left
  reads : (x : Text) → unquote plain (written ++ x) ≡ prepend meant (unquote plain x)

-- A byte that begins no character.
Round-of_bad :
    (b : ℕ) (s : Text)
    → piece_of b s ≡ record { written = codes "\\ufffd"; copied = 0; dropped = 0 }
    → kept b s ≡ (replacement, 0)
    → Round b s
Round-of_bad b s h k = record {
  left = s;
  written = codes "\\ufffd";
  meant = replacement;
  shorter = omega arith;
  writes = unfold escaped in rw (h, escaped);
  keeps = unfold cleaned in rw (k, cleaned);
  reads = unquote-replacement;
}

module _ (b : ℕ) (high : ltb b 128 ≡ false) where
  Round-of_four : (s : Text) → piece_of b s ≡ piece_four b s → kept b s ≡ kept_four b s → Round b s
  Round-of_four (c ∷ d ∷ e ∷ s) p k = elim (Bool-cases (is_four b c d e)) [
    | inl four ↦ record {
      left = s;
      written = b ∷ c ∷ d ∷ e ∷ [];
      meant = b ∷ c ∷ d ∷ e ∷ [];
      shorter = omega arith;
      writes = unfold escaped in rw (p, four, escaped);
      keeps = unfold cleaned in rw (k, four, cleaned);
      reads =
          λ x. unquote_four b c d e x (ground arith) (ground arith) (ground arith) (ground arith);
    }
    | inr other ↦ Round-of_bad b _ (p ∙ rw other) (k ∙ rw other)
  ]
  Round-of_four [] p k = Round-of_bad b _ p k
  Round-of_four (c ∷ []) p k = Round-of_bad b _ p k
  Round-of_four (c ∷ d ∷ []) p k = Round-of_bad b _ p k

  Round-of_three :
      (s : Text) → piece_of b s ≡ piece_three b s → kept b s ≡ kept_three b s → Round b s
  Round-of_three (c ∷ d ∷ s) p k = elim (Bool-cases (is_separator b c d)) [
    | inl separator ↦
        let b_is : b ≡ 226 = ground (arith, separator) in
        let c_is : c ≡ 128 = ground (arith, separator) in
        let d_is : (d == 168 || d == 169) ≡ true = ground (arith, separator) in
        let three : is_three b c d ≡ true = ground (arith, separator) in
        record {
          left = s;
          written = codes "\\u202" ++ hex_digit (d % 16) ∷ [];
          meant = 226 ∷ 128 ∷ d ∷ [];
          shorter = omega arith;
          writes = unfold escaped in rw (p, separator, escaped);
          keeps = unfold cleaned in rw (k, three, cleaned, b_is, c_is);
          reads = λ x. unquote_separator d x d_is;
        }
    | inr plainly ↦ elim (Bool-cases (is_three b c d)) [
      | inl three ↦ record {
        left = s;
        written = b ∷ c ∷ d ∷ [];
        meant = b ∷ c ∷ d ∷ [];
        shorter = omega arith;
        writes = unfold escaped in rw (p, plainly, three, escaped);
        keeps = unfold cleaned in rw (k, three, cleaned);
        reads = λ x. unquote_three b c d x (ground arith) (ground arith) (ground arith);
      }
      | inr other ↦ Round-of_four (c ∷ d ∷ s) (p ∙ rw (plainly, other)) (k ∙ rw other)
    ]
  ]
  Round-of_three [] p k = Round-of_bad b _ p k
  Round-of_three (c ∷ []) p k = Round-of_bad b _ p k

  Round-of_two : (s : Text) → Round b s
  Round-of_two [] = Round-of_bad b [] (rw high) (rw high)
  Round-of_two (c ∷ s) = elim (Bool-cases (is_two b c)) [
    | inl two ↦ record {
      left = s;
      written = b ∷ c ∷ [];
      meant = b ∷ c ∷ [];
      shorter = omega arith;
      writes = unfold escaped in rw (high, two, escaped);
      keeps = unfold cleaned in rw (high, two, cleaned);
      reads = λ x. unquote_two b c x (ground arith) (ground arith);
    }
    | inr other ↦ Round-of_three (c ∷ s) (rw (high, other)) (rw (high, other))
  ]

every_Round : (b : ℕ) (s : Text) → Round b s
every_Round b s = elim (Bool-cases (ltb b 128)) [
  | inl ascii ↦ record {
    left = s;
    written = escape_byte b;
    meant = b ∷ [];
    shorter = omega arith;
    writes = unfold escaped in rw ascii;
    keeps = unfold cleaned in rw ascii;
    reads = λ x. unquote-escape_byte b x (ground arith);
  }
  | inr high ↦ Round-of_two b high s
]

unquote_all :
    (n : ℕ) (s rest : Text)
    → length s ≤ n
    → unquote plain (escaped 0 0 s ++ b'"' ∷ rest) ≡ some (cleaned 0 s, rest)
unquote_all n [] rest h = unfold unquote move escaped cleaned in refl
unquote_all zero (b ∷ s) rest h = absurd (omega arith)
unquote_all (suc n) (b ∷ s) rest h =
    let r = every_Round b s in
    ap (λ t. unquote plain (t ++ b'"' ∷ rest)) r.writes
    ∙ ap (unquote plain) (append_assoc r.written (escaped 0 0 r.left) (b'"' ∷ rest))
    ∙ r.reads (escaped 0 0 r.left ++ b'"' ∷ rest)
    ∙ ap (prepend r.meant) (unquote_all n r.left rest (omega (arith, r.shorter)))
    ∙ ap (λ t. some (t, rest)) (sym r.keeps)

-- A text that the encoder has written is read as that text, with U+FFFD for each byte that is in no
-- character.
pub unquote-escaped :
    (s rest : Text) → unquote plain (escaped 0 0 s ++ b'"' ∷ rest) ≡ some (cleaned 0 s, rest)
unquote-escaped s rest = unquote_all (length s) s rest (omega arith)
