-- ===== src/Api/Json/Quotes.antt =====
-- What the encoder of encoding/json writes for one character, read back.
use gateway_login.Base.{
  ℕ, zero, suc, ◌+◌, ◌*◌, ◌/◌, ◌%◌, ◌<◌, ◌≡◌, ◌≢◌, refl, sym, ap, ◌∙◌, true, false, ◌||◌, none,
  some, [], ◌∷◌, ◌++◌, Text, codes, if◌then◌else◌, ltb, ◌==◌, arith, inl, inr, Bool-cases,
  append_assoc,
}
use gateway_login.Api.Json.{hex_digit, escape_byte, is_two, is_three, is_four}
use gateway_login.Api.Json.Reader.{
  Mode, plain, escape, hex, goes, hex_value, utf8, move, unquote, Read, prepend,
}

-- The bytes of U+FFFD.
abbrev pub replacement : Text
replacement = 239 ∷ 191 ∷ 189 ∷ []

abbrev pub kept_four : ℕ → Text → Text × ℕ
kept_four b (c ∷ d ∷ e ∷ s) = if is_four b c d e then (b ∷ [], 3) else (replacement, 0)
kept_four b _ = (replacement, 0)

abbrev pub kept_three : ℕ → Text → Text × ℕ
kept_three b (c ∷ d ∷ s) = if is_three b c d then (b ∷ [], 2) else kept_four b (c ∷ d ∷ s)
kept_three b _ = (replacement, 0)

abbrev pub kept_two : ℕ → Text → Text × ℕ
kept_two b (c ∷ s) = if is_two b c then (b ∷ [], 1) else kept_three b (c ∷ s)
kept_two b [] = (replacement, 0)

-- The byte, with how many behind it belong to its character; or U+FFFD.
abbrev pub kept : ℕ → Text → Text × ℕ
kept b s = if ltb b 128 then (b ∷ [], 0) else kept_two b s

-- The text with U+FFFD for each byte that is in no character.
unfoldable pub cleaned : ℕ → Text → Text
cleaned n [] = []
cleaned (suc n) (b ∷ s) = b ∷ cleaned n s
cleaned zero (b ∷ s) = (kept b s).0 ++ cleaned (kept b s).1 s

unquote-goes :
    (m m' : Mode) (c : ℕ) (out x : Text)
    → move m c ≡ goes out m'
    → unquote m (c ∷ x) ≡ prepend out (unquote m' x)
unfolding unquote
unquote-goes m m' c out x h = rw (h, unquote)

pub unquote-plain :
    (c : ℕ) (x : Text)
    → ltb c 32 ≡ false
    → c ≢ b'"'
    → c ≢ b'\\'
    → unquote plain (c ∷ x) ≡ prepend (c ∷ []) (unquote plain x)
unquote-plain c x h q s =
    unquote-goes plain plain c (c ∷ []) x (unfold move in ground (arith, h, q, s))

-- A byte that is not ASCII.
pub unquote_high :
    (c : ℕ) (x : Text) → 127 < c → unquote plain (c ∷ x) ≡ prepend (c ∷ []) (unquote plain x)
unquote_high c x h = unquote-goes plain plain c (c ∷ []) x (unfold move in ground (arith, h))

pub prepend-prepend : (a b : Text) (r : Read Text) → prepend a (prepend b r) ≡ prepend (a ++ b) r
prepend-prepend a b none = refl
prepend-prepend a b (some (s, rest)) = ap (λ t. some (t, rest)) (sym (append_assoc a b s))

hex_value-hex_digit : (n : ℕ) → n < 16 → hex_value (hex_digit n) ≡ some n
hex_value-hex_digit n h = ground arith

-- Two digits behind `\u00` or `\u20`.
unquote-hex :
    (a b n : ℕ) (x : Text)
    → a < 16
    → b < 16
    → unquote (hex 1 n) (hex_digit a ∷ hex_digit b ∷ x)
      ≡ prepend (utf8 ((n * 16 + a) * 16 + b)) (unquote plain x)
unquote-hex a b n x ha hb =
    unquote-goes (hex 1 n) (hex 0 (n * 16 + a)) (hex_digit a) [] _
      (unfold move in rw (hex_value-hex_digit a ha))
    ∙ ap (prepend []) (
        unquote-goes (hex 0 (n * 16 + a)) plain (hex_digit b) (utf8 ((n * 16 + a) * 16 + b)) x
          (unfold move in rw (hex_value-hex_digit b hb)))
    ∙ prepend-prepend [] _ (unquote plain x)

unquote_code :
    (a b : ℕ) (x : Text)
    → a < 16
    → b < 16
    → unquote plain (codes "\\u00" ++ hex_digit a ∷ hex_digit b ∷ x)
      ≡ prepend (utf8 (a * 16 + b)) (unquote plain x)
unfolding unquote move
unquote_code a b x ha hb =
    let read = unquote-hex a b 0 x ha hb in ground (arith, read, prepend-prepend [] [])

short_escape :
    (b c : ℕ) (x : Text)
    → move escape c ≡ goes (b ∷ []) plain
    → unquote plain (b'\\' ∷ c ∷ x) ≡ prepend (b ∷ []) (unquote plain x)
short_escape b c x h =
    unquote-goes plain escape b'\\' [] (c ∷ x) (unfold move in refl)
    ∙ ap (prepend []) (unquote-goes escape plain c (b ∷ []) x h)
    ∙ prepend-prepend [] (b ∷ []) (unquote plain x)

-- The code of a byte is that byte.
utf8_byte : (b : ℕ) → b < 128 → utf8 (b / 16 * 16 + b % 16) ≡ b ∷ []
utf8_byte b h = let same : b / 16 * 16 + b % 16 ≡ b = omega arith in rw same (ground arith)

unquote_byte_code :
    (b : ℕ) (x : Text)
    → b < 128
    → unquote plain (codes "\\u00" ++ hex_digit (b / 16) ∷ hex_digit (b % 16) ∷ x)
      ≡ prepend (b ∷ []) (unquote plain x)
unquote_byte_code b x h =
    unquote_code (b / 16) (b % 16) x (omega arith) (omega arith)
    ∙ ap (λ t. prepend t (unquote plain x)) (utf8_byte b h)

-- What is written for an ASCII byte is read as that byte.
pub unquote-escape_byte :
    (b : ℕ) (x : Text)
    → b < 128
    → unquote plain (escape_byte b ++ x) ≡ prepend (b ∷ []) (unquote plain x)
unfolding escape_byte move
unquote-escape_byte b x h = ground (
  arith,
  short_escape b b x,
  short_escape 8 b'b' x,
  short_escape 12 b'f' x,
  short_escape 10 b'n' x,
  short_escape 13 b'r' x,
  short_escape 9 b't' x,
  unquote_byte_code b x,
  unquote-plain b x,
)

-- U+2028 and U+2029
pub unquote_separator :
    (d : ℕ) (x : Text)
    → (d == 168 || d == 169) ≡ true
    → unquote plain (codes "\\u202" ++ hex_digit (d % 16) ∷ x)
      ≡ prepend (226 ∷ 128 ∷ d ∷ []) (unquote plain x)
unfolding unquote move
unquote_separator d x h = elim (Bool-cases (d == 168)) [
  | inl first ↦
      let e : d ≡ 168 = ground (arith, first) in
      rw e (ground (arith, prepend-prepend [] (226 ∷ 128 ∷ 168 ∷ []) (unquote plain x)))
  | inr second ↦
      let e : d ≡ 169 = ground (arith, h, second) in
      rw e (ground (arith, prepend-prepend [] (226 ∷ 128 ∷ 169 ∷ []) (unquote plain x)))
]

pub unquote-replacement :
    (x : Text) → unquote plain (codes "\\ufffd" ++ x) ≡ prepend replacement (unquote plain x)
unfolding unquote move
unquote-replacement x = ground (arith, prepend-prepend [] replacement (unquote plain x))

pub unquote_two :
    (b c : ℕ) (x : Text)
    → 127 < b
    → 127 < c
    → unquote plain (b ∷ c ∷ x) ≡ prepend (b ∷ c ∷ []) (unquote plain x)
unquote_two b c x hb hc =
    unquote_high b (c ∷ x) hb
    ∙ ap (prepend (b ∷ [])) (unquote_high c x hc)
    ∙ prepend-prepend (b ∷ []) (c ∷ []) (unquote plain x)

pub unquote_three :
    (b c d : ℕ) (x : Text)
    → 127 < b
    → 127 < c
    → 127 < d
    → unquote plain (b ∷ c ∷ d ∷ x) ≡ prepend (b ∷ c ∷ d ∷ []) (unquote plain x)
unquote_three b c d x hb hc hd =
    unquote_two b c (d ∷ x) hb hc
    ∙ ap (prepend (b ∷ c ∷ [])) (unquote_high d x hd)
    ∙ prepend-prepend (b ∷ c ∷ []) (d ∷ []) (unquote plain x)

pub unquote_four :
    (b c d e : ℕ) (x : Text)
    → 127 < b
    → 127 < c
    → 127 < d
    → 127 < e
    → unquote plain (b ∷ c ∷ d ∷ e ∷ x) ≡ prepend (b ∷ c ∷ d ∷ e ∷ []) (unquote plain x)
unquote_four b c d e x hb hc hd he =
    unquote_three b c d (e ∷ x) hb hc hd
    ∙ ap (prepend (b ∷ c ∷ d ∷ [])) (unquote_high e x he)
    ∙ prepend-prepend (b ∷ c ∷ d ∷ []) (e ∷ []) (unquote plain x)
