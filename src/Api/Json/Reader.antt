-- ===== src/Api/Json/Reader.antt =====
-- A reader of JSON, by its grammar: what a client makes of a body. It reads the numbers, the escapes
-- and the compact form that internal/api/handlers.go writes, and refuses true, false, fractions and
-- white space.
use mathlib.Core.Option
use gateway_login.Base.{
  ℕ, zero, suc, ◌+◌, ◌-◌, ◌*◌, ◌/◌, ◌%◌, Bool, true, false, ◌&&◌, ◌||◌, Option, none, some, [], ◌∷◌,
  ◌++◌, Text, codes, if◌then◌else◌, ltb, leb, ◌==◌, ℤ, length, text_eq,
}
use gateway_login.Decimal.{atoi}
use gateway_login.Api.Json.{
  Json, null, number, string, array, object, Elements, no_elements, element, Members, no_members,
  member,
}

-- Between characters, behind a backslash, and with digits of an escape still to come.
pub data Mode : Type 0 where
  plain escape : Mode
  hex : ℕ → ℕ → Mode

pub data Move : Type 0 where
  closed refused : Move
  goes : Text → Mode → Move

abbrev pub hex_value : ℕ → Option ℕ
hex_value c =
    if leb b'0' c && leb c b'9'
    then some (c - b'0')
    else if leb b'a' c && leb c b'f'
    then some (c - b'a' + 10)
    else none

-- The bytes of a character below U+10000.
abbrev pub utf8 : ℕ → Text
utf8 n =
    if ltb n 128
    then n ∷ []
    else if ltb n 2048
    then (192 + n / 64) ∷ (128 + n % 64) ∷ []
    else (224 + n / 4096) ∷ (128 + n / 64 % 64) ∷ (128 + n % 64) ∷ []

abbrev pub with_digit : ℕ → ℕ → Option ℕ → Move
with_digit left n none = refused
with_digit zero n (some v) = goes (utf8 (n * 16 + v)) plain
with_digit (suc left) n (some v) = goes [] (hex left (n * 16 + v))

unfoldable pub move : Mode → ℕ → Move
move plain c =
    if c == b'"'
    then closed
    else if c == b'\\'
    then goes [] escape
    else if ltb c 32
    then refused
    else goes (c ∷ []) plain
move escape c =
    if c == b'"' || c == b'\\' || c == b'/'
    then goes (c ∷ []) plain
    else if c == b'b'
    then goes (8 ∷ []) plain
    else if c == b'f'
    then goes (12 ∷ []) plain
    else if c == b'n'
    then goes (10 ∷ []) plain
    else if c == b'r'
    then goes (13 ∷ []) plain
    else if c == b't'
    then goes (9 ∷ []) plain
    else if c == b'u'
    then goes [] (hex 3 0)
    else refused
move (hex left n) c = with_digit left n (hex_value c)

-- A result with what is left of the text.
abbrev pub Read : Type 0 → Type 0
Read A = Option (A × Text)

abbrev pub prepend : Text → Read Text → Read Text
prepend out none = none
prepend out (some (s, rest)) = some (out ++ s, rest)

-- The text behind the opening quote.
unfoldable pub unquote : Mode → Text → Read Text
unquote m [] = none
unquote m (c ∷ s) = elim (move m c) [
  | closed ↦ some ([], s)
  | refused ↦ none
  | goes out m' ↦ prepend out (unquote m' s)
]

abbrev pub is_number_byte : ℕ → Bool
is_number_byte c = c == b'-' || leb b'0' c && leb c b'9'

-- The bytes of a number at the start, and the rest.
unfoldable pub number_bytes : Text → Text × Text
number_bytes [] = ([], [])
number_bytes (c ∷ s) =
    let (t, rest) = number_bytes s in if is_number_byte c then (c ∷ t, rest) else ([], c ∷ s)

abbrev pub checked : ℤ × Bool → Text → Read Json
checked (n, true) rest = some (number n, rest)
checked (n, false) rest = none

abbrev pub read_number : Text × Text → Read Json
read_number (t, rest) = checked (atoi t) rest

-- Those bytes must come next.
unfoldable pub expect : Text → Text → Option Text
expect [] s = some s
expect (c ∷ t) [] = none
expect (c ∷ t) (d ∷ s) = let rest = expect t s in if c == d then rest else none

-- What a value, and what the next element of a list or of an object, begins with.
pub data Opening : Type 0 where
  quote brackets braces letter other : Opening

abbrev pub opening : ℕ → Opening
opening c =
    if c == b'"'
    then quote
    else if c == b'['
    then brackets
    else if c == b'{'
    then braces
    else if c == b'n'
    then letter
    else other

pub data Turn : Type 0 where
  finished goes_on wrong : Turn
  past_comma : Turn

abbrev pub turn : ℕ → Bool → ℕ → Turn
turn close first c =
    if c == close
    then finished
    else if first
    then goes_on
    else if c == b','
    then past_comma
    else wrong

abbrev pub and_then : {A B : Type 0} → Read A → (A → Text → Read B) → Read B
and_then none f = none
and_then (some (x, s)) f = f x s

abbrev pub expecting : {A : Type 0} → Text → A → Text → Read A
expecting t x s = Option.map (λ (rest : Text). (x, rest)) (expect t s)

-- The name of a field with its colon.
abbrev pub read_name : Text → Read Text
read_name s =
    and_then (expecting (b'"' ∷ []) tt s)
      (λ _ s1. and_then (unquote plain s1) (expecting (b':' ∷ [])))

-- On fuel, by the nesting and the lengths of lists and objects.
unfoldable mutual
  pub read_value : ℕ → Text → Read Json
  read_value zero s = none
  read_value (suc n) [] = none
  read_value (suc n) (c ∷ s) = elim (opening c) [
    | quote ↦ and_then (unquote plain s) (λ t rest. some (string t, rest))
    | brackets ↦ and_then (read_elements n true s) (λ xs rest. some (array xs, rest))
    | braces ↦ and_then (read_members n true s) (λ fs rest. some (object fs, rest))
    | letter ↦ expecting (codes "ull") null s
    | other ↦ read_number (number_bytes (c ∷ s))
  ]

  pub read_elements : ℕ → Bool → Text → Read Elements
  read_elements zero first s = none
  read_elements (suc n) first [] = none
  read_elements (suc n) first (c ∷ s) = elim (turn b']' first c) [
    | finished ↦ some (no_elements, s)
    | goes_on ↦ read_element n (c ∷ s)
    | past_comma ↦ read_element n s
    | wrong ↦ none
  ]

  pub read_element : ℕ → Text → Read Elements
  read_element zero s = none
  read_element (suc n) s =
      and_then (read_value n s)
        (λ x rest. and_then (read_elements n false rest) (λ xs rest1. some (element x xs, rest1)))

  pub read_members : ℕ → Bool → Text → Read Members
  read_members zero first s = none
  read_members (suc n) first [] = none
  read_members (suc n) first (c ∷ s) = elim (turn b'}' first c) [
    | finished ↦ some (no_members, s)
    | goes_on ↦ read_member n (c ∷ s)
    | past_comma ↦ read_member n s
    | wrong ↦ none
  ]

  pub read_member : ℕ → Text → Read Members
  read_member zero s = none
  read_member (suc n) s = and_then (read_name s) (λ k rest.
      and_then (read_value n rest) (λ v rest1.
        and_then (read_members n false rest1) (λ fs rest2. some (member k v fs, rest2))))

-- A text that is one value with a newline; the fuel is enough for what `encode` writes.
unfoldable pub parse : Text → Option Json
parse s = elim (read_value (3 * length s) s) [
  | none ↦ none
  | some (v, rest) ↦ if text_eq rest (b'\n' ∷ []) then some v else none
]
