-- ===== src/Api/Json.antt =====
-- The JSON that internal/api/handlers.go writes by json.NewEncoder(w).Encode: what the encoder of
-- Go's encoding/json does with texts, integers, pointers, slices and structs.
pub mod Reader
pub mod Quotes
pub mod Rounds
pub mod Fuel
pub mod Numbers
pub mod RoundTrip
use gateway_login.Base.{
  ℕ, zero, suc, ◌+◌, ◌-◌, ◌/◌, ◌%◌, Bool, true, false, ◌&&◌, ◌||◌, List, [], ◌∷◌, ◌++◌, Text, codes,
  if◌then◌else◌, ltb, leb, ◌==◌, ℤ, pos, negsuc,
}
use gateway_login.Decimal.{digits}

-- A slice and a struct are lists of their own.
mutual
  pub data Json : Type 0 where
    null : Json
    number : ℤ → Json
    string : Text → Json
    array : Elements → Json
    object : Members → Json

  pub data Elements : Type 0 where
    no_elements : Elements
    element : Json → Elements → Elements

  pub data Members : Type 0 where
    no_members : Members
    member : Text → Json → Members → Members

abbrev within : ℕ → ℕ → ℕ → Bool
within lo hi b = leb lo b && leb b hi

abbrev pub is_cont : ℕ → Bool
is_cont b = within 128 191 b

-- utf8.DecodeRune: the bytes of the character at the start, if it is not ASCII; 0 if it is none.
abbrev pub is_two : ℕ → ℕ → Bool
is_two b c = within 194 223 b && is_cont c

abbrev second_of_three : ℕ → ℕ → Bool
second_of_three b c =
    (b == 224 && within 160 191 c)
    || (b == 237 && within 128 159 c)
    || ((within 225 236 b || within 238 239 b) && is_cont c)

abbrev pub is_three : ℕ → ℕ → ℕ → Bool
is_three b c d = second_of_three b c && is_cont d

abbrev second_of_four : ℕ → ℕ → Bool
second_of_four b c =
    (b == 240 && within 144 191 c)
    || (b == 244 && within 128 143 c)
    || (within 241 243 b && is_cont c)

abbrev pub is_four : ℕ → ℕ → ℕ → ℕ → Bool
is_four b c d e = second_of_four b c && is_cont d && is_cont e

-- U+2028 and U+2029
abbrev pub is_separator : ℕ → ℕ → ℕ → Bool
is_separator b c d = b == 226 && c == 128 && (d == 168 || d == 169)

-- "0123456789abcdef"
abbrev pub hex_digit : ℕ → ℕ
hex_digit n = if ltb n 10 then b'0' + n else b'a' + n - 10

abbrev backslashed : ℕ → Text
backslashed c = b'\\' ∷ c ∷ []

-- An ASCII byte; `<`, `>` and `&` are escaped for HTML.
unfoldable pub escape_byte : ℕ → Text
escape_byte b =
    if b == b'"' || b == b'\\'
    then backslashed b
    else if b == 8
    then backslashed b'b'
    else if b == 12
    then backslashed b'f'
    else if b == 10
    then backslashed b'n'
    else if b == 13
    then backslashed b'r'
    else if b == 9
    then backslashed b't'
    else if ltb b 32 || b == b'<' || b == b'>' || b == b'&'
    then codes "\\u00" ++ hex_digit (b / 16) ∷ hex_digit (b % 16) ∷ []
    else b ∷ []

-- What the first bytes become: what is written, and how many of the bytes behind the first are
-- copied, or else left out.
pub record Piece : Type 0 where
  pub written : Text
  pub copied : ℕ
  pub dropped : ℕ

abbrev piece : Text → ℕ → ℕ → Piece
piece t c d = record { written = t; copied = c; dropped = d }

-- No character begins with the byte.
abbrev replaced : Piece
replaced = piece (codes "\\ufffd") 0 0

abbrev pub piece_four : ℕ → Text → Piece
piece_four b (c ∷ d ∷ e ∷ s) = if is_four b c d e then piece (b ∷ []) 3 0 else replaced
piece_four b _ = replaced

abbrev pub piece_three : ℕ → Text → Piece
piece_three b (c ∷ d ∷ s) =
    if is_separator b c d
    then piece (codes "\\u202" ++ hex_digit (d % 16) ∷ []) 0 2
    else if is_three b c d
    then piece (b ∷ []) 2 0
    else piece_four b (c ∷ d ∷ s)
piece_three b s = replaced

abbrev pub piece_two : ℕ → Text → Piece
piece_two b (c ∷ s) = if is_two b c then piece (b ∷ []) 1 0 else piece_three b (c ∷ s)
piece_two b [] = replaced

abbrev pub piece_of : ℕ → Text → Piece
piece_of b s = if ltb b 128 then piece (escape_byte b) 0 0 else piece_two b s

-- The loop of `appendString`, with the bytes still to be copied and to be left out.
unfoldable pub escaped : ℕ → ℕ → Text → Text
escaped copied dropped [] = []
escaped (suc copied) dropped (b ∷ s) = b ∷ escaped copied dropped s
escaped zero (suc dropped) (b ∷ s) = escaped zero dropped s
escaped zero zero (b ∷ s) =
    (piece_of b s).written ++ escaped (piece_of b s).copied (piece_of b s).dropped s

abbrev pub quoted : Text → Text
quoted s = b'"' ∷ escaped 0 0 s ++ b'"' ∷ []

-- strconv.AppendInt
unfoldable pub format_int : ℤ → Text
format_int (pos zero) = b'0' ∷ []
format_int (pos (suc n)) = digits (suc n) []
format_int (negsuc n) = b'-' ∷ digits (suc n) []

-- The comma before an element that is not the first.
abbrev pub comma : Bool → Text
comma true = []
comma false = b',' ∷ []

unfoldable mutual
  pub print : Json → Text
  print null = codes "null"
  print (number n) = format_int n
  print (string s) = quoted s
  print (array xs) = b'[' ∷ print_elements true xs
  print (object fs) = b'{' ∷ print_members true fs

  pub print_elements : Bool → Elements → Text
  print_elements first no_elements = b']' ∷ []
  print_elements first (element x xs) = comma first ++ (print x ++ print_elements false xs)

  pub print_members : Bool → Members → Text
  print_members first no_members = b'}' ∷ []
  print_members first (member k v fs) =
      comma first ++ (quoted k ++ (b':' ∷ (print v ++ print_members false fs)))

-- Encoder.Encode ends the value with a newline.
abbrev pub encode : Json → Text
encode j = print j ++ b'\n' ∷ []
