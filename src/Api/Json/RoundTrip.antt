-- ===== src/Api/Json/RoundTrip.antt =====
-- The values of encoding/json, read back.
use gateway_login.Base.{
  ℕ, zero, suc, ◌*◌, ◌≤◌, ◌≡◌, refl, ap, ◌∙◌, Bool, true, false, some, [], ◌∷◌, ◌++◌, Text, codes,
  arith, length, length-append, append_assoc, text_eq, IsInt64,
}
use gateway_login.Api.Json.{
  Json, null, number, string, array, object, Elements, no_elements, element, Members, no_members,
  member, quoted, escaped, encode, print, print_elements, print_members,
}
use gateway_login.Api.Json.Reader.{
  plain, unquote, expect, expecting, and_then, read_name, read_value, read_elements, read_element,
  read_members, read_member, parse, turn, goes_on,
}
use gateway_login.Api.Json.Quotes.{cleaned}
use gateway_login.Api.Json.Rounds.{unquote-escaped}
use gateway_login.Api.Json.Fuel.{size, size_elements, size_members, size-le-length}
use gateway_login.Api.Json.Numbers.{IsEnd, read_value-format_int, format_int-head}

-- The value with U+FFFD for each byte of its texts that is in no character.
unfoldable mutual
  pub cleaned_json : Json → Json
  cleaned_json null = null
  cleaned_json (number n) = number n
  cleaned_json (string s) = string (cleaned 0 s)
  cleaned_json (array xs) = array (cleaned_elements xs)
  cleaned_json (object fs) = object (cleaned_members fs)

  pub cleaned_elements : Elements → Elements
  cleaned_elements no_elements = no_elements
  cleaned_elements (element x xs) = element (cleaned_json x) (cleaned_elements xs)

  pub cleaned_members : Members → Members
  cleaned_members no_members = no_members
  cleaned_members (member k v fs) = member (cleaned 0 k) (cleaned_json v) (cleaned_members fs)

-- Its integers are 64-bit values.
unfoldable mutual
  pub Fits : Json → Type 0
  Fits null = Unit
  Fits (number n) = IsInt64 n
  Fits (string s) = Unit
  Fits (array xs) = FitElements xs
  Fits (object fs) = FitMembers fs

  pub FitElements : Elements → Type 0
  FitElements no_elements = Unit
  FitElements (element x xs) = Fits x × FitElements xs

  pub FitMembers : Members → Type 0
  FitMembers no_members = Unit
  FitMembers (member k v fs) = Fits v × FitMembers fs

IsEnd-print_elements : (xs : Elements) (rest : Text) → IsEnd (print_elements false xs ++ rest)
unfolding print_elements
IsEnd-print_elements no_elements rest = refl
IsEnd-print_elements (element x xs) rest = refl

IsEnd-print_members : (fs : Members) (rest : Text) → IsEnd (print_members false fs ++ rest)
unfolding print_members
IsEnd-print_members no_members rest = refl
IsEnd-print_members (member k v fs) rest = refl

-- No value begins as the end of a list does.
print-head : (j : Json) → (c : ℕ) × (t : Text) × (print j ≡ c ∷ t) × (turn b']' true c ≡ goes_on)
unfolding print
print-head null = (b'n', codes "ull", refl, refl)
print-head (string s) = (b'"', escaped 0 0 s ++ b'"' ∷ [], refl, refl)
print-head (array xs) = (b'[', print_elements true xs, refl, refl)
print-head (object fs) = (b'{', print_members true fs, refl, refl)
print-head (number n) = let (c, t, e, digit) = format_int-head n in (c, t, e, ground (arith, digit))

read_elements-first :
    (n : ℕ) (j : Json) (s : Text)
    → read_elements (suc n) true (print j ++ s) ≡ read_element n (print j ++ s)
read_elements-first n j s =
    let (c, t, e, more) = print-head j in rw e (unfold read_elements in rw (more, read_elements))

read_name-quoted : (k s : Text) → read_name (quoted k ++ b':' ∷ s) ≡ some (cleaned 0 k, s)
unfolding expect
read_name-quoted k s =
    ap (λ t. and_then (unquote plain t) (expecting (b':' ∷ [])))
      (append_assoc (escaped 0 0 k) (b'"' ∷ []) (b':' ∷ s))
    ∙ ap (λ r. and_then r (expecting (b':' ∷ []))) (unquote-escaped k (b':' ∷ s))

read_element-element :
    (n : ℕ) (x : Json) (xs : Elements) (s s1 rest : Text)
    → read_value n s ≡ some (x, s1)
    → read_elements n false s1 ≡ some (xs, rest)
    → read_element (suc n) s ≡ some (element x xs, rest)
unfolding read_element
read_element-element n x xs s s1 rest h t = rw (h, and_then, t)

read_member-member :
    (n : ℕ) (k : Text) (v : Json) (fs : Members) (s s1 rest : Text)
    → read_value n s ≡ some (v, s1)
    → read_members n false s1 ≡ some (fs, rest)
    → read_member (suc n) (quoted k ++ b':' ∷ s) ≡ some (member (cleaned 0 k) v fs, rest)
unfolding read_member
read_member-member n k v fs s s1 rest h t = rw (read_name-quoted k s, and_then, h, t)

member_assoc :
    (k : Text) (v : Json) (fs : Members) (rest : Text)
    → (quoted k ++ (b':' ∷ (print v ++ print_members false fs))) ++ rest
      ≡ quoted k ++ b':' ∷ (print v ++ (print_members false fs ++ rest))
member_assoc k v fs rest =
    append_assoc (quoted k) (b':' ∷ (print v ++ print_members false fs)) rest
    ∙ ap (λ t. quoted k ++ b':' ∷ t) (append_assoc (print v) (print_members false fs) rest)

mutual
  unfolding size size_elements size_members expect print print_elements print_members read_value
      read_elements read_members cleaned_json Fits

  read_value-print :
      (n : ℕ) (j : Json) (rest : Text)
      → size j ≤ n
      → Fits j
      → IsEnd rest
      → read_value n (print j ++ rest) ≡ some (cleaned_json j, rest)
  read_value-print zero null rest h fits e = absurd (omega arith)
  read_value-print zero (number i) rest h fits e = absurd (omega arith)
  read_value-print zero (string s) rest h fits e = absurd (omega arith)
  read_value-print zero (array xs) rest h fits e = absurd (omega arith)
  read_value-print zero (object fs) rest h fits e = absurd (omega arith)
  read_value-print (suc n) null rest h fits e = refl
  read_value-print (suc n) (number i) rest h fits e = read_value-format_int n i rest fits e
  read_value-print (suc n) (string s) rest h fits e =
      (ap (λ t. and_then (unquote plain t) (λ t rest. some (string t, rest)))
          (append_assoc (escaped 0 0 s) (b'"' ∷ []) rest)
        ∙ ap (λ r. and_then r (λ t rest. some (string t, rest))) (unquote-escaped s rest))
  read_value-print (suc n) (array xs) rest h fits e =
      ap (λ r. and_then r (λ xs rest. some (array xs, rest)))
        (read_elements-print n true xs rest (omega arith) fits)
  read_value-print (suc n) (object fs) rest h fits e =
      ap (λ r. and_then r (λ fs rest. some (object fs, rest)))
        (read_members-print n true fs rest (omega arith) fits)

  read_elements-print :
      (n : ℕ) (first : Bool) (xs : Elements) (rest : Text)
      → size_elements xs ≤ n
      → FitElements xs
      → read_elements n first (print_elements first xs ++ rest) ≡ some (cleaned_elements xs, rest)
  read_elements-print zero first no_elements rest h fits = absurd (omega arith)
  read_elements-print zero first (element x xs) rest h fits = absurd (omega arith)
  read_elements-print (suc zero) first (element x xs) rest h fits = absurd (omega arith)
  read_elements-print (suc n) true no_elements rest h fits = refl
  read_elements-print (suc n) false no_elements rest h fits = refl
  read_elements-print (suc (suc n)) true (element x xs) rest h fits =
      (ap (read_elements (suc (suc n)) true) (append_assoc (print x) (print_elements false xs) rest)
        ∙ read_elements-first (suc n) x (print_elements false xs ++ rest)
        ∙ read_element-element n (cleaned_json x) (cleaned_elements xs) _
            (print_elements false xs ++ rest) rest
            (read_value-print n x (print_elements false xs ++ rest) (omega arith) fits.0
              (IsEnd-print_elements xs rest))
            (read_elements-print n false xs rest (omega arith) fits.1))
  read_elements-print (suc (suc n)) false (element x xs) rest h fits =
      (ap (read_element (suc n)) (append_assoc (print x) (print_elements false xs) rest)
        ∙ read_element-element n (cleaned_json x) (cleaned_elements xs) _
            (print_elements false xs ++ rest) rest
            (read_value-print n x (print_elements false xs ++ rest) (omega arith) fits.0
              (IsEnd-print_elements xs rest))
            (read_elements-print n false xs rest (omega arith) fits.1))

  read_members-print :
      (n : ℕ) (first : Bool) (fs : Members) (rest : Text)
      → size_members fs ≤ n
      → FitMembers fs
      → read_members n first (print_members first fs ++ rest) ≡ some (cleaned_members fs, rest)
  read_members-print zero first no_members rest h fits = absurd (omega arith)
  read_members-print zero first (member k v fs) rest h fits = absurd (omega arith)
  read_members-print (suc zero) first (member k v fs) rest h fits = absurd (omega arith)
  read_members-print (suc n) true no_members rest h fits = refl
  read_members-print (suc n) false no_members rest h fits = refl
  read_members-print (suc (suc n)) true (member k v fs) rest h fits =
      (ap (read_member (suc n)) (member_assoc k v fs rest)
        ∙ read_member-member n k (cleaned_json v) (cleaned_members fs) _
            (print_members false fs ++ rest) rest
            (read_value-print n v (print_members false fs ++ rest) (omega arith) fits.0
              (IsEnd-print_members fs rest))
            (read_members-print n false fs rest (omega arith) fits.1))
  read_members-print (suc (suc n)) false (member k v fs) rest h fits =
      (ap (read_member (suc n)) (member_assoc k v fs rest)
        ∙ read_member-member n k (cleaned_json v) (cleaned_members fs) _
            (print_members false fs ++ rest) rest
            (read_value-print n v (print_members false fs ++ rest) (omega arith) fits.0
              (IsEnd-print_members fs rest))
            (read_members-print n false fs rest (omega arith) fits.1))

-- A value whose integers are 64-bit values is read back from its text, with U+FFFD for each byte of
-- its texts that is in no character.
pub parse-encode : (j : Json) → Fits j → parse (encode j) ≡ some (cleaned_json j)
unfolding parse text_eq
parse-encode j fits =
    let enough : size j ≤ 3 * length (encode j) =
      omega (arith, size-le-length j, length-append (print j) (b'\n' ∷ [])) in
    rw (read_value-print (3 * length (encode j)) j (b'\n' ∷ []) enough fits refl, parse)
