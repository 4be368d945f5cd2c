-- ===== src/Api/Json/Fuel.antt =====
-- The fuel of the reader of JSON, against the length of what is read.
use gateway_login.Base.{
  ℕ, ◌+◌, ◌*◌, ◌≤◌, Bool, true, false, ◌∷◌, ◌++◌, arith, length, length-append, ℤ,
}
use gateway_login.Api.Json.{
  Json, null, number, string, array, object, Elements, no_elements, element, Members, no_members,
  member, quoted, comma, format_int, print, print_elements, print_members,
}
use gateway_login.Api.Json.Numbers.{format_int-head}

-- The fuel that a value takes.
unfoldable mutual
  pub size : Json → ℕ
  size null = 1
  size (number n) = 1
  size (string s) = 1
  size (array xs) = 1 + size_elements xs
  size (object fs) = 1 + size_members fs

  pub size_elements : Elements → ℕ
  size_elements no_elements = 1
  size_elements (element x xs) = 2 + size x + size_elements xs

  pub size_members : Members → ℕ
  size_members no_members = 1
  size_members (member k v fs) = 2 + size v + size_members fs

-- The text has a third of the fuel.
length-format_int : (i : ℤ) → 1 ≤ length (format_int i)
length-format_int i = let (c, t, e, digit) = format_int-head i in rw e (omega arith)

mutual
  unfolding size size_elements size_members print print_elements print_members

  pub size-le-length : (j : Json) → size j + 2 ≤ 3 * length (print j)
  size-le-length null = omega arith
  size-le-length (number i) = omega (arith, length-format_int i)
  size-le-length (string s) = omega arith
  size-le-length (array xs) = omega (arith, size_elements-le true xs)
  size-le-length (object fs) = omega (arith, size_members-le true fs)

  size_elements-le :
      (first : Bool) (xs : Elements) → size_elements xs + 2 ≤ 3 * length (print_elements first xs)
  size_elements-le first no_elements = omega arith
  size_elements-le first (element x xs) = omega (
    arith,
    length-append (comma first) (print x ++ print_elements false xs),
    length-append (print x) (print_elements false xs),
    size-le-length x,
    size_elements-le false xs,
  )

  size_members-le :
      (first : Bool) (fs : Members) → size_members fs + 2 ≤ 3 * length (print_members first fs)
  size_members-le first no_members = omega arith
  size_members-le first (member k v fs) = omega (
    arith,
    length-append (comma first) (quoted k ++ (b':' ∷ (print v ++ print_members false fs))),
    length-append (quoted k) (b':' ∷ (print v ++ print_members false fs)),
    length-append (print v) (print_members false fs),
    size-le-length v,
    size_members-le false fs,
  )
