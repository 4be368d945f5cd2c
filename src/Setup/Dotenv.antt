-- ===== src/Setup/Dotenv.antt =====
-- ReadMasterKeyFromDotenv against writeDotenv, of internal/setup/setup.go.
use gateway_login.Base.{
  ◌≡◌, refl, ap, ◌∙◌, Bool, true, false, not, ◌&&◌, Option, none, some, [], ◌∷◌, ◌++◌, Text, ok,
  arith, ◌==◌, append_assoc, ◌≢◌, append-nil, List, Bool-cases, inl, inr,
}
use gateway_login.Setup.{
  split_from, strip_prefix, key_prefix, value_or, find_master_key, read_master_key, write_dotenv,
}

-- The text has no newline.
abbrev pub is_line : Text → Bool
is_line [] = true
is_line (c ∷ s) = not (c == b'\n') && is_line s

split_from-append :
    (current s rest : Text)
    → is_line s ≡ true
    → split_from current (s ++ b'\n' ∷ rest) ≡ (current ++ s) ∷ split_from [] rest
unfolding split_from
split_from-append current [] rest h = rw (append-nil current)
split_from-append current (c ∷ s) rest h =
    let other : (c == b'\n') ≡ false = ground (arith, h) in
    rw other (
      split_from-append (current ++ c ∷ []) s rest (ground (arith, h))
      ∙ ap (λ l. l ∷ split_from [] rest) (append_assoc current (c ∷ []) s))

strip_prefix-append : (p s : Text) → strip_prefix p (p ++ s) ≡ some s
unfolding strip_prefix
strip_prefix-append [] s = refl
strip_prefix-append (c ∷ p) s = ground (arith, strip_prefix-append p s)

-- A key that is not empty and has no newline is read back from the file that was written, whatever
-- the file held before.
pub read_master_key-write_dotenv :
    (key : Text) (file : Option Text)
    → key ≢ []
    → is_line key ≡ true
    → read_master_key none (write_dotenv none key file).1 ≡ ok key
unfolding read_master_key write_dotenv find_master_key value_or
read_master_key-write_dotenv [] file h line = absurd (h refl)
read_master_key-write_dotenv (c ∷ key) file h line = rw (
  ← append_assoc key_prefix (c ∷ key) (b'\n' ∷ []),
  split_from-append [] (key_prefix ++ c ∷ key) [] line,
  strip_prefix-append key_prefix (c ∷ key),
)

-- A line, and a part of it, has no newline.
is_line-append : (s t : Text) → is_line s ≡ true → is_line t ≡ true → is_line (s ++ t) ≡ true
is_line-append [] t h h' = h'
is_line-append (c ∷ s) t h h' = ground (arith, is_line-append s t, h, h')

-- The lines of a text.
abbrev AreLines : List Text → Type 0
AreLines [] = Unit
AreLines (l ∷ ls) = (is_line l ≡ true) × AreLines ls

split_from-AreLines : (current s : Text) → is_line current ≡ true → AreLines (split_from current s)
unfolding split_from
split_from-AreLines [] [] h = tt
split_from-AreLines (c ∷ current) [] h = (h, tt)
split_from-AreLines current (c ∷ s) h = elim (Bool-cases (c == b'\n')) [
  | inl ends ↦ rw ends (h, split_from-AreLines [] s refl)
  | inr goes ↦ rw goes (
      split_from-AreLines (current ++ c ∷ []) s
        (is_line-append current (c ∷ []) h (ground (arith, goes))))
]

strip_prefix-is_line :
    (p line v : Text) → strip_prefix p line ≡ some v → is_line line ≡ true → is_line v ≡ true
unfolding strip_prefix
strip_prefix-is_line [] line v e h = let same : line ≡ v = cc in rw (← same) h
strip_prefix-is_line (p ∷ ps) [] v e h = absurd (cc)
strip_prefix-is_line (p ∷ ps) (c ∷ line) v e h = elim (Bool-cases (p == c)) [
  | inl same ↦ strip_prefix-is_line ps line v (cc (rw same at e)) (ground (arith, h))
  | inr other ↦ absurd (cc (rw other at e))
]

value_or-is_line :
    (o : Option Text) (rest : Text)
    → ((v : Text) → o ≡ some v → is_line v ≡ true)
    → is_line rest ≡ true
    → is_line (value_or o rest) ≡ true
unfolding value_or
value_or-is_line none rest h h' = h'
value_or-is_line (some []) rest h h' = h'
value_or-is_line (some (c ∷ v)) rest h h' = h (c ∷ v) refl

find_master_key-is_line : (ls : List Text) → AreLines ls → is_line (find_master_key ls) ≡ true
unfolding find_master_key
find_master_key-is_line [] h = refl
find_master_key-is_line (l ∷ ls) (h, hs) =
    value_or-is_line (strip_prefix key_prefix l) (find_master_key ls)
      (λ v e. strip_prefix-is_line key_prefix l v e h) (find_master_key-is_line ls hs)

-- What is read from the file has no newline.
pub read_master_key-is_line :
    (fault file : Option Text) (v : Text) → read_master_key fault file ≡ ok v → is_line v ≡ true
unfolding read_master_key
read_master_key-is_line (some e) file v h = absurd (cc)
read_master_key-is_line none none v h = let same : [] ≡ v = cc in rw (← same) refl
read_master_key-is_line none (some s) v h =
    let same : find_master_key (split_from [] s) ≡ v = cc in
    rw (← same) (find_master_key-is_line (split_from [] s) (split_from-AreLines [] s refl))
