-- ===== src/CanonicalInput/Escape.antt =====
-- The string escapes of the v1 writer of canonical_input.py, and a reader for one escaped
-- character.
use semant_script.Prelude.{
  ℕ, ◌+◌, ◌*◌, ◌/◌, ◌%◌, ◌<◌, ◌≡◌, [], ◌∷◌, ◌++◌, Option, none, some, arith, leb, ◌==◌,
  if◌then◌else◌,
}
use semant_script.Python.Text.{Text, codes}
use semant_script.Python.Digits.{hex, hex_digit_value, hex_digit_value-hex_digit}

-- The table `escapes` of `write_string`, and the other control characters: `\u00` and two hexadecimal
-- digits.
unfoldable pub escape : ℕ → Option Text
unfolding hex
escape c =
    if c == 8
    then some (codes "\\b")
    else if c == 9
    then some (codes "\\t")
    else if c == 10
    then some (codes "\\n")
    else if c == 12
    then some (codes "\\f")
    else if c == 13
    then some (codes "\\r")
    else if c == b'"'
    then some (codes "\\\"")
    else if c == b'\\'
    then some (codes "\\\\")
    else if leb c 0x1F
    then some (codes "\\u00" ++ hex 2 c)
    else none

-- a character as it stands between the quotes
unfoldable pub written : ℕ → Text
written c = elim (escape c) [ none ↦ c ∷ [] | some e ↦ e ]

pub written-escape : (c : ℕ) (e : Text) → escape c ≡ some e → written c ≡ e
unfolding written
written-escape c e h = rw (h, written)

pub written-plain : (c : ℕ) → escape c ≡ none → written c ≡ c ∷ []
unfolding written
written-plain c h = rw (h, written)

-- A reader for the character that leads a text between quotes.
read_hex : Text → Option (ℕ × Text)
read_hex (_ ∷ _ ∷ a ∷ b ∷ rest) = elim (hex_digit_value a) [
  | none ↦ none
  | some x ↦ elim (hex_digit_value b) [ none ↦ none | some y ↦ some (x * 16 + y, rest) ]
]
read_hex _ = none

read_escape : Text → Option (ℕ × Text)
unfolding read_hex
read_escape [] = none
read_escape (e ∷ rest) =
    if e == b'b'
    then some (8, rest)
    else if e == b't'
    then some (9, rest)
    else if e == b'n'
    then some (10, rest)
    else if e == b'f'
    then some (12, rest)
    else if e == b'r'
    then some (13, rest)
    else if e == b'u'
    then read_hex rest
    else some (e, rest)

pub read_written : Text → Option (ℕ × Text)
unfolding read_escape
read_written [] = none
read_written (c ∷ rest) = if c == b'\\' then read_escape rest else some (c, rest)

read_hex-hex : (c : ℕ) (r : Text) → c < 32 → read_hex (b'0' ∷ b'0' ∷ (hex 2 c ++ r)) ≡ some (c, r)
unfolding read_hex hex
read_hex-hex c r h = ground (
  arith,
  hex_digit_value-hex_digit (c / 16 % 16) (omega arith),
  hex_digit_value-hex_digit (c % 16) (omega arith),
)

-- Reading what was written gives the character, and what follows it.
pub read_written-written : (c : ℕ) (r : Text) → read_written (written c ++ r) ≡ some (c, r)
unfolding read_written written escape
read_written-written c r = ground (arith, read_hex-hex c r)

-- The first characters of two texts between quotes are the same if the texts are.
pub written-cancel : (c d : ℕ) (r s : Text) → written c ++ r ≡ written d ++ s → (c ≡ d) × (r ≡ s)
written-cancel c d r s e =
    let p = read_written-written c r in let q = read_written-written d s in ground (arith, p, q, e)

-- What is written of a character is not the closing quote.
pub written-ne-quote : (c : ℕ) (r s : Text) → written c ++ r ≡ b'"' ∷ s → ⊥
unfolding written escape
written-ne-quote c r s e = ground arith
