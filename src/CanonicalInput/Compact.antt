-- ===== src/CanonicalInput/Compact.antt =====
-- The compact text of canonical-input/v2, `_write_compact` of canonical_input.py. `repr` of a float
-- is Python's and a parameter.
use semant_script.Prelude.{
  ℕ, zero, suc, ◌+◌, ◌-◌, Bool, true, false, not, ◌&&◌, ◌||◌, [], ◌∷◌, ◌++◌, Option, none, some,
  ltb, leb, ◌==◌, if◌then◌else◌, length, take, drop, replicate,
}
use semant_script.Python.Text.{Text, codes, text_eq, is_surrogate}
use semant_script.Python.Digits.{decimal, read_digits, hex}
use semant_script.Python.Float.{ℤ, pos, negsuc, is_zero, sign_bit}
use semant_script.CanonicalInput.Errors.{Result, ok, fail, bind, Failure}
use semant_script.CanonicalInput.Tree.{ExactJson, Items}
use semant_script.CanonicalInput.Numbers.{hex_to_double}

abbrev is_letter : ℕ → Bool
is_letter c = (leb b'A' c && leb c b'Z') || (leb b'a' c && leb c b'z')

-- the characters of `_BARE_TOKEN`, `[A-Za-z_]` and `[A-Za-z0-9_.-]`
unfoldable pub starts_token : ℕ → Bool
starts_token c = is_letter c || c == b'_'

unfoldable pub continues_token : ℕ → Bool
unfolding starts_token
continues_token c = starts_token c || (leb b'0' c && leb c b'9') || c == b'.' || c == b'-'

unfoldable pub all_continue : Text → Bool
unfolding continues_token
all_continue [] = true
all_continue (c ∷ s) = continues_token c && all_continue s

-- `_BARE_TOKEN.fullmatch(value) is not None`
unfoldable pub is_token : Text → Bool
unfolding starts_token all_continue
is_token [] = false
is_token (c ∷ s) = starts_token c && all_continue s

-- `value in _RESERVED_TOKENS`
unfoldable pub is_reserved : Text → Bool
unfolding text_eq
is_reserved s = text_eq s (codes "true") || text_eq s (codes "false") || text_eq s (codes "null")

unfoldable pub is_bare : Text → Bool
unfolding is_token is_reserved
is_bare s = is_token s && not (is_reserved s)

-- `_COMPACT_ESCAPES`, and `\u00` with two hexadecimal digits for the other control characters
unfoldable pub compact_escape : ℕ → Option Text
unfolding hex
compact_escape c =
    if c == 8
    then some (codes "\\b")
    else if c == 9
    then some (codes "\\t")
    else if c == 10
    then some (codes "\\n")
    else if c == 12
    then some (codes "\\f")
    else if c == 13
    then some (codes "\\r")
    else if c == b'"'
    then some (codes "\\\"")
    else if c == b'\\'
    then some (codes "\\\\")
    else if leb c 0x1F
    then some (codes "\\u00" ++ hex 2 c)
    else none

-- the loop of `_compact_string` over the characters
unfoldable pub compact_pieces : Text → Result Text
unfolding compact_escape
compact_pieces [] = ok []
compact_pieces (c ∷ s) =
    let rest = compact_pieces s in
    elim (compact_escape c) [
      | some e ↦ bind rest (λ t. ok (e ++ t))
      | none ↦ if is_surrogate c then fail Failure.type_error else bind rest (λ t. ok (c ∷ t))
    ]

-- `_compact_string`
unfoldable pub compact_string : Text → Result Text
unfolding is_bare compact_pieces
compact_string s =
    if is_bare s then ok s else bind (compact_pieces s) (λ t. ok (b'"' ∷ (t ++ b'"' ∷ [])))

-- `text.partition(mark)`: what stands before the first mark and after it
unfoldable pub partition : ℕ → Text → Text × Text
partition mark [] = ([], [])
partition mark (c ∷ s) =
    if c == mark then ([], s) else (c ∷ (partition mark s).0, (partition mark s).1)

-- `text.lstrip("0")`
unfoldable pub lstrip : Text → Text
lstrip [] = []
lstrip (c ∷ s) = if c == b'0' then lstrip s else c ∷ s

-- `text.rstrip("0")`
abbrev unless_zeros : ℕ → Text → Text
unless_zeros c [] = if c == b'0' then [] else c ∷ []
unless_zeros c (d ∷ s) = c ∷ d ∷ s

unfoldable pub rstrip : Text → Text
rstrip [] = []
rstrip (c ∷ s) = unless_zeros c (rstrip s)

-- a - b
abbrev pub sub_ℕ : ℕ → ℕ → ℤ
sub_ℕ a b = if leb b a then pos (a - b) else negsuc (b - a - 1)

infixl 65 ◌+ℤ◌
unfoldable pub ◌+ℤ◌ : ℤ → ℤ → ℤ
pos a +ℤ pos b = pos (a + b)
pos a +ℤ negsuc b = sub_ℕ a (suc b)
negsuc a +ℤ pos b = sub_ℕ b (suc a)
negsuc a +ℤ negsuc b = negsuc (suc (a + b))

-- `int(text)` of an exponent, which may have a sign; no text is 0
unfoldable pub exponent_of : Text → ℤ
unfolding read_digits
exponent_of [] = pos 0
exponent_of (c ∷ s) =
    if c == b'-'
    then sub_ℕ 0 (read_digits 0 s).0
    else if c == b'+'
    then pos (read_digits 0 s).0
    else pos (read_digits 0 (c ∷ s)).0

-- `digits[0] + "." + digits[1:]`, or the one digit
abbrev scientific : Text → Text
scientific [] = []
scientific (c ∷ []) = c ∷ []
scientific (c ∷ d ∷ s) = c ∷ b'.' ∷ d ∷ s

-- The spelling of digits d1…dk for the value 0.d1…dk * 10 ** n.
unfoldable pub spell : Text → ℤ → Text
unfolding decimal
spell digits (pos n) =
    let k = length digits in
    if leb k n && leb n 21
    then digits ++ replicate (n - k) b'0'
    else if ltb 0 n && leb n 21
    then take n digits ++ (b'.' ∷ drop n digits)
    else if n == 0
    then codes "0." ++ digits
    else scientific digits ++ (codes "e+" ++ decimal (n - 1))
spell digits (negsuc n) =
    if ltb (suc n) 6
    then codes "0." ++ (replicate (suc n) b'0' ++ digits)
    else scientific digits ++ (codes "e-" ++ decimal (suc (suc n)))

-- `_compact_number` from the text of `repr(abs(value))` on
unfoldable pub compact_magnitude : Text → Text
unfolding spell partition lstrip rstrip exponent_of ◌+ℤ◌
compact_magnitude text =
    let halves = partition b'e' text in
    let parts = partition b'.' halves.0 in
    let digits = lstrip (parts.0 ++ parts.1) in
    let stripped = rstrip digits in
    let exponent =
      exponent_of halves.1 +ℤ sub_ℕ 0 (length parts.1) +ℤ sub_ℕ (length digits) (length stripped) in
    spell stripped (pos (length stripped) +ℤ exponent)

-- `text.startswith("-")`
abbrev unsigned : Text → Text
unsigned [] = compact_magnitude []
unsigned (c ∷ s) = if c == b'-' then b'-' ∷ compact_magnitude s else compact_magnitude (c ∷ s)

module _ (repr : ℕ → Text) where
  -- `_compact_number`
  unfoldable pub compact_number : ℕ → Text
  unfolding compact_magnitude is_zero
  compact_number bits =
      if is_zero bits
      then (if sign_bit bits == 1 then codes "-0" else codes "0")
      else unsigned (repr bits)

  -- `_compact_value` of a typed value: its tag says which item is shown. `_compact_pair` of a
  -- name and a typed value, and the commas, are the functions below it.
  unfoldable mutual
    unfolding compact_string compact_number hex_to_double text_eq

    pub compact_value : ExactJson → Result Text
    compact_value (ExactJson.list (Items.cons (ExactJson.string tag) rest)) =
        if text_eq tag (codes "null")
        then ok (codes "null")
        else if text_eq tag (codes "boolean")
        then compact_boolean rest
        else if text_eq tag (codes "string")
        then compact_text rest
        else if text_eq tag (codes "number")
        then compact_digits rest
        else if text_eq tag (codes "literal")
        then compact_item 0 rest
        else if text_eq tag (codes "enum")
        then compact_item 2 rest
        else if text_eq tag (codes "union")
        then compact_item 1 rest
        else if text_eq tag (codes "array")
        then compact_sequence rest
        else if text_eq tag (codes "tuple")
        then compact_sequence rest
        else if text_eq tag (codes "object")
        then compact_object rest
        else fail Failure.type_error
    compact_value _ = fail Failure.type_error

    -- `"true" if value[1] is True else "false"`
    pub compact_boolean : Items → Result Text
    compact_boolean (Items.cons (ExactJson.boolean true) _) = ok (codes "true")
    compact_boolean Items.nil = fail Failure.type_error
    compact_boolean _ = ok (codes "false")

    pub compact_text : Items → Result Text
    compact_text (Items.cons (ExactJson.string s) _) = compact_string s
    compact_text _ = fail Failure.type_error

    pub compact_digits : Items → Result Text
    compact_digits (Items.cons (ExactJson.string s) _) =
        bind (hex_to_double s) (λ bits. ok (compact_number bits))
    compact_digits _ = fail Failure.type_error

    -- the item at a position; a missing one is an IndexError, not told from TypeError here
    pub compact_item : ℕ → Items → Result Text
    compact_item i Items.nil = fail Failure.type_error
    compact_item zero (Items.cons x _) = compact_value x
    compact_item (suc i) (Items.cons _ xs) = compact_item i xs

    pub compact_sequence : Items → Result Text
    compact_sequence (Items.cons (ExactJson.list xs) _) =
        bind (compact_values true xs) (λ s. ok (b'[' ∷ (s ++ b']' ∷ [])))
    compact_sequence _ = fail Failure.type_error

    -- `",".join(_compact_value(item) for item in items)`
    pub compact_values : Bool → Items → Result Text
    compact_values first Items.nil = ok []
    compact_values first (Items.cons x xs) = bind (compact_value x) λ s.
        bind (compact_values false xs) λ rest. ok ((if first then [] else b',' ∷ []) ++ (s ++ rest))

    pub compact_object : Items → Result Text
    compact_object (Items.cons (ExactJson.list pairs) _) =
        bind (compact_pairs (codes ",") true pairs) (λ s. ok (b'{' ∷ (s ++ b'}' ∷ [])))
    compact_object _ = fail Failure.type_error

    -- `_compact_pair`
    pub compact_pair : ExactJson → Result Text
    compact_pair (ExactJson.list (Items.cons (ExactJson.string name) (Items.cons v Items.nil))) =
        bind (compact_string name) λ s. bind (compact_value v) λ t. ok (s ++ (b'=' ∷ t))
    compact_pair _ = fail Failure.type_error

    pub compact_pairs : Text → Bool → Items → Result Text
    compact_pairs separator first Items.nil = ok []
    compact_pairs separator first (Items.cons p ps) = bind (compact_pair p) λ s.
        bind (compact_pairs separator false ps)
          λ rest. ok ((if first then [] else separator) ++ (s ++ rest))

  -- `_write_compact`
  unfoldable pub write_compact : ExactJson → Result Text
  unfolding compact_pairs
  write_compact
        (ExactJson.list
          (Items.cons _ (Items.cons _ (Items.cons (ExactJson.list pairs) Items.nil)))) =
      compact_pairs (codes " ") true pairs
  write_compact _ = fail Failure.type_error
