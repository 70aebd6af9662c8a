-- ===== src/Constraints/Numbers.antt =====
-- `_is_number`, `_number`, `_js_number_string`, `_array_index` and `_property_key` of constraints.py,
-- and the comparison of floats.
use semant_script.Prelude.{
  ℕ, ◌+◌, ◌-◌, ◌^◌, ◌%◌, Bool, true, false, not, ◌&&◌, ◌||◌, [], ◌∷◌, ◌++◌, Option, none, some, ltb,
  leb, ◌==◌, if◌then◌else◌, length, take, drop, replicate,
}
use semant_script.Python.Text.{Text, codes}
use semant_script.Python.Digits.{is_digit, read_digits}
use semant_script.Python.Float.{
  ℤ, pos, negsuc, is_finite, is_zero, sign_bit, float_of_int, natural_of_float,
}
use semant_script.Python.Values.{Value}
use semant_script.CanonicalInput.Errors.{Result, ok, fail, Failure}
use semant_script.CanonicalInput.Compact.{partition, lstrip, rstrip, exponent_of, sub_ℕ, ◌+ℤ◌}

-- `==` of finite floats
unfoldable pub float_eq : ℕ → ℕ → Bool
unfolding is_zero
float_eq x y = x == y || (is_zero x && is_zero y)

-- `<` of finite floats
unfoldable pub float_lt : ℕ → ℕ → Bool
unfolding is_zero
float_lt x y =
    if is_zero x && is_zero y
    then false
    else if sign_bit x == 1
    then not (sign_bit y == 1) || ltb (y % 2 ^ 63) (x % 2 ^ 63)
    else not (sign_bit y == 1) && ltb x y

-- `-x`
unfoldable pub negate : ℕ → ℕ
negate x = if sign_bit x == 1 then x - 2 ^ 63 else x + 2 ^ 63

-- `_is_number`
unfoldable pub is_number : Value → Bool
is_number (Value.int n) = true
is_number (Value.float x) = true
is_number _ = false

abbrev pub finite_float : ℕ → Option ℕ
finite_float x = if is_finite x then some x else none

-- `_number`; none is a ConstraintEvaluationError
unfoldable pub number : Value → Option ℕ
unfolding float_of_int is_finite
number (Value.int n) = elim (float_of_int n) [ none ↦ none | some x ↦ finite_float x ]
number (Value.float x) = finite_float x
number _ = none

-- `format(Decimal(token), "f")` where the point stands after `place` of the digits
abbrev fixed_places : Text → ℤ → Text
fixed_places digits (negsuc n) = codes "0." ++ (replicate (n + 1) b'0' ++ digits)
fixed_places digits (pos n) =
    let whole = if n == 0 then codes "0" else take n digits ++ replicate (n - length digits) b'0' in
    if leb (length digits) n then whole else whole ++ (b'.' ∷ drop n digits)

-- `format(Decimal(token), "f")` of the `repr` of a float that is neither zero nor negative
unfoldable pub format_fixed : Text → Text
unfolding partition lstrip exponent_of ◌+ℤ◌
format_fixed token =
    let halves = partition b'e' token in
    let parts = partition b'.' halves.0 in
    let digits = lstrip (parts.0 ++ parts.1) in
    let scale = exponent_of halves.1 +ℤ sub_ℕ 0 (length parts.1) in
    fixed_places digits (pos (length digits) +ℤ scale)

-- `fixed.rstrip(".")`
abbrev unless_points : ℕ → Text → Text
unless_points c [] = if c == b'.' then [] else c ∷ []
unless_points c (d ∷ s) = c ∷ d ∷ s

rstrip_points : Text → Text
rstrip_points [] = []
rstrip_points (c ∷ s) = unless_points c (rstrip_points s)

contains : ℕ → Text → Bool
contains c [] = false
contains c (d ∷ s) = c == d || contains c s

unfoldable pub trim_fixed : Text → Text
unfolding contains rstrip_points rstrip
trim_fixed fixed = if contains b'.' fixed then rstrip_points (rstrip fixed) else fixed

-- `exponent.lstrip("0") or "0"`
abbrev or_zero : Text → Text
or_zero [] = codes "0"
or_zero (c ∷ s) = c ∷ s

abbrev signed_exponent : Text → Text
signed_exponent [] = codes "+0"
signed_exponent (c ∷ s) =
    if c == b'-'
    then b'-' ∷ or_zero (lstrip s)
    else b'+' ∷ or_zero (lstrip (if c == b'+' then s else c ∷ s))

unfoldable pub exponent_form : Text → Text
unfolding contains partition lstrip
exponent_form token =
    let halves = partition b'e' (if contains b'e' token then token else token ++ codes "e+0") in
    halves.0 ++ (b'e' ∷ signed_exponent halves.1)

-- the sign of a token, kept in front of what becomes of the rest
abbrev keep_sign : (Text → Text) → Text → Text
keep_sign f [] = f []
keep_sign f (c ∷ s) = if c == b'-' then b'-' ∷ f s else f (c ∷ s)

-- Is 1e-6 <= abs(x) < 1e21?
abbrev is_fixed : ℕ → Bool
is_fixed x = leb 0x3EB0C6F7A0B5ED8D (x % 2 ^ 63) && ltb (x % 2 ^ 63) 0x444B1AE4D6E2EF50

-- The limit of `int(text)` on the digits that it reads, beyond which it raises a ValueError.
abbrev pub maximum_digits : ℕ
maximum_digits = 4300

all_digits : Text → Bool
all_digits [] = true
all_digits (c ∷ s) = is_digit c && all_digits s

-- `integer if integer < 2**32 - 1 else None`
abbrev below_limit : ℕ → Option ℕ
below_limit n = if ltb n (2 ^ 32 - 1) then some n else none

abbrev text_index : Text → Result (Option ℕ)
text_index [] = ok none
text_index (c ∷ s) =
    if c == b'0' && length s == 0
    then ok (some 0)
    else if c == b'0' || not (all_digits (c ∷ s))
    then ok none
    else if ltb maximum_digits (length (c ∷ s))
    then fail Failure.value_error
    else ok (below_limit (read_digits 0 (c ∷ s)).0)

abbrev pub index_below : Option ℕ → Option ℕ
index_below none = none
index_below (some n) = below_limit n

abbrev pub float_index : Option ℕ → Option ℕ
float_index none = none
float_index (some x) = index_below (natural_of_float x)

-- `_array_index`
unfoldable pub array_index : Value → Result (Option ℕ)
unfolding all_digits read_digits number natural_of_float
array_index (Value.string s) = text_index s
array_index v = ok (float_index (number v))

module _ (repr : ℕ → Text) where
  -- `_js_number_string` of a finite float
  unfoldable pub js_number_string : ℕ → Text
  unfolding is_zero format_fixed trim_fixed exponent_form
  js_number_string x =
      if is_zero x
      then codes "0"
      else if is_fixed x
      then keep_sign (λ token. trim_fixed (format_fixed token)) (repr x)
      else keep_sign exponent_form (repr x)
