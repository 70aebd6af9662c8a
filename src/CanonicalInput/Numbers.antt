-- ===== src/CanonicalInput/Numbers.antt =====
-- The numbers of canonical_input.py, as 16 hexadecimal digits of binary64, and its primitives.
use semant_script.Prelude.{
  ℕ, Bool, true, false, [], ◌∷◌, Option, none, some, if◌then◌else◌, ◌==◌, length, not,
}
use semant_script.Python.Text.{Text, text_eq, has_surrogate}
use semant_script.Python.Digits.{hex, hex_value}
use semant_script.Python.Float.{is_finite, float_of_int}
use semant_script.Python.Values.{Value}
use semant_script.CanonicalInput.Errors.{
  Result, ok, fail, bind, Failure, Reason, InputPath, schema_path, schema_failure, expected_type,
}
use semant_script.CanonicalInput.Tree.{ExactJson, array, tag}

infixl 5 ◌>>=◌
abbrev ◌>>=◌ : {A B : Type 0} → Result A → (A → Result B) → Result B
m >>= f = bind m f

-- `_is_number`: a bool is none.
unfoldable pub is_number : Value → Bool
is_number (Value.int n) = true
is_number (Value.float bits) = true
is_number _ = false

-- What `_finite_float` raises for a number that no finite double stands for.
abbrev pub not_finite : {A : Type 0} → InputPath → Bool → Result A
not_finite path schema =
    if schema then schema_failure else fail (Failure.canonical Reason.non_finite path)

abbrev pub require_finite : InputPath → Bool → Option ℕ → Result ℕ
require_finite path schema none = not_finite path schema
require_finite path schema (some bits) = if is_finite bits then ok bits else not_finite path schema

-- `_finite_float`, the double by its bits
unfoldable pub finite_float : Value → InputPath → Bool → Result ℕ
unfolding is_finite float_of_int
finite_float (Value.int n) path schema = require_finite path schema (float_of_int n)
finite_float (Value.float bits) path schema = require_finite path schema (some bits)
finite_float _ path schema = if schema then schema_failure else expected_type path

-- `_number_hex`
unfoldable pub number_hex : Value → InputPath → Result Text
unfolding finite_float hex
number_hex v path = do bits ← finite_float v path false; ok (hex 16 bits)

-- `_hex_to_double`. Blanks among the 16 characters, which `bytes.fromhex` skips, leave too few
-- bytes for `struct.unpack`; its error is not told from the TypeError here.
unfoldable pub hex_to_double : Text → Result ℕ
unfolding hex_value
hex_to_double s =
    if not (length s == 16)
    then fail Failure.type_error
    else elim (hex_value 0 s) [ none ↦ fail Failure.type_error | some bits ↦ ok bits ]

-- `_require_unicode`
unfoldable pub require_unicode : Text → InputPath → Result (Unit {0})
unfolding has_surrogate
require_unicode s path =
    if has_surrogate s then fail (Failure.canonical Reason.invalid_unicode path) else ok tt

-- `_encode_number`
unfoldable pub encode_number : Value → InputPath → Result ExactJson
unfolding number_hex
encode_number v path = do s ← number_hex v path; ok (array (tag "number" ∷ ExactJson.string s ∷ []))

-- `_encode_primitive`
unfoldable pub encode_primitive : Value → InputPath → Result ExactJson
unfolding require_unicode encode_number
encode_primitive Value.null path = ok (array (tag "null" ∷ []))
encode_primitive (Value.boolean b) path = ok (array (tag "boolean" ∷ ExactJson.boolean b ∷ []))
encode_primitive (Value.string s) path = do
  _ ← require_unicode s path
  ok (array (tag "string" ∷ ExactJson.string s ∷ []))
encode_primitive (Value.int n) path = encode_number (Value.int n) path
encode_primitive (Value.float bits) path = encode_number (Value.float bits) path
encode_primitive _ path = expected_type path

abbrev pub bool_eq : Bool → Bool → Bool
bool_eq true b = b
bool_eq false b = not b

-- `type(value) is type(expected) and value == expected`, for a `value` that `_encode_primitive`
-- took and that is not compared with a number
unfoldable pub same_type_and_value : Value → Value → Bool
unfolding text_eq
same_type_and_value Value.null Value.null = true
same_type_and_value (Value.boolean a) (Value.boolean b) = bool_eq a b
same_type_and_value (Value.string s) (Value.string t) = text_eq s t
same_type_and_value _ _ = false

-- `_same_primitive`
unfoldable pub same_primitive : Value → Value → Result Bool
unfolding is_number number_hex same_type_and_value text_eq
same_primitive v expected =
    if is_number expected
    then (if is_number v
        then (do a ← number_hex v []; b ← number_hex expected schema_path; ok (text_eq a b))
        else ok false)
    else ok (same_type_and_value v expected)
