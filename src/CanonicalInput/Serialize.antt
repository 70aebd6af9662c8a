-- ===== src/CanonicalInput/Serialize.antt =====
-- `serialize_canonical_inputs` of canonical_input.py, in both versions.
use semant_script.Prelude.{
  ℕ, zero, suc, Bool, true, false, ◌&&◌, List, ◌∷◌, Option, none, some, ltb, ◌==◌, ◌||◌,
  if◌then◌else◌, length, [],
}
use semant_script.Python.Text.{Text, codes, text_eq}
use semant_script.Python.Utf8.{Bytes, utf8}
use semant_script.Python.Float.{pos}
use semant_script.Python.Values.{Value, Object, Heap}
use semant_script.CanonicalInput.Errors.{Result, ok, fail, bind, Failure, Reason}
use semant_script.CanonicalInput.Tree.{ExactJson}
use semant_script.CanonicalInput.Schema.{maximum_safe_integer}
use semant_script.CanonicalInput.Encode.{encode_envelope}
use semant_script.CanonicalInput.Writer.{write_exact_json, over_limit}
use semant_script.CanonicalInput.Compact.{write_compact}

pub data Version : Type 0 where
  v1 v2 : Version

-- `canonical_input_version`
unfoldable pub canonical_input_version : Value → Option Version
unfolding text_eq
canonical_input_version (Value.string s) =
    if text_eq s (codes "semantscript.canonical-input/v1")
    then some Version.v1
    else if text_eq s (codes "semantscript.canonical-input/v2")
    then some Version.v2
    else none
canonical_input_version _ = none

abbrev known_version : Bool → Bool → Result Version
known_version one two =
    if one then ok Version.v1 else if two then ok Version.v2 else fail Failure.value_error

-- Has the value a hash? A list or a dict has none, and a tuple has one if all its items have. A nesting
-- of tuples that the levels do not reach is taken to have none; both are errors of the version.
unfoldable all_of : (Value → Bool) → List Value → Bool
all_of test [] = true
all_of test (v ∷ vs) = test v && all_of test vs

unfoldable pub is_hashable : ℕ → Heap → Value → Bool
unfolding all_of
is_hashable zero h v = false
is_hashable (suc levels) h (Value.ref a) = elim (h a) [
  | Object.tuple xs ↦ all_of (is_hashable levels h) xs
  | _ ↦ false
]
is_hashable (suc levels) h _ = true

abbrev hash_levels : ℕ
hash_levels = 1000

-- `_validate_version`, with the version that `version == 1` then tells. The floats 1.0 and 2.0 are
-- equal to keys of the table; a value without a hash is a TypeError.
unfoldable pub validate_version : Heap → Value → Result Version
unfolding is_hashable
validate_version h (Value.int (pos n)) = known_version (n == 1) (n == 2)
validate_version h (Value.float bits) =
    known_version (bits == 0x3FF0000000000000) (bits == 0x4000000000000000)
validate_version h v =
    fail (if is_hashable hash_levels h v then Failure.value_error else Failure.type_error)

-- the check of `maximum_bytes`: None, or a positive safe integer
unfoldable pub validate_maximum : Value → Result (Option ℕ)
validate_maximum Value.null = ok none
validate_maximum (Value.int (pos n)) =
    if ltb n 1 || ltb maximum_safe_integer n then fail Failure.value_error else ok (some n)
validate_maximum _ = fail Failure.value_error

unfoldable pub write_version : (ℕ → Text) → Version → Option ℕ → ExactJson → Result Bytes
unfolding write_exact_json write_compact utf8
write_version repr Version.v1 maximum envelope = write_exact_json maximum envelope []
write_version repr Version.v2 maximum envelope = bind (write_compact repr envelope) λ text.
    if over_limit maximum (length (utf8 text))
    then fail (Failure.canonical Reason.limit [])
    else ok (utf8 text)

-- `serialize_canonical_inputs`
unfoldable pub serialize_canonical_inputs :
    Heap → (ℕ → Text) → Value → Value → Value → Value → Result Bytes
unfolding encode_envelope write_version validate_version validate_maximum
serialize_canonical_inputs h repr schema inputs version maximum_bytes =
    bind (validate_maximum maximum_bytes) λ maximum.
      bind (validate_version h version) λ v.
        bind (encode_envelope h schema inputs) λ envelope. write_version repr v maximum envelope
