-- ===== src/CanonicalInput/Small.antt =====
-- How many arrays the parts of `_encode_value` in canonical_input.py make that do not descend.
use semant_script.Prelude.{ℕ, ◌≤◌, List, [], ◌∷◌, arith, subst, Option, none, some}
use semant_script.Python.Text.{Text}
use semant_script.Python.Values.{Value, Heap}
use semant_script.CanonicalInput.Errors.{Result, InputPath, Yields, Yields-bind}
use semant_script.CanonicalInput.Tree.{ExactJson, array, tag, arrays}
use semant_script.CanonicalInput.Numbers.{
  encode_number, encode_primitive, number_hex, require_unicode, same_primitive,
}
use semant_script.CanonicalInput.Spec.{Base, base_of, entry, schema_sequence, schema_string}
use semant_script.CanonicalInput.Leaves.{
  encode_null, encode_boolean, encode_string, encode_enum, encode_member, match_literal,
  enum_result, find_string, find_number,
}

encode_number-arrays :
    (v : Value) (path : InputPath) → Yields (λ t. arrays t ≤ 1) (encode_number v path)
unfolding encode_number arrays
encode_number-arrays v path = ground arith

encode_primitive-arrays :
    (v : Value) (path : InputPath) → Yields (λ t. arrays t ≤ 1) (encode_primitive v path)
unfolding encode_primitive arrays
encode_primitive-arrays (Value.int n) path = encode_number-arrays (Value.int n) path
encode_primitive-arrays (Value.float b) path = encode_number-arrays (Value.float b) path
encode_primitive-arrays v path = ground arith

abbrev pub Small : Result ExactJson → Type 0
Small = Yields (λ t. arrays t ≤ 2)

pub encode_null-Small : (v : Value) (path : InputPath) → Small (encode_null v path)
unfolding encode_null arrays
encode_null-Small v path = ground arith

pub encode_boolean-Small : (v : Value) (path : InputPath) → Small (encode_boolean v path)
unfolding encode_boolean arrays
encode_boolean-Small v path = ground arith

pub encode_string-Small : (v : Value) (path : InputPath) → Small (encode_string v path)
unfolding encode_string arrays
encode_string-Small (Value.string s) path =
    Yields-bind _ (require_unicode s path) _ (λ _ _. omega arith)
encode_string-Small v path = ground arith

pub encode_number-Small : (v : Value) (path : InputPath) → Small (encode_number v path)
unfolding encode_number arrays
encode_number-Small v path = ground arith

pub match_literal-Small :
    (found : Option Value) (v : Value) (path : InputPath) → Small (match_literal found v path)
unfolding match_literal arrays
match_literal-Small none v path = tt
match_literal-Small (some expected) v path = Yields-bind _ (encode_primitive v path) _ λ t e.
    Yields-bind _ (same_primitive v expected) _ λ same _.
      ground (arith, subst (Yields (λ t. arrays t ≤ 1)) e (encode_primitive-arrays v path))

enum_result-Small :
    (name : Text) (t : ExactJson) (path : InputPath) (found : Option ℕ)
    → arrays t ≤ 1
    → Small (enum_result name t path found)
unfolding arrays
enum_result-Small name t path none le = tt
enum_result-Small name t path (some i) le = omega arith

pub encode_member-Small :
    (name : Text) (base : Base) (values : List Value) (v : Value) (path : InputPath)
    → Small (encode_member name base values v path)
unfolding encode_member
encode_member-Small name Base.string values (Value.string s) path =
    Yields-bind _ (require_unicode s path) _ λ _ _.
      enum_result-Small name (array (tag "string" ∷ ExactJson.string s ∷ [])) path
        (find_string 0 s values) (unfold arrays in omega arith)
encode_member-Small name Base.string values v path = tt
encode_member-Small name Base.number values v path = Yields-bind _ (encode_number v path) _ λ t e.
    Yields-bind _ (number_hex v path) _ λ key _.
      Yields-bind _ (find_number 0 key _ values) _ λ found _.
        enum_result-Small name t path found
          (subst (Yields (λ t. arrays t ≤ 1)) e (encode_number-arrays v path))
encode_member-Small name Base.unsupported values v path = tt

module _ (h : Heap) where
  pub encode_enum-Small :
      (spec : ℕ) (v : Value) (path : InputPath) → Small (encode_enum h spec v path)
  unfolding encode_enum
  encode_enum-Small spec v path = Yields-bind _ (schema_string (entry h spec "name")) _ λ name _.
      Yields-bind _ (schema_sequence h (entry h spec "values")) _
        λ values _. encode_member-Small name (base_of (entry h spec "base")) values v path
