-- ===== src/CanonicalInput/Leaves.antt =====
-- The parts of `_encode_value` in canonical_input.py that do not descend: literals, enum members, the
-- tests on dicts and host objects.
use semant_script.Prelude.{ℕ, ◌+◌, List, [], ◌∷◌, ◌++◌, Option, none, some, if◌then◌else◌}
use semant_script.Python.Text.{Text, codes, text_eq, text_mem}
use semant_script.Python.Values.{Value, Heap, is_text, as_dict}
use semant_script.CanonicalInput.Errors.{
  Result, ok, fail, bind, Failure, Reason, Segment, InputPath, schema_failure, expected_type,
}
use semant_script.CanonicalInput.Tree.{ExactJson, array, tag, natural}
use semant_script.CanonicalInput.Numbers.{
  is_number, number_hex, encode_number, encode_primitive, same_primitive, require_unicode,
}
use semant_script.CanonicalInput.Spec.{Base, base_of, entry, schema_sequence, schema_string}

-- `_reject_host_object`
unfoldable pub reject_host_object : Value → InputPath → Result (Unit {0})
reject_host_object Value.host path = fail (Failure.canonical Reason.class_instance path)
reject_host_object _ path = ok tt

-- the position of the first candidate that is the text
unfoldable pub find_string : ℕ → Text → List Value → Option ℕ
unfolding is_text
find_string i s [] = none
find_string i s (v ∷ vs) = if is_text s v then some i else find_string (i + 1) s vs

-- the position of the first number among the candidates with these digits
unfoldable pub find_number : ℕ → Text → InputPath → List Value → Result (Option ℕ)
unfolding is_number number_hex text_eq
find_number i key path [] = ok none
find_number i key path (v ∷ vs) =
    let rest = find_number (i + 1) key path vs in
    if is_number v
    then bind (number_hex v path) (λ digits. if text_eq digits key then ok (some i) else rest)
    else rest

-- A dict's key and value: a value is looked up by a name, and the other keys are refused.
unfoldable pub check_keys : List Text → InputPath → List (Value × Value) → Result (Unit {0})
unfolding require_unicode text_mem
check_keys known path [] = ok tt
check_keys known path ((Value.string key, _) ∷ rest) =
    bind (require_unicode key (path ++ Segment.name key ∷ [])) λ _.
      if text_mem key known
      then check_keys known path rest
      else fail (Failure.canonical Reason.extra (path ++ Segment.name key ∷ []))
check_keys known path (_ ∷ rest) = fail (Failure.canonical Reason.type path)

-- the branches of `_encode_value` for null, booleans and strings
unfoldable pub encode_null : Value → InputPath → Result ExactJson
encode_null Value.null path = ok (array (tag "null" ∷ []))
encode_null _ path = expected_type path

unfoldable pub encode_boolean : Value → InputPath → Result ExactJson
encode_boolean (Value.boolean b) path = ok (array (tag "boolean" ∷ ExactJson.boolean b ∷ []))
encode_boolean _ path = expected_type path

unfoldable pub encode_string : Value → InputPath → Result ExactJson
unfolding require_unicode
encode_string (Value.string s) path =
    bind (require_unicode s path) λ _. ok (array (tag "string" ∷ ExactJson.string s ∷ []))
encode_string _ path = expected_type path

unfoldable pub match_literal : Option Value → Value → InputPath → Result ExactJson
unfolding encode_primitive same_primitive
match_literal none v path = schema_failure
match_literal (some expected) v path = bind (encode_primitive v path) λ encoded.
    bind (same_primitive v expected) λ same.
      if same
      then ok (array (tag "literal" ∷ encoded ∷ []))
      else fail (Failure.canonical Reason.value path)

abbrev pub enum_result : Text → ExactJson → InputPath → Option ℕ → Result ExactJson
enum_result name encoded path none = fail (Failure.canonical Reason.value path)
enum_result name encoded path (some i) =
    ok (array (tag "enum" ∷ ExactJson.string name ∷ natural i ∷ encoded ∷ []))

unfoldable pub encode_member : Text → Base → List Value → Value → InputPath → Result ExactJson
unfolding find_string find_number encode_number number_hex require_unicode
encode_member name Base.string values (Value.string s) path = bind (require_unicode s path) λ _.
    enum_result name (array (tag "string" ∷ ExactJson.string s ∷ [])) path (find_string 0 s values)
encode_member name Base.string values _ path = expected_type path
encode_member name Base.number values v path = bind (encode_number v path) λ encoded.
    bind (number_hex v path) λ key.
      bind (find_number 0 key (Segment.name (codes "$schema") ∷ Segment.name name ∷ []) values)
        λ found. enum_result name encoded path found
encode_member name Base.unsupported values v path = schema_failure

module _ (h : Heap) where
  -- the literal's branch of `_encode_value`
  unfoldable pub encode_literal : ℕ → Value → InputPath → Result ExactJson
  unfolding match_literal entry
  encode_literal spec v path = match_literal (entry h spec "value") v path

  -- `_encode_enum`
  unfoldable pub encode_enum : ℕ → Value → InputPath → Result ExactJson
  unfolding encode_member entry schema_string schema_sequence base_of
  encode_enum spec v path = bind (schema_string (entry h spec "name")) λ name.
      bind (schema_sequence h (entry h spec "values"))
        λ values. encode_member name (base_of (entry h spec "base")) values v path

  -- `_plain_object`
  unfoldable pub plain_object : Value → InputPath → Result (List (Value × Value))
  unfolding reject_host_object as_dict
  plain_object v path =
      bind (reject_host_object v path)
        λ _. elim (as_dict h v) [ none ↦ expected_type path | some es ↦ ok es ]
