-- ===== src/CanonicalInput/Tests.antt =====
-- Runs of canonical_input.py's model on small heaps, and the theorems at concrete inputs.
use semant_script.Prelude.{
  ℕ, ◌≡◌, ◌==◌, refl, true, false, List, [], ◌∷◌, Option, some, if◌then◌else◌, String,
}
use semant_script.Python.Text.{Text, codes, has_surrogate}
use semant_script.Python.Utf8.{Bytes}
use semant_script.Python.Float.{pos}
use semant_script.Python.Values.{Value, Object, Heap}
use semant_script.CanonicalInput.Errors.{ok, fail, Failure, Reason, Segment}
use semant_script.CanonicalInput.Encode.{encode_envelope, encode_value}
use semant_script.CanonicalInput.Serialize.{Version, validate_version, serialize_canonical_inputs}
use semant_script.CanonicalInput.Exec.{all_levels, fresh, maximum_input_nodes}
use semant_script.CanonicalInput.Tree.{ExactJson, array, tag, natural, arrays}
use semant_script.CanonicalInput.Errors.{Yields}
use semant_script.CanonicalInput.Injective.{serialize_v1_lem, serialize-injective}
use semant_script.CanonicalInput.WriterText.{write_exact_json_lem}
use semant_script.CanonicalInput.Writer.{write_exact_json, over_limit}
use semant_script.CanonicalInput.JsonText.{json_text, json_string, is_writable}
use semant_script.CanonicalInput.Budget.{active-encode_value, arrays-encode_envelope}
use semant_script.CanonicalInput.Matches.{Matches, Envelope}
use semant_script.CanonicalInput.Matches.Sound.{encode_value-Matches, encode_envelope-Envelope}
use semant_script.CanonicalInput.Written.{IsText, serialize-Envelope}
use semant_script.CanonicalInput.Numbers.{number_hex, hex_to_double}
use semant_script.Prelude.{arith}
use semant_script.CanonicalInput.NumberText.{hex_to_double-number_hex}
use semant_script.Python.Float.{is_finite}
use semant_script.CanonicalInput.Order.{validate_and_order_schema_lem}
use semant_script.CanonicalInput.Schema.{Entry, schema_entries, validate_and_order_schema}
use semant_script.CanonicalInput.Compact.{continues_token, compact_string}
use semant_script.CanonicalInput.Serialize.{validate_maximum}
use semant_script.CanonicalInput.Tokens.Bare.{Bare, compact_string_lem}
use semant_script.CanonicalInput.Tokens.{compact_string-cancel}
use semant_script.Python.Values.{as_sequence}
use mathlib.Core.List.{Perm}
use semant_script.Prelude.{get_elem?, length, ◌+◌, ◌*◌, ◌≤◌, ◌⊎◌}
use semant_script.Python.Utf8.{utf8}

abbrev str : String → Value
str s = Value.string (codes s)

abbrev key : String → Value → Value × Value
key s v = (str s, v)

-- A schema of one input `id`, a number, and the record {"id": 5}. The list at 7 holds itself.
abbrev sample : Heap
sample a =
    if a == 0
    then Object.list (Value.ref 1 ∷ [])
    else if a == 1
    then Object.dict
        (key "name" (str "id") ∷ key "index" (Value.int (pos 0)) ∷ key "type" (Value.ref 2) ∷ [])
    else if a == 2
    then Object.dict (key "kind" (str "number") ∷ [])
    else if a == 3
    then Object.dict (key "id" (Value.int (pos 5)) ∷ [])
    else if a == 4
    then Object.list (Value.ref 5 ∷ [])
    else if a == 5
    then Object.dict
        (key "name" (str "xs") ∷ key "index" (Value.int (pos 0)) ∷ key "type" (Value.ref 6) ∷ [])
    else if a == 6
    then Object.dict (key "kind" (str "array") ∷ key "items" (Value.ref 8) ∷ [])
    else if a == 7
    then Object.list (Value.ref 7 ∷ [])
    else if a == 8
    then Object.dict (key "kind" (str "array") ∷ key "items" (Value.ref 2) ∷ [])
    else Object.dict (key "xs" (Value.ref 7) ∷ [])

abbrev no_repr : ℕ → Text
no_repr _ = codes "5.0"

abbrev v1_text : Bytes
v1_text = codes "[\"semantscript-input\",1,[[\"id\",[\"number\",\"4014000000000000\"]]]]"

serializes_v1 :
    serialize_canonical_inputs sample no_repr
      (Value.ref 0)
      (Value.ref 3)
      (Value.int (pos 1))
      Value.null
    ≡ ok v1_text
unfolding serialize_canonical_inputs
serializes_v1 = refl

serializes_v2 :
    serialize_canonical_inputs sample no_repr
      (Value.ref 0)
      (Value.ref 3)
      (Value.int (pos 2))
      Value.null
    ≡ ok (codes "id=5")
unfolding serialize_canonical_inputs
serializes_v2 = refl

cycle_found :
    serialize_canonical_inputs sample no_repr
      (Value.ref 4)
      (Value.ref 9)
      (Value.int (pos 1))
      Value.null
    ≡ fail (Failure.canonical Reason.cycle (Segment.name (codes "xs") ∷ Segment.index 0 ∷ []))
unfolding serialize_canonical_inputs
cycle_found = refl

abbrev id_tree : ExactJson
id_tree = array (
    tag "semantscript-input"
    ∷ natural 1
    ∷ array (array (tag "id" ∷ array (tag "number" ∷ tag "4014000000000000" ∷ []) ∷ []) ∷ [])
    ∷ [])

serialize_v1_example :
    (max : Option ℕ) × (t : ExactJson) × (validate_maximum Value.null ≡ ok max)
    × (encode_envelope sample (Value.ref 0) (Value.ref 3) ≡ ok t)
    × (is_writable t ≡ true)
    × (v1_text ≡ utf8 (json_text t))
    × (over_limit max (length v1_text) ≡ false)
serialize_v1_example =
    serialize_v1_lem sample no_repr (Value.ref 0) (Value.ref 3) Value.null v1_text serializes_v1

serialize-injective_example :
    (t : ExactJson) × (encode_envelope sample (Value.ref 0) (Value.ref 3) ≡ ok t)
    × (encode_envelope sample (Value.ref 0) (Value.ref 3) ≡ ok t)
serialize-injective_example =
    serialize-injective sample sample no_repr no_repr (Value.ref 0) (Value.ref 3) Value.null
      (Value.ref 0) (Value.ref 3) Value.null v1_text serializes_v1 serializes_v1

writable : is_writable id_tree ≡ true
unfolding is_writable has_surrogate
writable = refl

write_exact_json_example : write_exact_json (some 10) id_tree [] ≡ (
    if over_limit (some 10) (length (utf8 (json_text id_tree)))
    then fail (Failure.canonical Reason.limit [])
    else ok (utf8 (json_text id_tree)))
write_exact_json_example = write_exact_json_lem (some 10) id_tree writable

active-encode_value_example :
    (encode_value sample all_levels 6 (Value.ref 7) [] fresh).1.active ≡ fresh.active
active-encode_value_example = active-encode_value sample all_levels 6 (Value.ref 7) [] fresh

arrays-encode_envelope_example :
    Yields
      (λ t. arrays t ≤ 3 * maximum_input_nodes + 2)
      (encode_envelope sample (Value.ref 0) (Value.ref 3))
arrays-encode_envelope_example = arrays-encode_envelope sample (Value.ref 0) (Value.ref 3)

abbrev id_entry : Entry
id_entry = record { name = codes "id"; index = 0; type_spec = 2 }

accepted : validate_and_order_schema sample (Value.ref 0) ≡ ok (id_entry ∷ [])
unfolding validate_and_order_schema
accepted = refl

validate_and_order_schema_example :
    (raw : List Value) × (entries : List Entry) × (as_sequence sample (Value.ref 0) ≡ some raw)
    × (schema_entries sample raw ≡ ok entries)
    × Perm (id_entry ∷ []) entries
    × ((i : ℕ) (e : Entry) → get_elem? (id_entry ∷ []) i ≡ some e → e.index ≡ i)
    × ((i j : ℕ) (d e : Entry)
        → get_elem? (id_entry ∷ []) i ≡ some d
        → get_elem? (id_entry ∷ []) j ≡ some e
        → d.name ≡ e.name
        → i ≡ j)
validate_and_order_schema_example =
    validate_and_order_schema_lem sample (Value.ref 0) (id_entry ∷ []) accepted

quotes_true : compact_string (codes "true") ≡ ok (codes "\"true\"")
unfolding compact_string
quotes_true = refl

compact_string_example :
    (Bare (codes "true") × (codes "\"true\"" ≡ codes "true"))
    ⊎ (¬ Bare (codes "true") × (codes "\"true\"" ≡ json_string (codes "true")))
compact_string_example = compact_string_lem (codes "true") (codes "\"true\"") quotes_true

compact_string-cancel_example : (codes "true" ≡ codes "true") × (codes "=1" ≡ codes "=1")
unfolding continues_token
compact_string-cancel_example =
    compact_string-cancel (codes "true") (codes "true") (codes "\"true\"") (codes "\"true\"")
      (codes "=1") (codes "=1") quotes_true quotes_true refl refl refl

abbrev five_tree : ExactJson
five_tree = array (tag "number" ∷ tag "4014000000000000" ∷ [])

encodes_five : (encode_value sample all_levels 2 (Value.int (pos 5)) [] fresh).0 ≡ ok five_tree
unfolding encode_value
encodes_five = refl

encode_value-Matches_example : Matches sample 2 (Value.int (pos 5)) five_tree
encode_value-Matches_example =
    encode_value-Matches sample all_levels 2 (Value.int (pos 5)) [] fresh five_tree encodes_five

encode_envelope-Envelope_example :
    Yields
      (Envelope sample (Value.ref 0) (Value.ref 3))
      (encode_envelope sample (Value.ref 0) (Value.ref 3))
encode_envelope-Envelope_example = encode_envelope-Envelope sample (Value.ref 0) (Value.ref 3)

serialize-Envelope_example :
    (t : ExactJson) × (v : Version) × (max : Option ℕ) × (text : Text) × Envelope sample
      (Value.ref 0)
      (Value.ref 3)
      t
    × (validate_version sample (Value.int (pos 2)) ≡ ok v)
    × (validate_maximum Value.null ≡ ok max)
    × IsText no_repr v t text
    × (codes "id=5" ≡ utf8 text)
    × (over_limit max 4 ≡ false)
serialize-Envelope_example =
    serialize-Envelope sample no_repr (Value.ref 0) (Value.ref 3) (Value.int (pos 2)) Value.null
      (codes "id=5") serializes_v2

negative_zero-finite : is_finite 0x8000000000000000 ≡ true
unfolding is_finite
negative_zero-finite = refl

hex_to_double-number_hex_example :
    (s : Text) × (number_hex (Value.float 0x8000000000000000) [] ≡ ok s)
    × (length s ≡ 16)
    × (hex_to_double s ≡ ok 0x8000000000000000)
hex_to_double-number_hex_example =
    hex_to_double-number_hex 0x8000000000000000 [] (omega arith) negative_zero-finite
