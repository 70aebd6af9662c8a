-- ===== src/CanonicalInput/Spec.antt =====
-- How canonical_input.py reads a schema, which is raw data: dicts on the heap, tested as they are
-- read. A type spec is the address of its dict.
use semant_script.Prelude.{ℕ, String, Bool, List, [], ◌∷◌, Option, none, some, if◌then◌else◌}
use semant_script.Python.Text.{Text, codes, text_mem}
use semant_script.Python.Values.{Value, Object, Heap, is_text, get, as_sequence, as_dict, identity}
use semant_script.CanonicalInput.Errors.{Result, ok, bind, Segment, schema_failure}
use semant_script.CanonicalInput.Numbers.{require_unicode}

infixl 5 ◌>>=◌
abbrev ◌>>=◌ : {A B : Type 0} → Result A → (A → Result B) → Result B
m >>= f = bind m f

-- `type_spec["kind"]`; `unsupported` is any other value, or none.
pub data Kind : Type 0 where
  null boolean string number literal enum array tuple object union unsupported : Kind

unfoldable pub kind_of : Option Value → Kind
unfolding is_text
kind_of none = Kind.unsupported
kind_of (some v) =
    if is_text (codes "null") v
    then Kind.null
    else if is_text (codes "boolean") v
    then Kind.boolean
    else if is_text (codes "string") v
    then Kind.string
    else if is_text (codes "number") v
    then Kind.number
    else if is_text (codes "literal") v
    then Kind.literal
    else if is_text (codes "enum") v
    then Kind.enum
    else if is_text (codes "array") v
    then Kind.array
    else if is_text (codes "tuple") v
    then Kind.tuple
    else if is_text (codes "object") v
    then Kind.object
    else if is_text (codes "union") v
    then Kind.union
    else Kind.unsupported

pub data Base : Type 0 where
  string number unsupported : Base

unfoldable pub base_of : Option Value → Base
unfolding is_text
base_of none = Base.unsupported
base_of (some v) =
    if is_text (codes "string") v
    then Base.string
    else if is_text (codes "number") v
    then Base.number
    else Base.unsupported

-- `_schema_string`
unfoldable pub schema_string : Option Value → Result Text
schema_string (some (Value.string s)) = ok s
schema_string _ = schema_failure

-- A field of an object spec: its name, whether it is optional, and its type.
pub record Field : Type 0 where
  pub name : Text
  pub optional : Bool
  pub type_spec : ℕ

abbrev pub names : List Field → List Text
names [] = []
names (f ∷ fs) = f.name ∷ names fs

module _ (h : Heap) where
  -- `type_spec.get(key)`
  unfoldable pub entry : ℕ → String → Option Value
  unfolding get
  entry spec key = elim (h spec) [ Object.dict es ↦ get (codes key) es | _ ↦ none ]

  -- `_schema_mapping`
  unfoldable pub schema_mapping : Option Value → Result ℕ
  unfolding as_dict identity
  schema_mapping none = schema_failure
  schema_mapping (some v) = elim (as_dict h v) [ none ↦ schema_failure | some es ↦ ok (identity v) ]

  -- `_schema_sequence`
  unfoldable pub schema_sequence : Option Value → Result (List Value)
  unfolding as_sequence
  schema_sequence none = schema_failure
  schema_sequence (some v) = elim (as_sequence h v) [ none ↦ schema_failure | some xs ↦ ok xs ]

  -- `type(optional) is bool`
  abbrev schema_boolean : Option Value → Result Bool
  schema_boolean (some (Value.boolean b)) = ok b
  schema_boolean _ = schema_failure

  abbrev refuse : Bool → Result (Unit {0})
  refuse b = if b then schema_failure else ok tt

  -- the loop of `_object_fields`, with the names that it has met
  field_loop : Text → List Text → List Value → Result (List Field)
  field_loop object_name seen [] = ok []
  field_loop object_name seen (raw ∷ rest) = do
    field ← schema_mapping (some raw)
    name ← schema_string (entry field "name")
    _ ← require_unicode name (
        Segment.name (codes "$schema")
        ∷ Segment.name object_name
        ∷ Segment.name (codes "field")
        ∷ [])
    _ ← refuse (text_mem name seen)
    optional ← schema_boolean (entry field "optional")
    type_spec ← schema_mapping (entry field "type")
    others ← field_loop object_name (name ∷ seen) rest
    ok (record { name = name; optional = optional; type_spec = type_spec } ∷ others)

  -- `_object_fields`
  unfoldable pub object_fields : ℕ → Text → Result (List Field)
  unfolding field_loop entry schema_mapping schema_sequence schema_string require_unicode text_mem
  object_fields spec object_name = do
    raw_fields ← schema_sequence (entry spec "fields")
    field_loop object_name [] raw_fields
