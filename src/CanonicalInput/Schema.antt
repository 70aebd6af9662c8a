-- ===== src/CanonicalInput/Schema.antt =====
-- `_validate_and_order_schema` of canonical_input.py: the checks on a schema before any input is
-- read, and the structural keys by which it finds duplicate variants and enum values.
use semant_script.Prelude.{
  ℕ, zero, suc, ◌+◌, Bool, not, ◌||◌, List, [], ◌∷◌, Option, none, some, if◌then◌else◌, ltb, leb,
  ◌==◌, length,
}
use semant_script.Prelude.Sort.{sort}
use semant_script.Python.Text.{Text, codes, text_mem}
use semant_script.Python.Float.{pos, natural_of_float}
use semant_script.Python.Values.{Value, Heap, as_sequence}
use semant_script.CanonicalInput.Errors.{
  Result, ok, bind, Failure, Reason, Segment, schema_path, schema_failure,
}
use semant_script.CanonicalInput.Exec.{
  all_levels, raise, Exec, fresh, pure, lift, ◌>>=◌, ◌>>◌, consume_work, with_active,
}
use semant_script.CanonicalInput.Numbers.{require_unicode}
use semant_script.CanonicalInput.Keys.{
  Key, FieldKeys, PrimitiveKey-discrete, Key-discrete, has_duplicate, refuse, primitive_schema_key,
  enum_keys, is_empty, keys_of,
}
use semant_script.CanonicalInput.Spec.{
  Kind, kind_of, base_of, Field, entry, schema_mapping, schema_sequence, schema_string,
  object_fields,
}

abbrev pub maximum_safe_integer : ℕ
maximum_safe_integer = 9007199254740991

-- One entry of the input schema.
pub record Entry : Type 0 where
  pub name : Text
  pub index : ℕ
  pub type_spec : ℕ

unfoldable pub index_le : Entry → Entry → Bool
index_le a b = leb a.index b.index

-- The input index: an int, or a float that is one, from 0 to the safe maximum.
unfoldable pub schema_index : Option Value → Result ℕ
unfolding natural_of_float
schema_index (some (Value.int (pos n))) =
    if ltb maximum_safe_integer n then schema_failure else ok n
schema_index (some (Value.float bits)) = elim (natural_of_float bits) [
  | none ↦ schema_failure
  | some n ↦ if ltb maximum_safe_integer n then schema_failure else ok n
]
schema_index _ = schema_failure

-- an entry's index and name, after the names of the entries before it
unfoldable pub check_entry : ℕ → List Text → Entry → Result (Unit {0})
unfolding require_unicode text_mem
check_entry expected seen e = bind (refuse (not (e.index == expected))) λ _.
    bind
      (require_unicode e.name (
        Segment.name (codes "$schema") ∷ Segment.index expected ∷ Segment.name (codes "name") ∷ []))
      λ _. refuse (text_mem e.name seen)

module _ (h : Heap) where
  -- `_validate_input_type` calls itself through `rec`, one level down.
  validate_each : (ℕ → Exec Key) → List Value → Exec (List Key)
  validate_each rec [] = pure []
  validate_each rec (raw ∷ rest) = do
    spec ← lift (schema_mapping h (some raw))
    key ← rec spec
    keys ← validate_each rec rest
    pure (key ∷ keys)

  validate_fields : (ℕ → Exec Key) → List Field → Exec FieldKeys
  validate_fields rec [] = pure FieldKeys.end
  validate_fields rec (f ∷ fs) = do
    key ← rec f.type_spec
    keys ← validate_fields rec fs
    pure (FieldKeys.field f.name f.optional key keys)

  validate_literal : ℕ → Result Key
  validate_literal spec = elim (entry h spec "value") [
    | none ↦ schema_failure
    | some v ↦ bind (primitive_schema_key v) (λ key. ok (Key.literal key))
  ]

  validate_enum : ℕ → Result Key
  validate_enum spec = bind (schema_string (entry h spec "name")) λ name.
      bind (schema_sequence h (entry h spec "values")) λ values.
        bind
          (require_unicode name (
            Segment.name (codes "$schema")
            ∷ Segment.name (codes "enum")
            ∷ Segment.name (codes "name")
            ∷ []))
          λ _. bind (refuse (is_empty name || is_empty values)) λ _.
            bind (enum_keys name (base_of (entry h spec "base")) values) λ keys.
              bind (refuse (has_duplicate PrimitiveKey-discrete keys))
                λ _. ok (Key.enum name (base_of (entry h spec "base")) keys)

  validate_object : (ℕ → Exec Key) → ℕ → Exec Key
  validate_object rec spec = do
    name ← lift (schema_string (entry h spec "name"))
    _ ← lift (
        require_unicode name (
          Segment.name (codes "$schema")
          ∷ Segment.name (codes "object")
          ∷ Segment.name (codes "name")
          ∷ []))
    fields ← lift (object_fields h spec name)
    keys ← validate_fields rec fields
    pure (Key.object name keys)

  -- the body of `_validate_input_type` by the kind
  validate_kind : (ℕ → Exec Key) → Kind → ℕ → Exec Key
  validate_kind rec Kind.literal spec = lift (validate_literal spec)
  validate_kind rec Kind.enum spec = lift (validate_enum spec)
  validate_kind rec Kind.array spec = do
    item ← lift (schema_mapping h (entry h spec "items"))
    key ← rec item
    pure (Key.array key)
  validate_kind rec Kind.tuple spec = do
    items ← lift (schema_sequence h (entry h spec "items"))
    keys ← validate_each rec items
    pure (Key.tuple (keys_of keys))
  validate_kind rec Kind.object spec = validate_object rec spec
  validate_kind rec Kind.union spec = do
    variants ← lift (schema_sequence h (entry h spec "variants"))
    _ ← lift (refuse (ltb (length variants) 2))
    keys ← validate_each rec variants
    _ ← lift (refuse (has_duplicate Key-discrete keys))
    pure (Key.union (keys_of keys))
  validate_kind rec Kind.unsupported spec = lift schema_failure
  validate_kind rec kind spec = pure (Key.simple kind)

  -- `_validate_input_type`, with the levels that are left in place of the depth
  unfoldable pub validate_input_type : ℕ → ℕ → Exec Key
  unfolding validate_kind validate_each validate_fields validate_literal validate_enum
      validate_object entry schema_mapping schema_sequence schema_string object_fields kind_of
      base_of enum_keys has_duplicate consume_work with_active ◌>>=◌
  validate_input_type zero spec = raise Reason.limit schema_path
  validate_input_type (suc levels) spec = do
    consume_work schema_path
    with_active spec (Failure.canonical Reason.schema schema_path)
        (validate_kind (validate_input_type levels) (kind_of (entry h spec "kind")) spec)

  -- the first loop of `_validate_and_order_schema`
  unfoldable pub schema_entries : List Value → Result (List Entry)
  unfolding entry schema_mapping schema_string schema_index
  schema_entries [] = ok []
  schema_entries (raw ∷ rest) = bind (schema_mapping h (some raw)) λ e.
      bind (schema_string (entry h e "name")) λ name.
        bind (schema_index (entry h e "index")) λ index.
          bind (schema_mapping h (entry h e "type")) λ type_spec.
            bind (schema_entries rest)
              λ entries. ok (record { name = name; index = index; type_spec = type_spec } ∷ entries)

  -- the second loop; each type is validated with an active set of its own and the common budget
  unfoldable pub validate_ordered : ℕ → List Text → List Entry → Exec (Unit {0})
  unfolding validate_input_type check_entry ◌>>=◌
  validate_ordered expected seen [] = pure tt
  validate_ordered expected seen (e ∷ es) = do
    _ ← lift (check_entry expected seen e)
    _ ← (λ c. validate_input_type all_levels e.type_spec (record c { active = [] }))
    validate_ordered (expected + 1) (e.name ∷ seen) es

  -- `_validate_and_order_schema`
  unfoldable pub validate_and_order_schema : Value → Result (List Entry)
  unfolding schema_entries validate_ordered sort index_le as_sequence
  validate_and_order_schema schema = elim (as_sequence h schema) [
    | none ↦ schema_failure
    | some raw ↦ bind (schema_entries raw) λ entries.
        let ordered = sort index_le entries in
        bind (validate_ordered 0 [] ordered fresh).0 λ _. ok ordered
  ]
