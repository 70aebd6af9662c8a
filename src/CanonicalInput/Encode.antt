-- ===== src/CanonicalInput/Encode.antt =====
-- `_encode_envelope` and `_encode_value` of canonical_input.py: an input record, checked against
-- its schema, becomes a typed tree.
use semant_script.Prelude.{
  ℕ, zero, suc, ◌+◌, Bool, true, false, List, [], ◌∷◌, ◌++◌, map, Option, none, some, ltb, ◌==◌,
  length, if◌then◌else◌,
}
use semant_script.Prelude.Sort.{sort}
use semant_script.Python.Text.{Text}
use semant_script.Python.Utf8.{Bytes, utf8}
use semant_script.Python.Values.{Value, Heap, get, as_list, identity}
use semant_script.CanonicalInput.Errors.{
  Result, ok, fail, bind, is_fatal, Failure, Reason, Segment, InputPath, schema_failure,
  expected_type,
}
use semant_script.CanonicalInput.Exec.{
  Exec, Context, fresh, pure, lift, raise, ◌>>=◌, ◌>>◌, consume_work, with_active,
  maximum_input_nodes, all_levels,
}
use semant_script.CanonicalInput.Tree.{ExactJson, Items, array, tag, natural}
use semant_script.CanonicalInput.Numbers.{encode_number}
use semant_script.CanonicalInput.Spec.{
  Kind, kind_of, Field, names, entry, schema_mapping, schema_sequence, schema_string, object_fields,
}
use semant_script.CanonicalInput.Leaves.{
  reject_host_object, check_keys, encode_null, encode_boolean, encode_string, encode_literal,
  encode_enum, plain_object,
}
use semant_script.CanonicalInput.Schema.{Entry, validate_and_order_schema}

-- `_encode_value` calls itself on a spec, a value and a path, one level down.
abbrev pub Encoder : Type 0
Encoder = ℕ → Value → InputPath → Exec ExactJson

-- the order of byte strings
unfoldable pub bytes_le : Bytes → Bytes → Bool
bytes_le [] _ = true
bytes_le (a ∷ s) [] = false
bytes_le (a ∷ s) (b ∷ t) = if ltb a b then true else if ltb b a then false else bytes_le s t

-- `pairs.sort(key=lambda pair: pair[0].encode("utf-8"))`
unfoldable pub name_le : Text × ExactJson → Text × ExactJson → Bool
unfolding bytes_le utf8
name_le a b = bytes_le (utf8 a.0) (utf8 b.0)

abbrev pub pair : Text × ExactJson → ExactJson
pair (name, encoded) = array (ExactJson.string name ∷ encoded ∷ [])

-- `except CanonicalInputError`: an error that is not fatal goes to the next variant.
unfoldable pub or_else : Exec ExactJson → Result ExactJson → Context → Result ExactJson × Context
unfolding is_fatal
or_else next (ok e) c = (ok e, c)
or_else next (fail (Failure.canonical reason path)) c =
    if is_fatal reason then (fail (Failure.canonical reason path), c) else next c
or_else next (fail e) c = (fail e, c)

-- `len(value) > context.budget.remaining`
unfoldable pub check_room : ℕ → InputPath → Exec (Unit {0})
check_room n path c =
    if ltb maximum_input_nodes (c.used + n) then raise Reason.limit path c else pure tt c

module _ (h : Heap) where
  -- the items of an array from `index`, each with its path
  unfoldable pub encode_items : Encoder → ℕ → InputPath → ℕ → List Value → Exec Items
  encode_items rec spec path index [] = pure Items.nil
  encode_items rec spec path index (v ∷ vs) = do
    encoded ← rec spec v (path ++ Segment.index index ∷ [])
    rest ← encode_items rec spec path (index + 1) vs
    pure (Items.cons encoded rest)

  abbrev pub sequence : Option (List Value) → InputPath → Result (List Value)
  sequence none path = expected_type path
  sequence (some xs) path = ok xs

  -- `_encode_array`
  unfoldable pub encode_array : Encoder → ℕ → Value → InputPath → Exec ExactJson
  unfolding encode_items as_list identity entry schema_mapping check_room
  encode_array rec spec v path = do
    values ← lift (sequence (as_list h v) path)
    check_room (length values) path
    item ← lift (schema_mapping h (entry h spec "items"))
    with_active (identity v) (Failure.canonical Reason.cycle path) (do
      encoded ← encode_items rec item path 0 values
      pure (array (tag "array" ∷ ExactJson.list encoded ∷ [])))

  unfoldable pub encode_elements : Encoder → InputPath → ℕ → List Value → List Value → Exec Items
  unfolding schema_mapping
  encode_elements rec path index (raw ∷ specs) (v ∷ vs) = do
    spec ← lift (schema_mapping h (some raw))
    encoded ← rec spec v (path ++ Segment.index index ∷ [])
    rest ← encode_elements rec path (index + 1) specs vs
    pure (Items.cons encoded rest)
  encode_elements rec path index _ _ = pure Items.nil

  -- `_encode_tuple`
  unfoldable pub encode_tuple : Encoder → ℕ → Value → InputPath → Exec ExactJson
  unfolding encode_elements as_list identity entry schema_sequence
  encode_tuple rec spec v path = do
    values ← lift (sequence (as_list h v) path)
    specs ← lift (schema_sequence h (entry h spec "items"))
    _ ← (if length values == length specs then pure tt else raise Reason.tuple_length path)
    with_active (identity v) (Failure.canonical Reason.cycle path) (do
      encoded ← encode_elements rec path 0 specs values
      pure (array (tag "tuple" ∷ ExactJson.list encoded ∷ [])))

  -- one field of an object, and the rest of them
  unfoldable pub encode_field :
      Encoder
      → InputPath
      → Field
      → Option Value
      → Exec (List (Text × ExactJson))
      → Exec (List (Text × ExactJson))
  encode_field rec path f none others =
      if f.optional then others else raise Reason.missing (path ++ Segment.name f.name ∷ [])
  encode_field rec path f (some v) others = do
    encoded ← rec f.type_spec v (path ++ Segment.name f.name ∷ [])
    rest ← others
    pure ((f.name, encoded) ∷ rest)

  -- the loop of `_encode_object` over the fields of the spec, before the sort
  unfoldable pub encode_fields :
      Encoder → InputPath → List (Value × Value) → List Field → Exec (List (Text × ExactJson))
  unfolding encode_field get
  encode_fields rec path values [] = pure []
  encode_fields rec path values (f ∷ fs) =
      encode_field rec path f (get f.name values) (encode_fields rec path values fs)

  -- `_encode_object`
  unfoldable pub encode_object : Encoder → ℕ → Value → InputPath → Exec ExactJson
  unfolding encode_fields plain_object object_fields check_keys identity entry schema_string sort
      name_le
  encode_object rec spec v path = do
    name ← lift (schema_string (entry h spec "name"))
    values ← lift (plain_object h v path)
    fields ← lift (object_fields h spec name)
    _ ← lift (check_keys (names fields) path values)
    with_active (identity v) (Failure.canonical Reason.cycle path) (do
      pairs ← encode_fields rec path values fields
      pure (array (tag "object" ∷ array (map pair (sort name_le pairs)) ∷ [])))

  unfoldable pub encode_variants : Encoder → Value → InputPath → ℕ → List Value → Exec ExactJson
  unfolding schema_mapping or_else
  encode_variants rec v path index [] = raise Reason.no_union_variant path
  encode_variants rec v path index (raw ∷ rest) = do
    variant ← lift (schema_mapping h (some raw))
    (λ c.
        let tried =
          (do
            encoded ← rec variant v path
            pure (array (tag "union" ∷ natural index ∷ encoded ∷ [])))
            c in
        or_else (encode_variants rec v path (index + 1) rest) tried.0 tried.1)

  -- `_encode_union`
  unfoldable pub encode_union : Encoder → ℕ → Value → InputPath → Exec ExactJson
  unfolding encode_variants entry schema_sequence
  encode_union rec spec v path = do
    variants ← lift (schema_sequence h (entry h spec "variants"))
    encode_variants rec v path 0 variants

  -- the branches of `_encode_value`
  unfoldable pub encode_kind : Encoder → Kind → ℕ → Value → InputPath → Exec ExactJson
  unfolding encode_null encode_boolean encode_string encode_number encode_literal encode_enum
      encode_array encode_tuple encode_object encode_union
  encode_kind rec Kind.null spec v path = lift (encode_null v path)
  encode_kind rec Kind.boolean spec v path = lift (encode_boolean v path)
  encode_kind rec Kind.string spec v path = lift (encode_string v path)
  encode_kind rec Kind.number spec v path = lift (encode_number v path)
  encode_kind rec Kind.literal spec v path = lift (encode_literal h spec v path)
  encode_kind rec Kind.enum spec v path = lift (encode_enum h spec v path)
  encode_kind rec Kind.array spec v path = encode_array rec spec v path
  encode_kind rec Kind.tuple spec v path = encode_tuple rec spec v path
  encode_kind rec Kind.object spec v path = encode_object rec spec v path
  encode_kind rec Kind.union spec v path = encode_union rec spec v path
  encode_kind rec Kind.unsupported spec v path = lift schema_failure

  -- `_encode_value`. The depth is kept as the levels that are left, `MAXIMUM_INPUT_DEPTH + 1 - depth`:
  -- none are left when `depth > MAXIMUM_INPUT_DEPTH`. So a value that is cyclic on the heap is
  -- followed to the limit at most.
  unfoldable pub encode_value : ℕ → Encoder
  unfolding encode_kind reject_host_object kind_of entry consume_work with_active ◌>>=◌
  encode_value zero spec v path = raise Reason.limit path
  encode_value (suc levels) spec v path = do
    consume_work path
    _ ← lift (reject_host_object v path)
    encode_kind (encode_value levels) (kind_of (entry h spec "kind")) spec v path

  -- one input, and the rest of them
  unfoldable pub encode_input : Entry → Option Value → Exec Items → Exec Items
  unfolding encode_value
  encode_input e none others = raise Reason.missing (Segment.name e.name ∷ [])
  encode_input e (some v) others = do
    encoded ← encode_value all_levels e.type_spec v (Segment.name e.name ∷ [])
    rest ← others
    pure (Items.cons (pair (e.name, encoded)) rest)

  -- the loop of `_encode_envelope`
  unfoldable pub encode_inputs : List (Value × Value) → List Entry → Exec Items
  unfolding encode_input get
  encode_inputs values [] = pure Items.nil
  encode_inputs values (e ∷ es) = encode_input e (get e.name values) (encode_inputs values es)

  abbrev pub entry_names : List Entry → List Text
  entry_names [] = []
  entry_names (e ∷ es) = e.name ∷ entry_names es

  -- `_encode_envelope`
  unfoldable pub encode_envelope : Value → Value → Result ExactJson
  unfolding encode_inputs plain_object check_keys validate_and_order_schema ◌>>=◌
  encode_envelope schema inputs = bind (validate_and_order_schema h schema) λ ordered.
      bind (plain_object h inputs []) λ values.
        bind (check_keys (entry_names ordered) [] values) λ _.
          bind (encode_inputs values ordered fresh).0
            λ pairs. ok (array (tag "semantscript-input" ∷ natural 1 ∷ ExactJson.list pairs ∷ []))
