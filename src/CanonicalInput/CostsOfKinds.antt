-- ===== src/CanonicalInput/CostsOfKinds.antt =====
-- The branches of `_encode_value` in canonical_input.py on its work budget and its active set.
use semant_script.Prelude.{ℕ, ◌+◌, List, [], ◌∷◌, ◌++◌, arith, Option, none, some, ◌==◌, length}
use semant_script.Prelude.Sort.{sort}
use semant_script.Python.Text.{Text}
use semant_script.Python.Values.{Value, Heap, get, identity}
use semant_script.CanonicalInput.Errors.{Reason, Segment, InputPath, schema_path}
use semant_script.CanonicalInput.Exec.{Exec}
use semant_script.CanonicalInput.Tree.{ExactJson, Items, arrays, arrays_of}
use semant_script.CanonicalInput.Spec.{Kind, Field, entry, schema_mapping}
use semant_script.CanonicalInput.Small.{
  encode_null-Small, encode_boolean-Small, encode_string-Small, encode_number-Small,
  match_literal-Small, encode_enum-Small,
}
use semant_script.CanonicalInput.Leaves.{encode_literal}
use semant_script.CanonicalInput.Encode.{
  Encoder, encode_items, encode_array, encode_elements, encode_tuple, encode_field, encode_fields,
  encode_object, encode_variants, encode_union, encode_kind, name_le,
}
use semant_script.CanonicalInput.Within.{
  Within, Within-pure, Within-raise, Within-if, Within-weaken, Within-bind, Within-frame,
  Within-with_active,
}
use semant_script.CanonicalInput.Costs.{
  node_weight, IsEncoder, pair_arrays, arrays_of-map-pair, pair_arrays-sort, lift-free,
  check_room-Within, Small→Within, or_else-Within,
}

module _ (h : Heap) (rec : Encoder) (good : IsEncoder rec) where
  rec-Within : (spec : ℕ) (v : Value) (path : InputPath) → Within 0 arrays (rec spec v path)
  rec-Within spec v path =
      Within-weaken (rec spec v path) (omega arith) (λ t. omega arith) (good spec v path)

  encode_items-Within :
      (spec : ℕ) (path : InputPath) (index : ℕ) (vs : List Value)
      → Within 0 arrays_of (encode_items h rec spec path index vs)
  unfolding encode_items arrays
  encode_items-Within spec path index [] = Within-pure Items.nil (omega arith)
  encode_items-Within spec path index (v ∷ vs) =
      Within-bind arrays (rec-Within spec v (path ++ Segment.index index ∷ [])) λ t.
        Within-bind (λ xs. arrays_of xs + arrays t)
          (Within-frame (arrays t) (encode_items-Within spec path (index + 1) vs))
          λ xs. Within-pure (Items.cons t xs) (omega arith)

  encode_elements-Within :
      (path : InputPath) (index : ℕ) (specs vs : List Value)
      → Within 0 arrays_of (encode_elements h rec path index specs vs)
  unfolding encode_elements arrays
  encode_elements-Within path index [] vs = Within-pure Items.nil (omega arith)
  encode_elements-Within path index (raw ∷ specs) [] = Within-pure Items.nil (omega arith)
  encode_elements-Within path index (raw ∷ specs) (v ∷ vs) =
      Within-bind (λ _. 0) (lift-free 0 (schema_mapping h (some raw)))
        λ spec. Within-bind arrays (rec-Within spec v (path ++ Segment.index index ∷ [])) λ t.
          Within-bind (λ xs. arrays_of xs + arrays t)
            (Within-frame (arrays t) (encode_elements-Within path (index + 1) specs vs))
            λ xs. Within-pure (Items.cons t xs) (omega arith)

  encode_field-Within :
      (path : InputPath) (f : Field) (found : Option Value)
      {others : Exec (List (Text × ExactJson))}
      → Within 0 pair_arrays others
      → Within 0 pair_arrays (encode_field h rec path f found others)
  unfolding encode_field
  encode_field-Within path f none o =
      Within-if f.optional o (Within-raise Reason.missing (path ++ Segment.name f.name ∷ []))
  encode_field-Within path f (some v) o =
      Within-bind node_weight (good f.type_spec v (path ++ Segment.name f.name ∷ [])) λ t.
        Within-bind (λ ps. pair_arrays ps + node_weight t) (Within-frame (node_weight t) o)
          λ ps. Within-pure ((f.name, t) ∷ ps) (omega arith)

  encode_fields-Within :
      (path : InputPath) (values : List (Value × Value)) (fs : List Field)
      → Within 0 pair_arrays (encode_fields h rec path values fs)
  unfolding encode_fields
  encode_fields-Within path values [] = Within-pure [] (omega arith)
  encode_fields-Within path values (f ∷ fs) =
      encode_field-Within path f (get f.name values) (encode_fields-Within path values fs)

  encode_array-Within :
      (spec : ℕ) (v : Value) (path : InputPath)
      → Within 3 node_weight (encode_array h rec spec v path)
  unfolding encode_array arrays
  encode_array-Within spec v path =
      Within-bind (λ _. 3) (lift-free 3 _)
        λ values.
          Within-bind (λ _. 3) (check_room-Within (length values) path)
            λ _.
              Within-bind (λ _. 3) (lift-free 3 _)
                λ item. Within-with_active (identity v) Reason.cycle path (
                  Within-bind (λ xs. arrays_of xs + 3)
                    (Within-frame 3 (encode_items-Within item path 0 values))
                    λ xs. Within-pure _ (omega arith))

  encode_tuple-Within :
      (spec : ℕ) (v : Value) (path : InputPath)
      → Within 3 node_weight (encode_tuple h rec spec v path)
  unfolding encode_tuple arrays
  encode_tuple-Within spec v path =
      Within-bind (λ _. 3) (lift-free 3 _)
        λ values.
          Within-bind (λ _. 3) (lift-free 3 _)
            λ specs.
              Within-bind (λ _. 3)
                (Within-if (length values == length specs) (Within-pure tt (omega arith))
                  (Within-raise Reason.tuple_length path))
                λ _. Within-with_active (identity v) Reason.cycle path (
                  Within-bind (λ xs. arrays_of xs + 3)
                    (Within-frame 3 (encode_elements-Within path 0 specs values))
                    λ xs. Within-pure _ (omega arith))

  encode_object-Within :
      (spec : ℕ) (v : Value) (path : InputPath)
      → Within 3 node_weight (encode_object h rec spec v path)
  unfolding encode_object arrays
  encode_object-Within spec v path =
      Within-bind (λ _. 3) (lift-free 3 _)
        λ name.
          Within-bind (λ _. 3) (lift-free 3 _)
            λ values.
              Within-bind (λ _. 3) (lift-free 3 _)
                λ fields.
                  Within-bind (λ _. 3) (lift-free 3 _)
                    λ _. Within-with_active (identity v) Reason.cycle path (
                      Within-bind (λ ps. pair_arrays ps + 3)
                        (Within-frame 3 (encode_fields-Within path values fields))
                        λ ps. Within-pure _ (
                          omega (arith, arrays_of-map-pair (sort name_le ps), pair_arrays-sort ps)))

  encode_variants-Within :
      (v : Value) (path : InputPath) (index : ℕ) (raws : List Value)
      → Within 3 node_weight (encode_variants h rec v path index raws)
  unfolding encode_variants arrays
  encode_variants-Within v path index [] = Within-raise Reason.no_union_variant path
  encode_variants-Within v path index (raw ∷ raws) =
      Within-bind (λ _. 3) (lift-free 3 _)
        λ variant c. or_else-Within _ (encode_variants-Within v path (index + 1) raws) c _ _ (
          Within-bind (λ t. node_weight t + 3) (Within-frame 3 (good variant v path))
            (λ t. Within-pure _ (omega arith)) c)

  pub encode_kind-Within :
      (kind : Kind) (spec : ℕ) (v : Value) (path : InputPath)
      → Within 3 node_weight (encode_kind h rec kind spec v path)
  unfolding encode_kind encode_union encode_literal
  encode_kind-Within Kind.null spec v path = Small→Within _ (encode_null-Small v path)
  encode_kind-Within Kind.boolean spec v path = Small→Within _ (encode_boolean-Small v path)
  encode_kind-Within Kind.string spec v path = Small→Within _ (encode_string-Small v path)
  encode_kind-Within Kind.number spec v path = Small→Within _ (encode_number-Small v path)
  encode_kind-Within Kind.literal spec v path =
      Small→Within _ (match_literal-Small (entry h spec "value") v path)
  encode_kind-Within Kind.enum spec v path = Small→Within _ (encode_enum-Small h spec v path)
  encode_kind-Within Kind.array spec v path = encode_array-Within spec v path
  encode_kind-Within Kind.tuple spec v path = encode_tuple-Within spec v path
  encode_kind-Within Kind.object spec v path = encode_object-Within spec v path
  encode_kind-Within Kind.union spec v path =
      Within-bind (λ _. 3) (lift-free 3 _) λ variants. encode_variants-Within v path 0 variants
  encode_kind-Within Kind.unsupported spec v path = Within-raise Reason.schema schema_path
