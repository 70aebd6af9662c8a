-- ===== src/Constraints/Types/Spec.antt =====
-- `_types_from_input_spec` and `_constraint_input_types` of constraints.py.
use semant_script.Prelude.{
  ℕ, zero, suc, String, Bool, List, [], ◌∷◌, Option, none, some, ltb, length, if◌then◌else◌,
}
use semant_script.Python.Text.{Text, codes, text_eq}
use semant_script.Python.Values.{Value, Heap, get, as_list}
use semant_script.CanonicalInput.Errors.{Result, ok, bind}
use semant_script.CanonicalInput.Spec.{Kind, kind_of}
use semant_script.Constraints.Expression.{malformed, mapping, fields}
use semant_script.Constraints.Types.{
  StaticType, Types, one_type, ◌+++◌, Elements, Declared, Infer, ◌>>=◌, ◌>>◌, pure, refuse, lift,
  consume, merge_types, literal_static_type,
}

-- `_literal_static_type` of each value
unfoldable pub literal_types : List Value → Result Types
unfolding literal_static_type
literal_types [] = ok Types.no_types
literal_types (v ∷ vs) =
    bind (literal_static_type (some v)) λ t. bind (literal_types vs) λ ts. ok (Types.types t ts)

-- `not values`, `not name`
abbrev pub nonempty : {A : Type 0} → List A → Result (List A)
nonempty [] = malformed
nonempty (a ∷ rest) = ok (a ∷ rest)

abbrev pub text_of : Option Value → Result Text
text_of (some (Value.string s)) = ok s
text_of _ = malformed

abbrev pub boolean_of : Option Value → Result Bool
boolean_of (some (Value.boolean b)) = ok b
boolean_of _ = malformed

-- a declared field: its name, the address of its type and whether it is optional
abbrev pub declared_field : Heap → Value → Result (Text × ℕ × Bool)
declared_field h raw = bind (mapping h (some raw)) λ a.
    bind (text_of (get (codes "name") (fields h a))) λ name.
      bind (mapping h (get (codes "type") (fields h a))) λ spec.
        bind (boolean_of (get (codes "optional") (fields h a)))
          λ optional. ok (name, spec, optional)

-- `result[name] = types`
unfoldable pub set_types : Text → Types → List (Text × Types) → List (Text × Types)
unfolding text_eq
set_types name ts [] = (name, ts) ∷ []
set_types name ts ((n, us) ∷ rest) =
    if text_eq name n then (n, ts) ∷ rest else (n, us) ∷ set_types name ts rest

module _ (h : Heap) where
  abbrev pub list_entry : String → ℕ → Result (List Value)
  list_entry key a = elim (get (codes key) (fields h a)) [
    | none ↦ malformed
    | some v ↦ elim (as_list h v) [ none ↦ malformed | some xs ↦ ok xs ]
  ]

  -- the loop on a tuple's items
  unfoldable pub element_types : (ℕ → Infer Types) → List Value → Infer Elements
  unfolding mapping
  element_types again [] = pure Elements.no_elements
  element_types again (v ∷ vs) = do
    spec ← lift (mapping h (some v))
    ts ← again spec
    es ← element_types again vs
    pure (Elements.element ts es)

  -- the loop on an object's fields
  unfoldable pub field_types : (ℕ → Infer Types) → List Value → Infer Declared
  unfolding mapping get
  field_types again [] = pure Declared.no_fields
  field_types again (v ∷ vs) = do
    (name, spec, optional) ← lift (declared_field h v)
    ts ← again spec
    fs ← field_types again vs
    pure (Declared.field name ts optional fs)

  -- the loop on a union's variants
  unfoldable pub variant_types : (ℕ → Infer Types) → List Value → Infer Types
  unfolding mapping
  variant_types again [] = pure Types.no_types
  variant_types again (v ∷ vs) = do
    spec ← lift (mapping h (some v))
    ts ← again spec
    rest ← variant_types again vs
    pure (ts +++ rest)

  -- what follows the kind; `again` is the recursion
  unfoldable pub types_of_kind : (ℕ → Infer Types) → Kind → ℕ → Infer Types
  unfolding mapping get as_list literal_static_type literal_types element_types field_types
      variant_types merge_types
  types_of_kind again Kind.string a = pure (one_type (StaticType.string none))
  types_of_kind again Kind.boolean a = pure (one_type (StaticType.boolean none))
  types_of_kind again Kind.number a = pure (one_type (StaticType.number none))
  types_of_kind again Kind.null a = pure (one_type (StaticType.null none))
  types_of_kind again Kind.literal a = do
    t ← lift (literal_static_type (get (codes "value") (fields h a)))
    pure (one_type t)
  types_of_kind again Kind.enum a = do
    values ← lift (bind (list_entry "values" a) nonempty)
    ts ← lift (literal_types values)
    merge_types ts
  types_of_kind again Kind.array a = do
    item ← lift (mapping h (get (codes "items") (fields h a)))
    ts ← again item
    pure (one_type (StaticType.array ts))
  types_of_kind again Kind.tuple a = do
    items ← lift (list_entry "items" a)
    es ← element_types again items
    pure (one_type (StaticType.tuple es))
  types_of_kind again Kind.object a = do
    raw_fields ← lift (list_entry "fields" a)
    fs ← field_types again raw_fields
    pure (one_type (StaticType.object fs))
  types_of_kind again Kind.union a = do
    variants ← lift (list_entry "variants" a)
    if ltb (length variants) 2
        then refuse
        else (do ts ← variant_types again variants; merge_types ts)
  types_of_kind again Kind.unsupported a = refuse

  -- `_types_from_input_spec`, by the levels of nesting, each of which takes from the budget
  unfoldable pub types_from_input_spec : ℕ → ℕ → Infer Types
  unfolding types_of_kind kind_of get
  types_from_input_spec zero a = refuse
  types_from_input_spec (suc levels) a = do
    consume
    types_of_kind (types_from_input_spec levels) (kind_of (get (codes "kind") (fields h a))) a

  abbrev pub input_entry : Value → Result (Text × ℕ)
  input_entry raw = bind (mapping h (some raw)) λ a.
      bind (text_of (get (codes "name") (fields h a))) λ name.
        bind (nonempty name)
          λ _. bind (mapping h (get (codes "type") (fields h a))) λ spec. ok (name, spec)

  -- the loop of `_constraint_input_types`; as many levels are enough as the budget has operations
  unfoldable pub input_types_onto : List (Text × Types) → List Value → Infer (List (Text × Types))
  unfolding types_from_input_spec set_types mapping get
  input_types_onto result [] = pure result
  input_types_onto result (raw ∷ rest) = do
    (name, spec) ← lift (input_entry raw)
    ts ← λ b. types_from_input_spec b spec b
    input_types_onto (set_types name ts result) rest

  -- `_constraint_input_types`
  unfoldable pub constraint_input_types : ℕ → Infer (List (Text × Types))
  unfolding input_types_onto as_list get
  constraint_input_types ir = do
    raw_inputs ← lift (list_entry "inputs" ir)
    input_types_onto [] raw_inputs
