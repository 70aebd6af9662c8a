-- ===== src/CanonicalInput/Conforms.antt =====
-- The types that the specs of canonical_input.py describe: whether a value is of a type, with no tree,
-- budget, path or order of work.
pub mod Denies
pub mod Leaves
pub mod Members
pub mod Containers
use semant_script.Prelude.{
  ℕ, ◌≡◌, refl, Bool, true, List, [], ◌∷◌, Option, none, some, get_elem?, All,
}
use semant_script.Python.Text.{Text}
use semant_script.Python.Values.{Value, Heap, get, as_list, as_dict}
use semant_script.CanonicalInput.Errors.{ok}
use semant_script.CanonicalInput.Tree.{ExactJson}
use semant_script.CanonicalInput.Spec.{
  Kind, kind_of, Base, base_of, Field, names, entry, schema_mapping, schema_sequence, schema_string,
  object_fields,
}
use semant_script.CanonicalInput.Primitives.{HasKind, SameLiteral, Member, KnownKeys}

module _ (h : Heap) where
  mutual
    -- The value is of the type of the spec.
    pub data Conforms : ℕ → Value → Type 0 where
      primitive :
          (spec : ℕ) {v : Value} {t : ExactJson}
          → HasKind (kind_of (entry h spec "kind")) v t
          → Conforms spec v
      literal :
          (spec : ℕ) {v : Value} {t : ExactJson} (kind : Kind) (expected : Value)
          → kind_of (entry h spec "kind") ≡ Kind.literal
          → entry h spec "value" ≡ some expected
          → HasKind kind v t
          → SameLiteral v expected
          → Conforms spec v
      enum :
          (spec : ℕ) {v : Value} {t : ExactJson} (name : Text) (values : List Value) (i : ℕ)
          → kind_of (entry h spec "kind") ≡ Kind.enum
          → schema_string (entry h spec "name") ≡ ok name
          → schema_sequence h (entry h spec "values") ≡ ok values
          → Member values i (base_of (entry h spec "base")) v t
          → Conforms spec v
      array :
          (spec : ℕ) {v : Value} (values : List Value) (item : ℕ)
          → kind_of (entry h spec "kind") ≡ Kind.array
          → as_list h v ≡ some values
          → schema_mapping h (entry h spec "items") ≡ ok item
          → ConformsAll item values
          → Conforms spec v
      tuple :
          (spec : ℕ) {v : Value} (values specs : List Value)
          → kind_of (entry h spec "kind") ≡ Kind.tuple
          → as_list h v ≡ some values
          → schema_sequence h (entry h spec "items") ≡ ok specs
          → ConformsEach specs values
          → Conforms spec v
      object :
          (spec : ℕ) {v : Value} (name : Text) (values : List (Value × Value)) (fields : List Field)
          → kind_of (entry h spec "kind") ≡ Kind.object
          → schema_string (entry h spec "name") ≡ ok name
          → as_dict h v ≡ some values
          → object_fields h spec name ≡ ok fields
          → KnownKeys (names fields) values
          → ConformsFields values fields
          → Conforms spec v
      union :
          (spec : ℕ) {v : Value} (variants : List Value) (i : ℕ) (raw : Value) (variant : ℕ)
          → kind_of (entry h spec "kind") ≡ Kind.union
          → schema_sequence h (entry h spec "variants") ≡ ok variants
          → All (λ other. (at : ℕ) × (schema_mapping h (some other) ≡ ok at)) variants
          → get_elem? variants i ≡ some raw
          → schema_mapping h (some raw) ≡ ok variant
          → Conforms variant v
          → Conforms spec v

    pub data ConformsAll : ℕ → List Value → Type 0 where
      no_items : (item : ℕ) → ConformsAll item []
      next_item :
          (item : ℕ) (v : Value) (vs : List Value)
          → Conforms item v
          → ConformsAll item vs
          → ConformsAll item (v ∷ vs)

    pub data ConformsEach : List Value → List Value → Type 0 where
      no_elements : ConformsEach [] []
      next_element :
          (raw : Value) (spec : ℕ) (specs : List Value) (v : Value) (vs : List Value)
          → schema_mapping h (some raw) ≡ ok spec
          → Conforms spec v
          → ConformsEach specs vs
          → ConformsEach (raw ∷ specs) (v ∷ vs)

    -- each field is present with a value of its type, or absent and optional
    pub data ConformsFields : List (Value × Value) → List Field → Type 0 where
      no_fields : (values : List (Value × Value)) → ConformsFields values []
      absent :
          (values : List (Value × Value)) (f : Field) (fs : List Field)
          → f.optional ≡ true
          → get f.name values ≡ none
          → ConformsFields values fs
          → ConformsFields values (f ∷ fs)
      present :
          (values : List (Value × Value)) (f : Field) (fs : List Field) (v : Value)
          → get f.name values ≡ some v
          → Conforms f.type_spec v
          → ConformsFields values fs
          → ConformsFields values (f ∷ fs)

  -- What `Conforms` says of a value, by the kind of the spec.
  abbrev pub Shape : ℕ → Value → Kind → Type 0
  Shape spec v Kind.literal =
      (kind : Kind) × (t : ExactJson) × (expected : Value) × (entry h spec "value" ≡ some expected)
      × HasKind kind v t
      × SameLiteral v expected
  Shape spec v Kind.enum =
      (t : ExactJson) × (name : Text) × (values : List Value) × (i : ℕ) × (schema_string
          (entry h spec "name")
        ≡ ok name)
      × (schema_sequence h (entry h spec "values") ≡ ok values)
      × Member values i (base_of (entry h spec "base")) v t
  Shape spec v Kind.array =
      (values : List Value) × (item : ℕ) × (as_list h v ≡ some values)
      × (schema_mapping h (entry h spec "items") ≡ ok item)
      × ConformsAll item values
  Shape spec v Kind.tuple =
      (values : List Value) × (specs : List Value) × (as_list h v ≡ some values)
      × (schema_sequence h (entry h spec "items") ≡ ok specs)
      × ConformsEach specs values
  Shape spec v Kind.object =
      (name : Text) × (values : List (Value × Value)) × (fields : List Field) × (schema_string
          (entry h spec "name")
        ≡ ok name)
      × (as_dict h v ≡ some values)
      × (object_fields h spec name ≡ ok fields)
      × KnownKeys (names fields) values
      × ConformsFields values fields
  Shape spec v Kind.union =
      (variants : List Value) × (i : ℕ) × (raw : Value) × (variant : ℕ) × (schema_sequence h
          (entry h spec "variants")
        ≡ ok variants)
      × All (λ other. (at : ℕ) × (schema_mapping h (some other) ≡ ok at)) variants
      × (get_elem? variants i ≡ some raw)
      × (schema_mapping h (some raw) ≡ ok variant)
      × Conforms variant v
  Shape spec v kind = (t : ExactJson) × HasKind kind v t

  primitive-Shape :
      (spec : ℕ) (v : Value) (kind : Kind) (t : ExactJson) → HasKind kind v t → Shape spec v kind
  primitive-Shape spec _ _ t HasKind.null = (t, HasKind.null)
  primitive-Shape spec _ _ t (HasKind.boolean b) = (t, HasKind.boolean b)
  primitive-Shape spec _ _ t (HasKind.string s e) = (t, HasKind.string s e)
  primitive-Shape spec _ _ t (HasKind.number v s e) = (t, HasKind.number v s e)

  pub Conforms-Shape :
      (spec : ℕ) (v : Value) → Conforms spec v → Shape spec v (kind_of (entry h spec "kind"))
  Conforms-Shape _ v (Conforms.primitive spec {t = t} p) =
      primitive-Shape spec v (kind_of (entry h spec "kind")) t p
  Conforms-Shape _ v (Conforms.literal spec kind expected k e p s) =
      rw k (kind, _, expected, e, p, s)
  Conforms-Shape _ v (Conforms.enum spec name values i k n s m) = rw k (_, name, values, i, n, s, m)
  Conforms-Shape _ v (Conforms.array spec values item k l m all) = rw k (values, item, l, m, all)
  Conforms-Shape _ v (Conforms.tuple spec values specs k l s each) =
      rw k (values, specs, l, s, each)
  Conforms-Shape _ v (Conforms.object spec name values fields k n d f known each) =
      rw k (name, values, fields, n, d, f, known, each)
  Conforms-Shape _ v (Conforms.union spec variants i raw variant k s all g m c) =
      rw k (variants, i, raw, variant, s, all, g, m, c)
