-- ===== src/CanonicalInput/Matches.antt =====
-- What canonical_input.py promises of a tree: that a value is of the type that a spec describes, and
-- how it is written, with no budget, path, depth or order of work.
pub mod Leaves
pub mod Members
pub mod Containers
pub mod Sound
use mathlib.Core.List.{Perm}
use semant_script.Prelude.{
  ℕ, ◌<◌, ◌≡◌, ◌≢◌, Bool, true, false, List, [], ◌∷◌, map, Option, none, some, String,
  if◌then◌else◌, get_elem?, All,
}
use semant_script.Prelude.Sort.{IsSorted}
use semant_script.Python.Text.{Text, has_surrogate, text_mem}
use semant_script.Python.Digits.{hex}
use semant_script.Python.Float.{is_finite, float_of_int}
use semant_script.Python.Values.{Value, Heap, get, is_text, as_list, as_dict}
use semant_script.CanonicalInput.Errors.{ok, fail, Failure, Reason, InputPath, is_fatal}
use semant_script.CanonicalInput.Exec.{Context}
use semant_script.CanonicalInput.Tree.{ExactJson, Items, items, tag, natural}
use semant_script.CanonicalInput.Numbers.{is_number, same_type_and_value}
use semant_script.CanonicalInput.Spec.{
  Kind, kind_of, Base, base_of, Field, names, entry, schema_mapping, schema_sequence, schema_string,
  object_fields,
}
use semant_script.CanonicalInput.Schema.{Entry, validate_and_order_schema}
use semant_script.CanonicalInput.Encode.{name_le, pair, entry_names, encode_value}
unfoldable pub use semant_script.CanonicalInput.Primitives.{number_text}
pub use semant_script.CanonicalInput.Primitives.{
  finite_text, typed, HasKind, SameLiteral, First, Member, KnownKeys,
}
use semant_script.CanonicalInput.Conforms.{Conforms}

module _ (h : Heap) where
  mutual
    -- The value is of the type of the spec, and the tree is its canonical one; of the variants of a
    -- union it has the first that the value is of the type of.
    pub data Matches : ℕ → Value → ExactJson → Type 0 where
      primitive :
          (spec : ℕ) {v : Value} {t : ExactJson}
          → HasKind (kind_of (entry h spec "kind")) v t
          → Matches spec v t
      literal :
          (spec : ℕ) {v : Value} {t : ExactJson} (kind : Kind) (expected : Value)
          → kind_of (entry h spec "kind") ≡ Kind.literal
          → entry h spec "value" ≡ some expected
          → HasKind kind v t
          → SameLiteral v expected
          → Matches spec v (typed "literal" (t ∷ []))
      enum :
          (spec : ℕ) {v : Value} {t : ExactJson} (name : Text) (values : List Value) (i : ℕ)
          → kind_of (entry h spec "kind") ≡ Kind.enum
          → schema_string (entry h spec "name") ≡ ok name
          → schema_sequence h (entry h spec "values") ≡ ok values
          → Member values i (base_of (entry h spec "base")) v t
          → Matches spec v (typed "enum" (ExactJson.string name ∷ natural i ∷ t ∷ []))
      array :
          (spec : ℕ) {v : Value} (values : List Value) (item : ℕ) {ts : Items}
          → kind_of (entry h spec "kind") ≡ Kind.array
          → as_list h v ≡ some values
          → schema_mapping h (entry h spec "items") ≡ ok item
          → MatchesAll item values ts
          → Matches spec v (typed "array" (ExactJson.list ts ∷ []))
      tuple :
          (spec : ℕ) {v : Value} (values specs : List Value) {ts : Items}
          → kind_of (entry h spec "kind") ≡ Kind.tuple
          → as_list h v ≡ some values
          → schema_sequence h (entry h spec "items") ≡ ok specs
          → MatchesEach specs values ts
          → Matches spec v (typed "tuple" (ExactJson.list ts ∷ []))
      object :
          (spec : ℕ) {v : Value} (name : Text) (values : List (Value × Value)) (fields : List Field)
          (ps qs : List (Text × ExactJson))
          → kind_of (entry h spec "kind") ≡ Kind.object
          → schema_string (entry h spec "name") ≡ ok name
          → as_dict h v ≡ some values
          → object_fields h spec name ≡ ok fields
          → KnownKeys (names fields) values
          → MatchesFields values fields ps
          → Perm qs ps
          → IsSorted name_le qs
          → Matches spec v (typed "object" (ExactJson.list (items (map pair qs)) ∷ []))
      union :
          (spec : ℕ) {v : Value} {t : ExactJson} (variants : List Value) (i : ℕ) (raw : Value)
          (variant : ℕ)
          → kind_of (entry h spec "kind") ≡ Kind.union
          → schema_sequence h (entry h spec "variants") ≡ ok variants
          → get_elem? variants i ≡ some raw
          → schema_mapping h (some raw) ≡ ok variant
          → ((j : ℕ) (other : Value)
              → j < i
              → get_elem? variants j ≡ some other
              → (variant : ℕ) → schema_mapping h (some other) ≡ ok variant
              → Conforms h variant v
              → ⊥)
          → Matches variant v t
          → Matches spec v (typed "union" (natural i ∷ t ∷ []))

    -- every item of an array
    pub data MatchesAll : ℕ → List Value → Items → Type 0 where
      no_items : (item : ℕ) → MatchesAll item [] Items.nil
      next_item :
          (item : ℕ) {v : Value} {vs : List Value} {t : ExactJson} {ts : Items}
          → Matches item v t
          → MatchesAll item vs ts
          → MatchesAll item (v ∷ vs) (Items.cons t ts)

    -- a tuple, item by item
    pub data MatchesEach : List Value → List Value → Items → Type 0 where
      no_elements : MatchesEach [] [] Items.nil
      next_element :
          (raw : Value) (spec : ℕ) {specs : List Value} {v : Value} {vs : List Value}
          {t : ExactJson} {ts : Items}
          → schema_mapping h (some raw) ≡ ok spec
          → Matches spec v t
          → MatchesEach specs vs ts
          → MatchesEach (raw ∷ specs) (v ∷ vs) (Items.cons t ts)

    -- the fields of an object that are present; the others are optional
    pub data MatchesFields
        : List (Value × Value) → List Field → List (Text × ExactJson) → Type 0 where
      no_fields : (values : List (Value × Value)) → MatchesFields values [] []
      absent :
          (values : List (Value × Value)) (f : Field) {fs : List Field}
          {ps : List (Text × ExactJson)}
          → f.optional ≡ true
          → get f.name values ≡ none
          → MatchesFields values fs ps
          → MatchesFields values (f ∷ fs) ps
      present :
          (values : List (Value × Value)) (f : Field) {fs : List Field}
          {ps : List (Text × ExactJson)} (v : Value) {t : ExactJson}
          → get f.name values ≡ some v
          → Matches f.type_spec v t
          → MatchesFields values fs ps
          → MatchesFields values (f ∷ fs) ((f.name, t) ∷ ps)

  -- the inputs, one for each entry of the schema
  pub data MatchesInputs : List (Value × Value) → List Entry → Items → Type 0 where
    no_inputs : (values : List (Value × Value)) → MatchesInputs values [] Items.nil
    input :
        (values : List (Value × Value)) (e : Entry) {es : List Entry} (v : Value) {t : ExactJson}
        {ts : Items}
        → get e.name values ≡ some v
        → Matches e.type_spec v t
        → MatchesInputs values es ts
        → MatchesInputs values (e ∷ es) (Items.cons (pair (e.name, t)) ts)

  -- The tree is the envelope of the inputs for the schema.
  pub record Envelope (schema inputs : Value) (t : ExactJson) : Type 0 where
    pub ordered : List Entry
    pub values : List (Value × Value)
    pub pairs : Items
    pub accepted : validate_and_order_schema h schema ≡ ok ordered
    pub record_of : as_dict h inputs ≡ some values
    pub known : KnownKeys (entry_names h ordered) values
    pub matched : MatchesInputs values ordered pairs
    pub tree : t ≡ typed "semantscript-input" (natural 1 ∷ ExactJson.list pairs ∷ [])
