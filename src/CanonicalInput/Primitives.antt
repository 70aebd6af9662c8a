-- ===== src/CanonicalInput/Primitives.antt =====
-- Primitive values of canonical_input.py: what a primitive kind, a literal, an enum member and the keys
-- of a dict are, with no path and no order of work.
use semant_script.Prelude.{
  ℕ, ◌<◌, ◌≡◌, Bool, true, false, List, [], ◌∷◌, Option, none, some, String, if◌then◌else◌,
  get_elem?, All,
}
use semant_script.Python.Text.{Text, has_surrogate, text_mem}
use semant_script.Python.Digits.{hex}
use semant_script.Python.Float.{is_finite, float_of_int}
use semant_script.Python.Values.{Value, is_text}
use semant_script.CanonicalInput.Tree.{ExactJson, Items, items, tag}
use semant_script.CanonicalInput.Numbers.{is_number, same_type_and_value}
use semant_script.CanonicalInput.Spec.{Kind, Base}

abbrev pub finite_text : Option ℕ → Option Text
finite_text none = none
finite_text (some bits) = if is_finite bits then some (hex 16 bits) else none

-- The digits of the finite double that a number stands for.
unfoldable pub number_text : Value → Option Text
unfolding is_finite float_of_int hex
number_text (Value.int n) = finite_text (float_of_int n)
number_text (Value.float bits) = finite_text (some bits)
number_text _ = none

abbrev pub typed : String → List ExactJson → ExactJson
typed kind parts = ExactJson.list (Items.cons (tag kind) (items parts))

-- A primitive value of a kind, and its tree.
pub data HasKind : Kind → Value → ExactJson → Type 0 where
  null : HasKind Kind.null Value.null (typed "null" [])
  boolean :
      (b : Bool)
      → HasKind Kind.boolean (Value.boolean b) (typed "boolean" (ExactJson.boolean b ∷ []))
  string :
      (s : Text)
      → has_surrogate s ≡ false
      → HasKind Kind.string (Value.string s) (typed "string" (ExactJson.string s ∷ []))
  number :
      (v : Value) (s : Text)
      → number_text v ≡ some s
      → HasKind Kind.number v (typed "number" (ExactJson.string s ∷ []))

-- The literal of the schema is the value: the same double, or the same value of the same type.
pub data SameLiteral (v expected : Value) : Type 0 where
  number :
      (s : Text) → number_text v ≡ some s → number_text expected ≡ some s → SameLiteral v expected
  other :
      is_number expected ≡ false → same_type_and_value v expected ≡ true → SameLiteral v expected

-- `values[i]` is the first that passes the test.
pub record First (passes : Value → Type 0) (values : List Value) (i : ℕ) : Type 0 where
  pub found : Value
  pub at : get_elem? values i ≡ some found
  pub passed : passes found
  pub earlier : (j : ℕ) (v : Value) → j < i → get_elem? values j ≡ some v → passes v → ⊥

-- The value is of the base type of an enum, and is the first member at the position.
pub data Member (values : List Value) (i : ℕ) : Base → Value → ExactJson → Type 0 where
  string :
      (s : Text) {t : ExactJson}
      → HasKind Kind.string (Value.string s) t
      → First (λ c. is_text s c ≡ true) values i
      → Member values i Base.string (Value.string s) t
  number :
      (v : Value) (s : Text) {t : ExactJson}
      → HasKind Kind.number v t
      → number_text v ≡ some s
      → First (λ c. number_text c ≡ some s) values i
      → Member values i Base.number v t

-- The keys of a dict are names of the schema.
abbrev pub KnownKeys : List Text → List (Value × Value) → Type 0
KnownKeys known =
    All λ p.
      (s : Text) × (p.0 ≡ Value.string s) × (has_surrogate s ≡ false) × (text_mem s known ≡ true)
