-- ===== src/CanonicalInput/Keys.antt =====
-- The structural keys by which canonical_input.py finds duplicate enum values and union variants.
use semant_script.Prelude.{ℕ, Bool, true, false, ◌||◌, List, [], ◌∷◌, if◌then◌else◌}
use native.Mathlib.Decide.{ℕ_discrete}
use mathlib.Core.Bool.{decide}
use mathlib.Core.List.{dec_mem}
use semant_script.Python.Text.{Text, codes}
use semant_script.Python.Values.{Value}
use semant_script.CanonicalInput.Errors.{Result, ok, bind, Segment, schema_path, schema_failure}
use semant_script.CanonicalInput.Numbers.{is_number, finite_float, require_unicode}
use semant_script.CanonicalInput.Spec.{Kind, Base}

-- `_primitive_schema_key`
pub data PrimitiveKey : Type 0 where
  null : PrimitiveKey
  boolean : Bool → PrimitiveKey
  string : Text → PrimitiveKey
  number : ℕ → PrimitiveKey

-- The structural key of a type spec.
mutual
  pub data Key : Type 0 where
    simple : Kind → Key
    literal : PrimitiveKey → Key
    enum : Text → Base → List PrimitiveKey → Key
    array : Key → Key
    tuple : Keys → Key
    object : Text → FieldKeys → Key
    union : Keys → Key

  pub data Keys : Type 0 where
    nil : Keys
    cons : Key → Keys → Keys

  pub data FieldKeys : Type 0 where
    end : FieldKeys
    field : Text → Bool → Key → FieldKeys → FieldKeys

pub PrimitiveKey-discrete : Discrete PrimitiveKey
PrimitiveKey-discrete = hlevel ℕ_discrete

pub Key-discrete : Discrete Key
Key-discrete = hlevel ℕ_discrete

-- `len(set(keys)) != len(keys)`
unfoldable pub has_duplicate : {A : Type 0} → Discrete A → List A → Bool
has_duplicate same [] = false
has_duplicate same (x ∷ xs) = decide (dec_mem same x xs) || has_duplicate same xs

abbrev pub refuse : Bool → Result (Unit {0})
refuse b = if b then schema_failure else ok tt

-- `_primitive_schema_key`
unfoldable pub primitive_schema_key : Value → Result PrimitiveKey
unfolding finite_float require_unicode
primitive_schema_key Value.null = ok PrimitiveKey.null
primitive_schema_key (Value.boolean b) = ok (PrimitiveKey.boolean b)
primitive_schema_key (Value.string s) =
    bind (require_unicode s (Segment.name (codes "$schema") ∷ Segment.name (codes "literal") ∷ []))
      (λ _. ok (PrimitiveKey.string s))
primitive_schema_key (Value.int n) =
    bind (finite_float (Value.int n) schema_path true) (λ bits. ok (PrimitiveKey.number bits))
primitive_schema_key (Value.float b) =
    bind (finite_float (Value.float b) schema_path true) (λ bits. ok (PrimitiveKey.number bits))
primitive_schema_key _ = schema_failure

-- the check of one value of an enum against its base
unfoldable pub check_enum_value : Text → Base → Value → Result (Unit {0})
unfolding is_number finite_float require_unicode
check_enum_value name Base.string (Value.string s) =
    require_unicode s (Segment.name (codes "$schema") ∷ Segment.name name ∷ [])
check_enum_value name Base.string _ = schema_failure
check_enum_value name Base.number v =
    if is_number v
    then bind (finite_float v (Segment.name (codes "$schema") ∷ Segment.name name ∷ []) true)
        (λ _. ok tt)
    else schema_failure
check_enum_value name Base.unsupported _ = schema_failure

unfoldable pub enum_keys : Text → Base → List Value → Result (List PrimitiveKey)
unfolding check_enum_value primitive_schema_key
enum_keys name base [] = ok []
enum_keys name base (v ∷ vs) =
    bind (check_enum_value name base v) λ _.
      bind (primitive_schema_key v) λ key. bind (enum_keys name base vs) λ keys. ok (key ∷ keys)

abbrev pub is_empty : {A : Type 0} → List A → Bool
is_empty [] = true
is_empty (_ ∷ _) = false

abbrev pub keys_of : List Key → Keys
keys_of [] = Keys.nil
keys_of (k ∷ ks) = Keys.cons k (keys_of ks)
