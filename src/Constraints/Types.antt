-- ===== src/Constraints/Types.antt =====
-- `_StaticType`, `_TypeBudget`, `_merge_types` and `_types_from_input_spec` of constraints.py. Each
-- error is a ConstraintConfigurationError, a ValueError.
pub mod Spec
pub mod Infer
pub mod Has
pub mod Merge
pub mod Fits
use semant_script.Prelude.{
  ℕ, zero, suc, ◌+◌, Bool, true, false, not, ◌&&◌, ◌||◌, List, [], ◌∷◌, Option, none, some, ltb,
  if◌then◌else◌,
}
use semant_script.Python.Text.{Text, codes, text_eq}
use semant_script.Python.Values.{Value, Heap, get, as_list}
use semant_script.CanonicalInput.Errors.{Result, ok, bind}
use semant_script.CanonicalInput.Spec.{Kind, kind_of}
use semant_script.Constraints.Numbers
use semant_script.Constraints.Numbers.{float_eq}
use semant_script.Constraints.Expression.{malformed, mapping, fields}

abbrev pub maximum_type_operations : ℕ
maximum_type_operations = 10000000

abbrev pub maximum_type_variants : ℕ
maximum_type_variants = 10000

-- The types of one value are several. A scalar kind has a literal or none; only the containers have
-- fields, an item or elements.
mutual
  pub data StaticType : Type 0 where
    string : Option Text → StaticType
    number : Option ℕ → StaticType
    boolean : Option Bool → StaticType
    null : Option (Unit {0}) → StaticType
    undefined : StaticType
    array : Types → StaticType
    tuple : Elements → StaticType
    object : Declared → StaticType

  pub data Types : Type 0 where
    no_types : Types
    types : StaticType → Types → Types

  pub data Elements : Type 0 where
    no_elements : Elements
    element : Types → Elements → Elements

  -- name, types and whether it is optional
  pub data Declared : Type 0 where
    no_fields : Declared
    field : Text → Types → Bool → Declared → Declared

abbrev pub one_type : StaticType → Types
one_type t = Types.types t Types.no_types

infixr 40 ◌+++◌
abbrev pub ◌+++◌ : Types → Types → Types
Types.no_types +++ us = us
Types.types t ts +++ us = Types.types t (ts +++ us)

abbrev pub length_types : Types → ℕ
length_types Types.no_types = 0
length_types (Types.types t ts) = 1 + length_types ts

abbrev pub eq_option : {A : Type 0} → (A → A → Bool) → Option A → Option A → Bool
eq_option eq none none = true
eq_option eq (some a) (some b) = eq a b
eq_option eq _ _ = false

abbrev pub eq_boolean : Bool → Bool → Bool
eq_boolean true b = b
eq_boolean false b = not b

-- `==` of two types
unfoldable mutual
  unfolding float_eq text_eq

  pub type_eq : StaticType → StaticType → Bool
  type_eq (StaticType.string a) (StaticType.string b) = eq_option text_eq a b
  type_eq (StaticType.number a) (StaticType.number b) = eq_option float_eq a b
  type_eq (StaticType.boolean a) (StaticType.boolean b) = eq_option eq_boolean a b
  type_eq (StaticType.null a) (StaticType.null b) = eq_option (λ x y. true) a b
  type_eq StaticType.undefined StaticType.undefined = true
  type_eq (StaticType.array ts) (StaticType.array us) = types_eq ts us
  type_eq (StaticType.tuple es) (StaticType.tuple fs) = elements_eq es fs
  type_eq (StaticType.object fs) (StaticType.object gs) = declared_eq fs gs
  type_eq _ _ = false

  pub types_eq : Types → Types → Bool
  types_eq Types.no_types Types.no_types = true
  types_eq (Types.types t ts) (Types.types u us) = type_eq t u && types_eq ts us
  types_eq _ _ = false

  pub elements_eq : Elements → Elements → Bool
  elements_eq Elements.no_elements Elements.no_elements = true
  elements_eq (Elements.element ts es) (Elements.element us fs) =
      types_eq ts us && elements_eq es fs
  elements_eq _ _ = false

  pub declared_eq : Declared → Declared → Bool
  declared_eq Declared.no_fields Declared.no_fields = true
  declared_eq (Declared.field n ts o fs) (Declared.field m us p gs) =
      text_eq n m && types_eq ts us && eq_boolean o p && declared_eq fs gs
  declared_eq _ _ = false

-- `value in seen`
unfoldable pub type_mem : StaticType → Types → Bool
unfolding type_eq
type_mem t Types.no_types = false
type_mem t (Types.types u us) = type_eq t u || type_mem t us

-- An action on the operations that remain of the type budget, which no error is caught to use again.
abbrev pub Infer : Type 0 → Type 0
Infer A = ℕ → Result (A × ℕ)

infixl 5 ◌>>=◌ ◌>>◌
abbrev pub ◌>>=◌ : {A B : Type 0} → Infer A → (A → Infer B) → Infer B
◌>>=◌ m f b = bind (m b) λ r. f r.0 r.1

abbrev pub ◌>>◌ : {A B : Type 0} → Infer A → Infer B → Infer B
m >> k = m >>= λ _. k

abbrev pub pure : {A : Type 0} → A → Infer A
pure a b = ok (a, b)

abbrev pub refuse : {A : Type 0} → Infer A
refuse b = malformed

-- what does not read the budget
abbrev pub lift : {A : Type 0} → Result A → Infer A
lift r b = bind r λ a. ok (a, b)

-- `consume`
abbrev pub consume : Infer (Unit {0})
consume zero = malformed
consume (suc b) = ok (tt, b)

abbrev pub add_variant : (Types → Infer Types) → Types → Infer Types
add_variant again result =
    if ltb maximum_type_variants (length_types result) then refuse else again result

-- the loop of `_merge_types`, on the types that it has kept
unfoldable pub merge_onto : Types → Types → Infer Types
unfolding type_mem
merge_onto Types.no_types result = pure result
merge_onto (Types.types t ts) result = do
  consume
  elim (type_mem t result) [
    | true ↦ merge_onto ts result
    | false ↦ add_variant (merge_onto ts) (result +++ one_type t)
  ]

abbrev pub some_type : Types → Infer Types
some_type Types.no_types = refuse
some_type (Types.types t ts) = pure (Types.types t ts)

-- `_merge_types`
unfoldable pub merge_types : Types → Infer Types
unfolding merge_onto
merge_types values = do result ← merge_onto values Types.no_types; some_type result

abbrev pub literal_number : Option ℕ → Result StaticType
literal_number none = malformed
literal_number (some x) = ok (StaticType.number (some x))

-- `_literal_static_type`
unfoldable pub literal_static_type : Option Value → Result StaticType
unfolding Numbers.number
literal_static_type none = ok (StaticType.null (some tt))
literal_static_type (some Value.null) = ok (StaticType.null (some tt))
literal_static_type (some (Value.boolean b)) = ok (StaticType.boolean (some b))
literal_static_type (some (Value.string s)) = ok (StaticType.string (some s))
literal_static_type (some (Value.int n)) = literal_number (Numbers.number (Value.int n))
literal_static_type (some (Value.float x)) = literal_number (Numbers.number (Value.float x))
literal_static_type (some _) = malformed
