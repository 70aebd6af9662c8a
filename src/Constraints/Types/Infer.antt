-- ===== src/Constraints/Types/Infer.antt =====
-- `_infer_expression_types` of constraints.py and what it calls.
use semant_script.Prelude.{
  ℕ, zero, suc, Bool, true, false, ◌&&◌, ◌||◌, List, [], ◌∷◌, Option, none, some, if◌then◌else◌,
}
use semant_script.Python.Text.{Text, codes, text_eq}
use semant_script.Python.Values.{Value, Heap, is_text}
use semant_script.CanonicalInput.Errors.{Result, ok, fail, bind}
use semant_script.Constraints.Numbers.{negate, array_index, js_number_string}
use semant_script.Constraints.Expression.{malformed, require, mapping}
use semant_script.Constraints.View.{Unary, Binary, View, view}
use semant_script.Constraints.Types.{
  StaticType, Types, one_type, ◌+++◌, Elements, Declared, Infer, ◌>>=◌, ◌>>◌, pure, refuse, lift,
  consume, merge_types, literal_static_type,
}

abbrev pub is_number_type : StaticType → Bool
is_number_type (StaticType.number l) = true
is_number_type _ = false

abbrev pub is_string_type : StaticType → Bool
is_string_type (StaticType.string l) = true
is_string_type _ = false

abbrev pub is_boolean_type : StaticType → Bool
is_boolean_type (StaticType.boolean l) = true
is_boolean_type _ = false

abbrev pub is_index_type : StaticType → Bool
is_index_type t = is_number_type t || is_string_type t

abbrev pub is_scalar_type : StaticType → Bool
is_scalar_type (StaticType.array ts) = false
is_scalar_type (StaticType.tuple es) = false
is_scalar_type (StaticType.object fs) = false
is_scalar_type _ = true

abbrev pub all_types : (StaticType → Bool) → Types → Bool
all_types is Types.no_types = true
all_types is (Types.types t ts) = is t && all_types is ts

-- Is there a type, and are all of the kinds that `is` allows?
unfoldable pub kinds_are : (StaticType → Bool) → Types → Bool
kinds_are is Types.no_types = false
kinds_are is (Types.types t ts) = is t && all_types is ts

-- `_require_type_kinds`
abbrev pub require_kinds : (StaticType → Bool) → Types → Infer (Unit {0})
require_kinds is ts = lift (require (kinds_are is ts))

-- the literal of a type, if it has one
abbrev pub literal_of : StaticType → Option Value
literal_of (StaticType.string (some s)) = some (Value.string s)
literal_of (StaticType.number (some x)) = some (Value.float x)
literal_of (StaticType.boolean (some b)) = some (Value.boolean b)
literal_of (StaticType.null (some u)) = some Value.null
literal_of _ = none

unfoldable pub find_field : Text → Declared → Option (Types × Bool)
unfolding text_eq
find_field name Declared.no_fields = none
find_field name (Declared.field n ts o fs) =
    if text_eq name n then some (ts, o) else find_field name fs

-- the types of a field, with `undefined` if it is optional
abbrev pub field_values : Option (Types × Bool) → Result Types
field_values none = malformed
field_values (some (ts, o)) = ok (if o then ts +++ one_type StaticType.undefined else ts)

abbrev pub length_only : Text → Result Types
length_only name =
    if text_eq (codes "length") name then ok (one_type (StaticType.number none)) else malformed

-- a property of one of the object's types
unfoldable pub property_of_type : Text → StaticType → Result Types
unfolding text_eq find_field
property_of_type name (StaticType.string l) = length_only name
property_of_type name (StaticType.array ts) = length_only name
property_of_type name (StaticType.tuple es) = length_only name
property_of_type name (StaticType.object fs) = field_values (find_field name fs)
property_of_type name _ = malformed

-- the loop of `_property_result_types` and the outer one of `_index_result_types`
unfoldable pub for_each_type : (StaticType → Infer Types) → Types → Infer Types
for_each_type f Types.no_types = pure Types.no_types
for_each_type f (Types.types t ts) = do us ← f t; rest ← for_each_type f ts; pure (us +++ rest)

-- `_property_result_types`
unfoldable pub property_result_types : Types → Text → Infer Types
unfolding for_each_type property_of_type merge_types
property_result_types object_types name = do
  result ← for_each_type (λ t. consume >> lift (property_of_type name t)) object_types
  merge_types result

abbrev pub nth_element : Elements → ℕ → Types
nth_element Elements.no_elements i = one_type StaticType.undefined
nth_element (Elements.element ts es) zero = ts
nth_element (Elements.element ts es) (suc i) = nth_element es i

abbrev pub every_element : Elements → Types
every_element Elements.no_elements = one_type StaticType.undefined
every_element (Elements.element ts es) = ts +++ every_element es

abbrev pub is_length : Option Value → Bool
is_length none = false
is_length (some v) = is_text (codes "length") v

abbrev pub when_index : Result (Option ℕ) → (ℕ → Types) → Result Types
when_index (fail e) k = fail e
when_index (ok none) k = malformed
when_index (ok (some i)) k = ok (k i)

-- the items of an array or a string, by the index and its literal
abbrev pub items_or_undefined : Types → StaticType → Option Value → Result Types
items_or_undefined ts t l =
    if is_length l
    then ok (one_type (StaticType.number none))
    else if is_number_type t
    then ok (ts +++ one_type StaticType.undefined)
    else elim l [
      | none ↦ malformed
      | some v ↦ when_index (array_index v) λ i. ts +++ one_type StaticType.undefined
    ]

abbrev pub element_or_undefined : Elements → StaticType → Option Value → Result Types
element_or_undefined es t l =
    if is_length l then ok (one_type (StaticType.number none)) else elim l [
      | none ↦ if is_number_type t then ok (every_element es) else malformed
      | some v ↦ when_index (array_index v) (nth_element es)
    ]

module _ (repr : ℕ → Text) where
  -- `_static_property_key`
  unfoldable pub static_property_key : Value → Result Text
  unfolding js_number_string
  static_property_key (Value.string s) = ok s
  static_property_key (Value.float x) = ok (js_number_string repr x)
  static_property_key _ = malformed

  -- an index of one of its types into an object of one of its types
  unfoldable pub index_of_type : StaticType → StaticType → Result Types
  unfolding static_property_key find_field array_index is_text
  index_of_type (StaticType.object fs) t = elim (literal_of t) [
    | none ↦ malformed
    | some v ↦ bind (static_property_key v) λ key. field_values (find_field key fs)
  ]
  index_of_type (StaticType.array ts) t = items_or_undefined ts t (literal_of t)
  index_of_type (StaticType.tuple es) t = element_or_undefined es t (literal_of t)
  index_of_type (StaticType.string l) t =
      items_or_undefined (one_type (StaticType.string none)) t (literal_of t)
  index_of_type _ t = malformed

  -- `_index_result_types`
  unfoldable pub index_result_types : Types → Types → Infer Types
  unfolding for_each_type index_of_type kinds_are merge_types
  index_result_types object_types index_types = do
    require_kinds is_index_type index_types
    result ←
        for_each_type (λ t. for_each_type (λ i. consume >> lift (index_of_type t i)) index_types)
          object_types
    merge_types result

-- the operator on a literal
unfoldable pub signed : Unary → ℕ → ℕ
signed Unary.plus x = x
signed _ x = negate x

abbrev pub with_literal : ℕ → Option Types → Option Types
with_literal x none = none
with_literal x (some ts) = some (Types.types (StaticType.number (some x)) ts)

-- each literal, with the operator, if every type has one
unfoldable pub signed_literals : Unary → Types → Option Types
unfolding signed
signed_literals op Types.no_types = some Types.no_types
signed_literals op (Types.types (StaticType.number (some x)) ts) =
    with_literal (signed op x) (signed_literals op ts)
signed_literals op (Types.types t ts) = none

abbrev pub signed_types : Unary → Types → Infer Types
signed_types op ts = elim (signed_literals op ts) [
  | none ↦ pure (one_type (StaticType.number none))
  | some us ↦ merge_types us
]

unfoldable pub unary_types : Unary → Types → Infer Types
unfolding kinds_are signed_literals merge_types
unary_types Unary.invert ts = do
  require_kinds is_boolean_type ts
  pure (one_type (StaticType.boolean none))
unary_types Unary.plus ts = do require_kinds is_number_type ts; signed_types Unary.plus ts
unary_types Unary.minus ts = do require_kinds is_number_type ts; signed_types Unary.minus ts

abbrev pub both_are : (StaticType → Bool) → Types → Types → Bool
both_are is ls rs = kinds_are is ls && kinds_are is rs

unfoldable pub binary_types : Binary → Types → Types → Result Types
unfolding kinds_are
binary_types (Binary.arithmetic op) ls rs =
    bind (require (both_are is_number_type ls rs)) λ _. ok (one_type (StaticType.number none))
binary_types Binary.both ls rs =
    bind (require (both_are is_boolean_type ls rs)) λ _. ok (one_type (StaticType.boolean none))
binary_types Binary.either ls rs =
    bind (require (both_are is_boolean_type ls rs)) λ _. ok (one_type (StaticType.boolean none))
binary_types (Binary.compare op) ls rs =
    bind (require (both_are is_number_type ls rs || both_are is_string_type ls rs))
      λ _. ok (one_type (StaticType.boolean none))
binary_types Binary.equal ls rs =
    bind (require (both_are is_scalar_type ls rs)) λ _. ok (one_type (StaticType.boolean none))
binary_types Binary.unequal ls rs =
    bind (require (both_are is_scalar_type ls rs)) λ _. ok (one_type (StaticType.boolean none))

unfoldable pub find_types : Text → List (Text × Types) → Option Types
unfolding text_eq
find_types name [] = none
find_types name ((n, ts) ∷ rest) = if text_eq name n then some ts else find_types name rest

abbrev pub known : Option Types → Result Types
known none = malformed
known (some ts) = ok ts

module _ (repr : ℕ → Text) (h : Heap) (inputs : List (Text × Types)) where
  abbrev pub infer_child : (ℕ → Infer Types) → Option Value → Infer Types
  infer_child again child = do a ← lift (mapping h child); again a

  -- what is done of a node; `again` is the recursion
  unfoldable pub infer_view : (ℕ → Infer Types) → View → Infer Types
  unfolding mapping literal_static_type find_types property_result_types index_result_types
      unary_types binary_types
  infer_view again (View.literal none) = refuse
  infer_view again (View.literal (some v)) = do
    t ← lift (literal_static_type (some v))
    pure (one_type t)
  infer_view again (View.input name) = lift (known (find_types name inputs))
  infer_view again (View.property object name) = do
    ts ← infer_child again object
    property_result_types ts name
  infer_view again (View.index object index) = do
    ts ← infer_child again object
    is ← infer_child again index
    index_result_types repr ts is
  infer_view again (View.unary op operand) = do ts ← infer_child again operand; unary_types op ts
  infer_view again (View.binary op left right) = do
    ls ← infer_child again left
    rs ← infer_child again right
    lift (binary_types op ls rs)
  infer_view again View.malformed = refuse

  -- `_infer_expression_types`, by the levels of nesting
  unfoldable pub infer_expression_types : ℕ → ℕ → Infer Types
  unfolding infer_view view
  infer_expression_types zero a = refuse
  infer_expression_types (suc levels) a = do
    consume
    infer_view (infer_expression_types levels) (view h a)
