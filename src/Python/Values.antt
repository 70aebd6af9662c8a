-- ===== src/Python/Values.antt =====
-- Python objects. Containers stand on a heap, so that they can be shared and cyclic and have an
-- identity, which `id` returns; the modelled code changes none of them.
use semant_script.Prelude.{ℕ, Bool, false, List, [], ◌∷◌, Option, none, some, if◌then◌else◌}
use semant_script.Python.Float.{ℤ}
use semant_script.Python.Text.{Text, text_eq}

-- `host` is an instance of any other class, and `callable` one that can be called.
pub data Value : Type 0 where
  null : Value
  boolean : Bool → Value
  int : ℤ → Value
  float : ℕ → Value
  string : Text → Value
  ref : ℕ → Value
  callable : Value
  host : Value

-- A dict lists its items in insertion order. Any value can be a key of the model.
pub data Object : Type 0 where
  list : List Value → Object
  tuple : List Value → Object
  dict : List (Value × Value) → Object

abbrev pub Heap : Type 0
Heap = ℕ → Object

-- Does `key == name` hold of a text?
unfoldable pub is_text : Text → Value → Bool
unfolding text_eq
is_text name (Value.string s) = text_eq name s
is_text name _ = false

-- `mapping.get(name)`
unfoldable pub get : Text → List (Value × Value) → Option Value
unfolding is_text
get name [] = none
get name ((key, v) ∷ rest) = if is_text name key then some v else get name rest

-- The list that a value is, if `type(value) is list`.
unfoldable pub as_list : Heap → Value → Option (List Value)
as_list h (Value.ref a) = elim (h a) [ Object.list xs ↦ some xs | _ ↦ none ]
as_list h _ = none

-- The items, if `type(value) in (list, tuple)`.
unfoldable pub as_sequence : Heap → Value → Option (List Value)
as_sequence h (Value.ref a) = elim (h a) [
  | Object.list xs ↦ some xs
  | Object.tuple xs ↦ some xs
  | Object.dict es ↦ none
]
as_sequence h _ = none

-- The dict's items, if `type(value) is dict`.
unfoldable pub as_dict : Heap → Value → Option (List (Value × Value))
as_dict h (Value.ref a) = elim (h a) [ Object.dict es ↦ some es | _ ↦ none ]
as_dict h _ = none

-- `id(value)` of a container
unfoldable pub identity : Value → ℕ
identity (Value.ref a) = a
identity _ = 0
