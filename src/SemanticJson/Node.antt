-- ===== src/SemanticJson/Node.antt =====
-- `_to_typed_node` of semantic_json.py.
use semant_script.Prelude.{ℕ, Bool, List, [], ◌∷◌, map, Option, none, some, if◌then◌else◌}
use semant_script.Prelude.Sort.{sort}
use semant_script.Python.Text.{Text, has_surrogate}
use semant_script.Python.Digits.{hex}
use semant_script.Python.Float.{ℤ, float_of_int, is_finite}
use semant_script.CanonicalInput.Errors.{Result, ok, fail, bind, Failure}
use semant_script.CanonicalInput.Tree.{ExactJson, Items, array, tag}
use semant_script.CanonicalInput.Encode.{name_le, pair}

-- A value, as a tree: sharing does not show, and a cyclic value ends in Python's RecursionError.
-- `other` is any object of another type; a dict's keys may be any values.
mutual
  pub data Json : Type 0 where
    null : Json
    boolean : Bool → Json
    int : ℤ → Json
    float : ℕ → Json
    string : Text → Json
    list : Elements → Json
    dict : Members → Json
    other : Json

  pub data Elements : Type 0 where
    no_elements : Elements
    element : Json → Elements → Elements

  pub data Members : Type 0 where
    no_members : Members
    member : Json → Json → Members → Members

-- `_assert_unicode_scalar_string`
unfoldable pub assert_unicode_scalar_string : Text → Result (Unit {0})
unfolding has_surrogate
assert_unicode_scalar_string s = if has_surrogate s then fail Failure.type_error else ok tt

abbrev pub finite_hex : Option ℕ → Result Text
finite_hex none = fail Failure.type_error
finite_hex (some bits) = if is_finite bits then ok (hex 16 bits) else fail Failure.type_error

-- `_number_to_binary64_hex` of an int and of a float
unfoldable pub int_to_binary64_hex : ℤ → Result Text
unfolding float_of_int is_finite hex
int_to_binary64_hex n = finite_hex (float_of_int n)

unfoldable pub float_to_binary64_hex : ℕ → Result Text
unfolding is_finite hex
float_to_binary64_hex bits = finite_hex (some bits)

abbrev pub number_node : Text → ExactJson
number_node digits = array (tag "number" ∷ ExactJson.string digits ∷ [])

-- `["object", entries]`, with the entries in the order of their names' UTF-8
unfoldable pub object_node : List (Text × ExactJson) → ExactJson
unfolding sort name_le
object_node entries = array (tag "object" ∷ array (map pair (sort name_le entries)) ∷ [])

-- one entry of a dict, and the rest of them; the name is tested before its value is encoded
unfoldable pub add_entry :
    Json → Result ExactJson → Result (List (Text × ExactJson)) → Result (List (Text × ExactJson))
unfolding assert_unicode_scalar_string
add_entry (Json.string name) node rest =
    bind (assert_unicode_scalar_string name)
      λ _. bind node λ t. bind rest λ entries. ok ((name, t) ∷ entries)
add_entry _ node rest = fail Failure.type_error

-- `_to_typed_node`
unfoldable mutual
  unfolding assert_unicode_scalar_string int_to_binary64_hex float_to_binary64_hex object_node
      add_entry

  pub to_typed_node : Json → Result ExactJson
  to_typed_node Json.null = ok (array (tag "null" ∷ []))
  to_typed_node (Json.boolean b) = ok (array (tag "boolean" ∷ ExactJson.boolean b ∷ []))
  to_typed_node (Json.int n) = bind (int_to_binary64_hex n) λ digits. ok (number_node digits)
  to_typed_node (Json.float bits) =
      bind (float_to_binary64_hex bits) λ digits. ok (number_node digits)
  to_typed_node (Json.string s) =
      bind (assert_unicode_scalar_string s) λ _. ok (array (tag "string" ∷ ExactJson.string s ∷ []))
  to_typed_node (Json.list vs) =
      bind (typed_elements vs) λ nodes. ok (array (tag "array" ∷ ExactJson.list nodes ∷ []))
  to_typed_node (Json.dict ms) = bind (typed_members ms) λ entries. ok (object_node entries)
  to_typed_node Json.other = fail Failure.type_error

  pub typed_elements : Elements → Result Items
  typed_elements Elements.no_elements = ok Items.nil
  typed_elements (Elements.element v vs) =
      bind (to_typed_node v) λ t. bind (typed_elements vs) λ ts. ok (Items.cons t ts)

  -- the loop over the items of a dict
  pub typed_members : Members → Result (List (Text × ExactJson))
  typed_members Members.no_members = ok []
  typed_members (Members.member name v ms) = add_entry name (to_typed_node v) (typed_members ms)
