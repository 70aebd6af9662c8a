-- ===== src/Constraints/Expression.antt =====
-- `_validate_expression` and `predicate_depends_on_inputs` of constraints.py, on the raw data of a
-- predicate. A ConstraintConfigurationError is a ValueError, and stands as one here.
pub mod Denotes
pub mod Search
use semant_script.Prelude.{
  ℕ, zero, suc, ◌+◌, String, Bool, true, false, not, ◌&&◌, List, [], ◌∷◌, Option, none, some, ltb,
  if◌then◌else◌,
}
use semant_script.Python.Text.{Text, codes, has_surrogate, text_mem}
use semant_script.Python.Float.{float_of_int, is_finite}
use semant_script.Python.Values.{Value, Object, Heap, is_text, get, as_dict, identity}
use semant_script.CanonicalInput.Errors.{Result, ok, fail, bind, Failure}

abbrev pub maximum_constraint_nodes : ℕ
maximum_constraint_nodes = 100000

abbrev pub maximum_constraint_depth : ℕ
maximum_constraint_depth = 100

abbrev pub Fields : Type 0
Fields = List (Value × Value)

abbrev pub malformed : {A : Type 0} → Result A
malformed = fail Failure.value_error

abbrev pub require : Bool → Result (Unit {0})
require b = if b then ok tt else malformed

-- `expression["node"]`; `unsupported` is any other value, or none.
pub data Node : Type 0 where
  literal input property index unary binary unsupported : Node

unfoldable pub node_of : Option Value → Node
unfolding is_text
node_of none = Node.unsupported
node_of (some v) =
    if is_text (codes "literal") v
    then Node.literal
    else if is_text (codes "input") v
    then Node.input
    else if is_text (codes "property") v
    then Node.property
    else if is_text (codes "index") v
    then Node.index
    else if is_text (codes "unary") v
    then Node.unary
    else if is_text (codes "binary") v
    then Node.binary
    else Node.unsupported

known_keys : List Text → Fields → Bool
known_keys expected [] = true
known_keys expected ((Value.string s, _) ∷ es) = text_mem s expected && known_keys expected es
known_keys expected (_ ∷ es) = false

has_keys : List Text → Fields → Bool
has_keys [] es = true
has_keys (name ∷ names) es = elim (get name es) [ none ↦ false | some _ ↦ has_keys names es ]

-- `_exact_keys`
unfoldable pub exact_keys : List Text → Fields → Result (Unit {0})
unfolding known_keys has_keys get text_mem
exact_keys expected es = require (known_keys expected es && has_keys expected es)

-- a finite JSON scalar
unfoldable pub is_literal : Option Value → Bool
unfolding float_of_int is_finite has_surrogate
is_literal (some Value.null) = true
is_literal (some (Value.boolean b)) = true
is_literal (some (Value.int n)) = elim (float_of_int n) [
  | none ↦ false
  | some bits ↦ is_finite bits
]
is_literal (some (Value.float bits)) = is_finite bits
is_literal (some (Value.string s)) = not (has_surrogate s)
is_literal _ = false

abbrev is_name : Option Value → Bool
is_name (some (Value.string (c ∷ s))) = true
is_name _ = false

abbrev is_string : Option Value → Bool
is_string (some (Value.string s)) = true
is_string _ = false

abbrev is_one_of : List Text → Option Value → Bool
is_one_of operators (some (Value.string s)) = text_mem s operators
is_one_of operators _ = false

abbrev unary_operators : List Text
unary_operators = codes "!" ∷ codes "+" ∷ codes "-" ∷ []

abbrev binary_operators : List Text
binary_operators =
    codes "==="
    ∷ codes "!=="
    ∷ codes "<"
    ∷ codes "<="
    ∷ codes ">"
    ∷ codes ">="
    ∷ codes "&&"
    ∷ codes "||"
    ∷ codes "+"
    ∷ codes "-"
    ∷ codes "*"
    ∷ codes "/"
    ∷ codes "%"
    ∷ codes "**"
    ∷ []

-- what is tested of one node, before its children are
unfoldable pub check_node : Node → Fields → Result (Unit {0})
unfolding exact_keys is_literal get text_mem
check_node Node.literal es =
    bind (exact_keys (codes "node" ∷ codes "value" ∷ []) es)
      λ _. require (is_literal (get (codes "value") es))
check_node Node.input es =
    bind (exact_keys (codes "node" ∷ codes "name" ∷ []) es)
      λ _. require (is_name (get (codes "name") es))
check_node Node.property es =
    bind (exact_keys (codes "node" ∷ codes "object" ∷ codes "property" ∷ []) es)
      λ _. require (is_string (get (codes "property") es))
check_node Node.index es = exact_keys (codes "node" ∷ codes "object" ∷ codes "index" ∷ []) es
check_node Node.unary es =
    bind (exact_keys (codes "node" ∷ codes "operator" ∷ codes "operand" ∷ []) es)
      λ _. require (is_one_of unary_operators (get (codes "operator") es))
check_node Node.binary es =
    bind (exact_keys (codes "node" ∷ codes "operator" ∷ codes "left" ∷ codes "right" ∷ []) es)
      λ _. require (is_one_of binary_operators (get (codes "operator") es))
check_node Node.unsupported es = malformed

abbrev pub is_input : Node → Bool
is_input Node.input = true
is_input _ = false

module _ (h : Heap) where
  -- `_mapping`
  unfoldable pub mapping : Option Value → Result ℕ
  unfolding as_dict identity
  mapping none = malformed
  mapping (some v) = elim (as_dict h v) [ none ↦ malformed | some es ↦ ok (identity v) ]

  abbrev one_child : String → Fields → Result (List ℕ)
  one_child a es = bind (mapping (get (codes a) es)) λ x. ok (x ∷ [])

  abbrev two_children : String → String → Fields → Result (List ℕ)
  two_children a b es =
      bind (mapping (get (codes a) es)) λ x. bind (mapping (get (codes b) es)) λ y. ok (x ∷ y ∷ [])

  -- the children of a node, in the order in which they are appended to `pending`
  unfoldable pub children : Node → Fields → Result (List ℕ)
  unfolding mapping get
  children Node.property es = one_child "object" es
  children Node.index es = two_children "object" "index" es
  children Node.unary es = one_child "operand" es
  children Node.binary es = two_children "left" "right" es
  children node es = ok []

  abbrev items_of : Object → Fields
  items_of (Object.dict es) = es
  items_of _ = []

  abbrev pub fields : ℕ → Fields
  fields a = items_of (h a)

  unfoldable pub node_at : ℕ → Node
  unfolding node_of get
  node_at a = node_of (get (codes "node") (fields a))

  -- `pending.append`, child by child; the head is the end that `pop` takes from
  abbrev pub append_children : List ℕ → ℕ → List (ℕ × ℕ) → List (ℕ × ℕ)
  append_children [] depth pending = pending
  append_children (a ∷ cs) depth pending = append_children cs depth ((a, depth) ∷ pending)

  -- The loop of `_validate_expression`, by the nodes that are left of its limit: it raises when there
  -- are none, so a predicate that is cyclic on the heap ends too.
  unfoldable pub validate_pending : ℕ → ℕ → List (ℕ × ℕ) → Result ℕ
  unfolding node_at check_node children
  validate_pending remaining nodes [] = ok nodes
  validate_pending zero nodes (p ∷ pending) = malformed
  validate_pending (suc remaining) nodes (p ∷ pending) =
      bind (require (not (ltb maximum_constraint_depth p.1))) λ _.
        bind (check_node (node_at p.0) (fields p.0)) λ _.
          bind (children (node_at p.0) (fields p.0))
            λ cs. validate_pending remaining (nodes + 1) (append_children cs (p.1 + 1) pending)

  -- `_validate_expression`
  unfoldable pub validate_expression : ℕ → Result ℕ
  unfolding validate_pending
  validate_expression a = validate_pending maximum_constraint_nodes 0 ((a, 1) ∷ [])

  abbrev pub append_all : List ℕ → List ℕ → List ℕ
  append_all [] pending = pending
  append_all (a ∷ cs) pending = append_all cs (a ∷ pending)

  -- what one round of the search appends
  unfoldable pub search_children : Node → Fields → Result (List ℕ)
  unfolding mapping get
  search_children Node.property es = one_child "object" es
  search_children Node.unary es = one_child "operand" es
  search_children Node.index es = two_children "object" "index" es
  search_children Node.binary es = two_children "left" "right" es
  search_children node es = ok []

  -- The loop of `predicate_depends_on_inputs`; none is that the rounds ran out.
  unfoldable pub search_inputs : ℕ → List ℕ → Option (Result Bool)
  unfolding node_at search_children
  search_inputs rounds [] = some (ok false)
  search_inputs zero (a ∷ pending) = none
  search_inputs (suc rounds) (a ∷ pending) =
      if is_input (node_at a)
      then some (ok true)
      else elim (search_children (node_at a) (fields a)) [
        | ok cs ↦ search_inputs rounds (append_all cs pending)
        | fail e ↦ some (fail e)
      ]

  abbrev pub after_validation : ℕ → Result ℕ → Option (Result Bool)
  after_validation a (fail e) = some (fail e)
  after_validation a (ok nodes) = search_inputs maximum_constraint_nodes (a ∷ [])

  -- the validation and the search
  unfoldable pub depends : ℕ → Option (Result Bool)
  depends a = after_validation a (validate_expression a)

  -- `predicate_depends_on_inputs`
  unfoldable pub predicate_depends_on_inputs : ℕ → Option (Result Bool)
  unfolding depends mapping get
  predicate_depends_on_inputs constraint =
      elim (mapping (get (codes "predicate") (fields constraint))) [
        | fail e ↦ some (fail e)
        | ok a ↦ depends a
      ]
