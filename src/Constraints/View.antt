-- ===== src/Constraints/View.antt =====
-- A node of a predicate as `_infer_expression_types` and `_evaluate` of constraints.py read it.
use semant_script.Prelude.{ℕ, Option, none, some, if◌then◌else◌}
use semant_script.Python.Text.{Text, codes}
use semant_script.Python.Values.{Value, Heap, is_text, get}
use semant_script.Constraints.Expression.{Node, Fields, fields, node_at}

pub data Unary : Type 0 where
  invert plus minus : Unary

pub data Arithmetic : Type 0 where
  add subtract multiply divide remainder power : Arithmetic

pub data Comparison : Type 0 where
  less less_equal greater greater_equal : Comparison

pub data Binary : Type 0 where
  equal unequal both either : Binary
  compare : Comparison → Binary
  arithmetic : Arithmetic → Binary

-- A child is not yet known to be a dict. What `_validate_expression` refuses is malformed.
pub data View : Type 0 where
  literal : Option Value → View
  input : Text → View
  property : Option Value → Text → View
  index : Option Value → Option Value → View
  unary : Unary → Option Value → View
  binary : Binary → Option Value → Option Value → View
  malformed : View

unfoldable pub unary_of : Value → Option Unary
unfolding is_text
unary_of v =
    if is_text (codes "!") v
    then some Unary.invert
    else if is_text (codes "+") v
    then some Unary.plus
    else if is_text (codes "-") v
    then some Unary.minus
    else none

unfoldable pub binary_of : Value → Option Binary
unfolding is_text
binary_of v =
    if is_text (codes "===") v
    then some Binary.equal
    else if is_text (codes "!==") v
    then some Binary.unequal
    else if is_text (codes "&&") v
    then some Binary.both
    else if is_text (codes "||") v
    then some Binary.either
    else if is_text (codes "<") v
    then some (Binary.compare Comparison.less)
    else if is_text (codes "<=") v
    then some (Binary.compare Comparison.less_equal)
    else if is_text (codes ">") v
    then some (Binary.compare Comparison.greater)
    else if is_text (codes ">=") v
    then some (Binary.compare Comparison.greater_equal)
    else if is_text (codes "+") v
    then some (Binary.arithmetic Arithmetic.add)
    else if is_text (codes "-") v
    then some (Binary.arithmetic Arithmetic.subtract)
    else if is_text (codes "*") v
    then some (Binary.arithmetic Arithmetic.multiply)
    else if is_text (codes "/") v
    then some (Binary.arithmetic Arithmetic.divide)
    else if is_text (codes "%") v
    then some (Binary.arithmetic Arithmetic.remainder)
    else if is_text (codes "**") v
    then some (Binary.arithmetic Arithmetic.power)
    else none

abbrev pub with_text : Option Value → (Text → View) → View
with_text (some (Value.string s)) k = k s
with_text _ k = View.malformed

abbrev pub with_operator : {A : Type 0} → (Value → Option A) → Option Value → (A → View) → View
with_operator of none k = View.malformed
with_operator of (some v) k = elim (of v) [ none ↦ View.malformed | some op ↦ k op ]

unfoldable pub view_node : Node → Fields → View
unfolding get unary_of binary_of
view_node Node.literal es = View.literal (get (codes "value") es)
view_node Node.input es = with_text (get (codes "name") es) View.input
view_node Node.property es =
    with_text (get (codes "property") es) (View.property (get (codes "object") es))
view_node Node.index es = View.index (get (codes "object") es) (get (codes "index") es)
view_node Node.unary es =
    with_operator unary_of (get (codes "operator") es)
      λ op. View.unary op (get (codes "operand") es)
view_node Node.binary es =
    with_operator binary_of (get (codes "operator") es)
      λ op. View.binary op (get (codes "left") es) (get (codes "right") es)
view_node Node.unsupported es = View.malformed

unfoldable pub view : Heap → ℕ → View
unfolding view_node node_at
view h a = view_node (node_at h a) (fields h a)
