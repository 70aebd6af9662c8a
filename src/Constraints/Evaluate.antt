-- ===== src/Constraints/Evaluate.antt =====
-- `_evaluate` of constraints.py. The arithmetic of doubles, which is the machine's, and `repr` of a
-- float are parameters.
use semant_script.Prelude.{ℕ, zero, suc, true, false, not, List, Option, if◌then◌else◌}
use semant_script.Python.Text.{Text}
use semant_script.Python.Values.{Value, Heap, get}
use semant_script.CanonicalInput.Errors.{Result, ok, fail}
use semant_script.Constraints.Expression.{mapping}
use semant_script.Constraints.View.{Arithmetic, Binary, View, view}
use semant_script.Constraints.Eval.{
  EvaluationError, Datum, Eval, ◌>>=◌, pure, raise, or_raise, truth, boolean_of,
}
use semant_script.Constraints.Reading.{read_property, read_index}
use semant_script.Constraints.Operators.{strict_equal, ordered_compare, apply_unary, calculate}

abbrev pub require_boolean : Datum → Eval Datum
require_boolean v = do t ← or_raise EvaluationError.not_boolean (boolean_of v); pure (truth t)

module _ (operate : Arithmetic → ℕ → ℕ → Option ℕ) (h : Heap) where
  -- what an operator does of its left operand and the action of its right one
  unfoldable pub apply_binary : Binary → Datum → Eval Datum → Eval Datum
  unfolding strict_equal ordered_compare calculate ◌>>=◌
  apply_binary Binary.both left right = do
    t ← or_raise EvaluationError.not_boolean (boolean_of left)
    if not t then pure (truth false) else right >>= require_boolean
  apply_binary Binary.either left right = do
    t ← or_raise EvaluationError.not_boolean (boolean_of left)
    if t then pure (truth true) else right >>= require_boolean
  apply_binary Binary.equal left right = do v ← right; t ← strict_equal h left v; pure (truth t)
  apply_binary Binary.unequal left right = do
    v ← right
    t ← strict_equal h left v
    pure (truth (not t))
  apply_binary (Binary.compare op) left right = do
    v ← right
    t ← ordered_compare op left v
    pure (truth t)
  apply_binary (Binary.arithmetic op) left right = do v ← right; calculate operate op left v

module _ (repr : ℕ → Text) (operate : Arithmetic → ℕ → ℕ → Option ℕ) (h : Heap)
    (inputs : List (Value × Value)) where
  abbrev pub from_child : (ℕ → Eval Datum) → Result ℕ → Eval Datum
  from_child again (fail e) = raise EvaluationError.malformed
  from_child again (ok a) = again a

  abbrev pub evaluate_child : (ℕ → Eval Datum) → Option Value → Eval Datum
  evaluate_child again child = from_child again (mapping h child)

  -- what is done of a node; `again` is the recursion
  unfoldable pub evaluate_view : (ℕ → Eval Datum) → View → Eval Datum
  unfolding mapping get read_property read_index apply_unary apply_binary ◌>>=◌
  evaluate_view again (View.literal v) = do
    w ← or_raise EvaluationError.malformed v
    pure (Datum.datum w)
  evaluate_view again (View.input name) = do
    w ← or_raise EvaluationError.missing_input (get name inputs)
    pure (Datum.datum w)
  evaluate_view again (View.property object name) = do
    v ← evaluate_child again object
    read_property h name v
  evaluate_view again (View.index object index) = do
    v ← evaluate_child again object
    i ← evaluate_child again index
    read_index h repr v i
  evaluate_view again (View.unary op operand) = do
    v ← evaluate_child again operand
    apply_unary op v
  evaluate_view again (View.binary op left right) = do
    v ← evaluate_child again left
    apply_binary operate h op v (evaluate_child again right)
  evaluate_view again View.malformed = raise EvaluationError.malformed

  -- `_evaluate`, by the levels of nesting
  unfoldable pub evaluate : ℕ → ℕ → Eval Datum
  unfolding evaluate_view view
  evaluate zero a = raise EvaluationError.too_deep
  evaluate (suc levels) a = evaluate_view (evaluate levels) (view h a)
