-- ===== src/Constraints/Compiled.antt =====
-- `CompiledConstraints`, `ConstraintEvaluationBudget`, `evaluate_constraint_predicate` and
-- `json_values_equal` of constraints.py.
pub mod Agree
use semant_script.Prelude.{
  ℕ, zero, suc, ◌+◌, ◌*◌, Bool, true, false, not, ◌&&◌, ◌||◌, List, [], ◌∷◌, Option, none, some,
  ltb, leb, get_elem?, if◌then◌else◌,
}
use semant_script.Python.Text.{Text, codes}
use semant_script.Python.Float.{ℤ, pos}
use semant_script.Python.Values.{Value, Heap, is_text, get, as_dict}
use semant_script.CanonicalInput.Errors.{Result, ok, fail}
use semant_script.Constraints.Scan.{Budget}
use semant_script.Constraints.Expression.{
  maximum_constraint_depth, malformed, mapping, fields, validate_expression,
}
use semant_script.Constraints.View.{Arithmetic}
use semant_script.Constraints.Eval.{
  EvaluationError, Reply, Datum, Eval, ◌>>=◌, pure, raise, or_raise, boolean_of,
}
use semant_script.Constraints.Operators.{strict_equal}
use semant_script.Constraints.Evaluate.{evaluate}

abbrev pub maximum_evaluation_steps : ℕ
maximum_evaluation_steps = 10000000

abbrev pub maximum_aggregate_units : ℕ
maximum_aggregate_units = 10000000

-- The dicts of the constraints, by their addresses.
pub record CompiledConstraints : Type 0 where
  pub values : List ℕ
  pub node_count : ℕ

abbrev pub check_steps : ℕ → ℕ → Result (Unit {0})
check_steps node_count case_count =
    if ltb maximum_evaluation_steps (node_count * case_count) then malformed else ok tt

-- `ensure_evaluation_budget`
unfoldable pub ensure_evaluation_budget : CompiledConstraints → Value → Result (Unit {0})
ensure_evaluation_budget compiled (Value.int (pos n)) = check_steps compiled.node_count n
ensure_evaluation_budget compiled _ = malformed

-- `ConstraintEvaluationBudget(remaining_string_units)` and its `__post_init__`, with the budget of a
-- first case
unfoldable pub evaluation_budget : Value → Result Budget
evaluation_budget (Value.int (pos n)) =
    if leb n maximum_aggregate_units
    then ok (record { used = 0; aggregate_used = 0; aggregate_limit = n })
    else malformed
evaluation_budget _ = malformed

-- `new_case`
abbrev pub new_case : Budget → Budget
new_case b = record b { used = 0 }

abbrev pub new_budget : Budget
new_budget = record { used = 0; aggregate_used = 0; aggregate_limit = maximum_aggregate_units }

-- The two tests of `validate_case`, by `constraint["kind"]` and whether the output is the one that the
-- constraint names; another kind is never violated.
unfoldable pub raises_violation : Value → Bool → Bool
raises_violation kind equal =
    if is_text (codes "always") kind && not equal
    then true
    else if is_text (codes "never") kind && equal
    then true
    else false

-- the test of `evaluate_output_contract`
unfoldable pub is_violation : Value → Bool → Bool
is_violation kind equal =
    (is_text (codes "always") kind && not equal) || (is_text (codes "never") kind && equal)

-- What follows of an active constraint, by whether it is violated; `rest` is the loop's.
abbrev pub unless_violated : ℕ → Eval (List ℕ) → Bool → Eval (List ℕ)
unless_violated index rest true = raise (EvaluationError.violation index)
unless_violated index rest false = rest >>= λ active. pure (index ∷ active)

abbrev pub add_violation : Bool → ℕ → List ℕ × List ℕ → List ℕ × List ℕ
add_violation violated index r = (index ∷ r.0, if violated then index ∷ r.1 else r.1)

abbrev pub with_violation : ℕ → Eval (List ℕ × List ℕ) → Bool → Eval (List ℕ × List ℕ)
with_violation index rest violated = rest >>= λ r. pure (add_violation violated index r)

module _ (repr : ℕ → Text) (operate : Arithmetic → ℕ → ℕ → Option ℕ) (h : Heap) where
  abbrev pub evaluate_boolean : List (Value × Value) → Result ℕ → Eval Bool
  evaluate_boolean inputs (fail e) = raise EvaluationError.malformed
  evaluate_boolean inputs (ok a) =
      evaluate repr operate h inputs maximum_constraint_depth a >>= λ v.
      or_raise EvaluationError.not_boolean (boolean_of v)

  -- the predicate of a constraint, on the inputs
  unfoldable pub evaluate_predicate : ℕ → Value → Eval Bool
  unfolding evaluate mapping get as_dict ◌>>=◌
  evaluate_predicate constraint inputs = elim (as_dict h inputs) [
    | none ↦ raise EvaluationError.not_mapping
    | some es ↦ evaluate_boolean es (mapping h (get (codes "predicate") (fields h constraint)))
  ]

  abbrev at_index : Option ℕ → Value → Eval Bool
  at_index none inputs = raise EvaluationError.malformed
  at_index (some constraint) inputs = evaluate_predicate constraint inputs

  -- `_evaluate` of CompiledConstraints
  unfoldable pub evaluate_at : CompiledConstraints → Value → Value → Eval Bool
  unfolding evaluate_predicate
  evaluate_at compiled (Value.int (pos i)) inputs = at_index (get_elem? compiled.values i) inputs
  evaluate_at compiled _ inputs = raise EvaluationError.malformed

  -- `evaluate` of CompiledConstraints, on the budget of a new case
  unfoldable pub evaluate_case : CompiledConstraints → Value → Value → Eval Bool
  unfolding evaluate_at
  evaluate_case compiled index inputs b = evaluate_at compiled index inputs (new_case b)

  -- Does `validate_case` raise a violation of an active constraint?
  unfoldable pub is_violated : ℕ → Value → Eval Bool
  unfolding strict_equal raises_violation get ◌>>=◌
  is_violated constraint output = do
    required ← or_raise EvaluationError.malformed (get (codes "output") (fields h constraint))
    equal ← strict_equal h (Datum.datum output) (Datum.datum required)
    kind ← or_raise EvaluationError.malformed (get (codes "kind") (fields h constraint))
    pure (raises_violation kind equal)

  -- Does `evaluate_output_contract` report a violation of an active constraint?
  unfoldable pub reports_violation : ℕ → Value → Eval Bool
  unfolding strict_equal is_violation get ◌>>=◌
  reports_violation constraint output = do
    required ← or_raise EvaluationError.malformed (get (codes "output") (fields h constraint))
    equal ← strict_equal h (Datum.datum output) (Datum.datum required)
    kind ← or_raise EvaluationError.malformed (get (codes "kind") (fields h constraint))
    pure (is_violation kind equal)

  abbrev pub validate_active : Value → ℕ → ℕ → Eval (List ℕ) → Bool → Eval (List ℕ)
  validate_active output c index rest false = rest
  validate_active output c index rest true = is_violated c output >>= unless_violated index rest

  -- the loop of `validate_case`, from an index on
  unfoldable pub validate_from : Value → Value → ℕ → List ℕ → Eval (List ℕ)
  unfolding evaluate_predicate is_violated ◌>>=◌
  validate_from inputs output index [] = pure []
  validate_from inputs output index (c ∷ cs) =
      evaluate_predicate c inputs
      >>= validate_active output c index (validate_from inputs output (index + 1) cs)

  -- `validate_case`
  unfoldable pub validate_case : CompiledConstraints → Value → Value → Eval (List ℕ)
  unfolding validate_from
  validate_case compiled inputs output b =
      validate_from inputs output 0 compiled.values (new_case b)

  abbrev pub contract_active :
      Value → ℕ → ℕ → Eval (List ℕ × List ℕ) → Bool → Eval (List ℕ × List ℕ)
  contract_active output c index rest false = rest
  contract_active output c index rest true =
      reports_violation c output >>= with_violation index rest

  -- the loop of `evaluate_output_contract`
  unfoldable pub contract_from : Value → Value → ℕ → List ℕ → Eval (List ℕ × List ℕ)
  unfolding evaluate_predicate reports_violation ◌>>=◌
  contract_from inputs output index [] = pure ([], [])
  contract_from inputs output index (c ∷ cs) =
      evaluate_predicate c inputs
      >>= contract_active output c index (contract_from inputs output (index + 1) cs)

  -- `evaluate_output_contract`
  unfoldable pub evaluate_output_contract :
      CompiledConstraints → Value → Value → Eval (List ℕ × List ℕ)
  unfolding contract_from
  evaluate_output_contract compiled inputs output b =
      contract_from inputs output 0 compiled.values (new_case b)

  abbrev after_expression : Result ℕ → ℕ → Value → Reply Bool
  after_expression (fail e) constraint inputs = Reply.error EvaluationError.malformed
  after_expression (ok n) constraint inputs = (evaluate_predicate constraint inputs new_budget).0

  abbrev validated : Result ℕ → ℕ → Value → Reply Bool
  validated (fail e) constraint inputs = Reply.error EvaluationError.malformed
  validated (ok a) constraint inputs = after_expression (validate_expression h a) constraint inputs

  -- `evaluate_constraint_predicate`
  unfoldable pub evaluate_constraint_predicate : ℕ → Value → Reply Bool
  unfolding evaluate_predicate validate_expression mapping get
  evaluate_constraint_predicate constraint inputs =
      validated (mapping h (get (codes "predicate") (fields h constraint))) constraint inputs

-- `json_values_equal`
unfoldable pub json_values_equal : Heap → Value → Value → Reply Bool
unfolding strict_equal
json_values_equal h left right =
    (strict_equal h (Datum.datum left) (Datum.datum right) new_budget).0
