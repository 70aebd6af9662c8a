-- ===== src/Constraints/Compile.antt =====
-- `compile_constraints` of constraints.py. The case contract of case_contract.py is a parameter: the
-- check of the record and that of a constraint's output.
pub mod Accepted
mod Tests
use semant_script.Prelude.{
  ◌||◌, ℕ, zero, suc, ◌+◌, Bool, true, false, List, [], ◌∷◌, Option, none, some, ltb, length,
  if◌then◌else◌,
}
use semant_script.Python.Text.{Text, codes}
use semant_script.Python.Values.{is_text, Value, Heap, get, as_list}
use semant_script.CanonicalInput.Errors.{Result, ok, fail, bind}
use semant_script.Constraints.Expression.{
  maximum_constraint_nodes, maximum_constraint_depth, malformed, require, mapping, fields,
  exact_keys, validate_expression,
}
use semant_script.Constraints.Types.{
  Types, Infer, ◌>>=◌, ◌>>◌, pure, refuse, lift, maximum_type_operations,
}
use semant_script.Constraints.Types.Spec.{constraint_input_types}
use semant_script.Constraints.Types.Infer.{
  is_boolean_type, require_kinds, infer_expression_types, kinds_are,
}
use semant_script.Constraints.Compiled.{CompiledConstraints, new_budget, validate_case}
use semant_script.Constraints.View.{Arithmetic}
use semant_script.Constraints.Eval.{EvaluationError, Reply}

abbrev pub maximum_constraint_count : ℕ
maximum_constraint_count = 10000

-- what case_contract.py checks
pub record CaseContract : Type 0 where
  pub build_case_schema : ℕ → Result (Unit {0})
  pub validate_constraint_output : ℕ → Option Value → Result (Unit {0})

abbrev pub is_kind : Option Value → Bool
is_kind none = false
is_kind (some v) = is_text (codes "always") v || is_text (codes "never") v

abbrev pub is_nonempty_text : Option Value → Bool
is_nonempty_text (some (Value.string (c ∷ s))) = true
is_nonempty_text _ = false

abbrev pub within_nodes : ℕ → Infer (Unit {0})
within_nodes n = if ltb maximum_constraint_nodes n then refuse else pure tt

module _ (h : Heap) where
  -- what is tested of a constraint before its predicate is; the result is the predicate
  unfoldable pub check_constraint : ℕ → Result ℕ
  unfolding exact_keys mapping get
  check_constraint c =
      bind
        (exact_keys (codes "kind" ∷ codes "source" ∷ codes "predicate" ∷ codes "output" ∷ [])
          (fields h c))
        λ _. bind (require (is_kind (get (codes "kind") (fields h c)))) λ _.
          bind (require (is_nonempty_text (get (codes "source") (fields h c))))
            λ _. mapping h (get (codes "predicate") (fields h c))

module _ (contract : CaseContract) (repr : ℕ → Text) (h : Heap) (ir : ℕ) where
  -- one round of the loop: the constraint, with the nodes so far; `deepcopy` of plain data that nothing
  -- changes gives data that reads the same, and its failure is left out
  unfoldable pub compile_constraint : List (Text × Types) → ℕ → Value → Infer (ℕ × ℕ)
  unfolding check_constraint validate_expression infer_expression_types kinds_are mapping get
  compile_constraint inputs total raw = do
    c ← lift (mapping h (some raw))
    predicate ← lift (check_constraint h c)
    nodes ← lift (validate_expression h predicate)
    within_nodes (total + nodes)
    ts ← infer_expression_types repr h inputs maximum_constraint_depth predicate
    require_kinds is_boolean_type ts
    lift (contract.validate_constraint_output ir (get (codes "output") (fields h c)))
    pure (c, total + nodes)

  -- the loop
  unfoldable pub compile_onto : List (Text × Types) → ℕ → List Value → Infer CompiledConstraints
  unfolding compile_constraint
  compile_onto inputs total [] = pure (record { values = []; node_count = total })
  compile_onto inputs total (raw ∷ rest) = do
    (c, total') ← compile_constraint inputs total raw
    compiled ← compile_onto inputs total' rest
    pure (record compiled { values = c ∷ compiled.values })

  abbrev list_of : Option Value → Result (List Value)
  list_of none = malformed
  list_of (some v) = elim (as_list h v) [ none ↦ malformed | some xs ↦ ok xs ]

  -- the constraints of the definition
  unfoldable pub raw_constraints : Result (List Value)
  unfolding mapping get as_list
  raw_constraints = bind (mapping h (get (codes "definition") (fields h ir))) λ d.
      bind (list_of (get (codes "constraints") (fields h d)))
        λ raw. if ltb maximum_constraint_count (length raw) then malformed else ok raw

  -- `compile_constraints` of a dict
  unfoldable pub compile_constraints : Result CompiledConstraints
  unfolding constraint_input_types raw_constraints compile_onto
  compile_constraints = bind (contract.build_case_schema ir) λ _.
      bind
        ((do
          inputs ← constraint_input_types h ir
          raw ← lift raw_constraints
          compile_onto inputs 0 raw)
          maximum_type_operations)
        λ r. ok r.0

  abbrev validate_compiled :
      (Arithmetic → ℕ → ℕ → Option ℕ) → Value → Value → Result CompiledConstraints → Reply (List ℕ)
  validate_compiled operate inputs output (fail e) = Reply.error EvaluationError.malformed
  validate_compiled operate inputs output (ok compiled) =
      (validate_case repr operate h compiled inputs output new_budget).0

  -- `validate_case_constraints` of a case's inputs and output
  unfoldable pub validate_case_constraints :
      (Arithmetic → ℕ → ℕ → Option ℕ) → Value → Value → Reply (List ℕ)
  unfolding compile_constraints validate_case
  validate_case_constraints operate inputs output =
      validate_compiled operate inputs output compile_constraints
