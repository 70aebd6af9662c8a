-- ===== src/Constraints/Levels/Enough.antt =====
-- The levels of `MAXIMUM_CONSTRAINT_DEPTH` for `_infer_expression_types` and `_evaluate` of constraints.py.
use semant_script.Prelude.{ℕ, suc, ◌≤◌, ◌≡◌, refl, List, Option, none, some, arith}
use semant_script.Python.Text.{Text}
use semant_script.Python.Values.{Value, Heap}
use semant_script.CanonicalInput.Errors.{ok}
use semant_script.Constraints.Expression.{maximum_constraint_depth, validate_expression}
use semant_script.Constraints.Expression.Denotes.{validate_expression-Denotes}
use semant_script.Constraints.View.{Arithmetic, View, view}
use semant_script.Constraints.Types.{Types, Infer}
use semant_script.Constraints.Types.Infer.{infer_child, infer_view, infer_expression_types}
use semant_script.Constraints.Eval.{Datum, Eval}
use semant_script.Constraints.Evaluate.{evaluate_child, evaluate_view, evaluate}
use semant_script.Constraints.Levels.{SameChild, Same, levels_lem}

module _ (repr : ℕ → Text) (h : Heap) (inputs : List (Text × Types)) where
  infer_child-eq :
      (f g : ℕ → Infer Types) (child : Option Value)
      → SameChild h f g child
      → infer_child repr h inputs f child ≡ infer_child repr h inputs g child
  infer_child-eq f g child s = rw s.is_dict s.same

  infer_view-eq :
      (f g : ℕ → Infer Types) (v : View)
      → Same h f g v
      → infer_view repr h inputs f v ≡ infer_view repr h inputs g v
  unfolding infer_view
  infer_view-eq f g (View.literal none) s = refl
  infer_view-eq f g (View.literal (some v)) s = refl
  infer_view-eq f g (View.input name) s = refl
  infer_view-eq f g (View.property object name) s = rw (infer_child-eq f g object s) refl
  infer_view-eq f g (View.index object index) (s, t) =
      rw (infer_child-eq f g object s, infer_child-eq f g index t) refl
  infer_view-eq f g (View.unary op operand) s = rw (infer_child-eq f g operand s) refl
  infer_view-eq f g (View.binary op left right) (s, t) =
      rw (infer_child-eq f g left s, infer_child-eq f g right t) refl
  infer_view-eq f g View.malformed s = refl

  infer_step :
      (n m a : ℕ)
      → Same h
          (infer_expression_types repr h inputs n)
          (infer_expression_types repr h inputs m)
          (view h a)
      → infer_expression_types repr h inputs (suc n) a
        ≡ infer_expression_types repr h inputs (suc m) a
  unfolding infer_expression_types
  infer_step n m a s =
      rw
        (infer_view-eq (infer_expression_types repr h inputs n)
          (infer_expression_types repr h inputs m) (view h a) s)
        refl

  -- The levels of `maximum_constraint_depth` are enough to infer the types of a valid predicate: with
  -- any more levels the types or the error, and the budget that is left, are the same.
  pub infer_expression_types-levels :
      (a nodes n : ℕ)
      → validate_expression h a ≡ ok nodes
      → maximum_constraint_depth ≤ n
      → infer_expression_types repr h inputs n a
        ≡ infer_expression_types repr h inputs maximum_constraint_depth a
  infer_expression_types-levels a nodes n valid le =
      let (e, den, _, _, low) = validate_expression-Denotes h a nodes valid in
      levels_lem h (infer_expression_types repr h inputs) infer_step a e n maximum_constraint_depth
        den (omega (arith, le, low)) low

module _ (repr : ℕ → Text) (operate : Arithmetic → ℕ → ℕ → Option ℕ) (h : Heap)
    (inputs : List (Value × Value)) where
  evaluate_child-eq :
      (f g : ℕ → Eval Datum) (child : Option Value)
      → SameChild h f g child
      → evaluate_child repr operate h inputs f child ≡ evaluate_child repr operate h inputs g child
  evaluate_child-eq f g child s = rw s.is_dict s.same

  evaluate_view-eq :
      (f g : ℕ → Eval Datum) (v : View)
      → Same h f g v
      → evaluate_view repr operate h inputs f v ≡ evaluate_view repr operate h inputs g v
  unfolding evaluate_view
  evaluate_view-eq f g (View.literal v) s = refl
  evaluate_view-eq f g (View.input name) s = refl
  evaluate_view-eq f g (View.property object name) s = rw (evaluate_child-eq f g object s) refl
  evaluate_view-eq f g (View.index object index) (s, t) =
      rw (evaluate_child-eq f g object s, evaluate_child-eq f g index t) refl
  evaluate_view-eq f g (View.unary op operand) s = rw (evaluate_child-eq f g operand s) refl
  evaluate_view-eq f g (View.binary op left right) (s, t) =
      rw (evaluate_child-eq f g left s, evaluate_child-eq f g right t) refl
  evaluate_view-eq f g View.malformed s = refl

  evaluate_step :
      (n m a : ℕ)
      → Same h (evaluate repr operate h inputs n) (evaluate repr operate h inputs m) (view h a)
      → evaluate repr operate h inputs (suc n) a ≡ evaluate repr operate h inputs (suc m) a
  unfolding evaluate
  evaluate_step n m a s =
      evaluate_view-eq (evaluate repr operate h inputs n) (evaluate repr operate h inputs m)
        (view h a) s

  -- The levels of `maximum_constraint_depth` are enough to evaluate a valid predicate: with any more
  -- levels the outcome and the budget that is left are the same, on any inputs.
  pub evaluate-levels :
      (a nodes n : ℕ)
      → validate_expression h a ≡ ok nodes
      → maximum_constraint_depth ≤ n
      → evaluate repr operate h inputs n a
        ≡ evaluate repr operate h inputs maximum_constraint_depth a
  evaluate-levels a nodes n valid le =
      let (e, den, _, _, low) = validate_expression-Denotes h a nodes valid in
      levels_lem h (evaluate repr operate h inputs) evaluate_step a e n maximum_constraint_depth den
        (omega (arith, le, low)) low
