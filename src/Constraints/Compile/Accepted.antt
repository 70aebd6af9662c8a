-- ===== src/Constraints/Compile/Accepted.antt =====
-- What `compile_constraints` of constraints.py has checked of the constraints that it returns, and
-- what that means for their evaluation.
use semant_script.Prelude.{
  ℕ, ◌+◌, ◌≡◌, refl, subst, Bool, true, false, List, [], ◌∷◌, Option, some, All,
}
use semant_script.Python.Text.{Text, codes}
use semant_script.Python.Values.{Value, Object, Heap, get, as_dict}
use semant_script.CanonicalInput.Errors.{ok, bind-eq-ok}
use semant_script.Constraints.Expression.{
  maximum_constraint_depth, require, mapping, fields, exact_keys, validate_expression,
}
use semant_script.Constraints.View.{Arithmetic}
use semant_script.Constraints.Eval.{EvaluationError, or_raise, boolean_of}
use semant_script.Constraints.Evaluate.{evaluate}
use semant_script.Constraints.Types.{Types, lift, maximum_type_operations}
use semant_script.Constraints.Types.Spec.{constraint_input_types, list_entry}
use semant_script.Constraints.Types.Fits.Sound.{lifted-ok}
use semant_script.Constraints.Types.Fits.Inputs.{FitsEntry, constraint_input_types-FitsInputs}
use semant_script.Constraints.Types.Infer.{
  is_boolean_type, require_kinds, kinds_are, infer_expression_types,
}
use semant_script.Constraints.Types.Merge.{ok_value, ok_first}
use semant_script.Constraints.Compiled.{CompiledConstraints, evaluate_predicate}
use semant_script.Constraints.Compile.{
  CaseContract, check_constraint, is_kind, is_nonempty_text, within_nodes, compile_constraint,
  compile_onto, raw_constraints, compile_constraints,
}
use semant_script.Constraints.Safety.{Safe, Safe-pure, Safe-bind}
use semant_script.Constraints.Safety.Kinds.{kinds_are-HasSome, boolean_type-Has}
use semant_script.Constraints.Safety.Typed.{FitsInputs, evaluate-Safe}

require-true : (c : Bool) (b : ℕ) {x : Unit {0} × ℕ} → lift (require c) b ≡ ok x → c ≡ true
require-true true b e = refl
require-true false b e = cc

module _ (contract : CaseContract) (repr : ℕ → Text) (h : Heap) (ir : ℕ) where
  -- The predicate of a constraint is valid and has only boolean types.
  pub record Accepted (inputs : List (Text × Types)) (c : ℕ) : Type 0 where
    pub predicate : ℕ
    pub found : mapping h (get (codes "predicate") (fields h c)) ≡ ok predicate
    pub nodes : ℕ
    pub valid : validate_expression h predicate ≡ ok nodes
    pub types : Types
    pub before : ℕ
    pub after : ℕ
    pub inferred :
        infer_expression_types repr h inputs maximum_constraint_depth predicate before
        ≡ ok (types, after)
    pub boolean : kinds_are is_boolean_type types ≡ true

  predicate-found :
      (c p : ℕ)
      → check_constraint h c ≡ ok p
      → mapping h (get (codes "predicate") (fields h c)) ≡ ok p
  unfolding check_constraint
  predicate-found c p e =
      let (u, keys, e₁) =
        bind-eq-ok
          (exact_keys (codes "kind" ∷ codes "source" ∷ codes "predicate" ∷ codes "output" ∷ [])
            (fields h c))
          _ e in
      let (v, kind, e₂) = bind-eq-ok (require (is_kind (get (codes "kind") (fields h c)))) _ e₁ in
      let (w, source, e₃) =
        bind-eq-ok (require (is_nonempty_text (get (codes "source") (fields h c)))) _ e₂ in
      e₃

  compile_constraint-Accepted :
      (inputs : List (Text × Types)) (total : ℕ) (raw : Value) (b b' : ℕ) (r : ℕ × ℕ)
      → compile_constraint contract repr h ir inputs total raw b ≡ ok (r, b')
      → Accepted inputs r.0
  unfolding compile_constraint
  compile_constraint-Accepted inputs total raw b b' r e =
      let (c, is_dict, e₁) = bind-eq-ok (lift (mapping h (some raw)) b) _ e in
      let (p, checked, e₂) = bind-eq-ok (lift (check_constraint h c.0) c.1) _ e₁ in
      let (n, valid, e₃) = bind-eq-ok (lift (validate_expression h p.0) p.1) _ e₂ in
      let (w, within, e₄) = bind-eq-ok (within_nodes (total + n.0) n.1) _ e₃ in
      let (ts, inferred, e₅) =
        bind-eq-ok (infer_expression_types repr h inputs maximum_constraint_depth p.0 w.1) _ e₄ in
      let (k, kinds, e₆) = bind-eq-ok (require_kinds is_boolean_type ts.0 ts.1) _ e₅ in
      let (o, output, e₇) =
        bind-eq-ok
          (lift (contract.validate_constraint_output ir (get (codes "output") (fields h c.0))) k.1)
          _ e₆ in
      subst (λ (r : ℕ × ℕ). Accepted inputs r.0) (ok_first e₇)
        (record {
          predicate = p.0;
          found = predicate-found c.0 p.0 (lifted-ok (check_constraint h c.0) c.1 checked);
          nodes = n.0;
          valid = lifted-ok (validate_expression h p.0) p.1 valid;
          types = ts.0;
          before = w.1;
          after = ts.1;
          inferred = inferred;
          boolean = require-true (kinds_are is_boolean_type ts.0) ts.1 kinds;
        })

  compile_onto-Accepted :
      (inputs : List (Text × Types)) (total : ℕ) (raw : List Value) (b b' : ℕ)
      (r : CompiledConstraints)
      → compile_onto contract repr h ir inputs total raw b ≡ ok (r, b')
      → All (Accepted inputs) r.values
  unfolding compile_onto
  compile_onto-Accepted inputs total [] b b' r e =
      subst (λ (r : CompiledConstraints). All (Accepted inputs) r.values) (ok_first e) tt
  compile_onto-Accepted inputs total (raw ∷ rest) b b' r e =
      let (c, one, e₁) =
        bind-eq-ok (compile_constraint contract repr h ir inputs total raw b) _ e in
      let (cs, others, e₂) =
        bind-eq-ok (compile_onto contract repr h ir inputs c.0.1 rest c.1) _ e₁ in
      subst (λ (r : CompiledConstraints). All (Accepted inputs) r.values) (ok_first e₂)
        (
          compile_constraint-Accepted inputs total raw b c.1 c.0 one,
          compile_onto-Accepted inputs c.0.1 rest c.1 cs.1 cs.0 others,
        )

  -- The value is a dict that has, for each input that the record declares, a value that its type
  -- describes.
  abbrev pub FitsDeclared : Value → Type 0
  FitsDeclared v =
      (a : ℕ) × (es : List (Value × Value)) × (raws : List Value) × (v ≡ Value.ref a)
      × (h a ≡ Object.dict es)
      × (list_entry h "inputs" ir ≡ ok raws)
      × All (FitsEntry h es) raws

  module _ (operate : Arithmetic → ℕ → ℕ → Option ℕ) where
    Accepted-Safe :
        (inputs : List (Text × Types)) (es : List (Value × Value)) (v : Value) (c : ℕ)
        → FitsInputs h inputs es
        → as_dict h v ≡ some es
        → Accepted inputs c
        → Safe (λ (t : Bool). Unit {0}) (evaluate_predicate repr operate h c v)
    unfolding evaluate_predicate
    Accepted-Safe inputs es v c fits dict accepted =
        rw (evaluate_predicate, dict, accepted.found)
          (Safe-bind (evaluate repr operate h es maximum_constraint_depth accepted.predicate)
            (λ v. or_raise EvaluationError.not_boolean (boolean_of v))
            (evaluate-Safe repr operate h inputs es maximum_constraint_depth accepted.predicate
              accepted.before accepted.after accepted.types accepted.inferred fits)
            λ v p.
              let (t, is, has) =
                kinds_are-HasSome h is_boolean_type accepted.types v accepted.boolean p in
              let (b, same) = boolean_type-Has h t v is has in rw same (Safe-pure b tt))

    All-Safe :
        (inputs : List (Text × Types)) (es : List (Value × Value)) (v : Value) (cs : List ℕ)
        → FitsInputs h inputs es
        → as_dict h v ≡ some es
        → All (Accepted inputs) cs
        → All (λ c. Safe (λ (t : Bool). Unit {0}) (evaluate_predicate repr operate h c v)) cs
    All-Safe inputs es v [] fits dict all = tt
    All-Safe inputs es v (c ∷ cs) fits dict all =
        (Accepted-Safe inputs es v c fits dict all.0, All-Safe inputs es v cs fits dict all.1)

    -- Each constraint of a compiled set evaluates, on a dict that has for each declared input a value that its
    -- type describes, to a
    -- boolean, or raises that a result is not finite or that the budget is exceeded.
    pub compile_constraints-Safe :
        (compiled : CompiledConstraints) (v : Value)
        → compile_constraints contract repr h ir ≡ ok compiled
        → FitsDeclared v
        → All
            (λ c. Safe (λ (t : Bool). Unit {0}) (evaluate_predicate repr operate h c v))
            compiled.values
    unfolding compile_constraints as_dict
    compile_constraints-Safe compiled v e (a, es, raws, same, at_a, found, fits) =
        let (u, checked, e₁) = bind-eq-ok (contract.build_case_schema ir) _ e in
        let (r, made, e₂) = bind-eq-ok _ _ e₁ in
        let (inputs, declared, e₃) =
          bind-eq-ok (constraint_input_types h ir maximum_type_operations) _ made in
        let (raw, listed, e₄) =
          bind-eq-ok (lift (raw_constraints contract repr h ir) inputs.1) _ e₃ in
        subst
          (λ (r : CompiledConstraints).
            All (λ c. Safe (λ (t : Bool). Unit {0}) (evaluate_predicate repr operate h c v))
              r.values)
          (ok_value e₂)
          (All-Safe inputs.0 es v r.0.values
            (constraint_input_types-FitsInputs h es ir maximum_type_operations inputs.1 raws
              inputs.0 declared found fits)
            (rw (same, as_dict, at_a) refl)
            (compile_onto-Accepted inputs.0 0 raw.0 raw.1 r.1 r.0 e₄))
