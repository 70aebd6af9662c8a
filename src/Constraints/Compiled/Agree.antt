-- ===== src/Constraints/Compiled/Agree.antt =====
-- `validate_case` and `evaluate_output_contract` of constraints.py agree.
use semant_script.Prelude.{
  ℕ, ◌+◌, ◌≡◌, refl, ap, subst, Bool, fun_ext, arith, ◌⊎◌, inl, inr, true, false, List, [], ◌∷◌,
  Option,
}
use semant_script.Python.Text.{Text, codes}
use semant_script.Python.Values.{Value, Heap, get}
use semant_script.Constraints.Scan.{Budget}
use semant_script.Constraints.View.{Arithmetic}
use semant_script.Constraints.Eval.{
  EvaluationError, Reply, Datum, Eval, continue, ◌>>=◌, pure, or_raise,
}
use semant_script.Constraints.Operators.{strict_equal}
use semant_script.Constraints.Expression.{fields}
use semant_script.Constraints.Compiled.{
  CompiledConstraints, new_case, unless_violated, with_violation, validate_active, contract_active,
  evaluate_predicate, raises_violation, is_violation, is_violated, reports_violation, validate_from,
  validate_case, add_violation, contract_from, evaluate_output_contract,
}

-- What `validate_case` does, by what the diagnostic form reports: the violations stop it at the first.
unfoldable pub Agrees : Reply (List ℕ) × Budget → Reply (List ℕ × List ℕ) × Budget → Type 0
Agrees v (Reply.value (active, []), b) = v ≡ (Reply.value active, b)
Agrees v (Reply.value (active, i ∷ is), b) = v.0 ≡ Reply.error (EvaluationError.violation i)
Agrees v (Reply.error r, b) =
    (v ≡ (Reply.error r, b)) ⊎ ((i : ℕ) × (v.0 ≡ Reply.error (EvaluationError.violation i)))

-- the same first action before both
Agrees-bind :
    {A : Type 0} (m : Eval A) (f : A → Eval (List ℕ)) (g : A → Eval (List ℕ × List ℕ)) (b : Budget)
    → ((a : A) (c : Budget) → Agrees (f a c) (g a c))
    → Agrees ((m >>= f) b) ((m >>= g) b)
unfolding Agrees ◌>>=◌
Agrees-bind {A = A} m f g b k = agree (m b).0 (m b).1
  where
    agree : (r : Reply A) (c : Budget) → Agrees (continue f r c) (continue g r c)
    agree (Reply.value a) c = k a c
    agree (Reply.error r) c = inl refl

Agrees-add :
    (index : ℕ) (v : Reply (List ℕ) × Budget) (w : Reply (List ℕ × List ℕ) × Budget)
    → Agrees v w
    → Agrees
        (continue (λ rest. pure (index ∷ rest)) v.0 v.1)
        (continue (λ rest. pure (add_violation false index rest)) w.0 w.1)
unfolding Agrees ◌>>=◌
Agrees-add index v (Reply.value (active, []), b) e = rw e refl
Agrees-add index v (Reply.value (active, i ∷ is), b) e = rw e refl
Agrees-add index v (Reply.error r, b) (inl e) = inl (rw e refl)
Agrees-add index v (Reply.error r, b) (inr (i, e)) = inr (i, rw e refl)

Agrees-violation :
    (index : ℕ) (b : Budget) (w : Reply (List ℕ × List ℕ) × Budget)
    → Agrees
        (Reply.error (EvaluationError.violation index), b)
        (continue (λ rest. pure (add_violation true index rest)) w.0 w.1)
unfolding Agrees
Agrees-violation index b (Reply.value (active, is), c) = refl
Agrees-violation index b (Reply.error r, c) = inr (index, refl)

-- The two tests for a violation are one.
tests_agree : (kind : Value) (equal : Bool) → raises_violation kind equal ≡ is_violation kind equal
unfolding raises_violation is_violation
tests_agree kind equal = ground arith

module _ (repr : ℕ → Text) (operate : Arithmetic → ℕ → ℕ → Option ℕ) (h : Heap)
    (inputs output : Value) where
  violations_agree :
      (constraint : ℕ)
      → is_violated repr operate h constraint output
        ≡ reports_violation repr operate h constraint output
  unfolding is_violated reports_violation
  violations_agree constraint =
      ap
        (λ (test : Value → Bool → Bool).
          or_raise EvaluationError.malformed (get (codes "output") (fields h constraint))
          >>= λ required. strict_equal h (Datum.datum output) (Datum.datum required) >>= λ equal.
              or_raise EvaluationError.malformed (get (codes "kind") (fields h constraint))
              >>= λ kind. pure (test kind equal))
        (fun_ext (λ k. fun_ext (tests_agree k)))

  loops-Agrees :
      (index : ℕ) (cs : List ℕ) (b : Budget)
      → Agrees
          (validate_from repr operate h inputs output index cs b)
          (contract_from repr operate h inputs output index cs b)
  unfolding Agrees validate_from contract_from ◌>>=◌
  loops-Agrees index [] b = refl
  loops-Agrees index (c ∷ cs) b =
      let validates = validate_from repr operate h inputs output (index + 1) cs in
      let reports = contract_from repr operate h inputs output (index + 1) cs in
      Agrees-bind (evaluate_predicate repr operate h c inputs)
        (validate_active repr operate h output c index validates)
        (contract_active repr operate h output c index reports) b
        (elim [
          | false ↦ λ d. loops-Agrees (index + 1) cs d
          | true ↦ λ d.
              subst
                (λ test.
                  Agrees (validate_active repr operate h output c index validates true d)
                    ((test >>= with_violation index reports) d))
                (violations_agree c)
                (Agrees-bind (is_violated repr operate h c output) (unless_violated index validates)
                  (with_violation index reports) d
                  (elim [
                    | false ↦ λ e.
                        Agrees-add index (validates e) (reports e) (loops-Agrees (index + 1) cs e)
                    | true ↦ λ e. Agrees-violation index e (reports e)
                  ]))
        ])

  -- `validate_case` returns the active constraints exactly when the diagnostic form reports them with
  -- no violation, on the same budget; where it reports violations, `validate_case` raises the first;
  -- where it raises, `validate_case` raises the same or, earlier, a violation.
  pub validate_case-Agrees :
      (compiled : CompiledConstraints) (b : Budget)
      → Agrees
          (validate_case repr operate h compiled inputs output b)
          (evaluate_output_contract repr operate h compiled inputs output b)
  unfolding validate_case evaluate_output_contract
  validate_case-Agrees compiled b = loops-Agrees 0 compiled.values (new_case b)
