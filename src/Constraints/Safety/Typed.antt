-- ===== src/Constraints/Safety/Typed.antt =====
-- `_evaluate` of constraints.py on the predicates that `_infer_expression_types` accepts.
use semant_script.Prelude.{
  ℕ, zero, suc, arith, ◌≡◌, refl, ap, subst, inl, inr, true, List, [], ◌∷◌, Option, none, some,
  Bool-cases,
}
use semant_script.Python.Text.{Text, text_eq, text_eq→eq}
use semant_script.Python.Values.{Value, Heap, get}
use semant_script.CanonicalInput.Errors.{Result, ok, fail, bind, bind-eq-ok}
use semant_script.Constraints.Numbers
use semant_script.Constraints.Expression.{mapping}
use semant_script.Constraints.View.{Arithmetic, View, view}
use semant_script.Constraints.Eval.{Datum, Eval, ◌>>=◌, pure, number_of}
use semant_script.Constraints.Reading.{read_property, read_index}
use semant_script.Constraints.Operators.{apply_unary}
use semant_script.Constraints.Evaluate.{
  from_child, evaluate_child, apply_binary, evaluate_view, evaluate,
}
use semant_script.Constraints.Types.{
  StaticType, Types, one_type, Infer, lift, literal_static_type, literal_number,
}
use semant_script.Constraints.Types.Infer.{
  known, infer_child, infer_view, infer_expression_types, find_types, property_result_types,
  index_result_types, unary_types, binary_types,
}
use semant_script.Constraints.Types.Has.{Has, HasSome, HasSome-one}
use semant_script.Constraints.Types.Merge.{ok_value, ok_first}
use semant_script.Constraints.Numbers.{float_eq}
use semant_script.Constraints.Safety.{Safe, Safe-pure, Safe-bind, Safe-pure-bind}
use semant_script.Constraints.Safety.Literals.{some_value}
use semant_script.Constraints.Safety.Reading.{property_result_types-Safe}
use semant_script.Constraints.Safety.Index.{index_result_types-Safe}
use semant_script.Constraints.Safety.Operators.{unary_types-Safe}
use semant_script.Constraints.Safety.Binary.{binary_types-Safe}

float_eq_refl : (x : ℕ) → float_eq x x ≡ true
unfolding float_eq
float_eq_refl x = ground arith

pub lifted :
    {A B : Type 0} (r : Result A) (k : A → Infer B) (b : ℕ) {s : B × ℕ}
    → bind (lift r b) (λ q. k q.0 q.1) ≡ ok s
    → (a : A) × (r ≡ ok a) × (k a b ≡ ok s)
lifted (ok a) k b e = (a, refl, e)
lifted (fail x) k b e = cc

known-ok : (o : Option Types) (ts : Types) → known o ≡ ok ts → o ≡ some ts
known-ok none ts e = cc
known-ok (some us) ts e = ap some (ok_value e)

-- Each declared input is present with a value of one of its types.
abbrev pub FitsInputs : Heap → List (Text × Types) → List (Value × Value) → Type 0
FitsInputs h [] es = Unit
FitsInputs h ((name, ts) ∷ rest) es =
    ((v : Value) × (get name es ≡ some v) × HasSome h ts (Datum.datum v)) × FitsInputs h rest es

module _ (h : Heap) where
  find_types-HasSome :
      (name : Text) (inputs : List (Text × Types)) (ts : Types) (es : List (Value × Value))
      → find_types name inputs ≡ some ts
      → FitsInputs h inputs es
      → (v : Value) × (get name es ≡ some v) × HasSome h ts (Datum.datum v)
  unfolding find_types
  find_types-HasSome name [] ts es e fits = cc
  find_types-HasSome name ((n, us) ∷ rest) ts es e fits = elim (Bool-cases (text_eq name n)) [
    | inl same ↦
        let (v, present, has) = fits.0 in
        (
          v,
          rw (text_eq→eq name n same) present,
          subst (λ ts. HasSome h ts (Datum.datum v)) (some_value (rw same at e)) has,
        )
    | inr other ↦ find_types-HasSome name rest ts es (rw other at e) fits.1
  ]

  literal_number-ok :
      (o : Option ℕ) (t : StaticType)
      → literal_number o ≡ ok t
      → (x : ℕ) × (o ≡ some x) × (StaticType.number (some x) ≡ t)
  literal_number-ok none t e = cc
  literal_number-ok (some x) t e = (x, refl, ok_value e)

  literal-number :
      (v : Value) (t : StaticType)
      → literal_number (Numbers.number v) ≡ ok t
      → Has h t (Datum.datum v)
  unfolding Has number_of
  literal-number v t e =
      let (x, f, same) = literal_number-ok (Numbers.number v) t e in
      subst (λ t. Has h t (Datum.datum v)) same (x, f, float_eq_refl x)

  literal-Has :
      (v : Value) (t : StaticType) → literal_static_type (some v) ≡ ok t → Has h t (Datum.datum v)
  unfolding literal_static_type Has
  literal-Has Value.null t e = subst (λ t. Has h t (Datum.datum Value.null)) (ok_value e) refl
  literal-Has (Value.boolean b) t e =
      subst (λ t. Has h t (Datum.datum (Value.boolean b))) (ok_value e) (b, refl, refl)
  literal-Has (Value.string s) t e =
      subst (λ t. Has h t (Datum.datum (Value.string s))) (ok_value e) (s, refl, refl)
  literal-Has (Value.int n) t e = literal-number (Value.int n) t e
  literal-Has (Value.float x) t e = literal-number (Value.float x) t e
  literal-Has _ t e = cc

module _ (repr : ℕ → Text) (operate : Arithmetic → ℕ → ℕ → Option ℕ) (h : Heap)
    (inputs : List (Text × Types)) (es : List (Value × Value)) where
  -- What the recursion is known to do: where it infers types, it evaluates to a value of one of them.
  Sound : (ℕ → Infer Types) → (ℕ → Eval Datum) → Type 0
  Sound infer eval =
      (a b b' : ℕ) (us : Types) → infer a b ≡ ok (us, b') → Safe (HasSome h us) (eval a)

  found-Safe :
      (infer : ℕ → Infer Types) (eval : ℕ → Eval Datum) (r : Result ℕ) (b b' : ℕ) (us : Types)
      → Sound infer eval
      → bind (lift r b) (λ q. infer q.0 q.1) ≡ ok (us, b')
      → Safe (HasSome h us) (from_child repr operate h es eval r)
  unfolding Sound
  found-Safe infer eval (ok a) b b' us sound e = sound a b b' us e
  found-Safe infer eval (fail x) b b' us sound e = cc

  child-Safe :
      (infer : ℕ → Infer Types) (eval : ℕ → Eval Datum) (child : Option Value) (b b' : ℕ)
      (us : Types)
      → Sound infer eval
      → infer_child repr h inputs infer child b ≡ ok (us, b')
      → Safe (HasSome h us) (evaluate_child repr operate h es eval child)
  unfolding Sound
  child-Safe infer eval child b b' us sound e =
      found-Safe infer eval (mapping h child) b b' us sound e

  view-Safe :
      (infer : ℕ → Infer Types) (eval : ℕ → Eval Datum) (v : View) (b b' : ℕ) (us : Types)
      → Sound infer eval
      → FitsInputs h inputs es
      → infer_view repr h inputs infer v b ≡ ok (us, b')
      → Safe (HasSome h us) (evaluate_view repr operate h es eval v)
  unfolding infer_view evaluate_view
  view-Safe infer eval (View.literal none) b b' us sound fits e = cc
  view-Safe infer eval (View.literal (some v)) b b' us sound fits e =
      let (t, typed, same) =
        lifted (literal_static_type (some v)) (λ t b. ok (one_type t, b)) b e in
      Safe-pure-bind v (λ w. pure (Datum.datum w))
        (Safe-pure (Datum.datum v) (
          subst (λ us. HasSome h us (Datum.datum v)) (ok_first same)
            (HasSome-one h t (Datum.datum v) (literal-Has h v t typed))))
  view-Safe infer eval (View.input name) b b' us sound fits e =
      let (ts, declared, same) = bind-eq-ok (known (find_types name inputs)) (λ ts. ok (ts, b)) e in
      let (v, present, has) =
        find_types-HasSome h name inputs ts es (known-ok (find_types name inputs) ts declared)
          fits in
      rw present (
        Safe-pure-bind v (λ w. pure (Datum.datum w))
          (Safe-pure (Datum.datum v)
            (subst (λ us. HasSome h us (Datum.datum v)) (ok_first same) has)))
  view-Safe infer eval (View.property object name) b b' us sound fits e =
      let (r, first, rest) =
        bind-eq-ok (infer_child repr h inputs infer object b)
          (λ r. property_result_types r.0 name r.1) e in
      Safe-bind (evaluate_child repr operate h es eval object) (read_property h name)
        (child-Safe infer eval object b r.1 r.0 sound first)
        λ v p. property_result_types-Safe h name r.0 us r.1 b' v rest p
  view-Safe infer eval (View.index object index) b b' us sound fits e =
      let (r, first, rest) =
        bind-eq-ok (infer_child repr h inputs infer object b)
          (λ r.
            bind (infer_child repr h inputs infer index r.1)
              λ s. index_result_types repr r.0 s.0 s.1)
          e in
      let (s, second, last) =
        bind-eq-ok (infer_child repr h inputs infer index r.1)
          (λ s. index_result_types repr r.0 s.0 s.1) rest in
      Safe-bind (evaluate_child repr operate h es eval object)
        (λ v. evaluate_child repr operate h es eval index >>= λ i. read_index h repr v i)
        (child-Safe infer eval object b r.1 r.0 sound first)
        λ v p.
          Safe-bind (evaluate_child repr operate h es eval index) (read_index h repr v)
            (child-Safe infer eval index r.1 s.1 s.0 sound second)
            λ i q. index_result_types-Safe h repr r.0 s.0 us s.1 b' v i last p q
  view-Safe infer eval (View.unary op operand) b b' us sound fits e =
      let (r, first, rest) =
        bind-eq-ok (infer_child repr h inputs infer operand b) (λ r. unary_types op r.0 r.1) e in
      Safe-bind (evaluate_child repr operate h es eval operand) (apply_unary op)
        (child-Safe infer eval operand b r.1 r.0 sound first)
        λ v p. unary_types-Safe h op r.0 us r.1 b' v rest p
  view-Safe infer eval (View.binary op left right) b b' us sound fits e =
      let (r, first, rest) =
        bind-eq-ok (infer_child repr h inputs infer left b)
          (λ r.
            bind (infer_child repr h inputs infer right r.1)
              λ s. bind (binary_types op r.0 s.0) λ us. ok (us, s.1))
          e in
      let (s, second, last) =
        bind-eq-ok (infer_child repr h inputs infer right r.1)
          (λ s. bind (binary_types op r.0 s.0) λ us. ok (us, s.1)) rest in
      let (ws, typed, same) = bind-eq-ok (binary_types op r.0 s.0) (λ us. ok (us, s.1)) last in
      Safe-bind (evaluate_child repr operate h es eval left)
        (λ v. apply_binary operate h op v (evaluate_child repr operate h es eval right))
        (child-Safe infer eval left b r.1 r.0 sound first)
        λ v p. rw (← ok_first same) (
          binary_types-Safe h operate op r.0 s.0 ws v (evaluate_child repr operate h es eval right)
            typed p (child-Safe infer eval right r.1 s.1 s.0 sound second))
  view-Safe infer eval View.malformed b b' us sound fits e = cc

  -- A predicate whose types are inferred evaluates, on inputs that fit the declared types, to a value
  -- of one of them, or raises that a result is not finite or that the budget is exceeded: no operand
  -- is of the wrong type, and no value is read of what has none.
  pub evaluate-Safe :
      (levels a b b' : ℕ) (us : Types)
      → infer_expression_types repr h inputs levels a b ≡ ok (us, b')
      → FitsInputs h inputs es
      → Safe (HasSome h us) (evaluate repr operate h es levels a)
  unfolding infer_expression_types evaluate Sound
  evaluate-Safe zero a b b' us e fits = cc
  evaluate-Safe (suc levels) a zero b' us e fits = cc
  evaluate-Safe (suc levels) a (suc b) b' us e fits =
      view-Safe (infer_expression_types repr h inputs levels) (evaluate repr operate h es levels)
        (view h a) b b' us (λ c d d' vs f. evaluate-Safe levels c d d' vs f fits) fits e
