-- ===== src/Constraints/Safety/Operators.antt =====
-- The operators of constraints.py on typed values.
use semant_script.Prelude.{
  ℕ, ◌≡◌, refl, sym, subst, ◌∙◌, inl, inr, true, not, Option, none, some, arith, Bool-cases,
  Option-cases,
}
use semant_script.Python.Float.{is_zero, is_finite}
use semant_script.Python.Values.{Value, Heap}
use semant_script.CanonicalInput.Errors.{ok}
use semant_script.Constraints.Numbers.{float_eq, negate}
use semant_script.Constraints.View.{Unary}
use semant_script.Constraints.Eval.{
  EvaluationError, Datum, ◌>>=◌, pure, or_raise, truth, number_of, finite_result,
}
use semant_script.Constraints.Operators.{apply_unary}
use semant_script.Constraints.Types.{StaticType, Types, one_type}
use semant_script.Constraints.Types.Infer.{
  is_number_type, is_boolean_type, kinds_are, signed, with_literal, signed_literals, signed_types,
  unary_types,
}
use semant_script.Constraints.Types.Has.{Has, HasSome}
use semant_script.Constraints.Types.Merge.{ok_first, merge_types-HasSome}
use semant_script.Constraints.Safety.{Safe, Safe-pure, Safe-raise, Safe-pure-bind}
use semant_script.Constraints.Safety.Kinds.{
  number_type-Has, boolean_type-Has, kinds_are-HasSome, required, HasSome-number, HasSome-boolean,
}
use semant_script.Constraints.Safety.Literals.{
  float_eq-cases, finite-number, number_of-finite, some_value,
}

negate_finite : (x : ℕ) → is_finite x ≡ true → is_finite (negate x) ≡ true
unfolding is_finite negate
negate_finite x f = ground arith

negate_zero : (x : ℕ) → is_zero x ≡ true → is_zero (negate x) ≡ true
unfolding is_zero negate
negate_zero x z = ground arith

negate_eq : (y x : ℕ) → float_eq y x ≡ true → float_eq (negate y) (negate x) ≡ true
unfolding float_eq
negate_eq y x e = elim (float_eq-cases y x e) [
  | inl same ↦ rw same (ground arith)
  | inr (zero, other) ↦ ground (arith, negate_zero y zero, negate_zero x other)
]

signed_finite : (op : Unary) (x : ℕ) → is_finite x ≡ true → is_finite (signed op x) ≡ true
unfolding signed
signed_finite Unary.plus x f = f
signed_finite Unary.minus x f = negate_finite x f
signed_finite Unary.invert x f = negate_finite x f

signed_eq :
    (op : Unary) (y x : ℕ) → float_eq y x ≡ true → float_eq (signed op y) (signed op x) ≡ true
unfolding signed
signed_eq Unary.plus y x e = e
signed_eq Unary.minus y x e = negate_eq y x e
signed_eq Unary.invert y x e = negate_eq y x e

with_literal-some :
    (y : ℕ) (o : Option Types) (us : Types)
    → with_literal y o ≡ some us
    → (ts : Types) × (o ≡ some ts) × (Types.types (StaticType.number (some y)) ts ≡ us)
with_literal-some y none us e = cc
with_literal-some y (some ts) us e = (ts, refl, some_value e)

module _ (h : Heap) where
  -- A finite float is a number.
  float-Has :
      (x : ℕ)
      → is_finite x ≡ true
      → HasSome h (one_type (StaticType.number none)) (Datum.datum (Value.float x))
  unfolding number_of
  float-Has x f = HasSome-number h (Datum.datum (Value.float x)) x (finite-number x f)

  pub finite_result-Safe :
      (x : ℕ) → Safe (HasSome h (one_type (StaticType.number none))) (finite_result x)
  unfolding finite_result
  finite_result-Safe x = elim (Bool-cases (is_finite x)) [
    | inl f ↦ rw f (Safe-pure (Datum.datum (Value.float x)) (float-Has x f))
    | inr f ↦ rw f (Safe-raise EvaluationError.non_finite tt)
  ]

  signed-HasSome :
      (op : Unary) (y x : ℕ) (vs : Types) (d : Datum)
      → number_of d ≡ some x
      → (ts : Types) → HasSome h (Types.types (StaticType.number (some y)) ts) d
      → (HasSome h ts d → HasSome h vs (Datum.datum (Value.float (signed op x))))
      → HasSome h
          (Types.types (StaticType.number (some (signed op y))) vs)
          (Datum.datum (Value.float (signed op x)))
  unfolding Has number_of
  signed-HasSome op y x vs d n ts (inl (z, m, same)) k =
      let z_is : z ≡ x = some_value (sym m ∙ n) in
      inl (
        signed op x,
        finite-number (signed op x) (signed_finite op x (number_of-finite d x n)),
        signed_eq op y x (subst (λ z. float_eq y z ≡ true) z_is same),
      )
  signed-HasSome op y x vs d n ts (inr p) k = inr (k p)

  signed_literals-HasSome :
      (op : Unary) (ts us : Types) (d : Datum) (x : ℕ)
      → signed_literals op ts ≡ some us
      → HasSome h ts d
      → number_of d ≡ some x
      → HasSome h us (Datum.datum (Value.float (signed op x)))
  unfolding signed_literals HasSome
  signed_literals-HasSome op Types.no_types us d x e p n = absurd p
  signed_literals-HasSome op (Types.types (StaticType.number (some y)) ts) us d x e p n =
      let (vs, rest, same) = with_literal-some (signed op y) (signed_literals op ts) us e in
      subst (λ us. HasSome h us (Datum.datum (Value.float (signed op x)))) same
        (signed-HasSome op y x vs d n ts p λ q. signed_literals-HasSome op ts vs d x rest q n)
  signed_literals-HasSome op (Types.types t ts) us d x e p n = cc

  signed_types-HasSome :
      (op : Unary) (ts us : Types) (b b' : ℕ) (d : Datum) (x : ℕ)
      → signed_types op ts b ≡ ok (us, b')
      → HasSome h ts d
      → number_of d ≡ some x
      → HasSome h us (Datum.datum (Value.float (signed op x)))
  signed_types-HasSome op ts us b b' d x e p n = elim (Option-cases (signed_literals op ts)) [
    | inl some_open ↦
        subst (λ us. HasSome h us (Datum.datum (Value.float (signed op x))))
          (ok_first (rw (signed_types, some_open) at e))
          (float-Has (signed op x) (signed_finite op x (number_of-finite d x n)))
    | inr (vs, closed) ↦
        merge_types-HasSome h vs us b b' (Datum.datum (Value.float (signed op x)))
          (rw (signed_types, closed) at e) (signed_literals-HasSome op ts vs d x closed p n)
  ]

  finite_result-is :
      (x : ℕ) → is_finite x ≡ true → finite_result x ≡ pure (Datum.datum (Value.float x))
  unfolding finite_result
  finite_result-is x f = rw f refl

  signed-Safe :
      (op : Unary) (ts us : Types) (b b' : ℕ) (d : Datum)
      → kinds_are is_number_type ts ≡ true
      → signed_types op ts b ≡ ok (us, b')
      → HasSome h ts d
      → Safe
          (HasSome h us)
          (or_raise EvaluationError.not_finite (number_of d) >>= λ x. finite_result (signed op x))
  signed-Safe op ts us b b' d kinds e p =
      let (t, is, has) = kinds_are-HasSome h is_number_type ts d kinds p in
      let (x, number) = number_type-Has h t d is has in
      rw number (
        Safe-pure-bind x (λ x. finite_result (signed op x))
          (rw (finite_result-is (signed op x) (signed_finite op x (number_of-finite d x number))) (
            Safe-pure (Datum.datum (Value.float (signed op x)))
              (signed_types-HasSome op ts us b b' d x e p number))))

  -- An operator on a value that has the operand's types.
  pub unary_types-Safe :
      (op : Unary) (ts us : Types) (b b' : ℕ) (d : Datum)
      → unary_types op ts b ≡ ok (us, b')
      → HasSome h ts d
      → Safe (HasSome h us) (apply_unary op d)
  unfolding unary_types apply_unary signed
  unary_types-Safe Unary.invert ts us b b' d e p =
      let (kinds, rest) =
        required (kinds_are is_boolean_type ts) (λ b. ok (one_type (StaticType.boolean none), b)) b
          e in
      let (t, is, has) = kinds_are-HasSome h is_boolean_type ts d kinds p in
      let (c, same) = boolean_type-Has h t d is has in
      rw same (
        Safe-pure-bind c (λ c. pure (truth (not c)))
          (Safe-pure (truth (not c)) (
            subst (λ us. HasSome h us (truth (not c))) (ok_first rest)
              (HasSome-boolean h (not c)))))
  unary_types-Safe Unary.plus ts us b b' d e p =
      let (kinds, rest) = required (kinds_are is_number_type ts) (signed_types Unary.plus ts) b e in
      signed-Safe Unary.plus ts us b b' d kinds rest p
  unary_types-Safe Unary.minus ts us b b' d e p =
      let (kinds, rest) =
        required (kinds_are is_number_type ts) (signed_types Unary.minus ts) b e in
      signed-Safe Unary.minus ts us b b' d kinds rest p
