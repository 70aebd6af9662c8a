-- ===== src/Constraints/Safety/Binary.antt =====
-- The binary operators of constraints.py on typed values.
use semant_script.Prelude.{
  ℕ, ◌≡◌, refl, inl, inr, Bool, true, false, not, ◌&&◌, ◌||◌, Option, none, some, arith, Bool-cases,
  if◌then◌else◌,
}
use semant_script.Python.Text.{Text}
use semant_script.Python.Float.{is_zero}
use semant_script.Python.Values.{Value, Heap}
use semant_script.CanonicalInput.Errors.{ok, bind}
use semant_script.Constraints.Numbers
use semant_script.Constraints.Numbers.{float_eq, negate, is_number}
use semant_script.Constraints.Scan.{compare_utf16}
use semant_script.Constraints.View.{Arithmetic, Comparison, Binary}
use semant_script.Constraints.Eval.{
  EvaluationError, Datum, Eval, ◌>>=◌, pure, or_raise, from_scan, truth, boolean_of, number_of,
  finite_result,
}
use semant_script.Constraints.Operators.{
  strict_equal, equal_values, ordered_compare, calculate, divides,
}
use semant_script.Constraints.Types.{StaticType, Types, one_type}
use semant_script.Constraints.Types.Infer.{
  is_number_type, is_boolean_type, is_string_type, is_scalar_type, kinds_are, both_are,
}
use semant_script.Constraints.Types.Has.{Has, HasSome}
use semant_script.Constraints.Types.Merge.{ok_value}
use semant_script.Constraints.Safety.{
  Safe, Safe-pure, Safe-raise, Safe-or_raise, Safe-bind, Safe-pure-bind, Safe-from_scan,
}
use semant_script.Constraints.Safety.Kinds.{
  number_type-Has, boolean_type-Has, string_type-Has, kinds_are-HasSome, HasSome-boolean,
}
use semant_script.Constraints.Operators.{calculate_floats, is_equal, holds_of}
use semant_script.Constraints.Types.Infer.{binary_types}
use semant_script.Constraints.Expression.{require}
use semant_script.Constraints.Evaluate.{apply_binary, require_boolean}
use semant_script.Constraints.Safety.Operators.{finite_result-Safe}

-- A scalar, and finite if it is a number.
FiniteScalar : Datum → Type 0
FiniteScalar (Datum.datum (Value.int n)) = (x : ℕ) × (Numbers.number (Value.int n) ≡ some x)
FiniteScalar (Datum.datum (Value.float y)) = (x : ℕ) × (Numbers.number (Value.float y) ≡ some x)
FiniteScalar (Datum.datum (Value.ref a)) = ⊥
FiniteScalar (Datum.datum Value.callable) = ⊥
FiniteScalar (Datum.datum Value.host) = ⊥
FiniteScalar _ = Unit

number-FiniteScalar : (d : Datum) (x : ℕ) → number_of d ≡ some x → FiniteScalar d
unfolding FiniteScalar number_of Numbers.number
number-FiniteScalar (Datum.datum (Value.int n)) x e = (x, e)
number-FiniteScalar (Datum.datum (Value.float y)) x e = (x, e)
number-FiniteScalar _ x e = cc

and_left : (a b : Bool) → (a && b) ≡ true → a ≡ true
and_left a b e = ground arith

and_right : (a b : Bool) → (a && b) ≡ true → b ≡ true
and_right a b e = ground arith

module _ (h : Heap) where
  scalar-FiniteScalar :
      (t : StaticType) (d : Datum) → is_scalar_type t ≡ true → Has h t d → FiniteScalar d
  unfolding Has FiniteScalar
  scalar-FiniteScalar (StaticType.string l) d e (s, p, q) = rw p tt
  scalar-FiniteScalar (StaticType.number l) d e (x, p, q) = number-FiniteScalar d x p
  scalar-FiniteScalar (StaticType.boolean l) d e (b, p, q) = rw p tt
  scalar-FiniteScalar (StaticType.null l) d e p = rw p tt
  scalar-FiniteScalar StaticType.undefined d e p = rw p tt
  scalar-FiniteScalar _ d e p = cc

  strict_equal-Safe :
      (d e : Datum)
      → FiniteScalar d
      → FiniteScalar e
      → Safe (λ (b : Bool). Unit {0}) (strict_equal h d e)
  unfolding FiniteScalar strict_equal equal_values is_number
  strict_equal-Safe (Datum.datum (Value.int n)) (Datum.datum (Value.int m)) (x, f) (y, g) =
      rw (f, g) (Safe-pure (float_eq x y) tt)
  strict_equal-Safe (Datum.datum (Value.int n)) (Datum.datum (Value.float m)) (x, f) (y, g) =
      rw (f, g) (Safe-pure (float_eq x y) tt)
  strict_equal-Safe (Datum.datum (Value.float n)) (Datum.datum (Value.int m)) (x, f) (y, g) =
      rw (f, g) (Safe-pure (float_eq x y) tt)
  strict_equal-Safe (Datum.datum (Value.float n)) (Datum.datum (Value.float m)) (x, f) (y, g) =
      rw (f, g) (Safe-pure (float_eq x y) tt)
  strict_equal-Safe (Datum.datum (Value.string s)) (Datum.datum (Value.string t)) p q =
      Safe-bind {P = λ o. Unit {0}} (from_scan (compare_utf16 s t)) (λ o. pure (is_equal o))
        (Safe-from_scan (compare_utf16 s t) (λ b o e. tt)) λ o r. Safe-pure (is_equal o) tt
  strict_equal-Safe (Datum.datum (Value.ref a)) e p q = absurd p
  strict_equal-Safe (Datum.datum Value.callable) e p q = absurd p
  strict_equal-Safe (Datum.datum Value.host) e p q = absurd p
  strict_equal-Safe d (Datum.datum (Value.ref a)) p q = absurd q
  strict_equal-Safe d (Datum.datum Value.callable) p q = absurd q
  strict_equal-Safe d (Datum.datum Value.host) p q = absurd q
  strict_equal-Safe _ _ p q = Safe-pure _ tt

  ordered-numbers :
      (op : Comparison) (d e : Datum) (x y : ℕ)
      → number_of d ≡ some x
      → number_of e ≡ some y
      → Safe (λ (b : Bool). Unit {0}) (ordered_compare op d e)
  unfolding ordered_compare number_of is_number Numbers.number
  ordered-numbers op (Datum.datum (Value.int n)) (Datum.datum (Value.int m)) x y f g =
      rw (f, g) (Safe-pure _ tt)
  ordered-numbers op (Datum.datum (Value.int n)) (Datum.datum (Value.float m)) x y f g =
      rw (f, g) (Safe-pure _ tt)
  ordered-numbers op (Datum.datum (Value.float n)) (Datum.datum (Value.int m)) x y f g =
      rw (f, g) (Safe-pure _ tt)
  ordered-numbers op (Datum.datum (Value.float n)) (Datum.datum (Value.float m)) x y f g =
      rw (f, g) (Safe-pure _ tt)
  ordered-numbers op _ _ x y f g = cc

  ordered-texts :
      (op : Comparison) (s t : Text)
      → Safe
          (λ (b : Bool). Unit {0})
          (ordered_compare op (Datum.datum (Value.string s)) (Datum.datum (Value.string t)))
  unfolding ordered_compare
  ordered-texts op s t =
      Safe-bind {P = λ o. Unit {0}} (from_scan (compare_utf16 s t)) (λ o. pure (holds_of op o))
        (Safe-from_scan (compare_utf16 s t) (λ b o e. tt)) λ o r. Safe-pure (holds_of op o) tt

  required-ok :
      (c : Bool) (ts us : Types) → bind (require c) (λ _. ok ts) ≡ ok us → (c ≡ true) × (ts ≡ us)
  required-ok true ts us e = (refl, ok_value e)
  required-ok false ts us e = cc

  both_are-HasSome :
      (is : StaticType → Bool) (ls rs : Types) (d e : Datum)
      → both_are is ls rs ≡ true
      → HasSome h ls d
      → HasSome h rs e
      → ((t : StaticType) × (is t ≡ true) × Has h t d)
        × ((t : StaticType) × (is t ≡ true) × Has h t e)
  both_are-HasSome is ls rs d e both p q = (
    kinds_are-HasSome h is ls d (and_left (kinds_are is ls) (kinds_are is rs) both) p,
    kinds_are-HasSome h is rs e (and_right (kinds_are is ls) (kinds_are is rs) both) q,
  )

  -- the ordered comparison of two numbers or of two texts
  ordered-Safe :
      (op : Comparison) (ls rs : Types) (d e : Datum)
      → (both_are is_number_type ls rs || both_are is_string_type ls rs) ≡ true
      → HasSome h ls d
      → HasSome h rs e
      → Safe (λ (b : Bool). Unit {0}) (ordered_compare op d e)
  ordered-Safe op ls rs d e kinds p q = elim (Bool-cases (both_are is_number_type ls rs)) [
    | inl numbers ↦
        let ((t, is_t, has_t), (u, is_u, has_u)) =
          both_are-HasSome is_number_type ls rs d e numbers p q in
        let (x, f) = number_type-Has h t d is_t has_t in
        let (y, g) = number_type-Has h u e is_u has_u in ordered-numbers op d e x y f g
    | inr others ↦
        let ((t, is_t, has_t), (u, is_u, has_u)) =
          both_are-HasSome is_string_type ls rs d e (rw others at kinds) p q in
        let (s, f) = string_type-Has h t d is_t has_t in
        let (w, g) = string_type-Has h u e is_u has_u in rw (f, g) (ordered-texts op s w)
  ]

  equality-Safe :
      (ls rs : Types) (d e : Datum)
      → both_are is_scalar_type ls rs ≡ true
      → HasSome h ls d
      → HasSome h rs e
      → Safe (λ (b : Bool). Unit {0}) (strict_equal h d e)
  equality-Safe ls rs d e kinds p q =
      let ((t, is_t, has_t), (u, is_u, has_u)) =
        both_are-HasSome is_scalar_type ls rs d e kinds p q in
      strict_equal-Safe d e (scalar-FiniteScalar t d is_t has_t)
        (scalar-FiniteScalar u e is_u has_u)

  module _ (operate : Arithmetic → ℕ → ℕ → Option ℕ) where
    calculate_floats-Safe :
        (op : Arithmetic) (x y : ℕ)
        → Safe (HasSome h (one_type (StaticType.number none))) (calculate_floats operate op x y)
    unfolding calculate_floats
    calculate_floats-Safe op x y = elim (Bool-cases (divides operate op && is_zero y)) [
      | inl zero ↦ rw zero (Safe-raise EvaluationError.non_finite tt)
      | inr other ↦ rw other (
          Safe-bind (or_raise EvaluationError.non_finite (operate op x y)) finite_result
            (Safe-or_raise EvaluationError.non_finite (operate op x y) tt)
            λ z p. finite_result-Safe h z)
    ]

    calculate-Safe :
        (op : Arithmetic) (d e : Datum) (x y : ℕ)
        → number_of d ≡ some x
        → number_of e ≡ some y
        → Safe (HasSome h (one_type (StaticType.number none))) (calculate operate op d e)
    unfolding calculate
    calculate-Safe op d e x y f g =
        rw (f, g)
          (Safe-pure-bind x (λ x. pure y >>= λ y. calculate_floats operate op x y)
            (Safe-pure-bind y (λ y. calculate_floats operate op x y)
              (calculate_floats-Safe op x y)))

  truth-Safe :
      (m : Eval Bool) (f : Bool → Bool)
      → Safe (λ (b : Bool). Unit {0}) m
      → Safe (HasSome h (one_type (StaticType.boolean none))) (m >>= λ t. pure (truth (f t)))
  truth-Safe m f s =
      Safe-bind m (λ t. pure (truth (f t))) s
        λ t p. Safe-pure (truth (f t)) (HasSome-boolean h (f t))

  -- the right operand of a logical operator, when it is evaluated
  right-Safe :
      (rs : Types) (right : Eval Datum)
      → kinds_are is_boolean_type rs ≡ true
      → Safe (HasSome h rs) right
      → Safe (HasSome h (one_type (StaticType.boolean none))) (right >>= require_boolean)
  right-Safe rs right kinds s = Safe-bind right require_boolean s λ v p.
      let (t, is, has) = kinds_are-HasSome h is_boolean_type rs v kinds p in
      let (c, same) = boolean_type-Has h t v is has in
      rw same (Safe-pure-bind c (λ c. pure (truth c)) (Safe-pure (truth c) (HasSome-boolean h c)))

  logical-Safe :
      (stop : Bool → Bool) (ls rs : Types) (d : Datum) (right : Eval Datum)
      → both_are is_boolean_type ls rs ≡ true
      → HasSome h ls d
      → Safe (HasSome h rs) right
      → (c : Bool)
      → Safe (HasSome h (one_type (StaticType.boolean none))) (
          or_raise EvaluationError.not_boolean (boolean_of d) >>= λ t.
          if stop t then pure (truth c) else right >>= require_boolean)
  logical-Safe stop ls rs d right kinds p s c =
      let left = and_left (kinds_are is_boolean_type ls) (kinds_are is_boolean_type rs) kinds in
      let (t, is, has) = kinds_are-HasSome h is_boolean_type ls d left p in
      let (v, same) = boolean_type-Has h t d is has in
      rw same (
        Safe-pure-bind v (λ t. if stop t then pure (truth c) else right >>= require_boolean)
          (elim (Bool-cases (stop v)) [
            | inl e ↦ rw e (Safe-pure (truth c) (HasSome-boolean h c))
            | inr e ↦ rw e (
                right-Safe rs right
                  (and_right (kinds_are is_boolean_type ls) (kinds_are is_boolean_type rs) kinds) s)
          ]))

  -- A binary operator on a value that has the left operand's types and an action for the right one's.
  pub binary_types-Safe :
      (operate : Arithmetic → ℕ → ℕ → Option ℕ) (op : Binary) (ls rs us : Types) (d : Datum)
      (right : Eval Datum)
      → binary_types op ls rs ≡ ok us
      → HasSome h ls d
      → Safe (HasSome h rs) right
      → Safe (HasSome h us) (apply_binary operate h op d right)
  unfolding binary_types apply_binary
  binary_types-Safe operate Binary.both ls rs us d right e p s =
      let (kinds, same) =
        required-ok (both_are is_boolean_type ls rs) (one_type (StaticType.boolean none)) us e in
      rw (← same) (logical-Safe not ls rs d right kinds p s false)
  binary_types-Safe operate Binary.either ls rs us d right e p s =
      let (kinds, same) =
        required-ok (both_are is_boolean_type ls rs) (one_type (StaticType.boolean none)) us e in
      rw (← same) (logical-Safe (λ t. t) ls rs d right kinds p s true)
  binary_types-Safe operate Binary.equal ls rs us d right e p s =
      let (kinds, same) =
        required-ok (both_are is_scalar_type ls rs) (one_type (StaticType.boolean none)) us e in
      rw (← same) (
        Safe-bind right (λ v. strict_equal h d v >>= λ t. pure (truth t)) s
          λ v q. truth-Safe (strict_equal h d v) (λ t. t) (equality-Safe ls rs d v kinds p q))
  binary_types-Safe operate Binary.unequal ls rs us d right e p s =
      let (kinds, same) =
        required-ok (both_are is_scalar_type ls rs) (one_type (StaticType.boolean none)) us e in
      rw (← same) (
        Safe-bind right (λ v. strict_equal h d v >>= λ t. pure (truth (not t))) s
          λ v q. truth-Safe (strict_equal h d v) not (equality-Safe ls rs d v kinds p q))
  binary_types-Safe operate (Binary.compare op) ls rs us d right e p s =
      let (kinds, same) =
        required-ok (both_are is_number_type ls rs || both_are is_string_type ls rs)
          (one_type (StaticType.boolean none)) us e in
      rw (← same) (
        Safe-bind right (λ v. ordered_compare op d v >>= λ t. pure (truth t)) s
          λ v q. truth-Safe (ordered_compare op d v) (λ t. t) (ordered-Safe op ls rs d v kinds p q))
  binary_types-Safe operate (Binary.arithmetic op) ls rs us d right e p s =
      let (kinds, same) =
        required-ok (both_are is_number_type ls rs) (one_type (StaticType.number none)) us e in
      rw (← same) (
        Safe-bind right (calculate operate op d) s λ v q.
          let ((t, is_t, has_t), (u, is_u, has_u)) =
            both_are-HasSome is_number_type ls rs d v kinds p q in
          let (x, f) = number_type-Has h t d is_t has_t in
          let (y, g) = number_type-Has h u v is_u has_u in calculate-Safe operate op d v x y f g)
