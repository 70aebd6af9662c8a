-- ===== src/Constraints/Operators.antt =====
-- The operators of `_evaluate` of constraints.py. The arithmetic of doubles, which is the machine's, is a parameter.
use semant_script.Prelude.{ℕ, Bool, true, false, not, ◌&&◌, Option, none, some, ◌==◌, if◌then◌else◌}
use semant_script.Python.Float.{is_zero}
use semant_script.Python.Values.{Value, Object, Heap}
use semant_script.Constraints.Numbers
use semant_script.Constraints.Numbers.{
  float_eq, float_lt, negate, is_number, array_index, js_number_string,
}
use semant_script.Constraints.Scan.{Order, compare_utf16}
use semant_script.Constraints.View.{Unary, Arithmetic, Comparison}
use semant_script.Constraints.Eval.{
  EvaluationError, Datum, Eval, ◌>>=◌, pure, raise, or_raise, from_scan, truth, boolean_of,
  number_of, finite_result,
}

abbrev eq_boolean : Bool → Bool → Bool
eq_boolean true c = c
eq_boolean false c = not c

abbrev pub equal_numbers : Option ℕ → Option ℕ → Eval Bool
equal_numbers none y = raise EvaluationError.not_finite
equal_numbers (some x) none = raise EvaluationError.not_finite
equal_numbers (some x) (some y) = pure (float_eq x y)

abbrev pub is_equal : Order → Bool
is_equal Order.equal = true
is_equal _ = false

module _ (h : Heap) where
  abbrev pub same_objects : ℕ → ℕ → Object → Object → Eval Bool
  same_objects a c (Object.list xs) (Object.list ys) = pure (a == c)
  same_objects a c (Object.dict es) (Object.dict fs) = pure (a == c)
  same_objects a c (Object.tuple xs) (Object.tuple ys) = raise EvaluationError.malformed
  same_objects a c o p = pure false

  -- the values of `_strict_equal` that are not both numbers
  unfoldable pub equal_values : Value → Value → Eval Bool
  unfolding compare_utf16 from_scan ◌>>=◌
  equal_values Value.null Value.null = pure true
  equal_values (Value.boolean a) (Value.boolean c) = pure (eq_boolean a c)
  equal_values (Value.string s) (Value.string t) = do
    order ← from_scan (compare_utf16 s t)
    pure (is_equal order)
  equal_values (Value.ref a) (Value.ref c) = same_objects a c (h a) (h c)
  equal_values Value.callable Value.callable = raise EvaluationError.malformed
  equal_values Value.host Value.host = raise EvaluationError.malformed
  equal_values v w = pure false

  -- `_strict_equal`
  unfoldable pub strict_equal : Datum → Datum → Eval Bool
  unfolding is_number Numbers.number float_eq equal_values
  strict_equal Datum.undefined Datum.undefined = pure true
  strict_equal Datum.undefined (Datum.datum w) = pure false
  strict_equal (Datum.datum v) Datum.undefined = pure false
  strict_equal (Datum.datum v) (Datum.datum w) =
      if is_number v && is_number w
      then equal_numbers (Numbers.number v) (Numbers.number w)
      else equal_values v w

abbrev pub holds_of : Comparison → Order → Bool
holds_of Comparison.less Order.less = true
holds_of Comparison.less _ = false
holds_of Comparison.less_equal Order.greater = false
holds_of Comparison.less_equal _ = true
holds_of Comparison.greater Order.greater = true
holds_of Comparison.greater _ = false
holds_of Comparison.greater_equal Order.less = false
holds_of Comparison.greater_equal _ = true

-- `(left > right) - (left < right)`
abbrev order_of : ℕ → ℕ → Order
order_of x y =
    if float_lt x y then Order.less else if float_lt y x then Order.greater else Order.equal

abbrev pub compare_numbers : Comparison → Option ℕ → Option ℕ → Eval Bool
compare_numbers op none y = raise EvaluationError.not_finite
compare_numbers op (some x) none = raise EvaluationError.not_finite
compare_numbers op (some x) (some y) = pure (holds_of op (order_of x y))

abbrev pub both_numbers : Datum → Datum → Bool
both_numbers (Datum.datum v) (Datum.datum w) = is_number v && is_number w
both_numbers _ _ = false

-- `_ordered_compare`
unfoldable pub ordered_compare : Comparison → Datum → Datum → Eval Bool
unfolding number_of is_number float_lt compare_utf16 from_scan ◌>>=◌
ordered_compare op (Datum.datum (Value.string s)) (Datum.datum (Value.string t)) = do
  order ← from_scan (compare_utf16 s t)
  pure (holds_of op order)
ordered_compare op v w =
    if both_numbers v w
    then compare_numbers op (number_of v) (number_of w)
    else raise EvaluationError.not_comparable

unfoldable pub apply_unary : Unary → Datum → Eval Datum
unfolding number_of negate finite_result ◌>>=◌
apply_unary Unary.invert v = do
  t ← or_raise EvaluationError.not_boolean (boolean_of v)
  pure (truth (not t))
apply_unary Unary.plus v = do x ← or_raise EvaluationError.not_finite (number_of v); finite_result x
apply_unary Unary.minus v = do
  x ← or_raise EvaluationError.not_finite (number_of v)
  finite_result (negate x)

module _ (operate : Arithmetic → ℕ → ℕ → Option ℕ) where
  abbrev pub divides : Arithmetic → Bool
  divides Arithmetic.divide = true
  divides Arithmetic.remainder = true
  divides _ = false

  -- an arithmetic operator on finite floats; `operate` gives none where Python raises or the result is
  -- complex
  unfoldable pub calculate_floats : Arithmetic → ℕ → ℕ → Eval Datum
  unfolding is_zero finite_result ◌>>=◌
  calculate_floats op x y =
      if divides op && is_zero y
      then raise EvaluationError.non_finite
      else (do z ← or_raise EvaluationError.non_finite (operate op x y); finite_result z)

  unfoldable pub calculate : Arithmetic → Datum → Datum → Eval Datum
  unfolding number_of calculate_floats ◌>>=◌
  calculate op v w = do
    x ← or_raise EvaluationError.not_finite (number_of v)
    y ← or_raise EvaluationError.not_finite (number_of w)
    calculate_floats op x y
