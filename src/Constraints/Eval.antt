-- ===== src/Constraints/Eval.antt =====
-- The values and the errors of `_evaluate` of constraints.py, and `_number` and `_finite_result`.
use semant_script.Prelude.{ℕ, Bool, Option, none, some, if◌then◌else◌}
use semant_script.Python.Float.{pos, is_finite}
use semant_script.Python.Values.{Value}
use semant_script.Constraints.Numbers
use semant_script.Constraints.Numbers.{
  float_eq, float_lt, negate, is_number, array_index, js_number_string,
}
use semant_script.Constraints.Scan.{Budget, Scan}

-- `malformed` is what a predicate that is not valid, or a value that no JSON has, can lead to;
-- `digits` is the ValueError of `int` on more digits than it reads, and `too_deep` the end of the model's
-- recursion. `violation` is a ConstraintViolationError with the constraint's index, and the others are a
-- ConstraintEvaluationError.
pub data EvaluationError : Type 0 where
  missing_input not_boolean not_finite not_comparable cannot_read cannot_index : EvaluationError
  object_index non_finite units digits too_deep malformed not_mapping : EvaluationError
  violation : ℕ → EvaluationError

pub data Reply (A : Type 0) : Type 0 where
  value : A → Reply A
  error : EvaluationError → Reply A

-- `_UNDEFINED` or a JSON value
pub data Datum : Type 0 where
  undefined : Datum
  datum : Value → Datum

abbrev pub Eval : Type 0 → Type 0
Eval A = Budget → Reply A × Budget

abbrev pub continue : {A B : Type 0} → (A → Eval B) → Reply A → Eval B
continue f (Reply.error r) b = (Reply.error r, b)
continue f (Reply.value a) b = f a b

infixl 5 ◌>>=◌
unfoldable pub ◌>>=◌ : {A B : Type 0} → Eval A → (A → Eval B) → Eval B
◌>>=◌ m f b = continue f (m b).0 (m b).1

abbrev pub pure : {A : Type 0} → A → Eval A
pure a b = (Reply.value a, b)

abbrev pub raise : {A : Type 0} → EvaluationError → Eval A
raise r b = (Reply.error r, b)

abbrev pub or_raise : {A : Type 0} → EvaluationError → Option A → Eval A
or_raise r none = raise r
or_raise r (some a) = pure a

abbrev scanned : {A : Type 0} → Option A → Reply A
scanned none = Reply.error EvaluationError.units
scanned (some a) = Reply.value a

-- an action on the budget of units
unfoldable pub from_scan : {A : Type 0} → Scan A → Eval A
from_scan m b = (scanned (m b).0, (m b).1)

abbrev pub count : ℕ → Datum
count n = Datum.datum (Value.int (pos n))

abbrev pub truth : Bool → Datum
truth b = Datum.datum (Value.boolean b)

abbrev pub or_undefined : Option Value → Datum
or_undefined none = Datum.undefined
or_undefined (some v) = Datum.datum v

abbrev pub boolean_of : Datum → Option Bool
boolean_of (Datum.datum (Value.boolean b)) = some b
boolean_of _ = none

-- `_number`
unfoldable pub number_of : Datum → Option ℕ
unfolding Numbers.number
number_of Datum.undefined = none
number_of (Datum.datum v) = Numbers.number v

-- `_finite_result` of a float
unfoldable pub finite_result : ℕ → Eval Datum
unfolding is_finite
finite_result x =
    if is_finite x then pure (Datum.datum (Value.float x)) else raise EvaluationError.non_finite
