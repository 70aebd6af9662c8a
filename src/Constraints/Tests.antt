-- ===== src/Constraints/Tests.antt =====
-- Runs of constraints.py's functions on UTF-16 units, and the theorems at concrete inputs.
use semant_script.Prelude.{◌+◌, ◌≡◌, refl, [], ◌∷◌, some, length, get_elem?, All, arith}
use semant_script.Python.Text.{Text}
use semant_script.Python.Decode.{IsScalar}
use semant_script.Constraints.Scan.{Budget, Order, compare_utf16, utf16_length, utf16_unit_at}
use semant_script.Prelude.{String, ◌==◌, if◌then◌else◌, ◌≤◌}
use semant_script.Python.Text.{codes}
use semant_script.Python.Values.{Value, Object, Heap}
use semant_script.CanonicalInput.Errors.{ok}
use semant_script.Constraints.Expression.{
  maximum_constraint_nodes, maximum_constraint_depth, malformed, validate_expression, depends,
}
use semant_script.Constraints.Expression.Denotes.{
  Expr, Denotes, size, height, mentions_input, validate_expression-Denotes,
}
use semant_script.Constraints.Expression.Search.{depends_lem}
use semant_script.Constraints.Units.{utf16, Enough}
use semant_script.Constraints.Utf16.{
  lexicographic, compare_utf16_lem, compare_utf16-equal, utf16_length_lem, utf16_unit_at_lem,
}

abbrev new_budget : Budget
new_budget = record { used = 0; aggregate_used = 0; aggregate_limit = 10000000 }

-- a character above 0xFFFF, and one below that follows its surrogates
abbrev smile : Text
smile = 0x1F600 ∷ []

abbrev private_use : Text
private_use = 0xE000 ∷ []

smile_before : (compare_utf16 smile private_use new_budget).0 ≡ some Order.less
unfolding compare_utf16
smile_before = refl

three_units : Enough (length (utf16 smile) + length (utf16 private_use)) new_budget
unfolding utf16
three_units = record { own = omega arith; shared = omega arith }

four_units : Enough (length (utf16 smile) + length (utf16 smile)) new_budget
unfolding utf16
four_units = record { own = omega arith; shared = omega arith }

two_units : Enough (length (utf16 smile)) new_budget
unfolding utf16
two_units = record { own = omega arith; shared = omega arith }

compare_utf16_example :
    (compare_utf16 smile private_use new_budget).0
    ≡ some (lexicographic (utf16 smile) (utf16 private_use))
compare_utf16_example = compare_utf16_lem smile private_use new_budget three_units

smile-IsScalar : All IsScalar smile
smile-IsScalar = ((omega arith, refl), tt)

smile_same : (compare_utf16 smile smile new_budget).0 ≡ some Order.equal
unfolding compare_utf16
smile_same = refl

compare_utf16-equal_example : smile ≡ smile
compare_utf16-equal_example =
    compare_utf16-equal smile smile new_budget smile-IsScalar smile-IsScalar four_units smile_same

utf16_length_example : (utf16_length smile new_budget).0 ≡ some (length (utf16 smile))
utf16_length_example = utf16_length_lem smile new_budget two_units

utf16_unit_at_example : (utf16_unit_at smile 1 new_budget).0 ≡ some (get_elem? (utf16 smile) 1)
utf16_unit_at_example = utf16_unit_at_lem smile 1 new_budget two_units

abbrev key : String → Value → Value × Value
key s v = (Value.string (codes s), v)

-- `!x`, and a node that is its own operand
abbrev predicates : Heap
predicates a =
    if a == 0
    then Object.dict (
        key "node" (Value.string (codes "unary"))
        ∷ key "operator" (Value.string (codes "!"))
        ∷ key "operand" (Value.ref 1)
        ∷ [])
    else if a == 1
    then Object.dict
        (key "node" (Value.string (codes "input")) ∷ key "name" (Value.string (codes "x")) ∷ [])
    else Object.dict (
        key "node" (Value.string (codes "unary"))
        ∷ key "operator" (Value.string (codes "!"))
        ∷ key "operand" (Value.ref 2)
        ∷ [])

valid_not : validate_expression predicates 0 ≡ ok 2
unfolding validate_expression
valid_not = refl

refuses_cycle : validate_expression predicates 2 ≡ malformed
unfolding validate_expression
refuses_cycle = refl

validate_expression-Denotes_example :
    (e : Expr) × Denotes predicates 0 e
    × (2 ≡ size e)
    × (size e ≤ maximum_constraint_nodes)
    × (height e ≤ maximum_constraint_depth)
validate_expression-Denotes_example = validate_expression-Denotes predicates 0 2 valid_not

depends_example :
    (e : Expr) × Denotes predicates 0 e × (depends predicates 0 ≡ some (ok (mentions_input e)))
depends_example = depends_lem predicates 0 2 valid_not
