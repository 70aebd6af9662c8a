-- ===== src/Constraints/Compile/Tests.antt =====
-- Runs of constraints.py's compilation and evaluation, and the theorems at concrete inputs.
use semant_script.Prelude.{
  ℕ, ◌≡◌, refl, inl, inr, Bool, true, String, List, [], ◌∷◌, Option, none, some, get_elem?, All,
  arith,
}
use semant_script.Python.Text.{Text, codes}
use semant_script.Python.Float.{pos}
use semant_script.Python.Values.{Value, Object, Heap, get, as_list}
use semant_script.CanonicalInput.Errors.{ok}
use semant_script.CanonicalInput.Spec.{kind_of}
use semant_script.Constraints.View.{Arithmetic}
use semant_script.Constraints.Eval.{EvaluationError, Reply, Datum, number_of}
use semant_script.Constraints.Evaluate.{evaluate}
use semant_script.Constraints.Types.{
  StaticType, Types, one_type, merge_types, maximum_type_operations,
}
use semant_script.Constraints.Types.Spec.{constraint_input_types}
use semant_script.Constraints.Types.Infer.{infer_expression_types}
use semant_script.Constraints.Types.Fits.{Fits, FitsAll}
use semant_script.Constraints.Types.Fits.Inputs.{FitsEntry}
use semant_script.Constraints.Types.Has.{Has, HasSome}
use semant_script.Constraints.Types.Merge.{merge_types-HasSome}
use semant_script.Constraints.Numbers.{float_eq, js_number_string, array_index}
use semant_script.Constraints.Compiled.{
  CompiledConstraints, new_budget, evaluate_predicate, validate_case, evaluate_output_contract,
}
use semant_script.Constraints.Compiled.Agree.{Agrees, validate_case-Agrees}
use semant_script.Constraints.Compile.{CaseContract, compile_constraints}
use semant_script.Constraints.Compile.Accepted.{FitsDeclared, compile_constraints-Safe}
use semant_script.Constraints.Expression.{mapping, maximum_constraint_depth, validate_expression}
use semant_script.Constraints.Levels.Enough.{evaluate-levels, infer_expression_types-levels}
use semant_script.Constraints.Safety.{Safe}
use semant_script.Constraints.Safety.Typed.{FitsInputs, evaluate-Safe}

abbrev key : String → Value → Value × Value
key s v = (Value.string (codes s), v)

abbrev text : String → Value
text s = Value.string (codes s)

abbrev node : String → List (Value × Value) → Object
node kind es = Object.dict (key "node" (text kind) ∷ es)

-- A record with the inputs `items`, texts, and `flag`, and the constraint on `items.length > 1 && flag`;
-- from 16 on, inputs.
abbrev objects : List Object
objects =
    Object.dict (key "inputs" (Value.ref 1) ∷ key "definition" (Value.ref 2) ∷ [])
    ∷ Object.list (Value.ref 3 ∷ Value.ref 4 ∷ [])
    ∷ Object.dict (key "constraints" (Value.ref 5) ∷ [])
    ∷ Object.dict (key "name" (text "items") ∷ key "type" (Value.ref 6) ∷ [])
    ∷ Object.dict (key "name" (text "flag") ∷ key "type" (Value.ref 7) ∷ [])
    ∷ Object.list (Value.ref 8 ∷ [])
    ∷ Object.dict (key "kind" (text "array") ∷ key "items" (Value.ref 9) ∷ [])
    ∷ Object.dict (key "kind" (text "boolean") ∷ [])
    ∷ Object.dict (
        key "kind" (text "always")
        ∷ key "source" (text "s")
        ∷ key "predicate" (Value.ref 10)
        ∷ key "output" Value.null
        ∷ [])
    ∷ Object.dict (key "kind" (text "string") ∷ [])
    ∷ node "binary"
        (key "operator" (text "&&") ∷ key "left" (Value.ref 11) ∷ key "right" (Value.ref 12) ∷ [])
    ∷ node "binary"
        (key "operator" (text ">") ∷ key "left" (Value.ref 13) ∷ key "right" (Value.ref 14) ∷ [])
    ∷ node "input" (key "name" (text "flag") ∷ [])
    ∷ node "property" (key "object" (Value.ref 15) ∷ key "property" (text "length") ∷ [])
    ∷ node "literal" (key "value" (Value.int (pos 1)) ∷ [])
    ∷ node "input" (key "name" (text "items") ∷ [])
    ∷ Object.dict (key "items" (Value.ref 17) ∷ key "flag" (Value.boolean true) ∷ [])
    ∷ Object.list (text "a" ∷ text "b" ∷ [])
    ∷ []

abbrev at : Option Object → Object
at none = Object.dict []
at (some o) = o

abbrev example : Heap
example a = at (get_elem? objects a)

abbrev any_case : CaseContract
any_case = record {
  build_case_schema = λ ir. ok tt;
  validate_constraint_output = λ ir output. ok tt;
}

-- no operator and no number is printed in these runs
abbrev repr : ℕ → Text
repr x = codes "1.0"

abbrev operate : Arithmetic → ℕ → ℕ → Option ℕ
operate op x y = none

abbrev compiled : CompiledConstraints
compiled = record { values = 8 ∷ []; node_count = 6 }

compiles : compile_constraints any_case repr example 0 ≡ ok compiled
unfolding compile_constraints
compiles = refl

holds : (evaluate_predicate repr operate example 8 (Value.ref 16) new_budget).0 ≡ Reply.value true
unfolding evaluate_predicate
holds = refl

satisfied :
    (validate_case repr operate example compiled (Value.ref 16) Value.null new_budget).0
    ≡ Reply.value (0 ∷ [])
unfolding validate_case
satisfied = refl

violated :
    (validate_case repr operate example compiled (Value.ref 16) (Value.boolean true) new_budget).0
    ≡ Reply.error (EvaluationError.violation 0)
unfolding validate_case
violated = refl

reported :
    (evaluate_output_contract repr operate example compiled
      (Value.ref 16)
      (Value.boolean true)
      new_budget).0
    ≡ Reply.value (0 ∷ [], 0 ∷ [])
unfolding evaluate_output_contract
reported = refl

abbrev declared : List (Text × Types)
declared =
    (codes "items", one_type (StaticType.array (one_type (StaticType.string none))))
    ∷ (codes "flag", one_type (StaticType.boolean none))
    ∷ []

abbrev input_items : List (Value × Value)
input_items = key "items" (Value.ref 17) ∷ key "flag" (Value.boolean true) ∷ []

fits : FitsInputs example declared input_items
unfolding Has get
fits = (
  (
    Value.ref 17,
    refl,
    inl (
      17,
      text "a" ∷ text "b" ∷ [],
      refl,
      refl,
      omega arith,
      (inl (codes "a", refl, tt), (inl (codes "b", refl, tt), tt)),
    ),
  ),
  ((Value.boolean true, refl, inl (true, refl, tt)), tt),
)

declares : (b : ℕ) × (constraint_input_types example 0 maximum_type_operations ≡ ok (declared, b))
unfolding constraint_input_types
declares = (9999997, refl)

items_entry : FitsEntry example input_items (Value.ref 3)
unfolding mapping get kind_of
items_entry = record {
  at = 3;
  is_dict = refl;
  name = codes "items";
  named = refl;
  spec = 6;
  typed = refl;
  found = Value.ref 17;
  present = refl;
  fits = Fits.array 6 17 (text "a" ∷ text "b" ∷ []) 9 refl refl refl (omega arith) (
      FitsAll.next_item 9 (text "a") (text "b" ∷ []) (Fits.string 9 (codes "a") refl)
        (FitsAll.next_item 9 (text "b") [] (Fits.string 9 (codes "b") refl) (FitsAll.no_items 9)));
}

flag_entry : FitsEntry example input_items (Value.ref 4)
unfolding mapping get kind_of
flag_entry = record {
  at = 4;
  is_dict = refl;
  name = codes "flag";
  named = refl;
  spec = 7;
  typed = refl;
  found = Value.boolean true;
  present = refl;
  fits = Fits.boolean 7 true refl;
}

fits_declared : FitsDeclared any_case repr example 0 (Value.ref 16)
unfolding as_list get
fits_declared = (
  16,
  input_items,
  Value.ref 3 ∷ Value.ref 4 ∷ [],
  refl,
  refl,
  refl,
  (items_entry, (flag_entry, tt)),
)

compile_constraints-Safe_example :
    All
      (λ c.
        Safe (λ (t : Bool). Unit {0}) (evaluate_predicate repr operate example c (Value.ref 16)))
      (8 ∷ [])
compile_constraints-Safe_example =
    compile_constraints-Safe any_case repr example 0 operate compiled (Value.ref 16) compiles
      fits_declared

abbrev boolean_types : Types
boolean_types = one_type (StaticType.boolean none)

infers : infer_expression_types repr example declared 100 10 1000 ≡ ok (boolean_types, 992)
unfolding infer_expression_types
infers = refl

evaluate-Safe_example :
    Safe (HasSome example boolean_types) (evaluate repr operate example input_items 100 10)
evaluate-Safe_example =
    evaluate-Safe repr operate example declared input_items 100 10 1000 992 boolean_types infers
      fits

valid_predicate : validate_expression example 10 ≡ ok 6
unfolding validate_expression
valid_predicate = refl

evaluate-levels_example :
    evaluate repr operate example input_items 102 10
    ≡ evaluate repr operate example input_items maximum_constraint_depth 10
evaluate-levels_example =
    evaluate-levels repr operate example input_items 10 6 102 valid_predicate (omega arith)

infer_expression_types-levels_example :
    infer_expression_types repr example declared 102 10
    ≡ infer_expression_types repr example declared maximum_constraint_depth 10
infer_expression_types-levels_example =
    infer_expression_types-levels repr example declared 10 6 102 valid_predicate (omega arith)

validate_case-Agrees_example :
    Agrees
      (validate_case repr operate example compiled (Value.ref 16) Value.null new_budget)
      (evaluate_output_contract repr operate example compiled (Value.ref 16) Value.null new_budget)
validate_case-Agrees_example =
    validate_case-Agrees repr operate example (Value.ref 16) Value.null compiled new_budget

-- two equal zeros and a text
abbrev variants : Types
variants =
    Types.types (StaticType.number (some 0)) (
      Types.types (StaticType.number (some 0x8000000000000000)) (one_type (StaticType.string none)))

abbrev merged : Types
merged = Types.types (StaticType.number (some 0)) (one_type (StaticType.string none))

merges : merge_types variants 3 ≡ ok (merged, 0)
unfolding merge_types
merges = refl

minus_zero-Has : HasSome example variants (Datum.datum (Value.float 0x8000000000000000))
unfolding Has number_of float_eq
minus_zero-Has = inr (inl (0x8000000000000000, refl, refl))

merge_types-HasSome_example : HasSome example merged (Datum.datum (Value.float 0x8000000000000000))
merge_types-HasSome_example =
    merge_types-HasSome example variants merged 3 0 (Datum.datum (Value.float 0x8000000000000000))
      merges minus_zero-Has

-- as JavaScript prints these floats
prints_large : js_number_string (λ x. codes "1e+21") 0x444B1AE4D6E2EF50 ≡ codes "1e+21"
unfolding js_number_string
prints_large = refl

prints_integer :
    js_number_string (λ x. codes "1e+16") 0x4341C37937E08000 ≡ codes "10000000000000000"
unfolding js_number_string
prints_integer = refl

prints_small : js_number_string (λ x. codes "-1.5e-05") 0xBEEF75104D551D69 ≡ codes "-0.000015"
unfolding js_number_string
prints_small = refl

prints_whole : js_number_string (λ x. codes "50.0") 0x4049000000000000 ≡ codes "50"
unfolding js_number_string
prints_whole = refl

prints_tiny : js_number_string (λ x. codes "1.5e-07") 0x3E8421F5F40D8376 ≡ codes "1.5e-7"
unfolding js_number_string
prints_tiny = refl

no_leading_zero : array_index (Value.string (codes "01")) ≡ ok none
unfolding array_index
no_leading_zero = refl

below_the_last : array_index (Value.string (codes "4294967294")) ≡ ok (some 4294967294)
unfolding array_index
below_the_last = refl

not_the_last : array_index (Value.int (pos 4294967295)) ≡ ok none
unfolding array_index
not_the_last = refl

minus_zero_index : array_index (Value.float 0x8000000000000000) ≡ ok (some 0)
unfolding array_index
minus_zero_index = refl
