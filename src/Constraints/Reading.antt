-- ===== src/Constraints/Reading.antt =====
-- The properties and the indexes that `_evaluate` of constraints.py reads. `repr` of a float is a parameter.
use semant_script.Prelude.{
  ℕ, Bool, true, false, List, [], ◌∷◌, Option, none, some, length, get_elem?, if◌then◌else◌,
}
use semant_script.Python.Text.{Text, codes, text_eq}
use semant_script.Python.Values.{Value, Object, Heap, is_text, get}
use semant_script.CanonicalInput.Errors.{Result, ok, fail}
use semant_script.Constraints.Numbers
use semant_script.Constraints.Numbers.{
  float_eq, float_lt, negate, is_number, array_index, js_number_string,
}
use semant_script.Constraints.Scan.{utf16_length, utf16_unit_at}
use semant_script.Constraints.Eval.{
  EvaluationError, Reply, Datum, Eval, ◌>>=◌, pure, raise, from_scan, count, or_undefined,
}

-- what `_array_index` returns, or the error of `int`
abbrev pub with_index : Result (Option ℕ) → (ℕ → Eval Datum) → Eval Datum
with_index (fail e) k = raise EvaluationError.digits
with_index (ok none) k = pure Datum.undefined
with_index (ok (some i)) k = k i

abbrev pub index_of : Datum → Result (Option ℕ)
index_of Datum.undefined = ok none
index_of (Datum.datum v) = array_index v

abbrev pub reads_length : Datum → Bool
reads_length Datum.undefined = false
reads_length (Datum.datum v) = is_text (codes "length") v

abbrev pub unit_or_undefined : Option ℕ → Datum
unit_or_undefined none = Datum.undefined
unit_or_undefined (some unit) = Datum.datum (Value.string (unit ∷ []))

-- `_read_index` of a list and of a text
unfoldable pub read_item : List Value → Datum → Eval Datum
unfolding array_index is_text
read_item xs i =
    if reads_length i
    then pure (count (length xs))
    else with_index (index_of i) λ n. pure (or_undefined (get_elem? xs n))

unfoldable pub read_unit : Text → Datum → Eval Datum
unfolding array_index is_text utf16_length utf16_unit_at from_scan ◌>>=◌
read_unit s i =
    if reads_length i
    then (do n ← from_scan (utf16_length s); pure (count n))
    else with_index (index_of i)
        λ n. (do unit ← from_scan (utf16_unit_at s n); pure (unit_or_undefined unit))

module _ (repr : ℕ → Text) where
  abbrev number_key : Option ℕ → Eval Text
  number_key none = raise EvaluationError.not_finite
  number_key (some x) = pure (js_number_string repr x)

  -- `_property_key`
  unfoldable pub property_key : Datum → Eval Text
  unfolding Numbers.number js_number_string
  property_key (Datum.datum (Value.string s)) = pure s
  property_key (Datum.datum (Value.int n)) = number_key (Numbers.number (Value.int n))
  property_key (Datum.datum (Value.float x)) = number_key (Numbers.number (Value.float x))
  property_key _ = raise EvaluationError.object_index

module _ (h : Heap) where
  abbrev pub length_of_text : Text → Bool → Eval Datum
  length_of_text s true b = (from_scan (utf16_length s) >>= λ n. pure (count n)) b
  length_of_text s false b = (Reply.error EvaluationError.cannot_read, b)

  abbrev property_of_object : Text → Object → Eval Datum
  property_of_object name (Object.dict es) = pure (or_undefined (get name es))
  property_of_object name (Object.list xs) =
      if text_eq (codes "length") name
      then pure (count (length xs))
      else raise EvaluationError.cannot_read
  property_of_object name (Object.tuple xs) = raise EvaluationError.cannot_read

  -- the property of a value
  unfoldable pub read_property : Text → Datum → Eval Datum
  unfolding get text_eq utf16_length from_scan ◌>>=◌
  read_property name (Datum.datum (Value.ref a)) = property_of_object name (h a)
  read_property name (Datum.datum (Value.string s)) =
      length_of_text s (text_eq (codes "length") name)
  read_property name _ = raise EvaluationError.cannot_read

  module _ (repr : ℕ → Text) where
    abbrev index_object : Object → Datum → Eval Datum
    index_object (Object.dict es) i =
        property_key repr i >>= λ key. pure (or_undefined (get key es))
    index_object (Object.list xs) i = read_item xs i
    index_object (Object.tuple xs) i = raise EvaluationError.cannot_index

    -- `_read_index`
    unfoldable pub read_index : Datum → Datum → Eval Datum
    unfolding property_key read_item read_unit get ◌>>=◌
    read_index (Datum.datum (Value.ref a)) i = index_object (h a) i
    read_index (Datum.datum (Value.string s)) i = read_unit s i
    read_index _ i = raise EvaluationError.cannot_index
