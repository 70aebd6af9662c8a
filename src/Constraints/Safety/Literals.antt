-- ===== src/Constraints/Safety/Literals.antt =====
-- A value with a literal type is read by constraints.py as its literal is.
use semant_script.Prelude.{
  ℕ, ◌≡◌, refl, sym, ap, ◌∙◌, subst, ◌⊎◌, inl, inr, true, false, some, arith, Bool-cases,
  Option-cases, ◌==◌,
}
use semant_script.Python.Text.{Text}
use semant_script.Python.Float.{is_zero, is_finite, natural_of_float, float_of_int}
use semant_script.Python.Values.{Value, Heap, is_text}
use semant_script.CanonicalInput.Errors.{ok}
use semant_script.Constraints.Numbers
use semant_script.Constraints.Numbers.{
  float_eq, finite_float, float_index, index_below, array_index, js_number_string,
}
use semant_script.Constraints.Eval.{Datum, pure, number_of}
use semant_script.Constraints.Reading.{index_of, reads_length, property_key}
use semant_script.Constraints.Types.{StaticType}
use semant_script.Constraints.Types.Infer.{
  is_index_type, literal_of, is_length, static_property_key,
}
use semant_script.Constraints.Types.Has.{Has}

pub some_value : {A : Type 0} {a b : A} → some a ≡ some b → a ≡ b
some_value e = cc

-- Equal floats are the same or both zeros.
pub float_eq-cases :
    (y x : ℕ) → float_eq y x ≡ true → (y ≡ x) ⊎ ((is_zero y ≡ true) × (is_zero x ≡ true))
unfolding float_eq
float_eq-cases y x e = elim (Bool-cases (y == x)) [
  | inl same ↦ inl (ground (arith, same))
  | inr other ↦ inr (ground (arith, other, e))
]

zero_finite : (x : ℕ) → is_zero x ≡ true → is_finite x ≡ true
unfolding is_zero is_finite
zero_finite x z = ground arith

finite_literal : (y x : ℕ) → float_eq y x ≡ true → is_finite x ≡ true → is_finite y ≡ true
finite_literal y x e f = elim (float_eq-cases y x e) [
  | inl same ↦ rw same f
  | inr (zero, other) ↦ zero_finite y zero
]

zero-index : (y : ℕ) → is_zero y ≡ true → natural_of_float y ≡ some 0
unfolding natural_of_float
zero-index y z = rw z refl

float_index-eq : (y x : ℕ) → float_eq y x ≡ true → float_index (some y) ≡ float_index (some x)
float_index-eq y x e = elim (float_eq-cases y x e) [
  | inl same ↦ rw same refl
  | inr (zero, other) ↦ ap index_below (zero-index y zero ∙ sym (zero-index x other))
]

js_number_string-eq :
    (repr : ℕ → Text) (y x : ℕ)
    → float_eq y x ≡ true
    → js_number_string repr y ≡ js_number_string repr x
unfolding js_number_string
js_number_string-eq repr y x e = elim (float_eq-cases y x e) [
  | inl same ↦ rw same refl
  | inr (zero, other) ↦ rw (zero, other) refl
]

finite_float-finite : (y x : ℕ) → finite_float y ≡ some x → is_finite x ≡ true
finite_float-finite y x e = elim (Bool-cases (is_finite y)) [
  | inl f ↦ let same : y ≡ x = some_value (rw f at e) in rw (sym same) f
  | inr f ↦ absurd (cc (rw f at e))
]

-- A number is an int or a float, and finite.
pub number_of-finite : (d : Datum) (x : ℕ) → number_of d ≡ some x → is_finite x ≡ true
unfolding number_of Numbers.number float_of_int
number_of-finite (Datum.datum (Value.int n)) x e = elim (Option-cases (float_of_int n)) [
  | inl over ↦ absurd (cc (rw (Numbers.number, over) at e))
  | inr (y, f) ↦ finite_float-finite y x (rw (Numbers.number, f) at e)
]
number_of-finite (Datum.datum (Value.float y)) x e = finite_float-finite y x e
number_of-finite _ x e = cc

pub number_of-index :
    (d : Datum) (x : ℕ) → number_of d ≡ some x → index_of d ≡ ok (float_index (some x))
unfolding number_of array_index
number_of-index (Datum.datum (Value.int n)) x e = rw e refl
number_of-index (Datum.datum (Value.float y)) x e = rw e refl
number_of-index _ x e = cc

pub number_of-length : (d : Datum) (x : ℕ) → number_of d ≡ some x → reads_length d ≡ false
unfolding number_of is_text Numbers.number
number_of-length (Datum.datum (Value.int n)) x e = refl
number_of-length (Datum.datum (Value.float y)) x e = refl
number_of-length _ x e = cc

number_of-key :
    (repr : ℕ → Text) (d : Datum) (x : ℕ)
    → number_of d ≡ some x
    → property_key repr d ≡ pure (js_number_string repr x)
unfolding number_of property_key Numbers.number
number_of-key repr (Datum.datum (Value.int n)) x e = rw e refl
number_of-key repr (Datum.datum (Value.float y)) x e = rw e refl
number_of-key repr _ x e = cc

pub finite-number : (y : ℕ) → is_finite y ≡ true → Numbers.number (Value.float y) ≡ some y
unfolding Numbers.number
finite-number y f = rw f refl

float-index : (y : ℕ) → is_finite y ≡ true → array_index (Value.float y) ≡ ok (float_index (some y))
unfolding array_index Numbers.number
float-index y f = ap (λ o. ok (float_index o)) (finite-number y f)

-- How a value is read that has a type with a literal `v`.
pub record ReadAs (repr : ℕ → Text) (v : Value) (d : Datum) : Type 0 where
  pub length_same : reads_length d ≡ is_length (some v)
  pub index_same : index_of d ≡ array_index v
  pub key : Text
  pub key_static : static_property_key repr v ≡ ok key
  pub key_same : property_key repr d ≡ pure key

module _ (repr : ℕ → Text) (h : Heap) where
  float-ReadAs :
      (y x : ℕ) (d : Datum)
      → number_of d ≡ some x
      → float_eq y x ≡ true
      → ReadAs repr (Value.float y) d
  unfolding is_text array_index Numbers.number static_property_key
  float-ReadAs y x d e same = record {
    length_same = number_of-length d x e;
    index_same =
        number_of-index d x e
        ∙ ap ok (sym (float_index-eq y x same))
        ∙ sym (float-index y (finite_literal y x same (number_of-finite d x e)));
    key = js_number_string repr x;
    key_static = ap ok (js_number_string-eq repr y x same);
    key_same = number_of-key repr d x e;
  }

  text-ReadAs : (s : Text) → ReadAs repr (Value.string s) (Datum.datum (Value.string s))
  unfolding static_property_key property_key
  text-ReadAs s = record {
    length_same = refl;
    index_same = refl;
    key = s;
    key_static = refl;
    key_same = refl;
  }

  pub literal_of-ReadAs :
      (t : StaticType) (v : Value) (d : Datum)
      → literal_of t ≡ some v
      → is_index_type t ≡ true
      → Has h t d
      → ReadAs repr v d
  unfolding Has static_property_key property_key array_index is_text
  literal_of-ReadAs (StaticType.string (some s)) v d e i (s', p, q) =
      subst (λ w. ReadAs repr w d) (some_value e)
        (rw p (
          subst (λ u. ReadAs repr (Value.string s) (Datum.datum (Value.string u))) q
            (text-ReadAs s)))
  literal_of-ReadAs (StaticType.number (some y)) v d e i (x, p, q) =
      subst (λ v. ReadAs repr v d) (some_value e) (float-ReadAs y x d p q)
  literal_of-ReadAs _ v d e i p = cc
