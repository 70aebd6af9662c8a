-- ===== src/Constraints/Types/Fits.antt =====
-- Which values a declared input type of a record describes, as constraints.py reads them. A literal and an enum's value are compared as `===` does.
pub mod Sound
pub mod Inputs
use semant_script.Prelude.{
  ℕ, zero, suc, ◌^◌, ◌<◌, ◌≡◌, refl, sym, subst, ap, ◌∙◌, String, ◌⊎◌, inl, inr, Bool, true, false,
  List, [], ◌∷◌, Option, none, some, length, All, Bool-cases, Option-cases, ltb, if◌then◌else◌,
}
use semant_script.Python.Text.{Text, codes}
use semant_script.Python.Values.{Value, Object, Heap, get, as_list}
use semant_script.CanonicalInput.Errors.{Result, ok, fail, bind, bind-eq-ok}
use semant_script.CanonicalInput.Spec.{Kind, kind_of}
use semant_script.Constraints.Numbers
use semant_script.Constraints.Numbers.{float_eq}
use semant_script.Constraints.Expression.{mapping, fields}
use semant_script.Constraints.Eval.{Datum, truth, number_of}
use semant_script.Constraints.Types.{
  StaticType, Types, ◌+++◌, one_type, Elements, Declared, Infer, ◌>>=◌, lift, consume, merge_types,
  literal_static_type,
}
use semant_script.Constraints.Types.Spec.{
  literal_types, declared_field, list_entry, element_types, field_types, variant_types,
  types_of_kind, types_from_input_spec,
}
use semant_script.Constraints.Types.Has.{
  Has, HasSome, HasEach, HasFields, HasSome-one, HasSome-left, HasSome-right,
}
use semant_script.Constraints.Types.Merge.{merge_types-HasSome, ok_value, ok_first}

-- The value is the literal: null, the same boolean or text, or an equal number.
pub data IsLiteral : Value → Value → Type 0 where
  null : IsLiteral Value.null Value.null
  boolean : (b : Bool) → IsLiteral (Value.boolean b) (Value.boolean b)
  string : (s : Text) → IsLiteral (Value.string s) (Value.string s)
  number :
      (l v : Value) (y x : ℕ)
      → Numbers.number l ≡ some y
      → Numbers.number v ≡ some x
      → float_eq y x ≡ true
      → IsLiteral l v

module _ (h : Heap) where
  abbrev pub entry_of : String → ℕ → Option Value
  entry_of key a = get (codes key) (fields h a)

  mutual
    -- The value is of the type that the spec at an address describes. A list has less than `2 ^ 53`
    -- items, so that its length is a number of JavaScript.
    pub data Fits : ℕ → Value → Type 0 where
      string :
          (a : ℕ) (s : Text) → kind_of (entry_of "kind" a) ≡ Kind.string → Fits a (Value.string s)
      boolean :
          (a : ℕ) (b : Bool) → kind_of (entry_of "kind" a) ≡ Kind.boolean → Fits a (Value.boolean b)
      number :
          (a : ℕ) (v : Value) (x : ℕ)
          → kind_of (entry_of "kind" a) ≡ Kind.number
          → Numbers.number v ≡ some x
          → Fits a v
      null : (a : ℕ) → kind_of (entry_of "kind" a) ≡ Kind.null → Fits a Value.null
      literal :
          (a : ℕ) (l v : Value)
          → kind_of (entry_of "kind" a) ≡ Kind.literal
          → entry_of "value" a ≡ some l
          → IsLiteral l v
          → Fits a v
      enum :
          (a : ℕ) (v : Value) (values : List Value)
          → kind_of (entry_of "kind" a) ≡ Kind.enum
          → list_entry h "values" a ≡ ok values
          → OneOf values v
          → Fits a v
      array :
          (a i : ℕ) (xs : List Value) (item : ℕ)
          → kind_of (entry_of "kind" a) ≡ Kind.array
          → mapping h (entry_of "items" a) ≡ ok item
          → h i ≡ Object.list xs
          → length xs < 2 ^ 53
          → FitsAll item xs
          → Fits a (Value.ref i)
      tuple :
          (a i : ℕ) (xs items : List Value)
          → kind_of (entry_of "kind" a) ≡ Kind.tuple
          → list_entry h "items" a ≡ ok items
          → h i ≡ Object.list xs
          → length xs < 2 ^ 53
          → FitsEach items xs
          → Fits a (Value.ref i)
      object :
          (a i : ℕ) (es : List (Value × Value)) (raw_fields : List Value)
          → kind_of (entry_of "kind" a) ≡ Kind.object
          → list_entry h "fields" a ≡ ok raw_fields
          → h i ≡ Object.dict es
          → FitsFields raw_fields es
          → Fits a (Value.ref i)
      union :
          (a : ℕ) (v : Value) (variants : List Value)
          → kind_of (entry_of "kind" a) ≡ Kind.union
          → list_entry h "variants" a ≡ ok variants
          → FitsSome variants v
          → Fits a v

    pub data OneOf : List Value → Value → Type 0 where
      here : (l : Value) (ls : List Value) (v : Value) → IsLiteral l v → OneOf (l ∷ ls) v
      there : (l : Value) (ls : List Value) (v : Value) → OneOf ls v → OneOf (l ∷ ls) v

    pub data FitsAll : ℕ → List Value → Type 0 where
      no_items : (item : ℕ) → FitsAll item []
      next_item :
          (item : ℕ) (v : Value) (vs : List Value)
          → Fits item v
          → FitsAll item vs
          → FitsAll item (v ∷ vs)

    pub data FitsEach : List Value → List Value → Type 0 where
      no_elements : FitsEach [] []
      next_element :
          (raw : Value) (a : ℕ) (raws : List Value) (v : Value) (vs : List Value)
          → mapping h (some raw) ≡ ok a
          → Fits a v
          → FitsEach raws vs
          → FitsEach (raw ∷ raws) (v ∷ vs)

    -- each declared field is present with a value of its type, or it is absent and optional
    pub data FitsFields : List Value → List (Value × Value) → Type 0 where
      no_fields : (es : List (Value × Value)) → FitsFields [] es
      present :
          (f : ℕ) (raw : Value) (raws : List Value) (es : List (Value × Value)) (name : Text)
          (a : ℕ) (v : Value)
          → mapping h (some raw) ≡ ok f
          → entry_of "name" f ≡ some (Value.string name)
          → mapping h (entry_of "type" f) ≡ ok a
          → get name es ≡ some v
          → Fits a v
          → FitsFields raws es
          → FitsFields (raw ∷ raws) es
      absent :
          (f : ℕ) (raw : Value) (raws : List Value) (es : List (Value × Value)) (name : Text)
          → mapping h (some raw) ≡ ok f
          → entry_of "name" f ≡ some (Value.string name)
          → entry_of "optional" f ≡ some (Value.boolean true)
          → get name es ≡ none
          → FitsFields raws es
          → FitsFields (raw ∷ raws) es

    pub data FitsSome : List Value → Value → Type 0 where
      first :
          (raw : Value) (a : ℕ) (raws : List Value) (v : Value)
          → mapping h (some raw) ≡ ok a
          → Fits a v
          → FitsSome (raw ∷ raws) v
      later :
          (raw : Value) (raws : List Value) (v : Value) → FitsSome raws v → FitsSome (raw ∷ raws) v
