-- ===== src/Constraints/Types/Has.antt =====
-- Which values a static type of constraints.py has, and how that follows `==` of types.
use semant_script.Prelude.{
  ℕ, ◌^◌, ◌<◌, ◌≡◌, ◌⊎◌, inl, inr, Bool, true, List, [], ◌∷◌, Option, none, some, length, All,
  arith,
}
use semant_script.Python.Text.{Text}
use semant_script.Python.Float.{is_zero}
use semant_script.Python.Values.{Value, Object, Heap, get}
use semant_script.Constraints.Numbers.{float_eq}
use semant_script.Constraints.Eval.{Datum, truth, number_of}
use semant_script.Constraints.Types.{StaticType, Types, ◌+++◌, one_type, Elements, Declared}

abbrev pub TextIs : Option Text → Text → Type 0
TextIs none s = Unit
TextIs (some t) s = t ≡ s

abbrev pub FloatIs : Option ℕ → ℕ → Type 0
FloatIs none x = Unit
FloatIs (some y) x = float_eq y x ≡ true

abbrev pub BooleanIs : Option Bool → Bool → Type 0
BooleanIs none b = Unit
BooleanIs (some c) b = c ≡ b

-- A field of a dict that may be absent if it is optional.
abbrev pub FieldHas : (Datum → Type 0) → Option Value → Bool → Type 0
FieldHas P none optional = optional ≡ true
FieldHas P (some v) optional = P (Datum.datum v)

module _ (h : Heap) where
  -- A list has less than `2 ^ 53` items, so that its length is a number of JavaScript.
  unfoldable mutual
    pub Has : StaticType → Datum → Type 0
    Has (StaticType.string l) d = (s : Text) × (d ≡ Datum.datum (Value.string s)) × TextIs l s
    Has (StaticType.number l) d = (x : ℕ) × (number_of d ≡ some x) × FloatIs l x
    Has (StaticType.boolean l) d = (b : Bool) × (d ≡ truth b) × BooleanIs l b
    Has (StaticType.null l) d = d ≡ Datum.datum Value.null
    Has StaticType.undefined d = d ≡ Datum.undefined
    Has (StaticType.array ts) d =
        (a : ℕ) × (xs : List Value) × (d ≡ Datum.datum (Value.ref a))
        × (h a ≡ Object.list xs)
        × (length xs < 2 ^ 53)
        × All (λ v. HasSome ts (Datum.datum v)) xs
    Has (StaticType.tuple es) d =
        (a : ℕ) × (xs : List Value) × (d ≡ Datum.datum (Value.ref a))
        × (h a ≡ Object.list xs)
        × (length xs < 2 ^ 53)
        × HasEach es xs
    Has (StaticType.object fs) d =
        (a : ℕ) × (es : List (Value × Value)) × (d ≡ Datum.datum (Value.ref a))
        × (h a ≡ Object.dict es)
        × HasFields fs es

    pub HasSome : Types → Datum → Type 0
    HasSome Types.no_types d = ⊥
    HasSome (Types.types t ts) d = Has t d ⊎ HasSome ts d

    pub HasEach : Elements → List Value → Type 0
    HasEach Elements.no_elements [] = Unit
    HasEach (Elements.element ts es) (v ∷ vs) = HasSome ts (Datum.datum v) × HasEach es vs
    HasEach _ _ = ⊥

    pub HasFields : Declared → List (Value × Value) → Type 0
    HasFields Declared.no_fields es = Unit
    HasFields (Declared.field name ts optional fs) es =
        FieldHas (HasSome ts) (get name es) optional × HasFields fs es

  pub HasSome-left : (ts us : Types) (d : Datum) → HasSome ts d → HasSome (ts +++ us) d
  unfolding HasSome
  HasSome-left Types.no_types us d p = absurd p
  HasSome-left (Types.types t ts) us d (inl p) = inl p
  HasSome-left (Types.types t ts) us d (inr p) = inr (HasSome-left ts us d p)

  pub HasSome-right : (ts us : Types) (d : Datum) → HasSome us d → HasSome (ts +++ us) d
  unfolding HasSome
  HasSome-right Types.no_types us d p = p
  HasSome-right (Types.types t ts) us d p = inr (HasSome-right ts us d p)

  pub HasSome-one : (t : StaticType) (d : Datum) → Has t d → HasSome (one_type t) d
  unfolding HasSome
  HasSome-one t d p = inl p

pub float_eq_sym : (x y : ℕ) → float_eq x y ≡ true → float_eq y x ≡ true
unfolding float_eq is_zero
float_eq_sym x y e = ground arith

pub float_eq_trans : (x y z : ℕ) → float_eq x y ≡ true → float_eq y z ≡ true → float_eq x z ≡ true
unfolding float_eq is_zero
float_eq_trans x y z e f = ground arith
