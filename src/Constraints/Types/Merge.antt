-- ===== src/Constraints/Types/Merge.antt =====
-- What `==` of static types and `_merge_types` of constraints.py keep of the values.
use semant_script.Prelude.{
  ℕ, zero, suc, ◌≡◌, sym, ap, subst, ◌⊎◌, inl, inr, Bool, true, ◌&&◌, List, [], ◌∷◌, Option, none,
  some, All, arith, Bool-cases,
}
use semant_script.Python.Text.{Text, text_eq, text_eq→eq}
use semant_script.Python.Values.{Value, Heap, get}
use semant_script.CanonicalInput.Errors.{ok, bind-eq-ok}
use semant_script.Constraints.Numbers.{float_eq}
use semant_script.Constraints.Eval.{Datum}
use semant_script.Constraints.Types.{
  StaticType, Types, ◌+++◌, one_type, Elements, Declared, type_eq, types_eq, elements_eq,
  declared_eq, type_mem, eq_option, eq_boolean, merge_onto, merge_types, add_variant, some_type,
  Infer,
}
use semant_script.Constraints.Types.Has.{
  TextIs, FloatIs, BooleanIs, FieldHas, Has, HasSome, HasEach, HasFields, HasSome-left,
  HasSome-right, HasSome-one, float_eq_trans, float_eq_sym,
}

and_left : (a b : Bool) → (a && b) ≡ true → a ≡ true
and_left a b e = ground arith

and_right : (a b : Bool) → (a && b) ≡ true → b ≡ true
and_right a b e = ground arith

four :
    (a b c d : Bool) → (a && b && c && d) ≡ true → (a ≡ true) × (b ≡ true) × (c ≡ true) × (d ≡ true)
four a b c d e = ground arith

TextIs-eq : (l m : Option Text) (s : Text) → eq_option text_eq l m ≡ true → TextIs l s → TextIs m s
TextIs-eq none none s e p = tt
TextIs-eq (some t) (some u) s e p = rw (sym (text_eq→eq t u e)) p
TextIs-eq none (some u) s e p = cc
TextIs-eq (some t) none s e p = tt

FloatIs-eq : (l m : Option ℕ) (x : ℕ) → eq_option float_eq l m ≡ true → FloatIs l x → FloatIs m x
FloatIs-eq none none x e p = tt
FloatIs-eq (some y) (some z) x e p = float_eq_trans z y x (float_eq_sym y z e) p
FloatIs-eq none (some u) x e p = cc
FloatIs-eq (some t) none x e p = tt

BooleanIs-eq :
    (l m : Option Bool) (b : Bool) → eq_option eq_boolean l m ≡ true → BooleanIs l b → BooleanIs m b
BooleanIs-eq none none b e p = tt
BooleanIs-eq (some t) (some u) b e p = ground arith
BooleanIs-eq none (some u) b e p = cc
BooleanIs-eq (some t) none b e p = tt

pub ok_value : {A : Type 0} {r s : A} → ok r ≡ ok s → r ≡ s
ok_value e = cc

pub ok_first : {A : Type 0} {r s : A × ℕ} → ok r ≡ ok s → r.0 ≡ s.0
ok_first e = ap (λ t. t.0) (ok_value e)

module _ (h : Heap) where
  All-HasSome :
      (P Q : Value → Type 0) (xs : List Value) → ((v : Value) → P v → Q v) → All P xs → All Q xs
  All-HasSome P Q [] k p = tt
  All-HasSome P Q (x ∷ xs) k (p, ps) = (k x p, All-HasSome P Q xs k ps)

  FieldHas-map :
      (P Q : Datum → Type 0) (o : Option Value) (b c : Bool)
      → ((d : Datum) → P d → Q d)
      → eq_boolean b c ≡ true
      → FieldHas P o b
      → FieldHas Q o c
  FieldHas-map P Q none b c k e p = ground arith
  FieldHas-map P Q (some v) b c k e p = k (Datum.datum v) p

  mutual
    unfolding type_eq Has

    pub type_eq-Has : (t u : StaticType) (d : Datum) → type_eq t u ≡ true → Has h t d → Has h u d
    type_eq-Has (StaticType.string l) (StaticType.string m) d e (s, p, q) =
        (s, p, TextIs-eq l m s e q)
    type_eq-Has (StaticType.number l) (StaticType.number m) d e (x, p, q) =
        (x, p, FloatIs-eq l m x e q)
    type_eq-Has (StaticType.boolean l) (StaticType.boolean m) d e (b, p, q) =
        (b, p, BooleanIs-eq l m b e q)
    type_eq-Has (StaticType.null l) (StaticType.null m) d e p = p
    type_eq-Has StaticType.undefined StaticType.undefined d e p = p
    type_eq-Has (StaticType.array ts) (StaticType.array us) d e (a, xs, p, q, r, all) = (
      a,
      xs,
      p,
      q,
      r,
      All-HasSome (λ v. HasSome h ts (Datum.datum v)) (λ v. HasSome h us (Datum.datum v)) xs
          (λ v. types_eq-HasSome ts us (Datum.datum v) e) all,
    )
    type_eq-Has (StaticType.tuple es) (StaticType.tuple fs) d e (a, xs, p, q, r, each) =
        (a, xs, p, q, r, elements_eq-HasEach es fs xs e each)
    type_eq-Has (StaticType.object fs) (StaticType.object gs) d e (a, es, p, q, has) =
        (a, es, p, q, declared_eq-HasFields fs gs es e has)
    type_eq-Has _ _ d e p = cc

    pub types_eq-HasSome :
        (ts us : Types) (d : Datum) → types_eq ts us ≡ true → HasSome h ts d → HasSome h us d
    types_eq-HasSome (Types.types t ts) (Types.types u us) d e (inl p) =
        inl (type_eq-Has t u d (and_left (type_eq t u) (types_eq ts us) e) p)
    types_eq-HasSome (Types.types t ts) (Types.types u us) d e (inr p) =
        inr (types_eq-HasSome ts us d (and_right (type_eq t u) (types_eq ts us) e) p)
    types_eq-HasSome Types.no_types us d e p = absurd p
    types_eq-HasSome (Types.types t ts) Types.no_types d e p = cc

    elements_eq-HasEach :
        (es fs : Elements) (xs : List Value)
        → elements_eq es fs ≡ true
        → HasEach h es xs
        → HasEach h fs xs
    elements_eq-HasEach Elements.no_elements Elements.no_elements xs e p = p
    elements_eq-HasEach (Elements.element ts es) (Elements.element us fs) [] e p = absurd p
    elements_eq-HasEach (Elements.element ts es) (Elements.element us fs) (x ∷ xs) e (p, ps) = (
      types_eq-HasSome ts us (Datum.datum x) (and_left (types_eq ts us) (elements_eq es fs) e) p,
      elements_eq-HasEach es fs xs (and_right (types_eq ts us) (elements_eq es fs) e) ps,
    )
    elements_eq-HasEach _ _ xs e p = cc

    declared_eq-HasFields :
        (fs gs : Declared) (es : List (Value × Value))
        → declared_eq fs gs ≡ true
        → HasFields h fs es
        → HasFields h gs es
    declared_eq-HasFields Declared.no_fields Declared.no_fields es e p = tt
    declared_eq-HasFields (Declared.field n ts o fs) (Declared.field m us q gs) es e (p, ps) =
        let (names, same, optional, rest) =
          four (text_eq n m) (types_eq ts us) (eq_boolean o q) (declared_eq fs gs) e in
        (
          subst (λ name. FieldHas (HasSome h us) (get name es) q) (text_eq→eq n m names)
              (FieldHas-map (HasSome h ts) (HasSome h us) (get n es) o q
                (λ d. types_eq-HasSome ts us d same) optional p),
          declared_eq-HasFields fs gs es rest ps,
        )
    declared_eq-HasFields _ _ es e p = cc

  type_mem-HasSome :
      (t : StaticType) (us : Types) (d : Datum) → type_mem t us ≡ true → Has h t d → HasSome h us d
  unfolding type_mem HasSome
  type_mem-HasSome t Types.no_types d e p = cc
  type_mem-HasSome t (Types.types u us) d e p = elim (Bool-cases (type_eq t u)) [
    | inl same ↦ inl (type_eq-Has t u d same p)
    | inr other ↦ inr (type_mem-HasSome t us d (rw other at e) p)
  ]

  add_variant-ok :
      (again : Types → Infer Types) (result : Types) (b b' : ℕ) (r : Types)
      → add_variant again result b ≡ ok (r, b')
      → again result b ≡ ok (r, b')
  add_variant-ok again result b b' r e = ground arith

  keep_seen :
      (t : StaticType) (ts result : Types) (d : Datum)
      → type_mem t result ≡ true
      → HasSome h (Types.types t ts) d ⊎ HasSome h result d
      → HasSome h ts d ⊎ HasSome h result d
  unfolding HasSome
  keep_seen t ts result d seen (inl (inl p)) = inr (type_mem-HasSome t result d seen p)
  keep_seen t ts result d seen (inl (inr p)) = inl p
  keep_seen t ts result d seen (inr p) = inr p

  keep_new :
      (t : StaticType) (ts result : Types) (d : Datum)
      → HasSome h (Types.types t ts) d ⊎ HasSome h result d
      → HasSome h ts d ⊎ HasSome h (result +++ one_type t) d
  unfolding HasSome
  keep_new t ts result d (inl (inl p)) =
      inr (HasSome-right h result (one_type t) d (HasSome-one h t d p))
  keep_new t ts result d (inl (inr p)) = inl p
  keep_new t ts result d (inr p) = inr (HasSome-left h result (one_type t) d p)

  merge_onto-HasSome :
      (values result : Types) (b b' : ℕ) (r : Types) (d : Datum)
      → merge_onto values result b ≡ ok (r, b')
      → HasSome h values d ⊎ HasSome h result d
      → HasSome h r d
  unfolding merge_onto HasSome
  merge_onto-HasSome Types.no_types result b b' r d e (inl p) = absurd p
  merge_onto-HasSome Types.no_types result b b' r d e (inr p) =
      subst (λ ts. HasSome h ts d) (ok_first e) p
  merge_onto-HasSome (Types.types t ts) result zero b' r d e p = cc
  merge_onto-HasSome (Types.types t ts) result (suc b) b' r d e p =
      elim (Bool-cases (type_mem t result)) [
        | inl seen ↦
            merge_onto-HasSome ts result b b' r d (rw seen at e) (keep_seen t ts result d seen p)
        | inr new ↦
            merge_onto-HasSome ts (result +++ one_type t) b b' r d
              (add_variant-ok (merge_onto ts) (result +++ one_type t) b b' r (rw new at e))
              (keep_new t ts result d p)
      ]

  some_type-ok : (ts r : Types) (b b' : ℕ) → some_type ts b ≡ ok (r, b') → ts ≡ r
  some_type-ok Types.no_types r b b' e = cc
  some_type-ok (Types.types t ts) r b b' e = ok_first e

  -- A value of one of the types has one of the merged types too.
  pub merge_types-HasSome :
      (values r : Types) (b b' : ℕ) (d : Datum)
      → merge_types values b ≡ ok (r, b')
      → HasSome h values d
      → HasSome h r d
  unfolding merge_types
  merge_types-HasSome values r b b' d e p =
      let (m, merged, kept) =
        bind-eq-ok (merge_onto values Types.no_types b) (λ m. some_type m.0 m.1) e in
      subst (λ ts. HasSome h ts d) (some_type-ok m.0 r m.1 b' kept)
        (merge_onto-HasSome values Types.no_types b m.1 m.0 d merged (inl p))
