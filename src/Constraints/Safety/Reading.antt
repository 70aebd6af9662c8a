-- ===== src/Constraints/Safety/Reading.antt =====
-- The properties and the indexes that constraints.py reads of typed values.
use semant_script.Prelude.{
  ℕ, ◌<◌, ◌≤◌, ◌^◌, ◌≡◌, refl, sym, subst, inl, inr, Bool, true, false, List, Option, none, some,
  arith, Bool-cases, Option-cases, length,
}
use semant_script.Python.Text.{Text, codes, text_eq, text_eq→eq}
use semant_script.Python.Values.{Value, Heap, get}
use semant_script.CanonicalInput.Errors.{ok, bind-eq-ok}
use semant_script.Constraints.Scan.{utf16_length, maximum_string_units}
use semant_script.Constraints.Eval.{Datum, ◌>>=◌, pure, from_scan, count, or_undefined}
use semant_script.Constraints.Reading.{read_property}
use semant_script.Constraints.Types.{
  StaticType, Types, one_type, Declared, consume, lift, ◌>>◌, merge_types,
}
use semant_script.Constraints.Types.Infer.{
  find_field, field_values, length_only, property_of_type, property_result_types, for_each_type,
}
use semant_script.Constraints.Types.Has.{
  FieldHas, Has, HasSome, HasFields, HasSome-left, HasSome-right, HasSome-one,
}
use semant_script.Constraints.Types.Merge.{ok_value, merge_types-HasSome}
use semant_script.Constraints.Safety.{
  Safe, Safe-pure, Safe-bind, Safe-from_scan, Safe-map, utf16_length-le,
}
use semant_script.Constraints.Safety.Kinds.{number_of-count, HasSome-number, charged-HasSome}

some_value : {A : Type 0} {a b : A} → some a ≡ some b → a ≡ b
some_value e = cc

module _ (h : Heap) where
  pub count-HasSome : (n : ℕ) → n < 2 ^ 53 → HasSome h (one_type (StaticType.number none)) (count n)
  count-HasSome n lt = let (x, e) = number_of-count n lt in HasSome-number h (count n) x e

  pub undefined-HasSome : HasSome h (one_type StaticType.undefined) Datum.undefined
  unfolding Has
  undefined-HasSome = HasSome-one h StaticType.undefined Datum.undefined refl

  pub length-Safe :
      (s : Text)
      → Safe
          (HasSome h (one_type (StaticType.number none)))
          (from_scan (utf16_length s) >>= λ n. pure (count n))
  length-Safe s =
      Safe-bind {P = λ n. n ≤ maximum_string_units} (from_scan (utf16_length s))
        (λ n. pure (count n)) (Safe-from_scan (utf16_length s) (utf16_length-le s))
        λ n le. Safe-pure (count n) (count-HasSome n (omega (arith, le)))

  find_field-FieldHas :
      (name : Text) (fs : Declared) (es : List (Value × Value)) (ts : Types) (o : Bool)
      → find_field name fs ≡ some (ts, o)
      → HasFields h fs es
      → FieldHas (HasSome h ts) (get name es) o
  unfolding find_field Has
  find_field-FieldHas name Declared.no_fields es ts o e p = cc
  find_field-FieldHas name (Declared.field n us q fs) es ts o e (p, ps) =
      elim (Bool-cases (text_eq name n)) [
        | inl same ↦
            subst (λ (r : Types × Bool). FieldHas (HasSome h r.0) (get name es) r.1)
              (some_value (rw same at e))
              (subst (λ k. FieldHas (HasSome h us) (get k es) q) (sym (text_eq→eq name n same)) p)
        | inr other ↦ find_field-FieldHas name fs es ts o (rw other at e) ps
      ]

  field_values-HasSome :
      (ts us : Types) (o : Bool) (v : Option Value)
      → field_values (some (ts, o)) ≡ ok us
      → FieldHas (HasSome h ts) v o
      → HasSome h us (or_undefined v)
  field_values-HasSome ts us false none e p = absurd (cc p)
  field_values-HasSome ts us true none e p =
      subst (λ ts. HasSome h ts Datum.undefined) (ok_value e)
        (HasSome-right h ts (one_type StaticType.undefined) Datum.undefined undefined-HasSome)
  field_values-HasSome ts us false (some v) e p =
      subst (λ ts. HasSome h ts (Datum.datum v)) (ok_value e) p
  field_values-HasSome ts us true (some v) e p =
      subst (λ ts. HasSome h ts (Datum.datum v)) (ok_value e)
        (HasSome-left h ts (one_type StaticType.undefined) (Datum.datum v) p)

  pub find_field-HasSome :
      (name : Text) (fs : Declared) (us : Types) (es : List (Value × Value))
      → field_values (find_field name fs) ≡ ok us
      → HasFields h fs es
      → HasSome h us (or_undefined (get name es))
  find_field-HasSome name fs us es e has = elim (Option-cases (find_field name fs)) [
    | inl missing ↦ absurd (cc (rw missing at e))
    | inr ((ts, o), found) ↦
        field_values-HasSome ts us o (get name es) (rw found at e)
          (find_field-FieldHas name fs es ts o found has)
  ]

  length_only-ok :
      (name : Text) (us : Types)
      → length_only name ≡ ok us
      → (text_eq (codes "length") name ≡ true) × (us ≡ one_type (StaticType.number none))
  length_only-ok name us e = elim (Bool-cases (text_eq (codes "length") name)) [
    | inl long ↦ (long, sym (ok_value (rw long at e)))
    | inr short ↦ absurd (cc (rw short at e))
  ]

  property_of_type-Safe :
      (name : Text) (t : StaticType) (us : Types) (d : Datum)
      → property_of_type name t ≡ ok us
      → Has h t d
      → Safe (HasSome h us) (read_property h name d)
  unfolding property_of_type Has read_property
  property_of_type-Safe name (StaticType.string l) us d e (s, p, q) =
      let (long, same) = length_only-ok name us e in rw (p, same, long) (length-Safe s)
  property_of_type-Safe name (StaticType.array ts) us d e (a, xs, p, at_a, lt, all) =
      let (long, same) = length_only-ok name us e in
      rw (p, read_property, at_a, same, long)
        (Safe-pure (count (length xs)) (count-HasSome (length xs) lt))
  property_of_type-Safe name (StaticType.tuple es) us d e (a, xs, p, at_a, lt, all) =
      let (long, same) = length_only-ok name us e in
      rw (p, read_property, at_a, same, long)
        (Safe-pure (count (length xs)) (count-HasSome (length xs) lt))
  property_of_type-Safe name (StaticType.object fs) us d e (a, es, p, at_a, has) =
      rw (p, read_property, at_a)
        (Safe-pure (or_undefined (get name es)) (find_field-HasSome name fs us es e has))
  property_of_type-Safe name _ us d e p = cc

  -- A property of a value that has the object's types has the result's.
  pub property_result_types-Safe :
      (name : Text) (ts us : Types) (b b' : ℕ) (d : Datum)
      → property_result_types ts name b ≡ ok (us, b')
      → HasSome h ts d
      → Safe (HasSome h us) (read_property h name d)
  unfolding property_result_types
  property_result_types-Safe name ts us b b' d e p =
      let (r, all, merged) =
        bind-eq-ok (for_each_type (λ t. consume >> lift (property_of_type name t)) ts b)
          (λ r. merge_types r.0 r.1) e in
      let (t, vs, has, one, sort, k) =
        charged-HasSome h (property_of_type name) ts r.0 b r.1 d all p in
      Safe-map (read_property h name d) (property_of_type-Safe name t vs d one has)
        λ v q. merge_types-HasSome h r.0 us r.1 b' v merged (k v q)
