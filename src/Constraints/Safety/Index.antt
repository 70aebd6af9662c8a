-- ===== src/Constraints/Safety/Index.antt =====
-- An index of constraints.py into a value that has the object's types.
use semant_script.Prelude.{
  ℕ, ◌≡◌, refl, ◌∙◌, subst, inl, inr, true, false, List, [], ◌∷◌, Option, none, some, Bool-cases,
}
use semant_script.Python.Text.{Text}
use semant_script.Python.Values.{Value, Heap, get}
use semant_script.CanonicalInput.Errors.{ok, bind, bind-eq-ok}
use semant_script.Constraints.Numbers.{array_index, float_index}
use semant_script.Constraints.Scan.{utf16_length, utf16_unit_at}
use semant_script.Constraints.Eval.{Datum, ◌>>=◌, pure, from_scan, count, or_undefined}
use semant_script.Constraints.Reading.{
  read_index, read_unit, reads_length, index_of, property_key, unit_or_undefined,
}
use semant_script.Constraints.Types.{
  StaticType, Types, one_type, ◌+++◌, Declared, consume, lift, ◌>>◌, merge_types,
}
use semant_script.Constraints.Types.Infer.{
  find_field, field_values, for_each_type, is_index_type, kinds_are, literal_of, is_length,
  items_or_undefined, static_property_key, index_of_type, index_result_types,
}
use semant_script.Constraints.Types.Has.{Has, HasSome, HasFields}
use semant_script.Constraints.Types.Merge.{ok_value, merge_types-HasSome}
use semant_script.Constraints.Safety.{
  Safe, Safe-pure, Safe-bind, Safe-pure-bind, Safe-from_scan, Safe-map,
}
use semant_script.Constraints.Safety.Kinds.{
  number_type-Has, charged-HasSome, for_each_type-HasSome, kinds_are-all, required,
}
use semant_script.Constraints.Safety.Literals.{
  ReadAs, literal_of-ReadAs, number_of-index, number_of-length,
}
use semant_script.Constraints.Safety.Reading.{length-Safe, find_field-HasSome}
use semant_script.Constraints.Safety.Indexing.{
  when_index-ok, items-number, or_undefined-HasSome, array-Safe, tuple-Safe,
}

module _ (h : Heap) where
  text_types : Types
  text_types = one_type (StaticType.string none) +++ one_type StaticType.undefined

  unit-HasSome : (o : Option ℕ) → HasSome h text_types (unit_or_undefined o)
  unfolding text_types Has
  unit-HasSome none = or_undefined-HasSome h (one_type (StaticType.string none))
  unit-HasSome (some unit) = inl (unit ∷ [], refl, tt)

  text-unit :
      (s : Text) (us : Types) (i : Datum) (r : Option ℕ)
      → reads_length i ≡ false
      → index_of i ≡ ok r
      → text_types ≡ us
      → Safe (HasSome h us) (read_unit s i)
  unfolding read_unit text_types
  text-unit s us i none short at same =
      rw (short, at, ← same)
        (Safe-pure Datum.undefined (or_undefined-HasSome h (one_type (StaticType.string none))))
  text-unit s us i (some n) short at same =
      rw (short, at, ← same)
        (Safe-bind {P = λ o. Unit {0}} (from_scan (utf16_unit_at s n))
          (λ o. pure (unit_or_undefined o)) (Safe-from_scan (utf16_unit_at s n) (λ b o e. tt))
          λ o p. Safe-pure (unit_or_undefined o) (unit-HasSome o))

  text-length :
      (s : Text) (us : Types) (i : Datum)
      → ok (one_type (StaticType.number none)) ≡ ok us
      → reads_length i ≡ true
      → Safe (HasSome h us) (read_unit s i)
  unfolding read_unit
  text-length s us i e long = rw long (
      subst (λ us. Safe (HasSome h us) (from_scan (utf16_length s) >>= λ n. pure (count n)))
        (ok_value e) (length-Safe h s))

  module _ (repr : ℕ → Text) where
    text-Safe :
        (us : Types) (t : StaticType) (s : Text) (i : Datum)
        → items_or_undefined (one_type (StaticType.string none)) t (literal_of t) ≡ ok us
        → is_index_type t ≡ true
        → Has h t i
        → Safe (HasSome h us) (read_unit s i)
    unfolding text_types
    text-Safe us (StaticType.string none) s i e is has = cc
    text-Safe us (StaticType.string (some l)) s i e is has =
        let reads =
          literal_of-ReadAs repr h (StaticType.string (some l)) (Value.string l) i refl refl has in
        elim (Bool-cases (is_length (some (Value.string l)))) [
          | inl long ↦ text-length s us i (rw long at e) (reads.length_same ∙ long)
          | inr short ↦
              let (n, at, same) =
                when_index-ok (array_index (Value.string l)) (λ n. text_types) us (rw short at e) in
              text-unit s us i (some n) (reads.length_same ∙ short) (reads.index_same ∙ at) same
        ]
    text-Safe us (StaticType.number l) s i e is has =
        let (x, number) = number_type-Has h (StaticType.number l) i refl has in
        text-unit s us i (float_index (some x)) (number_of-length i x number)
          (number_of-index i x number) (items-number (one_type (StaticType.string none)) us l e)
    text-Safe us _ s i e is has = cc

    object-literal :
        (fs : Declared) (us : Types) (v : Value) (es : List (Value × Value)) (i : Datum)
        → bind (static_property_key repr v) (λ key. field_values (find_field key fs)) ≡ ok us
        → HasFields h fs es
        → ReadAs repr v i
        → Safe (HasSome h us) (property_key repr i >>= λ key. pure (or_undefined (get key es)))
    object-literal fs us v es i e has reads =
        let found = rw reads.key_static at e in
        rw reads.key_same (
          Safe-pure-bind reads.key (λ key. pure (or_undefined (get key es)))
            (Safe-pure (or_undefined (get reads.key es))
              (find_field-HasSome h reads.key fs us es found has)))

    object-Safe :
        (fs : Declared) (us : Types) (t : StaticType) (es : List (Value × Value)) (i : Datum)
        → index_of_type repr (StaticType.object fs) t ≡ ok us
        → is_index_type t ≡ true
        → HasFields h fs es
        → Has h t i
        → Safe (HasSome h us) (property_key repr i >>= λ key. pure (or_undefined (get key es)))
    unfolding index_of_type
    object-Safe fs us (StaticType.string none) es i e is has p = cc
    object-Safe fs us (StaticType.string (some l)) es i e is has p =
        object-literal fs us (Value.string l) es i e has
          (literal_of-ReadAs repr h (StaticType.string (some l)) (Value.string l) i refl refl p)
    object-Safe fs us (StaticType.number none) es i e is has p = cc
    object-Safe fs us (StaticType.number (some y)) es i e is has p =
        object-literal fs us (Value.float y) es i e has
          (literal_of-ReadAs repr h (StaticType.number (some y)) (Value.float y) i refl refl p)
    object-Safe fs us _ es i e is has p = cc

    -- one of the object's types and one of the index's
    index_of_type-Safe :
        (t i : StaticType) (us : Types) (d e : Datum)
        → index_of_type repr t i ≡ ok us
        → is_index_type i ≡ true
        → Has h t d
        → Has h i e
        → Safe (HasSome h us) (read_index h repr d e)
    unfolding index_of_type Has read_index
    index_of_type-Safe (StaticType.string l) i us d e q is (s, p, m) has =
        rw p (text-Safe us i s e q is has)
    index_of_type-Safe (StaticType.array ts) i us d e q is (a, xs, p, at_a, lt, all) has =
        rw (p, read_index, at_a) (array-Safe h repr ts us i xs e q is lt all has)
    index_of_type-Safe (StaticType.tuple es) i us d e q is (a, xs, p, at_a, lt, each) has =
        rw (p, read_index, at_a) (tuple-Safe h repr es us i xs e q is lt each has)
    index_of_type-Safe (StaticType.object fs) i us d e q is (a, es, p, at_a, fields) has =
        rw (p, read_index, at_a) (object-Safe fs us i es e q is fields has)
    index_of_type-Safe _ i us d e q is p has = cc

    -- An index with the index types into a value that has the object's types has the result's.
    pub index_result_types-Safe :
        (ts is us : Types) (b b' : ℕ) (d e : Datum)
        → index_result_types repr ts is b ≡ ok (us, b')
        → HasSome h ts d
        → HasSome h is e
        → Safe (HasSome h us) (read_index h repr d e)
    unfolding index_result_types
    index_result_types-Safe ts is us b b' d e q p has =
        let (kinds, rest) =
          required (kinds_are is_index_type is)
            (λ b.
              bind
                (for_each_type
                  (λ t. for_each_type (λ i. consume >> lift (index_of_type repr t i)) is) ts b)
                λ r. merge_types r.0 r.1)
            b q in
        let (r, all, merged) =
          bind-eq-ok
            (for_each_type (λ t. for_each_type (λ i. consume >> lift (index_of_type repr t i)) is)
              ts b)
            (λ r. merge_types r.0 r.1) rest in
        let (t, vs, c, c', has_t, run, sort_t, k) =
          for_each_type-HasSome h
            (λ t. for_each_type (λ i. consume >> lift (index_of_type repr t i)) is) ts r.0 b r.1 d
            all p in
        let (i, ws, has_i, one, sort, l) =
          charged-HasSome h (index_of_type repr t) is vs c c' e run has in
        Safe-map (read_index h repr d e)
          (index_of_type-Safe t i ws d e one
            (sort is_index_type (kinds_are-all h is_index_type is kinds)) has_t has_i)
          λ v x. merge_types-HasSome h r.0 us r.1 b' v merged (k v (l v x))
