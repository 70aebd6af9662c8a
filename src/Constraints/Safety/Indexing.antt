-- ===== src/Constraints/Safety/Indexing.antt =====
-- The indexes that constraints.py reads of typed values.
use semant_script.Prelude.{
  ℕ, zero, suc, ◌<◌, ◌^◌, ◌≡◌, refl, ◌∙◌, subst, inl, inr, true, false, List, [], ◌∷◌, Option, none,
  some, Bool-cases, length, All, get_elem?,
}
use semant_script.Python.Text.{Text}
use semant_script.Python.Values.{Value, Heap, is_text}
use semant_script.CanonicalInput.Errors.{Result, ok, fail}
use semant_script.Constraints.Numbers.{array_index, float_index}
use semant_script.Constraints.Eval.{Datum, pure, count, or_undefined}
use semant_script.Constraints.Reading.{read_item, reads_length, index_of}
use semant_script.Constraints.Types.{StaticType, Types, one_type, ◌+++◌, Elements}
use semant_script.Constraints.Types.Infer.{
  is_index_type, literal_of, is_length, when_index, items_or_undefined, element_or_undefined,
  nth_element, every_element,
}
use semant_script.Constraints.Types.Has.{Has, HasSome, HasEach, HasSome-left, HasSome-right}
use semant_script.Constraints.Types.Merge.{ok_value}
use semant_script.Constraints.Safety.{Safe, Safe-pure}
use semant_script.Constraints.Safety.Kinds.{number_type-Has}
use semant_script.Constraints.Safety.Literals.{
  ReadAs, literal_of-ReadAs, number_of-index, number_of-length,
}
use semant_script.Constraints.Safety.Reading.{count-HasSome, undefined-HasSome}

-- what an index reads of a list
item : List Value → Option ℕ → Datum
item xs none = Datum.undefined
item xs (some n) = or_undefined (get_elem? xs n)

read_item-length :
    (xs : List Value) (i : Datum)
    → reads_length i ≡ true
    → read_item xs i ≡ pure (count (length xs))
unfolding read_item
read_item-length xs i e = rw e refl

read_item-index :
    (xs : List Value) (i : Datum) (r : Option ℕ)
    → reads_length i ≡ false
    → index_of i ≡ ok r
    → read_item xs i ≡ pure (item xs r)
unfolding read_item item
read_item-index xs i none e f = rw (e, f) refl
read_item-index xs i (some n) e f = rw (e, f) refl

pub when_index-ok :
    (r : Result (Option ℕ)) (k : ℕ → Types) (us : Types)
    → when_index r k ≡ ok us
    → (n : ℕ) × (r ≡ ok (some n)) × (k n ≡ us)
when_index-ok (fail x) k us e = cc
when_index-ok (ok none) k us e = cc
when_index-ok (ok (some n)) k us e = (n, refl, ok_value e)

pub items-number :
    (ts us : Types) (l : Option ℕ)
    → items_or_undefined ts (StaticType.number l) (literal_of (StaticType.number l)) ≡ ok us
    → (ts +++ one_type StaticType.undefined) ≡ us
unfolding is_text
items-number ts us none e = ok_value e
items-number ts us (some y) e = ok_value e

module _ (h : Heap) where
  nth-HasSome :
      (es : Elements) (xs : List Value) (n : ℕ)
      → HasEach h es xs
      → HasSome h (nth_element es n) (or_undefined (get_elem? xs n))
  unfolding HasEach
  nth-HasSome Elements.no_elements [] n p = undefined-HasSome h
  nth-HasSome Elements.no_elements (x ∷ xs) n p = absurd p
  nth-HasSome (Elements.element ts es) [] n p = absurd p
  nth-HasSome (Elements.element ts es) (x ∷ xs) zero p = p.0
  nth-HasSome (Elements.element ts es) (x ∷ xs) (suc n) p = nth-HasSome es xs n p.1

  undefined_element : (es : Elements) → HasSome h (every_element es) Datum.undefined
  undefined_element Elements.no_elements = undefined-HasSome h
  undefined_element (Elements.element ts es) =
      HasSome-right h ts (every_element es) Datum.undefined (undefined_element es)

  every-HasSome :
      (es : Elements) (xs : List Value) (r : Option ℕ)
      → HasEach h es xs
      → HasSome h (every_element es) (item xs r)
  unfolding HasEach item
  every-HasSome es xs none p = undefined_element es
  every-HasSome Elements.no_elements [] (some n) p = undefined-HasSome h
  every-HasSome Elements.no_elements (x ∷ xs) (some n) p = absurd p
  every-HasSome (Elements.element ts es) [] (some n) p = absurd p
  every-HasSome (Elements.element ts es) (x ∷ xs) (some zero) p =
      HasSome-left h ts (every_element es) (Datum.datum x) p.0
  every-HasSome (Elements.element ts es) (x ∷ xs) (some (suc n)) p =
      HasSome-right h ts (every_element es) (item xs (some n)) (every-HasSome es xs (some n) p.1)

  pub or_undefined-HasSome :
      (ts : Types) → HasSome h (ts +++ one_type StaticType.undefined) Datum.undefined
  or_undefined-HasSome ts =
      HasSome-right h ts (one_type StaticType.undefined) Datum.undefined (undefined-HasSome h)

  item-HasSome :
      (ts : Types) (xs : List Value) (r : Option ℕ)
      → All (λ v. HasSome h ts (Datum.datum v)) xs
      → HasSome h (ts +++ one_type StaticType.undefined) (item xs r)
  unfolding item
  item-HasSome ts xs none p = or_undefined-HasSome ts
  item-HasSome ts [] (some n) p = or_undefined-HasSome ts
  item-HasSome ts (x ∷ xs) (some zero) p =
      HasSome-left h ts (one_type StaticType.undefined) (Datum.datum x) p.0
  item-HasSome ts (x ∷ xs) (some (suc n)) p = item-HasSome ts xs (some n) p.1

  nth-item :
      (es : Elements) (xs : List Value) (n : ℕ)
      → HasEach h es xs
      → HasSome h (nth_element es n) (item xs (some n))
  unfolding item
  nth-item es xs n p = nth-HasSome es xs n p

  module _ (repr : ℕ → Text) where
    -- the reads of a list, given what the types of the results are
    list-length :
        (xs : List Value) (us : Types) (i : Datum)
        → ok (one_type (StaticType.number none)) ≡ ok us
        → length xs < 2 ^ 53
        → reads_length i ≡ true
        → Safe (HasSome h us) (read_item xs i)
    list-length xs us i e lt long = rw (read_item-length xs i long) (
        Safe-pure (count (length xs)) (
          subst (λ us. HasSome h us (count (length xs))) (ok_value e)
            (count-HasSome h (length xs) lt)))

    list-item :
        (xs : List Value) (us : Types) (i : Datum) (r : Option ℕ)
        → reads_length i ≡ false
        → index_of i ≡ ok r
        → HasSome h us (item xs r)
        → Safe (HasSome h us) (read_item xs i)
    list-item xs us i r short at has =
        rw (read_item-index xs i r short at) (Safe-pure (item xs r) has)

    pub array-Safe :
        (ts us : Types) (t : StaticType) (xs : List Value) (i : Datum)
        → items_or_undefined ts t (literal_of t) ≡ ok us
        → is_index_type t ≡ true
        → length xs < 2 ^ 53
        → All (λ v. HasSome h ts (Datum.datum v)) xs
        → Has h t i
        → Safe (HasSome h us) (read_item xs i)
    array-Safe ts us (StaticType.string none) xs i e is lt all has = cc
    array-Safe ts us (StaticType.string (some s)) xs i e is lt all has =
        let reads =
          literal_of-ReadAs repr h (StaticType.string (some s)) (Value.string s) i refl refl has in
        elim (Bool-cases (is_length (some (Value.string s)))) [
          | inl long ↦ list-length xs us i (rw long at e) lt (reads.length_same ∙ long)
          | inr short ↦
              let (n, at, same) =
                when_index-ok (array_index (Value.string s))
                  (λ n. ts +++ one_type StaticType.undefined) us (rw short at e) in
              list-item xs us i (some n) (reads.length_same ∙ short) (reads.index_same ∙ at) (
                subst (λ us. HasSome h us (item xs (some n))) same
                  (item-HasSome ts xs (some n) all))
        ]
    array-Safe ts us (StaticType.number l) xs i e is lt all has =
        let (x, number) = number_type-Has h (StaticType.number l) i refl has in
        list-item xs us i (float_index (some x)) (number_of-length i x number)
          (number_of-index i x number)
          (subst (λ us. HasSome h us (item xs (float_index (some x)))) (items-number ts us l e)
            (item-HasSome ts xs (float_index (some x)) all))
    array-Safe ts us _ xs i e is lt all has = cc

    tuple-literal :
        (es : Elements) (us : Types) (t : StaticType) (v : Value) (xs : List Value) (i : Datum)
        → element_or_undefined es t (some v) ≡ ok us
        → length xs < 2 ^ 53
        → HasEach h es xs
        → ReadAs repr v i
        → Safe (HasSome h us) (read_item xs i)
    tuple-literal es us t v xs i e lt each reads = elim (Bool-cases (is_length (some v))) [
      | inl long ↦ list-length xs us i (rw long at e) lt (reads.length_same ∙ long)
      | inr short ↦
          let (n, at, same) = when_index-ok (array_index v) (nth_element es) us (rw short at e) in
          list-item xs us i (some n) (reads.length_same ∙ short) (reads.index_same ∙ at)
            (subst (λ us. HasSome h us (item xs (some n))) same (nth-item es xs n each))
    ]

    pub tuple-Safe :
        (es : Elements) (us : Types) (t : StaticType) (xs : List Value) (i : Datum)
        → element_or_undefined es t (literal_of t) ≡ ok us
        → is_index_type t ≡ true
        → length xs < 2 ^ 53
        → HasEach h es xs
        → Has h t i
        → Safe (HasSome h us) (read_item xs i)
    tuple-Safe es us (StaticType.string none) xs i e is lt each has = cc
    tuple-Safe es us (StaticType.string (some s)) xs i e is lt each has =
        tuple-literal es us (StaticType.string (some s)) (Value.string s) xs i e lt each
          (literal_of-ReadAs repr h (StaticType.string (some s)) (Value.string s) i refl refl has)
    tuple-Safe es us (StaticType.number none) xs i e is lt each has =
        let (x, number) = number_type-Has h (StaticType.number none) i refl has in
        list-item xs us i (float_index (some x)) (number_of-length i x number)
          (number_of-index i x number)
          (subst (λ us. HasSome h us (item xs (float_index (some x)))) (ok_value e)
            (every-HasSome es xs (float_index (some x)) each))
    tuple-Safe es us (StaticType.number (some y)) xs i e is lt each has =
        tuple-literal es us (StaticType.number (some y)) (Value.float y) xs i e lt each
          (literal_of-ReadAs repr h (StaticType.number (some y)) (Value.float y) i refl refl has)
    tuple-Safe es us _ xs i e is lt each has = cc
