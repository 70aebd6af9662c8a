-- ===== src/Constraints/Safety/Kinds.antt =====
-- What the kinds of the types that `_infer_expression_types` requires say of a value.
use semant_script.Prelude.{
  ℕ, zero, suc, ◌<◌, ◌^◌, ◌≡◌, refl, ap, subst, inl, inr, Bool, true, false, none, some, arith,
}
use semant_script.Python.Float.{float_of_int}
use semant_script.Python.Finite.{float_of_nat-finite}
use semant_script.Python.Text.{Text}
use semant_script.Python.Values.{Value, Heap}
use semant_script.CanonicalInput.Errors.{Result, ok, fail, bind, bind-eq-ok}
use semant_script.Constraints.Numbers
use semant_script.Constraints.Expression.{require}
use semant_script.Constraints.Eval.{Datum, count, truth, number_of}
use semant_script.Constraints.Types.{StaticType, Types, one_type, ◌+++◌, Infer, consume, lift, ◌>>◌}
use semant_script.Constraints.Types.Infer.{
  is_number_type, is_string_type, is_boolean_type, all_types, kinds_are, for_each_type,
}
use semant_script.Constraints.Types.Has.{Has, HasSome, HasSome-left, HasSome-right, HasSome-one}
use semant_script.Constraints.Types.Merge.{ok_first}

-- The length of a list or a text is a number.
pub number_of-count : (n : ℕ) → n < 2 ^ 53 → (x : ℕ) × (number_of (count n) ≡ some x)
unfolding number_of Numbers.number float_of_int
number_of-count n lt =
    let (x, e, f) = float_of_nat-finite n lt in (x, rw (Numbers.number, float_of_int, e, f) refl)

-- what is lifted is what was returned
charged :
    (r : Result Types) (vs : Types) (c c' : ℕ) → (consume >> lift r) c ≡ ok (vs, c') → r ≡ ok vs
charged (ok a) vs zero c' e = cc
charged (ok a) vs (suc c) c' e = ap ok (ok_first e)
charged (fail x) vs zero c' e = cc
charged (fail x) vs (suc c) c' e = cc

-- what follows a requirement that is met
pub required :
    {A : Type 0} (c : Bool) (k : Infer A) (b : ℕ) {r : A × ℕ}
    → (lift (require c) >> k) b ≡ ok r
    → (c ≡ true) × (k b ≡ ok r)
required true k b e = (refl, e)
required false k b e = cc

module _ (h : Heap) where
  pub number_type-Has :
      (t : StaticType) (d : Datum)
      → is_number_type t ≡ true
      → Has h t d
      → (x : ℕ) × (number_of d ≡ some x)
  unfolding Has
  number_type-Has (StaticType.number l) d e (x, p, q) = (x, p)
  number_type-Has _ d e p = cc

  pub string_type-Has :
      (t : StaticType) (d : Datum)
      → is_string_type t ≡ true
      → Has h t d
      → (s : Text) × (d ≡ Datum.datum (Value.string s))
  unfolding Has
  string_type-Has (StaticType.string l) d e (x, p, q) = (x, p)
  string_type-Has _ d e p = cc

  pub boolean_type-Has :
      (t : StaticType) (d : Datum)
      → is_boolean_type t ≡ true
      → Has h t d
      → (b : Bool) × (d ≡ truth b)
  unfolding Has
  boolean_type-Has (StaticType.boolean l) d e (x, p, q) = (x, p)
  boolean_type-Has _ d e p = cc

  pub HasSome-number :
      (d : Datum) (x : ℕ) → number_of d ≡ some x → HasSome h (one_type (StaticType.number none)) d
  unfolding Has
  HasSome-number d x e = HasSome-one h (StaticType.number none) d (x, e, tt)

  pub HasSome-boolean : (b : Bool) → HasSome h (one_type (StaticType.boolean none)) (truth b)
  unfolding Has
  HasSome-boolean b = HasSome-one h (StaticType.boolean none) (truth b) (b, refl, tt)

  -- A value of types that are all of a kind has one type, of that kind.
  all_types-HasSome :
      (is : StaticType → Bool) (ts : Types) (d : Datum)
      → all_types is ts ≡ true
      → HasSome h ts d
      → (t : StaticType) × (is t ≡ true) × Has h t d
  unfolding HasSome
  all_types-HasSome is Types.no_types d e p = absurd p
  all_types-HasSome is (Types.types t ts) d e (inl p) = (t, ground (arith, e), p)
  all_types-HasSome is (Types.types t ts) d e (inr p) =
      all_types-HasSome is ts d (ground (arith, e)) p

  pub kinds_are-HasSome :
      (is : StaticType → Bool) (ts : Types) (d : Datum)
      → kinds_are is ts ≡ true
      → HasSome h ts d
      → (t : StaticType) × (is t ≡ true) × Has h t d
  unfolding kinds_are HasSome
  kinds_are-HasSome is Types.no_types d e p = absurd p
  kinds_are-HasSome is (Types.types t ts) d e p = all_types-HasSome is (Types.types t ts) d e p

  pub kinds_are-all :
      (is : StaticType → Bool) (ts : Types) → kinds_are is ts ≡ true → all_types is ts ≡ true
  unfolding kinds_are
  kinds_are-all is Types.no_types e = cc
  kinds_are-all is (Types.types t ts) e = e

  -- A value that one of the object's types describes is met in a round of the loop over them.
  pub for_each_type-HasSome :
      (f : StaticType → Infer Types) (ts us : Types) (b b' : ℕ) (d : Datum)
      → for_each_type f ts b ≡ ok (us, b')
      → HasSome h ts d
      → (t : StaticType) × (vs : Types) × (c : ℕ) × (c' : ℕ) × Has h t d
        × (f t c ≡ ok (vs, c'))
        × ((is : StaticType → Bool) → all_types is ts ≡ true → is t ≡ true)
        × ((e : Datum) → HasSome h vs e → HasSome h us e)
  unfolding for_each_type HasSome
  for_each_type-HasSome f Types.no_types us b b' d e p = absurd p
  for_each_type-HasSome f (Types.types t' ts) us b b' d e p =
      let (r, first, q) =
        bind-eq-ok (f t' b) (λ r. bind (for_each_type f ts r.1) λ s. ok (r.0 +++ s.0, s.1)) e in
      let (s, rest, last) = bind-eq-ok (for_each_type f ts r.1) (λ s. ok (r.0 +++ s.0, s.1)) q in
      let split : HasSome h (Types.types t' ts) d
          → (t : StaticType) × (vs : Types) × (c : ℕ) × (c' : ℕ) × Has h t d
            × (f t c ≡ ok (vs, c'))
            × ((is : StaticType → Bool) → all_types is (Types.types t' ts) ≡ true → is t ≡ true)
            × ((e : Datum) → HasSome h vs e → HasSome h us e) =
        elim [
          | inl p ↦ (
            t',
            r.0,
            b,
            r.1,
            p,
            first,
            λ is all. ground (arith, all),
            λ e x. subst (λ ts. HasSome h ts e) (ok_first last) (HasSome-left h r.0 s.0 e x),
          )
          | inr p ↦
              let (u, vs, c, c', has, run, sort, k) =
                for_each_type-HasSome f ts s.0 r.1 s.1 d rest p in
              (
                u,
                vs,
                c,
                c',
                has,
                run,
                λ is all. sort is (ground (arith, all)),
                λ e x.
                    subst (λ ts. HasSome h ts e) (ok_first last)
                      (HasSome-right h r.0 s.0 e (k e x)),
              )
        ] in
      split p

  pub charged-HasSome :
      (f : StaticType → Result Types) (ts us : Types) (b b' : ℕ) (d : Datum)
      → for_each_type (λ t. consume >> lift (f t)) ts b ≡ ok (us, b')
      → HasSome h ts d
      → (t : StaticType) × (vs : Types) × Has h t d
        × (f t ≡ ok vs)
        × ((is : StaticType → Bool) → all_types is ts ≡ true → is t ≡ true)
        × ((e : Datum) → HasSome h vs e → HasSome h us e)
  charged-HasSome f ts us b b' d e p =
      let (t, vs, c, c', has, run, sort, k) =
        for_each_type-HasSome (λ t. consume >> lift (f t)) ts us b b' d e p in
      (t, vs, has, charged (f t) vs c c' run, sort, k)
