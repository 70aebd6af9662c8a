-- ===== src/Constraints/Types/Fits/Sound.antt =====
-- `_types_from_input_spec` and `_constraint_input_types` of constraints.py: the types that they give a
-- declared type, and the values that it describes.
use semant_script.Prelude.{
  ℕ, zero, suc, ◌≡◌, refl, sym, subst, ap, ◌∙◌, inl, inr, Bool, List, [], ◌∷◌, Option, none, some,
  length, All, Bool-cases, ltb,
}
use semant_script.Python.Text.{Text, codes}
use semant_script.Python.Values.{Value, Heap, get}
use semant_script.CanonicalInput.Errors.{Result, ok, fail, bind, bind-eq-ok}
use semant_script.CanonicalInput.Spec.{Kind, kind_of}
use semant_script.Constraints.Expression.{mapping, fields}
use semant_script.Constraints.Eval.{Datum, number_of}
use semant_script.Constraints.Types.{
  StaticType, Types, Elements, Declared, Infer, lift, consume, literal_static_type,
}
use semant_script.Constraints.Types.Spec.{
  text_of, boolean_of, nonempty, literal_types, declared_field, list_entry, element_types,
  field_types, variant_types, types_of_kind, types_from_input_spec,
}
use semant_script.Constraints.Types.Has.{
  FieldHas, Has, HasSome, HasEach, HasFields, HasSome-left, HasSome-right,
}
use semant_script.Constraints.Types.Merge.{merge_types-HasSome, ok_value, ok_first}
use semant_script.Constraints.Types.Fits.{
  IsLiteral, entry_of, Fits, OneOf, FitsAll, FitsEach, FitsFields, FitsSome,
}

literal-Has :
    (h : Heap) (l v : Value) (t : StaticType)
    → literal_static_type (some l) ≡ ok t
    → IsLiteral l v
    → Has h t (Datum.datum v)
unfolding literal_static_type Has number_of
literal-Has h _ _ t e IsLiteral.null =
    subst (λ t. Has h t (Datum.datum Value.null)) (ok_value e) refl
literal-Has h _ _ t e (IsLiteral.boolean b) =
    subst (λ t. Has h t (Datum.datum (Value.boolean b))) (ok_value e) (b, refl, refl)
literal-Has h _ _ t e (IsLiteral.string s) =
    subst (λ t. Has h t (Datum.datum (Value.string s))) (ok_value e) (s, refl, refl)
literal-Has h _ _ t e (IsLiteral.number (Value.int n) v y x p q f) =
    subst (λ t. Has h t (Datum.datum v)) (ok_value (rw p at e)) (x, q, f)
literal-Has h _ _ t e (IsLiteral.number (Value.float z) v y x p q f) =
    subst (λ t. Has h t (Datum.datum v)) (ok_value (rw p at e)) (x, q, f)
literal-Has h _ _ t e (IsLiteral.number l v y x p q f) = absurd (cc p)

literals-HasSome :
    (h : Heap) (values : List Value) (v : Value) (ts : Types)
    → literal_types values ≡ ok ts
    → OneOf h values v
    → HasSome h ts (Datum.datum v)
unfolding literal_types HasSome
literals-HasSome h _ v ts e (OneOf.here l ls _ is) =
    let (t, f, e₁) = bind-eq-ok (literal_static_type (some l)) _ e in
    let (us, g, e₂) = bind-eq-ok (literal_types ls) _ e₁ in
    subst (λ ts. HasSome h ts (Datum.datum v)) (ok_value e₂) (inl (literal-Has h l v t f is))
literals-HasSome h _ v ts e (OneOf.there l ls _ among) =
    let (t, f, e₁) = bind-eq-ok (literal_static_type (some l)) _ e in
    let (us, g, e₂) = bind-eq-ok (literal_types ls) _ e₁ in
    subst (λ ts. HasSome h ts (Datum.datum v)) (ok_value e₂)
      (inr (literals-HasSome h ls v us g among))

pub lifted-ok : {A : Type 0} (r : Result A) (b : ℕ) {x : A × ℕ} → lift r b ≡ ok x → r ≡ ok x.0
lifted-ok (ok a) b e = ap ok (ok_first e)
lifted-ok (fail x) b e = cc

nonempty-same :
    {A : Type 0} (r : Result (List A)) (xs ys : List A)
    → r ≡ ok xs
    → bind r nonempty ≡ ok ys
    → xs ≡ ys
nonempty-same (ok []) xs ys e f = cc
nonempty-same (ok (a ∷ rest)) xs ys e f = cc (e, f)
nonempty-same (fail x) xs ys e f = cc

pub lifted :
    {A : Type 0} (r : Result A) (b : ℕ) {a : A} {x : A × ℕ} → r ≡ ok a → lift r b ≡ ok x → a ≡ x.0
lifted (ok c) b e f = sym (ok_value e) ∙ ap (λ p. p.0) (ok_value f)
lifted (fail x) b e f = cc e

pub text_of-some : (o : Option Value) (s : Text) → text_of o ≡ ok s → o ≡ some (Value.string s)
text_of-some none s e = cc
text_of-some (some (Value.string r)) s e = cc
text_of-some (some v) s e = cc

boolean_of-some : (o : Option Value) (b : Bool) → boolean_of o ≡ ok b → o ≡ some (Value.boolean b)
boolean_of-some none s e = cc
boolean_of-some (some (Value.boolean b)) s e = cc
boolean_of-some (some v) s e = cc

abbrev DeclaredAs : Heap → ℕ → Text × ℕ × Bool → Type 0
DeclaredAs h f p =
    (entry_of h "name" f ≡ some (Value.string p.0))
    × (mapping h (entry_of h "type" f) ≡ ok p.1)
    × (entry_of h "optional" f ≡ some (Value.boolean p.2))

-- The type that is read of a declared field, in three steps.
declared_field-parts :
    (h : Heap) (raw : Value) (f : ℕ) (name : Text) (spec : ℕ) (optional : Bool)
    → declared_field h raw ≡ ok (name, spec, optional)
    → mapping h (some raw) ≡ ok f
    → (entry_of h "name" f ≡ some (Value.string name))
      × (mapping h (entry_of h "type" f) ≡ ok spec)
      × (entry_of h "optional" f ≡ some (Value.boolean optional))
declared_field-parts h raw f name spec optional e m =
    let (a, m', e₁) = bind-eq-ok (mapping h (some raw)) _ e in
    let (n, read, e₂) = bind-eq-ok (text_of (get (codes "name") (fields h a))) _ e₁ in
    let (s, typed, e₃) = bind-eq-ok (mapping h (get (codes "type") (fields h a))) _ e₂ in
    let (o, flag, e₄) = bind-eq-ok (boolean_of (get (codes "optional") (fields h a))) _ e₃ in
    let same : a ≡ f = cc (m, m') in
    subst (λ f. DeclaredAs h f (name, spec, optional)) same
      (subst (DeclaredAs h a) (ok_value e₄) (
        text_of-some (get (codes "name") (fields h a)) n read,
        typed,
        boolean_of-some (get (codes "optional") (fields h a)) o flag,
      ))

-- what is known of the recursive calls
abbrev pub SoundTypes : Heap → (ℕ → Infer Types) → Type 0
SoundTypes h again =
    (a b b' : ℕ) (ts : Types) (v : Value)
    → again a b ≡ ok (ts, b')
    → Fits h a v
    → HasSome h ts (Datum.datum v)

module _ (h : Heap) (again : ℕ → Infer Types) (sound : SoundTypes h again) where
  every-HasSome :
      (item b b' : ℕ) (ts : Types) (xs : List Value)
      → again item b ≡ ok (ts, b')
      → FitsAll h item xs
      → All (λ v. HasSome h ts (Datum.datum v)) xs
  every-HasSome item b b' ts _ e (FitsAll.no_items _) = tt
  every-HasSome item b b' ts _ e (FitsAll.next_item _ v vs f fs) =
      (sound item b b' ts v e f, every-HasSome item b b' ts vs e fs)

  element_types-HasEach :
      (raws : List Value) (b b' : ℕ) (es : Elements) (xs : List Value)
      → element_types h again raws b ≡ ok (es, b')
      → FitsEach h raws xs
      → HasEach h es xs
  unfolding element_types Has
  element_types-HasEach _ b b' es _ e FitsEach.no_elements =
      subst (λ es. HasEach h es []) (ok_first e) tt
  element_types-HasEach _ b b' es _ e (FitsEach.next_element raw a raws v vs m f fs) =
      let (s, m', e₁) = bind-eq-ok (lift (mapping h (some raw)) b) _ e in
      let (ts, g, e₂) = bind-eq-ok (again s.0 s.1) _ e₁ in
      let (rest, r, e₃) = bind-eq-ok (element_types h again raws ts.1) _ e₂ in
      let same : a ≡ s.0 = lifted (mapping h (some raw)) b m m' in
      subst (λ es. HasEach h es (v ∷ vs)) (ok_first e₃)
        (
          sound s.0 s.1 ts.1 ts.0 v g (subst (λ a. Fits h a v) same f),
          element_types-HasEach raws ts.1 rest.1 rest.0 vs r fs,
        )

  variant_types-HasSome :
      (raws : List Value) (b b' : ℕ) (ts : Types) (v : Value)
      → variant_types h again raws b ≡ ok (ts, b')
      → FitsSome h raws v
      → HasSome h ts (Datum.datum v)
  unfolding variant_types
  variant_types-HasSome _ b b' ts v e (FitsSome.first raw a raws _ m f) =
      let (s, m', e₁) = bind-eq-ok (lift (mapping h (some raw)) b) _ e in
      let (us, g, e₂) = bind-eq-ok (again s.0 s.1) _ e₁ in
      let (rest, r, e₃) = bind-eq-ok (variant_types h again raws us.1) _ e₂ in
      let same : a ≡ s.0 = lifted (mapping h (some raw)) b m m' in
      subst (λ ts. HasSome h ts (Datum.datum v)) (ok_first e₃)
        (HasSome-left h us.0 rest.0 (Datum.datum v)
          (sound s.0 s.1 us.1 us.0 v g (subst (λ a. Fits h a v) same f)))
  variant_types-HasSome _ b b' ts v e (FitsSome.later raw raws _ fs) =
      let (s, m', e₁) = bind-eq-ok (lift (mapping h (some raw)) b) _ e in
      let (us, g, e₂) = bind-eq-ok (again s.0 s.1) _ e₁ in
      let (rest, r, e₃) = bind-eq-ok (variant_types h again raws us.1) _ e₂ in
      subst (λ ts. HasSome h ts (Datum.datum v)) (ok_first e₃)
        (HasSome-right h us.0 rest.0 (Datum.datum v)
          (variant_types-HasSome raws us.1 rest.1 rest.0 v r fs))

  field_types-HasFields :
      (raws : List Value) (b b' : ℕ) (fs : Declared) (es : List (Value × Value))
      → field_types h again raws b ≡ ok (fs, b')
      → FitsFields h raws es
      → HasFields h fs es
  unfolding field_types Has
  field_types-HasFields _ b b' fs es e (FitsFields.no_fields _) =
      subst (λ fs. HasFields h fs es) (ok_first e) tt
  field_types-HasFields _ b b' fs es e
        (FitsFields.present f raw raws _ name a v m named typed found fits others) =
      let (d, declared, e₁) = bind-eq-ok (lift (declared_field h raw) b) _ e in
      let (ts, g, e₂) = bind-eq-ok (again d.0.1 d.1) _ e₁ in
      let (rest, r, e₃) = bind-eq-ok (field_types h again raws ts.1) _ e₂ in
      let (named', typed', _) =
        declared_field-parts h raw f d.0.0 d.0.1 d.0.2 (lifted-ok (declared_field h raw) b declared)
          m in
      let same : a ≡ d.0.1 = cc (typed, typed') in
      let same_name : name ≡ d.0.0 = cc (named, named') in
      subst (λ fs. HasFields h fs es) (ok_first e₃)
        (
          subst (λ o. FieldHas (HasSome h ts.0) o d.0.2) (sym found ∙ ap (λ n. get n es) same_name)
              (sound d.0.1 d.1 ts.1 ts.0 v g (subst (λ a. Fits h a v) same fits)),
          field_types-HasFields raws ts.1 rest.1 rest.0 es r others,
        )
  field_types-HasFields _ b b' fs es e
        (FitsFields.absent f raw raws _ name m named optional missing others) =
      let (d, declared, e₁) = bind-eq-ok (lift (declared_field h raw) b) _ e in
      let (ts, g, e₂) = bind-eq-ok (again d.0.1 d.1) _ e₁ in
      let (rest, r, e₃) = bind-eq-ok (field_types h again raws ts.1) _ e₂ in
      let (named', _, optional') =
        declared_field-parts h raw f d.0.0 d.0.1 d.0.2 (lifted-ok (declared_field h raw) b declared)
          m in
      let same_name : name ≡ d.0.0 = cc (named, named') in
      subst (λ fs. HasFields h fs es) (ok_first e₃)
        (
          subst (λ o. FieldHas (HasSome h ts.0) o d.0.2)
              (sym missing ∙ ap (λ n. get n es) same_name) (cc (optional, optional')),
          field_types-HasFields raws ts.1 rest.1 rest.0 es r others,
        )

  -- the kind of a spec, once it is known
  at_kind :
      (a b b' : ℕ) (ts : Types) (kind : Kind)
      → types_of_kind h again (kind_of (entry_of h "kind" a)) a b ≡ ok (ts, b')
      → kind_of (entry_of h "kind" a) ≡ kind
      → types_of_kind h again kind a b ≡ ok (ts, b')
  at_kind a b b' ts kind e k = subst (λ kind. types_of_kind h again kind a b ≡ ok (ts, b')) k e

  types_of_kind-HasSome :
      (a b b' : ℕ) (ts : Types) (v : Value)
      → types_of_kind h again (kind_of (entry_of h "kind" a)) a b ≡ ok (ts, b')
      → Fits h a v
      → HasSome h ts (Datum.datum v)
  unfolding types_of_kind Has number_of
  types_of_kind-HasSome _ b b' ts _ e (Fits.string a s k) =
      subst (λ ts. HasSome h ts (Datum.datum (Value.string s)))
        (ok_first (at_kind a b b' ts Kind.string e k)) (inl (s, refl, tt))
  types_of_kind-HasSome _ b b' ts _ e (Fits.boolean a x k) =
      subst (λ ts. HasSome h ts (Datum.datum (Value.boolean x)))
        (ok_first (at_kind a b b' ts Kind.boolean e k)) (inl (x, refl, tt))
  types_of_kind-HasSome _ b b' ts _ e (Fits.number a v x k n) =
      subst (λ ts. HasSome h ts (Datum.datum v)) (ok_first (at_kind a b b' ts Kind.number e k))
        (inl (x, n, tt))
  types_of_kind-HasSome _ b b' ts _ e (Fits.null a k) =
      subst (λ ts. HasSome h ts (Datum.datum Value.null))
        (ok_first (at_kind a b b' ts Kind.null e k)) (inl refl)
  types_of_kind-HasSome _ b b' ts _ e (Fits.literal a l v k found is) =
      let (t, f, e₁) =
        bind-eq-ok (lift (literal_static_type (entry_of h "value" a)) b) _
          (at_kind a b b' ts Kind.literal e k) in
      subst (λ ts. HasSome h ts (Datum.datum v)) (ok_first e₁)
        (inl (
          literal-Has h l v t.0
            (ap literal_static_type (sym found)
              ∙ lifted-ok (literal_static_type (entry_of h "value" a)) b f)
            is))
  types_of_kind-HasSome _ b b' ts _ e (Fits.enum a v values k found among) =
      let (xs, f, e₁) =
        bind-eq-ok (lift (bind (list_entry h "values" a) nonempty) b) _
          (at_kind a b b' ts Kind.enum e k) in
      let (us, g, e₂) = bind-eq-ok (lift (literal_types xs.0) xs.1) _ e₁ in
      let same : values ≡ xs.0 =
        nonempty-same (list_entry h "values" a) values xs.0 found
          (lifted-ok (bind (list_entry h "values" a) nonempty) b f) in
      merge_types-HasSome h us.0 ts us.1 b' (Datum.datum v) e₂ (
        literals-HasSome h xs.0 v us.0 (lifted-ok (literal_types xs.0) xs.1 g)
          (subst (λ xs. OneOf h xs v) same among))
  types_of_kind-HasSome _ b b' ts _ e (Fits.array a i xs item k found list short fits) =
      let (it, f, e₁) =
        bind-eq-ok (lift (mapping h (entry_of h "items" a)) b) _
          (at_kind a b b' ts Kind.array e k) in
      let (us, g, e₂) = bind-eq-ok (again it.0 it.1) _ e₁ in
      let same : item ≡ it.0 = lifted (mapping h (entry_of h "items" a)) b found f in
      subst (λ ts. HasSome h ts (Datum.datum (Value.ref i))) (ok_first e₂)
        (inl (
          i,
          xs,
          refl,
          list,
          short,
          every-HasSome it.0 it.1 us.1 us.0 xs g (subst (λ a. FitsAll h a xs) same fits),
        ))
  types_of_kind-HasSome _ b b' ts _ e (Fits.tuple a i xs items k found list short fits) =
      let (its, f, e₁) =
        bind-eq-ok (lift (list_entry h "items" a) b) _ (at_kind a b b' ts Kind.tuple e k) in
      let (us, g, e₂) = bind-eq-ok (element_types h again its.0 its.1) _ e₁ in
      let same : items ≡ its.0 = lifted (list_entry h "items" a) b found f in
      subst (λ ts. HasSome h ts (Datum.datum (Value.ref i))) (ok_first e₂)
        (inl (
          i,
          xs,
          refl,
          list,
          short,
          element_types-HasEach its.0 its.1 us.1 us.0 xs g (subst (λ a. FitsEach h a xs) same fits),
        ))
  types_of_kind-HasSome _ b b' ts _ e (Fits.object a i es raws k found dict fits) =
      let (rs, f, e₁) =
        bind-eq-ok (lift (list_entry h "fields" a) b) _ (at_kind a b b' ts Kind.object e k) in
      let (us, g, e₂) = bind-eq-ok (field_types h again rs.0 rs.1) _ e₁ in
      let same : raws ≡ rs.0 = lifted (list_entry h "fields" a) b found f in
      subst (λ ts. HasSome h ts (Datum.datum (Value.ref i))) (ok_first e₂)
        (inl (
          i,
          es,
          refl,
          dict,
          field_types-HasFields rs.0 rs.1 us.1 us.0 es g (subst (λ a. FitsFields h a es) same fits),
        ))
  types_of_kind-HasSome _ b b' ts v e (Fits.union a _ variants k found fits) =
      let (vs, f, e₁) =
        bind-eq-ok (lift (list_entry h "variants" a) b) _ (at_kind a b b' ts Kind.union e k) in
      let same : variants ≡ vs.0 = lifted (list_entry h "variants" a) b found f in
      elim (Bool-cases (ltb (length vs.0) 2)) [
        | inl few ↦ absurd (cc (rw few at e₁))
        | inr enough ↦
            let (us, g, e₂) = bind-eq-ok (variant_types h again vs.0 vs.1) _ (rw enough at e₁) in
            merge_types-HasSome h us.0 ts us.1 b' (Datum.datum v) e₂ (
              variant_types-HasSome vs.0 vs.1 us.1 us.0 v g
                (subst (λ vs. FitsSome h vs v) same fits))
      ]

pub types_from_input_spec-HasSome :
    (h : Heap) (levels : ℕ) → SoundTypes h (types_from_input_spec h levels)
unfolding types_from_input_spec
types_from_input_spec-HasSome h zero a b b' ts v e fits = cc
types_from_input_spec-HasSome h (suc levels) a b b' ts v e fits =
    let (u, _, e₁) = bind-eq-ok (consume b) _ e in
    types_of_kind-HasSome h (types_from_input_spec h levels)
      (types_from_input_spec-HasSome h levels) a u.1 b' ts v e₁ fits
