-- ===== src/CanonicalInput/Conforms/Containers.antt =====
-- `_encode_value` of canonical_input.py on containers and unions: what its refusals deny.
use semant_script.Prelude.{
  ℕ, zero, suc, ◌+◌, ◌≡◌, refl, subst, ap, Bool, true, false, Bool-cases, Option-cases, inl, inr,
  List, [], ◌∷◌, Option, none, some, get_elem?, All, if◌then◌else◌, length, ◌==◌, ltb, arith,
}
use semant_script.Python.Text.{Text}
use semant_script.Python.Values.{Value, Heap, get, as_list, as_dict, identity}
use semant_script.CanonicalInput.Errors.{
  Result, ok, fail, bind-eq-ok, Failure, Reason, InputPath, is_fatal,
}
use semant_script.CanonicalInput.Exec.{
  Exec, Context, ◌>>=◌, continue, lift, pure, raise, consume_work, maximum_input_nodes, Returns,
}
use semant_script.CanonicalInput.Tree.{ExactJson, array, tag, natural}
use semant_script.CanonicalInput.Spec.{
  Kind, kind_of, base_of, Field, names, entry, schema_mapping, schema_sequence, schema_string,
  object_fields,
}
use semant_script.CanonicalInput.Leaves.{
  reject_host_object, plain_object, check_keys, encode_literal, encode_enum, encode_member,
}
use semant_script.CanonicalInput.Encode.{
  Encoder, or_else, check_room, encode_items, sequence, encode_array, encode_elements, encode_tuple,
  encode_field, encode_fields, encode_object, encode_variants, encode_union, encode_kind,
  encode_value,
}
use semant_script.CanonicalInput.Primitives.{KnownKeys}
use semant_script.CanonicalInput.Conforms.{
  Conforms, ConformsAll, ConformsEach, ConformsFields, Shape, Conforms-Shape,
}
use semant_script.CanonicalInput.Conforms.Denies.{
  Refutes, Refutes-bind, Refutes-ok, Refutes-map, Denies, Denies-bind, Denies-lift, Denies-map,
  Denies-with_active,
}
use semant_script.CanonicalInput.Conforms.Leaves.{
  HasKind-IsPrimitive, encode_null-Refutes, encode_boolean-Refutes, encode_string-Refutes,
  encode_number-Refutes, number_text-is_number, number-value, match_literal-Refutes,
  check_keys-Refutes,
}
use semant_script.CanonicalInput.Conforms.Members.{encode_member-Refutes, IsMember}

pub Denies-pure : {A : Type 0} {Q : Type 0} (a : A) → Denies Q (pure a)
Denies-pure a = record { at = λ c. tt }

Denies-if :
    {A : Type 0} {Q : Type 0} (b : Bool) {m n : Exec A}
    → (b ≡ true → Denies Q m)
    → (b ≡ false → Denies Q n)
    → Denies Q (if b then m else n)
Denies-if true k l = k refl
Denies-if false k l = l refl

-- the result that a step had is the one that is known
same_result : {A : Type 0} (m : Result A) {a b : A} → Returns (lift m) a → m ≡ ok b → b ≡ a
same_result m (c, e) f = cc (e, f)

same_value : {A : Type 0} {a b : A} → some a ≡ some b → a ≡ b
same_value e = cc

check_room-Denies : {Q : Type 0} (n : ℕ) (path : InputPath) → Denies Q (check_room n path)
unfolding check_room is_fatal
check_room-Denies n path = record {
  at = λ c. elim (Bool-cases (ltb maximum_input_nodes (c.used + n))) [
    | inl e ↦ rw e (λ goes_on q. cc goes_on)
    | inr e ↦ rw e tt
  ];
}

consume_work-Denies : {Q : Type 0} (path : InputPath) → Denies Q (consume_work path)
unfolding consume_work is_fatal
consume_work-Denies path = record {
  at = λ c. elim (Bool-cases (ltb maximum_input_nodes (c.used + 1))) [
    | inl e ↦ rw e (λ goes_on q. cc goes_on)
    | inr e ↦ rw e tt
  ];
}

reject_host_object-Refutes :
    (Q : Type 0) (v : Value) (path : InputPath) → Refutes Q (reject_host_object v path)
unfolding reject_host_object is_fatal
reject_host_object-Refutes Q Value.host path = λ goes_on q. cc goes_on
reject_host_object-Refutes Q v path = tt

module _ (h : Heap) where
  sequence-ok :
      (v : Value) (path : InputPath) (values : List Value)
      → as_list h v ≡ some values
      → sequence h (as_list h v) path ≡ ok values
  sequence-ok v path values e = rw e refl

  plain_object-Refutes :
      (Q : Type 0) (v : Value) (path : InputPath)
      → (Q → (es : List (Value × Value)) × (as_dict h v ≡ some es))
      → Refutes Q (plain_object h v path)
  unfolding plain_object
  plain_object-Refutes Q v path k =
      Refutes-bind _ (reject_host_object v path) _ (reject_host_object-Refutes _ v path) λ u _.
        elim (Option-cases (as_dict h v)) [
          | inl e ↦ rw e (λ goes_on q. cc (e, (k q).1))
          | inr (es, e) ↦ rw e tt
        ]

  -- what the recursive calls refuse
  abbrev pub IsComplete : Encoder → Type 0
  IsComplete rec =
      (spec : ℕ) (v : Value) (path : InputPath) → Denies (Conforms h spec v) (rec spec v path)

  head_item :
      (item : ℕ) (v : Value) (vs : List Value)
      → ConformsAll h item (v ∷ vs)
      → Conforms h item v × ConformsAll h item vs
  head_item item v vs (ConformsAll.next_item _ _ _ c cs) = (c, cs)

  head_element :
      (raw : Value) (specs : List Value) (v : Value) (vs : List Value)
      → ConformsEach h (raw ∷ specs) (v ∷ vs)
      → (spec : ℕ) × (schema_mapping h (some raw) ≡ ok spec)
        × Conforms h spec v
        × ConformsEach h specs vs
  head_element raw specs v vs (ConformsEach.next_element _ spec _ _ _ m c cs) = (spec, m, c, cs)

  each_length : (specs vs : List Value) → ConformsEach h specs vs → length vs ≡ length specs
  each_length _ _ ConformsEach.no_elements = refl
  each_length _ _ (ConformsEach.next_element raw spec specs v vs m c cs) =
      ap suc (each_length specs vs cs)

  other_fields :
      (values : List (Value × Value)) (f : Field) (fs : List Field)
      → ConformsFields h values (f ∷ fs)
      → ConformsFields h values fs
  other_fields values f fs (ConformsFields.absent _ _ _ o e cs) = cs
  other_fields values f fs (ConformsFields.present _ _ _ v e c cs) = cs

  required :
      (values : List (Value × Value)) (f : Field) (fs : List Field)
      → f.optional ≡ false
      → get f.name values ≡ none
      → ConformsFields h values (f ∷ fs)
      → ⊥
  required values f fs o e (ConformsFields.absent _ _ _ p _ cs) = cc (o, p)
  required values f fs o e (ConformsFields.present _ _ _ v g c cs) = cc (e, g)

  field_value :
      (values : List (Value × Value)) (f : Field) (fs : List Field) (v : Value)
      → get f.name values ≡ some v
      → ConformsFields h values (f ∷ fs)
      → Conforms h f.type_spec v
  field_value values f fs v e (ConformsFields.absent _ _ _ o g cs) = absurd (cc (e, g))
  field_value values f fs v e (ConformsFields.present _ _ _ w g c cs) =
      let same : w ≡ v = cc (e, g) in subst (Conforms h f.type_spec) same c

  plain_object-values :
      (v : Value) (path : InputPath) (values values' : List (Value × Value))
      → Returns (lift (plain_object h v path)) values
      → as_dict h v ≡ some values'
      → values' ≡ values
  unfolding plain_object
  plain_object-values v path values values' (c, e) d =
      let (u, _, r) =
        bind-eq-ok (reject_host_object v path)
          (λ _. elim (as_dict h v) [
            | none ↦ fail (Failure.canonical Reason.type path)
            | some es ↦ ok es
          ])
          e in
      cc (rw d at r)

  module _ (rec : Encoder) (complete : IsComplete rec) where
    encode_items-Denies :
        (item : ℕ) (path : InputPath) (index : ℕ) (vs : List Value)
        → Denies (ConformsAll h item vs) (encode_items h rec item path index vs)
    unfolding encode_items
    encode_items-Denies item path index [] = Denies-pure _
    encode_items-Denies item path index (v ∷ vs) =
        Denies-bind _ (Denies-map (λ q. (head_item item v vs q).0) (complete item v _)) λ t _.
          Denies-bind _
            (Denies-map (λ q. (head_item item v vs q).1)
              (encode_items-Denies item path (index + 1) vs))
            λ ts _. Denies-pure _

    encode_array-Denies :
        (spec : ℕ) (v : Value) (path : InputPath)
        → Denies (Shape h spec v Kind.array) (encode_array h rec spec v path)
    unfolding encode_array
    encode_array-Denies spec v path =
        Denies-bind _
          (Denies-lift _ (
            Refutes-ok _ (sequence h (as_list h v) path)
              λ (values, _, l, _, _). (values, sequence-ok v path values l)))
          λ values l. Denies-bind _ (check_room-Denies (length values) path) λ _ _.
            Denies-bind _
              (Denies-lift _ (
                Refutes-ok _ (schema_mapping h (entry h spec "items"))
                  λ (_, item, _, m, _). (item, m)))
              λ item i. Denies-with_active (identity v) path (
                Denies-bind _
                  (Denies-map
                    (λ (values', item', l', m', all).
                      subst (λ vs. ConformsAll h item vs)
                        (same_result (sequence h (as_list h v) path) l
                          (sequence-ok v path values' l'))
                        (subst (λ x. ConformsAll h x values')
                          (same_result (schema_mapping h (entry h spec "items")) i m') all))
                    (encode_items-Denies item path 0 values))
                  λ ts _. Denies-pure _)

    encode_elements-Denies :
        (path : InputPath) (index : ℕ) (specs vs : List Value)
        → Denies (ConformsEach h specs vs) (encode_elements h rec path index specs vs)
    unfolding encode_elements
    encode_elements-Denies path index [] vs = Denies-pure _
    encode_elements-Denies path index (raw ∷ specs) [] = Denies-pure _
    encode_elements-Denies path index (raw ∷ specs) (v ∷ vs) =
        Denies-bind _
          (Denies-lift _ (
            Refutes-ok _ (schema_mapping h (some raw))
              λ q. let (spec, m, _, _) = head_element raw specs v vs q in (spec, m)))
          λ spec s.
            Denies-bind _
              (Denies-map
                (λ q.
                  let (spec', m, c, _) = head_element raw specs v vs q in
                  subst (λ x. Conforms h x v) (same_result (schema_mapping h (some raw)) s m) c)
                (complete spec v _))
              λ t _.
                Denies-bind _
                  (Denies-map (λ q. let (_, _, _, cs) = head_element raw specs v vs q in cs)
                    (encode_elements-Denies path (index + 1) specs vs))
                  λ ts _. Denies-pure _

    check_length-Denies :
        (path : InputPath) (values specs : List Value)
        → Denies
            (ConformsEach h specs values)
            (if length values == length specs then pure tt else raise Reason.tuple_length path)
    check_length-Denies path values specs = elim (Bool-cases (length values == length specs)) [
      | inl e ↦ rw e (Denies-pure tt)
      | inr e ↦
          rw e (Denies-lift _ (λ goes_on q. absurd (ground (arith, e, each_length specs values q))))
    ]

    encode_tuple-Denies :
        (spec : ℕ) (v : Value) (path : InputPath)
        → Denies (Shape h spec v Kind.tuple) (encode_tuple h rec spec v path)
    unfolding encode_tuple
    encode_tuple-Denies spec v path =
        Denies-bind _
          (Denies-lift _ (
            Refutes-ok _ (sequence h (as_list h v) path)
              λ (values, _, l, _, _). (values, sequence-ok v path values l)))
          λ values l.
            Denies-bind _
              (Denies-lift _ (
                Refutes-ok _ (schema_sequence h (entry h spec "items"))
                  λ (_, specs, _, m, _). (specs, m)))
              λ specs s.
                let each : Shape h spec v Kind.tuple → ConformsEach h specs values =
                  λ (values', specs', l', s', all).
                    subst (λ vs. ConformsEach h specs vs)
                      (same_result (sequence h (as_list h v) path) l
                        (sequence-ok v path values' l'))
                      (subst (λ x. ConformsEach h x values')
                        (same_result (schema_sequence h (entry h spec "items")) s s') all) in
                Denies-bind _ (Denies-map each (check_length-Denies path values specs)) λ _ _.
                  Denies-with_active (identity v) path (
                    Denies-bind _ (Denies-map each (encode_elements-Denies path 0 specs values))
                      λ ts _. Denies-pure _)

    encode_field-Denies :
        (path : InputPath) (values : List (Value × Value)) (f : Field) (fs : List Field)
        (found : Option Value) (others : Exec (List (Text × ExactJson)))
        → get f.name values ≡ found
        → Denies (ConformsFields h values fs) others
        → Denies (ConformsFields h values (f ∷ fs)) (encode_field h rec path f found others)
    unfolding encode_field
    encode_field-Denies path values f fs none others e d =
        Denies-if f.optional (λ o. Denies-map (other_fields values f fs) d)
          (λ o. Denies-lift _ (λ goes_on q. required values f fs o e q))
    encode_field-Denies path values f fs (some v) others e d =
        Denies-bind _ (Denies-map (field_value values f fs v e) (complete f.type_spec v _))
          λ t _. Denies-bind _ (Denies-map (other_fields values f fs) d) λ ps _. Denies-pure _

    encode_fields-Denies :
        (path : InputPath) (values : List (Value × Value)) (fs : List Field)
        → Denies (ConformsFields h values fs) (encode_fields h rec path values fs)
    unfolding encode_fields
    encode_fields-Denies path values [] = Denies-pure _
    encode_fields-Denies path values (f ∷ fs) =
        encode_field-Denies path values f fs (get f.name values)
          (encode_fields h rec path values fs) refl (encode_fields-Denies path values fs)

    encode_object-Denies :
        (spec : ℕ) (v : Value) (path : InputPath)
        → Denies (Shape h spec v Kind.object) (encode_object h rec spec v path)
    unfolding encode_object
    encode_object-Denies spec v path =
        Denies-bind _
          (Denies-lift _ (
            Refutes-ok _ (schema_string (entry h spec "name"))
              λ (name, _, _, n, _, _, _, _). (name, n)))
          λ name n.
            Denies-bind _
              (Denies-lift _
                (plain_object-Refutes _ v path λ (_, values, _, _, d, _, _, _). (values, d)))
              λ values d.
                Denies-bind _
                  (Denies-lift _ (
                    Refutes-ok _ (object_fields h spec name) λ (name', _, fields, n', _, f, _, _). (
                      fields,
                      subst (λ x. object_fields h spec x ≡ ok fields)
                          (same_result (schema_string (entry h spec "name")) n n') f,
                    )))
                  λ fields f.
                    let parts : Shape h spec v Kind.object
                        → KnownKeys (names fields) values × ConformsFields h values fields =
                      λ (name', values', fields', n', d', f', known, each).
                        let same_name = same_result (schema_string (entry h spec "name")) n n' in
                        let fields_of =
                          subst (λ x. object_fields h spec x ≡ ok fields') same_name f' in
                        let same_fields = same_result (object_fields h spec name) f fields_of in
                        let same_values = plain_object-values v path values values' d d' in
                        subst (λ vs. KnownKeys (names fields) vs × ConformsFields h vs fields)
                          same_values
                          (subst (λ x. KnownKeys (names x) values' × ConformsFields h values' x)
                            same_fields (known, each)) in
                    Denies-bind _
                      (Denies-lift _ (
                        Refutes-map _ _ (check_keys (names fields) path values) (λ q. (parts q).0)
                          (check_keys-Refutes (names fields) path values)))
                      λ _ _. Denies-with_active (identity v) path (
                        Denies-bind _
                          (Denies-map (λ q. (parts q).1) (encode_fields-Denies path values fields))
                          λ ps _. Denies-pure _)

    -- one of the variants is a type that the value is of
    abbrev Among : Value → List Value → Type 0
    Among v variants =
        All (λ other. (at : ℕ) × (schema_mapping h (some other) ≡ ok at)) variants
        × (i : ℕ) × (raw : Value) × (variant : ℕ) × (get_elem? variants i ≡ some raw)
        × (schema_mapping h (some raw) ≡ ok variant)
        × Conforms h variant v

    later_variant :
        (v : Value) (raw : Value) (variant : ℕ) (rest : List Value)
        → schema_mapping h (some raw) ≡ ok variant
        → (Conforms h variant v → ⊥)
        → Among v (raw ∷ rest)
        → Among v rest
    later_variant v raw variant rest m refused (all, zero, raw', variant', g, m', c) =
        let same : raw' ≡ raw = cc g in
        let variants : variant' ≡ variant = cc (m, m', same) in
        absurd (refused (subst (λ x. Conforms h x v) variants c))
    later_variant v raw variant rest m refused (all, suc i, raw', variant', g, m', c) =
        (all.1, i, raw', variant', g, m', c)

    after_tried :
        (v : Value) (variant : ℕ) (raw : Value) (rest : List Value) (next : Exec ExactJson)
        (index : ℕ)
        → schema_mapping h (some raw) ≡ ok variant
        → Denies (Among v rest) next
        → (r : Result ExactJson) (c : Context) → Refutes (Conforms h variant v) r
        → Refutes
            (Among v (raw ∷ rest))
            (let tried =
                continue
                  (λ encoded. pure (array (tag "union" ∷ natural index ∷ encoded ∷ [])))
                  r
                  c in
              or_else next tried.0 tried.1).0
    unfolding or_else
    after_tried v variant raw rest next index m d (ok t) c y = tt
    after_tried v variant raw rest next index m d (fail (Failure.canonical reason path)) c y =
        elim (Bool-cases (is_fatal reason)) [
          | inl fatal ↦ rw fatal (λ goes_on q. cc (goes_on, fatal))
          | inr goes_on ↦
              rw goes_on (
                Refutes-map _ _ (next c).0 (later_variant v raw variant rest m (y goes_on))
                  (d.at c))
        ]
    after_tried v variant raw rest next index m d (fail Failure.type_error) c y = tt
    after_tried v variant raw rest next index m d (fail Failure.value_error) c y = tt

    encode_variants-Denies :
        (v : Value) (path : InputPath) (index : ℕ) (variants : List Value)
        → Denies (Among v variants) (encode_variants h rec v path index variants)
    unfolding encode_variants ◌>>=◌
    encode_variants-Denies v path index [] = Denies-lift _ (λ goes_on (_, i, raw, _, g, _, _). cc g)
    encode_variants-Denies v path index (raw ∷ rest) =
        Denies-bind _ (Denies-lift _ (Refutes-ok _ (schema_mapping h (some raw)) λ q. q.0.0))
          λ variant (_, m). record {
            at = λ c.
                after_tried v variant raw rest (encode_variants h rec v path (index + 1) rest) index
                  m (encode_variants-Denies v path (index + 1) rest) (rec variant v path c).0
                  (rec variant v path c).1 ((complete variant v path).at c);
          }

    encode_union-Denies :
        (spec : ℕ) (v : Value) (path : InputPath)
        → Denies (Shape h spec v Kind.union) (encode_union h rec spec v path)
    unfolding encode_union
    encode_union-Denies spec v path =
        Denies-bind _
          (Denies-lift _ (
            Refutes-ok _ (schema_sequence h (entry h spec "variants"))
              λ (variants, _, _, _, s, _, _, _, _). (variants, s)))
          λ variants s.
            Denies-map
              (λ (variants', i, raw, variant, s', all, g, m, c).
                subst (Among v) (same_result (schema_sequence h (entry h spec "variants")) s s')
                  (all, i, raw, variant, g, m, c))
              (encode_variants-Denies v path 0 variants)

    encode_enum-Refutes :
        (spec : ℕ) (v : Value) (path : InputPath)
        → Refutes (Shape h spec v Kind.enum) (encode_enum h spec v path)
    unfolding encode_enum
    encode_enum-Refutes spec v path =
        Refutes-bind _ (schema_string (entry h spec "name")) _
          (Refutes-ok _ (schema_string (entry h spec "name")) λ (_, name, _, _, n, _, _). (name, n))
          λ name n.
            Refutes-bind _ (schema_sequence h (entry h spec "values")) _
              (Refutes-ok _ (schema_sequence h (entry h spec "values"))
                λ (_, _, values, _, _, s, _). (values, s))
              λ values s.
                Refutes-map _ _ (encode_member name (base_of (entry h spec "base")) values v path)
                  (λ (t, _, values', i, _, s', m).
                    let same : values' ≡ values = cc (s, s') in
                    subst (λ vs. IsMember vs (base_of (entry h spec "base")) v) same (i, t, m))
                  (encode_member-Refutes name (base_of (entry h spec "base")) values v path)

    encode_kind-Denies :
        (kind : Kind) (spec : ℕ) (v : Value) (path : InputPath)
        → Denies (Shape h spec v kind) (encode_kind h rec kind spec v path)
    unfolding encode_kind encode_literal
    encode_kind-Denies Kind.null spec v path = Denies-lift _ (encode_null-Refutes v path)
    encode_kind-Denies Kind.boolean spec v path = Denies-lift _ (encode_boolean-Refutes v path)
    encode_kind-Denies Kind.string spec v path = Denies-lift _ (encode_string-Refutes v path)
    encode_kind-Denies Kind.number spec v path = Denies-lift _ (
        encode_number-Refutes _ v path
          λ (t, k). let (s, text) = number-value v t k in number_text-is_number v s text)
    encode_kind-Denies Kind.literal spec v path =
        Denies-lift _ (match_literal-Refutes (entry h spec "value") v path)
    encode_kind-Denies Kind.enum spec v path = Denies-lift _ (encode_enum-Refutes spec v path)
    encode_kind-Denies Kind.array spec v path = encode_array-Denies spec v path
    encode_kind-Denies Kind.tuple spec v path = encode_tuple-Denies spec v path
    encode_kind-Denies Kind.object spec v path = encode_object-Denies spec v path
    encode_kind-Denies Kind.union spec v path = encode_union-Denies spec v path
    encode_kind-Denies Kind.unsupported spec v path =
        Denies-lift _ λ goes_on (t, k). HasKind-IsPrimitive Kind.unsupported v t k

  encode_value-IsComplete : (levels : ℕ) → IsComplete (encode_value h levels)
  unfolding encode_value is_fatal
  encode_value-IsComplete zero spec v path = Denies-lift _ (λ goes_on q. cc goes_on)
  encode_value-IsComplete (suc levels) spec v path = Denies-bind _ (consume_work-Denies path) λ _ _.
      Denies-bind _ (Denies-lift _ (reject_host_object-Refutes _ v path)) λ _ _.
        Denies-map (Conforms-Shape h spec v) (
          encode_kind-Denies (encode_value h levels) (encode_value-IsComplete levels)
            (kind_of (entry h spec "kind")) spec v path)

  -- A value that `_encode_value` refuses with an error after which a union goes on is not of the type
  -- of the spec, whatever the depth, the path and what was done before.
  pub encode_value-refuses :
      (levels spec : ℕ) (v : Value) (path : InputPath) (c : Context) (reason : Reason)
      (at : InputPath)
      → (encode_value h levels spec v path c).0 ≡ fail (Failure.canonical reason at)
      → is_fatal reason ≡ false
      → Conforms h spec v
      → ⊥
  encode_value-refuses levels spec v path c reason at e goes_on =
      (subst (Refutes (Conforms h spec v)) e ((encode_value-IsComplete levels spec v path).at c))
        goes_on
