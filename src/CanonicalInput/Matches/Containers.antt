-- ===== src/CanonicalInput/Matches/Containers.antt =====
-- Containers and unions in `_encode_value` of canonical_input.py, against what it promises of them.
use semant_script.Prelude.{
  ℕ, suc, ◌+◌, ◌≡◌, refl, subst, Bool, true, false, List, [], ◌∷◌, ◌++◌, Option, none, some, arith,
  Bool-cases, Option-cases, inl, inr, ◌==◌, if◌then◌else◌, get_elem?, length, ◌<◌, ◌⊎◌, sym, ap,
  ◌∙◌,
}
use semant_script.Prelude.Sort.{sort, sort-perm, sort-IsSorted}
use semant_script.Python.Text.{Text}
use semant_script.Python.Utf8.{Bytes, utf8}
use semant_script.Python.Values.{Value, Heap, get, as_list, as_dict, identity}
use semant_script.CanonicalInput.Errors.{
  Result, ok, fail, is_fatal, Failure, Reason, Segment, InputPath, Yields, expected_type,
  bind-eq-ok,
}
use semant_script.CanonicalInput.Exec.{
  Exec, Context, pure, lift, raise, After, After-bind, After-raise, After-with_active, After-map,
  Returns, ◌>>=◌, continue,
}
use semant_script.CanonicalInput.Tree.{ExactJson, array, tag, natural}
use semant_script.CanonicalInput.Spec.{
  Kind, kind_of, Field, names, entry, schema_sequence, schema_mapping,
}
use semant_script.CanonicalInput.Leaves.{plain_object, reject_host_object}
use semant_script.CanonicalInput.Encode.{
  Encoder, bytes_le, name_le, or_else, encode_items, sequence, encode_array, encode_elements,
  encode_tuple, encode_field, encode_fields, encode_object, encode_variants,
}
use semant_script.CanonicalInput.Conforms.{Conforms}
use semant_script.CanonicalInput.Matches.Leaves.{check_keys-KnownKeys}
use semant_script.CanonicalInput.Matches.{Matches, MatchesAll, MatchesEach, MatchesFields}

pub After-pure : {A : Type 0} {P : A → Type 0} (a : A) → P a → After P (pure a)
After-pure a p = record { at = λ c. p }

pub After-lift : {A : Type 0} {P : A → Type 0} (r : Result A) → Yields P r → After P (lift r)
After-lift r y = record { at = λ c. y }

-- What holds of every result holds of the one that a run had.
pub returned : {A : Type 0} {P : A → Type 0} {m : Exec A} {a : A} → After P m → Returns m a → P a
returned {P = P} w (c, e) = subst (Yields P) e (w.at c)

bytes_le-total : (s t : Bytes) → bytes_le s t ≡ false → bytes_le t s ≡ true
unfolding bytes_le
bytes_le-total [] t h = cc
bytes_le-total (a ∷ s) [] h = refl
bytes_le-total (a ∷ s) (b ∷ t) h = ground (arith, bytes_le-total s t)

name_le-total : (x y : Text × ExactJson) → name_le x y ≡ false → name_le y x ≡ true
unfolding name_le
name_le-total x y h = bytes_le-total (utf8 x.0) (utf8 y.0) h

sequence-list :
    (h : Heap) (found : Option (List Value)) (path : InputPath) (values : List Value)
    → sequence h found path ≡ ok values
    → found ≡ some values
sequence-list h none path values e = cc
sequence-list h (some xs) path values e = cc

pub plain_object-dict :
    (h : Heap) (v : Value) (path : InputPath) (values : List (Value × Value))
    → plain_object h v path ≡ ok values
    → as_dict h v ≡ some values
unfolding plain_object
plain_object-dict h v path values e =
    let (u, _, r) =
      bind-eq-ok (reject_host_object v path)
        (λ _. elim (as_dict h v) [ none ↦ expected_type path | some es ↦ ok es ]) e in
    elim (Option-cases (as_dict h v)) [
      | inl d ↦ cc (rw d at r)
      | inr (es, d) ↦ let same : es ≡ values = cc (rw d at r) in rw same at d
    ]

After-if :
    {A : Type 0} {P : A → Type 0} (b : Bool) {m n : Exec A}
    → (b ≡ true → After P m)
    → After P n
    → After P (if b then m else n)
After-if true k w = k refl
After-if false k w = w

shift : (index j : ℕ) → index + 1 + j ≡ index + suc j
shift index j = omega arith

index_here : (index : ℕ) → index + 0 ≡ index
index_here index = omega arith

same_length :
    (path : InputPath) (values specs : List Value) {u : Unit {0}}
    → Returns (if length values == length specs then pure tt else raise Reason.tuple_length path) u
    → length values ≡ length specs
same_length path values specs (c, e) = ground arith

lt-suc-cases : (j i : ℕ) → j < i + 1 → (j < i) ⊎ (j ≡ i)
lt-suc-cases j i lt = ground (arith, lt)

same_element : {A : Type 0} {a b : A} → some a ≡ some b → a ≡ b
same_element e = cc

module _ (h : Heap) where
  -- what the recursive calls promise
  abbrev pub IsSound : Encoder → Type 0
  IsSound rec =
      (spec : ℕ) (v : Value) (path : InputPath) → After (Matches h spec v) (rec spec v path)

  -- a failure of the recursive calls after which a union goes on
  abbrev pub Refuses : Encoder → Type 0
  Refuses rec =
      (spec : ℕ) (v : Value) (path : InputPath) (c : Context) (reason : Reason) (at : InputPath)
      → (rec spec v path c).0 ≡ fail (Failure.canonical reason at)
      → is_fatal reason ≡ false
      → Conforms h spec v
      → ⊥

  module _ (rec : Encoder) (sound : IsSound rec) where
    encode_items_sound :
        (item : ℕ) (path : InputPath) (index : ℕ) (vs : List Value)
        → After (MatchesAll h item vs) (encode_items h rec item path index vs)
    unfolding encode_items
    encode_items_sound item path index [] = After-pure _ (MatchesAll.no_items item)
    encode_items_sound item path index (v ∷ vs) = After-bind _ λ t r. After-bind _ λ ts rs.
        After-pure _ (
          MatchesAll.next_item item (returned (sound item v _) r)
            (returned (encode_items_sound item path (index + 1) vs) rs))

    encode_elements_sound :
        (path : InputPath) (index : ℕ) (specs vs : List Value)
        → length vs ≡ length specs
        → After (MatchesEach h specs vs) (encode_elements h rec path index specs vs)
    unfolding encode_elements
    encode_elements_sound path index [] [] e = After-pure _ MatchesEach.no_elements
    encode_elements_sound path index [] (v ∷ vs) e = absurd (omega (arith, e))
    encode_elements_sound path index (raw ∷ specs) [] e = absurd (omega (arith, e))
    encode_elements_sound path index (raw ∷ specs) (v ∷ vs) e = After-bind _ λ spec (_, s).
        After-bind _ λ t r. After-bind _ λ ts rs. After-pure _ (
          MatchesEach.next_element raw spec s (returned (sound spec v _) r)
            (returned (encode_elements_sound path (index + 1) specs vs (omega (arith, e))) rs))

    encode_field_sound :
        (path : InputPath) (values : List (Value × Value)) (f : Field) (fs : List Field)
        (found : Option Value) (others : Exec (List (Text × ExactJson)))
        → get f.name values ≡ found
        → After (MatchesFields h values fs) others
        → After (MatchesFields h values (f ∷ fs)) (encode_field h rec path f found others)
    unfolding encode_field
    encode_field_sound path values f fs none others e w =
        After-if f.optional (λ o. After-map (λ ps m. MatchesFields.absent values f o e m) w)
          (After-raise Reason.missing (path ++ Segment.name f.name ∷ []))
    encode_field_sound path values f fs (some v) others e w = After-bind _ λ t r.
        After-bind _ λ ps rs.
          After-pure _ (
            MatchesFields.present values f v e (returned (sound f.type_spec v _) r) (returned w rs))

    encode_fields_sound :
        (path : InputPath) (values : List (Value × Value)) (fs : List Field)
        → After (MatchesFields h values fs) (encode_fields h rec path values fs)
    unfolding encode_fields
    encode_fields_sound path values [] = After-pure _ (MatchesFields.no_fields values)
    encode_fields_sound path values (f ∷ fs) =
        encode_field_sound path values f fs (get f.name values) (encode_fields h rec path values fs)
          refl (encode_fields_sound path values fs)

    pub encode_array_sound :
        (spec : ℕ) (v : Value) (path : InputPath)
        → kind_of (entry h spec "kind") ≡ Kind.array
        → After (Matches h spec v) (encode_array h rec spec v path)
    unfolding encode_array
    encode_array_sound spec v path k = After-bind _ λ values (_, l). After-bind _ λ _ _.
        After-bind _ λ item (_, i).
          After-with_active (identity v) (Failure.canonical Reason.cycle path) (
            After-bind _ λ ts r. After-pure _ (
              Matches.array spec values item k (sequence-list h (as_list h v) path values l) i
                (returned (encode_items_sound item path 0 values) r)))

    pub encode_tuple_sound :
        (spec : ℕ) (v : Value) (path : InputPath)
        → kind_of (entry h spec "kind") ≡ Kind.tuple
        → After (Matches h spec v) (encode_tuple h rec spec v path)
    unfolding encode_tuple
    encode_tuple_sound spec v path k = After-bind _ λ values (_, l). After-bind _ λ specs (_, s).
        After-bind _ λ _ same.
          After-with_active (identity v) (Failure.canonical Reason.cycle path) (
            After-bind _ λ ts r. After-pure _ (
              Matches.tuple spec values specs k (sequence-list h (as_list h v) path values l) s (
                returned
                  (encode_elements_sound path 0 specs values (same_length path values specs same))
                  r)))

    pub encode_object_sound :
        (spec : ℕ) (v : Value) (path : InputPath)
        → kind_of (entry h spec "kind") ≡ Kind.object
        → After (Matches h spec v) (encode_object h rec spec v path)
    unfolding encode_object
    encode_object_sound spec v path k = After-bind _ λ name (_, n). After-bind _ λ values (_, d).
        After-bind _ λ fields (_, f). After-bind _ λ u (_, known).
          After-with_active (identity v) (Failure.canonical Reason.cycle path) (
            After-bind _ λ ps r. After-pure _ (
              Matches.object spec name values fields ps (sort name_le ps) k n
                (plain_object-dict h v path values d) f
                (check_keys-KnownKeys (names fields) path values u known)
                (returned (encode_fields_sound path values fields) r) (sort-perm name_le ps)
                (sort-IsSorted name_le name_le-total ps)))

    -- the value is of the type of no variant before an index
    abbrev NoneBefore : Value → List Value → ℕ → Type 0
    NoneBefore v all index =
        (j : ℕ) (other : Value)
        → j < index
        → get_elem? all j ≡ some other
        → (variant : ℕ) → schema_mapping h (some other) ≡ ok variant
        → Conforms h variant v
        → ⊥

    one_more :
        (v : Value) (all : List Value) (index variant : ℕ) (raw : Value)
        → NoneBefore v all index
        → get_elem? all index ≡ some raw
        → schema_mapping h (some raw) ≡ ok variant
        → (Conforms h variant v → ⊥)
        → NoneBefore v all (index + 1)
    one_more v all index variant raw before here m refused j other lt e variant' m' c =
        elim (lt-suc-cases j index lt) [
          | inl earlier ↦ before j other earlier e variant' m' c
          | inr same ↦
              let raws : other ≡ raw = same_element (sym e ∙ ap (get_elem? all) same ∙ here) in
              let variants : variant' ≡ variant = cc (m, m', raws) in
              refused (subst (λ x. Conforms h x v) variants c)
        ]

    after_tried_sound :
        (refuses : Refuses rec) (spec : ℕ) (v : Value) (path : InputPath) (all : List Value)
        (index variant : ℕ) (raw : Value) (next : Exec ExactJson)
        → kind_of (entry h spec "kind") ≡ Kind.union
        → schema_sequence h (entry h spec "variants") ≡ ok all
        → get_elem? all index ≡ some raw
        → schema_mapping h (some raw) ≡ ok variant
        → NoneBefore v all index
        → (NoneBefore v all (index + 1) → After (Matches h spec v) next)
        → (c : Context) (r : Result ExactJson) → (rec variant v path c).0 ≡ r
        → Yields
            (Matches h spec v)
            (let tried =
                continue
                  (λ encoded. pure (array (tag "union" ∷ natural index ∷ encoded ∷ [])))
                  r
                  (rec variant v path c).1 in
              or_else next tried.0 tried.1).0
    unfolding or_else
    after_tried_sound refuses spec v path all index variant raw next k s here m before w c (ok t)
          e =
        Matches.union spec all index raw variant k s here m before
          (returned (sound variant v path) (c, e))
    after_tried_sound refuses spec v path all index variant raw next k s here m before w c
          (fail (Failure.canonical reason at)) e =
        elim (Bool-cases (is_fatal reason)) [
          | inl fatal ↦ rw fatal tt
          | inr goes_on ↦
              let unlike = refuses variant v path c reason at e goes_on in
              rw goes_on (
                (w (one_more v all index variant raw before here m unlike)).at
                  (rec variant v path c).1)
        ]
    after_tried_sound refuses spec v path all index variant raw next k s here m before w c
          (fail Failure.type_error) e =
        tt
    after_tried_sound refuses spec v path all index variant raw next k s here m before w c
          (fail Failure.value_error) e =
        tt

    pub encode_variants_sound :
        (refuses : Refuses rec) (spec : ℕ) (v : Value) (path : InputPath) (all : List Value)
        → kind_of (entry h spec "kind") ≡ Kind.union
        → schema_sequence h (entry h spec "variants") ≡ ok all
        → (index : ℕ) (variants : List Value)
        → ((j : ℕ) (raw : Value)
            → get_elem? variants j ≡ some raw
            → get_elem? all (index + j) ≡ some raw)
        → NoneBefore v all index
        → After (Matches h spec v) (encode_variants h rec v path index variants)
    unfolding encode_variants ◌>>=◌
    encode_variants_sound refuses spec v path all k s index [] stands before =
        After-raise Reason.no_union_variant path
    encode_variants_sound refuses spec v path all k s index (raw ∷ rest) stands before =
        After-bind _ λ variant (_, m). record {
          at = λ c.
              after_tried_sound refuses spec v path all index variant raw
                (encode_variants h rec v path (index + 1) rest) k s
                (rw (index_here index) at (stands 0 raw refl)) m before
                (encode_variants_sound refuses spec v path all k s (index + 1) rest
                  (λ j x e. rw (shift index j) (stands (suc j) x e)))
                c (rec variant v path c).0 refl;
        }
