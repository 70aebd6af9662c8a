-- ===== src/CanonicalInput/Matches/Sound.antt =====
-- `_encode_value` and `_encode_envelope` of canonical_input.py against what they promise.
use native.Mathlib.Nat.{zero-add}
use semant_script.Prelude.{
  ℕ, zero, suc, ◌≡◌, refl, sym, subst, List, [], ◌∷◌, arith, Option, none, some,
}
use semant_script.Python.Values.{Value, Heap, get}
use semant_script.CanonicalInput.Errors.{
  Result, ok, InputPath, Segment, Reason, Yields, Yields-bind, Yields-map,
}
use semant_script.CanonicalInput.Exec.{
  Exec, Context, fresh, After, After-bind, After-raise, all_levels, consume_work, lift,
}
use semant_script.CanonicalInput.Tree.{ExactJson, Items}
use semant_script.CanonicalInput.Spec.{
  Kind, kind_of, base_of, entry, schema_sequence, schema_string,
}
use semant_script.CanonicalInput.Leaves.{
  reject_host_object, plain_object, check_keys, encode_enum, encode_literal,
}
use semant_script.CanonicalInput.Schema.{Entry, validate_and_order_schema}
use semant_script.CanonicalInput.Encode.{
  Encoder, encode_kind, encode_union, encode_value, encode_input, encode_inputs, encode_envelope,
  entry_names,
}
use semant_script.CanonicalInput.Matches.{Matches, MatchesInputs, Envelope, HasKind}
use semant_script.CanonicalInput.Conforms.Containers.{encode_value-refuses}
use semant_script.CanonicalInput.Matches.Leaves.{
  encode_null-HasKind, encode_boolean-HasKind, encode_string-HasKind, encode_number-HasKind,
  match_literal-Same, LiteralTree, check_keys-KnownKeys,
}
use semant_script.CanonicalInput.Matches.Members.{encode_member-Member}
use semant_script.CanonicalInput.Matches.Containers.{
  IsSound, Refuses, After-pure, After-lift, returned, encode_array_sound, encode_tuple_sound,
  encode_object_sound, encode_variants_sound, plain_object-dict,
}

module _ (h : Heap) where
  primitive_kind :
      (spec : ℕ) (v : Value) (kind : Kind) (r : Result ExactJson)
      → kind_of (entry h spec "kind") ≡ kind
      → Yields (HasKind kind v) r
      → After (Matches h spec v) (λ c. (r, c))
  primitive_kind spec v kind r k y =
      After-lift r (
        Yields-map (HasKind kind v) (Matches h spec v) r (λ t p. Matches.primitive spec (rw k p)) y)

  encode_literal_sound :
      (spec : ℕ) (v : Value) (path : InputPath)
      → kind_of (entry h spec "kind") ≡ Kind.literal
      → Yields (Matches h spec v) (encode_literal h spec v path)
  unfolding encode_literal
  encode_literal_sound spec v path k =
      Yields-map (LiteralTree (entry h spec "value") v) (Matches h spec v) _
        (λ t (expected, kind, u, e, p, same, tree).
          subst (Matches h spec v) (sym tree) (Matches.literal spec kind expected k e p same))
        (match_literal-Same (entry h spec "value") v path)

  encode_enum_sound :
      (spec : ℕ) (v : Value) (path : InputPath)
      → kind_of (entry h spec "kind") ≡ Kind.enum
      → Yields (Matches h spec v) (encode_enum h spec v path)
  unfolding encode_enum
  encode_enum_sound spec v path k = Yields-bind _ (schema_string (entry h spec "name")) _ λ name n.
      Yields-bind _ (schema_sequence h (entry h spec "values")) _ λ values s.
        Yields-map _ (Matches h spec v) _
          (λ u (i, t, m, tree).
            subst (Matches h spec v) (sym tree) (Matches.enum spec name values i k n s m))
          (encode_member-Member name (base_of (entry h spec "base")) values v path)

  encode_union_sound :
      (rec : Encoder)
      → IsSound h rec
      → Refuses h rec
      → (spec : ℕ) (v : Value) (path : InputPath) → kind_of (entry h spec "kind") ≡ Kind.union
      → After (Matches h spec v) (encode_union h rec spec v path)
  unfolding encode_union
  encode_union_sound rec sound refuses spec v path k = After-bind _ λ variants (_, s).
      encode_variants_sound h rec sound refuses spec v path variants k s 0 variants
        (λ j raw e. rw zero-add e) (λ j other lt e variant m c. absurd (omega (arith, lt)))

  encode_kind_sound :
      (rec : Encoder)
      → IsSound h rec
      → Refuses h rec
      → (kind : Kind) (spec : ℕ) (v : Value) (path : InputPath)
      → kind_of (entry h spec "kind") ≡ kind
      → After (Matches h spec v) (encode_kind h rec kind spec v path)
  unfolding encode_kind
  encode_kind_sound rec s refuses Kind.null spec v path k =
      primitive_kind spec v Kind.null _ k (encode_null-HasKind v path)
  encode_kind_sound rec s refuses Kind.boolean spec v path k =
      primitive_kind spec v Kind.boolean _ k (encode_boolean-HasKind v path)
  encode_kind_sound rec s refuses Kind.string spec v path k =
      primitive_kind spec v Kind.string _ k (encode_string-HasKind v path)
  encode_kind_sound rec s refuses Kind.number spec v path k =
      primitive_kind spec v Kind.number _ k (encode_number-HasKind v path)
  encode_kind_sound rec s refuses Kind.literal spec v path k =
      After-lift _ (encode_literal_sound spec v path k)
  encode_kind_sound rec s refuses Kind.enum spec v path k =
      After-lift _ (encode_enum_sound spec v path k)
  encode_kind_sound rec s refuses Kind.array spec v path k =
      encode_array_sound h rec s spec v path k
  encode_kind_sound rec s refuses Kind.tuple spec v path k =
      encode_tuple_sound h rec s spec v path k
  encode_kind_sound rec s refuses Kind.object spec v path k =
      encode_object_sound h rec s spec v path k
  encode_kind_sound rec s refuses Kind.union spec v path k =
      encode_union_sound rec s refuses spec v path k
  encode_kind_sound rec s refuses Kind.unsupported spec v path k = After-lift _ tt

  encode_value-IsSound : (levels : ℕ) → IsSound h (encode_value h levels)
  unfolding encode_value
  encode_value-IsSound zero spec v path = After-raise Reason.limit path
  encode_value-IsSound (suc levels) spec v path = After-bind (consume_work path) λ _ _.
      After-bind (lift (reject_host_object v path)) λ _ _.
        encode_kind_sound (encode_value h levels) (encode_value-IsSound levels)
          (encode_value-refuses h levels) (kind_of (entry h spec "kind")) spec v path refl

  -- A tree that `_encode_value` returns is a canonical one of the value for the spec, with the
  -- lowest variant of each union that the value is of the type of, whatever the depth, the path and
  -- what was done before.
  pub encode_value-Matches :
      (levels spec : ℕ) (v : Value) (path : InputPath) (c : Context) (t : ExactJson)
      → (encode_value h levels spec v path c).0 ≡ ok t
      → Matches h spec v t
  encode_value-Matches levels spec v path c t e =
      returned (encode_value-IsSound levels spec v path) (c, e)

  encode_input_sound :
      (values : List (Value × Value)) (e : Entry) (es : List Entry) (found : Option Value)
      (others : Exec Items)
      → get e.name values ≡ found
      → After (MatchesInputs h values es) others
      → After (MatchesInputs h values (e ∷ es)) (encode_input h e found others)
  unfolding encode_input
  encode_input_sound values e es none others g w =
      After-raise Reason.missing (Segment.name e.name ∷ [])
  encode_input_sound values e es (some v) others g w =
      After-bind (encode_value h all_levels e.type_spec v (Segment.name e.name ∷ [])) λ t r.
        After-bind others λ ts rs. After-pure _ (
          MatchesInputs.input values e v g
            (returned (encode_value-IsSound all_levels e.type_spec v _) r) (returned w rs))

  encode_inputs_sound :
      (values : List (Value × Value)) (es : List Entry)
      → After (MatchesInputs h values es) (encode_inputs h values es)
  unfolding encode_inputs
  encode_inputs_sound values [] = After-pure _ (MatchesInputs.no_inputs values)
  encode_inputs_sound values (e ∷ es) =
      encode_input_sound values e es (get e.name values) (encode_inputs h values es) refl
        (encode_inputs_sound values es)

  -- An envelope that is returned is a canonical tree of the inputs: the schema was accepted, the
  -- record has no other keys than the names of its entries, and the value of each entry has a tree
  -- that its type describes, with the lowest variant of each union that the value conforms to.
  pub encode_envelope-Envelope :
      (schema inputs : Value) → Yields (Envelope h schema inputs) (encode_envelope h schema inputs)
  unfolding encode_envelope
  encode_envelope-Envelope schema inputs =
      Yields-bind _ (validate_and_order_schema h schema) _ λ ordered o.
        Yields-bind _ (plain_object h inputs []) _ λ values p.
          Yields-bind _ (check_keys (entry_names h ordered) [] values) _ λ u k.
            Yields-bind _ (encode_inputs h values ordered fresh).0 _ λ pairs e. record {
              ordered = ordered;
              values = values;
              pairs = pairs;
              accepted = o;
              record_of = plain_object-dict h inputs [] values p;
              known = check_keys-KnownKeys (entry_names h ordered) [] values u k;
              matched = returned (encode_inputs_sound values ordered) (fresh, e);
              tree = refl;
            }
