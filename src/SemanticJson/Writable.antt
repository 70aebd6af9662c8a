-- ===== src/SemanticJson/Writable.antt =====
-- Surrogates in the typed nodes of semantic_json.py.
use semant_script.Prelude.{
  ℕ, ◌≡◌, refl, ◌∙◌, Bool, true, false, List, [], ◌∷◌, map, ◌&&◌, Bool-cases, inl, inr, arith,
  Option, none, some,
}
use semant_script.Prelude.Sort.{insert, sort}
use semant_script.Python.Text.{Text, has_surrogate}
use semant_script.Python.Float.{is_finite, float_of_int}
use semant_script.CanonicalInput.Errors.{Result, ok, Yields, Yields-bind}
use semant_script.CanonicalInput.Tree.{ExactJson, items, array, tag}
use semant_script.CanonicalInput.Encode.{name_le, pair}
use semant_script.CanonicalInput.JsonText.{is_writable, are_writable}
use semant_script.SemanticJson.Node.{
  Json, Elements, Members, assert_unicode_scalar_string, int_to_binary64_hex, float_to_binary64_hex,
  finite_hex, number_node, object_node, add_entry, to_typed_node, typed_elements, typed_members,
}
use semant_script.SemanticJson.Scalar.{Writable, and_intro, hex_scalar}

-- The entries of a dict, each a name and a node.
abbrev entries_writable : List (Text × ExactJson) → Bool
entries_writable [] = true
entries_writable (p ∷ ps) = is_writable (pair p) && entries_writable ps

insert-writable :
    (p : Text × ExactJson) (ps : List (Text × ExactJson))
    → entries_writable (insert name_le p ps) ≡ is_writable (pair p) && entries_writable ps
unfolding insert
insert-writable p [] = refl
insert-writable p (q ∷ qs) = elim (Bool-cases (name_le p q)) [
  | inl e ↦ rw e refl
  | inr e ↦ rw e (ground (arith, insert-writable p qs))
]

sort-writable :
    (ps : List (Text × ExactJson)) → entries_writable (sort name_le ps) ≡ entries_writable ps
unfolding sort
sort-writable [] = refl
sort-writable (p ∷ ps) = insert-writable p (sort name_le ps) ∙ rw (sort-writable ps) refl

are_writable-pairs :
    (ps : List (Text × ExactJson)) → are_writable (items (map pair ps)) ≡ entries_writable ps
unfolding is_writable
are_writable-pairs [] = refl
are_writable-pairs (p ∷ ps) = rw (are_writable-pairs ps) refl

object_node-Writable :
    (ps : List (Text × ExactJson)) → entries_writable ps ≡ true → Writable (object_node ps)
unfolding object_node is_writable has_surrogate
object_node-Writable ps h = rw (are_writable-pairs (sort name_le ps), sort-writable ps, h) refl

number_node-Writable :
    (digits : Text) → has_surrogate digits ≡ false → Writable (number_node digits)
unfolding is_writable has_surrogate
number_node-Writable digits h = rw h refl

finite_hex_scalar : (found : Option ℕ) → Yields (λ s. has_surrogate s ≡ false) (finite_hex found)
finite_hex_scalar none = tt
finite_hex_scalar (some bits) = elim (Bool-cases (is_finite bits)) [
  | inl e ↦ rw e (hex_scalar 16 bits)
  | inr e ↦ rw e tt
]

assert_unicode-scalar :
    (s : Text) (u : Unit {0}) → assert_unicode_scalar_string s ≡ ok u → has_surrogate s ≡ false
unfolding assert_unicode_scalar_string
assert_unicode-scalar s u h = ground arith

string_node-Writable :
    (s : Text) → has_surrogate s ≡ false → Writable (array (tag "string" ∷ ExactJson.string s ∷ []))
unfolding is_writable has_surrogate
string_node-Writable s h = rw h refl

pair-Writable :
    (name : Text) (t : ExactJson)
    → has_surrogate name ≡ false
    → Writable t
    → Writable (pair (name, t))
unfolding is_writable
pair-Writable name t h w = rw (h, w) refl

abbrev EntriesWritable : Result (List (Text × ExactJson)) → Type 0
EntriesWritable = Yields (λ ps. entries_writable ps ≡ true)

add_entry-Writable :
    (name : Json) (node : Result ExactJson) (rest : Result (List (Text × ExactJson)))
    → Yields Writable node
    → EntriesWritable rest
    → EntriesWritable (add_entry name node rest)
unfolding add_entry
add_entry-Writable (Json.string name) node rest w ws =
    Yields-bind _ (assert_unicode_scalar_string name) _ λ u e. Yields-bind _ node _ λ t d.
      Yields-bind _ rest _ λ ps f.
        and_intro (pair-Writable name t (assert_unicode-scalar name u e) (rw (d, Yields) at w))
          (rw (f, Yields) at ws)
add_entry-Writable name node rest w ws = tt

mutual
  unfolding to_typed_node is_writable has_surrogate int_to_binary64_hex float_to_binary64_hex

  pub to_typed_node-Writable : (v : Json) → Yields Writable (to_typed_node v)
  to_typed_node-Writable Json.null = refl
  to_typed_node-Writable (Json.boolean b) = refl
  to_typed_node-Writable (Json.int n) = Yields-bind Writable (int_to_binary64_hex n) _ λ digits e.
      number_node-Writable digits (rw (e, Yields) at (finite_hex_scalar (float_of_int n)))
  to_typed_node-Writable (Json.float bits) =
      Yields-bind Writable (float_to_binary64_hex bits) _
        λ digits e. number_node-Writable digits (rw (e, Yields) at (finite_hex_scalar (some bits)))
  to_typed_node-Writable (Json.string s) =
      Yields-bind Writable (assert_unicode_scalar_string s) _
        λ u e. string_node-Writable s (assert_unicode-scalar s u e)
  to_typed_node-Writable (Json.list vs) =
      Yields-bind Writable (typed_elements vs) _
        λ ts e. rw (rw (e, Yields) at (typed_elements-Writable vs)) refl
  to_typed_node-Writable (Json.dict ms) =
      Yields-bind Writable (typed_members ms) _
        λ ps e. object_node-Writable ps (rw (e, Yields) at (typed_members-Writable ms))
  to_typed_node-Writable Json.other = tt

  typed_elements-Writable :
      (vs : Elements) → Yields (λ ts. are_writable ts ≡ true) (typed_elements vs)
  typed_elements-Writable Elements.no_elements = refl
  typed_elements-Writable (Elements.element v vs) = Yields-bind _ (to_typed_node v) _ λ t e.
      Yields-bind _ (typed_elements vs) _ λ ts d.
        and_intro (rw (e, Yields) at (to_typed_node-Writable v))
          (rw (d, Yields) at (typed_elements-Writable vs))

  typed_members-Writable : (ms : Members) → EntriesWritable (typed_members ms)
  typed_members-Writable Members.no_members = refl
  typed_members-Writable (Members.member name v ms) =
      add_entry-Writable name (to_typed_node v) (typed_members ms) (to_typed_node-Writable v)
        (typed_members-Writable ms)
