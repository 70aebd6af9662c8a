-- ===== src/StrictJson/Json/Valid.antt =====
-- What the hooks of strict_json.py leave in a value: the finite numbers, the names of the dicts.
use semant_script.Prelude.{ℕ, ◌≡◌, refl, Bool, true, ◌&&◌, Bool-cases, inl, inr}
use semant_script.Python.Text.{Text}
use semant_script.Python.Float.{is_finite}
use semant_script.CanonicalInput.Errors.{ok, Yields, Yields-bind}
use semant_script.StrictJson.Json.{
  Json, Elements, Members, Syntax, Series, Pairs, unique_object, parse_float, parse_integer,
  reject_constant, build, build_series, build_pairs,
}
use semant_script.StrictJson.Json.Unique.{distinct, unique_object_lem}

unfoldable mutual
  unfolding is_finite distinct

  pub is_valid : Json → Bool
  is_valid (Json.number bits) = is_finite bits
  is_valid (Json.list vs) = valid_elements vs
  is_valid (Json.dict ms) = distinct ms && valid_members ms
  is_valid _ = true

  pub valid_elements : Elements → Bool
  valid_elements Elements.no_elements = true
  valid_elements (Elements.element v vs) = is_valid v && valid_elements vs

  pub valid_members : Members → Bool
  valid_members Members.no_members = true
  valid_members (Members.member name v ms) = is_valid v && valid_members ms

abbrev pub Valid : Json → Type 0
Valid v = is_valid v ≡ true

unique_object-Valid : (ms : Members) → valid_members ms ≡ true → Yields Valid (unique_object ms)
unfolding is_valid
unique_object-Valid ms h = elim (Bool-cases (distinct ms)) [
  | inl e ↦ rw (unique_object_lem ms, e) (rw (e, h) refl)
  | inr e ↦ rw (unique_object_lem ms, e) tt
]

and_intro : (a b : Bool) → a ≡ true → b ≡ true → a && b ≡ true
and_intro a b h k = rw (h, k) refl

module _ (float : Text → ℕ) where
  parse_float-Valid : (token : Text) → Yields Valid (parse_float float token)
  unfolding parse_float is_valid
  parse_float-Valid token = elim (Bool-cases (is_finite (float token))) [
    | inl e ↦ rw e e
    | inr e ↦ rw e tt
  ]

  mutual
    unfolding build is_valid parse_integer reject_constant

    pub build-Valid : (x : Syntax) → Yields Valid (build float x)
    build-Valid Syntax.null = refl
    build-Valid (Syntax.boolean b) = refl
    build-Valid (Syntax.integer token) = parse_float-Valid token
    build-Valid (Syntax.real token) = parse_float-Valid token
    build-Valid (Syntax.constant token) = tt
    build-Valid (Syntax.string s) = refl
    build-Valid (Syntax.array xs) =
        Yields-bind Valid (build_series float xs) (λ vs. ok (Json.list vs))
          (λ vs e. rw e at (build_series-valid xs))
    build-Valid (Syntax.object ps) =
        Yields-bind Valid (build_pairs float ps) unique_object
          (λ ms e. unique_object-Valid ms (rw e at (build_pairs-valid ps)))

    build_series-valid :
        (xs : Series) → Yields (λ vs. valid_elements vs ≡ true) (build_series float xs)
    build_series-valid Series.no_items = refl
    build_series-valid (Series.item x xs) = Yields-bind _ (build float x) _ λ v e.
        Yields-bind _ (build_series float xs) _ λ vs d.
          and_intro (is_valid v) (valid_elements vs) (rw e at (build-Valid x))
            (rw d at (build_series-valid xs))

    build_pairs-valid : (ps : Pairs) → Yields (λ ms. valid_members ms ≡ true) (build_pairs float ps)
    build_pairs-valid Pairs.no_pairs = refl
    build_pairs-valid (Pairs.pair name x ps) = Yields-bind _ (build float x) _ λ v e.
        Yields-bind _ (build_pairs float ps) _ λ ms d.
          and_intro (is_valid v) (valid_members ms) (rw e at (build-Valid x))
            (rw d at (build_pairs-valid ps))
