-- ===== src/CanonicalInput/Matches/Leaves.antt =====
-- The parts of `_encode_value` in canonical_input.py that do not descend, against what they promise.
use semant_script.Prelude.{
  ℕ, ◌++◌, ◌≡◌, refl, Bool, true, false, List, [], ◌∷◌, Option, none, some, arith, if◌then◌else◌,
  sym, subst, Bool-cases, inl, inr,
}
use semant_script.Python.Text.{Text, has_surrogate, text_eq, text_mem, text_eq→eq}
use semant_script.Python.Digits.{hex}
use semant_script.Python.Float.{is_finite, float_of_int}
use semant_script.Python.Values.{Value}
use semant_script.CanonicalInput.Errors.{
  ok, fail, bind, InputPath, Yields, Yields-bind, Failure, Reason, Segment, bind-eq-ok, Yields-map,
  schema_path,
}
use semant_script.CanonicalInput.Tree.{ExactJson}
use semant_script.CanonicalInput.Numbers.{
  is_number, number_hex, finite_float, require_finite, encode_number, encode_primitive,
  same_primitive, require_unicode,
}
use semant_script.CanonicalInput.Spec.{Kind}
use semant_script.CanonicalInput.Leaves.{
  check_keys, encode_null, encode_boolean, encode_string, match_literal,
}
use semant_script.CanonicalInput.Matches.{
  finite_text, number_text, typed, HasKind, SameLiteral, KnownKeys,
}

pub require_unicode-scalar :
    (s : Text) (path : InputPath) (u : Unit {0})
    → require_unicode s path ≡ ok u
    → has_surrogate s ≡ false
unfolding require_unicode
require_unicode-scalar s path u h = ground arith

require_finite-text :
    (path : InputPath) (found : Option ℕ) (bits : ℕ)
    → require_finite path false found ≡ ok bits
    → finite_text found ≡ some (hex 16 bits)
require_finite-text path none bits h = cc
require_finite-text path (some b) bits h = elim (Bool-cases (is_finite b)) [
  | inl e ↦ let same : b ≡ bits = cc (rw e at h) in rw (e, same)
  | inr e ↦ cc (rw e at h)
]

finite_float-text :
    (v : Value) (path : InputPath) (bits : ℕ)
    → finite_float v path false ≡ ok bits
    → number_text v ≡ some (hex 16 bits)
unfolding finite_float number_text
finite_float-text (Value.int n) path bits h = require_finite-text path (float_of_int n) bits h
finite_float-text (Value.float b) path bits h = require_finite-text path (some b) bits h
finite_float-text v path bits h = cc

-- The digits that `_number_hex` returns are those of the number.
pub number_hex-text :
    (v : Value) (path : InputPath) (s : Text) → number_hex v path ≡ ok s → number_text v ≡ some s
unfolding number_hex
number_hex-text v path s h =
    let (bits, e, r) = bind-eq-ok (finite_float v path false) (λ bits. ok (hex 16 bits)) h in
    let same : hex 16 bits ≡ s = cc r in rw same at (finite_float-text v path bits e)

pub encode_null-HasKind :
    (v : Value) (path : InputPath) → Yields (HasKind Kind.null v) (encode_null v path)
unfolding encode_null
encode_null-HasKind Value.null path = HasKind.null
encode_null-HasKind v path = tt

pub encode_boolean-HasKind :
    (v : Value) (path : InputPath) → Yields (HasKind Kind.boolean v) (encode_boolean v path)
unfolding encode_boolean
encode_boolean-HasKind (Value.boolean b) path = HasKind.boolean b
encode_boolean-HasKind v path = tt

pub encode_string-HasKind :
    (v : Value) (path : InputPath) → Yields (HasKind Kind.string v) (encode_string v path)
unfolding encode_string
encode_string-HasKind (Value.string s) path =
    Yields-bind _ (require_unicode s path) _
      λ u e. HasKind.string s (require_unicode-scalar s path u e)
encode_string-HasKind v path = tt

pub encode_number-HasKind :
    (v : Value) (path : InputPath) → Yields (HasKind Kind.number v) (encode_number v path)
unfolding encode_number
encode_number-HasKind v path =
    Yields-bind _ (number_hex v path) _ λ s e. HasKind.number v s (number_hex-text v path s e)

pub encode_primitive-HasKind :
    (v : Value) (path : InputPath)
    → Yields (λ t. (kind : Kind) × HasKind kind v t) (encode_primitive v path)
unfolding encode_primitive
encode_primitive-HasKind Value.null path = (Kind.null, HasKind.null)
encode_primitive-HasKind (Value.boolean b) path = (Kind.boolean, HasKind.boolean b)
encode_primitive-HasKind (Value.string s) path =
    Yields-bind _ (require_unicode s path) _
      λ u e. (Kind.string, HasKind.string s (require_unicode-scalar s path u e))
encode_primitive-HasKind (Value.int n) path =
    Yields-map _ _ (encode_number (Value.int n) path) (λ t k. (Kind.number, k))
      (encode_number-HasKind (Value.int n) path)
encode_primitive-HasKind (Value.float b) path =
    Yields-map _ _ (encode_number (Value.float b) path) (λ t k. (Kind.number, k))
      (encode_number-HasKind (Value.float b) path)
encode_primitive-HasKind v path = tt

same_number :
    (v expected : Value) (a b : Text)
    → number_hex v [] ≡ ok a
    → number_hex expected schema_path ≡ ok b
    → text_eq a b ≡ true
    → SameLiteral v expected
same_number v expected a b x y e =
    SameLiteral.number a (number_hex-text v [] a x)
      (rw (sym (text_eq→eq a b e)) at (number_hex-text expected schema_path b y))

pub same_primitive-SameLiteral :
    (v expected : Value) → same_primitive v expected ≡ ok true → SameLiteral v expected
unfolding same_primitive
same_primitive-SameLiteral v expected h = elim (Bool-cases (is_number expected)) [
  | inr e ↦ SameLiteral.other e (cc (rw e at h))
  | inl e ↦ elim (Bool-cases (is_number v)) [
    | inr d ↦ cc (rw (e, d) at h)
    | inl d ↦
        let (a, x, r) =
          bind-eq-ok (number_hex v [])
            (λ a. bind (number_hex expected schema_path) λ b. ok (text_eq a b)) (rw (e, d) at h) in
        let (b, y, q) = bind-eq-ok (number_hex expected schema_path) (λ b. ok (text_eq a b)) r in
        same_number v expected a b x y (cc q)
  ]
]

-- A literal's tree, for its value.
abbrev pub LiteralTree : Option Value → Value → ExactJson → Type 0
LiteralTree found v t =
    (expected : Value) × (kind : Kind) × (u : ExactJson) × (found ≡ some expected)
    × HasKind kind v u
    × SameLiteral v expected
    × (t ≡ typed "literal" (u ∷ []))

pub match_literal-Same :
    (found : Option Value) (v : Value) (path : InputPath)
    → Yields (LiteralTree found v) (match_literal found v path)
unfolding match_literal
match_literal-Same none v path = tt
match_literal-Same (some expected) v path = Yields-bind _ (encode_primitive v path) _ λ u e.
    Yields-bind _ (same_primitive v expected) _ λ same q.
      compared u same q
        (subst (Yields (λ t. (kind : Kind) × HasKind kind v t)) e (encode_primitive-HasKind v path))
  where
    compared :
        (u : ExactJson) (same : Bool)
        → same_primitive v expected ≡ ok same
        → (kind : Kind) × HasKind kind v u
        → Yields (LiteralTree (some expected) v) (
            if same
            then ok (typed "literal" (u ∷ []))
            else fail (Failure.canonical Reason.value path))
    compared u false q k = tt
    compared u true q (kind, k) =
        (expected, kind, u, refl, k, same_primitive-SameLiteral v expected q, refl)

pub check_keys-KnownKeys :
    (known : List Text) (path : InputPath) (values : List (Value × Value)) (u : Unit {0})
    → check_keys known path values ≡ ok u
    → KnownKeys known values
unfolding check_keys
check_keys-KnownKeys known path [] u h = tt
check_keys-KnownKeys known path ((Value.string key, v) ∷ rest) u h =
    let (a, e, r) =
      bind-eq-ok (require_unicode key (path ++ Segment.name key ∷ []))
        (λ _.
          if text_mem key known
          then check_keys known path rest
          else fail (Failure.canonical Reason.extra (path ++ Segment.name key ∷ [])))
        h in
    elim (Bool-cases (text_mem key known)) [
      | inl m ↦ (
        (key, refl, require_unicode-scalar key _ a e, m),
        check_keys-KnownKeys known path rest u (rw m at r),
      )
      | inr m ↦ cc (rw m at r)
    ]
check_keys-KnownKeys known path ((_, v) ∷ rest) u h = cc
