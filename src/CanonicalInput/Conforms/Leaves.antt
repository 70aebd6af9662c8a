-- ===== src/CanonicalInput/Conforms/Leaves.antt =====
-- `_encode_value` of canonical_input.py on primitives and literals: what its refusals deny.
use semant_script.Prelude.{
  ℕ, ◌≡◌, refl, subst, Bool, true, false, Bool-cases, inl, inr, List, [], ◌∷◌, ◌++◌, Option, none,
  some, if◌then◌else◌,
}
use semant_script.Python.Text.{Text, has_surrogate, text_mem, text_eq_refl}
use semant_script.Python.Digits.{hex}
use semant_script.Python.Float.{is_finite, float_of_int}
use semant_script.Python.Values.{Value}
use semant_script.CanonicalInput.Errors.{
  ok, fail, bind, Failure, Reason, Segment, InputPath, is_fatal, schema_path,
}
use semant_script.CanonicalInput.Tree.{ExactJson}
use semant_script.CanonicalInput.Numbers.{
  is_number, number_hex, finite_float, require_finite, encode_number, encode_primitive,
  require_unicode, same_primitive,
}
use semant_script.CanonicalInput.Spec.{Kind}
use semant_script.CanonicalInput.Leaves.{
  check_keys, encode_null, encode_boolean, encode_string, match_literal,
}
use semant_script.CanonicalInput.Primitives.{
  finite_text, number_text, typed, HasKind, SameLiteral, KnownKeys,
}
use semant_script.CanonicalInput.Conforms.Denies.{Refutes, Refutes-map, Refutes-bind, Refutes-ok}

pub require_unicode-Refutes :
    (Q : Type 0) (s : Text) (path : InputPath) → Refutes Q (require_unicode s path)
unfolding require_unicode is_fatal
require_unicode-Refutes Q s path = elim (Bool-cases (has_surrogate s)) [
  | inl e ↦ rw e (λ goes_on q. cc goes_on)
  | inr e ↦ rw e tt
]

require_finite-Refutes :
    (Q : Type 0) (path : InputPath) (found : Option ℕ) → Refutes Q (require_finite path false found)
unfolding is_fatal
require_finite-Refutes Q path none = λ goes_on q. cc goes_on
require_finite-Refutes Q path (some bits) = elim (Bool-cases (is_finite bits)) [
  | inl e ↦ rw e tt
  | inr e ↦ rw e (λ goes_on q. cc goes_on)
]

-- A number that is refused is not finite, after which no union goes on.
pub number_hex-Refutes :
    (Q : Type 0) (v : Value) (path : InputPath)
    → (Q → is_number v ≡ true)
    → Refutes Q (number_hex v path)
unfolding number_hex finite_float is_number
number_hex-Refutes Q (Value.int n) path k =
    Refutes-bind _ _ (λ bits. ok (hex 16 bits)) (require_finite-Refutes _ path (float_of_int n))
      (λ b e. tt)
number_hex-Refutes Q (Value.float bits) path k =
    Refutes-bind _ _ (λ bits. ok (hex 16 bits)) (require_finite-Refutes _ path (some bits))
      (λ b e. tt)
number_hex-Refutes Q v path k = λ goes_on q. cc (k q)

pub number_text-is_number : (v : Value) (s : Text) → number_text v ≡ some s → is_number v ≡ true
unfolding number_text is_number
number_text-is_number (Value.int n) s e = refl
number_text-is_number (Value.float b) s e = refl
number_text-is_number v s e = cc

require_finite-hex :
    (path : InputPath) (found : Option ℕ) (s : Text)
    → finite_text found ≡ some s
    → bind (require_finite path false found) (λ bits. ok (hex 16 bits)) ≡ ok s
require_finite-hex path none s e = cc
require_finite-hex path (some bits) s e = elim (Bool-cases (is_finite bits)) [
  | inl f ↦ let same : hex 16 bits ≡ s = cc (rw f at e) in rw (f, same) refl
  | inr f ↦ absurd (cc (rw f at e))
]

pub number_text-hex :
    (v : Value) (path : InputPath) (s : Text) → number_text v ≡ some s → number_hex v path ≡ ok s
unfolding number_text number_hex finite_float
number_text-hex (Value.int n) path s e = require_finite-hex path (float_of_int n) s e
number_text-hex (Value.float b) path s e = require_finite-hex path (some b) s e
number_text-hex v path s e = cc

null-value : (v : Value) (t : ExactJson) → HasKind Kind.null v t → v ≡ Value.null
null-value _ _ HasKind.null = refl

boolean-value :
    (v : Value) (t : ExactJson) → HasKind Kind.boolean v t → (b : Bool) × (v ≡ Value.boolean b)
boolean-value _ _ (HasKind.boolean b) = (b, refl)

string-value :
    (v : Value) (t : ExactJson) → HasKind Kind.string v t → (s : Text) × (v ≡ Value.string s)
string-value _ _ (HasKind.string s e) = (s, refl)

pub number-value :
    (v : Value) (t : ExactJson) → HasKind Kind.number v t → (s : Text) × (number_text v ≡ some s)
number-value _ _ (HasKind.number v s e) = (s, e)

pub encode_null-Refutes :
    (v : Value) (path : InputPath)
    → Refutes ((t : ExactJson) × HasKind Kind.null v t) (encode_null v path)
unfolding encode_null
encode_null-Refutes Value.null path = tt
encode_null-Refutes v path = λ goes_on (t, k). cc (null-value v t k)

pub encode_boolean-Refutes :
    (v : Value) (path : InputPath)
    → Refutes ((t : ExactJson) × HasKind Kind.boolean v t) (encode_boolean v path)
unfolding encode_boolean
encode_boolean-Refutes (Value.boolean b) path = tt
encode_boolean-Refutes v path = λ goes_on (t, k). cc (boolean-value v t k).1

pub encode_string-Refutes :
    (v : Value) (path : InputPath)
    → Refutes ((t : ExactJson) × HasKind Kind.string v t) (encode_string v path)
unfolding encode_string
encode_string-Refutes (Value.string s) path =
    Refutes-bind _ (require_unicode s path) _ (require_unicode-Refutes _ s path) (λ u e. tt)
encode_string-Refutes v path = λ goes_on (t, k). cc (string-value v t k).1

pub encode_number-Refutes :
    (Q : Type 0) (v : Value) (path : InputPath)
    → (Q → is_number v ≡ true)
    → Refutes Q (encode_number v path)
unfolding encode_number
encode_number-Refutes Q v path k =
    Refutes-bind _ (number_hex v path) _ (number_hex-Refutes _ v path k) (λ s e. tt)

abbrev pub IsPrimitive : Kind → Type 0
IsPrimitive Kind.null = Unit
IsPrimitive Kind.boolean = Unit
IsPrimitive Kind.string = Unit
IsPrimitive Kind.number = Unit
IsPrimitive _ = ⊥

pub HasKind-IsPrimitive :
    (kind : Kind) (v : Value) (t : ExactJson) → HasKind kind v t → IsPrimitive kind
HasKind-IsPrimitive _ _ _ HasKind.null = tt
HasKind-IsPrimitive _ _ _ (HasKind.boolean b) = tt
HasKind-IsPrimitive _ _ _ (HasKind.string s e) = tt
HasKind-IsPrimitive _ _ _ (HasKind.number v s e) = tt

abbrev IsScalar : Value → Type 0
IsScalar Value.null = Unit
IsScalar (Value.boolean b) = Unit
IsScalar (Value.string s) = Unit
IsScalar (Value.int n) = Unit
IsScalar (Value.float b) = Unit
IsScalar _ = ⊥

number_text-IsScalar : (v : Value) (s : Text) → number_text v ≡ some s → IsScalar v
unfolding number_text
number_text-IsScalar (Value.int n) s e = tt
number_text-IsScalar (Value.float b) s e = tt
number_text-IsScalar v s e = cc

HasKind-IsScalar : (kind : Kind) (v : Value) (t : ExactJson) → HasKind kind v t → IsScalar v
HasKind-IsScalar _ _ _ HasKind.null = tt
HasKind-IsScalar _ _ _ (HasKind.boolean b) = tt
HasKind-IsScalar _ _ _ (HasKind.string s e) = tt
HasKind-IsScalar _ _ _ (HasKind.number v s e) = number_text-IsScalar v s e

-- a value of some primitive kind
abbrev pub Primitive : Value → Type 0
Primitive v = (kind : Kind) × (t : ExactJson) × HasKind kind v t

encode_primitive-Refutes :
    (v : Value) (path : InputPath) → Refutes (Primitive v) (encode_primitive v path)
unfolding encode_primitive is_number
encode_primitive-Refutes Value.null path = tt
encode_primitive-Refutes (Value.boolean b) path = tt
encode_primitive-Refutes (Value.string s) path =
    Refutes-bind _ (require_unicode s path) _ (require_unicode-Refutes _ s path) (λ u e. tt)
encode_primitive-Refutes (Value.int n) path = encode_number-Refutes _ (Value.int n) path (λ q. refl)
encode_primitive-Refutes (Value.float b) path =
    encode_number-Refutes _ (Value.float b) path (λ q. refl)
encode_primitive-Refutes v path = λ goes_on (kind, t, k). HasKind-IsScalar kind v t k

same_primitive_complete :
    (v expected : Value) → SameLiteral v expected → same_primitive v expected ≡ ok true
unfolding same_primitive
same_primitive_complete v expected (SameLiteral.number s p q) =
    rw
      (
        number_text-is_number v s p,
        number_text-is_number expected s q,
        number_text-hex v [] s p,
        number_text-hex expected schema_path s q,
        text_eq_refl s,
      )
      refl
same_primitive_complete v expected (SameLiteral.other n e) = rw (n, e) refl

value_of_some : {A : Type 0} {a b : A} → some a ≡ some b → b ≡ a
value_of_some e = cc

pub match_literal-Refutes :
    (found : Option Value) (v : Value) (path : InputPath)
    → Refutes
        ((kind : Kind) × (t : ExactJson) × (expected : Value) × (found ≡ some expected)
          × HasKind kind v t
          × SameLiteral v expected)
        (match_literal found v path)
unfolding match_literal
match_literal-Refutes none v path = λ goes_on (_, _, _, e, _, _). cc e
match_literal-Refutes (some expected) v path =
    Refutes-bind _ (encode_primitive v path) _
      (Refutes-map _ _ (encode_primitive v path) (λ (kind, t, _, _, k, _). (kind, t, k))
        (encode_primitive-Refutes v path))
      λ u _.
        Refutes-bind _ (same_primitive v expected) _
          (Refutes-ok _ (same_primitive v expected) λ q. (true, complete q))
          λ same f. compared u same f
  where
    complete :
        (kind : Kind) × (t : ExactJson) × (x : Value) × (some expected ≡ some x)
          × HasKind kind v t
          × SameLiteral v x
        → same_primitive v expected ≡ ok true
    complete (_, _, x, e, _, s) =
        same_primitive_complete v expected (subst (SameLiteral v) (value_of_some e) s)

    compared :
        (u : ExactJson) (same : Bool)
        → same_primitive v expected ≡ ok same
        → Refutes
            ((kind : Kind) × (t : ExactJson) × (x : Value) × (some expected ≡ some x)
              × HasKind kind v t
              × SameLiteral v x)
            (if same
              then ok (typed "literal" (u ∷ []))
              else fail (Failure.canonical Reason.value path))
    compared u true f = tt
    compared u false f = λ goes_on q. cc (f, complete q)

pub check_keys-Refutes :
    (known : List Text) (path : InputPath) (values : List (Value × Value))
    → Refutes (KnownKeys known values) (check_keys known path values)
unfolding check_keys
check_keys-Refutes known path [] = tt
check_keys-Refutes known path ((Value.string key, v) ∷ rest) =
    Refutes-bind _ (require_unicode key (path ++ Segment.name key ∷ [])) _
      (require_unicode-Refutes _ key _)
      λ u _. elim (Bool-cases (text_mem key known)) [
        | inl m ↦ rw m (
            Refutes-map _ _ (check_keys known path rest) (λ q. q.1)
              (check_keys-Refutes known path rest))
        | inr m ↦ rw m (λ goes_on ((s, same, _, found), _). cc (m, same, found))
      ]
check_keys-Refutes known path ((_, v) ∷ rest) = λ goes_on ((s, e, _, _), _). cc e
