-- ===== src/CanonicalInput/Errors.antt =====
-- The errors of canonical_input.py as values. Of a CanonicalInputError the reason and the path are
-- kept, and not the message.
use semant_script.Prelude.{ℕ, ◌≡◌, refl, Bool, true, false, List, [], ◌∷◌}
use semant_script.Python.Text.{Text, codes}

-- `InputErrorReason`. Some of these only the TypeScript runtime gives.
pub data Reason : Type 0 where
  accessor array_property class_instance cycle extra invalid_unicode limit missing : Reason
  no_union_variant non_finite promise proxy schema sparse_array symbol_key tuple_length : Reason
  type value : Reason

-- `_FATAL_REASONS`: a union does not try its next variant after one of these.
unfoldable pub is_fatal : Reason → Bool
is_fatal Reason.accessor = true
is_fatal Reason.array_property = true
is_fatal Reason.class_instance = true
is_fatal Reason.cycle = true
is_fatal Reason.invalid_unicode = true
is_fatal Reason.limit = true
is_fatal Reason.non_finite = true
is_fatal Reason.promise = true
is_fatal Reason.proxy = true
is_fatal Reason.sparse_array = true
is_fatal Reason.symbol_key = true
is_fatal _ = false

pub data Segment : Type 0 where
  name : Text → Segment
  index : ℕ → Segment

abbrev pub InputPath : Type 0
InputPath = List Segment

abbrev pub schema_path : InputPath
schema_path = Segment.name (codes "$schema") ∷ []

-- `type_error` and `value_error` are plain TypeError and ValueError.
pub data Failure : Type 0 where
  canonical : Reason → InputPath → Failure
  type_error value_error : Failure

pub data Result (A : Type 0) : Type 0 where
  ok : A → Result A
  fail : Failure → Result A

abbrev pub bind : {A B : Type 0} → Result A → (A → Result B) → Result B
bind (Result.ok a) f = f a
bind (Result.fail e) f = Result.fail e

abbrev pub schema_failure : {A : Type 0} → Result A
schema_failure = Result.fail (Failure.canonical Reason.schema schema_path)

abbrev pub expected_type : {A : Type 0} → InputPath → Result A
expected_type path = Result.fail (Failure.canonical Reason.type path)

-- `P` holds of the result, if there is one.
abbrev pub Yields : {A : Type 0} → (A → Type 0) → Result A → Type 0
Yields P (Result.ok a) = P a
Yields P (Result.fail e) = Unit

pub Yields-bind :
    {A B : Type 0} (P : B → Type 0) (m : Result A) (f : A → Result B)
    → ((a : A) → m ≡ Result.ok a → Yields P (f a))
    → Yields P (bind m f)
Yields-bind P (Result.ok a) f k = k a refl
Yields-bind P (Result.fail e) f k = tt

-- A result of two steps had a result of the first.
pub bind-eq-ok :
    {A B : Type 0} (m : Result A) (f : A → Result B) {b : B}
    → bind m f ≡ Result.ok b
    → (a : A) × (m ≡ Result.ok a) × (f a ≡ Result.ok b)
bind-eq-ok (Result.ok a) f e = (a, refl, e)
bind-eq-ok (Result.fail x) f e = cc

pub Yields-map :
    {A : Type 0} (P Q : A → Type 0) (r : Result A) → ((a : A) → P a → Q a) → Yields P r → Yields Q r
Yields-map P Q (Result.ok a) k y = k a y
Yields-map P Q (Result.fail e) k y = tt
