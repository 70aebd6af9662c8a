-- ===== src/CanonicalInput/Matches/Members.antt =====
-- `_encode_enum` of canonical_input.py against what it promises: the first member that is the value.
use semant_script.Prelude.{
  ℕ, zero, suc, ◌+◌, ◌<◌, ◌≡◌, refl, true, false, List, [], ◌∷◌, Option, none, some, arith,
  if◌then◌else◌, sym, subst, Bool-cases, inl, inr, get_elem?,
}
use semant_script.Python.Text.{Text, text_eq, text_eq→eq, text_eq_refl}
use semant_script.Python.Values.{Value, is_text}
use semant_script.CanonicalInput.Errors.{ok, InputPath, Yields, Yields-bind, bind-eq-ok}
use semant_script.CanonicalInput.Tree.{ExactJson}
use semant_script.CanonicalInput.Numbers.{is_number, number_hex, encode_number, require_unicode}
use semant_script.CanonicalInput.Spec.{Kind, Base}
use semant_script.CanonicalInput.Leaves.{find_string, find_number, enum_result, encode_member}
use semant_script.CanonicalInput.Matches.{number_text, typed, HasKind, First, Member}
use semant_script.CanonicalInput.Tree.{natural}
use semant_script.CanonicalInput.Matches.Leaves.{
  require_unicode-scalar, number_hex-text, encode_number-HasKind,
}

-- A member that is found stands at its distance from the start.
First-here :
    (passes : Value → Type 0) (v : Value) (vs : List Value) → passes v → First passes (v ∷ vs) 0
First-here passes v vs p = record {
  found = v;
  at = refl;
  passed = p;
  earlier = λ j w lt. omega (arith, lt);
}

First-later :
    (passes : Value → Type 0) (v : Value) (vs : List Value) (k : ℕ)
    → (passes v → ⊥)
    → First passes vs k
    → First passes (v ∷ vs) (suc k)
First-later passes v vs k refused f = record {
  found = f.found;
  at = f.at;
  passed = f.passed;
  earlier = before;
}
  where
    before : (j : ℕ) (w : Value) → j < suc k → get_elem? (v ∷ vs) j ≡ some w → passes w → ⊥
    before zero w lt e p = let same : v ≡ w = cc e in refused (subst passes (sym same) p)
    before (suc j) w lt e p = f.earlier j w (omega arith) e p

-- The position counts on from `i`.
abbrev Found : (Value → Type 0) → List Value → ℕ → ℕ → Type 0
Found passes values i j = (k : ℕ) × (j ≡ i + k) × First passes values k

Found-later :
    (passes : Value → Type 0) (v : Value) (vs : List Value) (i j : ℕ)
    → (passes v → ⊥)
    → Found passes vs (i + 1) j
    → Found passes (v ∷ vs) i j
Found-later passes v vs i j refused (k, e, f) =
    (suc k, omega arith, First-later passes v vs k refused f)

find_string-Found :
    (i : ℕ) (s : Text) (values : List Value) (j : ℕ)
    → find_string i s values ≡ some j
    → Found (λ c. is_text s c ≡ true) values i j
unfolding find_string
find_string-Found i s [] j h = cc
find_string-Found i s (v ∷ vs) j h = elim (Bool-cases (is_text s v)) [
  | inl e ↦
      let same : i ≡ j = cc (rw e at h) in
      (0, omega arith, First-here (λ c. is_text s c ≡ true) v vs e)
  | inr e ↦
      Found-later (λ c. is_text s c ≡ true) v vs i j (λ p. cc (e, p))
        (find_string-Found (i + 1) s vs j (rw e at h))
]

number_text-none : (v : Value) → is_number v ≡ false → number_text v ≡ none
unfolding is_number number_text
number_text-none (Value.int n) h = cc
number_text-none (Value.float b) h = cc
number_text-none v h = refl

other_digits :
    (v : Value) (digits key : Text)
    → number_text v ≡ some digits
    → text_eq digits key ≡ false
    → number_text v ≡ some key
    → ⊥
other_digits v digits key d e k =
    let same : digits ≡ key = cc (d, k) in cc (rw same at e, text_eq_refl key)

find_number-Found :
    (i : ℕ) (key : Text) (path : InputPath) (values : List Value) (j : ℕ)
    → find_number i key path values ≡ ok (some j)
    → Found (λ c. number_text c ≡ some key) values i j
unfolding find_number
find_number-Found i key path [] j h = cc
find_number-Found i key path (v ∷ vs) j h = elim (Bool-cases (is_number v)) [
  | inr e ↦
      Found-later (λ c. number_text c ≡ some key) v vs i j (λ p. cc (number_text-none v e, p))
        (find_number-Found (i + 1) key path vs j (rw e at h))
  | inl e ↦
      let (digits, d, r) =
        bind-eq-ok (number_hex v path)
          (λ digits. if text_eq digits key then ok (some i) else find_number (i + 1) key path vs)
          (rw e at h) in
      let text = number_hex-text v path digits d in
      elim (Bool-cases (text_eq digits key)) [
        | inl q ↦
            let same : i ≡ j = cc (rw q at r) in
            (
              0,
              omega arith,
              First-here (λ c. number_text c ≡ some key) v vs
                  (rw (text_eq→eq digits key q) at text),
            )
        | inr q ↦
            Found-later (λ c. number_text c ≡ some key) v vs i j (other_digits v digits key text q)
              (find_number-Found (i + 1) key path vs j (rw q at r))
      ]
]

from_zero :
    (passes : Value → Type 0) (values : List Value) (j : ℕ)
    → Found passes values 0 j
    → First passes values j
from_zero passes values j (k, e, f) =
    let same : k ≡ j = omega arith in subst (First passes values) same f

enum_result-Member :
    (name : Text) (values : List Value) (base : Base) (v : Value) (path : InputPath) (t : ExactJson)
    (found : Option ℕ)
    → ((j : ℕ) → found ≡ some j → Member values j base v t)
    → Yields
        (λ u.
          (i : ℕ) × (t : ExactJson) × Member values i base v t
          × (u ≡ typed "enum" (ExactJson.string name ∷ natural i ∷ t ∷ [])))
        (enum_result name t path found)
enum_result-Member name values base v path t none k = tt
enum_result-Member name values base v path t (some i) k = (i, t, k i refl, refl)

pub encode_member-Member :
    (name : Text) (base : Base) (values : List Value) (v : Value) (path : InputPath)
    → Yields
        (λ u.
          (i : ℕ) × (t : ExactJson) × Member values i base v t
          × (u ≡ typed "enum" (ExactJson.string name ∷ natural i ∷ t ∷ [])))
        (encode_member name base values v path)
unfolding encode_member
encode_member-Member name Base.string values (Value.string s) path =
    Yields-bind _ (require_unicode s path) _ λ u e.
      enum_result-Member name values Base.string (Value.string s) path _ (find_string 0 s values)
        λ j found.
          Member.string s (HasKind.string s (require_unicode-scalar s path u e))
            (from_zero _ values j (find_string-Found 0 s values j found))
encode_member-Member name Base.string values v path = tt
encode_member-Member name Base.number values v path = Yields-bind _ (encode_number v path) _ λ t e.
    Yields-bind _ (number_hex v path) _ λ key d.
      Yields-bind _ (find_number 0 key _ values) _ λ found q.
        enum_result-Member name values Base.number v path t found λ j is_some.
          Member.number v key
            (subst (Yields (HasKind Kind.number v)) e (encode_number-HasKind v path))
            (number_hex-text v path key d)
            (from_zero _ values j (find_number-Found 0 key _ values j (rw is_some at q)))
encode_member-Member name Base.unsupported values v path = tt
