-- ===== src/CanonicalInput/Conforms/Members.antt =====
-- `_encode_enum` of canonical_input.py: what its refusals deny.
use semant_script.Prelude.{
  ℕ, zero, suc, ◌+◌, ◌≡◌, refl, sym, subst, ◌∙◌, ap, true, Bool-cases, inl, inr, List, [], ◌∷◌,
  Option, none, some, get_elem?, if◌then◌else◌,
}
use semant_script.Python.Text.{Text, text_eq, text_eq_refl}
use semant_script.Python.Values.{Value, is_text}
use semant_script.CanonicalInput.Errors.{ok, bind-eq-ok, InputPath}
use semant_script.CanonicalInput.Tree.{ExactJson}
use semant_script.CanonicalInput.Numbers.{is_number, number_hex, encode_number, require_unicode}
use semant_script.CanonicalInput.Spec.{Base}
use semant_script.CanonicalInput.Leaves.{find_string, find_number, enum_result, encode_member}
use semant_script.CanonicalInput.Primitives.{number_text, First, Member}
use semant_script.CanonicalInput.Conforms.Denies.{Refutes, Refutes-bind}
use semant_script.CanonicalInput.Conforms.Leaves.{
  require_unicode-Refutes, number_hex-Refutes, encode_number-Refutes, number_text-is_number,
  number_text-hex,
}

find_string-none :
    (i : ℕ) (s : Text) (vs : List Value) (j : ℕ) (c : Value)
    → find_string i s vs ≡ none
    → get_elem? vs j ≡ some c
    → is_text s c ≡ true
    → ⊥
unfolding find_string
find_string-none i s [] j c e g p = cc
find_string-none i s (v ∷ vs) zero c e g p =
    let same : c ≡ v = cc g in
    let here : is_text s v ≡ true = ap (is_text s) (sym same) ∙ p in cc (rw here at e)
find_string-none i s (v ∷ vs) (suc j) c e g p = elim (Bool-cases (is_text s v)) [
  | inl here ↦ cc (rw here at e)
  | inr other ↦ find_string-none (i + 1) s vs j c (rw other at e) g p
]

find_number-none :
    (i : ℕ) (key : Text) (path : InputPath) (vs : List Value) (j : ℕ) (c : Value)
    → find_number i key path vs ≡ ok none
    → get_elem? vs j ≡ some c
    → number_text c ≡ some key
    → ⊥
unfolding find_number
find_number-none i key path [] j c e g p = cc
find_number-none i key path (v ∷ vs) zero c e g p =
    let same : c ≡ v = cc g in
    let text : number_text v ≡ some key = ap number_text (sym same) ∙ p in
    cc (
      rw (number_text-is_number v key text, number_text-hex v path key text, text_eq_refl key) at e)
find_number-none i key path (v ∷ vs) (suc j) c e g p = elim (Bool-cases (is_number v)) [
  | inr other ↦ find_number-none (i + 1) key path vs j c (rw other at e) g p
  | inl number ↦
      let (digits, d, r) =
        bind-eq-ok (number_hex v path)
          (λ digits. if text_eq digits key then ok (some i) else find_number (i + 1) key path vs)
          (rw number at e) in
      elim (Bool-cases (text_eq digits key)) [
        | inl here ↦ cc (rw here at r)
        | inr other ↦ find_number-none (i + 1) key path vs j c (rw other at r) g p
      ]
]

find_number-Refutes :
    (Q : Type 0) (i : ℕ) (key : Text) (path : InputPath) (vs : List Value)
    → Refutes Q (find_number i key path vs)
unfolding find_number
find_number-Refutes Q i key path [] = tt
find_number-Refutes Q i key path (v ∷ vs) = elim (Bool-cases (is_number v)) [
  | inl e ↦ rw e (
      Refutes-bind _ (number_hex v path) _ (number_hex-Refutes _ v path (λ q. e)) λ digits _.
        elim (Bool-cases (text_eq digits key)) [
          | inl q ↦ rw q tt
          | inr q ↦ rw q (find_number-Refutes Q (i + 1) key path vs)
        ])
  | inr e ↦ rw e (find_number-Refutes Q (i + 1) key path vs)
]

-- a member of the values, at some position
abbrev pub IsMember : List Value → Base → Value → Type 0
IsMember values base v = (i : ℕ) × (t : ExactJson) × Member values i base v t

string-member :
    (values : List Value) (v : Value) (i : ℕ) (t : ExactJson)
    → Member values i Base.string v t
    → (s : Text) × (v ≡ Value.string s) × First (λ c. is_text s c ≡ true) values i
string-member values _ i t (Member.string s k f) = (s, refl, f)

number-member :
    (values : List Value) (v : Value) (i : ℕ) (t : ExactJson)
    → Member values i Base.number v t
    → (s : Text) × (number_text v ≡ some s) × First (λ c. number_text c ≡ some s) values i
number-member values _ i t (Member.number v s k e f) = (s, e, f)

abbrev IsSupported : Base → Type 0
IsSupported Base.unsupported = ⊥
IsSupported _ = Unit

Member-IsSupported :
    (values : List Value) (i : ℕ) (base : Base) (v : Value) (t : ExactJson)
    → Member values i base v t
    → IsSupported base
Member-IsSupported values i _ _ t (Member.string s k f) = tt
Member-IsSupported values i _ _ t (Member.number v s k e f) = tt

enum_result-Refutes :
    (Q : Type 0) (name : Text) (t : ExactJson) (path : InputPath) (found : Option ℕ)
    → (found ≡ none → Q → ⊥)
    → Refutes Q (enum_result name t path found)
enum_result-Refutes Q name t path none k = λ goes_on q. k refl q
enum_result-Refutes Q name t path (some i) k = tt

pub encode_member-Refutes :
    (name : Text) (base : Base) (values : List Value) (v : Value) (path : InputPath)
    → Refutes (IsMember values base v) (encode_member name base values v path)
unfolding encode_member
encode_member-Refutes name Base.string values (Value.string s) path =
    Refutes-bind _ (require_unicode s path) _ (require_unicode-Refutes _ s path) λ u _.
      enum_result-Refutes _ name _ path (find_string 0 s values) λ missing (i, t, m).
        let (r, same, f) = string-member values (Value.string s) i t m in
        let same_text : r ≡ s = cc same in
        find_string-none 0 s values i f.found missing f.at
          (subst (λ s. is_text s f.found ≡ true) same_text f.passed)
encode_member-Refutes name Base.string values v path =
    λ goes_on (i, t, m). cc (string-member values v i t m).1
encode_member-Refutes name Base.number values v path =
    Refutes-bind _ (encode_number v path) _ (encode_number-Refutes _ v path (is_number_of v))
      λ encoded _.
        Refutes-bind _ (number_hex v path) _ (number_hex-Refutes _ v path (is_number_of v)) λ key h.
          Refutes-bind _ (find_number 0 key _ values) _ (find_number-Refutes _ 0 key _ values)
            λ found e. enum_result-Refutes _ name encoded path found λ missing (i, t, m).
              let (s, text, f) = number-member values v i t m in
              let same : s ≡ key = cc (number_text-hex v path s text, h) in
              find_number-none 0 key _ values i f.found (e ∙ ap ok missing) f.at
                (f.passed ∙ ap some same)
  where
    is_number_of : (v : Value) → IsMember values Base.number v → is_number v ≡ true
    is_number_of v (i, t, m) =
        let (s, text, _) = number-member values v i t m in number_text-is_number v s text
encode_member-Refutes name Base.unsupported values v path =
    λ goes_on (i, t, m). Member-IsSupported values i Base.unsupported v t m
