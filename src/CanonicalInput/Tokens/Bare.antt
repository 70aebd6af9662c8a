-- ===== src/CanonicalInput/Tokens/Bare.antt =====
-- Which strings `_compact_string` of canonical_input.py writes without quotes.
use semant_script.Prelude.{
  ℕ, ◌≡◌, ◌≤◌, ◌⊎◌, refl, true, false, [], ◌∷◌, arith, All, inl, inr, Bool-cases,
}
use semant_script.Python.Text.{Text, codes, text_eq, text_eq→eq, text_eq_refl}
use semant_script.CanonicalInput.Errors.{ok}
use semant_script.CanonicalInput.JsonText.{json_string}
use semant_script.CanonicalInput.Compact.{
  starts_token, continues_token, all_continue, is_token, is_reserved, is_bare, compact_string,
}
use semant_script.CanonicalInput.Tokens.{compact_string-Form}

abbrev Letter : ℕ → Type 0
Letter c = ((b'A' ≤ c) × (c ≤ b'Z')) ⊎ ((b'a' ≤ c) × (c ≤ b'z'))

-- a letter, a digit or one of `_.-`
abbrev pub TokenCharacter : ℕ → Type 0
TokenCharacter c = Letter c ⊎ ((b'0' ≤ c) × (c ≤ b'9')) ⊎ (c ≡ b'_') ⊎ (c ≡ b'.') ⊎ (c ≡ b'-')

-- A letter or an underscore, and then letters, digits and `_.-`; and not true, false or null.
abbrev pub Bare : Text → Type 0
Bare [] = ⊥
Bare (c ∷ s) =
    (Letter c ⊎ (c ≡ b'_'))
    × All TokenCharacter s
    × ¬ (c ∷ s ≡ codes "true")
    × ¬ (c ∷ s ≡ codes "false")
    × ¬ (c ∷ s ≡ codes "null")

TokenCharacter-continues :
    (c : ℕ)
    → (TokenCharacter c → continues_token c ≡ true) × (continues_token c ≡ true → TokenCharacter c)
unfolding continues_token starts_token
TokenCharacter-continues c = (λ t. ground (arith, t), λ e. ground (arith, e))

continues-All : (s : Text) → all_continue s ≡ true → All TokenCharacter s
unfolding all_continue
continues-All [] e = tt
continues-All (c ∷ s) e =
    ((TokenCharacter-continues c).1 (ground (arith, e)), continues-All s (ground (arith, e)))

All-continues : (s : Text) → All TokenCharacter s → all_continue s ≡ true
unfolding all_continue
All-continues [] a = refl
All-continues (c ∷ s) (t, a) = rw ((TokenCharacter-continues c).0 t, All-continues s a) refl

reserved-not : (s t : Text) → text_eq s t ≡ false → ¬ (s ≡ t)
reserved-not s t e same =
    let twin : text_eq s t ≡ true = rw same (text_eq_refl t) in ground (arith, e, twin)

not-reserved : (s t : Text) → ¬ (s ≡ t) → text_eq s t ≡ false
not-reserved s t other = elim (Bool-cases (text_eq s t)) [
  | inl same ↦ absurd (other (text_eq→eq s t same))
  | inr e ↦ e
]

is_bare-Bare : (s : Text) → is_bare s ≡ true → Bare s
unfolding is_bare is_token is_reserved starts_token
is_bare-Bare [] e = cc
is_bare-Bare (c ∷ s) e = (
  ground (arith, e),
  continues-All s (ground (arith, e)),
  reserved-not (c ∷ s) (codes "true") (ground (arith, e)),
  reserved-not (c ∷ s) (codes "false") (ground (arith, e)),
  reserved-not (c ∷ s) (codes "null") (ground (arith, e)),
)

Bare-is_bare : (s : Text) → Bare s → is_bare s ≡ true
unfolding is_bare is_token is_reserved starts_token
Bare-is_bare [] b = absurd b
Bare-is_bare (c ∷ s) (start, rest, a, b, n) =
    let r = All-continues s rest in
    let x = not-reserved (c ∷ s) (codes "true") a in
    let y = not-reserved (c ∷ s) (codes "false") b in
    let z = not-reserved (c ∷ s) (codes "null") n in ground (arith, start, r, x, y, z)

-- A text that is bare is written as itself, and any other as its JSON string of canonical-input/v1.
pub compact_string_lem :
    (s t : Text) → compact_string s ≡ ok t → (Bare s × (t ≡ s)) ⊎ (¬ Bare s × (t ≡ json_string s))
compact_string_lem s t h = elim (compact_string-Form s t h) [
  | inl (bare, e) ↦ inl (is_bare-Bare s bare, e)
  | inr (quotes, e) ↦ inr (λ b. ground (arith, quotes, Bare-is_bare s b), e)
]
