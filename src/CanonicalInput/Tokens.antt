-- ===== src/CanonicalInput/Tokens.antt =====
-- The strings of canonical-input/v2, bare or quoted, as `_compact_string` of canonical_input.py writes
-- them.
pub mod Bare
use semant_script.Prelude.{
  ℕ, ◌≡◌, ◌⊎◌, refl, sym, true, false, ◌||◌, [], ◌∷◌, ◌++◌, append_assoc, arith, ◌==◌, Bool-cases,
  Option-cases, inl, inr,
}
use semant_script.Python.Text.{Text, text_eq, is_surrogate}
use semant_script.CanonicalInput.Errors.{ok, bind-eq-ok}
use semant_script.CanonicalInput.Escape.{escape, written-escape, written-plain}
use semant_script.CanonicalInput.JsonText.{quoted, json_string, quoted-cancel, tail_eq}
use semant_script.CanonicalInput.Compact.{
  starts_token, continues_token, all_continue, is_token, is_reserved, is_bare, compact_escape,
  compact_pieces, compact_string,
}

-- The escapes of the two writers are the same.
compact_escape-escape : (c : ℕ) → compact_escape c ≡ escape c
unfolding compact_escape escape
compact_escape-escape c = refl

-- Between the quotes stand the characters as the JSON writer would put them.
compact_pieces-quoted : (s t : Text) → compact_pieces s ≡ ok t → t ≡ quoted s
unfolding quoted compact_pieces
compact_pieces-quoted [] t h = cc
compact_pieces-quoted (c ∷ s) t h = elim (Option-cases (escape c)) [
  | inl e ↦ elim (Bool-cases (is_surrogate c)) [
    | inl bad ↦ cc (rw (compact_escape-escape c, e, bad, compact_pieces) at h)
    | inr fine ↦
        let (r, er, k) =
          bind-eq-ok (compact_pieces s) (λ x. ok (c ∷ x))
            (rw (compact_escape-escape c, e, fine, compact_pieces) at h) in
        cc (k, compact_pieces-quoted s r er, written-plain c e)
  ]
  | inr (x, e) ↦
      let (r, er, k) =
        bind-eq-ok (compact_pieces s) (λ y. ok (x ++ y))
          (rw (compact_escape-escape c, e, compact_pieces) at h) in
      cc (k, compact_pieces-quoted s r er, written-escape c x e)
]

ok-eq : {A : Type 0} {a b : A} → ok a ≡ ok b → b ≡ a
ok-eq e = cc

-- The two forms of a written string.
abbrev pub Form : Text → Text → Type 0
Form s t = ((is_bare s ≡ true) × (t ≡ s)) ⊎ ((is_bare s ≡ false) × (t ≡ json_string s))

pub compact_string-Form : (s t : Text) → compact_string s ≡ ok t → Form s t
unfolding compact_string json_string
compact_string-Form s t h = elim (Bool-cases (is_bare s)) [
  | inl bare ↦ inl (bare, ok-eq (rw bare at h))
  | inr not_bare ↦
      let (r, e, k) =
        bind-eq-ok (compact_pieces s) (λ x. ok (b'"' ∷ (x ++ b'"' ∷ []))) (rw not_bare at h) in
      inr (not_bare, cc (k, compact_pieces-quoted s r e))
]

-- A text that does not go on with a character of a token.
abbrev TokenStops : Text → Type 0
TokenStops [] = Unit
TokenStops (c ∷ r) = continues_token c ≡ false

all_continue-cancel :
    (s t r q : Text)
    → all_continue s ≡ true
    → all_continue t ≡ true
    → TokenStops r
    → TokenStops q
    → s ++ r ≡ t ++ q
    → (s ≡ t) × (r ≡ q)
unfolding all_continue
all_continue-cancel [] [] r q hs ht hr hq e = (refl, e)
all_continue-cancel [] (d ∷ t) [] q hs ht hr hq e = cc
all_continue-cancel [] (d ∷ t) (c ∷ r) q hs ht hr hq e = ground arith
all_continue-cancel (c ∷ s) [] r [] hs ht hr hq e = cc
all_continue-cancel (c ∷ s) [] r (d ∷ q) hs ht hr hq e = ground arith
all_continue-cancel (c ∷ s) (d ∷ t) r q hs ht hr hq e = ground (arith, all_continue-cancel s t r q)

bare-all_continue : (s : Text) → is_bare s ≡ true → all_continue s ≡ true
unfolding is_bare is_token all_continue continues_token
bare-all_continue s h = ground arith

bare_lead : (s r q : Text) → is_bare s ≡ true → s ++ r ≡ b'"' ∷ q → ⊥
unfolding is_bare is_token starts_token
bare_lead s r q h e = ground arith

forms-cancel :
    (s t x y r q : Text)
    → Form s x
    → Form t y
    → TokenStops r
    → TokenStops q
    → x ++ r ≡ y ++ q
    → (s ≡ t) × (r ≡ q)
unfolding json_string
forms-cancel s t x y r q (inl (bs, ex)) (inl (bt, ey)) hr hq e =
    all_continue-cancel s t r q (bare-all_continue s bs) (bare-all_continue t bt) hr hq
      (rw (ex, ey) at e)
forms-cancel s t x y r q (inl (bs, ex)) (inr (bt, ey)) hr hq e =
    absurd (bare_lead s r _ bs (rw (ex, ey) at e))
forms-cancel s t x y r q (inr (bs, ex)) (inl (bt, ey)) hr hq e =
    absurd (bare_lead t q _ bt (sym (rw (ex, ey) at e)))
forms-cancel s t x y r q (inr (bs, ex)) (inr (bt, ey)) hr hq e =
    quoted-cancel s t r q (simp append_assoc at (tail_eq _ _ (rw (ex, ey) at e)))

-- The string that leads a v2 text is read back, with what follows it, if that does not go on with a
-- character of a token: the writer puts one of `= , ] }`, a space or the end there.
pub compact_string-cancel :
    (s t x y r q : Text)
    → compact_string s ≡ ok x
    → compact_string t ≡ ok y
    → TokenStops r
    → TokenStops q
    → x ++ r ≡ y ++ q
    → (s ≡ t) × (r ≡ q)
compact_string-cancel s t x y r q hs ht hr hq e =
    forms-cancel s t x y r q (compact_string-Form s x hs) (compact_string-Form t y ht) hr hq e

bare-not_reserved : (s : Text) → is_bare s ≡ true → is_reserved s ≡ false
unfolding is_bare
bare-not_reserved s h = ground arith

distinct :
    (s t : Text)
    → Form s t
    → (is_reserved t ≡ false)
      × (c : ℕ) × (rest : Text) × (t ≡ c ∷ rest)
      × ((starts_token c || c == b'"') ≡ true)
unfolding json_string is_bare is_token is_reserved text_eq
distinct [] t (inl (bare, e)) = cc
distinct (c ∷ s) t (inl (bare, e)) = (rw e (bare-not_reserved (c ∷ s) bare), c, s, e, ground arith)
distinct s t (inr (_, e)) = (rw e, b'"', _, e, refl)
