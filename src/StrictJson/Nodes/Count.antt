-- ===== src/StrictJson/Nodes/Count.antt =====
-- What `_check_value` of strict_json.py decides, by a count over the tree.
use semant_script.Prelude.{
  ℕ, zero, suc, ◌+◌, ◌≤◌, ◌≡◌, refl, sym, ◌∙◌, Bool, true, false, not, List, [], ◌∷◌, leb, ◌&&◌,
  if◌then◌else◌, arith, Bool-cases, inl, inr,
}
use semant_script.Python.Text.{has_surrogate}
use semant_script.CanonicalInput.Errors.{Result, ok, bind}
use semant_script.StrictJson.Document.{strict_error}
use semant_script.StrictJson.Json.{Json, Elements, Members}
use semant_script.StrictJson.Nodes.{extend, push_members, visit, check_nodes, check_value}

-- The values that a value holds, itself among them.
unfoldable mutual
  pub count : Json → ℕ
  count (Json.list vs) = 1 + count_elements vs
  count (Json.dict ms) = 1 + count_members ms
  count _ = 1

  pub count_elements : Elements → ℕ
  count_elements Elements.no_elements = 0
  count_elements (Elements.element v vs) = count v + count_elements vs

  pub count_members : Members → ℕ
  count_members Members.no_members = 0
  count_members (Members.member name v ms) = count v + count_members ms

-- No string and no name has a surrogate.
unfoldable mutual
  pub is_scalar : Json → Bool
  is_scalar (Json.string s) = not (has_surrogate s)
  is_scalar (Json.list vs) = scalar_elements vs
  is_scalar (Json.dict ms) = scalar_members ms
  is_scalar _ = true

  pub scalar_elements : Elements → Bool
  scalar_elements Elements.no_elements = true
  scalar_elements (Elements.element v vs) = is_scalar v && scalar_elements vs

  pub scalar_members : Members → Bool
  scalar_members Members.no_members = true
  scalar_members (Members.member name v ms) =
      not (has_surrogate name) && (is_scalar v && scalar_members ms)

abbrev count_work : List Json → ℕ
count_work [] = 0
count_work (v ∷ work) = count v + count_work work

abbrev scalar_work : List Json → Bool
scalar_work [] = true
scalar_work (v ∷ work) = is_scalar v && scalar_work work

abbrev pub verdict : Bool → Result (Unit {0})
verdict b = if b then ok tt else strict_error

abbrev accepts : ℕ → List Json → Result (Unit {0})
accepts remaining work = verdict (leb (count_work work) remaining && scalar_work work)

count_work-extend :
    (vs : Elements) (work : List Json)
    → count_work (extend vs work) ≡ count_elements vs + count_work work
unfolding extend count
count_work-extend Elements.no_elements work = omega arith
count_work-extend (Elements.element v vs) work = omega (arith, count_work-extend vs (v ∷ work))

and_swap : (a b c : Bool) → a && (b && c) ≡ b && a && c
and_swap true true c = refl
and_swap true false c = refl
and_swap false true c = refl
and_swap false false c = refl

scalar_work-extend :
    (vs : Elements) (work : List Json)
    → scalar_work (extend vs work) ≡ scalar_elements vs && scalar_work work
unfolding extend is_scalar
scalar_work-extend Elements.no_elements work = refl
scalar_work-extend (Elements.element v vs) work =
    scalar_work-extend vs (v ∷ work)
    ∙ and_swap (scalar_elements vs) (is_scalar v) (scalar_work work)

agree : {x y p q : Bool} → x ≡ y → p ≡ q → verdict (x && p) ≡ verdict (y && q)
agree e f = rw (e, f) refl

leb_eq : (a b n : ℕ) → a ≡ b → leb a n ≡ leb b n
leb_eq a b n e = rw e refl

refused : (b : Bool) → verdict (b && false) ≡ strict_error
refused true = refl
refused false = refl

-- The members of a dict, if the rounds after them are judged by their count.
push_members-accepts :
    (remaining : ℕ) (ms : Members) (work : List Json)
    → ((rest : List Json) → check_nodes remaining rest ≡ accepts remaining rest)
    → bind (push_members ms work) (λ rest. check_nodes remaining rest)
      ≡ verdict (
          leb (count_members ms + count_work work) remaining
          && (scalar_members ms && scalar_work work))
unfolding push_members count is_scalar
push_members-accepts remaining Members.no_members work ih =
    ih work ∙ agree (leb_eq (count_work work) (0 + count_work work) remaining (omega arith)) refl
push_members-accepts remaining (Members.member name v ms) work ih =
    elim (Bool-cases (has_surrogate name)) [
      | inl e ↦ rw e (sym (refused _))
      | inr e ↦ rw e (
          push_members-accepts remaining ms (v ∷ work) ih
          ∙ agree
              (leb_eq (count_members ms + (count v + count_work work))
                (count v + count_members ms + count_work work) remaining (omega arith))
              (and_swap (scalar_members ms) (is_scalar v) (scalar_work work)))
    ]

leb_round : (a b n : ℕ) → b ≡ suc a → leb a n ≡ leb b (suc n)
leb_round a b n e = ground arith

visit-accepts :
    (remaining : ℕ) (v : Json) (work : List Json)
    → ((rest : List Json) → check_nodes remaining rest ≡ accepts remaining rest)
    → bind (visit v work) (λ rest. check_nodes remaining rest) ≡ accepts (suc remaining) (v ∷ work)
unfolding visit count is_scalar
visit-accepts remaining (Json.string s) work ih = elim (Bool-cases (has_surrogate s)) [
  | inl e ↦ rw e (sym (refused _))
  | inr e ↦ rw e (
      ih work
      ∙ agree (leb_round (count_work work) (1 + count_work work) remaining (omega arith)) refl)
]
visit-accepts remaining (Json.list vs) work ih =
    ih (extend vs work)
    ∙ agree
        (leb_round (count_work (extend vs work)) (1 + count_elements vs + count_work work) remaining
          (omega (arith, count_work-extend vs work)))
        (scalar_work-extend vs work)
visit-accepts remaining (Json.dict ms) work ih =
    push_members-accepts remaining ms work ih
    ∙ agree
        (leb_round (count_members ms + count_work work) (1 + count_members ms + count_work work)
          remaining (omega arith))
        refl
visit-accepts remaining Json.null work ih =
    ih work ∙ agree (leb_round (count_work work) (1 + count_work work) remaining (omega arith)) refl
visit-accepts remaining (Json.boolean b) work ih =
    ih work ∙ agree (leb_round (count_work work) (1 + count_work work) remaining (omega arith)) refl
visit-accepts remaining (Json.number n) work ih =
    ih work ∙ agree (leb_round (count_work work) (1 + count_work work) remaining (omega arith)) refl

count-positive : (v : Json) → 1 ≤ count v
unfolding count
count-positive v = ground arith

no_round : (v : Json) (work : List Json) → leb (count v + count_work work) 0 ≡ false
no_round v work = ground (arith, count-positive v)

leb_zero : (n : ℕ) → leb 0 n ≡ true
leb_zero n = ground arith

check_nodes-accepts :
    (remaining : ℕ) (work : List Json) → check_nodes remaining work ≡ accepts remaining work
unfolding check_nodes
check_nodes-accepts remaining [] = rw (leb_zero remaining) refl
check_nodes-accepts zero (v ∷ work) = rw (no_round v work) refl
check_nodes-accepts (suc remaining) (v ∷ work) =
    visit-accepts remaining v work (check_nodes-accepts remaining)

and_true : (b : Bool) → b && true ≡ b
and_true true = refl
and_true false = refl

-- A value passes if it has no more nodes than the limit and no text in it has a surrogate, and is
-- refused if not; the order in which the stack takes them does not show.
pub check_value_lem :
    (v : Json) (maximum_nodes : ℕ)
    → check_value v maximum_nodes
      ≡ (if leb (count v) maximum_nodes && is_scalar v then ok tt else strict_error)
unfolding check_value
check_value_lem v maximum_nodes =
    check_nodes-accepts maximum_nodes (v ∷ [])
    ∙ agree (leb_eq (count v + 0) (count v) maximum_nodes (omega arith)) (and_true (is_scalar v))
