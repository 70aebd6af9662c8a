-- ===== src/CanonicalInput/Exec.antt =====
-- Code that works on an `_EncodeContext` and may raise. What it did before a raise stays done.
use semant_script.Prelude.{
  ℕ, ◌≡◌, refl, Bool-cases, inl, inr, ◌+◌, Bool, List, [], ◌∷◌, false, ltb, ◌==◌, ◌||◌,
  if◌then◌else◌,
}
use semant_script.CanonicalInput.Errors.{
  Result, ok, fail, Failure, Reason, InputPath, Yields, Yields-map,
}

abbrev pub maximum_input_depth : ℕ
maximum_input_depth = 100

abbrev pub maximum_input_nodes : ℕ
maximum_input_nodes = 100000

-- The budget is kept by what is used of it, `MAXIMUM_INPUT_NODES - remaining`, since `remaining`
-- falls below 0 before the error is raised. `active` is a set of identities.
pub record Context : Type 0 where
  pub active : List ℕ
  pub used : ℕ

abbrev pub fresh : Context
fresh = record { active = []; used = 0 }

abbrev pub Exec : Type 0 → Type 0
Exec A = Context → Result A × Context

abbrev pub pure : {A : Type 0} → A → Exec A
pure a c = (ok a, c)

abbrev pub lift : {A : Type 0} → Result A → Exec A
lift r c = (r, c)

abbrev pub raise : {A : Type 0} → Reason → InputPath → Exec A
raise reason path = lift (fail (Failure.canonical reason path))

abbrev pub continue : {A B : Type 0} → (A → Exec B) → Result A → Context → Result B × Context
continue f (ok a) c = f a c
continue f (fail e) c = (fail e, c)

infixl 5 ◌>>=◌ ◌>>◌
unfoldable pub ◌>>=◌ : {A B : Type 0} → Exec A → (A → Exec B) → Exec B
◌>>=◌ m f c = continue f (m c).0 (m c).1

abbrev pub ◌>>◌ : {A B : Type 0} → Exec A → Exec B → Exec B
m >> k = m >>= λ _. k

abbrev pub member : ℕ → List ℕ → Bool
member a [] = false
member a (b ∷ bs) = a == b || member a bs

-- `active.remove(identity)`
abbrev pub remove : ℕ → List ℕ → List ℕ
remove a [] = []
remove a (b ∷ bs) = if a == b then bs else b ∷ remove a bs

-- The depth is kept as the levels that are left: none when it exceeds the maximum.
abbrev pub all_levels : ℕ
all_levels = maximum_input_depth + 1

-- `_consume_work`; the test of the depth is the case of no level left in the callers
unfoldable pub consume_work : InputPath → Exec (Unit {0})
consume_work path c =
    let c' = record c { used = c.used + 1 } in
    if ltb maximum_input_nodes c'.used then raise Reason.limit path c' else pure tt c'

-- `active.add(identity)`, then `encode()`, and `active.remove(identity)` whatever came of it;
-- `repeated` is raised if the identity is active already.
unfoldable pub with_active : {A : Type 0} → ℕ → Failure → Exec A → Exec A
with_active a repeated m c =
    if member a c.active
    then (fail repeated, c)
    else let after = m (record c { active = a ∷ c.active }) in
      (after.0, record after.1 { active = remove a after.1.active })

-- `P` holds of the result of an action, if it has one.
pub record After {A : Type 0} (P : A → Type 0) (m : Exec A) : Type 0 where
  pub at : (c : Context) → Yields P (m c).0

-- Some run of the action had this result.
abbrev pub Returns : {A : Type 0} → Exec A → A → Type 0
Returns m a = (c : Context) × ((m c).0 ≡ ok a)

pub After-bind :
    {A B : Type 0} {P : B → Type 0} (m : Exec A) {f : A → Exec B}
    → ((a : A) → Returns m a → After P (f a))
    → After P (m >>= f)
unfolding ◌>>=◌
After-bind {A} {P = P} m {f} k = record { at = λ c. go c (m c).0 refl }
  where
    go : (c : Context) (r : Result A) → (m c).0 ≡ r → Yields P (continue f r (m c).1).0
    go c (ok a) e = (k a (c, e)).at (m c).1
    go c (fail x) e = tt

pub After-raise :
    {A : Type 0} {P : A → Type 0} (reason : Reason) (path : InputPath) → After P (raise reason path)
After-raise reason path = record { at = λ c. tt }

pub After-with_active :
    {A : Type 0} {P : A → Type 0} (a : ℕ) (repeated : Failure) {m : Exec A}
    → After P m
    → After P (with_active a repeated m)
unfolding with_active
After-with_active a repeated k = record {
  at = λ c. elim (Bool-cases (member a c.active)) [
    | inl e ↦ rw e tt
    | inr e ↦ rw e (k.at (record c { active = a ∷ c.active }))
  ];
}

pub After-map :
    {A : Type 0} {P Q : A → Type 0} {m : Exec A} → ((a : A) → P a → Q a) → After P m → After Q m
After-map {A} {P} {Q} {m} k w = record { at = λ c. Yields-map P Q (m c).0 k (w.at c) }
