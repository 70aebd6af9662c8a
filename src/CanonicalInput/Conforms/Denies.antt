-- ===== src/CanonicalInput/Conforms/Denies.antt =====
-- Errors of canonical_input.py after which a union tries its next variant, and what they deny.
use semant_script.Prelude.{ℕ, ◌≡◌, refl, false, Bool-cases, inl, inr, ◌∷◌}
use semant_script.CanonicalInput.Errors.{
  Result, ok, fail, bind, Failure, Reason, InputPath, is_fatal,
}
use semant_script.CanonicalInput.Exec.{
  Exec, Context, ◌>>=◌, continue, with_active, member, lift, Returns,
}

-- If the result is an error after which a union goes on, `Q` does not hold.
abbrev pub Refutes : {A : Type 0} → Type 0 → Result A → Type 0
Refutes Q (ok a) = Unit
Refutes Q (fail (Failure.canonical reason path)) = is_fatal reason ≡ false → Q → ⊥
Refutes Q (fail Failure.type_error) = Unit
Refutes Q (fail Failure.value_error) = Unit

pub Refutes-bind :
    {A B : Type 0} (Q : Type 0) (m : Result A) (f : A → Result B)
    → Refutes Q m
    → ((a : A) → m ≡ ok a → Refutes Q (f a))
    → Refutes Q (bind m f)
Refutes-bind Q (ok a) f y k = k a refl
Refutes-bind Q (fail (Failure.canonical reason path)) f y k = y
Refutes-bind Q (fail Failure.type_error) f y k = tt
Refutes-bind Q (fail Failure.value_error) f y k = tt

-- A step that `Q` gives a result does not fail where `Q` holds.
pub Refutes-ok : {A : Type 0} (Q : Type 0) (m : Result A) → (Q → (a : A) × (m ≡ ok a)) → Refutes Q m
Refutes-ok Q (ok a) k = tt
Refutes-ok Q (fail (Failure.canonical reason path)) k = λ goes_on q. cc (k q).1
Refutes-ok Q (fail Failure.type_error) k = tt
Refutes-ok Q (fail Failure.value_error) k = tt

pub Refutes-map : {A : Type 0} (P Q : Type 0) (m : Result A) → (Q → P) → Refutes P m → Refutes Q m
Refutes-map P Q (ok a) k y = tt
Refutes-map P Q (fail (Failure.canonical reason path)) k y = λ goes_on q. y goes_on (k q)
Refutes-map P Q (fail Failure.type_error) k y = tt
Refutes-map P Q (fail Failure.value_error) k y = tt

-- The same of an action, in every context.
pub record Denies {A : Type 0} (Q : Type 0) (m : Exec A) : Type 0 where
  pub at : (c : Context) → Refutes Q (m c).0

pub Denies-bind :
    {A B : Type 0} {Q : Type 0} (m : Exec A) {f : A → Exec B}
    → Denies Q m
    → ((a : A) → Returns m a → Denies Q (f a))
    → Denies Q (m >>= f)
unfolding ◌>>=◌
Denies-bind {A} {Q = Q} m {f} d k = record { at = λ c. go c (m c).0 refl (d.at c) }
  where
    go :
        (c : Context) (r : Result A)
        → (m c).0 ≡ r
        → Refutes Q r
        → Refutes Q (continue f r (m c).1).0
    go c (ok a) e y = (k a (c, e)).at (m c).1
    go c (fail (Failure.canonical reason path)) e y = y
    go c (fail Failure.type_error) e y = tt
    go c (fail Failure.value_error) e y = tt

pub Denies-lift : {A : Type 0} {Q : Type 0} (r : Result A) → Refutes Q r → Denies Q (lift r)
Denies-lift r y = record { at = λ c. y }

pub Denies-map : {A : Type 0} {P Q : Type 0} {m : Exec A} → (Q → P) → Denies P m → Denies Q m
Denies-map {P = P} {Q = Q} {m = m} k d = record { at = λ c. Refutes-map P Q (m c).0 k (d.at c) }

pub Denies-with_active :
    {A : Type 0} {Q : Type 0} (a : ℕ) (path : InputPath) {m : Exec A}
    → Denies Q m
    → Denies Q (with_active a (Failure.canonical Reason.cycle path) m)
unfolding with_active is_fatal
Denies-with_active a path d = record {
  at = λ c. elim (Bool-cases (member a c.active)) [
    | inl e ↦ rw e (λ goes_on q. cc goes_on)
    | inr e ↦ rw e (d.at (record c { active = a ∷ c.active }))
  ];
}
