-- ===== src/Constraints/Safety.antt =====
-- The outcomes that a typed predicate of constraints.py can have, and how they are composed.
pub mod Kinds
pub mod Reading
pub mod Literals
pub mod Indexing
pub mod Index
pub mod Operators
pub mod Binary
pub mod Typed
use semant_script.Prelude.{
  ℕ, zero, suc, ◌+◌, ◌≤◌, ◌<◌, ◌^◌, ◌≡◌, refl, ◌⊎◌, inl, inr, Bool, true, false, ◌&&◌, [], ◌∷◌,
  length, Option, none, some, arith, Bool-cases, Option-cases, ltb, leb, if◌then◌else◌, ◌==◌,
}
use semant_script.Python.Text.{Text}
use semant_script.CanonicalInput.Errors.{ok, bind, bind-eq-ok}
use semant_script.Constraints.Scan
use semant_script.Constraints.Scan.{
  Budget, Scan, maximum_string_units, astral, utf16_length, consume_string_units,
}
use semant_script.Constraints.Eval.{
  EvaluationError, Reply, Datum, Eval, continue, ◌>>=◌, pure, raise, or_raise, from_scan,
}

-- What is raised of a predicate however it is typed: a result that is not finite, and the budget.
abbrev pub Allowed : EvaluationError → Type 0
Allowed EvaluationError.non_finite = Unit
Allowed EvaluationError.units = Unit
Allowed _ = ⊥

abbrev pub Outcome : {A : Type 0} → (A → Type 0) → Reply A → Type 0
Outcome P (Reply.value a) = P a
Outcome P (Reply.error r) = Allowed r

-- On any budget the action returns a value for which `P` holds, or raises what is allowed.
pub record Safe {A : Type 0} (P : A → Type 0) (m : Eval A) : Type 0 where
  pub run : (b : Budget) → Outcome P (m b).0

pub Safe-pure : {A : Type 0} {P : A → Type 0} (a : A) → P a → Safe P (pure a)
Safe-pure a p = record { run = λ b. p }

pub Safe-raise : {A : Type 0} {P : A → Type 0} (r : EvaluationError) → Allowed r → Safe P (raise r)
Safe-raise r p = record { run = λ b. p }

continue-Outcome :
    {A B : Type 0} {P : A → Type 0} {Q : B → Type 0} (f : A → Eval B) (r : Reply A) (b : Budget)
    → Outcome P r
    → ((a : A) → P a → Safe Q (f a))
    → Outcome Q (continue f r b).0
continue-Outcome f (Reply.value a) b p k = (k a p).run b
continue-Outcome f (Reply.error r) b p k = p

pub Safe-bind :
    {A B : Type 0} {P : A → Type 0} {Q : B → Type 0} (m : Eval A) (f : A → Eval B)
    → Safe P m
    → ((a : A) → P a → Safe Q (f a))
    → Safe Q (m >>= f)
unfolding ◌>>=◌
Safe-bind m f s k = record { run = λ b. continue-Outcome f (m b).0 (m b).1 (s.run b) k }

pub Safe-pure-bind :
    {A B : Type 0} {Q : B → Type 0} (a : A) (f : A → Eval B) → Safe Q (f a) → Safe Q (pure a >>= f)
unfolding ◌>>=◌
Safe-pure-bind a f s = record { run = s.run }

map-Outcome :
    {A : Type 0} {P Q : A → Type 0} (r : Reply A)
    → Outcome P r
    → ((a : A) → P a → Q a)
    → Outcome Q r
map-Outcome (Reply.value a) p k = k a p
map-Outcome (Reply.error r) p k = p

pub Safe-map :
    {A : Type 0} {P Q : A → Type 0} (m : Eval A) → Safe P m → ((a : A) → P a → Q a) → Safe Q m
Safe-map m s k = record { run = λ b. map-Outcome (m b).0 (s.run b) k }

pub Safe-or_raise :
    {A : Type 0} (r : EvaluationError) (o : Option A)
    → Allowed r
    → Safe (λ a. Unit {0}) (or_raise r o)
Safe-or_raise r none p = Safe-raise r p
Safe-or_raise r (some a) p = Safe-pure a tt

-- what a from_scan returns, on every budget
scanned-Outcome :
    {A : Type 0} {P : A → Type 0} (m : Scan A) (b : Budget)
    → ((a : A) → (m b).0 ≡ some a → P a)
    → Outcome P (from_scan m b).0
unfolding from_scan
scanned-Outcome m b k = elim (Option-cases (m b).0) [ inl e ↦ rw e tt | inr (a, e) ↦ rw e (k a e) ]

pub Safe-from_scan :
    {A : Type 0} {P : A → Type 0} (m : Scan A)
    → ((b : Budget) (a : A) → (m b).0 ≡ some a → P a)
    → Safe P (from_scan m)
Safe-from_scan m k = record { run = λ b. scanned-Outcome m b (k b) }

-- A length that the budget allows is at most the budget.
pub utf16_length-le :
    (s : Text) (b : Budget) (n : ℕ) → (utf16_length s b).0 ≡ some n → n ≤ maximum_string_units
unfolding utf16_length consume_string_units Scan.◌>>=◌
utf16_length-le s b n e = ground arith
