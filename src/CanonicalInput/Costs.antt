-- ===== src/CanonicalInput/Costs.antt =====
-- The arrays of what `_encode_value` in canonical_input.py returns, and rules for what pays for them.
use semant_script.Prelude.{
  ℕ, ◌+◌, ◌≤◌, ◌≡◌, refl, false, List, [], ◌∷◌, map, arith, Bool-cases, inl, inr,
}
use semant_script.Prelude.Sort.{insert, sort}
use semant_script.Python.Text.{Text}
use semant_script.Python.Values.{Value}
use semant_script.CanonicalInput.Errors.{
  Result, ok, fail, is_fatal, Failure, Reason, InputPath, Yields,
}
use semant_script.CanonicalInput.Exec.{Exec, Context, lift}
use semant_script.CanonicalInput.Tree.{ExactJson, items, arrays, arrays_of}
use semant_script.CanonicalInput.Small.{Small}
use semant_script.CanonicalInput.Encode.{Encoder, check_room, or_else, name_le, pair}
use semant_script.CanonicalInput.Within.{Outcome, is_limit, Within, Within-pure, Within-lift}

-- A node's own arrays and the pair that may hold it are three at most.
abbrev pub node_weight : ExactJson → ℕ
node_weight t = arrays t + 1

abbrev pub IsEncoder : Encoder → Type 0
IsEncoder rec = (spec : ℕ) (v : Value) (path : InputPath) → Within 0 node_weight (rec spec v path)

-- Of a sequence: the pairs of an object, each with its array.
abbrev pub pair_arrays : List (Text × ExactJson) → ℕ
pair_arrays [] = 0
pair_arrays (p ∷ ps) = 1 + arrays p.1 + pair_arrays ps

pub arrays_of-map-pair :
    (ps : List (Text × ExactJson)) → arrays_of (items (map pair ps)) ≡ pair_arrays ps
unfolding arrays
arrays_of-map-pair [] = refl
arrays_of-map-pair (p ∷ ps) = omega (arith, arrays_of-map-pair ps)

pair_arrays-insert :
    (p : Text × ExactJson) (ps : List (Text × ExactJson))
    → pair_arrays (insert name_le p ps) ≡ 1 + arrays p.1 + pair_arrays ps
unfolding insert
pair_arrays-insert p [] = refl
pair_arrays-insert p (q ∷ qs) = elim (Bool-cases (name_le p q)) [
  | inl e ↦ rw e
  | inr e ↦ rw e (omega (arith, pair_arrays-insert p qs))
]

pub pair_arrays-sort :
    (ps : List (Text × ExactJson)) → pair_arrays (sort name_le ps) ≡ pair_arrays ps
unfolding sort
pair_arrays-sort [] = refl
pair_arrays-sort (p ∷ ps) =
    omega (arith, pair_arrays-insert p (sort name_le ps), pair_arrays-sort ps)

Yields-free : {A : Type 0} (n : ℕ) (r : Result A) → Yields (λ _. n ≤ n) r
Yields-free n (ok a) = omega arith
Yields-free n (fail e) = tt

-- What is lifted from code without a budget pays nothing.
pub lift-free : {A : Type 0} (credit : ℕ) (r : Result A) → Within credit (λ _. credit) (lift r)
lift-free credit r = Within-lift r (Yields-free credit r)

pub check_room-Within : (n : ℕ) (path : InputPath) → Within 3 (λ _. 3) (check_room n path)
unfolding check_room
check_room-Within n path c = record {
  active_kept = ground arith;
  grows = ground arith;
  paid = ground arith;
  bounded = ground arith;
}

pub Small→Within : (r : Result ExactJson) → Small r → Within 3 node_weight (lift r)
Small→Within (ok t) s = Within-pure t (omega arith)
Small→Within (fail e) s =
    λ c. record { active_kept = refl; grows = omega arith; paid = tt; bounded = λ b _. b }

-- After an error that is not fatal the work used stays used.
retry :
    (next : Exec ExactJson)
    → Within 3 node_weight next
    → {c c' : Context} {e : Failure} → is_limit {A = ExactJson} (fail e) ≡ false
    → Outcome {A = ExactJson} 3 node_weight c (fail e) c'
    → Outcome 3 node_weight c (next c').0 (next c').1
retry next wn {c} {c'} not_limit o = go (next c').0 (next c').1 (wn c')
  where
    go :
        (r : Result ExactJson) (d : Context)
        → Outcome 3 node_weight c' r d
        → Outcome 3 node_weight c r d
    go (ok t) d q = record {
      active_kept = cc (o.active_kept, q.active_kept);
      grows = omega (arith, o.grows, q.grows);
      paid = omega (arith, o.grows, q.paid);
      bounded = λ b e. q.bounded (o.bounded b not_limit) e;
    }
    go (fail e') d q = record {
      active_kept = cc (o.active_kept, q.active_kept);
      grows = omega (arith, o.grows, q.grows);
      paid = tt;
      bounded = λ b e. q.bounded (o.bounded b not_limit) e;
    }

fatal_limit :
    (reason : Reason) (path : InputPath)
    → is_fatal reason ≡ false
    → is_limit {A = ExactJson} (fail (Failure.canonical reason path)) ≡ false
unfolding is_fatal
fatal_limit Reason.limit path e = cc
fatal_limit _ path e = refl

pub or_else-Within :
    (next : Exec ExactJson)
    → Within 3 node_weight next
    → (c : Context) (r : Result ExactJson) (c' : Context) → Outcome 3 node_weight c r c'
    → Outcome 3 node_weight c (or_else next r c').0 (or_else next r c').1
unfolding or_else
or_else-Within next wn c (ok t) c' o = o
or_else-Within next wn c (fail (Failure.canonical reason path)) c' o =
    elim (Bool-cases (is_fatal reason)) [
      | inl e ↦ rw e o
      | inr e ↦ rw e (retry next wn (fatal_limit reason path e) o)
    ]
or_else-Within next wn c (fail e) c' o = o
