-- ===== src/CanonicalInput/Within.antt =====
-- Rules for actions of the serializer: the active set, and the work budget against the size of what
-- is returned.
use semant_script.Prelude.{
  ℕ, ◌+◌, ◌*◌, ◌≤◌, ◌≡◌, refl, Bool, true, false, List, ◌∷◌, arith, Bool-cases, inl, inr,
  if◌then◌else◌,
}
use semant_script.CanonicalInput.Errors.{Result, ok, fail, Failure, Reason, InputPath, Yields}
use semant_script.CanonicalInput.Exec.{
  Exec, Context, pure, lift, raise, continue, ◌>>=◌, consume_work, with_active, member, remove,
  maximum_input_nodes,
}

-- The weight of what was returned is paid by the work used, three for each node, and by `credit`.
abbrev pub Paid : {A : Type 0} → ℕ → (A → ℕ) → ℕ → ℕ → Result A → Type 0
Paid credit weight before after (ok a) = before * 3 + weight a ≤ after * 3 + credit
Paid credit weight before after (fail e) = Unit

abbrev pub is_limit : {A : Type 0} → Result A → Bool
is_limit (fail (Failure.canonical Reason.limit path)) = true
is_limit _ = false

-- Only the limit's own error leaves more work used than is allowed.
pub record Outcome {A : Type 0} (credit : ℕ) (weight : A → ℕ) (c : Context) (r : Result A)
    (c' : Context) : Type 0 where
  pub active_kept : c'.active ≡ c.active
  pub grows : c.used ≤ c'.used
  pub paid : Paid credit weight c.used c'.used r
  pub bounded : c.used ≤ maximum_input_nodes → is_limit r ≡ false → c'.used ≤ maximum_input_nodes

abbrev pub Within : {A : Type 0} → ℕ → (A → ℕ) → Exec A → Type 0
Within credit weight m = (c : Context) → Outcome credit weight c (m c).0 (m c).1

module _ {A : Type 0} {credit : ℕ} {weight : A → ℕ} where
  pub Within-pure : (a : A) → weight a ≤ credit → Within credit weight (pure a)
  Within-pure a e c = record {
    active_kept = refl;
    grows = omega arith;
    paid = omega arith;
    bounded = λ b _. b;
  }

  pub Within-raise : (reason : Reason) (path : InputPath) → Within credit weight (raise reason path)
  Within-raise reason path c = record {
    active_kept = refl;
    grows = omega arith;
    paid = tt;
    bounded = λ b _. b;
  }

  pub Within-lift :
      (r : Result A) → Yields (λ a. weight a ≤ credit) r → Within credit weight (lift r)
  Within-lift (ok a) k c = record {
    active_kept = refl;
    grows = omega arith;
    paid = omega arith;
    bounded = λ b _. b;
  }
  Within-lift (fail e) k c = record {
    active_kept = refl;
    grows = omega arith;
    paid = tt;
    bounded = λ b _. b;
  }

  pub Within-if :
      (b : Bool) {m n : Exec A}
      → Within credit weight m
      → Within credit weight n
      → Within credit weight (if b then m else n)
  Within-if true m n = m
  Within-if false m n = n

  -- Weights go down, and credits up.
  pub Within-weaken :
      {credit' : ℕ} {weight' : A → ℕ} (m : Exec A)
      → credit' ≤ credit
      → ((a : A) → weight a ≤ weight' a)
      → Within credit' weight' m
      → Within credit weight m
  Within-weaken {credit'} {weight'} m le k w c = go (m c).0 (w c)
    where
      go : (r : Result A) → Outcome credit' weight' c r (m c).1 → Outcome credit weight c r (m c).1
      go (ok a) o = record {
        active_kept = o.active_kept;
        grows = o.grows;
        paid = omega (arith, k a, o.paid);
        bounded = o.bounded;
      }
      go (fail e) o = record {
        active_kept = o.active_kept;
        grows = o.grows;
        paid = tt;
        bounded = o.bounded;
      }

module _ {A B : Type 0} {credit : ℕ} {weight : B → ℕ} where
  pub Within-bind :
      (middle : A → ℕ) {m : Exec A} {f : A → Exec B}
      → Within credit middle m
      → ((a : A) → Within (middle a) weight (f a))
      → Within credit weight (m >>= f)
  unfolding ◌>>=◌
  Within-bind middle {m} {f} wm wf c = go (m c).0 (m c).1 (wm c)
    where
      go :
          (r : Result A) (c' : Context)
          → Outcome credit middle c r c'
          → Outcome credit weight c (continue f r c').0 (continue f r c').1
      go (fail e) c' o = record {
        active_kept = o.active_kept;
        grows = o.grows;
        paid = tt;
        bounded = o.bounded;
      }
      go (ok a) c' o = chain (f a c').0 (f a c').1 (wf a c')
        where
          chain :
              (r : Result B) (d : Context)
              → Outcome (middle a) weight c' r d
              → Outcome credit weight c r d
          chain (ok b) d q = record {
            active_kept = cc (o.active_kept, q.active_kept);
            grows = omega (arith, o.grows, q.grows);
            paid = omega (arith, o.paid, q.paid);
            bounded = λ b e. q.bounded (o.bounded b refl) e;
          }
          chain (fail e) d q = record {
            active_kept = cc (o.active_kept, q.active_kept);
            grows = omega (arith, o.grows, q.grows);
            paid = tt;
            bounded = λ b e. q.bounded (o.bounded b refl) e;
          }

-- An action that pays for its result leaves a further credit untouched.
pub Within-frame :
    {A : Type 0} {weight : A → ℕ} (extra : ℕ) {m : Exec A}
    → Within 0 weight m
    → Within extra (λ a. weight a + extra) m
Within-frame {A} {weight} extra {m} w c = go (m c).0 (w c)
  where
    go :
        (r : Result A)
        → Outcome 0 weight c r (m c).1
        → Outcome extra (λ a. weight a + extra) c r (m c).1
    go (ok a) o = record {
      active_kept = o.active_kept;
      grows = o.grows;
      paid = omega (arith, o.paid);
      bounded = o.bounded;
    }
    go (fail e) o = record {
      active_kept = o.active_kept;
      grows = o.grows;
      paid = tt;
      bounded = o.bounded;
    }

-- A node is worth three.
pub Within-consume_work : (path : InputPath) → Within 0 (λ _. 3) (consume_work path)
unfolding consume_work
Within-consume_work path c = record {
  active_kept = ground arith;
  grows = ground arith;
  paid = ground arith;
  bounded = ground arith;
}

remove_self : (a : ℕ) (bs : List ℕ) → remove a (a ∷ bs) ≡ bs
remove_self a bs = ground arith

pub Within-with_active :
    {A : Type 0} {credit : ℕ} {weight : A → ℕ} (a : ℕ) (reason : Reason) (path : InputPath)
    {m : Exec A}
    → Within credit weight m
    → Within credit weight (with_active a (Failure.canonical reason path) m)
unfolding with_active
Within-with_active a reason path {m} w c = elim (Bool-cases (member a c.active)) [
  | inl e ↦ rw e (Within-raise reason path c)
  | inr e ↦
      let o = w (record c { active = a ∷ c.active }) in
      rw e (record {
        active_kept = rw o.active_kept (remove_self a c.active);
        grows = o.grows;
        paid = o.paid;
        bounded = o.bounded;
      })
]
