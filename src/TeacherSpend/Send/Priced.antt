-- ===== src/TeacherSpend/Send/Priced.antt =====
-- The amounts that `SpendMeter` of teacher_spend.py reserves and charges.
use semant_script.Prelude.{
  ℕ, ◌+◌, ◌≡◌, refl, sym, subst, inl, inr, Option, none, some, arith, Bool-cases, false, ◌<◌, ◌^◌,
  Bool,
}
use semant_script.Python.Text.{codes}
use semant_script.SemanticJson.Node.{Json}
use semant_script.TeacherSpend.Document.{usage_int}
use semant_script.TeacherSpend.Meter.{
  TeacherPrice, cost, cost_at, estimate_at, double, ceiling, tokens_for_characters,
  expected_output_tokens, reserve_token_margin, uncached_tokens, answered_tokens, Doubles,
  SpendMeter, Spent, estimate_request_usd, reserve, charge, charge_cost, charged,
}
use semant_script.TeacherSpend.Send.Stored.{spent_value, bind_spent-done}
use semant_script.Constraints.Numbers.{float_lt}

-- What `charge` does to the meter.
pub record Charged (doubles : Doubles) (usage : Json) (batch : Bool) (m : SpendMeter)
    (paid : ℕ × SpendMeter) : Type 0 where
  pub priced : charge_cost doubles usage batch m ≡ Spent.done paid.0
  pub requests : paid.1.requests ≡ m.requests + 1
  pub replayed : paid.1.replayed ≡ m.replayed
  pub cost : paid.1.cost_usd ≡ doubles.add m.cost_usd paid.0
  pub cap : paid.1.max_cost_usd ≡ m.max_cost_usd

module _ (doubles : Doubles) where
  pub charge-Charged :
      (usage : Json) (seconds : Option ℕ) (batch : Bool) (m : SpendMeter) (paid : ℕ × SpendMeter)
      → charge doubles usage seconds batch m ≡ Spent.done paid
      → Charged doubles usage batch m paid
  unfolding charge
  charge-Charged usage none batch m paid e =
      let (usd, priced, f) =
        bind_spent-done (charge_cost doubles usage batch m)
          (λ usd. Spent.done (charged doubles usage none m usd)) e in
      subst (Charged doubles usage batch m) (spent_value f)
        (record { priced = priced; requests = refl; replayed = refl; cost = refl; cap = refl })
  charge-Charged usage (some s) batch m paid e =
      let (usd, priced, f) =
        bind_spent-done (charge_cost doubles usage batch m)
          (λ usd. Spent.done (charged doubles usage (some s) m usd)) e in
      subst (Charged doubles usage batch m) (spent_value f)
        (record { priced = priced; requests = refl; replayed = refl; cost = refl; cap = refl })

  pub reserve-within :
      (usd cap : ℕ) (m : SpendMeter) (u : Unit {0})
      → reserve doubles usd m ≡ Spent.done u
      → m.max_cost_usd ≡ some cap
      → float_lt cap (doubles.add m.cost_usd usd) ≡ false
  unfolding reserve
  reserve-within usd cap m u e capped =
      elim (Bool-cases (float_lt cap (doubles.add m.cost_usd usd))) [
        | inl over ↦ absurd (cc (rw (capped, over) at e))
        | inr within ↦ within
      ]

-- The products and sums are the bits of doubles, and the sum is monotone.
pub record AreDoubles (doubles : Doubles) : Type 0 where
  pub add_bits : (x y : ℕ) → doubles.add x y < 2 ^ 64
  pub multiply_bits : (x y : ℕ) → doubles.multiply x y < 2 ^ 64
  pub monotone :
      (x y z : ℕ)
      → y < 2 ^ 64
      → z < 2 ^ 64
      → float_lt y z ≡ false
      → float_lt (doubles.add x y) (doubles.add x z) ≡ false

-- An amount is a product, or nothing if no price is known.
abbrev pub IsPriced : Doubles → Option TeacherPrice → ℕ → Type 0
IsPriced doubles none usd = usd ≡ 0
IsPriced doubles (some price) usd = (x y : ℕ) × (usd ≡ doubles.multiply x y)

module _ (doubles : Doubles) where
  pub IsPriced-bits :
      (ops : AreDoubles doubles) (price : Option TeacherPrice) (usd : ℕ)
      → IsPriced doubles price usd
      → usd < 2 ^ 64
  IsPriced-bits ops none usd e = rw e (omega arith)
  IsPriced-bits ops (some price) usd (x, y, e) = rw e (ops.multiply_bits x y)

  estimate_at-IsPriced :
      (characters : ℕ) (m : SpendMeter) (price : Option TeacherPrice) (usd : ℕ)
      → estimate_at doubles m characters false price ≡ Spent.done usd
      → IsPriced doubles price usd
  estimate_at-IsPriced characters m none usd e = sym (spent_value e)
  estimate_at-IsPriced characters m (some price) usd e =
      let (t, _, e₁) = bind_spent-done (tokens_for_characters doubles characters) _ e in
      let (x, _, e₂) = bind_spent-done (double t) _ e₁ in
      let (k, _, e₃) = bind_spent-done (ceiling (doubles.multiply x reserve_token_margin)) _ e₂ in
      let (n, _, e₄) = bind_spent-done (double k) _ e₃ in
      let (w, _, e₅) = bind_spent-done (expected_output_tokens doubles m) _ e₄ in
      let (z, _, e₆) = bind_spent-done (double w) _ e₅ in (_, _, sym (spent_value e₆))

  pub estimate_request_usd-IsPriced :
      (characters : ℕ) (m : SpendMeter) (usd : ℕ)
      → estimate_request_usd doubles characters false m ≡ Spent.done usd
      → IsPriced doubles m.price usd
  unfolding estimate_request_usd
  estimate_request_usd-IsPriced characters m usd e = estimate_at-IsPriced characters m m.price usd e

  cost_at-IsPriced :
      (price : Option TeacherPrice) (uncached output read written usd : ℕ)
      → cost_at doubles price uncached output read written false ≡ Spent.done usd
      → IsPriced doubles price usd
  unfolding cost
  cost_at-IsPriced none uncached output read written usd e = sym (spent_value e)
  cost_at-IsPriced (some price) uncached output read written usd e =
      let (i, _, e₁) = bind_spent-done (double uncached) _ e in
      let (k, _, e₂) = bind_spent-done (double output) _ e₁ in
      let (r, _, e₃) = bind_spent-done (double read) _ e₂ in
      let (w, _, e₄) = bind_spent-done (double written) _ e₃ in (_, _, sym (spent_value e₄))

  pub charge_cost-IsPriced :
      (usage : Json) (m : SpendMeter) (usd : ℕ)
      → charge_cost doubles usage false m ≡ Spent.done usd
      → IsPriced doubles m.price usd
  charge_cost-IsPriced usage m usd e =
      cost_at-IsPriced m.price (uncached_tokens usage) (answered_tokens usage)
        (usage_int (codes "cache_read_input_tokens") usage)
        (usage_int (codes "cache_creation_input_tokens") usage) usd e
