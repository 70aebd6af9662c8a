-- ===== src/TeacherSpend/Send/Cap.antt =====
-- `_send` of teachers/anthropic.py and the spend cap: what a run counts and what it may cost.
use semant_script.Prelude.{
  ℕ, suc, ◌+◌, ◌≡◌, sym, ap, subst, ◌∙◌, inl, inr, List, [], ◌∷◌, Option, none, some, length, arith,
  false, ◌<◌, ◌^◌,
}
use semant_script.Python.Text.{Text, codes}
use semant_script.SemanticJson.Node.{Json}
use semant_script.TeacherSpend.Document.{field}
use semant_script.TeacherSpend.Journal.{Disk, Journal, Outside, next_key, load, store}
use semant_script.TeacherSpend.Meter.{
  Doubles, SpendMeter, Spent, estimate_request_usd, reserve, charge, charge_cost, replay,
}
use semant_script.TeacherSpend.Send.{Run, Answer, stored_run, send_paid, send, send_all}
use semant_script.TeacherSpend.Send.Stored.{load-cases, spent_value, bind_spent-done}
use semant_script.TeacherSpend.Send.Priced.{
  Charged, charge-Charged, reserve-within, AreDoubles, IsPriced, IsPriced-bits,
  estimate_request_usd-IsPriced, charge_cost-IsPriced,
}
use semant_script.TeacherSpend.Send.Order.{float_lt_trans}
use semant_script.Constraints.Numbers.{float_lt}

stored_run-meter :
    (message : Json) (m : SpendMeter) (o : Option (Disk × Journal)) (s : Json × Run)
    → stored_run message m o ≡ Spent.done s
    → m ≡ s.1.meter
stored_run-meter message m none s e = cc
stored_run-meter message m (some (d, j)) s e = ap (λ (s : Json × Run). s.1.meter) (spent_value e)

-- The cost is not above the cap, if there is one, and the cap is the bits of a double.
abbrev pub WithinCap : SpendMeter → Type 0
WithinCap m =
    (cap : ℕ) → m.max_cost_usd ≡ some cap → (cap < 2 ^ 64) × (float_lt cap m.cost_usd ≡ false)

-- the requests that were paid and those that were replayed
abbrev pub handled : SpendMeter → ℕ
handled m = m.requests + m.replayed

-- What is charged for the answer is not above what the meter reserves for it.
abbrev pub AtMostReserved : Doubles → (Json → ℕ) → Json → Answer → SpendMeter → Type 0
AtMostReserved doubles prompt_characters params a m =
    (usd c : ℕ)
    → estimate_request_usd doubles (prompt_characters params) false m ≡ Spent.done usd
    → charge_cost doubles (field (codes "usage") a.message) false m ≡ Spent.done c
    → float_lt usd c ≡ false

-- No request of the run that is sent costs more than the meter, as the run has left it, reserves.
abbrev pub Estimated : Doubles → Outside → (Json → ℕ) → List (Json × Answer) → Run → Type 0
Estimated doubles o prompt_characters [] r = Unit
Estimated doubles o prompt_characters ((params, a) ∷ xs) r =
    let keyed = next_key o params r.journal in
    ((load keyed.0 r.disk keyed.1).0 ≡ none
      → AtMostReserved doubles prompt_characters params a r.meter)
    × ((s : Json × Run)
        → send doubles o prompt_characters params a r ≡ Spent.done s
        → Estimated doubles o prompt_characters xs s.1)

abbrev Kept : SpendMeter → SpendMeter → Type 0
Kept m n = (WithinCap m → WithinCap n) × (handled n ≡ handled m + 1)

module _ (doubles : Doubles) (o : Outside) (prompt_characters : Json → ℕ)
    (ops : AreDoubles doubles) where
  paid-Kept :
      (usage : Json) (m : SpendMeter) (usd : ℕ) (u : Unit {0}) (paid : ℕ × SpendMeter)
      → reserve doubles usd m ≡ Spent.done u
      → IsPriced doubles m.price usd
      → Charged doubles usage false m paid
      → float_lt usd paid.0 ≡ false
      → Kept m paid.1
  paid-Kept usage m usd u paid reserved p c above = (
    λ within cap capped.
        let was = sym c.cap ∙ capped in
        let low = (within cap was).0 in
        (
          low,
          rw c.cost (
              float_lt_trans cap (doubles.add m.cost_usd usd) (doubles.add m.cost_usd paid.0) low
                (ops.add_bits m.cost_usd usd) (ops.add_bits m.cost_usd paid.0)
                (reserve-within doubles usd cap m u reserved was)
                (ops.monotone m.cost_usd usd paid.0 (IsPriced-bits doubles ops m.price usd p)
                  (IsPriced-bits doubles ops m.price paid.0
                    (charge_cost-IsPriced doubles usage m paid.0 c.priced))
                  above)),
        ),
    omega (arith, c.requests, c.replayed),
  )

  send_paid-Kept :
      (key : Text) (params : Json) (a : Answer) (d : Disk) (j : Journal) (m : SpendMeter)
      (s : Json × Run)
      → AtMostReserved doubles prompt_characters params a m
      → send_paid doubles o prompt_characters key params a d j m ≡ Spent.done s
      → Kept m s.1.meter
  unfolding send_paid
  send_paid-Kept key params a d j m s estimated e =
      let usage = field (codes "usage") a.message in
      let (usd, f, e₁) =
        bind_spent-done (estimate_request_usd doubles (prompt_characters params) false m) _ e in
      let (u, reserved, e₂) = bind_spent-done (reserve doubles usd m) _ e₁ in
      let (paid, g, e₃) = bind_spent-done (charge doubles usage (some a.seconds) false m) _ e₂ in
      let c = charge-Charged doubles usage (some a.seconds) false m paid g in
      subst (Kept m) (stored_run-meter a.message paid.1 (store o key a.message d j) s e₃) (
        paid-Kept usage m usd u paid reserved
          (estimate_request_usd-IsPriced doubles (prompt_characters params) m usd f) c
          (estimated usd paid.0 f c.priced))

  send-Kept :
      (params : Json) (a : Answer) (r : Run) (s : Json × Run)
      → ((load (next_key o params r.journal).0 r.disk (next_key o params r.journal).1).0 ≡ none
          → AtMostReserved doubles prompt_characters params a r.meter)
      → send doubles o prompt_characters params a r ≡ Spent.done s
      → Kept r.meter s.1.meter
  unfolding send replay
  send-Kept params a r s estimated e =
      let key = (next_key o params r.journal).0 in
      let j = (next_key o params r.journal).1 in
      elim (load-cases key r.disk j) [
        | inl (stored, f) ↦
            subst (λ (s : Json × Run). Kept r.meter s.1.meter) (spent_value (rw f at e))
              (λ within. within, omega arith)
        | inr f ↦
            send_paid-Kept key params a r.disk j r.meter s (estimated (ap (λ l. l.0) f)) (rw f at e)
      ]

  -- A run that ends without an error and starts with a cost that is not above its cap ends so, and
  -- counts each of its requests once, as paid or as replayed. This holds if none of its requests that
  -- is sent costs more than the meter, as the run has left it, reserves for it, products and sums are
  -- doubles, and the sum is monotone.
  pub send_all-WithinCap :
      (xs : List (Json × Answer)) (r : Run) (t : List Json × Run)
      → Estimated doubles o prompt_characters xs r
      → send_all doubles o prompt_characters xs r ≡ Spent.done t
      → WithinCap r.meter
      → WithinCap t.1.meter × (handled t.1.meter ≡ handled r.meter + length xs)
  unfolding send_all
  send_all-WithinCap [] r t estimated e within =
      subst
        (λ (t : List Json × Run). WithinCap t.1.meter × (handled t.1.meter ≡ handled r.meter + 0))
        (spent_value e) (within, omega arith)
  send_all-WithinCap ((params, a) ∷ xs) r t (estimated, others) e within =
      let (s, e₁, e₂) = bind_spent-done (send doubles o prompt_characters params a r) _ e in
      let (u, e₃, e₄) = bind_spent-done (send_all doubles o prompt_characters xs s.1) _ e₂ in
      let (keeps, counts) = send-Kept params a r s estimated e₁ in
      let (low, count) = send_all-WithinCap xs s.1 u (others s e₁) e₃ (keeps within) in
      subst
        (λ (t : List Json × Run).
          WithinCap t.1.meter × (handled t.1.meter ≡ handled r.meter + suc (length xs)))
        (spent_value e₄) (low, omega (arith, count, counts))
