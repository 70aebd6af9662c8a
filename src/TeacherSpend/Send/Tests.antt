-- ===== src/TeacherSpend/Send/Tests.antt =====
-- A run of `_send` of teachers/anthropic.py that pays for two requests below its cap.
use semant_script.Prelude.{
  ℕ, zero, suc, ◌+◌, ◌-◌, ◌*◌, ◌/◌, ◌^◌, ◌≤◌, ◌<◌, ltb, Bool-cases, inl, inr, ◌≡◌, refl, ap, subst,
  true, false, List, [], ◌∷◌, some, if◌then◌else◌, leb, arith,
}
use semant_script.Python.Text.{codes}
use semant_script.Python.Float.{pos, is_zero}
use semant_script.SemanticJson.Node.{Json, Members}
use semant_script.Constraints.Numbers.{float_lt}
use semant_script.TeacherSpend.Document.{field, entry, usage_int}
use semant_script.TeacherSpend.Journal.{new_journal, Outside}
use semant_script.TeacherSpend.Meter.{
  Doubles, SpendMeter, SpendError, Spent, TeacherPrice, charge, charge_cost, estimate_request_usd,
}
use semant_script.TeacherSpend.Send.{Run, Answer, send, send_all}
use semant_script.TeacherSpend.Send.Priced.{AreDoubles}
use semant_script.TeacherSpend.Send.Cap.{
  AtMostReserved, Estimated, WithinCap, handled, send_all-WithinCap,
}

-- The value of a double that is not negative, in units of `2 ^ -1074`, and the double of such a value,
-- rounded toward zero. 2,200 rounds are enough: there are 2,046 exponents.
unfoldable units : ℕ → ℕ → ℕ
units zero x = x
units (suc rounds) x = if ltb x (2 ^ 53) then x else 2 * units rounds (x - 2 ^ 52)

unfoldable to_double : ℕ → ℕ → ℕ → ℕ
to_double zero e n = e * 2 ^ 52 + 2 ^ 53
to_double (suc rounds) e n =
    if ltb n (2 ^ 53) then e * 2 ^ 52 + n else to_double rounds (e + 1) (n / 2)

units-lower : (rounds x : ℕ) → 2 ^ 52 ≤ x → 2 ^ 52 ≤ units rounds x
unfolding units
units-lower zero x le = le
units-lower (suc rounds) x le = elim (Bool-cases (ltb x (2 ^ 53))) [
  | inl low ↦ rw low le
  | inr high ↦
      rw high (let ih = units-lower rounds (x - 2 ^ 52) (ground (arith, high)) in omega (arith, ih))
]

units-monotone : (rounds x y : ℕ) → x ≤ y → units rounds x ≤ units rounds y
unfolding units
units-monotone zero x y le = le
units-monotone (suc rounds) x y le =
    ground
      (arith, le, units-monotone rounds (x - 2 ^ 52) (y - 2 ^ 52), units-lower rounds (y - 2 ^ 52))

to_double-lower : (rounds e n : ℕ) → 2 ^ 52 ≤ n → e * 2 ^ 52 + 2 ^ 52 ≤ to_double rounds e n
unfolding to_double
to_double-lower zero e n le = omega arith
to_double-lower (suc rounds) e n le = elim (Bool-cases (ltb n (2 ^ 53))) [
  | inl low ↦ rw low (omega (arith, le))
  | inr high ↦
      rw high (
        let ih = to_double-lower rounds (e + 1) (n / 2) (ground (arith, high)) in omega (arith, ih))
]

to_double-monotone : (rounds e n m : ℕ) → n ≤ m → to_double rounds e n ≤ to_double rounds e m
unfolding to_double
to_double-monotone zero e n m le = omega arith
to_double-monotone (suc rounds) e n m le = ground (
  arith,
  le,
  to_double-monotone rounds (e + 1) (n / 2) (m / 2),
  to_double-lower rounds (e + 1) (m / 2),
)

-- a negative number counts as 0, and the largest bits stand for what is too large
abbrev part : ℕ → ℕ
part y = if leb (2 ^ 63) y then 0 else y

abbrev value : ℕ → ℕ
value x = units 2200 (part x)

abbrev largest : ℕ → ℕ
largest n = if leb (2 ^ 63) n then 2 ^ 63 - 1 else n

abbrev rounded : ℕ → ℕ
rounded n = largest (to_double 2200 0 n)

-- the sum, product and quotient of doubles that are not negative, rounded toward zero
abbrev doubles : Doubles
doubles = record {
  add = λ x y. rounded (value x + value y);
  multiply = λ x y. rounded (value x * value y / 2 ^ 1074);
  divide = λ x y. rounded (value x * 2 ^ 1074 / value y);
}

largest-bits : (n : ℕ) → largest n < 2 ^ 64
largest-bits n = ground arith

part-le : (y z : ℕ) → y < 2 ^ 64 → z < 2 ^ 64 → float_lt y z ≡ false → part z ≤ part y
unfolding float_lt is_zero
part-le y z by bz e = ground arith

le-largest : (n m : ℕ) → m ≤ n → float_lt (largest n) (largest m) ≡ false
unfolding float_lt is_zero
le-largest n m le = ground arith

are_doubles : AreDoubles doubles
are_doubles = record {
  add_bits = λ x y. largest-bits (to_double 2200 0 (value x + value y));
  multiply_bits = λ x y. largest-bits (to_double 2200 0 (value x * value y / 2 ^ 1074));
  monotone = λ x y z by bz e.
      let values = units-monotone 2200 (part z) (part y) (part-le y z by bz e) in
      le-largest (to_double 2200 0 (value x + value y)) (to_double 2200 0 (value x + value z))
        (to_double-monotone 2200 0 (value x + value z) (value x + value y) (omega (arith, values)));
}

abbrev outside : Outside
outside = record { digest = λ p. codes "0a"; writable = λ p. true; removable = λ p. true }

abbrev characters : Json → ℕ
characters params = 5468

-- 2.0, 10.0, 0.2 and 2.5 USD per million tokens
abbrev price : TeacherPrice
price = record {
  input_usd_per_million = 0x4000000000000000;
  output_usd_per_million = 0x4024000000000000;
  cache_read_usd_per_million = 0x3FC999999999999A;
  cache_write_usd_per_million = 0x4004000000000000;
  batch_multiplier = 0x3FE0000000000000;
}

abbrev meter : SpendMeter
meter = record {
  price = some price;
  max_cost_usd = some 0x3F947AE147AE147B;
  requests = 0;
  replayed = 0;
  input_tokens = 0;
  output_tokens = 0;
  cache_read_tokens = 0;
  cache_write_tokens = 0;
  cost_usd = 0;
  seconds = 0;
  timed_requests = 0;
  largest_output_tokens = 0;
}

abbrev answer : Answer
answer = record {
  message = Json.dict (
      entry "usage"
        (Json.dict (
          entry "input_tokens" (Json.int (pos 2611))
            (entry "output_tokens" (Json.int (pos 68)) Members.no_members)))
        Members.no_members);
  seconds = 0;
}

abbrev requests : List (Json × Answer)
requests = (Json.null, answer) ∷ (Json.null, answer) ∷ []

abbrev start : Run
start = record { disk = []; journal = new_journal; meter = meter }

abbrev ended : Spent (List Json × Run) → List Json × Run
ended (Spent.done t) = t
ended (Spent.raised e) = ([], start)

abbrev end : List Json × Run
end = ended (send_all doubles outside characters requests start)

abbrev sent : Spent (Json × Run) → Run
sent (Spent.done s) = s.1
sent (Spent.raised e) = start

-- the run after its first request
abbrev middle : Run
middle = sent (send doubles outside characters Json.null answer start)

abbrev figure : Spent ℕ → ℕ
figure (Spent.done x) = x
figure (Spent.raised e) = 0

run_ends : send_all doubles outside characters requests start ≡ Spent.done end
unfolding send_all to_double units
run_ends = refl

third_is_refused :
    send_all doubles outside characters ((Json.null, answer) ∷ requests) start
    ≡ Spent.raised SpendError.budget_exceeded
unfolding send_all to_double units
third_is_refused = refl

reserved-value :
    (m : SpendMeter) (usd : ℕ)
    → estimate_request_usd doubles 5468 false m ≡ Spent.done usd
    → figure (estimate_request_usd doubles 5468 false m) ≡ usd
reserved-value m usd e = ap figure e

charged-value :
    (m : SpendMeter) (c : ℕ)
    → charge_cost doubles (field (codes "usage") answer.message) false m ≡ Spent.done c
    → figure (charge_cost doubles (field (codes "usage") answer.message) false m) ≡ c
charged-value m c e = ap figure e

-- about 0.0092 USD are reserved for each request, and about 0.0059 are charged
first_estimated : AtMostReserved doubles characters Json.null answer meter
unfolding estimate_request_usd charge usage_int to_double units float_lt is_zero
first_estimated usd c e f = rw (← reserved-value meter usd e, ← charged-value meter c f) refl

second_estimated : AtMostReserved doubles characters Json.null answer middle.meter
unfolding estimate_request_usd charge usage_int to_double units float_lt is_zero send
second_estimated usd c e f =
    rw (← reserved-value middle.meter usd e, ← charged-value middle.meter c f) refl

first_ends :
    (s : Json × Run)
    → send doubles outside characters Json.null answer start ≡ Spent.done s
    → middle ≡ s.1
first_ends s e = ap sent e

estimated : Estimated doubles outside characters requests start
estimated = (
  λ absent. first_estimated,
  λ s e.
      subst (Estimated doubles outside characters ((Json.null, answer) ∷ [])) (first_ends s e)
        (λ absent. second_estimated, λ s e. tt),
)

some_value : {A : Type 0} {a b : A} → some a ≡ some b → a ≡ b
some_value e = cc

within : WithinCap meter
unfolding float_lt is_zero
within cap e = rw (← some_value e) (omega arith, refl)

send_all-WithinCap_example : WithinCap end.1.meter × (handled end.1.meter ≡ handled meter + 2)
send_all-WithinCap_example =
    send_all-WithinCap doubles outside characters are_doubles requests start end estimated run_ends
      within
