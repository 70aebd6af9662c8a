-- ===== src/TeacherSpend/Meter.antt =====
-- `TeacherPrice` and `SpendMeter` of teacher_spend.py, without the line that is printed. The sum, the
-- product and the quotient of doubles are parameters; a double is its bits, and no NaN.
use semant_script.Prelude.{
  ℕ, ◌+◌, ◌*◌, ◌-◌, ◌/◌, ◌^◌, Bool, Option, none, some, leb, ◌==◌, if◌then◌else◌,
}
use semant_script.Python.Text.{codes}
use semant_script.Python.Float.{is_zero, is_finite, exponent_bits, mantissa_bits, float_of_nat}
use semant_script.SemanticJson.Node.{Json}
use semant_script.Constraints.Numbers.{float_lt}
use semant_script.TeacherSpend.Document.{usage_int}

pub record Doubles : Type 0 where
  pub add : ℕ → ℕ → ℕ
  pub multiply : ℕ → ℕ → ℕ
  pub divide : ℕ → ℕ → ℕ

-- USD per million tokens
pub record TeacherPrice : Type 0 where
  pub input_usd_per_million : ℕ
  pub output_usd_per_million : ℕ
  pub cache_read_usd_per_million : ℕ
  pub cache_write_usd_per_million : ℕ
  pub batch_multiplier : ℕ

-- What a run has used.
pub record SpendMeter : Type 0 where
  pub price : Option TeacherPrice
  pub max_cost_usd : Option ℕ
  pub requests : ℕ
  pub replayed : ℕ
  pub input_tokens : ℕ
  pub output_tokens : ℕ
  pub cache_read_tokens : ℕ
  pub cache_write_tokens : ℕ
  pub cost_usd : ℕ
  pub seconds : ℕ
  pub timed_requests : ℕ
  pub largest_output_tokens : ℕ

-- The errors of the meter and the journal: the cap, and an OverflowError or a TypeError.
pub data SpendError : Type 0 where
  budget_exceeded overflow type_error : SpendError

pub data Spent (A : Type 0) : Type 0 where
  done : A → Spent A
  raised : SpendError → Spent A

abbrev pub bind_spent : {A B : Type 0} → Spent A → (A → Spent B) → Spent B
bind_spent (Spent.done a) f = f a
bind_spent (Spent.raised e) f = Spent.raised e

-- the double of an int
unfoldable pub double : ℕ → Spent ℕ
unfolding float_of_nat
double n = elim (float_of_nat n) [ none ↦ Spent.raised SpendError.overflow | some x ↦ Spent.done x ]

abbrev ceiling_of : ℕ → ℕ → ℕ
ceiling_of exponent significand =
    if leb 1075 exponent
    then significand * 2 ^ (exponent - 1075)
    else (significand + 2 ^ (1075 - exponent) - 1) / 2 ^ (1075 - exponent)

-- `math.ceil` of a double that is not negative and no NaN; an infinity is an OverflowError
unfoldable pub ceiling : ℕ → Spent ℕ
unfolding is_zero is_finite
ceiling x =
    if is_zero x
    then Spent.done 0
    else if is_finite x
    then Spent.done (ceiling_of (exponent_bits x) (2 ^ 52 + mantissa_bits x))
    else Spent.raised SpendError.overflow

-- 1_000_000, 1.0, CHARACTERS_PER_TOKEN 2.1, RESERVE_TOKEN_MARGIN 1.2 and 1.25
abbrev pub million : ℕ
million = 0x412E848000000000

abbrev pub one : ℕ
one = 0x3FF0000000000000

abbrev pub characters_per_token : ℕ
characters_per_token = 0x4000CCCCCCCCCCCD

abbrev pub reserve_token_margin : ℕ
reserve_token_margin = 0x3FF3333333333333

abbrev pub a_quarter_on_top : ℕ
a_quarter_on_top = 0x3FF4000000000000

abbrev pub default_output_tokens : ℕ
default_output_tokens = 110

abbrev pub max : ℕ → ℕ → ℕ
max a b = if leb a b then b else a

abbrev pub max_float : ℕ → ℕ → ℕ
max_float x y = if float_lt x y then y else x

abbrev pub first_nonzero : ℕ → ℕ → ℕ
first_nonzero a b = if a == 0 then b else a

-- `uncached` and `output` of a usage
abbrev pub uncached_tokens : Json → ℕ
uncached_tokens usage =
    first_nonzero (usage_int (codes "input_tokens") usage) (usage_int (codes "prompt_tokens") usage)

abbrev pub answered_tokens : Json → ℕ
answered_tokens usage =
    first_nonzero (usage_int (codes "output_tokens") usage)
      (usage_int (codes "completion_tokens") usage)

-- `TeacherPrice.cost` where every count is an int
module _ (doubles : Doubles) where
  abbrev scaled : TeacherPrice → Bool → ℕ → ℕ
  scaled price batch total = doubles.multiply total (if batch then price.batch_multiplier else one)

  unfoldable pub cost : TeacherPrice → ℕ → ℕ → ℕ → ℕ → Bool → Spent ℕ
  unfolding double
  cost price input_tokens output_tokens read written batch = bind_spent (double input_tokens) λ i.
      bind_spent (double output_tokens) λ o. bind_spent (double read) λ r.
        bind_spent (double written) λ w. Spent.done (
          scaled price batch (
            doubles.divide
              (doubles.add
                (doubles.add
                  (doubles.add (doubles.multiply i price.input_usd_per_million)
                    (doubles.multiply o price.output_usd_per_million))
                  (doubles.multiply r price.cache_read_usd_per_million))
                (doubles.multiply w price.cache_write_usd_per_million))
              million))

  -- `tokens_for_characters`
  unfoldable pub tokens_for_characters : ℕ → Spent ℕ
  unfolding double ceiling
  tokens_for_characters characters =
      bind_spent (double characters) λ x. ceiling (doubles.divide x characters_per_token)

  -- `expected_output_tokens`
  unfoldable pub expected_output_tokens : SpendMeter → Spent ℕ
  unfolding double ceiling
  expected_output_tokens m =
      bind_spent (double (max default_output_tokens m.largest_output_tokens))
        λ x. ceiling (doubles.multiply x a_quarter_on_top)

  abbrev pub estimate_at : SpendMeter → ℕ → Bool → Option TeacherPrice → Spent ℕ
  estimate_at m prompt_characters batch none = Spent.done 0
  estimate_at m prompt_characters batch (some price) =
      bind_spent (tokens_for_characters prompt_characters) λ t. bind_spent (double t) λ x.
        bind_spent (ceiling (doubles.multiply x reserve_token_margin)) λ reserved.
          bind_spent (double reserved) λ tokens. bind_spent (expected_output_tokens m) λ e.
            bind_spent (double e) λ output. Spent.done (
              scaled price batch (
                doubles.divide
                  (doubles.add
                    (doubles.multiply tokens
                      (max_float price.input_usd_per_million price.cache_write_usd_per_million))
                    (doubles.multiply output price.output_usd_per_million))
                  million))

  -- `estimate_request_usd`
  unfoldable pub estimate_request_usd : ℕ → Bool → SpendMeter → Spent ℕ
  unfolding double ceiling tokens_for_characters expected_output_tokens float_lt
  estimate_request_usd prompt_characters batch m = estimate_at m prompt_characters batch m.price

  -- `reserve`
  unfoldable pub reserve : ℕ → SpendMeter → Spent (Unit {0})
  unfolding float_lt
  reserve usd m = elim m.max_cost_usd [
    | none ↦ Spent.done tt
    | some cap ↦
        if float_lt cap (doubles.add m.cost_usd usd)
        then Spent.raised SpendError.budget_exceeded
        else Spent.done tt
  ]

  abbrev pub cost_at : Option TeacherPrice → ℕ → ℕ → ℕ → ℕ → Bool → Spent ℕ
  cost_at none uncached output read written batch = Spent.done 0
  cost_at (some price) uncached output read written batch =
      cost price uncached output read written batch

  abbrev timed : Option ℕ → SpendMeter → SpendMeter
  timed none m = m
  timed (some s) m = record m {
    seconds = doubles.add m.seconds s;
    timed_requests = m.timed_requests + 1;
  }

  -- what is paid for the tokens
  abbrev pub charge_cost : Json → Bool → SpendMeter → Spent ℕ
  charge_cost usage batch m =
      cost_at m.price (uncached_tokens usage) (answered_tokens usage)
        (usage_int (codes "cache_read_input_tokens") usage)
        (usage_int (codes "cache_creation_input_tokens") usage) batch

  -- the cost, with the meter after it
  abbrev pub charged : Json → Option ℕ → SpendMeter → ℕ → ℕ × SpendMeter
  charged usage seconds m usd = (
    usd,
    timed seconds (record m {
      requests = m.requests + 1;
      input_tokens = m.input_tokens + uncached_tokens usage;
      output_tokens = m.output_tokens + answered_tokens usage;
      largest_output_tokens = max m.largest_output_tokens (answered_tokens usage);
      cache_read_tokens = m.cache_read_tokens + usage_int (codes "cache_read_input_tokens") usage;
      cache_write_tokens =
          m.cache_write_tokens + usage_int (codes "cache_creation_input_tokens") usage;
      cost_usd = doubles.add m.cost_usd usd;
    }),
  )

  -- `charge`; the result is the cost
  unfoldable pub charge : Json → Option ℕ → Bool → SpendMeter → Spent (ℕ × SpendMeter)
  unfolding usage_int cost
  charge usage seconds batch m =
      bind_spent (charge_cost usage batch m) λ usd. Spent.done (charged usage seconds m usd)

-- `replay`
unfoldable pub replay : SpendMeter → SpendMeter
replay m = record m { replayed = m.replayed + 1 }
