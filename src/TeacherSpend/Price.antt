-- ===== src/TeacherSpend/Price.antt =====
-- `resolve_price` of teacher_spend.py, without the text that says where a price is from. Prices are
-- the bits of doubles. What OpenRouter lists, and whether a base URL is one of it, are parameters.
use semant_script.Prelude.{
  ℕ, ◌≡◌, refl, subst, sym, ap, ◌∙◌, Bool, true, false, List, [], ◌∷◌, Option, none, some, ◌==◌,
  if◌then◌else◌,
}
use semant_script.Python.Text.{Text, codes, text_eq}
use semant_script.TeacherSpend.Meter.{Doubles, TeacherPrice}

-- the `[teacher.pricing]` table
pub record Pricing : Type 0 where
  pub input : Option ℕ
  pub output : Option ℕ
  pub cache_read : Option ℕ
  pub cache_write : Option ℕ

-- `is_ollama` is the test of the backend
pub record TeacherConfig : Type 0 where
  pub model : Text
  pub is_ollama : Bool
  pub is_openrouter : Bool
  pub pricing : Option Pricing

-- BATCH_MULTIPLIER 0.5, CACHE_READ_MULTIPLIER 0.1 and CACHE_WRITE_MULTIPLIER 1.25
abbrev pub batch_multiplier : ℕ
batch_multiplier = 0x3FE0000000000000

abbrev pub cache_read_multiplier : ℕ
cache_read_multiplier = 0x3FB999999999999A

abbrev pub cache_write_multiplier : ℕ
cache_write_multiplier = 0x3FF4000000000000

abbrev price_of : ℕ → ℕ → ℕ → ℕ → TeacherPrice
price_of input output read written = record {
  input_usd_per_million = input;
  output_usd_per_million = output;
  cache_read_usd_per_million = read;
  cache_write_usd_per_million = written;
  batch_multiplier = batch_multiplier;
}

abbrev pub free_price : TeacherPrice
free_price = price_of 0 0 0 0

-- 1.0, 2.0, 3.0, 4.0, 5.0, 10.0, 15.0, 20.0 and 25.0
abbrev pinned_anthropic_prices : List (Text × ℕ × ℕ)
pinned_anthropic_prices =
    (codes "claude-sonnet-5", 0x4000000000000000, 0x4024000000000000)
    ∷ (codes "claude-opus-5", 0x4014000000000000, 0x4039000000000000)
    ∷ (codes "claude-opus-5-5", 0x4010000000000000, 0x4034000000000000)
    ∷ (codes "claude-haiku-4-5", 0x3FF0000000000000, 0x4014000000000000)
    ∷ (codes "claude-sonnet-4-6", 0x4008000000000000, 0x402E000000000000)
    ∷ (codes "claude-opus-4-8", 0x4014000000000000, 0x4039000000000000)
    ∷ []

unfoldable find_prices : Text → List (Text × ℕ × ℕ) → Option (ℕ × ℕ)
unfolding text_eq
find_prices key [] = none
find_prices key ((k, input, output) ∷ rest) =
    if text_eq key k then some (input, output) else find_prices key rest

-- the text after the prefix, or the whole text
unfoldable after_prefix : Text → Text → Text → Text
after_prefix [] s whole = s
after_prefix (c ∷ prefix) [] whole = whole
after_prefix (c ∷ prefix) (d ∷ s) whole = if c == d then after_prefix prefix s whole else whole

-- `replace(".", "-")`
unfoldable dots_to_dashes : Text → Text
dots_to_dashes [] = []
dots_to_dashes (c ∷ s) = (if c == b'.' then b'-' else c) ∷ dots_to_dashes s

unfoldable pub model_key : Text → Text
unfolding after_prefix dots_to_dashes
model_key model = dots_to_dashes (after_prefix (codes "anthropic/") model model)

abbrev pub or_else : Option ℕ → ℕ → ℕ
or_else none x = x
or_else (some y) x = y

abbrev both_given : Option Pricing → Bool
both_given none = false
both_given (some p) = elim p.input [
  | none ↦ false
  | some i ↦ elim p.output [ none ↦ false | some o ↦ true ]
]

or_else-twice : (v : Option ℕ) (x : ℕ) → or_else v x ≡ or_else v (or_else v x)
or_else-twice none x = refl
or_else-twice (some y) x = refl

price_value : {a b : TeacherPrice} → some a ≡ some b → a ≡ b
price_value e = cc

-- The price has what the table gives.
abbrev pub Follows : Pricing → TeacherPrice → Type 0
Follows p q =
    (q.input_usd_per_million ≡ or_else p.input q.input_usd_per_million)
    × (q.output_usd_per_million ≡ or_else p.output q.output_usd_per_million)
    × (q.cache_read_usd_per_million ≡ or_else p.cache_read q.cache_read_usd_per_million)
    × (q.cache_write_usd_per_million ≡ or_else p.cache_write q.cache_write_usd_per_million)

module _ (doubles : Doubles) where
  abbrev pinned : Option (ℕ × ℕ) → Option TeacherPrice
  pinned none = none
  pinned (some (input, output)) = some (
      price_of input output (doubles.multiply input cache_read_multiplier)
        (doubles.multiply input cache_write_multiplier))

  -- `_pinned_price`
  unfoldable pub pinned_price : Text → Option TeacherPrice
  unfolding find_prices model_key
  pinned_price model = pinned (find_prices (model_key model) pinned_anthropic_prices)

  -- the cache price of an input price that is given
  abbrev derived : Option ℕ → ℕ → ℕ → ℕ
  derived none multiplier x = x
  derived (some i) multiplier x = doubles.multiply i multiplier

  -- the changes of the table
  abbrev pub with_pricing : Option Pricing → TeacherPrice → TeacherPrice
  with_pricing none base = base
  with_pricing (some p) base = record base {
    input_usd_per_million = or_else p.input base.input_usd_per_million;
    output_usd_per_million = or_else p.output base.output_usd_per_million;
    cache_read_usd_per_million =
        or_else p.cache_read
          (derived p.input cache_read_multiplier base.cache_read_usd_per_million);
    cache_write_usd_per_million =
        or_else p.cache_write
          (derived p.input cache_write_multiplier base.cache_write_usd_per_million);
  }

  module _ (openrouter_price : Text → Option TeacherPrice) where
    unfoldable pub base_price : TeacherConfig → Option TeacherPrice
    unfolding pinned_price
    base_price c =
        if c.is_ollama
        then some free_price
        else if both_given c.pricing
        then some free_price
        else if c.is_openrouter
        then openrouter_price c.model
        else pinned_price c.model

    abbrev priced : Option Pricing → Option TeacherPrice → Option TeacherPrice
    priced pricing none = none
    priced pricing (some base) = some (with_pricing pricing base)

    -- `resolve_price` of the language model's config; none is a price that is not known
    unfoldable pub resolve_price : Option TeacherConfig → Option TeacherPrice
    unfolding base_price
    resolve_price none = some free_price
    resolve_price (some c) = priced c.pricing (base_price c)

    priced-Follows :
        (p : Pricing) (o : Option TeacherPrice) (q : TeacherPrice)
        → priced (some p) o ≡ some q
        → Follows p q
    priced-Follows p none q f = cc
    priced-Follows p (some base) q f = subst (Follows p) (price_value f) (
      or_else-twice p.input base.input_usd_per_million,
      or_else-twice p.output base.output_usd_per_million,
      or_else-twice p.cache_read
          (derived p.input cache_read_multiplier base.cache_read_usd_per_million),
      or_else-twice p.cache_write
          (derived p.input cache_write_multiplier base.cache_write_usd_per_million),
    )

    -- A price that is resolved has every figure that the table of its config gives, wherever the other
    -- figures are from.
    pub resolve_price-Follows :
        (c : TeacherConfig) (p : Pricing) (q : TeacherPrice)
        → c.pricing ≡ some p
        → resolve_price (some c) ≡ some q
        → Follows p q
    unfolding resolve_price
    resolve_price-Follows c p q e f =
        priced-Follows p (base_price c) q (ap (λ t. priced t (base_price c)) (sym e) ∙ f)
