-- ===== src/Constraints/Scan.antt =====
-- `_EvaluationBudget`, `_iter_utf16_units` and the functions on UTF-16 units in constraints.py.
use semant_script.Prelude.{
  ℕ, zero, suc, ◌+◌, ◌*◌, ◌-◌, ◌/◌, ◌%◌, [], ◌∷◌, Option, none, some, ltb, leb, ◌==◌, length,
  if◌then◌else◌,
}
use semant_script.Python.Text.{Text}

abbrev pub maximum_string_units : ℕ
maximum_string_units = 1000000

-- The budget of a case and the one that it shares with the request's other cases. They are kept by
-- what is used of them, since what remains falls below 0 before the error is raised.
pub record Budget : Type 0 where
  pub used : ℕ
  pub aggregate_used : ℕ
  pub aggregate_limit : ℕ

-- An action, which raises a ConstraintEvaluationError where the result is none.
abbrev pub Scan : Type 0 → Type 0
Scan A = Budget → Option A × Budget

abbrev pub continue : {A B : Type 0} → (A → Scan B) → Option A → Scan B
continue f none b = (none, b)
continue f (some a) b = f a b

infixl 5 ◌>>=◌ ◌>>◌
unfoldable pub ◌>>=◌ : {A B : Type 0} → Scan A → (A → Scan B) → Scan B
◌>>=◌ m f b = continue f (m b).0 (m b).1

abbrev pub ◌>>◌ : {A B : Type 0} → Scan A → Scan B → Scan B
m >> k = m >>= λ _. k

abbrev pub done : {A : Type 0} → A → Scan A
done a b = (some a, b)

-- `consume_string_units`: the aggregate is not reached when the case's own budget is exceeded
unfoldable pub consume_string_units : ℕ → Scan (Unit {0})
consume_string_units count b =
    let used = b.used + count in
    let aggregate_used = b.aggregate_used + count in
    if ltb maximum_string_units used
    then (none, record b { used = used })
    else if ltb b.aggregate_limit aggregate_used
    then (none, record b { used = used; aggregate_used = aggregate_used })
    else (some tt, record b { used = used; aggregate_used = aggregate_used })

-- A generator of `_iter_utf16_units`: a low surrogate that it still has to yield, and the rest of the
-- text.
pub record Units : Type 0 where
  pub pending : Option ℕ
  pub rest : Text

abbrev pub units_of : Text → Units
units_of s = record { pending = none; rest = s }

unfoldable pub from_text : Text → Scan (Option (ℕ × Units))
unfolding consume_string_units ◌>>=◌
from_text [] = done none
from_text (c ∷ s) =
    if leb c 0xFFFF then (do consume_string_units 1; done (some (c, units_of s))) else (do
      consume_string_units 2
      done (
          some (
            0xD800 + (c - 0x10000) / 1024,
            record { pending = some (0xDC00 + (c - 0x10000) % 1024); rest = s },
          )))

abbrev from_pending : Option ℕ → Text → Scan (Option (ℕ × Units))
from_pending none s = from_text s
from_pending (some low) s = done (some (low, units_of s))

-- `next(units, sentinel)`; none is the sentinel
unfoldable pub next_unit : Units → Scan (Option (ℕ × Units))
unfolding from_text
next_unit u = from_pending u.pending u.rest

pub data Order : Type 0 where
  less equal greater : Order

-- what the loop does with the two units that it took
abbrev pub compare_units :
    (Units → Units → Scan Order) → Option (ℕ × Units) → Option (ℕ × Units) → Scan Order
compare_units again none none = done Order.equal
compare_units again none (some _) = done Order.less
compare_units again (some _) none = done Order.greater
compare_units again (some (a, l)) (some (b, r)) =
    if a == b then again l r else done (if ltb a b then Order.less else Order.greater)

-- The loop of `_compare_utf16`, by its rounds.
unfoldable pub compare_rounds : ℕ → Units → Units → Scan Order
unfolding next_unit ◌>>=◌
compare_rounds zero l r = λ b. (none, b)
compare_rounds (suc rounds) l r = do
  a ← next_unit l
  c ← next_unit r
  compare_units (compare_rounds rounds) a c

-- `_compare_utf16`: a round for each unit of the left text and one more
unfoldable pub compare_utf16 : Text → Text → Scan Order
unfolding compare_rounds
compare_utf16 left right = compare_rounds (2 * length left + 1) (units_of left) (units_of right)

-- the characters above 0xFFFF
abbrev pub astral : Text → ℕ
astral [] = 0
astral (c ∷ s) = if ltb 0xFFFF c then 1 + astral s else astral s

-- `_utf16_length`
unfoldable pub utf16_length : Text → Scan ℕ
unfolding consume_string_units ◌>>=◌
utf16_length s = do
  consume_string_units (length s)
  consume_string_units (astral s)
  done (length s + astral s)

-- the unit that was taken, if it is the one at the position, or what comes of the next ones
abbrev pub found_unit : Scan (Option ℕ) → ℕ → Option (ℕ × Units) → Scan (Option ℕ)
found_unit later position none = done none
found_unit later zero (some (a, u)) = done (some a)
found_unit later (suc position) (some (a, u)) = later

abbrev pub rest_of : Units → Option (ℕ × Units) → Units
rest_of u none = u
rest_of u (some (a, v)) = v

-- The loop of `_utf16_unit_at`, with the units that are left to skip; none is `_UNDEFINED`.
unfoldable pub unit_at : ℕ → Units → Scan (Option ℕ)
unfolding next_unit ◌>>=◌
unit_at zero u = do taken ← next_unit u; found_unit (done none) zero taken
unit_at (suc position) u = do
  taken ← next_unit u
  found_unit (unit_at position (rest_of u taken)) (suc position) taken

-- `_utf16_unit_at`
unfoldable pub utf16_unit_at : Text → ℕ → Scan (Option ℕ)
unfolding unit_at
utf16_unit_at s position = unit_at position (units_of s)
