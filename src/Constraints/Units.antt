-- ===== src/Constraints/Units.antt =====
-- The UTF-16 units of a text, and how the generator of constraints.py yields them on a budget that is
-- enough.
use semant_script.Prelude.{
  ℕ, ◌+◌, ◌-◌, ◌/◌, ◌%◌, ◌≤◌, ◌≡◌, refl, ◌⊎◌, inl, inr, true, false, List, [], ◌∷◌, Option, none,
  some, leb, length, if◌then◌else◌, arith, Bool-cases,
}
use semant_script.Python.Text.{Text}
use semant_script.Constraints.Scan.{
  maximum_string_units, Budget, Scan, ◌>>=◌, done, consume_string_units, Units, units_of, from_text,
  next_unit,
}

-- The UTF-16 units of a text.
unfoldable pub utf16 : Text → List ℕ
utf16 [] = []
utf16 (c ∷ s) =
    if leb c 0xFFFF
    then c ∷ utf16 s
    else (0xD800 + (c - 0x10000) / 1024) ∷ (0xDC00 + (c - 0x10000) % 1024) ∷ utf16 s

-- Neither budget is exceeded by `n` units more.
pub record Enough (n : ℕ) (b : Budget) : Type 0 where
  pub own : b.used + n ≤ maximum_string_units
  pub shared : b.aggregate_used + n ≤ b.aggregate_limit

abbrev pub spent : ℕ → Budget → Budget
spent n b = record b { used = b.used + n; aggregate_used = b.aggregate_used + n }

pub consume-spent :
    (n : ℕ) (b : Budget) → Enough n b → consume_string_units n b ≡ (some tt, spent n b)
unfolding consume_string_units
consume-spent n b e = ground (arith, e.own, e.shared)

pub Enough-spent : (n k : ℕ) (b : Budget) → Enough (n + k) b → Enough k (spent n b)
Enough-spent n k b e = record { own = omega (arith, e.own); shared = omega (arith, e.shared) }

pub Enough-less : (n k : ℕ) (b : Budget) → k ≤ n → Enough n b → Enough k b
Enough-less n k b le e = record { own = omega (arith, e.own); shared = omega (arith, e.shared) }

pub bind-some :
    {A B : Type 0} (m : Scan A) (f : A → Scan B) (b c : Budget) (a : A)
    → m b ≡ (some a, c)
    → (m >>= f) b ≡ f a c
unfolding ◌>>=◌
bind-some m f b c a e = rw e refl

unfoldable pub units : Units → List ℕ
units u = elim u.pending [ none ↦ utf16 u.rest | some low ↦ low ∷ utf16 u.rest ]

unfoldable pub cost : Units → ℕ
cost u = length (utf16 u.rest)

-- What `next` does: nothing is left, or a unit is taken and paid for.
unfoldable pub Took : Units → ℕ → Budget → Type 0
Took u k b =
    ((units u ≡ []) × (next_unit u b ≡ (some none, b)))
    ⊎ ((a : ℕ) × (v : Units) × (c : Budget) × (units u ≡ a ∷ units v)
        × Enough (cost v + k) c
        × (next_unit u b ≡ (some (some (a, v)), c)))

unfoldable pub low_of : ℕ → ℕ
low_of c = 0xDC00 + (c - 0x10000) % 1024

unfoldable pub high_of : ℕ → ℕ
high_of c = 0xD800 + (c - 0x10000) / 1024

from_text-basic :
    (c : ℕ) (s : Text) (b : Budget)
    → leb c 0xFFFF ≡ true
    → Enough 1 b
    → from_text (c ∷ s) b ≡ (some (some (c, units_of s)), spent 1 b)
unfolding from_text
from_text-basic c s b small e = rw small (
    bind-some (consume_string_units 1) (λ _. done (some (c, units_of s))) b (spent 1 b) tt
      (consume-spent 1 b e))

from_text-astral :
    (c : ℕ) (s : Text) (b : Budget)
    → leb c 0xFFFF ≡ false
    → Enough 2 b
    → from_text (c ∷ s) b
      ≡ (some (some (high_of c, record { pending = some (low_of c); rest = s })), spent 2 b)
unfolding from_text low_of high_of
from_text-astral c s b large e = rw large (
    bind-some (consume_string_units 2)
      (λ _. done (some (high_of c, record { pending = some (low_of c); rest = s }))) b (spent 2 b)
      tt (consume-spent 2 b e))

pub utf16-basic : (c : ℕ) (s : Text) → leb c 0xFFFF ≡ true → utf16 (c ∷ s) ≡ c ∷ utf16 s
unfolding utf16
utf16-basic c s small = rw small refl

pub utf16-astral :
    (c : ℕ) (s : Text) → leb c 0xFFFF ≡ false → utf16 (c ∷ s) ≡ high_of c ∷ low_of c ∷ utf16 s
unfolding utf16 low_of high_of
utf16-astral c s large = rw large refl

took :
    (pending : Option ℕ) (s : Text) (k : ℕ) (b : Budget)
    → Enough (length (utf16 s) + k) b
    → Took (record { pending = pending; rest = s }) k b
unfolding Took units cost next_unit
took (some low) s k b e = inr (low, units_of s, b, refl, e, refl)
took none [] k b e = inl (unfold utf16 in refl, unfold from_text in refl)
took none (c ∷ s) k b e = elim (Bool-cases (leb c 0xFFFF)) [
  | inl small ↦
      let all : Enough (1 + (length (utf16 s) + k)) b =
        Enough-less (length (utf16 (c ∷ s)) + k) (1 + (length (utf16 s) + k)) b
          (rw (utf16-basic c s small) (omega arith)) e in
      inr (
        c,
        units_of s,
        spent 1 b,
        utf16-basic c s small,
        Enough-spent 1 (length (utf16 s) + k) b all,
        from_text-basic c s b small
            (Enough-less (1 + (length (utf16 s) + k)) 1 b (omega arith) all),
      )
  | inr large ↦
      let all : Enough (2 + (length (utf16 s) + k)) b =
        Enough-less (length (utf16 (c ∷ s)) + k) (2 + (length (utf16 s) + k)) b
          (rw (utf16-astral c s large) (omega arith)) e in
      inr (
        high_of c,
        record { pending = some (low_of c); rest = s },
        spent 2 b,
        utf16-astral c s large,
        Enough-spent 2 (length (utf16 s) + k) b all,
        from_text-astral c s b large
            (Enough-less (2 + (length (utf16 s) + k)) 2 b (omega arith) all),
      )
]

pub next_unit-Took : (u : Units) (k : ℕ) (b : Budget) → Enough (cost u + k) b → Took u k b
unfolding cost
next_unit-Took u k b e = took u.pending u.rest k b e
