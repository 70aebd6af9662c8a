-- ===== src/Constraints/Utf16.antt =====
-- The functions on UTF-16 units in constraints.py, against the units of a text, when the budget is
-- enough for all of them.
use semant_script.Prelude.{
  ℕ, zero, suc, ◌+◌, ◌*◌, ◌≤◌, ◌<◌, ◌≡◌, refl, ap, ◌∙◌, inl, inr, List, [], ◌∷◌, Option, none, some,
  ltb, ◌==◌, length, if◌then◌else◌, get_elem?, arith, Bool-cases, ==_iff,
}
use semant_script.Python.Text.{Text}
use semant_script.Constraints.Scan.{
  Budget, ◌>>=◌, done, consume_string_units, Units, units_of, next_unit, Order, compare_units,
  compare_rounds, compare_utf16, astral, utf16_length, found_unit, rest_of, unit_at, utf16_unit_at,
}
use semant_script.Prelude.{All}
use semant_script.Python.Decode.{IsScalar}
use semant_script.Constraints.Units.{
  utf16, Enough, spent, consume-spent, Enough-spent, Enough-less, bind-some, units, cost, Took,
  next_unit-Took,
}

-- The order of dictionaries.
unfoldable pub lexicographic : List ℕ → List ℕ → Order
lexicographic [] [] = Order.equal
lexicographic [] (b ∷ t) = Order.less
lexicographic (a ∷ s) [] = Order.greater
lexicographic (a ∷ s) (b ∷ t) =
    if a == b then lexicographic s t else if ltb a b then Order.less else Order.greater

-- A round takes a unit of each text.
two_taken :
    (rounds : ℕ) (l r : Units) (b c d : Budget) (first second : Option (ℕ × Units))
    → next_unit l b ≡ (some first, c)
    → next_unit r c ≡ (some second, d)
    → compare_rounds (suc rounds) l r b ≡ compare_units (compare_rounds rounds) first second d
unfolding compare_rounds
two_taken rounds l r b c d first second e f =
    bind-some (next_unit l) (λ a. next_unit r >>= λ x. compare_units (compare_rounds rounds) a x) b
      c first e
    ∙ bind-some (next_unit r) (λ x. compare_units (compare_rounds rounds) first x) c d second f

Enough-swap : (n k : ℕ) (b : Budget) → Enough (n + k) b → Enough (k + n) b
Enough-swap n k b e = Enough-less (n + k) (k + n) b (omega arith) e

-- A round, if the rounds after it compare.
abbrev Compares : ℕ → Type 0
Compares rounds =
    (l r : Units) (b : Budget)
    → length (units l) < rounds
    → Enough (cost l + cost r) b
    → (compare_rounds rounds l r b).0 ≡ some (lexicographic (units l) (units r))

compare_round :
    (rounds : ℕ) (l r : Units) (b : Budget)
    → Compares rounds
    → length (units l) < suc rounds
    → Enough (cost l + cost r) b
    → Took l (cost r) b
    → (compare_rounds (suc rounds) l r b).0 ≡ some (lexicographic (units l) (units r))
unfolding lexicographic Took
compare_round rounds l r b ih lt e (inl (x, p)) =
    elim (next_unit-Took r (cost l) b (Enough-swap (cost l) (cost r) b e)) [
      | inl (y, q) ↦ rw (two_taken rounds l r b b b none none p q, x, y) refl
      | inr (_, _, d, y, _, q) ↦ rw (two_taken rounds l r b b d none _ p q, x, y) refl
    ]
compare_round rounds l r b ih lt e (inr (a, v, c, x, ev, p)) =
    elim (next_unit-Took r (cost v) c (Enough-swap (cost v) (cost r) c ev)) [
      | inl (y, q) ↦ rw (two_taken rounds l r b c c _ none p q, x, y) refl
      | inr (a', w, d, y, ew, q) ↦
          rw (two_taken rounds l r b c d _ _ p q, x, y)
            (elim (Bool-cases (a == a')) [
              | inl same ↦
                  rw same
                    (ih v w d (omega (arith, rw x at lt)) (Enough-swap (cost w) (cost v) d ew))
              | inr differ ↦ rw differ refl
            ])
    ]

compare_rounds-lexicographic : (rounds : ℕ) → Compares rounds
compare_rounds-lexicographic zero l r b lt e = absurd (omega (arith, lt))
compare_rounds-lexicographic (suc rounds) l r b lt e =
    compare_round rounds l r b (compare_rounds-lexicographic rounds) lt e
      (next_unit-Took l (cost r) b e)

-- A text has no more than two units for each character.
length-utf16 : (s : Text) → length (utf16 s) ≤ 2 * length s
unfolding utf16
length-utf16 [] = omega arith
length-utf16 (c ∷ s) = ground (arith, length-utf16 s)

-- Texts are compared by their units, in the order of dictionaries, if the budgets are enough for the
-- units of both; the rounds are enough for any text.
pub compare_utf16_lem :
    (left right : Text) (b : Budget)
    → Enough (length (utf16 left) + length (utf16 right)) b
    → (compare_utf16 left right b).0 ≡ some (lexicographic (utf16 left) (utf16 right))
unfolding compare_utf16 units cost
compare_utf16_lem left right b e =
    compare_rounds-lexicographic (2 * length left + 1) (units_of left) (units_of right) b
      (omega (arith, length-utf16 left)) e

-- The order is equality on the units.
lexicographic-equal : (s t : List ℕ) → lexicographic s t ≡ Order.equal → s ≡ t
unfolding lexicographic
lexicographic-equal [] [] h = refl
lexicographic-equal [] (b ∷ t) h = cc
lexicographic-equal (a ∷ s) [] h = cc
lexicographic-equal (a ∷ s) (b ∷ t) h = ground (arith, ==_iff a b, lexicographic-equal s t)

length-astral : (s : Text) → length s + astral s ≡ length (utf16 s)
unfolding utf16
length-astral [] = omega arith
length-astral (c ∷ s) = ground (arith, length-astral s)

-- The length is the number of units, if the budgets are enough for it.
pub utf16_length_lem :
    (s : Text) (b : Budget)
    → Enough (length (utf16 s)) b
    → (utf16_length s b).0 ≡ some (length (utf16 s))
unfolding utf16_length
utf16_length_lem s b e =
    let all =
      Enough-less (length (utf16 s)) (length s + astral s) b (omega (arith, length-astral s)) e in
    ap (λ x. x.0)
      (bind-some (consume_string_units (length s))
          (λ _. consume_string_units (astral s) >>= λ _. done (length s + astral s)) b
          (spent (length s) b) tt
          (consume-spent (length s) b
            (Enough-less (length s + astral s) (length s) b (omega arith) all))
        ∙ bind-some (consume_string_units (astral s)) (λ _. done (length s + astral s))
            (spent (length s) b) (spent (astral s) (spent (length s) b)) tt
            (consume-spent (astral s) (spent (length s) b)
              (Enough-spent (length s) (astral s) b all)))
    ∙ ap some (length-astral s)

one_taken :
    (position : ℕ) (u : Units) (b c : Budget) (a : ℕ) (v : Units)
    → next_unit u b ≡ (some (some (a, v)), c)
    → unit_at (suc position) u b ≡ unit_at position v c
unfolding unit_at
one_taken position u b c a v p =
    bind-some (next_unit u)
      (λ taken. found_unit (unit_at position (rest_of u taken)) (suc position) taken) b c
      (some (a, v)) p

first_taken :
    (u : Units) (b c : Budget) (taken : Option (ℕ × Units))
    → next_unit u b ≡ (some taken, c)
    → unit_at 0 u b ≡ found_unit (done none) 0 taken c
unfolding unit_at
first_taken u b c taken p =
    bind-some (next_unit u) (λ taken. found_unit (done none) 0 taken) b c taken p

none_taken :
    (position : ℕ) (u : Units) (b c : Budget)
    → next_unit u b ≡ (some none, c)
    → unit_at (suc position) u b ≡ (some none, c)
unfolding unit_at
none_taken position u b c p =
    bind-some (next_unit u)
      (λ taken. found_unit (unit_at position (rest_of u taken)) (suc position) taken) b c none p

unit_at-get_elem :
    (position : ℕ) (u : Units) (b : Budget)
    → Enough (cost u + 0) b
    → (unit_at position u b).0 ≡ some (get_elem? (units u) position)
unfolding Took
unit_at-get_elem zero u b e = elim (next_unit-Took u 0 b e) [
  | inl (x, p) ↦ rw (first_taken u b b none p, x) refl
  | inr (a, v, c, x, ev, p) ↦ rw (first_taken u b c (some (a, v)) p, x) refl
]
unit_at-get_elem (suc position) u b e = elim (next_unit-Took u 0 b e) [
  | inl (x, p) ↦ rw (none_taken position u b b p, x) refl
  | inr (a, v, c, x, ev, p) ↦
      rw (one_taken position u b c a v p, x) (unit_at-get_elem position v c ev)
]

-- The unit at a position is that of the text's units, and is undefined past their end, if the budgets
-- are enough for all of them.
pub utf16_unit_at_lem :
    (s : Text) (position : ℕ) (b : Budget)
    → Enough (length (utf16 s)) b
    → (utf16_unit_at s position b).0 ≡ some (get_elem? (utf16 s) position)
unfolding utf16_unit_at units cost
utf16_unit_at_lem s position b e =
    unit_at-get_elem position (units_of s) b
      (Enough-less (length (utf16 s)) (length (utf16 s) + 0) b (omega arith) e)

utf16-injective : (s t : Text) → All IsScalar s → All IsScalar t → utf16 s ≡ utf16 t → s ≡ t
unfolding utf16
utf16-injective [] [] x y e = refl
utf16-injective [] (d ∷ t) x y e = ground arith
utf16-injective (c ∷ s) [] x y e = ground arith
utf16-injective (c ∷ s) (d ∷ t) x y e = ground (arith, utf16-injective s t x.1 y.1)

-- Two texts without surrogates compare equal only if they are the same.
pub compare_utf16-equal :
    (left right : Text) (b : Budget)
    → All IsScalar left
    → All IsScalar right
    → Enough (length (utf16 left) + length (utf16 right)) b
    → (compare_utf16 left right b).0 ≡ some Order.equal
    → left ≡ right
compare_utf16-equal left right b x y e h =
    let same : lexicographic (utf16 left) (utf16 right) ≡ Order.equal =
      cc (compare_utf16_lem left right b e, h) in
    utf16-injective left right x y (lexicographic-equal (utf16 left) (utf16 right) same)
