-- ===== src/Python/Digits.antt =====
-- `str(n)` in decimal, and the fixed-width lowercase hexadecimal of `bytes.hex` and `:02x`.
use semant_script.Prelude.{
  ℕ, zero, suc, ◌+◌, ◌-◌, ◌*◌, ◌/◌, ◌%◌, ◌^◌, ◌≤◌, ◌<◌, ◌≡◌, refl, ap, Bool, true, ◌&&◌, [], ◌∷◌,
  ◌++◌, append_assoc, append-nil, Option, none, some, arith, ltb, leb, if◌then◌else◌, length,
  length-append, Bool-cases, inl, inr, All,
}
use native.Mathlib.Nat.{pow-suc}
use semant_script.Python.Text.{Text}
use semant_script.Python.Utf8.{utf8, utf8-append}

unfoldable pub hex_digit : ℕ → ℕ
hex_digit d = if ltb d 10 then b'0' + d else b'a' + (d - 10)

-- `k` hexadecimal digits of `n`, the most significant first.
unfoldable pub hex : ℕ → ℕ → Text
unfolding hex_digit
hex zero n = []
hex (suc k) n = hex k (n / 16) ++ hex_digit (n % 16) ∷ []

unfoldable pub hex_digit_value : ℕ → Option ℕ
hex_digit_value c =
    if leb b'0' c && leb c b'9'
    then some (c - b'0')
    else if leb b'a' c && leb c b'f'
    then some (c - b'a' + 10)
    else if leb b'A' c && leb c b'F'
    then some (c - b'A' + 10)
    else none

-- The number that hexadecimal digits spell, after the digits of `acc`.
unfoldable pub hex_value : ℕ → Text → Option ℕ
unfolding hex_digit_value
hex_value acc [] = some acc
hex_value acc (c ∷ s) = elim (hex_digit_value c) [
  | none ↦ none
  | some d ↦ hex_value (acc * 16 + d) s
]

pub length-hex : (k n : ℕ) → length (hex k n) ≡ k
unfolding hex
length-hex zero n = refl
length-hex (suc k) n =
    omega (arith, length-append (hex k (n / 16)) (hex_digit (n % 16) ∷ []), length-hex k (n / 16))

pub hex_digit_value-hex_digit : (d : ℕ) → d < 16 → hex_digit_value (hex_digit d) ≡ some d
unfolding hex_digit_value hex_digit
hex_digit_value-hex_digit d h = ground arith

hex_value-digit :
    (acc d : ℕ) (t : Text) → d < 16 → hex_value acc (hex_digit d ∷ t) ≡ hex_value (acc * 16 + d) t
unfolding hex_value
hex_value-digit acc d t h = ground (arith, hex_digit_value-hex_digit d h)

-- Reading `k` digits of `n` and then `t` is reading `t` after `n`.
pub hex_value-hex-append :
    (k n : ℕ) (t : Text) → n < 16 ^ k → hex_value 0 (hex k n ++ t) ≡ hex_value n t
unfolding hex
hex_value-hex-append zero n t h = let e : n ≡ 0 = omega arith in rw e
hex_value-hex-append (suc k) n t h =
    let shorter : n / 16 < 16 ^ k = grind (arith, pow-suc 16 k) in
    let digit = hex_value-digit (n / 16) (n % 16) t (omega arith) in
    let sum : n / 16 * 16 + n % 16 ≡ n = omega arith in
    rw append_assoc
      (rw (hex_value-hex-append k (n / 16) (hex_digit (n % 16) ∷ t) shorter) (rw (digit, sum)))

-- The digits spell the number, if they are enough for it.
pub hex_value-hex : (k n : ℕ) → n < 16 ^ k → hex_value 0 (hex k n) ≡ some n
unfolding hex_value
hex_value-hex k n h = rw append-nil at (hex_value-hex-append k n [] h)

-- `str(n)`: the last digit is cut off while more than one is left. Each round shortens `n`, so
-- `n` rounds are enough.
decimal_rounds : ℕ → ℕ → Text
decimal_rounds zero n = (b'0' + n) ∷ []
decimal_rounds (suc f) n =
    let more = decimal_rounds f (n / 10) ++ (b'0' + n % 10) ∷ [] in
    if ltb n 10 then (b'0' + n) ∷ [] else more

unfoldable pub decimal : ℕ → Text
unfolding decimal_rounds
decimal n = decimal_rounds n n

abbrev pub is_digit : ℕ → Bool
is_digit c = leb b'0' c && leb c b'9'

-- The number that leads a text, after the digits of `acc`, and what follows it.
unfoldable pub read_digits : ℕ → Text → ℕ × Text
read_digits acc [] = (acc, [])
read_digits acc (c ∷ s) =
    let rest = read_digits (acc * 10 + (c - b'0')) s in if is_digit c then rest else (acc, c ∷ s)

read_digits-decimal_rounds :
    (f n : ℕ) (t : Text) → n ≤ f → read_digits 0 (decimal_rounds f n ++ t) ≡ read_digits n t
unfolding read_digits decimal_rounds
read_digits-decimal_rounds zero n t h = let e : n ≡ 0 = omega arith in rw e
read_digits-decimal_rounds (suc f) n t h = elim (Bool-cases (ltb n 10)) [
  | inl small ↦ ground (arith)
  | inr large ↦
      rw (large, append_assoc)
        (rw (read_digits-decimal_rounds f (n / 10) ((b'0' + n % 10) ∷ t) (ground arith))
          (ground arith))
]

-- The number of a printed number and the text after it.
pub read_digits-decimal : (n : ℕ) (t : Text) → read_digits 0 (decimal n ++ t) ≡ read_digits n t
unfolding decimal
read_digits-decimal n t = read_digits-decimal_rounds n n t (omega arith)

abbrev LeadsWithDigit : Text → Type 0
LeadsWithDigit s = (c : ℕ) × (rest : Text) × (s ≡ c ∷ rest) × (is_digit c ≡ true)

decimal_rounds-LeadsWithDigit : (f n : ℕ) → n ≤ f → LeadsWithDigit (decimal_rounds f n)
unfolding decimal_rounds
decimal_rounds-LeadsWithDigit zero n h = (b'0' + n, [], refl, ground arith)
decimal_rounds-LeadsWithDigit (suc f) n h = elim (Bool-cases (ltb n 10)) [
  | inl small ↦ (b'0' + n, [], rw small, ground arith)
  | inr large ↦
      let (c, rest, e, d) = decimal_rounds-LeadsWithDigit f (n / 10) (ground arith) in
      (c, rest ++ (b'0' + n % 10) ∷ [], rw (large, e), d)
]

-- A printed number begins with a digit.
pub decimal_lead : (n : ℕ) → (c : ℕ) × (s : Text) × (decimal n ≡ c ∷ s) × (is_digit c ≡ true)
unfolding decimal
decimal_lead n = decimal_rounds-LeadsWithDigit n n (omega arith)

utf8-decimal_rounds : (f n : ℕ) → n ≤ f → utf8 (decimal_rounds f n) ≡ decimal_rounds f n
unfolding decimal_rounds utf8
utf8-decimal_rounds zero n h = ground arith
utf8-decimal_rounds (suc f) n h = elim (Bool-cases (ltb n 10)) [
  | inl small ↦ ground arith
  | inr large ↦
      rw (large, utf8-append, utf8-decimal_rounds f (n / 10) (ground arith))
        (ap (λ s. decimal_rounds f (n / 10) ++ s) (ground arith))
]

-- Printed numbers are ASCII.
pub utf8-decimal : (n : ℕ) → utf8 (decimal n) ≡ decimal n
unfolding decimal
utf8-decimal n = utf8-decimal_rounds n n (omega arith)

append-digits :
    (s t : Text)
    → All (λ c. is_digit c ≡ true) s
    → All (λ c. is_digit c ≡ true) t
    → All (λ c. is_digit c ≡ true) (s ++ t)
append-digits [] t h k = k
append-digits (c ∷ s) t h k = (h.0, append-digits s t h.1 k)

decimal_rounds-digits : (f n : ℕ) → n ≤ f → All (λ c. is_digit c ≡ true) (decimal_rounds f n)
unfolding decimal_rounds
decimal_rounds-digits zero n le = (ground arith, tt)
decimal_rounds-digits (suc f) n le = elim (Bool-cases (ltb n 10)) [
  | inl small ↦ rw small (ground arith, tt)
  | inr large ↦ rw large (
      append-digits (decimal_rounds f (n / 10)) _ (decimal_rounds-digits f (n / 10) (ground arith))
        (ground arith, tt))
]

-- A decimal is digits.
pub decimal-digits : (n : ℕ) → All (λ c. is_digit c ≡ true) (decimal n)
unfolding decimal
decimal-digits n = decimal_rounds-digits n n (omega arith)
