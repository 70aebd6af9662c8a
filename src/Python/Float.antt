-- ===== src/Python/Float.antt =====
-- A Python `float` is its binary64 bit pattern, a number below `2 ^ 64`.
use semant_script.Prelude.{
  ℕ, zero, suc, ◌+◌, ◌-◌, ◌*◌, ◌/◌, ◌%◌, ◌^◌, ◌≡◌, refl, Bool, not, ◌&&◌, ◌||◌, Option, none, some,
  ltb, leb, ◌==◌, if◌then◌else◌,
}

-- A Python `int`: `negsuc n` is -(n + 1).
pub data ℤ : Type 0 where
  pos : ℕ → ℤ
  negsuc : ℕ → ℤ

abbrev pub float_limit : ℕ
float_limit = 2 ^ 64

abbrev pub sign_bit : ℕ → ℕ
sign_bit bits = bits / 2 ^ 63

abbrev pub exponent_bits : ℕ → ℕ
exponent_bits bits = bits / 2 ^ 52 % 2 ^ 11

abbrev pub mantissa_bits : ℕ → ℕ
mantissa_bits bits = bits % 2 ^ 52

-- `math.isfinite`
unfoldable pub is_finite : ℕ → Bool
is_finite bits = not (exponent_bits bits == 2047)

-- `value == 0`, for either zero
unfoldable pub is_zero : ℕ → Bool
is_zero bits = bits % 2 ^ 63 == 0

-- The number of binary digits of `n`; `n` rounds are enough.
unfoldable pub bit_length_rounds : ℕ → ℕ → ℕ
bit_length_rounds zero n = 0
bit_length_rounds (suc f) n =
    let more = suc (bit_length_rounds f (n / 2)) in if n == 0 then 0 else more

unfoldable pub bit_length : ℕ → ℕ
unfolding bit_length_rounds
bit_length n = bit_length_rounds n n

-- The 53-bit significand of `n / 2 ^ shift`, rounded half to even; it can reach `2 ^ 53`.
unfoldable pub round_shift : ℕ → ℕ → ℕ
round_shift n shift =
    let q = n / 2 ^ shift in
    let r = n % 2 ^ shift in
    if ltb (2 ^ shift) (2 * r) || (2 * r == 2 ^ shift && q % 2 == 1) then q + 1 else q

-- The bits of a magnitude from a 53-bit significand and the exponent of its lowest bit. A
-- significand of `2 ^ 53` carries into the exponent by itself. None is an OverflowError.
unfoldable pub magnitude_bits : ℕ → ℕ → Option ℕ
magnitude_bits significand scale =
    let bits = (scale + 1075) * 2 ^ 52 + (significand - 2 ^ 52) in
    if ltb bits (2047 * 2 ^ 52) then some bits else none

-- `float(n)` of a natural number, rounded half to even
unfoldable pub float_of_nat : ℕ → Option ℕ
unfolding bit_length round_shift magnitude_bits
float_of_nat n =
    if n == 0
    then some 0
    else let k = bit_length n in
      if leb k 53
      then some ((k + 1022) * 2 ^ 52 + (n * 2 ^ (53 - k) - 2 ^ 52))
      else magnitude_bits (round_shift n (k - 53)) (k - 53)

-- `float(n)`; none is an OverflowError
unfoldable pub float_of_int : ℤ → Option ℕ
unfolding float_of_nat
float_of_int (pos n) = float_of_nat n
float_of_int (negsuc n) = elim (float_of_nat (suc n)) [
  | none ↦ none
  | some bits ↦ some (2 ^ 63 + bits)
]

-- `value.is_integer()`, with the integer, of a float that is not negative; none otherwise
unfoldable pub natural_of_float : ℕ → Option ℕ
unfolding is_zero is_finite
natural_of_float bits =
    if is_zero bits
    then some 0
    else if sign_bit bits == 1 || not (is_finite bits) || ltb (exponent_bits bits) 1023
    then none
    else let significand = 2 ^ 52 + mantissa_bits bits in
      if leb 1075 (exponent_bits bits)
      then some (significand * 2 ^ (exponent_bits bits - 1075))
      else if significand % 2 ^ (1075 - exponent_bits bits) == 0
      then some (significand / 2 ^ (1075 - exponent_bits bits))
      else none

-- Tests against values that Python prints.
one_is : float_of_int (pos 1) ≡ some 0x3FF0000000000000
unfolding float_of_int
one_is = refl

minus_three_is : float_of_int (negsuc 2) ≡ some 0xC008000000000000
unfolding float_of_int
minus_three_is = refl

rounds_to_even : float_of_int (pos (2 ^ 53 + 1)) ≡ float_of_int (pos (2 ^ 53))
unfolding float_of_int
rounds_to_even = refl

carries : float_of_int (pos (2 ^ 54 - 1)) ≡ float_of_int (pos (2 ^ 54))
unfolding float_of_int
carries = refl

overflows : float_of_int (pos (2 ^ 1024 - 1)) ≡ none
unfolding float_of_int
overflows = refl

five_back : natural_of_float 0x4014000000000000 ≡ some 5
unfolding natural_of_float
five_back = refl
