-- ===== src/Python/Finite.antt =====
-- `float(n)` of the numbers below `2 ^ 53`.
use semant_script.Prelude.{
  ℕ, zero, suc, ◌+◌, ◌-◌, ◌*◌, ◌/◌, ◌^◌, ◌<◌, ◌≤◌, ◌≡◌, refl, true, false, some, ◌==◌, arith,
  le→leb, Bool-cases, inl, inr,
}
use semant_script.Python.Float.{bit_length, bit_length_rounds, float_of_nat, is_finite}

bit_length_rounds-le : (f k n : ℕ) → n < 2 ^ k → bit_length_rounds f n ≤ k
unfolding bit_length_rounds
bit_length_rounds-le zero k n lt = omega arith
bit_length_rounds-le (suc f) zero n lt = ground arith
bit_length_rounds-le (suc f) (suc k) n lt =
    ground (arith, bit_length_rounds-le f k (n / 2) (omega (arith, lt)))

nonzero : (n : ℕ) → (n == 0) ≡ false → 0 < n
nonzero n e = ground arith

half_lt : (n m : ℕ) → n / 2 < 2 ^ m → n < 2 ^ suc m
half_lt n m lt = omega (arith, lt)

double-product : (p q m : ℕ) → p * q ≡ m → 2 * p * q ≡ 2 * m
double-product p q m e = grind (arith, e)

lt-bit_length_rounds : (f n : ℕ) → n ≤ f → n < 2 ^ bit_length_rounds f n
unfolding bit_length_rounds
lt-bit_length_rounds zero n le = ground arith
lt-bit_length_rounds (suc f) n le = elim (Bool-cases (n == 0)) [
  | inl e ↦ rw e (let z : n ≡ 0 = ground (arith, e) in omega (arith, z))
  | inr e ↦ rw e (
      half_lt n (bit_length_rounds f (n / 2))
        (lt-bit_length_rounds f (n / 2) (omega (arith, nonzero n e, le))))
]

power_suc : (k : ℕ) → 2 ^ suc k ≡ 2 * 2 ^ k
power_suc k = omega arith

pow_sub : (k m : ℕ) → k ≤ m → 2 ^ k * 2 ^ (m - k) ≡ 2 ^ m
pow_sub zero m le = let e : m - 0 ≡ m = omega arith in rw e (omega arith)
pow_sub (suc k) zero le = absurd (omega (arith, le))
pow_sub (suc k) (suc m) le =
    let e : suc m - suc k ≡ m - k = omega arith in
    rw (e, power_suc k, power_suc m)
      (double-product (2 ^ k) (2 ^ (m - k)) (2 ^ m) (pow_sub k m (omega (arith, le))))

-- the product of the two powers bounds that of a number below the first
product-le : (n a b : ℕ) → n < a → n * b ≤ a * b
product-le n a b lt = grind (arith, lt)

finite_bits :
    (k x : ℕ) → k ≤ 53 → x ≤ 2 ^ 53 → is_finite ((k + 1022) * 2 ^ 52 + (x - 2 ^ 52)) ≡ true
unfolding is_finite
finite_bits k x le bound = ground arith

pub float_of_nat-finite :
    (n : ℕ) → n < 2 ^ 53 → (x : ℕ) × (float_of_nat n ≡ some x) × (is_finite x ≡ true)
unfolding float_of_nat bit_length
float_of_nat-finite n lt = elim (Bool-cases (n == 0)) [
  | inl e ↦ (0, rw e refl, unfold is_finite in refl)
  | inr e ↦
      let le = bit_length_rounds-le n 53 n lt in
      let bound =
        product-le n (2 ^ bit_length n) (2 ^ (53 - bit_length n))
          (lt-bit_length_rounds n n (omega arith)) in
      (
        (bit_length n + 1022) * 2 ^ 52 + (n * 2 ^ (53 - bit_length n) - 2 ^ 52),
        rw (e, le→leb (bit_length n) 53 le) refl,
        finite_bits (bit_length n) (n * 2 ^ (53 - bit_length n)) le
            (rw (pow_sub (bit_length n) 53 le) at bound),
      )
]
