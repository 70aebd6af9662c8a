-- ===== src/CanonicalInput/NumberText.antt =====
-- `_number_hex` and `_hex_to_double` of canonical_input.py, one after the other.
use semant_script.Prelude.{ℕ, ◌<◌, ◌^◌, ◌≡◌, refl, true, length}
use semant_script.Python.Text.{Text}
use semant_script.Python.Digits.{hex, length-hex, hex_value-hex}
use semant_script.Python.Float.{is_finite}
use semant_script.Python.Values.{Value}
use semant_script.CanonicalInput.Errors.{ok, InputPath}
use semant_script.CanonicalInput.Numbers.{finite_float, number_hex, hex_to_double}

hex_to_double-hex : (bits : ℕ) → bits < 2 ^ 64 → hex_to_double (hex 16 bits) ≡ ok bits
unfolding hex_to_double
hex_to_double-hex bits h = rw (length-hex 16 bits, hex_value-hex 16 bits h) refl

-- A finite double is written as 16 digits, and those are read back as the same double, the sign of
-- zero included.
pub hex_to_double-number_hex :
    (bits : ℕ) (path : InputPath)
    → bits < 2 ^ 64
    → is_finite bits ≡ true
    → (s : Text) × (number_hex (Value.float bits) path ≡ ok s)
      × (length s ≡ 16)
      × (hex_to_double s ≡ ok bits)
unfolding number_hex finite_float
hex_to_double-number_hex bits path h f =
    (hex 16 bits, rw f refl, length-hex 16 bits, hex_to_double-hex bits h)
