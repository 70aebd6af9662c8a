-- ===== src/Python/Decode.antt =====
-- Python's strict `bytes.decode("utf-8")`.
use semant_script.Prelude.{
  ℕ, zero, suc, ◌+◌, ◌*◌, ◌-◌, ◌≤◌, ◌≡◌, refl, Bool, false, [], ◌∷◌, ◌++◌, Option, none, some, ◌&&◌,
  ltb, leb, not, if◌then◌else◌, length, All, arith,
}
use semant_script.Python.Text.{Text, is_surrogate}
use semant_script.Python.Utf8.{Bytes, utf8_char, utf8}

abbrev continues : ℕ → Bool
continues b = leb 0x80 b && ltb b 0xC0

-- The character of a lead byte and its continuation bytes, in its shortest form and no surrogate,
-- and the bytes after it.
abbrev two : ℕ → Bytes → Option (ℕ × Bytes)
two a (b ∷ s) = if continues b then some ((a - 0xC0) * 64 + (b - 0x80), s) else none
two a _ = none

abbrev three : ℕ → Bytes → Option (ℕ × Bytes)
three a (b ∷ c ∷ s) =
    let code = (a - 0xE0) * 4096 + (b - 0x80) * 64 + (c - 0x80) in
    if (continues b && continues c) && (leb 0x800 code && not (is_surrogate code))
    then some (code, s)
    else none
three a _ = none

abbrev four : ℕ → Bytes → Option (ℕ × Bytes)
four a (b ∷ c ∷ d ∷ s) =
    let code = (a - 0xF0) * 262144 + (b - 0x80) * 4096 + (c - 0x80) * 64 + (d - 0x80) in
    if (continues b && continues c && continues d) && (leb 0x10000 code && leb code 0x10FFFF)
    then some (code, s)
    else none
four a _ = none

unfoldable pub lead_char : ℕ → Bytes → Option (ℕ × Bytes)
lead_char a s =
    if ltb a 0x80
    then some (a, s)
    else if ltb a 0xC2
    then none
    else if ltb a 0xE0
    then two a s
    else if ltb a 0xF0
    then three a s
    else if ltb a 0xF5
    then four a s
    else none

-- A round for each character, which has a byte at least.
unfoldable pub decode_rounds : ℕ → Bytes → Option Text
unfolding lead_char
decode_rounds rounds [] = some []
decode_rounds zero (a ∷ s) = none
decode_rounds (suc rounds) (a ∷ s) = elim (lead_char a s) [
  | none ↦ none
  | some (c, rest) ↦ elim (decode_rounds rounds rest) [ none ↦ none | some t ↦ some (c ∷ t) ]
]

unfoldable pub decode_utf8 : Bytes → Option Text
unfolding decode_rounds
decode_utf8 s = decode_rounds (length s) s

abbrev pub IsScalar : ℕ → Type 0
IsScalar c = (c ≤ 0x10FFFF) × (is_surrogate c ≡ false)

-- `lead_char` after the first byte
abbrev lead : Bytes → Option (ℕ × Bytes)
lead [] = none
lead (a ∷ s) = lead_char a s

lead-utf8_char : (c : ℕ) (s : Bytes) → IsScalar c → lead (utf8_char c ++ s) ≡ some (c, s)
unfolding utf8_char lead_char
lead-utf8_char c s (le, scalar) = ground arith

decode_rounds-lead :
    (rounds : ℕ) (s : Bytes) (c : ℕ) (rest : Bytes) (t : Text)
    → lead s ≡ some (c, rest)
    → decode_rounds rounds rest ≡ some t
    → decode_rounds (suc rounds) s ≡ some (c ∷ t)
unfolding decode_rounds
decode_rounds-lead rounds [] c rest t e d = cc
decode_rounds-lead rounds (a ∷ s) c rest t e d = rw (e, decode_rounds, d) refl

length-utf8_char : (c : ℕ) (s : Bytes) → length s + 1 ≤ length (utf8_char c ++ s)
unfolding utf8_char
length-utf8_char c s = ground arith

decode_rounds-utf8 :
    (rounds : ℕ) (s : Text)
    → All IsScalar s
    → length (utf8 s) ≤ rounds
    → decode_rounds rounds (utf8 s) ≡ some s
unfolding decode_rounds utf8
decode_rounds-utf8 zero [] h le = refl
decode_rounds-utf8 (suc rounds) [] h le = refl
decode_rounds-utf8 zero (c ∷ s) h le = absurd (omega (arith, length-utf8_char c (utf8 s)))
decode_rounds-utf8 (suc rounds) (c ∷ s) h le =
    decode_rounds-lead rounds (utf8_char c ++ utf8 s) c (utf8 s) s (lead-utf8_char c (utf8 s) h.0)
      (decode_rounds-utf8 rounds s h.1 (omega (arith, length-utf8_char c (utf8 s))))

-- A text without surrogates is read back from its UTF-8.
pub decode_utf8-utf8 : (s : Text) → All IsScalar s → decode_utf8 (utf8 s) ≡ some s
unfolding decode_utf8
decode_utf8-utf8 s h = decode_rounds-utf8 (length (utf8 s)) s h (omega arith)
