-- ===== src/Python/Utf8.antt =====
-- `str.encode("utf-8")`, and a decoder for one character.
use semant_script.Prelude.{
  ℕ, ◌+◌, ◌-◌, ◌*◌, ◌/◌, ◌%◌, ◌<◌, ◌≡◌, refl, sym, List, [], ◌∷◌, ◌++◌, append_assoc, Option, none,
  some, arith, ltb, if◌then◌else◌, All,
}
use semant_script.Python.Text.{Text}

abbrev pub Bytes : Type 0
Bytes = List ℕ

-- The bytes of a code point. Callers have refused the surrogates.
unfoldable pub utf8_char : ℕ → Bytes
utf8_char c =
    if ltb c 0x80
    then c ∷ []
    else if ltb c 0x800
    then (0xC0 + c / 64) ∷ (0x80 + c % 64) ∷ []
    else if ltb c 0x10000
    then (0xE0 + c / 4096) ∷ (0x80 + c / 64 % 64) ∷ (0x80 + c % 64) ∷ []
    else (0xF0 + c / 262144) ∷ (0x80 + c / 4096 % 64) ∷ (0x80 + c / 64 % 64) ∷ (0x80 + c % 64) ∷ []

unfoldable pub utf8 : Text → Bytes
unfolding utf8_char
utf8 [] = []
utf8 (c ∷ s) = utf8_char c ++ utf8 s

pub utf8-append : (s t : Text) → utf8 (s ++ t) ≡ utf8 s ++ utf8 t
unfolding utf8
utf8-append [] t = refl
utf8-append (c ∷ s) t = rw (utf8-append s t, append_assoc)

-- ASCII characters are their bytes.
pub utf8-ascii : (s : Text) → All (λ c. c < 0x80) s → utf8 s ≡ s
unfolding utf8
utf8-ascii [] h = refl
utf8-ascii (c ∷ s) h = ground (arith, utf8-ascii s h.1)

-- A decoder for one character, which the length in the first byte drives.
read_char : Bytes → Option (ℕ × Bytes)
read_char [] = none
read_char (a ∷ s) = if ltb a 0x80 then some (a, s) else more a s
  where
    three : ℕ → ℕ → ℕ → Bytes → Option (ℕ × Bytes)
    three a b c [] = none
    three a b c (d ∷ s) =
        some ((a - 0xF0) * 262144 + (b - 0x80) * 4096 + (c - 0x80) * 64 + (d - 0x80), s)

    two : ℕ → ℕ → Bytes → Option (ℕ × Bytes)
    two a b [] = none
    two a b (c ∷ s) =
        if ltb a 0xF0
        then some ((a - 0xE0) * 4096 + (b - 0x80) * 64 + (c - 0x80), s)
        else three a b c s

    more : ℕ → Bytes → Option (ℕ × Bytes)
    more a [] = none
    more a (b ∷ s) = if ltb a 0xE0 then some ((a - 0xC0) * 64 + (b - 0x80), s) else two a b s

read_char-utf8_char : (c : ℕ) (r : Bytes) → read_char (utf8_char c ++ r) ≡ some (c, r)
unfolding read_char utf8_char
read_char-utf8_char c r = ground arith

utf8_char-cancel : (c d : ℕ) (r s : Bytes) → utf8_char c ++ r ≡ utf8_char d ++ s → (c ≡ d) × (r ≡ s)
utf8_char-cancel c d r s e =
    let p = read_char-utf8_char c r in let q = read_char-utf8_char d s in ground (arith, p, q, e)

utf8_char-ne-nil : (c : ℕ) (s : Bytes) → utf8_char c ++ s ≡ [] → ⊥
unfolding utf8_char
utf8_char-ne-nil c s e = ground arith

-- Two texts with the same bytes are the same text.
pub utf8-injective : (s t : Text) → utf8 s ≡ utf8 t → s ≡ t
unfolding utf8
utf8-injective [] [] e = refl
utf8-injective [] (d ∷ t) e = absurd (utf8_char-ne-nil d (utf8 t) (sym e))
utf8-injective (c ∷ s) [] e = absurd (utf8_char-ne-nil c (utf8 s) e)
utf8-injective (c ∷ s) (d ∷ t) e =
    let both = utf8_char-cancel c d (utf8 s) (utf8 t) e in cc (both.0, utf8-injective s t both.1)
