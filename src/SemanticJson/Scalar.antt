-- ===== src/SemanticJson/Scalar.antt =====
-- Surrogates in the JSON texts that semantic_json.py writes.
use semant_script.Prelude.{
  ℕ, zero, suc, ◌/◌, ◌%◌, ◌≡◌, refl, Bool, true, false, [], ◌∷◌, ◌++◌, ◌&&◌, ◌||◌, All,
  if◌then◌else◌, arith,
}
use semant_script.Python.Text.{Text, codes, has_surrogate, is_surrogate}
use semant_script.Python.Digits.{hex, hex_digit, decimal, is_digit, decimal-digits}
use semant_script.Python.Float.{ℤ, pos, negsuc}
use semant_script.CanonicalInput.Tree.{ExactJson, Items}
use semant_script.CanonicalInput.Escape.{escape, written}
use semant_script.CanonicalInput.JsonText.{
  quoted, json_string, json_integer, json_text, json_items, is_writable, are_writable,
}

abbrev pub Writable : ExactJson → Type 0
Writable t = is_writable t ≡ true

pub and_intro : {a b : Bool} → a ≡ true → b ≡ true → a && b ≡ true
and_intro h k = rw (h, k) refl

and_left : (a b : Bool) → a && b ≡ true → a ≡ true
and_left true b h = refl
and_left false b h = cc

and_right : (a b : Bool) → a && b ≡ true → b ≡ true
and_right true b h = h
and_right false b h = cc

has_surrogate-append : (s t : Text) → has_surrogate (s ++ t) ≡ has_surrogate s || has_surrogate t
unfolding has_surrogate
has_surrogate-append [] t = refl
has_surrogate-append (c ∷ s) t = ground (arith, has_surrogate-append s t)

-- Of two texts without surrogates.
append_scalar :
    (s t : Text)
    → has_surrogate s ≡ false
    → has_surrogate t ≡ false
    → has_surrogate (s ++ t) ≡ false
append_scalar s t h k = rw (has_surrogate-append s t, h) k

pub hex_scalar : (k n : ℕ) → has_surrogate (hex k n) ≡ false
unfolding hex hex_digit has_surrogate
hex_scalar zero n = refl
hex_scalar (suc k) n =
    append_scalar (hex k (n / 16)) (hex_digit (n % 16) ∷ []) (hex_scalar k (n / 16)) (ground arith)

digits_scalar : (s : Text) → All (λ c. is_digit c ≡ true) s → has_surrogate s ≡ false
unfolding has_surrogate
digits_scalar [] h = refl
digits_scalar (c ∷ s) h = ground (arith, digits_scalar s h.1)

written_scalar : (c : ℕ) → is_surrogate c ≡ false → has_surrogate (written c) ≡ false
unfolding written escape hex hex_digit has_surrogate
written_scalar c h = ground arith

quoted_scalar : (s : Text) → has_surrogate s ≡ false → has_surrogate (quoted s) ≡ false
unfolding quoted has_surrogate
quoted_scalar [] h = refl
quoted_scalar (c ∷ s) h =
    append_scalar (written c) (quoted s) (written_scalar c (ground arith))
      (quoted_scalar s (ground arith))

json_string_scalar : (s : Text) → has_surrogate s ≡ false → has_surrogate (json_string s) ≡ false
unfolding json_string has_surrogate
json_string_scalar s h = append_scalar (quoted s) (b'"' ∷ []) (quoted_scalar s h) refl

json_integer_scalar : (n : ℤ) → has_surrogate (json_integer n) ≡ false
unfolding json_integer has_surrogate
json_integer_scalar (pos n) = digits_scalar (decimal n) (decimal-digits n)
json_integer_scalar (negsuc n) = refl

separator_scalar : (first : Bool) → has_surrogate (if first then [] else b',' ∷ []) ≡ false
unfolding has_surrogate
separator_scalar true = refl
separator_scalar false = refl

boolean_scalar : (b : Bool) → has_surrogate (if b then codes "true" else codes "false") ≡ false
unfolding has_surrogate
boolean_scalar true = refl
boolean_scalar false = refl

mutual
  unfolding json_text is_writable has_surrogate

  -- The text of a tree that the writers take has no surrogates.
  pub json_text_scalar : (t : ExactJson) → Writable t → has_surrogate (json_text t) ≡ false
  json_text_scalar (ExactJson.string s) w = json_string_scalar s (ground arith)
  json_text_scalar (ExactJson.integer n) w = json_integer_scalar n
  json_text_scalar (ExactJson.boolean b) w = boolean_scalar b
  json_text_scalar (ExactJson.list xs) w =
      append_scalar (json_items true xs) (b']' ∷ []) (json_items_scalar true xs w) refl

  json_items_scalar :
      (first : Bool) (xs : Items)
      → are_writable xs ≡ true
      → has_surrogate (json_items first xs) ≡ false
  json_items_scalar first Items.nil w = refl
  json_items_scalar first (Items.cons x xs) w =
      append_scalar (if first then [] else b',' ∷ []) (json_text x ++ json_items false xs)
        (separator_scalar first)
        (append_scalar (json_text x) (json_items false xs) (json_text_scalar x (and_left _ _ w))
          (json_items_scalar false xs (and_right _ _ w)))
