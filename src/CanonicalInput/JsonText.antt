-- ===== src/CanonicalInput/JsonText.antt =====
-- The JSON text of a typed tree, which the writer of canonical_input.py is compared with, and the way
-- back from a text to its tree.
use semant_script.Prelude.{
  ℕ, ◌≡◌, refl, sym, ap, ap₂, ◌∙◌, Bool, true, false, not, ◌&&◌, [], ◌∷◌, ◌++◌, append_assoc,
  append-nil, arith, leb, if◌then◌else◌,
}
use semant_script.Python.Text.{Text, codes, has_surrogate}
use semant_script.Python.Digits.{decimal, decimal_lead, is_digit, read_digits, read_digits-decimal}
use semant_script.Python.Float.{ℤ, pos, negsuc}
use semant_script.CanonicalInput.Tree.{ExactJson, Items}
use semant_script.CanonicalInput.Schema.{maximum_safe_integer}
use semant_script.CanonicalInput.Escape.{written, written-cancel, written-ne-quote}

-- the characters of a string between its quotes
unfoldable pub quoted : Text → Text
quoted [] = []
quoted (c ∷ s) = written c ++ quoted s

unfoldable pub json_string : Text → Text
unfolding quoted
json_string s = b'"' ∷ quoted s ++ b'"' ∷ []

unfoldable pub json_integer : ℤ → Text
json_integer (pos n) = decimal n
json_integer (negsuc n) = []

-- The items of an array; all but the first follow a comma.
unfoldable mutual
  unfolding json_string json_integer

  pub json_text : ExactJson → Text
  json_text (ExactJson.string s) = json_string s
  json_text (ExactJson.integer n) = json_integer n
  json_text (ExactJson.boolean b) = if b then codes "true" else codes "false"
  json_text (ExactJson.list xs) = b'[' ∷ json_items true xs ++ b']' ∷ []

  pub json_items : Bool → Items → Text
  json_items first Items.nil = []
  json_items first (Items.cons x xs) =
      (if first then [] else b',' ∷ []) ++ (json_text x ++ json_items false xs)

-- Trees that the writer takes: no surrogates, and only unsigned safe integers.
abbrev pub is_safe : ℤ → Bool
is_safe (pos n) = leb n maximum_safe_integer
is_safe (negsuc n) = false

unfoldable mutual
  pub is_writable : ExactJson → Bool
  is_writable (ExactJson.string s) = not (has_surrogate s)
  is_writable (ExactJson.integer n) = is_safe n
  is_writable (ExactJson.boolean b) = true
  is_writable (ExactJson.list xs) = are_writable xs

  pub are_writable : Items → Bool
  are_writable Items.nil = true
  are_writable (Items.cons x xs) = is_writable x && are_writable xs

-- A text that does not go on with a digit.
abbrev Stops : Text → Type 0
Stops [] = Unit
Stops (c ∷ r) = is_digit c ≡ false

pub quoted-cancel :
    (s t r q : Text) → quoted s ++ b'"' ∷ r ≡ quoted t ++ b'"' ∷ q → (s ≡ t) × (r ≡ q)
unfolding quoted
quoted-cancel [] [] r q e = (refl, ground arith)
quoted-cancel [] (d ∷ t) r q e =
    absurd (written-ne-quote d (quoted t ++ b'"' ∷ q) r (rw append_assoc at (sym e)))
quoted-cancel (c ∷ s) [] r q e =
    absurd (written-ne-quote c (quoted s ++ b'"' ∷ r) q (rw append_assoc at e))
quoted-cancel (c ∷ s) (d ∷ t) r q e =
    let first =
      written-cancel c d (quoted s ++ b'"' ∷ r) (quoted t ++ b'"' ∷ q)
        (sym (append_assoc (written c) (quoted s) _) ∙ e ∙ append_assoc (written d) (quoted t) _) in
    let rest = quoted-cancel s t r q first.1 in (ap₂ (λ a l. a ∷ l) first.0 rest.0, rest.1)

read_digits-stop : (n : ℕ) (r : Text) → Stops r → read_digits n r ≡ (n, r)
unfolding read_digits
read_digits-stop n [] h = refl
read_digits-stop n (c ∷ r) h = rw h

decimal-cancel :
    (m n : ℕ) (r q : Text) → Stops r → Stops q → decimal m ++ r ≡ decimal n ++ q → (m ≡ n) × (r ≡ q)
decimal-cancel m n r q hr hq e =
    let p : read_digits 0 (decimal m ++ r) ≡ (m, r) =
      read_digits-decimal m r ∙ read_digits-stop m r hr in
    let k : read_digits 0 (decimal n ++ q) ≡ (n, q) =
      read_digits-decimal n q ∙ read_digits-stop n q hq in
    let same : ◌≡◌ {A = ℕ × Text} (m, r) (n, q) = sym p ∙ ap (read_digits 0) e ∙ k in
    (ap (λ (x : ℕ × Text). x.0) same, ap (λ (x : ℕ × Text). x.1) same)

integer-cancel :
    (m n : ℤ) (r q : Text)
    → is_safe m ≡ true
    → is_safe n ≡ true
    → Stops r
    → Stops q
    → json_integer m ++ r ≡ json_integer n ++ q
    → (m ≡ n) × (r ≡ q)
unfolding json_integer
integer-cancel (pos m) (pos n) r q hm hn hr hq e =
    let (same, rest) = decimal-cancel m n r q hr hq e in (ap pos same, rest)
integer-cancel (pos m) (negsuc n) r q hm hn hr hq e = cc
integer-cancel (negsuc m) n r q hm hn hr hq e = cc

-- What a written integer begins with is none of the other marks.
integer_lead :
    (n : ℤ) (r s : Text) (c : ℕ)
    → is_safe n ≡ true
    → is_digit c ≡ false
    → json_integer n ++ r ≡ c ∷ s
    → ⊥
unfolding json_integer
integer_lead (negsuc n) r s c safe no_digit e = cc
integer_lead (pos n) r s c safe no_digit e =
    let (d, rest, lead, digit) = decimal_lead n in
    let heads : d ∷ (rest ++ r) ≡ c ∷ s = rw lead at e in ground (arith, heads)

Stops-items : (xs : Items) (r : Text) → Stops (json_items false xs ++ b']' ∷ r)
unfolding json_text
Stops-items Items.nil r = refl
Stops-items (Items.cons x xs) r = refl

pub Writable-cons :
    (x : ExactJson) (xs : Items)
    → are_writable (Items.cons x xs) ≡ true
    → (is_writable x ≡ true) × (are_writable xs ≡ true)
unfolding is_writable
Writable-cons x xs h = ground arith

-- The first mark of an item is not the closing bracket.
json_text-ne-bracket :
    (x : ExactJson) (r s : Text) → is_writable x ≡ true → json_text x ++ r ≡ b']' ∷ s → ⊥
unfolding json_text is_writable json_string
json_text-ne-bracket (ExactJson.string t) r s w e = ground arith
json_text-ne-bracket (ExactJson.integer n) r s w e = integer_lead n r s b']' w refl e
json_text-ne-bracket (ExactJson.boolean b) r s w e = ground arith
json_text-ne-bracket (ExactJson.list xs) r s w e = ground arith

pub tail_eq : {c d : ℕ} (s t : Text) → c ∷ s ≡ d ∷ t → s ≡ t
tail_eq s t e = ground arith

abbrev separator : Bool → Text
separator first = if first then [] else b',' ∷ []

separator-cancel : (first : Bool) (s t : Text) → separator first ++ s ≡ separator first ++ t → s ≡ t
separator-cancel true s t e = e
separator-cancel false s t e = tail_eq s t e

-- An item never looks like the end of the items.
bracket-ne-item :
    (first : Bool) (x : ExactJson) (r s : Text)
    → is_writable x ≡ true
    → separator first ++ (json_text x ++ r) ≡ b']' ∷ s
    → ⊥
bracket-ne-item true x r s w e = json_text-ne-bracket x r s w e
bracket-ne-item false x r s w e = ground arith

mutual
  unfolding json_text is_writable json_string

  json_text-cancel :
      (x y : ExactJson) (r q : Text)
      → is_writable x ≡ true
      → is_writable y ≡ true
      → Stops r
      → Stops q
      → json_text x ++ r ≡ json_text y ++ q
      → (x ≡ y) × (r ≡ q)
  json_text-cancel (ExactJson.string s) (ExactJson.string t) r q wx wy hr hq e =
      let (same, rest) = quoted-cancel s t r q (simp append_assoc at (tail_eq _ _ e)) in
      (ap ExactJson.string same, rest)
  json_text-cancel (ExactJson.string s) (ExactJson.integer n) r q wx wy hr hq e =
      absurd (integer_lead n q _ b'"' wy refl (sym e))
  json_text-cancel (ExactJson.string s) (ExactJson.boolean b) r q wx wy hr hq e = ground arith
  json_text-cancel (ExactJson.string s) (ExactJson.list ys) r q wx wy hr hq e = ground arith
  json_text-cancel (ExactJson.integer m) (ExactJson.integer n) r q wx wy hr hq e =
      let (same, rest) = integer-cancel m n r q wx wy hr hq e in (ap ExactJson.integer same, rest)
  json_text-cancel (ExactJson.integer m) (ExactJson.string t) r q wx wy hr hq e =
      absurd (integer_lead m r _ b'"' wx refl e)
  json_text-cancel (ExactJson.integer m) (ExactJson.boolean true) r q wx wy hr hq e =
      absurd (integer_lead m r _ b't' wx refl e)
  json_text-cancel (ExactJson.integer m) (ExactJson.boolean false) r q wx wy hr hq e =
      absurd (integer_lead m r _ b'f' wx refl e)
  json_text-cancel (ExactJson.integer m) (ExactJson.list ys) r q wx wy hr hq e =
      absurd (integer_lead m r _ b'[' wx refl e)
  json_text-cancel (ExactJson.boolean true) (ExactJson.integer n) r q wx wy hr hq e =
      absurd (integer_lead n q _ b't' wy refl (sym e))
  json_text-cancel (ExactJson.boolean false) (ExactJson.integer n) r q wx wy hr hq e =
      absurd (integer_lead n q _ b'f' wy refl (sym e))
  json_text-cancel (ExactJson.boolean a) (ExactJson.boolean b) r q wx wy hr hq e = ground arith
  json_text-cancel (ExactJson.boolean a) (ExactJson.string t) r q wx wy hr hq e = ground arith
  json_text-cancel (ExactJson.boolean a) (ExactJson.list ys) r q wx wy hr hq e = ground arith
  json_text-cancel (ExactJson.list xs) (ExactJson.list ys) r q wx wy hr hq e =
      let (same, rest) =
        json_items-cancel xs ys true r q wx wy (simp append_assoc at (tail_eq _ _ e)) in
      (ap ExactJson.list same, rest)
  json_text-cancel (ExactJson.list xs) (ExactJson.integer n) r q wx wy hr hq e =
      absurd (integer_lead n q _ b'[' wy refl (sym e))
  json_text-cancel (ExactJson.list xs) (ExactJson.string t) r q wx wy hr hq e = ground arith
  json_text-cancel (ExactJson.list xs) (ExactJson.boolean b) r q wx wy hr hq e = ground arith

  json_items-cancel :
      (xs ys : Items) (first : Bool) (r q : Text)
      → are_writable xs ≡ true
      → are_writable ys ≡ true
      → json_items first xs ++ b']' ∷ r ≡ json_items first ys ++ b']' ∷ q
      → (xs ≡ ys) × (r ≡ q)
  json_items-cancel Items.nil Items.nil first r q wx wy e = (refl, ground arith)
  json_items-cancel Items.nil (Items.cons y ys) first r q wx wy e = absurd (
      bracket-ne-item first y (json_items false ys ++ b']' ∷ q) r (Writable-cons y ys wy).0
        (simp append_assoc at (sym e)))
  json_items-cancel (Items.cons x xs) Items.nil first r q wx wy e = absurd (
      bracket-ne-item first x (json_items false xs ++ b']' ∷ r) q (Writable-cons x xs wx).0
        (simp append_assoc at e))
  json_items-cancel (Items.cons x xs) (Items.cons y ys) first r q wx wy e =
      let (hx, hxs) = Writable-cons x xs wx in
      let (hy, hys) = Writable-cons y ys wy in
      let (same, tails) =
        json_text-cancel x y (json_items false xs ++ b']' ∷ r) (json_items false ys ++ b']' ∷ q) hx
          hy (Stops-items xs r) (Stops-items ys q)
          (separator-cancel first _ _ (simp append_assoc at e)) in
      let (others, rest) = json_items-cancel xs ys false r q hxs hys tails in
      (ap₂ Items.cons same others, rest)

-- Two trees that the writer takes and that have the same text are the same tree.
pub json_text-injective :
    (x y : ExactJson)
    → is_writable x ≡ true
    → is_writable y ≡ true
    → json_text x ≡ json_text y
    → x ≡ y
json_text-injective x y wx wy e =
    (json_text-cancel x y [] [] wx wy tt tt
      (append-nil (json_text x) ∙ e ∙ sym (append-nil (json_text y)))).0
