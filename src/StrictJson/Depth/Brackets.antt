-- ===== src/StrictJson/Depth/Brackets.antt =====
-- What `_check_lexical_depth` of strict_json.py counts in the JSON text of a tree.
use semant_script.Prelude.{
  ℕ, zero, suc, ◌+◌, ◌≡◌, refl, Bool, true, false, [], ◌∷◌, ◌++◌, append_assoc, append-nil, ◌∙◌,
  leb, ◌&&◌, if◌then◌else◌, arith, All,
}
use semant_script.Python.Text.{Text, codes}
use semant_script.Python.Digits.{hex, hex_digit, decimal, is_digit, decimal-digits}
use semant_script.Python.Float.{ℤ, pos, negsuc}
use semant_script.CanonicalInput.Errors.{Result, ok}
use semant_script.CanonicalInput.Tree.{ExactJson, Items}
use semant_script.CanonicalInput.Escape.{escape, written}
use semant_script.CanonicalInput.JsonText.{quoted, json_string, json_integer, json_text, json_items}
use semant_script.StrictJson.Document.{strict_error}
use semant_script.StrictJson.Depth.{Mode, next, scan, check_lexical_depth}

abbrev max : ℕ → ℕ → ℕ
max a b = if leb a b then b else a

-- How deep arrays stand in one another.
unfoldable mutual
  pub nesting : ExactJson → ℕ
  nesting (ExactJson.list xs) = 1 + nesting_of xs
  nesting _ = 0

  pub nesting_of : Items → ℕ
  nesting_of Items.nil = 0
  nesting_of (Items.cons x xs) = max (nesting x) (nesting_of xs)

-- The scan goes on, if there was room.
abbrev pub go_on : Bool → ℕ → Text → Result (Unit {0})
go_on fits room r = if fits then scan Mode.outside room r else strict_error

scan-written :
    (room c : ℕ) (r : Text) → scan Mode.inside room (written c ++ r) ≡ scan Mode.inside room r
unfolding scan next written escape hex hex_digit
scan-written room c r = ground arith

scan-quoted :
    (room : ℕ) (s r : Text)
    → scan Mode.inside room (quoted s ++ b'"' ∷ r) ≡ scan Mode.outside room r
unfolding scan next quoted
scan-quoted room [] r = refl
scan-quoted room (c ∷ s) r =
    rw append_assoc (rw (scan-written room c (quoted s ++ b'"' ∷ r)) (scan-quoted room s r))

scan-json_string :
    (room : ℕ) (s r : Text) → scan Mode.outside room (json_string s ++ r) ≡ scan Mode.outside room r
unfolding scan next json_string
scan-json_string room s r = rw append_assoc (scan-quoted room s r)

scan-digits :
    (room : ℕ) (s r : Text)
    → All (λ c. is_digit c ≡ true) s
    → scan Mode.outside room (s ++ r) ≡ scan Mode.outside room r
unfolding scan next
scan-digits room [] r h = refl
scan-digits room (c ∷ s) r h = ground (arith, scan-digits room s r h.1)

scan-json_integer :
    (room : ℕ) (n : ℤ) (r : Text)
    → scan Mode.outside room (json_integer n ++ r) ≡ scan Mode.outside room r
unfolding json_integer
scan-json_integer room (pos n) r = scan-digits room (decimal n) r (decimal-digits n)
scan-json_integer room (negsuc n) r = refl

scan-boolean :
    (room : ℕ) (b : Bool) (r : Text)
    → scan Mode.outside room ((if b then codes "true" else codes "false") ++ r)
      ≡ scan Mode.outside room r
unfolding scan next
scan-boolean room true r = refl
scan-boolean room false r = refl

leb_zero : (room : ℕ) → leb 0 room ≡ true
leb_zero room = ground arith

scan-separator :
    (room : ℕ) (first : Bool) (r : Text)
    → scan Mode.outside room ((if first then [] else b',' ∷ []) ++ r) ≡ scan Mode.outside room r
unfolding scan next
scan-separator room true r = refl
scan-separator room false r = refl

-- After the items the closing bracket gives the room back.
go_on-bracket :
    (fits : Bool) (room : ℕ) (r : Text) → go_on fits room (b']' ∷ r) ≡ go_on fits (suc room) r
unfolding scan next
go_on-bracket true room r = let e : room + 1 ≡ suc room = omega arith in rw e refl
go_on-bracket false room r = refl

leb-suc : (n room : ℕ) → leb (1 + n) (suc room) ≡ leb n room
leb-suc n room = ground arith

leb_none : (n : ℕ) → leb (1 + n) 0 ≡ false
leb_none n = ground arith

leb-max : (a b n : ℕ) → leb (max a b) n ≡ leb a n && leb b n
leb-max a b n = ground arith

go_on-and :
    (a b : Bool) (room : ℕ) (s r : Text)
    → scan Mode.outside room s ≡ go_on b room r
    → go_on a room s ≡ go_on (a && b) room r
go_on-and true b room s r e = e
go_on-and false b room s r e = refl

mutual
  unfolding json_text nesting scan next

  scan-json_text :
      (room : ℕ) (t : ExactJson) (r : Text)
      → scan Mode.outside room (json_text t ++ r) ≡ go_on (leb (nesting t) room) room r
  scan-json_text room (ExactJson.string s) r = rw (leb_zero room) (scan-json_string room s r)
  scan-json_text room (ExactJson.integer n) r = rw (leb_zero room) (scan-json_integer room n r)
  scan-json_text room (ExactJson.boolean b) r = rw (leb_zero room) (scan-boolean room b r)
  scan-json_text zero (ExactJson.list xs) r = rw (leb_none (nesting_of xs)) refl
  scan-json_text (suc room) (ExactJson.list xs) r =
      rw (leb-suc (nesting_of xs) room, append_assoc)
        (scan-json_items room true xs (b']' ∷ r) ∙ go_on-bracket (leb (nesting_of xs) room) room r)

  scan-json_items :
      (room : ℕ) (first : Bool) (xs : Items) (r : Text)
      → scan Mode.outside room (json_items first xs ++ r) ≡ go_on (leb (nesting_of xs) room) room r
  scan-json_items room first Items.nil r = rw (leb_zero room) refl
  scan-json_items room first (Items.cons x xs) r =
      rw (leb-max (nesting x) (nesting_of xs) room, append_assoc, append_assoc)
        (scan-separator room first (json_text x ++ (json_items false xs ++ r))
          ∙ scan-json_text room x (json_items false xs ++ r)
          ∙ go_on-and (leb (nesting x) room) (leb (nesting_of xs) room) room
              (json_items false xs ++ r) r (scan-json_items room false xs r))

-- The JSON text of a tree passes if its arrays are nested no deeper than the limit, and is refused if
-- they are; brackets in its strings do not count, whatever is escaped there.
pub check_lexical_depth-json_text :
    (t : ExactJson) (maximum_depth : ℕ)
    → check_lexical_depth (json_text t) maximum_depth
      ≡ (if leb (nesting t) maximum_depth then ok tt else strict_error)
unfolding check_lexical_depth scan
check_lexical_depth-json_text t maximum_depth = rw append-nil at (scan-json_text maximum_depth t [])
