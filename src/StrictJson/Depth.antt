-- ===== src/StrictJson/Depth.antt =====
-- `_check_lexical_depth` of strict_json.py: brackets are counted before anything is parsed.
pub mod Brackets
use semant_script.Prelude.{
  ℕ, zero, suc, ◌+◌, ◌≡◌, refl, Bool, true, false, List, [], ◌∷◌, Option, none, some, ◌==◌, ◌||◌,
  if◌then◌else◌,
}
use semant_script.Python.Text.{Text}
use semant_script.CanonicalInput.Errors.{Result, ok}
use semant_script.StrictJson.Document.{strict_error}

-- `in_string` and `escaped`; `escaped` is only set inside a string.
pub data Mode : Type 0 where
  outside inside escaped : Mode

-- The depth is kept as the room that is left, `maximum_depth - depth`: closing brackets that were
-- never opened make more room, as they make a negative depth.
abbrev enter : ℕ → Option (Mode × ℕ)
enter zero = none
enter (suc room) = some (Mode.outside, room)

-- one round of the loop
unfoldable pub next : Mode → ℕ → ℕ → Option (Mode × ℕ)
next Mode.escaped room c = some (Mode.inside, room)
next Mode.inside room c =
    some
      (if c == b'\\' then Mode.escaped else if c == b'"' then Mode.outside else Mode.inside, room)
next Mode.outside room c =
    if c == b'"'
    then some (Mode.inside, room)
    else if c == b'[' || c == b'{'
    then enter room
    else if c == b']' || c == b'}'
    then some (Mode.outside, room + 1)
    else some (Mode.outside, room)

unfoldable pub scan : Mode → ℕ → Text → Result (Unit {0})
unfolding next
scan mode room [] = ok tt
scan mode room (c ∷ s) = elim (next mode room c) [
  | none ↦ strict_error
  | some (mode', room') ↦ scan mode' room' s
]

-- `_check_lexical_depth`
unfoldable pub check_lexical_depth : Text → ℕ → Result (Unit {0})
unfolding scan
check_lexical_depth text maximum_depth = scan Mode.outside maximum_depth text
