-- ===== src/StrictJson/Load.antt =====
-- `loads_strict_json` of strict_json.py.
pub mod Accepted
use semant_script.Prelude.{
  ℕ, Bool, true, false, List, [], ◌∷◌, Option, none, some, ltb, ◌==◌, if◌then◌else◌,
}
use semant_script.Python.Text.{Text}
use semant_script.CanonicalInput.Errors.{Result, ok, bind}
use semant_script.StrictJson.Document.{StrictJsonLimits, Document, strict_error, decode}
use semant_script.StrictJson.Depth.{check_lexical_depth}
use semant_script.StrictJson.Json.{Json, Syntax, build}
use semant_script.StrictJson.Nodes.{check_value}

-- `text.startswith("\ufeff")`
abbrev pub has_mark : Text → Bool
has_mark [] = false
has_mark (c ∷ s) = c == 0xFEFF

-- The parser of `json.loads` is a parameter, with the values of its number tokens: the syntax of a
-- text, or none where it raises a ValueError, an OverflowError or a RecursionError.
module _ (float : Text → ℕ) (parse : Text → Option Syntax) where
  -- the `try` block, whose errors are all StrictJsonError
  unfoldable pub read_value : Text → Result Json
  unfolding build
  read_value text = elim (parse text) [ none ↦ strict_error | some x ↦ build float x ]

  -- what is done with a text, from the byte order mark on
  unfoldable pub loads_text : StrictJsonLimits → Text → Result Json
  unfolding read_value check_lexical_depth check_value
  loads_text limits text =
      if has_mark text
      then strict_error
      else bind (check_lexical_depth text limits.maximum_depth)
          λ _. bind (read_value text) λ v. bind (check_value v limits.maximum_nodes) λ _. ok v

  unfoldable pub loads_strict_json : StrictJsonLimits → Document → Result Json
  unfolding loads_text decode
  loads_strict_json limits document =
      bind (decode document) λ (text, size).
        if ltb limits.maximum_bytes size then strict_error else loads_text limits text
