-- ===== src/StrictJson/Tests.antt =====
-- Runs of strict_json.py's model, and the theorems at concrete inputs.
use semant_script.Prelude.{
  ℕ, ◌≤◌, ◌≡◌, refl, false, [], ◌∷◌, Option, none, some, if◌then◌else◌, leb, ◌&&◌, All, arith,
}
use semant_script.Python.Text.{Text, codes, text_eq}
use semant_script.Python.Utf8.{utf8}
use semant_script.Python.Decode.{IsScalar}
use semant_script.CanonicalInput.Errors.{ok}
use semant_script.CanonicalInput.Tree.{ExactJson, array, tag}
use semant_script.CanonicalInput.JsonText.{json_text}
use semant_script.StrictJson.Document.{Document, default_limits, strict_error, decode}
use semant_script.StrictJson.Depth.{check_lexical_depth}
use semant_script.StrictJson.Depth.Brackets.{nesting, check_lexical_depth-json_text}
use semant_script.StrictJson.Json.{Json, Elements, Members, Syntax, Series, unique_object}
use semant_script.StrictJson.Json.Unique.{distinct, unique_object_lem}
use semant_script.StrictJson.Nodes.{check_value}
use semant_script.StrictJson.Nodes.Count.{count, is_scalar, check_value_lem}
use semant_script.StrictJson.Load.{has_mark, loads_strict_json}
use semant_script.StrictJson.Load.Accepted.{
  Accepted, loads_strict_json-Accepted, loads_strict_json-utf8,
}

abbrev one : Text → ℕ
one token = 0x3FF0000000000000

-- a parser of the one text `[1]`
abbrev parse_one : Text → Option Syntax
parse_one text =
    if text_eq text (codes "[1]")
    then some (Syntax.array (Series.item (Syntax.integer (codes "1")) Series.no_items))
    else none

abbrev list_of_one : Json
list_of_one = Json.list (Elements.element (Json.number 0x3FF0000000000000) Elements.no_elements)

loads_one :
    loads_strict_json one parse_one default_limits (Document.bytes (codes "[1]")) ≡ ok list_of_one
unfolding loads_strict_json text_eq
loads_one = refl

refuses_overlong : decode (Document.bytes (0xC0 ∷ 0x80 ∷ [])) ≡ strict_error
unfolding decode
refuses_overlong = refl

-- a bracket and an escaped quote in a string
abbrev bracket_tree : ExactJson
bracket_tree = array (tag "a\"[" ∷ [])

check_lexical_depth_example :
    check_lexical_depth (json_text bracket_tree) 1
    ≡ (if leb (nesting bracket_tree) 1 then ok tt else strict_error)
check_lexical_depth_example = check_lexical_depth-json_text bracket_tree 1

abbrev twice : Members
twice =
    Members.member (codes "a") Json.null (Members.member (codes "a") list_of_one Members.no_members)

unique_object_example :
    unique_object twice ≡ (if distinct twice then ok (Json.dict twice) else strict_error)
unique_object_example = unique_object_lem twice

check_value_example : check_value (Json.dict twice) 3 ≡ (
    if leb (count (Json.dict twice)) 3 && is_scalar (Json.dict twice) then ok tt else strict_error)
check_value_example = check_value_lem (Json.dict twice) 3

loads_strict_json-Accepted_example :
    (text : Text) × (size : ℕ) × (decode (Document.bytes (codes "[1]")) ≡ ok (text, size))
    × (size ≤ default_limits.maximum_bytes)
    × Accepted default_limits list_of_one
    × (has_mark text ≡ false)
    × (check_lexical_depth text default_limits.maximum_depth ≡ ok tt)
loads_strict_json-Accepted_example =
    loads_strict_json-Accepted one parse_one default_limits (Document.bytes (codes "[1]"))
      list_of_one loads_one

abbrev euro : Text
euro = 0x20AC ∷ []

euro-IsScalar : All IsScalar euro
euro-IsScalar = ((omega arith, refl), tt)

loads_strict_json-utf8_example :
    loads_strict_json one parse_one default_limits (Document.bytes (utf8 euro))
    ≡ loads_strict_json one parse_one default_limits (Document.str euro)
loads_strict_json-utf8_example =
    loads_strict_json-utf8 one parse_one default_limits euro euro-IsScalar
