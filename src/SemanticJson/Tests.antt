-- ===== src/SemanticJson/Tests.antt =====
-- Runs of semantic_json.py's model, and the theorems at concrete inputs.
use semant_script.Prelude.{◌≡◌, refl}
use semant_script.Python.Text.{Text, codes}
use semant_script.Python.Utf8.{Bytes, utf8}
use semant_script.Python.Float.{pos}
use semant_script.CanonicalInput.Errors.{ok, bind}
use semant_script.Python.Digits.{decimal}
use semant_script.CanonicalInput.Escape.{written, escape}
use semant_script.CanonicalInput.Tree.{ExactJson}
use semant_script.CanonicalInput.JsonText.{json_text}
use semant_script.SemanticJson.Node.{Json, Members, to_typed_node}
use semant_script.SemanticJson.Write.{document, semantic_json_bytes}
use semant_script.SemanticJson.Injective.{semantic_json_bytes_lem, semantic_json_bytes-injective}

abbrev key : Text → Json → Members → Members
key name v ms = Members.member (Json.string name) v ms

abbrev two_keys : Json
two_keys =
    Json.dict (key (codes "b") (Json.int (pos 5)) (key (codes "a") Json.null Members.no_members))

-- the same members in another order, and the int as a float
abbrev two_keys_again : Json
two_keys_again =
    Json.dict (
      key (codes "a") Json.null
        (key (codes "b") (Json.float 0x4014000000000000) Members.no_members))

abbrev two_keys_bytes : Bytes
two_keys_bytes =
    codes
      "[\"semantscript-semantic-json\",1,[\"object\",[[\"a\",[\"null\"]],[\"b\",[\"number\",\"4014000000000000\"]]]]]"

writes_two_keys : semantic_json_bytes two_keys ≡ ok two_keys_bytes
unfolding semantic_json_bytes written escape decimal
writes_two_keys = refl

writes_two_keys_again : semantic_json_bytes two_keys_again ≡ ok two_keys_bytes
unfolding semantic_json_bytes written escape decimal
writes_two_keys_again = refl

semantic_json_bytes_example :
    semantic_json_bytes two_keys
    ≡ bind (to_typed_node two_keys) (λ t. ok (utf8 (json_text (document t))))
semantic_json_bytes_example = semantic_json_bytes_lem two_keys

semantic_json_bytes-injective_example :
    (t : ExactJson) × (to_typed_node two_keys ≡ ok t) × (to_typed_node two_keys_again ≡ ok t)
semantic_json_bytes-injective_example =
    semantic_json_bytes-injective two_keys two_keys_again two_keys_bytes writes_two_keys
      writes_two_keys_again
