-- ===== src/SemanticJson/Write.antt =====
-- `semantic_json_string`, `semantic_json_bytes` and `semantic_json_sha256` of semantic_json.py.
use semant_script.Prelude.{[], ◌∷◌, if◌then◌else◌}
use semant_script.Python.Text.{Text, has_surrogate}
use semant_script.Python.Utf8.{Bytes, utf8}
use semant_script.CanonicalInput.Errors.{Result, ok, fail, bind, Failure}
use semant_script.CanonicalInput.Tree.{ExactJson, array, tag, natural}
use semant_script.CanonicalInput.JsonText.{json_text}
use semant_script.SemanticJson.Node.{Json, to_typed_node}

-- `[_DOMAIN, _VERSION, node]`
abbrev pub document : ExactJson → ExactJson
document node = array (tag "semantscript-semantic-json" ∷ natural 1 ∷ node ∷ [])

-- `json.dumps(document, ensure_ascii=False, separators=(",", ":"))` of what such a document holds:
-- strings with the escapes of control characters, quotes and backslashes, and nothing between tokens.
unfoldable pub semantic_json_string : Json → Result Text
unfolding to_typed_node json_text
semantic_json_string v = bind (to_typed_node v) λ node. ok (json_text (document node))

-- `encode("utf-8")` raises a UnicodeEncodeError, which is a ValueError, at a surrogate
unfoldable pub encode_text : Text → Result Bytes
unfolding has_surrogate utf8
encode_text s = if has_surrogate s then fail Failure.value_error else ok (utf8 s)

unfoldable pub semantic_json_bytes : Json → Result Bytes
unfolding semantic_json_string encode_text
semantic_json_bytes v = bind (semantic_json_string v) encode_text

-- The digest of `hashlib.sha256` in hexadecimal is a parameter.
unfoldable pub semantic_json_sha256 : (Bytes → Text) → Json → Result Text
unfolding semantic_json_bytes
semantic_json_sha256 sha256 v = bind (semantic_json_bytes v) λ b. ok (sha256 b)
