-- ===== src/SemanticJson/Injective.antt =====
-- What the bytes of semantic_json.py tell of a value.
use semant_script.Prelude.{◌≡◌, refl, sym, ◌∙◌, false, subst, arith}
use semant_script.Python.Text.{Text, has_surrogate}
use semant_script.Python.Utf8.{Bytes, utf8, utf8-injective}
use semant_script.CanonicalInput.Errors.{Result, ok, fail, bind, bind-eq-ok, Yields}
use semant_script.CanonicalInput.Tree.{ExactJson}
use semant_script.CanonicalInput.JsonText.{json_text, is_writable, json_text-injective}
use semant_script.SemanticJson.Node.{Json, to_typed_node}
use semant_script.SemanticJson.Write.{
  document, semantic_json_string, encode_text, semantic_json_bytes,
}
use semant_script.SemanticJson.Scalar.{Writable, json_text_scalar}
use semant_script.SemanticJson.Writable.{to_typed_node-Writable}

document-Writable : (t : ExactJson) → Writable t → Writable (document t)
unfolding is_writable has_surrogate
document-Writable t w = rw w refl

node-Writable : (v : Json) (t : ExactJson) → to_typed_node v ≡ ok t → Writable t
node-Writable v t e = rw (e, Yields) at (to_typed_node-Writable v)

encodes : (s : Text) → has_surrogate s ≡ false → encode_text s ≡ ok (utf8 s)
unfolding encode_text
encodes s h = rw h refl

-- The bytes of a value are the UTF-8 of its document's JSON text: once the node is made nothing raises,
-- and if no node is made the error is that of the node.
pub semantic_json_bytes_lem :
    (v : Json)
    → semantic_json_bytes v ≡ bind (to_typed_node v) (λ t. ok (utf8 (json_text (document t))))
unfolding semantic_json_bytes semantic_json_string
semantic_json_bytes_lem v = go (to_typed_node v) (to_typed_node-Writable v)
  where
    go :
        (r : Result ExactJson)
        → Yields Writable r
        → bind (bind r (λ t. ok (json_text (document t)))) encode_text
          ≡ bind r (λ t. ok (utf8 (json_text (document t))))
    go (ok t) w =
        encodes (json_text (document t)) (json_text_scalar (document t) (document-Writable t w))
    go (fail e) w = refl

same_node : (t u : ExactJson) → document t ≡ document u → t ≡ u
same_node t u e = ground arith

written_node :
    (v : Json) (b : Bytes)
    → semantic_json_bytes v ≡ ok b
    → (t : ExactJson) × (to_typed_node v ≡ ok t) × (utf8 (json_text (document t)) ≡ b)
written_node v b h =
    let (t, e, r) =
      bind-eq-ok (to_typed_node v) (λ t. ok (utf8 (json_text (document t))))
        (sym (semantic_json_bytes_lem v) ∙ h) in
    (t, e, cc r)

-- Two values with the same bytes have the same typed node.
pub semantic_json_bytes-injective :
    (v w : Json) (b : Bytes)
    → semantic_json_bytes v ≡ ok b
    → semantic_json_bytes w ≡ ok b
    → (t : ExactJson) × (to_typed_node v ≡ ok t) × (to_typed_node w ≡ ok t)
semantic_json_bytes-injective v w b p q =
    let (t, e, x) = written_node v b p in
    let (u, d, y) = written_node w b q in
    let same =
      json_text-injective (document t) (document u) (document-Writable t (node-Writable v t e))
        (document-Writable u (node-Writable w u d))
        (utf8-injective (json_text (document t)) (json_text (document u)) (x ∙ sym y)) in
    (t, e, subst (λ x. to_typed_node w ≡ ok x) (sym (same_node t u same)) d)
