-- ===== src/CanonicalInput/Written.antt =====
-- `serialize_canonical_inputs` of canonical_input.py: from which tree, and how, its bytes are made.
use semant_script.Prelude.{ℕ, ◌≡◌, refl, subst, false, Option, length}
use semant_script.Python.Text.{Text}
use semant_script.Python.Utf8.{Bytes, utf8}
use semant_script.Python.Values.{Value, Heap}
use semant_script.CanonicalInput.Errors.{Yields, ok, bind, bind-eq-ok}
use semant_script.CanonicalInput.Tree.{ExactJson}
use semant_script.CanonicalInput.JsonText.{json_text}
use semant_script.CanonicalInput.Writer.{over_limit}
use semant_script.CanonicalInput.Compact.{write_compact}
use semant_script.CanonicalInput.Encode.{encode_envelope}
use semant_script.CanonicalInput.Serialize.{
  Version, validate_version, validate_maximum, write_version, serialize_canonical_inputs,
}
use semant_script.CanonicalInput.Injective.{limited, written_bytes}
use semant_script.CanonicalInput.Matches.{Envelope}
use semant_script.CanonicalInput.Matches.Sound.{encode_envelope-Envelope}

-- The tree has this text in the version.
abbrev pub IsText : (ℕ → Text) → Version → ExactJson → Text → Type 0
IsText repr Version.v1 t text = json_text t ≡ text
IsText repr Version.v2 t text = write_compact repr t ≡ ok text

write_version_lem :
    (repr : ℕ → Text) (v : Version) (max : Option ℕ) (t : ExactJson) (b : Bytes)
    → write_version repr v max t ≡ ok b
    → (text : Text) × IsText repr v t text × (b ≡ utf8 text) × (over_limit max (length b) ≡ false)
unfolding write_version
write_version_lem repr Version.v1 max t b e =
    let (bytes, fits) = written_bytes max t b e in (json_text t, refl, bytes, fits)
write_version_lem repr Version.v2 max t b e =
    let (text, written, k) = bind-eq-ok (write_compact repr t) _ e in
    let (bytes, fits) = limited max text b k in (text, written, bytes, fits)

module _ (h : Heap) where
  -- Bytes that are returned are the UTF-8 of a text of a canonical tree of the inputs, in which each
  -- union has its lowest variant that the value conforms to: in version 1 of the tree's JSON text, in
  -- version 2 of its compact text. The version and the byte limit were accepted, and the bytes are
  -- within the limit.
  pub serialize-Envelope :
      (repr : ℕ → Text) (schema inputs version maximum : Value) (b : Bytes)
      → serialize_canonical_inputs h repr schema inputs version maximum ≡ ok b
      → (t : ExactJson) × (v : Version) × (max : Option ℕ) × (text : Text) × Envelope h schema
          inputs t
        × (validate_version h version ≡ ok v)
        × (validate_maximum maximum ≡ ok max)
        × IsText repr v t text
        × (b ≡ utf8 text)
        × (over_limit max (length b) ≡ false)
  unfolding serialize_canonical_inputs
  serialize-Envelope repr schema inputs version maximum b done =
      let (max, m, r) = bind-eq-ok (validate_maximum maximum) _ done in
      let (v, e, q) =
        bind-eq-ok (validate_version h version)
          (λ v. bind (encode_envelope h schema inputs) λ t. write_version repr v max t) r in
      let (t, tree, written) =
        bind-eq-ok (encode_envelope h schema inputs) (λ t. write_version repr v max t) q in
      let (text, is_text, bytes, fits) = write_version_lem repr v max t b written in
      let envelope =
        subst (Yields (Envelope h schema inputs)) tree (encode_envelope-Envelope h schema inputs) in
      (t, v, max, text, envelope, e, m, is_text, bytes, fits)
