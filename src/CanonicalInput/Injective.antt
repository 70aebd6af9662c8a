-- ===== src/CanonicalInput/Injective.antt =====
-- canonical-input/v1 of canonical_input.py: from the bytes back to the typed tree.
use semant_script.Prelude.{
  ℕ, ◌≡◌, refl, sym, subst, ap, ◌∙◌, Bool, true, false, [], ◌∷◌, ◌++◌, Option, some, arith,
  if◌then◌else◌, Bool-cases, Option-cases, inl, inr, length,
}
use semant_script.Python.Text.{Text, codes, has_surrogate, is_surrogate}
use semant_script.Python.Utf8.{Bytes, utf8, utf8-injective}
use semant_script.Python.Float.{ℤ, pos, negsuc}
use semant_script.Python.Values.{Value, Heap}
use semant_script.CanonicalInput.Errors.{ok, fail, bind, bind-eq-ok, Failure, Reason}
use semant_script.CanonicalInput.Tree.{ExactJson, Items}
use semant_script.CanonicalInput.Encode.{encode_envelope}
use semant_script.CanonicalInput.Escape.{escape}
use semant_script.CanonicalInput.JsonText.{
  json_text, is_safe, is_writable, are_writable, json_text-injective,
}
use semant_script.CanonicalInput.Writer.{
  over_limit, write_bytes, write_text, write_ascii, write_rest, write_string, write_integer,
  write_exact_json, write_items,
}
use semant_script.CanonicalInput.WriterText.{write_exact_json_lem}
use semant_script.CanonicalInput.Serialize.{serialize_canonical_inputs, validate_maximum}

escaped_not_surrogate : (c : ℕ) (e : Text) → escape c ≡ some e → is_surrogate c ≡ false
unfolding escape
escaped_not_surrogate c e h = ground arith

no_surrogate :
    (c : ℕ) (s : Text)
    → is_surrogate c ≡ false
    → has_surrogate s ≡ false
    → has_surrogate (c ∷ s) ≡ false
unfolding has_surrogate
no_surrogate c s h k = ground (arith, h, k)

module _ (max : Option ℕ) where
  write_rest-accepts :
      (pending s : Text) (buffer b : Bytes)
      → write_rest max pending s buffer ≡ ok b
      → has_surrogate s ≡ false
  unfolding has_surrogate write_rest
  write_rest-accepts pending [] buffer b h = refl
  write_rest-accepts pending (c ∷ s) buffer b h = elim (Option-cases (escape c)) [
    | inl e ↦ elim (Bool-cases (is_surrogate c)) [
      | inl bad ↦ cc (rw (e, bad, write_rest) at h)
      | inr fine ↦
          no_surrogate c s fine
            (write_rest-accepts (pending ++ c ∷ []) s buffer b (rw (e, fine, write_rest) at h))
    ]
    | inr (x, e) ↦
        let flushed = bind (write_text max pending buffer) (write_ascii max x) in
        let (b₁, _, e₂) = bind-eq-ok flushed (write_rest max [] s) (rw (e, write_rest) at h) in
        no_surrogate c s (escaped_not_surrogate c x e) (write_rest-accepts [] s b₁ b e₂)
  ]

  write_string-accepts :
      (s : Text) (buffer b : Bytes) → write_string max s buffer ≡ ok b → has_surrogate s ≡ false
  unfolding write_string
  write_string-accepts s buffer b h =
      let (b₁, e₁, _) =
        bind-eq-ok (bind (write_bytes max (codes "\"") buffer) (write_rest max [] s)) _ h in
      let (b₂, _, e₂) = bind-eq-ok (write_bytes max (codes "\"") buffer) _ e₁ in
      write_rest-accepts [] s b₂ b₁ e₂

  write_integer-accepts :
      (n : ℤ) (buffer b : Bytes) → write_integer max n buffer ≡ ok b → is_safe n ≡ true
  unfolding write_integer
  write_integer-accepts (pos n) buffer b h = ground arith
  write_integer-accepts (negsuc n) buffer b h = cc

  mutual
    unfolding write_exact_json is_writable

    -- What the writer does not raise at is writable.
    write_exact_json-accepts :
        (t : ExactJson) (buffer b : Bytes)
        → write_exact_json max t buffer ≡ ok b
        → is_writable t ≡ true
    write_exact_json-accepts (ExactJson.string s) buffer b h =
        let plain = write_string-accepts s buffer b h in rw plain
    write_exact_json-accepts (ExactJson.integer n) buffer b h = write_integer-accepts n buffer b h
    write_exact_json-accepts (ExactJson.boolean x) buffer b h = refl
    write_exact_json-accepts (ExactJson.list xs) buffer b h =
        let (b₁, e₁, _) =
          bind-eq-ok (bind (write_bytes max (codes "[") buffer) (write_items max true xs)) _ h in
        let (b₂, _, e₂) = bind-eq-ok (write_bytes max (codes "[") buffer) _ e₁ in
        write_items-accepts xs true b₂ b₁ e₂

    write_items-accepts :
        (xs : Items) (first : Bool) (buffer b : Bytes)
        → write_items max first xs buffer ≡ ok b
        → are_writable xs ≡ true
    write_items-accepts Items.nil first buffer b h = refl
    write_items-accepts (Items.cons x xs) first buffer b h =
        let start = (if first then ok else write_ascii max (codes ",")) buffer in
        let (b₁, e₁, e₂) = bind-eq-ok (bind start (write_exact_json max x)) _ h in
        let (b₂, _, e₃) = bind-eq-ok start _ e₁ in
        let wx = write_exact_json-accepts x b₂ b₁ e₃ in
        let wxs = write_items-accepts xs false b₁ b e₂ in rw (wx, wxs)

ok-injective : {A : Type 0} {a b : A} → ok a ≡ ok b → a ≡ b
ok-injective e = cc

-- What is returned of a text whose bytes are tested against the limit.
pub limited :
    (max : Option ℕ) (text : Text) (b : Bytes)
    → (if over_limit max (length (utf8 text))
        then fail (Failure.canonical Reason.limit [])
        else ok (utf8 text))
      ≡ ok b
    → (b ≡ utf8 text) × (over_limit max (length b) ≡ false)
limited max text b e = elim (Bool-cases (over_limit max (length (utf8 text)))) [
  | inl over ↦ cc (rw over at e)
  | inr fits ↦
      let same : utf8 text ≡ b = ok-injective (rw fits at e) in
      (sym same, subst (λ x. over_limit max (length x) ≡ false) same fits)
]

-- What is returned is the whole JSON text of the tree, within the limit.
pub written_bytes :
    (max : Option ℕ) (t : ExactJson) (b : Bytes)
    → write_exact_json max t [] ≡ ok b
    → (b ≡ utf8 (json_text t)) × (over_limit max (length b) ≡ false)
written_bytes max t b h =
    let w = write_exact_json-accepts max t [] b h in
    limited max (json_text t) b (sym (write_exact_json_lem max t w) ∙ h)

module _ (h : Heap) (repr : ℕ → Text) (schema inputs maximum : Value) (b : Bytes)
    (done : serialize_canonical_inputs h repr schema inputs (Value.int (pos 1)) maximum
      ≡ ok b) where
  -- A v1 serialization that succeeds is the UTF-8 of the JSON text of the envelope, and within the
  -- limit that was asked for.
  pub serialize_v1_lem :
      (max : Option ℕ) × (t : ExactJson) × (validate_maximum maximum ≡ ok max)
      × (encode_envelope h schema inputs ≡ ok t)
      × (is_writable t ≡ true)
      × (b ≡ utf8 (json_text t))
      × (over_limit max (length b) ≡ false)
  unfolding serialize_canonical_inputs
  serialize_v1_lem =
      let (max, e₁, r₁) = bind-eq-ok (validate_maximum maximum) _ done in
      let (t, e₂, r₂) =
        bind-eq-ok (encode_envelope h schema inputs) (λ t. write_exact_json max t []) r₁ in
      let (text, fits) = written_bytes max t b r₂ in
      (max, t, e₁, e₂, write_exact_json-accepts max t [] b r₂, text, fits)

-- Two v1 serializations with the same bytes are of the same typed tree, whatever the schemas, the
-- heaps and the byte limits.
pub serialize-injective :
    (h h' : Heap) (repr repr' : ℕ → Text) (schema inputs maximum schema' inputs' maximum' : Value)
    (b : Bytes)
    → serialize_canonical_inputs h repr schema inputs (Value.int (pos 1)) maximum ≡ ok b
    → serialize_canonical_inputs h' repr' schema' inputs' (Value.int (pos 1)) maximum' ≡ ok b
    → (t : ExactJson) × (encode_envelope h schema inputs ≡ ok t)
      × (encode_envelope h' schema' inputs' ≡ ok t)
serialize-injective h h' repr repr' schema inputs maximum schema' inputs' maximum' b p q =
    let (_, t, _, e, w, text, _) = serialize_v1_lem h repr schema inputs maximum b p in
    let (_, t', _, e', w', text', _) = serialize_v1_lem h' repr' schema' inputs' maximum' b q in
    let same : t ≡ t' = json_text-injective t t' w w' (utf8-injective _ _ (sym text ∙ text')) in
    (t, e, e' ∙ sym (ap ok same))
