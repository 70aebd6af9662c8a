-- ===== src/StrictJson/Load/Accepted.antt =====
-- What `loads_strict_json` of strict_json.py promises of the values that it returns.
use semant_script.Prelude.{
  ℕ, ◌≤◌, ◌≡◌, refl, Bool, true, false, ◌&&◌, Option, ltb, leb, leb→le, if◌then◌else◌, arith,
  Bool-cases, Option-cases, inl, inr, subst, All,
}
use semant_script.Python.Text.{Text}
use semant_script.Python.Utf8.{utf8}
use semant_script.Python.Decode.{IsScalar}
use semant_script.CanonicalInput.Errors.{ok, bind, bind-eq-ok, Yields}
use semant_script.StrictJson.Document.{
  StrictJsonLimits, Document, strict_error, decode, decode-utf8,
}
use semant_script.StrictJson.Depth.{check_lexical_depth}
use semant_script.StrictJson.Json.{Json, Syntax}
use semant_script.StrictJson.Json.Valid.{Valid, build-Valid}
use semant_script.StrictJson.Nodes.{check_value}
use semant_script.StrictJson.Nodes.Count.{count, is_scalar, check_value_lem, verdict}
use semant_script.StrictJson.Load.{has_mark, read_value, loads_text, loads_strict_json}

-- The limits hold of the value, and it is one that the hooks and the check of the texts allow.
pub record Accepted (limits : StrictJsonLimits) (v : Json) : Type 0 where
  pub valid : Valid v
  pub scalar : is_scalar v ≡ true
  pub nodes : count v ≤ limits.maximum_nodes

passed : (b c : Bool) (u : Unit {0}) → verdict (b && c) ≡ ok u → (b ≡ true) × (c ≡ true)
passed true true u h = (refl, refl)
passed true false u h = cc
passed false c u h = cc

module _ (float : Text → ℕ) (parse : Text → Option Syntax) where
  read_value-Valid : (text : Text) → Yields Valid (read_value float parse text)
  unfolding read_value
  read_value-Valid text = elim (Option-cases (parse text)) [
    | inl e ↦ rw (e, read_value, Yields) tt
    | inr (x, e) ↦ rw (e, read_value, Yields) (build-Valid float x)
  ]

  loads_text-Accepted :
      (limits : StrictJsonLimits) (text : Text) (v : Json)
      → loads_text float parse limits text ≡ ok v
      → Accepted limits v
        × (has_mark text ≡ false)
        × (check_lexical_depth text limits.maximum_depth ≡ ok tt)
  unfolding loads_text
  loads_text-Accepted limits text v h = elim (Bool-cases (has_mark text)) [
    | inl e ↦ cc (rw e at h)
    | inr e ↦
        let (u, d, r) =
          bind-eq-ok (check_lexical_depth text limits.maximum_depth)
            (λ _.
              bind (read_value float parse text)
                λ v. bind (check_value v limits.maximum_nodes) λ _. ok v)
            (rw e at h) in
        let (w, l, q) =
          bind-eq-ok (read_value float parse text)
            (λ v. bind (check_value v limits.maximum_nodes) λ _. ok v) r in
        let (t, n, z) = bind-eq-ok (check_value w limits.maximum_nodes) (λ _. ok w) q in
        let same : w ≡ v = cc z in
        let checks =
          passed (leb (count w) limits.maximum_nodes) (is_scalar w) t
            (rw (check_value_lem w limits.maximum_nodes) at n) in
        (
          subst (Accepted limits) same (record {
            valid = subst (Yields Valid) l (read_value-Valid text);
            scalar = checks.1;
            nodes = leb→le (count w) limits.maximum_nodes checks.0;
          }),
          e,
          d,
        )
  ]

  -- A value that is returned: its numbers are finite, no dict has a name twice, no text has a
  -- surrogate, and it has no more nodes than the limit; and its document had no more bytes than the
  -- limit, no byte order mark and a nesting that passed.
  pub loads_strict_json-Accepted :
      (limits : StrictJsonLimits) (document : Document) (v : Json)
      → loads_strict_json float parse limits document ≡ ok v
      → (text : Text) × (size : ℕ) × (decode document ≡ ok (text, size))
        × (size ≤ limits.maximum_bytes)
        × Accepted limits v
        × (has_mark text ≡ false)
        × (check_lexical_depth text limits.maximum_depth ≡ ok tt)
  unfolding loads_strict_json
  loads_strict_json-Accepted limits document v h =
      let (found, d, r) =
        bind-eq-ok (decode document)
          (λ (text, size).
            if ltb limits.maximum_bytes size
            then strict_error
            else loads_text float parse limits text)
          h in
      elim (Bool-cases (ltb limits.maximum_bytes found.1)) [
        | inl e ↦ cc (rw e at r)
        | inr e ↦
            let (accepted, mark, depth) = loads_text-Accepted limits found.0 v (rw e at r) in
            (found.0, found.1, d, ground (arith, e), accepted, mark, depth)
      ]

  -- A text and its UTF-8 bytes have the same outcome.
  pub loads_strict_json-utf8 :
      (limits : StrictJsonLimits) (s : Text)
      → All IsScalar s
      → loads_strict_json float parse limits (Document.bytes (utf8 s))
        ≡ loads_strict_json float parse limits (Document.str s)
  unfolding loads_strict_json
  loads_strict_json-utf8 limits s h = rw (decode-utf8 s h) refl
