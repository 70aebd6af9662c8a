-- ===== src/Constraints/Types/Fits/Inputs.antt =====
-- `_constraint_input_types` of constraints.py: the types of a record's inputs, and the dicts that its
-- declarations describe.
use semant_script.Prelude.{
  ℕ, ◌≡◌, sym, subst, ap, ◌∙◌, inl, inr, List, [], ◌∷◌, some, All, Bool-cases,
}
use semant_script.Python.Text.{Text, codes, text_eq, text_eq→eq}
use semant_script.Python.Values.{Value, Heap, get}
use semant_script.CanonicalInput.Errors.{ok, bind-eq-ok}
use semant_script.Constraints.Expression.{mapping, fields}
use semant_script.Constraints.Eval.{Datum}
use semant_script.Constraints.Types.{Types, lift}
use semant_script.Constraints.Types.Spec.{
  text_of, nonempty, input_entry, list_entry, set_types, types_from_input_spec, input_types_onto,
  constraint_input_types,
}
use semant_script.Constraints.Types.Has.{HasSome}
use semant_script.Constraints.Types.Merge.{ok_value, ok_first}
use semant_script.Constraints.Types.Fits.{entry_of, Fits}
use semant_script.Constraints.Types.Fits.Sound.{
  lifted, lifted-ok, text_of-some, types_from_input_spec-HasSome,
}
use semant_script.Constraints.Safety.Typed.{FitsInputs}

module _ (h : Heap) (es : List (Value × Value)) where
  -- The dict has, under the name of a declared input, a value that its type describes.
  pub record FitsEntry (raw : Value) : Type 0 where
    pub at : ℕ
    pub is_dict : mapping h (some raw) ≡ ok at
    pub name : Text
    pub named : entry_of h "name" at ≡ some (Value.string name)
    pub spec : ℕ
    pub typed : mapping h (entry_of h "type" at) ≡ ok spec
    pub found : Value
    pub present : get name es ≡ some found
    pub fits : Fits h spec found

  set_types-FitsInputs :
      (name : Text) (ts : Types) (inputs : List (Text × Types))
      → (v : Value) × (get name es ≡ some v) × HasSome h ts (Datum.datum v)
      → FitsInputs h inputs es
      → FitsInputs h (set_types name ts inputs) es
  unfolding set_types
  set_types-FitsInputs name ts [] has fits = (has, tt)
  set_types-FitsInputs name ts ((n, us) ∷ rest) has (first, others) =
      elim (Bool-cases (text_eq name n)) [
        | inl same ↦ rw same (
          subst (λ n. (v : Value) × (get n es ≡ some v) × HasSome h ts (Datum.datum v))
              (text_eq→eq name n same) has,
          others,
        )
        | inr other ↦ rw other (first, set_types-FitsInputs name ts rest has others)
      ]

  input_entry-Fits :
      (raw : Value) (name : Text) (spec : ℕ)
      → input_entry h raw ≡ ok (name, spec)
      → FitsEntry raw
      → (v : Value) × (get name es ≡ some v) × Fits h spec v
  input_entry-Fits raw name spec e f =
      let (a, m, e₁) = bind-eq-ok (mapping h (some raw)) _ e in
      let (n, read, e₂) = bind-eq-ok (text_of (get (codes "name") (fields h a))) _ e₁ in
      let (_, _, e₃) = bind-eq-ok (nonempty n) _ e₂ in
      let (s, typed, e₄) = bind-eq-ok (mapping h (get (codes "type") (fields h a))) _ e₃ in
      let same : f.at ≡ a = cc (m, f.is_dict) in
      let named = ap (entry_of h "name") (sym same) ∙ f.named in
      let name_there = text_of-some (get (codes "name") (fields h a)) n read in
      let same_name : f.name ≡ n = cc (named, name_there) in
      let type_there = ap (λ x. mapping h (entry_of h "type" x)) (sym same) ∙ f.typed in
      let same_spec : f.spec ≡ s = cc (type_there, typed) in
      subst (λ (p : Text × ℕ). (v : Value) × (get p.0 es ≡ some v) × Fits h p.1 v) (ok_value e₄)
        (
          f.found,
          ap (λ x. get x es) (sym same_name) ∙ f.present,
          subst (λ a. Fits h a f.found) same_spec f.fits,
        )

  input_types_onto-FitsInputs :
      (result : List (Text × Types)) (raws : List Value) (b b' : ℕ) (inputs : List (Text × Types))
      → input_types_onto h result raws b ≡ ok (inputs, b')
      → All FitsEntry raws
      → FitsInputs h result es
      → FitsInputs h inputs es
  unfolding input_types_onto
  input_types_onto-FitsInputs result [] b b' inputs e all fits =
      subst (λ inputs. FitsInputs h inputs es) (ok_first e) fits
  input_types_onto-FitsInputs result (raw ∷ rest) b b' inputs e (f, fs) fits =
      let (d, declared, e₁) = bind-eq-ok (lift (input_entry h raw) b) _ e in
      let (ts, typed, e₂) = bind-eq-ok (types_from_input_spec h d.1 d.0.1 d.1) _ e₁ in
      let (v, present, fits_spec) =
        input_entry-Fits raw d.0.0 d.0.1 (lifted-ok (input_entry h raw) b declared) f in
      input_types_onto-FitsInputs (set_types d.0.0 ts.0 result) rest ts.1 b' inputs e₂ fs (
        set_types-FitsInputs d.0.0 ts.0 result
          (v, present, types_from_input_spec-HasSome h d.1 d.0.1 d.1 ts.1 ts.0 v typed fits_spec)
          fits)

  -- A dict that has what the record declares has the types that are read of the record.
  pub constraint_input_types-FitsInputs :
      (ir b b' : ℕ) (raws : List Value) (inputs : List (Text × Types))
      → constraint_input_types h ir b ≡ ok (inputs, b')
      → list_entry h "inputs" ir ≡ ok raws
      → All FitsEntry raws
      → FitsInputs h inputs es
  unfolding constraint_input_types
  constraint_input_types-FitsInputs ir b b' raws inputs e found all =
      let (rs, f, e₁) = bind-eq-ok (lift (list_entry h "inputs" ir) b) _ e in
      let same : raws ≡ rs.0 = lifted (list_entry h "inputs" ir) b found f in
      input_types_onto-FitsInputs [] rs.0 rs.1 b' inputs e₁ (subst (All FitsEntry) same all) tt
