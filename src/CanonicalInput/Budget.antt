-- ===== src/CanonicalInput/Budget.antt =====
-- The work budget and the active set of canonical_input.py, over `_encode_value` and
-- `_encode_envelope`.
use semant_script.Prelude.{
  ℕ, zero, suc, ◌+◌, ◌*◌, ◌≤◌, ◌≡◌, refl, List, [], ◌∷◌, arith, subst, Option, none, some,
}
use semant_script.Python.Values.{Value, Heap, get}
use semant_script.CanonicalInput.Errors.{
  Result, ok, fail, Reason, Segment, InputPath, Yields, Yields-bind,
}
use semant_script.CanonicalInput.Exec.{Exec, Context, fresh, maximum_input_nodes, all_levels}
use semant_script.CanonicalInput.Tree.{Items, arrays, arrays_of}
use semant_script.CanonicalInput.Spec.{kind_of, entry}
use semant_script.CanonicalInput.Schema.{Entry, validate_and_order_schema}
use semant_script.CanonicalInput.Leaves.{check_keys, plain_object}
use semant_script.CanonicalInput.Encode.{
  encode_value, encode_input, encode_inputs, encode_envelope, entry_names,
}
use semant_script.CanonicalInput.Within.{
  Outcome, Within, Within-pure, Within-raise, Within-bind, Within-frame, Within-consume_work,
}
use semant_script.CanonicalInput.Costs.{node_weight, IsEncoder, lift-free}
use semant_script.CanonicalInput.CostsOfKinds.{encode_kind-Within}

module _ (h : Heap) where
  pub encode_value-Within : (levels : ℕ) → IsEncoder (encode_value h levels)
  unfolding encode_value
  encode_value-Within zero spec v path = Within-raise Reason.limit path
  encode_value-Within (suc levels) spec v path =
      Within-bind (λ _. 3) (Within-consume_work path)
        λ _.
          Within-bind (λ _. 3) (lift-free 3 _)
            λ _.
              encode_kind-Within h (encode_value h levels) (encode_value-Within levels)
                (kind_of (entry h spec "kind")) spec v path

  encode_input-Within :
      (e : Entry) (found : Option Value) {others : Exec Items}
      → Within 0 arrays_of others
      → Within 0 arrays_of (encode_input h e found others)
  unfolding encode_input arrays
  encode_input-Within e none o = Within-raise Reason.missing (Segment.name e.name ∷ [])
  encode_input-Within e (some v) o =
      Within-bind node_weight
        (encode_value-Within all_levels e.type_spec v (Segment.name e.name ∷ []))
        λ t.
          Within-bind (λ xs. arrays_of xs + node_weight t) (Within-frame (node_weight t) o)
            λ xs. Within-pure _ (omega arith)

  pub encode_inputs-Within :
      (values : List (Value × Value)) (es : List Entry)
      → Within 0 arrays_of (encode_inputs h values es)
  unfolding encode_inputs arrays
  encode_inputs-Within values [] = Within-pure Items.nil (omega arith)
  encode_inputs-Within values (e ∷ es) =
      encode_input-Within e (get e.name values) (encode_inputs-Within values es)

  -- After `_encode_value` the active set is what it was before, whether the value was encoded or
  -- refused, however deep the error was raised.
  pub active-encode_value :
      (levels spec : ℕ) (v : Value) (path : InputPath) (c : Context)
      → (encode_value h levels spec v path c).1.active ≡ c.active
  active-encode_value levels spec v path c = (encode_value-Within levels spec v path c).active_kept

  inputs-bounded :
      (values : List (Value × Value)) (es : List Entry)
      → Yields (λ xs. arrays_of xs ≤ 3 * maximum_input_nodes) (encode_inputs h values es fresh).0
  inputs-bounded values es =
      go (encode_inputs h values es fresh).0 (encode_inputs-Within values es fresh)
    where
      go :
          (r : Result Items)
          → Outcome 0 arrays_of fresh r (encode_inputs h values es fresh).1
          → Yields (λ xs. arrays_of xs ≤ 3 * maximum_input_nodes) r
      go (ok xs) o = omega (arith, o.paid, o.bounded (omega arith) refl)
      go (fail e) o = tt

  -- An envelope has at most three arrays for each of the 100,000 nodes that the work budget allows,
  -- and two of its own, whatever the schema and the inputs, cyclic ones included.
  pub arrays-encode_envelope :
      (schema inputs : Value)
      → Yields (λ t. arrays t ≤ 3 * maximum_input_nodes + 2) (encode_envelope h schema inputs)
  unfolding encode_envelope arrays
  arrays-encode_envelope schema inputs =
      Yields-bind _ (validate_and_order_schema h schema) _ λ ordered _.
        Yields-bind _ (plain_object h inputs []) _ λ values _.
          Yields-bind _ (check_keys (entry_names h ordered) [] values) _ λ _ _.
            Yields-bind _ (encode_inputs h values ordered fresh).0 _ λ pairs e.
              let fits =
                subst (Yields (λ xs. arrays_of xs ≤ 3 * maximum_input_nodes)) e
                  (inputs-bounded values ordered) in
              omega (arith, fits)
