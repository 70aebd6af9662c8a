-- ===== src/Constraints/Expression/Search.antt =====
-- `predicate_depends_on_inputs` of constraints.py, against the expression of its predicate.
use semant_script.Prelude.{
  ℕ, zero, suc, ◌+◌, ◌≤◌, ◌≡◌, refl, sym, ap, subst, ◌∙◌, Bool, true, false, ◌||◌, List, [], ◌∷◌,
  some, arith, Bool-cases, inl, inr,
}
use semant_script.Python.Values.{Heap}
use semant_script.CanonicalInput.Errors.{ok}
use semant_script.Constraints.Expression.{
  maximum_constraint_nodes, Node, Fields, children, search_children, fields, node_at,
  validate_expression, append_all, is_input, search_inputs, after_validation, depends,
}
use semant_script.Constraints.Expression.Denotes.{
  Expr, Exprs, size, size_all, mentions_input, mention_inputs, Denotes, DenotesAll,
  validate_expression-Denotes,
}

module _ (h : Heap) where
  Found : List ℕ → ℕ → Bool → Type 0
  Found [] k b = (k ≡ 0) × (b ≡ false)
  Found (a ∷ pending) k b =
      (e : Expr) × Denotes h a e
      × (rest : ℕ) × (k ≡ size e + rest)
      × (later : Bool) × (b ≡ mentions_input e || later)
      × Found pending rest later

  or_swap : (a b c : Bool) → b || (a || c) ≡ (a || b) || c
  or_swap true true c = refl
  or_swap true false c = refl
  or_swap false true c = refl
  or_swap false false c = refl

  Found-append_all :
      (cs : List ℕ) (es : Exprs) (pending : List ℕ) (k : ℕ) (b : Bool)
      → DenotesAll h cs es
      → Found pending k b
      → (n : ℕ) × (n ≡ size_all es + k) × Found (append_all h cs pending) n (mention_inputs es || b)
  unfolding Found size mentions_input
  Found-append_all [] Exprs.no_exprs pending k b DenotesAll.no_children f = (k, omega arith, f)
  Found-append_all [] (Exprs.expr e es) pending k b x f = elim x [ ]
  Found-append_all (c ∷ cs) Exprs.no_exprs pending k b x f = elim x [ ]
  Found-append_all (c ∷ cs) (Exprs.expr e es) pending k b (DenotesAll.child _ _ _ _ den all) f =
      let (n, sum, found) =
        Found-append_all cs es (c ∷ pending) (size e + k) (mentions_input e || b) all
          (e, den, k, refl, b, refl, f) in
      (
        n,
        omega (arith, sum),
        subst (Found (append_all h cs (c ∷ pending)) n)
            (or_swap (mentions_input e) (mention_inputs es) b) found,
      )

  or_false : (b : Bool) → b || false ≡ b
  or_false true = refl
  or_false false = refl

  size_positive : (e : Expr) → 1 ≤ size e
  unfolding size
  size_positive (Expr.node n es) = omega arith

  -- The search visits the children that the validation visits.
  search_children-children : (n : Node) (es : Fields) → search_children h n es ≡ children h n es
  unfolding search_children children
  search_children-children Node.literal es = refl
  search_children-children Node.input es = refl
  search_children-children Node.property es = refl
  search_children-children Node.index es = refl
  search_children-children Node.unary es = refl
  search_children-children Node.binary es = refl
  search_children-children Node.unsupported es = refl

  search_hit :
      (rounds a : ℕ) (pending : List ℕ)
      → is_input (node_at h a) ≡ true
      → search_inputs h (suc rounds) (a ∷ pending) ≡ some (ok true)
  unfolding search_inputs
  search_hit rounds a pending i = rw i refl

  search_on :
      (rounds a : ℕ) (pending cs : List ℕ)
      → is_input (node_at h a) ≡ false
      → children h (node_at h a) (fields h a) ≡ ok cs
      → search_inputs h (suc rounds) (a ∷ pending)
        ≡ search_inputs h rounds (append_all h cs pending)
  unfolding search_inputs
  search_on rounds a pending cs i found =
      rw (i, search_children-children (node_at h a) (fields h a), found) refl

  searched :
      (rounds : ℕ) (pending : List ℕ) (k : ℕ) (b : Bool)
      → Found pending k b
      → k ≤ rounds
      → search_inputs h rounds pending ≡ some (ok b)
  unfolding search_inputs Found size mentions_input
  searched rounds [] k b f le = ap (λ x. some (ok x)) (sym f.1)
  searched zero (a ∷ pending) k b (e, _, rest, eq, _, _, _) le =
      absurd (omega (arith, eq, size_positive e))
  searched (suc rounds) (a ∷ pending) k b
        (Expr.node _ es, Denotes.node _ cs _ checked found all, rest, eq, later, which, others) le =
      let (n, sum, more) = Found-append_all cs es pending rest later all others in
      elim (Bool-cases (is_input (node_at h a))) [
        | inl i ↦ search_hit rounds a pending i ∙ ap (λ x. some (ok x)) (sym (which ∙ rw i refl))
        | inr i ↦
            search_on rounds a pending cs i found
            ∙ searched rounds (append_all h cs pending) n (mention_inputs es || later) more
                (omega (arith, sum, eq, le))
            ∙ ap (λ x. some (ok x)) (sym (which ∙ rw i refl))
      ]

  depends_on :
      {a : ℕ} (e : Expr)
      → Denotes h a e
      → size e ≤ maximum_constraint_nodes
      → search_inputs h maximum_constraint_nodes (a ∷ []) ≡ some (ok (mentions_input e))
  unfolding Found
  depends_on {a} e den le =
      searched maximum_constraint_nodes (a ∷ []) (size e) (mentions_input e)
        (e, den, 0, omega arith, false, sym (or_false (mentions_input e)), (refl, refl)) le

  -- The search of a predicate that is valid ends, in no more rounds than the limit of nodes, and says
  -- whether its expression reads an input.
  pub depends_lem :
      (a nodes : ℕ)
      → validate_expression h a ≡ ok nodes
      → (e : Expr) × Denotes h a e × (depends h a ≡ some (ok (mentions_input e)))
  unfolding depends
  depends_lem a nodes v =
      let (e, den, n, le, _) = validate_expression-Denotes h a nodes v in
      (e, den, ap (after_validation h a) v ∙ depends_on e den le)
