-- ===== src/Constraints/Expression/Denotes.antt =====
-- The expression that a valid predicate of constraints.py stands for, as a tree.
use semant_script.Prelude.{
  ℕ, zero, suc, ◌+◌, ◌≤◌, ◌≡◌, refl, Bool, false, not, ◌||◌, List, [], ◌∷◌, ltb, leb, if◌then◌else◌,
  arith,
}
use semant_script.Python.Values.{Heap}
use semant_script.CanonicalInput.Errors.{ok, bind, bind-eq-ok}
use semant_script.Constraints.Expression.{
  maximum_constraint_nodes, maximum_constraint_depth, require, Node, check_node, children, fields,
  node_at, append_children, validate_pending, validate_expression, is_input,
}

mutual
  pub data Expr : Type 0 where
    node : Node → Exprs → Expr

  pub data Exprs : Type 0 where
    no_exprs : Exprs
    expr : Expr → Exprs → Exprs

abbrev max : ℕ → ℕ → ℕ
max a b = if leb a b then b else a

unfoldable mutual
  pub size : Expr → ℕ
  size (Expr.node n es) = 1 + size_all es

  pub size_all : Exprs → ℕ
  size_all Exprs.no_exprs = 0
  size_all (Exprs.expr e es) = size e + size_all es

unfoldable mutual
  pub height : Expr → ℕ
  height (Expr.node n es) = 1 + height_all es

  pub height_all : Exprs → ℕ
  height_all Exprs.no_exprs = 0
  height_all (Exprs.expr e es) = max (height e) (height_all es)

-- Does the expression read an input?
unfoldable mutual
  pub mentions_input : Expr → Bool
  mentions_input (Expr.node n es) = is_input n || mention_inputs es

  pub mention_inputs : Exprs → Bool
  mention_inputs Exprs.no_exprs = false
  mention_inputs (Exprs.expr e es) = mentions_input e || mention_inputs es

ok_eq : {A : Type 0} {a b : A} → ok a ≡ ok b → a ≡ b
ok_eq e = cc

deep_enough :
    (d : ℕ) (u : Unit {0})
    → require (not (ltb maximum_constraint_depth d)) ≡ ok u
    → d ≤ maximum_constraint_depth
deep_enough d u e = ground arith

module _ (h : Heap) where
  mutual
    -- The dict at an address is a node that passes its tests, and its children are dicts for which
    -- this holds.
    pub data Denotes : ℕ → Expr → Type 0 where
      node :
          (a : ℕ) (cs : List ℕ) (es : Exprs)
          → check_node (node_at h a) (fields h a) ≡ ok tt
          → children h (node_at h a) (fields h a) ≡ ok cs
          → DenotesAll cs es
          → Denotes a (Expr.node (node_at h a) es)

    pub data DenotesAll : List ℕ → Exprs → Type 0 where
      no_children : DenotesAll [] Exprs.no_exprs
      child :
          (a : ℕ) (cs : List ℕ) (e : Expr) (es : Exprs)
          → Denotes a e
          → DenotesAll cs es
          → DenotesAll (a ∷ cs) (Exprs.expr e es)

  -- Each address of the work denotes an expression that its depth has room for; `k` is their size.
  ValidWork : List (ℕ × ℕ) → ℕ → Type 0
  ValidWork [] k = k ≡ 0
  ValidWork (p ∷ work) k =
      (e : Expr) × Denotes p.0 e
      × (p.1 + height e ≤ maximum_constraint_depth + 1)
      × (rest : ℕ) × (k ≡ size e + rest)
      × ValidWork work rest

  Split : List ℕ → ℕ → List (ℕ × ℕ) → ℕ → Type 0
  Split cs d work k =
      (es : Exprs) × DenotesAll cs es
      × (d + height_all es ≤ maximum_constraint_depth + 1)
      × (rest : ℕ) × (k ≡ size_all es + rest)
      × ValidWork work rest

  split :
      (cs : List ℕ) (d : ℕ) (work : List (ℕ × ℕ)) (k : ℕ)
      → d ≤ maximum_constraint_depth + 1
      → ValidWork (append_children h cs d work) k
      → Split cs d work k
  unfolding Split ValidWork size height
  split [] d work k le v =
      (Exprs.no_exprs, DenotesAll.no_children, omega (arith, le), k, omega arith, v)
  split (c ∷ cs) d work k le v =
      let (es, all, room, k', eq, (e, den, fits, k'', eq', v')) =
        split cs d ((c, d) ∷ work) k le v in
      (
        Exprs.expr e es,
        DenotesAll.child c cs e es den all,
        ground (arith, room, fits),
        k'',
        omega (arith, eq, eq'),
        v',
      )

  validated :
      (remaining nodes : ℕ) (work : List (ℕ × ℕ)) (m : ℕ)
      → validate_pending h remaining nodes work ≡ ok m
      → (k : ℕ) × ValidWork work k × (m ≡ nodes + k) × (k ≤ remaining)
  unfolding validate_pending ValidWork Split size height
  validated remaining nodes [] m e = (0, refl, omega (arith, ok_eq e), omega arith)
  validated zero nodes (p ∷ work) m e = cc
  validated (suc remaining) nodes (p ∷ work) m e =
      let (u, deep, r) =
        bind-eq-ok (require (not (ltb maximum_constraint_depth p.1)))
          (λ _. bind (check_node (node_at h p.0) (fields h p.0)) λ _.
            bind (children h (node_at h p.0) (fields h p.0))
              λ cs. validate_pending h remaining (nodes + 1) (append_children h cs (p.1 + 1) work))
          e in
      let (v, checked, q) =
        bind-eq-ok (check_node (node_at h p.0) (fields h p.0))
          (λ _.
            bind (children h (node_at h p.0) (fields h p.0))
              λ cs. validate_pending h remaining (nodes + 1) (append_children h cs (p.1 + 1) work))
          r in
      let (cs, found, l) =
        bind-eq-ok (children h (node_at h p.0) (fields h p.0))
          (λ cs. validate_pending h remaining (nodes + 1) (append_children h cs (p.1 + 1) work))
          q in
      let (k, valid, sum, le) =
        validated remaining (nodes + 1) (append_children h cs (p.1 + 1) work) m l in
      let shallow = deep_enough p.1 u deep in
      let (es, all, room, rest, eq, others) =
        split cs (p.1 + 1) work k (omega (arith, shallow)) valid in
      (
        1 + k,
        (
          Expr.node (node_at h p.0) es,
          Denotes.node p.0 cs es checked found all,
          omega (arith, room),
          rest,
          omega (arith, eq),
          others,
        ),
        omega (arith, sum),
        omega (arith, le),
      )

  -- A predicate that is valid is an expression: each node passes its tests and its children are
  -- nodes; the nodes are counted, shared ones as often as they are met, and are 100,000 at most, and
  -- none stands deeper than 100.
  pub validate_expression-Denotes :
      (a nodes : ℕ)
      → validate_expression h a ≡ ok nodes
      → (e : Expr) × Denotes a e
        × (nodes ≡ size e)
        × (size e ≤ maximum_constraint_nodes)
        × (height e ≤ maximum_constraint_depth)
  unfolding validate_expression ValidWork
  validate_expression-Denotes a nodes v =
      let (k, (e, den, fits, rest, eq, none_left), sum, le) =
        validated maximum_constraint_nodes 0 ((a, 1) ∷ []) nodes v in
      (
        e,
        den,
        omega (arith, sum, eq, none_left),
        omega (arith, le, eq, none_left),
        omega (arith, fits),
      )
