-- ===== src/Constraints/Levels.antt =====
-- The levels of nesting by which `_infer_expression_types` and `_evaluate` of constraints.py run.
pub mod Enough
use semant_script.Prelude.{
  ℕ, zero, suc, ◌+◌, ◌≤◌, ◌≡◌, refl, sym, subst, List, [], ◌∷◌, Option, none, some, All, leb, arith,
  if◌then◌else◌,
}
use semant_script.Python.Text.{Text, codes}
use semant_script.Python.Values.{Value, Heap, get}
use semant_script.CanonicalInput.Errors.{ok, bind, bind-eq-ok}
use semant_script.Constraints.Expression.{
  maximum_constraint_depth, Node, Fields, mapping, children, fields, node_at, validate_expression,
}
use semant_script.Constraints.Expression.Denotes.{
  Expr, Exprs, height, height_all, Denotes, DenotesAll, validate_expression-Denotes,
}
use semant_script.Constraints.View.{
  Arithmetic, View, view, view_node, with_text, with_operator, unary_of, binary_of,
}
use semant_script.Constraints.Types.{Types, Infer}
use semant_script.Constraints.Types.Infer.{infer_child, infer_view, infer_expression_types}
use semant_script.Constraints.Eval.{Datum, Eval}
use semant_script.Constraints.Evaluate.{evaluate_child, evaluate_view, evaluate}

-- Two recursions do the same on the child that an entry holds.
pub record SameChild {B : Type 0} (h : Heap) (f g : ℕ → B) (child : Option Value) : Type 0 where
  pub at : ℕ
  pub is_dict : mapping h child ≡ ok at
  pub same : f at ≡ g at

ok_value : {A : Type 0} {a b : A} → ok a ≡ ok b → a ≡ b
ok_value e = cc

-- Two recursions do the same on the children of a node.
abbrev pub Same : {B : Type 0} → Heap → (ℕ → B) → (ℕ → B) → View → Type 0
Same h f g (View.property object name) = SameChild h f g object
Same h f g (View.index object index) = SameChild h f g object × SameChild h f g index
Same h f g (View.unary op operand) = SameChild h f g operand
Same h f g (View.binary op left right) = SameChild h f g left × SameChild h f g right
Same h f g _ = Unit

module _ {B : Type 0} (h : Heap) (f g : ℕ → B) where
  with_text-Same :
      (v : Option Value) (k : Text → View)
      → ((s : Text) → Same h f g (k s))
      → Same h f g (with_text v k)
  with_text-Same (some (Value.string s)) k same = same s
  with_text-Same _ k same = tt

  chosen-Same :
      {A : Type 0} (o : Option A) (k : A → View)
      → ((op : A) → Same h f g (k op))
      → Same h f g (elim o [ none ↦ View.malformed | some op ↦ k op ])
  chosen-Same none k same = tt
  chosen-Same (some op) k same = same op

  with_operator-Same :
      {A : Type 0} (of : Value → Option A) (v : Option Value) (k : A → View)
      → ((op : A) → Same h f g (k op))
      → Same h f g (with_operator of v k)
  with_operator-Same of none k same = tt
  with_operator-Same of (some v) k same = chosen-Same (of v) k same

  one_child-Same :
      (child : Option Value) (cs : List ℕ)
      → bind (mapping h child) (λ x. ok (x ∷ [])) ≡ ok cs
      → All (λ x. f x ≡ g x) cs
      → SameChild h f g child
  one_child-Same child cs e same =
      let (x, is_dict, rest) = bind-eq-ok (mapping h child) (λ x. ok (x ∷ [])) e in
      record {
        at = x;
        is_dict = is_dict;
        same = (subst (All (λ x. f x ≡ g x)) (sym (ok_value rest)) same).0;
      }

  two_children-Same :
      (left right : Option Value) (cs : List ℕ)
      → bind (mapping h left) (λ x. bind (mapping h right) λ y. ok (x ∷ y ∷ [])) ≡ ok cs
      → All (λ x. f x ≡ g x) cs
      → SameChild h f g left × SameChild h f g right
  two_children-Same left right cs e same =
      let (x, is_dict, rest) = bind-eq-ok (mapping h left) _ e in
      let (y, is_dict_too, last) = bind-eq-ok (mapping h right) _ rest in
      let (first, others) = subst (All (λ x. f x ≡ g x)) (sym (ok_value last)) same in
      (
        record { at = x; is_dict = is_dict; same = first },
        record { at = y; is_dict = is_dict_too; same = others.0 },
      )

  children-Same :
      (n : Node) (es : Fields) (cs : List ℕ)
      → children h n es ≡ ok cs
      → All (λ x. f x ≡ g x) cs
      → Same h f g (view_node n es)
  unfolding children view_node
  children-Same Node.literal es cs e same = tt
  children-Same Node.input es cs e same = with_text-Same (get (codes "name") es) View.input λ s. tt
  children-Same Node.property es cs e same =
      let object = get (codes "object") es in
      with_text-Same (get (codes "property") es) (View.property object)
        λ s. one_child-Same object cs e same
  children-Same Node.index es cs e same =
      two_children-Same (get (codes "object") es) (get (codes "index") es) cs e same
  children-Same Node.unary es cs e same =
      let operand = get (codes "operand") es in
      with_operator-Same unary_of (get (codes "operator") es) (λ op. View.unary op operand)
        λ op. one_child-Same operand cs e same
  children-Same Node.binary es cs e same =
      let left = get (codes "left") es in
      let right = get (codes "right") es in
      with_operator-Same binary_of (get (codes "operator") es) (λ op. View.binary op left right)
        λ op. two_children-Same left right cs e same
  children-Same Node.unsupported es cs e same = tt

-- the room that a tree leaves its children
room_of_child : (a b n : ℕ) → 1 + (if leb a b then b else a) ≤ suc n → (a ≤ n) × (b ≤ n)
room_of_child a b n le = ground (arith, le)

module _ {B : Type 0} (h : Heap) (run : ℕ → ℕ → B)
    (step : (n m a : ℕ) → Same h (run n) (run m) (view h a) → run (suc n) a ≡ run (suc m) a) where
  mutual
    unfolding height view

    pub levels_lem :
        (a : ℕ) (e : Expr) (n m : ℕ)
        → Denotes h a e
        → height e ≤ n
        → height e ≤ m
        → run n a ≡ run m a
    levels_lem a _ zero m (Denotes.node _ cs es checked found all) le le' =
        absurd (omega (arith, le))
    levels_lem a _ (suc n) zero (Denotes.node _ cs es checked found all) le le' =
        absurd (omega (arith, le'))
    levels_lem a _ (suc n) (suc m) (Denotes.node _ cs es checked found all) le le' = step n m a (
        children-Same h (run n) (run m) (node_at h a) (fields h a) cs found
          (levels_children cs es n m all (omega (arith, le)) (omega (arith, le'))))

    levels_children :
        (cs : List ℕ) (es : Exprs) (n m : ℕ)
        → DenotesAll h cs es
        → height_all es ≤ n
        → height_all es ≤ m
        → All (λ x. run n x ≡ run m x) cs
    levels_children _ _ n m DenotesAll.no_children le le' = tt
    levels_children _ _ n m (DenotesAll.child a cs e es den all) le le' = (
      levels_lem a e n m den (ground (arith, le)) (ground (arith, le')),
      levels_children cs es n m all (ground (arith, le)) (ground (arith, le')),
    )
