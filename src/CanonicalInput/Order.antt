-- ===== src/CanonicalInput/Order.antt =====
-- What `_validate_and_order_schema` of canonical_input.py returns.
use native.Mathlib.Nat.{zero-add}
use mathlib.Core.List.{Perm}
use semant_script.Prelude.{
  ℕ, zero, suc, ◌+◌, ◌≡◌, ◌≢◌, refl, ap, subst, ◌∙◌, false, List, [], ◌∷◌, some, arith,
  Option-cases, inl, inr, get_elem?,
}
use semant_script.Prelude.Sort.{sort, sort-perm}
use semant_script.Python.Text.{Text, text_eq, text_mem, has_surrogate, text_eq_refl}
use semant_script.Python.Values.{Value, Heap, as_sequence}
use semant_script.CanonicalInput.Errors.{ok, bind, bind-eq-ok, Yields}
use semant_script.CanonicalInput.Exec.{fresh, After, After-bind, After-map}
use semant_script.CanonicalInput.Numbers.{require_unicode}
use semant_script.CanonicalInput.Schema.{
  Entry, index_le, check_entry, schema_entries, validate_ordered, validate_and_order_schema,
}

-- From `expected` on the indices count up, and no name is one of those seen or comes twice.
abbrev pub Ordered : ℕ → List Text → List Entry → Type 0
Ordered expected seen [] = Unit
Ordered expected seen (e ∷ es) =
    (e.index ≡ expected)
    × (has_surrogate e.name ≡ false)
    × (text_mem e.name seen ≡ false)
    × Ordered (expected + 1) (e.name ∷ seen) es

check_entry-checks :
    (expected : ℕ) (seen : List Text) (e : Entry) (u : Unit {0})
    → check_entry expected seen e ≡ ok u
    → (e.index ≡ expected) × (has_surrogate e.name ≡ false) × (text_mem e.name seen ≡ false)
unfolding check_entry require_unicode
check_entry-checks expected seen e u h = ground arith

validate_ordered-Ordered :
    (h : Heap) (expected : ℕ) (seen : List Text) (es : List Entry)
    → After (λ _. Ordered expected seen es) (validate_ordered h expected seen es)
unfolding validate_ordered
validate_ordered-Ordered h expected seen [] = record { at = λ c. tt }
validate_ordered-Ordered h expected seen (e ∷ es) = After-bind _ λ u (_, checked).
    After-bind _ λ _ _.
      After-map
        (λ _ o. let (i, s, m) = check_entry-checks expected seen e u checked in (i, s, m, o))
        (validate_ordered-Ordered h (expected + 1) (e.name ∷ seen) es)

-- The entry at a position has that index.
index_at :
    (es : List Entry) (expected : ℕ) (seen : List Text) (i : ℕ) (e : Entry)
    → Ordered expected seen es
    → get_elem? es i ≡ some e
    → e.index ≡ expected + i
index_at [] expected seen i e o h = cc
index_at (x ∷ es) expected seen zero e o h = ground arith
index_at (x ∷ es) expected seen (suc i) e o h =
    omega (arith, index_at es (expected + 1) (x.name ∷ seen) i e o.3 h)

-- A name that was seen is at no later position.
seen_not_at :
    (es : List Entry) (expected : ℕ) (seen : List Text) (i : ℕ) (e : Entry)
    → Ordered expected seen es
    → get_elem? es i ≡ some e
    → text_mem e.name seen ≡ false
unfolding text_mem
seen_not_at [] expected seen i e o h = cc
seen_not_at (x ∷ es) expected seen zero e o h = ground arith
seen_not_at (x ∷ es) expected seen (suc i) e o h =
    ground (arith, seen_not_at es (expected + 1) (x.name ∷ seen) i e o.3 h)

head_not_later :
    (x : Entry) (es : List Entry) (expected : ℕ) (seen : List Text) (i : ℕ) (e : Entry)
    → Ordered expected seen (x ∷ es)
    → get_elem? es i ≡ some e
    → x.name ≢ e.name
unfolding text_mem
head_not_later x es expected seen i e o h same = ground (
  arith,
  seen_not_at es (expected + 1) (x.name ∷ seen) i e o.3 h,
  text_eq_refl e.name,
  ap (λ s. text_eq e.name s) same,
)

names_differ :
    (es : List Entry) (expected : ℕ) (seen : List Text) (i j : ℕ) (d e : Entry)
    → Ordered expected seen es
    → get_elem? es i ≡ some d
    → get_elem? es j ≡ some e
    → d.name ≡ e.name
    → i ≡ j
names_differ [] expected seen i j d e o hi hj same = cc
names_differ (x ∷ es) expected seen zero zero d e o hi hj same = refl
names_differ (x ∷ es) expected seen zero (suc j) d e o hi hj same =
    absurd (head_not_later x es expected seen j e o hj (cc))
names_differ (x ∷ es) expected seen (suc i) zero d e o hi hj same =
    absurd (head_not_later x es expected seen i d o hi (cc))
names_differ (x ∷ es) expected seen (suc i) (suc j) d e o hi hj same =
    ap suc (names_differ es (expected + 1) (x.name ∷ seen) i j d e o.3 hi hj same)

ok-eq : {A : Type 0} {a b : A} → ok a ≡ ok b → a ≡ b
ok-eq e = cc

-- What is returned for a schema are the entries that it lists, each once, in the order of their
-- indices, which are 0, 1, 2 and so on, with names that differ.
pub validate_and_order_schema_lem :
    (h : Heap) (schema : Value) (ordered : List Entry)
    → validate_and_order_schema h schema ≡ ok ordered
    → (raw : List Value) × (entries : List Entry) × (as_sequence h schema ≡ some raw)
      × (schema_entries h raw ≡ ok entries)
      × Perm ordered entries
      × ((i : ℕ) (e : Entry) → get_elem? ordered i ≡ some e → e.index ≡ i)
      × ((i j : ℕ) (d e : Entry)
          → get_elem? ordered i ≡ some d
          → get_elem? ordered j ≡ some e
          → d.name ≡ e.name
          → i ≡ j)
unfolding validate_and_order_schema
validate_and_order_schema_lem h schema ordered done = elim (Option-cases (as_sequence h schema)) [
  | inl e ↦ cc (rw (e, validate_and_order_schema) at done)
  | inr (raw, e) ↦
      let (entries, read, r) =
        bind-eq-ok (schema_entries h raw)
          (λ entries.
            bind (validate_ordered h 0 [] (sort index_le entries) fresh).0
              λ _. ok (sort index_le entries))
          (rw (e, validate_and_order_schema) at done) in
      let (u, checked, same) =
        bind-eq-ok (validate_ordered h 0 [] (sort index_le entries) fresh).0
          (λ _. ok (sort index_le entries)) r in
      let o : Ordered 0 [] (sort index_le entries) =
        subst (Yields (λ _. Ordered 0 [] (sort index_le entries))) checked
          ((validate_ordered-Ordered h 0 [] (sort index_le entries)).at fresh) in
      let order : sort index_le entries ≡ ordered = ok-eq same in
      let o' : Ordered 0 [] ordered = subst (Ordered 0 []) order o in
      (
        raw,
        entries,
        e,
        read,
        subst (λ l. Perm l entries) order (sort-perm index_le entries),
        λ i x at. index_at ordered 0 [] i x o' at ∙ zero-add i,
        λ i j d x. names_differ ordered 0 [] i j d x o',
      )
]
