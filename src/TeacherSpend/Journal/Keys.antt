-- ===== src/TeacherSpend/Journal/Keys.antt =====
-- The keys of `ResponseJournal.next_key` in teacher_spend.py.
use semant_script.Prelude.{
  ℕ, ◌+◌, ◌≤◌, ◌≡◌, ◌≢◌, refl, sym, ap, ◌∙◌, inl, inr, List, [], ◌∷◌, ◌++◌, length, All, arith,
  Bool-cases,
}
use semant_script.Python.Text.{Text, text_eq, text_eq_refl}
use semant_script.Python.Digits.{decimal, read_digits, read_digits-decimal}
use semant_script.SemanticJson.Node.{Json}
use semant_script.TeacherSpend.Journal.{Journal, times, count_one, key_of, Outside, next_key}

pub append-cancel : (s t u v : Text) → length s ≡ length t → s ++ u ≡ t ++ v → (s ≡ t) × (u ≡ v)
append-cancel [] [] u v l e = (refl, e)
append-cancel [] (d ∷ t) u v l e = absurd (omega (arith, l))
append-cancel (c ∷ s) [] u v l e = absurd (omega (arith, l))
append-cancel (c ∷ s) (d ∷ t) u v l e =
    let (same, rest) = append-cancel s t u v (omega (arith, l)) (cc) in (cc, rest)

decimal-injective : (n m : ℕ) → decimal n ≡ decimal m → n ≡ m
unfolding read_digits
decimal-injective n m e =
    ap (λ (r : ℕ × Text). r.0)
      (sym (read_digits-decimal n [])
        ∙ ap (λ t. read_digits 0 (t ++ [])) e
        ∙ read_digits-decimal m [])

key_of-injective :
    (d e : Text) (n m : ℕ) → length d ≡ length e → key_of d n ≡ key_of e m → (d ≡ e) × (n ≡ m)
key_of-injective d e n m l same =
    let (digests, rest) = append-cancel d e (b'-' ∷ decimal n) (b'-' ∷ decimal m) l same in
    (digests, decimal-injective n m (cc rest))

times-count_one : (k : Text) (c : List (Text × ℕ)) → times k (count_one k c) ≡ times k c + 1
unfolding times count_one
times-count_one k [] = rw (text_eq_refl k) refl
times-count_one k ((l, n) ∷ c) = elim (Bool-cases (text_eq k l)) [
  | inl e ↦ rw (e, e) refl
  | inr e ↦ rw (e, e) (times-count_one k c)
]

times-le : (k l : Text) (c : List (Text × ℕ)) → times k c ≤ times k (count_one l c)
unfolding times count_one
times-le k l [] = omega arith
times-le k l ((m, n) ∷ c) = ground (arith, times-le k l c)

-- No two of the keys are the same.
abbrev pub Distinct : List Text → Type 0
Distinct [] = Unit
Distinct (k ∷ ks) = All (λ l. k ≢ l) ks × Distinct ks

module _ (o : Outside) where
  -- the keys of requests, one after another
  unfoldable pub keys_of : List Json → Journal → List Text
  unfolding next_key
  keys_of [] j = []
  keys_of (p ∷ ps) j = (next_key o p j).0 ∷ keys_of ps (next_key o p j).1

  module _ (lengths : (p q : Json) → length (o.digest p) ≡ length (o.digest q)) where
    -- a key that was given out is not given out again
    later_keys :
        (p : Json) (n : ℕ) (qs : List Json) (j : Journal)
        → n ≤ times (o.digest p) j.seen
        → All (λ l. key_of (o.digest p) n ≢ l) (keys_of qs j)
    unfolding keys_of next_key
    later_keys p n [] j le = tt
    later_keys p n (q ∷ qs) j le = (
      λ same.
          let (d, e) =
            key_of-injective (o.digest p) (o.digest q) n
              (times (o.digest q) (count_one (o.digest q) j.seen)) (lengths p q) same in
          let t : times (o.digest p) j.seen ≡ times (o.digest q) j.seen =
            ap (λ k. times k j.seen) d in
          absurd (omega (arith, e, times-count_one (o.digest q) j.seen, t, le)),
      later_keys p n qs (next_key o q j).1
          (omega (arith, le, times-le (o.digest p) (o.digest q) j.seen)),
    )

    -- The keys of any requests, repeated ones included, are distinct, if the digests have one length.
    pub next_key-Distinct : (ps : List Json) (j : Journal) → Distinct (keys_of ps j)
    unfolding keys_of next_key
    next_key-Distinct [] j = tt
    next_key-Distinct (p ∷ ps) j = (
      later_keys p (times (o.digest p) (count_one (o.digest p) j.seen)) ps (next_key o p j).1
          (omega arith),
      next_key-Distinct ps (next_key o p j).1,
    )
