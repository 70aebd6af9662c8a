-- ===== src/CanonicalInput/WriterText.antt =====
-- The writer of canonical_input.py, with its byte limit and its slices, against the JSON text of
-- the whole tree.
use semant_script.Prelude.{
  ℕ, zero, suc, ◌+◌, ◌*◌, ◌/◌, ◌%◌, ◌≤◌, ◌<◌, ◌≡◌, refl, sym, subst, ap, ◌∙◌, Bool, true, false, [],
  ◌∷◌, ◌++◌, append_assoc, append-nil, Option, none, some, arith, ltb, if◌then◌else◌, Bool-cases,
  Option-cases, inl, inr, length, length-append, length-drop, take, drop, take-append-drop,
}
use native.Mathlib.Nat.{zero-add}
use semant_script.Python.Text.{Text, codes, has_surrogate, is_surrogate}
use semant_script.Python.Utf8.{Bytes, utf8, utf8-append}
use semant_script.Python.Digits.{decimal, hex_digit, utf8-decimal}
use semant_script.Python.Float.{ℤ, pos, negsuc}
use semant_script.CanonicalInput.Errors.{ok, fail, bind, Failure, Reason}
use semant_script.CanonicalInput.Tree.{ExactJson, Items}
use semant_script.CanonicalInput.Schema.{maximum_safe_integer}
use semant_script.CanonicalInput.Escape.{escape, written, written-escape, written-plain}
use semant_script.CanonicalInput.JsonText.{
  quoted, json_string, json_integer, json_text, json_items, is_safe, is_writable, are_writable,
  Writable-cons,
}
use semant_script.CanonicalInput.Writer.{
  Write, ◌>>>◌, over_limit, write_bytes, write_slices, write_text, write_rest, write_string,
  write_integer, write_exact_json, write_items,
}

-- `k` writes these bytes, from any buffer within the limit.
pub record Writes (max : Option ℕ) (k : Write) (b : Bytes) : Type 0 where
  pub at :
      (buffer : Bytes)
      → over_limit max (length buffer) ≡ false
      → k buffer ≡ write_bytes max b buffer

-- An escape is ASCII, so its characters are its bytes.
hex_digit_ascii : (d : ℕ) → d < 16 → utf8 (hex_digit d ∷ []) ≡ hex_digit d ∷ []
unfolding utf8 hex_digit
hex_digit_ascii d h = ground arith

utf8-escape : (c : ℕ) (e : Text) → escape c ≡ some e → utf8 e ≡ e
unfolding utf8 escape
utf8-escape c e h =
    ground (
      arith,
      hex_digit_ascii (c / 16 % 16) (omega arith),
      hex_digit_ascii (c % 16) (omega arith),
      h,
    )

over_limit-grows : (o : Option ℕ) (m n : ℕ) → m ≤ n → over_limit o m ≡ true → over_limit o n ≡ true
over_limit-grows none m n h e = e
over_limit-grows (some k) m n h e = ground arith

write_twice :
    (max : Option ℕ) (a b buffer : Bytes)
    → bind (write_bytes max a buffer) (write_bytes max b) ≡ write_bytes max (a ++ b) buffer
unfolding write_bytes
write_twice max a b buffer = elim (Bool-cases (over_limit max (length buffer + length a))) [
  | inl e ↦
      let more =
        over_limit-grows max (length buffer + length a) (length buffer + length (a ++ b))
          (omega (arith, length-append a b)) e in
      rw (e, more)
  | inr e ↦
      let sizes : length (buffer ++ a) + length b ≡ length buffer + length (a ++ b) =
        omega (arith, length-append a b, length-append buffer a) in
      rw (e, sizes, append_assoc)
]

no_surrogate-cons :
    (c : ℕ) (s : Text)
    → has_surrogate (c ∷ s) ≡ false
    → (is_surrogate c ≡ false) × (has_surrogate s ≡ false)
unfolding has_surrogate
no_surrogate-cons c s h = ground arith

module _ {max : Option ℕ} where
  Writes-write_bytes : (b : Bytes) → Writes max (write_bytes max b) b
  Writes-write_bytes b = record { at = λ buffer h. refl }

  Writes-nothing : Writes max ok []
  unfolding write_bytes
  Writes-nothing = record {
    at = λ buffer h.
        let e : length buffer + 0 ≡ length buffer = omega arith in rw (e, h, append-nil buffer);
  }

  then_fits :
      (l : Write) (a b buffer : Bytes)
      → Writes max l b
      → bind (write_bytes max a buffer) l ≡ bind (write_bytes max a buffer) (write_bytes max b)
  unfolding write_bytes
  then_fits l a b buffer wl = elim (Bool-cases (over_limit max (length buffer + length a))) [
    | inl e ↦ rw e
    | inr e ↦ rw e (wl.at (buffer ++ a) (rw (length-append buffer a) e))
  ]

  Writes-then :
      {k l : Write} {a b : Bytes} → Writes max k a → Writes max l b → Writes max (k >>> l) (a ++ b)
  Writes-then {k} {l} {a} {b} wk wl = record {
    at = λ buffer h. rw (wk.at buffer h) (then_fits l a b buffer wl ∙ write_twice max a b buffer);
  }

  -- The slices of `write_text` make up the whole text.
  Writes-write_slices :
      (rounds : ℕ) (s : Text)
      → length s ≤ rounds * 4096
      → Writes max (write_slices max rounds s) (utf8 s)
  unfolding write_slices
  Writes-write_slices zero [] h = unfold utf8 in Writes-nothing
  Writes-write_slices zero (c ∷ s) h = absurd (omega arith)
  Writes-write_slices (suc rounds) s h =
      let whole : utf8 (take 4096 s) ++ utf8 (drop 4096 s) ≡ utf8 s =
        sym (utf8-append (take 4096 s) (drop 4096 s)) ∙ ap utf8 (take-append-drop 4096 s) in
      subst (Writes max (write_slices max (suc rounds) s)) whole (
        Writes-then (Writes-write_bytes (utf8 (take 4096 s)))
          (Writes-write_slices rounds (drop 4096 s) (omega (arith, length-drop 4096 s))))

  Writes-write_text : (s : Text) → Writes max (write_text max s) (utf8 s)
  unfolding write_text
  Writes-write_text s = Writes-write_slices ((length s + 4095) / 4096) s (omega arith)

  Writes-write_rest :
      (pending s : Text)
      → has_surrogate s ≡ false
      → Writes max (write_rest max pending s) (utf8 (pending ++ quoted s))
  unfolding write_rest quoted
  Writes-write_rest pending [] h = rw append-nil (Writes-write_text pending)
  Writes-write_rest pending (c ∷ s) h = elim (Option-cases (escape c)) [
    | inl e ↦
        let plain : is_surrogate c ≡ false = (no_surrogate-cons c s h).0 in
        let joined : (pending ++ c ∷ []) ++ quoted s ≡ pending ++ (written c ++ quoted s) =
          rw (written-plain c e) (append_assoc pending (c ∷ []) (quoted s)) in
        rw (e, plain, write_rest)
          (subst (λ b. Writes max (write_rest max (pending ++ c ∷ []) s) (utf8 b)) joined
            (Writes-write_rest (pending ++ c ∷ []) s (no_surrogate-cons c s h).1))
    | inr (x, e) ↦
        let joined : (utf8 pending ++ x) ++ utf8 (quoted s)
            ≡ utf8 (pending ++ (written c ++ quoted s)) =
          rw (written-escape c x e, utf8-append, utf8-append, utf8-escape c x e, append_assoc) in
        rw (e, write_rest)
          (subst (Writes max _) joined (
            Writes-then (Writes-then (Writes-write_text pending) (Writes-write_bytes x))
              (Writes-write_rest [] s (no_surrogate-cons c s h).1)))
  ]

  Writes-write_string :
      (s : Text) → has_surrogate s ≡ false → Writes max (write_string max s) (utf8 (json_string s))
  unfolding write_string json_string utf8
  Writes-write_string s h =
      let quote : Bytes = codes "\"" in
      let joined : quote ++ utf8 (quoted s) ++ quote ≡ utf8 (json_string s) =
        ap (λ (b : Bytes). b'"' ∷ b) (sym (utf8-append (quoted s) quote)) in
      subst (Writes max _) joined (
        Writes-then (Writes-then (Writes-write_bytes quote) (Writes-write_rest [] s h))
          (Writes-write_bytes quote))

  Writes-write_integer :
      (n : ℤ) → is_safe n ≡ true → Writes max (write_integer max n) (utf8 (json_integer n))
  unfolding write_integer json_integer
  Writes-write_integer (negsuc n) h = cc
  Writes-write_integer (pos n) h =
      let small : ltb maximum_safe_integer n ≡ false = ground arith in
      rw small (subst (Writes max _) (sym (utf8-decimal n)) (Writes-write_bytes (decimal n)))

  mutual
    unfolding write_exact_json json_text is_writable utf8

    Writes-write_exact_json :
        (t : ExactJson)
        → is_writable t ≡ true
        → Writes max (write_exact_json max t) (utf8 (json_text t))
    Writes-write_exact_json (ExactJson.string s) w = Writes-write_string s (ground arith)
    Writes-write_exact_json (ExactJson.integer n) w = Writes-write_integer n w
    Writes-write_exact_json (ExactJson.boolean true) w = Writes-write_bytes (codes "true")
    Writes-write_exact_json (ExactJson.boolean false) w = Writes-write_bytes (codes "false")
    Writes-write_exact_json (ExactJson.list xs) w =
        subst (Writes max _)
          (ap (λ (b : Bytes). b'[' ∷ b) (sym (utf8-append (json_items true xs) (codes "]"))))
          (Writes-then (Writes-then (Writes-write_bytes (codes "[")) (Writes-write_items true xs w))
            (Writes-write_bytes (codes "]")))

    Writes-write_items :
        (first : Bool) (xs : Items)
        → are_writable xs ≡ true
        → Writes max (write_items max first xs) (utf8 (json_items first xs))
    Writes-write_items first Items.nil w = Writes-nothing
    Writes-write_items true (Items.cons x xs) w =
        let (wx, wxs) = Writable-cons x xs w in
        subst (Writes max _) (sym (utf8-append (json_text x) (json_items false xs))) (
          Writes-then (Writes-then Writes-nothing (Writes-write_exact_json x wx))
            (Writes-write_items false xs wxs))
    Writes-write_items false (Items.cons x xs) w =
        let (wx, wxs) = Writable-cons x xs w in
        subst (Writes max _)
          (ap (λ (b : Bytes). b',' ∷ b) (sym (utf8-append (json_text x) (json_items false xs))))
          (Writes-then (Writes-then (Writes-write_bytes (codes ",")) (Writes-write_exact_json x wx))
            (Writes-write_items false xs wxs))

nothing_over : (max : Option ℕ) → over_limit max 0 ≡ false
nothing_over none = refl
nothing_over (some n) = ground arith

-- A tree that the writer takes is written as the UTF-8 of its JSON text, if that is within the
-- byte limit, and raises the limit's error if not; the slices and the single writes do not show.
pub write_exact_json_lem :
    (max : Option ℕ) (t : ExactJson)
    → is_writable t ≡ true
    → write_exact_json max t [] ≡ (
        if over_limit max (length (utf8 (json_text t)))
        then fail (Failure.canonical Reason.limit [])
        else ok (utf8 (json_text t)))
unfolding write_bytes
write_exact_json_lem max t w =
    rw zero-add at ((Writes-write_exact_json {max = max} t w).at [] (nothing_over max))
