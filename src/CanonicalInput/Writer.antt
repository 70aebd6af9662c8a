-- ===== src/CanonicalInput/Writer.antt =====
-- `_ExactJsonWriter` and `_write_exact_json` of canonical_input.py. A write takes the bytes so far
-- and returns them with what it adds, or raises at the byte limit.
use semant_script.Prelude.{
  ℕ, zero, suc, ◌+◌, ◌/◌, Bool, true, false, [], ◌∷◌, ◌++◌, Option, none, some, ltb, length, take,
  drop, if◌then◌else◌,
}
use semant_script.Python.Text.{Text, codes, is_surrogate}
use semant_script.Python.Utf8.{Bytes, utf8}
use semant_script.Python.Digits.{decimal}
use semant_script.Python.Float.{ℤ, pos, negsuc}
use semant_script.CanonicalInput.Errors.{Result, ok, fail, bind, Failure, Reason}
use semant_script.CanonicalInput.Tree.{ExactJson, Items}
use semant_script.CanonicalInput.Schema.{maximum_safe_integer}
use semant_script.CanonicalInput.Escape.{escape}

abbrev pub Write : Type 0
Write = Bytes → Result Bytes

infixl 5 ◌>>>◌
-- one write after another
abbrev pub ◌>>>◌ : Write → Write → Write
(m >>> k) buffer = bind (m buffer) k

abbrev pub over_limit : Option ℕ → ℕ → Bool
over_limit none n = false
over_limit (some maximum) n = ltb maximum n

-- `write_string` over what is left of the value; `pending` is what was not written yet, the slice
-- from `unescaped_start`.
module _ (maximum_bytes : Option ℕ) where
  unfoldable pub write_bytes : Bytes → Write
  write_bytes value buffer =
      if over_limit maximum_bytes (length buffer + length value)
      then fail (Failure.canonical Reason.limit [])
      else ok (buffer ++ value)

  -- the loop of `write_text`, by its rounds: a slice of 4096 characters each
  unfoldable pub write_slices : ℕ → Text → Write
  unfolding write_bytes
  write_slices zero s buffer = ok buffer
  write_slices (suc rounds) s buffer =
      (write_bytes (utf8 (take 4096 s)) >>> write_slices rounds (drop 4096 s)) buffer

  -- `range(0, len(value), 4096)`
  unfoldable pub write_text : Text → Write
  unfolding write_slices
  write_text s = write_slices ((length s + 4095) / 4096) s

  abbrev pub write_ascii : Text → Write
  write_ascii s = write_bytes s

  unfoldable pub write_rest : Text → Text → Write
  unfolding write_text write_bytes escape
  write_rest pending [] = write_text pending
  write_rest pending (c ∷ s) =
      let flushed = write_rest [] s in
      let kept = write_rest (pending ++ c ∷ []) s in
      elim (escape c) [
        | some e ↦ write_text pending >>> write_ascii e >>> flushed
        | none ↦ if is_surrogate c then (λ _. fail Failure.type_error) else kept
      ]

  unfoldable pub write_string : Text → Write
  unfolding write_rest
  write_string s = write_ascii (codes "\"") >>> write_rest [] s >>> write_ascii (codes "\"")

  -- an integer of the envelope
  unfoldable pub write_integer : ℤ → Write
  unfolding decimal
  write_integer (pos n) =
      if ltb maximum_safe_integer n then (λ _. fail Failure.type_error) else write_ascii (decimal n)
  write_integer (negsuc n) = λ _. fail Failure.type_error

  unfoldable mutual
    unfolding write_string write_integer write_bytes

    -- `_write_exact_json`
    pub write_exact_json : ExactJson → Write
    write_exact_json (ExactJson.string s) = write_string s
    write_exact_json (ExactJson.boolean b) = write_ascii (if b then codes "true" else codes "false")
    write_exact_json (ExactJson.integer n) = write_integer n
    write_exact_json (ExactJson.list xs) =
        write_ascii (codes "[") >>> write_items true xs >>> write_ascii (codes "]")

    pub write_items : Bool → Items → Write
    write_items first Items.nil = ok
    write_items first (Items.cons x xs) =
        (if first then ok else write_ascii (codes ","))
        >>> write_exact_json x
        >>> write_items false xs
