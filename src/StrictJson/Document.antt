-- ===== src/StrictJson/Document.antt =====
-- `StrictJsonLimits` and `_decode` of strict_json.py.
use semant_script.Prelude.{
  ℕ, ◌≡◌, refl, false, [], ◌∷◌, none, some, ltb, if◌then◌else◌, length, All, arith,
}
use semant_script.Python.Text.{Text, has_surrogate}
use semant_script.Python.Utf8.{Bytes, utf8}
use semant_script.Python.Decode.{decode_utf8, decode_utf8-utf8, IsScalar}
use semant_script.Python.Float.{pos}
use semant_script.Python.Values.{Value}
use semant_script.CanonicalInput.Errors.{Result, ok, fail, bind, Failure}

pub record StrictJsonLimits : Type 0 where
  pub maximum_bytes : ℕ
  pub maximum_depth : ℕ
  pub maximum_nodes : ℕ

abbrev pub default_limits : StrictJsonLimits
default_limits = record { maximum_bytes = 8388608; maximum_depth = 100; maximum_nodes = 100000 }

-- an int of at least `least`; a bool is none
unfoldable pub limit : ℕ → Value → Result ℕ
limit least (Value.int (pos n)) = if ltb n least then fail Failure.value_error else ok n
limit least _ = fail Failure.value_error

-- `__post_init__`
unfoldable pub strict_json_limits : Value → Value → Value → Result StrictJsonLimits
unfolding limit
strict_json_limits maximum_bytes maximum_depth maximum_nodes = bind (limit 1 maximum_bytes) λ bytes.
    bind (limit 1 maximum_nodes) λ nodes.
      bind (limit 0 maximum_depth)
        λ depth. ok (record { maximum_bytes = bytes; maximum_depth = depth; maximum_nodes = nodes })

-- What is to be read: a str, bytes or a bytearray, or any other object.
pub data Document : Type 0 where
  str : Text → Document
  bytes : Bytes → Document
  other : Document

-- `StrictJsonError`
abbrev pub strict_error : {A : Type 0} → Result A
strict_error = fail Failure.value_error

-- `_decode`: the text and its length in bytes
unfoldable pub decode : Document → Result (Text × ℕ)
unfolding has_surrogate utf8 decode_utf8
decode (Document.str s) = if has_surrogate s then strict_error else ok (s, length (utf8 s))
decode (Document.bytes b) = elim (decode_utf8 b) [ none ↦ strict_error | some s ↦ ok (s, length b) ]
decode Document.other = fail Failure.type_error

Scalar-has_surrogate : (s : Text) → All IsScalar s → has_surrogate s ≡ false
unfolding has_surrogate
Scalar-has_surrogate [] h = refl
Scalar-has_surrogate (c ∷ s) h = ground (arith, Scalar-has_surrogate s h.1)

-- A text and its UTF-8 are the same document.
pub decode-utf8 :
    (s : Text) → All IsScalar s → decode (Document.bytes (utf8 s)) ≡ decode (Document.str s)
unfolding decode
decode-utf8 s h = rw (decode, decode_utf8-utf8 s h, Scalar-has_surrogate s h) refl
