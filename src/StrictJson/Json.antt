-- ===== src/StrictJson/Json.antt =====
-- What `json.loads` finds in a text, and the values that strict_json.py makes of it by the hooks that
-- it hands to `json.loads`.
pub mod Unique
pub mod Valid
use semant_script.Prelude.{
  ℕ, Bool, true, false, List, [], ◌∷◌, Option, none, some, ◌&&◌, not, if◌then◌else◌,
}
use semant_script.Python.Text.{Text, text_mem}
use semant_script.Python.Float.{is_finite}
use semant_script.CanonicalInput.Errors.{Result, ok, bind}
use semant_script.StrictJson.Document.{strict_error}

-- A JSON value: a number is a double by its bits, a dict its members in order.
mutual
  pub data Json : Type 0 where
    null : Json
    boolean : Bool → Json
    number : ℕ → Json
    string : Text → Json
    list : Elements → Json
    dict : Members → Json

  pub data Elements : Type 0 where
    no_elements : Elements
    element : Json → Elements → Elements

  pub data Members : Type 0 where
    no_members : Members
    member : Text → Json → Members → Members

-- A text's syntax before the hooks: numbers and constants as their tokens, and all pairs of an
-- object.
mutual
  pub data Syntax : Type 0 where
    null : Syntax
    boolean : Bool → Syntax
    integer real constant : Text → Syntax
    string : Text → Syntax
    array : Series → Syntax
    object : Pairs → Syntax

  pub data Series : Type 0 where
    no_items : Series
    item : Syntax → Series → Series

  pub data Pairs : Type 0 where
    no_pairs : Pairs
    pair : Text → Syntax → Pairs → Pairs

-- `_unique_object`, with the names that `result` has
unfoldable pub unique_members : List Text → Members → Result Members
unfolding text_mem
unique_members seen Members.no_members = ok Members.no_members
unique_members seen (Members.member name v rest) =
    if text_mem name seen
    then strict_error
    else bind (unique_members (name ∷ seen) rest) λ ms. ok (Members.member name v ms)

unfoldable pub unique_object : Members → Result Json
unfolding unique_members
unique_object pairs = bind (unique_members [] pairs) λ ms. ok (Json.dict ms)

-- `float(token)` is a parameter: the double that is nearest to a number's token, by its bits.
module _ (float : Text → ℕ) where
  -- `_parse_float`
  unfoldable pub parse_float : Text → Result Json
  unfolding is_finite
  parse_float token =
      if is_finite (float token) then ok (Json.number (float token)) else strict_error

  -- `_parse_integer`
  unfoldable pub parse_integer : Text → Result Json
  unfolding parse_float
  parse_integer token = parse_float token

  -- `_reject_constant`
  unfoldable pub reject_constant : Text → Result Json
  reject_constant token = strict_error

  -- The hooks are called from the inside out.
  unfoldable mutual
    unfolding parse_integer reject_constant unique_object

    pub build : Syntax → Result Json
    build Syntax.null = ok Json.null
    build (Syntax.boolean b) = ok (Json.boolean b)
    build (Syntax.integer token) = parse_integer token
    build (Syntax.real token) = parse_float token
    build (Syntax.constant token) = reject_constant token
    build (Syntax.string s) = ok (Json.string s)
    build (Syntax.array xs) = bind (build_series xs) λ vs. ok (Json.list vs)
    build (Syntax.object ps) = bind (build_pairs ps) unique_object

    pub build_series : Series → Result Elements
    build_series Series.no_items = ok Elements.no_elements
    build_series (Series.item x xs) =
        bind (build x) λ v. bind (build_series xs) λ vs. ok (Elements.element v vs)

    pub build_pairs : Pairs → Result Members
    build_pairs Pairs.no_pairs = ok Members.no_members
    build_pairs (Pairs.pair name x ps) =
        bind (build x) λ v. bind (build_pairs ps) λ ms. ok (Members.member name v ms)
