-- ===== src/CanonicalInput/Tree.antt =====
-- `ExactJson`: the typed tree between validation and the two writers.
use semant_script.Prelude.{ℕ, ◌+◌, Bool, List, [], ◌∷◌}
use semant_script.Python.Float.{ℤ, pos}
use semant_script.Python.Text.{Text, codes}
use semant_script.Prelude.{String}

mutual
  pub data ExactJson : Type 0 where
    string : Text → ExactJson
    integer : ℤ → ExactJson
    boolean : Bool → ExactJson
    list : Items → ExactJson

  pub data Items : Type 0 where
    nil : Items
    cons : ExactJson → Items → Items

abbrev pub items : List ExactJson → Items
items [] = Items.nil
items (x ∷ xs) = Items.cons x (items xs)

-- `[a, b, …]`
abbrev pub array : List ExactJson → ExactJson
array xs = ExactJson.list (items xs)

abbrev pub tag : String → ExactJson
tag s = ExactJson.string (codes s)

abbrev pub natural : ℕ → ExactJson
natural n = ExactJson.integer (pos n)

-- The arrays of a tree.
unfoldable mutual
  pub arrays : ExactJson → ℕ
  arrays (ExactJson.string s) = 0
  arrays (ExactJson.integer n) = 0
  arrays (ExactJson.boolean b) = 0
  arrays (ExactJson.list xs) = 1 + arrays_of xs

  pub arrays_of : Items → ℕ
  arrays_of Items.nil = 0
  arrays_of (Items.cons x xs) = arrays x + arrays_of xs
