-- ===== src/StrictJson/Nodes.antt =====
-- `_check_value` of strict_json.py: the nodes of a value are counted over a stack of work.
pub mod Count
use semant_script.Prelude.{ℕ, zero, suc, List, [], ◌∷◌, if◌then◌else◌}
use semant_script.Python.Text.{has_surrogate}
use semant_script.CanonicalInput.Errors.{Result, ok, bind}
use semant_script.StrictJson.Document.{strict_error}
use semant_script.StrictJson.Json.{Json, Elements, Members}

-- `work.extend(current)`; the head of the list is the end that `pop` takes from
unfoldable pub extend : Elements → List Json → List Json
extend Elements.no_elements work = work
extend (Elements.element v vs) work = extend vs (v ∷ work)

-- the loop over the items of a dict
unfoldable pub push_members : Members → List Json → Result (List Json)
unfolding has_surrogate
push_members Members.no_members work = ok work
push_members (Members.member name v ms) work =
    if has_surrogate name then strict_error else push_members ms (v ∷ work)

unfoldable pub visit : Json → List Json → Result (List Json)
unfolding extend push_members
visit (Json.string s) work = if has_surrogate s then strict_error else ok work
visit (Json.list vs) work = ok (extend vs work)
visit (Json.dict ms) work = push_members ms work
visit v work = ok work

-- The rounds that are left are `maximum_nodes - nodes`: the loop raises when there is none, so no
-- other fuel is used.
unfoldable pub check_nodes : ℕ → List Json → Result (Unit {0})
unfolding visit
check_nodes remaining [] = ok tt
check_nodes zero (v ∷ work) = strict_error
check_nodes (suc remaining) (v ∷ work) = bind (visit v work) λ work'. check_nodes remaining work'

-- `_check_value`
unfoldable pub check_value : Json → ℕ → Result (Unit {0})
unfolding check_nodes
check_value v maximum_nodes = check_nodes maximum_nodes (v ∷ [])
