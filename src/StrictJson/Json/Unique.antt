-- ===== src/StrictJson/Json/Unique.antt =====
-- `_unique_object` of strict_json.py against a test of the names that looks at each pair of them.
use semant_script.Prelude.{
  ◌≡◌, refl, Bool, true, false, not, List, [], ◌∷◌, ◌&&◌, ◌||◌, if◌then◌else◌, arith,
}
use semant_script.Python.Text.{Text, text_eq, text_mem}
use semant_script.CanonicalInput.Errors.{Result, ok}
use semant_script.StrictJson.Document.{strict_error}
use semant_script.StrictJson.Json.{Json, Members, unique_members, unique_object}

unfoldable pub occurs : Text → Members → Bool
unfolding text_eq
occurs name Members.no_members = false
occurs name (Members.member other v rest) = text_eq name other || occurs name rest

-- No name stands twice.
unfoldable pub distinct : Members → Bool
unfolding occurs
distinct Members.no_members = true
distinct (Members.member name v rest) = not (occurs name rest) && distinct rest

disjoint : List Text → Members → Bool
disjoint seen Members.no_members = true
disjoint seen (Members.member name v rest) = not (text_mem name seen) && disjoint seen rest

text_eq_comm : (s t : Text) → text_eq s t ≡ text_eq t s
unfolding text_eq
text_eq_comm [] [] = refl
text_eq_comm [] (d ∷ t) = refl
text_eq_comm (c ∷ s) [] = refl
text_eq_comm (c ∷ s) (d ∷ t) = ground (arith, text_eq_comm s t)

disjoint-seen :
    (name : Text) (seen : List Text) (ms : Members)
    → disjoint (name ∷ seen) ms ≡ not (occurs name ms) && disjoint seen ms
unfolding disjoint occurs text_mem
disjoint-seen name seen Members.no_members = refl
disjoint-seen name seen (Members.member other v rest) =
    rw (text_eq_comm name other) (ground (arith, disjoint-seen name seen rest))

disjoint-nil : (ms : Members) → disjoint [] ms ≡ true
unfolding disjoint text_mem
disjoint-nil Members.no_members = refl
disjoint-nil (Members.member name v rest) = disjoint-nil rest

abbrev kept : Bool → Members → Result Members
kept b ms = if b then ok ms else strict_error

unique_members-kept :
    (seen : List Text) (ms : Members)
    → unique_members seen ms ≡ kept (distinct ms && disjoint seen ms) ms
unfolding unique_members distinct disjoint
unique_members-kept seen Members.no_members = refl
unique_members-kept seen (Members.member name v rest) =
    ground (arith, unique_members-kept (name ∷ seen) rest, disjoint-seen name seen rest)

-- The pairs of an object are its members, in their order, if no name stands twice, and are refused if
-- one does.
pub unique_object_lem :
    (ms : Members) → unique_object ms ≡ (if distinct ms then ok (Json.dict ms) else strict_error)
unfolding unique_object
unique_object_lem ms = rw (unique_members-kept [] ms, disjoint-nil ms) (ground arith)
