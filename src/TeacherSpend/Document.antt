-- ===== src/TeacherSpend/Document.antt =====
-- What teacher_spend.py reads of a message and writes of it: `_field`, `_usage_int` and the document
-- of `ResponseJournal.store`. An object of the client library is a dict of its attributes. The keys of a dict
-- stand in the order of the source, which `_write_json` sorts and nothing here reads.
use semant_script.Prelude.{
  ℕ, zero, Bool, true, false, ◌&&◌, ◌||◌, String, Option, none, some, if◌then◌else◌,
}
use semant_script.Python.Text.{Text, codes, text_eq, has_surrogate}
use semant_script.Python.Float.{pos, is_zero}
use semant_script.SemanticJson.Node.{Json, Elements, Members}

-- `value.get(name)` of a dict's items
unfoldable pub get_member : Text → Members → Json
unfolding text_eq
get_member name Members.no_members = Json.null
get_member name (Members.member (Json.string key) v ms) =
    if text_eq name key then v else get_member name ms
get_member name (Members.member key v ms) = get_member name ms

-- `_field`
unfoldable pub field : Text → Json → Json
unfolding get_member
field name (Json.dict ms) = get_member name ms
field name _ = Json.null

-- `_usage_int`
abbrev pub positive : Json → ℕ
positive (Json.int (pos n)) = n
positive _ = 0

unfoldable pub usage_int : Text → Json → ℕ
unfolding field
usage_int name usage = positive (field name usage)

abbrev pub is_text : Json → Bool
is_text (Json.string s) = true
is_text _ = false

abbrev pub is_text_type : Json → Bool
is_text_type (Json.string s) = text_eq (codes "text") s
is_text_type _ = false

abbrev pub entry : String → Json → Members → Members
entry name v ms = Members.member (Json.string (codes name)) v ms

abbrev pub text_block : Json → Json
text_block text =
    Json.dict (entry "type" (Json.string (codes "text")) (entry "text" text Members.no_members))

-- the blocks of a content list that are texts
unfoldable pub text_blocks : Elements → Elements
unfolding field text_eq
text_blocks Elements.no_elements = Elements.no_elements
text_blocks (Elements.element block rest) =
    if is_text_type (field (codes "type") block) && is_text (field (codes "text") block)
    then Elements.element (text_block (field (codes "text") block)) (text_blocks rest)
    else text_blocks rest

-- The loop over `content or []`: characters and keys have no fields; none is the TypeError of what
-- is no iterable.
unfoldable pub content_blocks : Json → Option Elements
unfolding text_blocks is_zero
content_blocks (Json.list es) = some (text_blocks es)
content_blocks Json.null = some Elements.no_elements
content_blocks (Json.boolean false) = some Elements.no_elements
content_blocks (Json.int (pos zero)) = some Elements.no_elements
content_blocks (Json.float bits) = if is_zero bits then some Elements.no_elements else none
content_blocks (Json.string s) = some Elements.no_elements
content_blocks (Json.dict ms) = some Elements.no_elements
content_blocks _ = none

abbrev usage_entry : String → Json → Members → Members
usage_entry name usage ms = entry name (Json.int (pos (usage_int (codes name) usage))) ms

-- the four counts of a usage
unfoldable pub usage_document : Json → Json
unfolding usage_int
usage_document usage = Json.dict (
    usage_entry "input_tokens" usage (
      usage_entry "output_tokens" usage (
        usage_entry "cache_read_input_tokens" usage
          (usage_entry "cache_creation_input_tokens" usage Members.no_members))))

-- the document that is stored, with its blocks
unfoldable pub response_document : Json → Elements → Json
unfolding field usage_document
response_document message blocks = Json.dict (
    entry "stop_reason" (field (codes "stop_reason") message) (
      entry "content" (Json.list blocks)
        (entry "usage" (usage_document (field (codes "usage") message)) Members.no_members)))

-- Does a text of the document have a surrogate? `_write_json` writes UTF-8, which has none.
unfoldable mutual
  unfolding has_surrogate

  pub is_unencodable : Json → Bool
  is_unencodable (Json.string s) = has_surrogate s
  is_unencodable (Json.list es) = any_element es
  is_unencodable (Json.dict ms) = any_member ms
  is_unencodable _ = false

  pub any_element : Elements → Bool
  any_element Elements.no_elements = false
  any_element (Elements.element j es) = is_unencodable j || any_element es

  pub any_member : Members → Bool
  any_member Members.no_members = false
  any_member (Members.member key v ms) = is_unencodable key || is_unencodable v || any_member ms
