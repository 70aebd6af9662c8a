-- ===== src/TeacherSpend/Journal.antt =====
-- `ResponseJournal` of teacher_spend.py. The disk lists the files below the journal's directory by
-- their folder and name, each with what `json.loads` makes of it, or none if that is an error; of a document that was written it
-- makes the same document. The
-- SHA-256 of a request's JSON text, and which files can be written and removed, are parameters.
pub mod Keys
pub mod Files
pub mod Batches
use semant_script.Prelude.{
  ℕ, zero, suc, ◌+◌, Bool, true, false, not, ◌&&◌, ◌||◌, List, [], ◌∷◌, ◌++◌, Option, none, some,
  take, if◌then◌else◌,
}
use semant_script.Python.Text.{Text, codes, text_eq}
use semant_script.Python.Digits.{decimal}
use semant_script.SemanticJson.Node.{Json, Elements, Members}
use semant_script.TeacherSpend.Document.{
  is_unencodable, field, content_blocks, response_document, entry,
}

-- folder and file name
abbrev pub FilePath : Type 0
FilePath = Text × Text

abbrev pub Disk : Type 0
Disk = List (FilePath × Option Json)

unfoldable pub path_eq : FilePath → FilePath → Bool
unfolding text_eq
path_eq p q = text_eq p.0 q.0 && text_eq p.1 q.1

unfoldable pub path_mem : FilePath → List FilePath → Bool
unfolding path_eq
path_mem p [] = false
path_mem p (q ∷ qs) = path_eq p q || path_mem p qs

-- the file at a path; the inner option is what `json.loads` makes of it
unfoldable pub read_file : FilePath → Disk → Option (Option Json)
unfolding path_eq
read_file p [] = none
read_file p ((q, c) ∷ d) = if path_eq p q then some c else read_file p d

-- `_write_json`, which replaces the file
unfoldable pub write_file : FilePath → Json → Disk → Disk
unfolding path_eq
write_file p j [] = (p, some j) ∷ []
write_file p j ((q, c) ∷ d) = if path_eq p q then (q, some j) ∷ d else (q, c) ∷ write_file p j d

-- `unlink`
unfoldable pub remove_file : FilePath → Disk → Disk
unfolding path_eq
remove_file p [] = []
remove_file p ((q, c) ∷ d) = if path_eq p q then remove_file p d else (q, c) ∷ remove_file p d

-- `_seen`, which counts a key as 0 times before it is met
unfoldable pub times : Text → List (Text × ℕ) → ℕ
unfolding text_eq
times k [] = 0
times k ((l, n) ∷ c) = if text_eq k l then n else times k c

unfoldable pub count_one : Text → List (Text × ℕ) → List (Text × ℕ)
unfolding text_eq
count_one k [] = (k, 1) ∷ []
count_one k ((l, n) ∷ c) = if text_eq k l then (l, n + 1) ∷ c else (l, n) ∷ count_one k c

-- `_seen` and `_touched`
pub record Journal : Type 0 where
  pub seen : List (Text × ℕ)
  pub touched : List FilePath

abbrev pub new_journal : Journal
new_journal = record { seen = []; touched = [] }

-- `f"{digest}-{occurrence}"`
abbrev pub key_of : Text → ℕ → Text
key_of digest n = digest ++ (b'-' ∷ decimal n)

abbrev occurrence : Text → Text → Journal → Text × Journal
occurrence digest counted j =
    let seen = count_one counted j.seen in
    (key_of digest (times counted seen), record j { seen = seen })

-- `next_batch_key`
unfoldable pub next_batch_key : Text → Journal → Text × Journal
unfolding count_one times decimal
next_batch_key request_sha256 j = occurrence request_sha256 (codes "batch:" ++ request_sha256) j

-- `_path` and `_batch_path`
abbrev pub response_path : Text → FilePath
response_path key = (take 2 key, key ++ codes ".json")

abbrev pub batch_path : Text → FilePath
batch_path key = (codes "batches", key ++ codes ".json")

abbrev pub touch : FilePath → Journal → Journal
touch p j = record j { touched = j.touched ++ p ∷ [] }

-- Is `content` a list?
abbrev pub is_list : Json → Bool
is_list (Json.list es) = true
is_list _ = false

abbrev is_string : Json → Bool
is_string (Json.string s) = true
is_string _ = false

unfoldable pub all_strings : Elements → Bool
all_strings Elements.no_elements = true
all_strings (Elements.element j es) = is_string j && all_strings es

abbrev are_strings : Json → Bool
are_strings (Json.list es) = all_strings es
are_strings _ = false

-- what the two kinds of entry are tested for
unfoldable pub is_response : Json → Bool
unfolding field
is_response (Json.dict ms) = is_list (field (codes "content") (Json.dict ms))
is_response _ = false

unfoldable pub is_batch : Json → Bool
unfolding field all_strings
is_batch (Json.dict ms) =
    is_string (field (codes "batch_id") (Json.dict ms))
    && are_strings (field (codes "custom_ids") (Json.dict ms))
is_batch _ = false

abbrev pub found : (Json → Bool) → FilePath → Journal → Option (Option Json) → Option Json × Journal
found valid p j (some (some document)) =
    if valid document then (some document, touch p j) else (none, j)
found valid p j _ = (none, j)

-- `load` and `load_batch`
unfoldable pub load : Text → Disk → Journal → Option Json × Journal
unfolding is_response read_file
load key d j = found is_response (response_path key) j (read_file (response_path key) d)

unfoldable pub load_batch : Text → Disk → Journal → Option Json × Journal
unfolding is_batch read_file
load_batch key d j = found is_batch (batch_path key) j (read_file (batch_path key) d)

unfoldable pub strings : List Text → Elements
strings [] = Elements.no_elements
strings (s ∷ ss) = Elements.element (Json.string s) (strings ss)

-- the document of a batch
unfoldable pub batch_document : Text → List Text → Bool → Json
unfolding strings
batch_document batch_id custom_ids collected = Json.dict (
    entry "batch_id" (Json.string batch_id) (
      entry "custom_ids" (Json.list (strings custom_ids))
        (entry "collected" (Json.boolean collected) Members.no_members)))

-- `path.json` of `rglob`, outside `batches`
abbrev is_counted : FilePath → Bool
is_counted p = not (text_eq (codes "batches") p.0)

-- `count`
unfoldable pub count_entries : Disk → ℕ
unfolding text_eq
count_entries [] = 0
count_entries ((p, c) ∷ d) = if is_counted p then 1 + count_entries d else count_entries d

-- `dict.fromkeys(paths)`, after the paths that were met
unfoldable pub distinct_paths : List FilePath → List FilePath → List FilePath
unfolding path_mem
distinct_paths met [] = []
distinct_paths met (p ∷ ps) = elim (path_mem p met) [
  | true ↦ distinct_paths met ps
  | false ↦ p ∷ distinct_paths (p ∷ met) ps
]

abbrev pub exists : Option (Option Json) → Bool
exists none = false
exists (some c) = true

-- The SHA-256 of the domain and a request's JSON text, and whether a file can be written and removed.
pub record Outside : Type 0 where
  pub digest : Json → Text
  pub writable : FilePath → Bool
  pub removable : FilePath → Bool

module _ (o : Outside) where
  -- `next_key`
  unfoldable pub next_key : Json → Journal → Text × Journal
  unfolding count_one times decimal
  next_key params j = occurrence (o.digest params) (o.digest params) j

  -- `_write_json` and the entry that it touches, where a file that cannot be written is passed over;
  -- none is the UnicodeEncodeError of a text with a surrogate
  unfoldable pub store_document : FilePath → Json → Disk → Journal → Option (Disk × Journal)
  unfolding write_file is_unencodable
  store_document p document d j =
      if o.writable p
      then (if is_unencodable document then none else some (write_file p document d, touch p j))
      else some (d, j)

  abbrev pub store_blocks : Text → Json → Disk → Journal → Option Elements → Option (Disk × Journal)
  store_blocks key message d j none = none
  store_blocks key message d j (some blocks) =
      store_document (response_path key) (response_document message blocks) d j

  -- `store`; none is a TypeError, or the error of a text that cannot be encoded
  unfoldable pub store : Text → Json → Disk → Journal → Option (Disk × Journal)
  unfolding field content_blocks response_document store_document
  store key message d j =
      store_blocks key message d j (content_blocks (field (codes "content") message))

  -- `store_batch`
  unfoldable pub store_batch :
      Text → Text → List Text → Bool → Disk → Journal → Option (Disk × Journal)
  unfolding batch_document store_document
  store_batch key batch_id custom_ids collected d j =
      store_document (batch_path key) (batch_document batch_id custom_ids collected) d j

  abbrev pub unlink : FilePath → Disk → Disk
  unlink p d = if o.removable p then remove_file p d else d

  -- `discard` and `discard_batch`
  unfoldable pub discard : Text → Disk → Disk
  unfolding remove_file
  discard key d = unlink (response_path key) d

  unfoldable pub discard_batch : Text → Disk → Disk
  unfolding remove_file
  discard_batch key d = unlink (batch_path key) d

  -- the loop of `discard_touched`, with the entries that it has dropped
  unfoldable pub drop_paths : List FilePath → ℕ → Disk → ℕ × Disk
  unfolding read_file remove_file
  drop_paths [] dropped d = (dropped, d)
  drop_paths (p ∷ ps) dropped d =
      let drops = exists (read_file p d) && o.removable p in
      drop_paths ps (if drops then dropped + 1 else dropped) (if drops then remove_file p d else d)

  -- `discard_touched`
  unfoldable pub discard_touched : Disk → Journal → ℕ × Disk × Journal
  unfolding distinct_paths drop_paths
  discard_touched d j =
      let dropped = drop_paths (distinct_paths [] j.touched) 0 d in
      (dropped.0, dropped.1, record j { touched = [] })
