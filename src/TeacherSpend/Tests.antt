-- ===== src/TeacherSpend/Tests.antt =====
-- Runs of teacher_spend.py on two requests, and the properties at them.
use semant_script.Prelude.{
  Option, ℕ, ◌≡◌, refl, sym, ◌∙◌, Bool, true, false, List, [], ◌∷◌, length, none, some,
  if◌then◌else◌,
}
use semant_script.Python.Text.{Text, codes}
use semant_script.Python.Float.{pos}
use semant_script.SemanticJson.Node.{Json, Elements, Members}
use semant_script.TeacherSpend.Document.{entry}
use semant_script.TeacherSpend.Journal.{
  Disk, Journal, Outside, batch_path, count_entries, discard_touched, load_batch, new_journal,
  path_mem, read_file, response_path, store_batch,
}
use semant_script.TeacherSpend.Journal.Keys.{keys_of, Distinct, next_key-Distinct}
use semant_script.TeacherSpend.Journal.Files.{discard_touched_lem}
use semant_script.TeacherSpend.Meter.{
  Doubles, SpendMeter, SpendError, Spent, TeacherPrice, reserve, ceiling,
}
use semant_script.TeacherSpend.Price.{
  Pricing, TeacherConfig, Follows, resolve_price, resolve_price-Follows, batch_multiplier,
}
use semant_script.TeacherSpend.Send.{Run, Answer, send_all}
use semant_script.TeacherSpend.Send.Rerun.{send_all-replayed, params_of, replayed_run, Responses}

-- a digest of two characters
abbrev digest_text : Bool → Text
digest_text true = codes "0a"
digest_text false = codes "1b"

abbrev digest : Json → Text
digest Json.null = digest_text true
digest _ = digest_text false

digest-length : (p : Json) → length (digest p) ≡ 2
digest-length Json.null = refl
digest-length _ = refl

abbrev outside : Outside
outside = record { digest = digest; writable = λ p. true; removable = λ p. true }

-- stand in for the arithmetic of doubles
abbrev doubles : Doubles
doubles = record { add = λ x y. x; multiply = λ x y. x; divide = λ x y. x }

abbrev characters : Json → ℕ
characters params = 42

abbrev price : TeacherPrice
price = record {
  input_usd_per_million = 0x3FF0000000000000;
  output_usd_per_million = 0x3FF0000000000000;
  cache_read_usd_per_million = 0;
  cache_write_usd_per_million = 0x3FF0000000000000;
  batch_multiplier = 0x3FE0000000000000;
}

abbrev meter : SpendMeter
meter = record {
  price = some price;
  max_cost_usd = some 0x4000000000000000;
  requests = 0;
  replayed = 0;
  input_tokens = 0;
  output_tokens = 0;
  cache_read_tokens = 0;
  cache_write_tokens = 0;
  cost_usd = 0;
  seconds = 0;
  timed_requests = 0;
  largest_output_tokens = 0;
}

abbrev block : Json
block = Json.dict (
    entry "type" (Json.string (codes "text"))
      (entry "text" (Json.string (codes "ok")) Members.no_members))

abbrev usage : Json
usage = Json.dict (entry "output_tokens" (Json.int (pos 7)) Members.no_members)

abbrev message : Json
message = Json.dict (
    entry "content" (Json.list (Elements.element block Elements.no_elements))
      (entry "usage" usage Members.no_members))

abbrev answer : Answer
answer = record { message = message; seconds = 0 }

-- one request three times, then another
abbrev requests : List (Json × Answer)
requests = (Json.null, answer) ∷ (Json.null, answer) ∷ (Json.boolean true, answer) ∷ []

abbrev first_run : Run
first_run = record { disk = []; journal = new_journal; meter = meter }

one_length : (p q : Json) → length (digest p) ≡ length (digest q)
one_length p q = digest-length p ∙ sym (digest-length q)

first_keys :
    keys_of outside (Json.null ∷ Json.null ∷ Json.boolean true ∷ []) new_journal
    ≡ codes "0a-1" ∷ codes "0a-2" ∷ codes "1b-1" ∷ []
unfolding keys_of
first_keys = refl

next_key-Distinct_example :
    Distinct (keys_of outside (Json.null ∷ Json.null ∷ Json.boolean true ∷ []) new_journal)
next_key-Distinct_example =
    next_key-Distinct outside one_length (Json.null ∷ Json.null ∷ Json.boolean true ∷ [])
      new_journal

abbrev ended : Spent (List Json × Run) → List Json × Run
ended (Spent.done t) = t
ended (Spent.raised e) = ([], first_run)

abbrev first_end : List Json × Run
first_end = ended (send_all doubles outside characters requests first_run)

first_run_ends : send_all doubles outside characters requests first_run ≡ Spent.done first_end
unfolding send_all
first_run_ends = refl

first_run_pays : first_end.1.meter.requests ≡ 3
unfolding send_all
first_run_pays = refl

first_run_writes : count_entries first_end.1.disk ≡ 3
unfolding send_all count_entries
first_run_writes = refl

send_all-replayed_example :
    (docs : List Json) × (k : Journal) × (send_all doubles outside characters requests
        (record { disk = first_end.1.disk; journal = new_journal; meter = meter })
      ≡ Spent.done (docs, replayed_run first_end.1.disk k 3 meter))
    × Responses first_end.1.disk (keys_of outside (params_of requests) new_journal) docs
send_all-replayed_example =
    send_all-replayed doubles outside characters (λ p. refl) one_length requests requests first_run
      first_end new_journal meter first_run_ends refl refl

discard_touched_example :
    (read_file
        (response_path (codes "0a-1"))
        (discard_touched outside first_end.1.disk first_end.1.journal).1
      ≡ (if path_mem (response_path (codes "0a-1")) first_end.1.journal.touched
          then none
          else read_file (response_path (codes "0a-1")) first_end.1.disk))
    × ((discard_touched outside first_end.1.disk first_end.1.journal).2.touched ≡ [])
discard_touched_example =
    discard_touched_lem outside (λ p. refl) (response_path (codes "0a-1")) first_end.1.disk
      first_end.1.journal

all_dropped : (discard_touched outside first_end.1.disk first_end.1.journal).1 ≡ []
unfolding discard_touched send_all
all_dropped = refl

-- a request that would pass the cap
over_the_cap :
    reserve (record doubles { add = λ x y. y }) 0x4008000000000000 meter
    ≡ Spent.raised SpendError.budget_exceeded
unfolding reserve
over_the_cap = refl

-- 137.5 tokens
rounds_up : ceiling 0x4061300000000000 ≡ Spent.done 138
unfolding ceiling
rounds_up = refl

abbrev stored : Option (Disk × Journal) → Disk
stored none = []
stored (some s) = s.0

batch_is_found :
    (load_batch
      (codes "0a-1")
      (stored (store_batch outside (codes "0a-1") (codes "b") (codes "r" ∷ []) true [] new_journal))
      new_journal).1.touched
    ≡ batch_path (codes "0a-1") ∷ []
unfolding load_batch store_batch
batch_is_found = refl

surrogate_raises :
    store_batch outside (codes "0a-1") (0xD800 ∷ []) (codes "r" ∷ []) true [] new_journal ≡ none
unfolding store_batch
surrogate_raises = refl

abbrev output_only : Pricing
output_only = record { input = none; output = some 15; cache_read = none; cache_write = none }

abbrev config : Pricing → TeacherConfig
config p = record {
  model = codes "anthropic/claude-haiku-4.5";
  is_ollama = false;
  is_openrouter = false;
  pricing = some p;
}

-- the pinned price, with another output price
abbrev haiku : TeacherPrice
haiku = record {
  input_usd_per_million = 0x3FF0000000000000;
  output_usd_per_million = 15;
  cache_read_usd_per_million = 0x3FF0000000000000;
  cache_write_usd_per_million = 0x3FF0000000000000;
  batch_multiplier = batch_multiplier;
}

pinned_haiku : resolve_price doubles (λ model. none) (some (config output_only)) ≡ some haiku
unfolding resolve_price
pinned_haiku = refl

resolve_price-Follows_example : Follows output_only haiku
resolve_price-Follows_example =
    resolve_price-Follows doubles (λ model. none) (config output_only) output_only haiku refl
      pinned_haiku
