-- ===== src/TeacherSpend/Send/Stored.antt =====
-- `_send` of teachers/anthropic.py: what one request leaves on the disk.
use semant_script.Prelude.{
  ℕ, ◌≡◌, ◌≢◌, refl, sym, ap, ap₂, subst, ◌∙◌, ◌⊎◌, inl, inr, true, false, List, [], ◌∷◌, ◌++◌,
  none, some, length, length-append, arith, Bool-cases, Option-cases,
}
use semant_script.Python.Text.{Text, codes}
use semant_script.SemanticJson.Node.{Json, Elements}
use semant_script.TeacherSpend.Document.{is_unencodable, field, content_blocks, response_document}
use semant_script.TeacherSpend.Journal.{
  FilePath, Disk, path_eq, read_file, Journal, times, count_one, key_of, response_path, touch,
  is_response, load, Outside, next_key, store_document, store,
}
use semant_script.TeacherSpend.Journal.Keys.{append-cancel, keys_of}
use semant_script.TeacherSpend.Journal.Files.{
  path_eq→eq, read_file-write_file, read_file-write_other,
}
use semant_script.TeacherSpend.Meter.{
  Doubles, SpendMeter, Spent, bind_spent, estimate_request_usd, reserve, charge,
}
use semant_script.TeacherSpend.Send.{Run, Answer, stored_run, send_paid, send}

-- The disk has a response for the key.
pub record Stored (d : Disk) (key : Text) : Type 0 where
  pub response : Json
  pub on_disk : read_file (response_path key) d ≡ some (some response)
  pub valid : is_response response ≡ true

append-cancel_right : (s t u : Text) → s ++ u ≡ t ++ u → s ≡ t
append-cancel_right s t u e =
    let lengths : length s ≡ length t =
      omega (arith, sym (length-append s u) ∙ ap length e ∙ length-append t u) in
    (append-cancel s t u u lengths e).0

-- keys that differ have files that differ
pub response_path-other : (k l : Text) → k ≢ l → path_eq (response_path k) (response_path l) ≡ false
response_path-other k l other = elim (Bool-cases (path_eq (response_path k) (response_path l))) [
  | inl same ↦ absurd (
      other (
        append-cancel_right k l (codes ".json")
          (ap (λ (p : FilePath). p.1) (path_eq→eq (response_path k) (response_path l) same))))
  | inr e ↦ e
]

pub load-cases :
    (key : Text) (d : Disk) (j : Journal)
    → ((s : Stored d key) × (load key d j ≡ (some s.response, touch (response_path key) j)))
      ⊎ (load key d j ≡ (none, j))
unfolding load
load-cases key d j = elim (Option-cases (read_file (response_path key) d)) [
  | inl absent ↦ inr (rw absent refl)
  | inr (none, unreadable) ↦ inr (rw unreadable refl)
  | inr (some document, present) ↦ elim (Bool-cases (is_response document)) [
    | inl valid ↦
        inl (
          record { response = document; on_disk = present; valid = valid },
          rw (present, valid) refl,
        )
    | inr invalid ↦ inr (rw (present, invalid) refl)
  ]
]

pub load-Stored :
    (key : Text) (d : Disk) (j : Journal) (s : Stored d key)
    → load key d j ≡ (some s.response, touch (response_path key) j)
unfolding load
load-Stored key d j s = rw (s.on_disk, s.valid) refl

pub spent_value : {A : Type 0} {a b : A} → Spent.done a ≡ Spent.done b → a ≡ b
spent_value e = cc

pub bind_spent-done :
    {A B : Type 0} (m : Spent A) (f : A → Spent B) {b : B}
    → bind_spent m f ≡ Spent.done b
    → (a : A) × (m ≡ Spent.done a) × (f a ≡ Spent.done b)
bind_spent-done (Spent.done a) f e = (a, refl, e)
bind_spent-done (Spent.raised x) f e = cc

module _ (o : Outside) where
  pub keys_of-seen :
      (ps : List Json) (j k : Journal) → j.seen ≡ k.seen → keys_of o ps j ≡ keys_of o ps k
  unfolding keys_of next_key
  keys_of-seen [] j k e = refl
  keys_of-seen (p ∷ ps) j k e =
      let counted = ap (count_one (o.digest p)) e in
      ap₂ (λ n ks. key_of (o.digest p) n ∷ ks) (ap (times (o.digest p)) counted)
        (keys_of-seen ps (next_key o p j).1 (next_key o p k).1 counted)

response_document-valid :
    (message : Json) (blocks : Elements) → is_response (response_document message blocks) ≡ true
unfolding is_response response_document field
response_document-valid message blocks = refl

-- What one request leaves behind, by the run before it: a response on the disk, and no other file
-- changed.
pub record Sent (key : Text) (j : Journal) (before : Disk) (after : Run) : Type 0 where
  pub stored : Stored after.disk key
  pub counted : after.journal.seen ≡ j.seen
  pub frame :
      (p : FilePath)
      → path_eq p (response_path key) ≡ false
      → read_file p after.disk ≡ read_file p before

module _ (doubles : Doubles) (o : Outside) (prompt_characters : Json → ℕ)
    (writable : (p : FilePath) → o.writable p ≡ true) where
  store_document-Sent :
      (key : Text) (message : Json) (blocks : Elements) (d : Disk) (j : Journal) (m : SpendMeter)
      (s : Json × Run)
      → stored_run message m
          (store_document o (response_path key) (response_document message blocks) d j)
        ≡ Spent.done s
      → Sent key j d s.1
  unfolding store_document
  store_document-Sent key message blocks d j m s e =
      let document = response_document message blocks in
      elim (Bool-cases (is_unencodable document)) [
        | inl bad ↦ absurd (cc (rw (writable (response_path key), bad) at e))
        | inr fine ↦
            subst (λ (s : Json × Run). Sent key j d s.1)
              (spent_value (rw (writable (response_path key), fine) at e))
              (record {
                stored = record {
                  response = document;
                  on_disk = read_file-write_file (response_path key) document d;
                  valid = response_document-valid message blocks;
                };
                counted = refl;
                frame = λ p other. read_file-write_other p (response_path key) document d other;
              })
      ]

  store-Sent :
      (key : Text) (message : Json) (d : Disk) (j : Journal) (m : SpendMeter) (s : Json × Run)
      → stored_run message m (store o key message d j) ≡ Spent.done s
      → Sent key j d s.1
  unfolding store
  store-Sent key message d j m s e =
      elim (Option-cases (content_blocks (field (codes "content") message))) [
        | inl broken ↦ absurd (cc (rw broken at e))
        | inr (blocks, f) ↦ store_document-Sent key message blocks d j m s (rw f at e)
      ]

  send_paid-Sent :
      (key : Text) (params : Json) (a : Answer) (d : Disk) (j : Journal) (m : SpendMeter)
      (s : Json × Run)
      → send_paid doubles o prompt_characters key params a d j m ≡ Spent.done s
      → Sent key j d s.1
  unfolding send_paid
  send_paid-Sent key params a d j m s e =
      let (usd, estimated, e₁) =
        bind_spent-done (estimate_request_usd doubles (prompt_characters params) false m) _ e in
      let (u, reserved, e₂) = bind_spent-done (reserve doubles usd m) _ e₁ in
      let (paid, charged, e₃) =
        bind_spent-done (charge doubles (field (codes "usage") a.message) (some a.seconds) false m)
          _ e₂ in
      store-Sent key a.message d j paid.1 s e₃

  pub send-Sent :
      (params : Json) (a : Answer) (r : Run) (s : Json × Run)
      → send doubles o prompt_characters params a r ≡ Spent.done s
      → Sent (next_key o params r.journal).0 (next_key o params r.journal).1 r.disk s.1
  unfolding send
  send-Sent params a r s e =
      let key = (next_key o params r.journal).0 in
      let j = (next_key o params r.journal).1 in
      elim (load-cases key r.disk j) [
        | inl (stored, f) ↦
            subst (λ (s : Json × Run). Sent key j r.disk s.1) (spent_value (rw f at e))
              (record { stored = stored; counted = refl; frame = λ p other. refl })
        | inr f ↦ send_paid-Sent key params a r.disk j r.meter s (rw f at e)
      ]
