-- ===== src/TeacherSpend/Send/Rerun.antt =====
-- `_send` of teachers/anthropic.py on a second run of the same requests.
use semant_script.Prelude.{
  ℕ, suc, ◌+◌, ◌≡◌, ◌≢◌, refl, sym, ap, subst, ◌∙◌, true, false, List, [], ◌∷◌, some, length, All,
  arith,
}
use semant_script.Python.Text.{Text}
use semant_script.SemanticJson.Node.{Json}
use semant_script.TeacherSpend.Journal.{
  FilePath, Disk, path_eq, read_file, Journal, response_path, touch, Outside, next_key,
}
use semant_script.TeacherSpend.Journal.Keys.{keys_of, Distinct, next_key-Distinct}
use semant_script.TeacherSpend.Meter.{Doubles, SpendMeter, Spent, replay}
use semant_script.TeacherSpend.Send.{Run, Answer, send, send_all}
use semant_script.TeacherSpend.Send.Stored.{
  Stored, load-Stored, spent_value, bind_spent-done, response_path-other, keys_of-seen, send-Sent,
}

other_paths :
    (k : Text) (ls : List Text)
    → All (λ l. k ≢ l) ls
    → All (λ l. path_eq (response_path k) (response_path l) ≡ false) ls
other_paths k [] others = tt
other_paths k (l ∷ ls) (other, others) = (response_path-other k l other, other_paths k ls others)

abbrev pub params_of : List (Json × Answer) → List Json
params_of [] = []
params_of ((params, a) ∷ xs) = params ∷ params_of xs

-- The responses are the documents that the disk has for the keys.
abbrev pub Responses : Disk → List Text → List Json → Type 0
Responses d [] [] = Unit
Responses d (k ∷ ks) (r ∷ rs) = (read_file (response_path k) d ≡ some (some r)) × Responses d ks rs
Responses d _ _ = ⊥

-- a run's state in which nothing was charged
abbrev pub replayed_run : Disk → Journal → ℕ → SpendMeter → Run
replayed_run d j n m = record {
  disk = d;
  journal = j;
  meter = record m { replayed = m.replayed + n };
}

count_none : (n : ℕ) → n ≡ n + 0
count_none n = omega arith

count_next : (n k : ℕ) → n + 1 + k ≡ n + suc k
count_next n k = omega arith

-- the outcome of a run whose meter counts `n` replayed requests
abbrev replayed_outcome : List Json → Disk → Journal → SpendMeter → ℕ → Spent (List Json × Run)
replayed_outcome docs d j m n =
    Spent.done (docs, record { disk = d; journal = j; meter = record m { replayed = n } })

module _ (doubles : Doubles) (o : Outside) (prompt_characters : Json → ℕ)
    (writable : (p : FilePath) → o.writable p ≡ true) where
  send_all-frame :
      (xs : List (Json × Answer)) (r : Run) (t : List Json × Run) (p : FilePath)
      → send_all doubles o prompt_characters xs r ≡ Spent.done t
      → All (λ k. path_eq p (response_path k) ≡ false) (keys_of o (params_of xs) r.journal)
      → read_file p t.1.disk ≡ read_file p r.disk
  unfolding send_all keys_of
  send_all-frame [] r t p e others =
      ap (λ (t : List Json × Run). read_file p t.1.disk) (sym (spent_value e))
  send_all-frame ((params, a) ∷ xs) r t p e (other, others) =
      let (s, e₁, e₂) = bind_spent-done (send doubles o prompt_characters params a r) _ e in
      let (u, e₃, e₄) = bind_spent-done (send_all doubles o prompt_characters xs s.1) _ e₂ in
      let sent = send-Sent doubles o prompt_characters writable params a r s e₁ in
      let later =
        subst (λ ks. All (λ k. path_eq p (response_path k) ≡ false) ks)
          (sym (
            keys_of-seen o (params_of xs) s.1.journal (next_key o params r.journal).1 sent.counted))
          others in
      ap (λ (t : List Json × Run). read_file p t.1.disk) (sym (spent_value e₄))
      ∙ send_all-frame xs s.1 u p e₃ later
      ∙ sent.frame p other

  send_all-Stored :
      (xs : List (Json × Answer)) (r : Run) (t : List Json × Run)
      → send_all doubles o prompt_characters xs r ≡ Spent.done t
      → Distinct (keys_of o (params_of xs) r.journal)
      → All (Stored t.1.disk) (keys_of o (params_of xs) r.journal)
  unfolding send_all keys_of
  send_all-Stored [] r t e distinct = tt
  send_all-Stored ((params, a) ∷ xs) r t e (other, distinct) =
      let (s, e₁, e₂) = bind_spent-done (send doubles o prompt_characters params a r) _ e in
      let (u, e₃, e₄) = bind_spent-done (send_all doubles o prompt_characters xs s.1) _ e₂ in
      let sent = send-Sent doubles o prompt_characters writable params a r s e₁ in
      let key = (next_key o params r.journal).0 in
      let same =
        keys_of-seen o (params_of xs) s.1.journal (next_key o params r.journal).1 sent.counted in
      let other_keys = subst (λ ks. All (λ l. key ≢ l) ks) (sym same) other in
      let rest = send_all-Stored xs s.1 u e₃ (subst Distinct (sym same) distinct) in
      subst
        (λ (t : List Json × Run).
          Stored t.1.disk key
          × All (Stored t.1.disk) (keys_of o (params_of xs) (next_key o params r.journal).1))
        (spent_value e₄)
        (
          record {
            response = sent.stored.response;
            on_disk =
                send_all-frame xs s.1 u (response_path key) e₃
                  (other_paths key (keys_of o (params_of xs) s.1.journal) other_keys)
                ∙ sent.stored.on_disk;
            valid = sent.stored.valid;
          },
          subst (λ ks. All (Stored u.1.disk) ks) same rest,
        )

  send_all-Responses :
      (xs : List (Json × Answer)) (d : Disk) (j : Journal) (m : SpendMeter)
      → All (Stored d) (keys_of o (params_of xs) j)
      → (docs : List Json) × (k : Journal) × (send_all doubles o prompt_characters xs
            (record { disk = d; journal = j; meter = m })
          ≡ Spent.done (docs, replayed_run d k (length xs) m))
        × Responses d (keys_of o (params_of xs) j) docs
  unfolding send_all send keys_of replay
  send_all-Responses [] d j m stored =
      ([], j, ap (replayed_outcome [] d j m) (count_none m.replayed), tt)
  send_all-Responses ((params, a) ∷ xs) d j m (s, stored) =
      let key = (next_key o params j).0 in
      let counted = (next_key o params j).1 in
      let (docs, k, e, on_disk) =
        send_all-Responses xs d (touch (response_path key) counted) (replay m) (
          subst (λ ks. All (Stored d) ks)
            (keys_of-seen o (params_of xs) counted (touch (response_path key) counted) refl)
            stored) in
      (
        s.response ∷ docs,
        k,
        rw (load-Stored key d counted s, e)
            (ap (replayed_outcome (s.response ∷ docs) d k m) (count_next m.replayed (length xs))),
        (
          s.on_disk,
          subst (λ ks. Responses d ks docs)
              (keys_of-seen o (params_of xs) (touch (response_path key) counted) counted refl)
              on_disk,
        ),
      )

  module _ (lengths : (p q : Json) → length (o.digest p) ≡ length (o.digest q)) where
    -- After a run that ended without an error, a second run of the same requests, whatever the client
    -- would answer and whatever its meter and its cap are, charges nothing: it ends without an error
    -- too, counts every request as replayed, leaves the disk as it was and returns for every request
    -- the document that the disk has for its key. This holds if every file can be written, the
    -- digests have one length, and the second journal starts from the counts of the first.
    pub send_all-replayed :
        (xs ys : List (Json × Answer)) (r : Run) (t : List Json × Run) (j : Journal)
        (m : SpendMeter)
        → send_all doubles o prompt_characters xs r ≡ Spent.done t
        → params_of ys ≡ params_of xs
        → j.seen ≡ r.journal.seen
        → (docs : List Json) × (k : Journal) × (send_all doubles o prompt_characters ys
              (record { disk = t.1.disk; journal = j; meter = m })
            ≡ Spent.done (docs, replayed_run t.1.disk k (length ys) m))
          × Responses t.1.disk (keys_of o (params_of ys) j) docs
    send_all-replayed xs ys r t j m e same seen =
        let keys =
          ap (λ ps. keys_of o ps j) same ∙ keys_of-seen o (params_of xs) j r.journal seen in
        let distinct = next_key-Distinct o lengths (params_of xs) r.journal in
        send_all-Responses ys t.1.disk j m
          (subst (λ ks. All (Stored t.1.disk) ks) (sym keys) (send_all-Stored xs r t e distinct))
