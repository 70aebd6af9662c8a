-- ===== src/TeacherSpend/Send.antt =====
-- `_send` of teachers/anthropic.py: one request through the journal and the meter. The client's answer,
-- the time that it took and the characters of the prompt are parameters. The state that an error leaves
-- is not kept.
pub mod Stored
pub mod Rerun
pub mod Order
pub mod Priced
pub mod Cap
mod Tests
use semant_script.Prelude.{ℕ, Bool, false, List, [], ◌∷◌, Option, none, some}
use semant_script.Python.Text.{Text, codes}
use semant_script.SemanticJson.Node.{Json}
use semant_script.TeacherSpend.Document.{field}
use semant_script.TeacherSpend.Journal.{Disk, Journal, Outside, next_key, load, store}
use semant_script.TeacherSpend.Meter.{
  Doubles, SpendMeter, SpendError, Spent, bind_spent, estimate_request_usd, reserve, charge, replay,
}

-- the run's state, with the disk
pub record Run : Type 0 where
  pub disk : Disk
  pub journal : Journal
  pub meter : SpendMeter

-- What the client does with a request.
pub record Answer : Type 0 where
  pub message : Json
  pub seconds : ℕ

abbrev pub stored_run : Json → SpendMeter → Option (Disk × Journal) → Spent (Json × Run)
stored_run message m none = Spent.raised SpendError.type_error
stored_run message m (some (d, j)) =
    Spent.done (message, record { disk = d; journal = j; meter = m })

module _ (doubles : Doubles) (o : Outside) (prompt_characters : Json → ℕ) where
  -- what is done when the journal has no response
  unfoldable pub send_paid : Text → Json → Answer → Disk → Journal → SpendMeter → Spent (Json × Run)
  unfolding estimate_request_usd reserve charge store field
  send_paid key params answer d j m =
      bind_spent (estimate_request_usd doubles (prompt_characters params) false m) λ usd.
        bind_spent (reserve doubles usd m) λ _.
          bind_spent
            (charge doubles (field (codes "usage") answer.message) (some answer.seconds) false m)
            λ paid. stored_run answer.message paid.1 (store o key answer.message d j)

  abbrev pub send_loaded :
      Text → Json → Answer → Disk → SpendMeter → Option Json × Journal → Spent (Json × Run)
  send_loaded key params answer d m (some response, j) =
      Spent.done (response, record { disk = d; journal = j; meter = replay m })
  send_loaded key params answer d m (none, j) = send_paid key params answer d j m

  -- `_send`, with a journal and a meter
  unfoldable pub send : Json → Answer → Run → Spent (Json × Run)
  unfolding next_key load send_paid replay
  send params answer r =
      let keyed = next_key o params r.journal in
      send_loaded keyed.0 params answer r.disk r.meter (load keyed.0 r.disk keyed.1)

  -- requests, one after another
  unfoldable pub send_all : List (Json × Answer) → Run → Spent (List Json × Run)
  unfolding send
  send_all [] r = Spent.done ([], r)
  send_all ((params, answer) ∷ rest) r =
      bind_spent (send params answer r)
        λ s. bind_spent (send_all rest s.1) λ t. Spent.done (s.0 ∷ t.0, t.1)
