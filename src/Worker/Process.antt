-- ===== src/Worker/Process.antt =====
-- `process_message` and `_handle` of app/worker/main.py.
use report_insight.Base.{String, Option, List, [], ◌∷◌}
use report_insight.Domain.{Json, Result, ok, err}
use report_insight.Db.{Exec, pure, lift, emit, unit_of_work, delete_message, ◌>>=◌, ◌>>◌}
use report_insight.Ingest.S3Event.{parse_s3_event}
use report_insight.Ingest.Service.{Ports, ingest_from_key}

-- `SqsMessage` of app/infra/aws/sqs.py
pub record SqsMessage : Type 0 where
  pub receipt_handle : String
  pub body : String

-- The ports of the service, `json.loads`, `str` and `SqsConsumer.delete`.
pub record Container : Type 0 where
  pub ports : Ports
  pub json_loads : String → Option Json
  pub to_str : Json → String
  pub delete : String → Result (Unit {0})

-- `for key in keys`, each key in its own unit of work
unfoldable pub process_keys : Ports → List String → Exec (Unit {0})
unfolding unit_of_work
process_keys ports [] = pure tt
process_keys ports (key ∷ keys) =
    unit_of_work (ingest_from_key ports key) >> process_keys ports keys

unfoldable pub process_message : Container → SqsMessage → Exec (Unit {0})
unfolding process_keys
process_message container message = do
  keys ← lift (parse_s3_event container.to_str container.json_loads message.body)
  process_keys container.ports keys

abbrev pub after_processing : Container → SqsMessage → Result (Unit {0}) → Exec (Unit {0})
after_processing container message (err e) = pure tt
after_processing container message (ok _) = do
  lift (container.delete message.receipt_handle)
  emit (delete_message message.receipt_handle)

-- `_handle`: only a message that was processed is deleted; the others are left to be delivered again.
unfoldable pub handle : Container → SqsMessage → Exec (Unit {0})
unfolding process_message
handle container message w =
    let (r, w') = process_message container message w in after_processing container message r w'
