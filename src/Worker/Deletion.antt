-- ===== src/Worker/Deletion.antt =====
-- When the worker deletes a message from the queue.
use report_insight.Base.{
  ℕ, String, ◌≡◌, ◌≢◌, ◌∙◌, ap, sym, subst, refl, inl, inr, Option, none, some, List, [], ◌∷◌, All,
  Text, arith,
}
use report_insight.Domain.{Report, ReportAnalysis, Float, Result-cases, Result, ok}
use report_insight.Db.{Db, World, Effect, unit_of_work}
use report_insight.Repositories.Report.{upsert_ingested}
use report_insight.Ingest.S3Event.{parse_s3_event}
use report_insight.Ingest.Service.{Ports, prepare, classify, ingest_from_key, finish}
use report_insight.Worker.Process.{Container, SqsMessage, process_keys, process_message, handle}
use report_insight.Worker.Redelivery.{
  IsIngested, one, process_keys-ok, process_keys-err, processed-IsIngested, parsed,
}

-- The receipt handles of the deleted messages, the newest first.
abbrev pub deletions : List Effect → List String
deletions [] = []
deletions (Effect.delete_message r ∷ es) = r ∷ deletions es
deletions (Effect.classify_report _ ∷ es) = deletions es
deletions (Effect.incr _ ∷ es) = deletions es
deletions (Effect.emit_tokens _ _ ∷ es) = deletions es
deletions (Effect.stream_answer _ _ ∷ es) = deletions es
deletions (Effect.narrate_monthly _ _ ∷ es) = deletions es
deletions (Effect.notify_urgent _ _ ∷ es) = deletions es

deletions-prepare :
    (ports : Ports) (key : String) (w : World)
    → deletions (prepare ports key w).1.effects ≡ deletions w.effects
unfolding prepare classify
deletions-prepare ports key w = ground arith

effects-upsert :
    (ports : Ports) (report : Report) (analysis : ReportAnalysis)
    (chunks : List (Text × List Float)) (w : World)
    → (upsert_ingested ports.server report analysis chunks w).1.effects ≡ w.effects
unfolding upsert_ingested
effects-upsert ports report analysis chunks w = ground arith

deletions-finish :
    (ports : Ports) (key : String) (report : Report) (analysis : ReportAnalysis) (id : Option ℕ)
    (w : World)
    → deletions (finish ports key report analysis id w).1.effects ≡ deletions w.effects
unfolding finish
deletions-finish ports key report analysis none w = refl
deletions-finish ports key report analysis (some id) w = ground arith

pub deletions-one :
    (ports : Ports) (key : String) (w : World)
    → deletions (one ports key w).1.effects ≡ deletions w.effects
unfolding ingest_from_key unit_of_work
deletions-one ports key w = grind (arith, effects-upsert, deletions-finish, deletions-prepare)

pub deletions-process_keys :
    (ports : Ports) (keys : List String) (w : World)
    → deletions (process_keys ports keys w).1.effects ≡ deletions w.effects
deletions-process_keys ports [] w = unfold process_keys in refl
deletions-process_keys ports (key ∷ keys) w = elim (Result-cases (one ports key w).0) [
  | inl (o, e) ↦
      rw (process_keys-ok ports key keys w o e)
        (deletions-process_keys ports keys (one ports key w).1 ∙ deletions-one ports key w)
  | inr (x, e) ↦ rw (process_keys-err ports key keys w x e) (deletions-one ports key w)
]

pub deletions-process_message :
    (container : Container) (message : SqsMessage) (w : World)
    → deletions (process_message container message w).1.effects ≡ deletions w.effects
unfolding process_message
deletions-process_message container message w =
    elim (Result-cases (parse_s3_event container.to_str container.json_loads message.body)) [
      | inl (keys, e) ↦ ground (arith, deletions-process_keys container.ports keys w)
      | inr (x, e) ↦ ground arith
    ]

-- No message is lost: if the worker's reaction to a message has deleted anything, then it has deleted
-- this message, once; the body was parsed; and for every key that it names the tables hold a report
-- with the key of the object's message.
pub deleted_only_if_IsIngested :
    (container : Container) (message : SqsMessage) (w : World)
    → deletions (handle container message w).1.effects ≢ deletions w.effects
    → (deletions (handle container message w).1.effects
        ≡ message.receipt_handle ∷ deletions w.effects)
      × ((keys : List String) × (parse_s3_event container.to_str container.json_loads message.body
            ≡ ok keys)
          × All (IsIngested container.ports (handle container message w).1.db) keys)
unfolding handle
deleted_only_if_IsIngested container message w deleted =
    elim (Result-cases (process_message container message w).0) [
      | inr (x, failed) ↦ absurd (ground (arith, deletions-process_message container message w))
      | inl (u, done) ↦
          elim (Result-cases (parse_s3_event container.to_str container.json_loads message.body)) [
            | inr (x, e) ↦ absurd (unfold process_message in ground arith)
            | inl (keys, e) ↦
                let at_w = parsed container message keys w e in
                let ran : (process_keys container.ports keys w).0 ≡ ok tt =
                  ap (λ (x : Result (Unit {0}) × World). x.0) (sym at_w) ∙ done in
                let same : (process_keys container.ports keys w).1.db
                    ≡ (handle container message w).1.db =
                  ground arith in
                (
                  ground (arith, deletions-process_message container message w),
                  (
                    keys,
                    e,
                    subst (λ (d : Db). All (IsIngested container.ports d) keys) same
                        (processed-IsIngested container.ports keys w ran),
                  ),
                )
          ]
    ]
