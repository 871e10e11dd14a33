-- ===== src/Worker/Liveness.antt =====
-- A message whose objects can be ingested is deleted.
use report_insight.Base.{
  ℕ, String, ◌≡◌, refl, ap, ◌∙◌, false, true, inl, inr, some, none, Bool-cases, Option, List, [],
  ◌∷◌, All, Any, arith,
}
use report_insight.Domain.{Report, ReportAnalysis, Result, Result-cases, ok}
use report_insight.Db.{Db, World, PropertyRow, unit_of_work}
use report_insight.Db.Table.{contains}
use report_insight.Repositories.Monthly.{property_key}
use report_insight.Repositories.Report.{
  report_key, has_source_key, upsert_ingested, insert_ingested,
}
use report_insight.Ingest.S3Event.{parse_s3_event}
use report_insight.Ingest.Service.{
  Ports, Prepared, IngestOutcome, is_high, prepare, finish, ingest_from_key,
}
use report_insight.Ingest.Idempotence.{db-prepare, db-finish, duplicate_outcome}
use report_insight.Worker.Process.{Container, SqsMessage, process_keys, process_message, handle}
use report_insight.Worker.Redelivery.{one, process_keys-ok, process_keys-err, parsed}
use report_insight.Worker.Deletion.{deletions, deletions-process_keys, deletions-process_message}

-- The database, the notifier and the queue work: the sequence gives ids that are not in use, and no
-- notification and no deletion fails.
pub record Works (container : Container) : Type 0 where
  pub fresh :
      (w : World)
      → contains report_key (container.ports.server.next_report_id w) w.db.reports ≡ false
  pub notifies : (r : Report) (a : ReportAnalysis) → container.ports.notify_urgent r a ≡ ok tt
  pub deletes : (receipt : String) → container.delete receipt ≡ ok tt

-- The object of a key can be prepared, and its property is known.
abbrev pub IsReady : Ports → List PropertyRow → String → Type 0
IsReady ports properties key =
    (new : Prepared) × ((w : World) → (prepare ports key w).0 ≡ ok new)
    × (contains property_key new.report.property_id properties ≡ true)

-- The keys of a message are all ready.
abbrev pub MessageIsReady : Container → List PropertyRow → SqsMessage → Type 0
MessageIsReady container properties message =
    (keys : List String) × (parse_s3_event container.to_str container.json_loads message.body
      ≡ ok keys)
    × All (IsReady container.ports properties) keys

properties-one :
    (ports : Ports) (key : String) (w : World) → (one ports key w).1.db.properties ≡ w.db.properties
unfolding unit_of_work ingest_from_key upsert_ingested insert_ingested
properties-one ports key w = grind (arith, db-prepare, db-finish)

finish_ok :
    (container : Container) (key : String) (new : Prepared) (id : Option ℕ) (w : World)
    → Works container
    → (o : IngestOutcome) × ((finish container.ports key new.report new.analysis id w).0 ≡ ok o)
unfolding finish
finish_ok container key new none w works = (duplicate_outcome key new, refl)
finish_ok container key new (some id) w works = (
  record {
    source_key = key;
    report_id = some id;
    status = new.analysis.status;
    duplicate = false;
    notified = is_high new.analysis.urgency;
  },
  ground (
    arith,
    works.notifies (record new.report { id = some id }) (record new.analysis { report_id = id }),
  ),
)

upsert_ok :
    (container : Container) (new : Prepared) (w : World)
    → Works container
    → contains property_key new.report.property_id w.db.properties ≡ true
    → (id : Option ℕ) × ((upsert_ingested container.ports.server new.report new.analysis new.chunks
          w).0
        ≡ ok id)
unfolding upsert_ingested insert_ingested
upsert_ok container new w works known =
    elim (Bool-cases (has_source_key new.report.source_key w.db.reports)) [
      | inl taken ↦ (none, ground arith)
      | inr free ↦ (some (container.ports.server.next_report_id w), ground (arith, works.fresh w))
    ]

-- A key that is ready is ingested without an exception.
one_ok :
    (container : Container) (key : String) (w : World)
    → Works container
    → IsReady container.ports w.db.properties key
    → (o : IngestOutcome) × ((one container.ports key w).0 ≡ ok o)
unfolding unit_of_work ingest_from_key
one_ok container key w works (new, p, known) =
    let w1 : World = (prepare container.ports key w).1 in
    let known1 : contains property_key new.report.property_id w1.db.properties ≡ true =
      ap (λ (d : Db). contains property_key new.report.property_id d.properties)
        (db-prepare container.ports key w)
      ∙ known in
    let (id, written) = upsert_ok container new w1 works known1 in
    let w2 : World =
      (upsert_ingested container.ports.server new.report new.analysis new.chunks w1).1 in
    let (o, finished) = finish_ok container key new id w2 works in (o, ground (arith, p w))

process_keys_ok :
    (container : Container) (keys : List String) (w : World)
    → Works container
    → All (IsReady container.ports w.db.properties) keys
    → (process_keys container.ports keys w).0 ≡ ok tt
process_keys_ok container [] w works ready = unfold process_keys in refl
process_keys_ok container (key ∷ keys) w works ready =
    let (o, e) = one_ok container key w works ready.0 in
    let v : World = (one container.ports key w).1 in
    ap (λ (x : Result (Unit {0}) × World). x.0) (process_keys-ok container.ports key keys w o e)
    ∙ process_keys_ok container keys v works (rw (properties-one container.ports key w) ready.1)

properties-process_keys :
    (ports : Ports) (keys : List String) (w : World)
    → (process_keys ports keys w).1.db.properties ≡ w.db.properties
properties-process_keys ports [] w = unfold process_keys in refl
properties-process_keys ports (key ∷ keys) w = elim (Result-cases (one ports key w).0) [
  | inl (o, e) ↦
      rw (process_keys-ok ports key keys w o e)
        (properties-process_keys ports keys (one ports key w).1 ∙ properties-one ports key w)
  | inr (x, e) ↦ rw (process_keys-err ports key keys w x e) (properties-one ports key w)
]

properties-process_message :
    (container : Container) (message : SqsMessage) (w : World)
    → (process_message container message w).1.db.properties ≡ w.db.properties
unfolding process_message
properties-process_message container message w =
    elim (Result-cases (parse_s3_event container.to_str container.json_loads message.body)) [
      | inl (keys, e) ↦ ground (arith, properties-process_keys container.ports keys w)
      | inr (x, e) ↦ ground arith
    ]

-- The properties are the same, and every receipt handle that was deleted still is.
abbrev pub Kept : World → World → Type 0
Kept w w' =
    (w'.db.properties ≡ w.db.properties)
    × ((r : String)
        → Any (λ s. s ≡ r) (deletions w.effects)
        → Any (λ s. s ≡ r) (deletions w'.effects))

-- A handler raises nothing where deletions do not fail, whatever became of its message.
pub handle-Kept :
    (container : Container) (message : SqsMessage) (w : World)
    → Works container
    → ((handle container message w).0 ≡ ok tt) × Kept w (handle container message w).1
unfolding handle
handle-Kept container message w works =
    let deleted = deletions-process_message container message w in
    let properties = properties-process_message container message w in
    elim (Result-cases (process_message container message w).0) [
      | inl (u, e) ↦
          let more : deletions (handle container message w).1.effects
              ≡ message.receipt_handle ∷ deletions w.effects =
            ground (arith, works.deletes message.receipt_handle) in
          (
            ground (arith, works.deletes message.receipt_handle),
            (ground (arith, works.deletes message.receipt_handle), λ r h. rw more (inr h)),
          )
      | inr (x, e) ↦
          let same : deletions (handle container message w).1.effects ≡ deletions w.effects =
            ground arith in
          (ground arith, (ground arith, λ r h. rw same h))
    ]

-- A message whose keys are ready is deleted.
pub handle_ready :
    (container : Container) (message : SqsMessage) (w : World)
    → Works container
    → MessageIsReady container w.db.properties message
    → deletions (handle container message w).1.effects
      ≡ message.receipt_handle ∷ deletions w.effects
unfolding handle
handle_ready container message w works (keys, e, ready) = ground (
  arith,
  works.deletes message.receipt_handle,
  parsed container message keys w e,
  process_keys_ok container keys w works ready,
  deletions-process_keys container.ports keys w,
)
