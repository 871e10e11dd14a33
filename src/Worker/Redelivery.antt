-- ===== src/Worker/Redelivery.antt =====
-- A message that is delivered again.
use report_insight.Base.{
  ◌⊎◌, Any, String, ◌≡◌, ◌∙◌, ap, subst, sym, refl, inl, inr, true, List, [], ◌∷◌, All, All-imp,
  Text, arith,
}
use report_insight.Domain.{Error, Report, ReportAnalysis, Float, Result-cases, Result, ok, err}
use report_insight.Db.{Db, Server, World, unit_of_work}
use report_insight.Repositories.Report.{has_source_key, upsert_ingested}
use report_insight.Ingest.S3Event.{parse_s3_event}
use report_insight.Ingest.Service.{Ports, Prepared, IngestOutcome, prepare, ingest_from_key}
use report_insight.Ingest.Idempotence.{
  notifications, prepare_fixed, db-prepare, db-finish, duplicate_outcome, ingested-has_source_key,
  skipped, SameObjects, same_source_key, not_prepared,
}
use report_insight.Worker.Process.{Container, SqsMessage, process_keys, process_message}

-- The object can be prepared, and the tables have a report with its key.
abbrev pub IsIngested : Ports → Db → String → Type 0
IsIngested ports db key =
    (new : Prepared) × ((w : World) → (prepare ports key w).0 ≡ ok new)
    × (has_source_key new.report.source_key db.reports ≡ true)

has_source_key-upsert :
    (k : String) (server : Server) (report : Report) (analysis : ReportAnalysis)
    (chunks : List (Text × List Float)) (w : World)
    → has_source_key k w.db.reports ≡ true
    → has_source_key k (upsert_ingested server report analysis chunks w).1.db.reports ≡ true
unfolding upsert_ingested
has_source_key-upsert k server report analysis chunks w h = ground arith

has_source_key-ingest :
    (k : String) (ports : Ports) (key : String) (w : World)
    → has_source_key k w.db.reports ≡ true
    → has_source_key k (ingest_from_key ports key w).1.db.reports ≡ true
unfolding ingest_from_key
has_source_key-ingest k ports key w h = grind (arith, has_source_key-upsert, db-prepare, db-finish)

-- A unit of work keeps the keys that are taken, whether it commits or not.
IsIngested-kept :
    (ports : Ports) (key : String) (w : World) (k : String)
    → IsIngested ports w.db k
    → IsIngested ports (unit_of_work (ingest_from_key ports key) w).1.db k
unfolding unit_of_work
IsIngested-kept ports key w k (new, p, taken) =
    (new, p, ground (arith, has_source_key-ingest new.report.source_key ports key w))

-- One key in its unit of work.
abbrev pub one : Ports → String → World → Result IngestOutcome × World
one ports key = unit_of_work (ingest_from_key ports key)

pub process_keys-ok :
    (ports : Ports) (key : String) (keys : List String) (w : World) (o : IngestOutcome)
    → (one ports key w).0 ≡ ok o
    → process_keys ports (key ∷ keys) w ≡ process_keys ports keys (one ports key w).1
unfolding process_keys
process_keys-ok ports key keys w o h = ground arith

pub process_keys-err :
    (ports : Ports) (key : String) (keys : List String) (w : World) (e : Error)
    → (one ports key w).0 ≡ err e
    → process_keys ports (key ∷ keys) w ≡ (err e, (one ports key w).1)
unfolding process_keys
process_keys-err ports key keys w e h = ground arith

IsIngested-process_keys :
    (ports : Ports) (keys : List String) (w : World) (k : String)
    → IsIngested ports w.db k
    → IsIngested ports (process_keys ports keys w).1.db k
IsIngested-process_keys ports [] w k h = unfold process_keys in h
IsIngested-process_keys ports (key ∷ keys) w k h = elim (Result-cases (one ports key w).0) [
  | inl (o, e) ↦
      rw (process_keys-ok ports key keys w o e)
        (IsIngested-process_keys ports keys (one ports key w).1 k (IsIngested-kept ports key w k h))
  | inr (x, e) ↦ rw (process_keys-err ports key keys w x e) (IsIngested-kept ports key w k h)
]

one-ok :
    (ports : Ports) (key : String) (w : World) (o : IngestOutcome)
    → (one ports key w).0 ≡ ok o
    → one ports key w ≡ ingest_from_key ports key w
unfolding unit_of_work
one-ok ports key w o h = ground arith

one-IsIngested :
    (ports : Ports) (key : String) (w : World) (o : IngestOutcome)
    → (one ports key w).0 ≡ ok o
    → IsIngested ports (one ports key w).1.db key
one-IsIngested ports key w o h =
    let same = one-ok ports key w o h in
    let (new, p, taken) =
      ingested-has_source_key ports key w o
        (ap (λ (x : Result IngestOutcome × World). x.0) (sym same) ∙ h) in
    (
      new,
      λ v. prepare_fixed ports key v w ∙ p,
      ap (λ (x : Result IngestOutcome × World). has_source_key new.report.source_key x.1.db.reports)
            same
          ∙ taken,
    )

-- Once a run over the keys of a message has raised nothing, every key is ingested.
pub processed-IsIngested :
    (ports : Ports) (keys : List String) (w : World)
    → (process_keys ports keys w).0 ≡ ok tt
    → All (IsIngested ports (process_keys ports keys w).1.db) keys
processed-IsIngested ports [] w h = tt
processed-IsIngested ports (key ∷ keys) w h = elim (Result-cases (one ports key w).0) [
  | inl (o, e) ↦
      let step = process_keys-ok ports key keys w o e in
      let v : World = (one ports key w).1 in
      let done : (process_keys ports keys v).0 ≡ ok tt =
        ap (λ (x : Result (Unit {0}) × World). x.0) (sym step) ∙ h in
      subst (λ (x : Result (Unit {0}) × World). All (IsIngested ports x.1.db) (key ∷ keys))
        (sym step)
        (
          IsIngested-process_keys ports keys v key (one-IsIngested ports key w o e),
          processed-IsIngested ports keys v done,
        )
  | inr (x, e) ↦ absurd (cc (process_keys-err ports key keys w x e))
]

-- Nothing that a reader of the tables or a receiver of notifications can see has changed.
abbrev pub Unchanged : World → World → Type 0
Unchanged w w' = (w'.db ≡ w.db) × (notifications w'.effects ≡ notifications w.effects)

-- Preparing this object raises this exception.
abbrev pub Fails : Ports → Error → String → Type 0
Fails ports e key = (w : World) → (prepare ports key w).0 ≡ err e

one-again :
    (ports later : Ports) (key : String) (w : World)
    → SameObjects ports later
    → IsIngested ports w.db key
    → (((o : IngestOutcome) × ((one later key w).0 ≡ ok o))
        ⊎ ((e : Error) × ((one later key w).0 ≡ err e) × Fails later e key))
      × Unchanged w (one later key w).1
unfolding unit_of_work
one-again ports later key w objects (new, p, taken) = elim (Result-cases (prepare later key w).0) [
  | inr (e, failed) ↦
      let (result, db_same, sent) = not_prepared later key w e failed in
      (
        inr (e, ground arith, λ v. prepare_fixed later key v w ∙ failed),
        (ground arith, ground arith),
      )
  | inl (new', p') ↦
      let same = same_source_key ports later key w w new new' objects (p w) p' in
      let (result, db_same, sent) =
        skipped later key w new' p' (ap (λ k. has_source_key k w.db.reports) same ∙ taken) in
      (inl (duplicate_outcome key new', ground arith), (ground arith, ground arith))
]

-- How a run over keys that are ingested ends.
abbrev pub EndsAgain : Ports → List String → Result (Unit {0}) → Type 0
EndsAgain later keys r = (r ≡ ok tt) ⊎ ((e : Error) × (r ≡ err e) × Any (Fails later e) keys)

process_again :
    (ports later : Ports) (keys : List String) (w : World)
    → SameObjects ports later
    → All (IsIngested ports w.db) keys
    → EndsAgain later keys (process_keys later keys w).0 × Unchanged w (process_keys later keys w).1
process_again ports later [] w objects h = unfold process_keys in (inl refl, (refl, refl))
process_again ports later (key ∷ keys) w objects h =
    let v : World = (one later key w).1 in
    let (ended, unchanged) = one-again ports later key w objects h.0 in
    elim ended [
      | inr (e, raised, fails) ↦
          rw (process_keys-err later key keys w e raised) (inr (e, refl, inl fails), unchanged)
      | inl (o, e) ↦
          let (rest, same) = process_again ports later keys v objects (
            All-imp (IsIngested ports w.db) (IsIngested ports v.db) keys (λ k i. rw unchanged.0 i)
              h.1) in
          rw (process_keys-ok later key keys w o e) (
            elim rest [ inl done ↦ inl done | inr (x, r, k) ↦ inr (x, r, inr k) ],
            (same.0 ∙ unchanged.0, same.1 ∙ unchanged.1),
          )
    ]

pub parsed :
    (container : Container) (message : SqsMessage) (keys : List String) (w : World)
    → parse_s3_event container.to_str container.json_loads message.body ≡ ok keys
    → process_message container message w ≡ process_keys container.ports keys w
unfolding process_message
parsed container message keys w h = ground arith

-- Delivering a message again is harmless, whatever the services outside answer then. If a message was
-- processed without an exception, processing it again, with the tables as it left them, changes no table
-- and sends no notification. It raises nothing, or it raises what preparing one of the message's objects
-- raises. The later ports are others, of which only the objects, where they can be read, and their
-- validation are the same; within one delivery, each port answers by its arguments.
pub redelivery_harmless :
    (container : Container) (later : Ports) (message : SqsMessage) (w v : World)
    → SameObjects container.ports later
    → (process_message container message w).0 ≡ ok tt
    → v.db ≡ (process_message container message w).1.db
    → let again = process_message (record container { ports = later }) message v in
      (keys : List String) × (parse_s3_event container.to_str container.json_loads message.body
        ≡ ok keys)
      × EndsAgain later keys again.0
      × Unchanged v again.1
redelivery_harmless container later message w v objects h same =
    elim (Result-cases (parse_s3_event container.to_str container.json_loads message.body)) [
      | inr (x, e) ↦ absurd (unfold process_message in ground arith)
      | inl (keys, e) ↦
          let at_w = parsed container message keys w e in
          let at_v = parsed (record container { ports = later }) message keys v e in
          let ingested =
            processed-IsIngested container.ports keys w
              (ap (λ (x : Result (Unit {0}) × World). x.0) (sym at_w) ∙ h) in
          let (ended, unchanged) = process_again container.ports later keys v objects (
            subst (λ (d : Db). All (IsIngested container.ports d) keys)
              (ap (λ (x : Result (Unit {0}) × World). x.1.db) (sym at_w) ∙ sym same) ingested) in
          (keys, e, rw at_v ended, rw at_v unchanged)
    ]
