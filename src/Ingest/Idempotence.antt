-- ===== src/Ingest/Idempotence.antt =====
-- Ingesting the same object again.
use report_insight.Base.{
  sym, ◌⊎◌, ℕ, String, ◌≡◌, ◌∙◌, ap, refl, inl, inr, true, false, Option, none, some, List, [], ◌∷◌,
  Text, arith,
}
use report_insight.Domain.{
  Report, ReportAnalysis, Float, Result-cases, ok, err, Error, IngestMessage,
}
use report_insight.Db.{Db, Server, World, Effect}
use text.Mathlib.TextPositions.{eq_refl as str_eq_refl}
use report_insight.Repositories.Report.{upsert_ingested, has_source_key}
use report_insight.Ingest.Prepared.{prepare_sound}
use report_insight.Ingest.Service.{
  Ports, Prepared, IngestOutcome, prepare, classify, ingest_from_key, finish,
}

ok_inj {ℓ} : {A : Type ℓ} (a b : A) → ok a ≡ ok b → a ≡ b
ok_inj a b h = ground arith

-- What is prepared depends on the ports and the key alone.
pub prepare_fixed :
    (ports : Ports) (key : String) (w w' : World)
    → (prepare ports key w).0 ≡ (prepare ports key w').0
unfolding prepare classify
prepare_fixed ports key w w' = ground arith

pub db-prepare : (ports : Ports) (key : String) (w : World) → (prepare ports key w).1.db ≡ w.db
unfolding prepare classify
db-prepare ports key w = ground arith

-- The notifications that were sent, the newest first.
abbrev pub notifications : List Effect → List (Report × ReportAnalysis)
notifications [] = []
notifications (Effect.notify_urgent r a ∷ es) = (r, a) ∷ notifications es
notifications (Effect.classify_report _ ∷ es) = notifications es
notifications (Effect.incr _ ∷ es) = notifications es
notifications (Effect.emit_tokens _ _ ∷ es) = notifications es
notifications (Effect.stream_answer _ _ ∷ es) = notifications es
notifications (Effect.narrate_monthly _ _ ∷ es) = notifications es
notifications (Effect.delete_message _ ∷ es) = notifications es

pub notifications-prepare :
    (ports : Ports) (key : String) (w : World)
    → notifications (prepare ports key w).1.effects ≡ notifications w.effects
unfolding prepare classify
notifications-prepare ports key w = ground arith

-- After a write that did not raise, the key is taken.
upsert-has_source_key :
    (server : Server) (report : Report) (analysis : ReportAnalysis)
    (chunks : List (Text × List Float)) (w : World) (id : Option ℕ)
    → (upsert_ingested server report analysis chunks w).0 ≡ ok id
    → has_source_key report.source_key
        (upsert_ingested server report analysis chunks w).1.db.reports
      ≡ true
unfolding upsert_ingested
upsert-has_source_key server report analysis chunks w id h =
    ground (arith, str_eq_refl report.source_key)

pub db-finish :
    (ports : Ports) (key : String) (report : Report) (analysis : ReportAnalysis) (id : Option ℕ)
    (w : World)
    → (finish ports key report analysis id w).1.db ≡ w.db
unfolding finish
db-finish ports key report analysis none w = refl
db-finish ports key report analysis (some id) w = ground arith

-- A run that returns has prepared its report, and the report's key is then taken.
pub ingested-has_source_key :
    (ports : Ports) (key : String) (w : World) (o : IngestOutcome)
    → (ingest_from_key ports key w).0 ≡ ok o
    → (new : Prepared) × ((prepare ports key w).0 ≡ ok new)
      × (has_source_key new.report.source_key (ingest_from_key ports key w).1.db.reports ≡ true)
unfolding ingest_from_key
ingested-has_source_key ports key w o h = elim (Result-cases (prepare ports key w).0) [
  | inr (e, failed) ↦ absurd (ground arith)
  | inl (new, p) ↦ (new, p, grind (arith, upsert-has_source_key, db-finish))
]

-- The outcome for a key that is taken.
abbrev pub duplicate_outcome : String → Prepared → IngestOutcome
duplicate_outcome key new = record {
  source_key = key;
  report_id = none;
  status = new.analysis.status;
  duplicate = true;
  notified = false;
}

-- What a run does whose key is taken.
pub skipped :
    (ports : Ports) (key : String) (w : World) (new : Prepared)
    → (prepare ports key w).0 ≡ ok new
    → has_source_key new.report.source_key w.db.reports ≡ true
    → ((ingest_from_key ports key w).0 ≡ ok (duplicate_outcome key new))
      × ((ingest_from_key ports key w).1.db ≡ w.db)
      × (notifications (ingest_from_key ports key w).1.effects ≡ notifications w.effects)
unfolding ingest_from_key upsert_ingested finish
skipped ports key w new p taken =
    ground (arith, db-prepare ports key w, notifications-prepare ports key w)

-- An object can be read again at a later time only as it was, and its validation is the same then. The other
-- ports may answer otherwise, or raise.
abbrev pub SameObjects : Ports → Ports → Type 0
SameObjects ports later =
    ((key : String) (raw : List ℕ) → later.get_object key ≡ ok raw → ports.get_object key ≡ ok raw)
    × ((raw : List ℕ) → later.model_validate_json raw ≡ ports.model_validate_json raw)

-- What is prepared at another time has the same key.
pub same_source_key :
    (ports later : Ports) (key : String) (w v : World) (new new' : Prepared)
    → SameObjects ports later
    → (prepare ports key w).0 ≡ ok new
    → (prepare later key v).0 ≡ ok new'
    → new'.report.source_key ≡ new.report.source_key
same_source_key ports later key w v new new' (read, valid) h h' =
    let a = prepare_sound ports key w new h in
    let b = prepare_sound later key v new' h' in
    let raw : b.0 ≡ a.0 = ok_inj b.0 a.0 (sym (read key b.0 b.5) ∙ a.5) in
    let message : b.1 ≡ a.1 =
      ok_inj b.1 a.1 (sym b.6 ∙ valid b.0 ∙ ap ports.model_validate_json raw ∙ a.6) in
    ap (λ (r : Report). r.source_key) b.10
    ∙ ap (λ (m : IngestMessage). m.source_key) message
    ∙ sym (ap (λ (r : Report). r.source_key) a.10)

-- A run that cannot prepare its report raises, and changes no table and sends no notification.
pub not_prepared :
    (ports : Ports) (key : String) (w : World) (e : Error)
    → (prepare ports key w).0 ≡ err e
    → ((ingest_from_key ports key w).0 ≡ err e)
      × ((ingest_from_key ports key w).1.db ≡ w.db)
      × (notifications (ingest_from_key ports key w).1.effects ≡ notifications w.effects)
unfolding ingest_from_key
not_prepared ports key w e h =
    ground (arith, db-prepare ports key w, notifications-prepare ports key w)

-- Ingestion is idempotent, whatever the services outside answer later: once an object has been ingested
-- without an exception, a further run for it, in any later world that still has the tables, changes no
-- table and sends no notification. It returns a duplicate, or its report cannot be prepared again and it
-- raises what that raised. The later ports are others, of which only the object, where it can be read, and
-- its validation are the same.
pub ingest_idempotent :
    (ports later : Ports) (key : String) (w v : World) (o : IngestOutcome)
    → SameObjects ports later
    → (ingest_from_key ports key w).0 ≡ ok o
    → v.db ≡ (ingest_from_key ports key w).1.db
    → (((again : IngestOutcome) × ((ingest_from_key later key v).0 ≡ ok again)
          × (again.duplicate ≡ true)
          × (again.notified ≡ false))
        ⊎ ((e : Error) × ((prepare later key v).0 ≡ err e)
            × ((ingest_from_key later key v).0 ≡ err e)))
      × ((ingest_from_key later key v).1.db ≡ v.db)
      × (notifications (ingest_from_key later key v).1.effects ≡ notifications v.effects)
ingest_idempotent ports later key w v o objects h same =
    let (new, p, taken) = ingested-has_source_key ports key w o h in
    elim (Result-cases (prepare later key v).0) [
      | inr (e, failed) ↦
          let (result, db_same, sent) = not_prepared later key v e failed in
          (inr (e, failed, result), db_same, sent)
      | inl (new', p') ↦
          let (result, db_same, sent) = skipped later key v new' p' (
            ap (λ k. has_source_key k v.db.reports)
              (same_source_key ports later key w v new new' objects p p')
            ∙ ap (λ (d : Db). has_source_key new.report.source_key d.reports) same
            ∙ taken) in
          (inl (duplicate_outcome key new', result, refl, refl), db_same, sent)
    ]
