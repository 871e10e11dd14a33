-- ===== src/Ingest/Stored.antt =====
-- What an ingestion that stores a new report writes and sends.
use report_insight.Base.{
  ℕ, String, ◌≡◌, ◌++◌, inl, inr, false, some, List, [], ◌∷◌, arith, if◌then◌else◌,
}
use report_insight.Domain.{Report, ReportAnalysis, Result-cases, ok}
use report_insight.Db.{World}
use report_insight.Db.Table.{find_by}
use report_insight.Repositories.Report.{
  upsert_ingested, insert_ingested, report_key, analysis_key, new_report, new_analysis, new_chunks,
}
use report_insight.Ingest.Service.{
  Ports, Prepared, IngestOutcome, prepare, ingest_from_key, finish, is_high,
}
use report_insight.Ingest.Idempotence.{notifications, notifications-prepare, db-prepare}

-- The notifications of a stored report: one, with its id, if it is urgent.
abbrev pub urgent_notification : ℕ → Prepared → List (Report × ReportAnalysis)
urgent_notification id new =
    if is_high new.analysis.urgency
    then (record new.report { id = some id }, record new.analysis { report_id = id }) ∷ []
    else []

-- An ingestion that returns a report id has stored the prepared report, its analysis and its chunks
-- under that id, and has sent one notification with that id if the urgency is high, and none
-- otherwise; the outcome says which.
pub ingest_stores :
    (ports : Ports) (key : String) (w : World) (o : IngestOutcome) (id : ℕ)
    → (ingest_from_key ports key w).0 ≡ ok o
    → o.report_id ≡ some id
    → (new : Prepared) × (t : ℕ) × ((prepare ports key w).0 ≡ ok new)
      × (find_by report_key id (ingest_from_key ports key w).1.db.reports
          ≡ some (new_report id t new.report))
      × (find_by analysis_key id (ingest_from_key ports key w).1.db.analyses
          ≡ some (new_analysis ports.server.real id t new.analysis))
      × ((ingest_from_key ports key w).1.db.chunks ≡ new_chunks id 0 new.chunks ++ w.db.chunks)
      × (notifications (ingest_from_key ports key w).1.effects
          ≡ urgent_notification id new ++ notifications w.effects)
      × (o.duplicate ≡ false)
      × (o.notified ≡ is_high new.analysis.urgency)
unfolding ingest_from_key upsert_ingested insert_ingested finish find_by
ingest_stores ports key w o id h named = elim (Result-cases (prepare ports key w).0) [
  | inr (e, failed) ↦ absurd (ground arith)
  | inl (new, p) ↦
      let w1 = (prepare ports key w).1 in
      (
        new,
        ports.server.now w1,
        p,
        ground (arith, db-prepare ports key w),
        ground (arith, db-prepare ports key w),
        ground (arith, db-prepare ports key w),
        ground (arith, notifications-prepare ports key w),
        ground arith,
        ground arith,
      )
]
