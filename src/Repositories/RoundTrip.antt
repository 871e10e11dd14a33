-- ===== src/Repositories/RoundTrip.antt =====
-- A report that `upsert_ingested` writes, and what `report_to_domain` reads from its rows.
use report_insight.Base.{ℕ, ◌≡◌, some, arith}
use report_insight.Domain.{Report, ReportAnalysis, Datetime, Float, ok}
use report_insight.Domain.RoundTrip.{
  category_of-category_value, urgency_of-urgency_value, analysis_status_of-analysis_status_value,
}
use report_insight.Db.{report_to_domain, analysis_to_domain}
use report_insight.Repositories.Report.{new_report, new_analysis}

-- The two rows that are written for a report and its analysis are read back as that report and that
-- analysis, with the id and the times that the database has given, and with the confidence that its
-- column of single precision holds; all else is as it was.
pub written_report_read :
    (real : Float → Float) (id : ℕ) (now : Datetime) (report : Report) (analysis : ReportAnalysis)
    → report_to_domain (new_report id now report) (some (new_analysis real id now analysis))
      ≡ ok (record report {
        id = some id;
        created_at = some now;
        analysis = some (record analysis {
          report_id = id;
          confidence = real analysis.confidence;
          analyzed_at = some now;
        });
      })
unfolding report_to_domain analysis_to_domain
written_report_read real id now report analysis = ground (
  arith,
  category_of-category_value analysis.category,
  urgency_of-urgency_value analysis.urgency,
  analysis_status_of-analysis_status_value analysis.status,
)
