-- ===== src/Monthly/Generation.antt =====
-- The generation of a monthly report, alone and as the background task that has its own unit of work.
use report_insight.Base.{ℕ, ◌≡◌, some, arith, Text}
use report_insight.Domain.{
  MonthlyReport, MonthlyStatus, draft, monthly_status_of, MonthlyStats, MonthlyNarration, Error,
  Result, ok, err,
}
use report_insight.Domain.RoundTrip.{monthly_status_of-monthly_status_value}
use report_insight.Db.{World, MonthlyRow, monthly_to_domain}
use report_insight.Db.Table.{find_by-update_by}
use report_insight.Repositories.Monthly as Repo
use report_insight.Repositories.Monthly.{monthly_id, with_body, get_internal}
use report_insight.Repositories.Stats.{compute_stats}
use report_insight.Monthly.Render.{render_monthly_markdown}
use report_insight.Monthly.Service.{generate, run_generation}
use report_insight.Monthly.Jobs.{Setup, background}
use report_insight.Monthly.Frame.{row_of, world-compute_stats, world-property_name}

-- If the row exists, the statistics and the property's name can be read and the language model
-- answers, the task ends with the row a draft whose body is rendered from exactly those; the other
-- fields of the row are unchanged.
pub background_drafts :
    (setup : Setup) (k : ℕ) (w : World) (r : MonthlyRow) (s : MonthlyStatus) (stats : MonthlyStats)
    (name : Text) (narration : MonthlyNarration)
    → row_of k w ≡ some r
    → monthly_status_of r.status ≡ some s
    → (compute_stats r.property_id r.month w).0 ≡ ok stats
    → (Repo.property_name r.property_id w).0 ≡ ok name
    → setup.narrate name stats ≡ ok narration
    → row_of k (background setup k w)
      ≡ some (with_body (render_monthly_markdown name stats narration) draft r)
unfolding background run_generation generate get_internal monthly_to_domain Repo.set_body
background_drafts setup k w r s stats name narration found decoded counted named narrated = ground (
  arith,
  world-compute_stats r.property_id r.month w,
  world-property_name r.property_id w,
  monthly_status_of-monthly_status_value draft,
  find_by-update_by monthly_id k k (with_body (render_monthly_markdown name stats narration) draft)
      w.db.monthly_reports,
)

-- A write of the body that raises has found no row.
db-set_body_failed :
    (k : ℕ) (body : Text) (s : MonthlyStatus) (w : World) (e : Error)
    → (Repo.set_body k body s w).0 ≡ err e
    → (Repo.set_body k body s w).1.db ≡ w.db
unfolding Repo.set_body with_body monthly_to_domain
db-set_body_failed k body s w e h = ground (arith, monthly_status_of-monthly_status_value s)

db-generate_failed :
    (narrate : Text → MonthlyStats → Result MonthlyNarration) (k : ℕ) (report : MonthlyReport)
    (w : World) (e : Error)
    → (generate narrate k report w).0 ≡ err e
    → (generate narrate k report w).1.db ≡ w.db
unfolding generate
db-generate_failed narrate k report w e h =
    grind (arith, db-set_body_failed, world-compute_stats, world-property_name)

-- When the generation of an existing report raises, `run_generation` marks the report as failed,
-- keeps its body and raises again; and then the task's unit of work rolls back, so that every table
-- is as it was before the task: the mark is lost.
pub background_failure_lost :
    (setup : Setup) (k : ℕ) (w : World) (r : MonthlyRow) (report : MonthlyReport) (e : Error)
    → row_of k w ≡ some r
    → monthly_to_domain r ≡ ok report
    → (generate setup.narrate k report w).0 ≡ err e
    → ((run_generation setup.narrate k w).0 ≡ err e)
      × (row_of k (run_generation setup.narrate k w).1
          ≡ some (with_body report.body_markdown MonthlyStatus.failed r))
      × ((background setup k w).db ≡ w.db)
unfolding background run_generation get_internal Repo.set_body
background_failure_lost setup k w r report e found decoded failed = ground (
  arith,
  db-generate_failed setup.narrate k report w e,
  monthly_status_of-monthly_status_value MonthlyStatus.failed,
  find_by-update_by monthly_id k k (with_body report.body_markdown MonthlyStatus.failed)
      w.db.monthly_reports,
)
