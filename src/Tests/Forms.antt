-- ===== src/Tests/Forms.antt =====
-- The pages' forms at concrete inputs.
use report_insight.Base.{ℕ, ◌≡◌, ◌⊎◌, refl, none, some, List, [], ◌∷◌, Text, Any}
use report_insight.Domain.{
  MonthlyReport, Error, Result, ok, err, draft, approved, monthly_status_of,
}
use report_insight.Db.{MonthlyRow, monthly_to_domain}
use report_insight.Repositories.Access.{Visible}
use report_insight.Repositories.User.{permitted_property_ids}
use report_insight.Repositories.Report.{listed, select_page}
use report_insight.Repositories.Monthly as MonthlyRepo
use report_insight.Monthly.Service
use report_insight.Monthly.Frame.{row_of}
use report_insight.Monthly.Jobs.{save_and_approve}
use report_insight.Admin.Pages.{matching}
use report_insight.Api.MonthlyUi.{pdf_of, pdf_title}
use report_insight.Api.MonthlyForms.{FormApproved, save_and_approve_atomic}
use report_insight.Api.MonthlyPages.{pdf_of_sound}
use report_insight.Api.AdminWalk.{follow, follow-all, asked}
use report_insight.Api.UiShared.{resolve_user}
use report_insight.Base.{false, map, All, pos, ◌<◌, length, arith}
use report_insight.Domain.{Report, category_of, urgency_of, analysis_status_of}
use report_insight.Db.Table.{find_by}
use report_insight.Db.{ReportRow, report_to_domain}
use report_insight.Repositories.Report.{load}
use report_insight.Tests.{world, server, manager}
use report_insight.Tests.Admin.{any_report, distinct, listed_report}

save_and_approve_atomic_example :
    ((m : MonthlyReport) × ((save_and_approve server manager 1 (120 ∷ []) world).0 ≡ ok m)
      × FormApproved manager 1
          (120 ∷ [])
          world
          (save_and_approve server manager 1 (120 ∷ []) world).1
          m)
    ⊎ ((e : Error) × ((save_and_approve server manager 1 (120 ∷ []) world).0 ≡ err e)
        × ((save_and_approve server manager 1 (120 ∷ []) world).1.db ≡ world.db))
save_and_approve_atomic_example = save_and_approve_atomic server manager 1 (120 ∷ []) world

-- A renderer that gives one byte.
abbrev one_byte : Text → Text → Result (List ℕ)
one_byte title body = ok (37 ∷ [])

prints : (pdf_of one_byte manager 1 world).0 ≡ ok (37 ∷ [])
unfolding pdf_of Service.get permitted_property_ids MonthlyRepo.get monthly_status_of
prints = refl

pdf_of_sound_example :
    (r : MonthlyRow) × (m : MonthlyReport) × (row_of 1 world ≡ some r)
    × (monthly_to_domain r ≡ ok m)
    × Any (Visible manager r.property_id) world.db.properties
    × ((m.status ≡ draft) ⊎ (m.status ≡ approved))
    × (one_byte (pdf_title m) r.body_markdown ≡ ok (37 ∷ []))
    × ((pdf_of one_byte manager 1 world).1 ≡ world)
pdf_of_sound_example = pdf_of_sound one_byte manager 1 world (37 ∷ []) prints

abbrev read : ReportRow → Report
read r = record (listed_report r.id) { property_id = r.property_id; source_key = r.source_key }

reads : All (λ (r : ReportRow). load world.db r ≡ ok (read r)) world.db.reports
unfolding report_to_domain category_of urgency_of analysis_status_of find_by
reads = (refl, (refl, (refl, tt)))

known : (resolve_user (pos 1) world).0 ≡ ok manager
unfolding resolve_user report_insight.Repositories.User.get report_insight.Domain.role_of
known = refl

few :
    length (matching (asked false any_report (permitted_property_ids manager world) none) world.db)
    < 5
unfolding listed select_page permitted_property_ids
few = ground arith

follow-all_example :
    follow 5 (pos 1) false any_report none world
    ≡ ok (
        map read
          (matching (asked false any_report (permitted_property_ids manager world) none) world.db))
follow-all_example =
    follow-all (pos 1) manager false any_report world read 5 known distinct reads few
