-- ===== src/Api/Views/Editable.antt =====
-- What the pages promise of the next request.
use report_insight.Base.{
  ℕ, ℤ, Text, ◌≡◌, ◌↔◌, true, false, ◌&&◌, not, Option-cases, inl, inr, arith,
}
use report_insight.Domain.{User, is_qa, MonthlyReport, draft, Result-cases, ok}
use report_insight.Domain.RoundTrip.{monthly_status_of-monthly_status_value}
use report_insight.Db.{World, monthly_to_domain}
use report_insight.Repositories.User
use report_insight.Repositories.User.{permitted_property_ids}
use report_insight.Repositories.Monthly as Repo
use report_insight.Repositories.Monthly.{get_internal, with_body}
use report_insight.Monthly.Service
use report_insight.Monthly.Service.{save_draft, deny_qa_writes, is_draft}
use report_insight.Monthly.Frame.{row_of}
use report_insight.Admin.Service as AdminService
use report_insight.Api.UiShared.{all_users}
use report_insight.Api.MonthlyPages.{world-resolve_user}
use report_insight.Api.Views.{common, MonthlyDetail, monthly_detail}

-- The report that a save gives.
abbrev saved : Text → MonthlyReport → MonthlyReport
saved body report = record report { body_markdown = body; status = draft }

-- Where a user reads a report, saving succeeds exactly if it is a draft and the user may write.
save_draft-ok :
    (user : User) (k : ℕ) (body : Text) (w : World) (report : MonthlyReport)
    → (Service.get user k w).0 ≡ ok report
    → is_draft report.status ≡ true
    → is_qa user ≡ false
    → (save_draft user k body w).0 ≡ ok (saved body report)
unfolding Service.get save_draft deny_qa_writes Repo.get get_internal Repo.set_body with_body
    monthly_to_domain
save_draft-ok user k body w report h open_draft manager = elim (Option-cases (row_of k w)) [
  | inl missing ↦ absurd (ground arith)
  | inr (r, found) ↦ ground (arith, monthly_status_of-monthly_status_value draft)
]

save_draft-needs :
    (user : User) (k : ℕ) (body : Text) (w : World) (report m : MonthlyReport)
    → (Service.get user k w).0 ≡ ok report
    → (save_draft user k body w).0 ≡ ok m
    → (is_draft report.status ≡ true) × (is_qa user ≡ false)
unfolding Service.get save_draft deny_qa_writes Repo.get get_internal
save_draft-needs user k body w report m h done = (ground arith, ground arith)

world-common : (uid : ℤ) (w : World) → (common uid w).1 ≡ w
unfolding common AdminService.list_properties User.list_properties all_users User.list_all
world-common uid w = ground (arith, world-resolve_user uid w)

-- What a page of a report has read.
detail_read :
    (uid : ℤ) (k : ℕ) (w : World) (page : MonthlyDetail)
    → (monthly_detail uid k w).0 ≡ ok page
    → ((Service.get page.common.user k w).0 ≡ ok page.report)
      × (page.editable ≡ is_draft page.report.status && not (is_qa page.common.user))
unfolding monthly_detail
detail_read uid k w page h = elim (Result-cases (common uid w).0) [
  | inr (x, e) ↦ absurd (ground arith)
  | inl (ctx, e) ↦ elim (Result-cases (Service.get ctx.user k w).0) [
    | inr (x, f) ↦ absurd (ground (arith, world-common uid w))
    | inl (report, f) ↦ (ground (arith, world-common uid w), ground (arith, world-common uid w))
  ]
]

-- The page of a report says that it can be edited exactly if its user's save of any text would succeed
-- now.
pub editable_iff :
    (uid : ℤ) (k : ℕ) (body : Text) (w : World) (page : MonthlyDetail)
    → (monthly_detail uid k w).0 ≡ ok page
    → (page.editable ≡ true)
      ↔ ((m : MonthlyReport) × ((save_draft page.common.user k body w).0 ≡ ok m))
unfolding monthly_detail
editable_iff uid k body w page h =
    let read = detail_read uid k w page h in
    (
      λ editable. (
        saved body page.report,
        save_draft-ok page.common.user k body w page.report read.0 (ground arith) (ground arith),
      ),
      λ (m, done).
          let needs = save_draft-needs page.common.user k body w page.report m read.0 done in
          ground arith,
    )
