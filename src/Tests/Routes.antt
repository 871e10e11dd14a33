-- ===== src/Tests/Routes.antt =====
-- The routes for reports and the page of a monthly report at concrete inputs.
use report_insight.Base.{◌≡◌, ◌↔◌, refl, true, none, [], ◌∷◌, pos}
use report_insight.Domain.{
  MonthlyReport, Property, ok, category_of, urgency_of, analysis_status_of, monthly_status_of,
}
use report_insight.Repositories.Report as Repo
use report_insight.Repositories.Monthly as MonthlyRepo
use report_insight.Repositories.User.{permitted_property_ids}
use report_insight.Admin.Service
use report_insight.Monthly.Service as MonthlyService
use report_insight.Monthly.Service.{save_draft}
use report_insight.Api.Reports.{Request, Response, serve}
use report_insight.Api.Reports.Authorised.{serve-IsAuthorised, IsAuthorised}
use report_insight.Api.Views.{MonthlyDetail, monthly_detail}
use report_insight.Api.Views.Editable.{editable_iff}
use report_insight.Tests.{world, server, manager}
use report_insight.Tests.Admin.{any_report, shown_report}
use report_insight.Tests.Monthly.{draft_report}

abbrev request : Request
request = Request.reports any_report none (pos 20)

abbrev response : Response
response =
    Response.page (record { items = shown_report 5 ∷ shown_report 3 ∷ []; next_cursor = none })

answers : (serve server manager request world).0 ≡ ok response
unfolding serve Service.list_reports Repo.list_reports permitted_property_ids category_of urgency_of
    analysis_status_of
answers = refl

serve-IsAuthorised_example : IsAuthorised manager world request response
serve-IsAuthorised_example = serve-IsAuthorised server manager request world response answers

abbrev own : Property
own = record { id = 1; branch_id = 1; name = 80 ∷ []; address = none }

abbrev detail : MonthlyDetail
detail = record {
  common = record {
    user = manager;
    users = manager ∷ [];
    properties = own ∷ [];
    property_names = (1, 80 ∷ []) ∷ [];
  };
  report = draft_report;
  editable = true;
}

shows_detail : (monthly_detail (pos 1) 1 world).0 ≡ ok detail
unfolding monthly_detail Service.list_properties permitted_property_ids MonthlyService.get
    MonthlyRepo.get monthly_status_of report_insight.Repositories.User.get
    report_insight.Repositories.User.list_properties report_insight.Domain.role_of
shows_detail = refl

editable_iff_example :
    (detail.editable ≡ true)
    ↔ ((m : MonthlyReport) × ((save_draft manager 1 (120 ∷ []) world).0 ≡ ok m))
editable_iff_example = editable_iff (pos 1) 1 (120 ∷ []) world detail shows_detail
