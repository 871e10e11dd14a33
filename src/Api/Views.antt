-- ===== src/Api/Views.antt =====
-- What the pages of app/api/routers/monthly_ui.py show, but for the tables of labels and values that every
-- page gets, and the answer of `get_monthly_report` of app/api/routers/monthly.py.
use report_insight.Base.{ℕ, Bool, not, ◌&&◌, List, map, Text, Option, ℤ}
use report_insight.Domain.{
  Date, User, is_qa, Property, Report, MonthlyReport, MonthlyStatus, generating, draft, approved,
}
use report_insight.Db.{Exec, pure, lift, ◌>>=◌}
use report_insight.Monthly.Service
use report_insight.Monthly.Service.{is_draft}
use report_insight.Admin.Service as AdminService
use report_insight.Api.UiShared.{resolve_user, all_users}
use report_insight.Api.Schemas.{MonthlyReportOut, monthly_out}
use report_insight.Api.MonthlyUi.{month_options}
use report_insight.Api.AdminUi.{property_names}
pub mod Editable

-- `_common`
pub record Common : Type 0 where
  pub user : User
  pub users : List User
  pub properties : List Property
  pub property_names : List (ℕ × Text)

unfoldable pub common : ℤ → Exec Common
unfolding resolve_user all_users
common uid = do
  user ← resolve_user uid
  props ← AdminService.list_properties user
  users ← all_users
  pure (record {
    user = user;
    users = users;
    properties = props;
    property_names = property_names props;
  })

pub record MonthlyHome : Type 0 where
  pub common : Common
  pub reports : List MonthlyReport
  pub months : List Date

abbrev pub list_limit : ℕ
list_limit = 50

-- `monthly_home`, on this day
unfoldable pub monthly_home : Date → ℤ → Exec MonthlyHome
unfolding common month_options
monthly_home today uid = do
  ctx ← common uid
  reports ← Service.list_for_user ctx.user list_limit
  pure (record { common = ctx; reports = reports; months = month_options today })

pub record MonthlyDetail : Type 0 where
  pub common : Common
  pub report : MonthlyReport
  pub editable : Bool

-- `monthly_detail`
unfoldable pub monthly_detail : ℤ → ℕ → Exec MonthlyDetail
unfolding common
monthly_detail uid monthly_id = do
  ctx ← common uid
  report ← Service.get ctx.user monthly_id
  pure (record {
    common = ctx;
    report = report;
    editable = is_draft report.status && not (is_qa ctx.user);
  })

-- `report.status is MonthlyStatus.GENERATING`
abbrev pub status_code : MonthlyStatus → ℕ
status_code generating = 202
status_code draft = 200
status_code approved = 200
status_code MonthlyStatus.failed = 200

-- `get_monthly_report`: the status of the response, and its content
unfoldable pub get_monthly_report : User → ℕ → Exec (ℕ × MonthlyReportOut)
unfolding monthly_out
get_monthly_report user monthly_id = do
  report ← Service.get user monthly_id
  content ← lift (monthly_out report)
  pure (status_code report.status, content)
