-- ===== src/Admin/Service.antt =====
-- `AdminService` and `_clamp` of app/services/admin.py.
use report_insight.Base.{ℕ, Bool, Option, List, ℤ, pos, negsuc, min, ltb, if◌then◌else◌}
use report_insight.Domain.{
  User, Property, Report, ReportAnalysis, ReportListFilters, Category, Urgency, category_value,
  urgency_value, audit_action_value, override_analysis as override_action, Fields, field, end, num,
  str, bool,
}
use report_insight.Db.{Server, Exec, gets, pure, ◌>>=◌, ◌>>◌}
use report_insight.Repositories.User
use report_insight.Repositories.User.{permitted_property_ids}
use report_insight.Repositories.Report
use report_insight.Repositories.Audit.{record_action}

abbrev pub default_page_size : ℕ
default_page_size = 20

abbrev pub max_page_size : ℕ
max_page_size = 100

unfoldable pub clamp : ℤ → ℕ
clamp (negsuc _) = default_page_size
clamp (pos n) = if ltb n 1 then default_page_size else min n max_page_size

unfoldable pub list_reports : User → ReportListFilters → Option ℕ → ℤ → Exec (List Report)
unfolding clamp
list_reports user filters cursor limit = do
  permitted ← gets (permitted_property_ids user)
  Report.list_reports filters permitted cursor (clamp limit)

unfoldable pub review_queue : User → Option ℕ → ℤ → Exec (List Report)
unfolding clamp
review_queue user cursor limit = do
  permitted ← gets (permitted_property_ids user)
  Report.review_queue permitted cursor (clamp limit)

unfoldable pub get_report : User → ℕ → Exec Report
get_report user report_id = do
  permitted ← gets (permitted_property_ids user)
  Report.get report_id permitted

abbrev pub override_payload : ℕ → Category → Urgency → Bool → Fields
override_payload report_id category urgency action_required = field "report_id" (num report_id) (
    field "category" (str (category_value category)) (
      field "urgency" (str (urgency_value urgency))
        (field "action_required" (bool action_required) end)))

unfoldable pub override_analysis :
    Server → User → ℕ → Category → Urgency → Bool → Exec ReportAnalysis
override_analysis server user report_id category urgency action_required = do
  permitted ← gets (permitted_property_ids user)
  analysis ← Report.update_analysis report_id category urgency action_required permitted
  record_action server user.id (audit_action_value override_action)
      (override_payload report_id category urgency action_required)
  pure analysis

unfoldable pub list_properties : User → Exec (List Property)
list_properties user = User.list_properties user
