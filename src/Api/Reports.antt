-- ===== src/Api/Reports.antt =====
-- The handlers of app/api/routers/reports.py, for the user that `get_current_user` gives. A session that only
-- reads is closed without a commit.
use report_insight.Base.{ℕ, Bool, Option, List, map, ℤ}
use report_insight.Domain.{
  User, ReportListFilters, Category, Urgency, ReportAnalysis, category_value, urgency_value,
  analysis_status_value,
}
use report_insight.Db.{Server, Exec, pure, lift, unit_of_work, traverse, ◌>>=◌}
use report_insight.Admin.Service
use report_insight.Admin.Out.{ReportAnalysisOut, ReportOut, ReportListOut, from_domain, to_list_out}
use report_insight.Api.Schemas.{PropertyOut, property_out}
pub mod Within
pub mod Authorised
pub mod Truncated

unfoldable pub review_queue : User → Option ℕ → ℤ → Exec ReportListOut
unfolding traverse from_domain to_list_out
review_queue user cursor limit = do
  reports ← Service.review_queue user cursor limit
  items ← lift (traverse from_domain reports)
  lift (to_list_out items limit)

unfoldable pub list_reports : User → ReportListFilters → Option ℕ → ℤ → Exec ReportListOut
unfolding traverse from_domain to_list_out
list_reports user filters cursor limit = do
  reports ← Service.list_reports user filters cursor limit
  items ← lift (traverse from_domain reports)
  lift (to_list_out items limit)

unfoldable pub get_report : User → ℕ → Exec ReportOut
unfolding from_domain
get_report user report_id = do report ← Service.get_report user report_id; lift (from_domain report)

abbrev analysis_response : ReportAnalysis → ReportAnalysisOut
analysis_response analysis = record {
  category = category_value analysis.category;
  urgency = urgency_value analysis.urgency;
  action_required = analysis.action_required;
  normalized_summary = analysis.normalized_summary;
  confidence = analysis.confidence;
  status = analysis_status_value analysis.status;
}

unfoldable pub override_analysis :
    Server → User → ℕ → Category → Urgency → Bool → Exec ReportAnalysisOut
unfolding unit_of_work
override_analysis server user report_id category urgency action_required = do
  analysis ←
      unit_of_work
        (Service.override_analysis server user report_id category urgency action_required)
  pure (analysis_response analysis)

unfoldable pub list_properties : User → Exec (List PropertyOut)
unfolding property_out
list_properties user = do props ← Service.list_properties user; pure (map property_out props)

pub data Request : Type 0 where
  queue : Option ℕ → ℤ → Request
  reports : ReportListFilters → Option ℕ → ℤ → Request
  report : ℕ → Request
  analysis : ℕ → Category → Urgency → Bool → Request
  properties : Request

pub data Response : Type 0 where
  page : ReportListOut → Response
  one : ReportOut → Response
  overridden : ReportAnalysisOut → Response
  choices : List PropertyOut → Response

-- The routes of the module.
unfoldable pub serve : Server → User → Request → Exec Response
unfolding review_queue list_reports get_report override_analysis list_properties
serve server user (queue cursor limit) = do out ← review_queue user cursor limit; pure (page out)
serve server user (reports filters cursor limit) = do
  out ← list_reports user filters cursor limit
  pure (page out)
serve server user (report report_id) = do out ← get_report user report_id; pure (one out)
serve server user (analysis report_id category urgency action_required) = do
  out ← override_analysis server user report_id category urgency action_required
  pure (overridden out)
serve server user properties = do out ← list_properties user; pure (choices out)
