-- ===== src/Admin/Out.antt =====
-- The responses of app/api/schemas.py for reports, and `_to_list_out` of app/api/routers/reports.py.
use report_insight.Base.{
  ℕ, String, Bool, false, Option, none, some, List, [], ◌∷◌, Text, ℤ, pos, negsuc, length, ◌==◌,
  if◌then◌else◌,
}
use report_insight.Domain.{
  Report, ReportAnalysis, Datetime, Float, category_value, urgency_value, analysis_status_value,
  value_error, index_error, Result, ok, err,
}

pub record ReportAnalysisOut : Type 0 where
  pub category : String
  pub urgency : String
  pub action_required : Bool
  pub normalized_summary : Text
  pub confidence : Float
  pub status : String

pub record ReportOut : Type 0 where
  pub id : ℕ
  pub property_id : ℕ
  pub reported_at : Datetime
  pub reporter_role : String
  pub raw_text : Text
  pub analysis : Option ReportAnalysisOut

abbrev pub analysis_out : Option ReportAnalysis → Option ReportAnalysisOut
analysis_out none = none
analysis_out (some a) = some (record {
  category = category_value a.category;
  urgency = urgency_value a.urgency;
  action_required = a.action_required;
  normalized_summary = a.normalized_summary;
  confidence = a.confidence;
  status = analysis_status_value a.status;
})

abbrev with_id : Report → Option ℕ → Result ReportOut
with_id report none = err value_error
with_id report (some id) = ok (record {
  id = id;
  property_id = report.property_id;
  reported_at = report.reported_at;
  reporter_role = report.reporter_role;
  raw_text = report.raw_text;
  analysis = analysis_out report.analysis;
})

-- `ReportOut.from_domain`
unfoldable pub from_domain : Report → Result ReportOut
from_domain report = with_id report report.id

pub record ReportListOut : Type 0 where
  pub items : List ReportOut
  pub next_cursor : Option ℕ

-- `reports[-1].id`
unfoldable pub last_id : List ReportOut → Result ℕ
last_id [] = err index_error
last_id (r ∷ []) = ok r.id
last_id (r ∷ s ∷ rs) = last_id (s ∷ rs)

-- `len(reports) == limit`, where the limit is the one of the request.
abbrev pub is_full : List ReportOut → ℤ → Bool
is_full reports (pos n) = length reports == n
is_full reports (negsuc _) = false

unfoldable pub to_list_out : List ReportOut → ℤ → Result ReportListOut
unfolding last_id
to_list_out reports limit =
    if is_full reports limit
    then elim (last_id reports) [
      | err e ↦ err e
      | ok id ↦ ok (record { items = reports; next_cursor = some id })
    ]
    else ok (record { items = reports; next_cursor = none })
