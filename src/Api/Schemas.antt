-- ===== src/Api/Schemas.antt =====
-- The schemas of app/api/schemas.py, but for those of reports.
use report_insight.Base.{ℕ, String, Option, none, some, Text}
use report_insight.Domain.{
  Category, Datetime, Date, SearchFilters, Property, MonthlyReport, monthly_status_value,
  value_error, Result, ok, err,
}

-- The source's field `from_` is `since`.
pub record SearchFiltersIn : Type 0 where
  pub property_id : Option ℕ
  pub category : Option Category
  pub since : Option Datetime
  pub to : Option Datetime

unfoldable pub to_domain : SearchFiltersIn → SearchFilters
to_domain f = record {
  property_id = f.property_id;
  category = f.category;
  since = f.since;
  to = f.to;
}

pub record PropertyOut : Type 0 where
  pub id : ℕ
  pub branch_id : ℕ
  pub name : Text
  pub address : Option Text

unfoldable pub property_out : Property → PropertyOut
property_out prop = record {
  id = prop.id;
  branch_id = prop.branch_id;
  name = prop.name;
  address = prop.address;
}

pub record MonthlyReportOut : Type 0 where
  pub id : ℕ
  pub property_id : ℕ
  pub month : Date
  pub version : ℕ
  pub status : String
  pub body_markdown : Text
  pub approved_by : Option ℕ
  pub approved_at : Option Datetime

abbrev monthly_with_id : MonthlyReport → Option ℕ → Result MonthlyReportOut
monthly_with_id report none = err value_error
monthly_with_id report (some id) = ok (record {
  id = id;
  property_id = report.property_id;
  month = report.month;
  version = report.version;
  status = monthly_status_value report.status;
  body_markdown = report.body_markdown;
  approved_by = report.approved_by;
  approved_at = report.approved_at;
})

-- `MonthlyReportOut.from_domain`
unfoldable pub monthly_out : MonthlyReport → Result MonthlyReportOut
monthly_out report = monthly_with_id report report.id
