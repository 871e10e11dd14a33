-- ===== src/Db/Mappers.antt =====
-- app/infra/db/mappers.py. Reading an enum column raises `ValueError` at an unknown text.
use report_insight.Base.{Option, none, some, List, [], ◌∷◌}
use report_insight.Domain.{
  category_of, urgency_of, analysis_status_of, monthly_status_of, role_of, User, Property,
  ReportAnalysis, Report, MonthlyReport, value_error, Result, ok, err,
}
use report_insight.Db.Rows.{UserRow, PropertyRow, ReportRow, AnalysisRow, MonthlyRow}

infixl 10 ◌>>=◌
abbrev pub ◌>>=◌ : {A B : Type 0} → Result A → (A → Result B) → Result B
ok a >>= f = f a
err e >>= f = err e

-- `E(text)`: the value, or the exception.
abbrev pub or_value_error : {A : Type 0} → Option A → Result A
or_value_error none = err value_error
or_value_error (some a) = ok a

-- `[f(row) for row in rows]`
unfoldable pub traverse : {A B : Type 0} → (A → Result B) → List A → Result (List B)
traverse f [] = ok []
traverse f (r ∷ rows) = f r >>= λ b. traverse f rows >>= λ bs. ok (b ∷ bs)

unfoldable pub user_to_domain : UserRow → Result User
user_to_domain row = do
  role ← or_value_error (role_of row.role)
  ok (record { id = row.id; email = row.email; role = role; branch_id = row.branch_id })

unfoldable pub property_to_domain : PropertyRow → Property
property_to_domain row = record {
  id = row.id;
  branch_id = row.branch_id;
  name = row.name;
  address = row.address;
}

unfoldable pub analysis_to_domain : AnalysisRow → Result ReportAnalysis
analysis_to_domain row = do
  category ← or_value_error (category_of row.category)
  urgency ← or_value_error (urgency_of row.urgency)
  status ← or_value_error (analysis_status_of row.status)
  ok (record {
    report_id = row.report_id;
    category = category;
    urgency = urgency;
    action_required = row.action_required;
    normalized_summary = row.normalized_summary;
    confidence = row.confidence;
    status = status;
    model_id = row.model_id;
    prompt_version = row.prompt_version;
    input_tokens = row.input_tokens;
    output_tokens = row.output_tokens;
    analyzed_at = some row.analyzed_at;
  })

unfoldable pub monthly_to_domain : MonthlyRow → Result MonthlyReport
monthly_to_domain row = do
  status ← or_value_error (monthly_status_of row.status)
  ok (record {
    id = some row.id;
    property_id = row.property_id;
    month = row.month;
    version = row.version;
    body_markdown = row.body_markdown;
    status = status;
    approved_by = row.approved_by;
    approved_at = row.approved_at;
  })

abbrev related_analysis : Option AnalysisRow → Result (Option ReportAnalysis)
unfolding analysis_to_domain
related_analysis none = ok none
related_analysis (some row) = analysis_to_domain row >>= λ a. ok (some a)

-- The second argument is the row that the relationship `Report.analysis` loads.
unfoldable pub report_to_domain : ReportRow → Option AnalysisRow → Result Report
unfolding analysis_to_domain
report_to_domain row analysis_row = do
  analysis ← related_analysis analysis_row
  ok (record {
    id = some row.id;
    property_id = row.property_id;
    source_key = row.source_key;
    reported_at = row.reported_at;
    reporter_role = row.reporter_role;
    raw_text = row.raw_text;
    photo_meta = row.photo_meta;
    created_at = some row.created_at;
    analysis = analysis;
  })
