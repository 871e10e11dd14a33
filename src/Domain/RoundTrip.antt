-- ===== src/Domain/RoundTrip.antt =====
-- The text that a column stores for an enum value names that value again.
use report_insight.Base.{◌≡◌, refl, some}
use report_insight.Domain.{
  Category, cleaning, equipment_failure, claim, category_value, category_of, Urgency, high, medium,
  low, urgency_value, urgency_of, AnalysisStatus, processing, auto_classified, needs_review,
  human_verified, analysis_status_value, analysis_status_of, MonthlyStatus, generating, draft,
  approved, monthly_status_value, monthly_status_of, Role, branch_manager, qa, role_value, role_of,
  AuditAction, approve_monthly, override_analysis, audit_action_value, audit_action_of,
}

pub category_of-category_value : (c : Category) → category_of (category_value c) ≡ some c
unfolding category_of category_value
category_of-category_value cleaning = refl
category_of-category_value equipment_failure = refl
category_of-category_value claim = refl
category_of-category_value Category.other = refl

pub urgency_of-urgency_value : (u : Urgency) → urgency_of (urgency_value u) ≡ some u
unfolding urgency_of urgency_value
urgency_of-urgency_value high = refl
urgency_of-urgency_value medium = refl
urgency_of-urgency_value low = refl

pub analysis_status_of-analysis_status_value :
    (s : AnalysisStatus) → analysis_status_of (analysis_status_value s) ≡ some s
unfolding analysis_status_of analysis_status_value
analysis_status_of-analysis_status_value processing = refl
analysis_status_of-analysis_status_value auto_classified = refl
analysis_status_of-analysis_status_value needs_review = refl
analysis_status_of-analysis_status_value human_verified = refl
analysis_status_of-analysis_status_value AnalysisStatus.failed = refl

pub monthly_status_of-monthly_status_value :
    (s : MonthlyStatus) → monthly_status_of (monthly_status_value s) ≡ some s
unfolding monthly_status_of monthly_status_value
monthly_status_of-monthly_status_value generating = refl
monthly_status_of-monthly_status_value draft = refl
monthly_status_of-monthly_status_value approved = refl
monthly_status_of-monthly_status_value MonthlyStatus.failed = refl

pub role_of-role_value : (r : Role) → role_of (role_value r) ≡ some r
unfolding role_of role_value
role_of-role_value branch_manager = refl
role_of-role_value qa = refl

pub audit_action_of-audit_action_value :
    (a : AuditAction) → audit_action_of (audit_action_value a) ≡ some a
unfolding audit_action_of audit_action_value
audit_action_of-audit_action_value AuditAction.search = refl
audit_action_of-audit_action_value approve_monthly = refl
audit_action_of-audit_action_value override_analysis = refl

-- Every enum value that a table or a response holds as text is read back from that text: no value is
-- lost, and no two have the same text.
pub enum_columns_round_trip :
    (c : Category) (u : Urgency) (s : AnalysisStatus) (m : MonthlyStatus) (r : Role)
    (a : AuditAction)
    → (category_of (category_value c) ≡ some c)
      × (urgency_of (urgency_value u) ≡ some u)
      × (analysis_status_of (analysis_status_value s) ≡ some s)
      × (monthly_status_of (monthly_status_value m) ≡ some m)
      × (role_of (role_value r) ≡ some r)
      × (audit_action_of (audit_action_value a) ≡ some a)
enum_columns_round_trip c u s m r a = (
  category_of-category_value c,
  urgency_of-urgency_value u,
  analysis_status_of-analysis_status_value s,
  monthly_status_of-monthly_status_value m,
  role_of-role_value r,
  audit_action_of-audit_action_value a,
)
