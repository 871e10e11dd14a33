-- ===== src/Domain/Values.antt =====
-- app/domain/values.py: the `StrEnum` types with their text values, and the constants.
use report_insight.Base.{ℕ, String, Option, none, some, List, [], ◌∷◌, str_eq, if◌then◌else◌}

pub data Category : Type 0 where
  cleaning equipment_failure claim other : Category

pub data Urgency : Type 0 where
  high medium low : Urgency

pub data AnalysisStatus : Type 0 where
  processing auto_classified needs_review human_verified failed : AnalysisStatus

pub data MonthlyStatus : Type 0 where
  generating draft approved failed : MonthlyStatus

pub data Role : Type 0 where
  branch_manager qa : Role

pub data AuditAction : Type 0 where
  search approve_monthly override_analysis : AuditAction

-- `E(text)` on a `StrEnum` class: the first member, in definition order, that has this value. `none`
-- stands for the `ValueError`.
unfoldable pub enum_of : {A : Type 0} → (A → String) → List A → String → Option A
enum_of value [] text = none
enum_of value (a ∷ members) text =
    if str_eq (value a) text then some a else enum_of value members text

unfoldable pub category_value : Category → String
category_value cleaning = "cleaning"
category_value equipment_failure = "equipment_failure"
category_value claim = "claim"
category_value other = "other"

-- `for category in Category`
abbrev pub categories : List Category
categories = cleaning ∷ equipment_failure ∷ claim ∷ other ∷ []

unfoldable pub category_of : String → Option Category
unfolding enum_of category_value
category_of = enum_of category_value categories

unfoldable pub urgency_value : Urgency → String
urgency_value high = "high"
urgency_value medium = "medium"
urgency_value low = "low"

abbrev pub urgencies : List Urgency
urgencies = high ∷ medium ∷ low ∷ []

unfoldable pub urgency_of : String → Option Urgency
unfolding enum_of urgency_value
urgency_of = enum_of urgency_value urgencies

unfoldable pub analysis_status_value : AnalysisStatus → String
analysis_status_value processing = "processing"
analysis_status_value auto_classified = "auto_classified"
analysis_status_value needs_review = "needs_review"
analysis_status_value human_verified = "human_verified"
analysis_status_value AnalysisStatus.failed = "failed"

abbrev pub analysis_statuses : List AnalysisStatus
analysis_statuses =
    processing ∷ auto_classified ∷ needs_review ∷ human_verified ∷ AnalysisStatus.failed ∷ []

unfoldable pub analysis_status_of : String → Option AnalysisStatus
unfolding enum_of analysis_status_value
analysis_status_of = enum_of analysis_status_value analysis_statuses

unfoldable pub monthly_status_value : MonthlyStatus → String
monthly_status_value generating = "generating"
monthly_status_value draft = "draft"
monthly_status_value approved = "approved"
monthly_status_value MonthlyStatus.failed = "failed"

abbrev pub monthly_statuses : List MonthlyStatus
monthly_statuses = generating ∷ draft ∷ approved ∷ MonthlyStatus.failed ∷ []

unfoldable pub monthly_status_of : String → Option MonthlyStatus
unfolding enum_of monthly_status_value
monthly_status_of = enum_of monthly_status_value monthly_statuses

unfoldable pub role_value : Role → String
role_value branch_manager = "branch_manager"
role_value qa = "qa"

abbrev pub roles : List Role
roles = branch_manager ∷ qa ∷ []

unfoldable pub role_of : String → Option Role
unfolding enum_of role_value
role_of = enum_of role_value roles

unfoldable pub audit_action_value : AuditAction → String
audit_action_value search = "search"
audit_action_value approve_monthly = "approve_monthly"
audit_action_value override_analysis = "override_analysis"

abbrev pub audit_actions : List AuditAction
audit_actions = search ∷ approve_monthly ∷ override_analysis ∷ []

unfoldable pub audit_action_of : String → Option AuditAction
unfolding enum_of audit_action_value
audit_action_of = enum_of audit_action_value audit_actions

abbrev pub search_top_k : ℕ
search_top_k = 8

abbrev pub long_text_chars : ℕ
long_text_chars = 1500
