-- ===== src/Domain/Entities.antt =====
-- app/domain/entities.py. A `float` is its IEEE 754 bit pattern; if it is not negative, this is
-- ordered as the float is. A date-time is a number of microseconds on one time line.
use report_insight.Base.{ℕ, String, Bool, true, false, Option, List, Text}
use report_insight.Domain.Values.{
  Category, Urgency, AnalysisStatus, MonthlyStatus, Role, AuditAction, qa, branch_manager,
}
use report_insight.Domain.Payload.{Fields}

abbrev pub Float : Type 0
Float = ℕ

abbrev pub Datetime : Type 0
Datetime = ℕ

pub record Date : Type 0 where
  pub year : ℕ
  pub month : ℕ
  pub day : ℕ

pub record User : Type 0 where
  pub id : ℕ
  pub email : String
  pub role : Role
  pub branch_id : Option ℕ

abbrev role_is_qa : Role → Bool
role_is_qa qa = true
role_is_qa branch_manager = false

-- `User.is_qa`
abbrev pub is_qa : User → Bool
is_qa u = role_is_qa u.role

pub record Property : Type 0 where
  pub id : ℕ
  pub branch_id : ℕ
  pub name : Text
  pub address : Option Text

pub record ClassificationResult : Type 0 where
  pub category : Category
  pub urgency : Urgency
  pub action_required : Bool
  pub normalized_summary : Text
  pub confidence : Float

pub record ReportAnalysis : Type 0 where
  pub report_id : ℕ
  pub category : Category
  pub urgency : Urgency
  pub action_required : Bool
  pub normalized_summary : Text
  pub confidence : Float
  pub status : AnalysisStatus
  pub model_id : String
  pub prompt_version : String
  pub input_tokens : ℕ
  pub output_tokens : ℕ
  pub analyzed_at : Option Datetime

pub record Report : Type 0 where
  pub id : Option ℕ
  pub property_id : ℕ
  pub source_key : String
  pub reported_at : Datetime
  pub reporter_role : String
  pub raw_text : Text
  pub photo_meta : Fields
  pub created_at : Option Datetime
  pub analysis : Option ReportAnalysis

pub record IngestMessage : Type 0 where
  pub source_key : String
  pub property_id : ℕ
  pub reported_at : Datetime
  pub reporter_role : String
  pub raw_text : Text
  pub photo_meta : Fields

pub record SearchHit : Type 0 where
  pub report_id : ℕ
  pub property_id : ℕ
  pub content : Text
  pub summary : Text
  pub reported_at : Datetime
  pub similarity : Float

pub record LlmCallMeta : Type 0 where
  pub model_id : String
  pub prompt_version : String
  pub input_tokens : ℕ
  pub output_tokens : ℕ

pub record ClassificationEnvelope : Type 0 where
  pub result : ClassificationResult
  pub meta : LlmCallMeta

-- The source's field `from_` is `since`.
pub record SearchFilters : Type 0 where
  pub property_id : Option ℕ
  pub category : Option Category
  pub since : Option Datetime
  pub to : Option Datetime

pub record ReportListFilters : Type 0 where
  pub property_id : Option ℕ
  pub category : Option Category
  pub urgency : Option Urgency
  pub status : Option AnalysisStatus

pub record MaskingResult : Type 0 where
  pub masked_text : Text
  pub mapping : List (Text × Text)

pub record MonthlyReport : Type 0 where
  pub id : Option ℕ
  pub property_id : ℕ
  pub month : Date
  pub version : ℕ
  pub body_markdown : Text
  pub status : MonthlyStatus
  pub approved_by : Option ℕ
  pub approved_at : Option Datetime

-- The two `dict` fields are association lists, a key at most once.
pub record MonthlyStats : Type 0 where
  pub property_id : ℕ
  pub month : Date
  pub total : ℕ
  pub by_category : List (Category × ℕ)
  pub by_urgency : List (Urgency × ℕ)
  pub action_required : ℕ

pub record AuditEntry : Type 0 where
  pub id : ℕ
  pub actor_email : String
  pub action : AuditAction
  pub payload : Fields
  pub created_at : Datetime

pub record MonthlyNarration : Type 0 where
  pub body : Text
  pub meta : LlmCallMeta
