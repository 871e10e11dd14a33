-- ===== src/Db/Rows.antt =====
-- The tables of app/infra/db/models.py. A text column that holds an enum value is a `String`.
use report_insight.Base.{ℕ, String, Bool, Option, List, Text}
use report_insight.Domain.{Fields, Float, Datetime, Date}

pub record BranchRow : Type 0 where
  pub id : ℕ
  pub name : Text

pub record UserRow : Type 0 where
  pub id : ℕ
  pub branch_id : Option ℕ
  pub email : String
  pub role : String

pub record PropertyRow : Type 0 where
  pub id : ℕ
  pub branch_id : ℕ
  pub name : Text
  pub address : Option Text

pub record ReportRow : Type 0 where
  pub id : ℕ
  pub property_id : ℕ
  pub source_key : String
  pub reported_at : Datetime
  pub reporter_role : String
  pub raw_text : Text
  pub photo_meta : Fields
  pub created_at : Datetime

pub record AnalysisRow : Type 0 where
  pub report_id : ℕ
  pub category : String
  pub urgency : String
  pub action_required : Bool
  pub normalized_summary : Text
  pub confidence : Float
  pub status : String
  pub model_id : String
  pub prompt_version : String
  pub input_tokens : ℕ
  pub output_tokens : ℕ
  pub analyzed_at : Datetime

-- The chunk's own `id` is never read.
pub record ChunkRow : Type 0 where
  pub report_id : ℕ
  pub chunk_index : ℕ
  pub content : Text
  pub embedding : List Float

pub record MonthlyRow : Type 0 where
  pub id : ℕ
  pub property_id : ℕ
  pub month : Date
  pub version : ℕ
  pub body_markdown : Text
  pub status : String
  pub approved_by : Option ℕ
  pub approved_at : Option Datetime

pub record AuditRow : Type 0 where
  pub id : ℕ
  pub user_id : ℕ
  pub action : String
  pub payload : Fields
  pub created_at : Datetime

pub record Db : Type 0 where
  pub branches : List BranchRow
  pub users : List UserRow
  pub properties : List PropertyRow
  pub reports : List ReportRow
  pub analyses : List AnalysisRow
  pub chunks : List ChunkRow
  pub monthly_reports : List MonthlyRow
  pub audit_logs : List AuditRow
