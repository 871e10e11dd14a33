-- ===== src/Tests.antt =====
-- Data for the tests: two branches with a property each, three reports and two monthly reports.
use report_insight.Base.{ℕ, String, true, false, none, some, List, [], ◌∷◌, Text}
use report_insight.Domain.{
  Date, User, branch_manager, role_value, qa, Category, cleaning, claim, Urgency, high, low,
  category_value, urgency_value, auto_classified, needs_review, analysis_status_value, draft,
  approved, monthly_status_value, MonthlyStatus, IngestMessage, ClassificationEnvelope,
  MaskingResult, MonthlyNarration, end, Datetime, ok,
}
use report_insight.Db.{Db, World, Server, UserRow, PropertyRow, ReportRow, AnalysisRow, MonthlyRow}
use report_insight.Ingest.Service.{Ports}
use report_insight.Monthly.Jobs.{Setup, System}
pub mod Ingest
pub mod Monthly
pub mod Admin
pub mod Masking
pub mod Search
pub mod Api
pub mod Forms
pub mod Models
pub mod Race
pub mod Worker
pub mod Routes
pub mod Scripts

abbrev pub manager : User
manager = record { id = 1; email = "m@example.com"; role = branch_manager; branch_id = some 1 }

abbrev pub report_row : ℕ → ℕ → String → ReportRow
report_row id property_id key = record {
  id = id;
  property_id = property_id;
  source_key = key;
  reported_at = 100;
  reporter_role = "cleaner";
  raw_text = 97 ∷ [];
  photo_meta = end;
  created_at = 101;
}

abbrev pub analysis_row : ℕ → AnalysisRow
analysis_row id = record {
  report_id = id;
  category = category_value cleaning;
  urgency = urgency_value low;
  action_required = false;
  normalized_summary = 115 ∷ [];
  confidence = 7;
  status = analysis_status_value needs_review;
  model_id = "model";
  prompt_version = "v1";
  input_tokens = 10;
  output_tokens = 20;
  analyzed_at = 102;
}

abbrev pub october : Date
october = record { year = 2025; month = 10; day = 1 }

abbrev pub monthly_row : ℕ → MonthlyStatus → MonthlyRow
monthly_row id status = record {
  id = id;
  property_id = 1;
  month = october;
  version = id;
  body_markdown = 98 ∷ [];
  status = monthly_status_value status;
  approved_by = none;
  approved_at = none;
}

abbrev pub db : Db
db = record {
  branches = record { id = 1; name = 66 ∷ [] } ∷ record { id = 2; name = 67 ∷ [] } ∷ [];
  users =
      record {
        id = 1;
        branch_id = some 1;
        email = "m@example.com";
        role = role_value branch_manager;
      }
      ∷ [];
  properties =
      record { id = 1; branch_id = 1; name = 80 ∷ []; address = none }
      ∷ record { id = 2; branch_id = 2; name = 81 ∷ []; address = none }
      ∷ [];
  reports = report_row 3 1 "c" ∷ report_row 5 1 "e" ∷ report_row 4 2 "d" ∷ [];
  analyses = analysis_row 5 ∷ analysis_row 4 ∷ analysis_row 3 ∷ [];
  chunks = [];
  monthly_reports = monthly_row 1 draft ∷ monthly_row 2 approved ∷ [];
  audit_logs = [];
}

abbrev pub world : World
world = record { db = db; effects = [] }

abbrev pub server : Server
server = record {
  next_report_id = λ w. 9;
  real = λ x. x;
  next_monthly_id = λ w. 9;
  next_audit_id = λ w. 9;
  now = λ w. 200;
}

abbrev pub setup : Setup
setup = record {
  server = server;
  narrate = λ name stats. ok (record {
    body = 110 ∷ [];
    meta = record {
      model_id = "model";
      prompt_version = "v1";
      input_tokens = 1;
      output_tokens = 1;
    };
  });
}

abbrev pub system : System
system = record { world = world; jobs = [] }

abbrev pub message : IngestMessage
message = record {
  source_key = "new";
  property_id = 1;
  reported_at = 150;
  reporter_role = "cleaner";
  raw_text = 97 ∷ 98 ∷ [];
  photo_meta = end;
}

-- An urgent report, of a low confidence; the masker replaces every text by one character.
abbrev pub ports : Ports
ports = record {
  server = server;
  get_object = λ key. ok (1 ∷ []);
  model_validate_json = λ raw. ok message;
  mask = λ t. ok (record { masked_text = 42 ∷ []; mapping = [] });
  normalize = λ t. t;
  classify_report = λ t. ok (record {
    result = record {
      category = claim;
      urgency = high;
      action_required = true;
      normalized_summary = 115 ∷ [];
      confidence = 3;
    };
    meta = record {
      model_id = "model";
      prompt_version = "v1";
      input_tokens = 5;
      output_tokens = 6;
    };
  });
  embed_documents = λ texts. ok ((1 ∷ []) ∷ []);
  notify_urgent = λ r a. ok tt;
  threshold = 5;
}
