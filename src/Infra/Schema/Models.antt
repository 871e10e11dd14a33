-- ===== src/Infra/Schema/Models.antt =====
-- app/infra/db/models.py: the tables of the mapped classes.
use report_insight.Base.{List, [], ◌∷◌}
use report_insight.Infra.Schema.{
  big_integer, text, string, integer, boolean, float, timestamp, date, jsonb, vector, key, required,
  optional, referring, cascading, is_unique, with_default, Table, table, indexed,
}
use report_insight.Infra.Schema.Initial.{embedding_dim}

abbrev pub branches : Table
branches = table "branches" (key "id" big_integer ∷ required "name" text ∷ []) ([])

abbrev pub users : Table
users =
    table "users"
      (key "id" big_integer
        ∷ referring "branches" (optional "branch_id" big_integer)
        ∷ is_unique (required "email" text)
        ∷ required "role" text
        ∷ [])
      ([])

abbrev pub properties : Table
properties =
    table "properties"
      (key "id" big_integer
        ∷ referring "branches" (required "branch_id" big_integer)
        ∷ required "name" text
        ∷ optional "address" text
        ∷ [])
      ([])

abbrev pub reports : Table
reports = indexed ("property_id" ∷ "reported_at" ∷ []) (
    table "reports"
      (key "id" big_integer
        ∷ referring "properties" (required "property_id" big_integer)
        ∷ required "source_key" text
        ∷ required "reported_at" timestamp
        ∷ required "reporter_role" text
        ∷ required "raw_text" text
        ∷ required "photo_meta" jsonb
        ∷ with_default "now()" (required "created_at" timestamp)
        ∷ [])
      (("uq_reports_source_key", "source_key" ∷ []) ∷ []))

abbrev pub report_analyses : Table
report_analyses = indexed ("category" ∷ "urgency" ∷ "status" ∷ []) (
    table "report_analyses"
      (cascading "reports" (key "report_id" big_integer)
        ∷ required "category" (string 32)
        ∷ required "urgency" (string 16)
        ∷ required "action_required" boolean
        ∷ required "normalized_summary" text
        ∷ required "confidence" (float 24)
        ∷ required "status" (string 24)
        ∷ required "model_id" text
        ∷ required "prompt_version" text
        ∷ required "input_tokens" integer
        ∷ required "output_tokens" integer
        ∷ with_default "now()" (required "analyzed_at" timestamp)
        ∷ [])
      ([]))

abbrev pub report_chunks : Table
report_chunks = indexed ("report_id" ∷ []) (
    table "report_chunks"
      (key "id" big_integer
        ∷ cascading "reports" (required "report_id" big_integer)
        ∷ required "chunk_index" integer
        ∷ required "content" text
        ∷ required "embedding" (vector embedding_dim)
        ∷ [])
      ([]))

abbrev pub monthly_reports : Table
monthly_reports = indexed ("property_id" ∷ []) (
    table "monthly_reports"
      (key "id" big_integer
        ∷ referring "properties" (required "property_id" big_integer)
        ∷ required "month" date
        ∷ required "version" integer
        ∷ required "body_markdown" text
        ∷ required "status" (string 16)
        ∷ referring "users" (optional "approved_by" big_integer)
        ∷ optional "approved_at" timestamp
        ∷ [])
      (("uq_monthly_pmv", "property_id" ∷ "month" ∷ "version" ∷ []) ∷ []))

abbrev pub audit_logs : Table
audit_logs = indexed ("user_id" ∷ []) (
    table "audit_logs"
      (key "id" big_integer
        ∷ referring "users" (required "user_id" big_integer)
        ∷ required "action" (string 32)
        ∷ required "payload" jsonb
        ∷ with_default "now()" (required "created_at" timestamp)
        ∷ [])
      ([]))

-- `Base.metadata.tables`, in the order of the classes
abbrev pub models : List Table
models =
    branches ∷ users ∷ properties ∷ reports ∷ report_analyses ∷ report_chunks ∷ monthly_reports
    ∷ audit_logs ∷ []
