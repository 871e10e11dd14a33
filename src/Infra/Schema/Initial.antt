-- ===== src/Infra/Schema/Initial.antt =====
-- app/infra/db/migrations/versions/0001_initial.py: the tables, and what the two functions execute.
use report_insight.Base.{ℕ, List, [], ◌∷◌}
use report_insight.Infra.Schema.{
  big_integer, text, string, integer, boolean, float, timestamp, date, jsonb, vector, key, required,
  optional, referring, cascading, is_unique, with_default, Table, table, Op, create_table,
  create_index, create_extension, drop_table, drop_index,
}

-- `EMBEDDING_DIM`
abbrev pub embedding_dim : ℕ
embedding_dim = 1024

abbrev pub branches : Table
branches = table "branches" (key "id" big_integer ∷ required "name" text ∷ []) ([])

abbrev pub users : Table
users =
    table "users"
      (key "id" big_integer
        ∷ referring "branches" (optional "branch_id" big_integer)
        ∷ is_unique (required "email" text)
        ∷ required "role" text
        ∷ [])
      ([])

abbrev pub properties : Table
properties =
    table "properties"
      (key "id" big_integer
        ∷ referring "branches" (required "branch_id" big_integer)
        ∷ required "name" text
        ∷ optional "address" text
        ∷ [])
      ([])

abbrev pub reports : Table
reports =
    table "reports"
      (key "id" big_integer
        ∷ referring "properties" (required "property_id" big_integer)
        ∷ required "source_key" text
        ∷ required "reported_at" timestamp
        ∷ required "reporter_role" text
        ∷ required "raw_text" text
        ∷ with_default "{}" (required "photo_meta" jsonb)
        ∷ with_default "now()" (required "created_at" timestamp)
        ∷ [])
      (("uq_reports_source_key", "source_key" ∷ []) ∷ [])

abbrev pub report_analyses : Table
report_analyses =
    table "report_analyses"
      (cascading "reports" (key "report_id" big_integer)
        ∷ required "category" (string 32)
        ∷ required "urgency" (string 16)
        ∷ required "action_required" boolean
        ∷ required "normalized_summary" text
        ∷ required "confidence" (float 24)
        ∷ required "status" (string 24)
        ∷ required "model_id" text
        ∷ required "prompt_version" text
        ∷ with_default "0" (required "input_tokens" integer)
        ∷ with_default "0" (required "output_tokens" integer)
        ∷ with_default "now()" (required "analyzed_at" timestamp)
        ∷ [])
      ([])

abbrev pub report_chunks : Table
report_chunks =
    table "report_chunks"
      (key "id" big_integer
        ∷ cascading "reports" (required "report_id" big_integer)
        ∷ required "chunk_index" integer
        ∷ required "content" text
        ∷ required "embedding" (vector embedding_dim)
        ∷ [])
      ([])

abbrev pub monthly_reports : Table
monthly_reports =
    table "monthly_reports"
      (key "id" big_integer
        ∷ referring "properties" (required "property_id" big_integer)
        ∷ required "month" date
        ∷ with_default "1" (required "version" integer)
        ∷ with_default "" (required "body_markdown" text)
        ∷ required "status" (string 16)
        ∷ referring "users" (optional "approved_by" big_integer)
        ∷ optional "approved_at" timestamp
        ∷ [])
      (("uq_monthly_pmv", "property_id" ∷ "month" ∷ "version" ∷ []) ∷ [])

abbrev pub audit_logs : Table
audit_logs =
    table "audit_logs"
      (key "id" big_integer
        ∷ referring "users" (required "user_id" big_integer)
        ∷ required "action" (string 32)
        ∷ with_default "{}" (required "payload" jsonb)
        ∷ with_default "now()" (required "created_at" timestamp)
        ∷ [])
      ([])

unfoldable pub upgrade : List Op
upgrade =
    create_extension "vector"
    ∷ create_table branches
    ∷ create_table users
    ∷ create_table properties
    ∷ create_index "ix_properties_branch_id" "properties" ("branch_id" ∷ [])
    ∷ create_table reports
    ∷ create_index "ix_reports_property_id" "reports" ("property_id" ∷ [])
    ∷ create_index "ix_reports_reported_at" "reports" ("reported_at" ∷ [])
    ∷ create_table report_analyses
    ∷ create_index "ix_report_analyses_category" "report_analyses" ("category" ∷ [])
    ∷ create_index "ix_report_analyses_urgency" "report_analyses" ("urgency" ∷ [])
    ∷ create_index "ix_report_analyses_status" "report_analyses" ("status" ∷ [])
    ∷ create_table report_chunks
    ∷ create_index "ix_report_chunks_report_id" "report_chunks" ("report_id" ∷ [])
    ∷ create_index "ix_report_chunks_embedding_hnsw" "report_chunks" ("embedding" ∷ [])
    ∷ create_table monthly_reports
    ∷ create_index "ix_monthly_reports_property_id" "monthly_reports" ("property_id" ∷ [])
    ∷ create_table audit_logs
    ∷ create_index "ix_audit_logs_user_id" "audit_logs" ("user_id" ∷ [])
    ∷ []

unfoldable pub downgrade : List Op
downgrade =
    drop_table "audit_logs"
    ∷ drop_table "monthly_reports"
    ∷ drop_index "ix_report_chunks_embedding_hnsw"
    ∷ drop_table "report_chunks"
    ∷ drop_table "report_analyses"
    ∷ drop_table "reports"
    ∷ drop_table "properties"
    ∷ drop_table "users"
    ∷ drop_table "branches"
    ∷ []
