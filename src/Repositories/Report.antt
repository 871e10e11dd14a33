-- ===== src/Repositories/Report.antt =====
-- `SqlReportRepository`.
use report_insight.Base.{
  ℕ, ◌+◌, ◌==◌, String, str_eq, Bool, true, false, not, ◌&&◌, ◌||◌, Option, none, some, List, [],
  ◌∷◌, ◌++◌, Text, elem, filter, take, is_empty, ltb, if◌then◌else◌,
}
use report_insight.Domain.{
  Report, ReportAnalysis, ReportListFilters, Category, Urgency, human_verified, needs_review,
  category_value, urgency_value, analysis_status_value, Float, Datetime, not_found,
  permission_denied, external, Result,
}
use report_insight.Db.Table.{find_by, update_by, order_by_desc, contains}
use report_insight.Db.{
  Db, ReportRow, AnalysisRow, ChunkRow, report_to_domain, analysis_to_domain, traverse, Server,
  Exec, lift, gets, pure, or_raise, raise_if, modify, ◌>>=◌, ◌>>◌,
}
use report_insight.Repositories.Access.{property_key}

abbrev pub report_key : ReportRow → ℕ
report_key r = r.id

abbrev pub analysis_key : AnalysisRow → ℕ
analysis_key a = a.report_id

-- `uq_reports_source_key`
unfoldable pub has_source_key : String → List ReportRow → Bool
has_source_key key [] = false
has_source_key key (r ∷ rows) = str_eq r.source_key key || has_source_key key rows

abbrev pub new_report : ℕ → Datetime → Report → ReportRow
new_report id now report = record {
  id = id;
  property_id = report.property_id;
  source_key = report.source_key;
  reported_at = report.reported_at;
  reporter_role = report.reporter_role;
  raw_text = report.raw_text;
  photo_meta = report.photo_meta;
  created_at = now;
}

-- `real` is the conversion to the type of the column, which has single precision.
abbrev pub new_analysis : (Float → Float) → ℕ → Datetime → ReportAnalysis → AnalysisRow
new_analysis real id now analysis = record {
  report_id = id;
  category = category_value analysis.category;
  urgency = urgency_value analysis.urgency;
  action_required = analysis.action_required;
  normalized_summary = analysis.normalized_summary;
  confidence = real analysis.confidence;
  status = analysis_status_value analysis.status;
  model_id = analysis.model_id;
  prompt_version = analysis.prompt_version;
  input_tokens = analysis.input_tokens;
  output_tokens = analysis.output_tokens;
  analyzed_at = now;
}

-- `enumerate(chunks)` from an index on
unfoldable pub new_chunks : ℕ → ℕ → List (Text × List Float) → List ChunkRow
new_chunks id i [] = []
new_chunks id i ((content, vector) ∷ chunks) =
    record { report_id = id; chunk_index = i; content = content; embedding = vector }
    ∷ new_chunks id (i + 1) chunks

-- The three inserts of a new report, behind the foreign key and the primary key.
unfoldable pub insert_ingested :
    Server → Report → ReportAnalysis → List (Text × List Float) → Exec (Option ℕ)
unfolding contains new_chunks
insert_ingested server report analysis chunks = do
  w ← gets (λ w. w)
  let id = server.next_report_id w
  raise_if
      (contains report_key id w.db.reports
        || not (contains property_key report.property_id w.db.properties))
      external
  modify λ db. record db {
    reports = new_report id (server.now w) report ∷ db.reports;
    analyses = new_analysis server.real id (server.now w) analysis ∷ db.analyses;
    chunks = new_chunks id 0 chunks ++ db.chunks;
  }
  pure (some id)

-- `ON CONFLICT (source_key) DO NOTHING`
unfoldable pub upsert_ingested :
    Server → Report → ReportAnalysis → List (Text × List Float) → Exec (Option ℕ)
unfolding has_source_key insert_ingested
upsert_ingested server report analysis chunks = do
  w ← gets (λ w. w)
  if has_source_key report.source_key w.db.reports
      then pure none
      else insert_ingested server report analysis chunks

unfoldable pub get : ℕ → List ℕ → Exec Report
unfolding find_by report_to_domain
get id permitted = do
  w ← gets (λ w. w)
  row ← or_raise (find_by report_key id w.db.reports) not_found
  raise_if (not (elem row.property_id permitted)) permission_denied
  lift (report_to_domain row (find_by analysis_key id w.db.analyses))

-- What a person has decided.
unfoldable pub with_override : Category → Urgency → Bool → AnalysisRow → AnalysisRow
with_override category urgency action_required row = record row {
  category = category_value category;
  urgency = urgency_value urgency;
  action_required = action_required;
  status = analysis_status_value human_verified;
}

unfoldable pub update_analysis : ℕ → Category → Urgency → Bool → List ℕ → Exec ReportAnalysis
unfolding find_by update_by analysis_to_domain with_override
update_analysis id category urgency action_required permitted = do
  w ← gets (λ w. w)
  report ← or_raise (find_by report_key id w.db.reports) not_found
  raise_if (not (elem report.property_id permitted)) permission_denied
  analysis ← or_raise (find_by analysis_key id w.db.analyses) not_found
  modify λ db. record db {
    analyses =
        update_by analysis_key id (with_override category urgency action_required) db.analyses;
  }
  lift (analysis_to_domain (with_override category urgency action_required analysis))

-- A condition on a column, where the filter is given.
abbrev pub when_given : {A : Type 0} → Option A → (A → Bool) → Bool
when_given none p = true
when_given (some a) p = p a

-- The conditions of `list_reports` on a report and its analysis.
unfoldable pub listed : ReportListFilters → List ℕ → Option ℕ → ReportRow → AnalysisRow → Bool
listed filters permitted cursor r a =
    elem r.property_id permitted
    && (when_given filters.property_id (λ p. r.property_id == p)
        && (when_given filters.category (λ c. str_eq a.category (category_value c))
            && (when_given filters.urgency (λ u. str_eq a.urgency (urgency_value u))
                && (when_given filters.status (λ s. str_eq a.status (analysis_status_value s))
                    && when_given cursor (λ c. ltb r.id c)))))

-- The conditions of `review_queue`.
unfoldable pub queued : List ℕ → Option ℕ → ReportRow → AnalysisRow → Bool
queued permitted cursor r a =
    elem r.property_id permitted
    && (str_eq a.status (analysis_status_value needs_review) && when_given cursor (λ c. ltb r.id c))

-- The inner join: a report without an analysis is left out.
abbrev pub joined : (ReportRow → AnalysisRow → Bool) → Option AnalysisRow → ReportRow → Bool
joined p none r = false
joined p (some a) r = p r a

unfoldable pub select_page : (ReportRow → AnalysisRow → Bool) → ℕ → Db → List ReportRow
unfolding find_by order_by_desc
select_page p limit db = take limit (
    order_by_desc report_key
      (filter (λ r. joined p (find_by analysis_key r.id db.analyses) r) db.reports))

abbrev pub load : Db → ReportRow → Result Report
load db r = report_to_domain r (find_by analysis_key r.id db.analyses)

-- `_list_with_analysis`
unfoldable pub list_with_analysis : (ReportRow → AnalysisRow → Bool) → ℕ → Exec (List Report)
unfolding select_page traverse report_to_domain find_by
list_with_analysis p limit = do
  w ← gets (λ w. w)
  lift (traverse (load w.db) (select_page p limit w.db))

unfoldable pub list_reports : ReportListFilters → List ℕ → Option ℕ → ℕ → Exec (List Report)
unfolding list_with_analysis listed
list_reports filters permitted cursor limit =
    if is_empty permitted
    then pure []
    else list_with_analysis (listed filters permitted cursor) limit

unfoldable pub review_queue : List ℕ → Option ℕ → ℕ → Exec (List Report)
unfolding list_with_analysis queued
review_queue permitted cursor limit =
    if is_empty permitted then pure [] else list_with_analysis (queued permitted cursor) limit
