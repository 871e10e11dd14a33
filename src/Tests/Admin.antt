-- ===== src/Tests/Admin.antt =====
-- The report list at concrete inputs.
use report_insight.Base.{
  ◌*◌, ◌/◌, ◌≡◌, refl, true, false, none, some, [], ◌∷◌, arith, ℕ, ◌≤◌, length, pos, if◌then◌else◌,
  ◌==◌,
}
use report_insight.Domain.{
  ReportListFilters, Report, ok, end, ReportAnalysis, override_analysis, audit_action_value,
  cleaning, low, needs_review, category_value, urgency_value, analysis_status_value, category_of,
  urgency_of, analysis_status_of,
}
use report_insight.Db.{traverse, report_to_domain}
use report_insight.Db.Paging.{Distinct}
use report_insight.Repositories.Report as Repo
use report_insight.Repositories.Report.{
  new_report, new_analysis, report_key, listed, queued, select_page,
}
use report_insight.Repositories.User.{permitted_property_ids}
use report_insight.Repositories.RoundTrip.{written_report_read}
use report_insight.Admin.Service.{list_reports, clamp, max_page_size}
use report_insight.Api.Reports as Routes
use report_insight.Api.Reports.{serve, reports, page}
use report_insight.Admin.Out.{ReportListOut, ReportOut, from_domain, to_list_out}
use report_insight.Api.Reports.Truncated.{large_limit_truncates}
use report_insight.Tests.{world, manager, report_row}
use report_insight.Base.{Any}
use report_insight.Domain.{claim, human_verified}
use report_insight.Db.{ReportRow, AnalysisRow, AuditRow, analysis_to_domain}
use report_insight.Db.Table.{find_by}
use report_insight.Repositories.Audit.{record_action}
use report_insight.Repositories.Access.{Visible}
use report_insight.Repositories.Report.{analysis_key, with_override}
use report_insight.Admin.Service
use report_insight.Admin.Service.{override_payload}
use report_insight.Admin.Override.{override_sound}
use report_insight.Tests.{server}
use report_insight.Base.{List, codes}
use report_insight.Scripts.Merge.{EvalCase}
use report_insight.Scripts.Verified.{fetch_verified_cases}
use report_insight.Scripts.Verified.Feedback.{override_exported}

abbrev pub any_report : ReportListFilters
any_report = record { property_id = none; category = none; urgency = none; status = none }

pub distinct : Distinct report_key world.db.reports
distinct = ground arith

abbrev pub listed_report : ℕ → Report
listed_report id = record {
  id = some id;
  property_id = 1;
  source_key = (report_row id 1 (if id == 5 then "e" else "c")).source_key;
  reported_at = 100;
  reporter_role = "cleaner";
  raw_text = 97 ∷ [];
  photo_meta = end;
  created_at = some 101;
  analysis = some (record {
    report_id = id;
    category = cleaning;
    urgency = low;
    action_required = false;
    normalized_summary = 115 ∷ [];
    confidence = 7;
    status = needs_review;
    model_id = "model";
    prompt_version = "v1";
    input_tokens = 10;
    output_tokens = 20;
    analyzed_at = some 102;
  });
}

abbrev fresh_report : Report
fresh_report = record (listed_report 5) { id = none; created_at = none; analysis = none }

abbrev fresh_analysis : ReportAnalysis
fresh_analysis = record {
  report_id = 0;
  category = cleaning;
  urgency = low;
  action_required = true;
  normalized_summary = 115 ∷ [];
  confidence = 7;
  status = needs_review;
  model_id = "model";
  prompt_version = "v1";
  input_tokens = 10;
  output_tokens = 20;
  analyzed_at = none;
}

abbrev pub shown_report : ℕ → ReportOut
shown_report id = record {
  id = id;
  property_id = 1;
  reported_at = 100;
  reporter_role = "cleaner";
  raw_text = 97 ∷ [];
  analysis = some (record {
    category = category_value cleaning;
    urgency = urgency_value low;
    action_required = false;
    normalized_summary = 115 ∷ [];
    confidence = 7;
    status = analysis_status_value needs_review;
  });
}

lists :
    (list_reports manager any_report none (pos 250) world).0
    ≡ ok (listed_report 5 ∷ listed_report 3 ∷ [])
unfolding list_reports Repo.list_reports permitted_property_ids category_of urgency_of
    analysis_status_of
lists = refl

shows :
    traverse from_domain (listed_report 5 ∷ listed_report 3 ∷ [])
    ≡ ok (shown_report 5 ∷ shown_report 3 ∷ [])
unfolding traverse from_domain
shows = refl

abbrev truncated : ReportListOut
truncated = record { items = shown_report 5 ∷ shown_report 3 ∷ []; next_cursor = none }

answers : (Routes.list_reports manager any_report none (pos 250) world).0 ≡ ok truncated
unfolding Routes.list_reports list_reports Repo.list_reports Repo.list_with_analysis select_page
    to_list_out permitted_property_ids listed category_of urgency_of analysis_status_of
answers = refl

large_limit_truncates_example :
    (length truncated.items ≤ max_page_size)
    × (truncated.next_cursor ≡ none)
    × (serve server manager (reports any_report none (pos 250)) world
        ≡ (ok (page truncated), (Routes.list_reports manager any_report none (pos 250) world).1))
large_limit_truncates_example =
    large_limit_truncates server manager any_report none 250 world truncated (ground arith) answers

-- A conversion that loses the last bit.
abbrev rounded : ℕ → ℕ
rounded x = x / 2 * 2

written_report_read_example :
    report_to_domain
      (new_report 9 200 fresh_report)
      (some (new_analysis rounded 9 200 fresh_analysis))
    ≡ ok (record fresh_report {
      id = some 9;
      created_at = some 200;
      analysis = some (record fresh_analysis {
        report_id = 9;
        confidence = rounded fresh_analysis.confidence;
        analyzed_at = some 200;
      });
    })
written_report_read_example = written_report_read rounded 9 200 fresh_report fresh_analysis

abbrev pub corrected : ReportAnalysis
corrected = record {
  report_id = 5;
  category = claim;
  urgency = low;
  action_required = true;
  normalized_summary = 115 ∷ [];
  confidence = 7;
  status = human_verified;
  model_id = "model";
  prompt_version = "v1";
  input_tokens = 10;
  output_tokens = 20;
  analyzed_at = some 102;
}

corrects : (Service.override_analysis server manager 5 claim low true world).0 ≡ ok corrected
unfolding Service.override_analysis Repo.update_analysis record_action permitted_property_ids
    category_of urgency_of analysis_status_of
corrects = refl

override_sound_example :
    let w' = (Service.override_analysis server manager 5 claim low true world).1 in
    (r : ReportRow) × (row : AnalysisRow) × (log : AuditRow) × (find_by report_key 5
        world.db.reports
      ≡ some r)
    × Any (Visible manager r.property_id) world.db.properties
    × (find_by analysis_key 5 world.db.analyses ≡ some row)
    × (find_by analysis_key 5 w'.db.analyses ≡ some (with_override claim low true row))
    × (analysis_to_domain (with_override claim low true row) ≡ ok corrected)
    × (w'.db.audit_logs ≡ log ∷ [])
    × (log.user_id ≡ 1)
    × (log.action ≡ audit_action_value override_analysis)
    × (log.payload ≡ override_payload 5 claim low true)
override_sound_example = override_sound server manager 5 claim low true world corrected corrects

override_exported_example :
    let w' = (Service.override_analysis server manager 5 claim low true world).1 in
    (r : ReportRow) × (cases : List EvalCase) × (find_by report_key 5 world.db.reports ≡ some r)
    × ((fetch_verified_cases w').0 ≡ ok cases)
    × Any
        (λ c. c ≡ record {
          source_key = codes r.source_key;
          raw_text = r.raw_text;
          reporter_role = r.reporter_role;
          expected_category = category_value claim;
          expected_urgency = urgency_value low;
          expected_action_required = true;
          tags = "human_verified" ∷ [];
        })
        cases
override_exported_example =
    override_exported server manager 5 claim low true world corrected corrects
