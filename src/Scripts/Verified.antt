-- ===== src/Scripts/Verified.antt =====
-- `_fetch_verified_cases` and `run` of scripts/export_eval_cases.py. A file that is not written is kept.
use report_insight.Base.{
  ℕ, Bool, false, Option, none, some, String, str_eq, List, [], ◌∷◌, map, filter, codes,
  if◌then◌else◌,
}
use mathlib.Core.List.{reverse}
use report_insight.Db.Table.{find_by, order_by_desc}
use report_insight.Db.{Db, ReportRow, AnalysisRow, Exec, gets, pure, ◌>>=◌}
use report_insight.Repositories.Report.{report_key, analysis_key, joined}
use report_insight.Scripts.Merge.{EvalCase, merge_cases}
pub mod Feedback

abbrev pub is_verified : ReportRow → AnalysisRow → Bool
is_verified r a = str_eq a.status "human_verified"

abbrev pub case_of : ReportRow → AnalysisRow → EvalCase
case_of r a = record {
  source_key = codes r.source_key;
  raw_text = r.raw_text;
  reporter_role = r.reporter_role;
  expected_category = a.category;
  expected_urgency = a.urgency;
  expected_action_required = a.action_required;
  tags = "human_verified" ∷ [];
}

abbrev pub onto_case : ReportRow → Option AnalysisRow → List EvalCase → List EvalCase
onto_case r none cases = cases
onto_case r (some a) cases = case_of r a ∷ cases

-- The rows of the join.
unfoldable pub cases_of : Db → List ReportRow → List EvalCase
unfolding find_by
cases_of db [] = []
cases_of db (r ∷ rows) = onto_case r (find_by analysis_key r.id db.analyses) (cases_of db rows)

unfoldable pub fetch_verified_cases : Exec (List EvalCase)
unfolding cases_of order_by_desc find_by
fetch_verified_cases = gets λ w. cases_of w.db (
    reverse (
      order_by_desc report_key (
        filter (λ r. joined is_verified (find_by analysis_key r.id w.db.analyses) r) w.db.reports)))

abbrev pub written : List EvalCase × (ℕ × ℕ) → List EvalCase × Option (ℕ × ℕ)
written (cases, counts) = (cases, some counts)

-- The cases in the file after `run`, and the numbers of added cases and of all, which a dry run does not have.
unfoldable pub run : Bool → List EvalCase → Exec (List EvalCase × Option (ℕ × ℕ))
unfolding fetch_verified_cases merge_cases
run dry_run existing = do
  incoming ← fetch_verified_cases
  pure (if dry_run then (existing, none) else written (merge_cases existing incoming))
