-- ===== src/Repositories/Stats.antt =====
-- `SqlMonthlyReportRepository.compute_stats`. The groups of a `GROUP BY` have distinct texts, so the
-- source's dictionaries are association lists of them.
use report_insight.Base.{
  ℕ, ◌+◌, String, Bool, false, ◌&&◌, List, [], ◌∷◌, map, Option, none, some, str_eq, leb, ltb, ◌==◌,
  filter, length, if◌then◌else◌,
}
use report_insight.Domain.{
  Date, MonthlyStats, category_of, urgency_of, value_error, Result, ok, err,
}
use report_insight.Domain.Calendar.{month_start, month_end}
use report_insight.Db.Table.{find_by}
use report_insight.Db.{Db, ReportRow, AnalysisRow, Exec, lift, gets, pure, traverse, ◌>>=◌}

abbrev pub report_id : ReportRow → ℕ
report_id r = r.id

-- `month_filter`
unfoldable pub in_month : ℕ → Date → ReportRow → Bool
unfolding month_start month_end
in_month property_id month r =
    r.property_id == property_id
    && (leb (month_start month) r.reported_at && ltb r.reported_at (month_end month))

abbrev satisfies : (ReportRow → Bool) → Option ReportRow → Bool
satisfies p none = false
satisfies p (some r) = p r

-- The join of `report_analyses` and `reports`, with a condition on the report.
unfoldable pub analyses_where : (ReportRow → Bool) → Db → List AnalysisRow
unfolding find_by
analyses_where p db =
    filter (λ (a : AnalysisRow). satisfies p (find_by report_id a.report_id db.reports)) db.analyses

-- `GROUP BY`, with `count()`
unfoldable pub bump : String → List (String × ℕ) → List (String × ℕ)
bump t [] = (t, 1) ∷ []
bump t ((u, n) ∷ groups) = if str_eq u t then (u, n + 1) ∷ groups else (u, n) ∷ bump t groups

unfoldable pub group_count : List String → List (String × ℕ)
unfolding bump
group_count [] = []
group_count (t ∷ ts) = bump t (group_count ts)

abbrev pub keyed : {A : Type 0} → (String → Option A) → String × ℕ → Result (A × ℕ)
keyed of (text, n) = elim (of text) [ none ↦ err value_error | some a ↦ ok (a, n) ]

-- `sum(d.values())`
unfoldable pub sum_values : {A : Type 0} → List (A × ℕ) → ℕ
sum_values [] = 0
sum_values ((a, n) ∷ groups) = n + sum_values groups

unfoldable pub compute_stats : ℕ → Date → Exec MonthlyStats
unfolding in_month analyses_where group_count traverse sum_values
compute_stats property_id month = do
  w ← gets (λ w. w)
  let rows = analyses_where (in_month property_id month) w.db
  by_category ←
      lift (traverse (keyed category_of) (group_count (map (λ (a : AnalysisRow). a.category) rows)))
  by_urgency ←
      lift (traverse (keyed urgency_of) (group_count (map (λ (a : AnalysisRow). a.urgency) rows)))
  pure (record {
    property_id = property_id;
    month = month;
    total = sum_values by_category;
    by_category = by_category;
    by_urgency = by_urgency;
    action_required = length (filter (λ (a : AnalysisRow). a.action_required) rows);
  })
