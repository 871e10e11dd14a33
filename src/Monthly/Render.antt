-- ===== src/Monthly/Render.antt =====
-- `render_monthly_markdown` of app/services/monthly.py.
use report_insight.Base.{
  ℕ, ◌≡◌, refl, List, [], ◌∷◌, ◌++◌, map, append_assoc, Text, codes, String, str_eq, if◌then◌else◌,
}
use report_insight.Base.Str.{join_lines, decimal, strip}
use report_insight.Domain.{
  category_value, categories, urgency_value, urgencies, MonthlyStats, MonthlyNarration,
}
use report_insight.Domain.Labels.{category_jp, urgency_jp}

-- `d.get(key, 0)`; two enum values are equal if their texts are.
unfoldable pub count_of : {A : Type 0} → (A → String) → A → List (A × ℕ) → ℕ
count_of value a [] = 0
count_of value a ((b, n) ∷ groups) =
    if str_eq (value b) (value a) then n else count_of value a groups

-- `| {label} | {n} |`
unfoldable pub table_row : Text → ℕ → Text
unfolding decimal
table_row label n = codes "| " ++ (label ++ (codes " | " ++ (decimal n ++ codes " |")))

unfoldable pub title : Text → MonthlyStats → Text
unfolding decimal
title property_name stats =
    codes "# "
    ++ (decimal stats.month.year
        ++ (codes "年"
            ++ (decimal stats.month.month ++ (codes "月 " ++ (property_name ++ codes " 月次報告")))))

-- The lines above the narration.
unfoldable pub summary_lines : Text → MonthlyStats → List Text
unfolding title table_row count_of category_jp urgency_jp category_value urgency_value
summary_lines property_name stats =
    title property_name stats
    ∷ []
    ∷ codes "## 概要"
    ∷ []
    ∷ (codes "- 総報告件数: " ++ (decimal stats.total ++ codes " 件"))
    ∷ (codes "- 要対応件数: " ++ (decimal stats.action_required ++ codes " 件"))
    ∷ []
    ∷ codes "## 分類別件数"
    ∷ []
    ∷ codes "| 分類 | 件数 |"
    ∷ codes "| --- | ---: |"
    ∷ (map (λ c. table_row (category_jp c) (count_of category_value c stats.by_category)) categories
        ++ ([]
            ∷ codes "## 緊急度別件数"
            ∷ []
            ∷ codes "| 緊急度 | 件数 |"
            ∷ codes "| --- | ---: |"
            ∷ (map (λ u. table_row (urgency_jp u) (count_of urgency_value u stats.by_urgency))
                  urgencies
                ++ ([] ∷ codes "## 所見" ∷ [] ∷ []))))

unfoldable pub render_monthly_markdown : Text → MonthlyStats → MonthlyNarration → Text
unfolding summary_lines strip join_lines
render_monthly_markdown property_name stats narration =
    join_lines (summary_lines property_name stats ++ strip narration.body ∷ [] ∷ [])

-- The lines with a line feed behind each.
abbrev pub unlines : List Text → Text
unlines [] = []
unlines (l ∷ ls) = l ++ 10 ∷ unlines ls

join_lines-unlines :
    (ls : List Text) (t : Text) → join_lines (ls ++ t ∷ [] ∷ []) ≡ unlines ls ++ (t ++ 10 ∷ [])
unfolding join_lines
join_lines-unlines [] t = refl
join_lines-unlines (l ∷ []) t = simp append_assoc
join_lines-unlines (l ∷ m ∷ ls) t = simp (join_lines-unlines (m ∷ ls) t, append_assoc)

-- The tables depend on the statistics alone: whatever the language model wrote, the body is one
-- text, the lines that the property's name and the statistics fix, then the stripped narration, then
-- a line feed.
pub render_tables_fixed :
    (property_name : Text) (stats : MonthlyStats) (narration : MonthlyNarration)
    → render_monthly_markdown property_name stats narration
      ≡ unlines (summary_lines property_name stats) ++ (strip narration.body ++ 10 ∷ [])
unfolding render_monthly_markdown
render_tables_fixed property_name stats narration =
    join_lines-unlines (summary_lines property_name stats) (strip narration.body)
