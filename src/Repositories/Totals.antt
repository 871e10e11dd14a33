-- ===== src/Repositories/Totals.antt =====
-- The sums of the figures of a month.
use report_insight.Base.{
  ℕ, suc, ◌+◌, ◌≤◌, ◌≡◌, refl, String, Bool, List, [], ◌∷◌, map, Option, filter, length, arith, ◌∙◌,
  ap, Option-cases, inl, inr,
}
use report_insight.Domain.{Date, MonthlyStats, category_of, urgency_of, ok, Result-cases}
use report_insight.Db.{World, AnalysisRow, traverse}
use report_insight.Repositories.Stats.{
  keyed, in_month, analyses_where, bump, group_count, sum_values, compute_stats,
}

sum_values-bump :
    (t : String) (groups : List (String × ℕ)) → sum_values (bump t groups) ≡ 1 + sum_values groups
unfolding bump sum_values
sum_values-bump t [] = ground arith
sum_values-bump t ((u, n) ∷ groups) = ground (arith, sum_values-bump t groups)

sum_values-group_count : (ts : List String) → sum_values (group_count ts) ≡ length ts
unfolding group_count sum_values
sum_values-group_count [] = refl
sum_values-group_count (t ∷ ts) =
    ground (arith, sum_values-bump t (group_count ts), sum_values-group_count ts)

-- Decoding the groups keeps their numbers.
sum_values-traverse :
    {A : Type 0} (of : String → Option A) (groups : List (String × ℕ)) (out : List (A × ℕ))
    → traverse (keyed of) groups ≡ ok out
    → sum_values out ≡ sum_values groups
unfolding traverse sum_values
sum_values-traverse of [] out h = ground arith
sum_values-traverse of ((t, n) ∷ groups) out h = elim (Option-cases (of t)) [
  | inl e ↦ absurd (ground arith)
  | inr (a, e) ↦ elim (Result-cases (traverse (keyed of) groups)) [
    | inl (rest, f) ↦ ground (arith, sum_values-traverse of groups rest f)
    | inr (x, f) ↦ absurd (ground arith)
  ]
]

length-map : {A B : Type 0} (f : A → B) (xs : List A) → length (map f xs) ≡ length xs
length-map f [] = refl
length-map f (x ∷ xs) = ap suc (length-map f xs)

length-filter : {A : Type 0} (p : A → Bool) (xs : List A) → length (filter p xs) ≤ length xs
length-filter p [] = ground arith
length-filter p (x ∷ xs) = ground (arith, length-filter p xs)

-- The groups of a column count every row once.
counted :
    {A : Type 0} (of : String → Option A) (column : AnalysisRow → String) (rows : List AnalysisRow)
    (out : List (A × ℕ))
    → traverse (keyed of) (group_count (map column rows)) ≡ ok out
    → sum_values out ≡ length rows
counted of column rows out h =
    sum_values-traverse of (group_count (map column rows)) out h
    ∙ (sum_values-group_count (map column rows) ∙ length-map column rows)

-- The analyses of a property's month.
abbrev pub analysed : ℕ → Date → World → List AnalysisRow
analysed property_id month w = analyses_where (in_month property_id month) w.db

-- The figures of a month agree: the total, which the source sums over the categories, is the number of
-- the month's analyses of the property and the sum over the urgencies, and no more of them than the
-- total require action.
pub compute_stats_consistent :
    (property_id : ℕ) (month : Date) (w : World) (stats : MonthlyStats)
    → (compute_stats property_id month w).0 ≡ ok stats
    → (stats.total ≡ length (analysed property_id month w))
      × (sum_values stats.by_category ≡ stats.total)
      × (sum_values stats.by_urgency ≡ stats.total)
      × (stats.action_required ≤ stats.total)
unfolding compute_stats
compute_stats_consistent property_id month w stats h =
    let rows = analysed property_id month w in
    let categories = group_count (map (λ (a : AnalysisRow). a.category) rows) in
    let urgencies = group_count (map (λ (a : AnalysisRow). a.urgency) rows) in
    elim (Result-cases (traverse (keyed category_of) categories)) [
      | inr (x, e) ↦ absurd (ground arith)
      | inl (c, e) ↦ elim (Result-cases (traverse (keyed urgency_of) urgencies)) [
        | inr (x, f) ↦ absurd (ground arith)
        | inl (u, f) ↦ ground (
          arith,
          counted category_of (λ a. a.category) rows c e,
          counted urgency_of (λ a. a.urgency) rows u f,
          length-filter (λ (a : AnalysisRow). a.action_required) rows,
        )
      ]
    ]
