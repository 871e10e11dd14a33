-- ===== src/Api/Reports/Within.antt =====
-- The lists of the service hold reports of permitted properties.
use report_insight.Base.{
  ℕ, ◌≡◌, true, Bool, Bool-cases, Option, none, some, inl, inr, List, [], ◌∷◌, filter, elem, All,
  All-filter, All-take, ℤ, arith, is_empty,
}
use report_insight.Domain.{User, Report, ReportListFilters, Result, ok}
use report_insight.Db.{
  World, Server, Db, ReportRow, AnalysisRow, PropertyRow, Exec, traverse, unit_of_work,
  property_to_domain,
}
use report_insight.Db.Table.{find_by, order_by_desc}
use report_insight.Db.Paging.{All-order_by_desc}
use report_insight.Repositories.Report as Repo
use report_insight.Repositories.Report.{
  report_key, analysis_key, select_page, listed, queued, joined, load, list_with_analysis,
}
use report_insight.Repositories.User.{permitted_property_ids}
use report_insight.Admin.Service

pub All-traverse :
    {A B : Type 0} (P : A → Type 0) (Q : B → Type 0) (f : A → Result B) (xs : List A) (ys : List B)
    → ((x : A) (y : B) → f x ≡ ok y → P x → Q y)
    → traverse f xs ≡ ok ys
    → All P xs
    → All Q ys
unfolding traverse
All-traverse P Q f [] [] step h all = tt
All-traverse P Q f [] (y ∷ ys) step h all = absurd (ground arith)
All-traverse P Q f (x ∷ xs) [] step h all = absurd (ground arith)
All-traverse P Q f (x ∷ xs) (y ∷ ys) step h all =
    (step x y (ground arith) all.0, All-traverse P Q f xs ys step (ground arith) all.1)

abbrev pub Permitted : List ℕ → ReportRow → Type 0
Permitted permitted r = elem r.property_id permitted ≡ true

abbrev pub Within : List ℕ → Report → Type 0
Within permitted r = elem r.property_id permitted ≡ true

joined-Permitted :
    (permitted : List ℕ) (p : ReportRow → AnalysisRow → Bool) (r : ReportRow)
    (o : Option AnalysisRow)
    → ((r : ReportRow) (a : AnalysisRow) → p r a ≡ true → elem r.property_id permitted ≡ true)
    → joined p o r ≡ true
    → Permitted permitted r
joined-Permitted permitted p r none asks h = absurd (ground arith)
joined-Permitted permitted p r (some a) asks h = asks r a h

every : (rows : List ReportRow) → All (λ _. Unit {0}) rows
every [] = tt
every (r ∷ rows) = (tt, every rows)

-- The page of a condition that asks for a permitted property.
select_page-Permitted :
    (permitted : List ℕ) (p : ReportRow → AnalysisRow → Bool) (limit : ℕ) (db : Db)
    → ((r : ReportRow) (a : AnalysisRow) → p r a ≡ true → elem r.property_id permitted ≡ true)
    → All (Permitted permitted) (select_page p limit db)
unfolding select_page
select_page-Permitted permitted p limit db asks =
    let condition : ReportRow → Bool = λ r. joined p (find_by analysis_key r.id db.analyses) r in
    let matching = filter condition db.reports in
    All-take (Permitted permitted) limit (order_by_desc report_key matching) (
      All-order_by_desc report_key (Permitted permitted) matching (
        All-filter (λ _. Unit {0}) (Permitted permitted) condition db.reports
          (λ r h _. joined-Permitted permitted p r (find_by analysis_key r.id db.analyses) asks h)
          (every db.reports)))

load-Within :
    (permitted : List ℕ) (db : Db) (r : ReportRow) (x : Report)
    → load db r ≡ ok x
    → Permitted permitted r
    → Within permitted x
unfolding report_insight.Db.report_to_domain
load-Within permitted db r x h p = ground arith

-- What the two lists of the service load.
list_with_analysis-Within :
    (permitted : List ℕ) (p : ReportRow → AnalysisRow → Bool) (limit : ℕ) (w : World)
    (out : List Report)
    → ((r : ReportRow) (a : AnalysisRow) → p r a ≡ true → elem r.property_id permitted ≡ true)
    → (list_with_analysis p limit w).0 ≡ ok out
    → All (Within permitted) out
unfolding list_with_analysis
list_with_analysis-Within permitted p limit w out asks h =
    All-traverse (Permitted permitted) (Within permitted) (load w.db) (select_page p limit w.db) out
      (load-Within permitted w.db) (ground arith)
      (select_page-Permitted permitted p limit w.db asks)

listed-asks :
    (filters : ReportListFilters) (permitted : List ℕ) (cursor : Option ℕ) (r : ReportRow)
    (a : AnalysisRow)
    → listed filters permitted cursor r a ≡ true
    → elem r.property_id permitted ≡ true
unfolding listed
listed-asks filters permitted cursor r a h = ground arith

queued-asks :
    (permitted : List ℕ) (cursor : Option ℕ) (r : ReportRow) (a : AnalysisRow)
    → queued permitted cursor r a ≡ true
    → elem r.property_id permitted ≡ true
unfolding queued
queued-asks permitted cursor r a h = ground arith

nothing : {A : Type 0} (P : A → Type 0) (xs : List A) → ok [] ≡ ok xs → All P xs
nothing P [] h = tt
nothing P (x ∷ xs) h = absurd (ground arith)

pub list_reports-Within :
    (user : User) (filters : ReportListFilters) (cursor : Option ℕ) (limit : ℤ) (w : World)
    (out : List Report)
    → (Service.list_reports user filters cursor limit w).0 ≡ ok out
    → All (Within (permitted_property_ids user w)) out
unfolding Service.list_reports Repo.list_reports
list_reports-Within user filters cursor limit w out h =
    let permitted = permitted_property_ids user w in
    elim (Bool-cases (is_empty permitted)) [
      | inl e ↦ nothing (Within permitted) out (ground arith)
      | inr e ↦
          list_with_analysis-Within permitted (listed filters permitted cursor)
            (Service.clamp limit) w out (listed-asks filters permitted cursor) (ground arith)
    ]

pub review_queue-Within :
    (user : User) (cursor : Option ℕ) (limit : ℤ) (w : World) (out : List Report)
    → (Service.review_queue user cursor limit w).0 ≡ ok out
    → All (Within (permitted_property_ids user w)) out
unfolding Service.review_queue Repo.review_queue
review_queue-Within user cursor limit w out h =
    let permitted = permitted_property_ids user w in
    elim (Bool-cases (is_empty permitted)) [
      | inl e ↦ nothing (Within permitted) out (ground arith)
      | inr e ↦
          list_with_analysis-Within permitted (queued permitted cursor) (Service.clamp limit) w out
            (queued-asks permitted cursor) (ground arith)
    ]
