-- ===== src/Admin/Pages.antt =====
-- The pages of the report list and of the review queue.
use report_insight.Base.{
  ℕ, suc, ◌<◌, ◌≡◌, ◌∙◌, ap, sym, refl, subst, Bool, ◌&&◌, Option, none, some, List, take, filter,
  length, arith,
}
use report_insight.Domain.{ReportListFilters}
use report_insight.Db.{Db, ReportRow, AnalysisRow}
use report_insight.Db.Table.{find_by, order_by_desc}
use report_insight.Db.Paging.{
  Distinct, Descends-filter, Descends-order_by_desc, filter-order_by_desc, filter-filter, filter-eq,
  All-always,
}
use report_insight.Db.Walk.{before, walk, walk-all, filter-always}
use report_insight.Repositories.Report.{
  report_key, analysis_key, listed, queued, joined, select_page,
}

-- A condition with a cursor: the condition without one, and an id below the cursor.
module _ (p : Option ℕ → ReportRow → AnalysisRow → Bool)
    (splits : (c : Option ℕ) (r : ReportRow) (a : AnalysisRow)
      → p c r a ≡ (p none r a && before report_key c r))
    (db : Db) where
  unfoldable pub row_test : Option ℕ → ReportRow → Bool
  row_test c r = joined (p c) (find_by analysis_key r.id db.analyses) r

  joined-splits :
      (c : Option ℕ) (o : Option AnalysisRow) (r : ReportRow)
      → (joined (p none) o r && before report_key c r) ≡ joined (p c) o r
  joined-splits c none r = refl
  joined-splits c (some a) r = sym (splits c r a)

  -- All the rows, in the order of the list.
  abbrev pub all_rows : List ReportRow
  all_rows = filter (row_test none) (order_by_desc report_key db.reports)

  pub page_fetches :
      (limit : ℕ) (c : Option ℕ)
      → Distinct report_key db.reports
      → select_page (p c) limit db ≡ take limit (filter (before report_key c) all_rows)
  unfolding select_page row_test
  page_fetches limit c d = ap (take limit) (
      filter-order_by_desc report_key (row_test c) db.reports d
      ∙ sym (
          filter-filter (before report_key c) (row_test none) (order_by_desc report_key db.reports)
          ∙ filter-eq (λ r. row_test none r && before report_key c r) (row_test c)
              (order_by_desc report_key db.reports)
              (All-always (λ r. (row_test none r && before report_key c r) ≡ row_test c r)
                (order_by_desc report_key db.reports)
                (λ r. joined-splits c (find_by analysis_key r.id db.analyses) r))))

  pages_complete :
      (l fuel : ℕ)
      → Distinct report_key db.reports
      → length all_rows < fuel
      → walk report_key (λ c. select_page (p c) (suc l) db) (suc l) fuel none ≡ all_rows
  pages_complete l fuel d enough =
      walk-all report_key all_rows
        (Descends-filter report_key (row_test none) (order_by_desc report_key db.reports)
          (Descends-order_by_desc report_key db.reports d))
        l (λ c. select_page (p c) (suc l) db) (λ c. page_fetches (suc l) c d) fuel none
        (subst (λ (rows : List ReportRow). length rows < fuel) (sym (filter-always all_rows))
          enough)
      ∙ filter-always all_rows

pub listed-splits :
    (filters : ReportListFilters) (permitted : List ℕ) (c : Option ℕ) (r : ReportRow)
    (a : AnalysisRow)
    → listed filters permitted c r a ≡ (listed filters permitted none r a && before report_key c r)
unfolding listed
listed-splits filters permitted none r a = ground arith
listed-splits filters permitted (some k) r a = ground arith

pub queued-splits :
    (permitted : List ℕ) (c : Option ℕ) (r : ReportRow) (a : AnalysisRow)
    → queued permitted c r a ≡ (queued permitted none r a && before report_key c r)
unfolding queued
queued-splits permitted none r a = ground arith
queued-splits permitted (some k) r a = ground arith

-- Every row that meets the conditions, the highest id first.
abbrev pub matching : (ReportRow → AnalysisRow → Bool) → Db → List ReportRow
matching p db =
    filter (λ r. joined p (find_by analysis_key r.id db.analyses) r)
      (order_by_desc report_key db.reports)

-- Paging through the report list loses and repeats nothing: for every filter and every page size
-- from 1, a client that follows the cursors until a page is not full has received exactly the
-- permitted reports that match the filter, each once, the highest id first, if the ids are distinct
-- and the client makes more requests than there are such reports.
pub list_pages_complete :
    (filters : ReportListFilters) (permitted : List ℕ) (db : Db) (l fuel : ℕ)
    → Distinct report_key db.reports
    → length (matching (listed filters permitted none) db) < fuel
    → walk report_key (λ c. select_page (listed filters permitted c) (suc l) db) (suc l) fuel none
      ≡ matching (listed filters permitted none) db
list_pages_complete filters permitted db l fuel d enough =
    unfold row_test in
    pages_complete (listed filters permitted) (listed-splits filters permitted) db l fuel d enough

-- The same of the review queue.
pub queue_pages_complete :
    (permitted : List ℕ) (db : Db) (l fuel : ℕ)
    → Distinct report_key db.reports
    → length (matching (queued permitted none) db) < fuel
    → walk report_key (λ c. select_page (queued permitted c) (suc l) db) (suc l) fuel none
      ≡ matching (queued permitted none) db
queue_pages_complete permitted db l fuel d enough =
    unfold row_test in
    pages_complete (queued permitted) (queued-splits permitted) db l fuel d enough
