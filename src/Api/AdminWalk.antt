-- ===== src/Api/AdminWalk.antt =====
-- Somebody who follows the pages of the admin screen to their end.
use report_insight.Base.{
  ℕ, zero, suc, ◌<◌, ◌≡◌, ◌∙◌, ap, sym, refl, true, false, Bool, Bool-cases, Option, none, some,
  Option-cases, inl, inr, List, [], ◌∷◌, ◌++◌, append-nil, map, filter, take, length, is_empty, All,
  All-take, All-filter, ℤ, arith,
}
use report_insight.Domain.{User, Report, ReportListFilters, Result, Result-cases, ok, err}
use report_insight.Db.{World, Db, ReportRow, AnalysisRow, traverse}
use report_insight.Db.Table.{find_by, order_by_desc}
use report_insight.Db.Paging.{Distinct, All-order_by_desc}
use report_insight.Repositories.Report as Repo
use report_insight.Repositories.Report.{
  report_key, analysis_key, listed, queued, select_page, joined, load, list_with_analysis,
}
use report_insight.Repositories.User.{permitted_property_ids}
use report_insight.Admin.Service.{list_reports, review_queue, list_properties, clamp}
use report_insight.Admin.Pages.{matching, listed-splits, queued-splits}
use report_insight.Api.UiShared.{resolve_user}
use report_insight.Api.MonthlyPages.{world-resolve_user}
use report_insight.Api.AdminUi.{ReportsTable, page_size, page_of, last_key, admin_reports_partial}
use report_insight.Api.AdminTable.{fetched}
use report_insight.Api.AdminPages.{browse, shown_key, complete}

abbrev pub onto : List Report → Result (List Report) → Result (List Report)
onto xs (ok ys) = ok (xs ++ ys)
onto xs (err e) = err e

-- The reports of the page at a cursor and of those behind it, for a number of pages.
unfoldable pub follow : ℕ → ℤ → Bool → ReportListFilters → Option ℕ → World → Result (List Report)
unfolding admin_reports_partial
follow zero uid queue filters c w = ok []
follow (suc fuel) uid queue filters c w = elim (admin_reports_partial uid queue filters c w).0 [
  | err e ↦ err e
  | ok shown ↦ elim shown.next_cursor [
    | none ↦ ok shown.reports
    | some k ↦ onto shown.reports (follow fuel uid queue filters (some k) w)
  ]
]

-- The condition of the statement that a page runs.
abbrev pub asked : Bool → ReportListFilters → List ℕ → Option ℕ → ReportRow → AnalysisRow → Bool
asked true filters permitted c = queued permitted c
asked false filters permitted c = listed filters permitted c

follow-last :
    (fuel : ℕ) (uid : ℤ) (queue : Bool) (filters : ReportListFilters) (c : Option ℕ) (w : World)
    (shown : ReportsTable)
    → (admin_reports_partial uid queue filters c w).0 ≡ ok shown
    → shown.next_cursor ≡ none
    → follow (suc fuel) uid queue filters c w ≡ ok shown.reports
unfolding follow
follow-last fuel uid queue filters c w shown h e = ground arith

follow-more :
    (fuel : ℕ) (uid : ℤ) (queue : Bool) (filters : ReportListFilters) (c : Option ℕ) (w : World)
    (shown : ReportsTable) (k : ℕ)
    → (admin_reports_partial uid queue filters c w).0 ≡ ok shown
    → shown.next_cursor ≡ some k
    → follow (suc fuel) uid queue filters c w
      ≡ onto shown.reports (follow fuel uid queue filters (some k) w)
unfolding follow
follow-more fuel uid queue filters c w shown k h e = ground arith

filter-none : {A : Type 0} (q : A → Bool) (xs : List A) → ((x : A) → q x ≡ false) → filter q xs ≡ []
filter-none q [] h = refl
filter-none q (x ∷ xs) h = rw (h x) (filter-none q xs h)

take-nil : {A : Type 0} (n : ℕ) → take {A = A} n [] ≡ []
take-nil zero = refl
take-nil (suc n) = refl

module _ (db : Db) (reading : ReportRow → Report) where
  abbrev Loads : ReportRow → Type 0
  Loads r = load db r ≡ ok (reading r)

  Loads-id : (r : ReportRow) → Loads r → (reading r).id ≡ some r.id
  unfolding report_insight.Db.report_to_domain
  Loads-id r h = ground arith

  traverse-reading :
      (rows : List ReportRow) → All Loads rows → traverse (load db) rows ≡ ok (map reading rows)
  unfolding traverse
  traverse-reading [] h = refl
  traverse-reading (r ∷ rows) h = rw (h.0, traverse-reading rows h.1) refl

  length-reading : (rows : List ReportRow) → length (map reading rows) ≡ length rows
  length-reading [] = refl
  length-reading (r ∷ rows) = ap suc (length-reading rows)

  take-reading :
      (n : ℕ) (rows : List ReportRow) → take n (map reading rows) ≡ map reading (take n rows)
  take-reading zero rows = refl
  take-reading (suc n) [] = refl
  take-reading (suc n) (r ∷ rows) = ap (◌∷◌ (reading r)) (take-reading n rows)

  last_key-reading :
      (rows : List ReportRow)
      → All Loads rows
      → last_key (λ (r : Report). r.id) (map reading rows) ≡ last_key (shown_key report_key) rows
  unfolding last_key
  last_key-reading [] h = refl
  last_key-reading (r ∷ []) h = Loads-id r h.0
  last_key-reading (r ∷ s ∷ rows) h = last_key-reading (s ∷ rows) h.1

  page_of-reading :
      (size : ℕ) (rows : List ReportRow)
      → All Loads rows
      → page_of size (λ (r : Report). r.id) (map reading rows) ≡ (
        map reading (page_of size (shown_key report_key) rows).0,
        (page_of size (shown_key report_key) rows).1,
      )
  unfolding page_of
  page_of-reading size rows h =
      rw
        (
          length-reading rows,
          take-reading size rows,
          last_key-reading (take size rows) (All-take Loads size rows h),
        )
        refl

  Loads-select_page :
      (p : ReportRow → AnalysisRow → Bool) (limit : ℕ)
      → All Loads db.reports
      → All Loads (select_page p limit db)
  unfolding select_page
  Loads-select_page p limit h =
      let condition : ReportRow → Bool = λ r. joined p (find_by analysis_key r.id db.analyses) r in
      All-take Loads limit (order_by_desc report_key (filter condition db.reports)) (
        All-order_by_desc report_key Loads (filter condition db.reports)
          (All-filter Loads Loads condition db.reports (λ r _ k. k) h))

-- Somebody who may see nothing finds nothing.
asked-nobody :
    (queue : Bool) (filters : ReportListFilters) (permitted : List ℕ) (c : Option ℕ) (r : ReportRow)
    (o : Option AnalysisRow)
    → is_empty permitted ≡ true
    → joined (asked queue filters permitted c) o r ≡ false
unfolding listed queued
asked-nobody queue filters (x ∷ xs) c r o h = absurd (ground arith)
asked-nobody queue filters [] c r none h = refl
asked-nobody true filters [] c r (some a) h = ground arith
asked-nobody false filters [] c r (some a) h = ground arith

select_page-nobody :
    (queue : Bool) (filters : ReportListFilters) (permitted : List ℕ) (c : Option ℕ) (limit : ℕ)
    (db : Db)
    → is_empty permitted ≡ true
    → select_page (asked queue filters permitted c) limit db ≡ []
unfolding select_page order_by_desc
select_page-nobody queue filters permitted c limit db h =
    let condition : ReportRow → Bool =
      λ r. joined (asked queue filters permitted c) (find_by analysis_key r.id db.analyses) r in
    ap (λ rows. take limit (order_by_desc report_key rows))
      (filter-none condition db.reports
        (λ r. asked-nobody queue filters permitted c r (find_by analysis_key r.id db.analyses) h))
    ∙ take-nil limit

fetched-select :
    (user : User) (queue : Bool) (filters : ReportListFilters) (c : Option ℕ) (w : World)
    → is_empty (permitted_property_ids user w) ≡ false
    → (fetched user queue filters c w).0
      ≡ traverse
          (load w.db)
          (select_page (asked queue filters (permitted_property_ids user w) c) (suc page_size) w.db)
unfolding list_reports review_queue Repo.list_reports Repo.review_queue list_with_analysis clamp
fetched-select user true filters c w h = ground arith
fetched-select user false filters c w h = ground arith

fetched-nobody :
    (user : User) (queue : Bool) (filters : ReportListFilters) (c : Option ℕ) (w : World)
    → is_empty (permitted_property_ids user w) ≡ true
    → (fetched user queue filters c w).0 ≡ ok []
unfolding list_reports review_queue Repo.list_reports Repo.review_queue
fetched-nobody user true filters c w h = ground arith
fetched-nobody user false filters c w h = ground arith

module _ (user : User) (queue : Bool) (filters : ReportListFilters) (w : World)
    (reading : ReportRow → Report)
    (all : All (λ r. load w.db r ≡ ok (reading r)) w.db.reports) where
  abbrev fetch : Option ℕ → List ReportRow
  fetch c = select_page (asked queue filters (permitted_property_ids user w) c) (suc page_size) w.db

  fetched-reading : (c : Option ℕ) → (fetched user queue filters c w).0 ≡ ok (map reading (fetch c))
  fetched-reading c = elim (Bool-cases (is_empty (permitted_property_ids user w))) [
    | inl e ↦
        fetched-nobody user queue filters c w e
        ∙ ap (λ rows. ok (map reading rows))
            (sym (
              select_page-nobody queue filters (permitted_property_ids user w) c (suc page_size)
                w.db e))
    | inr e ↦
        fetched-select user queue filters c w e
        ∙ traverse-reading w.db reading (fetch c) (
            Loads-select_page w.db reading (asked queue filters (permitted_property_ids user w) c)
              (suc page_size) all)
  ]

  -- What a page shows, and where the next one begins.
  partial-page :
      (uid : ℤ) (c : Option ℕ)
      → (resolve_user uid w).0 ≡ ok user
      → (shown : ReportsTable) × ((admin_reports_partial uid queue filters c w).0 ≡ ok shown)
        × (shown.reports ≡ map reading (page_of page_size (shown_key report_key) (fetch c)).0)
        × (shown.next_cursor ≡ (page_of page_size (shown_key report_key) (fetch c)).1)
  unfolding admin_reports_partial page_of list_properties
      report_insight.Repositories.User.list_properties
  partial-page uid c known =
      let same = world-resolve_user uid w in
      let rows = fetched-reading c in
      let whole = page_of page_size (λ (r : Report). r.id) (map reading (fetch c)) in
      let page = page_of-reading w.db reading page_size (fetch c) (
        Loads-select_page w.db reading (asked queue filters (permitted_property_ids user w) c)
          (suc page_size) all) in
      elim (Result-cases (admin_reports_partial uid queue filters c w).0) [
        | inr (x, e) ↦ absurd (ground arith)
        | inl (shown, e) ↦
            let reports : shown.reports ≡ whole.0 = ground arith in
            let next : shown.next_cursor ≡ whole.1 = ground arith in
            (
              shown,
              e,
              reports ∙ ap (λ (x : List Report × Option ℕ). x.0) page,
              next ∙ ap (λ (x : List Report × Option ℕ). x.1) page,
            )
      ]

  map-append : (xs ys : List ReportRow) → map reading (xs ++ ys) ≡ map reading xs ++ map reading ys
  map-append [] ys = refl
  map-append (x ∷ xs) ys = ap (◌∷◌ (reading x)) (map-append xs ys)

  follow-browse :
      (uid : ℤ) (fuel : ℕ) (c : Option ℕ)
      → (resolve_user uid w).0 ≡ ok user
      → follow fuel uid queue filters c w
        ≡ ok (map reading (browse report_key page_size fetch fuel c))
  unfolding follow browse
  follow-browse uid zero c known = refl
  follow-browse uid (suc fuel) c known =
      let (shown, answered, reports, next) = partial-page uid c known in
      let rows = (page_of page_size (shown_key report_key) (fetch c)).0 in
      elim (Option-cases (page_of page_size (shown_key report_key) (fetch c)).1) [
        | inl e ↦
            let last : browse report_key page_size fetch (suc fuel) c ≡ rows ++ [] = rw e refl in
            follow-last fuel uid queue filters c w shown answered (next ∙ e)
            ∙ ap (λ xs. ok xs) (reports ∙ sym (ap (map reading) (last ∙ append-nil rows)))
        | inr (k, e) ↦
            let rest = browse report_key page_size fetch fuel (some k) in
            let more : browse report_key page_size fetch (suc fuel) c ≡ rows ++ rest = rw e refl in
            follow-more fuel uid queue filters c w shown k answered (next ∙ e)
            ∙ ap (onto shown.reports) (follow-browse uid fuel (some k) known)
            ∙ ap (λ xs. ok (xs ++ map reading rest)) reports
            ∙ ap (λ xs. ok xs) (sym (ap (map reading) more ∙ map-append rows rest))
      ]

-- Nothing is lost or shown twice on the admin screen: somebody who asks the handler for the first page and
-- then follows `next_cursor` until there is none has been shown exactly the reports of the permitted rows
-- that match the filter, each once, the highest id first, and in the queue exactly those to be reviewed.
-- The ids are distinct, every row can be read, the user is known, and more pages are asked for than there are
-- such rows.
pub follow-all :
    (uid : ℤ) (user : User) (queue : Bool) (filters : ReportListFilters) (w : World)
    (reading : ReportRow → Report) (fuel : ℕ)
    → (resolve_user uid w).0 ≡ ok user
    → Distinct report_key w.db.reports
    → All (λ r. load w.db r ≡ ok (reading r)) w.db.reports
    → length (matching (asked queue filters (permitted_property_ids user w) none) w.db) < fuel
    → follow fuel uid queue filters none w
      ≡ ok (map reading (matching (asked queue filters (permitted_property_ids user w) none) w.db))
follow-all uid user true filters w reading fuel known distinct all few =
    follow-browse user true filters w reading all uid fuel none known
    ∙ ap (λ rows. ok (map reading rows))
        (complete (queued (permitted_property_ids user w))
          (queued-splits (permitted_property_ids user w)) w.db fuel distinct few)
follow-all uid user false filters w reading fuel known distinct all few =
    follow-browse user false filters w reading all uid fuel none known
    ∙ ap (λ rows. ok (map reading rows))
        (complete (listed filters (permitted_property_ids user w))
          (listed-splits filters (permitted_property_ids user w)) w.db fuel distinct few)
