-- ===== src/Api/AdminUi.antt =====
-- app/api/routers/admin_ui.py, but for the tables of labels and values that every page gets.
use report_insight.Base.{
  ℕ, suc, String, str_eq, Option, none, some, List, [], ◌∷◌, take, Bool, if◌then◌else◌, ltb, length,
  ℤ, pos, true, false, map, Text,
}
use report_insight.Domain.{User, Property, Report, ReportListFilters, Category, Urgency}
use report_insight.Db.{Server, Exec, pure, unit_of_work, ◌>>=◌, ◌>>◌}
use report_insight.Admin.Service.{
  list_reports, review_queue, override_analysis, get_report, list_properties,
}
use report_insight.Api.UiShared.{resolve_user, all_users}

-- A query parameter is absent, or a text.
unfoldable pub empty_to_none : Option String → Option String
empty_to_none none = none
empty_to_none (some value) = if str_eq value "" then none else some value

abbrev pub page_size : ℕ
page_size = 20

-- `reports[-1].id`, where the list is not empty
unfoldable pub last_key : {A : Type 0} → (A → Option ℕ) → List A → Option ℕ
last_key key [] = none
last_key key (r ∷ []) = key r
last_key key (r ∷ s ∷ rs) = last_key key (s ∷ rs)

-- The rows that a page of this size shows, and its `next_cursor`: one row more was fetched than is
-- shown.
unfoldable pub page_of : {A : Type 0} → ℕ → (A → Option ℕ) → List A → List A × Option ℕ
unfolding last_key
page_of size key rows =
    (take size rows, if ltb size (length rows) then last_key key (take size rows) else none)

-- `_property_names`
abbrev pub property_names : List Property → List (ℕ × Text)
property_names props = map (λ (p : Property). (p.id, p.name)) props

pub record AdminHome : Type 0 where
  pub user : User
  pub users : List User
  pub properties : List Property

-- `admin_home`
unfoldable pub admin_home : ℤ → Exec AdminHome
unfolding resolve_user all_users
admin_home uid = do
  user ← resolve_user uid
  props ← list_properties user
  users ← all_users
  pure (record { user = user; users = users; properties = props })

pub record ReportsTable : Type 0 where
  pub reports : List Report
  pub property_names : List (ℕ × Text)
  pub queue : Bool
  pub next_cursor : Option ℕ
  pub is_first_page : Bool
  -- the filters, whose values the page writes
  pub query : ReportListFilters

abbrev pub is_none : Option ℕ → Bool
is_none none = true
is_none (some _) = false

-- The report list with a filter, or the review queue.
unfoldable pub admin_reports_partial : ℤ → Bool → ReportListFilters → Option ℕ → Exec ReportsTable
unfolding page_of resolve_user
admin_reports_partial uid queue filters cursor = do
  user ← resolve_user uid
  props ← list_properties user
  rows ←
      if queue
      then review_queue user cursor (pos (suc page_size))
      else list_reports user filters cursor (pos (suc page_size))
  let page = page_of page_size (λ (r : Report). r.id) rows
  pure (record {
    reports = page.0;
    property_names = property_names props;
    queue = queue;
    next_cursor = page.1;
    is_first_page = is_none cursor;
    query = filters;
  })

pub record ReportDetail : Type 0 where
  pub report : Report
  pub property_names : List (ℕ × Text)
  pub saved : Bool

-- `admin_report_detail`
unfoldable pub admin_report_detail : ℤ → ℕ → Exec ReportDetail
unfolding resolve_user
admin_report_detail uid report_id = do
  user ← resolve_user uid
  props ← list_properties user
  report ← get_report user report_id
  pure (record { report = report; property_names = property_names props; saved = false })

-- The transaction of `admin_override_analysis`, and the report that its page shows.
unfoldable pub override_and_show : Server → User → ℕ → Category → Urgency → Bool → Exec Report
unfolding unit_of_work
override_and_show server user report_id category urgency action_required = unit_of_work (
    override_analysis server user report_id category urgency action_required
    >> get_report user report_id)

unfoldable pub admin_override_analysis :
    Server → ℤ → ℕ → Category → Urgency → Bool → Exec ReportDetail
unfolding override_and_show resolve_user
admin_override_analysis server uid report_id category urgency action_required = do
  user ← resolve_user uid
  props ← list_properties user
  report ← override_and_show server user report_id category urgency action_required
  pure (record { report = report; property_names = property_names props; saved = true })
