-- ===== src/Repositories/Monthly.antt =====
-- `SqlMonthlyReportRepository` and `_month_bounds`, but for `compute_stats` (Stats.antt).
use report_insight.Base.{
  ℕ, ◌+◌, ◌==◌, Bool, not, ◌&&◌, ◌||◌, Option, none, some, List, [], ◌∷◌, Text, elem, filter, take,
  is_empty, if◌then◌else◌, ltb, map,
}
use report_insight.Domain.{
  Date, Datetime, MonthlyReport, MonthlyStatus, generating, approved, monthly_status_value,
  not_found, permission_denied, external,
}
use report_insight.Db.Table.{find_by, update_by, order_by_desc, contains}
use report_insight.Db.{
  Db, PropertyRow, MonthlyRow, monthly_to_domain, traverse, Server, Exec, lift, gets, pure,
  or_raise, raise_if, modify, ◌>>=◌, ◌>>◌,
}

abbrev pub monthly_id : MonthlyRow → ℕ
monthly_id r = r.id

abbrev pub property_key : PropertyRow → ℕ
property_key r = r.id

abbrev pub date_eq : Date → Date → Bool
date_eq a b = a.year == b.year && (a.month == b.month && a.day == b.day)

unfoldable pub property_name : ℕ → Exec Text
unfolding find_by
property_name property_id = do
  found ← gets (λ w. find_by property_key property_id w.db.properties)
  row ← or_raise found not_found
  pure row.name

-- The rows of one property and month.
abbrev pub generations : ℕ → Date → List MonthlyRow → List MonthlyRow
generations p m = filter (λ (r : MonthlyRow). r.property_id == p && date_eq r.month m)

-- `SELECT max(version)`, NULL over no rows
unfoldable pub max_version : List MonthlyRow → Option ℕ
max_version [] = none
max_version (r ∷ rows) = elim (max_version rows) [
  | none ↦ some r.version
  | some v ↦ some (if ltb v r.version then r.version else v)
]

-- `(current_max or 0) + 1`
abbrev pub next_version : Option ℕ → ℕ
next_version none = 1
next_version (some v) = v + 1

-- The constraints on an inserted row: the primary key, the foreign key and `uq_monthly_pmv`.
abbrev pub refused : MonthlyRow → Db → Bool
refused row db =
    contains monthly_id row.id db.monthly_reports
    || (not (contains property_key row.property_id db.properties)
        || elem row.version (
            map (λ (r : MonthlyRow). r.version)
              (generations row.property_id row.month db.monthly_reports)))

unfoldable pub insert_monthly : MonthlyRow → Exec (Unit {0})
unfolding contains
insert_monthly row = do
  db ← gets (λ w. w.db)
  raise_if (refused row db) external
  modify λ db. record db { monthly_reports = row ∷ db.monthly_reports }

unfoldable pub get_internal : ℕ → Exec MonthlyReport
unfolding find_by monthly_to_domain
get_internal id = do
  found ← gets (λ w. find_by monthly_id id w.db.monthly_reports)
  row ← or_raise found not_found
  lift (monthly_to_domain row)

unfoldable pub get : ℕ → List ℕ → Exec MonthlyReport
unfolding get_internal
get id permitted = do
  report ← get_internal id
  raise_if (not (elem report.property_id permitted)) permission_denied
  pure report

abbrev pub new_generation : ℕ → ℕ → Date → ℕ → MonthlyRow
new_generation id property_id month version = record {
  id = id;
  property_id = property_id;
  month = month;
  version = version;
  body_markdown = [];
  status = monthly_status_value generating;
  approved_by = none;
  approved_at = none;
}

unfoldable pub create_generating : Server → ℕ → Date → List ℕ → Exec MonthlyReport
unfolding max_version insert_monthly get_internal
create_generating server property_id month permitted = do
  raise_if (not (elem property_id permitted)) permission_denied
  w ← gets (λ w. w)
  let version = next_version (max_version (generations property_id month w.db.monthly_reports))
  insert_monthly (new_generation (server.next_monthly_id w) property_id month version)
  get_internal (server.next_monthly_id w)

unfoldable pub list_reports : List ℕ → ℕ → Exec (List MonthlyReport)
unfolding order_by_desc traverse monthly_to_domain
list_reports permitted limit = do
  w ← gets (λ w. w)
  let rows = filter (λ (r : MonthlyRow). elem r.property_id permitted) w.db.monthly_reports
  if is_empty permitted
      then pure []
      else lift (traverse monthly_to_domain (take limit (order_by_desc monthly_id rows)))

-- The row is read, and its attributes are set and flushed.
abbrev update_row : ℕ → (MonthlyRow → MonthlyRow) → Exec MonthlyReport
unfolding find_by update_by monthly_to_domain
update_row id change = do
  found ← gets (λ w. find_by monthly_id id w.db.monthly_reports)
  row ← or_raise found not_found
  modify λ db. record db { monthly_reports = update_by monthly_id id change db.monthly_reports }
  lift (monthly_to_domain (change row))

unfoldable pub with_body : Text → MonthlyStatus → MonthlyRow → MonthlyRow
with_body body status row = record row {
  body_markdown = body;
  status = monthly_status_value status;
}

unfoldable pub set_body : ℕ → Text → MonthlyStatus → Exec MonthlyReport
unfolding update_row with_body
set_body id body status = update_row id (with_body body status)

unfoldable pub with_approval : ℕ → Datetime → MonthlyRow → MonthlyRow
with_approval approver_id approved_at row = record row {
  status = monthly_status_value approved;
  approved_by = some approver_id;
  approved_at = some approved_at;
}

unfoldable pub approve : ℕ → ℕ → Datetime → Exec MonthlyReport
unfolding update_row with_approval
approve id approver_id approved_at = update_row id (with_approval approver_id approved_at)
