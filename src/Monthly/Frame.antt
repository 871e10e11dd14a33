-- ===== src/Monthly/Frame.antt =====
-- What each operation does to the row with a given id.
use report_insight.Base.{ℕ, ◌≡◌, ◌≢◌, Option, some, true, ◌∷◌, [], arith, Text, List}
use report_insight.Domain.{
  User, Date, MonthlyReport, MonthlyStatus, draft, generating, monthly_status_of, MonthlyStats,
  MonthlyNarration, Result, ok,
}
use report_insight.Domain.RoundTrip.{monthly_status_of-monthly_status_value}
use report_insight.Db.{World, Server, MonthlyRow, monthly_to_domain, unit_of_work}
use report_insight.Db.Table.{find_by, find_by-update_by, contains}
use report_insight.Repositories.Stats.{compute_stats}
use report_insight.Repositories.Audit.{record_action}
use report_insight.Repositories.Monthly as Repo
use report_insight.Repositories.Monthly.{
  monthly_id, with_body, with_approval, get_internal, new_generation, next_version, max_version,
  generations,
}
use report_insight.Domain.Calendar.{first_of_month}
use report_insight.Monthly.Jobs.{save_and_approve}
use report_insight.Monthly.Service.{
  save_draft, approve, request_generation, run_generation, generate, deny_qa_writes,
}

-- The row with this id.
abbrev pub row_of : ℕ → World → Option MonthlyRow
row_of id w = find_by monthly_id id w.db.monthly_reports

-- Saving leaves a row alone that is not a draft.
pub row_of-save_draft :
    (i k : ℕ) (user : User) (body : Text) (w : World) (r : MonthlyRow)
    → row_of i w ≡ some r
    → monthly_status_of r.status ≢ some draft
    → row_of i (unit_of_work (save_draft user k body) w).1 ≡ some r
unfolding save_draft unit_of_work deny_qa_writes Repo.get get_internal monthly_to_domain
    Repo.set_body
row_of-save_draft i k user body w r h a =
    ground (arith, find_by-update_by monthly_id i k (with_body body draft) w.db.monthly_reports)

-- Approving leaves a row alone that is not a draft.
pub row_of-approve :
    (i k : ℕ) (server : Server) (user : User) (w : World) (r : MonthlyRow)
    → row_of i w ≡ some r
    → monthly_status_of r.status ≢ some draft
    → row_of i (unit_of_work (approve server user k) w).1 ≡ some r
unfolding approve unit_of_work deny_qa_writes Repo.get get_internal monthly_to_domain Repo.approve
    record_action
row_of-approve i k server user w r h a = ground (
  arith,
  find_by-update_by monthly_id i k (with_approval user.id (server.now w)) w.db.monthly_reports,
)

-- A row that is found has a key of the table.
found-contains :
    (k : ℕ) (rows : List MonthlyRow) (r : MonthlyRow)
    → find_by monthly_id k rows ≡ some r
    → contains monthly_id k rows ≡ true
unfolding find_by contains
found-contains k [] r h = ground arith
found-contains k (s ∷ rows) r h = ground (arith, found-contains k rows r)

-- A request leaves the rows alone that are there.
pub row_of-request_generation :
    (i p : ℕ) (server : Server) (user : User) (month : Date) (w : World) (r : MonthlyRow)
    → row_of i w ≡ some r
    → row_of i (unit_of_work (request_generation server user p month) w).1 ≡ some r
unfolding request_generation unit_of_work deny_qa_writes Repo.create_generating Repo.insert_monthly
    find_by
row_of-request_generation i p server user month w r h =
    ground (arith, found-contains i w.db.monthly_reports r)

-- Reads change nothing.
pub world-compute_stats : (p : ℕ) (month : Date) (w : World) → (compute_stats p month w).1 ≡ w
unfolding compute_stats
world-compute_stats p month w = ground arith

pub world-property_name : (p : ℕ) (w : World) → (Repo.property_name p w).1 ≡ w
unfolding Repo.property_name
world-property_name p w = ground arith

pub world-get_internal : (k : ℕ) (w : World) → (get_internal k w).1 ≡ w
unfolding get_internal
world-get_internal k w = ground arith

row_of-set_body :
    (i k : ℕ) (body : Text) (s : MonthlyStatus) (w : World)
    → i ≢ k
    → row_of i (Repo.set_body k body s w).1 ≡ row_of i w
unfolding Repo.set_body with_body
row_of-set_body i k body s w ne =
    ground (arith, find_by-update_by monthly_id i k (with_body body s) w.db.monthly_reports)

-- Generation for one id leaves the rows with other ids alone.
row_of-generate :
    (i k : ℕ) (narrate : Text → MonthlyStats → Result MonthlyNarration) (report : MonthlyReport)
    (w : World)
    → i ≢ k
    → row_of i (generate narrate k report w).1 ≡ row_of i w
unfolding generate
row_of-generate i k narrate report w ne =
    grind (arith, row_of-set_body, world-compute_stats, world-property_name)

pub row_of-run_generation :
    (i k : ℕ) (narrate : Text → MonthlyStats → Result MonthlyNarration) (w : World)
    → i ≢ k
    → row_of i (unit_of_work (run_generation narrate k) w).1 ≡ row_of i w
unfolding run_generation unit_of_work
row_of-run_generation i k narrate w ne =
    grind (arith, row_of-set_body, row_of-generate, world-get_internal)

-- The row that a request adds.
abbrev pub requested : Server → ℕ → Date → World → MonthlyRow
requested server p month w =
    new_generation (server.next_monthly_id w) p (first_of_month month)
      (next_version (max_version (generations p (first_of_month month) w.db.monthly_reports)))

-- A request that succeeds returns the id of a report that is generating.
pub row_of-created :
    (p : ℕ) (server : Server) (user : User) (month : Date) (w : World) (report : MonthlyReport)
    (id : ℕ)
    → (unit_of_work (request_generation server user p month) w).0 ≡ ok report
    → report.id ≡ some id
    → (r : MonthlyRow) × (row_of id (unit_of_work (request_generation server user p month) w).1
        ≡ some r)
      × (monthly_status_of r.status ≡ some generating)
unfolding request_generation unit_of_work deny_qa_writes Repo.create_generating Repo.insert_monthly
    get_internal find_by monthly_to_domain
row_of-created p server user month w report id h e = (
  requested server p month w,
  ground (arith, monthly_status_of-monthly_status_value generating),
  monthly_status_of-monthly_status_value generating,
)

-- Saving and approving in one unit of work leaves a row alone that is not a draft.
pub row_of-save_and_approve :
    (i k : ℕ) (server : Server) (user : User) (body : Text) (w : World) (r : MonthlyRow)
    → row_of i w ≡ some r
    → monthly_status_of r.status ≢ some draft
    → row_of i (save_and_approve server user k body w).1 ≡ some r
unfolding save_and_approve unit_of_work
row_of-save_and_approve i k server user body w r h a = ground (
  arith,
  row_of-save_draft i k user body w r,
  row_of-approve i k server user (save_draft user k body w).1 r,
)
