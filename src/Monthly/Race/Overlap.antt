-- ===== src/Monthly/Race/Overlap.antt =====
-- What two requests do whose checks both come before the writes.
use report_insight.Base.{ℕ, ◌≡◌, ap, ◌∙◌, sym, refl, some, List, [], ◌∷◌, Text, arith}
use report_insight.Domain.RoundTrip.{monthly_status_of-monthly_status_value}
use report_insight.Domain.{User, MonthlyReport, draft, ok, Result}
use report_insight.Db.{World, Server, MonthlyRow, unit_of_work}
use report_insight.Db.Table.{find_by-update_by}
use report_insight.Repositories.Monthly as Repo
use report_insight.Repositories.Monthly.{get_internal, monthly_id, with_body, with_approval}
use report_insight.Monthly.Frame.{row_of}
use report_insight.Monthly.Service.{deny_qa_writes, save_draft, write_approval}
use report_insight.Monthly.Service
use report_insight.Monthly.Approval.{write_approval_lem}
use report_insight.Monthly.Race.{
  after_check, Request, save, approve, waiting, Race, check_draft, check, write, turn, turn_at,
  step, interleave,
}

-- Both requests are checked, the approval is committed, and then the text.
abbrev pub overlap : List ℕ
overlap = 0 ∷ 1 ∷ 1 ∷ 0 ∷ []

abbrev pub saver_and_approver : User → User → ℕ → Text → World → Race
saver_and_approver saver approver k body w = record {
  world = w;
  sessions = waiting (save saver k body) ∷ waiting (approve approver k) ∷ [];
}

-- What is left of the schedule, for the outcomes of the checks.
abbrev writes : Server → Request → Request → World → Result ℕ → Result ℕ → Race
writes server request request' w v v' =
    interleave server (1 ∷ 0 ∷ [])
      record { world = w; sessions = after_check request v ∷ after_check request' v' ∷ [] }

-- The two checks pass, and then come the two writes, the approval's first.
overlap_runs :
    (server : Server) (saver approver : User) (k : ℕ) (body : Text) (w : World)
    → (check (save saver k body) w).0 ≡ ok 0
    → (check (approve approver k) w).0 ≡ ok 0
    → (interleave server overlap (saver_and_approver saver approver k body w)).world
      ≡ (unit_of_work
          (Repo.set_body k body draft)
          (unit_of_work (write_approval server approver k) w).1).1
unfolding interleave step turn_at turn write
overlap_runs server saver approver k body w h h' =
    let a = save saver k body in
    let b = approve approver k in
    ap (λ v. (writes server a b w v (check b w).0).world) h
    ∙ ap (λ v'. (writes server a b w (ok 0) v').world) h'

-- What a request's check has found where its handler succeeds.
save_checked :
    (saver : User) (k : ℕ) (body : Text) (w : World) (m : MonthlyReport)
    → (save_draft saver k body w).0 ≡ ok m
    → (check (save saver k body) w).0 ≡ ok 0
unfolding check check_draft save_draft deny_qa_writes Repo.get get_internal
save_checked saver k body w m h = ground arith

approve_checked :
    (server : Server) (approver : User) (k : ℕ) (w : World) (m : MonthlyReport)
    → (Service.approve server approver k w).0 ≡ ok m
    → ((check (approve approver k) w).0 ≡ ok 0)
      × (Service.approve server approver k w ≡ write_approval server approver k w)
unfolding check check_draft Service.approve write_approval deny_qa_writes Repo.get get_internal
approve_checked server approver k w m h = (ground arith, ground arith)

row_of-set_body :
    (k : ℕ) (body : Text) (w : World) (r : MonthlyRow)
    → row_of k w ≡ some r
    → row_of k (unit_of_work (Repo.set_body k body draft) w).1 ≡ some (with_body body draft r)
unfolding unit_of_work Repo.set_body with_body
row_of-set_body k body w r found = ground (
  arith,
  find_by-update_by monthly_id k k (with_body body draft) w.db.monthly_reports (λ a. refl),
  monthly_status_of-monthly_status_value draft,
)

row_of-write_approval :
    (server : Server) (approver : User) (k : ℕ) (w : World) (r : MonthlyRow) (m : MonthlyReport)
    → (write_approval server approver k w).0 ≡ ok m
    → row_of k w ≡ some r
    → row_of k (unit_of_work (write_approval server approver k) w).1
      ≡ some (with_approval approver.id (server.now w) r)
unfolding unit_of_work
row_of-write_approval server approver k w r m h found =
    ground (arith, write_approval_lem server approver k w m r h found)

-- Saving and approving the same draft would each succeed. Where both are checked before the approval is
-- committed and the text is written after it, the approval is lost: the report is a draft again, with
-- the new text, while its row still names the approver and the time.
pub save_over_approval :
    (server : Server) (saver approver : User) (k : ℕ) (body : Text) (w : World) (r : MonthlyRow)
    (m m' : MonthlyReport)
    → (save_draft saver k body w).0 ≡ ok m
    → (Service.approve server approver k w).0 ≡ ok m'
    → row_of k w ≡ some r
    → let end = (interleave server overlap (saver_and_approver saver approver k body w)).world in
      row_of k end ≡ some (with_body body draft (with_approval approver.id (server.now w) r))
save_over_approval server saver approver k body w r m m' h h' found =
    let checked_approve = approve_checked server approver k w m' h' in
    let approved =
      row_of-write_approval server approver k w r m'
        (ap (λ (p : Result MonthlyReport × World). p.0) (sym checked_approve.1) ∙ h') found in
    ap (row_of k) (
      overlap_runs server saver approver k body w (save_checked saver k body w m h)
        checked_approve.0)
    ∙ row_of-set_body k body (unit_of_work (write_approval server approver k) w).1
        (with_approval approver.id (server.now w) r) approved
