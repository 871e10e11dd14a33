-- ===== src/Monthly/Approval.antt =====
-- Saving and approving a draft: who may, what changes, and what an error leaves.
use report_insight.Base.{
  ℕ, String, ◌≡◌, refl, ap, sym, ◌∙◌, false, some, ◌∷◌, Text, Any, arith, Option-cases, inl, inr,
}
use report_insight.Domain.{
  Fields, Datetime, User, is_qa, MonthlyReport, draft, approved, monthly_status_of,
  audit_action_value, approve_monthly, Result, ok,
}
use report_insight.Domain.RoundTrip.{monthly_status_of-monthly_status_value}
use report_insight.Db.{World, Server, MonthlyRow, AuditRow, monthly_to_domain}
use report_insight.Db.Table.{update_by, find_by, find_by-update_by}
use report_insight.Repositories.Monthly as Repo
use report_insight.Repositories.Monthly.{monthly_id, with_body, with_approval, get_internal}
use report_insight.Repositories.Audit.{record_action}
use report_insight.Repositories.Access.{Visible, permitted_visible}
use report_insight.Monthly.Service.{
  save_draft, approve, write_approval, deny_qa_writes, approval_payload,
}
use report_insight.Monthly.Frame.{row_of}

-- The report is a draft of a property of the user's own branch, and the user is a branch manager.
pub record MayWrite (user : User) (w : World) (r : MonthlyRow) : Type 0 where
  pub manager : is_qa user ≡ false
  pub is_draft : monthly_status_of r.status ≡ some draft
  pub in_branch : Any (Visible user r.property_id) w.db.properties

-- The row that is added to the audit log.
abbrev pub entry : Server → ℕ → String → Fields → World → AuditRow
entry server user_id action payload w = record {
  id = server.next_audit_id w;
  user_id = user_id;
  action = action;
  payload = payload;
  created_at = server.now w;
}

-- One row is added to the audit log, for this user and with this payload.
abbrev pub Logs : Fields → User → World → World → Type 0
Logs payload user w w' =
    (log : AuditRow) × (w'.db.audit_logs ≡ log ∷ w.db.audit_logs)
    × (log.user_id ≡ user.id)
    × (log.action ≡ audit_action_value approve_monthly)
    × (log.payload ≡ payload)

-- A save that succeeds was asked for by a branch manager, for a draft of a property of the own
-- branch, and the report's row then differs in the body alone: it is a draft with the new body.
pub save_draft_sound :
    (user : User) (k : ℕ) (body : Text) (w : World) (m : MonthlyReport)
    → (save_draft user k body w).0 ≡ ok m
    → (r : MonthlyRow) × (row_of k w ≡ some r)
      × MayWrite user w r
      × (row_of k (save_draft user k body w).1 ≡ some (with_body body draft r))
unfolding save_draft deny_qa_writes Repo.get get_internal monthly_to_domain Repo.set_body
save_draft_sound user k body w m h = elim (Option-cases (row_of k w)) [
  | inl missing ↦ absurd (ground arith)
  | inr (r, found) ↦ (
    r,
    found,
    record {
      manager = ground arith;
      is_draft = ground arith;
      in_branch = permitted_visible user r.property_id w (ground arith);
    },
    ground (arith, find_by-update_by monthly_id k k (with_body body draft) w.db.monthly_reports),
  )
]

-- The write of an approval, and the row that it returns.
pub approve_written :
    (k approver : ℕ) (t : Datetime) (w : World) (r : MonthlyRow)
    → row_of k w ≡ some r
    → (m : MonthlyReport) × (Repo.approve k approver t w ≡ (
      ok m,
      record w {
        db = record w.db {
          monthly_reports = update_by monthly_id k (with_approval approver t) w.db.monthly_reports;
        };
      },
    ))
      × (monthly_to_domain (with_approval approver t r) ≡ ok m)
unfolding Repo.approve with_approval monthly_to_domain
approve_written k approver t w r found = (
  record {
    id = some r.id;
    property_id = r.property_id;
    month = r.month;
    version = r.version;
    body_markdown = r.body_markdown;
    status = approved;
    approved_by = some approver;
    approved_at = some t;
  },
  ground (arith, monthly_status_of-monthly_status_value approved),
  ground (arith, monthly_status_of-monthly_status_value approved),
)

-- Recording an action writes the audit log alone.
pub audit_logs-record_action :
    (server : Server) (user_id : ℕ) (action : String) (payload : Fields) (w : World)
    → (record_action server user_id action payload w).0 ≡ ok tt
    → (record_action server user_id action payload w).1 ≡ record w {
      db = record w.db { audit_logs = entry server user_id action payload w ∷ w.db.audit_logs };
    }
unfolding record_action
audit_logs-record_action server user_id action payload w h = ground arith

pub found_approved :
    (k approver : ℕ) (t : Datetime) (w : World) (r : MonthlyRow)
    → row_of k w ≡ some r
    → find_by monthly_id k (update_by monthly_id k (with_approval approver t) w.db.monthly_reports)
      ≡ some (with_approval approver t r)
unfolding with_approval
found_approved k approver t w r found = ground (
  arith,
  find_by-update_by monthly_id k k (with_approval approver t) w.db.monthly_reports (λ a. refl),
)

pub write_approval_lem :
    (server : Server) (user : User) (k : ℕ) (w : World) (m : MonthlyReport) (r : MonthlyRow)
    → (write_approval server user k w).0 ≡ ok m
    → row_of k w ≡ some r
    → (monthly_to_domain (with_approval user.id (server.now w) r) ≡ ok m)
      × (row_of k (write_approval server user k w).1
          ≡ some (with_approval user.id (server.now w) r))
      × Logs (approval_payload k m) user w (write_approval server user k w).1
unfolding write_approval
write_approval_lem server user k w m r h found =
    let written = approve_written k user.id (server.now w) w r found in
    let w' : World = (Repo.approve k user.id (server.now w) w).1 in
    let logging =
      audit_logs-record_action server user.id (audit_action_value approve_monthly)
        (approval_payload k written.0) w' in
    (
      ground (arith, written, logging),
      ground (arith, written, logging, found_approved k user.id (server.now w) w r found),
      (
        entry server user.id (audit_action_value approve_monthly) (approval_payload k written.0) w',
        ground (arith, written, logging),
        refl,
        refl,
        ground (arith, written, logging),
      ),
    )

-- An approval that succeeds was asked for by a branch manager, for a draft of a property of the own
-- branch. The report is then approved, by this user and at this time, with the same body, property,
-- month and version; the result is that row; and one row is added to the audit log, with the
-- report's id, property, month and version.
pub approve_sound :
    (server : Server) (user : User) (k : ℕ) (w : World) (m : MonthlyReport)
    → (approve server user k w).0 ≡ ok m
    → (r : MonthlyRow) × (row_of k w ≡ some r)
      × MayWrite user w r
      × (monthly_to_domain (with_approval user.id (server.now w) r) ≡ ok m)
      × (row_of k (approve server user k w).1 ≡ some (with_approval user.id (server.now w) r))
      × Logs (approval_payload k m) user w (approve server user k w).1
unfolding approve deny_qa_writes Repo.get get_internal monthly_to_domain
approve_sound server user k w m h = elim (Option-cases (row_of k w)) [
  | inl missing ↦ absurd (ground arith)
  | inr (r, found) ↦
      let guarded : approve server user k w ≡ write_approval server user k w = ground arith in
      let written =
        write_approval_lem server user k w m r
          (ap (λ (p : Result MonthlyReport × World). p.0) (sym guarded) ∙ h) found in
      (
        r,
        found,
        record {
          manager = ground arith;
          is_draft = ground arith;
          in_branch = permitted_visible user r.property_id w (ground arith);
        },
        written.0,
        rw guarded written.1,
        rw guarded written.2,
      )
]
