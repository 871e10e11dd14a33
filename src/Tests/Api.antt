-- ===== src/Tests/Api.antt =====
-- The screen of the audit log at a concrete input.
use report_insight.Base.{◌≡◌, some, ◌∷◌, [], Text, arith}
use report_insight.Base.Str.{decimal}
use report_insight.Domain.{Json, AuditAction, audit_action_of}
use report_insight.Db.{AuditRow}
use report_insight.Monthly.Service.{approve}
use report_insight.Api.AuditUi.{format_payload, approval_text}
use report_insight.Api.AuditUi.Readable.{digits, ReadsDigits}
use report_insight.Api.AuditUi.Newest.{approval_shown}
use report_insight.Api.AuditUi.{AuditItem, audit_home}
use report_insight.Base.{refl, List, All, some, ◌<◌, codes, pos}
use report_insight.Domain.{Datetime, User, end, role_value, branch_manager, monthly_status_of, ok}
use report_insight.Db.{World}
use report_insight.Repositories.User.{permitted_property_ids}
use report_insight.Repositories.Monthly as Repo
use report_insight.Repositories.Audit.{record_action, user_key}
use report_insight.Db.Table.{find_by}
use report_insight.Tests.{world, server, manager}
use report_insight.Tests.Monthly.{approved_report}

abbrev nothing : Json → Text
nothing v = []

reads : ReadsDigits digits
reads t n h = h

-- The log has an older row.
abbrev older : AuditRow
older = record { id = 3; user_id = 1; action = "search"; payload = end; created_at = 50 }

abbrev logged : World
logged = record world { db = record world.db { audit_logs = older ∷ [] } }

approves_logged : (approve server manager 1 logged).0 ≡ ok approved_report
unfolding approve permitted_property_ids Repo.get Repo.approve monthly_status_of record_action
approves_logged = refl

newest :
    (log : AuditRow)
    → (approve server manager 1 logged).1.db.audit_logs ≡ log ∷ older ∷ []
    → All (λ (r : AuditRow). r.id < log.id) (older ∷ [])
unfolding approve permitted_property_ids Repo.get Repo.approve monthly_status_of record_action
newest log h = (ground (arith, h), tt)

abbrev item : Text → Text → Datetime → AuditItem nothing digits
item label detail t = record {
  created_at = t;
  actor_email = "m@example.com";
  action_label = label;
  detail = detail;
}

abbrev screen : User × (List User × List (AuditItem nothing digits))
screen = (
  manager,
  (
    manager ∷ [],
    item (codes "月次報告書の承認") (approval_text (codes "1") 2025 10 (codes "1")) 200
        ∷ item (codes "検索") [] 50
        ∷ [],
  ),
)

opens : (audit_home nothing digits (pos 1) (approve server manager 1 logged).1).0 ≡ ok screen
unfolding approve permitted_property_ids Repo.get Repo.approve monthly_status_of record_action
    audit_home format_payload report_insight.Api.UiShared.resolve_user
    report_insight.Repositories.User.get report_insight.Domain.role_of
    report_insight.Repositories.Audit.list_recent audit_action_of
    report_insight.Api.UiShared.all_users report_insight.Domain.Calendar.iso_date
    report_insight.Api.AuditUi.Readable.digits_from decimal
opens = refl

author :
    find_by user_key 1 logged.db.users
    ≡ some (record {
      id = 1;
      branch_id = some 1;
      email = "m@example.com";
      role = role_value branch_manager;
    })
unfolding find_by
author = refl

approval_shown_example :
    (log : AuditRow) × (rest : List (AuditItem nothing digits)) × ((approve server manager 1
        logged).1.db.audit_logs
      ≡ log ∷ older ∷ [])
    × (screen.1.1
        ≡ record {
          created_at = log.created_at;
          actor_email = "m@example.com";
          action_label = codes "月次報告書の承認";
          detail = approval_text (decimal 1) 2025 10 (decimal 1);
        }
          ∷ rest)
approval_shown_example =
    approval_shown nothing digits server manager 1 logged approved_report
      record {
        id = 1;
        branch_id = some 1;
        email = "m@example.com";
        role = role_value branch_manager;
      }
      (pos 1) screen reads (ground arith) (ground arith) author newest approves_logged opens
