-- ===== src/Admin/Override.antt =====
-- Correcting a classification by hand.
use report_insight.Base.{ℕ, Bool, ◌≡◌, refl, inl, inr, some, Any, ◌∷◌, arith, Option-cases}
use report_insight.Domain.{
  User, Category, Urgency, ReportAnalysis, audit_action_value, override_analysis as override_action,
  ok,
}
use report_insight.Db.{World, Server, ReportRow, AnalysisRow, AuditRow, analysis_to_domain}
use report_insight.Db.Table.{find_by, update_by, find_by-update_by}
use report_insight.Repositories.Report.{report_key, analysis_key, with_override, update_analysis}
use report_insight.Repositories.Audit.{record_action}
use report_insight.Repositories.Access.{Visible, permitted_visible}
use report_insight.Admin.Service.{override_analysis, override_payload}

-- An override that succeeds is of a report of a property that the user may see. The row of its
-- analysis then has the new values and is verified by a human, all else in it unchanged; the result is
-- that row; and one row is added to the audit log, with the user, the report's id and the new values.
pub override_sound :
    (server : Server) (user : User) (id : ℕ) (category : Category) (urgency : Urgency)
    (action_required : Bool) (w : World) (analysis : ReportAnalysis)
    → (override_analysis server user id category urgency action_required w).0 ≡ ok analysis
    → (r : ReportRow) × (row : AnalysisRow) × (log : AuditRow) × (find_by report_key id w.db.reports
        ≡ some r)
      × Any (Visible user r.property_id) w.db.properties
      × (find_by analysis_key id w.db.analyses ≡ some row)
      × (find_by analysis_key id
            (override_analysis server user id category urgency action_required w).1.db.analyses
          ≡ some (with_override category urgency action_required row))
      × (analysis_to_domain (with_override category urgency action_required row) ≡ ok analysis)
      × ((override_analysis server user id category urgency action_required w).1.db.audit_logs
          ≡ log ∷ w.db.audit_logs)
      × (log.user_id ≡ user.id)
      × (log.action ≡ audit_action_value override_action)
      × (log.payload ≡ override_payload id category urgency action_required)
unfolding override_analysis update_analysis record_action
override_sound server user id category urgency action_required w analysis h =
    elim (Option-cases (find_by report_key id w.db.reports)) [
      | inl missing ↦ absurd (ground arith)
      | inr (r, found) ↦ elim (Option-cases (find_by analysis_key id w.db.analyses)) [
        | inl missing ↦ absurd (ground arith)
        | inr (row, stored) ↦
            let written : World = record w {
              db = record w.db {
                analyses =
                    update_by analysis_key id (with_override category urgency action_required)
                      w.db.analyses;
              };
            } in
            let log : AuditRow = record {
              id = server.next_audit_id written;
              user_id = user.id;
              action = audit_action_value override_action;
              payload = override_payload id category urgency action_required;
              created_at = server.now written;
            } in
            (
              r,
              row,
              log,
              found,
              permitted_visible user r.property_id w (ground arith),
              stored,
              ground (
                arith,
                find_by-update_by analysis_key id id
                    (with_override category urgency action_required) w.db.analyses
                    (λ a. unfold with_override in refl),
              ),
              ground arith,
              ground arith,
              refl,
              refl,
              refl,
            )
      ]
    ]
