-- ===== src/Monthly/Service.antt =====
-- `MonthlyService` of app/services/monthly.py. The language model is the parameter `narrate`.
use report_insight.Base.{ℕ, Bool, true, false, not, List, Text}
use report_insight.Domain.{
  Date, User, is_qa, MonthlyReport, MonthlyStatus, draft, MonthlyStats, MonthlyNarration,
  audit_action_value, approve_monthly, Fields, field, end, num, text, permission_denied,
  invalid_state, Result,
}
use report_insight.Domain.Calendar.{first_of_month, iso_date}
use report_insight.Db.{
  Server, Exec, pure, raise, lift, gets, raise_if, emit, catch, Effect, ◌>>=◌, ◌>>◌,
}
use report_insight.Repositories.User.{permitted_property_ids}
use report_insight.Repositories.Audit.{record_action}
use report_insight.Repositories.Monthly
use report_insight.Repositories.Stats.{compute_stats}
use report_insight.Monthly.Render.{render_monthly_markdown}

-- `report.status is MonthlyStatus.DRAFT`
abbrev pub is_draft : MonthlyStatus → Bool
is_draft draft = true
is_draft _ = false

unfoldable pub deny_qa_writes : User → Exec (Unit {0})
deny_qa_writes user = raise_if (is_qa user) permission_denied

unfoldable pub request_generation : Server → User → ℕ → Date → Exec MonthlyReport
unfolding deny_qa_writes
request_generation server user property_id month = do
  deny_qa_writes user
  permitted ← gets (permitted_property_ids user)
  Monthly.create_generating server property_id (first_of_month month) permitted

-- The body of the `try` block of `run_generation`.
unfoldable pub generate :
    (Text → MonthlyStats → Result MonthlyNarration) → ℕ → MonthlyReport → Exec MonthlyReport
generate narrate monthly_id report = do
  stats ← compute_stats report.property_id report.month
  name ← Monthly.property_name report.property_id
  emit (Effect.narrate_monthly name stats)
  narration ← lift (narrate name stats)
  Monthly.set_body monthly_id (render_monthly_markdown name stats narration) draft

unfoldable pub run_generation :
    (Text → MonthlyStats → Result MonthlyNarration) → ℕ → Exec MonthlyReport
unfolding generate
run_generation narrate monthly_id = do
  report ← Monthly.get_internal monthly_id
  catch (generate narrate monthly_id report)
      (λ e. do Monthly.set_body monthly_id report.body_markdown MonthlyStatus.failed; raise e)

unfoldable pub get : User → ℕ → Exec MonthlyReport
get user monthly_id = do
  permitted ← gets (permitted_property_ids user)
  Monthly.get monthly_id permitted

unfoldable pub list_for_user : User → ℕ → Exec (List MonthlyReport)
list_for_user user limit = do
  permitted ← gets (permitted_property_ids user)
  Monthly.list_reports permitted limit

unfoldable pub save_draft : User → ℕ → Text → Exec MonthlyReport
unfolding deny_qa_writes
save_draft user monthly_id body_markdown = do
  deny_qa_writes user
  permitted ← gets (permitted_property_ids user)
  report ← Monthly.get monthly_id permitted
  raise_if (not (is_draft report.status)) invalid_state
  Monthly.set_body monthly_id body_markdown draft

abbrev pub approval_payload : ℕ → MonthlyReport → Fields
approval_payload monthly_id approved = field "monthly_id" (num monthly_id) (
    field "property_id" (num approved.property_id)
      (field "month" (text (iso_date approved.month)) (field "version" (num approved.version) end)))

-- The end of `approve`, behind its checks.
unfoldable pub write_approval : Server → User → ℕ → Exec MonthlyReport
write_approval server user monthly_id = do
  now ← gets server.now
  approved ← Monthly.approve monthly_id user.id now
  record_action server user.id (audit_action_value approve_monthly)
      (approval_payload monthly_id approved)
  pure approved

unfoldable pub approve : Server → User → ℕ → Exec MonthlyReport
unfolding deny_qa_writes write_approval
approve server user monthly_id = do
  deny_qa_writes user
  permitted ← gets (permitted_property_ids user)
  report ← Monthly.get monthly_id permitted
  raise_if (not (is_draft report.status)) invalid_state
  now ← gets server.now
  approved ← Monthly.approve monthly_id user.id now
  record_action server user.id (audit_action_value approve_monthly)
      (approval_payload monthly_id approved)
  pure approved
