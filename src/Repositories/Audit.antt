-- ===== src/Repositories/Audit.antt =====
-- `SqlAuditRepository`: the audit log, to which rows are only added.
use report_insight.Base.{ℕ, String, not, ◌||◌, Option, none, some, List, ◌∷◌, filter, take}
use report_insight.Domain.{
  Fields, AuditAction, audit_action_of, AuditEntry, Result, ok, err, external, value_error,
}
use report_insight.Db.Table.{find_by, order_by_desc, contains}
use report_insight.Db.{
  UserRow, AuditRow, Server, Exec, lift, gets, raise_if, modify, traverse, ◌>>=◌, ◌>>◌,
}

abbrev pub audit_id : AuditRow → ℕ
audit_id r = r.id

-- `INSERT INTO audit_logs`, which fails if the user does not exist.
unfoldable pub record_action : Server → ℕ → String → Fields → Exec (Unit {0})
unfolding contains
record_action server user_id action payload = do
  w ← gets (λ w. w)
  raise_if
      (not (contains (λ (r : UserRow). r.id) user_id w.db.users)
        || contains audit_id (server.next_audit_id w) w.db.audit_logs)
      external
  modify λ db. record db {
    audit_logs =
        record {
          id = server.next_audit_id w;
          user_id = user_id;
          action = action;
          payload = payload;
          created_at = server.now w;
        }
        ∷ db.audit_logs;
  }

abbrev pub user_key : UserRow → ℕ
user_key r = r.id

-- The join has a user for each row that is left.
abbrev pub to_entry : AuditRow → Option UserRow → Option AuditAction → Result AuditEntry
to_entry log none action = err external
to_entry log (some user) none = err value_error
to_entry log (some user) (some action) = ok (record {
  id = log.id;
  actor_email = user.email;
  action = action;
  payload = log.payload;
  created_at = log.created_at;
})

unfoldable pub list_recent : ℕ → Exec (List AuditEntry)
unfolding find_by order_by_desc contains traverse
list_recent limit = do
  w ← gets (λ w. w)
  let joined = filter (λ (r : AuditRow). contains user_key r.user_id w.db.users) w.db.audit_logs
  lift (
      traverse
        (λ log. to_entry log (find_by user_key log.user_id w.db.users) (audit_action_of log.action))
        (take limit (order_by_desc audit_id joined)))
