-- ===== src/Monthly/Race.antt =====
-- Requests on monthly reports whose transactions overlap. Every statement reads what is committed (READ
-- COMMITTED), no row is locked, and a session keeps no row that a check has read, so that `set_body` and
-- `approve` of the repository read it anew. A request takes two turns: its checks, and its write with the
-- commit; the turns of different requests may come in any order.
use report_insight.Base.{ℕ, zero, suc, List, [], ◌∷◌, Text, not, elem}
use report_insight.Domain.{
  Date, User, MonthlyReport, draft, permission_denied, invalid_state, Result, ok, err,
}
use report_insight.Domain.Calendar.{first_of_month}
use report_insight.Db.{World, Server, Exec, pure, gets, raise_if, unit_of_work, ◌>>=◌, ◌>>◌}
use report_insight.Repositories.User.{permitted_property_ids}
use report_insight.Repositories.Monthly as Repo
use report_insight.Repositories.Monthly.{
  next_version, max_version, generations, insert_monthly, new_generation, get_internal,
}
use report_insight.Monthly.Service.{deny_qa_writes, is_draft, write_approval}
pub mod Overlap
pub mod Creates
pub mod Versions

pub data Request : Type 0 where
  save : User → ℕ → Text → Request
  approve : User → ℕ → Request
  create : User → ℕ → Date → Request

-- A request that has not begun, one that is checked, with the version that `create_generating` has
-- found, and one that has ended.
pub data Session : Type 0 where
  waiting : Request → Session
  checked : Request → ℕ → Session
  finished : Result MonthlyReport → Session

pub record Race : Type 0 where
  pub world : World
  pub sessions : List Session

unfoldable pub check_draft : User → ℕ → Exec (Unit {0})
unfolding deny_qa_writes permitted_property_ids Repo.get
check_draft user monthly_id = do
  deny_qa_writes user
  permitted ← gets (permitted_property_ids user)
  report ← Repo.get monthly_id permitted
  raise_if (not (is_draft report.status)) invalid_state

-- The number is the version of a new report, and of no meaning for the others.
unfoldable pub check : Request → Exec ℕ
unfolding check_draft max_version
check (save user monthly_id body) = check_draft user monthly_id >> pure 0
check (approve user monthly_id) = check_draft user monthly_id >> pure 0
check (create user property_id month) = do
  deny_qa_writes user
  permitted ← gets (permitted_property_ids user)
  raise_if (not (elem property_id permitted)) permission_denied
  gets λ w.
      next_version
        (max_version (generations property_id (first_of_month month) w.db.monthly_reports))

unfoldable pub write : Server → Request → ℕ → Exec MonthlyReport
unfolding write_approval insert_monthly get_internal
write server (save user monthly_id body) v = Repo.set_body monthly_id body draft
write server (approve user monthly_id) v = write_approval server user monthly_id
write server (create user property_id month) v = do
  id ← gets server.next_monthly_id
  insert_monthly (new_generation id property_id (first_of_month month) v)
  get_internal id

abbrev pub after_check : Request → Result ℕ → Session
after_check request (ok v) = checked request v
after_check request (err e) = finished (err e)

-- One turn of a session.
unfoldable pub turn : Server → Session → World → Session × World
unfolding check write unit_of_work
turn server (waiting request) w = (after_check request (check request w).0, w)
turn server (checked request v) w =
    let (r, w') = unit_of_work (write server request v) w in (finished r, w')
turn server (finished r) w = (finished r, w)

-- A turn of the i-th session; there is none out of bounds.
unfoldable pub turn_at : Server → ℕ → List Session → World → List Session × World
unfolding turn
turn_at server i [] w = ([], w)
turn_at server zero (s ∷ sessions) w = let (s', w') = turn server s w in (s' ∷ sessions, w')
turn_at server (suc i) (s ∷ sessions) w =
    let (rest, w') = turn_at server i sessions w in (s ∷ rest, w')

unfoldable pub step : Server → ℕ → Race → Race
unfolding turn_at
step server i s =
    let (sessions, w) = turn_at server i s.sessions s.world in
    record { world = w; sessions = sessions }

unfoldable pub interleave : Server → List ℕ → Race → Race
unfolding step
interleave server [] s = s
interleave server (i ∷ schedule) s = interleave server schedule (step server i s)
