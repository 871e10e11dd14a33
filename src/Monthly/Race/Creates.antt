-- ===== src/Monthly/Race/Creates.antt =====
-- What two requests do that create a report of the same property and month at the same time.
use report_insight.Base.{ℕ, ◌≡◌, ap, ◌∙◌, refl, true, List, [], ◌∷◌, arith}
use report_insight.Domain.{User, Date, MonthlyReport, Result, ok, err, external}
use report_insight.Domain.Calendar.{first_of_month}
use report_insight.Db.{World, Server, Db, MonthlyRow, unit_of_work}
use report_insight.Repositories.Monthly as Repo
use report_insight.Repositories.Monthly.{
  next_version, max_version, generations, insert_monthly, new_generation, get_internal, refused,
}
use report_insight.Monthly.Service.{deny_qa_writes, request_generation}
use report_insight.Monthly.Frame.{requested}
use report_insight.Monthly.Race.{
  Request, create, waiting, finished, after_check, Race, check, write, turn, turn_at, step,
  interleave,
}

abbrev found_version : ℕ → Date → World → ℕ
found_version p month w =
    next_version (max_version (generations p (first_of_month month) w.db.monthly_reports))

-- What a request's check has found where its handler succeeds, and what its write then does.
create_checked :
    (server : Server) (user : User) (p : ℕ) (month : Date) (w : World) (m : MonthlyReport)
    → (request_generation server user p month w).0 ≡ ok m
    → (check (create user p month) w).0 ≡ ok (found_version p month w)
unfolding check request_generation deny_qa_writes Repo.create_generating
create_checked server user p month w m h = ground arith

create_written :
    (server : Server) (user : User) (p : ℕ) (month : Date) (w : World) (m : MonthlyReport)
    → (request_generation server user p month w).0 ≡ ok m
    → (unit_of_work (write server (create user p month) (found_version p month w)) w
        ≡ (ok m, (request_generation server user p month w).1))
      × ((request_generation server user p month w).1.db.monthly_reports
          ≡ requested server p month w ∷ w.db.monthly_reports)
unfolding write request_generation deny_qa_writes Repo.create_generating insert_monthly unit_of_work
create_written server user p month w m h = (ground arith, ground arith)

-- A version that the newest row of the property and the month has is refused.
refused-same :
    (id k p v : ℕ) (m : Date) (db : Db) (rows : List MonthlyRow)
    → db.monthly_reports ≡ new_generation k p m v ∷ rows
    → refused (new_generation id p m v) db ≡ true
refused-same id k p v m db rows same = ground arith

create_refused :
    (server : Server) (user : User) (p v : ℕ) (month : Date) (w : World) (k : ℕ)
    (rows : List MonthlyRow)
    → w.db.monthly_reports ≡ new_generation k p (first_of_month month) v ∷ rows
    → unit_of_work (write server (create user p month) v) w ≡ (err external, w)
unfolding write insert_monthly unit_of_work
create_refused server user p v month w k rows same =
    ground
      (arith, refused-same (server.next_monthly_id w) k p v (first_of_month month) w.db rows same)

-- Both requests are checked before either writes.
abbrev pub creates : List ℕ
creates = 0 ∷ 1 ∷ 0 ∷ 1 ∷ []

abbrev pub two_creators : User → User → ℕ → Date → World → Race
two_creators user user' p month w = record {
  world = w;
  sessions = waiting (create user p month) ∷ waiting (create user' p month) ∷ [];
}

abbrev both_checked : Server → Request → Request → World → Result ℕ → Result ℕ → Race
both_checked server request request' w v v' =
    interleave server (0 ∷ 1 ∷ [])
      record { world = w; sessions = after_check request v ∷ after_check request' v' ∷ [] }

creates_run :
    (server : Server) (user user' : User) (p : ℕ) (month : Date) (w : World) (v : ℕ)
    → (check (create user p month) w).0 ≡ ok v
    → (check (create user' p month) w).0 ≡ ok v
    → let first = unit_of_work (write server (create user p month) v) w in
      let second = unit_of_work (write server (create user' p month) v) first.1 in
      interleave server creates (two_creators user user' p month w)
      ≡ record { world = second.1; sessions = finished first.0 ∷ finished second.0 ∷ [] }
unfolding interleave step turn_at turn
creates_run server user user' p month w v h h' =
    let a = create user p month in
    let b = create user' p month in
    ap (λ x. both_checked server a b w x (check b w).0) h
    ∙ ap (λ x. both_checked server a b w (ok v) x) h'

-- Two requests for a report of the same property and month, each of which would succeed: where both have
-- read the highest version before either inserts its row, the first to insert succeeds, and the other
-- violates the unique constraint, ends with the database's exception and leaves no row.
pub overlapping_creates :
    (server : Server) (user user' : User) (p : ℕ) (month : Date) (w : World) (m m' : MonthlyReport)
    → (request_generation server user p month w).0 ≡ ok m
    → (request_generation server user' p month w).0 ≡ ok m'
    → interleave server creates (two_creators user user' p month w) ≡ record {
      world = (request_generation server user p month w).1;
      sessions = finished (ok m) ∷ finished (err external) ∷ [];
    }
overlapping_creates server user user' p month w m m' h h' =
    let v = found_version p month w in
    let first = create_written server user p month w m h in
    let w' = (request_generation server user p month w).1 in
    let second =
      create_refused server user' p v month w' (server.next_monthly_id w) w.db.monthly_reports
        first.1 in
    creates_run server user user' p month w v (create_checked server user p month w m h)
      (create_checked server user' p month w m' h')
    ∙ rw (first.0, second) refl
