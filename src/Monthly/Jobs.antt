-- ===== src/Monthly/Jobs.antt =====
-- The handlers of app/api/routers/monthly.py and monthly_ui.py that change state, each with its unit of work, and the
-- background tasks that `create_monthly_report` adds. A schedule is a list of events: requests, and
-- the runs of pending tasks in any order.
use report_insight.Base.{ℕ, ◌==◌, not, List, [], ◌∷◌, Text, none, some, filter, elem, if◌then◌else◌}
use report_insight.Domain.{
  Date, User, MonthlyReport, MonthlyStats, MonthlyNarration, Result, ok, err,
}
use report_insight.Db.{World, Server, Exec, unit_of_work, ◌>>◌}
use report_insight.Monthly.Service.{request_generation, run_generation, save_draft}
use report_insight.Monthly.Service

-- What the service is built from: the database server, and the language model.
pub record Setup : Type 0 where
  pub server : Server
  pub narrate : Text → MonthlyStats → Result MonthlyNarration

-- The world, and the ids of the background tasks that have not run.
pub record System : Type 0 where
  pub world : World
  pub jobs : List ℕ

-- `_run_generation`: exceptions end in the log.
unfoldable pub background : Setup → ℕ → World → World
unfolding unit_of_work
background setup monthly_id w = (unit_of_work (run_generation setup.narrate monthly_id) w).1

abbrev pub add_job : Result MonthlyReport → List ℕ → List ℕ
add_job (err e) jobs = jobs
add_job (ok report) jobs = elim report.id [ none ↦ jobs | some id ↦ id ∷ jobs ]

-- `create_monthly_report`
unfoldable pub create_monthly_report : Setup → User → ℕ → Date → System → System
unfolding unit_of_work
create_monthly_report setup user property_id month s =
    let (r, w') = unit_of_work (request_generation setup.server user property_id month) s.world in
    record { world = w'; jobs = add_job r s.jobs }

-- `patch_monthly_report` with the action `save`
unfoldable pub patch_save : User → ℕ → Text → System → System
unfolding unit_of_work
patch_save user monthly_id body s = record s {
  world = (unit_of_work (save_draft user monthly_id body) s.world).1;
}

-- `patch_monthly_report` with the action `approve`
unfoldable pub patch_approve : Setup → User → ℕ → System → System
unfolding unit_of_work
patch_approve setup user monthly_id s = record s {
  world = (unit_of_work (Service.approve setup.server user monthly_id) s.world).1;
}

-- The transaction of `monthly_approve` of app/api/routers/monthly_ui.py: the body is saved and the
-- report approved, in one unit of work.
unfoldable pub save_and_approve : Server → User → ℕ → Text → Exec MonthlyReport
unfolding unit_of_work
save_and_approve server user monthly_id body =
    unit_of_work (save_draft user monthly_id body >> Service.approve server user monthly_id)

pub data Event : Type 0 where
  create : User → ℕ → Date → Event
  save : User → ℕ → Text → Event
  approve : User → ℕ → Event
  approve_form : User → ℕ → Text → Event
  run_job : ℕ → Event

-- A task runs only if it is pending, and once.
unfoldable pub handle : Setup → Event → System → System
unfolding create_monthly_report patch_save patch_approve save_and_approve background
handle setup (create user property_id month) s =
    create_monthly_report setup user property_id month s
handle setup (save user monthly_id body) s = patch_save user monthly_id body s
handle setup (approve user monthly_id) s = patch_approve setup user monthly_id s
handle setup (approve_form user monthly_id body) s = record s {
  world = (save_and_approve setup.server user monthly_id body s.world).1;
}
handle setup (run_job id) s =
    if elem id s.jobs
    then record { world = background setup id s.world; jobs = filter (λ j. not (j == id)) s.jobs }
    else s

unfoldable pub run : Setup → List Event → System → System
unfolding handle
run setup [] s = s
run setup (e ∷ events) s = run setup events (handle setup e s)
