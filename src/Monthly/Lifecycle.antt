-- ===== src/Monthly/Lifecycle.antt =====
-- The life of a monthly report under any schedule of requests and background tasks.
use report_insight.Base.{
  ℕ, ◌==◌, ◌≡◌, refl, true, not, some, List, [], ◌∷◌, arith, All, All-imp, All-filter, elem, ◌∙◌,
  Option-cases, Bool-cases, inl, inr,
}
use report_insight.Domain.{
  Date, User, MonthlyReport, Result, ok, err, MonthlyStatus, generating, approved,
  monthly_status_of,
}
use report_insight.Db.{World, Server, MonthlyRow, unit_of_work}
use report_insight.Monthly.Service.{request_generation}
use report_insight.Monthly.Jobs.{
  Setup, System, Event, create, save, approve, approve_form, run_job, handle, run, background,
  add_job, create_monthly_report, patch_save, patch_approve,
}
use report_insight.Monthly.Frame.{
  row_of, row_of-save_and_approve, row_of-save_draft, row_of-approve, row_of-request_generation,
  row_of-run_generation, row_of-created,
}

-- The report exists, and its status column decodes to this status.
abbrev pub HasStatus : MonthlyStatus → World → ℕ → Type 0
HasStatus s w id = (r : MonthlyRow) × (row_of id w ≡ some r) × (monthly_status_of r.status ≡ some s)

-- Every pending task is for a report that is generating.
pub record IsValid (s : System) : Type 0 where
  pub pending : All (HasStatus generating s.world) s.jobs

elem-All : (P : ℕ → Type 0) (id : ℕ) (jobs : List ℕ) → All P jobs → elem id jobs ≡ true → P id
elem-All P id [] h e = absurd (ground arith)
elem-All P id (j ∷ jobs) h e = ground (arith, elem-All P id jobs h.1)

-- What `handle` does to a report that is no draft and has no task.
row_of-handle :
    (setup : Setup) (e : Event) (s : System) (i : ℕ) (r : MonthlyRow)
    → IsValid s
    → row_of i s.world ≡ some r
    → monthly_status_of r.status ≡ some approved
    → row_of i (handle setup e s).world ≡ some r
unfolding handle create_monthly_report patch_save patch_approve background
row_of-handle setup (create user p month) s i r v found a =
    row_of-request_generation i p setup.server user month s.world r found
row_of-handle setup (save user k body) s i r v found a =
    row_of-save_draft i k user body s.world r found (ground arith)
row_of-handle setup (approve user k) s i r v found a =
    row_of-approve i k setup.server user s.world r found (ground arith)
row_of-handle setup (approve_form user k body) s i r v found a =
    row_of-save_and_approve i k setup.server user body s.world r found (ground arith)
row_of-handle setup (run_job k) s i r v found a = ground (
  arith,
  elem-All (HasStatus generating s.world) k s.jobs v.pending,
  row_of-run_generation i k setup.narrate s.world,
)

-- The tasks that are left still have a report that is generating, if the step keeps their rows.
pending_kept :
    (w w' : World) (jobs : List ℕ)
    → ((i : ℕ) (r : MonthlyRow)
        → row_of i w ≡ some r
        → monthly_status_of r.status ≡ some generating
        → row_of i w' ≡ some r)
    → All (HasStatus generating w) jobs
    → All (HasStatus generating w') jobs
pending_kept w w' jobs keeps =
    All-imp (HasStatus generating w) (HasStatus generating w') jobs
      (λ i h. (h.0, keeps i h.0 h.1 h.2, h.2))

created_pending :
    (server : Server) (user : User) (p : ℕ) (month : Date) (w : World) (jobs : List ℕ)
    (r : Result MonthlyReport)
    → (unit_of_work (request_generation server user p month) w).0 ≡ r
    → All (HasStatus generating (unit_of_work (request_generation server user p month) w).1) jobs
    → All
        (HasStatus generating (unit_of_work (request_generation server user p month) w).1)
        (add_job r jobs)
created_pending server user p month w jobs (err e) h all = all
created_pending server user p month w jobs (ok report) h all = elim (Option-cases report.id) [
  | inl e ↦ rw e all
  | inr (id, e) ↦ rw e (row_of-created p server user month w report id h e, all)
]

handle-IsValid : (setup : Setup) (e : Event) (s : System) → IsValid s → IsValid (handle setup e s)
unfolding handle create_monthly_report patch_save patch_approve background
handle-IsValid setup (create user p month) s v = record {
  pending =
      created_pending setup.server user p month s.world s.jobs
        (unit_of_work (request_generation setup.server user p month) s.world).0 refl
        (pending_kept s.world (handle setup (create user p month) s).world s.jobs
          (λ i r found g. row_of-request_generation i p setup.server user month s.world r found)
          v.pending);
}
handle-IsValid setup (save user k body) s v = record {
  pending =
      pending_kept s.world (handle setup (save user k body) s).world s.jobs
        (λ i r found g. row_of-save_draft i k user body s.world r found (ground arith)) v.pending;
}
handle-IsValid setup (approve user k) s v = record {
  pending =
      pending_kept s.world (handle setup (approve user k) s).world s.jobs
        (λ i r found g. row_of-approve i k setup.server user s.world r found (ground arith))
        v.pending;
}
handle-IsValid setup (approve_form user k body) s v = record {
  pending =
      pending_kept s.world (handle setup (approve_form user k body) s).world s.jobs
        (λ i r found g.
          row_of-save_and_approve i k setup.server user body s.world r found (ground arith))
        v.pending;
}
handle-IsValid setup (run_job k) s v = elim (Bool-cases (elem k s.jobs)) [
  | inr e ↦ rw e v
  | inl e ↦ rw e (record {
    pending =
        All-filter (HasStatus generating s.world)
          (HasStatus generating (background setup k s.world)) (λ j. not (j == k)) s.jobs
          (λ i other h.
            (h.0, row_of-run_generation i k setup.narrate s.world (ground arith) ∙ h.1, h.2))
          v.pending;
  })
]

-- From a system in which every pending task is for a generating report, every schedule of requests
-- and tasks leads to such a system.
pub run-IsValid :
    (setup : Setup) (events : List Event) (s : System) → IsValid s → IsValid (run setup events s)
unfolding run
run-IsValid setup [] s v = v
run-IsValid setup (e ∷ events) s v =
    run-IsValid setup events (handle setup e s) (handle-IsValid setup e s v)

-- An approved report is final: from a system in which every pending task is for a generating report,
-- whatever the users request afterwards, and whichever pending tasks run, its row never changes
-- again.
pub approved_is_final :
    (setup : Setup) (events : List Event) (s : System) (i : ℕ) (r : MonthlyRow)
    → IsValid s
    → row_of i s.world ≡ some r
    → monthly_status_of r.status ≡ some approved
    → row_of i (run setup events s).world ≡ some r
unfolding run
approved_is_final setup [] s i r v found a = found
approved_is_final setup (e ∷ events) s i r v found a =
    approved_is_final setup events (handle setup e s) i r (handle-IsValid setup e s v)
      (row_of-handle setup e s i r v found a) a
