-- ===== src/Monthly/Race/Versions.antt =====
-- The unique constraint on property, month and version under any order of turns.
use report_insight.Base.{
  ℕ, ◌≡◌, refl, true, Bool, not, ◌&&◌, List, [], ◌∷◌, arith, elem, map, zero, suc, Text,
}
use report_insight.Domain.{Date, draft, User}
use report_insight.Db.{World, Server, MonthlyRow, unit_of_work}
use report_insight.Db.Table.{update_by}
use report_insight.Repositories.Monthly as Repo
use report_insight.Repositories.Monthly.{
  monthly_id, with_body, with_approval, generations, new_generation, insert_monthly, get_internal,
}
use report_insight.Repositories.Audit.{record_action}
use report_insight.Monthly.Service.{write_approval}
use report_insight.Monthly.Race.{
  save, approve, create, Session, waiting, checked, finished, Race, write, turn, turn_at, step,
  interleave,
}

-- The versions of one property and month.
abbrev pub versions : ℕ → Date → List MonthlyRow → List ℕ
versions p m rows = map (λ (r : MonthlyRow). r.version) (generations p m rows)

-- No two rows have the same property, month and version.
unfoldable pub distinct_versions : List MonthlyRow → Bool
distinct_versions [] = true
distinct_versions (r ∷ rows) =
    not (elem r.version (versions r.property_id r.month rows)) && distinct_versions rows

abbrev Keeps : (MonthlyRow → MonthlyRow) → Type 0
Keeps f =
    (r : MonthlyRow)
    → ((f r).property_id ≡ r.property_id) × ((f r).month ≡ r.month) × ((f r).version ≡ r.version)

versions-update_by :
    (k p : ℕ) (m : Date) (f : MonthlyRow → MonthlyRow) (rows : List MonthlyRow)
    → Keeps f
    → versions p m (update_by monthly_id k f rows) ≡ versions p m rows
unfolding update_by
versions-update_by k p m f [] keeps = refl
versions-update_by k p m f (r ∷ rows) keeps =
    ground (arith, keeps r, versions-update_by k p m f rows keeps)

distinct_versions-update_by :
    (k : ℕ) (f : MonthlyRow → MonthlyRow) (rows : List MonthlyRow)
    → Keeps f
    → distinct_versions (update_by monthly_id k f rows) ≡ distinct_versions rows
unfolding distinct_versions update_by
distinct_versions-update_by k f [] keeps = refl
distinct_versions-update_by k f (r ∷ rows) keeps = ground (
  arith,
  keeps r,
  versions-update_by k r.property_id r.month f rows keeps,
  distinct_versions-update_by k f rows keeps,
)

abbrev Distinct : World → Type 0
Distinct w = distinct_versions w.db.monthly_reports ≡ true

Distinct-save :
    (server : Server) (user : User) (k v : ℕ) (body : Text) (w : World)
    → Distinct w
    → Distinct (unit_of_work (write server (save user k body) v) w).1
unfolding write unit_of_work Repo.set_body with_body
Distinct-save server user k v body w h = ground (
  arith,
  distinct_versions-update_by k (with_body body draft) w.db.monthly_reports
      (λ r. (refl, refl, refl)),
)

Distinct-approve :
    (server : Server) (user : User) (k v : ℕ) (w : World)
    → Distinct w
    → Distinct (unit_of_work (write server (approve user k) v) w).1
unfolding write unit_of_work write_approval Repo.approve with_approval record_action
Distinct-approve server user k v w h = ground (
  arith,
  distinct_versions-update_by k (with_approval user.id (server.now w)) w.db.monthly_reports
      (λ r. (refl, refl, refl)),
)

Distinct-create :
    (server : Server) (user : User) (p v : ℕ) (month : Date) (w : World)
    → Distinct w
    → Distinct (unit_of_work (write server (create user p month) v) w).1
unfolding write unit_of_work insert_monthly get_internal distinct_versions
Distinct-create server user p v month w h = ground arith

Distinct-turn :
    (server : Server) (s : Session) (w : World) → Distinct w → Distinct (turn server s w).1
unfolding turn
Distinct-turn server (waiting request) w h = h
Distinct-turn server (checked (save user k body) v) w h = Distinct-save server user k v body w h
Distinct-turn server (checked (approve user k) v) w h = Distinct-approve server user k v w h
Distinct-turn server (checked (create user p month) v) w h =
    Distinct-create server user p v month w h
Distinct-turn server (finished r) w h = h

Distinct-turn_at :
    (server : Server) (i : ℕ) (sessions : List Session) (w : World)
    → Distinct w
    → Distinct (turn_at server i sessions w).1
unfolding turn_at
Distinct-turn_at server i [] w h = h
Distinct-turn_at server zero (s ∷ sessions) w h = Distinct-turn server s w h
Distinct-turn_at server (suc i) (s ∷ sessions) w h = Distinct-turn_at server i sessions w h

-- Whatever the order of the turns, no two reports have the same property, month and version, if there
-- were none before.
pub interleave-Distinct :
    (server : Server) (schedule : List ℕ) (s : Race)
    → distinct_versions s.world.db.monthly_reports ≡ true
    → distinct_versions (interleave server schedule s).world.db.monthly_reports ≡ true
unfolding interleave step
interleave-Distinct server [] s h = h
interleave-Distinct server (i ∷ schedule) s h =
    interleave-Distinct server schedule (step server i s)
      (Distinct-turn_at server i s.sessions s.world h)
