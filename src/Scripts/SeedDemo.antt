-- ===== src/Scripts/SeedDemo.antt =====
-- scripts/seed_demo.py: the rows of the demonstration, and the wait for the worker.
use report_insight.Base.{
  ℕ, zero, suc, ◌+◌, Bool, not, ◌&&◌, ◌||◌, ltb, leb, false, Option, none, some, String, str_eq,
  List, [], ◌∷◌, any, map, length, if◌then◌else◌, ◌==◌,
}
use report_insight.Domain.{external}
use report_insight.Db.Table.{contains}
use report_insight.Db.{
  AnalysisRow, Db, BranchRow, PropertyRow, UserRow, Exec, pure, gets, modify, raise_if,
  unit_of_work, ◌>>=◌, ◌>>◌,
}
use report_insight.Repositories.Monthly.{property_key}
use report_insight.Repositories.Stats.{group_count}
use report_insight.Scripts.Synth.{branches, properties, users}
pub mod Statements
pub mod Seeded
pub mod Wait

abbrev pub branch_key : BranchRow → ℕ
branch_key r = r.id

abbrev pub user_key : UserRow → ℕ
user_key r = r.id

-- The rows of one `INSERT`, one after the other.
unfoldable pub for_each : {A : Type 0} → (A → Exec (Unit {0})) → List A → Exec (Unit {0})
for_each f [] = pure tt
for_each f (r ∷ rows) = f r >> for_each f rows

-- `ON CONFLICT (id) DO NOTHING`
unfoldable pub insert_branch : BranchRow → Exec (Unit {0})
unfolding contains
insert_branch r = modify λ db.
    if contains branch_key r.id db.branches then db else record db { branches = r ∷ db.branches }

-- `ON CONFLICT (id) DO NOTHING`, behind the foreign key
unfoldable pub insert_property : PropertyRow → Exec (Unit {0})
unfolding contains
insert_property r = do
  db ← gets (λ w. w.db)
  if contains property_key r.id db.properties
      then pure tt
      else raise_if (not (contains branch_key r.branch_id db.branches)) external
        >> modify λ db. record db { properties = r ∷ db.properties }

abbrev unknown_branch : Option ℕ → Db → Bool
unknown_branch none db = false
unknown_branch (some id) db = not (contains branch_key id db.branches)

-- `ON CONFLICT (id) DO NOTHING`, behind the foreign key and the unique address
unfoldable pub insert_user : UserRow → Exec (Unit {0})
unfolding contains
insert_user r = do
  db ← gets (λ w. w.db)
  if contains user_key r.id db.users
      then pure tt
      else raise_if
          (unknown_branch r.branch_id db || any (λ (u : UserRow). str_eq u.email r.email) db.users)
          external
        >> modify λ db. record db { users = r ∷ db.users }

-- `_ensure_base_data`
unfoldable pub ensure_base_data : Exec (Unit {0})
unfolding unit_of_work for_each insert_branch insert_property insert_user
ensure_base_data = unit_of_work (
    for_each insert_branch branches
    >> (for_each insert_property properties >> for_each insert_user users))

-- `_count_reports`
unfoldable pub count_reports : Exec ℕ
count_reports = gets (λ w. length w.db.reports)

-- `_summary`
unfoldable pub summary : Exec (List (String × ℕ) × List (String × ℕ))
unfolding group_count
summary = gets (λ w. (
  group_count (map (λ (a : AnalysisRow). a.category) w.db.analyses),
  group_count (map (λ (a : AnalysisRow). a.status) w.db.analyses),
))

-- The loop of `run` that waits for the worker, with the number of reports that the n-th look finds, and
-- its number of looks; none is too little fuel.
unfoldable pub wait : (ℕ → ℕ) → ℕ → ℕ → ℕ → ℕ → ℕ → Option ℕ
wait count target timeout zero elapsed n = none
wait count target timeout (suc fuel) elapsed n =
    let later = wait count target timeout fuel (elapsed + 2) (n + 1) in
    if ltb elapsed timeout then (if leb target (count n) then some (n + 1) else later) else some n
