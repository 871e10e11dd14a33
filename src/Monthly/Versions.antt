-- ===== src/Monthly/Versions.antt =====
-- The version numbers of the generations of a monthly report.
use report_insight.Base.{
  ℕ, ◌<◌, ◌≡◌, refl, true, false, none, some, List, [], ◌∷◌, map, elem, All, All-imp, arith,
}
use report_insight.Domain.{User, is_qa, Date, MonthlyReport, generating, ok}
use report_insight.Domain.RoundTrip.{monthly_status_of-monthly_status_value}
use report_insight.Domain.Calendar.{first_of_month}
use report_insight.Db.{World, Server, MonthlyRow, monthly_to_domain}
use report_insight.Db.Table.{contains, find_by}
use report_insight.Repositories.Monthly as Repo
use report_insight.Repositories.Monthly.{
  monthly_id, next_version, max_version, generations, get_internal, insert_monthly,
}
use report_insight.Repositories.User.{permitted_property_ids}
use report_insight.Repositories.Access.{permitted-contains}
use report_insight.Monthly.Service.{request_generation, deny_qa_writes}
use report_insight.Monthly.Frame.{requested}

version_grows :
    (v : ℕ) (r : MonthlyRow) (rows : List MonthlyRow)
    → v < next_version (max_version rows)
    → v < next_version (max_version (r ∷ rows))
unfolding max_version
version_grows v r rows h = ground arith

-- Every version is below the next one.
pub versions_below :
    (rows : List MonthlyRow) → All (λ r. r.version < next_version (max_version rows)) rows
versions_below [] = tt
versions_below (r ∷ rows) = (
  unfold max_version in ground arith,
  All-imp (λ s. s.version < next_version (max_version rows))
      (λ s. s.version < next_version (max_version (r ∷ rows))) rows
      (λ s h. version_grows s.version r rows h) (versions_below rows),
)

version-new :
    (v : ℕ) (rows : List MonthlyRow)
    → All (λ r. r.version < v) rows
    → elem v (map (λ (r : MonthlyRow). r.version) rows) ≡ false
version-new v [] h = refl
version-new v (r ∷ rows) h = ground (arith, version-new v rows h.1)

-- A request by a branch manager for a permitted property, in a transaction that no other one overlaps and
-- when the id that the sequence gives is not in use, succeeds: it adds one row, which is generating with
-- an empty body and the first day of the month, returns that row, and its version is above every version
-- that the property and the month had.
pub request_generation_total :
    (server : Server) (user : User) (p : ℕ) (month : Date) (w : World)
    → is_qa user ≡ false
    → elem p (permitted_property_ids user w) ≡ true
    → contains monthly_id (server.next_monthly_id w) w.db.monthly_reports ≡ false
    → (report : MonthlyReport) × (request_generation server user p month w ≡ (
      ok report,
      record w {
        db = record w.db { monthly_reports = requested server p month w ∷ w.db.monthly_reports };
      },
    ))
      × (monthly_to_domain (requested server p month w) ≡ ok report)
      × All
          (λ r. r.version < report.version)
          (generations p (first_of_month month) w.db.monthly_reports)
unfolding request_generation deny_qa_writes Repo.create_generating insert_monthly get_internal
    find_by monthly_to_domain
request_generation_total server user p month w manager permitted fresh =
    let old = generations p (first_of_month month) w.db.monthly_reports in
    (
      record {
        id = some (server.next_monthly_id w);
        property_id = p;
        month = first_of_month month;
        version = next_version (max_version old);
        body_markdown = [];
        status = generating;
        approved_by = none;
        approved_at = none;
      },
      ground (
        arith,
        permitted-contains user p w permitted,
        version-new (next_version (max_version old)) old (versions_below old),
        monthly_status_of-monthly_status_value generating,
      ),
      ground (arith, monthly_status_of-monthly_status_value generating),
      versions_below old,
    )
