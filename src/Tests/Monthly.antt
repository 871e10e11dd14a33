-- ===== src/Tests/Monthly.antt =====
-- Monthly reports at concrete inputs.
use report_insight.Base.{◌≡◌, refl, true, false, none, some, List, [], ◌∷◌, All, elem, ◌<◌}
use report_insight.Domain.{
  MonthlyStatus, draft, approved, monthly_status_of, MonthlyReport, MonthlyStats, MonthlyNarration,
  ok, err, external,
}
use report_insight.Domain.RoundTrip.{monthly_status_of-monthly_status_value}
use report_insight.Db.{MonthlyRow, monthly_to_domain}
use report_insight.Db.Table.{contains, find_by}
use report_insight.Domain.Calendar.{first_of_month}
use report_insight.Repositories.Monthly.{
  with_approval, with_body, generations, get_internal, max_version,
}
use report_insight.Repositories.User.{permitted_property_ids}
use report_insight.Repositories.Audit.{record_action}
use report_insight.Repositories.Stats.{compute_stats}
use report_insight.Repositories.Monthly as Repo
use report_insight.Monthly.Service
use report_insight.Monthly.Service.{
  generate, run_generation, request_generation, save_draft, approval_payload, write_approval,
}
use report_insight.Monthly.Jobs.{Setup, Event, create, save, approve, run_job, run, background}
use report_insight.Monthly.Frame.{row_of, requested}
use report_insight.Monthly.Approval.{approve_sound, MayWrite, Logs}
use report_insight.Monthly.Lifecycle.{IsValid, approved_is_final}
use report_insight.Monthly.Versions.{request_generation_total}
use report_insight.Monthly.Generation.{background_drafts, background_failure_lost}
use report_insight.Monthly.Render.{render_monthly_markdown}
use report_insight.Tests.{world, system, setup, server, manager, october, monthly_row}

-- The approved report is saved, approved and generated anew, and the new report's task runs.
abbrev schedule : List Event
schedule =
    save manager 2 (120 ∷ [])
    ∷ approve manager 2
    ∷ create manager 1 october
    ∷ run_job 2
    ∷ run_job 9
    ∷ approve manager 9
    ∷ []

system-IsValid : IsValid system
system-IsValid = record { pending = tt }

row_2 : row_of 2 world ≡ some (monthly_row 2 approved)
unfolding find_by
row_2 = refl

pub row_1 : row_of 1 world ≡ some (monthly_row 1 draft)
unfolding find_by
row_1 = refl

approved_is_final_example :
    row_of 2 (run setup schedule system).world ≡ some (monthly_row 2 approved)
approved_is_final_example =
    approved_is_final setup schedule system 2 (monthly_row 2 approved) system-IsValid row_2
      (monthly_status_of-monthly_status_value approved)

permitted : elem 1 (permitted_property_ids manager world) ≡ true
unfolding permitted_property_ids
permitted = refl

fresh : contains Repo.monthly_id 9 world.db.monthly_reports ≡ false
unfolding contains
fresh = refl

request_generation_total_example :
    (report : MonthlyReport) × (request_generation server manager 1 october world ≡ (
      ok report,
      record world {
        db = record world.db {
          monthly_reports = requested server 1 october world ∷ world.db.monthly_reports;
        };
      },
    ))
    × (monthly_to_domain (requested server 1 october world) ≡ ok report)
    × All
        (λ r. r.version < report.version)
        (generations 1 (first_of_month october) world.db.monthly_reports)
request_generation_total_example =
    request_generation_total server manager 1 october world refl permitted fresh

abbrev pub approved_report : MonthlyReport
approved_report = record {
  id = some 1;
  property_id = 1;
  month = october;
  version = 1;
  body_markdown = 98 ∷ [];
  status = approved;
  approved_by = some 1;
  approved_at = some 200;
}

pub approves : (Service.approve server manager 1 world).0 ≡ ok approved_report
unfolding Service.approve permitted_property_ids Repo.get Repo.approve monthly_status_of
    record_action
approves = refl

approve_sound_example :
    (r : MonthlyRow) × (row_of 1 world ≡ some r)
    × MayWrite manager world r
    × (monthly_to_domain (with_approval 1 200 r) ≡ ok approved_report)
    × (row_of 1 (Service.approve server manager 1 world).1 ≡ some (with_approval 1 200 r))
    × Logs
        (approval_payload 1 approved_report)
        manager
        world
        (Service.approve server manager 1 world).1
approve_sound_example = approve_sound server manager 1 world approved_report approves

abbrev pub saved_report : MonthlyReport
saved_report = record {
  id = some 1;
  property_id = 1;
  month = october;
  version = 1;
  body_markdown = 120 ∷ [];
  status = draft;
  approved_by = none;
  approved_at = none;
}

pub saves : (save_draft manager 1 (120 ∷ []) world).0 ≡ ok saved_report
unfolding save_draft permitted_property_ids Repo.get Repo.set_body monthly_status_of
saves = refl

abbrev pub stats : MonthlyStats
stats = record {
  property_id = 1;
  month = october;
  total = 0;
  by_category = [];
  by_urgency = [];
  action_required = 0;
}

abbrev narration : MonthlyNarration
narration = record {
  body = 110 ∷ [];
  meta = record { model_id = "model"; prompt_version = "v1"; input_tokens = 1; output_tokens = 1 };
}

pub counts : (compute_stats 1 october world).0 ≡ ok stats
unfolding compute_stats
counts = refl

names : (Repo.property_name 1 world).0 ≡ ok (80 ∷ [])
unfolding Repo.property_name
names = refl

background_drafts_example :
    row_of 1 (background setup 1 world)
    ≡ some
        (with_body (render_monthly_markdown (80 ∷ []) stats narration) draft (monthly_row 1 draft))
background_drafts_example =
    background_drafts setup 1 world (monthly_row 1 draft) draft stats (80 ∷ []) narration row_1
      (monthly_status_of-monthly_status_value draft) counts names refl

-- A language model that always fails.
abbrev broken : Setup
broken = record setup { narrate = λ name s. err external }

abbrev pub draft_report : MonthlyReport
draft_report = record saved_report { body_markdown = 98 ∷ [] }

decodes : monthly_to_domain (monthly_row 1 draft) ≡ ok draft_report
unfolding monthly_to_domain monthly_status_of
decodes = refl

fails : (generate broken.narrate 1 draft_report world).0 ≡ err external
unfolding generate compute_stats Repo.property_name
fails = refl

background_failure_lost_example :
    ((run_generation broken.narrate 1 world).0 ≡ err external)
    × (row_of 1 (run_generation broken.narrate 1 world).1
        ≡ some (with_body (98 ∷ []) MonthlyStatus.failed (monthly_row 1 draft)))
    × ((background broken 1 world).db ≡ world.db)
background_failure_lost_example =
    background_failure_lost broken 1 world (monthly_row 1 draft) draft_report external row_1 decodes
      fails
