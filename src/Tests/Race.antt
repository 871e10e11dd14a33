-- ===== src/Tests/Race.antt =====
-- Overlapping requests and the figures of a month at concrete inputs.
use report_insight.Base.{◌≡◌, ◌≤◌, refl, true, some, [], ◌∷◌, length}
use report_insight.Domain.{draft}
use report_insight.Repositories.Monthly.{with_approval, with_body}
use report_insight.Repositories.Stats.{sum_values}
use report_insight.Repositories.Totals.{compute_stats_consistent, analysed}
use report_insight.Monthly.Frame.{row_of}
use report_insight.Monthly.Race.{Race, approve, create, waiting, interleave}
use report_insight.Monthly.Race.Overlap.{overlap, saver_and_approver, save_over_approval}
use report_insight.Monthly.Race.Creates.{overlapping_creates, creates, two_creators}
use report_insight.Base.{none}
use report_insight.Domain.{MonthlyReport, generating, ok, err, external, monthly_status_of}
use report_insight.Monthly.Service.{request_generation}
use report_insight.Repositories.User.{permitted_property_ids}
use report_insight.Monthly.Race.{finished}
use report_insight.Monthly.Race.Versions.{interleave-Distinct, distinct_versions}
use report_insight.Tests.{world, server, manager, october, monthly_row}
use report_insight.Tests.Monthly.{
  row_1, saved_report, saves, approved_report, approves, stats, counts,
}

save_over_approval_example :
    row_of 1
      (interleave server overlap (saver_and_approver manager manager 1 (120 ∷ []) world)).world
    ≡ some (with_body (120 ∷ []) draft (with_approval 1 200 (monthly_row 1 draft)))
save_over_approval_example =
    save_over_approval server manager manager 1 (120 ∷ []) world (monthly_row 1 draft) saved_report
      approved_report saves approves row_1

-- Both requests create a report of the same month, and a draft is approved.
abbrev race : Race
race = record {
  world = world;
  sessions =
      waiting (create manager 1 october)
      ∷ waiting (create manager 1 october)
      ∷ waiting (approve manager 1)
      ∷ [];
}

distinct : distinct_versions world.db.monthly_reports ≡ true
unfolding distinct_versions
distinct = refl

interleave-Distinct_example :
    distinct_versions (interleave server (0 ∷ 1 ∷ 2 ∷ 1 ∷ 0 ∷ 2 ∷ []) race).world.db.monthly_reports
    ≡ true
interleave-Distinct_example = interleave-Distinct server (0 ∷ 1 ∷ 2 ∷ 1 ∷ 0 ∷ 2 ∷ []) race distinct

abbrev created : MonthlyReport
created = record {
  id = some 9;
  property_id = 1;
  month = october;
  version = 3;
  body_markdown = [];
  status = generating;
  approved_by = none;
  approved_at = none;
}

is_created : (request_generation server manager 1 october world).0 ≡ ok created
unfolding request_generation permitted_property_ids monthly_status_of
    report_insight.Repositories.Monthly.create_generating
is_created = refl

overlapping_creates_example :
    interleave server creates (two_creators manager manager 1 october world) ≡ record {
      world = (request_generation server manager 1 october world).1;
      sessions = finished (ok created) ∷ finished (err external) ∷ [];
    }
overlapping_creates_example =
    overlapping_creates server manager manager 1 october world created created is_created is_created

compute_stats_consistent_example :
    (stats.total ≡ length (analysed 1 october world))
    × (sum_values stats.by_category ≡ stats.total)
    × (sum_values stats.by_urgency ≡ stats.total)
    × (stats.action_required ≤ stats.total)
compute_stats_consistent_example = compute_stats_consistent 1 october world stats counts
