-- ===== src/Api/OverrideForm.antt =====
-- What the form of an override shows.
use report_insight.Base.{ℕ, Bool, ◌≡◌, refl, inl, inr, some, arith, Option-cases, List, [], ◌∷◌}
use report_insight.Domain.{
  User, Category, Urgency, Report, ReportAnalysis, human_verified, ok, Result-cases,
}
use report_insight.Domain.RoundTrip.{
  category_of-category_value, urgency_of-urgency_value, analysis_status_of-analysis_status_value,
}
use report_insight.Db.{World, Server, ReportRow, unit_of_work, report_to_domain, analysis_to_domain}
use report_insight.Db.Table.{find_by}
use report_insight.Repositories.Report as Repo
use report_insight.Repositories.Report.{report_key, analysis_key, with_override, update_analysis}
use report_insight.Admin.Service.{override_analysis, get_report}
use report_insight.Admin.Override.{override_sound}
use report_insight.Api.AdminUi.{override_and_show}

found-report_key :
    (k : ℕ) (rows : List ReportRow) (r : ReportRow) → find_by report_key k rows ≡ some r → r.id ≡ k
unfolding find_by
found-report_key k [] r h = absurd (ground arith)
found-report_key k (s ∷ rows) r h = ground (arith, found-report_key k rows r)

-- The report that the page shows after an override has the analysis with the values of the form,
-- verified by a human.
pub override_shown :
    (server : Server) (user : User) (id : ℕ) (category : Category) (urgency : Urgency)
    (action_required : Bool) (w : World) (shown : Report)
    → (override_and_show server user id category urgency action_required w).0 ≡ ok shown
    → (a : ReportAnalysis) × (shown.id ≡ some id)
      × (shown.analysis ≡ some a)
      × (a.category ≡ category)
      × (a.urgency ≡ urgency)
      × (a.action_required ≡ action_required)
      × (a.status ≡ human_verified)
unfolding override_and_show unit_of_work get_report Repo.get report_to_domain analysis_to_domain
    with_override
override_shown server user id category urgency action_required w shown h =
    let first = override_analysis server user id category urgency action_required w in
    elim (Result-cases first.0) [
      | inr (e, failed) ↦ absurd (ground arith)
      | inl (analysis, done) ↦
          let stored =
            override_sound server user id category urgency action_required w analysis done in
          elim (Option-cases (find_by report_key id first.1.db.reports)) [
            | inl missing ↦ absurd (ground arith)
            | inr (r, found) ↦ (
              record {
                report_id = stored.1.report_id;
                category = category;
                urgency = urgency;
                action_required = action_required;
                normalized_summary = stored.1.normalized_summary;
                confidence = stored.1.confidence;
                status = human_verified;
                model_id = stored.1.model_id;
                prompt_version = stored.1.prompt_version;
                input_tokens = stored.1.input_tokens;
                output_tokens = stored.1.output_tokens;
                analyzed_at = some stored.1.analyzed_at;
              },
              ground (arith, found-report_key id first.1.db.reports r found),
              ground (
                arith,
                stored,
                category_of-category_value category,
                urgency_of-urgency_value urgency,
                analysis_status_of-analysis_status_value human_verified,
              ),
              refl,
              refl,
              refl,
              refl,
            )
          ]
    ]
