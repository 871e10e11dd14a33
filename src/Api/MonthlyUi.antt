-- ===== src/Api/MonthlyUi.antt =====
-- app/api/routers/monthly_ui.py, but for the pages: the choice of months, the forms and the PDF.
use report_insight.Base.{
  ℕ, zero, suc, ◌-◌, String, Bool, true, false, not, ◌==◌, if◌then◌else◌, Option, List, [], ◌∷◌,
  ◌++◌, Text, codes, ℤ,
}
use report_insight.Base.Str.{decimal}
use report_insight.Domain.{
  Date, User, MonthlyReport, MonthlyStatus, generating, draft, approved, invalid_state, value_error,
  Result,
}
use report_insight.Db.{Server, Exec, lift, raise_if, or_raise, unit_of_work, ◌>>=◌, ◌>>◌}
use report_insight.Monthly.Service.{request_generation, save_draft}
use report_insight.Monthly.Service
use report_insight.Monthly.Jobs.{Setup, System, add_job, save_and_approve}
use report_insight.Api.UiShared.{resolve_user}

abbrev pub month_choices : ℕ
month_choices = 6

abbrev pub previous_month : ℕ × ℕ → ℕ × ℕ
previous_month (y, m) = if m - 1 == 0 then (y - 1, 12) else (y, m - 1)

-- The loop of `_month_options`, from the year and month on, for so many rounds.
unfoldable pub months_from : ℕ → ℕ × ℕ → List Date
months_from zero ym = []
months_from (suc n) ym =
    record { year = ym.0; month = ym.1; day = 1 } ∷ months_from n (previous_month ym)

unfoldable pub month_options : Date → List Date
unfolding months_from
month_options today = months_from month_choices (today.year, today.month)

-- `date.fromisoformat` is the parameter `from_iso`, which has no value where it raises `ValueError`.
unfoldable pub monthly_generate : Setup → (String → Option Date) → ℤ → ℕ → String → System → System
unfolding unit_of_work
monthly_generate setup from_iso uid property_id month s =
    let (r, w') =
      (resolve_user uid >>= λ user. unit_of_work (
          or_raise (from_iso month) value_error >>= λ day.
          request_generation setup.server user property_id day))
        s.world in
    record { world = w'; jobs = add_job r s.jobs }

unfoldable pub monthly_save : ℤ → ℕ → Text → Exec MonthlyReport
unfolding unit_of_work
monthly_save uid monthly_id body = do
  user ← resolve_user uid
  unit_of_work (save_draft user monthly_id body)

unfoldable pub monthly_approve : Server → ℤ → ℕ → Text → Exec MonthlyReport
unfolding save_and_approve
monthly_approve server uid monthly_id body = do
  user ← resolve_user uid
  save_and_approve server user monthly_id body

-- `report.status in (MonthlyStatus.DRAFT, MonthlyStatus.APPROVED)`
abbrev pub is_printable : MonthlyStatus → Bool
is_printable draft = true
is_printable approved = true
is_printable generating = false
is_printable MonthlyStatus.failed = false

-- `f"{report.month.year}年{report.month.month}月 月次報告 v{report.version}"`
abbrev pub pdf_title : MonthlyReport → Text
pdf_title r =
    decimal r.month.year
    ++ (codes "年" ++ (decimal r.month.month ++ (codes "月 月次報告 v" ++ decimal r.version)))

-- The PDF, for the user: the handlers of the API and of the page do the same. The renderer is a
-- parameter, from the title and the body.
unfoldable pub pdf_of : (Text → Text → Result (List ℕ)) → User → ℕ → Exec (List ℕ)
pdf_of render user monthly_id = do
  report ← Service.get user monthly_id
  raise_if (not (is_printable report.status)) invalid_state
  lift (render (pdf_title report) report.body_markdown)

unfoldable pub monthly_pdf : (Text → Text → Result (List ℕ)) → ℤ → ℕ → Exec (List ℕ)
unfolding pdf_of
monthly_pdf render uid monthly_id = do user ← resolve_user uid; pdf_of render user monthly_id
