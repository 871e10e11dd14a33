-- ===== src/Api/MonthlyForms.antt =====
-- What the forms of the monthly pages do.
use report_insight.Base.{
  ℕ, zero, suc, ◌+◌, ◌-◌, ◌*◌, ◌≤◌, ◌≡◌, ◌∙◌, ◌⊎◌, ap, sym, refl, inl, inr, ◌==◌, some, List, [],
  ◌∷◌, Text, length, arith, Bool-cases,
}
use report_insight.Domain.{Date, User, MonthlyReport, draft, Error, Result, ok, err, Result-cases}
use report_insight.Db.{World, Server, MonthlyRow, AuditRow, unit_of_work, monthly_to_domain}
use report_insight.Repositories.Monthly as Repo
use report_insight.Repositories.Monthly.{with_body, with_approval, get_internal}
use report_insight.Monthly.Service.{save_draft, deny_qa_writes, approval_payload}
use report_insight.Monthly.Service
use report_insight.Monthly.Jobs.{save_and_approve}
use report_insight.Monthly.Frame.{row_of}
use report_insight.Monthly.Approval.{MayWrite, Logs, save_draft_sound, approve_sound}
use report_insight.Api.MonthlyUi.{month_options, months_from, previous_month}

-- The number of a month, counted from the year 0.
abbrev pub month_number : Date → ℕ
month_number d = d.year * 12 + d.month

-- The first of a month that exists.
pub record IsMonth (d : Date) : Type 0 where
  pub day : d.day ≡ 1
  pub some_year : 1 ≤ d.year
  pub low : 1 ≤ d.month
  pub high : d.month ≤ 12

-- Months that follow one another backwards, from one with this number on.
abbrev pub Backwards : ℕ → List Date → Type 0
Backwards k [] = Unit
Backwards k (d ∷ ds) = (month_number d ≡ k) × IsMonth d × Backwards (k - 1) ds

months_from-Backwards :
    (n y m : ℕ)
    → n + 12 ≤ y * 12 + m
    → 1 ≤ m
    → m ≤ 12
    → Backwards (y * 12 + m) (months_from n (y, m))
unfolding months_from
months_from-Backwards zero y m h low high = tt
months_from-Backwards (suc n) y m h low high = elim (Bool-cases (m - 1 == 0)) [
  | inl e ↦
      let january : m ≡ 1 = ground arith in
      let same : y * 12 + m - 1 ≡ (y - 1) * 12 + 12 = omega arith in
      (
        refl,
        record { day = refl; some_year = omega arith; low = low; high = high },
        rw (e, same) (months_from-Backwards n (y - 1) 12 (omega arith) (omega arith) (omega arith)),
      )
  | inr e ↦
      let later : 2 ≤ m = ground arith in
      let same : y * 12 + m - 1 ≡ y * 12 + (m - 1) = omega arith in
      (
        refl,
        record { day = refl; some_year = omega arith; low = low; high = high },
        rw (e, same) (months_from-Backwards n y (m - 1) (omega arith) (omega arith) (omega arith)),
      )
]

length-months_from : (n : ℕ) (ym : ℕ × ℕ) → length (months_from n ym) ≡ n
unfolding months_from
length-months_from zero ym = refl
length-months_from (suc n) ym = ap suc (length-months_from n (previous_month ym))

-- The choice holds six months, all of them first days of months that exist: this month and the five
-- before it, in that order, also across the turn of a year.
pub month_options_consecutive :
    (today : Date)
    → 2 ≤ today.year
    → 1 ≤ today.month
    → today.month ≤ 12
    → (length (month_options today) ≡ 6) × Backwards (month_number today) (month_options today)
unfolding month_options
month_options_consecutive today some_year low high = (
  length-months_from 6 (today.year, today.month),
  months_from-Backwards 6 today.year today.month (omega arith) low high,
)

audit_logs-save_draft :
    (user : User) (k : ℕ) (body : Text) (w : World)
    → (save_draft user k body w).1.db.audit_logs ≡ w.db.audit_logs
unfolding save_draft deny_qa_writes Repo.get get_internal Repo.set_body
audit_logs-save_draft user k body w = ground arith

-- The report was a draft that the user may write. It has the body of the form, is approved by the
-- user, and is the same else; and the audit log has one more row.
abbrev pub FormApproved : User → ℕ → Text → World → World → MonthlyReport → Type 0
FormApproved user k body w w' m =
    (r : MonthlyRow) × (t : ℕ) × (row_of k w ≡ some r)
    × MayWrite user w r
    × (monthly_to_domain (with_approval user.id t (with_body body draft r)) ≡ ok m)
    × (row_of k w' ≡ some (with_approval user.id t (with_body body draft r)))
    × Logs (approval_payload k m) user w w'

both-FormApproved :
    (server : Server) (user : User) (k : ℕ) (body : Text) (w : World) (saved m : MonthlyReport)
    → (save_draft user k body w).0 ≡ ok saved
    → (Service.approve server user k (save_draft user k body w).1).0 ≡ ok m
    → FormApproved user k body w (Service.approve server user k (save_draft user k body w).1).1 m
both-FormApproved server user k body w saved m h h' =
    let w1 : World = (save_draft user k body w).1 in
    let (r, found, may, stored) = save_draft_sound user k body w saved h in
    let (r', found', may', shown, written, (log, logged, by, action, payload)) =
      approve_sound server user k w1 m h' in
    let same : r' ≡ with_body body draft r = ground (arith, found', stored) in
    (
      r,
      server.now w1,
      found,
      may,
      ap (λ (x : MonthlyRow). monthly_to_domain (with_approval user.id (server.now w1) x))
            (sym same)
          ∙ shown,
      written ∙ ap (λ (x : MonthlyRow). some (with_approval user.id (server.now w1) x)) same,
      (
        log,
        logged ∙ ap (λ (l : List AuditRow). log ∷ l) (audit_logs-save_draft user k body w),
        by,
        action,
        payload,
      ),
    )

-- The form that approves is atomic: either it succeeds, and then a draft that the user may write has
-- become exactly the text of the form, approved, with one row in the audit log; or it raises, and then
-- every table is as it was, so that no half-saved text is left.
pub save_and_approve_atomic :
    (server : Server) (user : User) (k : ℕ) (body : Text) (w : World)
    → ((m : MonthlyReport) × ((save_and_approve server user k body w).0 ≡ ok m)
        × FormApproved user k body w (save_and_approve server user k body w).1 m)
      ⊎ ((e : Error) × ((save_and_approve server user k body w).0 ≡ err e)
          × ((save_and_approve server user k body w).1.db ≡ w.db))
unfolding save_and_approve unit_of_work
save_and_approve_atomic server user k body w = elim (Result-cases (save_draft user k body w).0) [
  | inr (e, failed) ↦ inr (e, ground arith, ground arith)
  | inl (saved, h) ↦
      elim (Result-cases (Service.approve server user k (save_draft user k body w).1).0) [
        | inr (e, failed) ↦ inr (e, ground arith, ground arith)
        | inl (m, h') ↦
            let same : (save_and_approve server user k body w)
                ≡ (Service.approve server user k (save_draft user k body w).1) =
              ground arith in
            inl (
              m,
              ap (λ (x : Result MonthlyReport × World). x.0) same ∙ h',
              rw same (both-FormApproved server user k body w saved m h h'),
            )
      ]
]
