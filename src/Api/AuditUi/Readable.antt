-- ===== src/Api/AuditUi/Readable.antt =====
-- What the program logs is shown in the readable form.
use report_insight.Base.{
  ℕ, ◌+◌, ◌-◌, ◌*◌, ◌/◌, ◌%◌, ◌<◌, ◌≡◌, ◌∙◌, refl, ap, Bool, true, false, ◌&&◌, leb, Option, none,
  some, [], ◌∷◌, Text, codes, take, if◌then◌else◌, arith,
}
use mathlib.Core.Option.{bind}
use report_insight.Base.Str.{decimal}
use report_insight.Domain.{
  Date, Json, get_field, truthy, Category, categories, urgencies, audit_action_of, category_value,
  cleaning, equipment_failure, claim, Urgency, urgency_value, high, medium, low, MonthlyReport,
  AuditAction, ok, User,
}
use report_insight.Domain.Calendar.{iso_date}
use report_insight.Domain.Labels.{category_jp, urgency_jp}
use report_insight.Db.{World, Server, AuditRow}
use report_insight.Monthly.Service.{approval_payload, approve}
use report_insight.Monthly.Approval.{approve_sound}
use report_insight.Admin.Service.{override_payload}
use report_insight.Infra.Llm.Summaries.{split_on}
use report_insight.Api.AuditUi.{two_of, member_of, format_payload, override_text, approval_text}

-- The number that decimal digits stand for, behind the digits with this number.
unfoldable pub digits_from : ℕ → Text → Option ℕ
digits_from n [] = some n
digits_from n (c ∷ t) = if leb 48 c && leb c 57 then digits_from (n * 10 + (c - 48)) t else none

abbrev pub digits : Text → Option ℕ
digits [] = none
digits (c ∷ t) = digits_from 0 (c ∷ t)

-- Python's `int` reads a text of decimal digits as their number.
abbrev pub ReadsDigits : (Text → Option ℕ) → Type 0
ReadsDigits to_int = (t : Text) (n : ℕ) → digits t ≡ some n → to_int t ≡ some n

abbrev two : ℕ → Text
two n = (48 + n / 10 % 10) ∷ (48 + n % 10) ∷ []

abbrev four : ℕ → Text
four n = (48 + n / 100 / 10 % 10) ∷ (48 + n / 100 % 10) ∷ two (n % 100)

digits-two : (n : ℕ) → n < 100 → digits (two n) ≡ some n
unfolding digits_from
digits-two n h = ground arith

digits-four : (n : ℕ) → n < 10000 → digits (four n) ≡ some n
unfolding digits_from
digits-four n h = ground arith

split-iso :
    (d : Date) → two_of (split_on b'-' (take 7 (iso_date d))) ≡ some (four d.year, two d.month)
unfolding split_on iso_date
split-iso d = ground arith

member_of-category :
    (c : Category) → member_of category_value categories (codes (category_value c)) ≡ some c
unfolding member_of category_value
member_of-category cleaning = refl
member_of-category equipment_failure = refl
member_of-category claim = refl
member_of-category Category.other = refl

member_of-urgency :
    (u : Urgency) → member_of urgency_value urgencies (codes (urgency_value u)) ≡ some u
unfolding member_of urgency_value
member_of-urgency high = refl
member_of-urgency medium = refl
member_of-urgency low = refl

-- The label of the flag of an override.
abbrev pub flag_text : Bool → Text
flag_text true = codes "要対応"
flag_text false = codes "対応不要"

-- What a person has decided is shown by the labels of the values.
pub format_override_readable :
    (show : Json → Text) (to_int : Text → Option ℕ) (id : ℕ) (c : Category) (u : Urgency) (a : Bool)
    → format_payload show to_int AuditAction.override_analysis (override_payload id c u a)
      ≡ override_text (decimal id) (category_jp c) (urgency_jp u) (flag_text a)
unfolding format_payload get_field bind truthy
format_override_readable show to_int id c u true =
    rw (member_of-category c, member_of-urgency u) refl
format_override_readable show to_int id c u false =
    rw (member_of-category c, member_of-urgency u) refl

format_approval_readable :
    (show : Json → Text) (to_int : Text → Option ℕ) (id : ℕ) (report : MonthlyReport)
    → ReadsDigits to_int
    → report.month.year < 10000
    → report.month.month < 100
    → format_payload show to_int AuditAction.approve_monthly (approval_payload id report)
      ≡ approval_text
          (decimal report.property_id)
          report.month.year
          report.month.month
          (decimal report.version)
unfolding format_payload bind get_field
format_approval_readable show to_int id report reads y m =
    let d : Date = report.month in
    rw
      (
        split-iso d,
        reads (four d.year) d.year (digits-four d.year y),
        reads (two d.month) d.month (digits-two d.month m),
      )
      refl

pub approval_readable :
    (show : Json → Text) (to_int : Text → Option ℕ) (server : Server) (user : User) (k : ℕ)
    (w : World) (m : MonthlyReport)
    → ReadsDigits to_int
    → (approve server user k w).0 ≡ ok m
    → m.month.year < 10000
    → m.month.month < 100
    → (log : AuditRow) × ((approve server user k w).1.db.audit_logs ≡ log ∷ w.db.audit_logs)
      × (log.user_id ≡ user.id)
      × (audit_action_of log.action ≡ some AuditAction.approve_monthly)
      × (format_payload show to_int AuditAction.approve_monthly log.payload
          ≡ approval_text (decimal m.property_id) m.month.year m.month.month (decimal m.version))
unfolding audit_action_of
approval_readable show to_int server user k w m reads done y mo =
    let (r, found, may, row, after, (log, added, who, action, payload)) =
      approve_sound server user k w m done in
    (
      log,
      added,
      who,
      ap audit_action_of action,
      ap (format_payload show to_int AuditAction.approve_monthly) payload
          ∙ format_approval_readable show to_int k m reads y mo,
    )
