-- ===== src/Infra/Llm/Consistent.antt =====
-- What every classification by keywords satisfies.
use report_insight.Base.{
  ◌==◌, Bool, ◌≤◌, ◌≡◌, ◌≢◌, refl, true, Bool-cases, inl, inr, not, ◌&&◌, ◌||◌, none, [], ◌∷◌, map,
  take, any, false, Text, codes, length, length-append, length-take-le, ltb, is_empty, All,
  All-take, All-append, arith, if◌then◌else◌,
}
use report_insight.Base.Str.{strip}
use report_insight.Base.Find.{mentions}
use report_insight.Domain.{
  ClassificationEnvelope, Category, equipment_failure, Urgency, high, medium, low,
}
use report_insight.Infra.Llm.Summaries.{lookup}
use report_insight.Infra.Llm.Fake.{
  FakeLlmClient, classify_report, classify_category, classify_urgency, equipment_keywords,
  no_issue_markers, high_urgency_keywords, claim_keywords, cleaning_keywords, shortened, summary_of,
  summary_or, is_high, is_failure,
}

abbrev pub IsConsistent : FakeLlmClient → Text → ClassificationEnvelope → Type 0
unfolding lookup
IsConsistent client text envelope =
    (envelope.result.category ≡ equipment_failure
      → (envelope.result.urgency ≢ low) × (envelope.result.action_required ≡ true))
    × ((1 ≤ length envelope.result.normalized_summary)
        × (lookup client.samples text ≡ none
            → (length envelope.result.normalized_summary ≤ 80)
              × All (λ c. ¬ c ≡ 10) envelope.result.normalized_summary))

failure-branch :
    (no_issue equipment claim cleaning : Bool)
    → (if not no_issue && equipment
        then equipment_failure
        else if claim
        then Category.claim
        else if cleaning
        then Category.cleaning
        else Category.other)
      ≡ equipment_failure
    → (not no_issue && equipment) ≡ true
failure-branch no_issue equipment claim cleaning h = ground (arith, h)

urgency-branch :
    (urgent no_issue equipment : Bool)
    → (not no_issue && equipment) ≡ true
    → (if urgent then high else if no_issue then low else if equipment then medium else low) ≢ low
urgency-branch urgent no_issue equipment h l = ground (arith, h, l)

failure-urgency :
    (text : Text) → classify_category text ≡ equipment_failure → classify_urgency text ≢ low
unfolding classify_urgency classify_category
failure-urgency text h =
    urgency-branch (mentions high_urgency_keywords text) (mentions no_issue_markers text)
      (mentions equipment_keywords text)
      (failure-branch (mentions no_issue_markers text) (mentions equipment_keywords text)
        (mentions claim_keywords text) (mentions cleaning_keywords text) h)

action-failure :
    (urgency : Urgency) (category : Category)
    → category ≡ equipment_failure
    → (is_high urgency || is_failure category) ≡ true
action-failure urgency category h = rw h (ground arith)

no_breaks : (t : Text) → any (λ c. c == 10) t ≡ false → All (λ c. ¬ c ≡ 10) t
no_breaks [] h = tt
no_breaks (c ∷ t) h = (λ e. ground (arith, h, e), no_breaks t (ground (arith, h)))

one_line : Text → Text
one_line t = map (λ c. if c == 10 then 32 else c) t

one_line-All : (t : Text) → All (λ c. ¬ c ≡ 10) (one_line t)
unfolding one_line
one_line-All [] = tt
one_line-All (c ∷ t) = (λ e. ground (arith, e), one_line-All t)

shortened-bounds :
    (text : Text) → (length (shortened text) ≤ 80) × All (λ c. ¬ c ≡ 10) (shortened text)
unfolding shortened one_line
shortened-bounds text =
    let line = one_line (strip text) in
    elim (Bool-cases (ltb 80 (length line))) [
      | inl e ↦ rw e (
        omega (arith, length-append (take 78 line) (codes "…"), length-take-le 78 line),
        All-append (λ c. ¬ c ≡ 10) (take 78 line) (codes "…")
            (All-take (λ c. ¬ c ≡ 10) 78 line (one_line-All (strip text)))
            (no_breaks (codes "…") refl),
      )
      | inr e ↦ rw e (ground (arith, e), one_line-All (strip text))
    ]

non_empty : (t : Text) → 1 ≤ length (if is_empty t then codes "（本文なし）" else t)
non_empty [] = omega arith
non_empty (c ∷ t) = omega arith

summary-bounds :
    (t : Text)
    → (length t ≤ 80) × All (λ c. ¬ c ≡ 10) t
    → (length (if is_empty t then codes "（本文なし）" else t) ≤ 80)
      × All (λ c. ¬ c ≡ 10) (if is_empty t then codes "（本文なし）" else t)
summary-bounds [] h = (omega arith, no_breaks (codes "（本文なし）") refl)
summary-bounds (c ∷ t) h = h

-- By keywords, a failure of equipment is never of low urgency and always asks for action; the summary
-- is never empty, and it has 80 characters at most, none a break of line, where no sample has a
-- summary for the text.
pub classify_report-IsConsistent :
    (client : FakeLlmClient) (text : Text) → IsConsistent client text (classify_report client text)
unfolding classify_report summary_of
classify_report-IsConsistent client text = (
  λ failure. (
    failure-urgency text failure,
    action-failure (classify_urgency text) (classify_category text) failure,
  ),
  (
    non_empty (summary_or (lookup client.samples text) (shortened text)),
    λ no_summary. rw no_summary (summary-bounds (shortened text) (shortened-bounds text)),
  ),
)
