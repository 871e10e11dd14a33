-- ===== src/Scripts/Verified/Feedback.antt =====
-- What a person decides reaches the evaluation.
use report_insight.Base.{
  ℕ, ◌==◌, codes, ◌≡◌, ◌⊎◌, refl, ap, ◌∙◌, true, Bool, Bool-cases, Option-cases, some, inl, inr,
  List, [], ◌∷◌, ◌++◌, Any, filter, ltb, arith,
}
use mathlib.Core.List.{reverse, reverse-cons}
use report_insight.Domain.{
  User, Category, category_value, Urgency, urgency_value, analysis_status_value, ReportAnalysis, ok,
}
use report_insight.Db.Table.{find_by, find_by-key, insert_desc, order_by_desc}
use report_insight.Db.{Db, World, Server, ReportRow, AnalysisRow}
use report_insight.Repositories.Report.{
  report_key, analysis_key, joined, with_override, update_analysis,
}
use report_insight.Repositories.Audit.{record_action}
use report_insight.Admin.Service.{override_analysis}
use report_insight.Admin.Override.{override_sound}
use report_insight.Scripts.Merge.{EvalCase}
use report_insight.Scripts.Verified.{is_verified, case_of, cases_of, fetch_verified_cases}

module _ {A : Type 0} (P : A → Type 0) where
  Any-append-left : (xs ys : List A) → Any P xs → Any P (xs ++ ys)
  Any-append-left [] ys h = absurd h
  Any-append-left (x ∷ xs) ys (inl h) = inl h
  Any-append-left (x ∷ xs) ys (inr h) = inr (Any-append-left xs ys h)

  Any-append-right : (xs ys : List A) → Any P ys → Any P (xs ++ ys)
  Any-append-right [] ys h = h
  Any-append-right (x ∷ xs) ys h = inr (Any-append-right xs ys h)

  Any-reverse : (xs : List A) → Any P xs → Any P (reverse xs)
  Any-reverse [] h = absurd h
  Any-reverse (x ∷ xs) (inl h) =
      rw (reverse-cons x xs) (Any-append-right (reverse xs) (x ∷ []) (inl h))
  Any-reverse (x ∷ xs) (inr h) =
      rw (reverse-cons x xs) (Any-append-left (reverse xs) (x ∷ []) (Any-reverse xs h))

  module _ (key : A → ℕ) where
    Any-insert_desc : (a : A) (xs : List A) → P a ⊎ Any P xs → Any P (insert_desc key a xs)
    unfolding insert_desc
    Any-insert_desc a [] h = h
    Any-insert_desc a (x ∷ xs) h = elim (Bool-cases (ltb (key a) (key x))) [
      | inr e ↦ rw e h
      | inl e ↦ rw e (later (Any-insert_desc a xs) h)
    ]
      where
        later :
            (P a ⊎ Any P xs → Any P (insert_desc key a xs))
            → P a ⊎ (P x ⊎ Any P xs)
            → P x ⊎ Any P (insert_desc key a xs)
        later put (inl h) = inr (put (inl h))
        later put (inr (inl h)) = inl h
        later put (inr (inr h)) = inr (put (inr h))

    Any-order_by_desc : (xs : List A) → Any P xs → Any P (order_by_desc key xs)
    unfolding order_by_desc
    Any-order_by_desc [] h = absurd h
    Any-order_by_desc (x ∷ xs) (inl h) = Any-insert_desc x (order_by_desc key xs) (inl h)
    Any-order_by_desc (x ∷ xs) (inr h) =
        Any-insert_desc x (order_by_desc key xs) (inr (Any-order_by_desc xs h))

-- A row that is found and meets the condition is among those that do.
found-Any :
    (id : ℕ) (rows : List ReportRow) (r : ReportRow) (p : ReportRow → Bool)
    → find_by report_key id rows ≡ some r
    → p r ≡ true
    → Any (λ s. s ≡ r) (filter p rows)
unfolding find_by
found-Any id [] r p h meets = absurd (ground arith)
found-Any id (x ∷ rows) r p h meets = elim (Bool-cases (report_key x == id)) [
  | inl e ↦
      let same : x ≡ r = ground arith in
      let kept : p x ≡ true = ap p same ∙ meets in rw kept (inl same)
  | inr e ↦
      let rest = found-Any id rows r p (ground arith) meets in
      elim (Bool-cases (p x)) [ inl f ↦ rw f (inr rest) | inr f ↦ rw f rest ]
]

cases_of-Any :
    (db : Db) (rows : List ReportRow) (r : ReportRow) (a : AnalysisRow)
    → find_by analysis_key r.id db.analyses ≡ some a
    → Any (λ s. s ≡ r) rows
    → Any (λ c. c ≡ case_of r a) (cases_of db rows)
unfolding cases_of
cases_of-Any db [] r a found h = absurd h
cases_of-Any db (x ∷ rows) r a found (inl same) =
    let here : find_by analysis_key x.id db.analyses ≡ some a =
      ap (λ (s : ReportRow). find_by analysis_key s.id db.analyses) same ∙ found in
    rw here (inl (ap (λ s. case_of s a) same))
cases_of-Any db (x ∷ rows) r a found (inr later) =
    elim (Option-cases (find_by analysis_key x.id db.analyses)) [
      | inl e ↦ rw e (cases_of-Any db rows r a found later)
      | inr (b, e) ↦ rw e (inr (cases_of-Any db rows r a found later))
    ]

reports-override :
    (server : Server) (user : User) (id : ℕ) (c : Category) (u : Urgency) (a : Bool) (w : World)
    → (override_analysis server user id c u a w).1.db.reports ≡ w.db.reports
unfolding override_analysis update_analysis record_action
reports-override server user id c u a w = ground arith

-- What a person decides reaches the evaluation: once an override has succeeded, the verified cases that are
-- exported have one for its report, with the report's key and text and the values of the override.
pub override_exported :
    (server : Server) (user : User) (id : ℕ) (category : Category) (urgency : Urgency)
    (action_required : Bool) (w : World) (analysis : ReportAnalysis)
    → (override_analysis server user id category urgency action_required w).0 ≡ ok analysis
    → let w' = (override_analysis server user id category urgency action_required w).1 in
      (r : ReportRow) × (cases : List EvalCase) × (find_by report_key id w.db.reports ≡ some r)
      × ((fetch_verified_cases w').0 ≡ ok cases)
      × Any
          (λ c. c ≡ record {
            source_key = codes r.source_key;
            raw_text = r.raw_text;
            reporter_role = r.reporter_role;
            expected_category = category_value category;
            expected_urgency = urgency_value urgency;
            expected_action_required = action_required;
            tags = "human_verified" ∷ [];
          })
          cases
unfolding fetch_verified_cases with_override analysis_status_value
override_exported server user id category urgency action_required w analysis h =
    let sound = override_sound server user id category urgency action_required w analysis h in
    let w' : World = (override_analysis server user id category urgency action_required w).1 in
    let r : ReportRow = sound.0 in
    let row : AnalysisRow = with_override category urgency action_required sound.1 in
    let condition : ReportRow → Bool =
      λ s. joined is_verified (find_by analysis_key s.id w'.db.analyses) s in
    let rows = filter condition w'.db.reports in
    let there : find_by report_key id w'.db.reports ≡ some r =
      ap (find_by report_key id)
        (reports-override server user id category urgency action_required w)
      ∙ sound.3 in
    let same : r.id ≡ id = find_by-key report_key id w.db.reports r sound.3 in
    let analysed : find_by analysis_key r.id w'.db.analyses ≡ some row =
      ap (λ k. find_by analysis_key k w'.db.analyses) same ∙ sound.6 in
    let meets : condition r ≡ true = ap (λ o. joined is_verified o r) analysed in
    (
      r,
      cases_of w'.db (reverse (order_by_desc report_key rows)),
      sound.3,
      refl,
      cases_of-Any w'.db (reverse (order_by_desc report_key rows)) r row analysed (
          Any-reverse (λ s. s ≡ r) (order_by_desc report_key rows)
            (Any-order_by_desc (λ s. s ≡ r) report_key rows
              (found-Any id w'.db.reports r condition there meets))),
    )
