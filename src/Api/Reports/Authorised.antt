-- ===== src/Api/Reports/Authorised.antt =====
-- What the routes show is of properties that the user may see, and so is what they change.
use report_insight.Base.{
  ℕ, ◌≡◌, subst, true, Bool, Option, some, inl, inr, List, [], ◌∷◌, map, elem, All, All-imp, Any, ℤ,
  arith,
}
use report_insight.Domain.{User, Report, ReportListFilters, Category, Urgency, Result-cases, ok}
use report_insight.Db.{
  World, Server, Db, ReportRow, AnalysisRow, PropertyRow, Exec, traverse, unit_of_work,
  property_to_domain,
}
use report_insight.Db.Table.{find_by}
use report_insight.Repositories.Report as Repo
use report_insight.Repositories.Report.{
  report_key, analysis_key, select_page, listed, queued, joined, load, list_with_analysis,
}
use report_insight.Repositories.User.{permitted_property_ids, visible_properties, in_branch}
use report_insight.Repositories.Access.{Visible, permitted_visible}
use report_insight.Admin.Service
use report_insight.Admin.Override.{override_sound}
use report_insight.Admin.Out.{ReportAnalysisOut, ReportOut, ReportListOut, from_domain, to_list_out}
use report_insight.Api.Schemas.{PropertyOut, property_out}
use report_insight.Api.Reports.Within.{
  All-traverse, Within, list_reports-Within, review_queue-Within,
}
use report_insight.Api.Reports.{
  Request, queue, reports, report, analysis, properties, Response, page, one, overridden, choices,
  serve, review_queue, list_reports, get_report, override_analysis, list_properties,
}

-- A property with this id that the user may see.
abbrev pub MaySee : User → World → ℕ → Type 0
MaySee user w p = Any (Visible user p) w.db.properties

-- The report that a request overrides.
abbrev pub MayChange : User → World → Request → Type 0
MayChange user w (analysis id category urgency action) =
    (r : ReportRow) × (find_by report_key id w.db.reports ≡ some r) × MaySee user w r.property_id
MayChange user w _ = ⊥

abbrev pub IsAuthorised : User → World → Request → Response → Type 0
IsAuthorised user w request (page out) =
    All (λ (r : ReportOut). MaySee user w r.property_id) out.items
IsAuthorised user w request (one out) = MaySee user w out.property_id
IsAuthorised user w request (overridden out) = MayChange user w request
IsAuthorised user w request (choices props) = All (λ (p : PropertyOut). MaySee user w p.id) props

shown_MaySee :
    (user : User) (w : World) (x : Report) (y : ReportOut)
    → from_domain x ≡ ok y
    → Within (permitted_property_ids user w) x
    → MaySee user w y.property_id
unfolding from_domain
shown_MaySee user w x y h within = permitted_visible user y.property_id w (ground arith)

page-IsAuthorised :
    (user : User) (w : World) (xs : List Report) (items : List ReportOut) (limit : ℤ)
    (out : ReportListOut)
    → All (Within (permitted_property_ids user w)) xs
    → traverse from_domain xs ≡ ok items
    → to_list_out items limit ≡ ok out
    → All (λ (r : ReportOut). MaySee user w r.property_id) out.items
unfolding to_list_out
page-IsAuthorised user w xs items limit out within loaded made =
    let same : out.items ≡ items = ground arith in
    rw same (
      All-traverse (Within (permitted_property_ids user w)) (λ r. MaySee user w r.property_id)
        from_domain xs items (shown_MaySee user w) loaded within)

shown_ids :
    (rows all : List PropertyRow)
    → ((p : ℕ)
        → elem p (map (λ (r : PropertyRow). r.id) rows) ≡ true
        → elem p (map (λ (r : PropertyRow). r.id) all) ≡ true)
    → All
        (λ (p : PropertyOut). elem p.id (map (λ (r : PropertyRow). r.id) all) ≡ true)
        (map property_out (map property_to_domain rows))
unfolding property_out property_to_domain
shown_ids [] all h = tt
shown_ids (r ∷ rows) all h = (h r.id (ground arith), shown_ids rows all (λ p e. h p (ground arith)))

queue-IsAuthorised :
    (user : User) (cursor : Option ℕ) (limit : ℤ) (w : World) (out : ReportListOut)
    → (review_queue user cursor limit w).0 ≡ ok out
    → All (λ (r : ReportOut). MaySee user w r.property_id) out.items
unfolding review_queue
queue-IsAuthorised user cursor limit w out h =
    elim (Result-cases (Service.review_queue user cursor limit w).0) [
      | inr (x, e) ↦ absurd (ground arith)
      | inl (xs, e) ↦ elim (Result-cases (traverse from_domain xs)) [
        | inr (x, f) ↦ absurd (ground arith)
        | inl (items, f) ↦
            page-IsAuthorised user w xs items limit out
              (review_queue-Within user cursor limit w xs e) f (ground arith)
      ]
    ]

list-IsAuthorised :
    (user : User) (filters : ReportListFilters) (cursor : Option ℕ) (limit : ℤ) (w : World)
    (out : ReportListOut)
    → (list_reports user filters cursor limit w).0 ≡ ok out
    → All (λ (r : ReportOut). MaySee user w r.property_id) out.items
unfolding list_reports
list-IsAuthorised user filters cursor limit w out h =
    elim (Result-cases (Service.list_reports user filters cursor limit w).0) [
      | inr (x, e) ↦ absurd (ground arith)
      | inl (xs, e) ↦ elim (Result-cases (traverse from_domain xs)) [
        | inr (x, f) ↦ absurd (ground arith)
        | inl (items, f) ↦
            page-IsAuthorised user w xs items limit out
              (list_reports-Within user filters cursor limit w xs e) f (ground arith)
      ]
    ]

report-MaySee :
    (user : User) (id : ℕ) (w : World) (out : ReportOut)
    → (get_report user id w).0 ≡ ok out
    → MaySee user w out.property_id
unfolding get_report Service.get_report Repo.get from_domain report_insight.Db.report_to_domain
report-MaySee user id w out h = permitted_visible user out.property_id w (ground arith)

override-MayChange :
    (server : Server) (user : User) (id : ℕ) (c : Category) (u : Urgency) (a : Bool) (w : World)
    (out : ReportAnalysisOut)
    → (override_analysis server user id c u a w).0 ≡ ok out
    → MayChange user w (analysis id c u a)
unfolding override_analysis unit_of_work
override-MayChange server user id c u a w out h =
    elim (Result-cases (Service.override_analysis server user id c u a w).0) [
      | inr (x, e) ↦ absurd (ground arith)
      | inl (done, e) ↦
          let sound = override_sound server user id c u a w done e in (sound.0, sound.3, sound.4)
    ]

properties-MaySee :
    (user : User) (w : World) (out : List PropertyOut)
    → (list_properties user w).0 ≡ ok out
    → All (λ (p : PropertyOut). MaySee user w p.id) out
unfolding list_properties Service.list_properties report_insight.Repositories.User.list_properties
    permitted_property_ids
properties-MaySee user w out h =
    let rows = visible_properties user w in
    let made : List PropertyOut = map property_out (map property_to_domain rows) in
    let same : made ≡ out = ground arith in
    subst (All (λ (p : PropertyOut). MaySee user w p.id)) same (
      All-imp (λ (p : PropertyOut). elem p.id (permitted_property_ids user w) ≡ true)
        (λ (p : PropertyOut). MaySee user w p.id) made (λ p e. permitted_visible user p.id w e)
        (shown_ids rows rows (λ p e. e)))

-- Whatever is asked of these routes, an answer shows only reports and properties of what the user may see,
-- and an override that is answered was of a report of a property that the user may see.
pub serve-IsAuthorised :
    (server : Server) (user : User) (request : Request) (w : World) (response : Response)
    → (serve server user request w).0 ≡ ok response
    → IsAuthorised user w request response
unfolding serve
serve-IsAuthorised server user (queue cursor limit) w response h =
    elim (Result-cases (review_queue user cursor limit w).0) [
      | inr (x, e) ↦ absurd (ground arith)
      | inl (out, e) ↦
          let same : page out ≡ response = ground arith in
          subst (IsAuthorised user w (queue cursor limit)) same
            (queue-IsAuthorised user cursor limit w out e)
    ]
serve-IsAuthorised server user (reports filters cursor limit) w response h =
    elim (Result-cases (list_reports user filters cursor limit w).0) [
      | inr (x, e) ↦ absurd (ground arith)
      | inl (out, e) ↦
          let same : page out ≡ response = ground arith in
          subst (IsAuthorised user w (reports filters cursor limit)) same
            (list-IsAuthorised user filters cursor limit w out e)
    ]
serve-IsAuthorised server user (report id) w response h =
    elim (Result-cases (get_report user id w).0) [
      | inr (x, e) ↦ absurd (ground arith)
      | inl (out, e) ↦
          let same : one out ≡ response = ground arith in
          subst (IsAuthorised user w (report id)) same (report-MaySee user id w out e)
    ]
serve-IsAuthorised server user (analysis id c u a) w response h =
    elim (Result-cases (override_analysis server user id c u a w).0) [
      | inr (x, e) ↦ absurd (ground arith)
      | inl (out, e) ↦
          let same : overridden out ≡ response = ground arith in
          subst (IsAuthorised user w (analysis id c u a)) same
            (override-MayChange server user id c u a w out e)
    ]
serve-IsAuthorised server user properties w response h =
    elim (Result-cases (list_properties user w).0) [
      | inr (x, e) ↦ absurd (ground arith)
      | inl (out, e) ↦
          let same : choices out ≡ response = ground arith in
          subst (IsAuthorised user w properties) same (properties-MaySee user w out e)
    ]
