-- ===== src/Api/AdminTable.antt =====
-- What the rows of the report list in the admin screen may be, and what they are shown with.
use report_insight.Base.{
  false, ℕ, ◌≡◌, ◌≤◌, true, Bool, Bool-cases, Option, inl, inr, List, [], ◌∷◌, map, elem, take,
  length, All, All-imp, All-take, Any, ℤ, pos, suc, arith, Text, length-take-le, if◌then◌else◌,
  ◌==◌,
}
use report_insight.Domain.{User, Report, ReportListFilters, Result-cases, ok}
use report_insight.Db.{World, PropertyRow, property_to_domain}
use report_insight.Repositories.User.{permitted_property_ids, visible_properties}
use report_insight.Repositories.Access.{Visible, permitted_visible}
use report_insight.Admin.Service.{list_reports, review_queue, list_properties}
use report_insight.Api.UiShared.{resolve_user}
use report_insight.Api.MonthlyPages.{world-resolve_user}
use report_insight.Api.Reports.Within.{Within, list_reports-Within, review_queue-Within}
use report_insight.Api.AdminUi.{
  property_names, ReportsTable, page_size, page_of, admin_reports_partial,
}

named :
    (rows : List PropertyRow) (p : ℕ)
    → elem p (map (λ (r : PropertyRow). r.id) rows) ≡ true
    → Any (λ (n : ℕ × Text). n.0 ≡ p) (property_names (map property_to_domain rows))
unfolding property_to_domain
named [] p h = absurd (ground arith)
named (r ∷ rows) p h = elim (Bool-cases (r.id == p)) [
  | inl e ↦ inl (ground arith)
  | inr e ↦ inr (named rows p (ground arith))
]

abbrev pub fetched :
    User → Bool → ReportListFilters → Option ℕ → report_insight.Db.Exec (List Report)
fetched user queue filters cursor =
    if queue
    then review_queue user cursor (pos (suc page_size))
    else list_reports user filters cursor (pos (suc page_size))

fetched-Within :
    (user : User) (queue : Bool) (filters : ReportListFilters) (cursor : Option ℕ) (w : World)
    (rows : List Report)
    → (fetched user queue filters cursor w).0 ≡ ok rows
    → All (Within (permitted_property_ids user w)) rows
fetched-Within user true filters cursor w rows h =
    review_queue-Within user cursor (pos (suc page_size)) w rows h
fetched-Within user false filters cursor w rows h =
    list_reports-Within user filters cursor (pos (suc page_size)) w rows h

-- A row of a property that the user may see and that has a name.
abbrev IsShown : User → World → Report → Type 0
IsShown user w r =
    Any (Visible user r.property_id) w.db.properties
    × Any (λ (n : ℕ × Text). n.0 ≡ r.property_id)
        (property_names (map property_to_domain (visible_properties user w)))

-- A page of the report list, or of the queue, has at most twenty rows. Every row is a report of a property
-- that the user may see, and the page has a name for its property.
pub admin_reports_partial-Named :
    (uid : ℤ) (queue : Bool) (filters : ReportListFilters) (cursor : Option ℕ) (w : World)
    (shown : ReportsTable)
    → (admin_reports_partial uid queue filters cursor w).0 ≡ ok shown
    → (user : User) × ((resolve_user uid w).0 ≡ ok user)
      × (length shown.reports ≤ page_size)
      × All
          (λ (r : Report).
            Any (Visible user r.property_id) w.db.properties
            × Any (λ (n : ℕ × Text). n.0 ≡ r.property_id) shown.property_names)
          shown.reports
unfolding admin_reports_partial page_of list_properties
    report_insight.Repositories.User.list_properties permitted_property_ids
admin_reports_partial-Named uid queue filters cursor w shown h =
    elim (Result-cases (resolve_user uid w).0) [
      | inr (x, e) ↦ absurd (ground arith)
      | inl (user, e) ↦
          let same = world-resolve_user uid w in
          elim (Result-cases (fetched user queue filters cursor w).0) [
            | inr (x, f) ↦ absurd (ground arith)
            | inl (rows, f) ↦
                let reports : shown.reports ≡ take page_size rows = ground arith in
                let names : shown.property_names
                    ≡ property_names (map property_to_domain (visible_properties user w)) =
                  ground arith in
                (
                  user,
                  e,
                  rw reports (length-take-le page_size rows),
                  rw (reports, names)
                      (All-imp (Within (permitted_property_ids user w)) (IsShown user w)
                        (take page_size rows)
                        (λ r p. (
                          permitted_visible user r.property_id w p,
                          named (visible_properties user w) r.property_id p,
                        ))
                        (All-take (Within (permitted_property_ids user w)) page_size rows
                          (fetched-Within user queue filters cursor w rows f))),
                )
          ]
    ]
