-- ===== src/Api/MonthlyPages.antt =====
-- The PDF of a monthly report, and the form that asks for one.
use report_insight.Base.{
  ℕ, ◌≡◌, ◌⊎◌, inl, inr, String, Option, some, none, List, Text, ℤ, pos, negsuc, Any, arith,
  Option-cases,
}
use report_insight.Domain.{
  Date, User, MonthlyReport, draft, approved, Error, Result, ok, err, Result-cases,
}
use report_insight.Db.{World, MonthlyRow, monthly_to_domain, user_to_domain, unit_of_work}
use report_insight.Repositories.Monthly as Repo
use report_insight.Repositories.Monthly.{get_internal}
use report_insight.Repositories.User
use report_insight.Repositories.Access.{Visible, permitted_visible}
use report_insight.Monthly.Service
use report_insight.Monthly.Jobs.{Setup, System, create_monthly_report}
use report_insight.Monthly.Frame.{row_of}
use report_insight.Api.UiShared.{resolve_user}
use report_insight.Api.MonthlyUi.{monthly_generate, pdf_of, pdf_title}

-- A PDF is given only of a draft or an approved report of a property that the user may see; it is what
-- the renderer makes of the title and the body of that report, and giving it changes nothing.
pub pdf_of_sound :
    (render : Text → Text → Result (List ℕ)) (user : User) (k : ℕ) (w : World) (bytes : List ℕ)
    → (pdf_of render user k w).0 ≡ ok bytes
    → (r : MonthlyRow) × (m : MonthlyReport) × (row_of k w ≡ some r)
      × (monthly_to_domain r ≡ ok m)
      × Any (Visible user r.property_id) w.db.properties
      × ((m.status ≡ draft) ⊎ (m.status ≡ approved))
      × (render (pdf_title m) r.body_markdown ≡ ok bytes)
      × ((pdf_of render user k w).1 ≡ w)
unfolding pdf_of Service.get Repo.get get_internal monthly_to_domain
pdf_of_sound render user k w bytes h = elim (Option-cases (row_of k w)) [
  | inl missing ↦ absurd (ground arith)
  | inr (r, found) ↦ elim (Result-cases (monthly_to_domain r)) [
    | inr (e, broken) ↦ absurd (ground arith)
    | inl (m, decoded) ↦ (
      r,
      m,
      found,
      decoded,
      permitted_visible user r.property_id w (ground arith),
      ground arith,
      ground arith,
      ground arith,
    )
  ]
]

pub world-resolve_user : (uid : ℤ) (w : World) → (resolve_user uid w).1 ≡ w
unfolding resolve_user User.get user_to_domain
world-resolve_user (pos id) w = ground arith
world-resolve_user (negsuc n) w = ground arith

-- The form that asks for a monthly report does what the request of the API does, with the user of its
-- query and the date of its field; or the user cannot be resolved or the date cannot be read, and then
-- it does nothing.
pub monthly_generate-eq :
    (setup : Setup) (from_iso : String → Option Date) (uid : ℤ) (p : ℕ) (month : String)
    (s : System)
    → ((user : User) × (day : Date) × ((resolve_user uid s.world).0 ≡ ok user)
        × (from_iso month ≡ some day)
        × (monthly_generate setup from_iso uid p month s
            ≡ create_monthly_report setup user p day s))
      ⊎ ((((e : Error) × ((resolve_user uid s.world).0 ≡ err e)) ⊎ (from_iso month ≡ none))
          × (monthly_generate setup from_iso uid p month s ≡ s))
unfolding monthly_generate create_monthly_report unit_of_work
monthly_generate-eq setup from_iso uid p month s =
    elim (Result-cases (resolve_user uid s.world).0) [
      | inr (e, unknown) ↦ inr (inl (e, unknown), ground (arith, world-resolve_user uid s.world))
      | inl (user, known) ↦ elim (Option-cases (from_iso month)) [
        | inl e ↦ inr (inr e, ground (arith, world-resolve_user uid s.world))
        | inr (day, e) ↦ inl (user, day, known, e, ground (arith, world-resolve_user uid s.world))
      ]
    ]
