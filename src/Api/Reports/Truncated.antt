-- ===== src/Api/Reports/Truncated.antt =====
-- A limit that the service lowers and the list response compares with as it was asked.
use report_insight.Base.{ℕ, ◌<◌, ◌≤◌, ◌≡◌, inl, inr, Option, none, length, pos, List, arith}
use report_insight.Domain.{User, ReportListFilters, Result-cases, ok}
use report_insight.Db.{World, Server, traverse}
use report_insight.Admin.Service
use report_insight.Admin.Service.{max_page_size}
use report_insight.Admin.Limits.{clamp_bounds, length-list_reports-le, length-traverse}
use report_insight.Admin.Out.{ReportOut, ReportListOut, from_domain, to_list_out}
use report_insight.Api.Reports.{page, reports, serve, list_reports}

-- A short list has no cursor for a large limit.
short-no_cursor :
    (items : List ReportOut) (n : ℕ) (out : ReportListOut)
    → max_page_size < n
    → length items ≤ max_page_size
    → to_list_out items (pos n) ≡ ok out
    → (out.items ≡ items) × (out.next_cursor ≡ none)
unfolding to_list_out
short-no_cursor items n out large few made = (ground arith, ground arith)

-- The route for the list of reports, asked for more than 100: an answer has at most 100 reports, and it has
-- no cursor, even if there are more reports behind them.
pub large_limit_truncates :
    (server : Server) (user : User) (filters : ReportListFilters) (cursor : Option ℕ) (n : ℕ)
    (w : World) (out : ReportListOut)
    → max_page_size < n
    → (list_reports user filters cursor (pos n) w).0 ≡ ok out
    → (length out.items ≤ max_page_size)
      × (out.next_cursor ≡ none)
      × (serve server user (reports filters cursor (pos n)) w
          ≡ (ok (page out), (list_reports user filters cursor (pos n) w).1))
unfolding list_reports serve
large_limit_truncates server user filters cursor n w out large h =
    elim (Result-cases (Service.list_reports user filters cursor (pos n) w).0) [
      | inr (x, e) ↦ absurd (ground arith)
      | inl (xs, e) ↦ elim (Result-cases (traverse from_domain xs)) [
        | inr (x, f) ↦ absurd (ground arith)
        | inl (items, f) ↦
            let bound = length-list_reports-le user filters cursor (pos n) w xs e in
            let same = length-traverse from_domain xs items f in
            let most = (clamp_bounds (pos n)).1 in
            let few : length items ≤ max_page_size = omega arith in
            let shape = short-no_cursor items n out large few (ground arith) in
            (rw (shape.0) few, shape.1, ground arith)
      ]
    ]
