-- ===== src/Admin/Limits.antt =====
-- The page size that the service uses.
use report_insight.Base.{
  ℕ, ◌<◌, ◌≤◌, ◌≡◌, ap, inl, inr, true, false, Option, List, [], ◌∷◌, take, length, length-take-le,
  is_empty, filter, Bool-cases, ltb, ◌⊎◌, ℤ, pos, negsuc, arith,
}
use report_insight.Domain.{User, Report, ReportListFilters, Result, Result-cases, ok}
use report_insight.Db.{World, ReportRow, traverse}
use report_insight.Repositories.Report as Repo
use report_insight.Repositories.Report.{
  select_page, list_with_analysis, load, listed, joined, report_key, analysis_key,
}
use report_insight.Db.Table.{order_by_desc, find_by}
use report_insight.Repositories.User.{permitted_property_ids}
use report_insight.Admin.Service.{clamp, list_reports, max_page_size}

pub length-traverse :
    {A B : Type 0} (f : A → Result B) (xs : List A) (ys : List B)
    → traverse f xs ≡ ok ys
    → length ys ≡ length xs
unfolding traverse
length-traverse f [] ys h = ground arith
length-traverse f (x ∷ xs) ys h = elim (Result-cases (f x)) [
  | inr (e, failed) ↦ absurd (ground arith)
  | inl (b, got) ↦ elim (Result-cases (traverse f xs)) [
    | inr (e, failed) ↦ absurd (ground arith)
    | inl (bs, rest) ↦ ground (arith, length-traverse f xs bs rest)
  ]
]

-- The requested page size is not one that the service accepts.
abbrev pub Outside : ℤ → Type 0
Outside (pos n) = (n < 1) ⊎ (max_page_size < n)
Outside (negsuc _) = Unit

clamp_pos :
    (n : ℕ)
    → (ltb n 1 ≡ true) ⊎ (ltb n 1 ≡ false)
    → (ltb 100 n ≡ true) ⊎ (ltb 100 n ≡ false)
    → (pos n ≡ pos (clamp (pos n))) ⊎ Outside (pos n)
unfolding clamp
clamp_pos n (inl small) b = inr (inl (ground arith))
clamp_pos n (inr _) (inl large) = inr (inr (ground arith))
clamp_pos n (inr lo) (inr hi) = inl (ap pos (ground arith))

-- The page size is always between 1 and 100, and it is the requested one unless that is not between
-- 1 and 100.
pub clamp_bounds :
    (limit : ℤ)
    → (1 ≤ clamp limit)
      × (clamp limit ≤ max_page_size)
      × ((limit ≡ pos (clamp limit)) ⊎ Outside limit)
unfolding clamp
clamp_bounds (pos n) =
    (ground arith, ground arith, clamp_pos n (Bool-cases (ltb n 1)) (Bool-cases (ltb 100 n)))
clamp_bounds (negsuc n) = (omega arith, omega arith, inr tt)

length-select_page-le :
    (w : World) (rs : List Report) (n : ℕ) (rows : List ReportRow)
    → traverse (load w.db) (take n rows) ≡ ok rs
    → length rs ≤ n
length-select_page-le w rs n rows h =
    let same = length-traverse (load w.db) (take n rows) rs h in
    omega (arith, length-take-le n rows)

pub length-list_reports-le :
    (user : User) (filters : ReportListFilters) (cursor : Option ℕ) (limit : ℤ) (w : World)
    (rs : List Report)
    → (list_reports user filters cursor limit w).0 ≡ ok rs
    → length rs ≤ clamp limit
unfolding list_reports Repo.list_reports list_with_analysis select_page
length-list_reports-le user filters cursor limit w rs h =
    elim (Bool-cases (is_empty (permitted_property_ids user w))) [
      | inl empty ↦ ground arith
      | inr some_permitted ↦
          length-select_page-le w rs (clamp limit)
            (order_by_desc report_key (
              filter
                (λ r.
                  joined (listed filters (permitted_property_ids user w) cursor)
                    (find_by analysis_key r.id w.db.analyses) r)
                w.db.reports))
            (ground arith)
    ]
