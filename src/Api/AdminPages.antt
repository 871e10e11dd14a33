-- ===== src/Api/AdminPages.antt =====
-- The pages of the admin screen, which fetch one row more than they show.
use report_insight.Base.{
  ℕ, zero, suc, ◌<◌, ◌≤◌, ◌≡◌, ◌∙◌, ap, sym, refl, subst, Bool, ◌&&◌, Option, none, some, List, [],
  ◌∷◌, ◌++◌, take, drop, filter, length, take-append-drop, append-nil, arith, ltb, Bool-cases, inl,
  inr,
}
use report_insight.Db.{Db, ReportRow, AnalysisRow}
use report_insight.Db.Paging.{
  Distinct, Descends, Descends-filter, Descends-order_by_desc, last, last-le, filter-after_page,
}
use report_insight.Db.Table.{order_by_desc}
use report_insight.Db.Walk.{before, before-before, length-drop-le, filter-always}
use report_insight.Repositories.Report.{report_key, select_page}
use report_insight.Admin.Pages.{matching, page_fetches, row_test}
use report_insight.Api.AdminUi.{page_size, page_of, last_key}

module _ {A : Type 0} (key : A → ℕ) where
  abbrev pub shown_key : A → Option ℕ
  shown_key a = some (key a)

  -- The rows of all pages, from a cursor on, for somebody who follows `next_cursor`.
  unfoldable pub browse : ℕ → (Option ℕ → List A) → ℕ → Option ℕ → List A
  unfolding page_of
  browse size fetch zero c = []
  browse size fetch (suc fuel) c =
      (page_of size shown_key (fetch c)).0 ++ elim (page_of size shown_key (fetch c)).1 [
        | none ↦ []
        | some k ↦ browse size fetch fuel (some k)
      ]

  last_key-last : (x : A) (xs : List A) → last_key shown_key (x ∷ xs) ≡ some (key (last key x xs))
  unfolding last_key
  last_key-last x [] = refl
  last_key-last x (y ∷ xs) = last_key-last y xs

  take_twice : (n m : ℕ) (xs : List A) → n ≤ m → take n (take m xs) ≡ take n xs
  take_twice zero m xs h = refl
  take_twice (suc n) zero xs h = absurd (omega arith)
  take_twice (suc n) (suc m) [] h = refl
  take_twice (suc n) (suc m) (x ∷ xs) h = ap (◌∷◌ x) (take_twice n m xs (omega arith))

  take_more : (n : ℕ) (xs : List A) → length (take (suc n) xs) ≤ n → take n (take (suc n) xs) ≡ xs
  take_more zero [] h = refl
  take_more (suc n) [] h = refl
  take_more zero (x ∷ xs) h = absurd (omega arith)
  take_more (suc n) (x ∷ xs) h = ap (◌∷◌ x) (take_more n xs (omega arith))

  module _ (rows : List A) (descends : Descends key rows) (l : ℕ) (fetch : Option ℕ → List A)
      (fetches : (c : Option ℕ) → fetch c ≡ take (suc (suc l)) (filter (before key c) rows)) where
    pub browse-all :
        (fuel : ℕ) (c : Option ℕ)
        → length (filter (before key c) rows) < fuel
        → browse (suc l) fetch fuel c ≡ filter (before key c) rows
    unfolding browse
    browse-all zero c h = absurd (omega arith)
    browse-all (suc fuel) c h =
        step (filter (before key c) rows) refl (λ k. browse-all fuel (some k))
      where
        step :
            (m : List A)
            → filter (before key c) rows ≡ m
            → ((k : ℕ)
                → length (filter (before key (some k)) rows) < fuel
                → browse (suc l) fetch fuel (some k) ≡ filter (before key (some k)) rows)
            → browse (suc l) fetch (suc fuel) c ≡ filter (before key c) rows
        step [] e ih =
            let page : fetch c ≡ [] = fetches c ∙ ap (take (suc (suc l))) e in
            rw (page, e, page_of) (ground arith)
        step (x ∷ xs) e ih =
            let page : fetch c ≡ take (suc (suc l)) (x ∷ xs) =
              fetches c ∙ ap (take (suc (suc l))) e in
            elim (Bool-cases (ltb (suc l) (length (take (suc (suc l)) (x ∷ xs))))) [
              | inr short ↦
                  rw (page, page_of, short, e, append-nil)
                    (take_more (suc l) (x ∷ xs) (ground arith))
              | inl full ↦
                  let k : ℕ = key (last key x (take l xs)) in
                  let d : Descends key (x ∷ xs) =
                    subst (Descends key) e (Descends-filter key (before key c) rows descends) in
                  let tail : filter (before key (some k)) rows ≡ drop l xs =
                    sym (before-before key c k x xs rows e (last-le key l x xs d))
                    ∙ (ap (filter (before key (some k))) e ∙ filter-after_page key l x xs d) in
                  let fits : length (x ∷ xs) < suc fuel = subst (λ m. length m < suc fuel) e h in
                  let enough : length (filter (before key (some k)) rows) < fuel =
                    rw tail (omega (arith, length-drop-le l xs)) in
                  let shown : take l (take (suc l) xs) ≡ take l xs =
                    take_twice l (suc l) xs (omega arith) in
                  rw (page, page_of, full, shown, last_key-last x (take l xs), e)
                    (ap (λ t. x ∷ (take l xs ++ t)) (ih k enough ∙ tail)
                      ∙ ap (◌∷◌ x) (take-append-drop l xs))
            ]

-- The rows of the pages, one page behind the other.
pub complete :
    (p : Option ℕ → ReportRow → AnalysisRow → Bool)
    (splits : (c : Option ℕ) (r : ReportRow) (a : AnalysisRow)
      → p c r a ≡ (p none r a && before report_key c r))
    (db : Db) (fuel : ℕ)
    → Distinct report_key db.reports
    → length (matching (p none) db) < fuel
    → browse report_key page_size (λ c. select_page (p c) (suc page_size) db) fuel none
      ≡ matching (p none) db
unfolding row_test
complete p splits db fuel d few =
    browse-all report_key (matching (p none) db)
      (Descends-filter report_key (row_test p splits db none) (order_by_desc report_key db.reports)
        (Descends-order_by_desc report_key db.reports d))
      19 (λ c. select_page (p c) (suc page_size) db)
      (λ c. page_fetches p splits db (suc page_size) c d) fuel none
      (subst (λ (rows : List ReportRow). length rows < fuel)
        (sym (filter-always (matching (p none) db))) few)
    ∙ filter-always (matching (p none) db)
