-- ===== src/Search/Authorised.antt =====
-- Whose reports a search shows and names.
use report_insight.Base.{
  ℕ, ◌≡◌, refl, inl, inr, true, ◌&&◌, ◌||◌, &&-split, ◌==◌, zero, suc, ap, ◌∙◌, Option, none, some,
  List, [], ◌∷◌, map, filter, take, elem, All, All-imp, Any, arith, Bool-cases, is_empty, ltb,
}
use report_insight.Domain.{SearchFilters, SearchHit, Float}
use report_insight.Db.{Db, ReportRow, AnalysisRow, ChunkRow}
use report_insight.Db.Table.{find_by}
use report_insight.Repositories.Report.{report_key, analysis_key}
use report_insight.Search.Repository.{
  Vectors, searched, candidates, joined_chunk, insert_near, nearest, hybrid_search,
  existing_report_ids,
}

-- A report with this id is among the rows, and its property is permitted.
abbrev pub IsPermitted : List ℕ → ℕ → List ReportRow → Type 0
IsPermitted permitted id =
    Any (λ (r : ReportRow). (r.id ≡ id) × (elem r.property_id permitted ≡ true))

found-IsPermitted :
    (permitted : List ℕ) (id : ℕ) (rows : List ReportRow) (r : ReportRow)
    → find_by report_key id rows ≡ some r
    → elem r.property_id permitted ≡ true
    → IsPermitted permitted r.id rows
unfolding find_by
found-IsPermitted permitted id [] r h e = absurd (ground arith)
found-IsPermitted permitted id (s ∷ rows) r h e = elim (Bool-cases (report_key s == id)) [
  | inl same ↦
      let it : s ≡ r = ground arith in
      inl (
        ap (λ (x : ReportRow). x.id) it,
        ap (λ (x : ReportRow). elem x.property_id permitted) it ∙ e,
      )
  | inr other ↦ inr (found-IsPermitted permitted id rows r (ground arith) e)
]

-- A candidate and its report.
abbrev IsCandidate : List ℕ → Db → Float × SearchHit → Type 0
IsCandidate permitted db h = IsPermitted permitted h.1.report_id db.reports

module _ (vectors : Vectors) (vec : List Float) (filters : SearchFilters) (permitted : List ℕ)
    (db : Db) where
  searched-elem :
      (r : ReportRow) (a : AnalysisRow)
      → searched filters permitted r a ≡ true
      → elem r.property_id permitted ≡ true
  unfolding searched
  searched-elem r a h = ground arith

  joined_chunk-All :
      (c : ChunkRow) (report : Option ReportRow) (analysis : Option AnalysisRow)
      (rest : List (Float × SearchHit))
      → find_by report_key c.report_id db.reports ≡ report
      → All (IsCandidate permitted db) rest
      → All
          (IsCandidate permitted db)
          (joined_chunk vectors vec filters permitted c report analysis rest)
  joined_chunk-All c none none rest e all = all
  joined_chunk-All c none (some a) rest e all = all
  joined_chunk-All c (some r) none rest e all = all
  joined_chunk-All c (some r) (some a) rest e all =
      elim (Bool-cases (searched filters permitted r a)) [
        | inr out ↦ rw out all
        | inl found ↦
            rw found (
              found-IsPermitted permitted c.report_id db.reports r e (searched-elem r a found),
              all,
            )
      ]

  candidates-All :
      (cs : List ChunkRow)
      → All (IsCandidate permitted db) (candidates vectors vec filters permitted db cs)
  unfolding candidates
  candidates-All [] = tt
  candidates-All (c ∷ cs) =
      joined_chunk-All c (find_by report_key c.report_id db.reports)
        (find_by analysis_key c.report_id db.analyses)
        (candidates vectors vec filters permitted db cs) refl (candidates-All cs)

All-insert_near :
    (P : Float × SearchHit → Type 0) (h : Float × SearchHit) (ks : List (Float × SearchHit))
    → P h
    → All P ks
    → All P (insert_near h ks)
unfolding insert_near
All-insert_near P h [] p all = (p, tt)
All-insert_near P h (k ∷ ks) p all = elim (Bool-cases (ltb k.0 h.0)) [
  | inl e ↦ rw e (all.0, All-insert_near P h ks p all.1)
  | inr e ↦ rw e (p, all)
]

All-nearest :
    (P : Float × SearchHit → Type 0) (hs : List (Float × SearchHit)) → All P hs → All P (nearest hs)
unfolding nearest
All-nearest P [] all = tt
All-nearest P (h ∷ hs) all = All-insert_near P h (nearest hs) all.0 (All-nearest P hs all.1)

All-page :
    (P : SearchHit → Type 0) (n : ℕ) (hs : List (Float × SearchHit))
    → All (λ (h : Float × SearchHit). P h.1) hs
    → All P (map (λ (h : Float × SearchHit). h.1) (take n hs))
All-page P zero hs all = tt
All-page P (suc n) [] all = tt
All-page P (suc n) (h ∷ hs) all = (all.0, All-page P n hs all.1)

pub hits-IsPermitted :
    (vectors : Vectors) (vec : List Float) (filters : SearchFilters) (permitted : List ℕ) (n : ℕ)
    (db : Db)
    → All
        (λ (h : SearchHit). IsPermitted permitted h.report_id db.reports)
        (hybrid_search vectors vec filters permitted n db)
unfolding hybrid_search
hits-IsPermitted vectors vec filters permitted n db = elim (Bool-cases (is_empty permitted)) [
  | inl e ↦ rw e tt
  | inr e ↦ rw e (
      All-page (λ h. IsPermitted permitted h.report_id db.reports) n
        (nearest (candidates vectors vec filters permitted db db.chunks))
        (All-nearest (IsCandidate permitted db)
          (candidates vectors vec filters permitted db db.chunks)
          (candidates-All vectors vec filters permitted db db.chunks)))
]

-- The id is cited, and it is that of a permitted report.
abbrev pub IsReal : List ℕ → List ℕ → List ReportRow → ℕ → Type 0
IsReal ids permitted rows i = (elem i ids ≡ true) × IsPermitted permitted i rows

filtered-IsReal :
    (ids permitted : List ℕ) (rows : List ReportRow)
    → All (IsReal ids permitted rows) (
        map report_key
          (filter (λ (r : ReportRow). elem r.id ids && elem r.property_id permitted) rows))
filtered-IsReal ids permitted [] = tt
filtered-IsReal ids permitted (r ∷ rows) =
    let later =
      All-imp (IsReal ids permitted rows) (IsReal ids permitted (r ∷ rows))
        (map report_key
          (filter (λ (r : ReportRow). elem r.id ids && elem r.property_id permitted) rows))
        (λ i h. (h.0, inr h.1)) (filtered-IsReal ids permitted rows) in
    elim (Bool-cases (elem r.id ids && elem r.property_id permitted)) [
      | inr e ↦ rw e later
      | inl e ↦
          let both = &&-split (elem r.id ids) (elem r.property_id permitted) e in
          rw e ((both.0, inl (refl, both.1)), later)
    ]

pub existing-IsReal :
    (ids permitted : List ℕ) (db : Db)
    → All (IsReal ids permitted db.reports) (existing_report_ids ids permitted db)
unfolding existing_report_ids
existing-IsReal ids permitted db = elim (Bool-cases (is_empty ids || is_empty permitted)) [
  | inl e ↦ rw e tt
  | inr e ↦ rw e (filtered-IsReal ids permitted db.reports)
]
