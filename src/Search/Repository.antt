-- ===== src/Search/Repository.antt =====
-- `hybrid_search` and `existing_report_ids` of `SqlSearchRepository` (app/infra/db/repositories.py).
-- The distance of vectors is the database extension's, and a parameter.
use report_insight.Base.{
  not, any, ℕ, Bool, ◌==◌, ◌&&◌, ◌||◌, Option, some, List, [], ◌∷◌, map, filter, take, elem,
  is_empty, str_eq, leb, ltb, if◌then◌else◌,
}
use report_insight.Domain.{SearchHit, SearchFilters, Float, category_value}
use report_insight.Db.{Db, ReportRow, AnalysisRow, ChunkRow}
use report_insight.Db.Table.{find_by}
use report_insight.Repositories.Report.{report_key, analysis_key, when_given}

-- `embedding <=> query`, and `1 - distance`
pub record Vectors : Type 0 where
  pub cosine_distance : List Float → List Float → Float
  pub similarity : Float → Float

-- The conditions on a report and its analysis.
unfoldable pub searched : SearchFilters → List ℕ → ReportRow → AnalysisRow → Bool
searched filters permitted r a =
    elem r.property_id permitted
    && (when_given filters.property_id (λ p. r.property_id == p)
        && (when_given filters.category (λ c. str_eq a.category (category_value c))
            && (when_given filters.since (λ t. leb t r.reported_at)
                && when_given filters.to (λ t. leb r.reported_at t))))

abbrev pub hit_of : Vectors → List Float → ChunkRow → ReportRow → AnalysisRow → SearchHit
hit_of vectors query_vec c r a = record {
  report_id = r.id;
  property_id = r.property_id;
  content = c.content;
  summary = a.normalized_summary;
  reported_at = r.reported_at;
  similarity = vectors.similarity (vectors.cosine_distance c.embedding query_vec);
}

-- One row of the two joins, with its distance, if there is one.
abbrev pub joined_chunk :
    Vectors
    → List Float
    → SearchFilters
    → List ℕ
    → ChunkRow
    → Option ReportRow
    → Option AnalysisRow
    → List (Float × SearchHit)
    → List (Float × SearchHit)
joined_chunk vectors query_vec filters permitted c (some r) (some a) rest =
    if searched filters permitted r a
    then (vectors.cosine_distance c.embedding query_vec, hit_of vectors query_vec c r a) ∷ rest
    else rest
joined_chunk vectors query_vec filters permitted c _ _ rest = rest

unfoldable pub candidates :
    Vectors → List Float → SearchFilters → List ℕ → Db → List ChunkRow → List (Float × SearchHit)
unfolding find_by searched
candidates vectors query_vec filters permitted db [] = []
candidates vectors query_vec filters permitted db (c ∷ cs) =
    joined_chunk vectors query_vec filters permitted c (find_by report_key c.report_id db.reports)
      (find_by analysis_key c.report_id db.analyses)
      (candidates vectors query_vec filters permitted db cs)

-- `ORDER BY distance`
unfoldable pub insert_near : Float × SearchHit → List (Float × SearchHit) → List (Float × SearchHit)
insert_near h [] = h ∷ []
insert_near h (k ∷ ks) = if ltb k.0 h.0 then k ∷ insert_near h ks else h ∷ k ∷ ks

unfoldable pub nearest : List (Float × SearchHit) → List (Float × SearchHit)
unfolding insert_near
nearest [] = []
nearest (h ∷ hs) = insert_near h (nearest hs)

unfoldable pub hybrid_search :
    Vectors → List Float → SearchFilters → List ℕ → ℕ → Db → List SearchHit
unfolding candidates nearest
hybrid_search vectors query_vec filters permitted limit db =
    if is_empty permitted
    then []
    else map (λ (h : Float × SearchHit). h.1)
        (take limit (nearest (candidates vectors query_vec filters permitted db db.chunks)))

-- An id is bound to the statement as a 64-bit integer: the statement is run, and is refused.
unfoldable pub exceeds_int64 : List ℕ → List ℕ → Bool
exceeds_int64 ids permitted = not (is_empty permitted) && any (λ id. leb 9223372036854775808 id) ids

-- The ids, as the rows have them, where none of those asked for exceeds 64 bits.
unfoldable pub existing_report_ids : List ℕ → List ℕ → Db → List ℕ
existing_report_ids ids permitted db =
    if is_empty ids || is_empty permitted
    then []
    else map report_key
        (filter (λ (r : ReportRow). elem r.id ids && elem r.property_id permitted) db.reports)
