-- ===== src/Search/Sound.antt =====
-- What the events of a search say.
use report_insight.Base.{
  Bool-cases, ℕ, ◌≡◌, refl, inl, inr, sym, ap, subst, List, [], ◌∷◌, ◌++◌, map, All, Text, Option,
  arith,
}
use report_insight.Domain.{
  User, SearchFilters, SearchHit, LlmCallMeta, Error, Float, search_top_k, Result, ok, err,
  Result-cases,
}
use report_insight.Db.{Db, World, Effect}
use report_insight.Repositories.User.{permitted_property_ids}
use report_insight.Search.Repository.{hybrid_search, existing_report_ids, exceeds_int64}
use report_insight.Search.Citations.{parse_citations, All-sorted_set, Ascends, Ascends-sorted_set}
use report_insight.Search.Service.{
  SearchPorts, SearchEvent, SourceItem, DoneEvent, sources, token, done, no_results, join,
  valid_citations, source_item, finish, answer, search, done_event,
}
use report_insight.Search.Authorised.{IsPermitted, IsReal, hits-IsPermitted, existing-IsReal}

-- The answer that the user has read.
abbrev pub answer_text : List SearchEvent → Text
answer_text [] = []
answer_text (token t ∷ es) = t ++ answer_text es
answer_text (sources _ ∷ es) = answer_text es
answer_text (done _ ∷ es) = answer_text es
answer_text (no_results ∷ es) = answer_text es

-- Every source is a permitted report, and every citation is one that the answer names; the citations
-- ascend.
abbrev pub IsSound : (ℕ → Option ℕ) → Text → List ℕ → Db → SearchEvent → Type 0
IsSound decimal said permitted db (sources items) =
    All (λ (s : SourceItem). IsPermitted permitted s.id db.reports) items
IsSound decimal said permitted db (done d) =
    All (IsReal (parse_citations decimal said) permitted db.reports) d.citations
    × Ascends d.citations
IsSound decimal said permitted db (token _) = Unit
IsSound decimal said permitted db no_results = Unit

answer_text-tokens :
    (ts : List Text) (d : DoneEvent) → answer_text (map token ts ++ done d ∷ []) ≡ join ts
unfolding join
answer_text-tokens [] d = refl
answer_text-tokens (t ∷ ts) d = ap (λ s. t ++ s) (answer_text-tokens ts d)

All-tokens :
    (P : SearchEvent → Type 0) (ts : List Text) (es : List SearchEvent)
    → ((t : Text) → P (token t))
    → All P es
    → All P (map token ts ++ es)
All-tokens P [] es p all = all
All-tokens P (t ∷ ts) es p all = (p t, All-tokens P ts es p all)

All-tokens_alone :
    (P : SearchEvent → Type 0) (ts : List Text) → ((t : Text) → P (token t)) → All P (map token ts)
All-tokens_alone P [] p = tt
All-tokens_alone P (t ∷ ts) p = (p t, All-tokens_alone P ts p)

All-source_items :
    (ports : SearchPorts) (permitted : List ℕ) (db : Db) (hits : List SearchHit)
    → All (λ (h : SearchHit). IsPermitted permitted h.report_id db.reports) hits
    → All (λ (s : SourceItem). IsPermitted permitted s.id db.reports) (map (source_item ports) hits)
All-source_items ports permitted db [] all = tt
All-source_items ports permitted db (h ∷ hs) all =
    (all.0, All-source_items ports permitted db hs all.1)

module _ (ports : SearchPorts) (permitted : List ℕ) where
  finish-IsSound :
      (hits : List SearchHit) (tokens : List Text) (usage : Result LlmCallMeta) (w : World)
      → All (λ (h : SearchHit). IsPermitted permitted h.report_id w.db.reports) hits
      → All
          (IsSound ports.decimal
            (answer_text (finish ports permitted hits tokens usage w).0.0)
            permitted
            w.db)
          (finish ports permitted hits tokens usage w).0.0
  unfolding finish valid_citations
  finish-IsSound hits tokens (err e) w all = (
    All-source_items ports permitted w.db hits all,
    All-tokens_alone (IsSound ports.decimal (answer_text (map token tokens)) permitted w.db) tokens
        (λ t. tt),
  )
  finish-IsSound hits tokens (ok usage) w all =
      let cites = parse_citations ports.decimal (join tokens) in
      elim (Bool-cases (exceeds_int64 cites permitted)) [
        | inl large ↦ rw large (
          All-source_items ports permitted w.db hits all,
          All-tokens_alone (IsSound ports.decimal (answer_text (map token tokens)) permitted w.db)
              tokens (λ t. tt),
        )
        | inr fits ↦ rw fits (
            let cited = parse_citations ports.decimal (join tokens) in
            let d = done_event ports (valid_citations ports permitted tokens w) tokens usage in
            subst
              (λ (said : Text).
                All (IsSound ports.decimal said permitted w.db)
                  (sources (map (source_item ports) hits) ∷ (map token tokens ++ done d ∷ [])))
              (sym (answer_text-tokens tokens d))
              (
                All-source_items ports permitted w.db hits all,
                All-tokens (IsSound ports.decimal (join tokens) permitted w.db) tokens (done d ∷ [])
                    (λ t. tt)
                    (
                      (
                        All-sorted_set (IsReal cited permitted w.db.reports)
                            (existing_report_ids cited permitted w.db)
                            (existing-IsReal cited permitted w.db),
                        Ascends-sorted_set (existing_report_ids cited permitted w.db),
                      ),
                      tt,
                    ),
              ))
      ]

  answer-IsSound :
      (query : Text) (hits : List SearchHit) (w : World)
      → All (λ (h : SearchHit). IsPermitted permitted h.report_id w.db.reports) hits
      → All
          (IsSound ports.decimal
            (answer_text (answer ports permitted query hits w).0.0)
            permitted
            w.db)
          (answer ports permitted query hits w).0.0
  unfolding answer
  answer-IsSound query [] w all = (tt, tt)
  answer-IsSound query (h ∷ hs) w all =
      finish-IsSound (h ∷ hs) (ports.stream_answer query (h ∷ hs)).0
        (ports.stream_answer query (h ∷ hs)).1
        (record w { effects = Effect.stream_answer query (h ∷ hs) ∷ w.effects }) all

-- A search whose query has been embedded, or not.
pub search-ok :
    (ports : SearchPorts) (user : User) (query : Text) (filters : SearchFilters) (w : World)
    (vec : List Float)
    → ports.embed_query query ≡ ok vec
    → search ports user query filters w
      ≡ answer ports
          (permitted_property_ids user w)
          query
          (hybrid_search ports.vectors vec filters
            (permitted_property_ids user w)
            search_top_k
            w.db)
          (record w { effects = Effect.incr "search_total" ∷ w.effects })
unfolding search
search-ok ports user query filters w vec h = ground arith

pub search-err :
    (ports : SearchPorts) (user : User) (query : Text) (filters : SearchFilters) (w : World)
    (e : Error)
    → ports.embed_query query ≡ err e
    → search ports user query filters w ≡ (([], err e), w)
unfolding search
search-err ports user query filters w e h = ground arith

-- All events that were sent are sound.
abbrev AllSound :
    SearchPorts → List ℕ → Db → (List SearchEvent × Result (Unit {0})) × World → Type 0
AllSound ports permitted db s = All (IsSound ports.decimal (answer_text s.0.0) permitted db) s.0.0

-- Whatever the language model writes, and however the stream ends, a search shows a user no report
-- that is not permitted and no invented one: every source is a report of a permitted property, and every
-- citation is one too, named in the answer that was sent; the citations ascend, so that none is
-- repeated.
pub search-IsSound :
    (ports : SearchPorts) (user : User) (query : Text) (filters : SearchFilters) (w : World)
    → All
        (IsSound ports.decimal
          (answer_text (search ports user query filters w).0.0)
          (permitted_property_ids user w)
          w.db)
        (search ports user query filters w).0.0
search-IsSound ports user query filters w = elim (Result-cases (ports.embed_query query)) [
  | inr (e, failed) ↦
      subst (AllSound ports (permitted_property_ids user w) w.db)
        (sym (search-err ports user query filters w e failed)) tt
  | inl (vec, embedded) ↦
      subst (AllSound ports (permitted_property_ids user w) w.db)
        (sym (search-ok ports user query filters w vec embedded))
        (answer-IsSound ports (permitted_property_ids user w) query
          (hybrid_search ports.vectors vec filters (permitted_property_ids user w) search_top_k
            w.db)
          (record w { effects = Effect.incr "search_total" ∷ w.effects })
          (hits-IsPermitted ports.vectors vec filters (permitted_property_ids user w) search_top_k
            w.db))
]
