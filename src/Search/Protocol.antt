-- ===== src/Search/Protocol.antt =====
-- The order of the events of a search, and when the language model is asked.
use report_insight.Base.{
  Bool-cases, ℕ, ◌≡◌, ◌≢◌, ◌⊎◌, refl, inl, inr, List, [], ◌∷◌, ◌++◌, map, All, Text, arith,
}
use report_insight.Domain.{
  User, SearchFilters, SearchHit, Error, external, search_top_k, Result, ok, err, Result-cases,
}
use report_insight.Db.{World, Effect}
use report_insight.Repositories.User.{permitted_property_ids}
use report_insight.Search.Repository.{hybrid_search, exceeds_int64}
use report_insight.Search.Service.{
  SearchPorts, SearchEvent, DoneEvent, sources, token, done, no_results, valid_citations,
  source_item, join, finish, answer, search, done_event,
}
use report_insight.Search.Citations.{parse_citations}
use report_insight.Search.Authorised.{IsPermitted, hits-IsPermitted}
use report_insight.Search.Sound.{search-ok, search-err}

-- The calls of the language model for an answer, the newest first.
abbrev pub asked : List Effect → List (Text × List SearchHit)
asked [] = []
asked (Effect.stream_answer q hits ∷ es) = (q, hits) ∷ asked es
asked (Effect.incr _ ∷ es) = asked es
asked (Effect.emit_tokens _ _ ∷ es) = asked es
asked (Effect.classify_report _ ∷ es) = asked es
asked (Effect.narrate_monthly _ _ ∷ es) = asked es
asked (Effect.notify_urgent _ _ ∷ es) = asked es
asked (Effect.delete_message _ ∷ es) = asked es

-- The sources, then tokens, then the end or an exception; the language model was asked once, with
-- the hits that the sources name, of which there is one at least, and all are permitted.
abbrev pub Answered :
    SearchPorts → Text → List ℕ → World → (List SearchEvent × Result (Unit {0})) × World → Type 0
Answered ports query permitted w s =
    (hits : List SearchHit) × (tokens : List Text) × (hits ≢ [])
    × All (λ (h : SearchHit). IsPermitted permitted h.report_id w.db.reports) hits
    × (asked s.1.effects ≡ (query, hits) ∷ asked w.effects)
    × (((e : Error) × (s.0 ≡ (sources (map (source_item ports) hits) ∷ map token tokens, err e)))
        ⊎ ((d : DoneEvent) × (s.0 ≡ (
          sources (map (source_item ports) hits) ∷ (map token tokens ++ done d ∷ []),
          ok tt,
        ))))

-- Nothing but an exception, or nothing but `no_results`; the language model was not asked.
abbrev pub Unanswered : World → (List SearchEvent × Result (Unit {0})) × World → Type 0
Unanswered w s =
    (asked s.1.effects ≡ asked w.effects)
    × (((e : Error) × (s.0 ≡ ([], err e))) ⊎ (s.0 ≡ (no_results ∷ [], ok tt)))

answer-kept :
    (ports : SearchPorts) (permitted : List ℕ) (query : Text) (hits : List SearchHit) (w : World)
    → All (λ (h : SearchHit). IsPermitted permitted h.report_id w.db.reports) hits
    → let s =
        answer ports permitted query hits
          (record w { effects = Effect.incr "search_total" ∷ w.effects }) in
      (s.1.db ≡ w.db) × (Unanswered w s ⊎ Answered ports query permitted w s)
unfolding answer finish
answer-kept ports permitted query [] w all = (refl, inl (refl, inr refl))
answer-kept ports permitted query (h ∷ hs) w all =
    elim (Result-cases (ports.stream_answer query (h ∷ hs)).1) [
      | inr (e, broken) ↦ rw broken (
        refl,
        inr (
          h ∷ hs,
          (ports.stream_answer query (h ∷ hs)).0,
          (λ empty. absurd (ground arith)),
          all,
          refl,
          inl (e, refl),
        ),
      )
      | inl (usage, complete) ↦
          let said = join (ports.stream_answer query (h ∷ hs)).0 in
          elim (Bool-cases (exceeds_int64 (parse_citations ports.decimal said) permitted)) [
            | inl large ↦
                rw (complete, large)
                  (
                    refl,
                    inr (
                      h ∷ hs,
                      (ports.stream_answer query (h ∷ hs)).0,
                      (λ empty. absurd (ground arith)),
                      all,
                      refl,
                      inl (external, refl),
                    ),
                  )
            | inr fits ↦
                rw (complete, fits)
                  (
                    refl,
                    inr (
                      h ∷ hs,
                      (ports.stream_answer query (h ∷ hs)).0,
                      (λ empty. absurd (ground arith)),
                      all,
                      refl,
                      inr (
                        done_event ports
                            (valid_citations ports permitted (ports.stream_answer query (h ∷ hs)).0
                              (record w {
                                effects =
                                    Effect.stream_answer query (h ∷ hs)
                                    ∷ Effect.incr "search_total"
                                    ∷ w.effects;
                              }))
                            (ports.stream_answer query (h ∷ hs)).0 usage,
                        refl,
                      ),
                    ),
                  )
          ]
    ]

-- A search keeps the protocol of its events, on every path: it sends only an exception, or only
-- `no_results`, and then has not asked the language model; or it sends the sources, then tokens, then
-- `done` or an exception, and has asked the language model once, about the hits that the sources
-- name, of which there is one at least, each of a permitted property. It writes to no table.
pub search_protocol :
    (ports : SearchPorts) (user : User) (query : Text) (filters : SearchFilters) (w : World)
    → ((search ports user query filters w).1.db ≡ w.db)
      × (Unanswered w (search ports user query filters w)
          ⊎ Answered ports query
              (permitted_property_ids user w)
              w
              (search ports user query filters w))
search_protocol ports user query filters w = elim (Result-cases (ports.embed_query query)) [
  | inr (e, failed) ↦
      rw (search-err ports user query filters w e failed) (refl, inl (refl, inl (e, refl)))
  | inl (vec, embedded) ↦ rw (search-ok ports user query filters w vec embedded) (
      answer-kept ports (permitted_property_ids user w) query
        (hybrid_search ports.vectors vec filters (permitted_property_ids user w) search_top_k w.db)
        w
        (hits-IsPermitted ports.vectors vec filters (permitted_property_ids user w) search_top_k
          w.db))
]
